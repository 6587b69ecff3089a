-- ===== src/Chars/Plain.antt =====
-- The bit operations of the conversions as plain arithmetic.
use meta_ffi_project.Shared.{
  ℕ, ◌+◌, ◌*◌, ◌/◌, ◌%◌, ◌≤◌, ◌<◌, bit_or, ◌≡◌, ◌⊎◌, none, some, ltb, if◌then◌else◌, arith,
}
use meta_ffi_project.Shared.Bits.{
  bit_or-shift, bit_and_63, bit_and_1f, bit_and_0f, bit_and_07, bit_and_80, bit_and_e0, bit_and_f0,
  bit_and_f8, bit_or_80, bit_or_c0, bit_or_e0, bit_or_f0,
}
use meta_ffi_project.Chars.{Char8}
use meta_ffi_project.Chars.Utf8.{num_of_bytes, two_bytes, three_bytes, four_bytes}
use meta_ffi_project.Chars.Utf32.{to_char8}

-- The ranges of the first byte.
pub num_of_bytes_lem :
    (b : ℕ)
    → b < 256
    → num_of_bytes b ≡ (
        if ltb b 0x80
        then some 1
        else if ltb b 0xc0
        then none
        else if ltb b 0xe0
        then some 2
        else if ltb b 0xf0
        then some 3
        else if ltb b 0xf8
        then some 4
        else none)
unfolding num_of_bytes
num_of_bytes_lem b h = ground (arith, bit_and_80 b, bit_and_e0 b, bit_and_f0 b, bit_and_f8 b)

pub two_bytes_lem : (u : Char8) → u.c0 < 256 → two_bytes u ≡ u.c0 % 32 * 64 + u.c1 % 64
unfolding two_bytes
two_bytes_lem u h =
    rw (bit_and_1f u.c0 h, bit_and_63 u.c1) (bit_or-shift 6 (u.c0 % 32) (u.c1 % 64) (omega arith))

-- Groups of six bits, put together by shifts and `|`.
join_three :
    (a b c : ℕ) → b < 64 → c < 64 → bit_or (bit_or (a * 4096) (b * 64)) c ≡ a * 4096 + b * 64 + c
join_three a b c hb hc =
    let outer : bit_or (a * 4096) (b * 64) ≡ (a * 64 + b) * 64 =
      omega (arith, bit_or-shift 12 a (b * 64) (omega arith)) in
    rw outer (omega (arith, bit_or-shift 6 (a * 64 + b) c (omega arith)))

join_four :
    (a b c d : ℕ)
    → b < 64
    → c < 64
    → d < 64
    → bit_or (bit_or (bit_or (a * 262144) (b * 4096)) (c * 64)) d
      ≡ a * 262144 + b * 4096 + c * 64 + d
join_four a b c d hb hc hd =
    let outer : bit_or (a * 262144) (b * 4096) ≡ (a * 64 + b) * 4096 =
      omega (arith, bit_or-shift 18 a (b * 4096) (omega arith)) in
    rw outer (omega (arith, join_three (a * 64 + b) c d hc hd))

pub three_bytes_lem :
    (u : Char8) → u.c0 < 256 → three_bytes u ≡ u.c0 % 16 * 4096 + u.c1 % 64 * 64 + u.c2 % 64
unfolding three_bytes
three_bytes_lem u h =
    rw (bit_and_0f u.c0 h, bit_and_63 u.c1, bit_and_63 u.c2)
      (join_three (u.c0 % 16) (u.c1 % 64) (u.c2 % 64) (omega arith) (omega arith))

pub four_bytes_lem :
    (u : Char8)
    → u.c0 < 256
    → four_bytes u ≡ u.c0 % 8 * 262144 + u.c1 % 64 * 4096 + u.c2 % 64 * 64 + u.c3 % 64
unfolding four_bytes
four_bytes_lem u h =
    rw (bit_and_07 u.c0 h, bit_and_63 u.c1, bit_and_63 u.c2, bit_and_63 u.c3)
      (join_four (u.c0 % 8) (u.c1 % 64) (u.c2 % 64) (u.c3 % 64) (omega arith) (omega arith)
        (omega arith))

-- The bytes that the conversion of a code point writes, by its range.
pub to_char8_one :
    (c : ℕ) → c < 0x80 → to_char8 (record { c = c }) ≡ record { c0 = c; c1 = 0; c2 = 0; c3 = 0 }
unfolding to_char8
to_char8_one c h = ground arith

pub to_char8_two :
    (c : ℕ)
    → 0x80 ≤ c
    → c < 0x800
    → to_char8 (record { c = c })
      ≡ record { c0 = c / 64 + 0xc0; c1 = c % 64 + 0x80; c2 = 0; c3 = 0 }
unfolding to_char8
to_char8_two c l h = ground (arith, bit_or_c0 (c / 64), bit_and_63 c, bit_or_80 (c % 64))

pub to_char8_three :
    (c : ℕ)
    → 0x800 ≤ c
    → c < 0x10000
    → to_char8 (record { c = c })
      ≡ record { c0 = c / 4096 + 0xe0; c1 = c / 64 % 64 + 0x80; c2 = c % 64 + 0x80; c3 = 0 }
unfolding to_char8
to_char8_three c l h = ground (
  arith,
  bit_or_e0 (c / 4096),
  bit_and_63 (c / 64),
  bit_or_80 (c / 64 % 64),
  bit_and_63 c,
  bit_or_80 (c % 64),
)

pub to_char8_four :
    (c : ℕ)
    → 0x10000 ≤ c
    → c < 0x200000
    → to_char8 (record { c = c }) ≡ record {
      c0 = c / 262144 + 0xf0;
      c1 = c / 4096 % 64 + 0x80;
      c2 = c / 64 % 64 + 0x80;
      c3 = c % 64 + 0x80;
    }
unfolding to_char8
to_char8_four c l h = ground (
  arith,
  bit_or_f0 (c / 262144),
  bit_and_63 (c / 4096),
  bit_or_80 (c / 4096 % 64),
  bit_and_63 (c / 64),
  bit_or_80 (c / 64 % 64),
  bit_and_63 c,
  bit_or_80 (c % 64),
)

-- The four ranges of a code point that four bytes can hold.
pub code_point_ranges :
    (c : ℕ)
    → c < 0x200000
    → (c < 0x80)
      ⊎ ((0x80 ≤ c) × (c < 0x800))
      ⊎ ((0x800 ≤ c) × (c < 0x10000))
      ⊎ ((0x10000 ≤ c) × (c < 0x200000))
code_point_ranges c h = grind arith
