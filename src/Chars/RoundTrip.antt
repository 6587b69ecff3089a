-- ===== src/Chars/RoundTrip.antt =====
-- A code point goes to UTF-8 or UTF-16 and comes back.
use meta_ffi_project.Shared.{ℕ, ◌+◌, ◌-◌, ◌*◌, ◌≤◌, ◌<◌, ◌≡◌, ◌⊎◌, inl, inr, arith}
use meta_ffi_project.Chars.{Char8, ok}
use meta_ffi_project.Chars.Utf8
use meta_ffi_project.Chars.Utf16
use meta_ffi_project.Chars.Utf32
use meta_ffi_project.Chars.Plain.{
  num_of_bytes_lem, two_bytes_lem, three_bytes_lem, four_bytes_lem, to_char8_one, to_char8_two,
  to_char8_three, to_char8_four, code_point_ranges,
}

abbrev pub IsContinuation : ℕ → Type 0
IsContinuation b = (0x80 ≤ b) × (b < 0xc0)

-- `u` is the shortest UTF-8 form of `c`, with zeros behind it: the specification of the encoding.
-- The tables of the standard, up to the 21 bits that four bytes hold.
abbrev pub Encodes : Char8 → ℕ → Type 0
Encodes u c =
    ((c < 0x80) × (u.c0 ≡ c) × (u.c1 ≡ 0) × (u.c2 ≡ 0) × (u.c3 ≡ 0))
    ⊎ ((0x80 ≤ c)
        × (0xc0 ≤ u.c0)
        × (u.c0 < 0xe0)
        × IsContinuation u.c1
        × (c ≡ (u.c0 - 0xc0) * 64 + (u.c1 - 0x80))
        × (u.c2 ≡ 0)
        × (u.c3 ≡ 0))
    ⊎ ((0x800 ≤ c)
        × (0xe0 ≤ u.c0)
        × (u.c0 < 0xf0)
        × IsContinuation u.c1
        × IsContinuation u.c2
        × (c ≡ (u.c0 - 0xe0) * 4096 + (u.c1 - 0x80) * 64 + (u.c2 - 0x80))
        × (u.c3 ≡ 0))
    ⊎ ((0x10000 ≤ c)
        × (0xf0 ≤ u.c0)
        × (u.c0 < 0xf8)
        × IsContinuation u.c1
        × IsContinuation u.c2
        × IsContinuation u.c3
        × (c ≡ (u.c0 - 0xf0) * 262144 + (u.c1 - 0x80) * 4096 + (u.c2 - 0x80) * 64 + (u.c3 - 0x80)))

-- The conversion of any code point of at most 21 bits writes its shortest UTF-8 form.
pub to_char8-Encodes : (c : ℕ) → c < 0x200000 → Encodes (Utf32.to_char8 (record { c = c })) c
to_char8-Encodes c h = elim (code_point_ranges c h) [
  | inl a ↦ rw (to_char8_one c a) (inl (omega arith))
  | inr (inl (a, b)) ↦ rw (to_char8_two c a b) (inr (inl (omega arith)))
  | inr (inr (inl (a, b))) ↦ rw (to_char8_three c a b) (inr (inr (inl (omega arith))))
  | inr (inr (inr (a, b))) ↦ rw (to_char8_four c a b) (inr (inr (inr (omega arith))))
]

module _ (u : Char8) (c : ℕ) where
  decode-Encodes : Encodes u c → Utf8.to_char32 u ≡ ok (record { c = c })
  unfolding Utf8.to_char32
  decode-Encodes (inl e) = ground (arith, num_of_bytes_lem u.c0)
  decode-Encodes (inr (inl e)) = ground (arith, num_of_bytes_lem u.c0, two_bytes_lem u)
  decode-Encodes (inr (inr (inl e))) = ground (arith, num_of_bytes_lem u.c0, three_bytes_lem u)
  decode-Encodes (inr (inr (inr e))) = ground (arith, num_of_bytes_lem u.c0, four_bytes_lem u)

  encode-Encodes : Encodes u c → Utf32.to_char8 (record { c = c }) ≡ u
  encode-Encodes (inl e) = ground (arith, to_char8_one c)
  encode-Encodes (inr (inl e)) = ground (arith, to_char8_two c)
  encode-Encodes (inr (inr (inl e))) = ground (arith, to_char8_three c)
  encode-Encodes (inr (inr (inr e))) = ground (arith, to_char8_four c)

  -- A shortest form decodes to its code point, and encoding that gives the same four bytes back.
  pub to_char32-Encodes :
      Encodes u c
      → (Utf8.to_char32 u ≡ ok (record { c = c })) × (Utf32.to_char8 (record { c = c }) ≡ u)
  to_char32-Encodes e = (decode-Encodes e, encode-Encodes e)

-- UTF-32 to UTF-8 and back is the identity on code points of at most 21 bits.
pub to_char32-to_char8 :
    (c : ℕ)
    → c < 0x200000
    → Utf8.to_char32 (Utf32.to_char8 (record { c = c })) ≡ ok (record { c = c })
to_char32-to_char8 c h = decode-Encodes _ c (to_char8-Encodes c h)

-- A Unicode code point that is no leading surrogate survives UTF-32 to UTF-16 and back.
pub to_char32-to_char16 :
    (c : ℕ)
    → c ≤ 0x10ffff
    → (c < 0xd800) ⊎ (0xdbff < c)
    → Utf16.to_char32 (Utf32.to_char16 (record { c = c })) ≡ ok (record { c = c })
unfolding Utf16.to_char32 Utf32.to_char16 Utf16.pair
to_char32-to_char16 c h k = ground arith
