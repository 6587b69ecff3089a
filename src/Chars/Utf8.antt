-- ===== src/Chars/Utf8.antt =====
-- `struct metaffi_char8` of plugin-sdk-main/runtime/metaffi_primitives.h and its conversions in
-- metaffi_primitives.cpp.
use meta_ffi_project.Shared.{
  ℕ, ◌+◌, ◌-◌, ◌*◌, ◌/◌, ◌%◌, ◌^◌, bit_and, bit_or, Option, none, some, List, [], ◌∷◌, ◌==◌, leb,
  if◌then◌else◌,
}
use meta_ffi_project.Chars.{Char8, Char16, Char32, Conversion, ok, invalid_argument, out_of_bounds}
use meta_ffi_project.Chars.{◌>>=◌, required}

-- How long the character is by its first byte; `none` is the -1 of an invalid one.
unfoldable pub num_of_bytes : ℕ → Option ℕ
num_of_bytes first =
    if bit_and first 0x80 == 0
    then some 1
    else if bit_and first 0xe0 == 0xc0
    then some 2
    else if bit_and first 0xf0 == 0xe0
    then some 3
    else if bit_and first 0xf8 == 0xf0
    then some 4
    else none

-- `memcpy(this->c, utf8c, required_bytes)` and the zeros behind; the list is the memory at `utf8c`.
unfoldable pub copy : ℕ → List ℕ → Conversion Char8
copy n [] = out_of_bounds
copy n (a ∷ []) = if n == 1 then ok (record { c0 = a; c1 = 0; c2 = 0; c3 = 0 }) else out_of_bounds
copy n (a ∷ b ∷ []) =
    if n == 1
    then ok (record { c0 = a; c1 = 0; c2 = 0; c3 = 0 })
    else if n == 2
    then ok (record { c0 = a; c1 = b; c2 = 0; c3 = 0 })
    else out_of_bounds
copy n (a ∷ b ∷ c ∷ []) =
    if n == 1
    then ok (record { c0 = a; c1 = 0; c2 = 0; c3 = 0 })
    else if n == 2
    then ok (record { c0 = a; c1 = b; c2 = 0; c3 = 0 })
    else if n == 3
    then ok (record { c0 = a; c1 = b; c2 = c; c3 = 0 })
    else out_of_bounds
copy n (a ∷ b ∷ c ∷ d ∷ rest) =
    if n == 1
    then ok (record { c0 = a; c1 = 0; c2 = 0; c3 = 0 })
    else if n == 2
    then ok (record { c0 = a; c1 = b; c2 = 0; c3 = 0 })
    else if n == 3
    then ok (record { c0 = a; c1 = b; c2 = c; c3 = 0 })
    else ok (record { c0 = a; c1 = b; c2 = c; c3 = d })

-- `operator=(const char8_t*)`
unfoldable pub assign : List ℕ → Conversion Char8
unfolding num_of_bytes copy
assign [] = out_of_bounds
assign (first ∷ rest) = do n ← required (num_of_bytes first); copy n (first ∷ rest)

-- The code point by the number of bytes, as both conversions compute it.
unfoldable pub two_bytes : Char8 → ℕ
two_bytes u = bit_or (bit_and u.c0 0x1f * 2 ^ 6) (bit_and u.c1 0x3f)

unfoldable pub three_bytes : Char8 → ℕ
three_bytes u =
    bit_or (bit_or (bit_and u.c0 0x0f * 2 ^ 12) (bit_and u.c1 0x3f * 2 ^ 6)) (bit_and u.c2 0x3f)

unfoldable pub four_bytes : Char8 → ℕ
four_bytes u =
    bit_or
      (bit_or (bit_or (bit_and u.c0 0x07 * 2 ^ 18) (bit_and u.c1 0x3f * 2 ^ 12))
        (bit_and u.c2 0x3f * 2 ^ 6))
      (bit_and u.c3 0x3f)

-- The chain of tests of `operator metaffi_char16` on the number of bytes.
unfoldable pub codepoint : ℕ → Char8 → Conversion ℕ
codepoint n u =
    if n == 1
    then ok u.c0
    else if n == 2
    then ok (two_bytes u)
    else if n == 3
    then ok (three_bytes u)
    else if n == 4
    then ok (four_bytes u)
    else invalid_argument

-- Its second half: one unit, or two above the basic plane.
unfoldable pub units : ℕ → Char16
units cp = if leb cp 0xffff then record { c0 = cp % 2 ^ 16; c1 = 0 } else record {
  c0 = ((cp - 0x10000) / 2 ^ 10 + 0xd800) % 2 ^ 16;
  c1 = ((cp - 0x10000) % 0x400 + 0xdc00) % 2 ^ 16;
}

-- `operator metaffi_char16`
unfoldable pub to_char16 : Char8 → Conversion Char16
unfolding num_of_bytes codepoint units
to_char16 u = do n ← required (num_of_bytes u.c0); cp ← codepoint n u; ok (units cp)

-- `operator metaffi_char32`, which leaves 0 where no case fits.
unfoldable pub to_char32 : Char8 → Conversion Char32
unfolding num_of_bytes
to_char32 u = do
  n ← required (num_of_bytes u.c0)
  ok (record {
    c =
        if n == 1
        then u.c0
        else if n == 2
        then two_bytes u
        else if n == 3
        then three_bytes u
        else if n == 4
        then four_bytes u
        else 0;
  })
