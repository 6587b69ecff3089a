-- ===== src/Chars/Utf16.antt =====
-- `struct metaffi_char16` of plugin-sdk-main/runtime/metaffi_primitives.h and its conversions in
-- metaffi_primitives.cpp.
use meta_ffi_project.Shared.{
  ℕ, ◌+◌, ◌-◌, ◌*◌, ◌/◌, ◌%◌, ◌^◌, bit_and, bit_or, Bool, ◌&&◌, Option, some, List, [], ◌∷◌, ◌==◌,
  leb, if◌then◌else◌,
}
use meta_ffi_project.Chars.{Char8, Char16, Char32, Conversion, ok, out_of_bounds}
use meta_ffi_project.Chars.{◌>>=◌, required}

-- In bytes: 4 from a leading surrogate on, else 2.
unfoldable pub num_of_bytes : ℕ → Option ℕ
num_of_bytes first = if leb 0xd800 first && leb first 0xdbff then some 4 else some 2

-- `operator=(const char16_t*)`; the list is the memory at `utf16c`, by units of two bytes.
unfoldable pub assign : List ℕ → Conversion Char16
assign [] = out_of_bounds
assign (a ∷ []) = do
  n ← required (num_of_bytes a)
  if n == 2 then ok (record { c0 = a; c1 = 0 }) else out_of_bounds
assign (a ∷ b ∷ rest) = do
  n ← required (num_of_bytes a)
  if n == 2 then ok (record { c0 = a; c1 = 0 }) else ok (record { c0 = a; c1 = b })

unfoldable pub is_surrogate : Char16 → Bool
is_surrogate u = leb 0xd800 u.c0 && leb u.c0 0xdfff

-- Two units to a code point. The difference `c[1] - 0xDC00` may be negative in the source; the sum
-- with 0x10000 is not.
unfoldable pub pair : Char16 → ℕ
pair u = (u.c0 - 0xd800) * 2 ^ 10 + u.c1 + 0x10000 - 0xdc00

-- The second half of `operator metaffi_char8`: one to four bytes by the size of the code point.
unfoldable pub bytes : ℕ → Char8
bytes cp =
    if leb cp 0x7f
    then record { c0 = cp % 256; c1 = 0; c2 = 0; c3 = 0 }
    else if leb cp 0x7ff
    then record {
      c0 = bit_or (cp / 2 ^ 6) 0xc0 % 256;
      c1 = bit_or (bit_and cp 0x3f) 0x80 % 256;
      c2 = 0;
      c3 = 0;
    }
    else if leb cp 0xffff
    then record {
      c0 = bit_or (cp / 2 ^ 12) 0xe0 % 256;
      c1 = bit_or (bit_and (cp / 2 ^ 6) 0x3f) 0x80 % 256;
      c2 = bit_or (bit_and cp 0x3f) 0x80 % 256;
      c3 = 0;
    }
    else record {
      c0 = bit_or (cp / 2 ^ 18) 0xf0 % 256;
      c1 = bit_or (bit_and (cp / 2 ^ 12) 0x3f) 0x80 % 256;
      c2 = bit_or (bit_and (cp / 2 ^ 6) 0x3f) 0x80 % 256;
      c3 = bit_or (bit_and cp 0x3f) 0x80 % 256;
    }

-- `operator metaffi_char8`
unfoldable pub to_char8 : Char16 → Conversion Char8
unfolding num_of_bytes bytes
to_char8 u = do
  n ← required (num_of_bytes u.c0)
  ok (bytes (if n == 2 then u.c0 else if n == 4 then pair u else 0))

-- `operator metaffi_char32`
unfoldable pub to_char32 : Char16 → Conversion Char32
unfolding num_of_bytes
to_char32 u = do
  n ← required (num_of_bytes u.c0)
  ok (record { c = if n == 2 then u.c0 else if n == 4 then pair u else 0 })
