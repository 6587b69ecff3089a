-- ===== src/Chars/Agree.antt =====
-- The direct conversions between UTF-8 and UTF-16 against the way through UTF-32.
use meta_ffi_project.Shared.{◌≡◌, arith}
use meta_ffi_project.Chars.{Char8, Char16, ok, ◌>>=◌}
use meta_ffi_project.Chars.Utf8
use meta_ffi_project.Chars.Utf16
use meta_ffi_project.Chars.Utf32

-- The direct conversion of a UTF-8 character to UTF-16 gives, for every array of four bytes, what
-- the conversion to UTF-32 and on to UTF-16 gives, the exception of an invalid first byte included.
pub to_char16-via-to_char32 :
    (u : Char8) → Utf8.to_char16 u ≡ (Utf8.to_char32 u >>= λ w. ok (Utf32.to_char16 w))
unfolding Utf8.to_char16 Utf8.to_char32 Utf32.to_char16
to_char16-via-to_char32 u = ground arith

-- The direct conversion of a UTF-16 character to UTF-8 gives, for every array of two units, what
-- the conversion to UTF-32 and on to UTF-8 gives.
pub to_char8-via-to_char32 :
    (u : Char16) → Utf16.to_char8 u ≡ (Utf16.to_char32 u >>= λ w. ok (Utf32.to_char8 w))
unfolding Utf16.to_char8 Utf16.to_char32 Utf32.to_char8
to_char8-via-to_char32 u = ground arith
