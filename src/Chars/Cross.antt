-- ===== src/Chars/Cross.antt =====
-- UTF-8 against UTF-16: there and back, without UTF-32 in between.
use meta_ffi_project.Shared.{◌≤◌, ◌<◌, ◌≡◌, ◌⊎◌, inl, inr, ℕ, arith}
use meta_ffi_project.Chars.{Char8, Char16, ok, ◌>>=◌}
use meta_ffi_project.Chars.Utf8
use meta_ffi_project.Chars.Utf16
use meta_ffi_project.Chars.Utf32
use meta_ffi_project.Chars.Agree.{to_char16-via-to_char32, to_char8-via-to_char32}
use meta_ffi_project.Chars.RoundTrip.{
  Encodes, to_char8-Encodes, to_char32-Encodes, to_char32-to_char16,
}

-- One unit that is no leading surrogate with a zero behind it, or a pair of surrogates.
abbrev pub IsWellFormed : Char16 → Type 0
IsWellFormed u =
    ((u.c0 < 0x10000) × ((u.c0 < 0xd800) ⊎ (0xdbff < u.c0)) × (u.c1 ≡ 0))
    ⊎ ((0xd800 ≤ u.c0) × (u.c0 ≤ 0xdbff) × (0xdc00 ≤ u.c1) × (u.c1 ≤ 0xdfff))

-- A character in shortest UTF-8 form, of a Unicode code point that is no leading surrogate, goes to
-- UTF-16 and comes back as the same four bytes.
pub to_char8-to_char16 :
    (u : Char8) (c : ℕ)
    → Encodes u c
    → c ≤ 0x10ffff
    → (c < 0xd800) ⊎ (0xdbff < c)
    → (Utf8.to_char16 u >>= Utf16.to_char8) ≡ ok u
to_char8-to_char16 u c e h k =
    let (d, w) = to_char32-Encodes u c e in
    rw (to_char16-via-to_char32 u, d, to_char8-via-to_char32, to_char32-to_char16 c h k, w)

-- The code point of a well-formed UTF-16 character, and the conversion back to the same units.
to_char16-IsWellFormed :
    (u : Char16)
    → IsWellFormed u
    → (c : ℕ) × (Utf16.to_char32 u ≡ ok (record { c = c }))
      × (Utf32.to_char16 (record { c = c }) ≡ u)
      × (c < 0x200000)
unfolding Utf16.to_char32 Utf32.to_char16
to_char16-IsWellFormed u (inl h) = (u.c0, ground arith, ground arith, ground arith)
to_char16-IsWellFormed u (inr h) = (
  Utf16.pair u,
  ground arith,
  unfold Utf16.pair in ground arith,
  unfold Utf16.pair in ground arith,
)

-- A well-formed UTF-16 character goes to UTF-8 and comes back as the same two units.
pub to_char16-to_char8 :
    (u : Char16) → IsWellFormed u → (Utf16.to_char8 u >>= Utf8.to_char16) ≡ ok u
to_char16-to_char8 u h =
    let (c, d, w, lt) = to_char16-IsWellFormed u h in
    let b = to_char32-Encodes _ c (to_char8-Encodes c lt) in
    rw (to_char8-via-to_char32 u, d, to_char16-via-to_char32, b.0, w)
