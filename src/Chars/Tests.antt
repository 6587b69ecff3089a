-- ===== src/Chars/Tests.antt =====
-- Runs of the character conversions, and their theorems at concrete characters.
use meta_ffi_project.Shared.{◌≤◌, ◌<◌, ◌≡◌, refl, inl, inr, ◌⊎◌, ◌↔◌, [], ◌∷◌, arith}
use meta_ffi_project.Chars.{Char8, Char16, ok, invalid_argument, out_of_bounds, ◌>>=◌}
use meta_ffi_project.Chars.Utf8
use meta_ffi_project.Chars.Utf16
use meta_ffi_project.Chars.Utf32
use meta_ffi_project.Chars.Agree.{to_char16-via-to_char32, to_char8-via-to_char32}
use meta_ffi_project.Chars.RoundTrip.{
  Encodes, to_char8-Encodes, to_char32-Encodes, to_char32-to_char8, to_char32-to_char16,
}
use meta_ffi_project.Chars.Cross.{to_char8-to_char16, to_char16-to_char8}
use meta_ffi_project.Chars.Buffer.{assign-stored, assign-stored_cut, assign_invalid, assign-units}

-- U+20AC, the euro sign, and U+1F600, which lies above the basic plane.
abbrev euro8 : Char8
euro8 = record { c0 = 0xe2; c1 = 0x82; c2 = 0xac; c3 = 0 }

abbrev grin16 : Char16
grin16 = record { c0 = 0xd83d; c1 = 0xde00 }

abbrev stray8 : Char8
stray8 = record { c0 = 0x80; c1 = 0; c2 = 0; c3 = 0 }

to_char8_grin : Utf16.to_char8 grin16 ≡ ok (record { c0 = 0xf0; c1 = 0x9f; c2 = 0x98; c3 = 0x80 })
unfolding Utf16.to_char8 Utf16.pair
to_char8_grin = refl

assign_stray : Utf8.assign (0x80 ∷ []) ≡ invalid_argument
unfolding Utf8.assign
assign_stray = refl

euro8-Encodes : Encodes euro8 0x20ac
euro8-Encodes = inr (inr (inl (omega arith)))

to_char16-via-to_char32_example :
    Utf8.to_char16 stray8 ≡ (Utf8.to_char32 stray8 >>= λ w. ok (Utf32.to_char16 w))
to_char16-via-to_char32_example = to_char16-via-to_char32 stray8

grin_both_ways : Utf16.to_char8 grin16 ≡ (Utf16.to_char32 grin16 >>= λ w. ok (Utf32.to_char8 w))
grin_both_ways = to_char8-via-to_char32 grin16

to_char8-Encodes_example : Encodes (Utf32.to_char8 (record { c = 0x1f600 })) 0x1f600
to_char8-Encodes_example = to_char8-Encodes 0x1f600 (omega arith)

euro8_decodes :
    (Utf8.to_char32 euro8 ≡ ok (record { c = 0x20ac }))
    × (Utf32.to_char8 (record { c = 0x20ac }) ≡ euro8)
euro8_decodes = to_char32-Encodes euro8 0x20ac euro8-Encodes

to_char32-to_char8_example :
    Utf8.to_char32 (Utf32.to_char8 (record { c = 0x20ac })) ≡ ok (record { c = 0x20ac })
to_char32-to_char8_example = to_char32-to_char8 0x20ac (omega arith)

to_char32_via_char16 :
    Utf16.to_char32 (Utf32.to_char16 (record { c = 0x1f600 })) ≡ ok (record { c = 0x1f600 })
to_char32_via_char16 = to_char32-to_char16 0x1f600 (omega arith) (inr (omega arith))

to_char8-to_char16_example : (Utf8.to_char16 euro8 >>= Utf16.to_char8) ≡ ok euro8
to_char8-to_char16_example =
    to_char8-to_char16 euro8 0x20ac euro8-Encodes (omega arith) (inl (omega arith))

grin16_returns : (Utf16.to_char8 grin16 >>= Utf8.to_char16) ≡ ok grin16
grin16_returns = to_char16-to_char8 grin16 (inr (omega arith))

assign_euro : Utf8.assign (0xe2 ∷ 0x82 ∷ 0xac ∷ 0x41 ∷ []) ≡ ok euro8
assign_euro = assign-stored euro8 0x20ac (0x41 ∷ []) euro8-Encodes

euro8_cut : Utf8.assign (0xe2 ∷ 0x82 ∷ []) ≡ out_of_bounds
euro8_cut = assign-stored_cut euro8 0x20ac (0xe2 ∷ 0x82 ∷ []) [] 0xac euro8-Encodes refl

assign_continuation :
    (Utf8.assign (0xff ∷ []) ≡ invalid_argument) ↔ (((128 ≤ 255) × (255 < 192)) ⊎ (248 ≤ 255))
assign_continuation = assign_invalid 0xff [] (omega arith)

assign_grin_units : Utf16.assign (0xd83d ∷ 0xde00 ∷ 0x41 ∷ []) ≡ ok grin16
assign_grin_units = assign-units grin16 (0x41 ∷ []) (inr (omega arith))
