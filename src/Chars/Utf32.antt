-- ===== src/Chars/Utf32.antt =====
-- `struct metaffi_char32` of plugin-sdk-main/runtime/metaffi_primitives.h: its conversions in
-- metaffi_primitives.cpp, which do not fail.
use meta_ffi_project.Shared.{◌+◌, ◌-◌, ◌/◌, ◌%◌, ◌^◌, bit_and, bit_or, leb, if◌then◌else◌}
use meta_ffi_project.Chars.{Char8, Char16, Char32}

-- `operator metaffi_char8`
unfoldable pub to_char8 : Char32 → Char8
to_char8 u =
    let codepoint = u.c in
    if leb codepoint 0x7f
    then record { c0 = codepoint % 256; c1 = 0; c2 = 0; c3 = 0 }
    else if leb codepoint 0x7ff
    then record {
      c0 = bit_or (codepoint / 2 ^ 6) 0xc0 % 256;
      c1 = bit_or (bit_and codepoint 0x3f) 0x80 % 256;
      c2 = 0;
      c3 = 0;
    }
    else if leb codepoint 0xffff
    then record {
      c0 = bit_or (codepoint / 2 ^ 12) 0xe0 % 256;
      c1 = bit_or (bit_and (codepoint / 2 ^ 6) 0x3f) 0x80 % 256;
      c2 = bit_or (bit_and codepoint 0x3f) 0x80 % 256;
      c3 = 0;
    }
    else record {
      c0 = bit_or (codepoint / 2 ^ 18) 0xf0 % 256;
      c1 = bit_or (bit_and (codepoint / 2 ^ 12) 0x3f) 0x80 % 256;
      c2 = bit_or (bit_and (codepoint / 2 ^ 6) 0x3f) 0x80 % 256;
      c3 = bit_or (bit_and codepoint 0x3f) 0x80 % 256;
    }

-- `operator metaffi_char16`
unfoldable pub to_char16 : Char32 → Char16
to_char16 u =
    let codepoint = u.c in
    if leb codepoint 0xffff then record { c0 = codepoint % 2 ^ 16; c1 = 0 } else record {
      c0 = ((codepoint - 0x10000) / 2 ^ 10 + 0xd800) % 2 ^ 16;
      c1 = ((codepoint - 0x10000) % 0x400 + 0xdc00) % 2 ^ 16;
    }
