-- ===== src/Cdts/Text.antt =====
-- `cdt::set_string` of plugin-sdk-main/runtime/cdt.h: a text that is borrowed, or copied to memory of
-- its own. Memory is bytes in the little-endian order; a unit takes 1, 2 or 4 of them.
pub mod Copy
pub mod Depends
use meta_ffi_project.Shared.{
  ℕ, zero, suc, ◌+◌, ◌*◌, ◌/◌, ◌%◌, ◌≤◌, ◌<◌, List, [], ◌∷◌, ◌++◌, length, length-append, take,
  drop, replicate, Option, none, some, Bool, true, false, ◌≡◌, refl, ◌==◌, if◌then◌else◌, ap, sym,
  ◌∙◌, arith,
}
use mathlib.Core.List.{append-nil}
use meta_ffi_project.Types.{Kind}

-- The bytes of a unit, and of the units of a text.
abbrev pub unit_bytes : ℕ → ℕ → List ℕ
unit_bytes zero u = []
unit_bytes (suc w) u = u % 256 ∷ unit_bytes w (u / 256)

abbrev pub text_bytes : ℕ → List ℕ → List ℕ
text_bytes w [] = []
text_bytes w (u ∷ us) = unit_bytes w u ++ text_bytes w us

-- `std::basic_string_view(val)`: the units before the first that is 0; `none` where no unit of the
-- memory is.
unfoldable pub string_view : List ℕ → Option (List ℕ)
string_view [] = none
string_view (u ∷ us) =
    if u == 0 then some [] else elim (string_view us) [ none ↦ none | some view ↦ some (u ∷ view) ]

-- `memcpy(to, from, n)` and a write behind the first bytes; `none` past the end of either memory.
abbrev on_rest : ℕ → Option (List ℕ) → Option (List ℕ)
on_rest b none = none
on_rest b (some rest) = some (b ∷ rest)

unfoldable pub memcpy : List ℕ → List ℕ → ℕ → Option (List ℕ)
memcpy to from zero = some to
memcpy [] from (suc n) = none
memcpy (d ∷ to) [] (suc n) = none
memcpy (d ∷ to) (b ∷ from) (suc n) = on_rest b (memcpy to from n)

unfoldable pub write_at : ℕ → List ℕ → List ℕ → Option (List ℕ)
unfolding memcpy
write_at zero bytes to = memcpy to bytes (length bytes)
write_at (suc k) bytes [] = none
write_at (suc k) bytes (d ∷ to) = on_rest d (write_at k bytes to)

-- The text of a `cdt`: the memory of the caller from `val` on, or bytes of its own.
pub data Text : Type 0 where
  borrowed : List ℕ → Text
  owned : List ℕ → Text

-- The copy, in memory of `size() + 1` units that `new` returned with these bytes in it: `memcpy` is
-- given the number of units, and the unit behind them is set to 0.
unfoldable pub copy : ℕ → List ℕ → List ℕ → Option (List ℕ)
unfolding memcpy write_at
copy width view memory = elim (memcpy memory (text_bytes width view) (length view)) [
  | none ↦ none
  | some copied ↦ write_at (length view * width) (unit_bytes width 0) copied
]

-- The kind and the width of a unit for `char8_t`, `char16_t` and `char32_t`.
pub data Encoding : Type 0 where
  utf8 utf16 utf32 : Encoding

abbrev pub width : Encoding → ℕ
width Encoding.utf8 = 1
width Encoding.utf16 = 2
width Encoding.utf32 = 4

abbrev pub kind : Encoding → Kind
kind Encoding.utf8 = Kind.string8
kind Encoding.utf16 = Kind.string16
kind Encoding.utf32 = Kind.string32

-- The kind, `free_required` and the text then.
unfoldable pub set_string : Encoding → List ℕ → Bool → List ℕ → Option (Kind × Bool × Text)
unfolding string_view copy
set_string e val false memory = some (kind e, false, Text.borrowed val)
set_string e val true memory = elim (string_view val) [
  | none ↦ none
  | some view ↦ elim (copy (width e) view memory) [
    | none ↦ none
    | some bytes ↦ some (kind e, true, Text.owned bytes)
  ]
]
