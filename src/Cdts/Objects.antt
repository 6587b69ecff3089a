-- ===== src/Cdts/Objects.antt =====
-- The constructors of `cdt` and `cdts` of plugin-sdk-main/runtime/cdt.h that take a pointer, a length
-- or another array, `cdt::set_new_array`, and `cdts_wrapper` of
-- plugin-sdk-main/runtime/cdts_wrapper.cpp.
use meta_ffi_project.Shared.{
  ℕ, zero, suc, bit_or, ◌≡◌, ◌≢◌, refl, Bool, true, false, [], ◌∷◌, Option, none, some, arith,
}
use meta_ffi_project.Shared.Int.{ℤ, pos}
use meta_ffi_project.Shared.Bits.{bit_or_comm, bit_and-bit_or}
use meta_ffi_project.Types.{Kind, code, array_type, has_array, kind_of}
use meta_ffi_project.Cdts.{
  Cdt, cdt, word, Cdts, cdts, Items, nil, default_cdt, new_items, new_cdts, nth,
}
use meta_ffi_project.Construct.Sound.{count-new_items}
use meta_ffi_project.Cdts.Memory.{
  callable, elements, array, free, free_word, destroys_value, destroys_backward, releases,
  destroys_cdts, set_handle, set_array,
}

-- `cdts()`: the fixed dimensions are 1.
abbrev pub empty_cdts : Cdts
empty_cdts = cdts 0 nil (pos 1) false

-- `cdts(pre_allocated_cdts, length, fixed_dimensions, alloc_cache)`
abbrev pub pre_allocated : Items → ℕ → ℤ → Bool → Cdts
pre_allocated arr length dims cache = cdts length arr dims cache

-- `cdts(cdts&&)`: the new object, and the source, which keeps its length.
unfoldable pub move_cdts : Cdts → Cdts × Cdts
move_cdts (cdts len arr dims cache) = (cdts len arr dims cache, cdts len nil dims cache)

-- `cdt(cdt_metaffi_handle*)`
unfoldable pub from_handle : ℕ → Option Cdt
from_handle w = elim (set_handle default_cdt w) [ none ↦ none | some p ↦ some p.0 ]

-- `cdt(cdt_metaffi_callable*)`, also of a pointer to a constant: the callable is owned.
unfoldable pub from_callable : ℕ → Cdt
from_callable w = cdt (code Kind.callable) (word w) true

-- `cdt(length, fixed_dimensions, common_type)` and `set_new_array`.
unfoldable pub set_new_array : ℕ → ℤ → ℕ → Cdt
set_new_array length dims common = set_array (new_cdts length dims) common

-- `cdts_wrapper::operator[]`, `cdts::operator[]` and `cdts::at`; `none` is past the elements.
unfoldable pub element : Cdts → ℕ → Option Cdt
element (cdts len arr dims cache) index = nth arr index

-- `cdts_wrapper::elements_count`
unfoldable pub elements_count : Cdts → ℕ
elements_count (cdts len arr dims cache) = len

-- A `cdts` that was moved from gives nothing back, and the new one what the source would have.
pub move_cdts-releases :
    (a : Cdts)
    → let (target, source) = move_cdts a in
      (destroys_cdts target ≡ destroys_cdts a) × (destroys_cdts source ≡ some [])
unfolding move_cdts destroys_cdts
move_cdts-releases (cdts len arr dims cache) = (refl, refl)

-- A handle is borrowed by the value that points to it.
pub from_handle-releases : (w : ℕ) → (c : Cdt) × (from_handle w ≡ some c) × (releases c ≡ some [])
unfolding from_handle set_handle free releases
from_handle-releases w = (cdt (code Kind.handle) (word w) false, refl, refl)

-- A callable is owned, whichever of the two constructors took its pointer.
pub from_callable-releases : (w : ℕ) → w ≢ 0 → releases (from_callable w) ≡ some (callable w ∷ [])
unfolding from_callable releases has_array kind_of free_word
from_callable-releases w n = ground arith

new_items-releases : (n : ℕ) → destroys_backward (new_items n) ≡ some []
unfolding destroys_backward releases
new_items-releases zero = refl
new_items-releases (suc n) = rw (new_items-releases n) refl

has_array-array : (common : ℕ) → has_array (bit_or array_type common) ≡ true
unfolding has_array
has_array-array common = rw (bit_or_comm array_type common, bit_and-bit_or common array_type) refl

-- The array of a new value has the elements that were asked for, all null, and owns them.
pub set_new_array-releases :
    (n common : ℕ) (dims : ℤ)
    → releases (set_new_array (suc n) dims common) ≡ some (elements (suc n) ∷ array ∷ [])
unfolding set_new_array set_array releases destroys_value destroys_cdts
set_new_array-releases n common dims =
    rw (has_array-array common, new_items-releases n, count-new_items n) refl
