-- ===== src/Cdts.antt =====
-- `struct cdt` and `struct cdts` of plugin-sdk-main/runtime/cdt.h as trees: an array owns its
-- elements.
pub mod Memory
pub mod Free
pub mod Once
pub mod Apart
pub mod Handles
pub mod Set
pub mod Text
pub mod Scalar
pub mod Objects
mod Tests
use meta_ffi_project.Shared.{ℕ, zero, suc, Bool, false, Option, none, some}
use meta_ffi_project.Shared.Int.{ℤ}
use meta_ffi_project.Types.{Kind, code}

mutual
  -- Type, value and `free_required`.
  pub data Cdt : Type 0 where
    cdt : ℕ → Value → Bool → Cdt

  -- `union cdt_types` by what was last written: 64 bits, which may be a pointer to a string, a
  -- handle or a callable; or the pointer to an array.
  pub data Value : Type 0 where
    word : ℕ → Value
    array_val : Cdts → Value

  -- Length, elements, fixed dimensions and `allocated_on_cache`.
  pub data Cdts : Type 0 where
    cdts : ℕ → Items → ℤ → Bool → Cdts

  -- The memory at `arr`; `nil` alone is the null pointer.
  pub data Items : Type 0 where
    nil : Items
    cons : Cdt → Items → Items

abbrev pub type_of : Cdt → ℕ
type_of (cdt ty v fr) = ty

abbrev pub value_of : Cdt → Value
value_of (cdt ty v fr) = v

abbrev pub count : Items → ℕ
count nil = 0
count (cons c rest) = suc (count rest)

-- `cdt()`
abbrev pub default_cdt : Cdt
default_cdt = cdt (code Kind.null) (word 0) false

-- `new cdt[length]{}`
abbrev pub new_items : ℕ → Items
new_items zero = nil
new_items (suc n) = cons default_cdt (new_items n)

-- `cdts(length, fixed_dimensions)`
abbrev pub new_cdts : ℕ → ℤ → Cdts
new_cdts length dims = cdts length (new_items length) dims false

-- The element at a position.
abbrev pub nth : Items → ℕ → Option Cdt
nth nil i = none
nth (cons c rest) zero = some c
nth (cons c rest) (suc i) = nth rest i
