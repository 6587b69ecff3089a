-- ===== src/Exchange.antt =====
-- plugin-sdk-main/runtime/cdts_traverse_construct.cpp from end to end: one runtime constructs a value,
-- and another traverses it.
pub mod Relay
pub mod Extern
mod Tests
use meta_ffi_project.Shared.{ℕ, ◌+◌, List, [], ◌∷◌, ◌++◌, Option, none, some, Bool, true, ◌≡◌, ◌≢◌}
use meta_ffi_project.Shared.Int.{ℤ}
use meta_ffi_project.Types.{Kind, kind_of}
use meta_ffi_project.Cdts.{Cdt, cdt, word, array_val, Cdts, cdts, Items, nil, cons, default_cdt}
use meta_ffi_project.Traverse.{common_type, traverse_cdt}
use meta_ffi_project.Traverse.Events.{Event, value, enter, Visitor, complete}
use meta_ffi_project.Construct.{Outcome, built, Callbacks}
use meta_ffi_project.Construct.Run.{construct_cdt, any_info}

-- What a value says, at an index: each single value with its kind and bits, and each array before its
-- elements, which follow in their order at its index with their positions.
abbrev single : Option Kind → List ℕ → ℕ → List Event
single none index w = []
single (some k) index w = value k index w ∷ []

unfoldable mutual
  pub outline : Cdt → List ℕ → List Event
  outline (cdt ty (word w) fr) index = single (kind_of ty) index w
  outline (cdt ty (array_val a) fr) index = outline_array a (common_type ty) index

  pub outline_array : Cdts → ℕ → List ℕ → List Event
  outline_array (cdts len arr dims cache) common index =
      enter index (cdts len arr dims cache) dims common ∷ outline_items arr index 0

  pub outline_items : Items → List ℕ → ℕ → List Event
  outline_items nil index i = []
  outline_items (cons c rest) index i =
      outline c (index ++ (i ∷ [])) ++ outline_items rest index (i + 1)

-- No callable is null.
mutual
  pub data IsPresent : Cdt → Type 0 where
    single_value :
        {ty w : ℕ} {fr : Bool}
        → (kind_of ty ≡ some Kind.callable → w ≢ 0)
        → IsPresent (cdt ty (word w) fr)
    array :
        {ty len : ℕ} {arr : Items} {dims : ℤ} {cache fr : Bool}
        → ArePresent arr
        → IsPresent (cdt ty (array_val (cdts len arr dims cache)) fr)

  pub data ArePresent : Items → Type 0 where
    none_left : ArePresent nil
    one_more : {c : Cdt} {rest : Items} → IsPresent c → ArePresent rest → ArePresent (cons c rest)
