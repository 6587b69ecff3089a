-- ===== src/Traverse/Events.antt =====
-- What a traversal is to report: the specification of `traverse_cdt`, by the shape of a value.
use meta_ffi_project.Shared.{ℕ, ◌+◌, ◌≡◌, ◌≢◌, Bool, List, [], ◌∷◌, ◌++◌, some, if◌then◌else◌}
use meta_ffi_project.Shared.Int.{ℤ}
use meta_ffi_project.Types.{Kind, code, any_type, array_type, with_array}
use meta_ffi_project.Types.Flags.{IsElement}
use meta_ffi_project.Cdts.{Cdt, cdt, word, array_val, Cdts, cdts, Items, nil, cons, count}
use meta_ffi_project.Traverse.{Callbacks, traverse_cdts_callbacks, low}

-- A callable is reported only if its pointer is not null.
abbrev pub IsLeaf : Kind → ℕ → Type 0
IsLeaf Kind.array w = ⊥
IsLeaf Kind.callable w = w ≢ 0
IsLeaf _ w = Unit

-- What the type of an array says of its elements: nothing, that they have any type (as `set_array`
-- has it when it is not told), or the kind that they share.
pub data Common : Type 0 where
  unsaid : Common
  dynamic : Common
  shared : Kind → Common

-- The type of the array.
abbrev pub array_of : Common → ℕ
array_of unsaid = array_type
array_of dynamic = with_array any_type
array_of (shared k) = with_array (code k)

abbrev pub IsCommon : Common → Type 0
IsCommon unsaid = Unit
IsCommon dynamic = Unit
IsCommon (shared k) = IsElement k

-- What the array's callback is told of them.
abbrev pub common_of : Common → ℕ
common_of unsaid = any_type
common_of dynamic = any_type
common_of (shared k) = code k

-- Values whose every part is there and has the type of a value: arrays with as many elements as they
-- say, callables that are not null.
mutual
  pub data IsTraversable : Cdt → Type 0 where
    leaf :
        {ty w : ℕ} {fr : Bool} (k : Kind)
        → ty ≡ code k
        → IsLeaf k w
        → IsTraversable (cdt ty (word w) fr)
    branch :
        {ty len : ℕ} {arr : Items} {dims : ℤ} {cache fr : Bool} (common : Common)
        → ty ≡ array_of common
        → IsCommon common
        → len ≡ count arr
        → AreTraversable arr
        → IsTraversable (cdt ty (array_val (cdts len arr dims cache)) fr)

  pub data AreTraversable : Items → Type 0 where
    none_left : AreTraversable nil
    one_more :
        {c : Cdt} {rest : Items}
        → IsTraversable c
        → AreTraversable rest
        → AreTraversable (cons c rest)

-- A callback that is to be called, at an index.
pub data Event : Type 0 where
  value : Kind → List ℕ → ℕ → Event
  enter : List ℕ → Cdts → ℤ → ℕ → Event

-- What a callback gets of the 64 bits.
abbrev pub payload : Kind → ℕ → ℕ
payload Kind.float64 w = w
payload Kind.float32 w = low w 32
payload Kind.int8 w = low w 8
payload Kind.uint8 w = low w 8
payload Kind.int16 w = low w 16
payload Kind.uint16 w = low w 16
payload Kind.int32 w = low w 32
payload Kind.uint32 w = low w 32
payload Kind.int64 w = w
payload Kind.uint64 w = w
payload Kind.bool w = low w 8
payload Kind.char8 w = low w 32
payload Kind.string8 w = w
payload Kind.char16 w = low w 32
payload Kind.string16 w = w
payload Kind.char32 w = low w 32
payload Kind.string32 w = w
payload Kind.handle w = w
payload Kind.callable w = w
payload Kind.null w = 0
payload Kind.array w = w

-- The events of a value at an index: one for a leaf; for an array its own, and if the caller goes
-- into it those of its elements, in their order, at the index with the element's position behind.
unfoldable mutual
  pub events : {c : Cdt} → IsTraversable c → (List ℕ → Cdts → Bool) → List ℕ → List Event
  events (leaf {w = w} k e h) descend index = value k index (payload k w) ∷ []
  events (branch {len = len} {arr = arr} {dims = dims} {cache = cache} common e h n parts) descend
        index =
      enter index (cdts len arr dims cache) dims (common_of common)
      ∷ (if descend index (cdts len arr dims cache) then events_of parts descend index 0 else [])

  pub events_of :
      {arr : Items} → AreTraversable arr → (List ℕ → Cdts → Bool) → List ℕ → ℕ → List Event
  events_of none_left descend index i = []
  events_of (one_more c rest) descend index i =
      events c descend (index ++ (i ∷ [])) ++ events_of rest descend index (i + 1)

-- Callbacks that are all set: functions on the state, and which arrays to go into.
pub record Visitor (S : Type 0) : Type 0 where
  pub on_value : Kind → List ℕ → ℕ → S → S
  pub on_enter : List ℕ → Cdts → ℤ → ℕ → S → S
  pub descend : List ℕ → Cdts → Bool

abbrev pub complete : {S : Type 0} → Visitor S → Callbacks S
complete v =
    traverse_cdts_callbacks (some (v.on_value Kind.float64)) (some (v.on_value Kind.float32))
      (some (v.on_value Kind.int8)) (some (v.on_value Kind.uint8)) (some (v.on_value Kind.int16))
      (some (v.on_value Kind.uint16)) (some (v.on_value Kind.int32)) (some (v.on_value Kind.uint32))
      (some (v.on_value Kind.int64)) (some (v.on_value Kind.uint64)) (some (v.on_value Kind.bool))
      (some (v.on_value Kind.char8)) (some (v.on_value Kind.string8))
      (some (v.on_value Kind.char16)) (some (v.on_value Kind.string16))
      (some (v.on_value Kind.char32)) (some (v.on_value Kind.string32))
      (some (v.on_value Kind.handle)) (some (v.on_value Kind.callable))
      (some (v.on_value Kind.null))
      (some (λ index a dims common s. (v.on_enter index a dims common s, v.descend index a)))

-- The callbacks run on a list of events.
abbrev pub step : {S : Type 0} → Visitor S → Event → S → S
step v (value k index w) s = v.on_value k index w s
step v (enter index a dims common) s = v.on_enter index a dims common s

abbrev pub replay : {S : Type 0} → Visitor S → List Event → S → S
replay v [] s = s
replay v (e ∷ es) s = replay v es (step v e s)
