-- ===== src/Traverse.antt =====
-- `traverse_cdt` and `traverse_cdts` of plugin-sdk-main/runtime/cdts_traverse_construct.cpp.
-- The callbacks and their context are the caller's: functions on a state, or null pointers.
pub mod Events
pub mod Complete
pub mod Stops
mod Tests
use meta_ffi_project.Shared.{
  ℕ, ◌+◌, ◌-◌, ◌%◌, ◌^◌, Bool, not, ◌&&◌, List, [], ◌∷◌, ◌++◌, Option, none, some, ltb, ◌==◌,
  if◌then◌else◌,
}
use meta_ffi_project.Shared.Int.{ℤ}
use meta_ffi_project.Types.{Kind, any_type, array_type, has_array, without_array, kind_of}
use meta_ffi_project.Cdts.{Cdt, cdt, Value, word, array_val, Cdts, cdts, Items, nil, cons, count}

-- The exceptions, and a step that has no meaning in the source: a call of a null callback, a read
-- of a member of the union that does not hold it, an element past the end of an array.
pub data Error : Type 0 where
  any_type_error null_callable null_array : Error
  unknown_type : ℕ → Error

pub data Outcome (S : Type 0) : Type 0 where
  finished : S → Outcome S
  thrown : Error → S → Outcome S
  fault : Outcome S

infixl 5 ◌>>=◌
abbrev pub ◌>>=◌ : {S : Type 0} → Outcome S → (S → Outcome S) → Outcome S
finished s >>= f = f s
thrown e s >>= f = thrown e s
fault >>= f = fault

-- `arr.fixed_dimensions`
abbrev pub fixed_dimensions : Cdts → ℤ
fixed_dimensions (cdts len arr dims cache) = dims

abbrev pub OnValue : Type 0 → Type 0
OnValue S = Option (List ℕ → ℕ → S → S)

abbrev pub OnArray : Type 0 → Type 0
OnArray S = Option (List ℕ → Cdts → ℤ → ℕ → S → S × Bool)

-- `struct traverse_cdts_callbacks`, the context being the state. `on_null` ignores its number.
pub record Callbacks (S : Type 0) : Type 0 where
  pub on_float64 : OnValue S
  pub on_float32 : OnValue S
  pub on_int8 : OnValue S
  pub on_uint8 : OnValue S
  pub on_int16 : OnValue S
  pub on_uint16 : OnValue S
  pub on_int32 : OnValue S
  pub on_uint32 : OnValue S
  pub on_int64 : OnValue S
  pub on_uint64 : OnValue S
  pub on_bool : OnValue S
  pub on_char8 : OnValue S
  pub on_string8 : OnValue S
  pub on_char16 : OnValue S
  pub on_string16 : OnValue S
  pub on_char32 : OnValue S
  pub on_string32 : OnValue S
  pub on_handle : OnValue S
  pub on_callable : OnValue S
  pub on_null : OnValue S
  pub on_array : OnArray S

-- `traverse_cdts_callbacks(context)`: every callback is null.
abbrev pub no_callbacks : {S : Type 0} → Callbacks S
no_callbacks = record {
  on_float64 = none;
  on_float32 = none;
  on_int8 = none;
  on_uint8 = none;
  on_int16 = none;
  on_uint16 = none;
  on_int32 = none;
  on_uint32 = none;
  on_int64 = none;
  on_uint64 = none;
  on_bool = none;
  on_char8 = none;
  on_string8 = none;
  on_char16 = none;
  on_string16 = none;
  on_char32 = none;
  on_string32 = none;
  on_handle = none;
  on_callable = none;
  on_null = none;
  on_array = none;
}

-- `traverse_cdts_callbacks(context, on_float64, …)`, the context being the state.
abbrev pub traverse_cdts_callbacks :
    {S : Type 0}
    → OnValue S
    → OnValue S
    → OnValue S
    → OnValue S
    → OnValue S
    → OnValue S
    → OnValue S
    → OnValue S
    → OnValue S
    → OnValue S
    → OnValue S
    → OnValue S
    → OnValue S
    → OnValue S
    → OnValue S
    → OnValue S
    → OnValue S
    → OnValue S
    → OnValue S
    → OnValue S
    → OnArray S
    → Callbacks S
traverse_cdts_callbacks on_float64 on_float32 on_int8 on_uint8 on_int16 on_uint16 on_int32 on_uint32
      on_int64 on_uint64 on_bool on_char8 on_string8 on_char16 on_string16 on_char32 on_string32
      on_handle on_callable on_null on_array =
    record {
      on_float64 = on_float64;
      on_float32 = on_float32;
      on_int8 = on_int8;
      on_uint8 = on_uint8;
      on_int16 = on_int16;
      on_uint16 = on_uint16;
      on_int32 = on_int32;
      on_uint32 = on_uint32;
      on_int64 = on_int64;
      on_uint64 = on_uint64;
      on_bool = on_bool;
      on_char8 = on_char8;
      on_string8 = on_string8;
      on_char16 = on_char16;
      on_string16 = on_string16;
      on_char32 = on_char32;
      on_string32 = on_string32;
      on_handle = on_handle;
      on_callable = on_callable;
      on_null = on_null;
      on_array = on_array;
    }

-- A member of the union, by its width in bits.
abbrev pub low : ℕ → ℕ → ℕ
low w bits = w % 2 ^ bits

module _ {S : Type 0} where
  abbrev pub call : OnValue S → List ℕ → ℕ → S → Outcome S
  call none index v s = fault
  call (some f) index v s = finished (f index v s)

  -- The cases of the switch but the array, where the union holds 64 bits. A null handle is passed
  -- on as an empty one, which the number 0 stands for.
  unfoldable pub on_word : Callbacks S → Kind → List ℕ → ℕ → S → Outcome S
  on_word cb Kind.float64 index w s = call cb.on_float64 index w s
  on_word cb Kind.float32 index w s = call cb.on_float32 index (low w 32) s
  on_word cb Kind.int8 index w s = call cb.on_int8 index (low w 8) s
  on_word cb Kind.uint8 index w s = call cb.on_uint8 index (low w 8) s
  on_word cb Kind.int16 index w s = call cb.on_int16 index (low w 16) s
  on_word cb Kind.uint16 index w s = call cb.on_uint16 index (low w 16) s
  on_word cb Kind.int32 index w s = call cb.on_int32 index (low w 32) s
  on_word cb Kind.uint32 index w s = call cb.on_uint32 index (low w 32) s
  on_word cb Kind.int64 index w s = call cb.on_int64 index w s
  on_word cb Kind.uint64 index w s = call cb.on_uint64 index w s
  on_word cb Kind.bool index w s = call cb.on_bool index (low w 8) s
  on_word cb Kind.char8 index w s = call cb.on_char8 index (low w 32) s
  on_word cb Kind.string8 index w s = call cb.on_string8 index w s
  on_word cb Kind.char16 index w s = call cb.on_char16 index (low w 32) s
  on_word cb Kind.string16 index w s = call cb.on_string16 index w s
  on_word cb Kind.char32 index w s = call cb.on_char32 index (low w 32) s
  on_word cb Kind.string32 index w s = call cb.on_string32 index w s
  on_word cb Kind.handle index w s = call cb.on_handle index w s
  on_word cb Kind.callable index w s =
      if w == 0 then thrown null_callable s else call cb.on_callable index w s
  on_word cb Kind.null index w s = call cb.on_null index 0 s
  on_word cb Kind.array index w s = if w == 0 then thrown null_array s else fault

  unfoldable pub switch_word : Callbacks S → ℕ → Option Kind → List ℕ → ℕ → S → Outcome S
  unfolding on_word
  switch_word cb ty none index w s = thrown (unknown_type ty) s
  switch_word cb ty (some k) index w s = on_word cb k index w s

  -- The case of the array: its callback, and its elements if that says so.
  unfoldable pub on_elements : OnArray S → List ℕ → Cdts → ℤ → ℕ → (S → Outcome S) → S → Outcome S
  on_elements none index a dims common below s = fault
  on_elements (some f) index a dims common below s =
      let (s', continue_traverse) = f index a dims common s in
      if continue_traverse then below s' else finished s'

  unfoldable pub switch_array :
      Callbacks S → ℕ → Option Kind → List ℕ → Cdts → ℤ → ℕ → (S → Outcome S) → S → Outcome S
  unfolding on_elements
  switch_array cb ty none index a dims common below s = thrown (unknown_type ty) s
  switch_array cb ty (some Kind.array) index a dims common below s =
      on_elements cb.on_array index a dims common below s
  switch_array cb ty (some Kind.null) index a dims common below s = call cb.on_null index 0 s
  switch_array cb ty (some k) index a dims common below s = fault

-- `type_to_use & metaffi_array_type && type_to_use != metaffi_array_type`
unfoldable pub is_typed_array : ℕ → Bool
is_typed_array ty = has_array ty && not (ty == array_type)

unfoldable pub type_to_use : ℕ → ℕ
unfolding is_typed_array
type_to_use ty = if is_typed_array ty then array_type else ty

unfoldable pub common_type : ℕ → ℕ
unfolding is_typed_array
common_type ty = if is_typed_array ty then without_array ty else any_type

-- The queue of `traverse_cdts` is filled with the elements in their order and then emptied from its
-- front, so its loop is the one over the elements.
unfoldable mutual
  pub traverse_cdt : {S : Type 0} → Cdt → Callbacks S → List ℕ → S → Outcome S
  traverse_cdt (cdt ty v fr) cb index s =
      if ty == any_type then thrown any_type_error s else traverse_value v cb ty index s

  pub traverse_value : {S : Type 0} → Value → Callbacks S → ℕ → List ℕ → S → Outcome S
  traverse_value (word w) cb ty index s = switch_word cb ty (kind_of (type_to_use ty)) index w s
  traverse_value (array_val a) cb ty index s =
      switch_array cb ty (kind_of (type_to_use ty)) index a (fixed_dimensions a) (common_type ty)
        (traverse_cdts a cb index) s

  pub traverse_cdts : {S : Type 0} → Cdts → Callbacks S → List ℕ → S → Outcome S
  traverse_cdts (cdts len arr dims cache) cb index s =
      if len == 0
      then finished s
      else if ltb (count arr) len
      then fault
      else traverse_items arr cb len index 0 s

  pub traverse_items : {S : Type 0} → Items → Callbacks S → ℕ → List ℕ → ℕ → S → Outcome S
  traverse_items nil cb len index i s = finished s
  traverse_items (cons c rest) cb len index i s =
      if ltb i len
      then (traverse_cdt c cb (index ++ (i ∷ [])) s >>= λ s'.
          traverse_items rest cb len index (i + 1) s')
      else finished s
