-- ===== src/Construct.antt =====
-- The data of `construct_cdt` and `construct_cdts` in
-- plugin-sdk-main/runtime/cdts_traverse_construct.cpp: the callbacks that a value is asked of, and how
-- a construction ends.
pub mod Member
pub mod Shape
pub mod Run
pub mod Reader
pub mod Values
pub mod Scans
pub mod Cases
pub mod Copy
pub mod Every
pub mod Stops
pub mod Freed
pub mod Tested
pub mod Sound
pub mod Settled
pub mod Typed
pub mod Kinds
pub mod Safe
pub mod Ends
mod Tests
use meta_ffi_project.Shared.{ℕ, Bool, List, Option, none}
use meta_ffi_project.Shared.Int.{ℤ}
use meta_ffi_project.Cdts.{Cdts}

-- The exceptions.
pub data Error : Type 0 where
  any_type_error nested_in_1d : Error
  unknown_type : ℕ → Error

-- The result and the caller's context behind it. `fault` is a step without a meaning in the source:
-- a call of a null callback, a read through a pointer that is none, a signed overflow. `spent` is
-- the end of the fuel that bounds the recursion into arrays.
pub data Outcome (S A : Type 0) : Type 0 where
  built : A → S → Outcome S A
  thrown : Error → S → Outcome S A
  fault spent : Outcome S A

abbrev pub and_then : {S A B : Type 0} → Outcome S A → (A → S → Outcome S B) → Outcome S B
and_then (built a s) f = f a s
and_then (thrown e s) f = thrown e s
and_then fault f = fault
and_then spent f = spent

-- `struct metaffi_type_info` less its alias, which nothing here reads.
pub record TypeInfo : Type 0 where
  pub type : ℕ
  pub fixed_dimensions : ℤ

-- What `get_array_metadata` returns and writes to its out-parameters.
pub record Metadata : Type 0 where
  pub array_length : ℕ
  pub is_fixed_dimension : Bool
  pub is_1d_array : Bool
  pub common_type : ℕ
  pub is_manually_construct_array : Bool

abbrev pub Getter : Type 0 → Type 0
Getter S = Option (List ℕ → S → ℕ × S)

-- Of a pointer; the flag is `is_free_required`, as found and as left.
abbrev pub Owner : Type 0 → Type 0
Owner S = Option (List ℕ → Bool → S → (ℕ × Bool) × S)

-- `struct construct_cdts_callbacks`, the context being the state. `get_array_metadata` also finds the
-- common type so far.
pub record Callbacks (S : Type 0) : Type 0 where
  pub get_array_metadata : Option (List ℕ → ℕ → S → Metadata × S)
  pub construct_cdt_array : Option (List ℕ → Cdts → S → Cdts × S)
  pub get_root_elements_count : Option (S → ℕ × S)
  pub get_type_info : Option (List ℕ → S → TypeInfo × S)
  pub get_float64 : Getter S
  pub get_float32 : Getter S
  pub get_int8 : Getter S
  pub get_uint8 : Getter S
  pub get_int16 : Getter S
  pub get_uint16 : Getter S
  pub get_int32 : Getter S
  pub get_uint32 : Getter S
  pub get_int64 : Getter S
  pub get_uint64 : Getter S
  pub get_bool : Getter S
  pub get_char8 : Getter S
  pub get_string8 : Owner S
  pub get_char16 : Getter S
  pub get_string16 : Owner S
  pub get_char32 : Getter S
  pub get_string32 : Owner S
  pub get_handle : Owner S
  pub get_callable : Owner S

-- `construct_cdts_callbacks(context)`: every callback is null.
abbrev pub no_callbacks : {S : Type 0} → Callbacks S
no_callbacks = record {
  get_array_metadata = none;
  construct_cdt_array = none;
  get_root_elements_count = none;
  get_type_info = none;
  get_float64 = none;
  get_float32 = none;
  get_int8 = none;
  get_uint8 = none;
  get_int16 = none;
  get_uint16 = none;
  get_int32 = none;
  get_uint32 = none;
  get_int64 = none;
  get_uint64 = none;
  get_bool = none;
  get_char8 = none;
  get_string8 = none;
  get_char16 = none;
  get_string16 = none;
  get_char32 = none;
  get_string32 = none;
  get_handle = none;
  get_callable = none;
}

-- `construct_cdts_callbacks(context, get_array_metadata, …)`, the context being the state.
abbrev pub construct_cdts_callbacks :
    {S : Type 0}
    → Option (List ℕ → ℕ → S → Metadata × S)
    → Option (List ℕ → Cdts → S → Cdts × S)
    → Option (S → ℕ × S)
    → Option (List ℕ → S → TypeInfo × S)
    → Getter S
    → Getter S
    → Getter S
    → Getter S
    → Getter S
    → Getter S
    → Getter S
    → Getter S
    → Getter S
    → Getter S
    → Getter S
    → Getter S
    → Owner S
    → Getter S
    → Owner S
    → Getter S
    → Owner S
    → Owner S
    → Owner S
    → Callbacks S
construct_cdts_callbacks get_array_metadata construct_cdt_array get_root_elements_count
      get_type_info get_float64 get_float32 get_int8 get_uint8 get_int16 get_uint16 get_int32
      get_uint32 get_int64 get_uint64 get_bool get_char8 get_string8 get_char16 get_string16
      get_char32 get_string32 get_handle get_callable =
    record {
      get_array_metadata = get_array_metadata;
      construct_cdt_array = construct_cdt_array;
      get_root_elements_count = get_root_elements_count;
      get_type_info = get_type_info;
      get_float64 = get_float64;
      get_float32 = get_float32;
      get_int8 = get_int8;
      get_uint8 = get_uint8;
      get_int16 = get_int16;
      get_uint16 = get_uint16;
      get_int32 = get_int32;
      get_uint32 = get_uint32;
      get_int64 = get_int64;
      get_uint64 = get_uint64;
      get_bool = get_bool;
      get_char8 = get_char8;
      get_string8 = get_string8;
      get_char16 = get_char16;
      get_string16 = get_string16;
      get_char32 = get_char32;
      get_string32 = get_string32;
      get_handle = get_handle;
      get_callable = get_callable;
    }
