-- ===== src/Construct/Member.antt =====
-- The cases of `construct_cdt` for a single value: the callback of its type is asked, and the answer
-- is kept in the member of the union.
use meta_ffi_project.Shared.{ℕ, Bool, true, false, List, none, some}
use meta_ffi_project.Types.{Kind}
use meta_ffi_project.Cdts.{Cdt, cdt, Value, word}
use meta_ffi_project.Traverse.{low}
use meta_ffi_project.Construct.{Outcome, built, fault, Getter, Owner, Callbacks}

module _ {S : Type 0} where
  abbrev pub ask : Getter S → ℕ → ℕ → List ℕ → S → Outcome S Cdt
  ask none ty bits index s = fault
  ask (some f) ty bits index s =
      let (w, s') = f index s in built (cdt ty (word (low w bits)) false) s'

  abbrev pub ask_owner : Owner S → ℕ → Bool → List ℕ → S → Outcome S Cdt
  ask_owner none ty fr index s = fault
  ask_owner (some f) ty fr index s =
      let ((w, fr'), s') = f index fr s in built (cdt ty (word w) fr') s'

  -- By the type, what the item held before and its `free_required`. Strings and handles hand that
  -- flag to the callback, a callable the flag that is set first; a null type leaves the union as it
  -- is. The case of the array is not asked here.
  unfoldable pub get_member : Callbacks S → Kind → ℕ → Value → Bool → List ℕ → S → Outcome S Cdt
  get_member cb Kind.float64 ty v fr index s = ask cb.get_float64 ty 64 index s
  get_member cb Kind.float32 ty v fr index s = ask cb.get_float32 ty 32 index s
  get_member cb Kind.int8 ty v fr index s = ask cb.get_int8 ty 8 index s
  get_member cb Kind.uint8 ty v fr index s = ask cb.get_uint8 ty 8 index s
  get_member cb Kind.int16 ty v fr index s = ask cb.get_int16 ty 16 index s
  get_member cb Kind.uint16 ty v fr index s = ask cb.get_uint16 ty 16 index s
  get_member cb Kind.int32 ty v fr index s = ask cb.get_int32 ty 32 index s
  get_member cb Kind.uint32 ty v fr index s = ask cb.get_uint32 ty 32 index s
  get_member cb Kind.int64 ty v fr index s = ask cb.get_int64 ty 64 index s
  get_member cb Kind.uint64 ty v fr index s = ask cb.get_uint64 ty 64 index s
  get_member cb Kind.bool ty v fr index s = ask cb.get_bool ty 8 index s
  get_member cb Kind.char8 ty v fr index s = ask cb.get_char8 ty 32 index s
  get_member cb Kind.string8 ty v fr index s = ask_owner cb.get_string8 ty fr index s
  get_member cb Kind.char16 ty v fr index s = ask cb.get_char16 ty 32 index s
  get_member cb Kind.string16 ty v fr index s = ask_owner cb.get_string16 ty fr index s
  get_member cb Kind.char32 ty v fr index s = ask cb.get_char32 ty 32 index s
  get_member cb Kind.string32 ty v fr index s = ask_owner cb.get_string32 ty fr index s
  get_member cb Kind.handle ty v fr index s = ask_owner cb.get_handle ty fr index s
  get_member cb Kind.callable ty v fr index s = ask_owner cb.get_callable ty true index s
  get_member cb Kind.null ty v fr index s = built (cdt ty v false) s
  get_member cb Kind.array ty v fr index s = fault
