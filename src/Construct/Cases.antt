-- ===== src/Construct/Cases.antt =====
-- What `construct_cdt` makes of one value when a reader answers: a member, or an array whose elements
-- are given.
use meta_ffi_project.Shared.{ℕ, ◌≡◌, refl, Bool, true, false, not, List, some}
use meta_ffi_project.Shared.Int.{ℤ, pos, eq_ℤ}
use meta_ffi_project.Types.{Kind, code}
use meta_ffi_project.Types.Flags.{kind_of-code, code-ne_any}
use meta_ffi_project.Cdts.{Cdt, cdt, word, array_val, cdts, Items, count, default_cdt, new_items}
use meta_ffi_project.Traverse.Events.{Common, IsCommon, array_of, common_of}
use meta_ffi_project.Traverse.Complete.{
  not_any, array_of-ne_any, common_type-array_of, type_to_use-code, type_to_use-array_of,
}
use meta_ffi_project.Construct.{built}
use meta_ffi_project.Construct.Member.{get_member}
use meta_ffi_project.Construct.Shape.{mixed, start_dims, final_dims}
use meta_ffi_project.Construct.Run.{
  Construct, type_info, full_type, array_item_type, first_common, elements, construct_array,
  construct_array_item, construct_kind, construct_typed, construct_item, any_info,
}
use meta_ffi_project.Construct.Reader.{look, reader}
use meta_ffi_project.Construct.Scans.{member-IsElement, full_type-array_of}
use meta_ffi_project.Construct.Values.{IsMember}

module _ {S : Type 0} (element : Construct S) (root : Cdt) where
  -- The member of the type, as the reader answers.
  kind_lem :
      (k : Kind) (common w : ℕ) (fr : Bool) (index : List ℕ) (s : S)
      → look root index ≡ cdt (code k) (word w) fr
      → IsMember k w fr
      → construct_kind element (reader root) (some k) (code k) common (word 0) false index s
        ≡ built (cdt (code k) (word w) fr) s
  unfolding construct_kind get_member
  kind_lem Kind.float64 common w fr index s e h = rw (e, h.0, h.1) refl
  kind_lem Kind.float32 common w fr index s e h = rw (e, h.0, h.1) refl
  kind_lem Kind.int8 common w fr index s e h = rw (e, h.0, h.1) refl
  kind_lem Kind.uint8 common w fr index s e h = rw (e, h.0, h.1) refl
  kind_lem Kind.int16 common w fr index s e h = rw (e, h.0, h.1) refl
  kind_lem Kind.uint16 common w fr index s e h = rw (e, h.0, h.1) refl
  kind_lem Kind.int32 common w fr index s e h = rw (e, h.0, h.1) refl
  kind_lem Kind.uint32 common w fr index s e h = rw (e, h.0, h.1) refl
  kind_lem Kind.int64 common w fr index s e h = rw (e, h.0, h.1) refl
  kind_lem Kind.uint64 common w fr index s e h = rw (e, h.0, h.1) refl
  kind_lem Kind.bool common w fr index s e h = rw (e, h.0, h.1) refl
  kind_lem Kind.char8 common w fr index s e h = rw (e, h.0, h.1) refl
  kind_lem Kind.string8 common w fr index s e h = rw e refl
  kind_lem Kind.char16 common w fr index s e h = rw (e, h.0, h.1) refl
  kind_lem Kind.string16 common w fr index s e h = rw e refl
  kind_lem Kind.char32 common w fr index s e h = rw (e, h.0, h.1) refl
  kind_lem Kind.string32 common w fr index s e h = rw e refl
  kind_lem Kind.handle common w fr index s e h = rw e refl
  kind_lem Kind.callable common w fr index s e h = rw e refl
  kind_lem Kind.null common w fr index s e h = rw (h.0, h.1) refl
  kind_lem Kind.array common w fr index s e h = absurd h

  pub leaf_lem :
      (k : Kind) (w : ℕ) (fr : Bool) (index : List ℕ) (s : S)
      → look root index ≡ cdt (code k) (word w) fr
      → IsMember k w fr
      → construct_item element (reader root) default_cdt index any_info s
        ≡ built (cdt (code k) (word w) fr) s
  unfolding construct_item type_info construct_typed full_type
  leaf_lem k w fr index s e h =
      let plain = member-IsElement k w fr h in
      rw (e, not_any (code k) (code-ne_any k), type_to_use-code k plain, kind_of-code k)
        (kind_lem k (first_common (code k)) w fr index s e h)

  -- An array, when the loop over its elements gives them and the dimensions found.
  pub branch_lem :
      (common : Common) (arr made : Items) (dims found : ℤ) (index : List ℕ) (s : S)
      → look root index ≡ cdt (array_of common) (array_val (cdts (count arr) arr dims false)) true
      → IsCommon common
      → elements element
          (eq_ℤ dims (pos 1))
          (new_items (count arr))
          index
          0
          (start_dims (not (eq_ℤ dims mixed)))
          s
        ≡ built (made, found) s
      → final_dims (eq_ℤ dims (pos 1)) found s ≡ built dims s
      → construct_item element (reader root) default_cdt index any_info s
        ≡ built
            (cdt
              (array_item_type (common_of common))
              (array_val (cdts (count arr) made dims false))
              true)
            s
  unfolding construct_item type_info construct_typed construct_kind construct_array_item
      construct_array
  branch_lem common arr made dims found index s e h loop last =
      rw
        (
          e,
          not_any (array_of common) (array_of-ne_any common h),
          full_type-array_of common dims h,
          type_to_use-array_of common h,
          kind_of-code Kind.array,
          e,
          common_type-array_of common h,
          loop,
          last,
        )
        refl
