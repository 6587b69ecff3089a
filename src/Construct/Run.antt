-- ===== src/Construct/Run.antt =====
-- `construct_cdt` and `construct_cdts`.
use meta_ffi_project.Shared.{
  ℕ, zero, suc, ◌+◌, Bool, true, false, List, [], ◌∷◌, ◌++◌, Option, none, some, ltb, ◌==◌,
  if◌then◌else◌,
}
use meta_ffi_project.Shared.Int.{ℤ, is_positive}
use meta_ffi_project.Types.{Kind, any_type, array_type, without_array, with_array, kind_of}
use meta_ffi_project.Cdts.{
  Cdt, cdt, Value, array_val, Cdts, cdts, Items, nil, cons, count, new_items, new_cdts,
}
use meta_ffi_project.Traverse.{is_typed_array, type_to_use}
use meta_ffi_project.Construct.{
  Outcome, built, thrown, fault, spent, and_then, any_type_error, unknown_type, TypeInfo, Metadata,
  Callbacks,
}
use meta_ffi_project.Construct.Member.{get_member}
use meta_ffi_project.Construct.Shape.{int_min, start_dims, next_dims, final_dims}

-- The type of an item: the known one, or the callback's answer.
unfoldable pub type_info : {S : Type 0} → Callbacks S → List ℕ → TypeInfo → S → Outcome S TypeInfo
type_info cb index known s =
    if known.type == any_type
    then elim cb.get_type_info [ none ↦ fault | some f ↦ let (ti, s') = f index s in built ti s' ]
    else built known s

-- `ti.type |= metaffi_array_type` for a type with dimensions.
unfoldable pub full_type : TypeInfo → ℕ
full_type ti = if is_positive ti.fixed_dimensions then with_array ti.type else ti.type

-- The common type that `get_array_metadata` finds.
unfoldable pub first_common : ℕ → ℕ
first_common ty = if is_typed_array ty then without_array ty else 0

unfoldable pub array_item_type : ℕ → ℕ
array_item_type common = if common == any_type then array_type else with_array common

-- One construction of an element: its place, its index, the context.
abbrev pub Construct : Type 0 → Type 0
Construct S = Cdt → List ℕ → S → Outcome S Cdt

module _ {S : Type 0} (element : Construct S) where
  -- The loop over the elements. Its counter is an `int`, which must not be counted past 2^31 - 1.
  unfoldable pub elements : Bool → Items → List ℕ → ℕ → ℤ → S → Outcome S (Items × ℤ)
  elements is_1d nil index i found s = built (nil, found) s
  elements is_1d (cons c rest) index i found s =
      and_then (element c (index ++ (i ∷ [])) s) (λ c' s1.
        and_then (next_dims is_1d found c' s1) (λ found' s2.
          if i + 1 == 2147483648
          then fault
          else and_then (elements is_1d rest index (i + 1) found' s2)
              (λ r s3. built (cons c' r.0, r.1) s3)))

  -- The case of the array. The elements are new, and there are as many as the loop counts to.
  unfoldable pub construct_array : Callbacks S → List ℕ → Metadata → S → Outcome S Cdts
  construct_array cb index m s =
      if m.is_manually_construct_array
      then elim cb.construct_cdt_array [
        | none ↦ fault
        | some f ↦ let (a, s') = f index (new_cdts m.array_length int_min) s in built a s'
      ]
      else and_then
          (elements m.is_1d_array (new_items m.array_length) index 0
            (start_dims m.is_fixed_dimension) s)
          (λ r s1.
            and_then (final_dims m.is_1d_array r.1 s1)
              (λ dims s2. built (cdts m.array_length r.0 dims false) s2))

  unfoldable pub construct_array_item : Callbacks S → ℕ → List ℕ → S → Outcome S Cdt
  construct_array_item cb common index s = elim cb.get_array_metadata [
    | none ↦ fault
    | some f ↦
        let (m, s1) = f index common s in
        and_then (construct_array cb index m s1)
          (λ a s2. built (cdt (array_item_type m.common_type) (array_val a) true) s2)
  ]

  -- The `switch`, on the item's type.
  unfoldable pub construct_kind :
      Callbacks S → Option Kind → ℕ → ℕ → Value → Bool → List ℕ → S → Outcome S Cdt
  construct_kind cb none ty common v fr index s = thrown (unknown_type ty) s
  construct_kind cb (some Kind.array) ty common v fr index s =
      construct_array_item cb common index s
  construct_kind cb (some k) ty common v fr index s = get_member cb k ty v fr index s

  unfoldable pub construct_typed : Callbacks S → ℕ → Cdt → List ℕ → S → Outcome S Cdt
  construct_typed cb ty (cdt old v fr) index s =
      construct_kind cb (kind_of (type_to_use ty)) (type_to_use ty) (first_common ty) v fr index s

  unfoldable pub construct_item : Callbacks S → Cdt → List ℕ → TypeInfo → S → Outcome S Cdt
  construct_item cb item index known s = and_then (type_info cb index known s) (λ ti s1.
      if ti.type == any_type
      then thrown any_type_error s1
      else construct_typed cb (full_type ti) item index s1)

-- `metaffi_type_info(metaffi_any_type)`, the default of `known_type`.
abbrev pub any_info : TypeInfo
any_info = record { type = any_type; fixed_dimensions = ℤ.negsuc 0 }

-- The fuel bounds how deep arrays are nested.
unfoldable pub construct_cdt :
    {S : Type 0} → ℕ → Callbacks S → Cdt → List ℕ → TypeInfo → S → Outcome S Cdt
construct_cdt zero cb item index known s = spent
construct_cdt (suc fuel) cb item index known s =
    construct_item (λ c at s'. construct_cdt fuel cb c at any_info s') cb item index known s

-- The loop of `construct_cdts`, over the queue of all elements.
unfoldable pub construct_each :
    {S : Type 0} → ℕ → Callbacks S → Items → ℕ → List ℕ → ℕ → S → Outcome S Items
construct_each fuel cb nil len index i s = built nil s
construct_each fuel cb (cons c rest) len index i s =
    if ltb i len
    then and_then (construct_cdt fuel cb c (index ++ (i ∷ [])) any_info s) (λ c' s1.
      and_then (construct_each fuel cb rest len index (i + 1) s1)
        (λ rest' s2. built (cons c' rest') s2))
    else built (cons c rest) s

-- The elements of an empty `cdts` are made first, as many as the callback says. A length that the
-- memory does not have is a fault. The known type is given on to no element.
unfoldable pub construct_cdts :
    {S : Type 0} → ℕ → Callbacks S → Cdts → List ℕ → TypeInfo → S → Outcome S Cdts
construct_cdts fuel cb (cdts len arr dims cache) index known s =
    if len == 0
    then elim cb.get_root_elements_count [
      | none ↦ fault
      | some f ↦
          let (n, s1) = f s in
          and_then (construct_each fuel cb (new_items n) n index 0 s1)
            (λ items s2. built (cdts n items dims cache) s2)
    ]
    else (if ltb (count arr) len
        then fault
        else and_then (construct_each fuel cb arr len index 0 s)
            (λ items s1. built (cdts len items dims cache) s1))
