-- ===== src/Construct/Kinds.antt =====
-- Every step of `construct_cdt` builds values whose unions hold what their types say.
use native.Mathlib.Nat.{mod-mod}
use meta_ffi_project.Shared.{
  ℕ, suc, ◌+◌, ◌^◌, ◌≡◌, refl, Bool, true, false, List, [], ◌∷◌, ◌++◌, Option, none, some, ap, sym,
  ◌∙◌, ◌==◌, Bool-cases, Option-cases, inl, inr, if◌then◌else◌,
}
use meta_ffi_project.Shared.Int.{ℤ, eq_ℤ}
use meta_ffi_project.Types.{Kind, code, any_type, has_array, kind_of}
use meta_ffi_project.Types.Flags.{has_array-with_array_any, kind_of_sound}
use meta_ffi_project.Cdts.{
  Cdt, cdt, Value, array_val, Cdts, cdts, Items, nil, cons, count, new_items, new_cdts,
}
use meta_ffi_project.Traverse.{low, type_to_use, is_typed_array}
use meta_ffi_project.Construct.{Callbacks, Getter, Owner, Metadata}
use meta_ffi_project.Construct.Member.{ask, ask_owner, get_member}
use meta_ffi_project.Construct.Shape.{
  next_dims, final_dims, start_dims, int_min, int64_max, mixed, merge, dims_of,
}
use meta_ffi_project.Construct.Run.{
  Construct, first_common, array_item_type, elements, construct_array, construct_array_item,
  construct_kind, construct_typed,
}
use meta_ffi_project.Construct.Sound.{count-new_items}
use meta_ffi_project.Construct.Values.{IsMember}
use meta_ffi_project.Construct.Typed.{
  IsTyped, AreTyped, IsFilled, Fills, Runs, and_then-Runs, if-Runs, single, nothing, several,
  none_left, one_more, new_items-AreTyped,
}

low_twice : (w bits : ℕ) → low (low w bits) bits ≡ low w bits
low_twice w bits = mod-mod w (2 ^ bits)

module _ {S : Type 0} (X : Type 0) where
  ask-IsTyped :
      (g : Getter S) (k : Kind) (ty bits : ℕ) (index : List ℕ) (s : S)
      → kind_of ty ≡ some k
      → ((w : ℕ) → IsMember k (low w bits) false)
      → Runs X IsTyped (ask g ty bits index s)
  ask-IsTyped none k ty bits index s e h = tt
  ask-IsTyped (some f) k ty bits index s e h = single k e (h ((f index s).0))

  ask_owner-IsTyped :
      (g : Owner S) (k : Kind) (ty : ℕ) (fr : Bool) (index : List ℕ) (s : S)
      → kind_of ty ≡ some k
      → ((w : ℕ) (fr' : Bool) → IsMember k w fr')
      → Runs X IsTyped (ask_owner g ty fr index s)
  ask_owner-IsTyped none k ty fr index s e h = tt
  ask_owner-IsTyped (some f) k ty fr index s e h = single k e (h _ _)

  get_member-IsTyped :
      (cb : Callbacks S) (k : Kind) (ty : ℕ) (v : Value) (fr : Bool) (index : List ℕ) (s : S)
      → kind_of ty ≡ some k
      → Runs X IsTyped (get_member cb k ty v fr index s)
  unfolding get_member
  get_member-IsTyped cb Kind.float64 ty v fr index s e =
      ask-IsTyped cb.get_float64 Kind.float64 ty 64 index s e (λ w. (low_twice w 64, refl))
  get_member-IsTyped cb Kind.float32 ty v fr index s e =
      ask-IsTyped cb.get_float32 Kind.float32 ty 32 index s e (λ w. (low_twice w 32, refl))
  get_member-IsTyped cb Kind.int8 ty v fr index s e =
      ask-IsTyped cb.get_int8 Kind.int8 ty 8 index s e (λ w. (low_twice w 8, refl))
  get_member-IsTyped cb Kind.uint8 ty v fr index s e =
      ask-IsTyped cb.get_uint8 Kind.uint8 ty 8 index s e (λ w. (low_twice w 8, refl))
  get_member-IsTyped cb Kind.int16 ty v fr index s e =
      ask-IsTyped cb.get_int16 Kind.int16 ty 16 index s e (λ w. (low_twice w 16, refl))
  get_member-IsTyped cb Kind.uint16 ty v fr index s e =
      ask-IsTyped cb.get_uint16 Kind.uint16 ty 16 index s e (λ w. (low_twice w 16, refl))
  get_member-IsTyped cb Kind.int32 ty v fr index s e =
      ask-IsTyped cb.get_int32 Kind.int32 ty 32 index s e (λ w. (low_twice w 32, refl))
  get_member-IsTyped cb Kind.uint32 ty v fr index s e =
      ask-IsTyped cb.get_uint32 Kind.uint32 ty 32 index s e (λ w. (low_twice w 32, refl))
  get_member-IsTyped cb Kind.int64 ty v fr index s e =
      ask-IsTyped cb.get_int64 Kind.int64 ty 64 index s e (λ w. (low_twice w 64, refl))
  get_member-IsTyped cb Kind.uint64 ty v fr index s e =
      ask-IsTyped cb.get_uint64 Kind.uint64 ty 64 index s e (λ w. (low_twice w 64, refl))
  get_member-IsTyped cb Kind.bool ty v fr index s e =
      ask-IsTyped cb.get_bool Kind.bool ty 8 index s e (λ w. (low_twice w 8, refl))
  get_member-IsTyped cb Kind.char8 ty v fr index s e =
      ask-IsTyped cb.get_char8 Kind.char8 ty 32 index s e (λ w. (low_twice w 32, refl))
  get_member-IsTyped cb Kind.string8 ty v fr index s e =
      ask_owner-IsTyped cb.get_string8 Kind.string8 ty fr index s e (λ w fr'. tt)
  get_member-IsTyped cb Kind.char16 ty v fr index s e =
      ask-IsTyped cb.get_char16 Kind.char16 ty 32 index s e (λ w. (low_twice w 32, refl))
  get_member-IsTyped cb Kind.string16 ty v fr index s e =
      ask_owner-IsTyped cb.get_string16 Kind.string16 ty fr index s e (λ w fr'. tt)
  get_member-IsTyped cb Kind.char32 ty v fr index s e =
      ask-IsTyped cb.get_char32 Kind.char32 ty 32 index s e (λ w. (low_twice w 32, refl))
  get_member-IsTyped cb Kind.string32 ty v fr index s e =
      ask_owner-IsTyped cb.get_string32 Kind.string32 ty fr index s e (λ w fr'. tt)
  get_member-IsTyped cb Kind.handle ty v fr index s e =
      ask_owner-IsTyped cb.get_handle Kind.handle ty fr index s e (λ w fr'. tt)
  get_member-IsTyped cb Kind.callable ty v fr index s e =
      ask_owner-IsTyped cb.get_callable Kind.callable ty true index s e (λ w fr'. tt)
  get_member-IsTyped cb Kind.null ty v fr index s e = nothing e
  get_member-IsTyped cb Kind.array ty v fr index s e = tt

has_array-array_item_type : (common : ℕ) → has_array (array_item_type common) ≡ true
unfolding array_item_type has_array
has_array-array_item_type common = elim (Bool-cases (common == any_type)) [
  | inl any ↦ rw any refl
  | inr other ↦ rw other (has_array-with_array_any common)
]

array-IsTyped :
    (common : ℕ) (a : Cdts) → IsFilled a → IsTyped (cdt (array_item_type common) (array_val a) true)
array-IsTyped common (cdts len arr dims cache) (n, all) =
    several (has_array-array_item_type common) n all

array-has_array : (ty : ℕ) → kind_of (type_to_use ty) ≡ some Kind.array → has_array ty ≡ true
unfolding type_to_use is_typed_array has_array
array-has_array ty e =
    let same = kind_of_sound (type_to_use ty) Kind.array e in
    elim (Bool-cases (has_array ty)) [
      | inl array ↦ array
      | inr plain ↦ let is_it : ty ≡ code Kind.array = rw plain at same in cc (rw is_it at plain)
    ]

-- As many elements, all typed.
abbrev AllTyped : ℕ → Items → Type 0
AllTyped n arr = (n ≡ count arr) × AreTyped arr

merge-Runs :
    {S : Type 0} (X : Type 0) (found : ℤ) (o : Option ℤ) (s : S)
    → Runs X (λ d. Unit) (merge found o s)
merge-Runs X found none s = tt
merge-Runs X found (some d) s =
    if-Runs X _ (eq_ℤ found int_min) _ _ tt (if-Runs X _ (eq_ℤ found d) _ _ tt tt)

next_dims-Runs :
    {S : Type 0} (X : Type 0) (is_1d : Bool) (found : ℤ) (c : Cdt) (s : S)
    → Runs X (λ d. Unit) (next_dims is_1d found c s)
unfolding next_dims
next_dims-Runs X is_1d found (cdt ty v fr) s =
    if-Runs X _ is_1d _ _ (if-Runs X _ (has_array ty) _ _ tt tt) (
      if-Runs X _ (eq_ℤ found mixed) _ _ tt
        (merge-Runs X (if has_array ty then found else mixed) (dims_of v) s))

final_dims-Runs :
    {S : Type 0} (X : Type 0) (is_1d : Bool) (found : ℤ) (s : S)
    → Runs X (λ d. Unit) (final_dims is_1d found s)
unfolding final_dims
final_dims-Runs X is_1d found s =
    if-Runs X _ is_1d _ _ tt
      (if-Runs X _ (eq_ℤ found mixed) _ _ tt (if-Runs X _ (eq_ℤ found int64_max) _ _ tt tt))

-- What is assumed of the elements of the item at an index.
abbrev pub ElementsRun : {S : Type 0} → Type 0 → Construct S → List ℕ → Type 0
ElementsRun {S = S} X element index =
    (c : Cdt) (i : ℕ) (s : S) → Runs X IsTyped (element c (index ++ (i ∷ [])) s)

module _ {S : Type 0} (X : Type 0) (element : Construct S) (index : List ℕ) where
  elements-AllTyped :
      (is_1d : Bool) (items : Items) (i : ℕ) (found : ℤ) (s : S)
      → ElementsRun X element index
      → Runs X (λ r. AllTyped (count items) (r.0)) (elements element is_1d items index i found s)
  unfolding elements
  elements-AllTyped is_1d nil i found s typed = (refl, none_left)
  elements-AllTyped is_1d (cons c rest) i found s typed =
      and_then-Runs X IsTyped _ (element c (index ++ (i ∷ [])) s) _ (typed c i s) λ c' s1 t.
        and_then-Runs X (λ d. Unit) _ (next_dims is_1d found c' s1) _
          (next_dims-Runs X is_1d found c' s1)
          λ found' s2 _. elim (Bool-cases (i + 1 == 2147483648)) [
            | inl last ↦ rw last tt
            | inr more ↦ rw more (
                and_then-Runs X (λ r. AllTyped (count rest) (r.0)) _
                  (elements element is_1d rest index (i + 1) found' s2) _
                  (elements-AllTyped is_1d rest (i + 1) found' s2 typed)
                  λ r s3 all. (ap suc (all.0), one_more t (all.1)))
          ]

  construct_array-IsFilled :
      (cb : Callbacks S) (m : Metadata) (s : S)
      → Fills cb
      → ElementsRun X element index
      → Runs X IsFilled (construct_array element cb index m s)
  unfolding construct_array
  construct_array-IsFilled cb m s fills typed = elim (Bool-cases m.is_manually_construct_array) [
    | inl by_hand ↦ elim (Option-cases cb.construct_cdt_array) [
      | inl null ↦ rw (by_hand, null) tt
      | inr (f, set) ↦
          rw (by_hand, set)
            (fills f set index (new_cdts m.array_length int_min) s
              (sym (count-new_items m.array_length), new_items-AreTyped m.array_length))
    ]
    | inr loop ↦ rw loop (
        and_then-Runs X (λ r. AllTyped (count (new_items m.array_length)) (r.0)) _
          (elements element m.is_1d_array (new_items m.array_length) index 0
            (start_dims m.is_fixed_dimension) s)
          _
          (elements-AllTyped m.is_1d_array (new_items m.array_length) 0
            (start_dims m.is_fixed_dimension) s typed)
          λ r s1 all.
            and_then-Runs X (λ d. Unit) _ (final_dims m.is_1d_array r.1 s1) _
              (final_dims-Runs X m.is_1d_array r.1 s1)
              λ dims s2 _. (sym (count-new_items m.array_length) ∙ all.0, all.1))
  ]

  construct_array_item-IsTyped :
      (cb : Callbacks S) (common : ℕ) (s : S)
      → Fills cb
      → ElementsRun X element index
      → Runs X IsTyped (construct_array_item element cb common index s)
  unfolding construct_array_item construct_array
  construct_array_item-IsTyped cb common s fills typed = elim (Option-cases cb.get_array_metadata) [
    | inl null ↦ rw null tt
    | inr (f, set) ↦ rw set (
        let (m, s1) = f index common s in
        and_then-Runs X IsFilled IsTyped (construct_array element cb index m s1) _
          (construct_array-IsFilled cb m s1 fills typed)
          λ a s2 filled. array-IsTyped m.common_type a filled)
  ]

  construct_kind-IsTyped :
      (cb : Callbacks S) (o : Option Kind) (ty common : ℕ) (v : Value) (fr : Bool) (s : S)
      → Fills cb
      → kind_of ty ≡ o
      → (kind_of ty ≡ some Kind.array → ElementsRun X element index)
      → Runs X IsTyped (construct_kind element cb o ty common v fr index s)
  unfolding construct_kind
  construct_kind-IsTyped cb none ty common v fr s fills e typed = tt
  construct_kind-IsTyped cb (some Kind.array) ty common v fr s fills e typed =
      construct_array_item-IsTyped cb common s fills (typed e)
  construct_kind-IsTyped cb (some k) ty common v fr s fills e typed =
      get_member-IsTyped X cb k ty v fr index s e

  pub construct_typed-IsTyped :
      (cb : Callbacks S) (ty : ℕ) (item : Cdt) (s : S)
      → Fills cb
      → (has_array ty ≡ true → ElementsRun X element index)
      → Runs X IsTyped (construct_typed element cb ty item index s)
  unfolding construct_typed
  construct_typed-IsTyped cb ty (cdt old v fr) s fills typed =
      construct_kind-IsTyped cb (kind_of (type_to_use ty)) (type_to_use ty) (first_common ty) v fr s
        fills refl (λ e. typed (array-has_array ty e))
