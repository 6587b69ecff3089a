-- ===== src/Construct/Ends.antt =====
-- What a construction leaves, whatever the callbacks answer, and how deep it has to go.
use meta_ffi_project.Shared.{
  ℕ, zero, suc, ◌+◌, ◌≤◌, ◌≡◌, ◌≢◌, refl, true, false, List, [], ◌∷◌, ◌++◌, length, length-append,
  Option, none, some, ◌==◌, arith,
}
use meta_ffi_project.Types.{any_type, has_array}
use meta_ffi_project.Cdts.{Cdt}
use meta_ffi_project.Construct.{Outcome, built, fault, spent, Callbacks, TypeInfo}
use meta_ffi_project.Construct.Run.{
  Construct, type_info, full_type, construct_item, any_info, construct_cdt,
}
use meta_ffi_project.Construct.Typed.{IsTyped, Fills, Runs, and_then-Runs, if-Runs}
use meta_ffi_project.Construct.Kinds.{ElementsRun, construct_typed-IsTyped}

asked-Runs :
    {S : Type 0} (X : Type 0) (P : TypeInfo → Type 0) (o : Option (List ℕ → S → TypeInfo × S))
    (index : List ℕ) (s : S)
    → ((f : List ℕ → S → TypeInfo × S) → o ≡ some f → P ((f index s).0))
    → Runs X P (elim o [ none ↦ fault | some f ↦ let (ti, s') = f index s in built ti s' ])
asked-Runs X P none index s h = tt
asked-Runs X P (some f) index s h = h f refl

-- What the items know of their types decides whether their elements are looked at.
construct_item-Runs :
    {S : Type 0} (X : Type 0) (element : Construct S) (cb : Callbacks S) (item : Cdt)
    (index : List ℕ) (known : TypeInfo) (s : S)
    → Fills cb
    → Runs X
        (λ ti. has_array (full_type ti) ≡ true → ElementsRun X element index)
        (type_info cb index known s)
    → Runs X IsTyped (construct_item element cb item index known s)
unfolding construct_item
construct_item-Runs X element cb item index known s fills typed =
    and_then-Runs X (λ ti. has_array (full_type ti) ≡ true → ElementsRun X element index) IsTyped
      (type_info cb index known s) _ typed
      λ ti s1 inside.
        if-Runs X IsTyped (ti.type == any_type) _ _ tt
          (construct_typed-IsTyped X element index cb (full_type ti) item s1 fills inside)

construct_cdt-Runs :
    {S : Type 0} (fuel : ℕ) (cb : Callbacks S) (item : Cdt) (index : List ℕ) (known : TypeInfo)
    (s : S)
    → Fills cb
    → Runs Unit IsTyped (construct_cdt fuel cb item index known s)
unfolding construct_cdt type_info
construct_cdt-Runs zero cb item index known s fills = tt
construct_cdt-Runs (suc fuel) cb item index known s fills =
    let inside : ElementsRun Unit (λ c at s'. construct_cdt fuel cb c at any_info s') index =
      λ c i s'. construct_cdt-Runs fuel cb c (index ++ (i ∷ [])) any_info s' fills in
    construct_item-Runs Unit (λ c at s'. construct_cdt fuel cb c at any_info s') cb item index known
      s fills
      (if-Runs Unit _ (known.type == any_type) _ _
        (asked-Runs Unit _ cb.get_type_info index s (λ f set array. inside)) (λ array. inside))

-- Whatever the callbacks answer, and whatever the item held: a value that is constructed has a union
-- that holds what its type says, and arrays with as many elements as they say, at every depth. Where
-- the callbacks fill an array themselves, they leave one of which this is true.
pub construct_cdt-IsTyped :
    {S : Type 0} (fuel : ℕ) (cb : Callbacks S) (item : Cdt) (index : List ℕ) (known : TypeInfo)
    (s : S) (c : Cdt) (t : S)
    → Fills cb
    → construct_cdt fuel cb item index known s ≡ built c t
    → IsTyped c
construct_cdt-IsTyped fuel cb item index known s c t fills e =
    rw e at (construct_cdt-Runs fuel cb item index known s fills)

-- The callbacks have no array inside so many others.
abbrev pub Shallow : {S : Type 0} → ℕ → Callbacks S → Type 0
Shallow {S = S} d cb =
    (f : List ℕ → S → TypeInfo × S)
    → cb.get_type_info ≡ some f
    → (index : List ℕ) (s : S) → d ≤ length index
    → has_array (full_type ((f index s).0)) ≡ false

module _ {S : Type 0} (d : ℕ) (cb : Callbacks S) (fills : Fills cb) (shallow : Shallow d cb) where
  ends_lem :
      (fuel : ℕ) (item : Cdt) (index : List ℕ) (s : S)
      → d ≤ length index + fuel
      → Runs ⊥ IsTyped (construct_cdt (suc fuel) cb item index any_info s)
  unfolding construct_cdt type_info
  ends_lem zero item index s n =
      construct_item-Runs ⊥ (λ c at s'. construct_cdt zero cb c at any_info s') cb item index
        any_info s fills
        (asked-Runs ⊥ _ cb.get_type_info index s
          λ f set array. cc (shallow f set index s (omega arith), array))
  ends_lem (suc fuel) item index s n =
      construct_item-Runs ⊥ (λ c at s'. construct_cdt (suc fuel) cb c at any_info s') cb item index
        any_info s fills
        (asked-Runs ⊥ _ cb.get_type_info index s λ f set array c i s'.
          ends_lem fuel c (index ++ (i ∷ [])) s' (omega (arith, length-append index (i ∷ []))))

never_spent : {S : Type 0} (o : Outcome S Cdt) → Runs ⊥ IsTyped o → o ≢ spent
never_spent o h e = rw e at h

-- Callbacks that have no array inside `d` others: a construction ends, and its recursion goes at most
-- `d` deep below the item, as fuel of `d + 1` is enough. Where the callbacks fill an array themselves,
-- its elements hold what their types say.
pub construct_cdt-ends :
    {S : Type 0} (d : ℕ) (cb : Callbacks S) (item : Cdt) (s : S)
    → Fills cb
    → Shallow d cb
    → construct_cdt (d + 1) cb item [] any_info s ≢ spent
construct_cdt-ends d cb item s fills shallow =
    let plus : d + 1 ≡ suc d = omega arith in
    rw plus (never_spent _ (ends_lem d cb fills shallow d item [] s (omega arith)))
