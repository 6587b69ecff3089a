-- ===== src/Construct/Tested.antt =====
-- What a construction that gave a result must have passed: its parts, and the test on one element.
use meta_ffi_project.Shared.{
  ◌≡◌, refl, ◌⊎◌, inl, inr, true, false, Bool-cases, Option, none, some, ap, sym, ◌∙◌,
}
use meta_ffi_project.Shared.Int.{ℤ, eq_ℤ, eq_ℤ_iff}
use meta_ffi_project.Types.{has_array}
use meta_ffi_project.Cdts.{Cdt, cdt, Items, nil, cons, type_of, value_of}
use meta_ffi_project.Construct.{Outcome, built, thrown, fault, spent, and_then}
use meta_ffi_project.Construct.Shape.{mixed, int_min, dims_of, merge, next_dims}

-- The result, if there is one.
abbrev result : {S A : Type 0} → Outcome S A → Option (A × S)
result (built a s) = some (a, s)
result _ = none

abbrev IsBuilt : {S A : Type 0} → Outcome S A → Type 0
IsBuilt (built a s) = Unit
IsBuilt _ = ⊥

pub of_built : {S A : Type 0} {o : Outcome S A} {a : A} {s : S} → o ≡ built a s → IsBuilt o
of_built e = rw e tt

pub built-eq : {S A : Type 0} {a b : A} {s t : S} → built a s ≡ built b t → a ≡ b
built-eq {a = a} {s = s} e = ap (λ o. elim (result o) [ none ↦ a | some r ↦ r.0 ]) e

-- Both parts of a sequence that gave a result.
pub parts_of :
    {S A B : Type 0} (o : Outcome S A) (f : A → S → Outcome S B) (b : B) (t : S)
    → and_then o f ≡ built b t
    → (a : A) × (s : S) × (o ≡ built a s) × (f a s ≡ built b t)
parts_of (built a s) f b t e = (a, s, refl, e)
parts_of (thrown x s) f b t e = absurd (of_built e)
parts_of fault f b t e = absurd (of_built e)
parts_of spent f b t e = absurd (of_built e)

-- The elements are arrays with those dimensions, or with dimensions that were never set.
abbrev pub AreOf : ℤ → Items → Type 0
AreOf d nil = Unit
AreOf d (cons c rest) =
    (has_array (type_of c) ≡ true)
    × ((dims_of (value_of c) ≡ some d) ⊎ (dims_of (value_of c) ≡ some int_min))
    × AreOf d rest

pub flat_lem :
    {S : Type 0} (f g : ℤ) (c : Cdt) (s t : S)
    → next_dims true f c s ≡ built g t
    → (has_array (type_of c) ≡ false) × (f ≡ g)
unfolding next_dims
flat_lem f g (cdt ty v fr) s t e = elim (Bool-cases (has_array ty)) [
  | inl array ↦ absurd (of_built (rw array at e))
  | inr plain ↦ (plain, built-eq (rw plain at e))
]

-- What one test makes of the dimensions found so far.
pub mixed_stays :
    {S : Type 0} (g : ℤ) (c : Cdt) (s t : S) → next_dims false mixed c s ≡ built g t → mixed ≡ g
unfolding next_dims
mixed_stays g (cdt ty v fr) s t e = built-eq e

merge_lem :
    {S : Type 0} (f g : ℤ) (o : Option ℤ) (s t : S)
    → merge f o s ≡ built g t
    → (g ≡ mixed) ⊎ ((o ≡ some g) × ((f ≡ int_min) ⊎ (f ≡ g)))
merge_lem f g none s t e = absurd (of_built e)
merge_lem f g (some d) s t e = elim (Bool-cases (eq_ℤ f int_min)) [
  | inl first ↦
      let same : d ≡ g = built-eq (rw first at e) in
      inr (ap (λ x. some x) same, inl ((eq_ℤ_iff f int_min).0 first))
  | inr later ↦ elim (Bool-cases (eq_ℤ f d)) [
    | inl agree ↦
        let same : f ≡ g = built-eq (rw (later, agree) at e) in
        inr (ap (λ x. some x) (sym ((eq_ℤ_iff f d).0 agree) ∙ same), inr same)
    | inr differ ↦ inl (sym (built-eq (rw (later, differ) at e)))
  ]
]

mixed-merge :
    {S : Type 0} (g : ℤ) (o : Option ℤ) (s t : S) → merge mixed o s ≡ built g t → g ≡ mixed
mixed-merge g none s t e = absurd (of_built e)
mixed-merge g (some d) s t e = elim (Bool-cases (eq_ℤ mixed d)) [
  | inl agree ↦ sym (built-eq (rw agree at e))
  | inr differ ↦ sym (built-eq (rw differ at e))
]

pub next_lem :
    {S : Type 0} (f g : ℤ) (c : Cdt) (s t : S)
    → next_dims false f c s ≡ built g t
    → (g ≡ mixed)
      ⊎ ((has_array (type_of c) ≡ true)
          × (dims_of (value_of c) ≡ some g)
          × ((f ≡ int_min) ⊎ (f ≡ g)))
unfolding next_dims
next_lem f g (cdt ty v fr) s t e = elim (Bool-cases (eq_ℤ f mixed)) [
  | inl known ↦ inl (sym (built-eq (rw known at e)) ∙ (eq_ℤ_iff f mixed).0 known)
  | inr other ↦ elim (Bool-cases (has_array ty)) [
    | inr plain ↦ inl (mixed-merge g (dims_of v) s t (rw (other, plain) at e))
    | inl array ↦ elim (merge_lem f g (dims_of v) s t (rw (other, array) at e)) [
      | inl is_mixed ↦ inl is_mixed
      | inr found ↦ inr (array, found.0, found.1)
    ]
  ]
]

pub joins :
    (f f' g : ℤ) (c : Cdt) (rest : Items)
    → (has_array (type_of c) ≡ true) × (dims_of (value_of c) ≡ some f') × ((f ≡ int_min) ⊎ (f ≡ f'))
    → AreOf g rest × ((f' ≡ int_min) ⊎ (f' ≡ g))
    → AreOf g (cons c rest) × ((f ≡ int_min) ⊎ (f ≡ g))
joins f f' g c rest (array, dims, inl first) (all, inl unset) =
    ((array, inr (dims ∙ ap (λ x. some x) unset), all), inl first)
joins f f' g c rest (array, dims, inl first) (all, inr same) =
    ((array, inl (dims ∙ ap (λ x. some x) same), all), inl first)
joins f f' g c rest (array, dims, inr step) (all, inl unset) =
    ((array, inr (dims ∙ ap (λ x. some x) unset), all), inl (step ∙ unset))
joins f f' g c rest (array, dims, inr step) (all, inr same) =
    ((array, inl (dims ∙ ap (λ x. some x) same), all), inr (step ∙ same))
