-- ===== src/Callable/Compare.antt =====
-- What `operator==` of callables decides.
use mathlib.Core.Bool.{false≢true}
use mathlib.Core.List.{head-eq_of_cons-eq, tail-eq_of_cons-eq}
use meta_ffi_project.Shared.{
  ℕ, suc, ◌≡◌, refl, ◌≢◌, ◌↔◌, Bool, true, false, Bool-cases, inl, inr, List, [], ◌∷◌, length, ◌==◌,
  ==_iff, ap, sym, ◌∙◌, arith,
}
use meta_ffi_project.Callable.{Outcome, done, fault, equal_upto, equal_types, equal, free}
use meta_ffi_project.Callable.Vectors.{whole}

longer : (n : ℕ) → (suc n == 0) ≡ false
longer n = ground arith

-- A run that decides whether a statement holds.
abbrev pub IsDecided : Outcome Bool → Type 0 → Type 0
IsDecided o P = (b : Bool) × (o ≡ done b) × ((b ≡ true) ↔ P)

refuted : {P : Type 0} → (P → ⊥) → (false ≡ true) ↔ P
refuted h = (λ e. absurd (false≢true e), λ t. absurd (h t))

-- The Boolean test of an equation that does not hold.
apart : (a b : ℕ) → (a == b) ≡ false → a ≢ b
apart a b h e = false≢true (sym h ∙ (==_iff a b).1 e)

upto_lem :
    (xs ys : List ℕ) → length xs ≡ length ys → IsDecided (equal_upto (length xs) xs ys) (xs ≡ ys)
unfolding equal_upto
upto_lem [] [] h = (true, refl, (λ e. refl, λ e. refl))
upto_lem [] (y ∷ ys) h = absurd (omega arith)
upto_lem (x ∷ xs) [] h = absurd (omega arith)
upto_lem (x ∷ xs) (y ∷ ys) h = elim (Bool-cases (x == y)) [
  | inl same ↦
      let (b, run, decides) = upto_lem xs ys (omega arith) in
      let first = (==_iff x y).0 same in
      (b, rw same run, (λ e. rw (first, decides.0 e) refl, λ e. decides.1 (tail-eq_of_cons-eq e)))
  | inr differ ↦ (false, rw differ refl, refuted (λ e. apart x y differ (head-eq_of_cons-eq e)))
]

-- Callables whose arrays are as long as they say are compared without a read past an array, and are
-- equal exactly when their functions and both lists of types are.
pub equal-whole :
    (val other : ℕ) (ps qs rs ss : List ℕ)
    → IsDecided
        (equal (whole val ps rs) (whole other qs ss))
        ((val ≡ other) × (ps ≡ qs) × (rs ≡ ss))
unfolding equal equal_types
equal-whole val other ps qs rs ss = elim (Bool-cases (val == other)) [
  | inr v ↦ (false, rw v refl, refuted (λ t. apart val other v (t.0)))
  | inl v ↦ elim (Bool-cases (length ps == length qs)) [
    | inr p ↦
        (false, rw (v, p) refl, refuted (λ t. apart (length ps) (length qs) p (ap length (t.1))))
    | inl p ↦ elim (Bool-cases (length rs == length ss)) [
      | inr r ↦ (
        false,
        rw (v, p, r) refl,
        refuted (λ t. apart (length rs) (length ss) r (ap length (t.2))),
      )
      | inl r ↦
          let (b, run, decides) = upto_lem ps qs ((==_iff (length ps) (length qs)).0 p) in
          let (b', run', decides') = upto_lem rs ss ((==_iff (length rs) (length ss)).0 r) in
          elim (Bool-cases b) [
            | inr no_params ↦ (
              false,
              rw (v, p, r, run, no_params) refl,
              refuted (λ t. false≢true (sym no_params ∙ decides.1 (t.1))),
            )
            | inl params ↦ (
              b',
              rw (v, p, r, run, params) run',
              (
                λ e. ((==_iff val other).0 v, decides.0 params, decides'.0 e),
                λ t. decides'.1 (t.2),
              ),
            )
          ]
    ]
  ]
]

-- A callable that was freed while it had parameters cannot be compared with itself: its length
-- outlives its array.
pub equal-free :
    (val t : ℕ) (params retvals : List ℕ)
    → equal (free (whole val (t ∷ params) retvals)) (free (whole val (t ∷ params) retvals)) ≡ fault
unfolding equal equal_types free
equal-free val t params retvals =
    rw
      (
        (==_iff val val).1 refl,
        (==_iff (suc (length params)) (suc (length params))).1 refl,
        (==_iff (length retvals) (length retvals)).1 refl,
        longer (length params),
      )
      refl
