-- ===== src/Cdts/Once.antt =====
-- That freeing releases every pointer once, in whichever order the destructors run.
use mathlib.Core.Option.{none-ne-some, some-injective}
use mathlib.Core.List.{Perm, append-nil}
use mathlib.Core.List.Perm
use mathlib.Core.List.Permᴰ
use meta_ffi_project.Shared.{
  ℕ, suc, ◌≡◌, refl, Bool, true, false, Bool-cases, inl, inr, List, [], ◌∷◌, ◌++◌, Option, none,
  some, ◌==◌, if◌then◌else◌, sym,
}
use meta_ffi_project.Shared.Int.{ℤ}
use meta_ffi_project.Types.{Kind, has_array, kind_of}
use meta_ffi_project.Cdts.{Cdt, cdt, Value, word, array_val, cdts, Items, nil, cons, count}
use meta_ffi_project.Cdts.Memory.{
  Release, string, callable, handle_emptied, elements, array, delete, free_word, owns, both,
  releases, destroys, destroys_value, destroys_cdts, destroys_forward, destroys_backward, free,
  freed,
}
use meta_ffi_project.Cdts.Free.{free_twice, releases-destroys}

-- What a pointer of a kind needs at its end; a null pointer needs nothing.
abbrev pub unless_null : (ℕ → Release) → ℕ → List Release
unless_null what w = if w == 0 then [] else (what w ∷ [])

abbrev pub pointer : Option Kind → ℕ → List Release
pointer (some Kind.string8) w = unless_null string w
pointer (some Kind.string16) w = unless_null string w
pointer (some Kind.string32) w = unless_null string w
pointer (some Kind.handle) w = unless_null handle_emptied w
pointer (some Kind.callable) w = unless_null callable w
pointer _ w = []

-- The pointers that a value owns, from the first element to the last, each with what it needs.
unfoldable mutual
  pub pointers : Cdt → List Release
  pointers (cdt ty v fr) = if fr then pointers_value v ty else []

  pub pointers_value : Value → ℕ → List Release
  pointers_value (word w) ty = if has_array ty then [] else pointer (kind_of ty) w
  pointers_value (array_val (cdts len arr dims cache)) ty =
      if has_array ty then pointers_of arr else []

  pub pointers_of : Items → List Release
  pointers_of nil = []
  pointers_of (cons c rest) = pointers c ++ pointers_of rest

-- The pointers among what was released, each with what was done to it.
unfoldable pub released : List Release → List Release
released [] = []
released (string w ∷ r) = string w ∷ released r
released (callable w ∷ r) = callable w ∷ released r
released (handle_emptied w ∷ r) = handle_emptied w ∷ released r
released (elements n ∷ r) = released r
released (array ∷ r) = released r

released-append : (p q : List Release) → released (p ++ q) ≡ released p ++ released q
unfolding released
released-append [] q = refl
released-append (string w ∷ r) q = rw (released-append r q) refl
released-append (callable w ∷ r) q = rw (released-append r q) refl
released-append (handle_emptied w ∷ r) q = rw (released-append r q) refl
released-append (elements n ∷ r) q = released-append r q
released-append (array ∷ r) q = released-append r q

-- A value that releases these has released the pointers that it owns.
abbrev Releases : Option (List Release) → List Release → Type 0
Releases o ps = (r : List Release) → o ≡ some r → Perm (released r) ps

of_some : (r : List Release) (ps : List Release) → Perm (released r) ps → Releases (some r) ps
of_some r ps h r' e = rw (sym (some-injective r r' e)) h

of_none : (ps : List Release) → Releases none ps
of_none ps r e = absurd (none-ne-some r e)

of_both :
    (o q : Option (List Release)) (ps qs : List Release)
    → Releases o ps
    → Releases q qs
    → Releases (both o q) (ps ++ qs)
of_both none q ps qs h k = of_none (ps ++ qs)
of_both (some a) none ps qs h k = of_none (ps ++ qs)
of_both (some a) (some b) ps qs h k =
    of_some (a ++ b) (ps ++ qs) (rw (released-append a b) (Perm.append (h a refl) (k b refl)))

delete_lem :
    (what : ℕ → Release) (w : ℕ)
    → ((v : ℕ) → released (what v ∷ []) ≡ what v ∷ [])
    → released (delete what w) ≡ unless_null what w
unfolding released
delete_lem what w h = elim (Bool-cases (w == 0)) [ inl z ↦ rw z refl | inr n ↦ rw n (h w) ]

free_word_lem : (k : Option Kind) (w : ℕ) → released ((free_word k w).1) ≡ pointer k w
unfolding free_word released
free_word_lem (some Kind.string8) w = delete_lem string w (λ v. refl)
free_word_lem (some Kind.string16) w = delete_lem string w (λ v. refl)
free_word_lem (some Kind.string32) w = delete_lem string w (λ v. refl)
free_word_lem (some Kind.handle) w = delete_lem handle_emptied w (λ v. refl)
free_word_lem (some Kind.callable) w = delete_lem callable w (λ v. refl)
free_word_lem _ w = refl

swapped : (xs ys : List Release) → Perm (xs ++ ys) (ys ++ xs)
swapped xs ys = ∣ Permᴰ.append_comm xs ys ∣₁

of_order :
    (o : Option (List Release)) (ps qs : List Release) → Releases o ps → Perm ps qs → Releases o qs
of_order o ps qs h p r e = Perm.trans (h r e) p

of_behind :
    (o : Option (List Release)) (x : Release) (ps : List Release)
    → released (x ∷ []) ≡ []
    → Releases o ps
    → Releases (both o (some (x ∷ []))) ps
of_behind none x ps e h = of_none ps
of_behind (some r) x ps e h =
    of_some (r ++ (x ∷ [])) ps
      (rw (released-append r (x ∷ []), e, append-nil (released r)) (h r refl))

cdts_lem :
    (len : ℕ) (arr : Items) (dims : ℤ) (cache : Bool)
    → Releases (destroys_forward arr) (pointers_of arr)
    → Releases (destroys_backward arr) (pointers_of arr)
    → Releases (destroys_cdts (cdts len arr dims cache)) (pointers_of arr)
unfolding destroys released pointers
cdts_lem len nil dims cache fwd bwd = of_some [] [] (Perm.refl [])
cdts_lem len (cons c rest) dims true fwd bwd = elim (Bool-cases (len == suc (count rest))) [
  | inl same ↦ rw same fwd
  | inr other ↦ rw other (of_none _)
]
cdts_lem len (cons c rest) dims false fwd bwd =
    of_behind (destroys_backward (cons c rest)) (elements (suc (count rest))) _ refl bwd

array_lem :
    (len : ℕ) (arr : Items) (dims : ℤ) (cache : Bool) (ty : ℕ)
    → Releases (destroys_cdts (cdts len arr dims cache)) (pointers_of arr)
    → Releases
        (destroys_value (array_val (cdts len arr dims cache)) ty)
        (pointers_value (array_val (cdts len arr dims cache)) ty)
unfolding destroys released pointers
array_lem len arr dims cache ty h = elim (Bool-cases (has_array ty)) [
  | inl is_array ↦ rw is_array (of_behind (destroys_cdts (cdts len arr dims cache)) array _ refl h)
  | inr plain ↦ elim (Bool-cases (owns (kind_of ty))) [
    | inl owned ↦ rw (plain, owned) (of_none _)
    | inr free ↦ rw (plain, free) (of_some [] [] (Perm.refl []))
  ]
]

word_lem : (w ty : ℕ) → Releases (destroys_value (word w) ty) (pointers_value (word w) ty)
unfolding destroys released pointers
word_lem w ty = elim (Bool-cases (has_array ty)) [
  | inl is_array ↦ elim (Bool-cases (w == 0)) [
    | inl null ↦ rw (is_array, null) (of_some [] [] (Perm.refl []))
    | inr stray ↦ rw (is_array, stray) (of_none _)
  ]
  | inr plain ↦ rw plain (
      of_some ((free_word (kind_of ty) w).1) (pointer (kind_of ty) w)
        (rw (free_word_lem (kind_of ty) w) (Perm.refl (pointer (kind_of ty) w))))
]

mutual
  unfolding destroys pointers released

  value_lem : (v : Value) (ty : ℕ) → Releases (destroys_value v ty) (pointers_value v ty)
  value_lem (word w) ty = word_lem w ty
  value_lem (array_val (cdts len arr dims cache)) ty =
      array_lem len arr dims cache ty
        (cdts_lem len arr dims cache (forward_lem arr) (backward_lem arr))

  pub cdt_lem : (c : Cdt) → Releases (destroys c) (pointers c)
  cdt_lem (cdt ty v true) = value_lem v ty
  cdt_lem (cdt ty v false) = of_some [] [] (Perm.refl [])

  forward_lem : (arr : Items) → Releases (destroys_forward arr) (pointers_of arr)
  forward_lem nil = of_some [] [] (Perm.refl [])
  forward_lem (cons c rest) =
      of_both (destroys c) (destroys_forward rest) _ _ (cdt_lem c) (forward_lem rest)

  backward_lem : (arr : Items) → Releases (destroys_backward arr) (pointers_of arr)
  backward_lem nil = of_some [] [] (Perm.refl [])
  backward_lem (cons c rest) =
      of_order (both (destroys_backward rest) (destroys c)) (pointers_of rest ++ pointers c)
        (pointers c ++ pointers_of rest)
        (of_both (destroys_backward rest) (destroys c) _ _ (backward_lem rest) (cdt_lem c))
        (swapped (pointers_of rest) (pointers c))

-- Whatever the order of the destructors, freeing a value releases each string, handle and callable
-- that it owns, each as its kind needs it and as often as it owns it, and no other.
pub free-pointers :
    (c : Cdt) (r : List Release)
    → releases c ≡ some r
    → (free c ≡ some (freed c, r)) × Perm (released r) (pointers c)
free-pointers c r h = ((free_twice c r h).0, cdt_lem c r (releases-destroys c r h))
