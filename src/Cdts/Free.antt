-- ===== src/Cdts/Free.antt =====
-- What freeing a value does: once, and a second time.
use mathlib.Core.Option.{none-ne-some}
use meta_ffi_project.Shared.{
  ℕ, ◌≡◌, refl, true, false, Bool-cases, inl, inr, List, [], Option, none, some, ap, sym, ◌∙◌,
}
use meta_ffi_project.Types.{Kind, has_array, kind_of}
use meta_ffi_project.Cdts.{Cdt, cdt, Value, word, array_val, Cdts}
use meta_ffi_project.Cdts.Memory.{
  Release, free_word, owns, is_clear, once, destroys, releases, destroys_value, freed_value, freed,
  free,
}

-- The pointer of a member that was released is null, and that of one that was not owned is not looked at.
free_word_twice :
    (k : Option Kind) (w : ℕ)
    → (x : ℕ) × ((free_word k w).0 ≡ word x) × (free_word k x ≡ (word x, []))
unfolding free_word
free_word_twice (some Kind.string8) w = (0, refl, refl)
free_word_twice (some Kind.string16) w = (0, refl, refl)
free_word_twice (some Kind.string32) w = (0, refl, refl)
free_word_twice (some Kind.handle) w = (0, refl, refl)
free_word_twice (some Kind.callable) w = (0, refl, refl)
free_word_twice _ w = (w, refl, refl)

module _ (ty : ℕ) where
  of_null : has_array ty ≡ true → destroys_value (word 0) ty ≡ some []
  unfolding destroys
  of_null h = rw h refl

  of_word :
      (w : ℕ)
      → has_array ty ≡ false
      → destroys_value (word w) ty ≡ some ((free_word (kind_of ty) w).1)
  unfolding destroys
  of_word w h = rw h refl

  freed_array : (v : Value) → has_array ty ≡ true → freed_value ty v ≡ word 0
  unfolding freed_value
  freed_array (word w) h = rw h refl
  freed_array (array_val a) h = rw h refl

  freed_word :
      (w : ℕ) → has_array ty ≡ false → freed_value ty (word w) ≡ (free_word (kind_of ty) w).0
  unfolding freed_value
  freed_word w h = rw h refl

  freed_other : (a : Cdts) → has_array ty ≡ false → freed_value ty (array_val a) ≡ array_val a
  unfolding freed_value
  freed_other a h = rw h refl

  of_owned :
      (a : Cdts)
      → has_array ty ≡ false
      → owns (kind_of ty) ≡ true
      → destroys_value (array_val a) ty ≡ none
  unfolding destroys
  of_owned a h owned = rw (h, owned) refl

  of_other :
      (a : Cdts) (r : List Release)
      → has_array ty ≡ false
      → destroys_value (array_val a) ty ≡ some r
      → destroys_value (array_val a) ty ≡ some []
  unfolding destroys
  of_other a r h e = elim (Bool-cases (owns (kind_of ty))) [
    | inl owned ↦ absurd (none-ne-some r (sym (of_owned a h owned) ∙ e))
    | inr unowned ↦ rw (h, unowned) refl
  ]

  freed_plain :
      (w : ℕ)
      → has_array ty ≡ false
      → (destroys_value (freed_value ty (word w)) ty ≡ some [])
        × (freed_value ty (freed_value ty (word w)) ≡ freed_value ty (word w))
  freed_plain w h =
      let (x, left, again) = free_word_twice (kind_of ty) w in
      let here = freed_word w h ∙ left in
      rw here (of_word x h ∙ ap (λ p. some (p.1)) again, freed_word x h ∙ ap (λ p. p.0) again)

  freed_twice :
      (v : Value) (r : List Release)
      → destroys_value v ty ≡ some r
      → (destroys_value (freed_value ty v) ty ≡ some [])
        × (freed_value ty (freed_value ty v) ≡ freed_value ty v)
  freed_twice (word w) r e = elim (Bool-cases (has_array ty)) [
    | inl h ↦ rw (freed_array (word w) h) (of_null h, freed_array (word 0) h)
    | inr h ↦ freed_plain w h
  ]
  freed_twice (array_val a) r e = elim (Bool-cases (has_array ty)) [
    | inl h ↦ rw (freed_array (array_val a) h) (of_null h, freed_array (word 0) h)
    | inr h ↦ rw (freed_other a h) (of_other a r h e, freed_other a h)
  ]

-- What is released is what the destructors do one after the other.
once-some : (o : Option (List Release)) (r : List Release) → once o ≡ some r → o ≡ some r
unfolding once
once-some none r e = e
once-some (some p) r e = elim (Bool-cases (is_clear p)) [
  | inl clear ↦ rw clear at e
  | inr not_clear ↦ absurd (none-ne-some r (rw not_clear at e))
]

pub releases-destroys : (c : Cdt) (r : List Release) → releases c ≡ some r → destroys c ≡ some r
unfolding releases
releases-destroys c r e = once-some (destroys c) r e

nothing-releases : (c : Cdt) → destroys c ≡ some [] → releases c ≡ some []
unfolding releases once is_clear
nothing-releases c e = rw e refl

free_lem : (c : Cdt) (r : List Release) → releases c ≡ some r → free c ≡ some (freed c, r)
unfolding free
free_lem c r h = ap (λ o. elim o [ none ↦ none | some q ↦ some (freed c, q) ]) h

freed_lem :
    (c : Cdt) (r : List Release)
    → destroys c ≡ some r
    → (destroys (freed c) ≡ some []) × (freed (freed c) ≡ freed c)
unfolding freed destroys
freed_lem (cdt ty v true) r h =
    let (again, stays) = freed_twice ty v r h in (again, ap (λ x. cdt ty x true) stays)
freed_lem (cdt ty v false) r h = (refl, refl)

-- A value that `free` can free is left so that a second `free` releases nothing and changes nothing.
pub free_twice :
    (c : Cdt) (r : List Release)
    → releases c ≡ some r
    → (free c ≡ some (freed c, r)) × (free (freed c) ≡ some (freed c, []))
free_twice c r h =
    let (again, stays) = freed_lem c r (releases-destroys c r h) in
    (
      free_lem c r h,
      free_lem (freed c) [] (nothing-releases (freed c) again) ∙ ap (λ x. some (x, [])) stays,
    )
