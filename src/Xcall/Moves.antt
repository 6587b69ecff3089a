-- ===== src/Xcall/Moves.antt =====
-- What copies and moves of an xcall keep.
use meta_ffi_project.Shared.{unequal, ℕ, ◌≡◌, refl, ◌≢◌, true, Option, ◌==◌, sym, ◌∙◌, arith}
use meta_ffi_project.Xcall.{
  empty, Store, move_assign, Foreign, invalid_argument, call_throwing, call_reporting,
}

same_address : (a : ℕ) → (a == a) ≡ true
same_address a = ground arith

module _ (this other : ℕ) (st : Store) (n : this ≢ other) where
  taken : move_assign this other st this ≡ st other
  unfolding move_assign
  taken = rw (unequal this other n, same_address this, unequal this other n) refl

  emptied : move_assign this other st other ≡ empty
  unfolding move_assign
  emptied = rw (unequal this other n, same_address other) refl

  kept : (a : ℕ) → a ≢ this → a ≢ other → move_assign this other st a ≡ st a
  unfolding move_assign
  kept a p q = rw (unequal this other n, unequal a other q, unequal a this p) refl

-- A move of an object to itself changes nothing. A move between two objects takes the function over,
-- leaves the source empty and the others as they are; moving back gives the source its function again.
pub move_assign_lem :
    (this other : ℕ) (st : Store)
    → this ≢ other
    → (move_assign this this st ≡ st)
      × (move_assign this other st this ≡ st other)
      × (move_assign this other st other ≡ empty)
      × ((a : ℕ) → a ≢ this → a ≢ other → move_assign this other st a ≡ st a)
      × (move_assign other this (move_assign this other st) other ≡ st other)
unfolding move_assign
move_assign_lem this other st n = (
  rw (same_address this) refl,
  taken this other st n,
  emptied this other st n,
  kept this other st n,
  taken other this (move_assign this other st) (λ e. n (sym e)) ∙ taken this other st n,
)

-- After a move the source is refused by every call, and the target is called as the source was.
pub move-call :
    {S : Type 0} (foreign : Foreign S) (this other : ℕ) (st : Store) (pcdts : Option ℕ) (s : S)
    → this ≢ other
    → (call_throwing foreign (move_assign this other st other) pcdts s ≡ invalid_argument)
      × (call_reporting foreign (move_assign this other st other) pcdts s ≡ invalid_argument)
      × (call_throwing foreign (move_assign this other st this) pcdts s
          ≡ call_throwing foreign (st other) pcdts s)
      × (call_reporting foreign (move_assign this other st this) pcdts s
          ≡ call_reporting foreign (st other) pcdts s)
unfolding call_throwing call_reporting
move-call foreign this other st pcdts s n =
    let from = emptied this other st n in
    let to = taken this other st n in (rw from refl, rw from refl, rw to refl, rw to refl)
