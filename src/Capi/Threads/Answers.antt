-- ===== src/Capi/Threads/Answers.antt =====
-- Which calls of a thread have had their replies.
use meta_ffi_project.Shared.{
  if_both, ℕ, ◌*◌, ◌+◌, ◌≤◌, List, [], ◌∷◌, length, Option, some, none, ◌≡◌, refl, sym, ◌∙◌, ap,
  ◌⊎◌, inl, inr, Bool-cases, ◌==◌, ==_iff, ltb, arith,
}
use meta_ffi_project.Capi.{Loader, Message, Platform, Outcome, done, overflow}
use meta_ffi_project.Capi.Load.{load_order, print_path, xllr_path, path_max}
use meta_ffi_project.Capi.Library.{error_of}
use meta_ffi_project.Capi.Wrappers.{Reply, is_callable}
use meta_ffi_project.Capi.Table.{Request, target}
use meta_ffi_project.Capi.Threads.{
  Pc, find_path, freed_text, advance, gives_up, Thread, next_call, turn, interleave,
}
use meta_ffi_project.Capi.Threads.Served.{IsNew}
use meta_ffi_project.Capi.Threads.Bounded.{IsBroken, steps_left, turns, finishes}

-- The call that a thread is in, before those that it has still to make.
abbrev inside : Pc → List Request → List Request
inside Pc.idle l = l
inside (Pc.entered r) l = r ∷ l
inside (Pc.unset r) l = r ∷ l
inside (Pc.loading r) l = r ∷ l
inside (Pc.opening r path) l = r ∷ l
inside (Pc.opened r) l = r ∷ l
inside (Pc.linking r rest) l = r ∷ l
inside (Pc.finding r s rest h) l = r ∷ l
inside (Pc.wrote r s rest) l = r ∷ l
inside (Pc.ready r) l = r ∷ l
inside (Pc.ended r reply) l = r ∷ l
inside (Pc.crashed r) l = r ∷ l
inside (Pc.overrun r) l = r ∷ l

-- The calls that have had a reply, the first one first, before others.
abbrev pub answered : List (Request × Reply) → List Request → List Request
answered [] l = l
answered ((r, reply) ∷ rest) l = answered rest (r ∷ l)

-- All calls of a thread.
abbrev calls : Thread → List Request
calls t = answered t.replies (inside t.pc t.todo)

abbrev Within : Request → List Request → Pc → Type 0
Within r l p = inside p l ≡ r ∷ l

print_path-Within :
    (r : Request) (l : List Request) (size : ℕ) (path : List ℕ)
    → Within r l (elim (print_path size path) [
      | done path' ↦ Pc.opening r path'
      | overflow ↦ Pc.overrun r
      | Outcome.broken_off ↦ Pc.crashed r
    ])
unfolding print_path
print_path-Within r l size path =
    if_both {A = Outcome (List ℕ)}
      (λ o. Within r l (elim o [
        | done path' ↦ Pc.opening r path'
        | overflow ↦ Pc.overrun r
        | Outcome.broken_off ↦ Pc.crashed r
      ]))
      (ltb size (length path + 1)) overflow (done path) refl refl

find_path-Within :
    (r : Request) (l : List Request) (o : Option (List ℕ)) → Within r l (find_path r o)
unfolding find_path
find_path-Within r l none = refl
find_path-Within r l (some home) = print_path-Within r l (path_max + 6) (xllr_path home)

freed_text-Within :
    (r : Request) (l : List Request) (o : Option Message) → Within r l (freed_text r o)
unfolding freed_text
freed_text-Within r l none = refl
freed_text-Within r l (some text) = refl

module _ (os : Platform) where
  inside-advance :
      (p : Pc) (l : List Request) (st : Loader) → inside (advance os p st).0 l ≡ inside p l
  unfolding advance
  inside-advance Pc.idle l st = refl
  inside-advance (Pc.entered r) l st =
      if_both (Within r l) (st.pointer (target r) == 0) (Pc.unset r) (Pc.ready r) refl refl
  inside-advance (Pc.unset r) l st =
      if_both (Within r l) (st.handle == 0) (Pc.loading r) (Pc.linking r load_order) refl refl
  inside-advance (Pc.loading r) l st =
      if_both (Within r l) (st.handle == 0) (find_path r os.metaffi_home) (Pc.ready r)
        (find_path-Within r l os.metaffi_home) refl
  inside-advance (Pc.opening r path) l st = refl
  inside-advance (Pc.opened r) l st =
      if_both (Within r l) (st.handle == 0) (freed_text r (error_of os.dlerror))
        (Pc.linking r load_order) (freed_text-Within r l (error_of os.dlerror)) refl
  inside-advance (Pc.linking r []) l st = refl
  inside-advance (Pc.linking r (s ∷ rest)) l st = refl
  inside-advance (Pc.finding r s rest h) l st = refl
  inside-advance (Pc.wrote r s rest) l st =
      if_both (Within r l) (st.pointer s == 0) (gives_up r) (Pc.linking r rest) refl refl
  inside-advance (Pc.ready r) l st =
      if_both (Within r l) (is_callable os (target r) st) _ (Pc.crashed r) refl refl
  inside-advance (Pc.ended r reply) l st = refl
  inside-advance (Pc.crashed r) l st = refl
  inside-advance (Pc.overrun r) l st = refl

  next_call-calls :
      (l : List Request) (t : Thread)
      → t.pc ≡ Pc.idle
      → t.todo ≡ l
      → calls (next_call l t) ≡ answered t.replies l
  unfolding next_call
  next_call-calls [] t idle e = rw (idle, e) refl
  next_call-calls (r ∷ rest) t idle e = refl

  goes_on-calls :
      (p : Pc) (t : Thread) (st : Loader)
      → calls (let (p', st') = advance os p st in record t { pc = p' })
        ≡ answered t.replies (inside p t.todo)
  goes_on-calls p t st = ap (answered t.replies) (inside-advance p t.todo st)

  turn-calls :
      (p : Pc) (t : Thread) (st : Loader)
      → t.pc ≡ p
      → calls (turn os p t st).0 ≡ answered t.replies (inside p t.todo)
  unfolding turn
  turn-calls Pc.idle t st e = next_call-calls t.todo t e refl
  turn-calls (Pc.ended r reply) t st e = refl
  turn-calls (Pc.entered r) t st e = goes_on-calls (Pc.entered r) t st
  turn-calls (Pc.unset r) t st e = goes_on-calls (Pc.unset r) t st
  turn-calls (Pc.loading r) t st e = goes_on-calls (Pc.loading r) t st
  turn-calls (Pc.opening r path) t st e = goes_on-calls (Pc.opening r path) t st
  turn-calls (Pc.opened r) t st e = goes_on-calls (Pc.opened r) t st
  turn-calls (Pc.linking r rest) t st e = goes_on-calls (Pc.linking r rest) t st
  turn-calls (Pc.finding r s rest h) t st e = goes_on-calls (Pc.finding r s rest h) t st
  turn-calls (Pc.wrote r s rest) t st e = goes_on-calls (Pc.wrote r s rest) t st
  turn-calls (Pc.ready r) t st e = goes_on-calls (Pc.ready r) t st
  turn-calls (Pc.crashed r) t st e = goes_on-calls (Pc.crashed r) t st
  turn-calls (Pc.overrun r) t st e = goes_on-calls (Pc.overrun r) t st

  interleave-calls :
      (order : List ℕ) (ts : ℕ → Thread) (st : Loader) (i : ℕ)
      → calls ((interleave os order ts st).0 i) ≡ calls (ts i)
  unfolding interleave
  interleave-calls [] ts st i = refl
  interleave-calls (j ∷ later) ts st i = interleave-calls later _ _ i ∙ elim (Bool-cases (i == j)) [
    | inl e ↦ rw (e, (==_iff i j).0 e) (turn-calls (ts j).pc (ts j) st refl)
    | inr e ↦ rw e refl
  ]

idle-calls : (t : Thread) → t.pc ≡ Pc.idle → calls t ≡ answered t.replies t.todo
idle-calls t idle = rw idle refl

-- A thread that has not made its calls yet, in any interleaving in which it has 84 steps for each of
-- them, comes to the end: it has had a reply to each of its calls, in their order; or it called
-- through NULL or into a library that was closed, gave the text of dlerror to free, or wrote past the
-- buffer of the path.
pub interleave_answers :
    (os : Platform) (order : List ℕ) (ts : ℕ → Thread) (st : Loader) (i : ℕ)
    → IsNew (ts i)
    → 84 * length (ts i).todo ≤ turns i order
    → let t = (interleave os order ts st).0 i in
      IsBroken t.pc ⊎ (answered t.replies [] ≡ (ts i).todo)
interleave_answers os order ts st i (idle, none_yet) steps =
    elim (finishes os i order ts st (inr (omega (arith, steps, ap steps_left idle)))) [
      | inl broken ↦ inl broken
      | inr (idle', none_left) ↦
          let t = (interleave os order ts st).0 i in
          let before : calls (ts i) ≡ (ts i).todo =
            idle-calls (ts i) idle ∙ ap (λ l. answered l (ts i).todo) none_yet in
          let after : calls t ≡ answered t.replies [] =
            idle-calls t idle' ∙ ap (answered t.replies) none_left in
          inr (sym after ∙ interleave-calls os order ts st i ∙ before)
    ]
