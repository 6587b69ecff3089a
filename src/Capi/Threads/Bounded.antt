-- ===== src/Capi/Threads/Bounded.antt =====
-- How many steps the calls of a thread take at most, whatever the other threads do.
use meta_ffi_project.Shared.{
  if_both, ℕ, suc, ◌+◌, ◌*◌, ◌≤◌, List, [], ◌∷◌, length, Option, some, none, ◌≡◌, refl, ap, ◌⊎◌,
  inl, inr, Bool-cases, ◌==◌, ==_iff, if◌then◌else◌, ltb, arith,
}
use meta_ffi_project.Capi.{Loader, Message, Platform, Outcome, done, overflow}
use meta_ffi_project.Capi.Load.{load_order, print_path, xllr_path, path_max}
use meta_ffi_project.Capi.Library.{error_of}
use meta_ffi_project.Capi.Wrappers.{is_callable}
use meta_ffi_project.Capi.Table.{Request, target}
use meta_ffi_project.Capi.Threads.{
  Pc, find_path, freed_text, advance, gives_up, Thread, next_call, turn, interleave,
}

-- The steps that a call still takes at most: three for each symbol that is to be loaded.
abbrev pub steps_left : Pc → ℕ
steps_left Pc.idle = 0
steps_left (Pc.entered r) = 83
steps_left (Pc.unset r) = 82
steps_left (Pc.loading r) = 81
steps_left (Pc.opening r path) = 80
steps_left (Pc.opened r) = 79
steps_left (Pc.linking r rest) = 3 * length rest + 3
steps_left (Pc.finding r s rest h) = 3 * length rest + 5
steps_left (Pc.wrote r s rest) = 3 * length rest + 4
steps_left (Pc.ready r) = 2
steps_left (Pc.ended r reply) = 1
steps_left (Pc.crashed r) = 0
steps_left (Pc.overrun r) = 0

-- A thread that does not come to the end of its calls: it took a step without a meaning, which is a call
-- through NULL or into a library that was closed or a `free` of the text of `dlerror`; or it wrote past a
-- buffer.
pub data IsBroken : Pc → Type 0 where
  crashes : {r : Request} → IsBroken (Pc.crashed r)
  past_buffer : {r : Request} → IsBroken (Pc.overrun r)

-- Those of a thread, with the calls that it has not begun.
abbrev pub thread_steps : Thread → ℕ
thread_steps t = steps_left t.pc + 84 * length t.todo

abbrev pub IsFinished : Thread → Type 0
IsFinished t = IsBroken t.pc ⊎ ((t.pc ≡ Pc.idle) × (t.todo ≡ []))

abbrev Falls : ℕ → Pc → Type 0
Falls n p = IsBroken p ⊎ (suc (steps_left p) ≤ n)

reads-Falls : (n m : ℕ) (a b : Pc) → Falls n a → Falls n b → Falls n (if m == 0 then a else b)
reads-Falls n m a b = if_both (Falls n) (m == 0) a b

print_path-Falls :
    (r : Request) (size : ℕ) (path : List ℕ)
    → Falls 81 (elim (print_path size path) [
      | done path' ↦ Pc.opening r path'
      | overflow ↦ Pc.overrun r
      | Outcome.broken_off ↦ Pc.crashed r
    ])
unfolding print_path
print_path-Falls r size path = elim (Bool-cases (ltb size (length path + 1))) [
  | inl long ↦ rw long (inl past_buffer)
  | inr short ↦ rw short (inr (omega arith))
]

find_path-Falls : (r : Request) (o : Option (List ℕ)) → Falls 81 (find_path r o)
unfolding find_path
find_path-Falls r none = inr (omega arith)
find_path-Falls r (some home) = print_path-Falls r (path_max + 6) (xllr_path home)

freed_text-Falls : (r : Request) (o : Option Message) → Falls 79 (freed_text r o)
unfolding freed_text
freed_text-Falls r none = inr (omega arith)
freed_text-Falls r (some text) = inl crashes

abbrev Ends : ℕ → Thread → Type 0
Ends n t = IsFinished t ⊎ (suc (thread_steps t) ≤ n)

module _ (os : Platform) where
  Ends-later :
      (n : ℕ) (t : Thread) (p : Pc × Loader)
      → Falls n p.0
      → Ends (n + 84 * length t.todo) (record t { pc = p.0 })
  Ends-later n t p (inl broken) = inl (inl broken)
  Ends-later n t p (inr falls) = inr (omega arith)

  next_call-Ends :
      (l : List Request) (t : Thread)
      → t.pc ≡ Pc.idle
      → t.todo ≡ l
      → Ends (0 + 84 * length l) (next_call l t)
  unfolding next_call
  next_call-Ends [] t idle e = inl (inr (idle, e))
  next_call-Ends (r ∷ rest) t idle e = inr (omega arith)

  -- A step of a thread finishes it, or brings it nearer to its end.
  turn-Ends :
      (p : Pc) (t : Thread) (st : Loader)
      → t.pc ≡ p
      → Ends (steps_left p + 84 * length t.todo) (turn os p t st).0
  unfolding turn advance
  turn-Ends Pc.idle t st e = next_call-Ends t.todo t e refl
  turn-Ends (Pc.entered r) t st e = Ends-later 83 t (advance os (Pc.entered r) st) (
      reads-Falls 83 (st.pointer (target r)) (Pc.unset r) (Pc.ready r) (inr (omega arith))
        (inr (omega arith)))
  turn-Ends (Pc.unset r) t st e = Ends-later 82 t (advance os (Pc.unset r) st) (
      reads-Falls 82 st.handle (Pc.loading r) (Pc.linking r load_order) (inr (omega arith))
        (inr (omega arith)))
  turn-Ends (Pc.loading r) t st e = Ends-later 81 t (advance os (Pc.loading r) st) (
      reads-Falls 81 st.handle (find_path r os.metaffi_home) (Pc.ready r)
        (find_path-Falls r os.metaffi_home) (inr (omega arith)))
  turn-Ends (Pc.opening r path) t st e = inr (omega arith)
  turn-Ends (Pc.opened r) t st e = Ends-later 79 t (advance os (Pc.opened r) st) (
      reads-Falls 79 st.handle (freed_text r (error_of os.dlerror)) (Pc.linking r load_order)
        (freed_text-Falls r (error_of os.dlerror)) (inr (omega arith)))
  turn-Ends (Pc.linking r []) t st e = inr (omega arith)
  turn-Ends (Pc.linking r (s ∷ rest)) t st e = inr (omega arith)
  turn-Ends (Pc.finding r s rest h) t st e = inr (omega arith)
  turn-Ends (Pc.wrote r s rest) t st e =
      Ends-later (3 * length rest + 4) t (advance os (Pc.wrote r s rest) st) (
        reads-Falls (3 * length rest + 4) (st.pointer s) (gives_up r) (Pc.linking r rest)
          (inr (omega arith)) (inr (omega arith)))
  turn-Ends (Pc.ready r) t st e = Ends-later 2 t (advance os (Pc.ready r) st) (
      if_both (Falls 2) (is_callable os (target r) st) _ (Pc.crashed r) (inr (omega arith))
        (inl crashes))
  turn-Ends (Pc.ended r reply) t st e = inr (omega arith)
  turn-Ends (Pc.crashed r) t st e = inl (inl crashes)
  turn-Ends (Pc.overrun r) t st e = inl (inl past_buffer)

no_steps_left : (p : Pc) → steps_left p ≡ 0 → IsBroken p ⊎ (p ≡ Pc.idle)
no_steps_left Pc.idle e = inr refl
no_steps_left (Pc.crashed r) e = inl crashes
no_steps_left (Pc.overrun r) e = inl past_buffer
no_steps_left (Pc.entered r) e = absurd (omega arith)
no_steps_left (Pc.unset r) e = absurd (omega arith)
no_steps_left (Pc.loading r) e = absurd (omega arith)
no_steps_left (Pc.opening r path) e = absurd (omega arith)
no_steps_left (Pc.opened r) e = absurd (omega arith)
no_steps_left (Pc.linking r rest) e = absurd (omega arith)
no_steps_left (Pc.finding r s rest h) e = absurd (omega arith)
no_steps_left (Pc.wrote r s rest) e = absurd (omega arith)
no_steps_left (Pc.ready r) e = absurd (omega arith)
no_steps_left (Pc.ended r reply) e = absurd (omega arith)

length-empty : {A : Type 0} (l : List A) → length l ≡ 0 → l ≡ []
length-empty [] e = refl
length-empty (x ∷ l) e = absurd (omega arith)

no_thread_steps : (t : Thread) → thread_steps t ≤ 0 → IsFinished t
no_thread_steps t n = elim (no_steps_left t.pc (omega arith)) [
  | inl broken ↦ inl broken
  | inr idle ↦ inr (idle, length-empty t.todo (omega arith))
]

-- How many of the steps are those of a thread.
abbrev pub turns : ℕ → List ℕ → ℕ
turns i [] = 0
turns i (j ∷ later) = let rest = turns i later in if i == j then suc rest else rest

module _ (os : Platform) where
  stays_broken : (t : Thread) (st : Loader) {p : Pc} → IsBroken p → IsFinished (turn os p t st).0
  unfolding turn advance
  stays_broken t st crashes = inl crashes
  stays_broken t st past_buffer = inl past_buffer

  turn_finishes :
      (n : ℕ) (t : Thread) (st : Loader)
      → IsFinished t ⊎ (thread_steps t ≤ suc n)
      → IsFinished (turn os t.pc t st).0 ⊎ (thread_steps (turn os t.pc t st).0 ≤ n)
  turn_finishes n t st (inl (inl broken)) = inl (stays_broken t st broken)
  turn_finishes n t st (inl (inr (idle, none_left))) = elim (turn-Ends os t.pc t st refl) [
    | inl finished ↦ inl finished
    | inr falls ↦ absurd (omega (arith, falls, ap steps_left idle, ap length none_left))
  ]
  turn_finishes n t st (inr steps) = elim (turn-Ends os t.pc t st refl) [
    | inl finished ↦ inl finished
    | inr falls ↦ inr (omega arith)
  ]

  pub finishes :
      (i : ℕ) (order : List ℕ) (ts : ℕ → Thread) (st : Loader)
      → IsFinished (ts i) ⊎ (thread_steps (ts i) ≤ turns i order)
      → IsFinished ((interleave os order ts st).0 i)
  unfolding interleave
  finishes i [] ts st (inl finished) = finished
  finishes i [] ts st (inr steps) = no_thread_steps (ts i) steps
  finishes i (j ∷ later) ts st h = finishes i later _ _ (elim (Bool-cases (i == j)) [
    | inl e ↦ rw e (rw⁻¹ ((==_iff i j).0 e) (turn_finishes (turns i later) (ts i) st (rw e at h)))
    | inr e ↦ rw e (rw e at h)
  ])
