-- ===== src/Capi/Threads/Alone.antt =====
-- A thread that makes a call alone does what the wrapper does.
use meta_ffi_project.Shared.{
  unequal, ℕ, zero, suc, ◌*◌, ◌+◌, ◌≤◌, List, [], ◌∷◌, length, Option, some, none, ◌≡◌, refl, ap,
  inl, inr, Bool-cases, ◌==◌, ==_iff, true, arith,
}
use native.Mathlib.Decide.{ℕ_discrete}
use meta_ffi_project.Capi.{
  Symbol, Loader, Message, Platform, Outcome, done, overflow, broken_off, slot, home_unset,
}
use meta_ffi_project.Capi.Library.{error_of, error_of-dlerror}
use meta_ffi_project.Capi.Load.{
  load_order, print_path, xllr_path, path_max, load_symbols, load_xllr_capi, load_xllr, open_xllr,
}
use meta_ffi_project.Capi.Linked.{load_symbols_missing, load_symbols_found, set_found}
use meta_ffi_project.Capi.Forward.{
  open_xllr_fails, open_xllr_opens, forward_ready, forward_retry, forward_first,
}
use meta_ffi_project.Capi.Wrappers.{Reply, is_callable, call_through, proceed, if_error, forward}
use meta_ffi_project.Capi.Table.{Request, target, arguments, fallback, serve, serve-forward}
use meta_ffi_project.Capi.Threads.{Pc, find_path, freed_text, advance}

own_slot : (s : Symbol) → (slot s == slot s) ≡ true
own_slot s = (==_iff (slot s) (slot s)).1 refl

is_null : (n : ℕ) → n ≡ 0 → (n == 0) ≡ true
is_null n h = rw h refl

-- The result of a wrapper, as a place that a thread comes to.
abbrev pub Agrees : Request → Outcome (Loader × Reply) → Pc × Loader → Type 0
Agrees r (done (st, reply)) q = q ≡ (Pc.ended r reply, st)
Agrees r overflow q = q.0 ≡ Pc.overrun r
Agrees r broken_off q = q.0 ≡ Pc.crashed r

module _ (os : Platform) where
  -- So many accesses of one thread.
  unfoldable pub alone : ℕ → Pc → Loader → Pc × Loader
  unfolding advance
  alone zero p st = (p, st)
  alone (suc n) p st = let (p', st') = advance os p st in alone n p' st'

  alone_ended :
      (n : ℕ) (r : Request) (reply : Reply) (st : Loader)
      → alone n (Pc.ended r reply) st ≡ (Pc.ended r reply, st)
  unfolding alone
  alone_ended zero r reply st = refl
  alone_ended (suc n) r reply st = alone_ended n r reply st

  alone_crashed :
      (n : ℕ) (r : Request) (st : Loader) → alone n (Pc.crashed r) st ≡ (Pc.crashed r, st)
  unfolding alone
  alone_crashed zero r st = refl
  alone_crashed (suc n) r st = alone_crashed n r st

  alone_overrun :
      (n : ℕ) (r : Request) (st : Loader) → alone n (Pc.overrun r) st ≡ (Pc.overrun r, st)
  unfolding alone
  alone_overrun zero r st = refl
  alone_overrun (suc n) r st = alone_overrun n r st

  module _ (r : Request) where
    -- The rest of a wrapper, behind a loading function.
    abbrev rest_of : Outcome (Loader × Option Message) → Outcome (Loader × Reply)
    rest_of o = proceed os (target r) (arguments r) (if_error (fallback r) o)

    ready_alone :
        (n : ℕ) (st : Loader)
        → 1 ≤ n
        → Agrees r (call_through os (target r) (arguments r) st) (alone n (Pc.ready r) st)
    unfolding alone call_through
    ready_alone zero st h = absurd (omega arith)
    ready_alone (suc n) st h = elim (Bool-cases (is_callable os (target r) st)) [
      | inl e ↦ rw e (alone_ended n r _ st)
      | inr e ↦ rw (e, alone_crashed n r st) refl
    ]

    linking_alone :
        (rest : List Symbol) (n : ℕ) (st : Loader)
        → 3 * length rest + 2 ≤ n
        → Agrees r (rest_of (done (load_symbols os rest st))) (alone n (Pc.linking r rest) st)
    unfolding alone load_symbols proceed if_error
    linking_alone [] zero st h = absurd (omega arith)
    linking_alone [] (suc n) st h = ready_alone n st (omega arith)
    linking_alone (s ∷ rest) zero st h = absurd (omega arith)
    linking_alone (s ∷ rest) (suc zero) st h = absurd (omega arith)
    linking_alone (s ∷ rest) (suc (suc zero)) st h = absurd (omega arith)
    linking_alone (s ∷ rest) (suc (suc (suc n))) st h = elim (ℕ_discrete (os.dlsym st.handle s) 0) [
      | yes e ↦ rw (load_symbols_missing os s rest st e, own_slot s, e) (alone_ended n r _ _)
      | no m ↦
          rw (load_symbols_found os s rest st m, own_slot s, unequal _ 0 m)
            (linking_alone rest n (set_found os s st) (omega arith))
    ]

    -- The text of `dlerror`, which a call that failed leaves, is handed to `free`.
    freed_alone :
        (n : ℕ) (st : Loader) → alone n (freed_text r (error_of os.dlerror)) st ≡ (Pc.crashed r, st)
    unfolding freed_text
    freed_alone n st = rw (error_of-dlerror os) (alone_crashed n r st)

    opening_fails :
        (n : ℕ) (path : List ℕ) (st : Loader)
        → os.dlopen path ≡ 0
        → alone (suc (suc n)) (Pc.opening r path) st ≡ (Pc.crashed r, record st { handle = 0 })
    unfolding alone
    opening_fails n path st z = rw (z, alone) (freed_alone n (record st { handle = 0 }))

    opened_alone :
        (n : ℕ) (path : List ℕ) (st : Loader)
        → 79 ≤ n
        → Agrees r (rest_of (open_xllr os path st)) (alone n (Pc.opening r path) st)
    unfolding alone proceed if_error load_xllr_capi
    opened_alone zero path st h = absurd (omega arith)
    opened_alone (suc zero) path st h = absurd (omega arith)
    opened_alone (suc (suc n)) path st h = elim (ℕ_discrete (os.dlopen path) 0) [
      | yes z ↦ rw (open_xllr_fails os path st z) (ap (λ q. q.0) (opening_fails n path st z))
      | no m ↦
          rw (open_xllr_opens os path st m, unequal _ 0 m)
            (linking_alone load_order n (record st { handle = os.dlopen path }) (omega arith))
    ]

    printed_alone :
        (o : Outcome (List ℕ)) (n : ℕ) (st : Loader)
        → 79 ≤ n
        → Agrees r
            (rest_of (elim o [
              | done path ↦ open_xllr os path st
              | overflow ↦ overflow
              | Outcome.broken_off ↦ Outcome.broken_off
            ]))
            (alone n
              (elim o [
                | done path ↦ Pc.opening r path
                | overflow ↦ Pc.overrun r
                | Outcome.broken_off ↦ Pc.crashed r
              ])
              st)
    unfolding proceed if_error
    printed_alone (done path) n st h = opened_alone n path st h
    printed_alone overflow n st h = ap (λ q. q.0) (alone_overrun n r st)
    printed_alone broken_off n st h = ap (λ q. q.0) (alone_crashed n r st)

    behind_test : Option (List ℕ) → Loader → Outcome (Loader × Option Message)
    behind_test o st = elim o [
      | none ↦ done (st, some home_unset)
      | some home ↦ elim (print_path (path_max + 6) (xllr_path home)) [
        | done path ↦ open_xllr os path st
        | overflow ↦ overflow
        | Outcome.broken_off ↦ Outcome.broken_off
      ]
    ]

    behind_test_alone :
        (o : Option (List ℕ)) (n : ℕ) (st : Loader)
        → 79 ≤ n
        → Agrees r (rest_of (behind_test o st)) (alone n (find_path r o) st)
    unfolding behind_test find_path proceed if_error
    behind_test_alone none n st h = alone_ended n r _ st
    behind_test_alone (some home) n st h =
        printed_alone (print_path (path_max + 6) (xllr_path home)) n st h

    load_xllr_behind :
        (st : Loader) → st.handle ≡ 0 → load_xllr os st ≡ behind_test os.metaffi_home st
    unfolding load_xllr behind_test
    load_xllr_behind st e = simp e refl

    null_alone :
        (n : ℕ) (st : Loader)
        → 82 ≤ n
        → st.pointer (target r) ≡ 0
        → Agrees r (forward os (target r) (fallback r) (arguments r) st) (alone n (Pc.unset r) st)
    unfolding alone load_xllr_capi
    null_alone zero st h e = absurd (omega arith)
    null_alone (suc zero) st h e = absurd (omega arith)
    null_alone (suc (suc n)) st h e = elim (ℕ_discrete st.handle 0) [
      | yes z ↦
          rw
            (
              forward_first os (target r) (fallback r) (arguments r) st e z,
              load_xllr_behind st z,
              is_null st.handle z,
              is_null st.handle z,
            )
            (behind_test_alone os.metaffi_home n st (omega arith))
      | no m ↦
          rw (forward_retry os (target r) (fallback r) (arguments r) st e m, unequal _ 0 m)
            (linking_alone load_order (suc n) st (omega arith))
    ]

    entered_alone :
        (n : ℕ) (st : Loader)
        → 83 ≤ n
        → Agrees r (forward os (target r) (fallback r) (arguments r) st) (alone n (Pc.entered r) st)
    unfolding alone
    entered_alone zero st h = absurd (omega arith)
    entered_alone (suc zero) st h = absurd (omega arith)
    entered_alone (suc (suc n)) st h = elim (ℕ_discrete (st.pointer (target r)) 0) [
      | yes e ↦ rw (is_null _ e) (null_alone (suc n) st (omega arith) e)
      | no m ↦
          rw (forward_ready os (target r) (fallback r) (arguments r) st m, unequal _ 0 m)
            (ready_alone (suc n) st (omega arith))
    ]

-- A thread that makes its call alone, of which 83 accesses are enough: it comes to the reply that the
-- wrapper gives, with the variables that the wrapper leaves, or to the step without a meaning or past
-- the buffer where the wrapper does.
pub alone-serve :
    (os : Platform) (r : Request) (st : Loader)
    → Agrees r (serve os r st) (alone os 83 (Pc.entered r) st)
alone-serve os r st = rw (serve-forward os r st) (entered_alone os r 83 st (omega arith))
