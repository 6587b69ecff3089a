-- ===== src/Capi/Threads/Served.antt =====
-- What the replies of calls are that threads make at the same time.
use meta_ffi_project.Shared.{if_both, ℕ, List, [], ◌∷◌, ◌≡◌, refl, ◌==◌}
use meta_ffi_project.Capi.{Loader, Platform}
use meta_ffi_project.Capi.Table.{Request}
use meta_ffi_project.Capi.Threads.{Pc, advance, Thread, next_call, turn, interleave}
use meta_ffi_project.Capi.Threads.Kept.{
  IsShared, AreReplies, Knows, Stays, Knows-Stays, advance-Kept,
}

module _ (os : Platform) where
  -- What the threads know, and what they were told.
  abbrev IsRight : Thread → ℕ → Type 0
  IsRight t handle = Knows os t.pc handle × AreReplies os t.replies

  next_call-IsRight :
      (l : List Request) (t : Thread) (h : ℕ) → IsRight t h → IsRight (next_call l t) h
  unfolding next_call
  next_call-IsRight [] t h right = right
  next_call-IsRight (r ∷ rest) t h (_, all) = (tt, all)

  abbrev Turned : Loader → Thread × Loader → Type 0
  Turned st (t, st') = IsShared os st' × Stays st.handle st'.handle × IsRight t st'.handle

  goes_on :
      (p : Pc) (t : Thread) (st : Loader)
      → IsShared os st
      → Knows os p st.handle
      → AreReplies os t.replies
      → Turned st (let (p', st') = advance os p st in (record t { pc = p' }, st'))
  goes_on p t st shared knows all =
      let (shared', stays, knows') = advance-Kept os p st shared knows in
      (shared', stays, (knows', all))

  turn-Turned :
      (p : Pc) (t : Thread) (st : Loader)
      → IsShared os st
      → Knows os p st.handle
      → IsRight t st.handle
      → Turned st (turn os p t st)
  unfolding turn
  turn-Turned Pc.idle t st shared knows right =
      (shared, λ n. refl, next_call-IsRight t.todo t st.handle right)
  turn-Turned (Pc.ended r reply) t st shared knows (_, all) =
      (shared, λ n. refl, (tt, (knows, all)))
  turn-Turned (Pc.entered r) t st shared knows (_, all) =
      goes_on (Pc.entered r) t st shared knows all
  turn-Turned (Pc.unset r) t st shared knows (_, all) = goes_on (Pc.unset r) t st shared knows all
  turn-Turned (Pc.loading r) t st shared knows (_, all) =
      goes_on (Pc.loading r) t st shared knows all
  turn-Turned (Pc.opening r path) t st shared knows (_, all) =
      goes_on (Pc.opening r path) t st shared knows all
  turn-Turned (Pc.opened r) t st shared knows (_, all) = goes_on (Pc.opened r) t st shared knows all
  turn-Turned (Pc.linking r rest) t st shared knows (_, all) =
      goes_on (Pc.linking r rest) t st shared knows all
  turn-Turned (Pc.finding r s rest h) t st shared knows (_, all) =
      goes_on (Pc.finding r s rest h) t st shared knows all
  turn-Turned (Pc.wrote r s rest) t st shared knows (_, all) =
      goes_on (Pc.wrote r s rest) t st shared knows all
  turn-Turned (Pc.ready r) t st shared knows (_, all) = goes_on (Pc.ready r) t st shared knows all
  turn-Turned (Pc.crashed r) t st shared knows (_, all) =
      goes_on (Pc.crashed r) t st shared knows all
  turn-Turned (Pc.overrun r) t st shared knows (_, all) =
      goes_on (Pc.overrun r) t st shared knows all

  interleave-IsRight :
      (order : List ℕ) (ts : ℕ → Thread) (st : Loader)
      → IsShared os st
      → ((i : ℕ) → IsRight (ts i) st.handle)
      → let (ts', st') = interleave os order ts st in
        IsShared os st' × ((i : ℕ) → IsRight (ts' i) st'.handle)
  unfolding interleave
  interleave-IsRight [] ts st shared right = (shared, right)
  interleave-IsRight (i ∷ later) ts st shared right =
      let (shared', stays, mine) = turn-Turned (ts i).pc (ts i) st shared (right i).0 (right i) in
      interleave-IsRight later _ _ shared' (λ j.
        if_both (λ t. IsRight t (turn os (ts i).pc (ts i) st).1.handle) (j == i) _ _ mine
          (Knows-Stays os (ts j).pc st.handle _ stays (right j).0, (right j).1))

-- A thread that has not made a call yet.
abbrev pub IsNew : Thread → Type 0
IsNew t = (t.pc ≡ Pc.idle) × (t.replies ≡ [])

new-IsRight : (os : Platform) (t : Thread) (h : ℕ) → IsNew t → IsRight os t h
new-IsRight os t h (idle, none_yet) = rw (idle, none_yet) (tt, tt)

-- Any number of threads that call wrappers, in any interleaving of their accesses, from a state in
-- which no library is loaded or XLLR's, and each pointer is NULL or linked: every reply that a thread
-- has had is that XLLR's function of the wrapper's name was called, with the arguments of this call,
-- or is the wrapper's default. The state stays such a one.
pub interleave-AreReplies :
    (os : Platform) (order : List ℕ) (ts : ℕ → Thread) (st : Loader)
    → IsShared os st
    → ((i : ℕ) → IsNew (ts i))
    → let (ts', st') = interleave os order ts st in
      IsShared os st' × ((i : ℕ) → AreReplies os (ts' i).replies)
interleave-AreReplies os order ts st shared new =
    let (shared', right) =
      interleave-IsRight os order ts st shared (λ i. new-IsRight os (ts i) st.handle (new i)) in
    (shared', λ i. (right i).1)
