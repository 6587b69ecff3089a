-- ===== src/Capi/Threads/Ready.antt =====
-- The wrappers on several threads once every entry point is loaded, as behind
-- plugin-sdk-main/runtime/xllr_static_capi_loader.cpp.
use meta_ffi_project.Shared.{
  if_null, if_both, unequal, true, ℕ, ◌*◌, ◌≤◌, List, [], ◌∷◌, length, ◌≡◌, refl, ◌≢◌, inl, inr,
  ◌==◌,
}
use meta_ffi_project.Capi.{Symbol, Loader, Platform}
use meta_ffi_project.Capi.Wrappers.{Reply, called, is_callable, is_unmapped}
use meta_ffi_project.Capi.Table.{Request, target, arguments}
use meta_ffi_project.Capi.Static.{Process, Start, IsReady}
use meta_ffi_project.Capi.Threads.{Pc, advance, Thread, next_call, turn, interleave}
use meta_ffi_project.Capi.Linked.{IsLinked}
use meta_ffi_project.Capi.Threads.Bounded.{IsBroken, turns}
use meta_ffi_project.Capi.Threads.Answers.{answered, interleave_answers}
use meta_ffi_project.Capi.Threads.Served.{IsNew}

-- XLLR's function of the wrapper's name was called with the call's arguments.
abbrev Reaches : Platform → Loader → Request → Reply → Type 0
Reaches os st r reply = reply ≡ called (os.dlsym st.handle (target r)) (arguments r)

abbrev pub AllReach : Platform → Loader → List (Request × Reply) → Type 0
AllReach os st [] = Unit
AllReach os st ((r, reply) ∷ rest) = Reaches os st r reply × AllReach os st rest

-- A thread is between calls, before the test of the pointer, before the call or behind it.
data Straight : Platform → Loader → Pc → Type 0 where
  between : {os : Platform} {st : Loader} → Straight os st Pc.idle
  tests : {os : Platform} {st : Loader} (r : Request) → Straight os st (Pc.entered r)
  calls : {os : Platform} {st : Loader} (r : Request) → Straight os st (Pc.ready r)
  behind :
      {os : Platform} {st : Loader} (r : Request) {reply : Reply}
      → Reaches os st r reply
      → Straight os st (Pc.ended r reply)

module _ (os : Platform) (st : Loader) (linked : IsLinked os st) (none_closed : st.closed ≡ [])
    (all : (s : Symbol) → st.pointer s ≢ 0) where
  abbrev IsStraight : Thread → Type 0
  IsStraight t = Straight os st t.pc × AllReach os st t.replies

  next_call-IsStraight : (l : List Request) (t : Thread) → IsStraight t → IsStraight (next_call l t)
  unfolding next_call
  next_call-IsStraight [] t s = s
  next_call-IsStraight (r ∷ rest) t (_, reach) = (tests r, reach)

  abbrev Untouched : Thread × Loader → Type 0
  Untouched (t, st') = IsStraight t × (st' ≡ st)

  reaches : (r : Request) → Reaches os st r (called (st.pointer (target r)) (arguments r))
  reaches r = elim (linked (target r)) [
    | inl z ↦ absurd (all (target r) z)
    | inr (loaded, e) ↦ rw e refl
  ]

  callable : (s : Symbol) → is_callable os s st ≡ true
  unfolding is_callable is_unmapped
  callable s = rw (unequal _ 0 (all s), none_closed) refl

  turn-Untouched :
      (t : Thread) {p : Pc} → Straight os st p → IsStraight t → Untouched (turn os p t st)
  unfolding turn advance
  turn-Untouched t between s = (next_call-IsStraight t.todo t s, refl)
  turn-Untouched t (tests r) (_, reach) = (
    (
      if_null (Straight os st) (st.pointer (target r)) _ _ (λ z. absurd (all (target r) z))
          (λ n. calls r),
      reach,
    ),
    refl,
  )
  turn-Untouched t (calls r) (_, reach) =
      ((rw (callable (target r)) (behind r (reaches r)), reach), refl)
  turn-Untouched t (behind r h) (_, reach) = ((between, (h, reach)), refl)

  interleave-Untouched :
      (order : List ℕ) (ts : ℕ → Thread) (now : Loader)
      → now ≡ st
      → ((i : ℕ) → IsStraight (ts i))
      → let (ts', st') = interleave os order ts now in ((i : ℕ) → IsStraight (ts' i)) × (st' ≡ st)
  unfolding interleave
  interleave-Untouched [] ts now e s = (s, e)
  interleave-Untouched (j ∷ later) ts now e s =
      let step : Untouched (turn os (ts j).pc (ts j) now) =
        rw e (turn-Untouched (ts j) (s j).0 (s j)) in
      interleave-Untouched later _ _ step.1 (λ i. if_both IsStraight (i == j) _ _ step.0 (s i))

Straight-unbroken : {os : Platform} {st : Loader} {p : Pc} → Straight os st p → IsBroken p → ⊥
Straight-unbroken between b = elim b [ ]
Straight-unbroken (tests r) b = elim b [ ]
Straight-unbroken (calls r) b = elim b [ ]
Straight-unbroken (behind r h) b = elim b [ ]

-- Behind the static loader, where it came to `main`, and as long as no library was closed: threads that
-- have not made their calls yet call wrappers in any interleaving. Where a thread has 84 steps for each of its calls, each call has had
-- its reply, in their order, and each reply is that XLLR's function of the wrapper's name was called
-- with the call's arguments. The file's variables stay as they are.
pub ready_answers :
    (os : Platform) (p : Process) (order : List ℕ) (ts : ℕ → Thread) (i : ℕ)
    → IsReady os (Start.running p)
    → ((j : ℕ) → IsNew (ts j))
    → 84 * length (ts i).todo ≤ turns i order
    → let (ts', st') = interleave os order ts p.loader in
      (answered (ts' i).replies [] ≡ (ts i).todo)
      × AllReach os p.loader (ts' i).replies
      × (st' ≡ p.loader)
ready_answers os p order ts i (_, linked, none_closed, all) new steps =
    let (straight, same) =
      interleave-Untouched os p.loader linked none_closed all order ts p.loader refl
        (λ j. rw ((new j).0, (new j).1) (between, tt)) in
    elim (interleave_answers os order ts p.loader i (new i) steps) [
      | inl broken ↦ absurd (Straight-unbroken (straight i).0 broken)
      | inr each ↦ (each, (straight i).1, same)
    ]
