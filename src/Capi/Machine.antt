-- ===== src/Capi/Machine.antt =====
-- plugin-sdk-main/runtime/xllr_capi_loader.c as a state machine: what a process can do with the
-- file's static variables through the functions that it exports, in any order.
use meta_ffi_project.Shared.{
  ℕ, ◌+◌, List, ◌++◌, length, codes, Option, some, none, ◌≡◌, refl, ◌⊎◌, inl, inr, ◌==◌,
  Option-cases, Bool-cases, arith,
}
use native.Mathlib.Decide.{ℕ_discrete, dec_le}
use meta_ffi_project.Capi.{
  Symbol, Loader, Message, Platform, Outcome, done, overflow, broken_off, fresh,
}
use meta_ffi_project.Capi.Library.{free_library}
use meta_ffi_project.Capi.Paths.{
  load_xllr_unset, load_xllr_fits, load_xllr_too_long, load_xllr_loaded,
}
use meta_ffi_project.Capi.Load.{load_xllr_capi, load_xllr, free_xllr, open_xllr, path_max}
use meta_ffi_project.Capi.Wrappers.{Reply, forward, is_callable, call_through, proceed, if_error}
use meta_ffi_project.Capi.Table.{Request, target, arguments, fallback, serve, serve-forward}
use meta_ffi_project.Capi.Linked.{load_xllr_capi-handle, load_xllr_capi-pointer}
use meta_ffi_project.Capi.Forward.{
  open_xllr_opens, open_xllr_fails, forward_ready, forward_retry, forward_first,
}

-- A call of a wrapper, of `load_xllr`, of `load_xllr_capi` or of `free_xllr`, from one state to the
-- next.
pub data Step : Platform → Loader → Loader → Type 0 where
  serving :
      {os : Platform} {st st' : Loader} {reply : Reply} (r : Request)
      → serve os r st ≡ done (st', reply)
      → Step os st st'
  loading :
      {os : Platform} {st st' : Loader} {err : Option Message}
      → load_xllr os st ≡ done (st', err)
      → Step os st st'
  linking : {os : Platform} {st : Loader} → Step os st (load_xllr_capi os st).0
  freeing : {os : Platform} {st : Loader} → Step os st (free_xllr os st).0

-- The states that a process can bring the file to.
pub data Reachable : Platform → Loader → Type 0 where
  start : {os : Platform} → Reachable os fresh
  then : {os : Platform} {st st' : Loader} → Reachable os st → Step os st st' → Reachable os st'

-- `h` is what opening XLLR's library below `METAFFI_HOME` gave.
abbrev pub IsXllr : Platform → ℕ → Type 0
IsXllr os h =
    (home : List ℕ) × (os.metaffi_home ≡ some home) × (h ≡ os.dlopen (home ++ codes "/xllr.so"))

-- Each pointer is NULL, or what `dlsym` gives for its own symbol, in the handle or in NULL.
abbrev pub IsFound : Platform → Loader → Type 0
IsFound os st =
    (s : Symbol)
    → (st.pointer s ≡ 0) ⊎ (st.pointer s ≡ os.dlsym st.handle s) ⊎ (st.pointer s ≡ os.dlsym 0 s)

-- A handle is kept, or was NULL and is now XLLR's.
abbrev Moves : Platform → ℕ → ℕ → Type 0
Moves os h h' = (h' ≡ h) ⊎ ((h ≡ 0) × IsXllr os h')

-- A pointer is kept, or NULL, or what the handle has for it.
abbrev Finds : Platform → Loader → Loader → Type 0
Finds os st st' =
    (s : Symbol)
    → (st'.pointer s ≡ st.pointer s) ⊎ (st'.pointer s ≡ 0) ⊎ (st'.pointer s ≡ os.dlsym st'.handle s)

abbrev Goes : Platform → Loader → Loader → Type 0
Goes os st st' = Moves os st.handle st'.handle × Finds os st st'

abbrev OnDone : {A : Type 0} → (A → Type 0) → Outcome A → Type 0
OnDone P (done a) = P a
OnDone P overflow = Unit
OnDone P broken_off = Unit

module _ (os : Platform) where
  stays : (st : Loader) → Goes os st st
  stays st = (inl refl, λ s. inl refl)

  load_xllr_capi-Goes : (st : Loader) → Goes os st (load_xllr_capi os st).0
  load_xllr_capi-Goes st = (
    inl (load_xllr_capi-handle os st),
    λ s. rw (load_xllr_capi-handle os st) (load_xllr_capi-pointer os st s),
  )

  open_xllr-Goes :
      (home : List ℕ) (st : Loader)
      → os.metaffi_home ≡ some home
      → st.handle ≡ 0
      → OnDone (λ p. Goes os st p.0) (open_xllr os (home ++ codes "/xllr.so") st)
  open_xllr-Goes home st set z =
      let path = home ++ codes "/xllr.so" in
      let st1 : Loader = record st { handle = os.dlopen path } in
      elim (ℕ_discrete (os.dlopen path) 0) [
        | yes failed ↦ rw (open_xllr_fails os path st failed) tt
        | no n ↦ rw (open_xllr_opens os path st n) (
          inr (z, (home, set, load_xllr_capi-handle os st1)),
          λ s. rw (load_xllr_capi-handle os st1) (load_xllr_capi-pointer os st1 s),
        )
      ]

  load_xllr-Goes : (st : Loader) → OnDone (λ p. Goes os st p.0) (load_xllr os st)
  load_xllr-Goes st = elim (ℕ_discrete st.handle 0) [
    | no n ↦ rw (load_xllr_loaded os st n) (stays st)
    | yes z ↦ elim (Option-cases os.metaffi_home) [
      | inl unset ↦ rw (load_xllr_unset os st z unset) (stays st)
      | inr (home, set) ↦ elim (dec_le (length home + 3) path_max) [
        | no long ↦ rw (load_xllr_too_long os home st z set (omega arith)) tt
        | yes fits ↦ rw (load_xllr_fits os home st z set fits) (open_xllr-Goes home st set z)
      ]
    ]
  ]

  call_through-Goes :
      (func : Symbol) (args : List ℕ) (before st : Loader)
      → Goes os before st
      → OnDone (λ p. Goes os before p.0) (call_through os func args st)
  unfolding call_through
  call_through-Goes func args before st g = elim (Bool-cases (is_callable os func st)) [
    | inl yes_it_is ↦ rw yes_it_is g
    | inr not_it_is ↦ rw not_it_is tt
  ]

module _ (os : Platform) (func : Symbol) (retval : Option ℕ) (args : List ℕ) where
  proceed-Goes :
      (before : Loader) (r : Outcome (Loader × Option Message))
      → OnDone (λ p. Goes os before p.0) r
      → OnDone (λ p. Goes os before p.0) (proceed os func args (if_error retval r))
  unfolding if_error proceed
  proceed-Goes before (done (st, none)) g = call_through-Goes os func args before st g
  proceed-Goes before (done (st, some e)) g = g
  proceed-Goes before overflow g = tt
  proceed-Goes before broken_off g = tt

  forward-Goes : (st : Loader) → OnDone (λ p. Goes os st p.0) (forward os func retval args st)
  forward-Goes st = elim (ℕ_discrete (st.pointer func) 0) [
    | no n ↦
        rw (forward_ready os func retval args st n)
          (call_through-Goes os func args st st (stays os st))
    | yes e ↦ elim (ℕ_discrete st.handle 0) [
      | yes z ↦
          rw (forward_first os func retval args st e z)
            (proceed-Goes st (load_xllr os st) (load_xllr-Goes os st))
      | no loaded ↦
          rw (forward_retry os func retval args st e loaded)
            (proceed-Goes st (done (load_xllr_capi os st)) (load_xllr_capi-Goes os st))
    ]
  ]

module _ (os : Platform) where
  serve-Goes : (r : Request) (st : Loader) → OnDone (λ p. Goes os st p.0) (serve os r st)
  serve-Goes r st =
      rw (serve-forward os r st) (forward-Goes os (target r) (fallback r) (arguments r) st)

  -- Freeing keeps the handle and the pointers.
  free_xllr-Goes : (st : Loader) → Goes os st (free_xllr os st).0
  unfolding free_xllr
  free_xllr-Goes st = elim (Option-cases (free_library os st.handle)) [
    | inl e ↦ elim (Bool-cases (st.handle == 0)) [
      | inl none_there ↦ rw (e, free_xllr, none_there) (stays os st)
      | inr there ↦ rw (e, free_xllr, there) (inl refl, λ s. inl refl)
    ]
    | inr (m, e) ↦ rw (e, free_xllr) (stays os st)
  ]

module _ {os : Platform} where
  Step-Goes : {st st' : Loader} → Step os st st' → Goes os st st'
  Step-Goes {st} (Step.serving r e) = rw e at (serve-Goes os r st)
  Step-Goes {st} (Step.loading e) = rw e at (load_xllr-Goes os st)
  Step-Goes {st} Step.linking = load_xllr_capi-Goes os st
  Step-Goes {st} Step.freeing = free_xllr-Goes os st

module _ (os : Platform) where
  -- What a kept pointer is, under the handle of the next state.
  still_found :
      (s : Symbol) (p h h' : ℕ)
      → Moves os h h'
      → (p ≡ 0) ⊎ (p ≡ os.dlsym h s) ⊎ (p ≡ os.dlsym 0 s)
      → (p ≡ 0) ⊎ (p ≡ os.dlsym h' s) ⊎ (p ≡ os.dlsym 0 s)
  still_found s p h h' (inl kept) f = rw kept f
  still_found s p h h' (inr (z, xllr)) (inl null) = inl null
  still_found s p h h' (inr (z, xllr)) (inr (inl old)) = inr (inr (rw z at old))
  still_found s p h h' (inr (z, xllr)) (inr (inr global)) = inr (inr global)

  Goes-IsFound : (st st' : Loader) → Goes os st st' → IsFound os st → IsFound os st'
  Goes-IsFound st st' (moves, finds) found s = elim (finds s) [
    | inl kept ↦ rw kept (still_found s (st.pointer s) st.handle st'.handle moves (found s))
    | inr (inl null) ↦ inl null
    | inr (inr new) ↦ inr (inl new)
  ]

module _ {os : Platform} where
  Reachable-IsFound : {st : Loader} → Reachable os st → IsFound os st
  Reachable-IsFound Reachable.start = λ s. inl refl
  Reachable-IsFound (Reachable.then {st = st} {st' = st'} before step) =
      Goes-IsFound os st st' (Step-Goes step) (Reachable-IsFound before)

  Reachable-IsXllr : {st : Loader} → Reachable os st → (st.handle ≡ 0) ⊎ IsXllr os st.handle
  Reachable-IsXllr Reachable.start = inl refl
  Reachable-IsXllr (Reachable.then before step) = elim (Step-Goes step).0 [
    | inl kept ↦ rw kept (Reachable-IsXllr before)
    | inr (z, xllr) ↦ inr xllr
  ]

-- Whatever a process has done before through the wrappers and the functions that load and free XLLR,
-- in any order, with any failures and also where the library was closed: the handle is NULL or what
-- opening `xllr.so` below `METAFFI_HOME` gives; and each pointer is NULL or what `dlsym` gives for its
-- own symbol, in this handle or in NULL, which `load_xllr_capi` asks where no library was opened yet.
pub Reachable-Sound :
    (os : Platform) (st : Loader)
    → Reachable os st
    → IsFound os st × ((st.handle ≡ 0) ⊎ IsXllr os st.handle)
Reachable-Sound os st r = (Reachable-IsFound r, Reachable-IsXllr r)
