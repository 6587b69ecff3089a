-- ===== src/Capi/Refine.antt =====
-- plugin-sdk-main/runtime/xllr_capi_loader.c against what it promises to its clients: XLLR's own
-- functions, as if they were linked into the client.
use meta_ffi_project.Shared.{
  ℕ, ◌+◌, ◌≤◌, List, [], ◌∷◌, ◌++◌, length, codes, some, ◌≡◌, refl, ◌≢◌, ◌⊎◌, inr, ◌∙◌, arith,
}
use native.Mathlib.Decide.{ℕ_discrete}
use meta_ffi_project.Capi.{Symbol, Loader, Platform, Outcome, done, overflow, broken_off}
use meta_ffi_project.Capi.Load.{load_xllr_capi, path_max}
use meta_ffi_project.Capi.Wrappers.{Reply, called}
use meta_ffi_project.Capi.Table.{Request, target, arguments, fallback, serve, serve-forward}
use meta_ffi_project.Capi.Linked.{
  IsLinked, load_xllr_capi-handle, load_xllr_capi-closed, load_xllr_capi-IsLinked,
  load_xllr_capi_complete, load_xllr_capi_iff,
}
use meta_ffi_project.Capi.Forward.{
  serve-Served, serve_reaches, forward_ready, call_through_set, forward_retry, proceed_loaded,
}

-- One call after the other, each from the state that the one before left, with what they reached.
abbrev pub follow :
    Outcome (Loader × Reply)
    → (Loader → Outcome (Loader × List Reply))
    → Outcome (Loader × List Reply)
follow (done (st, reply)) next = elim (next st) [
  | done (last, replies) ↦ done (last, reply ∷ replies)
  | overflow ↦ overflow
  | broken_off ↦ broken_off
]
follow overflow next = overflow
follow broken_off next = broken_off

unfoldable pub run : Platform → List Request → Loader → Outcome (Loader × List Reply)
run os [] st = done (st, [])
run os (r ∷ rs) st = follow (serve os r st) (run os rs)

-- The calls of a client that is linked with the library of this handle: nothing to load, no state.
abbrev pub direct : Platform → ℕ → List Request → List Reply
direct os h [] = []
direct os h (r ∷ rs) = called (os.dlsym h (target r)) (arguments r) ∷ direct os h rs

-- `METAFFI_HOME` fits, and the library below it opens as `h` and has every entry point.
pub record IsInstalled (os : Platform) (home : List ℕ) (h : ℕ) : Type 0 where
  pub set : os.metaffi_home ≡ some home
  pub fits : length home + 3 ≤ path_max
  pub opens : os.dlopen (home ++ codes "/xllr.so") ≡ h
  pub loaded : h ≢ 0
  pub complete : (s : Symbol) → os.dlsym h s ≢ 0

module _ (os : Platform) (home : List ℕ) (h : ℕ) (installed : IsInstalled os home h) where
  -- Nothing is loaded yet, or XLLR is, and it was not closed.
  abbrev Good : Loader → Type 0
  Good st = IsLinked os st × (st.closed ≡ []) × ((st.handle ≡ 0) ⊎ (st.handle ≡ h))

  -- The call of one request reaches its function and leaves the file ready for the next.
  abbrev Answers : Request → Loader → Type 0
  Answers r st =
      (st' : Loader) × (serve os r st ≡ done (st', called (os.dlsym h (target r)) (arguments r)))
      × Good st'

  -- After a load that failed half way the next wrapper whose pointer is NULL loads again.
  serve_again :
      (r : Request) (st : Loader)
      → IsLinked os st
      → st.closed ≡ []
      → st.handle ≡ h
      → st.pointer (target r) ≡ 0
      → Answers r st
  serve_again r st linked none_closed same z =
      let loaded : st.handle ≢ 0 = rw same installed.loaded in
      let well = (load_xllr_capi_iff os st).1 (rw same installed.complete) in
      let linked' = load_xllr_capi-IsLinked os st loaded linked in
      let set' = load_xllr_capi_complete os st (target r) well in
      let handle' = load_xllr_capi-handle os st in
      let none_closed' = load_xllr_capi-closed os st ∙ none_closed in
      (
        (load_xllr_capi os st).0,
        rw
            (
              serve-forward os r st,
              forward_retry os (target r) (fallback r) (arguments r) st z loaded,
              proceed_loaded os (target r) (fallback r) (arguments r) (load_xllr_capi os st) well
                  set' none_closed',
            )
            (ground (arith, linked' (target r), handle', set', same)),
        (linked', none_closed', inr (handle' ∙ same)),
      )

  serve-Good : (r : Request) (st : Loader) → Good st → Answers r st
  serve-Good r st (linked, none_closed, from) = elim (ℕ_discrete st.handle 0) [
    | yes z ↦
        let (st', e, same) =
          serve_reaches os r home st z linked none_closed installed.set installed.fits
            (rw installed.opens installed.loaded) (rw installed.opens installed.complete) in
        let served = rw e at (serve-Served os r st linked none_closed) in
        (st', rw installed.opens at e, (served.0, served.1, inr (same ∙ installed.opens)))
    | no n ↦ elim (ℕ_discrete (st.pointer (target r)) 0) [
      | yes z ↦ serve_again r st linked none_closed (ground arith) z
      | no set ↦ (
        st,
        rw
            (
              serve-forward os r st,
              forward_ready os (target r) (fallback r) (arguments r) st set,
              call_through_set os (target r) (fallback r) (arguments r) st set none_closed,
            )
            (ground (arith, linked (target r))),
        (linked, none_closed, from),
      )
    ]
  ]

  run-Good :
      (rs : List Request) (st : Loader)
      → Good st
      → (st' : Loader) × (run os rs st ≡ done (st', direct os h rs)) × Good st'
  unfolding run
  run-Good [] st good = (st, refl, good)
  run-Good (r ∷ rs) st good =
      let (st1, e, good1) = serve-Good r st good in
      let (st2, later, good2) = run-Good rs st1 good1 in (st2, rw (e, later), good2)

-- Where XLLR is installed, any calls of the wrappers, in any order, reach exactly what the calls of a
-- client that is linked with XLLR itself reach: the same functions with the same arguments in the same
-- order. No library is loaded before, or XLLR's; each pointer is NULL or what the loaded library has
-- for its symbol, as also behind a load that failed half way; and no library was closed.
pub run-direct :
    (os : Platform) (home : List ℕ) (h : ℕ) (rs : List Request) (st : Loader)
    → IsInstalled os home h
    → IsLinked os st
    → st.closed ≡ []
    → (st.handle ≡ 0) ⊎ (st.handle ≡ h)
    → (st' : Loader) × (run os rs st ≡ done (st', direct os h rs))
run-direct os home h rs st installed linked none_closed from =
    let (st', e, good) = run-Good os home h installed rs st (linked, none_closed, from) in (st', e)
