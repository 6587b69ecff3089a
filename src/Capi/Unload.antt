-- ===== src/Capi/Unload.antt =====
-- `load_xllr` called again and `free_xllr` of plugin-sdk-main/runtime/xllr_capi_loader.c: what the
-- static variables still say.
use meta_ffi_project.Shared.{
  unequal, Bool-cases, true, ◌==◌, ℕ, ◌+◌, ◌≤◌, List, ◌∷◌, ◌++◌, length, codes, false, some, none,
  ◌≡◌, refl, ◌∙◌, ◌≢◌, inl, inr, Option-cases, arith,
}
use meta_ffi_project.Capi.{Symbol, Loader, Message, Platform, done, broken_off}
use meta_ffi_project.Capi.Library.{free_library}
use meta_ffi_project.Capi.Load.{load_xllr_capi, load_xllr, free_xllr, path_max}
use meta_ffi_project.Capi.Linked.{
  IsLinked, load_xllr_capi-handle, load_xllr_capi-IsLinked, load_xllr_capi_iff,
}
use meta_ffi_project.Capi.Paths.{load_xllr_loaded, load_xllr_fits}
use meta_ffi_project.Capi.Forward.{open_xllr_opens, unlinked, forward_ready}
use meta_ffi_project.Capi.Wrappers.{call_through, is_callable, is_unmapped}
use meta_ffi_project.Capi.Table.{Request, target, arguments, fallback, serve, serve-forward}

module _ (os : Platform) where
  -- A library that opens and lacks a symbol: `load_xllr` reports the failure, and when it is called
  -- again it reports success, while the pointer of that symbol is still NULL.
  pub load_xllr_again :
      (home : List ℕ) (st : Loader) (s : Symbol)
      → st.handle ≡ 0
      → IsLinked os st
      → os.metaffi_home ≡ some home
      → length home + 3 ≤ path_max
      → os.dlopen (home ++ codes "/xllr.so") ≢ 0
      → os.dlsym (os.dlopen (home ++ codes "/xllr.so")) s ≡ 0
      → (st' : Loader) × (e : Message) × (load_xllr os st ≡ done (st', some e))
        × (load_xllr os st' ≡ done (st', none))
        × (st'.pointer s ≡ 0)
  load_xllr_again home st s z linked set fits opens lacks =
      let path = home ++ codes "/xllr.so" in
      let st1 : Loader = record st { handle = os.dlopen path } in
      let handle' = load_xllr_capi-handle os st1 in
      let linked' =
        load_xllr_capi-IsLinked os st1 opens (unlinked os st (os.dlopen path) z linked) in
      elim (Option-cases (load_xllr_capi os st1).1) [
        | inl ok ↦ absurd ((load_xllr_capi_iff os st1).0 ok s lacks)
        | inr (e, failed) ↦ (
          (load_xllr_capi os st1).0,
          e,
          rw (load_xllr_fits os home st z set fits, open_xllr_opens os path st opens)
              (ground (arith, failed)),
          load_xllr_loaded os (load_xllr_capi os st1).0 (rw handle' opens),
          ground (arith, linked' s, handle'),
        )
      ]

  free_xllr_closes :
      (st : Loader)
      → st.handle ≢ 0
      → os.dlclose st.handle ≡ false
      → free_xllr os st ≡ (record st { closed = st.handle ∷ st.closed }, none)
  unfolding free_xllr free_library
  free_xllr_closes st loaded closes = rw (closes, free_xllr, unequal st.handle 0 loaded) refl

  -- A call through a pointer into the library that was closed last.
  closed_call :
      (st : Loader) (r : Request)
      → st.pointer (target r) ≡ os.dlsym st.handle (target r)
      → call_through os (target r) (arguments r) (record st { closed = st.handle ∷ st.closed })
        ≡ broken_off
  unfolding call_through is_callable is_unmapped
  closed_call st r linked =
      let same : (os.dlsym st.handle (target r) == st.pointer (target r)) ≡ true = ground arith in
      elim (Bool-cases (st.pointer (target r) == 0)) [
        | inl z ↦ rw z refl
        | inr n ↦ rw (n, same) refl
      ]

  -- `free_xllr` closes the library and keeps the pointers: a wrapper whose pointer was set then calls
  -- an address in the closed library, and `load_xllr` still takes it for loaded.
  pub free_xllr_dangling :
      (st : Loader) (r : Request)
      → os.dlclose st.handle ≡ false
      → st.handle ≢ 0
      → st.pointer (target r) ≡ os.dlsym st.handle (target r)
      → st.pointer (target r) ≢ 0
      → let st' = (free_xllr os st).0 in
        (st'.closed ≡ st.handle ∷ st.closed)
        × ((free_xllr os st).1 ≡ none)
        × (serve os r st' ≡ broken_off)
        × (load_xllr os st' ≡ done (st', none))
  free_xllr_dangling st r closes loaded linked set =
      let st' : Loader = record st { closed = st.handle ∷ st.closed } in
      rw (free_xllr_closes st loaded closes) (
        refl,
        refl,
        serve-forward os r st'
            ∙ forward_ready os (target r) (fallback r) (arguments r) st' set
            ∙ closed_call st r linked,
        load_xllr_loaded os st' loaded,
      )
