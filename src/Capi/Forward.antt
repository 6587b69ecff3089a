-- ===== src/Capi/Forward.antt =====
-- What a call through a wrapper of plugin-sdk-main/runtime/xllr_capi_loader.c can end in.
use meta_ffi_project.Shared.{
  unequal, ◌∙◌, ℕ, ◌+◌, ◌≤◌, ◌<◌, List, [], ◌++◌, length, codes, Option, some, none, ◌≡◌, refl, ◌≢◌,
  inl, inr, Option-cases, arith,
}
use native.Mathlib.Decide.{ℕ_discrete, dec_le}
use meta_ffi_project.Capi.Paths.{load_xllr_unset, load_xllr_fits, load_xllr_too_long}
use meta_ffi_project.Capi.{Symbol, Loader, Message, Platform, Outcome, done, overflow, broken_off}
use meta_ffi_project.Capi.Library.{error_of-dlerror}
use meta_ffi_project.Capi.Load.{load_xllr_capi, load_xllr, open_xllr, path_max}
use meta_ffi_project.Capi.Wrappers.{
  Reply, returned, called, forward, call_through, proceed, if_error,
}
use meta_ffi_project.Capi.Table.{Request, target, arguments, fallback, serve, serve-forward}
use meta_ffi_project.Capi.Linked.{
  IsLinked, load_xllr_capi-handle, load_xllr_capi-closed, load_xllr_capi-IsLinked,
  load_xllr_capi_complete, load_xllr_capi_iff,
}

-- `METAFFI_HOME` is so long that the path of XLLR's library does not fit its buffer.
abbrev pub TooLong : Platform → Type 0
TooLong os = (home : List ℕ) × (os.metaffi_home ≡ some home) × (path_max < length home + 3)

-- XLLR's library does not open.
abbrev pub Unopened : Platform → Type 0
Unopened os =
    (home : List ℕ) × (os.metaffi_home ≡ some home) × (os.dlopen (home ++ codes "/xllr.so") ≡ 0)

-- What a loading function that starts with no library leaves, with its error if there is one.
abbrev pub Loaded : Platform → Loader × Option Message → Type 0
Loaded os r =
    IsLinked os r.0
    × (r.1 ≡ none → r.0.handle ≢ 0)
    × (r.1 ≡ none → (s : Symbol) → r.0.pointer s ≢ 0)

abbrev pub Loads : Platform → Outcome (Loader × Option Message) → Type 0
Loads os (done r) = Loaded os r × (r.0.closed ≡ [])
Loads os overflow = TooLong os
Loads os broken_off = Unopened os

module _ (os : Platform) where
  pub load_xllr_capi-Loaded :
      (st : Loader) → st.handle ≢ 0 → IsLinked os st → Loaded os (load_xllr_capi os st)
  load_xllr_capi-Loaded st loaded linked = (
    load_xllr_capi-IsLinked os st loaded linked,
    λ _. rw (load_xllr_capi-handle os st) loaded,
    λ e s. load_xllr_capi_complete os st s e,
  )

  pub unlinked :
      (st : Loader) (h : ℕ)
      → st.handle ≡ 0
      → IsLinked os st
      → IsLinked os (record st { handle = h })
  unlinked st h e linked s = ground (arith, linked s)

  pub open_xllr_fails :
      (path : List ℕ) (st : Loader) → os.dlopen path ≡ 0 → open_xllr os path st ≡ broken_off
  unfolding open_xllr
  open_xllr_fails path st e = ground (arith, error_of-dlerror os)

  pub open_xllr_opens :
      (path : List ℕ) (st : Loader)
      → os.dlopen path ≢ 0
      → open_xllr os path st ≡ done (load_xllr_capi os (record st { handle = os.dlopen path }))
  unfolding open_xllr
  open_xllr_opens path st e = ground arith

  open_xllr-Loads :
      (home : List ℕ) (st : Loader)
      → os.metaffi_home ≡ some home
      → st.handle ≡ 0
      → IsLinked os st
      → st.closed ≡ []
      → Loads os (open_xllr os (home ++ codes "/xllr.so") st)
  open_xllr-Loads home st set e linked none_closed =
      let h = os.dlopen (home ++ codes "/xllr.so") in
      let st' : Loader = record st { handle = h } in
      elim (ℕ_discrete h 0) [
        | yes z ↦ rw (open_xllr_fails (home ++ codes "/xllr.so") st z) (home, set, z)
        | no n ↦ rw (open_xllr_opens (home ++ codes "/xllr.so") st n) (
          load_xllr_capi-Loaded st' n (unlinked st h e linked),
          load_xllr_capi-closed os st' ∙ none_closed,
        )
      ]

  pub load_xllr-Loads :
      (st : Loader) → st.handle ≡ 0 → IsLinked os st → st.closed ≡ [] → Loads os (load_xllr os st)
  load_xllr-Loads st e linked none_closed = elim (Option-cases os.metaffi_home) [
    | inl unset ↦ rw (load_xllr_unset os st e unset) ((linked, λ q. cc, λ q. cc), none_closed)
    | inr (home, set) ↦ elim (dec_le (length home + 3) path_max) [
      | yes fits ↦
          rw (load_xllr_fits os home st e set fits)
            (open_xllr-Loads home st set e linked none_closed)
      | no long ↦ rw (load_xllr_too_long os home st e set (omega arith)) (home, set, omega arith)
    ]
  ]

-- How a call may end: XLLR's own function of that name was called with the same arguments, or the
-- macro returned its value, and the pointers stay linked; or the path was too long, or the library
-- did not open.
abbrev pub Served : Platform → Symbol → Option ℕ → List ℕ → Outcome (Loader × Reply) → Type 0
Served os func retval args (done (st, called a given)) =
    IsLinked os st × (st.closed ≡ []) × (a ≢ 0) × (a ≡ os.dlsym st.handle func) × (given ≡ args)
Served os func retval args (done (st, returned v)) =
    IsLinked os st × (st.closed ≡ []) × (v ≡ retval)
Served os func retval args overflow = TooLong os
Served os func retval args broken_off = Unopened os

module _ (os : Platform) (func : Symbol) (retval : Option ℕ) (args : List ℕ) where
  pub forward_ready :
      (st : Loader)
      → st.pointer func ≢ 0
      → forward os func retval args st ≡ call_through os func args st
  unfolding forward
  forward_ready st n = ground arith

  pub forward_retry :
      (st : Loader)
      → st.pointer func ≡ 0
      → st.handle ≢ 0
      → forward os func retval args st
        ≡ proceed os func args (if_error retval (done (load_xllr_capi os st)))
  unfolding forward
  forward_retry st e n = ground arith

  pub forward_first :
      (st : Loader)
      → st.pointer func ≡ 0
      → st.handle ≡ 0
      → forward os func retval args st ≡ proceed os func args (if_error retval (load_xllr os st))
  unfolding forward
  forward_first st e z = ground arith

  pub call_through_set :
      (st : Loader)
      → st.pointer func ≢ 0
      → st.closed ≡ []
      → call_through os func args st ≡ done (st, called (st.pointer func) args)
  unfolding call_through
  call_through_set st n none_closed = rw (none_closed, unequal _ 0 n)

  linked_call :
      (st : Loader)
      → IsLinked os st
      → st.pointer func ≢ 0
      → st.closed ≡ []
      → Served os func retval args (done (st, called (st.pointer func) args))
  linked_call st linked n none_closed = (linked, none_closed, n, ground (arith, linked func), refl)

  proceed-Served :
      (r : Outcome (Loader × Option Message))
      → Loads os r
      → Served os func retval args (proceed os func args (if_error retval r))
  unfolding if_error proceed
  proceed-Served (done (st, none)) ((linked, h, all), none_closed) =
      let n = all refl func in
      rw (call_through_set st n none_closed) (linked_call st linked n none_closed)
  proceed-Served (done (st, some e)) ((linked, h, all), none_closed) = (linked, none_closed, refl)
  proceed-Served overflow long = long
  proceed-Served broken_off unopened = unopened

  pub proceed_loaded :
      (p : Loader × Option Message)
      → p.1 ≡ none
      → p.0.pointer func ≢ 0
      → p.0.closed ≡ []
      → proceed os func args (if_error retval (done p)) ≡ done (p.0, called (p.0.pointer func) args)
  unfolding if_error proceed
  proceed_loaded (st, none) e n none_closed = call_through_set st n none_closed
  proceed_loaded (st, some m) e n none_closed = cc

  forward-Served :
      (st : Loader)
      → IsLinked os st
      → st.closed ≡ []
      → Served os func retval args (forward os func retval args st)
  forward-Served st linked none_closed = elim (ℕ_discrete (st.pointer func) 0) [
    | no n ↦
        rw (forward_ready st n, call_through_set st n none_closed)
          (linked_call st linked n none_closed)
    | yes e ↦ elim (ℕ_discrete st.handle 0) [
      | yes z ↦
          rw (forward_first st e z) (proceed-Served _ (load_xllr-Loads os st z linked none_closed))
      | no loaded ↦ rw (forward_retry st e loaded) (
          proceed-Served _
            (load_xllr_capi-Loaded os st loaded linked, load_xllr_capi-closed os st ∙ none_closed))
    ]
  ]

-- From pointers that are NULL or linked, and as long as no library was closed, every wrapper ends in a
-- call of XLLR's function of its own name with the caller's arguments in their order, through a
-- pointer that is not NULL, or in its own default result; the pointers stay NULL or linked. Only a home
-- that is too long for the buffer can break it, or XLLR's library that does not open, whose message
-- of dlerror is then handed to free. A call of the dynamic linker that fails leaves a message.
pub serve-Served :
    (os : Platform) (r : Request) (st : Loader)
    → IsLinked os st
    → st.closed ≡ []
    → Served os (target r) (fallback r) (arguments r) (serve os r st)
serve-Served os r st linked none_closed =
    rw (serve-forward os r st)
      (forward-Served os (target r) (fallback r) (arguments r) st linked none_closed)

-- Where `METAFFI_HOME` fits, the library opens and it has every symbol, each wrapper that is called
-- before anything is loaded reaches XLLR's function of its name.
pub serve_reaches :
    (os : Platform) (r : Request) (home : List ℕ) (st : Loader)
    → st.handle ≡ 0
    → IsLinked os st
    → st.closed ≡ []
    → os.metaffi_home ≡ some home
    → length home + 3 ≤ path_max
    → os.dlopen (home ++ codes "/xllr.so") ≢ 0
    → ((s : Symbol) → os.dlsym (os.dlopen (home ++ codes "/xllr.so")) s ≢ 0)
    → (st' : Loader) × (serve os r st
        ≡ done (
          st',
          called (os.dlsym (os.dlopen (home ++ codes "/xllr.so")) (target r)) (arguments r),
        ))
      × (st'.handle ≡ os.dlopen (home ++ codes "/xllr.so"))
serve_reaches os r home st z linked none_closed set fits opens all =
    let path = home ++ codes "/xllr.so" in
    let st1 : Loader = record st { handle = os.dlopen path } in
    let done_well = (load_xllr_capi_iff os st1).1 all in
    let (linked', _, set') =
      load_xllr_capi-Loaded os st1 opens (unlinked os st (os.dlopen path) z linked) in
    let handle' = load_xllr_capi-handle os st1 in
    (
      (load_xllr_capi os st1).0,
      rw
          (
            serve-forward os r st,
            forward_first os (target r) (fallback r) (arguments r) st
                (ground (arith, linked (target r))) z,
            load_xllr_fits os home st z set fits,
            open_xllr_opens os path st opens,
            proceed_loaded os (target r) (fallback r) (arguments r) (load_xllr_capi os st1)
                done_well (set' done_well (target r)) (load_xllr_capi-closed os st1 ∙ none_closed),
          )
          (ground (arith, linked' (target r), handle', set' done_well (target r))),
      handle',
    )
