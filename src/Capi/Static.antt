-- ===== src/Capi/Static.antt =====
-- plugin-sdk-main/runtime/xllr_static_capi_loader.cpp: XLLR loaded before `main`.
use meta_ffi_project.Shared.{
  Bool, true, false, Option, none, some, ◌≡◌, refl, ◌≢◌, inl, inr, ◌⊎◌, ◌∙◌, List, if◌then◌else◌,
}
use meta_ffi_project.Capi.{
  Symbol, Loader, Message, Platform, Outcome, done, overflow, broken_off, fresh,
}
use meta_ffi_project.Capi.Load.{load_xllr}
use meta_ffi_project.Capi.Wrappers.{called}
use meta_ffi_project.Capi.Table.{Request, target, arguments, fallback, serve, serve-forward}
use meta_ffi_project.Capi.Linked.{IsLinked}
use meta_ffi_project.Capi.Forward.{
  TooLong, Unopened, Loads, load_xllr-Loads, forward_ready, call_through_set,
}

-- The process with `xllr_capi_loaded`.
pub record Process : Type 0 where
  pub xllr_capi_loaded : Bool
  pub loader : Loader

-- `exits` is `exit(1)` with the message that was printed.
pub data Start : Type 0 where
  running : Process → Start
  exits : Message → Start
  broken : Start

unfoldable pub after_load : Process → Outcome (Loader × Option Message) → Start
after_load p (done (st, none)) = Start.running (record { xllr_capi_loaded = true; loader = st })
after_load p (done (st, some loader_err)) = Start.exits loader_err
after_load p overflow = Start.broken
after_load p broken_off = Start.broken

-- `xllr_capi_loader()`
unfoldable pub xllr_capi_loader : Platform → Process → Start
unfolding after_load
xllr_capi_loader os p =
    if p.xllr_capi_loaded then Start.running p else after_load p (load_xllr os p.loader)

-- The process as it starts.
abbrev pub initial : Process
initial = record { xllr_capi_loaded = false; loader = fresh }

-- Every entry point is there, and the library was not closed.
abbrev pub IsReady : Platform → Start → Type 0
IsReady os (Start.running p) =
    (p.xllr_capi_loaded ≡ true)
    × IsLinked os p.loader
    × (p.loader.closed ≡ List.[])
    × ((s : Symbol) → p.loader.pointer s ≢ 0)
IsReady os (Start.exits m) = Unit
IsReady os Start.broken = TooLong os ⊎ Unopened os

after_load-IsReady :
    (os : Platform) (p : Process) (r : Outcome (Loader × Option Message))
    → Loads os r
    → IsReady os (after_load p r)
unfolding after_load
after_load-IsReady os p (done (st, none)) ((linked, _, all), none_closed) =
    (refl, linked, none_closed, all refl)
after_load-IsReady os p (done (st, some m)) l = tt
after_load-IsReady os p overflow long = inl long
after_load-IsReady os p broken_off unopened = inr unopened

-- A program that is linked with the static loader comes to `main` with every entry point of XLLR, or
-- does not come there: it exits, or `METAFFI_HOME` was too long, or XLLR's library did not open and
-- the message of dlerror was handed to free.
pub xllr_capi_loader-IsReady : (os : Platform) → IsReady os (xllr_capi_loader os initial)
unfolding xllr_capi_loader
xllr_capi_loader-IsReady os =
    after_load-IsReady os initial (load_xllr os fresh)
      (load_xllr-Loads os fresh refl (λ s. inl refl) refl)

-- No wrapper loads anything then: each calls its function at once, and the variables stay.
pub ready_serves :
    (os : Platform) (p : Process) (r : Request)
    → IsReady os (Start.running p)
    → serve os r p.loader ≡ done (p.loader, called (p.loader.pointer (target r)) (arguments r))
ready_serves os p r (_, linked, none_closed, all) =
    serve-forward os r p.loader
    ∙ forward_ready os (target r) (fallback r) (arguments r) p.loader (all (target r))
    ∙ call_through_set os (target r) (fallback r) (arguments r) p.loader (all (target r))
        none_closed
