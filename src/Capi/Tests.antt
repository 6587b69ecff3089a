-- ===== src/Capi/Tests.antt =====
-- Runs of the loader on concrete platforms, and its theorems there.
use meta_ffi_project.Shared.{
  ℕ, ◌+◌, List, [], ◌∷◌, ◌++◌, length, replicate, length-replicate, codes, false, some, none, ◌≡◌,
  refl, ◌≢◌, ◌↔◌, ◌⊎◌, ◌∙◌, inl, ◌==◌, if◌then◌else◌, arith,
}
use mathlib.Core.Logic.{ite, if_neg}
use native.Mathlib.Decide.{ℕ_discrete}
use meta_ffi_project.Capi.{
  Symbol, Loader, Message, Platform, slot, fresh, done, overflow, broken_off, from_dlerror,
}
use meta_ffi_project.Capi.Load.{load_xllr_capi, load_xllr, free_xllr, load_metaffi_library}
use meta_ffi_project.Capi.Linked.{IsLinked, load_xllr_capi-handle, load_xllr_capi_iff}
use meta_ffi_project.Capi.Paths.{load_xllr_fits, load_xllr_too_long, load_metaffi_library_two_dots}
use meta_ffi_project.Capi.Forward.{open_xllr_opens, Served, serve-Served, serve_reaches}
use meta_ffi_project.Capi.Machine.{Step, Reachable, IsFound, IsXllr, Reachable-Sound}
use meta_ffi_project.Capi.Refine.{run, run-direct, IsInstalled}
use meta_ffi_project.Capi.Static.{IsReady, initial, xllr_capi_loader, xllr_capi_loader-IsReady}
use meta_ffi_project.Capi.Unload.{load_xllr_again, free_xllr_dangling}
use meta_ffi_project.Capi.Wrappers.{called, returned, xllr_alloc_memory, forward}
use meta_ffi_project.Capi.Table.{Request, serve}

abbrev home_dir : List ℕ
home_dir = codes "/opt/metaffi"

codes_discrete : Discrete (List ℕ)
codes_discrete = hlevel ℕ_discrete

-- Library 7 opens at any path and has every symbol.
abbrev working : Platform
working = record {
  metaffi_home = some home_dir;
  dlopen = λ path. 7;
  dlsym = λ h s. 100 + slot s;
  dlclose = λ h. false;
  dlerror = 55;
  explains = λ e. absurd (omega (arith, e));
}

-- The last symbol is missing.
abbrev broken : Platform
broken = record working { dlsym = λ h s. if slot s == 24 then 0 else 100 + slot s }

-- Only one file is there to open.
abbrev python_only : Platform
python_only = record working {
  dlopen = λ path.
      ite (codes_discrete path (home_dir ++ (codes "/" ++ (codes "py" ++ codes ".so")))) 9 0;
}

abbrev no_home : Platform
no_home = record working { metaffi_home = none }

fresh-IsLinked : (os : Platform) → IsLinked os fresh
fresh-IsLinked os s = inl refl

-- A wrapper that cannot load XLLR returns NULL.
alloc_memory_without_home :
    serve no_home (Request.alloc_memory 16) fresh ≡ done (fresh, returned (some 0))
unfolding serve xllr_alloc_memory forward load_xllr
alloc_memory_without_home = refl

serve-Served_example :
    Served working Symbol.alloc_memory
      (some 0)
      (16 ∷ [])
      (serve working (Request.alloc_memory 16) fresh)
serve-Served_example =
    serve-Served working (Request.alloc_memory 16) fresh (fresh-IsLinked working) refl

alloc_string_reaches :
    (st' : Loader) × (serve working (Request.alloc_string 4 5) fresh
      ≡ done (st', called 111 (4 ∷ 5 ∷ [])))
    × (st'.handle ≡ 7)
alloc_string_reaches =
    serve_reaches working (Request.alloc_string 4 5) home_dir fresh refl (fresh-IsLinked working)
      refl refl (omega arith) (omega arith) (λ s. omega arith)

load_xllr_capi_iff_example :
    ((load_xllr_capi broken fresh).1 ≡ none) ↔ ((s : Symbol) → broken.dlsym 0 s ≢ 0)
load_xllr_capi_iff_example = load_xllr_capi_iff broken fresh

broken_again :
    (st' : Loader) × (e : Message) × (load_xllr broken fresh ≡ done (st', some e))
    × (load_xllr broken st' ≡ done (st', none))
    × (st'.pointer Symbol.traverse_cdt ≡ 0)
broken_again =
    load_xllr_again broken home_dir fresh Symbol.traverse_cdt refl (fresh-IsLinked broken) refl
      (omega arith) (omega arith) refl

-- After everything was loaded from library 7.
abbrev running : Loader
running = record { handle = 7; pointer = λ s. 100 + slot s; closed = []; freed = [] }

freed_dangling :
    let st' = (free_xllr working running).0 in
    (st'.closed ≡ 7 ∷ [])
    × ((free_xllr working running).1 ≡ none)
    × (serve working (Request.free_memory 3) st' ≡ broken_off)
    × (load_xllr working st' ≡ done (st', none))
freed_dangling =
    free_xllr_dangling working running (Request.free_memory 3) refl (omega arith) refl (omega arith)

-- 4094 bytes of home.
abbrev long_home : List ℕ
long_home = replicate 4094 b'h'

length-long_home : length long_home ≡ 4094
length-long_home = length-replicate 4094 b'h'

long_home_overflows : load_xllr (record working { metaffi_home = some long_home }) fresh ≡ overflow
long_home_overflows =
    load_xllr_too_long (record working { metaffi_home = some long_home }) long_home fresh refl refl
      (omega (arith, length-long_home))

python_two_dots :
    load_metaffi_library python_only (codes "py") ≡ done (some 0, some (from_dlerror 55))
python_two_dots =
    load_metaffi_library_two_dots python_only home_dir (codes "py") refl (omega arith) (omega arith)
      (λ path other.
        if_neg (codes_discrete path (home_dir ++ (codes "/" ++ (codes "py" ++ codes ".so")))) other
          9 0)

-- A process that asks for the symbols before anything is opened, loads XLLR, which lacks a symbol, and
-- frees it.
abbrev by_hand : Loader
by_hand = (load_xllr_capi broken fresh).0

abbrev half_loaded : Loader
half_loaded = (load_xllr_capi broken (record by_hand { handle = 7 })).0

half_loaded-Reachable : Reachable broken half_loaded
half_loaded-Reachable = Reachable.then (Reachable.then Reachable.start Step.linking) (
    Step.loading (
      load_xllr_fits broken home_dir by_hand (load_xllr_capi-handle broken fresh) refl (omega arith)
      ∙ open_xllr_opens broken (home_dir ++ codes "/xllr.so") by_hand (omega arith)))

Reachable-Sound_example :
    let st = (free_xllr broken half_loaded).0 in
    IsFound broken st × ((st.handle ≡ 0) ⊎ IsXllr broken st.handle)
Reachable-Sound_example =
    Reachable-Sound broken (free_xllr broken half_loaded).0
      (Reachable.then half_loaded-Reachable Step.freeing)

working-IsInstalled : IsInstalled working home_dir 7
working-IsInstalled = record {
  set = refl;
  fits = omega arith;
  opens = refl;
  loaded = omega arith;
  complete = λ s. omega arith;
}

run-direct_example :
    (st' : Loader) × (run working (Request.alloc_memory 16 ∷ Request.free_memory 9 ∷ []) fresh
      ≡ done (st', called 108 (16 ∷ []) ∷ called 109 (9 ∷ []) ∷ []))
run-direct_example =
    run-direct working home_dir 7 (Request.alloc_memory 16 ∷ Request.free_memory 9 ∷ []) fresh
      working-IsInstalled (fresh-IsLinked working) refl (inl refl)

xllr_capi_loader-IsReady_example : IsReady working (xllr_capi_loader working initial)
xllr_capi_loader-IsReady_example = xllr_capi_loader-IsReady working
