-- ===== src/Capi/Threads.antt =====
-- The wrappers of plugin-sdk-main/runtime/xllr_capi_loader.c on several threads, which share the
-- file's static variables: one access to such a variable at a step, in any order of the threads. The
-- accesses are taken as single and as seen by all threads at once, which plain variables of C do not
-- promise. A thread that takes a step without a meaning stays there, while the others may go on.
pub mod Kept
pub mod Served
pub mod Bounded
pub mod Answers
pub mod Ready
pub mod Alone
mod Tests
use meta_ffi_project.Shared.{ℕ, ◌+◌, List, [], ◌∷◌, Option, some, none, ◌==◌, if◌then◌else◌}
use meta_ffi_project.Capi.{Symbol, Loader, Message, Platform, Outcome, done, overflow, assign}
use meta_ffi_project.Capi.Library.{error_of}
use meta_ffi_project.Capi.Load.{load_order, print_path, xllr_path, path_max}
use meta_ffi_project.Capi.Wrappers.{Reply, returned, called, is_callable}
use meta_ffi_project.Capi.Table.{Request, target, arguments, fallback}

-- Where a thread stands in the call of a wrapper, before the access that comes next.
pub data Pc : Type 0 where
  idle : Pc
  entered : Request → Pc  -- `if(func == NULL)`
  unset : Request → Pc  -- `if(cdt_helper_xllr_handle == NULL)` of the macro
  loading : Request → Pc  -- `if(cdt_helper_xllr_handle)` of `load_xllr`
  opening : Request → List ℕ → Pc  -- `cdt_helper_xllr_handle = load_library(xllr_full_path, …)`
  opened : Request → Pc  -- `if(!cdt_helper_xllr_handle)`
  linking : Request → List Symbol → Pc  -- the handle for the next `load_symbol`, or the end
  finding : Request → Symbol → List Symbol → ℕ → Pc  -- `func = load_symbol(handle, …)`
  wrote : Request → Symbol → List Symbol → Pc  -- `if(!func)`
  ready : Request → Pc  -- the call
  ended : Request → Reply → Pc
  crashed : Request → Pc  -- called through a bad pointer, or gave `free` what it may not free
  overrun : Request → Pc  -- wrote past the buffer of the path

-- `return retval`
abbrev pub gives_up : Request → Pc
gives_up r = Pc.ended r (returned (fallback r))

-- `load_xllr` up to the opening, once it has found no handle: on what `getenv` gives.
unfoldable pub find_path : Request → Option (List ℕ) → Pc
unfolding print_path
find_path r none = gives_up r
find_path r (some home) = elim (print_path (path_max + 6) (xllr_path home)) [
  | done path ↦ Pc.opening r path
  | overflow ↦ Pc.overrun r
  | Outcome.broken_off ↦ Pc.crashed r
]

-- `free` of the text of `dlerror` and the return behind it.
unfoldable pub freed_text : Request → Option Message → Pc
freed_text r none = gives_up r
freed_text r (some text) = Pc.crashed r

module _ (os : Platform) where
  -- One access.
  unfoldable pub advance : Pc → Loader → Pc × Loader
  unfolding find_path is_callable freed_text error_of
  advance Pc.idle st = (Pc.idle, st)
  advance (Pc.entered r) st = (if st.pointer (target r) == 0 then Pc.unset r else Pc.ready r, st)
  advance (Pc.unset r) st = (if st.handle == 0 then Pc.loading r else Pc.linking r load_order, st)
  advance (Pc.loading r) st =
      (if st.handle == 0 then find_path r os.metaffi_home else Pc.ready r, st)
  advance (Pc.opening r path) st = (Pc.opened r, record st { handle = os.dlopen path })
  advance (Pc.opened r) st =
      (if st.handle == 0 then freed_text r (error_of os.dlerror) else Pc.linking r load_order, st)
  advance (Pc.linking r []) st = (Pc.ready r, st)
  advance (Pc.linking r (s ∷ rest)) st = (Pc.finding r s rest st.handle, st)
  advance (Pc.finding r s rest h) st =
      (Pc.wrote r s rest, record st { pointer = assign s (os.dlsym h s) st.pointer })
  advance (Pc.wrote r s rest) st = (if st.pointer s == 0 then gives_up r else Pc.linking r rest, st)
  advance (Pc.ready r) st = (
    if is_callable os (target r) st
        then Pc.ended r (called (st.pointer (target r)) (arguments r))
        else Pc.crashed r,
    st,
  )
  advance (Pc.ended r reply) st = (Pc.ended r reply, st)
  advance (Pc.crashed r) st = (Pc.crashed r, st)
  advance (Pc.overrun r) st = (Pc.overrun r, st)

-- A thread: where it stands, the calls that it has still to make, and the replies that it has had,
-- the last first.
pub record Thread : Type 0 where
  pub pc : Pc
  pub todo : List Request
  pub replies : List (Request × Reply)

-- The next call, where one is left.
unfoldable pub next_call : List Request → Thread → Thread
next_call [] t = t
next_call (r ∷ rest) t = record t { pc = Pc.entered r; todo = rest }

module _ (os : Platform) where
  -- One step of a thread that stands at `p`: it begins its next call, takes the reply of one, or makes
  -- an access.
  unfoldable pub turn : Pc → Thread → Loader → Thread × Loader
  unfolding next_call
  turn Pc.idle t st = (next_call t.todo t, st)
  turn (Pc.ended r reply) t st = (record t { pc = Pc.idle; replies = (r, reply) ∷ t.replies }, st)
  turn p t st = let (p', st') = advance os p st in (record t { pc = p' }, st')

  -- The threads, by their numbers, after the steps of the threads with these numbers.
  unfoldable pub interleave : List ℕ → (ℕ → Thread) → Loader → (ℕ → Thread) × Loader
  interleave [] ts st = (ts, st)
  interleave (i ∷ later) ts st =
      let (t, st') = turn (ts i).pc (ts i) st in
      interleave later (λ j. if j == i then t else ts j) st'
