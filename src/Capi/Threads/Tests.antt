-- ===== src/Capi/Threads/Tests.antt =====
-- Threads on concrete platforms, and the theorems there.
use meta_ffi_project.Shared.{
  ℕ, zero, suc, ◌+◌, List, [], ◌∷◌, codes, true, false, some, ◌≡◌, refl, ◌⊎◌, inl, inr, ◌==◌,
  if◌then◌else◌, arith,
}
use meta_ffi_project.Capi.{Platform, slot, fresh}
use meta_ffi_project.Capi.Table.{Request, serve}
use meta_ffi_project.Capi.Static.{Process}
use meta_ffi_project.Capi.Load.{print_path, xllr_path}
use meta_ffi_project.Capi.Threads.{Pc, Thread, find_path, advance, next_call, turn, interleave}
use meta_ffi_project.Capi.Threads.Kept.{IsShared, AreReplies}
use meta_ffi_project.Capi.Threads.Served.{IsNew, interleave-AreReplies}
use meta_ffi_project.Capi.Threads.Bounded.{IsBroken}
use meta_ffi_project.Capi.Threads.Answers.{answered, interleave_answers}
use meta_ffi_project.Capi.Threads.Ready.{AllReach, ready_answers}
use meta_ffi_project.Capi.Threads.Alone.{Agrees, alone, alone-serve}

-- Library 7 opens at any path and has every symbol.
abbrev complete : Platform
complete = record {
  metaffi_home = some (codes "/opt/metaffi");
  dlopen = λ path. 7;
  dlsym = λ h s. 100 + slot s;
  dlclose = λ h. false;
  dlerror = 55;
  explains = λ e. absurd (omega (arith, e));
}

-- Threads 0 and 1 have a call to make, the others none.
abbrev two : ℕ → Thread
two i = record {
  pc = Pc.idle;
  todo =
      if i == 0
      then Request.alloc_memory 16 ∷ []
      else (if i == 1 then Request.free_memory 3 ∷ [] else []);
  replies = [];
}

-- The second thread finds no handle and is then stopped until the first has written it: `load_xllr`
-- has nothing to do any more, and the pointer is still NULL at its call.
two_first_calls :
    ((interleave complete (0 ∷ 0 ∷ 0 ∷ 1 ∷ 1 ∷ 1 ∷ 0 ∷ 0 ∷ 1 ∷ 1 ∷ []) two fresh).0 1).pc
    ≡ Pc.crashed (Request.free_memory 3)
unfolding interleave turn next_call advance find_path print_path xllr_path
two_first_calls = refl

fresh-IsShared : IsShared complete fresh
fresh-IsShared = (inl refl, λ s. inl refl)

two-IsNew : (i : ℕ) → IsNew (two i)
two-IsNew i = (refl, refl)

-- The two take turns, so many times.
abbrev by_turns : ℕ → List ℕ
by_turns zero = []
by_turns (suc n) = 0 ∷ 1 ∷ by_turns n

interleave-AreReplies_example :
    let (ts', st') = interleave complete (by_turns 84) two fresh in
    IsShared complete st' × ((i : ℕ) → AreReplies complete (ts' i).replies)
interleave-AreReplies_example =
    interleave-AreReplies complete (by_turns 84) two fresh fresh-IsShared two-IsNew

interleave_answers_example :
    let t = (interleave complete (by_turns 84) two fresh).0 1 in
    IsBroken t.pc ⊎ (answered t.replies [] ≡ (Request.free_memory 3 ∷ []))
interleave_answers_example =
    interleave_answers complete (by_turns 84) two fresh 1 (two-IsNew 1) (omega arith)

abbrev linked_process : Process
linked_process = record {
  xllr_capi_loaded = true;
  loader = record { handle = 7; pointer = λ s. 100 + slot s; closed = []; freed = [] };
}

ready_answers_example :
    let (ts', st') = interleave complete (by_turns 84) two linked_process.loader in
    (answered (ts' 1).replies [] ≡ (Request.free_memory 3 ∷ []))
    × AllReach complete linked_process.loader (ts' 1).replies
    × (st' ≡ linked_process.loader)
ready_answers_example =
    ready_answers complete linked_process (by_turns 84) two 1
      (
        refl,
        (λ s. inr (λ e. absurd (omega (arith, e)), refl)),
        refl,
        λ s e. absurd (omega (arith, e)),
      )
      two-IsNew (omega arith)

alone-serve_example :
    Agrees
      (Request.alloc_memory 16)
      (serve complete (Request.alloc_memory 16) fresh)
      (alone complete 83 (Pc.entered (Request.alloc_memory 16)) fresh)
alone-serve_example = alone-serve complete (Request.alloc_memory 16) fresh
