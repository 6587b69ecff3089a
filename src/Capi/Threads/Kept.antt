-- ===== src/Capi/Threads/Kept.antt =====
-- What one access keeps of what the threads share, and what a thread knows where it stands.
use meta_ffi_project.Shared.{
  if_null, unequal, ℕ, ◌+◌, ltb, length, ◌∙◌, List, [], ◌∷◌, Option, some, none, ◌≡◌, refl, ◌≢◌,
  ◌⊎◌, inl, inr, Bool-cases, ◌==◌, if◌then◌else◌, sym, arith,
}
use meta_ffi_project.Capi.{Symbol, Loader, Message, Platform, Outcome, done, overflow, assign, slot}
use meta_ffi_project.Capi.Load.{load_order, print_path, xllr_path, path_max}
use meta_ffi_project.Capi.Linked.{IsLinked, same_slot}
use meta_ffi_project.Capi.Library.{error_of}
use native.Mathlib.Decide.{ℕ_discrete}
use meta_ffi_project.Capi.Wrappers.{Reply, returned, called, is_callable, is_unmapped}
use meta_ffi_project.Capi.Table.{Request, target, arguments, fallback}
use meta_ffi_project.Capi.Threads.{Pc, find_path, freed_text, advance, gives_up}

-- The handle of XLLR's library below `METAFFI_HOME`, 0 where there is none.
abbrev pub handle_below : Platform → Option (List ℕ) → ℕ
handle_below os none = 0
handle_below os (some home) = os.dlopen (xllr_path home)

abbrev pub xllr_handle : Platform → ℕ
xllr_handle os = handle_below os os.metaffi_home

-- No library is loaded, or XLLR's; a pointer is NULL, or what the loaded library has for it.
abbrev pub IsShared : Platform → Loader → Type 0
IsShared os st = ((st.handle ≡ 0) ⊎ (st.handle ≡ xllr_handle os)) × IsLinked os st

-- The reply to a call: XLLR's function of that name was called with the call's arguments, or the
-- wrapper returned its default.
abbrev pub IsReply : Platform → Request → Reply → Type 0
IsReply os r (called a args) =
    (a ≢ 0) × (a ≡ os.dlsym (xllr_handle os) (target r)) × (args ≡ arguments r)
IsReply os r (returned v) = v ≡ fallback r

abbrev pub AreReplies : Platform → List (Request × Reply) → Type 0
AreReplies os [] = Unit
AreReplies os ((r, reply) ∷ rest) = IsReply os r reply × AreReplies os rest

-- What a thread knows where it stands, of a handle that every thread may write.
abbrev pub Knows : Platform → Pc → ℕ → Type 0
Knows os (Pc.opening r path) handle = os.dlopen path ≡ xllr_handle os
Knows os (Pc.linking r rest) handle = handle ≢ 0
Knows os (Pc.finding r s rest h) handle = (handle ≢ 0) × (h ≡ handle)
Knows os (Pc.wrote r s rest) handle = handle ≢ 0
Knows os (Pc.ended r reply) handle = IsReply os r reply
Knows os _ handle = Unit

-- A handle that is not NULL stays.
abbrev pub Stays : ℕ → ℕ → Type 0
Stays h h' = h ≢ 0 → h' ≡ h

pub Knows-Stays : (os : Platform) (p : Pc) (h h' : ℕ) → Stays h h' → Knows os p h → Knows os p h'
Knows-Stays os Pc.idle h h' stays knows = tt
Knows-Stays os (Pc.entered r) h h' stays knows = tt
Knows-Stays os (Pc.unset r) h h' stays knows = tt
Knows-Stays os (Pc.loading r) h h' stays knows = tt
Knows-Stays os (Pc.opening r path) h h' stays knows = knows
Knows-Stays os (Pc.opened r) h h' stays knows = tt
Knows-Stays os (Pc.linking r rest) h h' stays knows = rw (stays knows) knows
Knows-Stays os (Pc.finding r s rest g) h h' stays (n, e) = rw (stays n) (n, e)
Knows-Stays os (Pc.wrote r s rest) h h' stays knows = rw (stays knows) knows
Knows-Stays os (Pc.ready r) h h' stays knows = tt
Knows-Stays os (Pc.ended r reply) h h' stays knows = knows
Knows-Stays os (Pc.crashed r) h h' stays knows = tt
Knows-Stays os (Pc.overrun r) h h' stays knows = tt

module _ (os : Platform) where
  print_path-Knows :
      (r : Request) (h size : ℕ) (path : List ℕ)
      → os.dlopen path ≡ xllr_handle os
      → Knows os
          (elim (print_path size path) [
            | done path' ↦ Pc.opening r path'
            | overflow ↦ Pc.overrun r
            | Outcome.broken_off ↦ Pc.crashed r
          ])
          h
  unfolding print_path
  print_path-Knows r h size path e = elim (Bool-cases (ltb size (length path + 1))) [
    | inl long ↦ rw long tt
    | inr short ↦ rw short e
  ]

  find_path-Knows :
      (r : Request) (h : ℕ) (o : Option (List ℕ))
      → handle_below os o ≡ xllr_handle os
      → Knows os (find_path r o) h
  unfolding find_path
  find_path-Knows r h none e = refl
  find_path-Knows r h (some home) e = print_path-Knows r h (path_max + 6) (xllr_path home) e

  -- What one access leaves.
  abbrev pub Kept : Loader → Pc × Loader → Type 0
  Kept st (p, st') = IsShared os st' × Stays st.handle st'.handle × Knows os p st'.handle

  reads :
      (st : Loader) (n : ℕ) (a b : Pc)
      → IsShared os st
      → (n ≡ 0 → Knows os a st.handle)
      → (n ≢ 0 → Knows os b st.handle)
      → Kept st (if n == 0 then a else b, st)
  reads st n a b shared null other =
      (shared, λ n. refl, if_null (λ p. Knows os p st.handle) n a b null other)

  -- A handle that is written is XLLR's; where another was before, it is the same.
  opens-Kept :
      (h : ℕ) (st : Loader)
      → h ≡ xllr_handle os
      → IsShared os st
      → IsShared os (record st { handle = h }) × Stays st.handle h
  opens-Kept h st e (inl z, linked) = ((inr e, λ s. ground (arith, linked s)), λ n. absurd (n z))
  opens-Kept h st e (inr same, linked) = rw (e ∙ sym same) ((inr same, linked), λ n. refl)

  found-IsLinked :
      (s : Symbol) (st : Loader)
      → st.handle ≢ 0
      → IsLinked os st
      → IsLinked os (record st { pointer = assign s (os.dlsym st.handle s) st.pointer })
  found-IsLinked s st n linked t = elim (Bool-cases (slot t == slot s)) [
    | inl e ↦ rw (e, same_slot t s e) (inr (n, refl))
    | inr e ↦ rw e (linked t)
  ]

  calls-Knows :
      (r : Request) (st : Loader)
      → IsShared os st
      → st.pointer (target r) ≢ 0
      → IsReply os r (called (st.pointer (target r)) (arguments r))
  calls-Knows r st (shared, linked) n = (n, ground (arith, linked (target r), shared), refl)

  calls-Kept : (r : Request) (st : Loader) → IsShared os st → Kept st (advance os (Pc.ready r) st)
  unfolding advance is_callable
  calls-Kept r st shared = elim (ℕ_discrete (st.pointer (target r)) 0) [
    | yes z ↦ rw z (shared, λ n. refl, tt)
    | no n ↦ elim (Bool-cases (is_unmapped os (target r) (st.pointer (target r)) st.closed)) [
      | inl gone ↦ rw (unequal _ 0 n, gone) (shared, λ m. refl, tt)
      | inr there ↦ rw (unequal _ 0 n, there) (shared, λ m. refl, calls-Knows r st shared n)
    ]
  ]

  freed_text-Knows : (r : Request) (o : Option Message) (h : ℕ) → Knows os (freed_text r o) h
  unfolding freed_text
  freed_text-Knows r none h = refl
  freed_text-Knows r (some text) h = tt

  pub advance-Kept :
      (p : Pc) (st : Loader) → IsShared os st → Knows os p st.handle → Kept st (advance os p st)
  unfolding advance
  advance-Kept Pc.idle st shared knows = (shared, λ n. refl, tt)
  advance-Kept (Pc.entered r) st shared knows =
      reads st (st.pointer (target r)) (Pc.unset r) (Pc.ready r) shared (λ z. tt) (λ n. tt)
  advance-Kept (Pc.unset r) st shared knows =
      reads st st.handle (Pc.loading r) (Pc.linking r load_order) shared (λ z. tt) (λ n. n)
  advance-Kept (Pc.loading r) st shared knows =
      reads st st.handle (find_path r os.metaffi_home) (Pc.ready r) shared
        (λ z. find_path-Knows r st.handle os.metaffi_home refl) (λ n. tt)
  advance-Kept (Pc.opening r path) st shared knows =
      let (shared', stays) = opens-Kept (os.dlopen path) st knows shared in (shared', stays, tt)
  advance-Kept (Pc.opened r) st shared knows =
      reads st st.handle (freed_text r (error_of os.dlerror)) (Pc.linking r load_order) shared
        (λ z. freed_text-Knows r (error_of os.dlerror) st.handle) (λ n. n)
  advance-Kept (Pc.linking r []) st shared knows = (shared, λ n. refl, tt)
  advance-Kept (Pc.linking r (s ∷ rest)) st shared knows = (shared, λ n. refl, (knows, refl))
  advance-Kept (Pc.finding r s rest h) st (shared, linked) (n, e) =
      rw e ((shared, found-IsLinked s st n linked), λ n'. refl, n)
  advance-Kept (Pc.wrote r s rest) st shared knows =
      reads st (st.pointer s) (gives_up r) (Pc.linking r rest) shared (λ z. refl) (λ n. knows)
  advance-Kept (Pc.ready r) st shared knows = calls-Kept r st shared
  advance-Kept (Pc.ended r reply) st shared knows = (shared, λ n. refl, knows)
  advance-Kept (Pc.crashed r) st shared knows = (shared, λ n. refl, tt)
  advance-Kept (Pc.overrun r) st shared knows = (shared, λ n. refl, tt)
