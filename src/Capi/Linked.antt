-- ===== src/Capi/Linked.antt =====
-- What loading the entry points leaves in the table of function pointers.
use meta_ffi_project.Shared.{
  ℕ, List, [], ◌∷◌, some, none, Bool, true, false, ◌||◌, ◌≡◌, refl, ◌≢◌, ◌⊎◌, inl, inr, ◌↔◌, sym,
  ap, ◌∙◌, ◌==◌, ==_iff, if◌then◌else◌, Bool-cases, arith,
}
use meta_ffi_project.Capi.{Symbol, Loader, Platform, slot, assign, from_dlerror}
use native.Mathlib.Decide.{ℕ_discrete}
use meta_ffi_project.Capi.Library.{error_of-dlerror}
use meta_ffi_project.Capi.Load.{load_order, load_symbols, load_xllr_capi}

nth : ℕ → Symbol
nth n =
    if n == 0
    then Symbol.xcall_params_ret
    else (if n == 1
        then Symbol.xcall_no_params_ret
        else (if n == 2
            then Symbol.xcall_params_no_ret
            else (if n == 3
                then Symbol.xcall_no_params_no_ret
                else (if n == 4
                    then Symbol.load_entity
                    else (if n == 5
                        then Symbol.free_xcall
                        else (if n == 6
                            then Symbol.alloc_cdt_array
                            else (if n == 7
                                then Symbol.free_cdt_array
                                else (if n == 8
                                    then Symbol.alloc_memory
                                    else (if n == 9
                                        then Symbol.free_memory
                                        else (if n == 10
                                            then Symbol.free_string
                                            else (if n == 11
                                                then Symbol.alloc_string
                                                else (if n == 12
                                                    then Symbol.alloc_string8
                                                    else (if n == 13
                                                        then Symbol.alloc_string16
                                                        else (if n == 14
                                                            then Symbol.alloc_string32
                                                            else (if n == 15
                                                            then Symbol.load_runtime_plugin
                                                            else (if n == 16
                                                            then Symbol.free_runtime_plugin
                                                            else (if n == 17
                                                            then Symbol.is_runtime_flag_set
                                                            else (if n == 18
                                                            then Symbol.set_runtime_flag
                                                            else (if n == 19
                                                            then Symbol.alloc_cdts_buffer
                                                            else (if n == 20
                                                            then Symbol.free_cdts_buffer
                                                            else (if n == 21
                                                            then Symbol.construct_cdts
                                                            else (if n == 22
                                                            then Symbol.construct_cdt
                                                            else (if n == 23
                                                            then Symbol.traverse_cdts
                                                            else (Symbol.traverse_cdt))))))))))))))))))))))))

nth-slot : (s : Symbol) → nth (slot s) ≡ s
unfolding nth
nth-slot Symbol.xcall_params_ret = refl
nth-slot Symbol.xcall_no_params_ret = refl
nth-slot Symbol.xcall_params_no_ret = refl
nth-slot Symbol.xcall_no_params_no_ret = refl
nth-slot Symbol.load_entity = refl
nth-slot Symbol.free_xcall = refl
nth-slot Symbol.alloc_cdt_array = refl
nth-slot Symbol.free_cdt_array = refl
nth-slot Symbol.alloc_memory = refl
nth-slot Symbol.free_memory = refl
nth-slot Symbol.free_string = refl
nth-slot Symbol.alloc_string = refl
nth-slot Symbol.alloc_string8 = refl
nth-slot Symbol.alloc_string16 = refl
nth-slot Symbol.alloc_string32 = refl
nth-slot Symbol.load_runtime_plugin = refl
nth-slot Symbol.free_runtime_plugin = refl
nth-slot Symbol.is_runtime_flag_set = refl
nth-slot Symbol.set_runtime_flag = refl
nth-slot Symbol.alloc_cdts_buffer = refl
nth-slot Symbol.free_cdts_buffer = refl
nth-slot Symbol.construct_cdts = refl
nth-slot Symbol.construct_cdt = refl
nth-slot Symbol.traverse_cdts = refl
nth-slot Symbol.traverse_cdt = refl

-- No two pointers share a place.
slot-injective : (s t : Symbol) → slot s ≡ slot t → s ≡ t
slot-injective s t e = sym (nth-slot s) ∙ ap nth e ∙ nth-slot t

abbrev pub has : Symbol → List Symbol → Bool
has s [] = false
has s (t ∷ l) = slot s == slot t || has s l

pub has-load_order : (s : Symbol) → has s load_order ≡ true
has-load_order Symbol.xcall_params_ret = refl
has-load_order Symbol.xcall_no_params_ret = refl
has-load_order Symbol.xcall_params_no_ret = refl
has-load_order Symbol.xcall_no_params_no_ret = refl
has-load_order Symbol.load_entity = refl
has-load_order Symbol.free_xcall = refl
has-load_order Symbol.alloc_cdt_array = refl
has-load_order Symbol.free_cdt_array = refl
has-load_order Symbol.alloc_memory = refl
has-load_order Symbol.free_memory = refl
has-load_order Symbol.free_string = refl
has-load_order Symbol.alloc_string = refl
has-load_order Symbol.alloc_string8 = refl
has-load_order Symbol.alloc_string16 = refl
has-load_order Symbol.alloc_string32 = refl
has-load_order Symbol.load_runtime_plugin = refl
has-load_order Symbol.free_runtime_plugin = refl
has-load_order Symbol.is_runtime_flag_set = refl
has-load_order Symbol.set_runtime_flag = refl
has-load_order Symbol.alloc_cdts_buffer = refl
has-load_order Symbol.free_cdts_buffer = refl
has-load_order Symbol.construct_cdts = refl
has-load_order Symbol.construct_cdt = refl
has-load_order Symbol.traverse_cdts = refl
has-load_order Symbol.traverse_cdt = refl

pub same_slot : (s t : Symbol) → (slot s == slot t) ≡ true → s ≡ t
same_slot s t e = slot-injective s t ((==_iff _ _).0 e)

-- Every pointer is NULL, or the address of its own symbol in the library that is loaded.
abbrev pub IsLinked : Platform → Loader → Type 0
IsLinked os st =
    (s : Symbol) → (st.pointer s ≡ 0) ⊎ ((st.handle ≢ 0) × (st.pointer s ≡ os.dlsym st.handle s))

-- The table after one stanza that found `t`.
abbrev pub set_found : Platform → Symbol → Loader → Loader
set_found os t st = record st { pointer = assign t (os.dlsym st.handle t) st.pointer }

module _ (os : Platform) where
  pub load_symbols_missing :
      (t : Symbol) (l : List Symbol) (st : Loader)
      → os.dlsym st.handle t ≡ 0
      → load_symbols os (t ∷ l) st
        ≡ (record st { pointer = assign t 0 st.pointer }, some (from_dlerror os.dlerror))
  unfolding load_symbols
  load_symbols_missing t l st e = ground (arith, error_of-dlerror os)

  pub load_symbols_found :
      (t : Symbol) (l : List Symbol) (st : Loader)
      → os.dlsym st.handle t ≢ 0
      → load_symbols os (t ∷ l) st ≡ load_symbols os l (set_found os t st)
  unfolding load_symbols
  load_symbols_found t l st e = ground arith

  pub load_symbols-handle :
      (l : List Symbol) (st : Loader) → (load_symbols os l st).0.handle ≡ st.handle
  load_symbols-handle [] st = unfold load_symbols in refl
  load_symbols-handle (t ∷ l) st = elim (ℕ_discrete (os.dlsym st.handle t) 0) [
    | yes e ↦ rw (load_symbols_missing t l st e)
    | no n ↦ rw (load_symbols_found t l st n) (load_symbols-handle l (set_found os t st))
  ]

  load_symbols-closed :
      (l : List Symbol) (st : Loader) → (load_symbols os l st).0.closed ≡ st.closed
  load_symbols-closed [] st = unfold load_symbols in refl
  load_symbols-closed (t ∷ l) st = elim (ℕ_discrete (os.dlsym st.handle t) 0) [
    | yes e ↦ rw (load_symbols_missing t l st e)
    | no n ↦ rw (load_symbols_found t l st n) (load_symbols-closed l (set_found os t st))
  ]

  -- A pointer is as it was, or NULL, or was loaded.
  load_symbols-pointer :
      (l : List Symbol) (st : Loader) (s : Symbol)
      → let p = (load_symbols os l st).0.pointer s in
        (p ≡ st.pointer s) ⊎ (p ≡ 0) ⊎ (p ≡ os.dlsym st.handle s)
  load_symbols-pointer [] st s = unfold load_symbols in inl refl
  load_symbols-pointer (t ∷ l) st s = elim (ℕ_discrete (os.dlsym st.handle t) 0) [
    | yes e ↦ rw (load_symbols_missing t l st e) (ground arith)
    | no n ↦
        rw (load_symbols_found t l st n)
          (grind (arith, load_symbols-pointer l (set_found os t st) s, same_slot s t))
  ]

  kept :
      (t : Symbol) (l : List Symbol) (st : Loader) (s : Symbol)
      → os.dlsym st.handle t ≢ 0
      → (has s (t ∷ l) ≡ true) ⊎ (st.pointer s ≢ 0)
      → (has s l ≡ true) ⊎ ((set_found os t st).pointer s ≢ 0)
  kept t l st s n h = elim (Bool-cases (slot s == slot t)) [
    | inl same ↦ inr (rw same n)
    | inr other ↦ ground arith
  ]

  load_symbols_complete :
      (l : List Symbol) (st : Loader) (s : Symbol)
      → (load_symbols os l st).1 ≡ none
      → ((has s l ≡ true) ⊎ (st.pointer s ≢ 0))
      → (load_symbols os l st).0.pointer s ≢ 0
  load_symbols_complete [] st s e h = unfold load_symbols in ground arith
  load_symbols_complete (t ∷ l) st s e h = elim (ℕ_discrete (os.dlsym st.handle t) 0) [
    | yes m ↦ cc (rw (load_symbols_missing t l st m) at e)
    | no n ↦ rw (load_symbols_found t l st n) (
        load_symbols_complete l (set_found os t st) s (rw (load_symbols_found t l st n) at e)
          (kept t l st s n h))
  ]

  -- A stanza that finds nothing is the last: success means that every symbol of the list resolved.
  load_symbols_resolved :
      (l : List Symbol) (st : Loader) (s : Symbol)
      → (load_symbols os l st).1 ≡ none
      → has s l ≡ true
      → os.dlsym st.handle s ≢ 0
  load_symbols_resolved [] st s e h = cc
  load_symbols_resolved (t ∷ l) st s e h = elim (ℕ_discrete (os.dlsym st.handle t) 0) [
    | yes m ↦ cc (rw (load_symbols_missing t l st m) at e)
    | no n ↦ elim (Bool-cases (slot s == slot t)) [
      | inl same ↦ rw (same_slot s t same) n
      | inr other ↦
          load_symbols_resolved l (set_found os t st) s (rw (load_symbols_found t l st n) at e)
            (ground arith)
    ]
  ]

  load_symbols_succeeds :
      (l : List Symbol) (st : Loader)
      → ((s : Symbol) → os.dlsym st.handle s ≢ 0)
      → (load_symbols os l st).1 ≡ none
  load_symbols_succeeds [] st all = unfold load_symbols in refl
  load_symbols_succeeds (t ∷ l) st all =
      rw (load_symbols_found t l st (all t)) (load_symbols_succeeds l (set_found os t st) all)

  -- `load_xllr_capi` reports no error exactly when the library has every one of the 25 symbols. A
  -- `dlsym` that fails leaves a message.
  pub load_xllr_capi_iff :
      (st : Loader) → ((load_xllr_capi os st).1 ≡ none) ↔ ((s : Symbol) → os.dlsym st.handle s ≢ 0)
  unfolding load_xllr_capi
  load_xllr_capi_iff st = (
    λ e s. load_symbols_resolved load_order st s e (has-load_order s),
    load_symbols_succeeds load_order st,
  )

  -- Where it reports none, no pointer is NULL.
  pub load_xllr_capi_complete :
      (st : Loader) (s : Symbol)
      → (load_xllr_capi os st).1 ≡ none
      → (load_xllr_capi os st).0.pointer s ≢ 0
  unfolding load_xllr_capi
  load_xllr_capi_complete st s e = load_symbols_complete load_order st s e (inl (has-load_order s))

  pub load_xllr_capi-handle : (st : Loader) → (load_xllr_capi os st).0.handle ≡ st.handle
  unfolding load_xllr_capi
  load_xllr_capi-handle st = load_symbols-handle load_order st

  pub load_xllr_capi-closed : (st : Loader) → (load_xllr_capi os st).0.closed ≡ st.closed
  unfolding load_xllr_capi
  load_xllr_capi-closed st = load_symbols-closed load_order st

  pub load_xllr_capi-pointer :
      (st : Loader) (s : Symbol)
      → let p = (load_xllr_capi os st).0.pointer s in
        (p ≡ st.pointer s) ⊎ (p ≡ 0) ⊎ (p ≡ os.dlsym st.handle s)
  unfolding load_xllr_capi
  load_xllr_capi-pointer st s = load_symbols-pointer load_order st s

  -- With a library loaded it keeps every pointer NULL or linked, also where it fails half way.
  pub load_xllr_capi-IsLinked :
      (st : Loader) → st.handle ≢ 0 → IsLinked os st → IsLinked os (load_xllr_capi os st).0
  unfolding load_xllr_capi
  load_xllr_capi-IsLinked st loaded linked s =
      ground
        (arith, linked s, load_symbols-handle load_order st, load_symbols-pointer load_order st s)
