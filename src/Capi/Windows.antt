-- ===== src/Capi/Windows.antt =====
-- What plugin-sdk-main/runtime/xllr_capi_loader.c is on Windows, where it differs: the functions that
-- call the system, the path of XLLR's library, and the loading and freeing of XLLR over them. MSVC has
-- no `__STDC_LIB_EXT1__`, so that `METAFFI_HOME` is read by `getenv`.
mod Tests
use meta_ffi_project.Shared.{
  unequal, ℕ, ◌+◌, ◌≤◌, ◌<◌, List, [], ◌∷◌, ◌++◌, length, take, codes, Option, some, none, ◌≡◌,
  refl, ◌≢◌, ltb, Bool, Bool-cases, true, false, ◌==◌, if◌then◌else◌, inl, inr, length-append,
  length-take, ap, sym, ◌∙◌, Option-cases, not, min, arith,
}
use native.Mathlib.Decide.{ℕ_discrete}
use meta_ffi_project.Capi.{
  Symbol, Loader, Message, Platform, assign, home_unset, failed_to_load, failed_to_free,
  from_system, symbol_missing,
}
use meta_ffi_project.Capi.Load.{load_order}
use meta_ffi_project.Capi.Load
use meta_ffi_project.Capi.Library
use meta_ffi_project.Capi.Linked.{IsLinked, load_symbols_missing, load_symbols_found, set_found}
use meta_ffi_project.Capi.Forward.{Loaded, load_xllr_capi-Loaded, unlinked}

-- What the file asks of Windows. `error_text` is the address of the text that `FormatMessage` makes of
-- the last error; `free_library` says whether `FreeLibrary` succeeded.
pub record System : Type 0 where
  pub metaffi_home : Option (List ℕ)
  pub load_library_a : List ℕ → ℕ
  pub get_proc_address : ℕ → Symbol → ℕ
  pub free_library : ℕ → Bool
  pub error_text : ℕ

abbrev pub max_path : ℕ
max_path = 260

-- `sprintf_s` ends the process where the text does not fit.
pub data Ended (A : Type 0) : Type 0 where
  returns : A → Ended A
  stopped : Ended A

-- "%s\\xllr%s" of the first `MAX_PATH` bytes of the home, with the extension ".dll".
unfoldable pub dll_path : List ℕ → List ℕ
dll_path home = take max_path home ++ codes "\\xllr.dll"

module _ (w : System) where
  -- `get_last_error_string(GetLastError(), …)`
  abbrev pub get_last_error_string : ℕ
  get_last_error_string = w.error_text

  unfoldable pub load_library : List ℕ → ℕ × Option Message
  load_library name =
      let handle = w.load_library_a name in
      if handle == 0 then (handle, some (from_system get_last_error_string)) else (handle, none)

  unfoldable pub free_library : ℕ → Option Message
  free_library lib =
      if lib == 0
      then none
      else (if w.free_library lib then none else some (from_system get_last_error_string))

  unfoldable pub load_symbol : ℕ → Symbol → ℕ × Option Message
  load_symbol handle name =
      let res = w.get_proc_address handle name in
      if res == 0 then (0, some (symbol_missing name get_last_error_string)) else (res, none)

  unfoldable pub load_symbols : List Symbol → Loader → Loader × Option Message
  unfolding load_symbol
  load_symbols [] st = (st, none)
  load_symbols (s ∷ rest) st =
      let (p, err) = load_symbol st.handle s in
      let st' = record st { pointer = assign s p st.pointer } in
      let more = load_symbols rest st' in if p == 0 then (st', err) else more

  unfoldable pub load_xllr_capi : Loader → Loader × Option Message
  load_xllr_capi st = load_symbols load_order st

  -- On a failure the text is handed to `LocalFree`.
  unfoldable pub open_xllr : List ℕ → Loader → Loader × Option Message
  unfolding load_library
  open_xllr path st =
      let (h, err) = load_library path in
      if h == 0
      then (record st { handle = h; freed = get_last_error_string ∷ st.freed }, some failed_to_load)
      else load_xllr_capi (record st { handle = h })

  unfoldable pub load_below : Option (List ℕ) → Loader → Ended (Loader × Option Message)
  load_below none st = returns (st, some home_unset)
  load_below (some home) st =
      if ltb max_path (length (dll_path home) + 1)
      then stopped
      else returns (open_xllr (dll_path home) st)

  unfoldable pub load_xllr : Loader → Ended (Loader × Option Message)
  load_xllr st = if st.handle == 0 then load_below w.metaffi_home st else returns (st, none)

  unfoldable pub free_xllr : Loader → Loader × Option Message
  unfolding free_library
  free_xllr st = elim (free_library st.handle) [
    | none ↦ (if st.handle == 0 then st else record st { closed = st.handle ∷ st.closed }, none)
    | some e ↦ (st, some failed_to_free)
  ]

-- The same system, seen as one with `dlopen`, `dlsym` and `dlclose`, whose message is some address.
abbrev pub as_platform : System → Platform
as_platform w = record {
  metaffi_home = w.metaffi_home;
  dlopen = w.load_library_a;
  dlsym = w.get_proc_address;
  dlclose = λ h. if h == 0 then false else not (w.free_library h);
  dlerror = 1;
  explains = λ e. absurd (omega (arith, e));
}

if_zero :
    {A : Type 0} (P : A → Type 0) (n : ℕ) (a b : A) → n ≡ 0 → P a → P (if n == 0 then a else b)
if_zero P n a b z h = rw z h

-- Both report an error, or neither does.
abbrev SameError : Option Message → Option Message → Type 0
SameError none none = Unit
SameError (some e) (some e') = Unit
SameError _ _ = ⊥

abbrev Same : Loader × Option Message → Loader × Option Message → Type 0
Same r r' = (r.0 ≡ r'.0) × SameError r.1 r'.1

module _ (w : System) where
  load_symbols-Same :
      (l : List Symbol) (st : Loader)
      → Same (load_symbols w l st) (Load.load_symbols (as_platform w) l st)
  unfolding load_symbols load_symbol
  load_symbols-Same [] st = unfold Load.load_symbols in (refl, tt)
  load_symbols-Same (s ∷ rest) st = elim (ℕ_discrete (w.get_proc_address st.handle s) 0) [
    | yes e ↦ rw (load_symbols_missing (as_platform w) s rest st e, e) (refl, tt)
    | no n ↦
        rw (load_symbols_found (as_platform w) s rest st n, unequal _ 0 n, unequal _ 0 n)
          (load_symbols-Same rest (set_found (as_platform w) s st))
  ]

  no_error-SameError : (e e' : Option Message) → SameError e e' → e ≡ none → e' ≡ none
  no_error-SameError none none same h = refl
  no_error-SameError none (some m) same h = absurd same
  no_error-SameError (some m) e' same h = cc

  Loaded-Same :
      (r r' : Loader × Option Message)
      → Same r r'
      → Loaded (as_platform w) r'
      → Loaded (as_platform w) r
  Loaded-Same (st, e) (st', e') (same, errors) (linked, handle, all) = rw same (
    linked,
    λ h. handle (no_error-SameError e e' errors h),
    λ h. all (no_error-SameError e e' errors h),
  )

  open_xllr-Loaded :
      (path : List ℕ) (st : Loader)
      → st.handle ≡ 0
      → IsLinked (as_platform w) st
      → Loaded (as_platform w) (open_xllr w path st)
  unfolding open_xllr load_library load_xllr_capi
  open_xllr-Loaded path st e linked = elim (ℕ_discrete (w.load_library_a path) 0) [
    | yes z ↦ rw z (unlinked (as_platform w) st 0 e linked, λ q. cc, λ q. cc)
    | no n ↦
        let st' : Loader = record st { handle = w.load_library_a path } in
        rw (unequal _ 0 n, unequal _ 0 n)
          (Loaded-Same _ _ (load_symbols-Same load_order st') (
            unfold Load.load_xllr_capi in
            load_xllr_capi-Loaded (as_platform w) st' n
              (unlinked (as_platform w) st (w.load_library_a path) e linked)))
  ]

length-dll_path : (home : List ℕ) → length (dll_path home) ≡ min (length home) max_path + 9
unfolding dll_path
length-dll_path home =
    omega
      (arith, length-append (take max_path home) (codes "\\xllr.dll"), length-take max_path home)

-- How `load_xllr` ends on Windows.
abbrev pub Starts : System → Ended (Loader × Option Message) → Type 0
Starts w (returns r) = Loaded (as_platform w) r
Starts w stopped = (home : List ℕ) × (w.metaffi_home ≡ some home) × (250 < length home)

module _ (w : System) (st : Loader) (z : st.handle ≡ 0) (linked : IsLinked (as_platform w) st) where
  load_below-Starts : (o : Option (List ℕ)) → w.metaffi_home ≡ o → Starts w (load_below w o st)
  unfolding load_below
  load_below-Starts none e = (linked, λ q. cc, λ q. cc)
  load_below-Starts (some home) e = elim (Bool-cases (ltb max_path (length (dll_path home) + 1))) [
    | inl long ↦ rw long (home, e, ground (arith, length-dll_path home))
    | inr fits ↦ rw fits (open_xllr-Loaded w (dll_path home) st z linked)
  ]

-- On Windows, from no library and pointers that are NULL or linked: `load_xllr` returns, and leaves
-- every pointer NULL or linked, and where it reports no error it has a library and no pointer is NULL;
-- or the process is stopped, and then `METAFFI_HOME` has more than 250 bytes.
pub load_xllr-Starts :
    (w : System) (st : Loader)
    → st.handle ≡ 0
    → IsLinked (as_platform w) st
    → Starts w (load_xllr w st)
unfolding load_xllr
load_xllr-Starts w st z linked =
    if_zero (Starts w) st.handle _ _ z (load_below-Starts w st z linked w.metaffi_home refl)

-- Freeing is what it is on Linux, where a library is loaded; where none is, nothing is done.
pub free_xllr-Same :
    (w : System) (st : Loader)
    → st.handle ≢ 0
    → Same (free_xllr w st) (Load.free_xllr (as_platform w) st)
unfolding free_xllr free_library Load.free_xllr Library.free_library
free_xllr-Same w st n = elim (Bool-cases (w.free_library st.handle)) [
  | inl freed ↦
      rw (Same, free_xllr, Load.free_xllr, unequal st.handle 0 n, freed, unequal st.handle 0 n)
        (refl, tt)
  | inr kept ↦ rw (Same, free_xllr, Load.free_xllr, unequal st.handle 0 n, kept) (refl, tt)
]
