-- ===== src/Capi/Paths.antt =====
-- The paths that plugin-sdk-main/runtime/xllr_capi_loader.c builds from `METAFFI_HOME`.
use meta_ffi_project.Shared.{
  ℕ, zero, suc, ◌+◌, ◌≤◌, ◌<◌, List, [], ◌∷◌, ◌++◌, length, length-append, length-take, take, codes,
  some, none, ◌≡◌, refl, ◌≢◌, ap, min, arith,
}
use meta_ffi_project.Capi.{Loader, Platform, done, overflow, home_unset, from_dlerror}
use meta_ffi_project.Capi.Library.{error_of-dlerror}
use meta_ffi_project.Capi.Load.{
  load_xllr, open_xllr, xllr_path, path_max, load_metaffi_library, metaffi_library_path,
}

take_all {ℓ} : {A : Type ℓ} (n : ℕ) (xs : List A) → length xs ≤ n → take n xs ≡ xs
take_all zero [] h = refl
take_all zero (x ∷ xs) h = absurd (omega arith)
take_all (suc n) [] h = refl
take_all (suc n) (x ∷ xs) h = rw (take_all n xs (omega arith))

length-xllr_path : (home : List ℕ) → length (xllr_path home) ≡ min (length home) path_max + 8
unfolding xllr_path
length-xllr_path home =
    omega (arith, length-append (take path_max home) (codes "/xllr.so"), length-take path_max home)

whole_path :
    (home : List ℕ) → length home + 3 ≤ path_max → xllr_path home ≡ home ++ codes "/xllr.so"
unfolding xllr_path
whole_path home fits = rw (take_all path_max home (omega arith))

module _ (os : Platform) where
  pub load_xllr_loaded : (st : Loader) → st.handle ≢ 0 → load_xllr os st ≡ done (st, none)
  unfolding load_xllr
  load_xllr_loaded st n = ground arith

  pub load_xllr_unset :
      (st : Loader)
      → st.handle ≡ 0
      → os.metaffi_home ≡ none
      → load_xllr os st ≡ done (st, some home_unset)
  unfolding load_xllr
  load_xllr_unset st e unset = ground arith

  module _ (home : List ℕ) (st : Loader) where
    -- A home of at most `PATH_MAX - 3` bytes: the library asked for is its `xllr.so`.
    pub load_xllr_fits :
        st.handle ≡ 0
        → os.metaffi_home ≡ some home
        → length home + 3 ≤ path_max
        → load_xllr os st ≡ open_xllr os (home ++ codes "/xllr.so") st
    unfolding load_xllr
    load_xllr_fits e set fits = ground (arith, length-xllr_path home, whole_path home fits)

    -- The buffer of `PATH_MAX + 6` bytes is too small for `PATH_MAX` bytes, "/xllr.so" and the
    -- terminator: a home of more than `PATH_MAX - 3` bytes is written past its end.
    pub load_xllr_too_long :
        st.handle ≡ 0
        → os.metaffi_home ≡ some home
        → path_max < length home + 3
        → load_xllr os st ≡ overflow
    unfolding load_xllr
    load_xllr_too_long e set long = ground (arith, length-xllr_path home)

length-metaffi_library_path :
    (home name : List ℕ)
    → length (metaffi_library_path home name) ≡ min (length home) path_max + length name + 5
unfolding metaffi_library_path
length-metaffi_library_path home name =
    simp length-append (omega (arith, length-take path_max home))

-- `load_metaffi_library` never asks for `home/name.so`: its path is one byte longer.
metaffi_library_path_two_dots :
    (home name : List ℕ)
    → length home ≤ path_max
    → metaffi_library_path home name ≢ home ++ (codes "/" ++ (name ++ codes ".so"))
metaffi_library_path_two_dots home name fits e =
    let lengths = ap length e in
    omega (arith, simp length-append at lengths, length-metaffi_library_path home name)

-- A path within the buffer: what `dlopen` is asked for is the whole home, "/", the name and "..so".
-- So where only the file `name.so` is there to open, the function fails and leaves NULL.
pub load_metaffi_library_two_dots :
    (os : Platform) (home name : List ℕ)
    → os.metaffi_home ≡ some home
    → length home ≤ path_max
    → length name + 6 ≤ path_max
    → ((path : List ℕ) → path ≢ home ++ (codes "/" ++ (name ++ codes ".so")) → os.dlopen path ≡ 0)
    → load_metaffi_library os name ≡ done (some 0, some (from_dlerror os.dlerror))
unfolding load_metaffi_library
load_metaffi_library_two_dots os home name set fits short only = ground (
  arith,
  length-metaffi_library_path home name,
  only (metaffi_library_path home name) (metaffi_library_path_two_dots home name fits),
  error_of-dlerror os,
)
