-- ===== src/Utils/Library.antt =====
-- plugin-sdk-main/utils/library_loader.cpp: where `load_library` looks for a library. Boost's
-- functions on paths and libraries are parameters; a handle is a number.
use meta_ffi_project.Shared.{
  ℕ, List, [], ◌∷◌, ◌++◌, Option, none, some, Bool, true, false, ◌≡◌, refl, Bool-cases, inl, inr,
  if◌then◌else◌,
}
use meta_ffi_project.Utils.{Bytes}

-- With no mode, with `rtld_now | rtld_global`, or with `search_system_folders`.
pub data Mode : Type 0 where
  by_default now_global search_system_folders : Mode

-- `append` puts a name behind a directory; `load` gives a handle or throws.
pub record Files : Type 0 where
  pub metaffi_home : Option Bytes
  pub exists : Bytes → Bool
  pub current_path : Bytes
  pub program_location : Bytes
  pub append : Bytes → Bytes → Bytes
  pub suffix : Bytes
  pub load : Mode → Bytes → Option ℕ

pub data Error : Type 0 where
  home_unset not_found ambiguous : Error
  load_failed : Bytes → Error

-- How a loading function ends. The last is no end of the program: a `std::string` of NULL.
pub data Loading : Type 0 where
  loaded : ℕ → Loading
  throws : Error → Loading
  undefined : Loading

module _ (fs : Files) where
  abbrev load_result : Bytes → Option ℕ → Loading
  load_result path none = Loading.throws (Error.load_failed path)
  load_result path (some handle) = Loading.loaded handle

  -- `load(path, mode)`
  unfoldable pub load_at : Mode → Bytes → Loading
  load_at mode path = load_result path (fs.load mode path)

  abbrev pub file_name : Bool → Bytes → Bytes
  file_name append_extension name = if append_extension then name ++ fs.suffix else name

  -- The part behind `METAFFI_HOME`.
  unfoldable pub load_elsewhere : Bytes → Loading
  unfolding load_at
  load_elsewhere module_filename =
      if fs.exists module_filename
      then load_at Mode.by_default module_filename
      else (if fs.exists (fs.append fs.current_path module_filename)
          then load_at Mode.by_default (fs.append fs.current_path module_filename)
          else (if fs.exists (fs.append fs.program_location module_filename)
              then load_at Mode.by_default (fs.append fs.program_location module_filename)
              else load_at Mode.search_system_folders module_filename))

  unfoldable pub load_in_home : Option Bytes → Bytes → Loading
  unfolding load_at load_elsewhere
  load_in_home none name = Loading.undefined
  load_in_home (some []) name = Loading.throws Error.home_unset
  load_in_home (some (c ∷ cs)) name =
      if fs.exists (fs.append (c ∷ cs) name)
      then load_at Mode.now_global (fs.append (c ∷ cs) name)
      else load_elsewhere name

  unfoldable pub load_library : Bytes → Bool → Bool → Loading
  unfolding load_in_home load_elsewhere
  load_library library_name load_from_metaffi_home append_extension =
      if load_from_metaffi_home
      then load_in_home fs.metaffi_home (file_name append_extension library_name)
      else load_elsewhere (file_name append_extension library_name)

  -- The places in their order.
  abbrev pub elsewhere : Bytes → List (Mode × Bytes)
  elsewhere name =
      (Mode.by_default, name)
      ∷ (Mode.by_default, fs.append fs.current_path name)
      ∷ (Mode.by_default, fs.append fs.program_location name)
      ∷ []

  -- The first place that exists, and the folders of the system where none does.
  abbrev pub first_existing : List (Mode × Bytes) → Bytes → Mode × Bytes
  first_existing [] name = (Mode.search_system_folders, name)
  first_existing ((mode, path) ∷ rest) name =
      let later = first_existing rest name in if fs.exists path then (mode, path) else later

  abbrev pub load_first : List (Mode × Bytes) → Bytes → Loading
  load_first places name = load_at (first_existing places name).0 (first_existing places name).1

  elsewhere-first : (name : Bytes) → load_elsewhere name ≡ load_first (elsewhere name) name
  unfolding load_elsewhere
  elsewhere-first name = elim (Bool-cases (fs.exists name)) [
    | inl t ↦ rw t refl
    | inr f ↦ elim (Bool-cases (fs.exists (fs.append fs.current_path name))) [
      | inl t1 ↦ rw (f, t1) refl
      | inr f1 ↦ elim (Bool-cases (fs.exists (fs.append fs.program_location name))) [
        | inl t2 ↦ rw (f, f1, t2) refl
        | inr f2 ↦ rw (f, f1, f2) refl
      ]
    ]
  ]

  home-first :
      (c : ℕ) (cs name : Bytes)
      → load_in_home (some (c ∷ cs)) name
        ≡ load_first ((Mode.now_global, fs.append (c ∷ cs) name) ∷ elsewhere name) name
  unfolding load_in_home
  home-first c cs name = elim (Bool-cases (fs.exists (fs.append (c ∷ cs) name))) [
    | inl t ↦ rw t refl
    | inr f ↦ rw f (elsewhere-first name)
  ]

  -- With `METAFFI_HOME` set to some text, a library is loaded from the first place that exists:
  -- below `METAFFI_HOME`, where this is asked for, as its name says, below the current directory and
  -- below the program's location; and from the system's folders where none exists. A library that
  -- exists and does not load is an error, and no other place is tried.
  pub load_library-first :
      (name : Bytes) (from_home ext : Bool) (c : ℕ) (cs : Bytes)
      → fs.metaffi_home ≡ some (c ∷ cs)
      → load_library name from_home ext
        ≡ load_first
            (if from_home
              then (Mode.now_global, fs.append (c ∷ cs) (file_name ext name))
                ∷ elsewhere (file_name ext name)
              else elsewhere (file_name ext name))
            (file_name ext name)
  unfolding load_library
  load_library-first name true ext c cs set = rw set (home-first c cs (file_name ext name))
  load_library-first name false ext c cs set = elsewhere-first (file_name ext name)
