-- ===== src/Capi/Windows/Tests.antt =====
-- The loader on Windows on concrete systems, and its theorem there.
use meta_ffi_project.Shared.{◌+◌, [], ◌∷◌, codes, true, some, none, ◌≡◌, refl, inl}
use meta_ffi_project.Capi.{slot, fresh, failed_to_load}
use meta_ffi_project.Capi.Windows.{
  System, returns, dll_path, load_library, open_xllr, load_below, load_xllr, free_xllr,
  free_library, Starts, load_xllr-Starts,
}

abbrev installed : System
installed = record {
  metaffi_home = some (codes "C:\\metaffi");
  load_library_a = λ path. 9;
  get_proc_address = λ h s. 200 + slot s;
  free_library = λ h. true;
  error_text = 66;
}

-- No file is there to open: the text is given back.
missing_library :
    load_xllr (record installed { load_library_a = λ path. 0 }) fresh
    ≡ returns (record fresh { freed = 66 ∷ [] }, some failed_to_load)
unfolding load_xllr load_below dll_path open_xllr load_library
missing_library = refl

-- Nothing is freed where nothing was loaded.
nothing_to_free : free_xllr installed fresh ≡ (fresh, none)
unfolding free_xllr free_library
nothing_to_free = refl

load_xllr-Starts_example : Starts installed (load_xllr installed fresh)
load_xllr-Starts_example = load_xllr-Starts installed fresh refl (λ s. inl refl)
