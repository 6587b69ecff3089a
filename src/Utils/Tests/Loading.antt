-- ===== src/Utils/Tests/Loading.antt =====
-- The search for libraries and plugins of plugin-sdk-main/utils on a concrete disk.
use meta_ffi_project.Shared.{[], ◌∷◌, ◌++◌, codes, some, true, ◌≡◌, refl}
use meta_ffi_project.Utils.{Bytes}
use meta_ffi_project.Utils.EntityPath.{same}
use meta_ffi_project.Utils.Library.{
  Mode, Files, elsewhere, load_first, load_library, load_library-first,
}
use meta_ffi_project.Utils.Plugin.{Entry, Disk, load_plugin}
use meta_ffi_project.Utils.Plugin.Find.{files_named, only, load_plugin-only}

-- The library is in the current directory only.
abbrev files : Files
files = record {
  metaffi_home = some (codes "/m");
  exists = same (codes "/w/go.so");
  current_path = codes "/w";
  program_location = codes "/p/main";
  append = λ dir name. dir ++ (codes "/" ++ name);
  suffix = codes ".so";
  load = λ mode path. some 5;
}

go_in_current_path :
    load_library files (codes "go") true true
    ≡ load_first files
        ((Mode.now_global, codes "/m/go.so") ∷ elsewhere files (codes "go.so"))
        (codes "go.so")
go_in_current_path = load_library-first files (codes "go") true true b'/' (codes "m") refl

abbrev entry : Bytes → Entry
entry path = record { is_regular_file = true; path = path }

abbrev disk : Disk
disk = record {
  metaffi_home = some (codes "/m");
  exists = λ path. true;
  is_directory = λ path. true;
  recursive_directory_iterator =
      λ root. entry (codes "/m/a/xllr.go.so") ∷ entry (codes "/m/go.txt") ∷ [];
  absolute = λ path. path;
  suffix = codes ".so";
  load = λ mode path. some 6;
}

load_plugin-only_example :
    load_plugin disk (codes "xllr.go")
    ≡ only disk (
        files_named disk
          (codes "xllr.go" ++ codes ".so")
          (disk.recursive_directory_iterator (codes "/m")))
load_plugin-only_example =
    load_plugin-only disk (codes "/m") b'x' (codes "llr.go") b's' (codes "o") refl refl refl refl
      (refl, (refl, tt))
