-- ===== src/Utils/Plugin.antt =====
-- plugin-sdk-main/utils/plugin_loader.hpp: the plugin of a name below `METAFFI_HOME`. Of a path the
-- code asks `stem` and `extension` of `std::filesystem`, which are written out.
pub mod Find
use meta_ffi_project.Shared.{
  ℕ, List, [], ◌∷◌, ◌++◌, map, Option, none, some, Bool, true, false, not, ◌&&◌, ◌||◌, ◌==◌,
  if◌then◌else◌,
}
use meta_ffi_project.Utils.{Bytes}
use meta_ffi_project.Utils.EntityPath.{same}
use meta_ffi_project.Utils.Library.{Mode, Error, Loading}

pub record Entry : Type 0 where
  pub is_regular_file : Bool
  pub path : Bytes

-- What the functions ask of the system and of Boost.
pub record Disk : Type 0 where
  pub metaffi_home : Option Bytes
  pub exists : Bytes → Bool
  pub is_directory : Bytes → Bool
  pub recursive_directory_iterator : Bytes → List Entry
  pub absolute : Bytes → Bytes
  pub suffix : Bytes
  pub load : Mode → Bytes → Option ℕ

-- The text before the last `b`, and the text behind it.
unfoldable pub split_last : ℕ → Bytes → Option (Bytes × Bytes)
split_last b [] = none
split_last b (c ∷ cs) = elim (split_last b cs) [
  | some (before, behind) ↦ some (c ∷ before, behind)
  | none ↦ if c == b then some ([], cs) else none
]

unfoldable pub filename : Bytes → Bytes
unfolding split_last
filename path = elim (split_last b'/' path) [ none ↦ path | some (before, behind) ↦ behind ]

abbrev pub stem_of : Bytes → Option (Bytes × Bytes) → Bytes
stem_of file none = file
stem_of file (some ([], behind)) = file
stem_of file (some (c ∷ cs, behind)) = c ∷ cs

abbrev pub extension_of : Option (Bytes × Bytes) → Bytes
extension_of none = []
extension_of (some ([], behind)) = []
extension_of (some (c ∷ cs, behind)) = b'.' ∷ behind

-- A dot at the start is no dot of an extension, and the name ".." has none.
unfoldable pub stem : Bytes → Bytes
unfolding filename
stem path =
    if same (filename path) (b'.' ∷ b'.' ∷ [])
    then filename path
    else stem_of (filename path) (split_last b'.' (filename path))

unfoldable pub extension : Bytes → Bytes
unfolding filename
extension path =
    if same (filename path) (b'.' ∷ b'.' ∷ [])
    then []
    else extension_of (split_last b'.' (filename path))

module _ (disk : Disk) where
  -- The loop over the entries.
  unfoldable pub matching : Bytes → Bytes → List Entry → List Bytes
  unfolding stem extension
  matching file ext [] = []
  matching file ext (entry ∷ rest) =
      let found = matching file ext rest in
      if entry.is_regular_file && (same (stem entry.path) file && same (extension entry.path) ext)
      then disk.absolute entry.path ∷ found
      else found

  unfoldable pub find_files_recursively : Bytes → Bytes → Bytes → List Bytes
  unfolding matching
  find_files_recursively root file ext =
      if not (disk.exists root) || not (disk.is_directory root)
      then []
      else matching file ext (disk.recursive_directory_iterator root)

  abbrev load_result : Bytes → Option ℕ → Loading
  load_result path none = Loading.throws (Error.load_failed path)
  load_result path (some handle) = Loading.loaded handle

  -- The end of `load_plugin`, behind the search.
  unfoldable pub load_only : List Bytes → Loading
  load_only [] = Loading.throws Error.not_found
  load_only (plugin ∷ []) = load_result plugin (disk.load Mode.now_global plugin)
  load_only (plugin ∷ other ∷ rest) = Loading.throws Error.ambiguous

  unfoldable pub load_below : Bytes → Option Bytes → Loading
  unfolding load_only find_files_recursively
  load_below name none = Loading.throws Error.home_unset
  load_below name (some home) = load_only (find_files_recursively home name disk.suffix)

  unfoldable pub load_plugin : Bytes → Loading
  unfolding load_below
  load_plugin name = load_below name disk.metaffi_home
