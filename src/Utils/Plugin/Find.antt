-- ===== src/Utils/Plugin/Find.antt =====
-- Which files `load_plugin` of plugin-sdk-main/utils/plugin_loader.hpp takes for the plugin.
use meta_ffi_project.Shared.{
  ℕ, List, [], ◌∷◌, ◌++◌, length, length-append, Option, none, some, Option-cases, true, false,
  ◌&&◌, Bool-cases, ◌≡◌, refl, ◌↔◌, inl, inr, ap, sym, ◌∙◌, ◌==◌, ==_iff, if◌then◌else◌, arith,
}
use mathlib.Core.List.{tail-eq_of_cons-eq}
use meta_ffi_project.Utils.{Bytes}
use meta_ffi_project.Utils.Plain.{All}
use meta_ffi_project.Utils.EntityPath.{same}
use meta_ffi_project.Utils.EntityPath.Split.{is_not}
use meta_ffi_project.Utils.EntityPath.RoundTrip.{same_sound, same_refl}
use meta_ffi_project.Utils.Library.{Mode, Error, Loading}
use meta_ffi_project.Utils.Plugin.{
  Entry, Disk, split_last, filename, stem, extension, stem_of, extension_of, matching,
  find_files_recursively, load_only, load_below, load_plugin,
}

-- The last `b` of a text, if there is one.
abbrev IsLast : ℕ → Bytes → Option (Bytes × Bytes) → Type 0
IsLast b s none = All (is_not b) s
IsLast b s (some (before, behind)) = (s ≡ before ++ b ∷ behind) × All (is_not b) behind

grown_none-IsLast :
    (b c : ℕ) (cs : Bytes)
    → All (is_not b) cs
    → IsLast b (c ∷ cs) (if c == b then some ([], cs) else none)
grown_none-IsLast b c cs h = elim (Bool-cases (c == b)) [
  | inl t ↦ rw t (ap (λ x. x ∷ cs) ((==_iff c b).0 t), h)
  | inr f ↦ rw f (ground arith, h)
]

split_last-IsLast : (b : ℕ) (s : Bytes) → IsLast b s (split_last b s)
unfolding split_last
split_last-IsLast b [] = tt
split_last-IsLast b (c ∷ cs) = elim (Option-cases (split_last b cs)) [
  | inl e ↦
      let h : IsLast b cs none = rw e at (split_last-IsLast b cs) in
      rw (e, split_last) (grown_none-IsLast b c cs h)
  | inr ((before, behind), e) ↦
      let (whole, h) : IsLast b cs (some (before, behind)) = rw e at (split_last-IsLast b cs) in
      rw (e, split_last) (ap (◌∷◌ c) whole, h)
]

split_last-none : (b : ℕ) (s : Bytes) → All (is_not b) s → split_last b s ≡ none
unfolding split_last
split_last-none b [] h = refl
split_last-none b (c ∷ cs) (h, hs) =
    let other : (c == b) ≡ false = ground arith in
    rw (split_last-none b cs hs, split_last, other) refl

split_last-append :
    (b : ℕ) (before behind : Bytes)
    → All (is_not b) behind
    → split_last b (before ++ b ∷ behind) ≡ some (before, behind)
unfolding split_last
split_last-append b [] behind h =
    let here : (b == b) ≡ true = ground arith in
    rw (split_last-none b behind h, split_last, here) refl
split_last-append b (c ∷ cs) behind h = rw (split_last-append b cs behind h, split_last) refl

-- A name, and an extension with its dot.
abbrev pub Named : Bytes → Bytes → Bytes → Type 0
Named path name ext = (stem path ≡ name) × (extension path ≡ ext)

abbrev dots : Bytes
dots = b'.' ∷ b'.' ∷ []

stem-plain :
    (path : Bytes)
    → same (filename path) dots ≡ false
    → stem path ≡ stem_of (filename path) (split_last b'.' (filename path))
unfolding stem
stem-plain path e = rw e refl

extension-plain :
    (path : Bytes)
    → same (filename path) dots ≡ false
    → extension path ≡ extension_of (split_last b'.' (filename path))
unfolding extension
extension-plain path e = rw e refl

extension-dots : (path : Bytes) → same (filename path) dots ≡ true → extension path ≡ []
unfolding extension
extension-dots path e = rw e refl

module _ (n : ℕ) (ns : Bytes) (e : ℕ) (es : Bytes) (no_dot : All (is_not b'.') (e ∷ es)) where
  abbrev full : Bytes
  full = n ∷ ns ++ b'.' ∷ e ∷ es

  full-dots : same full dots ≡ false
  full-dots = elim (Bool-cases (same full dots)) [
    | inr f ↦ f
    | inl t ↦
        let lengths = ap length (same_sound full dots t) in
        absurd (omega (arith, lengths, length-append ns (b'.' ∷ e ∷ es)))
  ]

  full-Named : (path : Bytes) → filename path ≡ full → Named path (n ∷ ns) (b'.' ∷ e ∷ es)
  full-Named path whole =
      let plain : same (filename path) dots ≡ false = rw whole full-dots in
      let parts = split_last-append b'.' (n ∷ ns) (e ∷ es) no_dot in
      (
        rw (stem-plain path plain, whole, parts) refl,
        rw (extension-plain path plain, whole, parts) refl,
      )

  Named-full :
      (path : Bytes) (o : Option (Bytes × Bytes))
      → IsLast b'.' (filename path) o
      → stem_of (filename path) o ≡ n ∷ ns
      → extension_of o ≡ b'.' ∷ e ∷ es
      → filename path ≡ full
  Named-full path none l s x = cc
  Named-full path (some ([], behind)) l s x = cc
  Named-full path (some (c ∷ cs, behind)) (whole, _) s x =
      let same_end : behind ≡ e ∷ es = tail-eq_of_cons-eq x in
      whole ∙ ap (λ x. x ++ b'.' ∷ behind) s ∙ ap (λ x. n ∷ ns ++ b'.' ∷ x) same_end

  -- A path has this stem and this extension exactly where its last part is the two together.
  Named-iff : (path : Bytes) → Named path (n ∷ ns) (b'.' ∷ e ∷ es) ↔ (filename path ≡ full)
  Named-iff path = (
    λ (s, x). elim (Bool-cases (same (filename path) dots)) [
      | inl t ↦ cc (extension-dots path t, x)
      | inr f ↦
          Named-full path (split_last b'.' (filename path)) (split_last-IsLast b'.' (filename path))
            (sym (stem-plain path f) ∙ s) (sym (extension-plain path f) ∙ x)
    ],
    full-Named path,
  )

  named_test :
      (path : Bytes)
      → (same (stem path) (n ∷ ns) && same (extension path) (b'.' ∷ e ∷ es))
        ≡ same (filename path) full
  named_test path = elim (Bool-cases (same (filename path) full)) [
    | inl t ↦
        let (s, x) = full-Named path (same_sound (filename path) full t) in
        rw (t, s, x, same_refl (n ∷ ns), same_refl (b'.' ∷ e ∷ es)) refl
    | inr f ↦ elim (Bool-cases (same (stem path) (n ∷ ns))) [
      | inr f1 ↦ rw (f, f1) refl
      | inl t1 ↦ elim (Bool-cases (same (extension path) (b'.' ∷ e ∷ es))) [
        | inr f2 ↦ rw (f, t1, f2) refl
        | inl t2 ↦
            let whole = (Named-iff path).0 (
              same_sound (stem path) (n ∷ ns) t1,
              same_sound (extension path) (b'.' ∷ e ∷ es) t2,
            ) in
            cc (rw whole at f, same_refl full)
      ]
    ]
  ]

-- The regular files of a name, with absolute paths.
abbrev pub files_named : Disk → Bytes → List Entry → List Bytes
files_named disk file [] = []
files_named disk file (entry ∷ rest) =
    let found = files_named disk file rest in
    if entry.is_regular_file && same (filename entry.path) file
    then disk.absolute entry.path ∷ found
    else found

matching-named :
    (disk : Disk) (n : ℕ) (ns : Bytes) (e : ℕ) (es : Bytes) (l : List Entry)
    → All (is_not b'.') (e ∷ es)
    → matching disk (n ∷ ns) (b'.' ∷ e ∷ es) l ≡ files_named disk (n ∷ ns ++ b'.' ∷ e ∷ es) l
unfolding matching
matching-named disk n ns e es [] h = refl
matching-named disk n ns e es (entry ∷ rest) h =
    rw (named_test n ns e es h entry.path, matching-named disk n ns e es rest h) refl

-- The plugin, where it is the only one.
abbrev pub only : Disk → List Bytes → Loading
only disk [] = Loading.throws Error.not_found
only disk (path ∷ []) = elim (disk.load Mode.now_global path) [
  | none ↦ Loading.throws (Error.load_failed path)
  | some handle ↦ Loading.loaded handle
]
only disk (path ∷ other ∷ rest) = Loading.throws Error.ambiguous

load_only-only : (disk : Disk) (l : List Bytes) → load_only disk l ≡ only disk l
unfolding load_only
load_only-only disk [] = refl
load_only-only disk (path ∷ []) = elim (Option-cases (disk.load Mode.now_global path)) [
  | inl e ↦ rw (e, only) refl
  | inr (handle, e) ↦ rw (e, only) refl
]
load_only-only disk (path ∷ other ∷ rest) = refl

find_files-there :
    (disk : Disk) (root file ext : Bytes)
    → disk.exists root ≡ true
    → disk.is_directory root ≡ true
    → find_files_recursively disk root file ext
      ≡ matching disk file ext (disk.recursive_directory_iterator root)
unfolding find_files_recursively
find_files-there disk root file ext there directory = rw (there, directory) refl

-- In a home that is a directory, `load_plugin` loads the regular file anywhere below it whose name is
-- the plugin's with the suffix of the system's libraries, and throws where there is none, where there
-- are several, and where the file does not load.
pub load_plugin-only :
    (disk : Disk) (home : Bytes) (n : ℕ) (ns : Bytes) (e : ℕ) (es : Bytes)
    → disk.metaffi_home ≡ some home
    → disk.exists home ≡ true
    → disk.is_directory home ≡ true
    → disk.suffix ≡ b'.' ∷ e ∷ es
    → All (is_not b'.') (e ∷ es)
    → load_plugin disk (n ∷ ns)
      ≡ only disk
          (files_named disk (n ∷ ns ++ b'.' ∷ e ∷ es) (disk.recursive_directory_iterator home))
unfolding load_plugin load_below
load_plugin-only disk home n ns e es set there directory suffix no_dot =
    ap (load_below disk (n ∷ ns)) set
    ∙ ap (λ x. load_only disk (find_files_recursively disk home (n ∷ ns) x)) suffix
    ∙ ap (load_only disk) (
        find_files-there disk home (n ∷ ns) (b'.' ∷ e ∷ es) there directory
        ∙ matching-named disk n ns e es (disk.recursive_directory_iterator home) no_dot)
    ∙ load_only-only disk
        (files_named disk (n ∷ ns ++ b'.' ∷ e ∷ es) (disk.recursive_directory_iterator home))
