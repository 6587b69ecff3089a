-- ===== src/Utils/Reference.antt =====
-- A text with one reference in `expand_env` of plugin-sdk-main/utils/expand_env.cpp.
use meta_ffi_project.Shared.{
  ◌+◌, ◌≤◌, [], ◌∷◌, ◌++◌, length, length-append, Option, none, some, Option-cases, Bool-cases, ◌≡◌,
  refl, inl, inr, ap, ◌∙◌, if◌then◌else◌, arith,
}
use meta_ffi_project.Utils.{Bytes}
use meta_ffi_project.Utils.Env.{
  System, Found, match_here, regex_search, substitute, expand_loop, is_cwd, c_str, or_else,
}
use meta_ffi_project.Utils.Plain.{
  All, is_plain, regex_search-plain, regex_search-none, expand_loop-none, expand_loop-some,
}

-- The text of a variable: the current directory for `CD` and `PWD`, in either case.
abbrev pub value : System → Bytes → Option Bytes
value sys name = if is_cwd name then some sys.getcwd else sys.getenv (c_str name)

-- What stands for a reference: itself where the variable is not set.
abbrev pub reading : System → Bytes → Bytes → Bytes
reading sys text name = elim (value sys name) [ none ↦ text | some v ↦ v ]

-- What `boost::algorithm::replace_all` does where the text that it replaces occurs once.
abbrev pub ReplacesOnce : (Bytes → Bytes → Bytes → Bytes) → Type 0
ReplacesOnce replace_all =
    (before text behind v : Bytes)
    → 1 ≤ length text
    → ((a b : Bytes) → a ++ (text ++ b) ≡ before ++ (text ++ behind) → a ≡ before)
    → replace_all (before ++ (text ++ behind)) text v ≡ before ++ (v ++ behind)

-- A text that matches as a reference to a name, in front of another, and occurs there once.
pub record IsReference (text name behind : Bytes) : Type 0 where
  pub some_bytes : 1 ≤ length text
  pub matches :
      match_here (text ++ behind) ≡ some (record { name = name; text = text; suffix = behind })
  pub once :
      (before a b : Bytes)
      → All is_plain before
      → a ++ (text ++ b) ≡ before ++ (text ++ behind)
      → a ≡ before

no_match : (m : Found) → match_here [] ≡ some m → ⊥
unfolding match_here
no_match m e = cc

regex_search_here : (s : Bytes) (m : Found) → match_here s ≡ some m → regex_search s ≡ some m
unfolding regex_search
regex_search_here [] m e = absurd (no_match m e)
regex_search_here (c ∷ cs) m e = ap (λ o. or_else o (regex_search cs)) e

module _ (sys : System) (once : ReplacesOnce sys.replace_all) (before text name behind : Bytes)
    (hb : All is_plain before) (ha : All is_plain behind)
    (here : IsReference text name behind) where
  abbrev m : Found
  m = record { name = name; text = text; suffix = behind }

  abbrev whole : Bytes
  whole = before ++ (text ++ behind)

  replaced : (v : Bytes) → sys.replace_all whole text v ≡ before ++ (v ++ behind)
  replaced v = once before text behind v here.some_bytes λ a b. here.once before a b hb

  substitute_once : substitute sys m whole ≡ before ++ (reading sys text name ++ behind)
  unfolding substitute
  substitute_once = elim (Bool-cases (is_cwd name)) [
    | inl t ↦ rw (t, reading, value) (replaced sys.getcwd)
    | inr f ↦ elim (Option-cases (sys.getenv (c_str name))) [
      | inl e ↦ rw (f, e, reading, value) refl
      | inr (v, e) ↦ rw (f, e, reading, value) (replaced v)
    ]
  ]

  pub expand_loop_once :
      expand_loop sys (length whole + 1) whole whole
      ≡ some (before ++ (reading sys text name ++ behind))
  expand_loop_once =
      let enough = here.some_bytes in
      expand_loop-some sys (length whole) whole whole m (
        regex_search-plain before (text ++ behind) hb
        ∙ regex_search_here (text ++ behind) m here.matches)
      ∙ expand_loop-none sys (length whole) behind (substitute sys m whole)
          (omega (arith, length-append before (text ++ behind), length-append text behind))
          (regex_search-none behind ha)
      ∙ ap some substitute_once
