-- ===== src/Utils/Env.antt =====
-- plugin-sdk-main/utils/expand_env.cpp: `iequals` and `expand_env`, with what its regular expression
-- matches. `std::regex` tries the alternatives in their order at each place, the leftmost first; no
-- class holds the byte that has to follow it, so that a greedy run of it never has to step back.
use meta_ffi_project.Shared.{
  ℕ, zero, suc, ◌+◌, [], ◌∷◌, ◌++◌, length, codes, Option, none, some, Bool, true, false, not, ◌&&◌,
  ◌||◌, leb, ◌==◌, if◌then◌else◌,
}
use meta_ffi_project.Utils.{Bytes}

-- What the code asks of the system and of Boost: `getenv`, the bytes that `getcwd` leaves in the
-- buffer before the first NUL, and `replace_all(input, search, value)`.
pub record System : Type 0 where
  pub getenv : Bytes → Option Bytes
  pub getcwd : Bytes
  pub replace_all : Bytes → Bytes → Bytes → Bytes

abbrev pub tolower : ℕ → ℕ
tolower c = if leb 65 c && leb c 90 then c + 32 else c

unfoldable pub iequals : Bytes → Bytes → Bool
iequals [] [] = true
iequals [] (d ∷ ds) = false
iequals (c ∷ cs) [] = false
iequals (c ∷ cs) (d ∷ ds) = let same = iequals cs ds in tolower c == tolower d && same

abbrev pub is_one_of : Bytes → ℕ → Bool
is_one_of [] c = false
is_one_of (b ∷ bs) c = b == c || is_one_of bs c

-- `[A-Z]`, in either case
abbrev pub is_letter : ℕ → Bool
is_letter c = (leb 65 c && leb c 90) || (leb 97 c && leb c 122)

-- `[A-Z_]`
abbrev pub is_start : ℕ → Bool
is_start c = is_letter c || c == b'_'

-- `[A-Z0-9_]`
abbrev pub is_word : ℕ → Bool
is_word c = is_start c || (leb 48 c && leb c 57)

-- The class between the two `%`.
abbrev pub in_percent : ℕ → Bool
in_percent c = is_word c || is_one_of (codes "(){}[]$*+\\/\"#',;.!@?-") c

-- `[^}]`
abbrev pub in_braces : ℕ → Bool
in_braces c = not (c == b'}')

-- The name of a variable (the group that matched), the whole match, and what is behind it.
pub record Found : Type 0 where
  pub name : Bytes
  pub text : Bytes
  pub suffix : Bytes

-- A greedy run of a class, and what is behind it.
abbrev pub span : (ℕ → Bool) → Bytes → Bytes × Bytes
span p [] = ([], [])
span p (c ∷ cs) = let (run, rest) = span p cs in if p c then (c ∷ run, rest) else ([], c ∷ cs)

-- One byte of a literal, in either case, before the rest of it.
abbrev pub literal_byte : ℕ → ℕ → Option (Bytes × Bytes) → Option (Bytes × Bytes)
literal_byte l c none = none
literal_byte l c (some (read, rest)) =
    if tolower l == tolower c then some (c ∷ read, rest) else none

-- A literal: the bytes that match it, and what is behind them.
abbrev pub literal : Bytes → Bytes → Option (Bytes × Bytes)
literal [] s = some ([], s)
literal (l ∷ ls) [] = none
literal (l ∷ ls) (c ∷ cs) = literal_byte l c (literal ls cs)

-- The end of a match: a name of at least one byte, and the byte that closes it.
abbrev pub closed : ℕ → Bytes → Bytes × Bytes → Option Found
closed q opening (n ∷ ns, c ∷ rest) =
    if c == q
    then some (record { name = n ∷ ns; text = opening ++ n ∷ ns ++ c ∷ []; suffix = rest })
    else none
closed q opening (n ∷ ns, []) = none
closed q opening ([], rest) = none

abbrev pub unclosed : Bytes → Bytes × Bytes → Option Found
unclosed opening (n ∷ ns, rest) =
    some (record { name = n ∷ ns; text = opening ++ n ∷ ns; suffix = rest })
unclosed opening ([], rest) = none

abbrev pub followed : Bytes → ℕ → Bytes × Bytes → Option Found
followed opening c (n ∷ ns, rest) =
    if is_start c
    then some (record { name = c ∷ n ∷ ns; text = opening ++ c ∷ n ∷ ns; suffix = rest })
    else none
followed opening c ([], rest) = none

-- One byte of a class, and at least one of the class that follows.
abbrev pub started : Bytes → Bytes → Option Found
started opening [] = none
started opening (c ∷ cs) = followed opening c (span is_word cs)

abbrev pub continued : (Bytes → Bytes → Option Found) → Option (Bytes × Bytes) → Option Found
continued next none = none
continued next (some (opening, rest)) = next opening rest

-- What follows a literal.
abbrev pub after : Bytes → (Bytes → Bytes → Option Found) → Bytes → Option Found
after l next s = continued next (literal l s)

-- `%(…)%`
abbrev pub percent : Bytes → Option Found
percent = after (codes "%") (λ opening rest. closed b'%' opening (span in_percent rest))

-- `$ENV:(…)`
abbrev pub dollar_env : Bytes → Option Found
dollar_env = after (codes "$ENV:") (λ opening rest. unclosed opening (span is_word rest))

-- `$(…)`
abbrev pub dollar : Bytes → Option Found
dollar = after (codes "$") started

-- `${(…)}`
abbrev pub braces : Bytes → Option Found
braces = after (codes "${") (λ opening rest. closed b'}' opening (span in_braces rest))

abbrev pub or_else : Option Found → Option Found → Option Found
or_else (some f) other = some f
or_else none other = other

unfoldable pub match_here : Bytes → Option Found
match_here s = or_else (percent s) (or_else (dollar_env s) (or_else (dollar s) (braces s)))

unfoldable pub regex_search : Bytes → Option Found
regex_search [] = none
regex_search (c ∷ cs) = let later = regex_search cs in or_else (match_here (c ∷ cs)) later

-- The bytes before the first NUL.
abbrev pub c_str : Bytes → Bytes
c_str [] = []
c_str (c ∷ cs) = let rest = c_str cs in if c == 0 then [] else c ∷ rest

abbrev pub is_cwd : Bytes → Bool
is_cwd name =
    (length name == 2 && iequals name (codes "CD"))
    || (length name == 3 && iequals name (codes "PWD"))

module _ (sys : System) where
  -- The body of the loop.
  unfoldable pub substitute : Found → Bytes → Bytes
  substitute m res =
      if is_cwd m.name
      then sys.replace_all res m.text sys.getcwd
      else elim (sys.getenv (c_str m.name)) [
        | none ↦ res
        | some tmp ↦ sys.replace_all res m.text tmp
      ]

  -- The loop over `working_copy_str`, on fuel.
  unfoldable pub expand_loop : ℕ → Bytes → Bytes → Option Bytes
  expand_loop zero working_copy_str res = none
  expand_loop (suc n) working_copy_str res = elim (regex_search working_copy_str) [
    | none ↦ some res
    | some m ↦ expand_loop n m.suffix (substitute m res)
  ]

  -- Every match takes a byte at least: the length of the text is fuel enough.
  unfoldable pub expand_env : Bytes → Option Bytes
  expand_env str = expand_loop (length str + 1) str str
