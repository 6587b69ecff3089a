-- ===== src/Utils/Search.antt =====
-- What `std::regex_search` finds in plugin-sdk-main/utils/expand_env.cpp.
use meta_ffi_project.Shared.{
  ℕ, suc, ◌≤◌, ◌<◌, [], ◌∷◌, ◌++◌, length, length-append, codes, Option, none, some, Bool,
  Bool-cases, ◌≡◌, refl, inl, inr, ap, ◌∙◌, ◌==◌, arith,
}
use mathlib.Core.List.{append_assoc}
use meta_ffi_project.Utils.{Bytes}
use meta_ffi_project.Utils.Env.{
  Found, tolower, span, literal, literal_byte, closed, unclosed, continued, followed, started,
  after, percent, dollar_env, dollar, braces, or_else, match_here, regex_search, is_word, is_start,
  in_percent, in_braces,
}

-- A match is not empty, and it is followed by its suffix.
abbrev pub Splits : Bytes → Option Found → Type 0
Splits s none = Unit
Splits s (some m) = (m.text ++ m.suffix ≡ s) × (1 ≤ length m.text)

span-append : (p : ℕ → Bool) (s : Bytes) → (span p s).0 ++ (span p s).1 ≡ s
span-append p [] = refl
span-append p (c ∷ cs) = elim (Bool-cases (p c)) [
  | inl t ↦ rw t (ap (◌∷◌ c) (span-append p cs))
  | inr f ↦ rw f
]

abbrev Reads : Bytes → Bytes → Option (Bytes × Bytes) → Type 0
Reads l s none = Unit
Reads l s (some (read, rest)) = (read ++ rest ≡ s) × (length read ≡ length l)

literal_byte-Reads :
    (l c : ℕ) (ls cs : Bytes) (o : Option (Bytes × Bytes))
    → Reads ls cs o
    → Reads (l ∷ ls) (c ∷ cs) (literal_byte l c o)
literal_byte-Reads l c ls cs none h = tt
literal_byte-Reads l c ls cs (some (read, rest)) (e, n) =
    elim (Bool-cases (tolower l == tolower c)) [
      | inl t ↦ rw t (ap (◌∷◌ c) e, ap suc n)
      | inr f ↦ rw f tt
    ]

literal-Reads : (l s : Bytes) → Reads l s (literal l s)
literal-Reads [] s = (refl, refl)
literal-Reads (l ∷ ls) [] = tt
literal-Reads (l ∷ ls) (c ∷ cs) = literal_byte-Reads l c ls cs (literal ls cs) (literal-Reads ls cs)

closed-Splits :
    (q : ℕ) (opening : Bytes) (r : Bytes × Bytes)
    → Splits (opening ++ (r.0 ++ r.1)) (closed q opening r)
closed-Splits q opening (n ∷ ns, c ∷ rest) = elim (Bool-cases (c == q)) [
  | inl t ↦ rw t (
    append_assoc (opening ++ n ∷ ns) (c ∷ []) rest ∙ append_assoc opening (n ∷ ns) (c ∷ rest),
    omega (arith, length-append (opening ++ n ∷ ns) (c ∷ [])),
  )
  | inr f ↦ rw f tt
]
closed-Splits q opening (n ∷ ns, []) = tt
closed-Splits q opening ([], rest) = tt

unclosed-Splits :
    (opening : Bytes) (r : Bytes × Bytes) → Splits (opening ++ (r.0 ++ r.1)) (unclosed opening r)
unclosed-Splits opening (n ∷ ns, rest) =
    (append_assoc opening (n ∷ ns) rest, omega (arith, length-append opening (n ∷ ns)))
unclosed-Splits opening ([], rest) = tt

followed-Splits :
    (opening : Bytes) (c : ℕ) (r : Bytes × Bytes)
    → Splits (opening ++ (c ∷ (r.0 ++ r.1))) (followed opening c r)
followed-Splits opening c (n ∷ ns, rest) = elim (Bool-cases (is_start c)) [
  | inl t ↦
      rw t
        (append_assoc opening (c ∷ n ∷ ns) rest, omega (arith, length-append opening (c ∷ n ∷ ns)))
  | inr f ↦ rw f tt
]
followed-Splits opening c ([], rest) = tt

started-Splits : (opening s : Bytes) → Splits (opening ++ s) (started opening s)
started-Splits opening [] = tt
started-Splits opening (c ∷ cs) =
    rw (span-append is_word cs) at (followed-Splits opening c (span is_word cs))

continued-Splits :
    (l : Bytes) (next : Bytes → Bytes → Option Found)
    → ((opening rest : Bytes) → Splits (opening ++ rest) (next opening rest))
    → (s : Bytes) (o : Option (Bytes × Bytes)) → Reads l s o
    → Splits s (continued next o)
continued-Splits l next h s none r = tt
continued-Splits l next h s (some (opening, rest)) (whole, _) = rw whole at (h opening rest)

after-Splits :
    (l : Bytes) (next : Bytes → Bytes → Option Found)
    → ((opening rest : Bytes) → Splits (opening ++ rest) (next opening rest))
    → (s : Bytes) → Splits s (after l next s)
after-Splits l next h s = continued-Splits l next h s (literal l s) (literal-Reads l s)

percent-Splits : (s : Bytes) → Splits s (percent s)
percent-Splits = after-Splits (codes "%") _ λ opening rest.
    rw (span-append in_percent rest) at (closed-Splits b'%' opening (span in_percent rest))

dollar_env-Splits : (s : Bytes) → Splits s (dollar_env s)
dollar_env-Splits =
    after-Splits (codes "$ENV:") _
      λ opening rest. rw (span-append is_word rest) at (unclosed-Splits opening (span is_word rest))

dollar-Splits : (s : Bytes) → Splits s (dollar s)
dollar-Splits = after-Splits (codes "$") started started-Splits

braces-Splits : (s : Bytes) → Splits s (braces s)
braces-Splits = after-Splits (codes "${") _ λ opening rest.
    rw (span-append in_braces rest) at (closed-Splits b'}' opening (span in_braces rest))

or_else-Splits :
    (s : Bytes) (o o' : Option Found) → Splits s o → Splits s o' → Splits s (or_else o o')
or_else-Splits s none o' h h' = h'
or_else-Splits s (some m) o' h h' = h

pub match_here-Splits : (s : Bytes) → Splits s (match_here s)
unfolding match_here
match_here-Splits s = or_else-Splits s _ _ (percent-Splits s) (
    or_else-Splits s _ _ (dollar_env-Splits s)
      (or_else-Splits s _ _ (dollar-Splits s) (braces-Splits s)))

-- Where the search finds a match: behind some bytes at whose places nothing matches.
pub data Leftmost (m : Found) : Bytes → Type 0 where
  here : {s : Bytes} → match_here s ≡ some m → Leftmost m s
  later : {c : ℕ} {cs : Bytes} → match_here (c ∷ cs) ≡ none → Leftmost m cs → Leftmost m (c ∷ cs)

-- No place of the text has a match.
pub data Nowhere : Bytes → Type 0 where
  empty : Nowhere []
  next : {c : ℕ} {cs : Bytes} → match_here (c ∷ cs) ≡ none → Nowhere cs → Nowhere (c ∷ cs)

abbrev pub Searches : Bytes → Option Found → Type 0
Searches s none = Nowhere s
Searches s (some m) = Leftmost m s

or_else-Searches :
    (c : ℕ) (cs : Bytes) (o : Option Found)
    → match_here (c ∷ cs) ≡ o
    → (o' : Option Found) → Searches cs o'
    → Searches (c ∷ cs) (or_else o o')
or_else-Searches c cs none e none h = Nowhere.next e h
or_else-Searches c cs none e (some m) h = Leftmost.later e h
or_else-Searches c cs (some m) e o' h = Leftmost.here e

pub regex_search-Searches : (s : Bytes) → Searches s (regex_search s)
unfolding regex_search
regex_search-Searches [] = Nowhere.empty
regex_search-Searches (c ∷ cs) =
    or_else-Searches c cs (match_here (c ∷ cs)) refl (regex_search cs) (regex_search-Searches cs)

pub Leftmost-shorter : (m : Found) (s : Bytes) → Leftmost m s → length m.suffix < length s
Leftmost-shorter m s (Leftmost.here e) =
    let (whole, some_bytes) : Splits s (some m) = rw e at (match_here-Splits s) in
    omega (arith, ap length whole, length-append m.text m.suffix)
Leftmost-shorter m _ (Leftmost.later {cs} e l) = omega (arith, Leftmost-shorter m cs l)
