-- ===== src/Utils/Plain.antt =====
-- Texts without references in `expand_env` of plugin-sdk-main/utils/expand_env.cpp.
use meta_ffi_project.Shared.{
  ℕ, zero, suc, ◌+◌, ◌<◌, [], ◌∷◌, ◌++◌, length, codes, Option, none, some, Bool, true, false, not,
  ◌&&◌, ◌≡◌, refl, ◌∙◌, ◌==◌, arith,
}
use mathlib.Core.List.{append-nil}
use meta_ffi_project.Utils.{Bytes}
use meta_ffi_project.Utils.Env.{
  System, Found, match_here, regex_search, substitute, expand_loop, expand_env, span, literal,
  literal_byte, tolower, after, closed, started, in_percent,
}

-- Every byte passes the test.
abbrev pub All : (ℕ → Bool) → Bytes → Type 0
All p [] = Unit
All p (c ∷ cs) = (p c ≡ true) × All p cs

-- Neither of the bytes that a reference starts with.
abbrev pub is_plain : ℕ → Bool
is_plain c = not (c == b'%') && not (c == b'$')

pub literal_byte-none :
    (l c : ℕ) (o : Option (Bytes × Bytes))
    → (tolower l == tolower c) ≡ false
    → literal_byte l c o ≡ none
literal_byte-none l c none e = refl
literal_byte-none l c (some (read, rest)) e = rw e refl

literal-none :
    (l c : ℕ) (ls cs : Bytes) (next : Bytes → Bytes → Option Found)
    → (tolower l == tolower c) ≡ false
    → after (l ∷ ls) next (c ∷ cs) ≡ none
literal-none l c ls cs next e = rw (literal_byte-none l c (literal ls cs) e)

match_here-plain : (c : ℕ) (cs : Bytes) → is_plain c ≡ true → match_here (c ∷ cs) ≡ none
unfolding match_here
match_here-plain c cs h = rw (
  literal-none b'%' c [] cs (λ opening rest. closed b'%' opening (span in_percent rest))
      (ground arith),
  literal-none b'$' c (codes "ENV:") cs _ (ground arith),
  literal-none b'$' c [] cs started (ground arith),
  literal-none b'$' c (codes "{") cs _ (ground arith),
)

pub regex_search-plain : (p s : Bytes) → All is_plain p → regex_search (p ++ s) ≡ regex_search s
unfolding regex_search
regex_search-plain [] s h = refl
regex_search-plain (c ∷ cs) s (h, hs) =
    rw (match_here-plain c (cs ++ s) h, regex_search) (regex_search-plain cs s hs)

pub regex_search-none : (s : Bytes) → All is_plain s → regex_search s ≡ none
regex_search-none s h =
    rw (append-nil s) at (regex_search-plain s [] h) ∙ unfold regex_search in refl

module _ (sys : System) where
  pub expand_loop-none :
      (n : ℕ) (w res : Bytes) → 0 < n → regex_search w ≡ none → expand_loop sys n w res ≡ some res
  unfolding expand_loop
  expand_loop-none zero w res pos e = absurd (omega arith)
  expand_loop-none (suc n) w res pos e = rw (e, expand_loop) refl

  pub expand_loop-some :
      (n : ℕ) (w res : Bytes) (m : Found)
      → regex_search w ≡ some m
      → expand_loop sys (n + 1) w res ≡ expand_loop sys n m.suffix (substitute sys m res)
  unfolding expand_loop
  expand_loop-some n w res m e =
      let plus : n + 1 ≡ suc n = omega arith in rw (plus, e, expand_loop) refl

  -- A text that has neither `%` nor `$` is its own expansion.
  pub expand_env-plain : (s : Bytes) → All is_plain s → expand_env sys s ≡ some s
  unfolding expand_env
  expand_env-plain s h = expand_loop-none (length s + 1) s s (omega arith) (regex_search-none s h)

pub All-append : (p : ℕ → Bool) (s t : Bytes) → All p s → All p t → All p (s ++ t)
All-append p [] t h k = k
All-append p (c ∷ cs) t (h, hs) k = (h, All-append p cs t hs k)

pub All-weaken :
    (p q : ℕ → Bool) (s : Bytes) → ((c : ℕ) → p c ≡ true → q c ≡ true) → All p s → All q s
All-weaken p q [] w h = tt
All-weaken p q (c ∷ cs) w (h, hs) = (w c h, All-weaken p q cs w hs)
