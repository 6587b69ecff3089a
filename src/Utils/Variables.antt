-- ===== src/Utils/Variables.antt =====
-- A variable in a text, in each of the spellings that `expand_env` of
-- plugin-sdk-main/utils/expand_env.cpp knows.
use meta_ffi_project.Shared.{
  ℕ, ◌≤◌, [], ◌∷◌, ◌++◌, length, codes, none, some, Bool, true, ◌||◌, ◌≡◌, refl, ap, ◌==◌, arith,
}
use meta_ffi_project.Utils.{Bytes}
use meta_ffi_project.Utils.Env.{
  System, match_here, expand_env, literal, literal_byte, is_word, is_start, in_percent,
}
use meta_ffi_project.Utils.Plain.{All, All-weaken, is_plain, literal_byte-none}
use meta_ffi_project.Utils.Reference.{reading, ReplacesOnce, IsReference, expand_loop_once}
use meta_ffi_project.Utils.Spellings.{
  Stops, span-stop, occurs_once, plain_never, is_word-plain, in_name, percents-IsReference,
  braced-IsReference, env-IsReference,
}

-- No byte that a longer name or the name `ENV:` would go on with.
abbrev pub goes_on : ℕ → Bool
goes_on c = is_word c || c == b':'

Stops-weaken : (behind : Bytes) → Stops goes_on behind → Stops is_word behind
Stops-weaken [] h = tt
Stops-weaken (c ∷ cs) h = ground arith

-- What is neither a letter nor a digit ends a literal that is a word and a colon.
literal-word :
    (l run behind : Bytes)
    → All is_word l
    → All is_word run
    → Stops goes_on behind
    → literal (l ++ codes ":") (run ++ behind) ≡ none
literal-word [] [] [] hl hr stop = refl
literal-word (x ∷ l) [] [] hl hr stop = refl
literal-word [] [] (c ∷ cs) hl hr stop = literal_byte-none b':' c (some ([], cs)) (ground arith)
literal-word (x ∷ l) [] (c ∷ cs) (h, hl) hr stop =
    literal_byte-none x c (literal (l ++ codes ":") cs) (ground arith)
literal-word [] (r ∷ rs) behind hl (h, hr) stop =
    literal_byte-none b':' r (some ([], rs ++ behind)) (ground arith)
literal-word (x ∷ l) (r ∷ rs) behind (h, hl) (k, hr) stop =
    ap (literal_byte x r) (literal-word l rs behind hl hr stop)

bare-IsReference :
    (n n' : ℕ) (ns behind : Bytes)
    → is_start n ≡ true
    → All is_word (n' ∷ ns)
    → All is_plain behind
    → Stops goes_on behind
    → IsReference (b'$' ∷ (n ∷ n' ∷ ns)) (n ∷ n' ∷ ns) behind
unfolding match_here
bare-IsReference n n' ns behind h hn hp stop = record {
  some_bytes = omega arith;
  matches =
      rw
        (
          literal-word (codes "ENV") (n ∷ n' ∷ ns) behind (refl, (refl, (refl, tt)))
              (ground arith, hn) stop,
          span-stop is_word (n' ∷ ns) behind hn (Stops-weaken behind stop),
          h,
        )
        refl;
  once = λ before a b hb e.
      let ht = All-weaken is_word is_plain (n ∷ n' ∷ ns) is_word-plain (ground arith, hn) in
      occurs_once b'$' refl before (n ∷ n' ∷ ns) behind a b hb
        (plain_never b'$' refl (n ∷ n' ∷ ns) behind ht hp) e;
}

-- The alternatives of the regular expression, in their order.
pub data Spelling : Type 0 where
  percents : Spelling
  env : Spelling
  bare : Spelling
  braced : Spelling

abbrev pub spelled : Spelling → Bytes → Bytes
spelled Spelling.percents name = b'%' ∷ (name ++ codes "%")
spelled Spelling.env name = codes "$ENV:" ++ name
spelled Spelling.bare name = b'$' ∷ name
spelled Spelling.braced name = codes "${" ++ (name ++ codes "}")

-- At least two bytes, of which the first is no digit.
abbrev pub IsVariable : Bytes → Type 0
IsVariable [] = ⊥
IsVariable (n ∷ []) = ⊥
IsVariable (n ∷ n' ∷ ns) = (is_start n ≡ true) × All is_word (n' ∷ ns)

-- The names that a spelling takes in front of a text: a name without a bracket behind it ends with
-- the longest run of its class.
abbrev pub Takes : Spelling → Bytes → Bytes → Type 0
Takes Spelling.percents name behind = (1 ≤ length name) × All in_percent name
Takes Spelling.env name behind = (1 ≤ length name) × All is_word name × Stops is_word behind
Takes Spelling.bare name behind = IsVariable name × Stops goes_on behind
Takes Spelling.braced name behind = (1 ≤ length name) × All in_name name

spelled-IsReference :
    (k : Spelling) (name behind : Bytes)
    → All is_plain behind
    → Takes k name behind
    → IsReference (spelled k name) name behind
spelled-IsReference Spelling.percents [] behind hp (n, h) = absurd (omega arith)
spelled-IsReference Spelling.percents (n ∷ ns) behind hp (_, h) =
    percents-IsReference n ns behind h hp
spelled-IsReference Spelling.env [] behind hp (n, h, stop) = absurd (omega arith)
spelled-IsReference Spelling.env (n ∷ ns) behind hp (_, h, stop) =
    env-IsReference n ns behind h hp stop
spelled-IsReference Spelling.bare [] behind hp (v, stop) = absurd v
spelled-IsReference Spelling.bare (n ∷ []) behind hp (v, stop) = absurd v
spelled-IsReference Spelling.bare (n ∷ n' ∷ ns) behind hp ((h, hs), stop) =
    bare-IsReference n n' ns behind h hs hp stop
spelled-IsReference Spelling.braced [] behind hp (n, h) = absurd (omega arith)
spelled-IsReference Spelling.braced (n ∷ ns) behind hp (_, h) = braced-IsReference n ns behind h hp

-- A text around one variable, in any spelling that takes its name, expands to the text around the
-- value of the variable: the current directory for `CD` and `PWD`, what `getenv` has for another
-- name, and the spelling as it stands where the variable is not set. The text before and behind has
-- neither `%` nor `$`, and `replace_all` replaces a text that occurs once.
pub expand_env-spelled :
    (sys : System) (k : Spelling) (before name behind : Bytes)
    → ReplacesOnce sys.replace_all
    → All is_plain before
    → All is_plain behind
    → Takes k name behind
    → expand_env sys (before ++ (spelled k name ++ behind))
      ≡ some (before ++ (reading sys (spelled k name) name ++ behind))
unfolding expand_env
expand_env-spelled sys k before name behind once hb hp takes =
    expand_loop_once sys once before (spelled k name) name behind hb hp
      (spelled-IsReference k name behind hp takes)
