-- ===== src/Utils/Spellings.antt =====
-- The spellings of a reference that `expand_env` of plugin-sdk-main/utils/expand_env.cpp knows.
use meta_ffi_project.Shared.{
  ℕ, [], ◌∷◌, ◌++◌, codes, none, Bool, true, false, ◌&&◌, ◌≡◌, refl, sym, ◌∙◌, arith,
}
use mathlib.Core.List.{append_assoc, head-eq_of_cons-eq, tail-eq_of_cons-eq}
use meta_ffi_project.Utils.{Bytes}
use meta_ffi_project.Utils.Env.{
  match_here, span, literal, followed, is_word, is_start, in_percent, in_braces,
}
use meta_ffi_project.Utils.Plain.{All, All-append, All-weaken, is_plain, literal_byte-none}
use meta_ffi_project.Utils.Reference.{IsReference}

span-run :
    (p : ℕ → Bool) (run : Bytes) (c : ℕ) (s : Bytes)
    → All p run
    → p c ≡ false
    → span p (run ++ c ∷ s) ≡ (run, c ∷ s)
span-run p [] c s h e = rw e refl
span-run p (r ∷ rs) c s (h, hs) e = rw (h, span-run p rs c s hs e) refl

followed-none :
    (opening : Bytes) (c : ℕ) (r : Bytes × Bytes) → is_start c ≡ false → followed opening c r ≡ none
followed-none opening c (n ∷ ns, rest) e = rw e refl
followed-none opening c ([], rest) e = refl

-- The text does not go on with a byte that passes the test.
abbrev pub Stops : (ℕ → Bool) → Bytes → Type 0
Stops p [] = Unit
Stops p (c ∷ cs) = p c ≡ false

pub span-stop :
    (p : ℕ → Bool) (run behind : Bytes)
    → All p run
    → Stops p behind
    → span p (run ++ behind) ≡ (run, behind)
span-stop p run (c ∷ cs) h stop = span-run p run c cs h stop
span-stop p [] [] h stop = refl
span-stop p (r ∷ rs) [] (h, hs) stop = rw (h, span-stop p rs [] hs tt) refl

module _ (q : ℕ) (special : is_plain q ≡ false) where
  inside : (a r : Bytes) → All is_plain (a ++ q ∷ r) → ⊥
  inside [] r (h, hs) = cc
  inside (x ∷ a) r (h, hs) = inside a r hs

  not_inside : (a r w : Bytes) → All is_plain w → a ++ q ∷ r ≡ w → ⊥
  not_inside a r w h e = inside a r (rw (sym e) at h)

  -- What starts with such a byte occurs once where it does not occur in what follows the byte.
  pub occurs_once :
      (before t behind a b : Bytes)
      → All is_plain before
      → ((a b : Bytes) → a ++ (q ∷ t ++ b) ≡ t ++ behind → ⊥)
      → a ++ (q ∷ t ++ b) ≡ before ++ (q ∷ t ++ behind)
      → a ≡ before
  occurs_once [] t behind [] b h never e = refl
  occurs_once [] t behind (x ∷ a) b h never e = absurd (never a b (tail-eq_of_cons-eq e))
  occurs_once (y ∷ before) t behind [] b (h, hs) never e =
      let e0 : q ≡ y = head-eq_of_cons-eq e in cc
  occurs_once (y ∷ before) t behind (x ∷ a) b (h, hs) never e =
      let rest = occurs_once before t behind a b hs never (tail-eq_of_cons-eq e) in
      let first : x ≡ y = head-eq_of_cons-eq e in rw (first, rest) refl

  pub plain_never :
      (t behind : Bytes)
      → All is_plain t
      → All is_plain behind
      → (a b : Bytes) → a ++ (q ∷ t ++ b) ≡ t ++ behind
      → ⊥
  plain_never t behind ht ha a b =
      not_inside a (t ++ b) (t ++ behind) (All-append is_plain t behind ht ha)

-- Where a `%` follows bytes of the class and a plain text follows it, it is the only one.
percent_end :
    (n behind a u : Bytes)
    → All in_percent n
    → All is_plain behind
    → a ++ b'%' ∷ u ≡ n ++ b'%' ∷ behind
    → u ≡ behind
percent_end [] behind [] u hn hp e = tail-eq_of_cons-eq e
percent_end [] behind (x ∷ a) u hn hp e =
    absurd (not_inside b'%' refl a u behind hp (tail-eq_of_cons-eq e))
percent_end (r ∷ rs) behind [] u (h, hs) hp e =
    let e0 : r ≡ b'%' = sym (head-eq_of_cons-eq e) in cc (rw e0 at h)
percent_end (r ∷ rs) behind (x ∷ a) u (h, hs) hp e =
    percent_end rs behind a u hs hp (tail-eq_of_cons-eq e)

percent_never :
    (n behind : Bytes)
    → All in_percent n
    → All is_plain behind
    → (a b : Bytes) → a ++ (b'%' ∷ (n ++ codes "%") ++ b) ≡ (n ++ codes "%") ++ behind
    → ⊥
percent_never n behind hn hp a b e = not_inside b'%' refl n b behind hp (
    sym (append_assoc n (codes "%") b)
    ∙ percent_end n behind a ((n ++ codes "%") ++ b) hn hp (e ∙ append_assoc n (codes "%") behind))

pub percents-IsReference :
    (n : ℕ) (ns behind : Bytes)
    → All in_percent (n ∷ ns)
    → All is_plain behind
    → IsReference (b'%' ∷ (n ∷ ns ++ codes "%")) (n ∷ ns) behind
unfolding match_here
percents-IsReference n ns behind hn hp = record {
  some_bytes = omega arith;
  matches =
      rw (append_assoc ns (codes "%") behind, span-run in_percent (n ∷ ns) b'%' behind hn refl)
        refl;
  once = λ before a b hb e.
      occurs_once b'%' refl before (n ∷ ns ++ codes "%") behind a b hb
        (percent_never (n ∷ ns) behind hn hp) e;
}

-- A name in braces has neither `}` nor the start of another reference.
abbrev pub in_name : ℕ → Bool
in_name c = in_braces c && is_plain c

in_name-plain : (c : ℕ) → in_name c ≡ true → is_plain c ≡ true
in_name-plain c h = ground arith

in_name-braces : (c : ℕ) → in_name c ≡ true → in_braces c ≡ true
in_name-braces c h = ground arith

pub is_word-plain : (c : ℕ) → is_word c ≡ true → is_plain c ≡ true
is_word-plain c h = ground arith

pub braced-IsReference :
    (n : ℕ) (ns behind : Bytes)
    → All in_name (n ∷ ns)
    → All is_plain behind
    → IsReference (codes "${" ++ (n ∷ ns ++ codes "}")) (n ∷ ns) behind
unfolding match_here
braced-IsReference n ns behind hn hp = record {
  some_bytes = omega arith;
  matches =
      rw
        (
          append_assoc ns (codes "}") behind,
          literal_byte-none b'E' b'{' (literal (codes "NV:") (n ∷ ns ++ b'}' ∷ behind)) refl,
          span-run in_braces (n ∷ ns) b'}' behind
              (All-weaken in_name in_braces (n ∷ ns) in_name-braces hn) refl,
          followed-none (codes "$") b'{' (span is_word (n ∷ ns ++ b'}' ∷ behind)) refl,
        )
        refl;
  once = λ before a b hb e.
      let ht =
        All-append is_plain (n ∷ ns) (codes "}")
          (All-weaken in_name is_plain (n ∷ ns) in_name-plain hn) (refl, tt) in
      occurs_once b'$' refl before (b'{' ∷ (n ∷ ns ++ codes "}")) behind a b hb
        (plain_never b'$' refl (b'{' ∷ (n ∷ ns ++ codes "}")) behind (refl, ht) hp) e;
}

pub env-IsReference :
    (n : ℕ) (ns behind : Bytes)
    → All is_word (n ∷ ns)
    → All is_plain behind
    → Stops is_word behind
    → IsReference (codes "$ENV:" ++ n ∷ ns) (n ∷ ns) behind
unfolding match_here
env-IsReference n ns behind hn hp stop = record {
  some_bytes = omega arith;
  matches = rw (span-stop is_word (n ∷ ns) behind hn stop) refl;
  once = λ before a b hb e.
      let ht = All-weaken is_word is_plain (n ∷ ns) is_word-plain hn in
      occurs_once b'$' refl before (codes "ENV:" ++ n ∷ ns) behind a b hb
        (plain_never b'$' refl (codes "ENV:" ++ n ∷ ns) behind (refl, (refl, (refl, (refl, ht))))
          hp)
        e;
}
