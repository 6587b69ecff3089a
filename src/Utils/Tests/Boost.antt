-- ===== src/Utils/Tests/Boost.antt =====
-- `boost::split` and `boost::algorithm::replace_all` as their documentation has them, for the runs.
use meta_ffi_project.Shared.{
  ℕ, zero, suc, ◌-◌, List, [], ◌∷◌, ◌++◌, length, Bool, true, false, ◌&&◌, Bool-cases, ◌≡◌, refl,
  inl, inr, ap, ◌∙◌, ◌==◌, ==_iff, if◌then◌else◌, arith,
}
use mathlib.Core.List.{append_assoc, tail-eq_of_cons-eq, cons≢nil, nil≢cons}
use meta_ffi_project.Utils.{Bytes}
use meta_ffi_project.Utils.Plain.{All}
use meta_ffi_project.Utils.Reference.{ReplacesOnce}
use meta_ffi_project.Utils.EntityPath.Split.{Splits, is_not}

abbrev grow : ℕ → List Bytes → List Bytes
grow c [] = (c ∷ []) ∷ []
grow c (t ∷ ts) = (c ∷ t) ∷ ts

abbrev pub split : ℕ → Bytes → List Bytes
split sep [] = [] ∷ []
split sep (c ∷ cs) = let rest = split sep cs in if c == sep then [] ∷ rest else grow c rest

split-token : (sep : ℕ) (t : Bytes) → All (is_not sep) t → split sep t ≡ t ∷ []
split-token sep [] h = refl
split-token sep (c ∷ cs) (h, hs) =
    let other : (c == sep) ≡ false = ground arith in rw (other, split-token sep cs hs) refl

split-first :
    (sep : ℕ) (t rest : Bytes)
    → All (is_not sep) t
    → split sep (t ++ sep ∷ rest) ≡ t ∷ split sep rest
split-first sep [] rest h = let e : (sep == sep) ≡ true = ground arith in rw e refl
split-first sep (c ∷ cs) rest (h, hs) =
    let other : (c == sep) ≡ false = ground arith in rw (other, split-first sep cs rest hs) refl

pub split-Splits : Splits split
split-Splits = record { token = split-token; first = split-first }

abbrev starts : Bytes → Bytes → Bool
starts [] s = true
starts (t ∷ ts) [] = false
starts (t ∷ ts) (c ∷ cs) = let rest = starts ts cs in t == c && rest

-- Scans the input; the first number is how many bytes of an occurrence are still to be dropped.
replace : Bytes → Bytes → ℕ → Bytes → Bytes
replace text v n [] = []
replace text v (suc n) (c ∷ cs) = replace text v n cs
replace text v zero (c ∷ cs) =
    let rest = replace text v zero cs in
    let behind = replace text v (length text - 1) cs in
    if starts text (c ∷ cs) then v ++ behind else c ∷ rest

unfoldable pub replace_all : Bytes → Bytes → Bytes → Bytes
unfolding replace
replace_all input text v = replace text v zero input

starts_sound : (t s : Bytes) → starts t s ≡ true → (b : Bytes) × (t ++ b ≡ s)
starts_sound [] s h = (s, refl)
starts_sound (t ∷ ts) [] h = cc
starts_sound (t ∷ ts) (c ∷ cs) h = elim (Bool-cases (t == c)) [
  | inl e ↦
      let (b, r) = starts_sound ts cs (rw e at h) in
      (b, ap (◌∷◌ t) r ∙ ap (λ x. x ∷ cs) ((==_iff t c).0 e))
  | inr f ↦ cc (rw f at h)
]

starts-append : (t s : Bytes) → starts t (t ++ s) ≡ true
starts-append [] s = refl
starts-append (t ∷ ts) s = let e : (t == t) ≡ true = ground arith in rw (e, starts-append ts s) refl

module _ (text v : Bytes) where
  replace-skip : (t s : Bytes) → replace text v (length t) (t ++ s) ≡ replace text v zero s
  unfolding replace
  replace-skip [] s = refl
  replace-skip (c ∷ cs) s = replace-skip cs s

  replace-absent :
      (s : Bytes) → ((a b : Bytes) → a ++ (text ++ b) ≡ s → ⊥) → replace text v zero s ≡ s
  unfolding replace
  replace-absent [] never = refl
  replace-absent (c ∷ cs) never = elim (Bool-cases (starts text (c ∷ cs))) [
    | inl t ↦ let (b, e) = starts_sound text (c ∷ cs) t in absurd (never [] b e)
    | inr f ↦ rw f (ap (◌∷◌ c) (replace-absent cs (λ a b e. never (c ∷ a) b (ap (◌∷◌ c) e))))
  ]

replace_first :
    (before : Bytes) (t : ℕ) (ts after v : Bytes)
    → ((a b : Bytes) → a ++ (t ∷ ts ++ b) ≡ before ++ (t ∷ ts ++ after) → a ≡ before)
    → replace (t ∷ ts) v zero (before ++ (t ∷ ts ++ after)) ≡ before ++ (v ++ after)
unfolding replace
replace_first [] t ts after v once =
    let less : suc (length ts) - 1 ≡ length ts = omega arith in
    rw (starts-append (t ∷ ts) after, less, replace-skip (t ∷ ts) v ts after)
      (ap (◌++◌ v) (
        replace-absent (t ∷ ts) v after λ a b e.
          cons≢nil
            (once (t ∷ ts ++ a) b (append_assoc (t ∷ ts) a (t ∷ ts ++ b) ∙ ap (◌++◌ (t ∷ ts)) e))))
replace_first (c ∷ cs) t ts after v once =
    elim (Bool-cases (starts (t ∷ ts) (c ∷ (cs ++ (t ∷ ts ++ after))))) [
      | inl s ↦
          let (b, e) = starts_sound (t ∷ ts) (c ∷ (cs ++ (t ∷ ts ++ after))) s in
          absurd (nil≢cons (once [] b e))
      | inr f ↦ rw f (
          ap (◌∷◌ c) (
            replace_first cs t ts after v
              λ a b e. tail-eq_of_cons-eq (once (c ∷ a) b (ap (◌∷◌ c) e))))
    ]

pub replace_all-ReplacesOnce : ReplacesOnce replace_all
unfolding replace_all
replace_all-ReplacesOnce before [] after v n once = absurd (omega arith)
replace_all-ReplacesOnce before (t ∷ ts) after v n once = replace_first before t ts after v once
