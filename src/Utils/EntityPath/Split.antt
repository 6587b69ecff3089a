-- ===== src/Utils/EntityPath/Split.antt =====
-- What plugin-sdk-main/utils/entity_path_parser.cpp relies on in `boost::split`.
use meta_ffi_project.Shared.{
  ℕ, ◌+◌, List, [], ◌∷◌, ◌++◌, length, Bool, true, not, Bool-cases, ◌≡◌, refl, inl, inr, ◌==◌,
  ==_iff, if◌then◌else◌, arith,
}
use meta_ffi_project.Utils.{Bytes}
use meta_ffi_project.Utils.Plain.{All}

abbrev pub is_not : ℕ → ℕ → Bool
is_not sep c = not (c == sep)

-- A text without the separator is one token, and a token ends at the first separator.
pub record Splits (split : ℕ → Bytes → List Bytes) : Type 0 where
  pub token : (sep : ℕ) (t : Bytes) → All (is_not sep) t → split sep t ≡ t ∷ []
  pub first :
      (sep : ℕ) (t rest : Bytes)
      → All (is_not sep) t
      → split sep (t ++ sep ∷ rest) ≡ t ∷ split sep rest

-- A text as its tokens.
pub data Tokens (sep : ℕ) : Bytes → Type 0 where
  one : {t : Bytes} → All (is_not sep) t → Tokens sep t
  more : (t rest : Bytes) → All (is_not sep) t → Tokens sep rest → Tokens sep (t ++ sep ∷ rest)

Tokens-before : (sep c : ℕ) (s : Bytes) → is_not sep c ≡ true → Tokens sep s → Tokens sep (c ∷ s)
Tokens-before sep c s n (Tokens.one h) = Tokens.one (n, h)
Tokens-before sep c _ n (Tokens.more t rest h later) = Tokens.more (c ∷ t) rest (n, h) later

pub tokens : (sep : ℕ) (s : Bytes) → Tokens sep s
tokens sep [] = Tokens.one tt
tokens sep (c ∷ cs) = elim (Bool-cases (c == sep)) [
  | inl t ↦ rw ((==_iff c sep).0 t) (Tokens.more [] cs tt (tokens sep cs))
  | inr f ↦ Tokens-before sep c cs (ground arith) (tokens sep cs)
]

abbrev pub count : ℕ → Bytes → ℕ
count b [] = 0
count b (c ∷ cs) = (if c == b then 1 else 0) + count b cs

count-none : (b : ℕ) (s : Bytes) → All (is_not b) s → count b s ≡ 0
count-none b [] h = refl
count-none b (c ∷ cs) (h, hs) = ground (arith, count-none b cs hs)

count-append : (b : ℕ) (s t : Bytes) → count b (s ++ t) ≡ count b s + count b t
count-append b [] t = omega arith
count-append b (c ∷ cs) t = omega (arith, count-append b cs t)

module _ (split : ℕ → Bytes → List Bytes) (splits : Splits split) where
  Tokens-length : (sep : ℕ) (s : Bytes) → Tokens sep s → length (split sep s) ≡ count sep s + 1
  Tokens-length sep s (Tokens.one h) = rw (splits.token sep s h) (omega (arith, count-none sep s h))
  Tokens-length sep _ (Tokens.more t rest h later) = rw (splits.first sep t rest h) (
      ground
        (arith, count-none sep t h, count-append sep t (sep ∷ rest), Tokens-length sep rest later))

  -- There is one token more than there are separators.
  pub length-split : (sep : ℕ) (s : Bytes) → length (split sep s) ≡ count sep s + 1
  length-split sep s = Tokens-length sep s (tokens sep s)
