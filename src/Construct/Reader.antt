-- ===== src/Construct/Reader.antt =====
-- Callbacks for a construction that read a value that is there already: for each index they answer
-- with the part at it. Constructing with them is a deep copy.
use meta_ffi_project.Shared.{
  ℕ, suc, Bool, false, not, List, [], ◌∷◌, ◌++◌, ◌≡◌, refl, Option, none, some, max,
}
use meta_ffi_project.Shared.Int.{ℤ, pos, negsuc, eq_ℤ}
use meta_ffi_project.Cdts.{
  Cdt, cdt, word, array_val, cdts, Items, nil, cons, type_of, count, default_cdt, nth,
}
use meta_ffi_project.Traverse.{common_type}
use meta_ffi_project.Construct.{TypeInfo, Metadata, Callbacks, construct_cdts_callbacks}

-- The elements of a value; of one that is no array, none.
abbrev pub parts : Cdt → Items
parts (cdt ty (word w) fr) = nil
parts (cdt ty (array_val (cdts len arr dims cache)) fr) = arr

abbrev pub chain : Option Cdt → (Cdt → Option Cdt) → Option Cdt
chain none f = none
chain (some c) f = f c

-- The part of a value at an index.
abbrev pub at : Cdt → List ℕ → Option Cdt
at c [] = some c
at c (i ∷ index) = chain (nth (parts c) i) (λ p. at p index)

abbrev pub look : Cdt → List ℕ → Cdt
look root index = elim (at root index) [ none ↦ default_cdt | some c ↦ c ]

abbrev pub number : Cdt → ℕ
number (cdt ty (word w) fr) = w
number (cdt ty (array_val a) fr) = 0

abbrev pub flag : Cdt → Bool
flag (cdt ty v fr) = fr

abbrev pub info : Cdt → TypeInfo
info (cdt ty (word w) fr) = record { type = ty; fixed_dimensions = negsuc 0 }
info (cdt ty (array_val (cdts len arr dims cache)) fr) = record {
  type = ty;
  fixed_dimensions = dims;
}

abbrev pub dimensions : Cdt → ℤ
dimensions (cdt ty (word w) fr) = negsuc 0
dimensions (cdt ty (array_val (cdts len arr dims cache)) fr) = dims

abbrev pub metadata : Cdt → Metadata
metadata c = record {
  array_length = count (parts c);
  is_fixed_dimension = not (eq_ℤ (dimensions c) (negsuc 0));
  is_1d_array = eq_ℤ (dimensions c) (pos 1);
  common_type = common_type (type_of c);
  is_manually_construct_array = false;
}

module _ {S : Type 0} (root : Cdt) where
  abbrev pub read : List ℕ → S → ℕ × S
  read index s = (number (look root index), s)

  abbrev pub read_owner : List ℕ → Bool → S → (ℕ × Bool) × S
  read_owner index fr s = ((number (look root index), flag (look root index)), s)

  abbrev pub reader : Callbacks S
  reader =
      construct_cdts_callbacks (some (λ index common s. (metadata (look root index), s))) none
        (some (λ s. (count (parts root), s))) (some (λ index s. (info (look root index), s)))
        (some read) (some read) (some read) (some read) (some read) (some read) (some read)
        (some read) (some read) (some read) (some read) (some read) (some read_owner) (some read)
        (some read_owner) (some read) (some read_owner) (some read_owner) (some read_owner)

-- How deep arrays are nested in a value.
abbrev mutual
  pub depth : Cdt → ℕ
  depth (cdt ty (word w) fr) = 0
  depth (cdt ty (array_val (cdts len arr dims cache)) fr) = suc (depths arr)

  pub depths : Items → ℕ
  depths nil = 0
  depths (cons c rest) = max (depth c) (depths rest)

chain-some : (o : Option Cdt) → chain o (λ c. some c) ≡ o
chain-some none = refl
chain-some (some c) = refl

chain_step :
    (o : Option Cdt) (f g k : Cdt → Option Cdt)
    → ((c : Cdt) → f c ≡ chain (g c) k)
    → chain o f ≡ chain (chain o g) k
chain_step none f g k h = refl
chain_step (some c) f g k h = h c

at-append :
    (root : Cdt) (index : List ℕ) (i : ℕ)
    → at root (index ++ (i ∷ [])) ≡ chain (at root index) (λ c. nth (parts c) i)
at-append root [] i = chain-some (nth (parts root) i)
at-append root (j ∷ index) i = chain_step (nth (parts root) j) _ _ _ (λ c. at-append c index i)

-- The part at the index of an element.
pub at-extend :
    (root : Cdt) (index : List ℕ) (c p : Cdt) (i : ℕ)
    → at root index ≡ some c
    → nth (parts c) i ≡ some p
    → at root (index ++ (i ∷ [])) ≡ some p
at-extend root index c p i e h = rw (at-append root index i, e) h
