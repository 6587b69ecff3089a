-- ===== src/Construct/Typed.antt =====
-- Values whose unions hold what their types say, and steps that build nothing else.
use meta_ffi_project.Shared.{ℕ, zero, suc, ◌≡◌, refl, Bool, true, false, List, some, if◌then◌else◌}
use meta_ffi_project.Shared.Int.{ℤ}
use meta_ffi_project.Types.{Kind, has_array, kind_of}
use meta_ffi_project.Cdts.{
  Cdt, cdt, Value, word, array_val, Cdts, cdts, Items, nil, cons, count, new_items,
}
use meta_ffi_project.Construct.{Outcome, built, thrown, fault, spent, and_then, Callbacks}
use meta_ffi_project.Construct.Values.{IsMember}

-- A single value holds a member of its kind; a null value is not freed, whatever its union holds; an
-- array has as many elements as it says, and is freed.
mutual
  pub data IsTyped : Cdt → Type 0 where
    single :
        {ty w : ℕ} {fr : Bool} (k : Kind)
        → kind_of ty ≡ some k
        → IsMember k w fr
        → IsTyped (cdt ty (word w) fr)
    nothing : {ty : ℕ} {v : Value} → kind_of ty ≡ some Kind.null → IsTyped (cdt ty v false)
    several :
        {ty len : ℕ} {arr : Items} {dims : ℤ} {cache : Bool}
        → has_array ty ≡ true
        → len ≡ count arr
        → AreTyped arr
        → IsTyped (cdt ty (array_val (cdts len arr dims cache)) true)

  pub data AreTyped : Items → Type 0 where
    none_left : AreTyped nil
    one_more : {c : Cdt} {rest : Items} → IsTyped c → AreTyped rest → AreTyped (cons c rest)

abbrev pub IsFilled : Cdts → Type 0
IsFilled (cdts len arr dims cache) = (len ≡ count arr) × AreTyped arr

-- The callback that fills an array itself leaves one that is filled.
abbrev pub Fills : {S : Type 0} → Callbacks S → Type 0
Fills {S = S} cb =
    (f : List ℕ → Cdts → S → Cdts × S)
    → cb.construct_cdt_array ≡ some f
    → (index : List ℕ) (a : Cdts) (s : S) → IsFilled a
    → IsFilled ((f index a s).0)

-- Whatever is built has the property; the end of the fuel is possible as far as the type `X` has a
-- value.
abbrev pub Runs : {S A : Type 0} → Type 0 → (A → Type 0) → Outcome S A → Type 0
Runs X P (built a s) = P a
Runs X P spent = X
Runs X P _ = Unit

pub and_then-Runs :
    {S A B : Type 0} (X : Type 0) (P : A → Type 0) (Q : B → Type 0) (o : Outcome S A)
    (f : A → S → Outcome S B)
    → Runs X P o
    → ((a : A) (s : S) → P a → Runs X Q (f a s))
    → Runs X Q (and_then o f)
and_then-Runs X P Q (built a s) f h k = k a s h
and_then-Runs X P Q (thrown e s) f h k = tt
and_then-Runs X P Q fault f h k = tt
and_then-Runs X P Q spent f h k = h

pub if-Runs :
    {S A : Type 0} (X : Type 0) (P : A → Type 0) (b : Bool) (o o' : Outcome S A)
    → Runs X P o
    → Runs X P o'
    → Runs X P (if b then o else o')
if-Runs X P true o o' h h' = h
if-Runs X P false o o' h h' = h'

pub new_items-AreTyped : (n : ℕ) → AreTyped (new_items n)
unfolding kind_of
new_items-AreTyped zero = none_left
new_items-AreTyped (suc n) = one_more (nothing refl) (new_items-AreTyped n)
