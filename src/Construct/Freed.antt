-- ===== src/Construct/Freed.antt =====
-- Values that a construction gives can be freed.
use mathlib.Core.List.{Perm}
use meta_ffi_project.Shared.{
  ℕ, suc, ◌≡◌, refl, Bool, true, false, List, [], ◌∷◌, ◌++◌, Option, some, ap, sym, ◌∙◌, ◌==◌,
  ==_iff,
}
use meta_ffi_project.Shared.Int.{ℤ}
use meta_ffi_project.Types.{Kind, code, has_array, with_array, kind_of}
use meta_ffi_project.Types.Flags.{kind_of_sound, kind_of-code, has_array-code, has_array-with_array}
use meta_ffi_project.Traverse.Events.{Common, IsCommon, array_of}
use meta_ffi_project.Cdts.{Cdt, cdt, word, array_val, cdts, Items, nil, cons, count}
use meta_ffi_project.Cdts.Memory.{
  Release, elements, array, both, is_clear, once, releases, destroys, destroys_backward,
  destroys_forward, free_word, free, freed,
}
use meta_ffi_project.Cdts.Once.{released, pointers, cdt_lem, free-pointers}
use meta_ffi_project.Cdts.Apart.{is_clear-Perm, is_clear-released}
use meta_ffi_project.Construct.Values.{kept-IsCommon, IsConstructible, AreConstructible}
use meta_ffi_project.Construct.Typed.{
  IsTyped, AreTyped, single, nothing, several, none_left, one_more,
}
use meta_ffi_project.Construct.Scans.{member-IsElement}

has_array-array_of : (common : Common) → IsCommon common → has_array (array_of common) ≡ true
unfolding has_array with_array
has_array-array_of Common.unsaid h = refl
has_array-array_of Common.dynamic h = refl
has_array-array_of (Common.shared k) h = has_array-with_array k h

abbrev Some : Option (List Release) → Type 0
Some o = (r : List Release) × (o ≡ some r)

Some-both : (o q : Option (List Release)) → Some o → Some q → Some (both o q)
Some-both o q (a, h) (b, k) = (a ++ b, rw (h, k) refl)

leaf_frees :
    (k : Kind) (w : ℕ) (fr : Bool)
    → has_array (code k) ≡ false
    → Some (destroys (cdt (code k) (word w) fr))
unfolding destroys
leaf_frees k w true h = ((free_word (kind_of (code k)) w).1, rw h refl)
leaf_frees k w false h = ([], refl)

several_frees :
    (ty len : ℕ) (arr : Items) (dims : ℤ) (cache : Bool)
    → has_array ty ≡ true
    → len ≡ count arr
    → Some (destroys_backward arr)
    → Some (destroys_forward arr)
    → Some (destroys (cdt ty (array_val (cdts len arr dims cache)) true))
unfolding destroys
several_frees ty len nil dims cache h n b f = (array ∷ [], rw h refl)
several_frees ty len (cons c rest) dims false h n (r, b) f =
    ((r ++ (elements (suc (count rest)) ∷ [])) ++ (array ∷ []), rw (h, b) refl)
several_frees ty len (cons c rest) dims true h n b (r, f) =
    let whole : (len == suc (count rest)) ≡ true = (==_iff len (suc (count rest))).1 n in
    (r ++ (array ∷ []), rw (h, whole, f) refl)

mutual
  unfolding destroys

  frees_lem : {c : Cdt} → IsTyped c → Some (destroys c)
  frees_lem (single {ty = ty} {w = w} {fr = fr} k e h) =
      rw (kind_of_sound ty k e) (leaf_frees k w fr (has_array-code k (member-IsElement k w fr h)))
  frees_lem (nothing e) = ([], refl)
  frees_lem (several {ty = ty} {len = len} {arr = arr} {dims = dims} {cache = cache} e n parts) =
      several_frees ty len arr dims cache e n (frees_backward parts) (frees_forward parts)

  frees_backward : {arr : Items} → AreTyped arr → Some (destroys_backward arr)
  frees_backward none_left = ([], refl)
  frees_backward (one_more {c = c} {rest = rest} t ts) =
      Some-both (destroys_backward rest) (destroys c) (frees_backward ts) (frees_lem t)

  frees_forward : {arr : Items} → AreTyped arr → Some (destroys_forward arr)
  frees_forward none_left = ([], refl)
  frees_forward (one_more {c = c} {rest = rest} t ts) =
      Some-both (destroys c) (destroys_forward rest) (frees_lem t) (frees_forward ts)

-- The value owns no string and no callable twice, and none at the address of a handle that it owns.
abbrev pub OwnsOnce : Cdt → Type 0
OwnsOnce c = is_clear (pointers c) ≡ true

-- What freeing a value without a fault releases: the strings, handles and callables that it owns,
-- each as often as it owns it.
abbrev pub IsFreed : Cdt → Type 0
IsFreed c = (r : List Release) × (free c ≡ some (freed c, r)) × Perm (released r) (pointers c)

-- Where the destructors run, and nothing is released twice.
clear-releases :
    (c : Cdt) (r : List Release) → destroys c ≡ some r → is_clear r ≡ true → releases c ≡ some r
unfolding releases once
clear-releases c r h clear = rw (h, clear) refl

pub free-IsTyped : (c : Cdt) → IsTyped c → OwnsOnce c → IsFreed c
free-IsTyped c t clear =
    let (r, h) = frees_lem t in
    let clear_r =
      sym (is_clear-released r) ∙ is_clear-Perm (released r) (pointers c) (cdt_lem c r h) ∙ clear in
    let (frees, owned) = free-pointers c r (clear-releases c r h clear_r) in (r, frees, owned)

mutual
  constructible-IsTyped : {c : Cdt} → IsConstructible c → IsTyped c
  constructible-IsTyped (IsConstructible.leaf k e h) = single k (ap kind_of e ∙ kind_of-code k) h
  constructible-IsTyped (IsConstructible.branch common e h n shape parts) =
      several (ap has_array e ∙ has_array-array_of common (kept-IsCommon common h)) refl
        (constructible-AreTyped parts)

  constructible-AreTyped : {arr : Items} → AreConstructible arr → AreTyped arr
  constructible-AreTyped AreConstructible.none_left = none_left
  constructible-AreTyped (AreConstructible.one_more t ts) =
      one_more (constructible-IsTyped t) (constructible-AreTyped ts)

-- A value that a construction can give, and that owns nothing twice, is freed without a step that has
-- no meaning, and what is released are the strings, handles and callables that it owns.
pub free-IsConstructible : (c : Cdt) → IsConstructible c → OwnsOnce c → IsFreed c
free-IsConstructible c t clear = free-IsTyped c (constructible-IsTyped t) clear
