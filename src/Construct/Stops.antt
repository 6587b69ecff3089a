-- ===== src/Construct/Stops.antt =====
-- Constructions of arrays that end at an element: the exception for an array in a 1D array, and the
-- read of an element that is no array as one.
use meta_ffi_project.Shared.{
  ℕ, suc, ◌+◌, ◌<◌, ◌≡◌, refl, Bool, true, false, not, List, [], ◌∷◌, ◌++◌, Option, none, some,
  ◌==◌, ◌∙◌, arith,
}
use meta_ffi_project.Shared.Int.{ℤ, pos, eq_ℤ}
use meta_ffi_project.Types.{Kind, code, has_array}
use meta_ffi_project.Cdts.{
  Cdt, cdt, word, array_val, cdts, Items, nil, cons, count, nth, type_of, default_cdt, new_items,
}
use meta_ffi_project.Traverse.Events.{Common, IsCommon, array_of}
use meta_ffi_project.Construct.{Outcome, built, thrown, fault, Error, nested_in_1d}
use meta_ffi_project.Construct.Shape.{mixed, int_min, start_dims, next_dims}
use meta_ffi_project.Construct.Run.{
  Construct, elements, any_info, construct_cdt, construct_item, type_info, construct_typed,
  construct_kind, construct_array_item, construct_array,
}
use meta_ffi_project.Types.Flags.{kind_of-code}
use meta_ffi_project.Traverse.Complete.{not_any, array_of-ne_any, type_to_use-array_of}
use meta_ffi_project.Construct.Reader.{at, at-extend, look, reader, depth, depths}
use meta_ffi_project.Construct.Values.{
  AreFlat, AreArrays, IsConstructible, AreConstructible, none_left, one_more, leaf, IsMember,
}
use meta_ffi_project.Construct.Scans.{
  Scans, done, test, Scans-flat, Scans-nested, two, full_type-array_of,
}
use meta_ffi_project.Construct.Copy.{copy_lem, construct_cdt-suc}

-- The elements before one that ends the construction, that one, and the ones behind.
unfoldable pub append : Items → Items → Items
append nil ys = ys
append (cons c xs) ys = cons c (append xs ys)

-- An end without a result: an exception, or none at all.
abbrev pub failed : {S A : Type 0} → Option Error → S → Outcome S A
failed none s = fault
failed (some e) s = thrown e s

round_fails :
    {S : Type 0} (element : Construct S) (is_1d : Bool) (p c : Cdt) (rest : Items) (index : List ℕ)
    (i : ℕ) (f : ℤ) (x : Option Error) (s : S)
    → element p (index ++ (i ∷ [])) s ≡ built c s
    → next_dims is_1d f c s ≡ failed x s
    → elements element is_1d (cons p rest) index i f s ≡ failed x s
unfolding elements
round_fails element is_1d p c rest index i f none s one next = rw (one, next) refl
round_fails element is_1d p c rest index i f (some e) s one next = rw (one, next) refl

round_passes :
    {S : Type 0} (element : Construct S) (is_1d : Bool) (p c : Cdt) (rest : Items) (index : List ℕ)
    (i : ℕ) (f g : ℤ) (x : Option Error) (s : S)
    → element p (index ++ (i ∷ [])) s ≡ built c s
    → next_dims is_1d f c s ≡ built g s
    → i + 1 < 2147483648
    → elements element is_1d rest index (i + 1) g s ≡ failed x s
    → elements element is_1d (cons p rest) index i f s ≡ failed x s
unfolding elements
round_passes element is_1d p c rest index i f g none s one next l more =
    let small : (i + 1 == 2147483648) ≡ false = ground arith in rw (one, next, small, more) refl
round_passes element is_1d p c rest index i f g (some e) s one next l more =
    let small : (i + 1 == 2147483648) ≡ false = ground arith in rw (one, next, small, more) refl

prefix_fails :
    {S : Type 0} {is_1d : Bool} {f g : ℤ} {good : Items} (ts : AreConstructible good)
    (scan : Scans S is_1d f good g) {bad : Cdt} (t : IsConstructible bad) (rest : Items)
    (x : Option Error) (root : Cdt) (index : List ℕ) (fuel i : ℕ) (s : S)
    → ((j : ℕ) (p : Cdt)
        → nth (append good (cons bad rest)) j ≡ some p
        → at root (index ++ ((i + j) ∷ [])) ≡ some p)
    → i + count good < 2147483647
    → depths good < fuel
    → depth bad < fuel
    → ((s' : S) → next_dims is_1d g bad s' ≡ failed x s')
    → elements
        (λ c to s'. construct_cdt fuel (reader root) c to any_info s')
        is_1d
        (new_items (count (append good (cons bad rest))))
        index
        i
        f
        s
      ≡ failed x s
unfolding append
prefix_fails none_left done {bad = bad} t rest x root index fuel i s e n l m last =
    let at_i : at root (index ++ (i ∷ [])) ≡ some bad =
      let same : i ≡ i + 0 = omega arith in rw same (e 0 bad refl) in
    round_fails _ _ default_cdt bad (new_items (count rest)) index i _ x s
      (copy_lem t root (index ++ (i ∷ [])) fuel s at_i m) (last s)
prefix_fails (one_more {c = c} {rest = more} u us) (test {f = f} {g = g} next scan) {bad = bad} t
      rest x root index fuel i s e n l m last =
    let at_i : at root (index ++ (i ∷ [])) ≡ some c =
      let same : i ≡ i + 0 = omega arith in rw same (e 0 c refl) in
    round_passes _ _ default_cdt c (new_items (count (append more (cons bad rest)))) index i f g x s
      (copy_lem u root (index ++ (i ∷ [])) fuel s at_i (omega arith)) (next s) (omega arith)
      (prefix_fails us scan t rest x root index fuel (i + 1) s
        (λ j p at_j. let same : i + 1 + j ≡ i + suc j = omega arith in rw same (e (suc j) p at_j))
        (omega arith) (omega arith) m last)

branch_fails :
    {S : Type 0} (element : Construct S) (root : Cdt) (common : Common) (arr : Items) (dims : ℤ)
    (index : List ℕ) (x : Option Error) (s : S)
    → look root index ≡ cdt (array_of common) (array_val (cdts (count arr) arr dims false)) true
    → IsCommon common
    → elements element
        (eq_ℤ dims (pos 1))
        (new_items (count arr))
        index
        0
        (start_dims (not (eq_ℤ dims mixed)))
        s
      ≡ failed x s
    → construct_item element (reader root) default_cdt index any_info s ≡ failed x s
unfolding construct_item type_info construct_typed construct_kind construct_array_item
    construct_array
branch_fails element root common arr dims index none s e h loop =
    rw
      (
        e,
        not_any (array_of common) (array_of-ne_any common h),
        full_type-array_of common dims h,
        type_to_use-array_of common h,
        kind_of-code Kind.array,
        e,
        loop,
      )
      refl
branch_fails element root common arr dims index (some err) s e h loop =
    rw
      (
        e,
        not_any (array_of common) (array_of-ne_any common h),
        full_type-array_of common dims h,
        type_to_use-array_of common h,
        kind_of-code Kind.array,
        e,
        loop,
      )
      refl

abbrev pub array_with : Common → Items → ℤ → Cdt
array_with common arr dims =
    cdt (array_of common) (array_val (cdts (count arr) arr dims false)) true

next-nested :
    {S : Type 0} (c : Cdt) (f : ℤ) (s : S)
    → has_array (type_of c) ≡ true
    → next_dims true f c s ≡ thrown nested_in_1d s
unfolding next_dims
next-nested (cdt ty v fr) f s h = rw h refl

next-member :
    {S : Type 0} (k : Kind) (w : ℕ) (fr : Bool) (f : ℤ) (s : S)
    → IsMember k w fr
    → eq_ℤ f mixed ≡ false
    → next_dims false f (cdt (code k) (word w) fr) s ≡ fault
unfolding next_dims
next-member k w fr f s h known = rw known refl

Scans-prefix :
    {S : Type 0} (good : Items) (n : ℕ)
    → AreArrays (pos (suc n)) good
    → (g : ℤ) × Scans S false int_min good g × (eq_ℤ g mixed ≡ false)
Scans-prefix nil n h = (int_min, done, refl)
Scans-prefix (cons c rest) n h = (pos (suc n), Scans-nested c rest n h, refl)

-- An array whose construction ends at one of its elements.
array_fails :
    {S : Type 0} {good : Items} {bad : Cdt} (common : Common) (dims : ℤ) (h : IsCommon common)
    {g : ℤ} (ts : AreConstructible good)
    (scan : Scans S (eq_ℤ dims (pos 1)) (start_dims (not (eq_ℤ dims mixed))) good g)
    (t : IsConstructible bad) (rest : Items) (x : Option Error) (fuel : ℕ) (s : S)
    → count good < 2147483647
    → depths good < fuel
    → depth bad < fuel
    → ((s' : S) → next_dims (eq_ℤ dims (pos 1)) g bad s' ≡ failed x s')
    → construct_cdt
        (suc fuel)
        (reader (array_with common (append good (cons bad rest)) dims))
        default_cdt
        []
        any_info
        s
      ≡ failed x s
array_fails {good = good} {bad = bad} common dims h ts scan t rest x fuel s n l m last =
    let arr = append good (cons bad rest) in
    let root = array_with common arr dims in
    construct_cdt-suc fuel (reader root) [] s
    ∙ branch_fails (λ c to s'. construct_cdt fuel (reader root) c to any_info s') root common arr
        dims [] x s refl h
        (prefix_fails ts scan t rest x root [] fuel 0 s
          (λ j p at_j.
            let same : 0 + j ≡ j = omega arith in rw same (at-extend root [] root p j refl at_j))
          (omega arith) l m last)

-- In an array that the callbacks call one-dimensional, the first element that is an array ends the
-- construction with the exception for it. The elements before are no arrays.
pub construct_cdt-nested_in_1d :
    {S : Type 0} {good : Items} {bad : Cdt} (common : Common) (h : IsCommon common)
    (ts : AreConstructible good) (flats : AreFlat good) (t : IsConstructible bad) (rest : Items)
    (fuel : ℕ) (s : S)
    → has_array (type_of bad) ≡ true
    → count good < 2147483647
    → depths good < fuel
    → depth bad < fuel
    → construct_cdt
        (suc fuel)
        (reader (array_with common (append good (cons bad rest)) (pos 1)))
        default_cdt
        []
        any_info
        s
      ≡ thrown nested_in_1d s
construct_cdt-nested_in_1d {good = good} {bad = bad} common h ts flats t rest fuel s array n l m =
    array_fails common (pos 1) h ts (Scans-flat good int_min flats) t rest (some nested_in_1d) fuel
      s n l m (λ s'. next-nested bad int_min s' array)

-- In an array that the callbacks call fixed and not one-dimensional, the first element that is no
-- array is read as the pointer to one, which has no meaning. The elements before are arrays of the
-- same dimensions.
pub construct_cdt-not_array :
    {S : Type 0} {good : Items} (common : Common) (h : IsCommon common) (n : ℕ)
    (ts : AreConstructible good) (arrays : AreArrays (pos (suc n)) good) (k : Kind) (w : ℕ)
    (fr : Bool) (member : IsMember k w fr) (rest : Items) (fuel : ℕ) (s : S)
    → count good < 2147483647
    → depths good < fuel
    → construct_cdt
        (suc fuel)
        (reader (
          array_with common
            (append good (cons (cdt (code k) (word w) fr) rest))
            (pos (suc (suc n)))))
        default_cdt
        []
        any_info
        s
      ≡ fault
construct_cdt-not_array {S = S} {good = good} common h n ts arrays k w fr member rest fuel s c l =
    let (g, scan, known) = Scans-prefix {S = S} good n arrays in
    array_fails common (pos (suc (suc n))) h {g = g} ts (rw (two n) scan) (leaf k refl member) rest
      none fuel s c l (omega arith) (λ s'. rw (two n) (next-member k w fr g s' member known))
