-- ===== src/Construct/Sound.antt =====
-- What is known of an array that was built, whatever the callbacks answered.
use meta_ffi_project.Shared.{
  ℕ, zero, suc, ◌+◌, ◌≡◌, refl, ◌⊎◌, inl, inr, Bool, true, false, Bool-cases, List, [], ◌∷◌, ◌++◌,
  ◌==◌, ap, sym, ◌∙◌,
}
use meta_ffi_project.Shared.Int.{ℤ, pos, eq_ℤ, eq_ℤ_iff, succ}
use meta_ffi_project.Cdts.{Cdt, Cdts, cdts, Items, nil, cons, count, new_items}
use meta_ffi_project.Construct.{built, Callbacks}
use meta_ffi_project.Construct.Shape.{mixed, int_min, int64_max, start_dims, next_dims, final_dims}
use meta_ffi_project.Construct.Run.{Construct, elements, construct_array}
use meta_ffi_project.Construct.Values.{AreFlat}
use meta_ffi_project.Construct.Tested.{
  of_built, built-eq, parts_of, flat_lem, mixed_stays, next_lem, joins, AreOf,
}

-- So many elements, and either unknown dimensions or those of all elements.
abbrev Found : ℕ → ℤ → Items → ℤ → Type 0
Found n f arr g = (count arr ≡ n) × ((g ≡ mixed) ⊎ (AreOf g arr × ((f ≡ int_min) ⊎ (f ≡ g))))

Found-same :
    (n : ℕ) (f : ℤ) (arr arr' : Items) (g g' : ℤ)
    → arr ≡ arr'
    → g ≡ g'
    → Found n f arr g
    → Found n f arr' g'
Found-same n f arr arr' g g' p q h = rw (sym p, sym q) h

module _ {S : Type 0} (element : Construct S) where
  -- A round of the loop that gave a result.
  round_lem :
      (is_1d : Bool) (p : Cdt) (rest : Items) (index : List ℕ) (i : ℕ) (f : ℤ) (s : S) (arr : Items)
      (g : ℤ) (t : S)
      → elements element is_1d (cons p rest) index i f s ≡ built (arr, g) t
      → (c : Cdt) × (r : Items × ℤ) × (f' : ℤ) × (s1 : S) × (s2 : S) × (s3 : S) × (cons c (r.0)
          ≡ arr)
        × (r.1 ≡ g)
        × (next_dims is_1d f c s1 ≡ built f' s2)
        × (elements element is_1d rest index (i + 1) f' s2 ≡ built r s3)
  unfolding elements
  round_lem is_1d p rest index i f s arr g t e =
      let (c, s1, one, e1) = parts_of (element p (index ++ (i ∷ [])) s) _ (arr, g) t e in
      let (f', s2, tested, e2) = parts_of (next_dims is_1d f c s1) _ (arr, g) t e1 in
      elim (Bool-cases (i + 1 == 2147483648)) [
        | inl last ↦ absurd (of_built (rw last at e2))
        | inr small ↦
            let (r, s3, others, e3) =
              parts_of (elements element is_1d rest index (i + 1) f' s2) _ (arr, g) t
                (rw small at e2) in
            let same = built-eq e3 in
            (c, r, f', s1, s2, s3, ap (λ x. x.0) same, ap (λ x. x.1) same, tested, others)
      ]

  flat_loop :
      (items : Items) (index : List ℕ) (i : ℕ) (f : ℤ) (s : S) (arr : Items) (g : ℤ) (t : S)
      → elements element true items index i f s ≡ built (arr, g) t
      → (count arr ≡ count items) × AreFlat arr
  unfolding elements
  flat_loop nil index i f s arr g t e =
      let same : nil ≡ arr = ap (λ x. x.0) (built-eq e) in rw (sym same) (refl, tt)
  flat_loop (cons p rest) index i f s arr g t e =
      let (c, r, f', s1, s2, s3, same, last, tested, others) =
        round_lem true p rest index i f s arr g t e in
      let (counted, flats) = flat_loop rest index (i + 1) f' s2 (r.0) (r.1) s3 others in
      rw (sym same) (ap suc counted, ((flat_lem f f' c s1 s2 tested).0, flats))

  mixed_loop :
      (items : Items) (index : List ℕ) (i : ℕ) (s : S) (arr : Items) (g : ℤ) (t : S)
      → elements element false items index i mixed s ≡ built (arr, g) t
      → (count arr ≡ count items) × (mixed ≡ g)
  unfolding elements
  mixed_loop nil index i s arr g t e =
      let same : nil ≡ arr = ap (λ x. x.0) (built-eq e) in
      rw (sym same) (refl, ap (λ x. x.1) (built-eq e))
  mixed_loop (cons p rest) index i s arr g t e =
      let (c, r, f', s1, s2, s3, same, last, tested, others) =
        round_lem false p rest index i mixed s arr g t e in
      let stays = mixed_stays f' c s1 s2 tested in
      let (counted, known) =
        mixed_loop rest index (i + 1) s2 (r.0) (r.1) s3 (rw (sym stays) at others) in
      rw (sym same) (ap suc counted, known ∙ last)

  fixed_loop :
      (items : Items) (index : List ℕ) (i : ℕ) (f : ℤ) (s : S) (arr : Items) (g : ℤ) (t : S)
      → elements element false items index i f s ≡ built (arr, g) t
      → Found (count items) f arr g
  unfolding elements
  fixed_loop nil index i f s arr g t e =
      let same : nil ≡ arr = ap (λ x. x.0) (built-eq e) in
      rw (sym same) (refl, inr (tt, inr (ap (λ x. x.1) (built-eq e))))
  fixed_loop (cons p rest) index i f s arr g t e =
      let (c, r, f', s1, s2, s3, same, last, tested, others) =
        round_lem false p rest index i f s arr g t e in
      Found-same (suc (count rest)) f (cons c (r.0)) arr (r.1) g same last
        (elim (next_lem f f' c s1 s2 tested) [
          | inl is_mixed ↦
              let (counted, known) =
                mixed_loop rest index (i + 1) s2 (r.0) (r.1) s3 (rw is_mixed at others) in
              (ap suc counted, inl (sym known))
          | inr found ↦
              let (counted, rest_of) = fixed_loop rest index (i + 1) f' s2 (r.0) (r.1) s3 others in
              (
                ap suc counted,
                elim rest_of [
                  | inl is_mixed ↦ inl is_mixed
                  | inr all ↦ inr (joins f f' (r.1) c (r.0) found all)
                ],
              )
        ])

-- The dimensions of an array by what its metadata said and its elements are. An array that is fixed
-- and not one-dimensional has one dimension more than its elements; where it is empty, they have any.
pub data IsShaped : Bool → Bool → ℤ → Items → Type 0 where
  one_dimension : {is_fixed : Bool} {arr : Items} → AreFlat arr → IsShaped true is_fixed (pos 1) arr
  unknown : {is_fixed : Bool} {arr : Items} → IsShaped false is_fixed mixed arr
  one_more : {arr : Items} (d : ℤ) → AreOf d arr → IsShaped false true (succ d) arr

final_lem :
    {S : Type 0} (g dims : ℤ) (s t : S)
    → final_dims false g s ≡ built dims t
    → ((g ≡ mixed) × (dims ≡ mixed)) ⊎ (dims ≡ succ g)
unfolding final_dims
final_lem g dims s t e = elim (Bool-cases (eq_ℤ g mixed)) [
  | inl known ↦ inl ((eq_ℤ_iff g mixed).0 known, sym (built-eq (rw known at e)))
  | inr other ↦ elim (Bool-cases (eq_ℤ g int64_max)) [
    | inl largest ↦ absurd (of_built (rw (other, largest) at e))
    | inr small ↦ inr (sym (built-eq (rw (other, small) at e)))
  ]
]

pub count-new_items : (n : ℕ) → count (new_items n) ≡ n
count-new_items zero = refl
count-new_items (suc n) = ap suc (count-new_items n)

abbrev pub IsArray : ℕ → Bool → Bool → Cdts → Type 0
IsArray n is_1d fx (cdts len arr dims cache) =
    (len ≡ n) × (count arr ≡ n) × IsShaped is_1d fx dims arr

one_lem :
    {S : Type 0} (fx : Bool) (g dims : ℤ) (arr : Items) (s t : S)
    → final_dims true g s ≡ built dims t
    → AreFlat arr
    → IsShaped true fx dims arr
unfolding final_dims
one_lem fx g dims arr s t e flats = rw (sym (built-eq e)) (one_dimension flats)

unknown_lem :
    {S : Type 0} (fx : Bool) (g dims : ℤ) (arr : Items) (s t : S)
    → final_dims false g s ≡ built dims t
    → g ≡ mixed
    → IsShaped false fx dims arr
unfolding final_dims
unknown_lem fx g dims arr s t e known =
    let same : mixed ≡ dims = built-eq (rw known at e) in rw (sym same) unknown

fixed_lem :
    {S : Type 0} (g dims : ℤ) (arr : Items) (s t : S)
    → final_dims false g s ≡ built dims t
    → AreOf g arr
    → IsShaped false true dims arr
fixed_lem g dims arr s t e all = elim (final_lem g dims s t e) [
  | inl known ↦ rw (known.1) unknown
  | inr counted ↦ rw counted (one_more g all)
]

IsArray-same :
    (n : ℕ) (is_1d fx : Bool) (arr : Items) (dims : ℤ) (a : Cdts)
    → cdts n arr dims false ≡ a
    → count arr ≡ n
    → IsShaped is_1d fx dims arr
    → IsArray n is_1d fx a
IsArray-same n is_1d fx arr dims a same counted shaped = rw (sym same) (refl, counted, shaped)

-- Whatever the callbacks answer: an array that was built by its elements has the length that its
-- metadata said, with as many elements, and the dimensions that fit what the metadata said and what
-- the elements are.
pub construct_array-IsArray :
    {S : Type 0} (element : Construct S) (cb : Callbacks S) (index : List ℕ) (n : ℕ)
    (is_1d fx : Bool) (common : ℕ) (a : Cdts) (s t : S)
    → construct_array element cb index
        (record {
          array_length = n;
          is_fixed_dimension = fx;
          is_1d_array = is_1d;
          common_type = common;
          is_manually_construct_array = false;
        })
        s
      ≡ built a t
    → IsArray n is_1d fx a
unfolding construct_array
construct_array-IsArray element cb index n true fx common a s t e =
    let (r, s1, loop, e1) =
      parts_of (elements element true (new_items n) index 0 (start_dims fx) s) _ a t e in
    let (dims, s2, last, e2) = parts_of (final_dims true (r.1) s1) _ a t e1 in
    let (counted, flats) =
      flat_loop element (new_items n) index 0 (start_dims fx) s (r.0) (r.1) s1 loop in
    IsArray-same n true fx (r.0) dims a (built-eq e2) (counted ∙ count-new_items n)
      (one_lem fx (r.1) dims (r.0) s1 s2 last flats)
construct_array-IsArray element cb index n false false common a s t e =
    let (r, s1, loop, e1) =
      parts_of (elements element false (new_items n) index 0 mixed s) _ a t e in
    let (dims, s2, last, e2) = parts_of (final_dims false (r.1) s1) _ a t e1 in
    let (counted, known) = mixed_loop element (new_items n) index 0 s (r.0) (r.1) s1 loop in
    IsArray-same n false false (r.0) dims a (built-eq e2) (counted ∙ count-new_items n)
      (unknown_lem false (r.1) dims (r.0) s1 s2 last (sym known))
construct_array-IsArray element cb index n false true common a s t e =
    let (r, s1, loop, e1) =
      parts_of (elements element false (new_items n) index 0 int_min s) _ a t e in
    let (dims, s2, last, e2) = parts_of (final_dims false (r.1) s1) _ a t e1 in
    let (counted, found) = fixed_loop element (new_items n) index 0 int_min s (r.0) (r.1) s1 loop in
    IsArray-same n false true (r.0) dims a (built-eq e2) (counted ∙ count-new_items n) (elim found [
      | inl is_mixed ↦ unknown_lem true (r.1) dims (r.0) s1 s2 last is_mixed
      | inr all ↦ fixed_lem (r.1) dims (r.0) s1 s2 last (all.0)
    ])
