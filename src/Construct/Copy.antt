-- ===== src/Construct/Copy.antt =====
-- A construction from callbacks that read a value gives that value again.
use meta_ffi_project.Shared.{
  ℕ, zero, suc, ◌+◌, ◌<◌, ◌≡◌, refl, Bool, true, false, List, [], ◌∷◌, ◌++◌, some, ◌==◌, ◌∙◌, sym,
  ap, arith,
}
use meta_ffi_project.Shared.Int.{ℤ}
use meta_ffi_project.Types.{code, any_type, array_type, with_array}
use meta_ffi_project.Cdts.{
  Cdt, cdt, word, array_val, cdts, Items, nil, cons, count, nth, default_cdt, new_items,
}
use meta_ffi_project.Cdts.Memory.{set_array}
use meta_ffi_project.Traverse.Events.{Common, array_of}
use meta_ffi_project.Construct.{built, Callbacks}
use meta_ffi_project.Construct.Shape.{next_dims}
use meta_ffi_project.Construct.Run.{Construct, elements, construct_item, any_info, construct_cdt}
use meta_ffi_project.Construct.Reader.{at, look, at-extend, reader, depth, depths}
use meta_ffi_project.Construct.Scans.{Scans, done, test, shape-Scans}
use meta_ffi_project.Construct.Values.{HasShape, IsConstructible, AreConstructible}
use meta_ffi_project.Construct.Settled.{
  settled, settled_items, settled_type, IsReadable, AreReadable, leaf, branch, none_left, one_more,
  array_item_type-settled, settled-HasShape, constructible-IsReadable, constructible-AreReadable,
  settled-constructible, settled_items-constructible,
}
use meta_ffi_project.Construct.Cases.{leaf_lem, branch_lem}

-- One round of the loop.
pub elements_step :
    {S : Type 0} (element : Construct S) (is_1d : Bool) (p c : Cdt) (empty more : Items)
    (index : List ℕ) (i : ℕ) (f g h : ℤ) (s : S)
    → element p (index ++ (i ∷ [])) s ≡ built c s
    → next_dims is_1d f c s ≡ built g s
    → i + 1 < 2147483648
    → elements element is_1d empty index (i + 1) g s ≡ built (more, h) s
    → elements element is_1d (cons p empty) index i f s ≡ built (cons c more, h) s
unfolding elements
elements_step element is_1d p c empty more index i f g h s one next l rest =
    let small : (i + 1 == 2147483648) ≡ false = ground arith in rw (one, next, small, rest) refl

pub look-at : (root c : Cdt) (index : List ℕ) → at root index ≡ some c → look root index ≡ c
look-at root c index e = rw (look, e) refl

pub construct_cdt-suc :
    {S : Type 0} (fuel : ℕ) (cb : Callbacks S) (index : List ℕ) (s : S)
    → construct_cdt (suc fuel) cb default_cdt index any_info s
      ≡ construct_item
          (λ c to s'. construct_cdt fuel cb c to any_info s')
          cb
          default_cdt
          index
          any_info
          s
unfolding construct_cdt
construct_cdt-suc fuel cb index s = refl

elements_nil :
    {S : Type 0} (element : Construct S) (is_1d : Bool) (index : List ℕ) (i : ℕ) (f : ℤ) (s : S)
    → elements element is_1d nil index i f s ≡ built (nil, f) s
unfolding elements
elements_nil element is_1d index i f s = refl

mutual
  pub settled_lem :
      {S : Type 0} {c : Cdt} (t : IsReadable c) (root : Cdt) (index : List ℕ) (fuel : ℕ) (s : S)
      → at root index ≡ some c
      → depth c < fuel
      → construct_cdt fuel (reader root) default_cdt index any_info s ≡ built (settled c) s
  settled_lem t root index zero s e l = absurd (omega arith)
  settled_lem (leaf {w = w} {fr = fr} k ty h) root index (suc fuel) s e l =
      let here = look-at root (cdt (code k) (word w) fr) index (rw (sym ty) e) in
      rw ty (
        construct_cdt-suc fuel (reader root) index s
        ∙ leaf_lem (λ c to s'. construct_cdt fuel (reader root) c to any_info s') root k w fr index
            s here h)
  settled_lem {S = S} (branch {ty = ty} {arr = arr} {dims = dims} common same h n shape elems) root
        index (suc fuel) s e l =
      let a = array_val (cdts (count arr) arr dims false) in
      let here = look-at root (cdt (array_of common) a true) index (rw (sym same) e) in
      let (found, scan, last) = shape-Scans {S = S} (settled-HasShape shape) in
      let loop =
        settled_items_lem elems scan root index fuel 0 s
          (λ j p at_j.
            let plus : 0 + j ≡ j = omega arith in
            rw plus (at-extend root index (cdt ty a true) p j e at_j))
          (omega arith) (omega arith) in
      rw (same, sym (array_item_type-settled common h))
        (construct_cdt-suc fuel (reader root) index s
          ∙ branch_lem (λ c to s'. construct_cdt fuel (reader root) c to any_info s') root common
              arr (settled_items arr) dims found index s here h loop (last s))

  settled_items_lem :
      {S : Type 0} {is_1d : Bool} {f g : ℤ} {arr : Items} (t : AreReadable arr)
      (scan : Scans S is_1d f (settled_items arr) g) (root : Cdt) (index : List ℕ) (fuel i : ℕ)
      (s : S)
      → ((j : ℕ) (p : Cdt) → nth arr j ≡ some p → at root (index ++ ((i + j) ∷ [])) ≡ some p)
      → i + count arr < 2147483648
      → depths arr < fuel
      → elements
          (λ c to s'. construct_cdt fuel (reader root) c to any_info s')
          is_1d
          (new_items (count arr))
          index
          i
          f
          s
        ≡ built (settled_items arr, g) s
  settled_items_lem none_left (done {f = f}) root index fuel i s e n l =
      elements_nil (λ c to s'. construct_cdt fuel (reader root) c to any_info s') _ index i f s
  settled_items_lem (one_more {c = c} {rest = more} t ts) (test {f = f} {g = g} {h = h} next scan)
        root index fuel i s e n l =
      let at_i : at root (index ++ (i ∷ [])) ≡ some c =
        let same : i ≡ i + 0 = omega arith in rw same (e 0 c refl) in
      elements_step _ _ default_cdt (settled c) (new_items (count more)) (settled_items more) index
        i f g h s (settled_lem t root (index ++ (i ∷ [])) fuel s at_i (omega arith)) (next s)
        (omega arith)
        (settled_items_lem ts scan root index fuel (i + 1) s
          (λ j p at_j. let same : i + 1 + j ≡ i + suc j = omega arith in rw same (e (suc j) p at_j))
          (omega arith) (omega arith))

-- A construction from callbacks that read a value gives this value with its flags and dimensions and
-- with its types, but that an array whose type says that its elements have any becomes, at every
-- depth, an array of whose elements nothing is said; the context is left alone. The value has members
-- that fit their types, and arrays of less than 2^31 elements whose dimensions are right; the fuel is
-- more than the nesting of its arrays.
pub construct_cdt-settled :
    {S : Type 0} {c : Cdt} (t : IsReadable c) (fuel : ℕ) (s : S)
    → depth c < fuel
    → construct_cdt fuel (reader c) default_cdt [] any_info s ≡ built (settled c) s
construct_cdt-settled {c = c} t fuel s l = settled_lem t c [] fuel s refl l

pub copy_lem :
    {S : Type 0} {c : Cdt} (t : IsConstructible c) (root : Cdt) (index : List ℕ) (fuel : ℕ) (s : S)
    → at root index ≡ some c
    → depth c < fuel
    → construct_cdt fuel (reader root) default_cdt index any_info s ≡ built c s
copy_lem t root index fuel s e l =
    settled_lem (constructible-IsReadable t) root index fuel s e l
    ∙ ap (λ c'. built c' s) (settled-constructible t)

-- A deep copy: a construction from callbacks that read a value gives this value again, with its
-- types, flags and dimensions, and leaves the context alone. The value has members that fit their
-- types, and arrays of less than 2^31 elements whose dimensions are right and whose type does not say
-- that the elements have any; the fuel is more than the nesting of its arrays.
pub construct_cdt-reader :
    {S : Type 0} {c : Cdt} (t : IsConstructible c) (fuel : ℕ) (s : S)
    → depth c < fuel
    → construct_cdt fuel (reader c) default_cdt [] any_info s ≡ built c s
construct_cdt-reader {c = c} t fuel s l = copy_lem t c [] fuel s refl l

-- An array that `set_array` was given without a type, so that its type says that the elements have
-- any, is copied with its elements and its dimensions, but as an array of whose elements nothing is
-- said. The conditions are those of a deep copy.
pub construct_cdt-dynamic :
    {S : Type 0} {arr : Items} {dims : ℤ} (t : AreConstructible arr) (fuel : ℕ) (s : S)
    → HasShape dims arr
    → count arr < 2147483648
    → depths arr < fuel
    → construct_cdt
        (suc fuel)
        (reader (set_array (cdts (count arr) arr dims false) any_type))
        default_cdt
        []
        any_info
        s
      ≡ built (cdt array_type (array_val (cdts (count arr) arr dims false)) true) s
unfolding set_array with_array settled_type
construct_cdt-dynamic {arr = arr} {dims = dims} t fuel s shape n l =
    let readable =
      branch {dims = dims} Common.dynamic refl tt n shape (constructible-AreReadable t) in
    construct_cdt-settled readable (suc fuel) s (omega arith)
    ∙ ap (λ made. built (cdt array_type (array_val (cdts (count arr) made dims false)) true) s)
        (settled_items-constructible t)
