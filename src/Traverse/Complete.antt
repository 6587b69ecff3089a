-- ===== src/Traverse/Complete.antt =====
-- The traversal of a complete value against its specification.
use meta_ffi_project.Shared.{
  ℕ, ◌+◌, ◌<◌, ◌≡◌, refl, ◌≢◌, Bool, true, false, Bool-cases, List, [], ◌∷◌, ◌++◌, inl, inr, ◌==◌,
  ltb, if◌then◌else◌, ◌∙◌, arith,
}
use meta_ffi_project.Shared.Int.{ℤ}
use meta_ffi_project.Types.{Kind, code, any_type, array_type, has_array, with_array, without_array}
use meta_ffi_project.Types.Flags.{
  IsElement, kind_of-code, has_array-code, has_array-with_array, without_array-with_array,
  with_array-ne, code-ne_any,
}
use meta_ffi_project.Cdts.{Cdt, cdt, word, array_val, cdts, Items, nil, cons, count}
use meta_ffi_project.Traverse.{
  finished, ◌>>=◌, on_word, switch_word, switch_array, type_to_use, common_type, traverse_cdt,
  traverse_cdts, traverse_items,
}
use meta_ffi_project.Traverse.Events.{
  IsTraversable, AreTraversable, Common, leaf, branch, none_left, one_more, IsLeaf, IsCommon,
  array_of, common_of, payload, events, events_of, Event, Visitor, complete, replay, step,
}

pub leaf-IsElement : (k : Kind) (w : ℕ) → IsLeaf k w → IsElement k
leaf-IsElement Kind.float64 w h = tt
leaf-IsElement Kind.float32 w h = tt
leaf-IsElement Kind.int8 w h = tt
leaf-IsElement Kind.uint8 w h = tt
leaf-IsElement Kind.int16 w h = tt
leaf-IsElement Kind.uint16 w h = tt
leaf-IsElement Kind.int32 w h = tt
leaf-IsElement Kind.uint32 w h = tt
leaf-IsElement Kind.int64 w h = tt
leaf-IsElement Kind.uint64 w h = tt
leaf-IsElement Kind.bool w h = tt
leaf-IsElement Kind.char8 w h = tt
leaf-IsElement Kind.string8 w h = tt
leaf-IsElement Kind.char16 w h = tt
leaf-IsElement Kind.string16 w h = tt
leaf-IsElement Kind.char32 w h = tt
leaf-IsElement Kind.string32 w h = tt
leaf-IsElement Kind.handle w h = tt
leaf-IsElement Kind.callable w h = tt
leaf-IsElement Kind.null w h = tt
leaf-IsElement Kind.array w h = h

pub type_to_use-code : (k : Kind) → IsElement k → type_to_use (code k) ≡ code k
unfolding type_to_use
type_to_use-code k h = rw (has_array-code k h) refl

pub type_to_use-array_of :
    (common : Common) → IsCommon common → type_to_use (array_of common) ≡ array_type
unfolding type_to_use has_array with_array
type_to_use-array_of Common.unsaid h = refl
type_to_use-array_of Common.dynamic h = refl
type_to_use-array_of (Common.shared k) h =
    ground (arith, has_array-with_array k h, with_array-ne k h)

pub common_type-array_of :
    (common : Common) → IsCommon common → common_type (array_of common) ≡ common_of common
unfolding common_type has_array with_array without_array
common_type-array_of Common.unsaid h = refl
common_type-array_of Common.dynamic h = refl
common_type-array_of (Common.shared k) h =
    ground (arith, has_array-with_array k h, with_array-ne k h, without_array-with_array k h)

pub array_of-ne_any : (common : Common) → IsCommon common → array_of common ≢ any_type
unfolding with_array
array_of-ne_any Common.unsaid h = omega arith
array_of-ne_any Common.dynamic h = omega arith
array_of-ne_any (Common.shared k) h = (with_array-ne k h).1

pub not_any : (t : ℕ) → t ≢ any_type → (t == any_type) ≡ false
not_any t h = ground arith

pub lt→ltb : (a b : ℕ) → a < b → ltb a b ≡ true
lt→ltb a b h = ground arith

module _ {S : Type 0} (v : Visitor S) where
  on_word-complete :
      (k : Kind) (w : ℕ) (index : List ℕ) (s : S)
      → IsLeaf k w
      → on_word (complete v) k index w s ≡ finished (v.on_value k index (payload k w) s)
  unfolding on_word
  on_word-complete Kind.float64 w index s h = refl
  on_word-complete Kind.float32 w index s h = refl
  on_word-complete Kind.int8 w index s h = refl
  on_word-complete Kind.uint8 w index s h = refl
  on_word-complete Kind.int16 w index s h = refl
  on_word-complete Kind.uint16 w index s h = refl
  on_word-complete Kind.int32 w index s h = refl
  on_word-complete Kind.uint32 w index s h = refl
  on_word-complete Kind.int64 w index s h = refl
  on_word-complete Kind.uint64 w index s h = refl
  on_word-complete Kind.bool w index s h = refl
  on_word-complete Kind.char8 w index s h = refl
  on_word-complete Kind.string8 w index s h = refl
  on_word-complete Kind.char16 w index s h = refl
  on_word-complete Kind.string16 w index s h = refl
  on_word-complete Kind.char32 w index s h = refl
  on_word-complete Kind.string32 w index s h = refl
  on_word-complete Kind.handle w index s h = refl
  on_word-complete Kind.callable w index s h = ground arith
  on_word-complete Kind.null w index s h = refl
  on_word-complete Kind.array w index s h = absurd h

  leaf_lem :
      (k : Kind) (w : ℕ) (fr : Bool) (index : List ℕ) (s : S)
      → IsLeaf k w
      → traverse_cdt (cdt (code k) (word w) fr) (complete v) index s
        ≡ finished (v.on_value k index (payload k w) s)
  unfolding traverse_cdt switch_word
  leaf_lem k w fr index s h =
      let e = leaf-IsElement k w h in
      rw (not_any (code k) (code-ne_any k), type_to_use-code k e, kind_of-code k)
        (on_word-complete k w index s h)

  pub branch_lem :
      (common : Common) (len : ℕ) (arr : Items) (dims : ℤ) (cache fr : Bool) (index : List ℕ)
      (s : S)
      → IsCommon common
      → let a = cdts len arr dims cache in
        let entered = v.on_enter index a dims (common_of common) s in
        traverse_cdt (cdt (array_of common) (array_val a) fr) (complete v) index s ≡ (
          if v.descend index a
          then traverse_cdts a (complete v) index entered
          else finished entered)
  unfolding traverse_cdt switch_array
  branch_lem common len arr dims cache fr index s h = rw (
    not_any (array_of common) (array_of-ne_any common h),
    type_to_use-array_of common h,
    common_type-array_of common h,
    kind_of-code Kind.array,
  )

  pub traverse_all :
      (len : ℕ) (arr : Items) (dims : ℤ) (cache : Bool) (index : List ℕ) (s : S)
      → len ≡ count arr
      → traverse_cdts (cdts len arr dims cache) (complete v) index s
        ≡ traverse_items arr (complete v) len index 0 s
  unfolding traverse_cdt
  traverse_all len nil dims cache index s h = ground arith
  traverse_all len (cons c rest) dims cache index s h = ground arith

  pub traverse_next :
      (c : Cdt) (rest : Items) (len : ℕ) (index : List ℕ) (i : ℕ) (s : S)
      → i < len
      → traverse_items (cons c rest) (complete v) len index i s ≡ (
          traverse_cdt c (complete v) (index ++ (i ∷ [])) s >>= λ s'.
          traverse_items rest (complete v) len index (i + 1) s')
  unfolding traverse_cdt
  traverse_next c rest len index i s h = rw (lt→ltb i len h)

  pub replay-append :
      (xs ys : List Event) (s : S) → replay v (xs ++ ys) s ≡ replay v ys (replay v xs s)
  replay-append [] ys s = refl
  replay-append (x ∷ xs) ys s = replay-append xs ys (step v x s)

  pub traverse_end :
      (len : ℕ) (index : List ℕ) (i : ℕ) (s : S)
      → traverse_items nil (complete v) len index i s ≡ finished s
  unfolding traverse_cdt
  traverse_end len index i s = refl

mutual
  unfolding events

  pub traverse_lem :
      {S : Type 0} {c : Cdt} (t : IsTraversable c) (v : Visitor S) (index : List ℕ) (s : S)
      → traverse_cdt c (complete v) index s ≡ finished (replay v (events t v.descend index) s)
  traverse_lem (leaf {w = w} {fr = fr} k e h) v index s = rw e (leaf_lem v k w fr index s h)
  traverse_lem
        (branch {len = len} {arr = arr} {dims = dims} {cache = cache} {fr = fr} common e h n parts)
        v index s =
      let a = cdts len arr dims cache in
      let entered = v.on_enter index a dims (common_of common) s in
      let inside =
        traverse_all v len arr dims cache index entered n
        ∙ traverse_items_lem parts v len index 0 entered (omega arith) in
      elim (Bool-cases (v.descend index a)) [
        | inl goes ↦ rw e (branch_lem v common len arr dims cache fr index s h ∙ rw goes inside)
        | inr stays ↦ rw e (branch_lem v common len arr dims cache fr index s h ∙ rw stays refl)
      ]

  pub traverse_items_lem :
      {S : Type 0} {arr : Items} (t : AreTraversable arr) (v : Visitor S) (len : ℕ) (index : List ℕ)
      (i : ℕ) (s : S)
      → len ≡ i + count arr
      → traverse_items arr (complete v) len index i s
        ≡ finished (replay v (events_of t v.descend index i) s)
  traverse_items_lem none_left v len index i s n = traverse_end v len index i s
  traverse_items_lem (one_more {c = c} {rest = rest} t ts) v len index i s n =
      let here = events t v.descend (index ++ (i ∷ [])) in
      rw (
        traverse_next v c rest len index i s (omega arith),
        traverse_lem t v (index ++ (i ∷ [])) s,
        traverse_items_lem ts v len index (i + 1) (replay v here s) (omega arith),
        replay-append v here (events_of ts v.descend index (i + 1)) s,
      )

-- A traversal with callbacks that are all set, of a value whose every part is there and is not itself
-- of any type (an array may say that its elements are), finishes; it has called the callbacks that the value's shape says, in their order: the
-- parts of an array behind its own callback, and only if that asks for them.
pub traverse_cdt-events :
    {S : Type 0} {c : Cdt} (t : IsTraversable c) (v : Visitor S) (index : List ℕ) (s : S)
    → traverse_cdt c (complete v) index s ≡ finished (replay v (events t v.descend index) s)
traverse_cdt-events t v index s = traverse_lem t v index s

-- `traverse_cdts` with callbacks that are all set finishes, and reports the elements of an array that
-- is complete one after the other, each as its shape says, at the starting index with its position
-- behind.
pub traverse_cdts-events :
    {S : Type 0} {arr : Items} (t : AreTraversable arr) (dims : ℤ) (cache : Bool) (v : Visitor S)
    (index : List ℕ) (s : S)
    → traverse_cdts (cdts (count arr) arr dims cache) (complete v) index s
      ≡ finished (replay v (events_of t v.descend index 0) s)
traverse_cdts-events {arr = arr} t dims cache v index s =
    traverse_all v (count arr) arr dims cache index s refl
    ∙ traverse_items_lem t v (count arr) index 0 s (omega arith)
