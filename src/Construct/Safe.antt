-- ===== src/Construct/Safe.antt =====
-- Values whose unions hold what their types say are traversed and freed without a step that has no
-- meaning.
use meta_ffi_project.Shared.{
  ℕ, ◌+◌, ◌≡◌, Bool, true, false, List, [], ◌∷◌, ◌++◌, Bool-cases, inl, inr, ◌==◌, ==_iff, arith,
}
use meta_ffi_project.Shared.Int.{ℤ}
use meta_ffi_project.Types.{Kind, code, any_type, array_type, has_array}
use meta_ffi_project.Types.Flags.{kind_of_sound, kind_of-code, code-ne_any}
use meta_ffi_project.Cdts.{Cdt, cdt, Value, word, array_val, cdts, Items, count}
use meta_ffi_project.Traverse.{
  Outcome, any_type_error, null_array, unknown_type, finished, thrown, fault, null_callable, ◌>>=◌,
  on_word, on_elements, switch_word, switch_array, type_to_use, is_typed_array, traverse_cdt,
  traverse_items,
}
use meta_ffi_project.Traverse.Events.{Visitor, complete}
use meta_ffi_project.Traverse.Complete.{
  type_to_use-code, not_any, traverse_all, traverse_next, traverse_end,
}
use meta_ffi_project.Construct.Scans.{member-IsElement}
use meta_ffi_project.Construct.Values.{IsMember}
use meta_ffi_project.Construct.Typed.{
  IsTyped, AreTyped, single, nothing, several, none_left, one_more,
}

-- A traversal that finishes, or stops with the exception for a callable that is not there.
abbrev pub Ends : {S : Type 0} → Outcome S → Type 0
Ends (finished s) = Unit
Ends (thrown null_callable s) = Unit
Ends _ = ⊥

>>=-Ends :
    {S : Type 0} (o : Outcome S) (f : S → Outcome S)
    → Ends o
    → ((s : S) → Ends (f s))
    → Ends (o >>= f)
>>=-Ends (finished s) f h k = k s
>>=-Ends (thrown null_callable s) f h k = tt
>>=-Ends (thrown any_type_error s) f h k = h
>>=-Ends (thrown null_array s) f h k = h
>>=-Ends (thrown (unknown_type t) s) f h k = h
>>=-Ends fault f h k = h

-- The type of an array is used as the plain one.
type_to_use-array : (ty : ℕ) → has_array ty ≡ true → type_to_use ty ≡ array_type
unfolding type_to_use is_typed_array
type_to_use-array ty h = ground arith

array-ne_any : (ty : ℕ) → has_array ty ≡ true → (ty == any_type) ≡ false
unfolding has_array
array-ne_any ty h = elim (Bool-cases (ty == any_type)) [
  | inl e ↦ cc (rw ((==_iff ty any_type).0 e) at h)
  | inr e ↦ e
]

module _ {S : Type 0} (v : Visitor S) where
  on_word-Ends :
      (k : Kind) (w : ℕ) (fr : Bool) (index : List ℕ) (s : S)
      → IsMember k w fr
      → Ends (on_word (complete v) k index w s)
  unfolding on_word
  on_word-Ends Kind.float64 w fr index s h = tt
  on_word-Ends Kind.float32 w fr index s h = tt
  on_word-Ends Kind.int8 w fr index s h = tt
  on_word-Ends Kind.uint8 w fr index s h = tt
  on_word-Ends Kind.int16 w fr index s h = tt
  on_word-Ends Kind.uint16 w fr index s h = tt
  on_word-Ends Kind.int32 w fr index s h = tt
  on_word-Ends Kind.uint32 w fr index s h = tt
  on_word-Ends Kind.int64 w fr index s h = tt
  on_word-Ends Kind.uint64 w fr index s h = tt
  on_word-Ends Kind.bool w fr index s h = tt
  on_word-Ends Kind.char8 w fr index s h = tt
  on_word-Ends Kind.string8 w fr index s h = tt
  on_word-Ends Kind.char16 w fr index s h = tt
  on_word-Ends Kind.string16 w fr index s h = tt
  on_word-Ends Kind.char32 w fr index s h = tt
  on_word-Ends Kind.string32 w fr index s h = tt
  on_word-Ends Kind.handle w fr index s h = tt
  on_word-Ends Kind.callable w fr index s h = elim (Bool-cases (w == 0)) [
    | inl null ↦ rw null tt
    | inr there ↦ rw there tt
  ]
  on_word-Ends Kind.null w fr index s h = tt
  on_word-Ends Kind.array w fr index s h = absurd h

  single-Ends :
      (k : Kind) (w : ℕ) (fr : Bool) (index : List ℕ) (s : S)
      → IsMember k w fr
      → Ends (traverse_cdt (cdt (code k) (word w) fr) (complete v) index s)
  unfolding traverse_cdt switch_word
  single-Ends k w fr index s h =
      let e = member-IsElement k w fr h in
      rw (not_any (code k) (code-ne_any k), type_to_use-code k e, kind_of-code k)
        (on_word-Ends k w fr index s h)

  nothing-Ends :
      (u : Value) (index : List ℕ) (s : S)
      → Ends (traverse_cdt (cdt (code Kind.null) u false) (complete v) index s)
  unfolding traverse_cdt switch_word switch_array on_word
  nothing-Ends (word w) index s = rw (type_to_use-code Kind.null tt, kind_of-code Kind.null) tt
  nothing-Ends (array_val a) index s = rw (type_to_use-code Kind.null tt, kind_of-code Kind.null) tt

  several-Ends :
      (ty len : ℕ) (arr : Items) (dims : ℤ) (cache : Bool) (index : List ℕ) (s : S)
      → has_array ty ≡ true
      → len ≡ count arr
      → ((s' : S) → Ends (traverse_items arr (complete v) len index 0 s'))
      → Ends (traverse_cdt (cdt ty (array_val (cdts len arr dims cache)) true) (complete v) index s)
  unfolding traverse_cdt switch_array on_elements
  several-Ends ty len arr dims cache index s h n inside =
      let a = cdts len arr dims cache in
      rw (array-ne_any ty h, type_to_use-array ty h, kind_of-code Kind.array)
        (elim (Bool-cases (v.descend index a)) [
          | inl goes ↦ rw (goes, traverse_all v len arr dims cache index _ n) (inside _)
          | inr stays ↦ rw stays tt
        ])

mutual
  pub traverse-Ends :
      {S : Type 0} {c : Cdt} (t : IsTyped c) (v : Visitor S) (index : List ℕ) (s : S)
      → Ends (traverse_cdt c (complete v) index s)
  traverse-Ends (single {ty = ty} {w = w} {fr = fr} k e h) v index s =
      rw (kind_of_sound ty k e) (single-Ends v k w fr index s h)
  traverse-Ends (nothing {ty = ty} {v = u} e) v index s =
      rw (kind_of_sound ty Kind.null e) (nothing-Ends v u index s)
  traverse-Ends (several {ty = ty} {len = len} {arr = arr} {dims = dims} {cache = cache} e n parts)
        v index s =
      several-Ends v ty len arr dims cache index s e n
        λ s'. traverse_items-Ends parts v len index 0 s' (omega arith)

  traverse_items-Ends :
      {S : Type 0} {arr : Items} (t : AreTyped arr) (v : Visitor S) (len : ℕ) (index : List ℕ)
      (i : ℕ) (s : S)
      → len ≡ i + count arr
      → Ends (traverse_items arr (complete v) len index i s)
  traverse_items-Ends none_left v len index i s n = rw (traverse_end v len index i s) tt
  traverse_items-Ends (one_more {c = c} {rest = rest} t ts) v len index i s n =
      rw (traverse_next v c rest len index i s (omega arith)) (
        >>=-Ends (traverse_cdt c (complete v) (index ++ (i ∷ [])) s) _
          (traverse-Ends t v (index ++ (i ∷ [])) s)
          λ s'. traverse_items-Ends ts v len index (i + 1) s' (omega arith))
