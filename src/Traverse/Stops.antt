-- ===== src/Traverse/Stops.antt =====
-- Where a traversal stops: the exceptions of plugin-sdk-main/runtime/cdts_traverse_construct.cpp, and
-- what had been reported before.
use mathlib.Core.List.{append_assoc}
use meta_ffi_project.Shared.{
  ℕ, ◌+◌, ◌<◌, ◌≡◌, refl, ◌≢◌, Bool, true, List, [], ◌∷◌, ◌++◌, none, ◌∙◌, arith,
}
use meta_ffi_project.Shared.Int.{ℤ}
use meta_ffi_project.Types.{Kind, code, any_type, kind_of}
use meta_ffi_project.Types.Flags.{kind_of-code}
use meta_ffi_project.Cdts.{Cdt, cdt, Value, word, array_val, Cdts, cdts, Items, nil, cons, count}
use meta_ffi_project.Traverse.{
  Error, any_type_error, null_callable, null_array, unknown_type, thrown, on_word, switch_word,
  switch_array, type_to_use, traverse_cdt, traverse_items,
}
use meta_ffi_project.Traverse.Events.{
  AreTraversable, none_left, one_more, Common, IsCommon, array_of, common_of, events, events_of,
  Event, enter, Visitor, complete, replay,
}
use meta_ffi_project.Traverse.Complete.{
  branch_lem, traverse_all, traverse_next, replay-append, not_any, traverse_lem, array_of-ne_any,
  type_to_use-array_of, type_to_use-code,
}

-- The values that are refused at once: a type of declarations, a callable or an array that is not
-- there, a type that is none.
pub data IsRefused : Cdt → Error → Type 0 where
  is_any : {v : Value} {fr : Bool} → IsRefused (cdt any_type v fr) any_type_error
  no_callable : {fr : Bool} → IsRefused (cdt (code Kind.callable) (word 0) fr) null_callable
  no_array :
      {fr : Bool} (common : Common)
      → IsCommon common
      → IsRefused (cdt (array_of common) (word 0) fr) null_array
  no_type :
      {ty : ℕ} {v : Value} {fr : Bool}
      → ty ≢ any_type
      → kind_of (type_to_use ty) ≡ none
      → IsRefused (cdt ty v fr) (unknown_type ty)

unfoldable pub append : Items → Items → Items
append nil ys = ys
append (cons c xs) ys = cons c (append xs ys)

-- A value that a traversal stops in: refused at once, or an array in which some elements can be
-- traversed and the next one stops it.
pub data IsStopping : Cdt → Error → Type 0 where
  here : {c : Cdt} {e : Error} → IsRefused c e → IsStopping c e
  inside :
      {bad : Cdt} {e : Error} {good : Items} {dims : ℤ} {cache fr : Bool} (rest : Items)
      (common : Common)
      → IsCommon common
      → AreTraversable good
      → IsStopping bad e
      → IsStopping
          (cdt
            (array_of common)
            (array_val
              (cdts (count (append good (cons bad rest))) (append good (cons bad rest)) dims cache))
            fr)
          e

abbrev pub everywhere : List ℕ → Cdts → Bool
everywhere index a = true

-- The events up to there.
unfoldable pub events_before : {c : Cdt} {e : Error} → IsStopping c e → List ℕ → List Event
unfolding append
events_before (here h) index = []
events_before (inside {bad = bad} {good = good} {dims = dims} {cache = cache} rest common h t b)
      index =
    let arr = append good (cons bad rest) in
    enter index (cdts (count arr) arr dims cache) dims (common_of common)
    ∷ (events_of t everywhere index 0 ++ events_before b (index ++ (count good ∷ [])))

count-append : (xs ys : Items) → count (append xs ys) ≡ count xs + count ys
unfolding append
count-append nil ys = omega arith
count-append (cons c xs) ys = rw (count-append xs ys) omega arith

module _ {S : Type 0} (v : Visitor S) where
  refused_lem :
      {c : Cdt} {e : Error} (h : IsRefused c e) (index : List ℕ) (s : S)
      → traverse_cdt c (complete v) index s ≡ thrown e s
  unfolding traverse_cdt switch_word switch_array on_word
  refused_lem (is_any {v = val}) index s = refl
  refused_lem no_callable index s =
      rw (type_to_use-code Kind.callable tt, kind_of-code Kind.callable) refl
  refused_lem (no_array common h) index s =
      rw
        (
          not_any (array_of common) (array_of-ne_any common h),
          type_to_use-array_of common h,
          kind_of-code Kind.array,
        )
        refl
  refused_lem (no_type {ty = ty} {v = word w} n k) index s = rw (not_any ty n, k) refl
  refused_lem (no_type {ty = ty} {v = array_val a} n k) index s = rw (not_any ty n, k) refl

  -- The elements before the one that stops.
  prefix_lem :
      {good : Items} (t : AreTraversable good) (bad : Cdt) (rest : Items) (e : Error)
      (es : List Event) (len : ℕ) (index : List ℕ) (i : ℕ) (s : S)
      → i + count good < len
      → ((j : ℕ) (s' : S)
          → j ≡ i + count good
          → traverse_cdt bad (complete v) (index ++ (j ∷ [])) s' ≡ thrown e (replay v es s'))
      → traverse_items (append good (cons bad rest)) (complete v) len index i s
        ≡ thrown e (replay v (events_of t v.descend index i ++ es) s)
  unfolding append events
  prefix_lem none_left bad rest e es len index i s l h =
      rw (traverse_next v bad rest len index i s (omega arith), h i s (omega arith)) refl
  prefix_lem (one_more {c = c} {rest = more} t ts) bad rest e es len index i s l h =
      let first = events t v.descend (index ++ (i ∷ [])) in
      rw
        (
          traverse_next v c (append more (cons bad rest)) len index i s (omega arith),
          traverse_lem t v (index ++ (i ∷ [])) s,
          prefix_lem ts bad rest e es len index (i + 1) (replay v first s) (omega arith)
              (λ j s' q. h j s' (omega arith)),
          append_assoc first (events_of ts v.descend index (i + 1)) es,
          replay-append v first (events_of ts v.descend index (i + 1) ++ es) s,
        )
        refl

-- A visitor that goes into every array.
abbrev pub thorough : {S : Type 0} → Visitor S → Visitor S
thorough v = record { on_value = v.on_value; on_enter = v.on_enter; descend = everywhere }

-- A traversal that goes into every array stops at the first value that is refused, however deep:
-- the exception is that value's, and the callbacks that were called are those of all values before
-- it, in their order, and of no value behind it.
pub traverse_cdt-stops :
    {S : Type 0} {c : Cdt} {e : Error} (h : IsStopping c e) (v : Visitor S) (index : List ℕ) (s : S)
    → traverse_cdt c (complete (thorough v)) index s
      ≡ thrown e (replay (thorough v) (events_before h index) s)
unfolding events_before
traverse_cdt-stops (here r) v index s = refused_lem (thorough v) r index s
traverse_cdt-stops
      (inside {bad = bad} {e = e} {good = good} {dims = dims} {cache = cache} {fr = fr} rest common
        r t b)
      v index s =
    let arr = append good (cons bad rest) in
    let n = count-append good (cons bad rest) in
    branch_lem (thorough v) common (count arr) arr dims cache fr index s r
    ∙ traverse_all (thorough v) (count arr) arr dims cache index _ refl
    ∙ prefix_lem (thorough v) t bad rest e (events_before b (index ++ (count good ∷ [])))
        (count arr) index 0 _ (omega arith)
        (λ j s' q.
          let last : j ≡ count good = omega arith in
          rw last (traverse_cdt-stops b v (index ++ (count good ∷ [])) s'))
