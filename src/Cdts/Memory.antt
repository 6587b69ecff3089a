-- ===== src/Cdts/Memory.antt =====
-- What `cdt` and `cdts` of plugin-sdk-main/runtime/cdt.h and cdt.cpp own: `cdt::free`, `cdts::free`
-- with the destructors, `cdts::set`, `cdt::set_array`, `cdt::set_handle` and the move of a `cdts`.
use meta_ffi_project.Shared.{
  ℕ, zero, suc, Bool, true, false, not, ◌&&◌, List, [], ◌∷◌, ◌++◌, Option, none, some, bit_or, ◌==◌,
  if◌then◌else◌,
}
use meta_ffi_project.Shared.Int.{pos}
use meta_ffi_project.Types.{Kind, code, array_type, has_array, kind_of}
use meta_ffi_project.Cdts.{
  Cdt, cdt, Value, word, array_val, Cdts, cdts, Items, nil, cons, count, default_cdt,
}

-- The memory that is given back, in the order of its release; a handle is only emptied.
pub data Release : Type 0 where
  string : ℕ → Release
  callable : ℕ → Release
  handle_emptied : ℕ → Release
  elements : ℕ → Release
  array : Release

-- `delete` of a pointer; of null it does nothing.
abbrev pub delete : (ℕ → Release) → ℕ → List Release
delete what w = if w == 0 then [] else (what w ∷ [])

-- The cases of `cdt::free` but the array: what the union holds then, and what was released. A type
-- that owns nothing is left as it is.
unfoldable pub free_word : Option Kind → ℕ → Value × List Release
free_word (some Kind.string8) w = (word 0, delete string w)
free_word (some Kind.string16) w = (word 0, delete string w)
free_word (some Kind.string32) w = (word 0, delete string w)
free_word (some Kind.handle) w = (word 0, delete handle_emptied w)
free_word (some Kind.callable) w = (word 0, delete callable w)
free_word _ w = (word w, [])

abbrev pub owns : Option Kind → Bool
owns (some Kind.string8) = true
owns (some Kind.string16) = true
owns (some Kind.string32) = true
owns (some Kind.handle) = true
owns (some Kind.callable) = true
owns _ = false

-- Of two parts that are freed one after the other; `none` is a step without a meaning.
abbrev pub both : Option (List Release) → Option (List Release) → Option (List Release)
both none q = none
both (some p) none = none
both (some p) (some q) = some (p ++ q)

-- What the destructor of a value does one after the other, by its type where it is to be freed; an
-- array under the type of another pointer, and a number under the type of an array, have no meaning. `delete[]`
-- destroys the elements from the last to the first and then gives their memory back; elements on
-- the cache are destroyed from the first to the last, and their memory stays.
unfoldable mutual
  pub destroys : Cdt → Option (List Release)
  destroys (cdt ty v fr) = if fr then destroys_value v ty else some []

  pub destroys_value : Value → ℕ → Option (List Release)
  destroys_value (word w) ty =
      if has_array ty then if w == 0 then some [] else none else some ((free_word (kind_of ty) w).1)
  destroys_value (array_val a) ty =
      if has_array ty
      then both (destroys_cdts a) (some (array ∷ []))
      else if owns (kind_of ty)
      then none
      else some []

  pub destroys_cdts : Cdts → Option (List Release)
  destroys_cdts (cdts len nil dims cache) = some []
  destroys_cdts (cdts len (cons c rest) dims true) =
      if len == suc (count rest) then destroys_forward (cons c rest) else none
  destroys_cdts (cdts len (cons c rest) dims false) =
      both (destroys_backward (cons c rest)) (some (elements (suc (count rest)) ∷ []))

  pub destroys_forward : Items → Option (List Release)
  destroys_forward nil = some []
  destroys_forward (cons c rest) = both (destroys c) (destroys_forward rest)

  pub destroys_backward : Items → Option (List Release)
  destroys_backward nil = some []
  destroys_backward (cons c rest) = both (destroys_backward rest) (destroys c)

-- Whether an address is given back, and whether it is given back or written to.
unfoldable pub deletes : Release → ℕ → Bool
deletes (string w) a = w == a
deletes (callable w) a = w == a
deletes _ a = false

unfoldable pub touches : Release → ℕ → Bool
touches (string w) a = w == a
touches (callable w) a = w == a
touches (handle_emptied w) a = w == a
touches _ a = false

-- Of two of them, no one is at an address that the other gives back. Two may empty one handle.
unfoldable pub apart : Release → Release → Bool
unfolding deletes touches
apart (string w) y = not (touches y w)
apart (callable w) y = not (touches y w)
apart (handle_emptied w) y = not (deletes y w)
apart (elements n) y = true
apart array y = true

unfoldable pub all_apart : Release → List Release → Bool
unfolding apart
all_apart x [] = true
all_apart x (y ∷ r) = apart x y && all_apart x r

-- Nothing is given back twice, and no handle is emptied in memory that is given back.
unfoldable pub is_clear : List Release → Bool
unfolding all_apart
is_clear [] = true
is_clear (x ∷ r) = all_apart x r && is_clear r

-- What is released, where all of it has a meaning.
unfoldable pub once : Option (List Release) → Option (List Release)
unfolding is_clear
once none = none
once (some r) = if is_clear r then some r else none

-- What the destructor of a value releases.
unfoldable pub releases : Cdt → Option (List Release)
unfolding destroys once
releases c = once (destroys c)

-- The value that `cdt::free` leaves: a pointer that it released is null.
unfoldable pub freed_value : ℕ → Value → Value
freed_value ty (word w) = if has_array ty then word 0 else (free_word (kind_of ty) w).0
freed_value ty (array_val a) = if has_array ty then word 0 else array_val a

-- `cdt::free`; the type and the flag stay.
unfoldable pub freed : Cdt → Cdt
freed (cdt ty v fr) = cdt ty (if fr then freed_value ty v else v) fr

unfoldable pub free : Cdt → Option (Cdt × List Release)
free c = elim (releases c) [ none ↦ none | some r ↦ some (freed c, r) ]

-- `cdts::free`; the elements that were destroyed are not used any more.
unfoldable pub free_cdts : Cdts → Option (Cdts × List Release)
free_cdts (cdts len arr dims cache) = elim (once (destroys_cdts (cdts len arr dims cache))) [
  | none ↦ none
  | some r ↦ some (cdts len nil dims cache, r)
]

-- `cdt::set_handle`: the previous value is freed, and the handle is not owned.
unfoldable pub set_handle : Cdt → ℕ → Option (Cdt × List Release)
set_handle c h = elim (free c) [
  | none ↦ none
  | some freed ↦ some (cdt (code Kind.handle) (word h) false, freed.1)
]

-- `cdt::set_array`: the previous value is overwritten, whatever it owned.
unfoldable pub set_array : Cdts → ℕ → Cdt
set_array a common = cdt (bit_or array_type common) (array_val a) true

-- `arr[index] = …` in `cdts::set`: the element that was there, and the elements then; `none` past
-- their end.
unfoldable pub replace : Items → ℕ → Cdt → Option (Cdt × Items)
replace nil index c = none
replace (cons old rest) zero c = some (old, cons c rest)
replace (cons old rest) (suc index) c = elim (replace rest index c) [
  | none ↦ none
  | some found ↦ some (found.0, cons old (found.1))
]

-- `cdts::set`: the value moves in and leaves a null value behind; the element that was there is
-- overwritten and not destroyed, and is returned here to say so.
unfoldable pub set : Cdts → ℕ → Cdt → Option (Cdts × Cdt × Cdt)
set (cdts len arr dims cache) index val = elim (replace arr index val) [
  | none ↦ none
  | some found ↦ some (cdts len (found.1) dims cache, default_cdt, found.0)
]

-- `cdts& operator=(cdts&&)` of two different objects: the target then, the source then, and what
-- the target held, which is not freed.
unfoldable pub move_assign : Cdts → Cdts → Cdts × Cdts × Cdts
move_assign target source = (source, cdts 0 nil (pos 0) false, target)
