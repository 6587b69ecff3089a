-- ===== src/Construct/Values.antt =====
-- The values that `construct_cdt` can give.
use meta_ffi_project.Shared.{ℕ, suc, ◌<◌, ◌≡◌, Bool, true, false, some}
use meta_ffi_project.Shared.Int.{ℤ, pos}
use meta_ffi_project.Types.{Kind, code, has_array}
use meta_ffi_project.Cdts.{
  Cdt, cdt, word, array_val, cdts, Items, nil, cons, count, type_of, value_of,
}
use meta_ffi_project.Traverse.{low}
use meta_ffi_project.Traverse.Events.{Common, IsCommon, array_of}
use meta_ffi_project.Construct.Shape.{mixed, dims_of}

-- A member of the width of its type, and freed only where the pointer says so.
abbrev pub IsPlain : ℕ → ℕ → Bool → Type 0
IsPlain bits w fr = (low w bits ≡ w) × (fr ≡ false)

abbrev pub IsMember : Kind → ℕ → Bool → Type 0
IsMember Kind.float64 w fr = IsPlain 64 w fr
IsMember Kind.float32 w fr = IsPlain 32 w fr
IsMember Kind.int8 w fr = IsPlain 8 w fr
IsMember Kind.uint8 w fr = IsPlain 8 w fr
IsMember Kind.int16 w fr = IsPlain 16 w fr
IsMember Kind.uint16 w fr = IsPlain 16 w fr
IsMember Kind.int32 w fr = IsPlain 32 w fr
IsMember Kind.uint32 w fr = IsPlain 32 w fr
IsMember Kind.int64 w fr = IsPlain 64 w fr
IsMember Kind.uint64 w fr = IsPlain 64 w fr
IsMember Kind.bool w fr = IsPlain 8 w fr
IsMember Kind.char8 w fr = IsPlain 32 w fr
IsMember Kind.char16 w fr = IsPlain 32 w fr
IsMember Kind.char32 w fr = IsPlain 32 w fr
IsMember Kind.null w fr = (w ≡ 0) × (fr ≡ false)
IsMember Kind.array w fr = ⊥
IsMember _ w fr = Unit

abbrev pub AreFlat : Items → Type 0
AreFlat nil = Unit
AreFlat (cons c rest) = (has_array (type_of c) ≡ false) × AreFlat rest

abbrev pub AreArrays : ℤ → Items → Type 0
AreArrays d nil = Unit
AreArrays d (cons c rest) =
    (has_array (type_of c) ≡ true) × (dims_of (value_of c) ≡ some d) × AreArrays d rest

-- The dimensions of an array by those of its elements: 1 over elements that are no arrays, one more
-- than the elements', or unknown.
pub data HasShape : ℤ → Items → Type 0 where
  flat : {arr : Items} → AreFlat arr → HasShape (pos 1) arr
  unknown : {arr : Items} → HasShape mixed arr
  nested :
      {c : Cdt} {rest : Items} (n : ℕ)
      → suc n < 9223372036854775807
      → AreArrays (pos (suc n)) (cons c rest)
      → HasShape (pos (suc (suc n))) (cons c rest)

-- A construction does not tell elements of any type from elements of which nothing is said.
abbrev pub IsKept : Common → Type 0
IsKept Common.dynamic = ⊥
IsKept common = IsCommon common

pub kept-IsCommon : (common : Common) → IsKept common → IsCommon common
kept-IsCommon Common.unsaid h = h
kept-IsCommon Common.dynamic h = absurd h
kept-IsCommon (Common.shared k) h = h

-- Values that a construction can give: no type of declarations, members that fit their types, arrays
-- that can be counted by an `int` and whose dimensions are right.
mutual
  pub data IsConstructible : Cdt → Type 0 where
    leaf :
        {ty w : ℕ} {fr : Bool} (k : Kind)
        → ty ≡ code k
        → IsMember k w fr
        → IsConstructible (cdt ty (word w) fr)
    branch :
        {ty : ℕ} {arr : Items} {dims : ℤ} (common : Common)
        → ty ≡ array_of common
        → IsKept common
        → count arr < 2147483648
        → HasShape dims arr
        → AreConstructible arr
        → IsConstructible (cdt ty (array_val (cdts (count arr) arr dims false)) true)

  pub data AreConstructible : Items → Type 0 where
    none_left : AreConstructible nil
    one_more :
        {c : Cdt} {rest : Items}
        → IsConstructible c
        → AreConstructible rest
        → AreConstructible (cons c rest)
