-- ===== src/Construct/Settled.antt =====
-- What a construction makes of a value that it reads: it does not tell an array whose elements have
-- any type from one of whose elements nothing is said.
use meta_ffi_project.Shared.{
  unequal, ℕ, suc, ◌<◌, ◌≡◌, refl, Bool, true, false, ap, sym, ◌∙◌, ◌==◌, if◌then◌else◌,
}
use meta_ffi_project.Shared.Int.{ℤ, pos}
use native.Mathlib.Decide.{ℕ_discrete}
use meta_ffi_project.Types.{Kind, code, any_type, array_type, with_array, has_array}
use meta_ffi_project.Cdts.{
  Cdt, cdt, word, array_val, cdts, Items, nil, cons, count, type_of, value_of,
}
use meta_ffi_project.Traverse.Events.{Common, IsCommon, array_of, common_of}
use meta_ffi_project.Construct.Shape.{dims_of}
use meta_ffi_project.Construct.Run.{array_item_type}
use meta_ffi_project.Construct.Scans.{array_item_type_lem}
use meta_ffi_project.Construct.Values.{
  IsMember, HasShape, flat, unknown, nested, AreFlat, AreArrays, kept-IsCommon, IsConstructible,
  AreConstructible,
}

-- The type of an array after a construction.
unfoldable pub settled_type : ℕ → ℕ
unfolding with_array
settled_type ty = if ty == with_array any_type then array_type else ty

abbrev mutual
  pub settled : Cdt → Cdt
  settled (cdt ty (word w) fr) = cdt ty (word w) fr
  settled (cdt ty (array_val (cdts len arr dims cache)) fr) =
      cdt (settled_type ty) (array_val (cdts len (settled_items arr) dims cache)) fr

  pub settled_items : Items → Items
  settled_items nil = nil
  settled_items (cons c rest) = cons (settled c) (settled_items rest)

-- Values that can be read by a construction: those that one can give, and arrays whose elements have
-- any type.
mutual
  pub data IsReadable : Cdt → Type 0 where
    leaf :
        {ty w : ℕ} {fr : Bool} (k : Kind)
        → ty ≡ code k
        → IsMember k w fr
        → IsReadable (cdt ty (word w) fr)
    branch :
        {ty : ℕ} {arr : Items} {dims : ℤ} (common : Common)
        → ty ≡ array_of common
        → IsCommon common
        → count arr < 2147483648
        → HasShape dims arr
        → AreReadable arr
        → IsReadable (cdt ty (array_val (cdts (count arr) arr dims false)) true)

  pub data AreReadable : Items → Type 0 where
    none_left : AreReadable nil
    one_more :
        {c : Cdt} {rest : Items} → IsReadable c → AreReadable rest → AreReadable (cons c rest)

settled-shared : (k : Kind) → settled_type (with_array (code k)) ≡ with_array (code k)
unfolding settled_type with_array
settled-shared Kind.float64 = refl
settled-shared Kind.float32 = refl
settled-shared Kind.int8 = refl
settled-shared Kind.uint8 = refl
settled-shared Kind.int16 = refl
settled-shared Kind.uint16 = refl
settled-shared Kind.int32 = refl
settled-shared Kind.uint32 = refl
settled-shared Kind.int64 = refl
settled-shared Kind.uint64 = refl
settled-shared Kind.bool = refl
settled-shared Kind.char8 = refl
settled-shared Kind.string8 = refl
settled-shared Kind.char16 = refl
settled-shared Kind.string16 = refl
settled-shared Kind.char32 = refl
settled-shared Kind.string32 = refl
settled-shared Kind.handle = refl
settled-shared Kind.callable = refl
settled-shared Kind.null = refl
settled-shared Kind.array = refl

-- The type that a construction gives to an array is the settled one.
pub array_item_type-settled :
    (common : Common)
    → IsCommon common
    → array_item_type (common_of common) ≡ settled_type (array_of common)
unfolding array_item_type settled_type with_array
array_item_type-settled Common.unsaid h = refl
array_item_type-settled Common.dynamic h = refl
array_item_type-settled (Common.shared k) h =
    array_item_type_lem (Common.shared k) h ∙ sym (settled-shared k)

has_array-settled_type : (ty : ℕ) → has_array (settled_type ty) ≡ has_array ty
unfolding settled_type has_array with_array
has_array-settled_type ty = elim (ℕ_discrete ty (with_array any_type)) [
  | yes e ↦ rw e refl
  | no n ↦ rw (unequal ty (with_array any_type) n) refl
]

type_of-settled : (c : Cdt) → has_array (type_of (settled c)) ≡ has_array (type_of c)
type_of-settled (cdt ty (word w) fr) = refl
type_of-settled (cdt ty (array_val (cdts len arr dims cache)) fr) = has_array-settled_type ty

dims_of-settled : (c : Cdt) → dims_of (value_of (settled c)) ≡ dims_of (value_of c)
dims_of-settled (cdt ty (word w) fr) = refl
dims_of-settled (cdt ty (array_val (cdts len arr dims cache)) fr) = refl

pub count-settled_items : (arr : Items) → count (settled_items arr) ≡ count arr
count-settled_items nil = refl
count-settled_items (cons c rest) = ap suc (count-settled_items rest)

settled-AreFlat : (arr : Items) → AreFlat arr → AreFlat (settled_items arr)
settled-AreFlat nil h = tt
settled-AreFlat (cons c rest) h = (type_of-settled c ∙ h.0, settled-AreFlat rest h.1)

settled-AreArrays : (d : ℤ) (arr : Items) → AreArrays d arr → AreArrays d (settled_items arr)
settled-AreArrays d nil h = tt
settled-AreArrays d (cons c rest) h =
    (type_of-settled c ∙ h.0, dims_of-settled c ∙ h.1, settled-AreArrays d rest h.2)

pub settled-HasShape :
    {dims : ℤ} {arr : Items} → HasShape dims arr → HasShape dims (settled_items arr)
settled-HasShape (flat h) = flat (settled-AreFlat _ h)
settled-HasShape unknown = unknown
settled-HasShape (nested {c = c} {rest = rest} n l h) =
    nested n l (settled-AreArrays (pos (suc n)) (cons c rest) h)

-- A value that a construction can give is read, and is settled already.
mutual
  pub constructible-IsReadable : {c : Cdt} → IsConstructible c → IsReadable c
  constructible-IsReadable (IsConstructible.leaf k e h) = leaf k e h
  constructible-IsReadable (IsConstructible.branch common e h n shape parts) =
      branch common e (kept-IsCommon common h) n shape (constructible-AreReadable parts)

  pub constructible-AreReadable : {arr : Items} → AreConstructible arr → AreReadable arr
  constructible-AreReadable AreConstructible.none_left = none_left
  constructible-AreReadable (AreConstructible.one_more t ts) =
      one_more (constructible-IsReadable t) (constructible-AreReadable ts)

mutual
  pub settled-constructible : {c : Cdt} → IsConstructible c → settled c ≡ c
  settled-constructible (IsConstructible.leaf k e h) = refl
  settled-constructible
        (IsConstructible.branch {ty = ty} {arr = arr} {dims = dims} common e h n shape parts) =
      rw
        (
          e,
          sym (array_item_type-settled common (kept-IsCommon common h)),
          array_item_type_lem common h,
          settled_items-constructible parts,
        )
        refl

  pub settled_items-constructible : {arr : Items} → AreConstructible arr → settled_items arr ≡ arr
  settled_items-constructible AreConstructible.none_left = refl
  settled_items-constructible (AreConstructible.one_more t ts) =
      rw (settled-constructible t, settled_items-constructible ts) refl
