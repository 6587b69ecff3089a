-- ===== src/Construct/Scans.antt =====
-- The loop's tests on the elements that `construct_cdt` has built, and the types it gives.
use meta_ffi_project.Shared.{
  ℕ, suc, ◌<◌, ◌≡◌, refl, Bool, true, false, not, Bool-cases, inl, inr, ◌==◌, arith,
}
use meta_ffi_project.Shared.Int.{ℤ, pos, eq_ℤ, is_positive}
use meta_ffi_project.Types.{Kind, code, with_array}
use meta_ffi_project.Types.Flags.{IsElement, code-ne_any, with_array-twice}
use meta_ffi_project.Cdts.{Cdt, cdt, Items, nil, cons}
use meta_ffi_project.Traverse.Events.{Common, IsCommon, array_of, common_of}
use meta_ffi_project.Traverse.Complete.{not_any}
use meta_ffi_project.Construct.{built}
use meta_ffi_project.Construct.Shape.{mixed, int_min, next_dims, start_dims, final_dims}
use meta_ffi_project.Construct.Run.{full_type, array_item_type}
use meta_ffi_project.Construct.Values.{
  IsKept, IsMember, AreFlat, AreArrays, HasShape, flat, unknown, nested,
}

pub member-IsElement : (k : Kind) (w : ℕ) (fr : Bool) → IsMember k w fr → IsElement k
member-IsElement Kind.float64 w fr h = tt
member-IsElement Kind.float32 w fr h = tt
member-IsElement Kind.int8 w fr h = tt
member-IsElement Kind.uint8 w fr h = tt
member-IsElement Kind.int16 w fr h = tt
member-IsElement Kind.uint16 w fr h = tt
member-IsElement Kind.int32 w fr h = tt
member-IsElement Kind.uint32 w fr h = tt
member-IsElement Kind.int64 w fr h = tt
member-IsElement Kind.uint64 w fr h = tt
member-IsElement Kind.bool w fr h = tt
member-IsElement Kind.char8 w fr h = tt
member-IsElement Kind.string8 w fr h = tt
member-IsElement Kind.char16 w fr h = tt
member-IsElement Kind.string16 w fr h = tt
member-IsElement Kind.char32 w fr h = tt
member-IsElement Kind.string32 w fr h = tt
member-IsElement Kind.handle w fr h = tt
member-IsElement Kind.callable w fr h = tt
member-IsElement Kind.null w fr h = tt
member-IsElement Kind.array w fr h = h

pub array_item_type_lem :
    (common : Common) → IsKept common → array_item_type (common_of common) ≡ array_of common
unfolding array_item_type
array_item_type_lem Common.unsaid h = refl
array_item_type_lem Common.dynamic h = absurd h
array_item_type_lem (Common.shared k) h = rw (not_any (code k) (code-ne_any k)) refl

with_array-array_of :
    (common : Common) → IsCommon common → with_array (array_of common) ≡ array_of common
unfolding with_array
with_array-array_of Common.unsaid h = refl
with_array-array_of Common.dynamic h = refl
with_array-array_of (Common.shared k) h = with_array-twice k h

pub full_type-array_of :
    (common : Common) (dims : ℤ)
    → IsCommon common
    → full_type (record { type = array_of common; fixed_dimensions = dims }) ≡ array_of common
unfolding full_type
full_type-array_of common dims h = elim (Bool-cases (is_positive dims)) [
  | inl up ↦ rw up (with_array-array_of common h)
  | inr down ↦ rw down refl
]

-- The elements of an array, one test after the other.
pub data Scans (S : Type 0) (is_1d : Bool) : ℤ → Items → ℤ → Type 0 where
  done : {f : ℤ} → Scans S is_1d f nil f
  test :
      {f g h : ℤ} {c : Cdt} {rest : Items}
      → ((s : S) → next_dims is_1d f c s ≡ built g s)
      → Scans S is_1d g rest h
      → Scans S is_1d f (cons c rest) h

eq_ℕ_refl : (n : ℕ) → (n == n) ≡ true
eq_ℕ_refl n = ground arith

pub two : (n : ℕ) → (suc (suc n) == 1) ≡ false
two n = ground arith

below : (n : ℕ) → suc n < 9223372036854775807 → (suc n == 9223372036854775807) ≡ false
below n l = ground arith

module _ {S : Type 0} where
  pub Scans-flat : (arr : Items) (f : ℤ) → AreFlat arr → Scans S true f arr f
  unfolding next_dims
  Scans-flat nil f h = done
  Scans-flat (cons (cdt ty v fr) rest) f h = test (λ s. rw (h.0) refl) (Scans-flat rest f (h.1))

  pub Scans-unknown : (arr : Items) → Scans S false mixed arr mixed
  unfolding next_dims
  Scans-unknown nil = done
  Scans-unknown (cons (cdt ty v fr) rest) = test (λ s. refl) (Scans-unknown rest)

  Scans-arrays :
      (arr : Items) (n : ℕ)
      → AreArrays (pos (suc n)) arr
      → Scans S false (pos (suc n)) arr (pos (suc n))
  unfolding next_dims
  Scans-arrays nil n h = done
  Scans-arrays (cons (cdt ty v fr) rest) n h =
      test (λ s. rw (h.0, h.1, eq_ℕ_refl (suc n)) refl) (Scans-arrays rest n (h.2))

  pub Scans-nested :
      (c : Cdt) (rest : Items) (n : ℕ)
      → AreArrays (pos (suc n)) (cons c rest)
      → Scans S false int_min (cons c rest) (pos (suc n))
  unfolding next_dims
  Scans-nested (cdt ty v fr) rest n h = test (λ s. rw (h.0, h.1) refl) (Scans-arrays rest n (h.2))

  -- What the loop finds for the right dimensions, and what is made of it.
  pub shape-Scans :
      {dims : ℤ} {arr : Items}
      → HasShape dims arr
      → (found : ℤ) × Scans S (eq_ℤ dims (pos 1)) (start_dims (not (eq_ℤ dims mixed))) arr found
        × ((s : S) → final_dims (eq_ℤ dims (pos 1)) found s ≡ built dims s)
  unfolding final_dims
  shape-Scans (flat {arr = arr} h) = (int_min, Scans-flat arr int_min h, λ s. refl)
  shape-Scans (unknown {arr = arr}) = (mixed, Scans-unknown arr, λ s. refl)
  shape-Scans (nested {c = c} {rest = rest} n l h) =
      (pos (suc n), rw (two n) (Scans-nested c rest n h), λ s. rw (two n, below n l) refl)
