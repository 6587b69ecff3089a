-- ===== src/Callable/Vectors.antt =====
-- Callables made of vectors of types, and copies of them.
use meta_ffi_project.Shared.{
  ℕ, suc, ◌-◌, ◌%◌, false, ◌<◌, ◌≤◌, ◌≡◌, refl, List, [], ◌∷◌, some, length, take, ltb, ◌==◌, ap,
  arith,
}
use meta_ffi_project.Shared.Int.{pos, negsuc}
use meta_ffi_project.Callable.{
  Callable, done, bad_length, fault, as_int8, copy_types, from_vectors, copy_assign, free,
}

-- A callable whose arrays have the lengths that it says.
abbrev pub whole : ℕ → List ℕ → List ℕ → Callable
whole val params retvals = record {
  val = val;
  parameters_types = some params;
  params_types_length = pos (length params);
  retval_types = some retvals;
  retval_types_length = pos (length retvals);
}

as_int8-fits : (n : ℕ) → n % 256 < 128 → as_int8 n ≡ pos (n % 256)
unfolding as_int8
as_int8-fits n h = ground arith

as_int8-wraps : (n : ℕ) → 128 ≤ n % 256 → as_int8 n ≡ negsuc (255 - n % 256)
unfolding as_int8
as_int8-wraps n h = ground arith

take-length : {A : Type 0} (xs : List A) → take (length xs) xs ≡ xs
take-length [] = refl
take-length (x ∷ xs) = ap (λ r. x ∷ r) (take-length xs)

copy_types-take :
    (n : ℕ) (types : List ℕ)
    → n ≤ length types
    → copy_types (pos n) (some types) ≡ done (some (take n types))
unfolding copy_types
copy_types-take n types h =
    let enough : ltb (length types) n ≡ false = ground arith in rw enough refl

pub copy_types-all :
    (types : List ℕ) → copy_types (pos (length types)) (some types) ≡ done (some types)
copy_types-all types =
    rw (copy_types-take (length types) types (omega arith), take-length types) refl

-- Of vectors whose sizes modulo 256 are below 128, the callable keeps as many types as that says: all
-- of a vector of at most 127 types, and of a longer one only the first ones, without an error.
pub from_vectors_keeps :
    (val : ℕ) (params retvals : List ℕ)
    → length params % 256 < 128
    → length retvals % 256 < 128
    → from_vectors val params retvals
      ≡ done (record {
        val = val;
        parameters_types = some (take (length params % 256) params);
        params_types_length = pos (length params % 256);
        retval_types = some (take (length retvals % 256) retvals);
        retval_types_length = pos (length retvals % 256);
      })
unfolding from_vectors
from_vectors_keeps val params retvals h k =
    rw
      (
        as_int8-fits (length params) h,
        as_int8-fits (length retvals) k,
        copy_types-take (length params % 256) params (omega arith),
        copy_types-take (length retvals % 256) retvals (omega arith),
      )
      refl

-- A vector of parameters whose size modulo 256 is at least 128 is refused: the length turns negative.
pub from_vectors_refuses :
    (val : ℕ) (params retvals : List ℕ)
    → 128 ≤ length params % 256
    → from_vectors val params retvals ≡ bad_length
unfolding from_vectors copy_types
from_vectors_refuses val params retvals h = rw (as_int8-wraps (length params) h) refl

-- A copy of a callable whose arrays are as long as it says is the callable; a callable that was freed
-- while it had parameters cannot be copied, as its length outlives its array.
pub copy_assign_lem :
    (val t : ℕ) (params retvals : List ℕ)
    → (copy_assign (whole val params retvals) ≡ done (whole val params retvals))
      × (copy_assign (free (whole val (t ∷ params) retvals)) ≡ fault)
unfolding copy_assign free copy_types
copy_assign_lem val t params retvals =
    let longer : (suc (length params) == 0) ≡ false = ground arith in
    (rw (copy_types-all params, copy_types-all retvals) refl, rw longer refl)
