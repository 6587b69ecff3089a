-- ===== src/Callable.antt =====
-- `struct cdt_metaffi_callable` of plugin-sdk-main/runtime/metaffi_primitives.h: a callable object with
-- the types of its parameters and return values, in arrays that it owns.
pub mod Vectors
pub mod Compare
mod Tests
use meta_ffi_project.Shared.{
  ℕ, zero, suc, ◌-◌, ◌%◌, Bool, true, false, not, ◌||◌, List, [], ◌∷◌, Option, none, some, length,
  take, ltb, ◌==◌, if◌then◌else◌,
}
use meta_ffi_project.Shared.Int.{ℤ, pos, negsuc, eq_ℤ}

-- The lengths are `metaffi_int8`; `none` is a null pointer.
pub record Callable : Type 0 where
  pub val : ℕ
  pub parameters_types : Option (List ℕ)
  pub params_types_length : ℤ
  pub retval_types : Option (List ℕ)
  pub retval_types_length : ℤ

-- `cdt_metaffi_callable()`
abbrev pub empty : Callable
empty = record {
  val = 0;
  parameters_types = none;
  params_types_length = pos 0;
  retval_types = none;
  retval_types_length = pos 0;
}

-- `cdt_metaffi_callable(val, parameters_types, params_types_length, …)`: the arrays are kept.
abbrev pub with_arrays : ℕ → Option (List ℕ) → ℤ → Option (List ℕ) → ℤ → Callable
with_arrays val params params_length retvals retvals_length = record {
  val = val;
  parameters_types = params;
  params_types_length = params_length;
  retval_types = retvals;
  retval_types_length = retvals_length;
}

-- `bad_length` is the exception of `new` for a negative length; `fault` a read through a null pointer
-- or past the end of an array.
pub data Outcome (A : Type 0) : Type 0 where
  done : A → Outcome A
  bad_length fault : Outcome A

infixl 5 ◌>>=◌
abbrev pub ◌>>=◌ : {A B : Type 0} → Outcome A → (A → Outcome B) → Outcome B
done a >>= f = f a
bad_length >>= f = bad_length
fault >>= f = fault

-- `static_cast<metaffi_int8>`
unfoldable pub as_int8 : ℕ → ℤ
as_int8 n = if ltb (n % 256) 128 then pos (n % 256) else negsuc (255 - n % 256)

-- `new metaffi_type[len]`, and `memcpy` of as many types.
unfoldable pub copy_types : ℤ → Option (List ℕ) → Outcome (Option (List ℕ))
copy_types (negsuc n) types = bad_length
copy_types (pos n) none = if n == 0 then done (some []) else fault
copy_types (pos n) (some types) = if ltb (length types) n then fault else done (some (take n types))

-- `cdt_metaffi_callable(val, parameters_types, retval_types)` of two vectors.
unfoldable pub from_vectors : ℕ → List ℕ → List ℕ → Outcome Callable
from_vectors val params retvals =
    let params_length = as_int8 (length params) in
    let retvals_length = as_int8 (length retvals) in
    copy_types params_length (some params) >>= λ ps.
    copy_types retvals_length (some retvals) >>= λ rs. done (record {
      val = val;
      parameters_types = ps;
      params_types_length = params_length;
      retval_types = rs;
      retval_types_length = retvals_length;
    })

-- `*this = other` of another object: the old arrays are deleted, and the other's are copied.
unfoldable pub copy_assign : Callable → Outcome Callable
copy_assign other = copy_types other.params_types_length other.parameters_types >>= λ ps.
    copy_types other.retval_types_length other.retval_types >>= λ rs.
    done (record other { parameters_types = ps; retval_types = rs })

-- `*this = std::move(other)` of another object: the target then, and the source then.
unfoldable pub move_assign : Callable → Callable × Callable
move_assign other = (other, empty)

-- `free`, which leaves the lengths.
unfoldable pub free : Callable → Callable
free c = record c { parameters_types = none; retval_types = none }

-- The loops of `operator==`; the first types that differ end it.
unfoldable pub equal_upto : ℕ → List ℕ → List ℕ → Outcome Bool
equal_upto zero xs ys = done true
equal_upto (suc n) (x ∷ xs) (y ∷ ys) = if x == y then equal_upto n xs ys else done false
equal_upto (suc n) _ _ = fault

unfoldable pub equal_types : ℤ → Option (List ℕ) → Option (List ℕ) → Outcome Bool
equal_types (negsuc n) xs ys = done true
equal_types (pos n) (some xs) (some ys) = equal_upto n xs ys
equal_types (pos n) _ _ = if n == 0 then done true else fault

-- `operator==`
unfoldable pub equal : Callable → Callable → Outcome Bool
equal c d =
    if not (c.val == d.val)
      || not (eq_ℤ c.params_types_length d.params_types_length)
      || not (eq_ℤ c.retval_types_length d.retval_types_length)
    then done false
    else (equal_types c.params_types_length c.parameters_types d.parameters_types >>= λ same.
        if same
        then equal_types c.retval_types_length c.retval_types d.retval_types
        else done false)
