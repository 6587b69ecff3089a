-- ===== src/Callable/Tests.antt =====
-- Callables of concrete types.
use meta_ffi_project.Shared.{ℕ, ◌≡◌, List, [], ◌∷◌, some, replicate, length-replicate, arith}
use meta_ffi_project.Shared.Int.{pos}
use meta_ffi_project.Callable.{done, bad_length, fault, from_vectors, copy_assign, free, equal}
use meta_ffi_project.Callable.Vectors.{
  whole, from_vectors_keeps, from_vectors_refuses, copy_assign_lem,
}
use meta_ffi_project.Callable.Compare.{IsDecided, equal-whole, equal-free}

from_vectors_keeps_example :
    from_vectors 64 (4 ∷ 8 ∷ []) (1 ∷ [])
    ≡ done (record {
      val = 64;
      parameters_types = some (4 ∷ 8 ∷ []);
      params_types_length = pos 2;
      retval_types = some (1 ∷ []);
      retval_types_length = pos 1;
    })
from_vectors_keeps_example = from_vectors_keeps 64 (4 ∷ 8 ∷ []) (1 ∷ []) (omega arith) (omega arith)

-- 200 parameters.
two_hundred_parameters : from_vectors 64 (replicate 200 4) [] ≡ bad_length
two_hundred_parameters =
    from_vectors_refuses 64 (replicate 200 4) [] (rw (length-replicate {A = ℕ} 200 4) (omega arith))

copy_and_freed :
    (copy_assign (whole 64 (8 ∷ []) (1 ∷ [])) ≡ done (whole 64 (8 ∷ []) (1 ∷ [])))
    × (copy_assign (free (whole 64 (4 ∷ 8 ∷ []) (1 ∷ []))) ≡ fault)
copy_and_freed = copy_assign_lem 64 4 (8 ∷ []) (1 ∷ [])

abbrev function : ℕ
function = 64

abbrev ints : List ℕ
ints = 4 ∷ []

abbrev no_types : List ℕ
no_types = []

equal-whole_example :
    IsDecided
      (equal (whole function ints no_types) (whole function no_types ints))
      ((function ≡ function) × (ints ≡ no_types) × (no_types ≡ ints))
equal-whole_example = equal-whole function function ints no_types no_types ints

equal_freed : equal (free (whole 64 (4 ∷ []) [])) (free (whole 64 (4 ∷ []) [])) ≡ fault
equal_freed = equal-free 64 4 [] []
