-- ===== src/Construct/Tests.antt =====
-- Constructions of concrete values.
mod Client
mod Dynamic
use mathlib.Core.List.{Perm}
use meta_ffi_project.Construct.{Metadata, no_callbacks}
use meta_ffi_project.Construct.Run.{Construct, construct_array, elements}
use meta_ffi_project.Construct.Shape.{next_dims, final_dims}
use meta_ffi_project.Construct.Sound.{IsArray, construct_array-IsArray}
use meta_ffi_project.Cdts.Memory.{Release, free, freed, is_clear, set_array}
use meta_ffi_project.Cdts.Once.{released, pointers}
use meta_ffi_project.Traverse.Events.{Common}
use meta_ffi_project.Construct.Freed.{free-IsConstructible}
use meta_ffi_project.Shared.{List, ℕ, ◌≡◌, refl, true, false, [], some, arith}
use meta_ffi_project.Shared.Int.{pos}
use meta_ffi_project.Types.{Kind, code, any_type, array_type, with_array, has_array, kind_of}
use meta_ffi_project.Cdts.{Cdt, cdt, word, array_val, cdts, Items, nil, cons, default_cdt}
use meta_ffi_project.Construct.{built, thrown, fault, nested_in_1d}
use meta_ffi_project.Construct.Run.{any_info, construct_cdt}
use meta_ffi_project.Construct.Reader.{reader}
use meta_ffi_project.Construct.Values.{
  flat, nested, IsConstructible, AreConstructible, leaf, branch, none_left, one_more,
}
use meta_ffi_project.Construct.Copy.{construct_cdt-reader, construct_cdt-dynamic}
use meta_ffi_project.Construct.Stops.{
  append, array_with, construct_cdt-nested_in_1d, construct_cdt-not_array,
}

abbrev byte : ℕ → Cdt
byte w = cdt (code Kind.int8) (word w) false

abbrev bytes : Items
bytes = cons (byte 44) (cons (byte 7) nil)

bytes-AreConstructible : AreConstructible bytes
bytes-AreConstructible =
    one_more (leaf {w = 44} Kind.int8 refl (refl, refl))
      (one_more (leaf {w = 7} Kind.int8 refl (refl, refl)) none_left)

-- `{44, 7}`, and `{{44, 7}, {44, 7}}`.
abbrev row : Cdt
row = array_with (Common.shared Kind.int8) bytes (pos 1)

row-IsConstructible : IsConstructible row
unfolding has_array
row-IsConstructible =
    branch (Common.shared Kind.int8) refl tt (omega arith) (flat (refl, (refl, tt)))
      bytes-AreConstructible

abbrev rows : Items
rows = cons row (cons row nil)

rows-AreConstructible : AreConstructible rows
rows-AreConstructible = one_more row-IsConstructible (one_more row-IsConstructible none_left)

abbrev table : Cdt
table = array_with (Common.shared Kind.int8) rows (pos 2)

table-IsConstructible : IsConstructible table
unfolding has_array with_array
table-IsConstructible =
    branch (Common.shared Kind.int8) refl tt (omega arith)
      (nested 0 (omega arith) (refl, refl, (refl, refl, tt))) rows-AreConstructible

construct_cdt-reader_example :
    construct_cdt {S = ℕ} 3 (reader table) default_cdt [] any_info 5 ≡ built table 5
construct_cdt-reader_example = construct_cdt-reader table-IsConstructible 3 5 (omega arith)

-- `{{44, 7}, {44, 7}}` by `set_array` without a type.
rows_without_type :
    construct_cdt {S = ℕ} 3
      (reader (set_array (cdts 2 rows (pos 2) false) any_type))
      default_cdt
      []
      any_info
      5
    ≡ built (cdt array_type (array_val (cdts 2 rows (pos 2) false)) true) 5
unfolding has_array with_array
rows_without_type =
    construct_cdt-dynamic rows-AreConstructible 2 5
      (nested 0 (omega arith) (refl, refl, (refl, refl, tt))) (omega arith) (omega arith)

-- `{44, 7, {44, 7}, 9}` said to be one-dimensional.
row_in_bytes :
    construct_cdt {S = ℕ} 3
      (reader (array_with Common.unsaid (append bytes (cons row (cons (byte 9) nil))) (pos 1)))
      default_cdt
      []
      any_info
      5
    ≡ thrown nested_in_1d 5
unfolding has_array with_array
row_in_bytes =
    construct_cdt-nested_in_1d Common.unsaid tt bytes-AreConstructible (refl, (refl, tt))
      row-IsConstructible (cons (byte 9) nil) 2 5 refl (omega arith) (omega arith) (omega arith)

-- `{{44, 7}, 9}` said to be two-dimensional.
construct_cdt-not_array_example :
    construct_cdt {S = ℕ} 3
      (reader (array_with Common.unsaid (append (cons row nil) (cons (byte 9) nil)) (pos 2)))
      default_cdt
      []
      any_info
      5
    ≡ fault
unfolding has_array with_array
construct_cdt-not_array_example =
    construct_cdt-not_array Common.unsaid tt 0 (one_more row-IsConstructible none_left)
      (refl, refl, tt) Kind.int8 9 false (refl, refl) nil 2 5 (omega arith) (omega arith)

table_freed :
    (r : List Release) × (free table ≡ some (freed table, r)) × Perm (released r) (pointers table)
unfolding is_clear pointers has_array kind_of with_array
table_freed = free-IsConstructible table table-IsConstructible refl

-- An array of rows, whatever is asked.
abbrev gives_row : Construct ℕ
gives_row c index s = built row s

abbrev rows_metadata : Metadata
rows_metadata = record {
  array_length = 2;
  is_fixed_dimension = true;
  is_1d_array = false;
  common_type = 4;
  is_manually_construct_array = false;
}

rows_built :
    construct_array gives_row no_callbacks [] rows_metadata 5 ≡ built (cdts 2 rows (pos 2) false) 5
unfolding construct_array elements next_dims final_dims has_array with_array
rows_built = refl

construct_array-IsArray_example : IsArray 2 false true (cdts 2 rows (pos 2) false)
construct_array-IsArray_example =
    construct_array-IsArray gives_row no_callbacks [] 2 false true 4 (cdts 2 rows (pos 2) false) 5 5
      rows_built
