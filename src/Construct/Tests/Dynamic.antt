-- ===== src/Construct/Tests/Dynamic.antt =====
-- Arrays that say at two depths that their elements have any type.
use meta_ffi_project.Shared.{ℕ, ◌≡◌, refl, [], arith}
use meta_ffi_project.Shared.Int.{pos}
use meta_ffi_project.Types.{Kind, has_array, with_array}
use meta_ffi_project.Cdts.{Cdt, nil, cons, default_cdt}
use meta_ffi_project.Traverse.Events.{Common}
use meta_ffi_project.Construct.{built}
use meta_ffi_project.Construct.Values.{flat, nested}
use meta_ffi_project.Construct.Run.{any_info, construct_cdt}
use meta_ffi_project.Construct.Reader.{reader}
use meta_ffi_project.Construct.Settled.{
  settled, settled_type, IsReadable, leaf, branch, none_left, one_more,
}
use meta_ffi_project.Construct.Stops.{array_with}
use meta_ffi_project.Construct.Copy.{construct_cdt-settled}
use meta_ffi_project.Construct.Tests.{bytes}

abbrev table_of : Common → Cdt
table_of common =
    array_with common
      (cons (array_with common bytes (pos 1)) (cons (array_with common bytes (pos 1)) nil)) (pos 2)

row-IsReadable : IsReadable (array_with Common.dynamic bytes (pos 1))
unfolding has_array
row-IsReadable = branch Common.dynamic refl tt (omega arith) (flat (refl, (refl, tt))) (
    one_more (leaf {w = 44} Kind.int8 refl (refl, refl))
      (one_more (leaf {w = 7} Kind.int8 refl (refl, refl)) none_left))

table-IsReadable : IsReadable (table_of Common.dynamic)
unfolding has_array with_array
table-IsReadable =
    branch Common.dynamic refl tt (omega arith)
      (nested 0 (omega arith) (refl, refl, (refl, refl, tt)))
      (one_more row-IsReadable (one_more row-IsReadable none_left))

-- Both depths lose what they said.
both_settled : settled (table_of Common.dynamic) ≡ table_of Common.unsaid
unfolding settled_type with_array
both_settled = refl

construct_cdt-settled_example :
    construct_cdt {S = ℕ} 3 (reader (table_of Common.dynamic)) default_cdt [] any_info 5
    ≡ built (settled (table_of Common.dynamic)) 5
construct_cdt-settled_example = construct_cdt-settled table-IsReadable 3 5 (omega arith)
