-- ===== src/Construct/Shape.antt =====
-- `found_dims` in `construct_cdt`: how many dimensions an array has, by those of its elements.
use meta_ffi_project.Shared.{Bool, Option, some, none, if◌then◌else◌}
use meta_ffi_project.Shared.Int.{ℤ, pos, negsuc, eq_ℤ, succ}
use meta_ffi_project.Types.{has_array}
use meta_ffi_project.Cdts.{Cdt, cdt, Value, word, array_val}
use meta_ffi_project.Traverse.{fixed_dimensions}
use meta_ffi_project.Construct.{Outcome, built, thrown, fault, nested_in_1d}

-- `MIXED_OR_UNKNOWN_DIMENSIONS`
abbrev pub mixed : ℤ
mixed = negsuc 0

-- `INT_MIN`
abbrev pub int_min : ℤ
int_min = negsuc 2147483647

-- The largest `metaffi_int64`.
abbrev pub int64_max : ℤ
int64_max = pos 9223372036854775807

abbrev pub start_dims : Bool → ℤ
start_dims is_fixed_dimension = if is_fixed_dimension then int_min else mixed

-- `new_item.cdt_val.array_val->fixed_dimensions`, which has no meaning where no array was written.
abbrev pub dims_of : Value → Option ℤ
dims_of (word w) = none
dims_of (array_val a) = some (fixed_dimensions a)

-- What an element with those dimensions makes of the ones found so far.
abbrev pub merge : {S : Type 0} → ℤ → Option ℤ → S → Outcome S ℤ
merge found none s = fault
merge found (some d) s =
    if eq_ℤ found int_min
    then built d s
    else (if eq_ℤ found d then built found s else built mixed s)

-- The tests on an element that was just built.
unfoldable pub next_dims : {S : Type 0} → Bool → ℤ → Cdt → S → Outcome S ℤ
next_dims is_1d found (cdt ty v fr) s =
    if is_1d
    then (if has_array ty then thrown nested_in_1d s else built found s)
    else (if eq_ℤ found mixed
        then built found s
        else merge (if has_array ty then found else mixed) (dims_of v) s)

-- `fixed_dimensions` behind the loop; the sum of the last case can overflow.
unfoldable pub final_dims : {S : Type 0} → Bool → ℤ → S → Outcome S ℤ
final_dims is_1d found s =
    if is_1d
    then built (pos 1) s
    else (if eq_ℤ found mixed
        then built mixed s
        else if eq_ℤ found int64_max
        then fault
        else built (succ found) s)
