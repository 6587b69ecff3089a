-- ===== src/Construct/Tests/Client.antt =====
-- A construction from callbacks that count their calls.
use mathlib.Core.Option.{none-ne-some, some-injective}
use meta_ffi_project.Shared.{
  ℕ, ◌+◌, ◌≡◌, ◌≢◌, refl, true, false, List, [], ◌∷◌, none, some, sym, arith,
}
use meta_ffi_project.Shared.Int.{pos, negsuc}
use meta_ffi_project.Types.{with_array, has_array, without_array, kind_of}
use meta_ffi_project.Cdts.{Cdt, cdt, word, array_val, cdts, nil, cons, default_cdt}
use meta_ffi_project.Traverse.{type_to_use, is_typed_array}
use meta_ffi_project.Traverse.Events.{Event, value, enter, Visitor}
use meta_ffi_project.Construct.{built, spent, Callbacks, TypeInfo, no_callbacks}
use meta_ffi_project.Construct.Shape.{next_dims, final_dims}
use meta_ffi_project.Construct.Member.{get_member}
use meta_ffi_project.Construct.Run.{
  any_info, construct_cdt, construct_item, construct_typed, construct_kind, construct_array_item,
  construct_array, elements, type_info, full_type, first_common, array_item_type,
}
use meta_ffi_project.Construct.Typed.{IsTyped, Fills}
use meta_ffi_project.Cdts.Memory.{free, releases, free_word}
use meta_ffi_project.Construct.Safe.{Ends}
use meta_ffi_project.Construct.Ends.{Shallow, construct_cdt-IsTyped, construct_cdt-ends}

-- An array of two strings, whose addresses are counted.
abbrev counting_info : List ℕ → ℕ → TypeInfo × ℕ
counting_info [] s = (record { type = 4096; fixed_dimensions = pos 1 }, s + 1)
counting_info (i ∷ index) s = (record { type = 4096; fixed_dimensions = negsuc 0 }, s + 1)

abbrev counting : Callbacks ℕ
counting = record (no_callbacks {S = ℕ}) {
  get_array_metadata = some (λ index common s. (
    record {
      array_length = 2;
      is_fixed_dimension = true;
      is_1d_array = true;
      common_type = common;
      is_manually_construct_array = false;
    },
    s + 1,
  ));
  get_type_info = some counting_info;
  get_string8 = some (λ index fr s. ((s + 700, true), s + 1));
}

abbrev counted : Cdt
counted =
    cdt 0x11000
      (array_val (
        cdts 2 (cons (cdt 4096 (word 703) true) (cons (cdt 4096 (word 705) true) nil)) (pos 1)
          false))
      true

counting-counted : construct_cdt 2 counting default_cdt [] any_info 0 ≡ built counted 6
unfolding construct_cdt construct_item type_info full_type construct_typed construct_kind
    construct_array_item construct_array elements next_dims final_dims get_member type_to_use
    is_typed_array first_common array_item_type has_array without_array with_array kind_of
counting-counted = refl

counting-Fills : Fills counting
counting-Fills f set index a s filled = absurd (none-ne-some f set)

counting-Shallow : Shallow 1 counting
unfolding full_type has_array
counting-Shallow f set [] s n = absurd (omega arith)
counting-Shallow f set (i ∷ index) s n = rw (sym (some-injective counting_info f set)) refl

construct_cdt-IsTyped_example : IsTyped counted
construct_cdt-IsTyped_example =
    construct_cdt-IsTyped 2 counting default_cdt [] any_info 0 counted 6 counting-Fills
      counting-counted

construct_cdt-ends_example : construct_cdt 2 counting default_cdt [] any_info 0 ≢ spent
construct_cdt-ends_example =
    construct_cdt-ends 1 counting default_cdt 0 counting-Fills counting-Shallow

-- Writes down what it is told.
abbrev log : Visitor (List Event)
log = record {
  on_value = λ k index w l. value k index w ∷ l;
  on_enter = λ index a dims common l. enter index a dims common ∷ l;
  descend = λ index a. true;
}

-- One address for both strings: the second release has no meaning.
abbrev shared : Cdt
shared =
    cdt 0x11000
      (array_val (
        cdts 2 (cons (cdt 4096 (word 703) true) (cons (cdt 4096 (word 703) true) nil)) (pos 1)
          false))
      true

shared_freed : free shared ≡ none
unfolding free releases has_array kind_of free_word
shared_freed = refl
