-- ===== src/Exchange/Tests.antt =====
-- A table of bytes that is constructed and traversed.
use meta_ffi_project.Shared.{ℕ, List, [], ◌∷◌, ◌++◌, some, true, false, ◌≡◌, refl, arith}
use meta_ffi_project.Shared.Int.{pos}
use meta_ffi_project.Types.{Kind, code, with_array, has_array, kind_of, without_array}
use meta_ffi_project.Cdts.{Cdt, cdt, word, array_val, cdts, Items, nil, cons, default_cdt}
use meta_ffi_project.Traverse.{common_type}
use meta_ffi_project.Traverse.Events.{Common, Event, value, enter, Visitor, complete, replay}
use meta_ffi_project.Construct.Reader.{reader}
use meta_ffi_project.Construct.Values.{flat, IsConstructible, leaf, branch, none_left, one_more}
use meta_ffi_project.Exchange.{outline, IsPresent, ArePresent, single_value, array}
use meta_ffi_project.Exchange.Relay.{goes_in}
use meta_ffi_project.Exchange.Extern.{
  Returned, Report, construct_cdt_out, traverse_cdt_out, traverse_cdt_out-construct_cdt_out,
}

abbrev byte : ℕ → Cdt
byte w = cdt (code Kind.int8) (word w) false

abbrev bytes : Items
bytes = cons (byte 44) (cons (byte 7) nil)

abbrev row : Cdt
row = cdt (with_array (code Kind.int8)) (array_val (cdts 2 bytes (pos 1) false)) true

byte-IsPresent : (w : ℕ) → IsPresent (byte w)
unfolding kind_of
byte-IsPresent w = single_value (λ e. cc)

row-IsConstructible : IsConstructible row
unfolding has_array
row-IsConstructible =
    branch (Common.shared Kind.int8) refl tt (omega arith) (flat (refl, (refl, tt))) (
      one_more (leaf {w = 44} Kind.int8 refl (refl, refl))
        (one_more (leaf {w = 7} Kind.int8 refl (refl, refl)) none_left))

row-IsPresent : IsPresent row
row-IsPresent = array (
    ArePresent.one_more (byte-IsPresent 44)
      (ArePresent.one_more (byte-IsPresent 7) ArePresent.none_left))

abbrev writer : Visitor (List Event)
writer = record {
  on_value = λ k index w log. log ++ (value k index w ∷ []);
  on_enter = λ index a dims common log. log ++ (enter index a dims common ∷ []);
  descend = λ index a. false;
}

traverse_cdt_out-construct_cdt_out_example :
    (c' : Cdt) × (construct_cdt_out {S = ℕ} 2 (reader row) default_cdt 5
      ≡ Returned.returned (5, some c') Report.untouched)
    × (traverse_cdt_out c' (complete (goes_in writer)) []
        ≡ Returned.returned (replay (goes_in writer) (outline row []) []) Report.untouched)
traverse_cdt_out-construct_cdt_out_example =
    traverse_cdt_out-construct_cdt_out row-IsConstructible row-IsPresent 2 writer 5 [] (omega arith)

-- What the traversal tells of the row.
outline-row :
    outline row []
    ≡ enter [] (cdts 2 bytes (pos 1) false) (pos 1) 4
      ∷ value Kind.int8 (0 ∷ []) 44
      ∷ value Kind.int8 (1 ∷ []) 7
      ∷ []
unfolding outline kind_of common_type has_array with_array without_array
outline-row = refl
