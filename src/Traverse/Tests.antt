-- ===== src/Traverse/Tests.antt =====
-- Traversals of concrete values, with callbacks that write down what they are told.
use meta_ffi_project.Shared.{ℕ, ◌≡◌, refl, true, false, not, List, [], ◌∷◌, ◌++◌, length, ◌==◌}
use meta_ffi_project.Shared.Int.{pos}
use meta_ffi_project.Types.{Kind, code, with_array, array_type, kind_of, has_array, without_array}
use meta_ffi_project.Cdts.{Cdt, cdt, word, array_val, cdts, Items, nil, cons}
use meta_ffi_project.Traverse.{
  finished, thrown, null_callable, traverse_cdt, traverse_cdts, switch_array, switch_word,
  type_to_use, common_type,
}
use meta_ffi_project.Traverse.Events.{
  IsTraversable, AreTraversable, Common, leaf, branch, none_left, one_more, Event, value, enter,
  Visitor, complete, replay, events, events_of,
}
use meta_ffi_project.Traverse.Complete.{traverse_cdt-events, traverse_cdts-events}
use meta_ffi_project.Traverse.Stops.{
  no_callable, IsStopping, here, inside, append, thorough, events_before, traverse_cdt-stops,
}

abbrev Log : Type 0
Log = List Event

-- Goes into every array but the one at the index 1.
abbrev writer : Visitor Log
writer = record {
  on_value = λ k index w log. log ++ (value k index w ∷ []);
  on_enter = λ index a dims common log. log ++ (enter index a dims common ∷ []);
  descend = λ index a. not (length index == 1);
}

abbrev byte : ℕ → Cdt
byte w = cdt (code Kind.int8) (word w) false

abbrev bytes : Items
bytes = cons (byte 300) (cons (byte 7) nil)

bytes-AreTraversable : AreTraversable bytes
bytes-AreTraversable =
    one_more (leaf Kind.int8 refl tt) (one_more (leaf Kind.int8 refl tt) none_left)

abbrev byte_array : Cdt
byte_array = cdt (with_array (code Kind.int8)) (array_val (cdts 2 bytes (pos 1) false)) true

byte_array-IsTraversable : IsTraversable byte_array
byte_array-IsTraversable = branch (Common.shared Kind.int8) refl tt refl bytes-AreTraversable

-- A byte is cut to its eight bits, and the elements come in their order.
byte_array_log :
    traverse_cdt byte_array (complete writer) [] []
    ≡ finished (
        enter [] (cdts 2 bytes (pos 1) false) (pos 1) 4
        ∷ value Kind.int8 (0 ∷ []) 44
        ∷ value Kind.int8 (1 ∷ []) 7
        ∷ [])
unfolding traverse_cdt with_array switch_array kind_of type_to_use has_array switch_word common_type
    without_array
byte_array_log = refl

-- An array in an array is told of, and at this index not gone into.
traverse_cdt-events_example :
    traverse_cdt byte_array (complete writer) (5 ∷ []) []
    ≡ finished (replay writer (events byte_array-IsTraversable writer.descend (5 ∷ [])) [])
traverse_cdt-events_example = traverse_cdt-events byte_array-IsTraversable writer (5 ∷ []) []

traverse_bytes :
    traverse_cdts (cdts 2 bytes (pos 1) false) (complete writer) [] []
    ≡ finished (replay writer (events_of bytes-AreTraversable writer.descend [] 0) [])
traverse_bytes = traverse_cdts-events bytes-AreTraversable (pos 1) false writer [] []

-- An array whose third element is a callable that is not there.
abbrev missing : Cdt
missing = cdt (code Kind.callable) (word 0) false

abbrev mixed : Cdt
mixed = cdt array_type (array_val (cdts 5 (append bytes (cons missing bytes)) (pos 1) false)) true

mixed-IsStopping : IsStopping mixed null_callable
unfolding append
mixed-IsStopping = inside bytes Common.unsaid tt bytes-AreTraversable (here no_callable)

traverse_cdt-stops_example :
    traverse_cdt mixed (complete (thorough writer)) [] []
    ≡ thrown null_callable (replay (thorough writer) (events_before mixed-IsStopping []) [])
traverse_cdt-stops_example = traverse_cdt-stops mixed-IsStopping writer [] []
