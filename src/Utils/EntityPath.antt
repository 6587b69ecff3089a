-- ===== src/Utils/EntityPath.antt =====
-- plugin-sdk-main/utils/entity_path_parser.cpp: the text "key=value,key,…" that names an entity. The
-- map is a list of keys and values; `boost::split` is a parameter.
pub mod Split
pub mod Equals
pub mod RoundTrip
use meta_ffi_project.Shared.{
  ℕ, List, [], ◌∷◌, ◌++◌, Option, none, some, Bool, true, false, ◌&&◌, ◌==◌, if◌then◌else◌,
}
use meta_ffi_project.Utils.{Bytes}
use meta_ffi_project.Utils.Env.{System, expand_env}

-- `entity_path_items`
abbrev pub Items : Type 0
Items = List (Bytes × Bytes)

-- How the constructor ends. The last two are no ends of the program: it read past a vector, or its
-- expansion of a value ran out of fuel.
pub data Parsed : Type 0 where
  parsed : Items → Parsed
  too_many_equals undefined out_of_fuel : Parsed

abbrev pub same : Bytes → Bytes → Bool
same [] [] = true
same [] (d ∷ ds) = false
same (c ∷ cs) [] = false
same (c ∷ cs) (d ∷ ds) = let rest = same cs ds in c == d && rest

-- `find`
unfoldable pub find : Bytes → Items → Option Bytes
find key [] = none
find key ((k, v) ∷ items) = let rest = find key items in if same key k then some v else rest

-- `entity_path_items[key] = value`
unfoldable pub insert : Bytes → Bytes → Items → Items
insert key value [] = (key, value) ∷ []
insert key value ((k, v) ∷ items) =
    let rest = insert key value items in if same key k then (k, value) ∷ items else (k, v) ∷ rest

-- `operator[]`
unfoldable pub get : Items → Bytes → Bytes
unfolding find
get items key = elim (find key items) [ none ↦ [] | some v ↦ v ]

unfoldable pub contains : Items → Bytes → Bool
unfolding find
contains items key = elim (find key items) [ none ↦ false | some v ↦ true ]

unfoldable pub insert_expanded : Bytes → Option Bytes → Items → Parsed
unfolding insert
insert_expanded key none items = Parsed.out_of_fuel
insert_expanded key (some exp) items = Parsed.parsed (insert key exp items)

-- The body of the loop behind the second `split`.
unfoldable pub store : System → List Bytes → Items → Parsed
unfolding insert_expanded insert
store sys [] items = Parsed.undefined
store sys (key ∷ []) items = Parsed.parsed (insert key [] items)
store sys (key ∷ value ∷ []) items = insert_expanded key (expand_env sys value) items
store sys (key ∷ value ∷ more ∷ rest) items = Parsed.too_many_equals

abbrev pub and_then : Parsed → (Items → Parsed) → Parsed
and_then (Parsed.parsed items) next = next items
and_then Parsed.too_many_equals next = Parsed.too_many_equals
and_then Parsed.undefined next = Parsed.undefined
and_then Parsed.out_of_fuel next = Parsed.out_of_fuel

module _ (sys : System) (split : ℕ → Bytes → List Bytes) where
  unfoldable pub parse_item : Bytes → Items → Parsed
  parse_item [] items = Parsed.parsed items
  parse_item (c ∷ cs) items = store sys (split b'=' (c ∷ cs)) items

  unfoldable pub parse_items : List Bytes → Items → Parsed
  parse_items [] items = Parsed.parsed items
  parse_items (item ∷ rest) items = and_then (parse_item item items) (parse_items rest)

  -- The constructor.
  unfoldable pub entity_path_parser : Bytes → Parsed
  entity_path_parser entity_path = parse_items (split b',' entity_path) []
