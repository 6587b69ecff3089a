-- ===== src/Utils/EntityPath/Equals.antt =====
-- Which texts the constructor in plugin-sdk-main/utils/entity_path_parser.cpp refuses.
use meta_ffi_project.Shared.{ℕ, ◌+◌, ◌≤◌, List, [], ◌∷◌, length, ◌≡◌, inl, inr, ◌⊎◌, arith}
use meta_ffi_project.Utils.{Bytes}
use meta_ffi_project.Utils.Env.{System}
use meta_ffi_project.Utils.Expand.{expand_env-References}
use meta_ffi_project.Utils.EntityPath.{
  Items, Parsed, insert_expanded, store, and_then, parse_item, parse_items, entity_path_parser,
}
use meta_ffi_project.Utils.EntityPath.Split.{Splits, count, length-split}

-- Some item has two `=` at least.
abbrev pub HasBad : List Bytes → Type 0
HasBad [] = ⊥
HasBad (item ∷ rest) = (2 ≤ count b'=' item) ⊎ HasBad rest

-- The two ends of the constructor, with the texts that have them.
abbrev pub Judged : Type 0 → Parsed → Type 0
Judged Bad (Parsed.parsed items) = ¬ Bad
Judged Bad Parsed.too_many_equals = Bad
Judged Bad Parsed.undefined = ⊥
Judged Bad Parsed.out_of_fuel = ⊥

store-Judged :
    (sys : System) (keyval : List Bytes) (n : ℕ) (items : Items)
    → length keyval ≡ n + 1
    → Judged (2 ≤ n) (store sys keyval items)
unfolding store insert_expanded
store-Judged sys [] n items e = omega arith
store-Judged sys (key ∷ []) n items e = λ bad. omega arith
store-Judged sys (key ∷ value ∷ []) n items e =
    let (ms, _, r) = expand_env-References sys value in rw r (λ bad. omega arith)
store-Judged sys (key ∷ value ∷ more ∷ rest) n items e = omega arith

later_Judged : (A B : Type 0) → ¬ A → (q : Parsed) → Judged B q → Judged (A ⊎ B) q
later_Judged A B h (Parsed.parsed items') b = λ bad. elim bad [ inl a ↦ h a | inr b' ↦ b b' ]
later_Judged A B h Parsed.too_many_equals b = inr b
later_Judged A B h Parsed.undefined b = b
later_Judged A B h Parsed.out_of_fuel b = b

and_then-Judged :
    (A B : Type 0) (p : Parsed) (next : Items → Parsed)
    → Judged A p
    → ((items : Items) → Judged B (next items))
    → Judged (A ⊎ B) (and_then p next)
and_then-Judged A B (Parsed.parsed items) next h k = later_Judged A B h (next items) (k items)
and_then-Judged A B Parsed.too_many_equals next h k = inl h
and_then-Judged A B Parsed.undefined next h k = absurd h
and_then-Judged A B Parsed.out_of_fuel next h k = absurd h

module _ (sys : System) (split : ℕ → Bytes → List Bytes) (splits : Splits split) where
  parse_item-Judged :
      (item : Bytes) (items : Items)
      → Judged (2 ≤ count b'=' item) (parse_item sys split item items)
  unfolding parse_item
  parse_item-Judged [] items = λ bad. omega arith
  parse_item-Judged (c ∷ cs) items =
      store-Judged sys (split b'=' (c ∷ cs)) (count b'=' (c ∷ cs)) items
        (length-split split splits b'=' (c ∷ cs))

  parse_items-Judged :
      (l : List Bytes) (items : Items) → Judged (HasBad l) (parse_items sys split l items)
  unfolding parse_items
  parse_items-Judged [] items = λ bad. bad
  parse_items-Judged (item ∷ rest) items =
      and_then-Judged (2 ≤ count b'=' item) (HasBad rest) (parse_item sys split item items)
        (parse_items sys split rest) (parse_item-Judged item items) (parse_items-Judged rest)

-- The constructor ends on every text. It throws exactly where an item between two commas has more
-- than one `=`, and it never reads past the two parts of an item.
pub entity_path_parser-Judged :
    (sys : System) (split : ℕ → Bytes → List Bytes) (entity_path : Bytes)
    → Splits split
    → Judged (HasBad (split b',' entity_path)) (entity_path_parser sys split entity_path)
unfolding entity_path_parser
entity_path_parser-Judged sys split entity_path splits =
    parse_items-Judged sys split splits (split b',' entity_path) []
