-- ===== src/Utils/EntityPath/RoundTrip.antt =====
-- Writing an entity's path and reading it by plugin-sdk-main/utils/entity_path_parser.cpp.
use meta_ffi_project.Shared.{
  ℕ, ◌≤◌, List, [], ◌∷◌, ◌++◌, map, length, length-append, Option, none, some, Option-cases, Bool,
  true, false, ◌&&◌, Bool-cases, ◌≡◌, refl, inl, inr, ap, ◌∙◌, ◌==◌, ==_iff, if◌then◌else◌, arith,
}
use meta_ffi_project.Utils.{Bytes}
use meta_ffi_project.Utils.Env.{System}
use meta_ffi_project.Utils.Plain.{All, All-append, All-weaken, is_plain, expand_env-plain}
use meta_ffi_project.Utils.EntityPath.{
  Items, parsed, same, find, insert, get, contains, insert_expanded, store, parse_item, parse_items,
  entity_path_parser,
}
use meta_ffi_project.Utils.EntityPath.Split.{Splits, is_not}

-- A key has no separator; a value has no reference to a variable either.
abbrev pub in_key : ℕ → Bool
in_key c = is_not b',' c && is_not b'=' c

abbrev pub in_value : ℕ → Bool
in_value c = in_key c && is_plain c

abbrev pub AreItems : Items → Type 0
AreItems [] = Unit
AreItems ((k, v) ∷ l) = (All in_key k × All in_value v) × AreItems l

abbrev pub print_item : Bytes × Bytes → Bytes
print_item (k, v) = k ++ b'=' ∷ v

abbrev pub print : Items → Bytes
print [] = []
print (e ∷ []) = print_item e
print (e ∷ e' ∷ l) = print_item e ++ b',' ∷ print (e' ∷ l)

-- What the last item with a key says.
abbrev pub last_value : Bytes → Items → Option Bytes
last_value key [] = none
last_value key ((k, v) ∷ l) = elim (last_value key l) [
  | some later ↦ some later
  | none ↦ if same key k then some v else none
]

pub same_sound : (s t : Bytes) → same s t ≡ true → s ≡ t
same_sound [] [] h = refl
same_sound [] (d ∷ ds) h = cc
same_sound (c ∷ cs) [] h = cc
same_sound (c ∷ cs) (d ∷ ds) h = elim (Bool-cases (c == d)) [
  | inl t ↦ ap (◌∷◌ c) (same_sound cs ds (rw t at h)) ∙ ap (λ x. x ∷ ds) ((==_iff c d).0 t)
  | inr f ↦ cc (rw f at h)
]

pub same_refl : (s : Bytes) → same s s ≡ true
same_refl [] = refl
same_refl (c ∷ cs) = ground (arith, same_refl cs)

different : (key k k' : Bytes) → same key k' ≡ true → same key k ≡ true → same k k' ≡ true
different key k k' t1 t2 = rw (same_sound key k t2) at t1

find-insert :
    (key k v : Bytes) (m : Items)
    → find key (insert k v m) ≡ (if same key k then some v else find key m)
unfolding find insert
find-insert key k v [] = refl
find-insert key k v ((k', v') ∷ m) = elim (Bool-cases (same k k')) [
  | inl t ↦ elim (Bool-cases (same key k)) [
    | inl t2 ↦ let t3 : same key k' ≡ true = rw (same_sound k k' t) at t2 in rw (t, t2, t3) refl
    | inr f2 ↦ let f3 : same key k' ≡ false = rw (same_sound k k' t) at f2 in rw (t, f2, f3) refl
  ]
  | inr f ↦
      rw (f, find-insert key k v m)
        (elim (Bool-cases (same key k')) [
          | inr f1 ↦ rw f1 refl
          | inl t1 ↦ elim (Bool-cases (same key k)) [
            | inr f2 ↦ rw (t1, f2) refl
            | inl t2 ↦ cc (different key k k' t1 t2, f)
          ]
        ])
]

abbrev pub insert_all : Items → Items → Items
insert_all [] m = m
insert_all ((k, v) ∷ l) m = insert_all l (insert k v m)

abbrev from_last : Option Bytes → Option Bytes → Option Bytes
from_last none before = before
from_last (some v) before = some v

find-insert_all :
    (key : Bytes) (l m : Items)
    → find key (insert_all l m) ≡ from_last (last_value key l) (find key m)
find-insert_all key [] m = refl
find-insert_all key ((k, v) ∷ l) m = elim (Option-cases (last_value key l)) [
  | inr (w, e) ↦ rw (find-insert_all key l (insert k v m), e, last_value) refl
  | inl e ↦ elim (Bool-cases (same key k)) [
    | inl t ↦
        rw (find-insert_all key l (insert k v m), e, last_value, find-insert key k v m, t) refl
    | inr f ↦
        rw (find-insert_all key l (insert k v m), e, last_value, find-insert key k v m, f) refl
  ]
]

from_last-none : (o : Option Bytes) → from_last o none ≡ o
from_last-none none = refl
from_last-none (some v) = refl

find-all : (key : Bytes) (l : Items) → find key (insert_all l []) ≡ last_value key l
unfolding find
find-all key l = find-insert_all key l [] ∙ from_last-none (last_value key l)

module _ (sys : System) (split : ℕ → Bytes → List Bytes) (splits : Splits split) where
  parse_item-bytes :
      (s : Bytes) (m : Items) → 1 ≤ length s → parse_item sys split s m ≡ store sys (split b'=' s) m
  unfolding parse_item
  parse_item-bytes [] m n = absurd (omega arith)
  parse_item-bytes (c ∷ cs) m n = refl

  split-item :
      (k v : Bytes) → All in_key k → All in_value v → split b'=' (print_item (k, v)) ≡ k ∷ v ∷ []
  split-item k v hk hv =
      splits.first b'=' k v (All-weaken in_key (is_not b'=') k (λ c h. ground arith) hk)
      ∙ ap (◌∷◌ k)
          (splits.token b'=' v (All-weaken in_value (is_not b'=') v (λ c h. ground arith) hv))

  parse_item-print :
      (k v : Bytes) (m : Items)
      → All in_key k
      → All in_value v
      → parse_item sys split (print_item (k, v)) m ≡ parsed (insert k v m)
  unfolding store insert_expanded
  parse_item-print k v m hk hv =
      rw
        (
          parse_item-bytes (print_item (k, v)) m (omega (arith, length-append k (b'=' ∷ v))),
          split-item k v hk hv,
          expand_env-plain sys v (All-weaken in_value is_plain v (λ c h. ground arith) hv),
        )
        refl

  parse_items-print :
      (l m : Items)
      → AreItems l
      → parse_items sys split (map print_item l) m ≡ parsed (insert_all l m)
  unfolding parse_items
  parse_items-print [] m h = refl
  parse_items-print ((k, v) ∷ l) m ((hk, hv), hs) =
      rw (parse_item-print k v m hk hv, parse_items-print l (insert k v m) hs) refl

  no_comma : (k v : Bytes) → All in_key k → All in_value v → All (is_not b',') (print_item (k, v))
  no_comma k v hk hv =
      All-append (is_not b',') k (b'=' ∷ v)
        (All-weaken in_key (is_not b',') k (λ c h. ground arith) hk)
        (refl, All-weaken in_value (is_not b',') v (λ c h. ground arith) hv)

  split-print :
      (k v : Bytes) (l : Items)
      → AreItems ((k, v) ∷ l)
      → split b',' (print ((k, v) ∷ l)) ≡ map print_item ((k, v) ∷ l)
  split-print k v [] ((hk, hv), hs) = splits.token b',' (print_item (k, v)) (no_comma k v hk hv)
  split-print k v ((k', v') ∷ l) ((hk, hv), hs) =
      splits.first b',' (print_item (k, v)) (print ((k', v') ∷ l)) (no_comma k v hk hv)
      ∙ ap (◌∷◌ (print_item (k, v))) (split-print k' v' l hs)

  parse-print :
      (l : Items) → AreItems l → entity_path_parser sys split (print l) ≡ parsed (insert_all l [])
  unfolding entity_path_parser parse_items parse_item
  parse-print [] h = rw (splits.token b',' [] tt) refl
  parse-print ((k, v) ∷ l) h = rw (split-print k v l h) (parse_items-print ((k, v) ∷ l) [] h)

-- Items whose keys have no comma and no `=`, and whose values have no comma, no `=`, no `%` and no `$`,
-- are read back from their text, each key and value with `=` between them and the items joined by
-- commas: a key has the value of its last item, the empty text where it has no item, and it is
-- contained exactly where it has one. The split of Boost cuts a text at each separator (Splits).
pub entity_path_parser-print :
    (sys : System) (split : ℕ → Bytes → List Bytes) (l : Items)
    → Splits split
    → AreItems l
    → (items : Items) × (entity_path_parser sys split (print l) ≡ parsed items)
      × ((key : Bytes) → get items key ≡ elim (last_value key l) [ none ↦ [] | some v ↦ v ])
      × ((key : Bytes)
          → contains items key ≡ elim (last_value key l) [ none ↦ false | some v ↦ true ])
unfolding get contains find
entity_path_parser-print sys split l splits h = (
  insert_all l [],
  parse-print sys split splits l h,
  λ key. ap (λ o. elim o [ none ↦ [] | some v ↦ v ]) (find-all key l),
  λ key. ap (λ o. elim o [ none ↦ false | some v ↦ true ]) (find-all key l),
)
