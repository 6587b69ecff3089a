-- ===== src/Exchange/Relay.antt =====
-- A value that is constructed is reported by a traversal as it was.
use meta_ffi_project.Shared.{
  ℕ, ◌+◌, ◌<◌, List, [], ◌∷◌, ◌++◌, some, Bool, true, ◌≡◌, ◌≢◌, refl, sym, ap, ◌∙◌,
}
use meta_ffi_project.Types.{Kind, code, kind_of}
use meta_ffi_project.Types.Flags.{kind_of-code}
use meta_ffi_project.Cdts.{Cdt, Cdts, Items, default_cdt}
use meta_ffi_project.Traverse.{traverse_cdt, finished}
use meta_ffi_project.Traverse.Events.{
  IsTraversable, AreTraversable, IsLeaf, payload, Visitor, complete, events, events_of, replay,
}
use meta_ffi_project.Traverse.Complete.{common_type-array_of, traverse_cdt-events}
use meta_ffi_project.Construct.{built}
use meta_ffi_project.Construct.Run.{construct_cdt, any_info}
use meta_ffi_project.Construct.Reader.{reader, depth}
use meta_ffi_project.Construct.Values.{IsMember, kept-IsCommon, IsConstructible, AreConstructible}
use meta_ffi_project.Construct.Copy.{construct_cdt-reader}
use meta_ffi_project.Exchange.{outline, outline_items, IsPresent, ArePresent, single_value, array}

-- A member that fits its type is told whole.
payload-member : (k : Kind) (w : ℕ) (fr : Bool) → IsMember k w fr → payload k w ≡ w
payload-member Kind.float32 w fr h = h.0
payload-member Kind.int8 w fr h = h.0
payload-member Kind.uint8 w fr h = h.0
payload-member Kind.int16 w fr h = h.0
payload-member Kind.uint16 w fr h = h.0
payload-member Kind.int32 w fr h = h.0
payload-member Kind.uint32 w fr h = h.0
payload-member Kind.bool w fr h = h.0
payload-member Kind.char8 w fr h = h.0
payload-member Kind.char16 w fr h = h.0
payload-member Kind.char32 w fr h = h.0
payload-member Kind.null w fr h = sym h.0
payload-member Kind.array w fr h = absurd h
payload-member _ w fr h = refl

member-IsLeaf :
    (k : Kind) (w : ℕ) (fr : Bool)
    → IsMember k w fr
    → (kind_of (code k) ≡ some Kind.callable → w ≢ 0)
    → IsLeaf k w
member-IsLeaf Kind.array w fr h p = h
member-IsLeaf Kind.callable w fr h p = p (kind_of-code Kind.callable)
member-IsLeaf _ w fr h p = tt

mutual
  present-IsTraversable : {c : Cdt} → IsConstructible c → IsPresent c → IsTraversable c
  present-IsTraversable (IsConstructible.leaf {w = w} {fr = fr} k e h) (single_value p) =
      IsTraversable.leaf k e (member-IsLeaf k w fr h (rw e at p))
  present-IsTraversable (IsConstructible.branch common e h n shape parts) (array p) =
      IsTraversable.branch common e (kept-IsCommon common h) refl (present-AreTraversable parts p)

  present-AreTraversable :
      {arr : Items} → AreConstructible arr → ArePresent arr → AreTraversable arr
  present-AreTraversable AreConstructible.none_left ArePresent.none_left = AreTraversable.none_left
  present-AreTraversable (AreConstructible.one_more t ts) (ArePresent.one_more p ps) =
      AreTraversable.one_more (present-IsTraversable t p) (present-AreTraversable ts ps)

abbrev everywhere : List ℕ → Cdts → Bool
everywhere index a = true

mutual
  unfolding events outline present-IsTraversable

  events-outline :
      {c : Cdt} (t : IsConstructible c) (p : IsPresent c) (index : List ℕ)
      → events (present-IsTraversable t p) everywhere index ≡ outline c index
  events-outline (IsConstructible.leaf {w = w} {fr = fr} k e h) (single_value p) index =
      rw (e, kind_of-code k, payload-member k w fr h) refl
  events-outline (IsConstructible.branch {arr = arr} {dims = dims} common e h n shape parts)
        (array p) index =
      rw
        (e, common_type-array_of common (kept-IsCommon common h), events_of-outline parts p index 0)
        refl

  events_of-outline :
      {arr : Items} (t : AreConstructible arr) (p : ArePresent arr) (index : List ℕ) (i : ℕ)
      → events_of (present-AreTraversable t p) everywhere index i ≡ outline_items arr index i
  events_of-outline AreConstructible.none_left ArePresent.none_left index i = refl
  events_of-outline (AreConstructible.one_more t ts) (ArePresent.one_more p ps) index i =
      rw (events-outline t p (index ++ (i ∷ [])), events_of-outline ts ps index (i + 1)) refl

-- A visitor that goes into every array.
abbrev pub goes_in : {S : Type 0} → Visitor S → Visitor S
goes_in v = record v { descend = everywhere }

-- A value that one runtime constructs, with callbacks that read it, and another traverses, with
-- callbacks that are all set and that go into every array, is told as it was: each single value with
-- its kind, its place and all its bits, and each array before its elements. The value is one that a
-- construction can give and has no null callable; the fuel is more than the nesting of its arrays.
pub traverse_cdt-construct_cdt :
    {S T : Type 0} {c : Cdt} (t : IsConstructible c) (p : IsPresent c) (fuel : ℕ) (v : Visitor T)
    (s : S) (told : T)
    → depth c < fuel
    → (c' : Cdt) × (construct_cdt fuel (reader c) default_cdt [] any_info s ≡ built c' s)
      × (traverse_cdt c' (complete (goes_in v)) [] told
          ≡ finished (replay (goes_in v) (outline c []) told))
traverse_cdt-construct_cdt {c = c} t p fuel v s told deep = (
  c,
  construct_cdt-reader t fuel s deep,
  traverse_cdt-events (present-IsTraversable t p) (goes_in v) [] told
      ∙ ap (λ es. finished (replay (goes_in v) es told)) (events-outline t p []),
)
