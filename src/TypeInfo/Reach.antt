-- ===== src/TypeInfo/Reach.antt =====
-- The stores that a program can reach with objects of `metaffi_type_info` in
-- plugin-sdk-main/runtime/metaffi_primitives.h.
use meta_ffi_project.Shared.{
  ℕ, List, none, some, Bool, true, false, Bool-cases, ◌==◌, ==_iff, ◌≡◌, refl, inl, inr, arith,
}
use meta_ffi_project.Shared.Int.{ℤ, pos, negsuc}
use meta_ffi_project.Types.{Kind, code}
use meta_ffi_project.TypeInfo.{
  Pointer, Info, Store, Result, done, fault, put, plain, construct, set_copy_alias, copy_assign,
  move_assign, copy_construct, move_construct, destroy,
}
use meta_ffi_project.TypeInfo.Owned.{IsOwned, put-IsOwned}
use meta_ffi_project.TypeInfo.Steps.{
  Keeps, Within, Lasts, plain-Fits, construct-Keeps, construct_copied-Keeps, set_copy_alias-Keeps,
  copy_assign-Keeps, move_assign-Keeps, destroy-Keeps,
}

-- An operation of the program: an object is made at an address where none is, and used at one where
-- one is. The alias that a constructor is given without a copy lasts; one that it copies lasts or is
-- the alias of an object that is there.
pub data Step : Store → Result → Type 0 where
  constructs :
      {st : Store} (i type : ℕ) (alias : Pointer) (copy : Bool) (dims : ℤ)
      → st.objects i ≡ none
      → Lasts alias
      → Step st (construct i type alias copy dims st)
  constructs_copy :
      {st : Store} (i j type : ℕ) (y : Info) (dims : ℤ)
      → st.objects i ≡ none
      → st.objects j ≡ some y
      → Step st (construct i type y.alias true dims st)
  copies_new :
      {st : Store} (i j : ℕ) (y : Info)
      → st.objects i ≡ none
      → st.objects j ≡ some y
      → Step st (copy_construct i j st)
  moves_new :
      {st : Store} (i j : ℕ) (y : Info)
      → st.objects i ≡ none
      → st.objects j ≡ some y
      → Step st (move_construct i j st)
  sets :
      {st : Store} (text : List ℕ) (len : ℤ) (i : ℕ) (x : Info)
      → st.objects i ≡ some x
      → Within text len
      → Step st (set_copy_alias text len i st)
  copies :
      {st : Store} (i j : ℕ) (x y : Info)
      → st.objects i ≡ some x
      → st.objects j ≡ some y
      → Step st (copy_assign i j st)
  moves :
      {st : Store} (i j : ℕ) (x y : Info)
      → st.objects i ≡ some x
      → st.objects j ≡ some y
      → Step st (move_assign i j st)
  destroys : {st : Store} (i : ℕ) (x : Info) → st.objects i ≡ some x → Step st (destroy i st)

-- Before there is any object.
abbrev pub nothing : Store
nothing = record { objects = λ i. none; next = 0; content = λ b. List.[]; released = λ b. false }

pub data Reachable : Store → Type 0 where
  start : Reachable nothing
  then : {st st' : Store} → Reachable st → Step st (done st') → Reachable st'

pub nothing-IsOwned : IsOwned nothing
nothing-IsOwned = record {
  owner = λ i x e. cc;
  live = λ i x b e. cc;
  fresh = λ b h. refl;
  apart = λ i j x y b e. cc;
}

pub put_here : (i : ℕ) (info : Info) (st : Store) → (put i info st).objects i ≡ some info
put_here i info st = let same : (i == i) ≡ true = ground arith in rw same refl

put_there :
    (i j : ℕ) (info y : Info) (st : Store)
    → st.objects i ≡ none
    → st.objects j ≡ some y
    → (put i info st).objects j ≡ some y
put_there i j info y st e e' = elim (Bool-cases (j == i)) [
  | inr f ↦ rw f e'
  | inl t ↦ cc (rw ((==_iff j i).0 t) at e', e)
]

Step-Keeps : {st : Store} {r : Result} → IsOwned st → Step st r → Keeps r
unfolding copy_construct move_construct
Step-Keeps {st} sound (Step.constructs i type alias copy dims e h) =
    construct-Keeps st sound i type alias copy dims h
Step-Keeps {st} sound (Step.constructs_copy i j type y dims e e') =
    construct_copied-Keeps st sound i j type y dims e'
Step-Keeps {st} sound (Step.copies_new i j y e e') =
    let new = plain (code Kind.null) (pos 0) in
    copy_assign-Keeps (put i new st)
      (put-IsOwned st sound i new (plain-Fits st sound i (code Kind.null) (pos 0))) i j new y
      (put_here i new st) (put_there i j new y st e e')
Step-Keeps {st} sound (Step.moves_new i j y e e') =
    let new = plain (code Kind.null) (negsuc 0) in
    move_assign-Keeps (put i new st)
      (put-IsOwned st sound i new (plain-Fits st sound i (code Kind.null) (negsuc 0))) i j new y
      (put_here i new st) (put_there i j new y st e e')
Step-Keeps {st} sound (Step.sets text len i x e h) = set_copy_alias-Keeps st sound text len i x e h
Step-Keeps {st} sound (Step.copies i j x y e e') = copy_assign-Keeps st sound i j x y e e'
Step-Keeps {st} sound (Step.moves i j x y e e') = move_assign-Keeps st sound i j x y e e'
Step-Keeps {st} sound (Step.destroys i x e) = destroy-Keeps st sound i x e

pub reachable-IsOwned : {st : Store} → Reachable st → IsOwned st
reachable-IsOwned Reachable.start = nothing-IsOwned
reachable-IsOwned (Reachable.then before step) = Step-Keeps (reachable-IsOwned before) step

-- Whatever objects a program has made, copied, moved and destroyed, its next operation ends without a
-- read of a block that was given back and without giving a block back twice; and each block that is
-- an alias then has one owner, which is to free it. The alias that a constructor is given without a
-- copy is NULL or a text that stays as long as the program, and one that it copies is such an alias
-- or that of an object that is there; set_copy_alias is given a text and a length within it.
pub Reachable-Step :
    (st : Store) (r : Result)
    → Reachable st
    → Step st r
    → (st' : Store) × (r ≡ done st') × IsOwned st'
Reachable-Step st (done st') reach step = (st', refl, Step-Keeps (reachable-IsOwned reach) step)
Reachable-Step st fault reach step = absurd (Step-Keeps (reachable-IsOwned reach) step)
