-- ===== src/TypeInfo/Alias.antt =====
-- The alias that a copy assignment of `metaffi_type_info` leaves in
-- plugin-sdk-main/runtime/metaffi_primitives.h.
use meta_ffi_project.Shared.{ℕ, List, some, true, false, ◌==◌, ◌≡◌, refl, ◌≢◌, ◌∙◌, arith}
use mathlib.Core.Option.{some-injective}
use meta_ffi_project.TypeInfo.{
  Pointer, block, Info, Store, done, put, allocate, text_of, copy_assign, copy_between, copy_alias,
}
use meta_ffi_project.TypeInfo.Owned.{IsOwned}
use meta_ffi_project.TypeInfo.Reach.{Reachable, reachable-IsOwned, put_here}

module _ (st : Store) (i j : ℕ) (x y : Info) (apart : i ≢ j) (at_i : st.objects i ≡ some x)
    (at_j : st.objects j ≡ some y) where
  copy_assign_other : copy_assign i j st ≡ copy_alias x y y.alias (text_of y.alias st) i st
  unfolding copy_assign copy_between
  copy_assign_other =
      let other : (i == j) ≡ false = ground arith in rw (other, at_i, at_j, copy_between) refl

  -- The target then, with an alias in the next block.
  abbrev copied : Info
  copied = record {
    type = y.type;
    alias = block st.next;
    is_free_alias = true;
    fixed_dimensions = y.fixed_dimensions;
  }

  copy_alias-some :
      (alias : Pointer) (text : List ℕ)
      → text_of alias st ≡ some text
      → copy_alias x y alias (text_of alias st) i st ≡ done (put i copied (allocate text st))
  unfolding copy_alias
  copy_alias-some Pointer.null text e = cc
  copy_alias-some (Pointer.outside t) text e = rw (some-injective t text e) refl
  copy_alias-some (Pointer.block b) text e = rw e refl

  next_text : (text : List ℕ) → IsOwned st → text_of (block st.next) (allocate text st) ≡ some text
  next_text text sound =
      let here : (st.next == st.next) ≡ true = ground arith in
      rw (sound.fresh st.next (omega arith), here) refl

-- A copy assignment between two objects, of which the source has an alias, takes the type, and the
-- target has a copy of the alias' text in memory that it owns.
pub copy_assign-text_of :
    (st : Store) (i j : ℕ) (x y : Info) (text : List ℕ)
    → Reachable st
    → i ≢ j
    → st.objects i ≡ some x
    → st.objects j ≡ some y
    → text_of y.alias st ≡ some text
    → (st' : Store) × (x' : Info) × (copy_assign i j st ≡ done st')
      × (st'.objects i ≡ some x')
      × (x'.type ≡ y.type)
      × (x'.is_free_alias ≡ true)
      × (text_of x'.alias st' ≡ some text)
copy_assign-text_of st i j x y text reach apart at_i at_j e =
    let x' = copied st i j x y apart at_i at_j in
    (
      put i x' (allocate text st),
      x',
      copy_assign_other st i j x y apart at_i at_j
          ∙ copy_alias-some st i j x y apart at_i at_j y.alias text e,
      put_here i x' (allocate text st),
      refl,
      refl,
      next_text st i j x y apart at_i at_j text (reachable-IsOwned reach),
    )

-- A copy assignment between two objects, of which the source has no alias, takes the type and the
-- dimensions, and leaves the target the alias that it had.
pub copy_assign_stale :
    (st : Store) (i j : ℕ) (x y : Info)
    → i ≢ j
    → st.objects i ≡ some x
    → st.objects j ≡ some y
    → y.alias ≡ Pointer.null
    → copy_assign i j st
      ≡ done (put i (record x { type = y.type; fixed_dimensions = y.fixed_dimensions }) st)
unfolding copy_alias
copy_assign_stale st i j x y apart at_i at_j e =
    copy_assign_other st i j x y apart at_i at_j ∙ rw (e, copy_alias) refl
