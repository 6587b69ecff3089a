-- ===== src/TypeInfo/Owned.antt =====
-- Who owns the blocks of the aliases of plugin-sdk-main/runtime/metaffi_primitives.h.
use meta_ffi_project.Shared.{
  ℕ, ◌<◌, ◌≤◌, List, Option, none, some, Bool, true, false, Bool-cases, ◌==◌, ==_iff, ◌≡◌, refl,
  ◌≢◌, ◌⊎◌, inl, inr, sym, ap, ◌∙◌, if◌then◌else◌, arith,
}
use mathlib.Core.Option.{some-injective}
use meta_ffi_project.TypeInfo.{Pointer, block, Info, Store, put, remove, release, allocate}

-- An alias that is to be freed is a block; a block that is an alias is to be freed, was allocated and
-- not given back; and no two objects have the same block.
pub record IsOwned (st : Store) : Type 0 where
  pub owner :
      (i : ℕ) (x : Info)
      → st.objects i ≡ some x
      → x.is_free_alias ≡ true
      → (b : ℕ) × (x.alias ≡ block b)
  pub live :
      (i : ℕ) (x : Info) (b : ℕ)
      → st.objects i ≡ some x
      → x.alias ≡ block b
      → (x.is_free_alias ≡ true) × (b < st.next) × (st.released b ≡ false)
  pub fresh : (b : ℕ) → st.next ≤ b → st.released b ≡ false
  pub apart :
      (i j : ℕ) (x y : Info) (b : ℕ)
      → st.objects i ≡ some x
      → st.objects j ≡ some y
      → x.alias ≡ block b
      → y.alias ≡ block b
      → i ≡ j

-- An object that can be put at an address.
pub record Fits (st : Store) (i : ℕ) (x : Info) : Type 0 where
  pub owner : x.is_free_alias ≡ true → (b : ℕ) × (x.alias ≡ block b)
  pub live :
      (b : ℕ)
      → x.alias ≡ block b
      → (x.is_free_alias ≡ true) × (b < st.next) × (st.released b ≡ false)
  pub alone :
      (k : ℕ) (y : Info) (b : ℕ)
      → k ≢ i
      → st.objects k ≡ some y
      → y.alias ≡ block b
      → x.alias ≢ block b

abbrev number : Pointer → ℕ
number (Pointer.block b) = b
number _ = 0

pub block-injective : (a b : ℕ) → block a ≡ block b → a ≡ b
block-injective a b e = ap number e

-- An object of the store after a write: the one written, or another that was there.
pub put_at :
    (i : ℕ) (info : Info) (objects : ℕ → Option Info) (k : ℕ) (x : Info)
    → (if k == i then some info else objects k) ≡ some x
    → ((k ≡ i) × (info ≡ x)) ⊎ ((k ≢ i) × (objects k ≡ some x))
put_at i info objects k x e = elim (Bool-cases (k == i)) [
  | inl t ↦ inl ((==_iff k i).0 t, some-injective info x (rw t at e))
  | inr f ↦ inr (λ same. cc ((==_iff k i).1 same, f), rw f at e)
]

pub remove_at :
    (i : ℕ) (objects : ℕ → Option Info) (k : ℕ) (x : Info)
    → (if k == i then none else objects k) ≡ some x
    → (k ≢ i) × (objects k ≡ some x)
remove_at i objects k x e = elim (Bool-cases (k == i)) [
  | inl t ↦ cc (rw t at e)
  | inr f ↦ (λ same. cc ((==_iff k i).1 same, f), rw f at e)
]

released_other :
    (b c : ℕ) (released : ℕ → Bool)
    → c ≢ b
    → released c ≡ false
    → (if c == b then true else released c) ≡ false
released_other b c released other kept = elim (Bool-cases (c == b)) [
  | inl t ↦ absurd (other ((==_iff c b).0 t))
  | inr f ↦ rw (f, kept) refl
]

module _ (st : Store) (sound : IsOwned st) where
  pub put-IsOwned : (i : ℕ) (info : Info) → Fits st i info → IsOwned (put i info st)
  put-IsOwned i info fits = record {
    owner = λ k x e f. elim (put_at i info st.objects k x e) [
      | inl (_, same) ↦
          let (b, a) = fits.owner (rw (sym same) at f) in (b, ap (λ z. z.alias) (sym same) ∙ a)
      | inr (_, old) ↦ sound.owner k x old f
    ];
    live = λ k x b e a. elim (put_at i info st.objects k x e) [
      | inl (_, same) ↦
          let (f, less, kept) = fits.live b (rw (sym same) at a) in
          (ap (λ z. z.is_free_alias) (sym same) ∙ f, less, kept)
      | inr (_, old) ↦ sound.live k x b old a
    ];
    fresh = sound.fresh;
    apart = λ k l x y b e e' a a'. elim (put_at i info st.objects k x e) [
      | inl (at_i, same) ↦ elim (put_at i info st.objects l y e') [
        | inl (at_i', _) ↦ at_i ∙ sym at_i'
        | inr (other, old') ↦ absurd (fits.alone l y b other old' a' (rw (sym same) at a))
      ]
      | inr (other, old) ↦ elim (put_at i info st.objects l y e') [
        | inl (_, same) ↦ absurd (fits.alone k x b other old a (rw (sym same) at a'))
        | inr (_, old') ↦ sound.apart k l x y b old old' a a'
      ]
    ];
  }

  pub allocate-IsOwned : (text : List ℕ) → IsOwned (allocate text st)
  allocate-IsOwned text = record {
    owner = sound.owner;
    live = λ k x b e a. let (f, less, kept) = sound.live k x b e a in (f, omega arith, kept);
    fresh = λ b h. sound.fresh b (omega arith);
    apart = sound.apart;
  }

  pub remove-IsOwned : (i : ℕ) → IsOwned (remove i st)
  remove-IsOwned i = record {
    owner = λ k x e. sound.owner k x (remove_at i st.objects k x e).1;
    live = λ k x b e. sound.live k x b (remove_at i st.objects k x e).1;
    fresh = sound.fresh;
    apart = λ k l x y b e e'.
        sound.apart k l x y b (remove_at i st.objects k x e).1 (remove_at i st.objects l y e').1;
  }

  pub release-IsOwned :
      (b : ℕ)
      → b < st.next
      → ((k : ℕ) (y : Info) → st.objects k ≡ some y → y.alias ≢ block b)
      → IsOwned (release b st)
  release-IsOwned b less unused = record {
    owner = sound.owner;
    live = λ k x c e a.
        let (f, small, kept) = sound.live k x c e a in
        (f, small, released_other b c st.released (λ q. unused k x e (a ∙ ap block q)) kept);
    fresh = λ c h. released_other b c st.released (omega arith) (sound.fresh c h);
    apart = sound.apart;
  }

  -- The same objects, written in another order.
  pub same-IsOwned :
      (f : ℕ → Option Info) → ((k : ℕ) → f k ≡ st.objects k) → IsOwned (record st { objects = f })
  same-IsOwned f h = record {
    owner = λ k x e. sound.owner k x (sym (h k) ∙ e);
    live = λ k x b e. sound.live k x b (sym (h k) ∙ e);
    fresh = sound.fresh;
    apart = λ k l x y b e e'. sound.apart k l x y b (sym (h k) ∙ e) (sym (h l) ∙ e');
  }
