-- ===== src/TypeInfo/Steps.antt =====
-- What a program can do with objects of `metaffi_type_info` in plugin-sdk-main/runtime/metaffi_primitives.h,
-- one operation after the other.
use meta_ffi_project.Shared.{
  ℕ, ◌+◌, ◌≤◌, List, length, take, ltb, some, Bool, true, false, Bool-cases, ◌==◌, ==_iff, ◌≡◌,
  refl, ◌≢◌, inl, inr, sym, if◌then◌else◌, arith,
}
use meta_ffi_project.Shared.Int.{ℤ, pos, negsuc}
use meta_ffi_project.TypeInfo.{
  Pointer, block, Info, Store, Result, done, fault, put, remove, allocate, own, plain, text_of,
  construct, construct_copied, set_alias, set_copy_alias, copy_alias, copy_between, copy_assign,
  move_between, move_assign, delete_alias, destroy_object, destroy,
}
use meta_ffi_project.TypeInfo.Owned.{
  IsOwned, Fits, put_at, remove_at, put-IsOwned, allocate-IsOwned, remove-IsOwned, release-IsOwned,
  same-IsOwned, block-injective,
}

-- The operation ends, and its store is again one whose blocks have one owner.
abbrev pub Keeps : Result → Type 0
Keeps (done st) = IsOwned st
Keeps fault = ⊥

-- The length that `set_copy_alias` is given stays within the text and its end.
abbrev pub Within : List ℕ → ℤ → Type 0
Within text (negsuc n) = Unit
Within text (pos n) = n ≤ length text + 1

-- An alias that is no block of an object: NULL, or a text that stays as long as the program.
abbrev pub Lasts : Pointer → Type 0
Lasts Pointer.null = Unit
Lasts (Pointer.outside text) = Unit
Lasts (Pointer.block b) = ⊥

module _ (st : Store) (sound : IsOwned st) where
  own-Keeps : (info : Info) (text : List ℕ) (i : ℕ) → Keeps (own info text i st)
  own-Keeps info text i =
      put-IsOwned (allocate text st) (allocate-IsOwned st sound text) i
        (record info { alias = block st.next; is_free_alias = true })
        (record {
          owner = λ f. (st.next, refl);
          live = λ b a.
              let n = block-injective st.next b a in
              (refl, omega arith, sound.fresh b (omega arith));
          alone = λ k y b other e a a'.
              let n = block-injective st.next b a' in
              let (_, less, _) = sound.live k y b e a in omega arith;
        })

  pub plain-Fits : (i type : ℕ) (dims : ℤ) → Fits st i (plain type dims)
  plain-Fits i type dims = record {
    owner = λ f. cc;
    live = λ b a. cc;
    alone = λ k y b other e a a'. cc;
  }

  outside-Fits :
      (i type : ℕ) (text : List ℕ) (dims : ℤ)
      → Fits st i (record (plain type dims) { alias = Pointer.outside text })
  outside-Fits i type text dims = record {
    owner = λ f. cc;
    live = λ b a. cc;
    alone = λ k y b other e a a'. cc;
  }

  pub construct-Keeps :
      (i type : ℕ) (alias : Pointer) (copy : Bool) (dims : ℤ)
      → Lasts alias
      → Keeps (construct i type alias copy dims st)
  unfolding construct
  construct-Keeps i type Pointer.null copy dims h =
      put-IsOwned st sound i (plain type dims) (plain-Fits i type dims)
  construct-Keeps i type (Pointer.outside text) true dims h = own-Keeps (plain type dims) text i
  construct-Keeps i type (Pointer.outside text) false dims h =
      put-IsOwned st sound i (record (plain type dims) { alias = Pointer.outside text })
        (outside-Fits i type text dims)
  construct-Keeps i type (Pointer.block b) copy dims h = absurd h

  -- A copy of an alias that an object has.
  copied-Keeps :
      (i j type : ℕ) (y : Info) (alias : Pointer) (dims : ℤ)
      → st.objects j ≡ some y
      → y.alias ≡ alias
      → Keeps (construct i type alias true dims st)
  unfolding construct construct_copied
  copied-Keeps i j type y Pointer.null dims e a =
      put-IsOwned st sound i (plain type dims) (plain-Fits i type dims)
  copied-Keeps i j type y (Pointer.outside text) dims e a = own-Keeps (plain type dims) text i
  copied-Keeps i j type y (Pointer.block b) dims e a =
      let (_, _, kept) = sound.live j y b e a in
      rw kept (own-Keeps (plain type dims) (st.content b) i)

  pub construct_copied-Keeps :
      (i j type : ℕ) (y : Info) (dims : ℤ)
      → st.objects j ≡ some y
      → Keeps (construct i type y.alias true dims st)
  construct_copied-Keeps i j type y dims e = copied-Keeps i j type y y.alias dims e refl

  pub set_copy_alias-Keeps :
      (text : List ℕ) (len : ℤ) (i : ℕ) (x : Info)
      → st.objects i ≡ some x
      → Within text len
      → Keeps (set_copy_alias text len i st)
  unfolding set_copy_alias set_alias
  set_copy_alias-Keeps text (negsuc n) i x e h = rw (e, set_alias) (own-Keeps x text i)
  set_copy_alias-Keeps text (pos n) i x e h =
      let short : ltb (length text + 1) n ≡ false = ground arith in
      rw (e, set_alias, short) (own-Keeps x (take n text) i)

  -- An object whose type and dimensions change owns what it did.
  retyped-Fits :
      (i : ℕ) (x : Info) (type : ℕ) (dims : ℤ)
      → st.objects i ≡ some x
      → Fits st i (record x { type = type; fixed_dimensions = dims })
  retyped-Fits i x type dims e = record {
    owner = sound.owner i x e;
    live = λ b a. sound.live i x b e a;
    alone = λ k y b other e' a a'. other (sound.apart k i y x b e' e a a');
  }

  copy_alias-Keeps :
      (i j : ℕ) (x y : Info) (alias : Pointer)
      → st.objects i ≡ some x
      → st.objects j ≡ some y
      → y.alias ≡ alias
      → Keeps (copy_alias x y alias (text_of alias st) i st)
  unfolding copy_alias
  copy_alias-Keeps i j x y Pointer.null e e' a =
      put-IsOwned st sound i (record x { type = y.type; fixed_dimensions = y.fixed_dimensions })
        (retyped-Fits i x y.type y.fixed_dimensions e)
  copy_alias-Keeps i j x y (Pointer.outside text) e e' a =
      own-Keeps (record x { type = y.type; fixed_dimensions = y.fixed_dimensions }) text i
  copy_alias-Keeps i j x y (Pointer.block b) e e' a =
      let (_, _, kept) = sound.live j y b e' a in
      rw kept (
        own-Keeps (record x { type = y.type; fixed_dimensions = y.fixed_dimensions }) (st.content b)
          i)

  pub copy_assign-Keeps :
      (i j : ℕ) (x y : Info)
      → st.objects i ≡ some x
      → st.objects j ≡ some y
      → Keeps (copy_assign i j st)
  unfolding copy_assign copy_between
  copy_assign-Keeps i j x y e e' = elim (Bool-cases (i == j)) [
    | inl t ↦ rw t sound
    | inr f ↦ rw (f, e, e', copy_between) (copy_alias-Keeps i j x y y.alias e e' refl)
  ]

  abbrev emptied : Info → Info
  emptied y = record y { alias = Pointer.null; is_free_alias = false }

  emptied-Fits : (j : ℕ) (y : Info) → Fits st j (emptied y)
  emptied-Fits j y = record { owner = λ f. cc; live = λ b a. cc; alone = λ k z b other e a a'. cc }

  -- The source's alias at the target, once the source has none.
  moved-Fits :
      (i j : ℕ) (y : Info) → i ≢ j → st.objects j ≡ some y → Fits (put j (emptied y) st) i y
  moved-Fits i j y apart e = record {
    owner = sound.owner j y e;
    live = λ b a. sound.live j y b e a;
    alone = λ k z b other e' a a'. elim (put_at j (emptied y) st.objects k z e') [
      | inl (_, same) ↦ cc (rw (sym same) at a)
      | inr (not_j, old) ↦ not_j (sound.apart k j z y b old e a a')
    ];
  }

  swapped :
      (i j : ℕ) (y : Info) (k : ℕ)
      → i ≢ j
      → (if k == j then some (emptied y) else (if k == i then some y else st.objects k))
        ≡ (if k == i then some y else (if k == j then some (emptied y) else st.objects k))
  swapped i j y k apart = elim (Bool-cases (k == i)) [
    | inr f ↦ rw f refl
    | inl t ↦ let not_j : (k == j) ≡ false = ground arith in rw (t, not_j) refl
  ]

  pub move_assign-Keeps :
      (i j : ℕ) (x y : Info)
      → st.objects i ≡ some x
      → st.objects j ≡ some y
      → Keeps (move_assign i j st)
  unfolding move_assign move_between
  move_assign-Keeps i j x y e e' = elim (Bool-cases (i == j)) [
    | inl t ↦ rw t sound
    | inr f ↦
        let apart : i ≢ j = λ q. cc ((==_iff i j).1 q, f) in
        rw (f, e, e', move_between)
          (same-IsOwned (put i y (put j (emptied y) st))
            (put-IsOwned (put j (emptied y) st)
              (put-IsOwned st sound j (emptied y) (emptied-Fits j y)) i y
              (moved-Fits i j y apart e'))
            (put j (emptied y) (put i y st)).objects (λ k. swapped i j y k apart))
  ]

  pub destroy-Keeps : (i : ℕ) (x : Info) → st.objects i ≡ some x → Keeps (destroy i st)
  unfolding destroy destroy_object
  destroy-Keeps i x e = elim (Bool-cases x.is_free_alias) [
    | inr f ↦ rw (e, destroy_object, f) (remove-IsOwned st sound i)
    | inl t ↦
        let (b, a) = sound.owner i x e t in
        let (_, less, kept) = sound.live i x b e a in
        rw (e, destroy_object, t, a, delete_alias, kept)
          (release-IsOwned (remove i st) (remove-IsOwned st sound i) b less λ k y e' a'.
            let (other, old) = remove_at i st.objects k y e' in
            other (sound.apart k i y x b old e a' a))
  ]
