-- ===== src/Cdts/Set.antt =====
-- What `cdts::set` does to the elements and to what they own.
use mathlib.Core.List.{Perm, append_assoc}
use mathlib.Core.List.Perm
use mathlib.Core.List.Permᴰ
use meta_ffi_project.Shared.{
  ℕ, zero, suc, ◌<◌, ◌≡◌, refl, ◌≢◌, Bool, List, [], ◌++◌, none, some, sym, ap, arith,
}
use meta_ffi_project.Shared.Int.{ℤ}
use meta_ffi_project.Cdts.{Cdt, cdts, Items, nil, cons, count, nth, default_cdt}
use meta_ffi_project.Cdts.Memory.{replace, set}
use meta_ffi_project.Cdts.Once.{pointers, pointers_of}

-- The new elements and the one that is gone, with what `set` promises of them.
abbrev pub IsReplaced : Items → ℕ → Cdt → Cdt × Items → Type 0
IsReplaced arr index val r =
    (replace arr index val ≡ some r)
    × (nth arr index ≡ some (r.0))
    × (nth (r.1) index ≡ some val)
    × ((other : ℕ) → other ≢ index → nth (r.1) other ≡ nth arr other)
    × Perm (pointers val ++ pointers_of arr) (pointers_of (r.1) ++ pointers (r.0))

owners_first :
    {A : Type 0} (val old rest : List A) → Perm (val ++ (old ++ rest)) ((val ++ rest) ++ old)
owners_first val old rest =
    rw (append_assoc val rest old) (Perm.append_left val ∣ Permᴰ.append_comm old rest ∣₁)

owners_next :
    {A : Type 0} (val old rest more gone : List A)
    → Perm (val ++ rest) (more ++ gone)
    → Perm (val ++ (old ++ rest)) ((old ++ more) ++ gone)
owners_next val old rest more gone h = rw (append_assoc old more gone) (
    Perm.trans
      (rw (sym (append_assoc val old rest))
        (rw (append_assoc old val rest) at (Perm.append_right rest ∣ Permᴰ.append_comm val old ∣₁)))
      (Perm.append_left old h))

others_first :
    (c val : Cdt) (rest : Items) (other : ℕ)
    → other ≢ 0
    → nth (cons val rest) other ≡ nth (cons c rest) other
others_first c val rest zero n = absurd (n refl)
others_first c val rest (suc k) n = refl

others_next :
    (c : Cdt) (more rest : Items) (index : ℕ)
    → ((other : ℕ) → other ≢ index → nth more other ≡ nth rest other)
    → (other : ℕ) → other ≢ suc index
    → nth (cons c more) other ≡ nth (cons c rest) other
others_next c more rest index h zero n = refl
others_next c more rest index h (suc k) n = h k (λ e. n (ap suc e))

replace_lem :
    (arr : Items) (index : ℕ) (val : Cdt)
    → index < count arr
    → (r : Cdt × Items) × IsReplaced arr index val r
unfolding replace pointers
replace_lem nil index val l = absurd (omega arith)
replace_lem (cons c rest) zero val l = (
  (c, cons val rest),
  (
    refl,
    refl,
    refl,
    others_first c val rest,
    owners_first (pointers val) (pointers c) (pointers_of rest),
  ),
)
replace_lem (cons c rest) (suc index) val l =
    let (r, (same, before, now, others, owners)) = replace_lem rest index val (omega arith) in
    (
      (r.0, cons c (r.1)),
      (
        ap (λ o. elim o [ none ↦ none | some found ↦ some (found.0, cons c (found.1)) ]) same,
        before,
        now,
        others_next c (r.1) rest index others,
        owners_next (pointers val) (pointers c) (pointers_of rest) (pointers_of (r.1))
            (pointers (r.0)) owners,
      ),
    )

-- `set` of an element that is there puts the value in its place and leaves the others and the
-- dimensions; the moved value is null and owns nothing. The pointers of the elements and of the value
-- together are those of the elements then, and of the element that was there, which nobody owns any
-- more.
pub set_moves :
    (len : ℕ) (arr : Items) (dims : ℤ) (cache : Bool) (index : ℕ) (val : Cdt)
    → index < count arr
    → (r : Cdt × Items) × (set (cdts len arr dims cache) index val
        ≡ some (cdts len (r.1) dims cache, default_cdt, r.0))
      × IsReplaced arr index val r
      × (pointers default_cdt ≡ [])
unfolding set pointers
set_moves len arr dims cache index val l =
    let (r, same) = replace_lem arr index val l in
    (
      r,
      ap
          (λ o. elim o [
            | none ↦ none
            | some found ↦ some (cdts len (found.1) dims cache, default_cdt, found.0)
          ])
          (same.0),
      same,
      refl,
    )
