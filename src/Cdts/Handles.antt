-- ===== src/Cdts/Handles.antt =====
-- `struct cdt_metaffi_handle` of plugin-sdk-main/runtime/metaffi_primitives.h in memory, and what
-- `cdt::free` of plugin-sdk-main/runtime/cdt.h does to the handles that a value points to.
use mathlib.Core.List.{Mem, mem-cons_self, mem-cons_of_mem, mem_of_ne_of_mem, not-mem-nil}
use mathlib.Core.List.Perm
use meta_ffi_project.Shared.{
  ℕ, Bool, ◌&&◌, Bool-cases, inl, inr, List, [], ◌∷◌, some, ◌≡◌, refl, ◌≢◌, ◌⊎◌, ◌==◌, ==_iff,
  if◌then◌else◌, ◌∙◌,
}
use meta_ffi_project.Cdts.{Cdt}
use meta_ffi_project.Cdts.Memory.{
  Release, string, callable, handle_emptied, elements, array, releases, free, freed,
}
use meta_ffi_project.Cdts.Once.{pointers, released, free-pointers}

-- A foreign object, the runtime that it is from, and the function that lets go of it; 0 is the null
-- pointer.
pub record Handle : Type 0 where
  pub handle : ℕ
  pub runtime_id : ℕ
  pub release : ℕ

-- `cdt_metaffi_handle()`
abbrev pub empty_handle : Handle
empty_handle = record { handle = 0; runtime_id = 0; release = 0 }

-- `cdt_metaffi_handle(val, runtime_id, release)`
abbrev pub new_handle : ℕ → ℕ → ℕ → Handle
new_handle val runtime_id release = record {
  handle = val;
  runtime_id = runtime_id;
  release = release;
}

-- `operator==`: the function is not compared.
unfoldable pub equal_handles : Handle → Handle → Bool
equal_handles a b = a.handle == b.handle && a.runtime_id == b.runtime_id

-- The handles by their addresses.
abbrev pub Handles : Type 0
Handles = ℕ → Handle

-- The case of the handle in `cdt::free`, for a pointer that is not null: the members are overwritten,
-- and the function is not called.
unfoldable pub empty_at : ℕ → Handles → Handles
empty_at w st p = if p == w then empty_handle else st p

-- What is released, one after the other, does to the handles.
unfoldable pub empty_all : List Release → Handles → Handles
empty_all [] st = st
empty_all (handle_emptied w ∷ r) st = empty_all r (empty_at w st)
empty_all (string w ∷ r) st = empty_all r st
empty_all (callable w ∷ r) st = empty_all r st
empty_all (elements n ∷ r) st = empty_all r st
empty_all (array ∷ r) st = empty_all r st

stays_empty :
    (r : List Release) (st : Handles) (p : ℕ)
    → st p ≡ empty_handle
    → empty_all r st p ≡ empty_handle
unfolding empty_all empty_at
stays_empty [] st p e = e
stays_empty (handle_emptied w ∷ r) st p e =
    stays_empty r (empty_at w st) p
      (elim (Bool-cases (p == w)) [ inl t ↦ rw t refl | inr f ↦ rw f e ])
stays_empty (string w ∷ r) st p e = stays_empty r st p e
stays_empty (callable w ∷ r) st p e = stays_empty r st p e
stays_empty (elements n ∷ r) st p e = stays_empty r st p e
stays_empty (array ∷ r) st p e = stays_empty r st p e

-- The handle at an address is among those that are released and is empty then, or neither.
abbrev Decided : List Release → Handles → ℕ → Type 0
Decided r st p =
    (Mem (handle_emptied p) (released r) × (empty_all r st p ≡ empty_handle))
    ⊎ ((Mem (handle_emptied p) (released r) → ⊥) × (empty_all r st p ≡ st p))

past :
    (r : List Release) (st st' : Handles) (p : ℕ) (x : Release)
    → handle_emptied p ≢ x
    → st' p ≡ st p
    → Decided r st' p
    → (Mem (handle_emptied p) (x ∷ released r) × (empty_all r st' p ≡ empty_handle))
      ⊎ ((Mem (handle_emptied p) (x ∷ released r) → ⊥) × (empty_all r st' p ≡ st p))
past r st st' p x other same (inl (m, e)) = inl (mem-cons_of_mem x m, e)
past r st st' p x other same (inr (n, e)) = inr (λ m. n (mem_of_ne_of_mem other m), e ∙ same)

decide : (r : List Release) (st : Handles) (p : ℕ) → Decided r st p
unfolding empty_all empty_at released
decide [] st p = inr (not-mem-nil, refl)
decide (handle_emptied w ∷ r) st p = elim (Bool-cases (p == w)) [
  | inl t ↦
      let here : p ≡ w = (==_iff p w).0 t in
      inl (rw here mem-cons_self, stays_empty r (empty_at w st) p (rw t refl))
  | inr f ↦
      past r st (empty_at w st) p (handle_emptied w)
        (λ e. let same : p ≡ w = cc in cc ((==_iff p w).1 same, f)) (rw f refl)
        (decide r (empty_at w st) p)
]
decide (string w ∷ r) st p = past r st st p (string w) (λ e. cc) refl (decide r st p)
decide (callable w ∷ r) st p = past r st st p (callable w) (λ e. cc) refl (decide r st p)
decide (elements n ∷ r) st p = decide r st p
decide (array ∷ r) st p = decide r st p

-- Freeing a value empties each handle that it owns, wherever else the handle is pointed to from, and
-- leaves every other as it is.
pub free-handles :
    (c : Cdt) (r : List Release) (st : Handles) (p : ℕ)
    → releases c ≡ some r
    → (free c ≡ some (freed c, r))
      × (Mem (handle_emptied p) (pointers c) → empty_all r st p ≡ empty_handle)
      × ((Mem (handle_emptied p) (pointers c) → ⊥) → empty_all r st p ≡ st p)
free-handles c r st p h =
    let (frees, same) = free-pointers c r h in
    elim (decide r st p) [
      | inl (m, e) ↦ (frees, (λ owned. e), λ other. absurd (other ((Perm.mem_iff same).0 m)))
      | inr (n, e) ↦ (frees, (λ owned. absurd (n ((Perm.mem_iff same).1 owned))), λ other. e)
    ]
