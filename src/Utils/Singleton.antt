-- ===== src/Utils/Singleton.antt =====
-- plugin-sdk-main/utils/singleton.hpp: `singleton<T>` with its flag, which a static of `instance` keeps.
use meta_ffi_project.Shared.{
  ℕ, ◌+◌, Bool, true, false, Option, none, some, ◌≡◌, refl, sym, ap, ◌⊎◌, inl, inr, if◌then◌else◌,
}

-- The static `flag` and `_instance`, as the number of the object; and how many objects were made.
pub record Singleton : Type 0 where
  pub flag : Bool
  pub instance_ptr : Option ℕ
  pub made : ℕ

-- An object or the end of a call; `null_reference` is a use of the null pointer.
pub data Access (A : Type 0) : Type 0 where
  ok : A → Singleton → Access A
  null_reference : Access A

unfoldable pub init : Singleton → Singleton
init s = record s { instance_ptr = some s.made; made = s.made + 1 }

abbrev pub dereference : Option ℕ → Singleton → Access ℕ
dereference none s = Access.null_reference
dereference (some p) s = Access.ok p s

unfoldable pub instance_of : Singleton → Access ℕ
unfolding init
instance_of s =
    if s.flag
    then dereference s.instance_ptr s
    else dereference (some s.made) (record (init s) { flag = true })

unfoldable pub free_instance : Option ℕ → Singleton → Access ℕ
free_instance none s = Access.null_reference
free_instance (some p) s = Access.ok p (record s { instance_ptr = none })

-- `free()`, with the object whose `free` was called.
unfoldable pub free : Singleton → Access ℕ
unfolding free_instance
free s = free_instance s.instance_ptr s

abbrev pub unused : Singleton
unused = record { flag = false; instance_ptr = none; made = 0 }

-- The states of the class: never used, holding its one object, or freed.
pub data Reachable : Singleton → Type 0 where
  start : Reachable unused
  used : {s s' : Singleton} {p : ℕ} → Reachable s → instance_of s ≡ Access.ok p s' → Reachable s'
  freed : {s s' : Singleton} {p : ℕ} → Reachable s → free s ≡ Access.ok p s' → Reachable s'

abbrev pub holding : Singleton
holding = record { flag = true; instance_ptr = some 0; made = 1 }

abbrev pub given_back : Singleton
given_back = record { flag = true; instance_ptr = none; made = 1 }

abbrev pub IsState : Singleton → Type 0
IsState s = (s ≡ unused) ⊎ (s ≡ holding) ⊎ (s ≡ given_back)

abbrev state_of : Access ℕ → Singleton
state_of (Access.ok p s) = s
state_of Access.null_reference = unused

same_state : {p q : ℕ} {s t : Singleton} → Access.ok p s ≡ Access.ok q t → t ≡ s
same_state e = sym (ap state_of e)

instance_of-IsState :
    (s s' : Singleton) (p : ℕ) → IsState s → instance_of s ≡ Access.ok p s' → IsState s'
unfolding instance_of init
instance_of-IsState s s' p (inl u) e = inr (inl (same_state (rw u at e)))
instance_of-IsState s s' p (inr (inl u)) e = inr (inl (same_state (rw u at e)))
instance_of-IsState s s' p (inr (inr u)) e =
    let nothing : Access.null_reference ≡ Access.ok p s' = rw u at e in cc

free-IsState : (s s' : Singleton) (p : ℕ) → IsState s → free s ≡ Access.ok p s' → IsState s'
unfolding free free_instance
free-IsState s s' p (inl u) e =
    let nothing : Access.null_reference ≡ Access.ok p s' = rw u at e in cc
free-IsState s s' p (inr (inl u)) e = inr (inr (same_state (rw u at e)))
free-IsState s s' p (inr (inr u)) e =
    let nothing : Access.null_reference ≡ Access.ok p s' = rw u at e in cc

-- However it is used, the class is not used yet, or holds the one object that it ever makes, or has
-- given it back, when `instance` and `free` refer to null.
pub Reachable-IsState : (s : Singleton) → Reachable s → IsState s
Reachable-IsState s Reachable.start = inl refl
Reachable-IsState s (Reachable.used {s = t} {p = p} r e) =
    instance_of-IsState t s p (Reachable-IsState t r) e
Reachable-IsState s (Reachable.freed {s = t} {p = p} r e) =
    free-IsState t s p (Reachable-IsState t r) e

-- After `free` the object is gone for good: `instance` does not make another.
pub instance_of-given_back : instance_of given_back ≡ Access.null_reference
unfolding instance_of
instance_of-given_back = refl
