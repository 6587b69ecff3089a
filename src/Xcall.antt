-- ===== src/Xcall.antt =====
-- `struct xcall` of plugin-sdk-main/runtime/xcall.h: a function of another language and its context,
-- with the calls through it, the copies and moves, and the macro that frees one at the end of a scope.
pub mod Moves
pub mod Calls
mod Tests
use meta_ffi_project.Shared.{ℕ, Bool, not, List, [], ◌∷◌, Option, none, some, ◌==◌, if◌then◌else◌}

-- `pxcall_and_context`; 0 is the null pointer.
pub record Xcall : Type 0 where
  pub pxcall : ℕ
  pub context : ℕ

-- `xcall()`
abbrev pub empty : Xcall
empty = record { pxcall = 0; context = 0 }

-- `xcall(void* pxcall, void* context)`; `none` is the exception for a null function.
unfoldable pub from_pointers : ℕ → ℕ → Option Xcall
from_pointers pxcall context =
    if pxcall == 0 then none else some (record { pxcall = pxcall; context = context })

-- `xcall(void* pxcall_and_context[2])`: the two are taken as they are.
abbrev pub from_array : ℕ → ℕ → Xcall
from_array pxcall context = record { pxcall = pxcall; context = context }

unfoldable pub is_valid : Xcall → Bool
is_valid x = not (x.pxcall == 0)

-- The objects, by their addresses.
abbrev pub Store : Type 0
Store = ℕ → Xcall

abbrev pub write : ℕ → Xcall → Store → Store
write a x st b = if b == a then x else st b

-- `*this = other` and `*this = std::move(other)`, with the addresses of the two.
unfoldable pub copy_assign : ℕ → ℕ → Store → Store
copy_assign this other st = if this == other then st else write this (st other) st

unfoldable pub move_assign : ℕ → ℕ → Store → Store
move_assign this other st =
    if this == other then st else write other empty (write this (st other) st)

-- How a call ends: `fault` is a step without a meaning.
pub data Outcome (S : Type 0) : Type 0 where
  returned : S → Outcome S
  reported : List ℕ → S → Outcome S
  invalid_argument : Outcome S
  runtime_error : List ℕ → S → Outcome S
  fault : Outcome S

-- `throw std::runtime_error(err)`: the text is read from the pointer, which must not be null.
abbrev pub throw_message : {S : Type 0} → Option (List ℕ) → S → Outcome S
throw_message none s = fault
throw_message (some text) s = runtime_error text s

-- The functions behind the pointers belong to the other language: of a function's address, its
-- context and the address of the parameters (for the calls that have any), the text that `*err` is
-- set to, or none, and the state then.
abbrev pub Foreign : Type 0 → Type 0
Foreign S = ℕ → ℕ → Option ℕ → S → Option (List ℕ) × S

module _ {S : Type 0} (foreign : Foreign S) where
  abbrev pub ends : Option (List ℕ) × S → Outcome S
  ends (none, s) = returned s
  ends (some text, s) = reported text s

  -- `operator()(char** err)` and, with parameters, `operator()(cdts*, char** err)`: the error goes to
  -- the caller.
  unfoldable pub call_reporting : Xcall → Option ℕ → S → Outcome S
  call_reporting x pcdts s =
      if x.pxcall == 0 then invalid_argument else ends (foreign x.pxcall x.context pcdts s)

  -- The end of the overloads without `err`: an error is copied, freed, its pointer set to null, and
  -- then thrown.
  abbrev pub raises : Option (List ℕ) × S → Outcome S
  raises (none, s) = returned s
  raises (some text, s) = let err = none in throw_message err s

  -- `operator()()` and `operator()(cdts*)`
  unfoldable pub call_throwing : Xcall → Option ℕ → S → Outcome S
  call_throwing x pcdts s =
      if x.pxcall == 0 then invalid_argument else raises (foreign x.pxcall x.context pcdts s)

  -- The functions for C, which do not test the pointer: a call through null has no meaning.
  unfoldable pub call_xcall_no_params_no_retvals : Xcall → S → Outcome S
  call_xcall_no_params_no_retvals x s =
      if x.pxcall == 0 then fault else ends (foreign x.pxcall x.context none s)

  unfoldable pub call_xcall_with_params_and_or_retvals : Xcall → ℕ → S → Outcome S
  call_xcall_with_params_and_or_retvals x pcdts s =
      if x.pxcall == 0 then fault else ends (foreign x.pxcall x.context (some pcdts) s)

-- `xcall_scope_guard`, run at the end of the scope: XLLR's function that frees an xcall and the code
-- for its failure are parameters; the pointer, null or an address, is null behind it if it was used.
module _ {S : Type 0} (free_xcall : ℕ → S → Option (List ℕ) × S) (if_fail : List ℕ → S → S) where
  abbrev pub after_free : Option (List ℕ) × S → S
  after_free (none, s) = s
  after_free (some text, s) = if_fail text s

  unfoldable pub scope_exit : Store → Option ℕ → S → Option ℕ × S
  unfolding is_valid
  scope_exit st none s = (none, s)
  scope_exit st (some name) s =
      if is_valid (st name) then (none, after_free (free_xcall name s)) else (some name, s)
