-- ===== src/Xcall/Calls.antt =====
-- The calls through an xcall, and the end of a scope.
use meta_ffi_project.Shared.{ℕ, ◌≡◌, refl, Bool-cases, inl, inr, List, Option, none, some, ◌==◌}
use meta_ffi_project.Xcall.{
  Xcall, Store, Outcome, reported, fault, Foreign, call_throwing, call_reporting, scope_exit,
  invalid_argument, call_xcall_no_params_no_retvals, call_xcall_with_params_and_or_retvals,
  is_valid, raises, ends,
}

-- What the overloads without `err` make of the end of those with it.
abbrev pub without_err : {S : Type 0} → Outcome S → Outcome S
without_err (reported text s) = fault
without_err o = o

-- A call without the test for null.
abbrev unchecked : {S : Type 0} → Outcome S → Outcome S
unchecked invalid_argument = fault
unchecked o = o

unchecked-ends :
    {S : Type 0} (foreign : Foreign S) (r : Option (List ℕ) × S)
    → ends foreign r ≡ unchecked (ends foreign r)
unchecked-ends foreign (none, s) = refl
unchecked-ends foreign (some text, s) = refl

ends-raises :
    {S : Type 0} (foreign : Foreign S) (r : Option (List ℕ) × S)
    → raises foreign r ≡ without_err (ends foreign r)
ends-raises foreign (none, s) = refl
ends-raises foreign (some text, s) = refl

-- The overloads that throw agree with those that report on every function that reports no error and on
-- a null function; where the function does report an error, they do not throw it: they read the text
-- through the pointer that they have just set to null.
pub call_throwing-call_reporting :
    {S : Type 0} (foreign : Foreign S) (x : Xcall) (pcdts : Option ℕ) (s : S)
    → call_throwing foreign x pcdts s ≡ without_err (call_reporting foreign x pcdts s)
unfolding call_throwing call_reporting
call_throwing-call_reporting foreign x pcdts s = elim (Bool-cases (x.pxcall == 0)) [
  | inl null ↦ rw null refl
  | inr set ↦ rw set (ends-raises foreign (foreign x.pxcall x.context pcdts s))
]

-- The functions for C agree with the overloads that report on every xcall but an empty one, on which
-- those throw and these call through null.
pub for_c-call_reporting :
    {S : Type 0} (foreign : Foreign S) (x : Xcall) (pcdts : ℕ) (s : S)
    → (call_xcall_no_params_no_retvals foreign x s ≡ unchecked (call_reporting foreign x none s))
      × (call_xcall_with_params_and_or_retvals foreign x pcdts s
          ≡ unchecked (call_reporting foreign x (some pcdts) s))
unfolding call_xcall_no_params_no_retvals call_xcall_with_params_and_or_retvals call_reporting
for_c-call_reporting foreign x pcdts s = elim (Bool-cases (x.pxcall == 0)) [
  | inl null ↦ rw null (refl, refl)
  | inr set ↦ rw set (
    unchecked-ends foreign (foreign x.pxcall x.context none s),
    unchecked-ends foreign (foreign x.pxcall x.context (some pcdts) s),
  )
]

-- The end of a scope frees an xcall at most once: running the guard again does nothing.
pub scope_exit_twice :
    {S : Type 0} (free_xcall : ℕ → S → Option (List ℕ) × S) (if_fail : List ℕ → S → S) (st : Store)
    (name : Option ℕ) (s : S)
    → let once = scope_exit free_xcall if_fail st name s in
      scope_exit free_xcall if_fail st (once.0) (once.1) ≡ once
unfolding scope_exit
scope_exit_twice free_xcall if_fail st none s = refl
scope_exit_twice free_xcall if_fail st (some name) s = elim (Bool-cases (is_valid (st name))) [
  | inl valid ↦ rw valid refl
  | inr spoiled ↦ rw spoiled (rw spoiled refl)
]
