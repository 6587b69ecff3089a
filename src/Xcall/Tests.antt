-- ===== src/Xcall/Tests.antt =====
-- An xcall that is moved, called and freed.
use meta_ffi_project.Shared.{
  ℕ, ◌+◌, ◌≡◌, refl, ◌≢◌, List, [], ◌∷◌, Option, none, some, ◌==◌, if◌then◌else◌, arith,
}
use meta_ffi_project.Xcall.{
  Xcall, empty, Store, returned, invalid_argument, fault, Foreign, move_assign, call_throwing,
  call_reporting, scope_exit,
}
use meta_ffi_project.Xcall.Moves.{move_assign_lem, move-call}
use meta_ffi_project.Xcall.Calls.{without_err, call_throwing-call_reporting, scope_exit_twice}

abbrev adder : Xcall
adder = record { pxcall = 64; context = 5 }

-- The object at 1 holds the function, all others are empty.
abbrev objects : Store
objects a = if a == 1 then adder else empty

-- Adds its context to the state; without parameters it fails.
abbrev adds : Foreign ℕ
adds pxcall context none s = (some (77 ∷ []), s)
adds pxcall context (some pcdts) s = (none, s + context)

call_adder : call_throwing adds adder (some 9) 3 ≡ returned 8
unfolding call_throwing
call_adder = refl

call_adder_fails : call_throwing adds adder none 3 ≡ fault
unfolding call_throwing
call_adder_fails = refl

move_between_objects :
    (move_assign 2 2 objects ≡ objects)
    × (move_assign 2 1 objects 2 ≡ adder)
    × (move_assign 2 1 objects 1 ≡ empty)
    × ((a : ℕ) → a ≢ 2 → a ≢ 1 → move_assign 2 1 objects a ≡ objects a)
    × (move_assign 1 2 (move_assign 2 1 objects) 1 ≡ adder)
move_between_objects = move_assign_lem 2 1 objects (omega arith)

moved_called :
    (call_throwing adds (move_assign 2 1 objects 1) (some 9) 3 ≡ invalid_argument)
    × (call_reporting adds (move_assign 2 1 objects 1) (some 9) 3 ≡ invalid_argument)
    × (call_throwing adds (move_assign 2 1 objects 2) (some 9) 3
        ≡ call_throwing adds adder (some 9) 3)
    × (call_reporting adds (move_assign 2 1 objects 2) (some 9) 3
        ≡ call_reporting adds adder (some 9) 3)
moved_called = move-call adds 2 1 objects (some 9) 3 (omega arith)

call_throwing-call_reporting_example :
    call_throwing adds adder none 3 ≡ without_err (call_reporting adds adder none 3)
call_throwing-call_reporting_example = call_throwing-call_reporting adds adder none 3

abbrev frees : ℕ → ℕ → Option (List ℕ) × ℕ
frees name s = (none, s + 1)

abbrev ignores : List ℕ → ℕ → ℕ
ignores text s = s

guard_twice :
    let once = scope_exit frees ignores objects (some 1) 0 in
    scope_exit frees ignores objects (once.0) (once.1) ≡ once
guard_twice = scope_exit_twice frees ignores objects (some 1) 0
