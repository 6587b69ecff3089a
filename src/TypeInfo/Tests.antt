-- ===== src/TypeInfo/Tests.antt =====
-- Objects of `metaffi_type_info` that are copied and destroyed.
use meta_ffi_project.Shared.{codes, some, true, false, ◌≡◌, refl, arith}
use meta_ffi_project.Shared.Int.{pos, negsuc}
use meta_ffi_project.Types.{Kind, code}
use meta_ffi_project.TypeInfo.{
  Pointer, Info, Store, done, fault, put, remove, release, allocate, plain, text_of, construct,
  copy_assign, copy_construct, copy_between, copy_alias, delete_alias, destroy_object, destroy,
}
use meta_ffi_project.TypeInfo.Owned.{IsOwned}
use meta_ffi_project.TypeInfo.Reach.{Step, Reachable, nothing, Reachable-Step}
use meta_ffi_project.TypeInfo.Alias.{copy_assign-text_of, copy_assign_stale}

-- Object 1 with a copy of an alias, and object 2 without.
abbrev first : Info
first = record (plain (code Kind.handle) (pos 1)) { alias = Pointer.block 0; is_free_alias = true }

abbrev second : Info
second = plain (code Kind.int64) (negsuc 0)

abbrev one : Store
one = put 1 first (allocate (codes "File") nothing)

abbrev two : Store
two = put 2 second one

one_made :
    construct 1 (code Kind.handle) (Pointer.outside (codes "File")) true (pos 1) nothing ≡ done one
unfolding construct
one_made = refl

two_made : construct 2 (code Kind.int64) Pointer.null false (negsuc 0) one ≡ done two
unfolding construct
two_made = refl

one-Reachable : Reachable one
one-Reachable = Reachable.then Reachable.start (
    rw one_made at (
      Step.constructs {st = nothing} 1 (code Kind.handle) (Pointer.outside (codes "File")) true
        (pos 1) refl tt))

two-Reachable : Reachable two
two-Reachable = Reachable.then one-Reachable (
    rw two_made at
      (Step.constructs {st = one} 2 (code Kind.int64) Pointer.null false (negsuc 0) refl tt))

Reachable-Step_example : (st' : Store) × (destroy 1 two ≡ done st') × IsOwned st'
Reachable-Step_example =
    Reachable-Step two (destroy 1 two) two-Reachable (Step.destroys 1 first refl)

file_is_copied :
    (st' : Store) × (x' : Info) × (copy_assign 2 1 two ≡ done st')
    × (st'.objects 2 ≡ some x')
    × (x'.type ≡ code Kind.handle)
    × (x'.is_free_alias ≡ true)
    × (text_of x'.alias st' ≡ some (codes "File"))
file_is_copied =
    copy_assign-text_of two 2 1 second first (codes "File") two-Reachable (omega arith) refl refl
      refl

-- A copy of the object without an alias: the alias of the first stays.
keeps_file :
    copy_assign 1 2 two
    ≡ done (put 1 (record first { type = code Kind.int64; fixed_dimensions = negsuc 0 }) two)
keeps_file = copy_assign_stale two 1 2 first second (omega arith) refl refl refl

-- An object that was given the first one's alias without a copy.
abbrev borrowed : Store
borrowed = put 3 (record (plain (code Kind.handle) (pos 0)) { alias = Pointer.block 0 }) one

borrowed_made : construct 3 (code Kind.handle) first.alias false (pos 0) one ≡ done borrowed
unfolding construct
borrowed_made = refl

-- Once the first is destroyed, a copy of the other reads a block that was given back.
abbrev left : Store
left = release 0 (remove 1 borrowed)

left_made : destroy 1 borrowed ≡ done left
unfolding destroy destroy_object delete_alias
left_made = refl

borrowed_is_gone : copy_construct 4 3 left ≡ fault
unfolding copy_construct copy_assign copy_between copy_alias
borrowed_is_gone = refl
