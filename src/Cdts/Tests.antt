-- ===== src/Cdts/Tests.antt =====
-- Values that are freed and moved.
use mathlib.Core.List.{Perm, Mem}
use meta_ffi_project.Shared.{
  ℕ, ◌++◌, ◌≢◌, codes, ◌≡◌, refl, true, false, List, [], ◌∷◌, some, arith,
}
use meta_ffi_project.Shared.Int.{pos}
use meta_ffi_project.Types.{Kind, code, has_array, array_type, kind_of}
use meta_ffi_project.Cdts
use meta_ffi_project.Cdts.{Cdt, type_of, cdt, word, array_val, cdts, Items, nil, cons, default_cdt}
use meta_ffi_project.Cdts.Memory.{
  Release, string, handle_emptied, elements, array, releases, free, freed, free_word, set,
}
use meta_ffi_project.Cdts.Free.{free_twice}
use meta_ffi_project.Cdts.Once.{released, pointers, free-pointers}
use meta_ffi_project.Cdts.Handles.{
  Handle, empty_handle, equal_handles, empty_all, empty_at, free-handles,
}
use meta_ffi_project.Cdts.Scalar.{assign, convert, assign_lem}
use meta_ffi_project.Cdts.Text.{Encoding, Text, owned, set_string, string_view}
use meta_ffi_project.Cdts.Text.Copy.{set_string-string_view}
use meta_ffi_project.Cdts.Text.Depends.{room, set_string-depends}
use meta_ffi_project.Cdts.Set.{IsReplaced, set_moves}

-- Two strings, the first borrowed.
abbrev strings : Items
strings = cons (cdt (code Kind.string8) (word 7) false) (
    cons (cdt (code Kind.string8) (word 8) true)
      (cons (cdt (code Kind.string16) (word 9) true) nil))

abbrev list : Cdt
list = cdt array_type (array_val (cdts 3 strings (pos 1) false)) true

abbrev order : List Release
order = string 9 ∷ string 8 ∷ elements 3 ∷ array ∷ []

list-releases : releases list ≡ some order
unfolding releases has_array free_word kind_of
list-releases = refl

free_twice_example :
    (free list ≡ some (freed list, order)) × (free (freed list) ≡ some (freed list, []))
free_twice_example = free_twice list order list-releases

free-pointers_example :
    (free list ≡ some (freed list, order)) × Perm (released order) (pointers list)
free-pointers_example = free-pointers list order list-releases

-- Two handles, the second borrowed.
abbrev holders : Cdt
holders =
    cdt array_type
      (array_val (
        cdts 2
          (cons (cdt (code Kind.handle) (word 5) true)
            (cons (cdt (code Kind.handle) (word 6) false) nil))
          (pos 1) false))
      true

abbrev holders_order : List Release
holders_order = handle_emptied 5 ∷ elements 2 ∷ array ∷ []

holders-releases : releases holders ≡ some holders_order
unfolding releases has_array free_word kind_of
holders-releases = refl

abbrev of_node : ℕ → Handle
of_node p = record { handle = p; runtime_id = 3; release = 9 }

free-handles_example :
    (free holders ≡ some (freed holders, holders_order))
    × (Mem (handle_emptied 5) (pointers holders) → empty_all holders_order of_node 5 ≡ empty_handle)
    × ((Mem (handle_emptied 5) (pointers holders) → ⊥)
        → empty_all holders_order of_node 5 ≡ of_node 5)
free-handles_example = free-handles holders holders_order of_node 5 holders-releases

-- The borrowed one stays, and the other is equal to no handle of the runtime any more.
holders_after :
    (empty_all holders_order of_node 6 ≡ of_node 6)
    × (equal_handles (empty_all holders_order of_node 5) (of_node 5) ≡ false)
unfolding empty_all empty_at equal_handles
holders_after = (refl, refl)

set_moves_example :
    (r : Cdt × Items) × (set (cdts 3 strings (pos 1) false) 1 list
      ≡ some (cdts 3 (r.1) (pos 1) false, default_cdt, r.0))
    × IsReplaced strings 1 list r
    × (pointers default_cdt ≡ [])
set_moves_example = set_moves 3 strings (pos 1) false 1 list (omega arith)

-- An array that is overwritten by the byte 200.
assign_lem_example :
    (type_of (assign (λ a. 4096) Kind.uint8 200 list) ≡ code Kind.uint8)
    × (convert (λ a. 4096) Kind.uint8 (assign (λ a. 4096) Kind.uint8 200 list) ≡ 200)
    × (releases (assign (λ a. 4096) Kind.uint8 200 list) ≡ some [])
assign_lem_example = assign_lem (λ a. 4096) Kind.uint8 200 list refl (omega arith)

set_string-string_view_example :
    (set_string Encoding.utf8 (codes "hi" ++ 0 ∷ 9 ∷ []) true (7 ∷ 7 ∷ 7 ∷ [])
      ≡ some (Kind.string8, true, owned (codes "hi" ++ 0 ∷ [])))
    × (string_view (codes "hi" ++ 0 ∷ []) ≡ some (codes "hi"))
set_string-string_view_example =
    set_string-string_view (codes "hi") (9 ∷ []) (7 ∷ 7 ∷ 7 ∷ []) (omega arith, (omega arith, tt))
      (omega arith, (omega arith, tt)) refl

-- The copy of the UTF-16 text "hi" to memory that held the byte 7: only the unit of "h" is right.
copy_hi :
    set_string Encoding.utf16 (codes "hi" ++ 0 ∷ []) true (7 ∷ 7 ∷ 7 ∷ 7 ∷ 7 ∷ 7 ∷ [])
    ≡ some (Kind.string16, true, owned (b'h' ∷ 0 ∷ 7 ∷ 7 ∷ 0 ∷ 0 ∷ []))
unfolding set_string string_view Cdts.Text.copy Cdts.Text.memcpy Cdts.Text.write_at
copy_hi = refl

set_string-depends_example :
    set_string Encoding.utf16 (codes "hi" ++ 0 ∷ []) true (room Encoding.utf16 (codes "hi") 0)
    ≢ set_string Encoding.utf16 (codes "hi" ++ 0 ∷ []) true (room Encoding.utf16 (codes "hi") 1)
set_string-depends_example =
    set_string-depends Encoding.utf16 b'h' (codes "i") [] (omega arith, (omega arith, tt))
      (omega arith)
