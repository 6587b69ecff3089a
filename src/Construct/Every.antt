-- ===== src/Construct/Every.antt =====
-- What `construct_cdts` of plugin-sdk-main/runtime/cdts_traverse_construct.cpp makes of an empty
-- `cdts` when a reader answers.
use meta_ffi_project.Shared.{ℕ, suc, ◌+◌, ◌<◌, ◌≡◌, refl, Bool, List, [], ◌∷◌, ◌++◌, some, arith}
use meta_ffi_project.Shared.Int.{ℤ}
use meta_ffi_project.Cdts.{Cdt, cdt, array_val, cdts, Items, nil, count, nth, new_items}
use meta_ffi_project.Traverse.Complete.{lt→ltb}
use meta_ffi_project.Construct.{built, TypeInfo}
use meta_ffi_project.Construct.Run.{construct_each, construct_cdts}
use meta_ffi_project.Construct.Reader.{at, at-extend, reader, depths}
use meta_ffi_project.Construct.Settled.{settled_items, AreReadable, none_left, one_more}
use meta_ffi_project.Construct.Copy.{settled_lem}

each_lem :
    {S : Type 0} {arr : Items} (t : AreReadable arr) (root : Cdt) (index : List ℕ) (fuel len i : ℕ)
    (s : S)
    → ((j : ℕ) (p : Cdt) → nth arr j ≡ some p → at root (index ++ ((i + j) ∷ [])) ≡ some p)
    → len ≡ i + count arr
    → depths arr < fuel
    → construct_each fuel (reader root) (new_items (count arr)) len index i s
      ≡ built (settled_items arr) s
unfolding construct_each
each_lem none_left root index fuel len i s e n l = refl
each_lem (one_more {c = c} {rest = more} t ts) root index fuel len i s e n l =
    let at_i : at root (index ++ (i ∷ [])) ≡ some c =
      let same : i ≡ i + 0 = omega arith in rw same (e 0 c refl) in
    rw
      (
        lt→ltb i len (omega arith),
        settled_lem t root (index ++ (i ∷ [])) fuel s at_i (omega arith),
        each_lem ts root index fuel len (i + 1) s
            (λ j p at_j.
              let same : i + 1 + j ≡ i + suc j = omega arith in rw same (e (suc j) p at_j))
            (omega arith) (omega arith),
      )
      refl

-- `construct_cdts` on an empty `cdts`, with callbacks that read an array, makes as many elements as
-- the array has, and each is the array's, with the types that a construction leaves it, whatever
-- known type the caller gives; the fuel is more than the nesting of the elements.
pub construct_cdts-settled :
    {S : Type 0} {arr : Items} (t : AreReadable arr) (ty len : ℕ) (dims own : ℤ) (cache fr : Bool)
    (known : TypeInfo) (fuel : ℕ) (s : S)
    → depths arr < fuel
    → construct_cdts fuel
        (reader (cdt ty (array_val (cdts len arr dims cache)) fr))
        (cdts 0 nil own cache)
        []
        known
        s
      ≡ built (cdts (count arr) (settled_items arr) own cache) s
unfolding construct_cdts
construct_cdts-settled {arr = arr} t ty len dims own cache fr known fuel s l =
    let root = cdt ty (array_val (cdts len arr dims cache)) fr in
    rw
      (each_lem t root [] fuel (count arr) 0 s
        (λ j p at_j.
          let same : 0 + j ≡ j = omega arith in rw same (at-extend root [] root p j refl at_j))
        (omega arith) l)
      refl
