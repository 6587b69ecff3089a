-- ===== src/Utils/Expand.antt =====
-- What `expand_env` of plugin-sdk-main/utils/expand_env.cpp does with the references that its loop
-- meets.
use meta_ffi_project.Shared.{
  ℕ, zero, suc, ◌+◌, ◌<◌, List, [], ◌∷◌, length, some, Option-cases, ◌≡◌, refl, inl, inr, arith,
}
use meta_ffi_project.Utils.{Bytes}
use meta_ffi_project.Utils.Env.{System, Found, regex_search, substitute, expand_loop, expand_env}
use meta_ffi_project.Utils.Search.{Leftmost, Nowhere, regex_search-Searches, Leftmost-shorter}

-- The references of a text from the left: each is the leftmost match behind the one before it.
pub data References : Bytes → List Found → Type 0 where
  last : {s : Bytes} → Nowhere s → References s []
  found :
      {s : Bytes} {m : Found} {ms : List Found}
      → Leftmost m s
      → References m.suffix ms
      → References s (m ∷ ms)

-- The references applied one after the other to the whole text.
abbrev pub substitute_all : System → List Found → Bytes → Bytes
substitute_all sys [] res = res
substitute_all sys (m ∷ ms) res = substitute_all sys ms (substitute sys m res)

module _ (sys : System) where
  -- Fuel above the length of the working copy is enough.
  expand_loop-References :
      (fuel : ℕ) (w res : Bytes)
      → length w < fuel
      → (ms : List Found) × References w ms
        × (expand_loop sys fuel w res ≡ some (substitute_all sys ms res))
  unfolding expand_loop
  expand_loop-References zero w res short = absurd (omega arith)
  expand_loop-References (suc n) w res short = elim (Option-cases (regex_search w)) [
    | inl e ↦ ([], References.last (rw e at (regex_search-Searches w)), rw (e, expand_loop) refl)
    | inr (m, e) ↦
        let at_m : Leftmost m w = rw e at (regex_search-Searches w) in
        let (ms, all, r) =
          expand_loop-References n m.suffix (substitute sys m res)
            (omega (arith, Leftmost-shorter m w at_m)) in
        (m ∷ ms, References.found at_m all, rw (e, expand_loop) r)
  ]

-- `expand_env` ends on every text, and its result is the text in which the references that the
-- regular expression matches from the left, each in what is behind the one before, are substituted
-- in this order.
pub expand_env-References :
    (sys : System) (str : Bytes)
    → (ms : List Found) × References str ms
      × (expand_env sys str ≡ some (substitute_all sys ms str))
unfolding expand_env
expand_env-References sys str = expand_loop-References sys (length str + 1) str str (omega arith)
