-- ===== src/Utils/ApiWrapper/Bound.antt =====
-- What the constructor in plugin-sdk-main/utils/xllr_api_wrapper.cpp has bound.
use meta_ffi_project.Shared.{
  ℕ, List, [], ◌∷◌, ◌++◌, none, some, Option-cases, Bool, true, false, ◌||◌, Bool-cases, ◌==◌,
  ==_iff, ◌≡◌, refl, ◌⊎◌, inl, inr, sym, ap, ◌∙◌, codes, if◌then◌else◌,
}
use meta_ffi_project.Utils.{Bytes}
use meta_ffi_project.Utils.ApiWrapper.{
  Function, place, Linker, Wrapper, bind, Made, made, order, load_funcs, load_from,
  xllr_api_wrapper,
}

abbrev of_place : ℕ → Function
of_place n =
    if n == 0
    then Function.load_runtime_plugin
    else (if n == 1
        then Function.free_runtime_plugin
        else (if n == 2
            then Function.load_entity
            else (if n == 3
                then Function.free_xcall
                else (if n == 4
                    then Function.make_callable
                    else (if n == 5
                        then Function.set_runtime_flag
                        else Function.is_runtime_flag_set)))))

of_place-place : (f : Function) → of_place (place f) ≡ f
of_place-place Function.load_runtime_plugin = refl
of_place-place Function.free_runtime_plugin = refl
of_place-place Function.load_entity = refl
of_place-place Function.free_xcall = refl
of_place-place Function.make_callable = refl
of_place-place Function.set_runtime_flag = refl
of_place-place Function.is_runtime_flag_set = refl

same_place : (f g : Function) → (place f == place g) ≡ true → f ≡ g
same_place f g e =
    sym (of_place-place f) ∙ ap of_place ((==_iff (place f) (place g)).0 e) ∙ of_place-place g

abbrev has : Function → List Function → Bool
has f [] = false
has f (g ∷ l) = let rest = has f l in place f == place g || rest

has-order : (f : Function) → has f order ≡ true
has-order Function.load_runtime_plugin = refl
has-order Function.free_runtime_plugin = refl
has-order Function.load_entity = refl
has-order Function.free_xcall = refl
has-order Function.make_callable = refl
has-order Function.set_runtime_flag = refl
has-order Function.is_runtime_flag_set = refl

module _ (os : Linker) (lib : ℕ) where
  -- How the constructor may end, of this library: every pointer is its function's address in it, or
  -- it lacks a function.
  abbrev pub Ends : Made → Type 0
  Ends (made w) = (f : Function) → os.import_symbol lib f ≡ some (w f)
  Ends Made.exits = (f : Function) × (os.import_symbol lib f ≡ none)
  Ends Made.undefined = ⊥

  bound_next :
      (f : Function) (p : ℕ) (l : List Function) (w : Wrapper) (g : Function)
      → os.import_symbol lib f ≡ some p
      → (has g (f ∷ l) ≡ true) ⊎ (os.import_symbol lib g ≡ some (w g))
      → (has g l ≡ true) ⊎ (os.import_symbol lib g ≡ some (bind f p w g))
  bound_next f p l w g e h = elim (Bool-cases (place g == place f)) [
    | inl t ↦ inr (rw (t, same_place g f t) e)
    | inr n ↦ elim h [ inl later ↦ inl (rw n at later) | inr bound ↦ inr (rw n bound) ]
  ]

  load_funcs-Ends :
      (l : List Function) (w : Wrapper)
      → ((f : Function) → (has f l ≡ true) ⊎ (os.import_symbol lib f ≡ some (w f)))
      → Ends (load_funcs os lib l w)
  unfolding load_funcs
  load_funcs-Ends [] w h = λ f. elim (h f) [ inl absent ↦ cc | inr bound ↦ bound ]
  load_funcs-Ends (f ∷ l) w h = elim (Option-cases (os.import_symbol lib f)) [
    | inl e ↦ rw (e, load_funcs) (f, e)
    | inr (p, e) ↦
        rw (e, load_funcs) (load_funcs-Ends l (bind f p w) (λ g. bound_next f p l w g e (h g)))
  ]

load_from-some :
    (os : Linker) (c : ℕ) (cs : Bytes) (lib : ℕ)
    → os.load (os.append (c ∷ cs) (codes "xllr" ++ os.suffix)) ≡ some lib
    → load_from os (some (c ∷ cs)) ≡ load_funcs os lib order (λ f. 0)
unfolding load_from
load_from-some os c cs lib e = rw (e, load_from) refl

wrapper_loads :
    (os : Linker) (c : ℕ) (cs : Bytes) (lib : ℕ)
    → os.metaffi_home ≡ some (c ∷ cs)
    → os.load (os.append (c ∷ cs) (codes "xllr" ++ os.suffix)) ≡ some lib
    → xllr_api_wrapper os ≡ load_funcs os lib order (λ f. 0)
unfolding xllr_api_wrapper
wrapper_loads os c cs lib set e = ap (load_from os) set ∙ load_from-some os c cs lib e

-- With XLLR's library loaded from below `METAFFI_HOME`, the constructor gives an object whose seven
-- pointers are the library's functions of their names, or exits as the library lacks one of them.
pub xllr_api_wrapper-Ends :
    (os : Linker) (c : ℕ) (cs : Bytes) (lib : ℕ)
    → os.metaffi_home ≡ some (c ∷ cs)
    → os.load (os.append (c ∷ cs) (codes "xllr" ++ os.suffix)) ≡ some lib
    → Ends os lib (xllr_api_wrapper os)
xllr_api_wrapper-Ends os c cs lib set e =
    rw (wrapper_loads os c cs lib set e)
      (load_funcs-Ends os lib order (λ f. 0) (λ f. inl (has-order f)))
