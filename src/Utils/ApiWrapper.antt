-- ===== src/Utils/ApiWrapper.antt =====
-- plugin-sdk-main/utils/xllr_api_wrapper.cpp, with `load_func` of function_loader.hpp: the functions of
-- XLLR that a plugin in C++ calls. Boost's functions on libraries are parameters.
pub mod Bound
use meta_ffi_project.Shared.{
  ℕ, suc, ◌+◌, List, [], ◌∷◌, ◌++◌, Option, none, some, Option-cases, Bool, true, false, not, ◌||◌,
  Bool-cases, ◌==◌, ==_iff, ◌≡◌, refl, ◌≢◌, ◌⊎◌, inl, inr, ◌↔◌, sym, ap, ◌∙◌, codes, if◌then◌else◌,
  arith,
}
use meta_ffi_project.Utils.{Bytes}

pub data Function : Type 0 where
  load_runtime_plugin free_runtime_plugin load_entity free_xcall make_callable : Function
  set_runtime_flag is_runtime_flag_set : Function

abbrev pub place : Function → ℕ
place Function.load_runtime_plugin = 0
place Function.free_runtime_plugin = 1
place Function.load_entity = 2
place Function.free_xcall = 3
place Function.make_callable = 4
place Function.set_runtime_flag = 5
place Function.is_runtime_flag_set = 6

-- What the code asks of the system: `path.append`, `load` and `import_symbol`, of which the last two
-- throw where they give `none`.
pub record Linker : Type 0 where
  pub metaffi_home : Option Bytes
  pub append : Bytes → Bytes → Bytes
  pub suffix : Bytes
  pub load : Bytes → Option ℕ
  pub import_symbol : ℕ → Function → Option ℕ

-- The pointers of the object, by their functions.
abbrev pub Wrapper : Type 0
Wrapper = Function → ℕ

abbrev pub bind : Function → ℕ → Wrapper → Wrapper
bind f p w g = if place g == place f then p else w g

-- `exits` is `std::exit(1)` behind the message; `undefined` a `std::string` of NULL.
pub data Made : Type 0 where
  made : Wrapper → Made
  exits undefined : Made

-- The order of the calls of `load_func`.
abbrev pub order : List Function
order =
    Function.load_runtime_plugin ∷ Function.free_runtime_plugin ∷ Function.load_entity
    ∷ Function.free_xcall ∷ Function.make_callable ∷ Function.set_runtime_flag
    ∷ Function.is_runtime_flag_set ∷ []

module _ (os : Linker) where
  unfoldable pub load_funcs : ℕ → List Function → Wrapper → Made
  load_funcs lib [] w = Made.made w
  load_funcs lib (f ∷ rest) w = elim (os.import_symbol lib f) [
    | none ↦ Made.exits
    | some p ↦ load_funcs lib rest (bind f p w)
  ]

  unfoldable pub load_from : Option Bytes → Made
  unfolding load_funcs
  load_from none = Made.undefined
  load_from (some []) = Made.exits
  load_from (some (c ∷ cs)) = elim (os.load (os.append (c ∷ cs) (codes "xllr" ++ os.suffix))) [
    | none ↦ Made.exits
    | some lib ↦ load_funcs lib order (λ f. 0)
  ]

  -- `xllr_api_wrapper()`
  unfoldable pub xllr_api_wrapper : Made
  unfolding load_from
  xllr_api_wrapper = load_from os.metaffi_home

-- A function of XLLR at an address: from its arguments and what `*err` holds to its result and what
-- `*err` holds then.
abbrev pub Foreign : Type 0
Foreign = ℕ → List ℕ → ℕ → ℕ × ℕ

-- The methods. Where there is an `err`, it is set to null before the call.
module _ (foreign : Foreign) (w : Wrapper) where
  unfoldable pub call_err : Function → List ℕ → ℕ → ℕ × ℕ
  call_err f args err = foreign (w f) args 0

  unfoldable pub wrapped_load_runtime_plugin : ℕ → ℕ → ℕ
  unfolding call_err
  wrapped_load_runtime_plugin plugin err =
      (call_err Function.load_runtime_plugin (plugin ∷ []) err).1

  unfoldable pub wrapped_free_runtime_plugin : ℕ → ℕ → ℕ
  unfolding call_err
  wrapped_free_runtime_plugin plugin err =
      (call_err Function.free_runtime_plugin (plugin ∷ []) err).1

  unfoldable pub wrapped_load_entity : ℕ → ℕ → ℕ → ℕ → ℕ → ℕ → ℕ → ℕ → ℕ × ℕ
  unfolding call_err
  wrapped_load_entity plugin path entity params params_count retvals retval_count err =
      call_err Function.load_entity
        (plugin ∷ path ∷ entity ∷ params ∷ params_count ∷ retvals ∷ retval_count ∷ []) err

  unfoldable pub wrapped_make_callable : ℕ → ℕ → ℕ → ℕ → ℕ → ℕ → ℕ → ℕ × ℕ
  unfolding call_err
  wrapped_make_callable plugin context params params_count retvals retval_count err =
      call_err Function.make_callable
        (plugin ∷ context ∷ params ∷ params_count ∷ retvals ∷ retval_count ∷ []) err

  unfoldable pub wrapped_free_xcall : ℕ → ℕ → ℕ → ℕ
  unfolding call_err
  wrapped_free_xcall plugin pxcall err = (call_err Function.free_xcall (plugin ∷ pxcall ∷ []) err).1

  -- The last two have no `err`.
  unfoldable pub wrapped_set_runtime_flag : ℕ → ℕ × ℕ
  wrapped_set_runtime_flag flag = foreign (w Function.set_runtime_flag) (flag ∷ []) 0

  unfoldable pub wrapped_is_runtime_flag_set : ℕ → Bool
  wrapped_is_runtime_flag_set flag =
      not ((foreign (w Function.is_runtime_flag_set) (flag ∷ []) 0).0 == 0)
