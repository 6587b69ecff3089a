-- ===== src/Capi/Wrappers.antt =====
-- The 25 forwarding functions of plugin-sdk-main/runtime/xllr_capi_loader.c and the macro
-- `check_function_pointer` before each of their calls. An argument is a number: its value or address.
use meta_ffi_project.Shared.{
  ℕ, List, [], ◌∷◌, Bool, true, false, not, Option, some, none, ◌==◌, if◌then◌else◌,
}
use meta_ffi_project.Capi.{Symbol, Loader, Message, Platform, Outcome, done, overflow, broken_off}
use meta_ffi_project.Capi.Load.{load_xllr_capi, load_xllr}

-- Either the macro returned `retval` (`none` in a void function), or XLLR's function at an address
-- was called with these arguments, whose result the wrapper returns.
pub data Reply : Type 0 where
  returned : Option ℕ → Reply
  called : ℕ → List ℕ → Reply

-- `if(err) { …; return retval; }` behind a loading function: `some` is the `return retval`.
unfoldable pub if_error :
    Option ℕ → Outcome (Loader × Option Message) → Outcome (Loader × Option (Option ℕ))
if_error retval (done (st, none)) = done (st, none)
if_error retval (done (st, some e)) = done (st, some retval)
if_error retval overflow = overflow
if_error retval broken_off = broken_off

module _ (os : Platform) where
  -- Whether an address is that of the function in a library that was closed.
  unfoldable pub is_unmapped : Symbol → ℕ → List ℕ → Bool
  is_unmapped func p [] = false
  is_unmapped func p (h ∷ closed) =
      let more = is_unmapped func p closed in if os.dlsym h func == p then true else more

  -- Whether a function pointer may be called.
  unfoldable pub is_callable : Symbol → Loader → Bool
  unfolding is_unmapped
  is_callable func st =
      if st.pointer func == 0 then false else not (is_unmapped func (st.pointer func) st.closed)

  -- The call behind the macro: through whatever the pointer now holds.
  unfoldable pub call_through : Symbol → List ℕ → Loader → Outcome (Loader × Reply)
  unfolding is_callable
  call_through func args st =
      if is_callable func st then done (st, called (st.pointer func) args) else broken_off

  -- The rest of a wrapper: nothing where the macro has returned.
  unfoldable pub proceed :
      Symbol → List ℕ → Outcome (Loader × Option (Option ℕ)) → Outcome (Loader × Reply)
  unfolding call_through
  proceed func args (done (st, none)) = call_through func args st
  proceed func args (done (st, some retval)) = done (st, returned retval)
  proceed func args overflow = overflow
  proceed func args broken_off = broken_off

  -- `check_function_pointer(func, retval)`
  unfoldable pub check_function_pointer :
      Symbol → Option ℕ → Loader → Outcome (Loader × Option (Option ℕ))
  unfolding if_error
  check_function_pointer func retval st =
      if st.pointer func == 0
      then if st.handle == 0
        then if_error retval (load_xllr os st)
        else if_error retval (done (load_xllr_capi os st))
      else done (st, none)

  -- A wrapper: the macro, and the call.
  unfoldable pub forward : Symbol → Option ℕ → List ℕ → Loader → Outcome (Loader × Reply)
  unfolding check_function_pointer proceed
  forward func retval args st = proceed func args (check_function_pointer func retval st)

  unfoldable pub xllr_xcall_params_ret : ℕ → ℕ → ℕ → Loader → Outcome (Loader × Reply)
  xllr_xcall_params_ret pxcall params_ret out_err =
      forward Symbol.xcall_params_ret none (pxcall ∷ params_ret ∷ out_err ∷ [])

  unfoldable pub xllr_xcall_no_params_ret : ℕ → ℕ → ℕ → Loader → Outcome (Loader × Reply)
  xllr_xcall_no_params_ret pxcall return_values out_err =
      forward Symbol.xcall_no_params_ret none (pxcall ∷ return_values ∷ out_err ∷ [])

  unfoldable pub xllr_xcall_params_no_ret : ℕ → ℕ → ℕ → Loader → Outcome (Loader × Reply)
  xllr_xcall_params_no_ret pxcall parameters out_err =
      forward Symbol.xcall_params_no_ret none (pxcall ∷ parameters ∷ out_err ∷ [])

  unfoldable pub xllr_xcall_no_params_no_ret : ℕ → ℕ → Loader → Outcome (Loader × Reply)
  xllr_xcall_no_params_no_ret pxcall out_err =
      forward Symbol.xcall_no_params_no_ret none (pxcall ∷ out_err ∷ [])

  unfoldable pub xllr_load_entity :
      ℕ → ℕ → ℕ → ℕ → ℕ → ℕ → ℕ → ℕ → Loader → Outcome (Loader × Reply)
  xllr_load_entity runtime_plugin module_path entity_path params_types params_count retval_types
        retval_count out_err =
      forward Symbol.load_entity (some 0) (
        runtime_plugin ∷ module_path ∷ entity_path ∷ params_types ∷ params_count ∷ retval_types
        ∷ retval_count ∷ out_err ∷ [])

  unfoldable pub xllr_free_xcall : ℕ → ℕ → ℕ → Loader → Outcome (Loader × Reply)
  xllr_free_xcall runtime_plugin pxcall out_err =
      forward Symbol.free_xcall none (runtime_plugin ∷ pxcall ∷ out_err ∷ [])

  unfoldable pub xllr_alloc_cdt_array : ℕ → Loader → Outcome (Loader × Reply)
  xllr_alloc_cdt_array size = forward Symbol.alloc_cdt_array (some 0) (size ∷ [])

  unfoldable pub xllr_free_cdt_array : ℕ → Loader → Outcome (Loader × Reply)
  xllr_free_cdt_array pcdt = forward Symbol.free_cdt_array none (pcdt ∷ [])

  unfoldable pub xllr_alloc_memory : ℕ → Loader → Outcome (Loader × Reply)
  xllr_alloc_memory size = forward Symbol.alloc_memory (some 0) (size ∷ [])

  unfoldable pub xllr_free_memory : ℕ → Loader → Outcome (Loader × Reply)
  xllr_free_memory ptr = forward Symbol.free_memory none (ptr ∷ [])

  unfoldable pub xllr_free_string : ℕ → Loader → Outcome (Loader × Reply)
  xllr_free_string err_to_free = forward Symbol.free_string none (err_to_free ∷ [])

  unfoldable pub xllr_alloc_string : ℕ → ℕ → Loader → Outcome (Loader × Reply)
  xllr_alloc_string err_message len = forward Symbol.alloc_string (some 0) (err_message ∷ len ∷ [])

  unfoldable pub xllr_alloc_string8 : ℕ → ℕ → Loader → Outcome (Loader × Reply)
  xllr_alloc_string8 err_message len =
      forward Symbol.alloc_string8 (some 0) (err_message ∷ len ∷ [])

  unfoldable pub xllr_alloc_string16 : ℕ → ℕ → Loader → Outcome (Loader × Reply)
  xllr_alloc_string16 err_message len =
      forward Symbol.alloc_string16 (some 0) (err_message ∷ len ∷ [])

  unfoldable pub xllr_alloc_string32 : ℕ → ℕ → Loader → Outcome (Loader × Reply)
  xllr_alloc_string32 err_message len =
      forward Symbol.alloc_string32 (some 0) (err_message ∷ len ∷ [])

  unfoldable pub xllr_load_runtime_plugin : ℕ → ℕ → Loader → Outcome (Loader × Reply)
  xllr_load_runtime_plugin runtime_plugin err =
      forward Symbol.load_runtime_plugin none (runtime_plugin ∷ err ∷ [])

  unfoldable pub xllr_free_runtime_plugin : ℕ → ℕ → Loader → Outcome (Loader × Reply)
  xllr_free_runtime_plugin runtime_plugin err =
      forward Symbol.free_runtime_plugin none (runtime_plugin ∷ err ∷ [])

  unfoldable pub xllr_set_runtime_flag : ℕ → Loader → Outcome (Loader × Reply)
  xllr_set_runtime_flag flag_name = forward Symbol.set_runtime_flag none (flag_name ∷ [])

  unfoldable pub xllr_is_runtime_flag_set : ℕ → Loader → Outcome (Loader × Reply)
  xllr_is_runtime_flag_set flag_name = forward Symbol.is_runtime_flag_set (some 0) (flag_name ∷ [])

  unfoldable pub xllr_alloc_cdts_buffer : ℕ → ℕ → Loader → Outcome (Loader × Reply)
  xllr_alloc_cdts_buffer params rets =
      forward Symbol.alloc_cdts_buffer (some 0) (params ∷ rets ∷ [])

  unfoldable pub xllr_free_cdts_buffer : ℕ → Loader → Outcome (Loader × Reply)
  xllr_free_cdts_buffer pcdts = forward Symbol.free_cdts_buffer none (pcdts ∷ [])

  unfoldable pub xllr_construct_cdts : ℕ → ℕ → ℕ → Loader → Outcome (Loader × Reply)
  xllr_construct_cdts pcdts callbacks out_nul_term_err =
      forward Symbol.construct_cdts none (pcdts ∷ callbacks ∷ out_nul_term_err ∷ [])

  unfoldable pub xllr_construct_cdt : ℕ → ℕ → ℕ → Loader → Outcome (Loader × Reply)
  xllr_construct_cdt pcdts callbacks out_nul_term_err =
      forward Symbol.construct_cdt none (pcdts ∷ callbacks ∷ out_nul_term_err ∷ [])

  unfoldable pub xllr_traverse_cdts : ℕ → ℕ → ℕ → Loader → Outcome (Loader × Reply)
  xllr_traverse_cdts pcdts callbacks out_nul_term_err =
      forward Symbol.traverse_cdts none (pcdts ∷ callbacks ∷ out_nul_term_err ∷ [])

  unfoldable pub xllr_traverse_cdt : ℕ → ℕ → ℕ → Loader → Outcome (Loader × Reply)
  xllr_traverse_cdt pcdts callbacks out_nul_term_err =
      forward Symbol.traverse_cdt none (pcdts ∷ callbacks ∷ out_nul_term_err ∷ [])
