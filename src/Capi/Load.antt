-- ===== src/Capi/Load.antt =====
-- Loading and freeing XLLR in plugin-sdk-main/runtime/xllr_capi_loader.c: `load_xllr_capi`,
-- `load_xllr`, `free_xllr` and `load_metaffi_library`.
use meta_ffi_project.Shared.{
  ℕ, ◌+◌, ◌*◌, List, [], ◌∷◌, ◌++◌, length, take, codes, Option, some, none, ltb, ◌==◌,
  if◌then◌else◌,
}
use meta_ffi_project.Capi.{
  Symbol, Loader, Message, Platform, Outcome, done, overflow, broken_off, assign, home_unset,
  failed_to_load, failed_to_free,
}
use meta_ffi_project.Capi.Library.{load_library, free_library, load_symbol}

-- The order in which `load_xllr_capi` asks for the entry points.
abbrev pub load_order : List Symbol
load_order =
    Symbol.xcall_params_ret ∷ Symbol.xcall_no_params_ret ∷ Symbol.xcall_params_no_ret
    ∷ Symbol.xcall_no_params_no_ret ∷ Symbol.load_entity ∷ Symbol.free_xcall
    ∷ Symbol.alloc_cdt_array ∷ Symbol.free_cdt_array ∷ Symbol.alloc_memory ∷ Symbol.free_memory
    ∷ Symbol.free_string ∷ Symbol.alloc_string ∷ Symbol.alloc_string8 ∷ Symbol.alloc_string16
    ∷ Symbol.alloc_string32 ∷ Symbol.load_runtime_plugin ∷ Symbol.free_runtime_plugin
    ∷ Symbol.is_runtime_flag_set ∷ Symbol.set_runtime_flag ∷ Symbol.alloc_cdts_buffer
    ∷ Symbol.free_cdts_buffer ∷ Symbol.construct_cdts ∷ Symbol.construct_cdt ∷ Symbol.traverse_cdts
    ∷ Symbol.traverse_cdt ∷ []

abbrev pub path_max : ℕ
path_max = 4096

-- `sprintf(buffer, …)` of a path into `size` bytes, its terminator included.
unfoldable pub print_path : ℕ → List ℕ → Outcome (List ℕ)
print_path size path = if ltb size (length path + 1) then overflow else done path

-- The path from `$METAFFI_HOME`, of which `strncpy` takes at most `PATH_MAX` bytes.
unfoldable pub xllr_path : List ℕ → List ℕ
xllr_path home = take path_max home ++ codes "/xllr.so"

-- "%s/%s.%s" with the extension ".so".
unfoldable pub metaffi_library_path : List ℕ → List ℕ → List ℕ
metaffi_library_path home name =
    take path_max home ++ (codes "/" ++ (name ++ (codes "." ++ codes ".so")))

module _ (os : Platform) where
  -- One stanza after the other: the pointer is written, also with NULL, and NULL ends the function.
  unfoldable pub load_symbols : List Symbol → Loader → Loader × Option Message
  unfolding load_symbol
  load_symbols [] st = (st, none)
  load_symbols (s ∷ rest) st =
      let (p, err) = load_symbol os st.handle s in
      let st' = record st { pointer = assign s p st.pointer } in
      let more = load_symbols rest st' in if p == 0 then (st', err) else more

  unfoldable pub load_xllr_capi : Loader → Loader × Option Message
  load_xllr_capi st = load_symbols load_order st

  -- What `free` does with the text of `dlerror`, which `malloc` did not return; of NULL it does nothing.
  unfoldable pub free_text : Option Message → Loader → Outcome (Loader × Option Message)
  free_text none st = done (st, some failed_to_load)
  free_text (some text) st = broken_off

  -- The library's file is opened and its entry points loaded. On a failure of `dlopen` the message
  -- of `dlerror` is handed to `free`.
  unfoldable pub open_xllr : List ℕ → Loader → Outcome (Loader × Option Message)
  unfolding load_library free_text
  open_xllr path st =
      let (h, err) = load_library os path in
      if h == 0
      then free_text err (record st { handle = h })
      else done (load_xllr_capi (record st { handle = h }))

  unfoldable pub load_xllr : Loader → Outcome (Loader × Option Message)
  unfolding print_path
  load_xllr st =
      if st.handle == 0
      then elim os.metaffi_home [
        | none ↦ done (st, some home_unset)
        | some home ↦ elim (print_path (path_max + 6) (xllr_path home)) [
          | done path ↦ open_xllr path st
          | overflow ↦ overflow
          | broken_off ↦ broken_off
        ]
      ]
      else done (st, none)

  unfoldable pub free_xllr : Loader → Loader × Option Message
  unfolding free_library
  free_xllr st = elim (free_library os st.handle) [
    | none ↦ (if st.handle == 0 then st else record st { closed = st.handle ∷ st.closed }, none)
    | some e ↦ (st, some failed_to_free)
  ]

  -- The handle for `out_handle`, unless the function returned before it wrote one.
  unfoldable pub load_metaffi_library : List ℕ → Outcome (Option ℕ × Option Message)
  unfolding print_path load_library
  load_metaffi_library name = elim os.metaffi_home [
    | none ↦ done (none, some home_unset)
    | some home ↦ elim (print_path (path_max * 2) (metaffi_library_path home name)) [
      | done path ↦
          let (h, err) = load_library os path in
          done (if h == 0 then (some h, err) else (some h, none))
      | overflow ↦ overflow
      | broken_off ↦ broken_off
    ]
  ]
