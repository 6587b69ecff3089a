-- ===== src/Capi/Library.antt =====
-- The POSIX half of plugin-sdk-main/runtime/xllr_capi_loader.c that calls the dynamic linker.
use meta_ffi_project.Shared.{ℕ, List, Option, some, none, unequal, ◌≡◌, refl, ◌==◌, if◌then◌else◌}
use meta_ffi_project.Capi.{Symbol, Message, Platform, from_dlerror}

-- `*out_err = dlerror()`, of which NULL is no error.
unfoldable pub error_of : ℕ → Option Message
error_of text = if text == 0 then none else some (from_dlerror text)

module _ (os : Platform) where
  -- The handle, and what `out_err` was set to.
  unfoldable pub load_library : List ℕ → ℕ × Option Message
  unfolding error_of
  load_library name =
      let h = os.dlopen name in if h == 0 then (h, error_of os.dlerror) else (h, none)

  unfoldable pub free_library : ℕ → Option Message
  unfolding error_of
  free_library lib = if os.dlclose lib then error_of os.dlerror else none

  -- The address, or 0 and the error.
  unfoldable pub load_symbol : ℕ → Symbol → ℕ × Option Message
  unfolding error_of
  load_symbol h name =
      let res = os.dlsym h name in if res == 0 then (0, error_of os.dlerror) else (res, none)

  -- A call that failed has a message.
  pub error_of-dlerror : error_of os.dlerror ≡ some (from_dlerror os.dlerror)
  unfolding error_of
  error_of-dlerror = rw (unequal os.dlerror 0 os.explains) refl
