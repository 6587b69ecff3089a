-- ===== src/Capi.antt =====
-- plugin-sdk-main/runtime/xllr_capi_loader.c, as it is built for Linux (Capi.Windows has what it is
-- on Windows): the file that finds XLLR's
-- library, takes its 25 entry points from it and forwards every call to them.
-- A pointer is a number and 0 is NULL.
pub mod Library
pub mod Load
pub mod Wrappers
pub mod Table
pub mod Linked
pub mod Forward
pub mod Unload
pub mod Paths
pub mod Machine
pub mod Refine
pub mod Static
pub mod Threads
pub mod Windows
mod Tests
use meta_ffi_project.Shared.{◌≢◌, ℕ, Bool, Option, List, String, ◌==◌, if◌then◌else◌}

-- The function pointers of the file, each named as the symbol that it is loaded from.
pub data Symbol : Type 0 where
  xcall_params_ret xcall_no_params_ret xcall_params_no_ret xcall_no_params_no_ret : Symbol
  load_entity free_xcall alloc_cdt_array free_cdt_array alloc_memory free_memory : Symbol
  free_string alloc_string alloc_string8 alloc_string16 alloc_string32 : Symbol
  load_runtime_plugin free_runtime_plugin is_runtime_flag_set set_runtime_flag : Symbol
  alloc_cdts_buffer free_cdts_buffer construct_cdts construct_cdt : Symbol
  traverse_cdts traverse_cdt : Symbol

-- The variable of a symbol, as its place among the file's pointers.
abbrev pub slot : Symbol → ℕ
slot Symbol.xcall_params_ret = 0
slot Symbol.xcall_no_params_ret = 1
slot Symbol.xcall_params_no_ret = 2
slot Symbol.xcall_no_params_no_ret = 3
slot Symbol.load_entity = 4
slot Symbol.free_xcall = 5
slot Symbol.alloc_cdt_array = 6
slot Symbol.free_cdt_array = 7
slot Symbol.alloc_memory = 8
slot Symbol.free_memory = 9
slot Symbol.free_string = 10
slot Symbol.alloc_string = 11
slot Symbol.alloc_string8 = 12
slot Symbol.alloc_string16 = 13
slot Symbol.alloc_string32 = 14
slot Symbol.load_runtime_plugin = 15
slot Symbol.free_runtime_plugin = 16
slot Symbol.is_runtime_flag_set = 17
slot Symbol.set_runtime_flag = 18
slot Symbol.alloc_cdts_buffer = 19
slot Symbol.free_cdts_buffer = 20
slot Symbol.construct_cdts = 21
slot Symbol.construct_cdt = 22
slot Symbol.traverse_cdts = 23
slot Symbol.traverse_cdt = 24

-- The static variables of the file: `cdt_helper_xllr_handle` and the function pointers. The other
-- fields record effects: the libraries that were closed, and what `LocalFree` of Windows was given.
pub record Loader : Type 0 where
  pub handle : ℕ
  pub pointer : Symbol → ℕ
  pub closed : List ℕ
  pub freed : List ℕ

-- What a `const char*` result or out-parameter says.
pub data Message : Type 0 where
  home_unset failed_to_load failed_to_free : Message
  from_dlerror : ℕ → Message
  from_system : ℕ → Message  -- of `FormatMessage`
  symbol_missing : Symbol → ℕ → Message  -- "Failed to load symbol %s. win error: %s"

-- What the file asks of the system. `dlerror` is the address of the message that a failed call of
-- the other functions leaves, which is not NULL then; `dlclose` says whether it failed.
pub record Platform : Type 0 where
  pub metaffi_home : Option (List ℕ)
  pub dlopen : List ℕ → ℕ
  pub dlsym : ℕ → Symbol → ℕ
  pub dlclose : ℕ → Bool
  pub dlerror : ℕ
  pub explains : dlerror ≢ 0

-- How a function of the file ends. The last two are no values of the program: it wrote past a
-- buffer; or it called through a pointer that is NULL or leads into a library that was closed, or
-- gave memory to `free` that it may not.
pub data Outcome (A : Type 0) : Type 0 where
  done : A → Outcome A
  overflow : Outcome A
  broken_off : Outcome A

-- Writing one function pointer.
abbrev pub assign : Symbol → ℕ → (Symbol → ℕ) → Symbol → ℕ
assign s p table t = if slot t == slot s then p else table t

-- Before anything is loaded.
abbrev pub fresh : Loader
fresh = record { handle = 0; pointer = λ s. 0; closed = List.[]; freed = List.[] }
