-- ===== src/Capi/Table.antt =====
-- The wrappers as one table, indexed by the call that a client makes.
use meta_ffi_project.Shared.{ℕ, List, [], ◌∷◌, Option, some, none, ◌≡◌, refl}
use meta_ffi_project.Capi.{Symbol, Loader, Platform, Outcome}
use meta_ffi_project.Capi.Wrappers
use meta_ffi_project.Capi.Wrappers.{Reply, forward}

-- A call of a function that the header declares, with its arguments.
pub data Request : Type 0 where
  xcall_params_ret : ℕ → ℕ → ℕ → Request
  xcall_no_params_ret : ℕ → ℕ → ℕ → Request
  xcall_params_no_ret : ℕ → ℕ → ℕ → Request
  xcall_no_params_no_ret : ℕ → ℕ → Request
  load_entity : ℕ → ℕ → ℕ → ℕ → ℕ → ℕ → ℕ → ℕ → Request
  free_xcall : ℕ → ℕ → ℕ → Request
  alloc_cdt_array : ℕ → Request
  free_cdt_array : ℕ → Request
  alloc_memory : ℕ → Request
  free_memory : ℕ → Request
  free_string : ℕ → Request
  alloc_string : ℕ → ℕ → Request
  alloc_string8 : ℕ → ℕ → Request
  alloc_string16 : ℕ → ℕ → Request
  alloc_string32 : ℕ → ℕ → Request
  load_runtime_plugin : ℕ → ℕ → Request
  free_runtime_plugin : ℕ → ℕ → Request
  set_runtime_flag : ℕ → Request
  is_runtime_flag_set : ℕ → Request
  alloc_cdts_buffer : ℕ → ℕ → Request
  free_cdts_buffer : ℕ → Request
  construct_cdts : ℕ → ℕ → ℕ → Request
  construct_cdt : ℕ → ℕ → ℕ → Request
  traverse_cdts : ℕ → ℕ → ℕ → Request
  traverse_cdt : ℕ → ℕ → ℕ → Request

-- What each call is to reach: the entry point of its name, with its arguments in their order, and
-- NULL, 0 or nothing where XLLR cannot be loaded.
abbrev pub target : Request → Symbol
target (Request.xcall_params_ret a b c) = Symbol.xcall_params_ret
target (Request.xcall_no_params_ret a b c) = Symbol.xcall_no_params_ret
target (Request.xcall_params_no_ret a b c) = Symbol.xcall_params_no_ret
target (Request.xcall_no_params_no_ret a b) = Symbol.xcall_no_params_no_ret
target (Request.load_entity a b c d e f g h) = Symbol.load_entity
target (Request.free_xcall a b c) = Symbol.free_xcall
target (Request.alloc_cdt_array a) = Symbol.alloc_cdt_array
target (Request.free_cdt_array a) = Symbol.free_cdt_array
target (Request.alloc_memory a) = Symbol.alloc_memory
target (Request.free_memory a) = Symbol.free_memory
target (Request.free_string a) = Symbol.free_string
target (Request.alloc_string a b) = Symbol.alloc_string
target (Request.alloc_string8 a b) = Symbol.alloc_string8
target (Request.alloc_string16 a b) = Symbol.alloc_string16
target (Request.alloc_string32 a b) = Symbol.alloc_string32
target (Request.load_runtime_plugin a b) = Symbol.load_runtime_plugin
target (Request.free_runtime_plugin a b) = Symbol.free_runtime_plugin
target (Request.set_runtime_flag a) = Symbol.set_runtime_flag
target (Request.is_runtime_flag_set a) = Symbol.is_runtime_flag_set
target (Request.alloc_cdts_buffer a b) = Symbol.alloc_cdts_buffer
target (Request.free_cdts_buffer a) = Symbol.free_cdts_buffer
target (Request.construct_cdts a b c) = Symbol.construct_cdts
target (Request.construct_cdt a b c) = Symbol.construct_cdt
target (Request.traverse_cdts a b c) = Symbol.traverse_cdts
target (Request.traverse_cdt a b c) = Symbol.traverse_cdt

abbrev pub arguments : Request → List ℕ
arguments (Request.xcall_params_ret a b c) = a ∷ b ∷ c ∷ []
arguments (Request.xcall_no_params_ret a b c) = a ∷ b ∷ c ∷ []
arguments (Request.xcall_params_no_ret a b c) = a ∷ b ∷ c ∷ []
arguments (Request.xcall_no_params_no_ret a b) = a ∷ b ∷ []
arguments (Request.load_entity a b c d e f g h) = a ∷ b ∷ c ∷ d ∷ e ∷ f ∷ g ∷ h ∷ []
arguments (Request.free_xcall a b c) = a ∷ b ∷ c ∷ []
arguments (Request.alloc_cdt_array a) = a ∷ []
arguments (Request.free_cdt_array a) = a ∷ []
arguments (Request.alloc_memory a) = a ∷ []
arguments (Request.free_memory a) = a ∷ []
arguments (Request.free_string a) = a ∷ []
arguments (Request.alloc_string a b) = a ∷ b ∷ []
arguments (Request.alloc_string8 a b) = a ∷ b ∷ []
arguments (Request.alloc_string16 a b) = a ∷ b ∷ []
arguments (Request.alloc_string32 a b) = a ∷ b ∷ []
arguments (Request.load_runtime_plugin a b) = a ∷ b ∷ []
arguments (Request.free_runtime_plugin a b) = a ∷ b ∷ []
arguments (Request.set_runtime_flag a) = a ∷ []
arguments (Request.is_runtime_flag_set a) = a ∷ []
arguments (Request.alloc_cdts_buffer a b) = a ∷ b ∷ []
arguments (Request.free_cdts_buffer a) = a ∷ []
arguments (Request.construct_cdts a b c) = a ∷ b ∷ c ∷ []
arguments (Request.construct_cdt a b c) = a ∷ b ∷ c ∷ []
arguments (Request.traverse_cdts a b c) = a ∷ b ∷ c ∷ []
arguments (Request.traverse_cdt a b c) = a ∷ b ∷ c ∷ []

abbrev pub fallback : Request → Option ℕ
fallback (Request.xcall_params_ret a b c) = none
fallback (Request.xcall_no_params_ret a b c) = none
fallback (Request.xcall_params_no_ret a b c) = none
fallback (Request.xcall_no_params_no_ret a b) = none
fallback (Request.load_entity a b c d e f g h) = some 0
fallback (Request.free_xcall a b c) = none
fallback (Request.alloc_cdt_array a) = some 0
fallback (Request.free_cdt_array a) = none
fallback (Request.alloc_memory a) = some 0
fallback (Request.free_memory a) = none
fallback (Request.free_string a) = none
fallback (Request.alloc_string a b) = some 0
fallback (Request.alloc_string8 a b) = some 0
fallback (Request.alloc_string16 a b) = some 0
fallback (Request.alloc_string32 a b) = some 0
fallback (Request.load_runtime_plugin a b) = none
fallback (Request.free_runtime_plugin a b) = none
fallback (Request.set_runtime_flag a) = none
fallback (Request.is_runtime_flag_set a) = some 0
fallback (Request.alloc_cdts_buffer a b) = some 0
fallback (Request.free_cdts_buffer a) = none
fallback (Request.construct_cdts a b c) = none
fallback (Request.construct_cdt a b c) = none
fallback (Request.traverse_cdts a b c) = none
fallback (Request.traverse_cdt a b c) = none

module _ (os : Platform) where
  unfoldable pub serve : Request → Loader → Outcome (Loader × Reply)
  serve (Request.xcall_params_ret a b c) = Wrappers.xllr_xcall_params_ret os a b c
  serve (Request.xcall_no_params_ret a b c) = Wrappers.xllr_xcall_no_params_ret os a b c
  serve (Request.xcall_params_no_ret a b c) = Wrappers.xllr_xcall_params_no_ret os a b c
  serve (Request.xcall_no_params_no_ret a b) = Wrappers.xllr_xcall_no_params_no_ret os a b
  serve (Request.load_entity a b c d e f g h) = Wrappers.xllr_load_entity os a b c d e f g h
  serve (Request.free_xcall a b c) = Wrappers.xllr_free_xcall os a b c
  serve (Request.alloc_cdt_array a) = Wrappers.xllr_alloc_cdt_array os a
  serve (Request.free_cdt_array a) = Wrappers.xllr_free_cdt_array os a
  serve (Request.alloc_memory a) = Wrappers.xllr_alloc_memory os a
  serve (Request.free_memory a) = Wrappers.xllr_free_memory os a
  serve (Request.free_string a) = Wrappers.xllr_free_string os a
  serve (Request.alloc_string a b) = Wrappers.xllr_alloc_string os a b
  serve (Request.alloc_string8 a b) = Wrappers.xllr_alloc_string8 os a b
  serve (Request.alloc_string16 a b) = Wrappers.xllr_alloc_string16 os a b
  serve (Request.alloc_string32 a b) = Wrappers.xllr_alloc_string32 os a b
  serve (Request.load_runtime_plugin a b) = Wrappers.xllr_load_runtime_plugin os a b
  serve (Request.free_runtime_plugin a b) = Wrappers.xllr_free_runtime_plugin os a b
  serve (Request.set_runtime_flag a) = Wrappers.xllr_set_runtime_flag os a
  serve (Request.is_runtime_flag_set a) = Wrappers.xllr_is_runtime_flag_set os a
  serve (Request.alloc_cdts_buffer a b) = Wrappers.xllr_alloc_cdts_buffer os a b
  serve (Request.free_cdts_buffer a) = Wrappers.xllr_free_cdts_buffer os a
  serve (Request.construct_cdts a b c) = Wrappers.xllr_construct_cdts os a b c
  serve (Request.construct_cdt a b c) = Wrappers.xllr_construct_cdt os a b c
  serve (Request.traverse_cdts a b c) = Wrappers.xllr_traverse_cdts os a b c
  serve (Request.traverse_cdt a b c) = Wrappers.xllr_traverse_cdt os a b c

  -- Every wrapper forwards to the entry point of its name with its arguments in their order.
  pub serve-forward :
      (r : Request) (st : Loader) → serve r st ≡ forward os (target r) (fallback r) (arguments r) st
  unfolding serve Wrappers.xllr_xcall_params_ret Wrappers.xllr_xcall_no_params_ret
      Wrappers.xllr_xcall_params_no_ret Wrappers.xllr_xcall_no_params_no_ret
      Wrappers.xllr_load_entity Wrappers.xllr_free_xcall Wrappers.xllr_alloc_cdt_array
      Wrappers.xllr_free_cdt_array Wrappers.xllr_alloc_memory Wrappers.xllr_free_memory
      Wrappers.xllr_free_string Wrappers.xllr_alloc_string Wrappers.xllr_alloc_string8
      Wrappers.xllr_alloc_string16 Wrappers.xllr_alloc_string32 Wrappers.xllr_load_runtime_plugin
      Wrappers.xllr_free_runtime_plugin Wrappers.xllr_set_runtime_flag
      Wrappers.xllr_is_runtime_flag_set Wrappers.xllr_alloc_cdts_buffer
      Wrappers.xllr_free_cdts_buffer Wrappers.xllr_construct_cdts Wrappers.xllr_construct_cdt
      Wrappers.xllr_traverse_cdts Wrappers.xllr_traverse_cdt
  serve-forward (Request.xcall_params_ret a b c) st = refl
  serve-forward (Request.xcall_no_params_ret a b c) st = refl
  serve-forward (Request.xcall_params_no_ret a b c) st = refl
  serve-forward (Request.xcall_no_params_no_ret a b) st = refl
  serve-forward (Request.load_entity a b c d e f g h) st = refl
  serve-forward (Request.free_xcall a b c) st = refl
  serve-forward (Request.alloc_cdt_array a) st = refl
  serve-forward (Request.free_cdt_array a) st = refl
  serve-forward (Request.alloc_memory a) st = refl
  serve-forward (Request.free_memory a) st = refl
  serve-forward (Request.free_string a) st = refl
  serve-forward (Request.alloc_string a b) st = refl
  serve-forward (Request.alloc_string8 a b) st = refl
  serve-forward (Request.alloc_string16 a b) st = refl
  serve-forward (Request.alloc_string32 a b) st = refl
  serve-forward (Request.load_runtime_plugin a b) st = refl
  serve-forward (Request.free_runtime_plugin a b) st = refl
  serve-forward (Request.set_runtime_flag a) st = refl
  serve-forward (Request.is_runtime_flag_set a) st = refl
  serve-forward (Request.alloc_cdts_buffer a b) st = refl
  serve-forward (Request.free_cdts_buffer a) st = refl
  serve-forward (Request.construct_cdts a b c) st = refl
  serve-forward (Request.construct_cdt a b c) st = refl
  serve-forward (Request.traverse_cdts a b c) st = refl
  serve-forward (Request.traverse_cdt a b c) st = refl
