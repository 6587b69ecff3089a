-- ===== src/Utils.antt =====
-- plugin-sdk-main/utils: the helpers in C++ that plugins share, from the expansion of environment
-- variables to the search for libraries. A text is a list of bytes.
pub mod Env
pub mod Search
pub mod Expand
pub mod Plain
pub mod Reference
pub mod Spellings
pub mod Variables
pub mod EntityPath
pub mod Library
pub mod Plugin
pub mod Singleton
pub mod ApiWrapper
mod Tests
use meta_ffi_project.Shared.{ℕ, List}

abbrev pub Bytes : Type 0
Bytes = List ℕ
