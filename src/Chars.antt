-- ===== src/Chars.antt =====
-- plugin-sdk-main/runtime/metaffi_primitives.h: the three fixed-size characters, each an array of
-- code units, and what an assignment or a conversion can end in.
pub mod Utf8
pub mod Utf16
pub mod Utf32
pub mod Plain
pub mod Agree
pub mod RoundTrip
pub mod Cross
pub mod Buffer
mod Tests
use meta_ffi_project.Shared.{ℕ, Option, none, some}

-- `char8_t c[4]`
pub record Char8 : Type 0 where
  pub c0 : ℕ
  pub c1 : ℕ
  pub c2 : ℕ
  pub c3 : ℕ

-- `char16_t c[2]`
pub record Char16 : Type 0 where
  pub c0 : ℕ
  pub c1 : ℕ

-- `char32_t c`
pub record Char32 : Type 0 where
  pub c : ℕ

-- `invalid_argument` is the exception of that name. `out_of_bounds` is no value of the program: a
-- copy read past the buffer that it was given.
pub data Conversion {ℓ} (A : Type ℓ) : Type ℓ where
  ok : A → Conversion A
  invalid_argument : Conversion A
  out_of_bounds : Conversion A

infixl 5 ◌>>=◌
abbrev pub ◌>>=◌ {ℓ κ} :
    {A : Type ℓ} {B : Type κ} → Conversion A → (A → Conversion B) → Conversion B
ok a >>= f = f a
invalid_argument >>= f = invalid_argument
out_of_bounds >>= f = out_of_bounds

-- The check of `num_of_bytes` against -1, which `none` stands for.
abbrev pub required : Option ℕ → Conversion ℕ
required none = invalid_argument
required (some n) = ok n
