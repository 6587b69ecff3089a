-- ===== src/Cdts/Scalar.antt =====
-- The constructors, assignments and conversions of `cdt` in plugin-sdk-main/runtime/cdt.h for single
-- values, and its checked references. The union is 64 bits in the little-endian order: a value of w
-- bits is written to its low bits and leaves the others.
use meta_ffi_project.Shared.{
  ℕ, [], ◌+◌, ◌*◌, ◌%◌, ◌/◌, ◌^◌, ◌<◌, Option, none, some, Bool, true, false, not, ◌≡◌, refl, ◌==◌,
  if◌then◌else◌, arith,
}
use native.Mathlib.Nat.{mul-add-mod_self_right, mod-eq_of_lt}
use meta_ffi_project.Types.{Kind, code, has_array, kind_of}
use meta_ffi_project.Cdts.{Cdt, cdt, Value, word, array_val, Cdts, default_cdt, type_of}
use meta_ffi_project.Cdts.Memory.{releases, free_word}

-- The bits of a value of a kind; a float or a signed number is its bits.
abbrev pub bits : Kind → ℕ
bits Kind.float64 = 64
bits Kind.float32 = 32
bits Kind.int8 = 8
bits Kind.uint8 = 8
bits Kind.int16 = 16
bits Kind.uint16 = 16
bits Kind.int32 = 32
bits Kind.uint32 = 32
bits Kind.bool = 8
bits Kind.char8 = 32
bits Kind.char16 = 32
bits Kind.char32 = 32
bits _ = 64

-- Writing the low n bits of a word, and reading them.
abbrev pub low_bits : ℕ → ℕ → ℕ
low_bits n w = w % 2 ^ n

abbrev pub write_bits : ℕ → ℕ → ℕ → ℕ
write_bits n val w = w / 2 ^ n * 2 ^ n + low_bits n val

-- The kinds of `operator=`: numbers, `bool` and `metaffi_char8`.
abbrev pub is_scalar : Kind → Bool
is_scalar Kind.string8 = false
is_scalar Kind.char16 = false
is_scalar Kind.string16 = false
is_scalar Kind.char32 = false
is_scalar Kind.string32 = false
is_scalar Kind.handle = false
is_scalar Kind.callable = false
is_scalar Kind.null = false
is_scalar Kind.array = false
is_scalar _ = true

module _ (address : Cdts → ℕ) where
  -- The union as a number; the address of an array is a parameter.
  abbrev pub union_word : Value → ℕ
  union_word (word w) = w
  union_word (array_val a) = address a

  -- `operator=` of a value of a kind: what the `cdt` owned is overwritten, and its flag stays.
  unfoldable pub assign : Kind → ℕ → Cdt → Cdt
  assign k val (cdt ty v fr) = cdt (code k) (word (write_bits (bits k) val (union_word v))) fr

  -- The constructors from a value, which start from `cdt()` or from a union of 0.
  unfoldable pub construct : Kind → ℕ → Cdt
  unfolding assign
  construct k val = assign k val default_cdt

  -- `operator=(bool)`
  unfoldable pub assign_bool : Bool → Cdt → Cdt
  unfolding assign
  assign_bool val c = assign Kind.bool (if val then 1 else 0) c

  -- The conversion to a value of a kind, which does not look at the type.
  unfoldable pub convert : Kind → Cdt → ℕ
  convert k (cdt ty v fr) = low_bits (bits k) (union_word v)

  -- `operator bool`
  unfoldable pub to_bool : Cdt → Bool
  unfolding convert
  to_bool c = not (convert Kind.bool c == 0)

  -- The conversions to a reference of a `cdts`, a handle or a callable: they all test the pointer to
  -- an array, which is in the same 64 bits as theirs; `none` is the exception.
  unfoldable pub reference : Cdt → Option ℕ
  reference (cdt ty v fr) = if union_word v == 0 then none else some (union_word v)

  low-write :
      (k : Kind) (val w : ℕ)
      → val < 2 ^ bits k
      → low_bits (bits k) (write_bits (bits k) val w) ≡ val
  low-write k val w h =
      let small : val % 2 ^ bits k ≡ val = mod-eq_of_lt h in
      rw (mul-add-mod_self_right (w / 2 ^ bits k) (2 ^ bits k) (val % 2 ^ bits k), small) small

  convert-assign :
      (k : Kind) (val : ℕ) (c : Cdt) → val < 2 ^ bits k → convert k (assign k val c) ≡ val
  unfolding convert assign
  convert-assign k val (cdt ty v fr) h = low-write k val (union_word v) h

  nothing_owned :
      (k : Kind) (w : ℕ) (fr : Bool)
      → is_scalar k ≡ true
      → releases (cdt (code k) (word w) fr) ≡ some []
  unfolding releases has_array kind_of free_word
  nothing_owned k w false h = refl
  nothing_owned Kind.float64 w true h = refl
  nothing_owned Kind.float32 w true h = refl
  nothing_owned Kind.int8 w true h = refl
  nothing_owned Kind.uint8 w true h = refl
  nothing_owned Kind.int16 w true h = refl
  nothing_owned Kind.uint16 w true h = refl
  nothing_owned Kind.int32 w true h = refl
  nothing_owned Kind.uint32 w true h = refl
  nothing_owned Kind.int64 w true h = refl
  nothing_owned Kind.uint64 w true h = refl
  nothing_owned Kind.bool w true h = refl
  nothing_owned Kind.char8 w true h = refl
  nothing_owned _ w true h = cc

  -- A value that is assigned has its type and is read back by the conversion to it, whatever the
  -- `cdt` held; and the destructor then releases nothing, so that what the `cdt` owned is lost.
  pub assign_lem :
      (k : Kind) (val : ℕ) (c : Cdt)
      → is_scalar k ≡ true
      → val < 2 ^ bits k
      → (type_of (assign k val c) ≡ code k)
        × (convert k (assign k val c) ≡ val)
        × (releases (assign k val c) ≡ some [])
  unfolding assign
  assign_lem k val (cdt ty v fr) h small = (
    refl,
    convert-assign k val (cdt ty v fr) small,
    nothing_owned k (write_bits (bits k) val (union_word v)) fr h,
  )

  pub to_bool-assign_bool : (b : Bool) (c : Cdt) → to_bool (assign_bool b c) ≡ b
  unfolding to_bool assign_bool convert assign
  to_bool-assign_bool true (cdt ty v fr) =
      rw (low-write Kind.bool 1 (union_word v) (omega arith)) refl
  to_bool-assign_bool false (cdt ty v fr) =
      rw (low-write Kind.bool 0 (union_word v) (omega arith)) refl
