-- ===== src/Types/Flags.antt =====
-- The array bit on the types of values.
use mathlib.Core.Option.{some-injective, none-ne-some}
use meta_ffi_project.Shared.{
  ℕ, true, false, Option, some, ◌≡◌, refl, ◌≢◌, ◌∙◌, ap, Bool-cases, inl, inr, ◌==◌, ==_iff,
  if◌then◌else◌, arith,
}
use meta_ffi_project.Shared.Bits.{bit_and-bit_or}
use meta_ffi_project.Types.{
  Kind, code, any_type, array_type, has_array, without_array, with_array, kind_of,
}

-- Every kind is found again by its bit.
pub kind_of-code : (k : Kind) → kind_of (code k) ≡ some k
unfolding kind_of
kind_of-code Kind.float64 = refl
kind_of-code Kind.float32 = refl
kind_of-code Kind.int8 = refl
kind_of-code Kind.uint8 = refl
kind_of-code Kind.int16 = refl
kind_of-code Kind.uint16 = refl
kind_of-code Kind.int32 = refl
kind_of-code Kind.uint32 = refl
kind_of-code Kind.int64 = refl
kind_of-code Kind.uint64 = refl
kind_of-code Kind.bool = refl
kind_of-code Kind.char8 = refl
kind_of-code Kind.string8 = refl
kind_of-code Kind.char16 = refl
kind_of-code Kind.string16 = refl
kind_of-code Kind.char32 = refl
kind_of-code Kind.string32 = refl
kind_of-code Kind.handle = refl
kind_of-code Kind.callable = refl
kind_of-code Kind.null = refl
kind_of-code Kind.array = refl

-- A kind of elements: any but the array itself.
abbrev pub IsElement : Kind → Type 0
IsElement Kind.array = ⊥
IsElement _ = Unit

pub has_array-code : (k : Kind) → IsElement k → has_array (code k) ≡ false
unfolding has_array
has_array-code Kind.float64 h = refl
has_array-code Kind.float32 h = refl
has_array-code Kind.int8 h = refl
has_array-code Kind.uint8 h = refl
has_array-code Kind.int16 h = refl
has_array-code Kind.uint16 h = refl
has_array-code Kind.int32 h = refl
has_array-code Kind.uint32 h = refl
has_array-code Kind.int64 h = refl
has_array-code Kind.uint64 h = refl
has_array-code Kind.bool h = refl
has_array-code Kind.char8 h = refl
has_array-code Kind.string8 h = refl
has_array-code Kind.char16 h = refl
has_array-code Kind.string16 h = refl
has_array-code Kind.char32 h = refl
has_array-code Kind.string32 h = refl
has_array-code Kind.handle h = refl
has_array-code Kind.callable h = refl
has_array-code Kind.null h = refl
has_array-code Kind.array h = absurd h

pub has_array-with_array : (k : Kind) → IsElement k → has_array (with_array (code k)) ≡ true
unfolding has_array with_array
has_array-with_array Kind.float64 h = refl
has_array-with_array Kind.float32 h = refl
has_array-with_array Kind.int8 h = refl
has_array-with_array Kind.uint8 h = refl
has_array-with_array Kind.int16 h = refl
has_array-with_array Kind.uint16 h = refl
has_array-with_array Kind.int32 h = refl
has_array-with_array Kind.uint32 h = refl
has_array-with_array Kind.int64 h = refl
has_array-with_array Kind.uint64 h = refl
has_array-with_array Kind.bool h = refl
has_array-with_array Kind.char8 h = refl
has_array-with_array Kind.string8 h = refl
has_array-with_array Kind.char16 h = refl
has_array-with_array Kind.string16 h = refl
has_array-with_array Kind.char32 h = refl
has_array-with_array Kind.string32 h = refl
has_array-with_array Kind.handle h = refl
has_array-with_array Kind.callable h = refl
has_array-with_array Kind.null h = refl
has_array-with_array Kind.array h = absurd h

-- Taking the array bit off again gives the kind of the elements.
pub without_array-with_array :
    (k : Kind) → IsElement k → without_array (with_array (code k)) ≡ code k
unfolding without_array with_array
without_array-with_array Kind.float64 h = refl
without_array-with_array Kind.float32 h = refl
without_array-with_array Kind.int8 h = refl
without_array-with_array Kind.uint8 h = refl
without_array-with_array Kind.int16 h = refl
without_array-with_array Kind.uint16 h = refl
without_array-with_array Kind.int32 h = refl
without_array-with_array Kind.uint32 h = refl
without_array-with_array Kind.int64 h = refl
without_array-with_array Kind.uint64 h = refl
without_array-with_array Kind.bool h = refl
without_array-with_array Kind.char8 h = refl
without_array-with_array Kind.string8 h = refl
without_array-with_array Kind.char16 h = refl
without_array-with_array Kind.string16 h = refl
without_array-with_array Kind.char32 h = refl
without_array-with_array Kind.string32 h = refl
without_array-with_array Kind.handle h = refl
without_array-with_array Kind.callable h = refl
without_array-with_array Kind.null h = refl
without_array-with_array Kind.array h = absurd h

pub with_array-ne :
    (k : Kind) → IsElement k → (with_array (code k) ≢ array_type) × (with_array (code k) ≢ any_type)
unfolding with_array
with_array-ne Kind.float64 h = (omega arith, omega arith)
with_array-ne Kind.float32 h = (omega arith, omega arith)
with_array-ne Kind.int8 h = (omega arith, omega arith)
with_array-ne Kind.uint8 h = (omega arith, omega arith)
with_array-ne Kind.int16 h = (omega arith, omega arith)
with_array-ne Kind.uint16 h = (omega arith, omega arith)
with_array-ne Kind.int32 h = (omega arith, omega arith)
with_array-ne Kind.uint32 h = (omega arith, omega arith)
with_array-ne Kind.int64 h = (omega arith, omega arith)
with_array-ne Kind.uint64 h = (omega arith, omega arith)
with_array-ne Kind.bool h = (omega arith, omega arith)
with_array-ne Kind.char8 h = (omega arith, omega arith)
with_array-ne Kind.string8 h = (omega arith, omega arith)
with_array-ne Kind.char16 h = (omega arith, omega arith)
with_array-ne Kind.string16 h = (omega arith, omega arith)
with_array-ne Kind.char32 h = (omega arith, omega arith)
with_array-ne Kind.string32 h = (omega arith, omega arith)
with_array-ne Kind.handle h = (omega arith, omega arith)
with_array-ne Kind.callable h = (omega arith, omega arith)
with_array-ne Kind.null h = (omega arith, omega arith)
with_array-ne Kind.array h = absurd h

pub code-ne_any : (k : Kind) → code k ≢ any_type
code-ne_any Kind.float64 = omega arith
code-ne_any Kind.float32 = omega arith
code-ne_any Kind.int8 = omega arith
code-ne_any Kind.uint8 = omega arith
code-ne_any Kind.int16 = omega arith
code-ne_any Kind.uint16 = omega arith
code-ne_any Kind.int32 = omega arith
code-ne_any Kind.uint32 = omega arith
code-ne_any Kind.int64 = omega arith
code-ne_any Kind.uint64 = omega arith
code-ne_any Kind.bool = omega arith
code-ne_any Kind.char8 = omega arith
code-ne_any Kind.string8 = omega arith
code-ne_any Kind.char16 = omega arith
code-ne_any Kind.string16 = omega arith
code-ne_any Kind.char32 = omega arith
code-ne_any Kind.string32 = omega arith
code-ne_any Kind.handle = omega arith
code-ne_any Kind.callable = omega arith
code-ne_any Kind.null = omega arith
code-ne_any Kind.array = omega arith

-- The array bit is set once.
pub with_array-twice :
    (k : Kind) → IsElement k → with_array (with_array (code k)) ≡ with_array (code k)
unfolding with_array
with_array-twice Kind.float64 h = refl
with_array-twice Kind.float32 h = refl
with_array-twice Kind.int8 h = refl
with_array-twice Kind.uint8 h = refl
with_array-twice Kind.int16 h = refl
with_array-twice Kind.uint16 h = refl
with_array-twice Kind.int32 h = refl
with_array-twice Kind.uint32 h = refl
with_array-twice Kind.int64 h = refl
with_array-twice Kind.uint64 h = refl
with_array-twice Kind.bool h = refl
with_array-twice Kind.char8 h = refl
with_array-twice Kind.string8 h = refl
with_array-twice Kind.char16 h = refl
with_array-twice Kind.string16 h = refl
with_array-twice Kind.char32 h = refl
with_array-twice Kind.string32 h = refl
with_array-twice Kind.handle h = refl
with_array-twice Kind.callable h = refl
with_array-twice Kind.null h = refl
with_array-twice Kind.array h = absurd h

-- Setting the array bit of any type makes it the type of an array.
pub has_array-with_array_any : (t : ℕ) → has_array (with_array t) ≡ true
unfolding has_array with_array
has_array-with_array_any t = rw (bit_and-bit_or t array_type)

one_kind :
    (t : ℕ) (k k' : Kind) (rest : Option Kind)
    → (rest ≡ some k' → t ≡ code k')
    → (if t == code k then some k else rest) ≡ some k'
    → t ≡ code k'
one_kind t k k' rest h e = elim (Bool-cases (t == code k)) [
  | inl same ↦ (==_iff t (code k)).0 same ∙ ap code (some-injective k k' (rw same at e))
  | inr other ↦ h (rw other at e)
]

-- A kind is found only by its bit.
pub kind_of_sound : (t : ℕ) (k : Kind) → kind_of t ≡ some k → t ≡ code k
unfolding kind_of
kind_of_sound t k = one_kind t Kind.float64 k _ (
    one_kind t Kind.float32 k _ (
      one_kind t Kind.int8 k _ (
        one_kind t Kind.uint8 k _ (
          one_kind t Kind.int16 k _ (
            one_kind t Kind.uint16 k _ (
              one_kind t Kind.int32 k _ (
                one_kind t Kind.uint32 k _ (
                  one_kind t Kind.int64 k _ (
                    one_kind t Kind.uint64 k _ (
                      one_kind t Kind.bool k _ (
                        one_kind t Kind.char8 k _ (
                          one_kind t Kind.string8 k _ (
                            one_kind t Kind.char16 k _ (
                              one_kind t Kind.string16 k _ (
                                one_kind t Kind.char32 k _ (
                                  one_kind t Kind.string32 k _ (
                                    one_kind t Kind.handle k _ (
                                      one_kind t Kind.callable k _ (
                                        one_kind t Kind.null k _ (
                                          one_kind t Kind.array k _
                                            (λ e. absurd (none-ne-some k e))))))))))))))))))))))
