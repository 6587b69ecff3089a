-- ===== src/Shared/Bits.antt =====
-- Laws of the bitwise operations at variables.
use Prim.Native.Nat.{digits, bit_and-bitwise, bit_or-bitwise}
use meta_ffi_project.Shared.{
  ℕ, zero, suc, ◌+◌, ◌*◌, ◌/◌, ◌%◌, ◌^◌, ◌≤◌, ◌<◌, min, max, bit_and, bit_or, ◌≡◌, refl, ◌==◌,
  if◌then◌else◌, ◌∙◌, arith,
}
use native.Mathlib.Decide.{ℕ_discrete}
use native.Mathlib.Nat.{pow-suc}

-- How many numbers below a bound tell two functions apart. Where evaluation finds none, the
-- functions are equal there: so every mask of one byte is checked on all its values.
differences : (ℕ → ℕ) → (ℕ → ℕ) → ℕ → ℕ
differences f g zero = 0
differences f g (suc n) = differences f g n + (if f n == g n then 0 else 1)

table : (f g : ℕ → ℕ) (bound : ℕ) → differences f g bound ≡ 0 → (x : ℕ) → x < bound → f x ≡ g x
unfolding differences
table f g zero none_differ x below = absurd (omega arith)
table f g (suc n) none_differ x below = elim (ℕ_discrete x n) [
  | yes e ↦ rw e (ground arith)
  | no other ↦ table f g n (omega arith) x (omega arith)
]

-- `digits` is the recursion behind the native operations; its first number is fuel. One unit more
-- changes nothing once the fuel covers `x`, so any two such amounts agree.
module _ (others : ℕ → ℕ) (op : ℕ → ℕ → ℕ) where
  one_more : (fuel x y : ℕ) → x ≤ fuel → digits others op (suc fuel) x y ≡ digits others op fuel x y
  one_more zero zero y h = refl
  one_more zero (suc x) y h = absurd (omega arith)
  one_more (suc fuel) zero y h = refl
  one_more (suc fuel) (suc x) y h = omega (arith, one_more fuel (suc x / 2) (y / 2) (omega arith))

  settled : (fuel x y : ℕ) → x ≤ fuel → digits others op fuel x y ≡ digits others op x x y
  settled zero zero y h = refl
  settled zero (suc x) y h = absurd (omega arith)
  settled (suc fuel) x y h = elim (ℕ_discrete x (suc fuel)) [
    | yes e ↦ rw e
    | no n ↦ one_more fuel x y (omega arith) ∙ settled fuel x y (omega arith)
  ]

-- The lowest digit of `x & y` and of `x | y`.
bit_and_step : (x y : ℕ) → bit_and x y ≡ bit_and (x / 2) (y / 2) * 2 + min (x % 2) (y % 2)
bit_and_step zero y = omega (arith, bit_and-bitwise 0 y, bit_and-bitwise 0 (y / 2))
bit_and_step (suc x) y =
    let inner = settled (λ b. zero) min x (suc x / 2) (y / 2) (omega arith) in
    omega (arith, inner, bit_and-bitwise (suc x) y, bit_and-bitwise (suc x / 2) (y / 2))

bit_or_step : (x y : ℕ) → bit_or x y ≡ bit_or (x / 2) (y / 2) * 2 + max (x % 2) (y % 2)
bit_or_step zero y = omega (arith, bit_or-bitwise 0 y, bit_or-bitwise 0 (y / 2))
bit_or_step (suc x) y =
    let inner = settled (λ b. b) max x (suc x / 2) (y / 2) (omega arith) in
    omega (arith, inner, bit_or-bitwise (suc x) y, bit_or-bitwise (suc x / 2) (y / 2))

-- Zero on the right.
bit_or-zero_below : (bound x : ℕ) → x ≤ bound → bit_or x 0 ≡ x
bit_or-zero_below bound zero h = refl
bit_or-zero_below zero (suc x) h = absurd (omega arith)
bit_or-zero_below (suc bound) (suc x) h =
    omega (arith, bit_or-zero_below bound (suc x / 2) (omega arith), bit_or_step (suc x) 0)

bit_or-zero : (x : ℕ) → bit_or x 0 ≡ x
bit_or-zero x = bit_or-zero_below x x (omega arith)

bit_and-zero_below : (bound x : ℕ) → x ≤ bound → bit_and x 0 ≡ 0
bit_and-zero_below bound zero h = refl
bit_and-zero_below zero (suc x) h = absurd (omega arith)
bit_and-zero_below (suc bound) (suc x) h =
    omega (arith, bit_and-zero_below bound (suc x / 2) (omega arith), bit_and_step (suc x) 0)

bit_and-zero : (x : ℕ) → bit_and x 0 ≡ 0
bit_and-zero x = bit_and-zero_below x x (omega arith)

absorb_below : (bound x y : ℕ) → y ≤ bound → bit_and (bit_or x y) y ≡ y
absorb_below bound x zero h = bit_and-zero (bit_or x 0)
absorb_below zero x (suc y) h = absurd (omega arith)
absorb_below (suc bound) x (suc y) h =
    let half : bit_or x (suc y) / 2 ≡ bit_or (x / 2) (suc y / 2) =
      omega (arith, bit_or_step x (suc y)) in
    let inner : bit_and (bit_or x (suc y) / 2) (suc y / 2) ≡ suc y / 2 =
      rw half (absorb_below bound (x / 2) (suc y / 2) (omega arith)) in
    omega (arith, bit_and_step (bit_or x (suc y)) (suc y), inner, bit_or_step x (suc y))

-- Bits that were set are there.
pub bit_and-bit_or : (x y : ℕ) → bit_and (bit_or x y) y ≡ y
bit_and-bit_or x y = absorb_below y x y (omega arith)

bit_or_comm_below : (bound x y : ℕ) → x ≤ bound → y ≤ bound → bit_or x y ≡ bit_or y x
bit_or_comm_below zero zero zero h k = refl
bit_or_comm_below zero zero (suc y) h k = absurd (omega arith)
bit_or_comm_below zero (suc x) y h k = absurd (omega arith)
bit_or_comm_below (suc bound) x y h k =
    let halves : bit_or (x / 2) (y / 2) ≡ bit_or (y / 2) (x / 2) =
      bit_or_comm_below bound (x / 2) (y / 2) (omega arith) (omega arith) in
    omega (arith, halves, bit_or_step x y, bit_or_step y x)

pub bit_or_comm : (x y : ℕ) → bit_or x y ≡ bit_or y x
bit_or_comm x y = bit_or_comm_below (x + y) x y (omega arith) (omega arith)

-- Doubling both levels: `2 * x` has the last digit of `y` for its own.
double_bit_or : (x b : ℕ) → bit_or (x * 2) b ≡ bit_or x (b / 2) * 2 + b % 2
double_bit_or x b =
    let half : x * 2 / 2 ≡ x = omega arith in rw (bit_or_step (x * 2) b, half) (omega arith)

-- `(a << k) | b` is a sum where `b` fits the `k` free bits.
pub bit_or-shift : (k a b : ℕ) → b < 2 ^ k → bit_or (a * 2 ^ k) b ≡ a * 2 ^ k + b
bit_or-shift zero a b h =
    let e : b ≡ 0 = omega arith in rw (e, bit_or-zero (a * 2 ^ 0)) (omega arith)
bit_or-shift (suc k) a b h =
    let e : a * 2 ^ suc k ≡ a * 2 ^ k * 2 = rw (pow-suc 2 k) (omega arith) in
    let p : b < 2 ^ k * 2 = rw pow-suc at h in
    rw (e, double_bit_or (a * 2 ^ k) b, bit_or-shift k a (b / 2) (omega arith)) (omega arith)

bit_and_one : (a : ℕ) → bit_and a 1 ≡ a % 2
bit_and_one a = omega (arith, bit_and_step a 1, bit_and-zero (a / 2))

-- `x & 0x3F` keeps the low six bits of any number.
pub bit_and_63 : (a : ℕ) → bit_and a 0x3f ≡ a % 64
bit_and_63 a = omega (
  arith,
  bit_and_step a 63,
  bit_and_step (a / 2) 31,
  bit_and_step (a / 2 / 2) 15,
  bit_and_step (a / 2 / 2 / 2) 7,
  bit_and_step (a / 2 / 2 / 2 / 2) 3,
  bit_and_one (a / 2 / 2 / 2 / 2 / 2),
)

-- The masks of UTF-8 on one byte.
pub bit_and_1f : (b : ℕ) → b < 256 → bit_and b 0x1f ≡ b % 32
unfolding differences
bit_and_1f = table _ _ 256 refl

pub bit_and_0f : (b : ℕ) → b < 256 → bit_and b 0x0f ≡ b % 16
unfolding differences
bit_and_0f = table _ _ 256 refl

pub bit_and_07 : (b : ℕ) → b < 256 → bit_and b 0x07 ≡ b % 8
unfolding differences
bit_and_07 = table _ _ 256 refl

pub bit_and_80 : (b : ℕ) → b < 256 → bit_and b 0x80 ≡ b / 128 * 128
unfolding differences
bit_and_80 = table _ _ 256 refl

pub bit_and_e0 : (b : ℕ) → b < 256 → bit_and b 0xe0 ≡ b / 32 * 32
unfolding differences
bit_and_e0 = table _ _ 256 refl

pub bit_and_f0 : (b : ℕ) → b < 256 → bit_and b 0xf0 ≡ b / 16 * 16
unfolding differences
bit_and_f0 = table _ _ 256 refl

pub bit_and_f8 : (b : ℕ) → b < 256 → bit_and b 0xf8 ≡ b / 8 * 8
unfolding differences
bit_and_f8 = table _ _ 256 refl

-- The lead and continuation marks of UTF-8.
pub bit_or_80 : (x : ℕ) → x < 64 → bit_or x 0x80 ≡ x + 0x80
unfolding differences
bit_or_80 = table _ _ 64 refl

pub bit_or_c0 : (x : ℕ) → x < 32 → bit_or x 0xc0 ≡ x + 0xc0
unfolding differences
bit_or_c0 = table _ _ 32 refl

pub bit_or_e0 : (x : ℕ) → x < 16 → bit_or x 0xe0 ≡ x + 0xe0
unfolding differences
bit_or_e0 = table _ _ 16 refl

pub bit_or_f0 : (x : ℕ) → x < 8 → bit_or x 0xf0 ≡ x + 0xf0
unfolding differences
bit_or_f0 = table _ _ 8 refl
