-- ===== src/Prelude/Bits.antt =====
-- Exclusive or on numbers of any size, and the masks that the frame codec uses, at every byte.
use Prim.Native.Nat.{
  ℕ, zero, suc, ◌+◌, ◌*◌, ◌/◌, ◌%◌, ◌≤◌, ◌<◌, ◌^◌, bit_and, bit_or, bit_xor, digits, differ,
  bit_xor-bitwise,
}
use mathlib.Core.Bool.{Bool, true, ◌&&◌}
use mathlib.Core.Path.{◌≡◌, refl}
use native.Mathlib.Nat.{pow-suc}
use native.Mathlib.Omega.{arith}
use ultra_net.Prelude.Tests.{◌==◌, ltb, if◌then◌else◌}

-- The fuel of the recursion on binary digits does not matter, once it is enough.
xor_digits_fuel :
    (n m a b : ℕ) → a ≤ n → a ≤ m → digits (λ y. y) differ n a b ≡ digits (λ y. y) differ m a b
xor_digits_fuel zero zero a b p q = refl
xor_digits_fuel zero (suc m) zero b p q = refl
xor_digits_fuel zero (suc m) (suc a) b p q = absurd (omega arith)
xor_digits_fuel (suc n) zero zero b p q = refl
xor_digits_fuel (suc n) zero (suc a) b p q = absurd (omega arith)
xor_digits_fuel (suc n) (suc m) zero b p q = refl
xor_digits_fuel (suc n) (suc m) (suc a) b p q =
    rw (xor_digits_fuel n m (suc a / 2) (b / 2) (omega arith) (omega arith))

zero-xor : (b : ℕ) → bit_xor 0 b ≡ b
zero-xor b = bit_xor-bitwise 0 b

xor_step :
    (a b : ℕ) → bit_xor (suc a) b ≡ bit_xor (suc a / 2) (b / 2) * 2 + differ (suc a % 2) (b % 2)
xor_step a b = omega (
  arith,
  bit_xor-bitwise (suc a) b,
  bit_xor-bitwise (suc a / 2) (b / 2),
  xor_digits_fuel a (suc a / 2) (suc a / 2) (b / 2) (omega arith) (omega arith),
)

xor_halves : (a b : ℕ) → bit_xor a b ≡ bit_xor (a / 2) (b / 2) * 2 + differ (a % 2) (b % 2)
xor_halves zero b = omega (arith, zero-xor b, zero-xor (b / 2))
xor_halves (suc a) b = xor_step a b

differ_small : (x y : ℕ) → x < 2 → y < 2 → differ x y < 2
differ_small zero y h k = k
differ_small (suc zero) zero h k = omega arith
differ_small (suc zero) (suc zero) h k = omega arith
differ_small (suc zero) (suc (suc y)) h k = absurd (omega arith)
differ_small (suc (suc x)) y h k = absurd (omega arith)

differ_twice : (x y : ℕ) → x < 2 → y < 2 → differ (differ x y) y ≡ x
differ_twice zero zero h k = refl
differ_twice zero (suc zero) h k = refl
differ_twice zero (suc (suc y)) h k = absurd (omega arith)
differ_twice (suc zero) zero h k = refl
differ_twice (suc zero) (suc zero) h k = refl
differ_twice (suc zero) (suc (suc y)) h k = absurd (omega arith)
differ_twice (suc (suc x)) y h k = absurd (omega arith)

xor_twice_fuel : (n a b : ℕ) → a ≤ n → b ≤ n → bit_xor (bit_xor a b) b ≡ a
xor_twice_fuel zero zero zero h k = refl
xor_twice_fuel zero zero (suc b) h k = absurd (omega arith)
xor_twice_fuel zero (suc a) b h k = absurd (omega arith)
xor_twice_fuel (suc n) a b h k =
    let small = differ_small (a % 2) (b % 2) (omega arith) (omega arith) in
    let x = bit_xor (a / 2) (b / 2) in
    let d = differ (a % 2) (b % 2) in
    let half : (x * 2 + d) / 2 ≡ x = omega arith in
    let low : (x * 2 + d) % 2 ≡ d = omega arith in
    rw
      (
        xor_halves a b,
        xor_halves (x * 2 + d) b,
        half,
        low,
        xor_twice_fuel n (a / 2) (b / 2) (omega arith) (omega arith),
        differ_twice (a % 2) (b % 2) (omega arith) (omega arith),
      )
      (omega arith)

-- Exclusive or with the same number twice gives the first number back.
pub xor_twice : (a b : ℕ) → bit_xor (bit_xor a b) b ≡ a
xor_twice a b = xor_twice_fuel (a + b) a b (omega arith) (omega arith)

-- A test that every number under a bound passes, which a run decides.
abbrev pub passes_to : (ℕ → Bool) → ℕ → Bool
passes_to test zero = true
passes_to test (suc top) = passes_to test top && test top

passes_to-at : (test : ℕ → Bool) (top v : ℕ) → v < top → passes_to test top ≡ true → test v ≡ true
passes_to-at test zero v under pass = absurd (omega (arith, under))
passes_to-at test (suc top) v under pass = ground (arith, passes_to-at test top v)

abbrev masks_agree : ℕ → Bool
masks_agree b =
    (bit_and b 0x0f == b % 16)
    && (bit_and b 0x7f == b % 128)
    && (bit_and b 0x80 == (if ltb b 128 then 0 else 128))

abbrev joins_agree : ℕ → Bool
joins_agree b = (bit_or 0x80 b == 128 + b) && (bit_or 0 b == b)

and_table : passes_to masks_agree 256 ≡ true
and_table = refl

or_table : passes_to joins_agree 128 ≡ true
or_table = refl

-- The masks of the first two bytes of a frame.
pub byte_masks :
    (b : ℕ)
    → b < 256
    → (bit_and b 0x0f ≡ b % 16)
      × (bit_and b 0x7f ≡ b % 128)
      × (bit_and b 0x80 ≡ (if ltb b 128 then 0 else 128))
byte_masks b h = ground (arith, passes_to-at masks_agree 256 b h and_table)

pub or_high : (b : ℕ) → b < 128 → (bit_or 0x80 b ≡ 128 + b) × (bit_or 0 b ≡ b)
or_high b h = ground (arith, passes_to-at joins_agree 128 b h or_table)

-- Exclusive or stays within the width of its operands.
pub xor-lt : (k a b : ℕ) → a < 2 ^ k → b < 2 ^ k → bit_xor a b < 2 ^ k
xor-lt zero zero zero h l = omega arith
xor-lt zero zero (suc b) h l = absurd (omega arith)
xor-lt zero (suc a) b h l = absurd (omega arith)
xor-lt (suc k) a b h l = omega (
  arith,
  pow-suc 2 k,
  xor_halves a b,
  xor-lt k (a / 2) (b / 2) (omega (arith, pow-suc 2 k)) (omega (arith, pow-suc 2 k)),
  differ_small (a % 2) (b % 2) (omega arith) (omega arith),
)
