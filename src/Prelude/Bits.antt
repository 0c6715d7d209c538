-- ===== src/Prelude/Bits.antt =====
-- The bits of a number, one at a time: `bit_and` and `bit_or` act on each bit, and a number is
-- known by its bits.
use Prim.Native.Nat.{digits, bit_and-bitwise, bit_or-bitwise}
use Prim.Native.Nat.{ℕ, zero, suc, ◌+◌, ◌-◌, ◌*◌, ◌/◌, ◌%◌, ◌≤◌, min, max}
use Prim.Native.Nat.{bit_and, bit_or}
use mathlib.Core.Path.{◌≡◌, refl, ◌∙◌, sym, ap}
use native.Mathlib.Omega.{arith}

module _ (lone : ℕ → ℕ) (both : ℕ → ℕ → ℕ) where
  -- The recursion on binary digits that stands behind both operations.
  by_digits : ℕ → ℕ → ℕ → ℕ
  by_digits fuel a b = digits lone both fuel a b

  -- One unit of fuel more makes no difference.
  one_spare : (fuel a b : ℕ) → a ≤ fuel → by_digits (suc fuel) a b ≡ by_digits fuel a b
  unfolding by_digits
  one_spare zero zero b h = refl
  one_spare (suc fuel) zero b h = refl
  one_spare zero (suc a) b h = absurd (omega arith)
  one_spare (suc fuel) (suc a) b h = omega (arith, one_spare fuel (suc a / 2) (b / 2) (omega arith))

  all_spare :
      (extra fuel large a b : ℕ)
      → large ≡ extra + fuel
      → a ≤ fuel
      → by_digits large a b ≡ by_digits fuel a b
  all_spare zero fuel large a b e h =
      let same : large ≡ fuel = omega arith in ap (λ m. by_digits m a b) same
  all_spare (suc extra) fuel large a b e h =
      let last : large ≡ suc (extra + fuel) = omega arith in
      ap (λ m. by_digits m a b) last
      ∙ one_spare (extra + fuel) a b (omega arith)
      ∙ all_spare extra fuel (extra + fuel) a b refl h

  -- The lowest digit, and the digits above it.
  lowest_digit :
      (a b : ℕ)
      → by_digits (suc a) (suc a) b
        ≡ by_digits (suc a / 2) (suc a / 2) (b / 2) * 2 + both (suc a % 2) (b % 2)
  unfolding by_digits
  lowest_digit a b = omega (
    arith,
    all_spare (a - suc a / 2) (suc a / 2) a (suc a / 2) (b / 2) (omega arith) (omega arith),
  )

pub zero-bit_or : (b : ℕ) → bit_or 0 b ≡ b
zero-bit_or b = bit_or-bitwise 0 b

pub zero-bit_and : (b : ℕ) → bit_and 0 b ≡ 0
zero-bit_and b = bit_and-bitwise 0 b

pub bit_or_step : (a b : ℕ) → bit_or a b ≡ bit_or (a / 2) (b / 2) * 2 + max (a % 2) (b % 2)
unfolding by_digits
bit_or_step zero b = omega (arith, zero-bit_or b, zero-bit_or (b / 2))
bit_or_step (suc a) b =
    bit_or-bitwise (suc a) b
    ∙ lowest_digit (λ b. b) max a b
    ∙ ap (λ t. t * 2 + max (suc a % 2) (b % 2)) (sym (bit_or-bitwise (suc a / 2) (b / 2)))

pub bit_and_step : (a b : ℕ) → bit_and a b ≡ bit_and (a / 2) (b / 2) * 2 + min (a % 2) (b % 2)
unfolding by_digits
bit_and_step zero b = omega (arith, zero-bit_and b, zero-bit_and (b / 2))
bit_and_step (suc a) b =
    bit_and-bitwise (suc a) b
    ∙ lowest_digit (λ b. zero) min a b
    ∙ ap (λ t. t * 2 + min (suc a % 2) (b % 2)) (sym (bit_and-bitwise (suc a / 2) (b / 2)))

-- The bit at position `i`.
unfoldable pub bit : ℕ → ℕ → ℕ
bit zero a = a % 2
bit (suc i) a = bit i (a / 2)

pub bit-bit_and : (i a b : ℕ) → bit i (bit_and a b) ≡ min (bit i a) (bit i b)
unfolding bit
bit-bit_and zero a b = omega (arith, bit_and_step a b)
bit-bit_and (suc i) a b =
    let half : bit_and a b / 2 ≡ bit_and (a / 2) (b / 2) = omega (arith, bit_and_step a b) in
    rw half (bit-bit_and i (a / 2) (b / 2))

pub bit-bit_or : (i a b : ℕ) → bit i (bit_or a b) ≡ max (bit i a) (bit i b)
unfolding bit
bit-bit_or zero a b = omega (arith, bit_or_step a b)
bit-bit_or (suc i) a b =
    let half : bit_or a b / 2 ≡ bit_or (a / 2) (b / 2) = omega (arith, bit_or_step a b) in
    rw half (bit-bit_or i (a / 2) (b / 2))

pub bit-le-one : (i a : ℕ) → bit i a ≤ 1
unfolding bit
bit-le-one zero a = omega arith
bit-le-one (suc i) a = bit-le-one i (a / 2)

bit_ext_fuel : (n a b : ℕ) → a ≤ n → b ≤ n → ((i : ℕ) → bit i a ≡ bit i b) → a ≡ b
unfolding bit
bit_ext_fuel zero a b p q h = omega arith
bit_ext_fuel (suc n) a b p q h =
    omega (arith, h 0, bit_ext_fuel n (a / 2) (b / 2) (omega arith) (omega arith) (λ i. h (suc i)))

-- Two numbers with the same bits are equal.
pub bit_ext : (a b : ℕ) → ((i : ℕ) → bit i a ≡ bit i b) → a ≡ b
bit_ext a b h = bit_ext_fuel (max a b) a b (omega arith) (omega arith) h

pub bit-zero : (i : ℕ) → bit i 0 ≡ 0
unfolding bit
bit-zero zero = refl
bit-zero (suc i) = bit-zero i
