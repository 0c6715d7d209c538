-- ===== src/Prelude/Masks.antt =====
-- Masks of machine words: low bits, flags that are set, flags that are cleared.
use native.Mathlib.Nat.{
  pow-suc, one-le-pow, add-mul-mod_self_left, mod-eq_of_lt, mod-lt, div-add-mod,
}
use native.Mathlib.Decide.{dec_lt}
use Prim.Native.Nat.{ℕ, zero, suc, ◌+◌, ◌-◌, ◌*◌, ◌/◌, ◌%◌, ◌^◌, ◌≤◌, ◌<◌}
use Prim.Native.Nat.{bit_and, bit_or}
use mathlib.Core.Path.{◌≡◌, refl, ap, ◌∙◌}
use igb_driver.Prelude.Tests.{==_ne, ◌==◌, if◌then◌else◌}
use mathlib.Core.Logic.{◌≢◌}
use native.Mathlib.Omega.{arith}
use igb_driver.Prelude.Bits.{
  bit, bit-bit_and, bit-bit_or, bit-le-one, bit_ext, bit_and_step, bit_or_step, zero-bit_or,
  bit-zero,
}

bit_and-zero : (a : ℕ) → bit_and a 0 ≡ 0
bit_and-zero a = bit_ext (bit_and a 0) 0 (λ i. omega (arith, bit-bit_and i a 0, bit-zero i))

pub bit_and_self : (a : ℕ) → bit_and a a ≡ a
bit_and_self a = bit_ext (bit_and a a) a (λ i. omega (arith, bit-bit_and i a a))

-- The flags that `bit_or` sets are found set.
pub bit_and-bit_or : (a f : ℕ) → bit_and (bit_or a f) f ≡ f
bit_and-bit_or a f =
    bit_ext (bit_and (bit_or a f) f) f
      (λ i. omega (arith, bit-bit_and i (bit_or a f) f, bit-bit_or i a f))

-- The same for the last part of the flags.
pub bit_and-bit_or_last : (a c f : ℕ) → bit_and (bit_or a (bit_or c f)) f ≡ f
bit_and-bit_or_last a c f = bit_ext (bit_and (bit_or a (bit_or c f)) f) f (λ i. omega (
  arith,
  bit-bit_and i (bit_or a (bit_or c f)) f,
  bit-bit_or i a (bit_or c f),
  bit-bit_or i c f,
  bit-le-one i f,
))

pub bit_and-le : (a b : ℕ) → bit_and a b ≤ b
bit_and-le a b = bit_and-le_fuel b a b (omega arith)
  where
    bit_and-le_fuel : (n a b : ℕ) → b ≤ n → bit_and a b ≤ b
    bit_and-le_fuel zero a b h =
        omega (arith, bit_and-zero a, ap (bit_and a) (let e : b ≡ 0 = omega arith in e))
    bit_and-le_fuel (suc n) a b h =
        omega (arith, bit_and_step a b, bit_and-le_fuel n (a / 2) (b / 2) (omega arith))

-- One more digit of a remainder.
mod-mul_two : (a m : ℕ) → 0 < m → a % (2 * m) ≡ a / 2 % m * 2 + a % 2
mod-mul_two a m h =
    ap (λ t. t % (2 * m)) split
    ∙ add-mul-mod_self_left (a / 2 % m * 2 + a % 2) (2 * m) (a / 2 / m)
    ∙ mod-eq_of_lt (omega (arith, mod-lt (a / 2) h))
  where
    split : a ≡ a / 2 % m * 2 + a % 2 + 2 * m * (a / 2 / m)
    split = omega (arith, div-add-mod (a / 2) m)

doubled : (k : ℕ) → 2 ^ suc k ≡ 2 * 2 ^ k
doubled k = omega (arith, pow-suc 2 k)

-- A mask of `k` low bits is the remainder by `2 ^ k`.
pub bit_and_mask : (k a : ℕ) → bit_and a (2 ^ k - 1) ≡ a % 2 ^ k
bit_and_mask zero a = omega (arith, bit_and-zero a)
bit_and_mask (suc k) a =
    let half : (2 ^ suc k - 1) / 2 ≡ 2 ^ k - 1 = omega (arith, pow-suc 2 k, one-le-pow k 2) in
    let low : (2 ^ suc k - 1) % 2 ≡ 1 = omega (arith, pow-suc 2 k, one-le-pow k 2) in
    bit_and_step a (2 ^ suc k - 1)
    ∙ rw (half, low, bit_and_mask k (a / 2))
        (omega (
          arith,
          mod-mul_two a (2 ^ k) (one-le-pow k 2 (omega arith)),
          ap (λ t. a % t) (doubled k),
        ))

pub bit_and-one : (a : ℕ) → bit_and a 1 ≡ a % 2
bit_and-one a = bit_and_mask 1 a

-- The flags of `f` that `a` has set, taken away from a word of all ones: `!f` of a `w`-bit word.
pub bit-complement : (w i f : ℕ) → f < 2 ^ w → i < w → bit i (2 ^ w - 1 - f) ≡ 1 - bit i f
unfolding bit
bit-complement zero i f h l = absurd (omega arith)
bit-complement (suc w) zero f h l = omega (arith, pow-suc 2 w, one-le-pow w 2)
bit-complement (suc w) (suc i) f h l =
    let half : (2 ^ suc w - 1 - f) / 2 ≡ 2 ^ w - 1 - f / 2 =
      omega (arith, pow-suc 2 w, one-le-pow w 2) in
    rw half (bit-complement w i (f / 2) (omega (arith, pow-suc 2 w)) (omega arith))

-- A `w`-bit word has no bit from `w` on.
pub bit_above : (w i f : ℕ) → f < 2 ^ w → w ≤ i → bit i f ≡ 0
unfolding bit
bit_above zero i f h l = let e : f ≡ 0 = omega arith in rw e (bit-zero i)
bit_above (suc w) zero f h l = absurd (omega arith)
bit_above (suc w) (suc i) f h l = bit_above w i (f / 2) (omega (arith, pow-suc 2 w)) (omega arith)

-- Clearing flags with `& !f` leaves none of them set.
pub bit_and-clear : (w a f : ℕ) → f < 2 ^ w → bit_and (bit_and a (2 ^ w - 1 - f)) f ≡ 0
bit_and-clear w a f h = bit_ext (bit_and (bit_and a (2 ^ w - 1 - f)) f) 0 λ i. elim (dec_lt i w) [
  | yes l ↦ omega (
    arith,
    bit-bit_and i (bit_and a (2 ^ w - 1 - f)) f,
    bit-bit_and i a (2 ^ w - 1 - f),
    bit-complement w i f h l,
    bit-le-one i f,
    bit-zero i,
  )
  | no l ↦ omega (
    arith,
    bit-bit_and i (bit_and a (2 ^ w - 1 - f)) f,
    bit_above w i f h (omega arith),
    bit-zero i,
  )
]

-- A `w`-bit word stays one under both operations.
pub bit_or-lt : (w a b : ℕ) → a < 2 ^ w → b < 2 ^ w → bit_or a b < 2 ^ w
bit_or-lt zero a b h l =
    omega (
      arith,
      bit_or_step a b,
      ap (λ t. bit_or t b) (let e : a ≡ 0 = omega arith in e),
      zero-bit_or b,
    )
bit_or-lt (suc w) a b h l = omega (
  arith,
  bit_or_step a b,
  pow-suc 2 w,
  bit_or-lt w (a / 2) (b / 2) (omega (arith, pow-suc 2 w)) (omega (arith, pow-suc 2 w)),
)

-- A power of two has one bit.
pub bit-pow : (i k : ℕ) → bit i (2 ^ k) ≡ (if i == k then 1 else 0)
unfolding bit
bit-pow zero zero = refl
bit-pow zero (suc k) = grind (arith, pow-suc 2 k)
bit-pow (suc i) zero = grind (arith, bit-zero i)
bit-pow (suc i) (suc k) =
    let half : 2 ^ suc k / 2 ≡ 2 ^ k = omega (arith, pow-suc 2 k) in
    rw half (ground (arith, bit-pow i k))

pub bit-pow_ne : (i k : ℕ) → i ≢ k → bit i (2 ^ k) ≡ 0
bit-pow_ne i k ne = rw (bit-pow i k, ==_ne i k ne) refl

-- The low bits of a word.
pub bit-mod : (w i a : ℕ) → i < w → bit i (a % 2 ^ w) ≡ bit i a
unfolding bit
bit-mod zero i a h = absurd (omega arith)
bit-mod (suc w) zero a h =
    let whole =
      ap (λ m. a % m) (doubled w) ∙ mod-mul_two a (2 ^ w) (one-le-pow w 2 (omega arith)) in
    omega (arith, whole)
bit-mod (suc w) (suc i) a h =
    let whole =
      ap (λ m. a % m) (doubled w) ∙ mod-mul_two a (2 ^ w) (one-le-pow w 2 (omega arith)) in
    let half : a % 2 ^ suc w / 2 ≡ a / 2 % 2 ^ w = omega (arith, whole) in
    rw half (bit-mod w i (a / 2) (omega arith))

-- A shift to the left moves the bits up, and the bits below are clear.
pub bit_shifted : (k i a : ℕ) → bit (k + i) (a * 2 ^ k) ≡ bit i a
unfolding bit
bit_shifted zero i a =
    let low : 0 + i ≡ i = omega arith in
    let same : a * 2 ^ 0 ≡ a = omega arith in ap (λ j. bit j (a * 2 ^ 0)) low ∙ ap (bit i) same
bit_shifted (suc k) i a =
    let half : a * 2 ^ suc k / 2 ≡ a * 2 ^ k = omega (arith, ap (λ t. a * t) (doubled k)) in
    let next : suc k + i ≡ suc (k + i) = omega arith in
    ap (λ j. bit j (a * 2 ^ suc k)) next ∙ ap (bit (k + i)) half ∙ bit_shifted k i a

pub bit_below : (k i a : ℕ) → i < k → bit i (a * 2 ^ k) ≡ 0
unfolding bit
bit_below zero i a h = absurd (omega arith)
bit_below (suc k) zero a h = omega (arith, ap (λ t. a * t) (doubled k))
bit_below (suc k) (suc i) a h =
    let half : a * 2 ^ suc k / 2 ≡ a * 2 ^ k = omega (arith, ap (λ t. a * t) (doubled k)) in
    rw half (bit_below k i a (omega arith))
