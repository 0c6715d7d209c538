-- ===== src/Ring/PowerOfTwo.antt =====
-- On a ring whose size is a power of two, `wrap_ring` of src/igb.rs is the next index modulo the
-- size; the test of the start functions accepts those sizes and 0.
use native.Mathlib.Nat.{pow-suc, one-le-pow}
use igb_driver.Prelude.{
  ℕ, zero, suc, ◌+◌, ◌-◌, ◌/◌, ◌%◌, ◌^◌, ◌≤◌, ◌<◌, ◌≡◌, ◌↔◌, ◌⊎◌, inl, inr, refl, sym, ap, ◌∙◌,
  true, bit_and, ==_iff, arith,
}
use native.Mathlib.Decide.{dec_lt}
use igb_driver.Prelude.Bits.{bit_and_step, zero-bit_and}
use igb_driver.Prelude.Masks.{bit_and_mask, bit_and_self}
use igb_driver.Word.{usize_mod, add_usize, sub_usize, sub_usize_lem}
use igb_driver.Ring.{wrap_ring, is_ring_size}

abbrev pub IsPowerOfTwo : ℕ → Type 0
IsPowerOfTwo n = (k : ℕ) × (n ≡ 2 ^ k)

-- The next index of a ring whose size is a power of two is taken modulo the size.
pub wrap_ring-mod :
    {n : ℕ} (i : ℕ) → IsPowerOfTwo n → n < usize_mod → i < n → wrap_ring i n ≡ (i + 1) % n
unfolding wrap_ring
wrap_ring-mod {n} i (k, e) h l =
    ap (bit_and (add_usize i 1)) mask
    ∙ bit_and_mask k (add_usize i 1)
    ∙ ap (λ t. t % 2 ^ k) next
    ∙ ap (λ t. (i + 1) % t) (sym e)
  where
    mask : sub_usize n 1 ≡ 2 ^ k - 1
    mask = omega (arith, e)

    next : add_usize i 1 ≡ i + 1
    next = omega arith

-- A number that has no bit in common with its predecessor is 0 or a power of two.
power_of_two : (f n : ℕ) → n ≤ f → 0 < n → bit_and n (n - 1) ≡ 0 → IsPowerOfTwo n
power_of_two zero n h p e = absurd (omega arith)
power_of_two (suc f) n h p e = elim (dec_lt (n % 2) 1) [
  | yes even ↦
      let pred : (n - 1) / 2 ≡ n / 2 - 1 = omega arith in
      let (k, q) =
        power_of_two f (n / 2) (omega arith) (omega arith)
          (omega (arith, e, bit_and_step n (n - 1), ap (bit_and (n / 2)) pred)) in
      (suc k, omega (arith, q, pow-suc 2 k))
  | no odd ↦
      let pred : (n - 1) / 2 ≡ n / 2 = omega arith in
      (0, omega (arith, e, bit_and_step n (n - 1), ap (bit_and (n / 2)) pred, bit_and_self (n / 2)))
]

disjoint_pred : (k : ℕ) → bit_and (2 ^ k) (2 ^ k - 1) ≡ 0
disjoint_pred zero = refl
disjoint_pred (suc k) =
    let half : 2 ^ suc k / 2 ≡ 2 ^ k = omega (arith, pow-suc 2 k) in
    let pred : (2 ^ suc k - 1) / 2 ≡ 2 ^ k - 1 = omega (arith, pow-suc 2 k, one-le-pow k 2) in
    let even : 2 ^ suc k % 2 ≡ 0 = omega (arith, pow-suc 2 k) in
    bit_and_step (2 ^ suc k) (2 ^ suc k - 1)
    ∙ rw (half, pred, even) (omega (arith, disjoint_pred k))

-- The test for a ring size accepts 0 and the powers of two, and nothing else.
pub is_ring_size_iff :
    (n : ℕ) → n < usize_mod → (is_ring_size n ≡ true) ↔ ((n ≡ 0) ⊎ IsPowerOfTwo n)
unfolding is_ring_size
is_ring_size_iff n h = ((λ t. accepted ((==_iff _ _).0 t)), (λ c. (==_iff _ _).1 (rejects_none c)))
  where
    accepted : bit_and n (sub_usize n 1) ≡ 0 → (n ≡ 0) ⊎ IsPowerOfTwo n
    accepted e = elim (dec_lt 0 n) [
      | yes pos ↦
          let pred : sub_usize n 1 ≡ n - 1 = sub_usize_lem n 1 h pos in
          inr (power_of_two n n (omega arith) pos (ap (bit_and n) (sym pred) ∙ e))
      | no none ↦ inl (omega arith)
    ]

    rejects_none : (n ≡ 0) ⊎ IsPowerOfTwo n → bit_and n (sub_usize n 1) ≡ 0
    rejects_none (inl z) = ap (λ t. bit_and t (sub_usize n 1)) z ∙ zero-bit_and (sub_usize n 1)
    rejects_none (inr (k, e)) =
        let pred : sub_usize n 1 ≡ 2 ^ k - 1 = omega (arith, e, one-le-pow k 2) in
        ap (bit_and n) pred ∙ ap (λ t. bit_and t (2 ^ k - 1)) e ∙ disjoint_pred k
