-- ===== src/Interrupts/Vectors.antt =====
-- What `set_ivar` of src/igb.rs tells the card.
use native.Mathlib.Nat.{mod-eq_of_lt, mod-lt}
use igb_driver.Prelude.{
  ℕ, ◌+◌, ◌-◌, ◌*◌, ◌/◌, ◌%◌, ◌^◌, ◌≤◌, ◌<◌, ◌≡◌, ◌⊎◌, ◌∙◌, refl, ap, sym, inl, inr, ◌∷◌, bit_and,
  bit_or, arith,
}
use igb_driver.Prelude.Bits.{bit, bit-bit_and, bit-bit_or, bit-le-one, bit-zero}
use igb_driver.Prelude.Masks.{bit-complement, bit_above, bit-mod, bit_or-lt, bit_shifted, bit_below}
use igb_driver.Outcome.{Returns}
use igb_driver.Registers.{igb_ivar, igb_ivar_alloc_val}
use igb_driver.Device.{Platform, read, wrote, World}
use igb_driver.Device.Access.{Mapped, at_trace}
use igb_driver.Interrupts.{set_ivar}

-- A byte at the position `k` of a word.
abbrev placed : ℕ → ℕ → ℕ
placed a k = a * 2 ^ k % 2 ^ 32

placed_in : (a k i : ℕ) → k + i < 32 → bit (k + i) (placed a k) ≡ bit i a
placed_in a k i h = bit-mod 32 (k + i) (a * 2 ^ k) h ∙ bit_shifted k i a

placed_out : (a k i : ℕ) → a < 2 ^ 8 → i < 32 → (i < k) ⊎ (k + 8 ≤ i) → bit i (placed a k) ≡ 0
placed_out a k i small h (inl below) = bit-mod 32 i (a * 2 ^ k) h ∙ bit_below k i a below
placed_out a k i small h (inr above) =
    let there : k + (i - k) ≡ i = omega arith in
    ap (λ j. bit j (placed a k)) (sym there)
    ∙ placed_in a k (i - k) (omega (arith, there, h))
    ∙ bit_above 8 (i - k) a small (omega arith)

-- The byte at `k` of the word `old` is replaced by `a`.
abbrev replaced : ℕ → ℕ → ℕ → ℕ
replaced old a k = bit_or (bit_and old (2 ^ 32 - 1 - placed 0xFF k)) (placed a k)

bits_of-replaced :
    (old a k i : ℕ)
    → i < 32
    → (bit i (placed 0xFF k) ≡ 1 → bit i (replaced old a k) ≡ bit i (placed a k))
      × (bit i (placed 0xFF k) ≡ 0 → bit i (placed a k) ≡ 0 → bit i (replaced old a k) ≡ bit i old)
bits_of-replaced old a k i h =
    let mask = placed 0xFF k in
    let fits : mask < 2 ^ 32 = mod-lt (0xFF * 2 ^ k) (omega arith) in
    let cleared = bit-complement 32 i mask fits h in
    let whole = bit-bit_or i (bit_and old (2 ^ 32 - 1 - mask)) (placed a k) in
    let kept = bit-bit_and i old (2 ^ 32 - 1 - mask) in
    (
      λ e. omega (arith, whole, kept, cleared, e, bit-le-one i old),
      λ e z. omega (arith, whole, kept, cleared, e, z, bit-le-one i old),
    )

all_ones : (i : ℕ) → i < 8 → bit i 0xFF ≡ 1
all_ones i h = omega (arith, bit-complement 8 i 0 (omega arith) h, bit-zero i)

-- `set_ivar` reads the entry of a queue in the vector table once and writes it back once. The queue's
-- byte for the direction (0 for receiving, 1 for sending) is then the vector with the bit that makes it
-- valid, and the other three bytes of the register are as they were read.
pub set_ivar_lem :
    (hw : Platform) (direction q v : ℕ) (w : World)
    → direction ≤ 1
    → v < 2 ^ 8
    → Mapped w (igb_ivar (q / 2))
    → let old = hw.reg w.trace (igb_ivar (q / 2)) in
      let index = 16 * (q % 2) + 8 * direction in
      Returns
        (λ _ w'.
          (x : ℕ) × (w'
            ≡ at_trace hw w (wrote (igb_ivar (q / 2)) x ∷ read (igb_ivar (q / 2)) ∷ w.trace))
          × ((i : ℕ) → i < 8 → bit (index + i) x ≡ bit i (bit_or v igb_ivar_alloc_val))
          × ((i : ℕ) → i < 32 → (i < index) ⊎ (index + 8 ≤ i) → bit i x ≡ bit i old))
        (set_ivar hw direction q v w)
unfolding set_ivar
set_ivar_lem hw direction q v w dir small m =
    let old = hw.reg w.trace (igb_ivar (q / 2)) in
    let index = 16 * (q % 2) + 8 * direction in
    let byte = bit_or v igb_ivar_alloc_val in
    let byte_small : byte < 2 ^ 8 = bit_or-lt 8 v igb_ivar_alloc_val small (omega arith) in
    let low : index % 32 ≡ index = mod-eq_of_lt (omega arith) in
    rw (m, set_ivar, m, low)
      (
        replaced old byte index,
        refl,
        λ i h.
            let inside : index + i < 32 = omega arith in
            (bits_of-replaced old byte index (index + i) inside).0
              (placed_in 0xFF index i inside ∙ all_ones i h)
            ∙ placed_in byte index i inside,
        λ i h out.
            (bits_of-replaced old byte index i h).1 (placed_out 0xFF index i (omega arith) h out)
              (placed_out byte index i byte_small h out),
      )
