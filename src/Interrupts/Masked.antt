-- ===== src/Interrupts/Masked.antt =====
-- What `disable_interrupt` of src/igb.rs tells the card.
use igb_driver.Prelude.{ℕ, ◌-◌, ◌^◌, ◌<◌, ◌≡◌, refl, ◌∷◌, bit_and, arith}
use igb_driver.Prelude.Bits.{bit, bit-bit_and, bit-le-one}
use igb_driver.Prelude.Masks.{bit_and-clear, bit-complement}
use igb_driver.Outcome.{Returns}
use igb_driver.Registers.{igb_ims, igb_imc, igb_icr}
use igb_driver.Device.{Platform, read, wrote, World}
use igb_driver.Device.Access.{Mapped, at_trace}
use igb_driver.Interrupts.{queue_bit, disable_interrupt}

-- Disabling the interrupt of a queue writes the mask back without the queue's bit and with every other
-- bit as it was read, clears the queue's bit of the mask through the clear register, and reads the
-- cause.
pub disable_interrupt_lem :
    (hw : Platform) (q : ℕ) (w : World)
    → Mapped w igb_ims
    → Mapped w igb_imc
    → Mapped w igb_icr
    → let old = hw.reg w.trace igb_ims in
      Returns
        (λ _ w'.
          (x : ℕ) × (w'
            ≡ at_trace hw w (
                read igb_icr
                ∷ wrote igb_imc (queue_bit q)
                ∷ wrote igb_ims x
                ∷ read igb_ims
                ∷ w.trace))
          × (bit_and x (queue_bit q) ≡ 0)
          × ((i : ℕ) → i < 32 → bit i (queue_bit q) ≡ 0 → bit i x ≡ bit i old))
        (disable_interrupt hw q w)
unfolding disable_interrupt
disable_interrupt_lem hw q w m m' m'' =
    let old = hw.reg w.trace igb_ims in
    let flag = queue_bit q in
    rw (m, disable_interrupt, m, m', m'')
      (
        bit_and old (2 ^ 32 - 1 - flag),
        refl,
        bit_and-clear 32 old flag (omega arith),
        λ i l z. omega (
          arith,
          bit-bit_and i old (2 ^ 32 - 1 - flag),
          bit-complement 32 i flag (omega arith) l,
          bit-le-one i old,
          z,
        ),
      )
