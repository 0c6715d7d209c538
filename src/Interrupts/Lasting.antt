-- ===== src/Interrupts/Lasting.antt =====
-- What `disable_interrupt` of src/igb.rs does to an interrupt that `enable_msi_interrupt` or
-- `enable_msix_interrupt` has enabled.
use igb_driver.Prelude.{ℕ, ◌/◌, ◌^◌, ◌<◌, ◌≡◌, ap, List, ◌∷◌, bit_and, arith}
use igb_driver.Prelude.Bits.{bit, bit_ext, bit-bit_and, bit-le-one}
use igb_driver.Outcome.{Returns, Returns-map, Returns-bind, ◌>>◌}
use igb_driver.Registers.{igb_eitr, igb_gpie, igb_ivar, igb_ims, igb_imc, igb_icr}
use igb_driver.Device.{Platform, Event, read, wrote, World}
use igb_driver.Device.Access.{Mapped, at_trace}
use igb_driver.Interrupts.{queue_bit, disable_interrupt}
use igb_driver.Interrupts.Irq.{enable_msi_interrupt, enable_msix_interrupt}
use igb_driver.Interrupts.Masked.{disable_interrupt_lem}
use igb_driver.Interrupts.Enabling.{
  EnablesLast, IsMsi, IsMsix, enable_msi_interrupt_lem, enable_msix_interrupt_lem,
}

-- Flags that are set in a value that is set in a register are set in the register.
set_through : (r y f : ℕ) → bit_and r y ≡ y → bit_and y f ≡ f → bit_and r f ≡ f
set_through r y f h h' = bit_ext (bit_and r f) f λ i. omega (
  arith,
  bit-bit_and i r y,
  bit-bit_and i y f,
  bit-bit_and i r f,
  ap (bit i) h,
  ap (bit i) h',
  bit-le-one i r,
  bit-le-one i y,
  bit-le-one i f,
)

-- The mask `eims` of the card: a write sets the bits that it has, and the other mask and the causes are
-- registers of their own.
pub record IsMask (hw : Platform) (eims : ℕ) : Type 0 where
  pub sets : (t : List Event) (v : ℕ) → bit_and (hw.reg (wrote eims v ∷ t) eims) v ≡ v
  pub set_apart : (t : List Event) (v : ℕ) → hw.reg (wrote igb_ims v ∷ t) eims ≡ hw.reg t eims
  pub clear_apart : (t : List Event) (v : ℕ) → hw.reg (wrote igb_imc v ∷ t) eims ≡ hw.reg t eims
  pub mask_apart : (t : List Event) → hw.reg (read igb_ims ∷ t) eims ≡ hw.reg t eims
  pub causes_apart : (t : List Event) → hw.reg (read igb_icr ∷ t) eims ≡ hw.reg t eims

module _ (hw : Platform) (eims eiac q : ℕ) (w : World) (mask : IsMask hw eims)
    (vector : Mapped w (igb_ivar (q / 2))) (timer : Mapped w (igb_eitr q)) (causes : Mapped w eims)
    (automatic : Mapped w eiac) (sets : Mapped w igb_ims) (clears : Mapped w igb_imc)
    (reads : Mapped w igb_icr) where
  -- The cause of the queue is enabled.
  abbrev pub IsEnabled : World → Type 0
  IsEnabled v = bit_and (hw.reg v.trace eims) (queue_bit q) ≡ queue_bit q

  disable_interrupt-IsEnabled :
      (t : List Event) (v : World)
      → EnablesLast hw eims eiac q w vector timer causes automatic t v
      → Returns (λ _ u. IsEnabled u) (disable_interrupt hw q v)
  disable_interrupt-IsEnabled t v (y, e, enabling) =
      let t' = wrote eims y ∷ read eims ∷ t in
      rw e (
        Returns-map (disable_interrupt hw q (at_trace hw w t'))
          (λ _ u (x, e', off, kept).
            rw (e', mask.causes_apart, mask.clear_apart, mask.set_apart, mask.mask_apart)
              (set_through _ y (queue_bit q) (mask.sets (read eims ∷ t) y) enabling.0))
          (disable_interrupt_lem hw q (at_trace hw w t') sets clears reads))

  -- On a card whose mask `EIMS` is changed by writes to it alone, `disable_interrupt` does not disable what
  -- `enable_msi_interrupt` or `enable_msix_interrupt` has enabled: both calls return, and the bit of the
  -- queue is still set in `EIMS`, since it is the other mask that `disable_interrupt` clears. The registers
  -- are mapped, and the queue has a vector of 8 bits.
  pub enable-disable_interrupt :
      q < 2 ^ 8
      → Mapped w igb_gpie
      → Returns
          (λ _ v. IsEnabled v)
          ((enable_msi_interrupt hw eims eiac q >> disable_interrupt hw q) w)
        × Returns
            (λ _ v. IsEnabled v)
            ((enable_msix_interrupt hw eims eiac q >> disable_interrupt hw q) w)
  enable-disable_interrupt small mode = (
    Returns-bind {P = λ _ v. IsMsi hw eims eiac q w vector timer causes automatic v} _
        (enable_msi_interrupt hw eims eiac q w) _
        (enable_msi_interrupt_lem hw eims eiac q w vector timer causes automatic clears reads)
        (λ _ v (x, t, e, entry, last). disable_interrupt-IsEnabled t v last),
    Returns-bind {P = λ _ v. IsMsix hw eims eiac q w vector timer causes automatic v} _
        (enable_msix_interrupt hw eims eiac q w) _
        (enable_msix_interrupt_lem hw eims eiac q w vector timer causes automatic small mode)
        (λ _ v (g, x, t, e, flags, entry, last). disable_interrupt-IsEnabled t v last),
  )
