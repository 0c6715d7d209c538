-- ===== src/Tests/Interrupting.antt =====
-- Runs of the MSI and MSI-X set-up of src/igb.rs on a card with the mask EIMS at 0x880.
use igb_driver.Prelude.{
  ℕ, ◌-◌, ◌^◌, ◌≡◌, refl, List, [], ◌∷◌, ◌==◌, if◌then◌else◌, bit_and, bit_or, arith,
}
use igb_driver.Prelude.Masks.{bit_and-bit_or}
use igb_driver.Outcome.{Returns, ◌>>◌}
use igb_driver.Registers.{igb_ivar, igb_eitr}
use igb_driver.Device.{Platform, Event, wrote, World}
use igb_driver.Interrupts.{disable_interrupt}
use igb_driver.Interrupts.Irq.{enable_msi_interrupt, enable_msix_interrupt}
use igb_driver.Interrupts.Lasting.{IsMask, enable-disable_interrupt}
use igb_driver.Tests.{card, rx_two, rx_world}

-- The bits that were written to the mask.
unfoldable mask_of : List Event → ℕ
mask_of [] = 0
mask_of (wrote r v ∷ t) = if r == 0x880 then bit_or (mask_of t) v else mask_of t
mask_of (_ ∷ t) = mask_of t

abbrev masked_card : Platform
masked_card = record card { reg = λ t r. if r == 0x880 then mask_of t else 2 ^ 32 - 1 }

masked_card-IsMask : IsMask masked_card 0x880
unfolding mask_of
masked_card-IsMask = record {
  sets = λ t v. bit_and-bit_or (mask_of t) v;
  set_apart = λ t v. refl;
  clear_apart = λ t v. refl;
  mask_apart = λ t. refl;
  causes_apart = λ t. refl;
}

abbrev world : World
world = rx_world rx_two

queue_3_enabled :
    Returns
      (λ _ v. bit_and (masked_card.reg v.trace 0x880) 8 ≡ 8)
      ((enable_msi_interrupt masked_card 0x880 0x890 3 >> disable_interrupt masked_card 3) world)
    × Returns
        (λ _ v. bit_and (masked_card.reg v.trace 0x880) 8 ≡ 8)
        ((enable_msix_interrupt masked_card 0x880 0x890 3 >> disable_interrupt masked_card 3) world)
unfolding igb_ivar igb_eitr
queue_3_enabled =
    enable-disable_interrupt masked_card 0x880 0x890 3 world masked_card-IsMask refl refl refl refl
      refl refl refl (omega arith) refl
