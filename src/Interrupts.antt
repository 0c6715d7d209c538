-- ===== src/Interrupts.antt =====
-- src/igb.rs: the interrupt masks (`disable_interrupts`, `disable_interrupt`, `clear_interrupt`,
-- `clear_interrupts`) and the vector table (`set_ivar`). A shift of a `u32` by a variable uses the
-- low five bits of the amount, as in a release build.
pub mod Masked
pub mod Vectors
pub mod Irq
pub mod Enabling
pub mod Lasting
use igb_driver.Prelude.{ℕ, ◌+◌, ◌-◌, ◌*◌, ◌/◌, ◌%◌, bit_and, bit_or}
use igb_driver.Word.{shl_u32, not_u32}
use igb_driver.Outcome.{Run, pure, ◌>>=◌, ◌>>◌}
use igb_driver.Registers.{
  igb_ims, igb_imc, igb_icr, igb_irq_clear_mask, igb_ivar, igb_ivar_alloc_val,
}
use igb_driver.Device.{Platform, M, get_reg32, set_reg32}

-- `1 << queue_id`
abbrev pub queue_bit : ℕ → ℕ
queue_bit queue_id = shl_u32 1 (queue_id % 32)

module _ (hw : Platform) where
  unfoldable pub clear_interrupts : M (Unit {0})
  unfolding get_reg32 set_reg32
  clear_interrupts = do
    _ ← set_reg32 hw igb_imc igb_irq_clear_mask
    _ ← get_reg32 hw igb_icr
    pure tt

  unfoldable pub clear_interrupt : ℕ → M (Unit {0})
  unfolding get_reg32 set_reg32
  clear_interrupt queue_id = do
    _ ← set_reg32 hw igb_imc (queue_bit queue_id)
    _ ← get_reg32 hw igb_icr
    pure tt

  unfoldable pub disable_interrupts : M (Unit {0})
  unfolding set_reg32 clear_interrupts
  disable_interrupts = set_reg32 hw igb_ims 0 >> clear_interrupts

  unfoldable pub disable_interrupt : ℕ → M (Unit {0})
  unfolding get_reg32 set_reg32 clear_interrupt
  disable_interrupt queue_id = do
    mask ← get_reg32 hw igb_ims
    _ ← set_reg32 hw igb_ims (bit_and mask (not_u32 (queue_bit queue_id)))
    clear_interrupt queue_id

  -- `direction` is 0 for receiving and 1 for sending.
  unfoldable pub set_ivar : ℕ → ℕ → ℕ → M (Unit {0})
  unfolding get_reg32 set_reg32
  set_ivar direction queue msix_vector = do
    let index = (16 * (queue % 2) + 8 * direction) % 32
    ivar ← get_reg32 hw (igb_ivar (queue / 2))
    set_reg32 hw (igb_ivar (queue / 2)) (
        bit_or (bit_and ivar (not_u32 (shl_u32 0xFF index)))
          (shl_u32 (bit_or msix_vector igb_ivar_alloc_val) index))
