-- ===== src/Interrupts/Irq.antt =====
-- src/igb.rs: `enable_msi_interrupt` and `enable_msix_interrupt`, which stand behind the feature `irq`.
-- The registers `eims` and `eiac`, which src/constants.rs only has in comments, are parameters.
use igb_driver.Prelude.{ℕ, ◌/◌, bit_or}
use igb_driver.Outcome.{◌>>=◌}
use igb_driver.Registers.{
  igb_eitr, igb_gpie, igb_ivar, igb_gpie_msix_mode, igb_gpie_pba_support, igb_gpie_eiame,
  igb_eims_rtx_queue,
}
use igb_driver.Memory.Store.{Store}
use igb_driver.Device.{Platform, IgbDevice, M, get_reg32, set_reg32}
use igb_driver.Device.Triples.{IsMapped, IsReg, Quiet, quiet_rules, set_reg32-Quiet}
use igb_driver.Interrupts.{queue_bit, clear_interrupts, set_ivar}
use igb_driver.Init.Quiet.{clear_interrupts-Quiet}

module _ (hw : Platform) (eims eiac : ℕ) where
  -- `set_reg32(IGB_EITR(queue_id), self.interrupts.itr_rate)`
  abbrev set_throttling : ℕ → M (Unit {0})
  set_throttling queue_id w = set_reg32 hw (igb_eitr queue_id) w.dev.interrupts.itr_rate w

  -- `mask |= 1 << queue_id` on the mask register.
  unfoldable pub enable_cause : ℕ → M (Unit {0})
  unfolding get_reg32 set_reg32
  enable_cause queue_id = do
    mask ← get_reg32 hw eims
    set_reg32 hw eims (bit_or mask (queue_bit queue_id))

  unfoldable pub enable_msi_interrupt : ℕ → M (Unit {0})
  unfolding set_ivar set_reg32 clear_interrupts enable_cause
  enable_msi_interrupt queue_id = do
    _ ← set_ivar hw 0 queue_id 0
    _ ← set_reg32 hw eiac 0
    _ ← set_throttling queue_id
    _ ← clear_interrupts hw
    enable_cause queue_id

  unfoldable pub enable_msix_interrupt : ℕ → M (Unit {0})
  unfolding get_reg32 set_reg32 set_ivar enable_cause
  enable_msix_interrupt queue_id = do
    gpie ← get_reg32 hw igb_gpie
    _ ←
        set_reg32 hw igb_gpie
          (bit_or gpie (bit_or (bit_or igb_gpie_msix_mode igb_gpie_pba_support) igb_gpie_eiame))
    _ ← set_ivar hw 0 queue_id queue_id
    _ ← set_reg32 hw eiac igb_eims_rtx_queue
    _ ← set_throttling queue_id
    enable_cause queue_id

  module _ {d : IgbDevice} {s : Store} (mapped : IsMapped d) (q : ℕ)
      (vector : IsReg (igb_ivar (q / 2))) (timer : IsReg (igb_eitr q)) (causes : IsReg eims)
      (automatic : IsReg eiac) where
    set_ivar-Quiet : (direction v : ℕ) → Quiet d s (set_ivar hw direction q v)
    unfolding set_ivar
    set_ivar-Quiet direction v = search (quiet_rules, mapped, vector)

    set_throttling-Quiet : Quiet d s (set_throttling q)
    set_throttling-Quiet = record {
      at = λ w p. (set_reg32-Quiet hw (igb_eitr q) w.dev.interrupts.itr_rate mapped timer).at w p;
    }

    enable_cause-Quiet : Quiet d s (enable_cause q)
    unfolding enable_cause
    enable_cause-Quiet = search (quiet_rules, mapped, causes)

    -- Enabling the interrupt of a queue returns and changes nothing of the driver's own state, if the
    -- registers of the queue and of the causes are mapped.
    pub enable_msi_interrupt-Quiet : Quiet d s (enable_msi_interrupt q)
    unfolding enable_msi_interrupt
    enable_msi_interrupt-Quiet =
        search
          (
            quiet_rules, mapped, automatic, set_ivar-Quiet, set_throttling-Quiet,
            enable_cause-Quiet, clear_interrupts-Quiet,
          )
          depth 12

    pub enable_msix_interrupt-Quiet : Quiet d s (enable_msix_interrupt q)
    unfolding enable_msix_interrupt
    enable_msix_interrupt-Quiet =
        search
          (quiet_rules, mapped, automatic, set_ivar-Quiet, set_throttling-Quiet, enable_cause-Quiet)
          depth 12
