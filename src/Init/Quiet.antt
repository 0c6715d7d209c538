-- ===== src/Init/Quiet.antt =====
-- The steps of `reset_and_init` (src/igb.rs) that change nothing but the card.
use igb_driver.Prelude.{
  ℕ, ◌^◌, zero, suc, ◌<◌, ◌≡◌, ◌==◌, refl, bit_and, bit_or, Bool-cases, inl, inr,
}
use igb_driver.Outcome.{◌>>=◌, ◌>>◌}
use igb_driver.Memory.Store.{Store}
use igb_driver.Registers.{
  igb_ctrl, igb_ctrl_ext, igb_ctrl_global_rst, igb_mdic, igb_ral, igb_rah, igb_rxdctl,
  igb_rxdctl_enable, igb_txdctl, igb_txdctl_enable, igb_tdh, igb_tdt,
}
use igb_driver.Prelude.Masks.{bit_and_self, bit_and-bit_or, bit_and-bit_or_last}
use igb_driver.Device.{
  Platform, IgbDevice, World, M, wait_until, get_reg32, set_reg32, set_flags32, wait_set_reg32,
}
use igb_driver.Device.Triples.{
  IsMapped, IsReg, Triple, Triple-bind, Triple-then, At, Quiet, Quiet-bind, quiet_rules, SetsWithin,
  ClearsWithin, set_reg32-Written, set_flags32-Written, wait_set_reg32-Quiet,
  wait_clear_reg32-Quiet, get_reg32-Quiet,
}
use igb_driver.Registers.Mapped.{queue_regs, rxdctl-IsReg, txdctl-IsReg}
use igb_driver.Interrupts.{clear_interrupts, disable_interrupts}
use igb_driver.Link.{
  reset_stats, init_link, get_mac_addr, get_link_speed, poll_link, wait_for_link, ready, op_read,
  op_write, read_command, power_up_command,
}
use igb_driver.Init.{global_reset, enable_rx_queue}

module _ (hw : Platform) {d : IgbDevice} {s : Store} (mapped : IsMapped d) where
  pub clear_interrupts-Quiet : Quiet d s (clear_interrupts hw)
  unfolding clear_interrupts
  clear_interrupts-Quiet = search (quiet_rules, mapped)

  pub disable_interrupts-Quiet : Quiet d s (disable_interrupts hw)
  unfolding disable_interrupts
  disable_interrupts-Quiet = search (quiet_rules, mapped, clear_interrupts-Quiet)

  pub reset_stats-Quiet : Quiet d s (reset_stats hw)
  unfolding reset_stats
  reset_stats-Quiet = search (quiet_rules, mapped) depth 12

  pub get_mac_addr-Quiet : Quiet d s (get_mac_addr hw)
  unfolding get_mac_addr igb_ral igb_rah
  get_mac_addr-Quiet = search (quiet_rules, mapped)

  get_link_speed-Quiet : Quiet d s (get_link_speed hw)
  unfolding get_link_speed
  get_link_speed-Quiet = search (quiet_rules, mapped)

  poll_link-step :
      (left speed : ℕ)
      → ((next : ℕ) → Quiet d s (poll_link hw left next))
      → Quiet d s (wait_until 1000 >> get_link_speed hw >>= poll_link hw left)
  poll_link-step left speed later = search (quiet_rules, get_link_speed-Quiet, later)

  poll_link-Quiet : (left speed : ℕ) → Quiet d s (poll_link hw left speed)
  unfolding poll_link
  poll_link-Quiet zero speed = record { at = λ w p. p }
  poll_link-Quiet (suc left) speed = record {
    at = λ w p. elim (Bool-cases (speed == 0)) [
      | inl e ↦ rw (e, poll_link) ((poll_link-step left speed (poll_link-Quiet left)).at w p)
      | inr e ↦ rw (e, poll_link) p
    ];
  }

  pub wait_for_link-Quiet : Quiet d s (wait_for_link hw)
  unfolding wait_for_link
  wait_for_link-Quiet = search (quiet_rules, get_link_speed-Quiet, poll_link-Quiet)

  module _ (fuel : ℕ) where
    -- Flags are set, and then waited for, with the rest of the block to follow.
    set_wait-Quiet :
        {A : Type 0} {Q : World → Type 0} (reg flags sent awaited : ℕ) (k : Unit {0} → M A)
        → IsReg reg
        → ((old : ℕ) → bit_and (bit_or old flags) sent ≡ sent)
        → SetsWithin hw fuel reg sent awaited
        → Triple (At d s) (k tt) Q
        → Triple
            (At d s)
            (set_flags32 hw reg flags >>= λ _. wait_set_reg32 hw fuel reg awaited >>= k)
            Q
    set_wait-Quiet reg flags sent awaited k h has answers rest =
        Triple-bind (set_flags32-Written hw reg flags sent mapped h has) (λ _.
          Triple-bind (wait_set_reg32-Quiet hw fuel reg sent awaited mapped h answers) (λ _. rest))

    -- The same behind what comes before.
    then_set_wait-Quiet :
        (m : M (Unit {0})) (reg flags : ℕ)
        → IsReg reg
        → SetsWithin hw fuel reg flags flags
        → Quiet d s m
        → Quiet d s (m >> set_flags32 hw reg flags >> wait_set_reg32 hw fuel reg flags)
    then_set_wait-Quiet m reg flags h answers before =
        Triple-then
          (Triple-then before
            (set_flags32-Written hw reg flags flags mapped h (λ old. bit_and-bit_or old flags)))
          (wait_set_reg32-Quiet hw fuel reg flags flags mapped h answers)

    pub global_reset-Quiet :
        ClearsWithin hw fuel igb_ctrl igb_ctrl_global_rst igb_ctrl_global_rst
        → Quiet d s (global_reset hw fuel)
    unfolding global_reset
    global_reset-Quiet answers =
        Triple-then
          (set_reg32-Written hw igb_ctrl igb_ctrl_global_rst igb_ctrl_global_rst mapped refl
            (bit_and_self igb_ctrl_global_rst))
          (wait_clear_reg32-Quiet hw fuel igb_ctrl igb_ctrl_global_rst igb_ctrl_global_rst mapped
            refl answers)

    -- The second command and its wait, the end of the block.
    power_up-Quiet :
        (mii_reg : ℕ)
        → SetsWithin hw fuel igb_mdic op_write ready
        → Quiet d s (
            set_flags32 hw igb_mdic (power_up_command mii_reg) >>= λ _.
            wait_set_reg32 hw fuel igb_mdic ready)
    power_up-Quiet mii_reg writes =
        Triple-bind
          (set_flags32-Written hw igb_mdic (power_up_command mii_reg) op_write mapped refl
            (λ old. bit_and-bit_or_last old _ op_write))
          (λ _. wait_set_reg32-Quiet hw fuel igb_mdic op_write ready mapped refl writes)

    pub init_link-Quiet :
        SetsWithin hw fuel igb_mdic op_read ready
        → SetsWithin hw fuel igb_mdic op_write ready
        → Quiet d s (init_link hw fuel)
    unfolding init_link
    init_link-Quiet reads writes =
        Quiet-bind (get_reg32 hw igb_mdic) _ (get_reg32-Quiet hw igb_mdic mapped refl) (λ _.
          set_wait-Quiet igb_mdic read_command op_read ready _ refl
            (λ old. bit_and-bit_or_last old (2 ^ 21) op_read) reads
            (Quiet-bind (get_reg32 hw igb_mdic) _ (get_reg32-Quiet hw igb_mdic mapped refl)
              (λ mii_reg. power_up-Quiet mii_reg writes)))

    pub enable_rx_queue-Quiet :
        (q n : ℕ)
        → q < 64
        → SetsWithin hw fuel (igb_rxdctl q) igb_rxdctl_enable igb_rxdctl_enable
        → Quiet d s (enable_rx_queue hw fuel q n)
    unfolding enable_rx_queue
    enable_rx_queue-Quiet q n few answers =
        set_wait-Quiet (igb_rxdctl q) igb_rxdctl_enable igb_rxdctl_enable igb_rxdctl_enable _
          (rxdctl-IsReg q few) (λ old. bit_and-bit_or old igb_rxdctl_enable) answers
          (search (quiet_rules, mapped, queue_regs) depth 12)

    pub enable_tx_queue-Quiet :
        (q : ℕ)
        → q < 64
        → SetsWithin hw fuel (igb_txdctl q) igb_txdctl_enable igb_txdctl_enable
        → Quiet d s (
            set_reg32 hw (igb_tdh q) 0
            >> set_reg32 hw (igb_tdt q) 0
            >> set_flags32 hw (igb_txdctl q) igb_txdctl_enable
            >> wait_set_reg32 hw fuel (igb_txdctl q) igb_txdctl_enable)
    enable_tx_queue-Quiet q few answers =
        then_set_wait-Quiet _ (igb_txdctl q) igb_txdctl_enable (txdctl-IsReg q few) answers
          (search (quiet_rules, mapped, queue_regs))

    -- `reset_and_init` up to the rings.
    pub before_rings-Quiet :
        ClearsWithin hw fuel igb_ctrl igb_ctrl_global_rst igb_ctrl_global_rst
        → SetsWithin hw fuel igb_ctrl_ext (2 ^ 28) (2 ^ 28)
        → SetsWithin hw fuel igb_mdic op_read ready
        → SetsWithin hw fuel igb_mdic op_write ready
        → Quiet d s (
            disable_interrupts hw
            >> global_reset hw fuel
            >> wait_until 1000
            >> disable_interrupts hw
            >> set_flags32 hw igb_ctrl_ext (2 ^ 28)
            >> wait_set_reg32 hw fuel igb_ctrl_ext (2 ^ 28)
            >> init_link hw fuel
            >> reset_stats hw)
    before_rings-Quiet resets loads reads writes =
        Triple-then
          (Triple-then
            (then_set_wait-Quiet _ igb_ctrl_ext (2 ^ 28) refl loads
              (search (quiet_rules, disable_interrupts-Quiet, global_reset-Quiet)))
            (init_link-Quiet reads writes))
          reset_stats-Quiet
