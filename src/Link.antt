-- ===== src/Link.antt =====
-- src/igb.rs: the link of the card (`get_link_speed`, `wait_for_link`, `init_link`), its address
-- (`get_mac_addr`), its counters (`reset_stats`) and its promiscuous mode (`set_promisc`). The log is
-- on: the arguments of `info!` are evaluated, so that `wait_for_link` reads the status once more.
pub mod Speed
pub mod Address
pub mod Power
use igb_driver.Prelude.{
  ℕ, zero, suc, ◌-◌, ◌/◌, ◌^◌, Bool, true, false, List, [], ◌∷◌, ◌==◌, if◌then◌else◌, bit_and,
  bit_or,
}
use igb_driver.Word.{as_u8, as_u16, not_u32, shl_u32}
use igb_driver.Outcome.{Outcome, Run, ok, hang, panic, err, pure, ◌>>=◌, ◌>>◌}
use igb_driver.Registers.{
  igb_status, igb_links_up, igb_ral, igb_rah, igb_gprc, igb_gptc, igb_gorcl, igb_gorch, igb_gotcl,
  igb_gotch, igb_fctrl, igb_fctrl_mpe, igb_fctrl_upe, igb_mdic,
}
use igb_driver.Device.{
  Platform, M, wait_until, get_reg32, set_flags32, clear_flags32, wait_set_reg32,
}

-- The speed in Mbit/s that a value of the status register stands for.
unfoldable pub speed_of : ℕ → ℕ
speed_of speed =
    let speed_raw = bit_and (speed / 2 ^ 6) 3 in
    if bit_and speed igb_links_up == 0
    then 0
    else if speed_raw == 0
    then 10
    else if speed_raw == 1
    then 100
    else 1000

-- `OP_WRITE`, `OP_READ`, `READY` and `READ` of `init_link`.
abbrev pub op_write : ℕ
op_write = 2 ^ 26

abbrev pub op_read : ℕ
op_read = 2 ^ 27

abbrev pub ready : ℕ
ready = 2 ^ 28

abbrev pub read_command : ℕ
read_command = bit_or (2 ^ 21) op_read

-- `wv`, from the value of the register that was read.
abbrev pub power_up_command : ℕ → ℕ
power_up_command mii_reg =
    bit_or (bit_or (2 ^ 21) (bit_and (as_u16 mii_reg) (2 ^ 16 - 1 - 0x0800))) op_write

module _ (hw : Platform) where
  unfoldable pub get_link_speed : M ℕ
  unfolding get_reg32
  get_link_speed = do speed ← get_reg32 hw igb_status; pure (speed_of speed)

  unfoldable pub get_mac_addr : M (List ℕ)
  unfolding get_reg32
  get_mac_addr = do
    low ← get_reg32 hw (igb_ral 0)
    high ← get_reg32 hw (igb_rah 0)
    pure (
        as_u8 (bit_and low 0xff)
        ∷ as_u8 (bit_and (low / 2 ^ 8) 0xff)
        ∷ as_u8 (bit_and (low / 2 ^ 16) 0xff)
        ∷ as_u8 (low / 2 ^ 24)
        ∷ as_u8 (bit_and high 0xff)
        ∷ as_u8 (bit_and (high / 2 ^ 8) 0xff)
        ∷ [])

  unfoldable pub reset_stats : M (Unit {0})
  unfolding get_reg32
  reset_stats = do
    _ ← get_reg32 hw igb_gprc
    _ ← get_reg32 hw igb_gptc
    _ ← get_reg32 hw igb_gorcl
    _ ← get_reg32 hw igb_gorch
    _ ← get_reg32 hw igb_gotcl
    _ ← get_reg32 hw igb_gotch
    pure tt

  -- `while speed == 0 && i < 10`, with `left` for `10 - i`; the result is the last speed.
  unfoldable pub poll_link : ℕ → ℕ → M ℕ
  unfolding wait_until get_link_speed
  poll_link zero speed w = ok speed w
  poll_link (suc left) speed w = elim (speed == 0) [
    | true ↦ (wait_until 1000 >> get_link_speed >>= poll_link left) w
    | false ↦ ok speed w
  ]

  unfoldable pub wait_for_link : M (Unit {0})
  unfolding get_link_speed
  wait_for_link = do speed ← get_link_speed; _ ← poll_link 10 speed; _ ← get_link_speed; pure tt

  unfoldable pub set_promisc : Bool → M (Unit {0})
  set_promisc true = set_flags32 hw igb_fctrl (bit_or igb_fctrl_mpe igb_fctrl_upe)
  set_promisc false = clear_flags32 hw igb_fctrl (bit_or igb_fctrl_mpe igb_fctrl_upe)

  -- `fuel` bounds each of the two waiting loops.
  unfoldable pub init_link : ℕ → M (Unit {0})
  unfolding get_reg32 set_flags32 wait_set_reg32
  init_link fuel = do
    _ ← get_reg32 hw igb_mdic
    _ ← set_flags32 hw igb_mdic read_command
    _ ← wait_set_reg32 hw fuel igb_mdic ready
    mii_reg ← get_reg32 hw igb_mdic
    _ ← set_flags32 hw igb_mdic (power_up_command mii_reg)
    wait_set_reg32 hw fuel igb_mdic ready
