-- ===== src/Draft/Igb.antt =====
-- doc/main/igb.rs: the device (`Igb`), which `open` brings up, and its status. `fuel` bounds the loops
-- of the PHY; the wait for the reset has its own bound.
use igb_driver.Prelude.{
  ℕ, ◌/◌, ◌^◌, Bool, Option, some, List, not, ◌==◌, if◌then◌else◌, bit_and, bit_or,
}
use igb_driver.Device.{Event}
use igb_driver.Draft.Err.{Call, pure, ◌>>=◌}
use igb_driver.Draft.Reg.{
  Card, contains, read_reg, write_reg, modify_reg, wait_for, disable_interrupts, read_mac,
}
use igb_driver.Draft.Flags.Ctrl
use igb_driver.Draft.Flags.Ctrl.{rst, slu, fd, spd_1000, frcdpx, frcspd}
use igb_driver.Draft.Flags.CtrlExt
use igb_driver.Draft.Flags.CtrlExt.{drv_load}
use igb_driver.Draft.Flags.Rctl
use igb_driver.Draft.Flags.Rctl.{rxen, sz_4096}
use igb_driver.Draft.Flags.Tctl
use igb_driver.Draft.Flags.Tctl.{en}
use igb_driver.Draft.Flags.Status
use igb_driver.Draft.Phy
use igb_driver.Draft.Phy.{Phy, power_up}
use igb_driver.Draft.Ring
use igb_driver.Draft.Ring.{Ring, default_ring_size}

pub record Igb : Type 0 where
  pub tx_ring : Ring
  pub rx_ring : Ring
  pub phy : Phy

pub data Speed : Type 0 where
  mb10 mb100 mb1000 : Speed

pub record IgbStatus : Type 0 where
  pub full_duplex : Bool
  pub link_up : Bool
  pub speed : Speed
  pub phy_reset_asserted : Bool

unfoldable pub new : (List Event → ℕ → Option ℕ) → Call Igb
unfolding Ring.new
new zeros = do
  tx_ring ← Ring.new zeros default_ring_size
  rx_ring ← Ring.new zeros default_ring_size
  pure (record { tx_ring = tx_ring; rx_ring = rx_ring; phy = Phy.new })

-- The speed that `status` reads out of a word of the status register.
unfoldable pub speed_of : ℕ → Speed
speed_of word =
    let speed_raw = bit_and (word / 2 ^ 6) 3 in
    if speed_raw == 0 then mb10 else if speed_raw == 1 then mb100 else mb1000

unfoldable pub status_of : ℕ → IgbStatus
unfolding speed_of
status_of raw = record {
  full_duplex = contains raw (Status.bits Status.fd);
  link_up = contains raw (Status.bits Status.lu);
  speed = speed_of raw;
  phy_reset_asserted = contains raw (Status.bits Status.phyra);
}

module _ (card : Card) where
  unfoldable pub status : Call IgbStatus
  unfolding read_reg status_of
  status = do raw ← read_reg card Status.flag_reg; pure (status_of raw)

  unfoldable pub mac : Call (List ℕ)
  unfolding read_mac
  mac = read_mac card

  unfoldable pub init_rx : Igb → Call (Unit {0})
  unfolding write_reg Ring.init
  init_rx igb = do
    _ ← write_reg card Rctl.flag_reg 0
    _ ← Ring.init igb.rx_ring
    write_reg card Rctl.flag_reg (bit_or (Rctl.bits rxen) (Rctl.bits sz_4096))

  unfoldable pub init_tx : Igb → Call (Unit {0})
  unfolding write_reg Ring.init
  init_tx igb = do
    _ ← write_reg card Tctl.flag_reg 0
    _ ← Ring.init igb.tx_ring
    write_reg card Tctl.flag_reg (Tctl.bits en)

  unfoldable pub setup_phy_and_the_link : ℕ → Igb → Call (Unit {0})
  unfolding power_up
  setup_phy_and_the_link fuel igb = power_up card fuel igb.phy

  -- `init_stat` and `enable_interrupts` are still empty.
  unfoldable pub init_stat : Call (Unit {0})
  init_stat = pure tt

  unfoldable pub enable_interrupts : Call (Unit {0})
  enable_interrupts = pure tt

  -- What `open` writes to the control register at the end.
  abbrev pub link_command : ℕ
  link_command =
      bit_or
        (bit_or (bit_or (bit_or (Ctrl.bits slu) (Ctrl.bits fd)) (Ctrl.bits spd_1000))
          (Ctrl.bits frcdpx))
        (Ctrl.bits frcspd)

  unfoldable pub open_igb : ℕ → Igb → Call (Unit {0})
  unfolding disable_interrupts write_reg wait_for modify_reg setup_phy_and_the_link init_stat
      init_rx init_tx enable_interrupts
  open_igb fuel igb = do
    _ ← disable_interrupts card
    _ ← write_reg card Ctrl.flag_reg (Ctrl.bits rst)
    _ ← wait_for card Ctrl.flag_reg (λ reg. not (contains reg (Ctrl.bits rst))) 1 (some 1000)
    _ ← disable_interrupts card
    _ ← modify_reg card CtrlExt.flag_reg (λ reg. bit_or (CtrlExt.bits drv_load) reg)
    _ ← setup_phy_and_the_link fuel igb
    _ ← init_stat
    _ ← init_rx igb
    _ ← init_tx igb
    _ ← enable_interrupts
    write_reg card Ctrl.flag_reg link_command
