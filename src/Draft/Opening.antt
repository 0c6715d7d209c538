-- ===== src/Draft/Opening.antt =====
-- What `open` of doc/main/igb.rs does to the card.
use igb_driver.Prelude.{ℕ, bit_and, ◌-◌, ◌^◌, ◌<◌, ◌≡◌, refl, true, false, not, List, ◌∷◌, bit_or}
use igb_driver.Prelude.Bits.{bit}
use igb_driver.Device.{Event, read, wrote}
use igb_driver.Draft.Err.{ok, err, timeout}
use igb_driver.Draft.Reg.{
  Card, contains, eims, eimc, eicr, read_32, write_32, read_reg, write_reg, modify_reg,
  clear_interrupts, disable_interrupts,
}
use igb_driver.Draft.Flags.Ctrl
use igb_driver.Draft.Flags.Ctrl.{rst}
use igb_driver.Draft.Flags.CtrlExt
use igb_driver.Draft.Flags.CtrlExt.{drv_load}
use igb_driver.Draft.Flags.Rctl
use igb_driver.Draft.Flags.Tctl
use igb_driver.Draft.Phy.{power_up}
use igb_driver.Draft.Ring
use igb_driver.Draft.Waiting.{tried, wait_for_lem}
use igb_driver.Draft.Igb.{
  Igb, open_igb, link_command, setup_phy_and_the_link, init_stat, init_rx, init_tx,
  enable_interrupts,
}

-- The events of `disable_interrupts`.
abbrev pub masked : List Event → List Event
masked t = read eicr ∷ wrote eimc (2 ^ 32 - 1) ∷ wrote eims 0 ∷ t

-- The events up to the wait for the reset.
abbrev pub resetting : List Event → List Event
resetting t = wrote Ctrl.flag_reg.reg (Ctrl.bits rst) ∷ masked t

-- The reset is over at the reading after `k` readings.
abbrev pub IsReset : Card → ℕ → List Event → Type 0
IsReset card k t =
    not (contains (card (tried Ctrl.flag_reg 1 k (resetting t)) Ctrl.flag_reg.reg) (Ctrl.bits rst))
    ≡ true

abbrev pub IsResetting : Card → ℕ → List Event → Type 0
IsResetting card k t =
    not (contains (card (tried Ctrl.flag_reg 1 k (resetting t)) Ctrl.flag_reg.reg) (Ctrl.bits rst))
    ≡ false

-- The events up to the PHY, if the reset took `k` readings and one more.
abbrev pub loaded : Card → ℕ → List Event → List Event
loaded card k t =
    let after = masked (read Ctrl.flag_reg.reg ∷ tried Ctrl.flag_reg 1 k (resetting t)) in
    wrote CtrlExt.flag_reg.reg (bit_or (CtrlExt.bits drv_load) (card after CtrlExt.flag_reg.reg))
    ∷ read CtrlExt.flag_reg.reg
    ∷ after

-- The receive command of `init_rx`.
abbrev pub receive_command : ℕ
receive_command = bit_or (Rctl.bits Rctl.rxen) (Rctl.bits Rctl.sz_4096)

module _ (card : Card) (fuel : ℕ) (igb : Igb) (t : List Event) where
  -- The last steps of `open`: the two units are switched off and on again, and the link is forced.
  abbrev pub opened : List Event → List Event
  opened t' =
      wrote Ctrl.flag_reg.reg (link_command card)
      ∷ wrote Tctl.flag_reg.reg (Tctl.bits Tctl.en)
      ∷ wrote Tctl.flag_reg.reg 0
      ∷ wrote Rctl.flag_reg.reg receive_command
      ∷ wrote Rctl.flag_reg.reg 0
      ∷ t'

  -- If the reset bit is still set at each of the first 1000 readings, `open` ends with `Timeout`, and has
  -- written nothing but the interrupt masks and the reset. If a reading before that finds it clear, and
  -- the PHY is powered up, `open` succeeds, and its last five writes switch receiving and sending off and
  -- on and force the link.
  pub open_igb_lem :
      (((k : ℕ) → k < 1000 → IsResetting card k t)
        → open_igb card fuel igb t ≡ err timeout (tried Ctrl.flag_reg 1 1000 (resetting t)))
      × ((k : ℕ) (t' : List Event)
          → k < 1000
          → ((j : ℕ) → j < k → IsResetting card j t)
          → IsReset card k t
          → power_up card fuel igb.phy (loaded card k t) ≡ ok tt t'
          → open_igb card fuel igb t ≡ ok tt (opened t'))
  unfolding open_igb disable_interrupts clear_interrupts setup_phy_and_the_link init_stat init_rx
      init_tx enable_interrupts Ring.init modify_reg read_reg write_reg read_32 write_32
  open_igb_lem =
      let (found, late) =
        wait_for_lem card Ctrl.flag_reg (λ reg. not (contains reg (Ctrl.bits rst))) 1 1000
          (resetting t) in
      (
        (λ never. rw (open_igb, late never) refl),
        (λ k t' l before reset up. rw (open_igb, found k l before reset) (rw up refl)),
      )

-- `init_rx` switches receiving off and on again. The size that it asks for is one of those that count
-- only with `BSEX`, bit 25, which the word that it writes leaves clear; without that bit the two size bits
-- of the word are those of `SZ_256`.
pub init_rx_lem :
    (card : Card) (igb : Igb) (t : List Event)
    → (word : ℕ) × (init_rx card igb t
        ≡ ok tt (wrote Rctl.flag_reg.reg word ∷ wrote Rctl.flag_reg.reg 0 ∷ t))
      × (bit 1 word ≡ 1)
      × (bit 25 word ≡ 0)
      × (bit_and word (Rctl.bits Rctl.sz_4096) ≡ Rctl.bits Rctl.sz_256)
unfolding init_rx Ring.init write_reg write_32 bit
init_rx_lem card igb t = (receive_command, refl, refl, refl, refl)
