-- ===== src/Tests/Drafting.antt =====
-- Runs of the draft in doc/main.
use igb_driver.Prelude.{
  ℕ, zero, suc, ◌+◌, ◌^◌, ◌<◌, ◌≤◌, ◌≡◌, ◌≢◌, ◌↔◌, refl, List, [], ◌∷◌, ◌==◌, ==_refl, ==_ne,
  if◌then◌else◌, arith,
}
use igb_driver.Prelude.Bits.{bit}
use igb_driver.Registers.{igb_ral, igb_rah}
use igb_driver.Device.{Event, read, wrote}
use igb_driver.Draft.Err.{ok}
use igb_driver.Draft.Reg.{Card, ral, rah, read_reg, read_32, write_reg, write_32}
use igb_driver.Draft.Phy
use igb_driver.Draft.Phy.{read_mdic, write_mdic, power_up, until_ready, read_command, write_command}
use igb_driver.Draft.Semaphore
use igb_driver.Draft.Synced
use igb_driver.Draft.Synced.{Synced}
use igb_driver.Draft.Igb.{Igb, open_igb}
use igb_driver.Draft.Waiting.{reads}
use igb_driver.Draft.PowerUp.{powered, power_up-powered}
use igb_driver.Draft.Storing.{Stores, swsm, sync}
use igb_driver.Draft.Holding.{IsHeld, new-drop}
use igb_driver.Draft.Opening.{opened, loaded, open_igb_lem}
use igb_driver.Draft.Agreement.{ral_iff}
use igb_driver.Draft.Bak
use igb_driver.Draft.Bak.{logged, new_lem}

-- A card whose PHY is powered down and always ready, and whose other registers are clear.
abbrev sleeping : Card
sleeping t r = if r == 0x20 then 2 ^ 28 + 0x1940 else 0

-- A card whose registers hold what was written to them, and a word before.
unfoldable memory : ℕ → Card
memory before [] r = before
memory before (wrote x v ∷ t) r = if x == r then v else memory before t r
memory before (_ ∷ t) r = memory before t r

memory-Stores : (before r : ℕ) → Stores (memory before) r
unfolding memory
memory-Stores before r = record {
  after_write = λ t v. rw (==_refl r) refl;
  after_other = λ t x v ne. rw (==_ne x r ne) refl;
  after_read = λ t x. refl;
}

abbrev draft_igb : Igb
draft_igb = record {
  tx_ring = record { descriptors = 4096 };
  rx_ring = record { descriptors = 8192 };
  phy = Phy.new;
}

woken :
    (power_up sleeping 1 Phy.new []
      ≡ ok tt (
          read 0x20
          ∷ wrote 0x20 (write_command Phy.new 0 (powered (2 ^ 28 + 0x1940)))
          ∷ read 0x20
          ∷ wrote 0x20 (read_command Phy.new 0)
          ∷ []))
    × (bit 11 (write_command Phy.new 0 (powered (2 ^ 28 + 0x1940))) ≡ 0)
    × (bit 26 (write_command Phy.new 0 (powered (2 ^ 28 + 0x1940))) ≡ 1)
    × (bit 27 (write_command Phy.new 0 (powered (2 ^ 28 + 0x1940))) ≡ 0)
    × ((i : ℕ)
        → i < 16
        → i ≢ 11
        → bit i (write_command Phy.new 0 (powered (2 ^ 28 + 0x1940))) ≡ bit i (2 ^ 28 + 0x1940))
unfolding until_ready read_reg read_32
woken =
    power_up-powered sleeping 1 [] (read 0x20 ∷ wrote 0x20 (read_command Phy.new 0) ∷ [])
      (read 0x20
        ∷ wrote 0x20 (write_command Phy.new 0 (powered (2 ^ 28 + 0x1940)))
        ∷ read 0x20
        ∷ wrote 0x20 (read_command Phy.new 0)
        ∷ [])
      (2 ^ 28 + 0x1940) (2 ^ 28 + 0x1940) refl refl

IsHeld-and_dropped :
    (t1 : List Event) × (t2 : List Event) × (synced : Synced) × (Synced.new (memory 8) 1 2 []
      ≡ ok synced t1)
    × IsHeld (memory 8) (memory-Stores 8 swsm) (memory-Stores 8 sync) 2 [] t1
    × (Synced.drop (memory 8) 1 synced t1 ≡ ok tt t2)
    × (memory 8 t2 sync ≡ memory 8 [] sync)
    × (bit 0 (memory 8 t2 swsm) ≡ 0)
    × (bit 1 (memory 8 t2 swsm) ≡ 0)
unfolding memory
IsHeld-and_dropped =
    new-drop (memory 8) (memory-Stores 8 swsm) (memory-Stores 8 sync) 0 2 [] (omega arith)
      (omega arith) refl

came_open :
    open_igb sleeping 1 draft_igb []
    ≡ ok tt (
        opened sleeping 1 draft_igb [] (
          read 0x20
          ∷ wrote 0x20 (write_command Phy.new 0 (powered (2 ^ 28 + 0x1940)))
          ∷ read 0x20
          ∷ wrote 0x20 (read_command Phy.new 0)
          ∷ loaded sleeping 0 []))
unfolding power_up read_mdic write_mdic write_reg write_32 until_ready read_reg read_32
came_open =
    (open_igb_lem sleeping 1 draft_igb []).1 0
      (read 0x20
        ∷ wrote 0x20 (write_command Phy.new 0 (powered (2 ^ 28 + 0x1940)))
        ∷ read 0x20
        ∷ wrote 0x20 (read_command Phy.new 0)
        ∷ loaded sleeping 0 [])
      (omega arith) (λ j h. absurd (omega arith)) refl refl

filter_20 : ((ral 20 ≡ igb_ral 20) ↔ (20 ≤ 15)) × ((rah 20 ≡ igb_rah 20) ↔ (20 ≤ 15))
filter_20 = ral_iff 20

-- A card that clears the reset bit when it has been read once after it was set; its status is then full
-- duplex, link up, and the speed 2.
unfoldable resetting : Card
resetting (read _ ∷ read _ ∷ _) r = 0x83
resetting (read _ ∷ wrote _ _ ∷ _) r = 0x83
resetting (wrote _ x ∷ _) r = x
resetting _ r = 0

was_reset :
    Bak.new resetting 5 []
    ≡ ok (logged 0x83) (read 8 ∷ read 0 ∷ read 0 ∷ wrote 0 (2 ^ 26) ∷ read 0 ∷ [])
unfolding resetting reads
was_reset = (new_lem resetting 5 1 []).0 (omega arith) before refl
  where
    before : (j : ℕ) → j < 1 → ¬ Bak.IsReset resetting j (wrote 0 (2 ^ 26) ∷ read 0 ∷ [])
    before zero h e = absurd (omega (arith, e))
    before (suc j) h e = absurd (omega (arith, h))
