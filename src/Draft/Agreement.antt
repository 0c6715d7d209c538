-- ===== src/Draft/Agreement.antt =====
-- Where the draft (doc/main) and the driver (src/igb.rs, src/constants.rs) read the same out of the card.
use igb_driver.Prelude.{
  ℕ, ◌*◌, ◌/◌, ◌%◌, ◌≤◌, ◌≡◌, ◌↔◌, refl, List, ◌∷◌, if◌then◌else◌, bit_and, arith,
}
use igb_driver.Prelude.Bits.{bit_and_step}
use igb_driver.Prelude.Masks.{bit_and-one}
use igb_driver.Outcome
use igb_driver.Registers.{igb_ral, igb_rah}
use igb_driver.Device.{Platform, read, World, get_reg32}
use igb_driver.Device.Access.{Mapped, at_trace}
use igb_driver.Link.{get_mac_addr, get_link_speed}
use igb_driver.Link
use igb_driver.Draft.Err
use igb_driver.Draft.Reg.{ral, rah, read_mac, read_32}
use igb_driver.Draft.Igb
use igb_driver.Draft.Igb.{Speed, mb10, mb100, mb1000, IgbStatus, status_of, status}

abbrev pub mbit : Speed → ℕ
mbit mb10 = 10
mbit mb100 = 100
mbit mb1000 = 1000

-- The draft's status and the driver's link speed agree on every word of the status register: the driver
-- reports 0 if the draft finds the link down, and otherwise the speed that the draft finds.
pub status_of-speed_of :
    (word : ℕ)
    → Link.speed_of word ≡ (if (status_of word).link_up then mbit (status_of word).speed else 0)
unfolding Link.speed_of status_of Igb.speed_of
status_of-speed_of word =
    let up : bit_and word 2 ≡ word / 2 % 2 * 2 =
      omega (arith, bit_and_step word 2, bit_and-one (word / 2)) in
    ground (arith, up)

-- The register numbers of the draft and of the driver for the address filters agree up to filter 15, and
-- differ from filter 16 on.
pub ral_iff : (i : ℕ) → ((ral i ≡ igb_ral i) ↔ (i ≤ 15)) × ((rah i ≡ igb_rah i) ↔ (i ≤ 15))
unfolding ral rah igb_ral igb_rah
ral_iff i = (ground arith, ground arith)

-- The draft and the driver read the same address, with the same readings of the card, on mapped registers.
pub read_mac-get_mac_addr :
    (hw : Platform) (w : World)
    → Mapped w (igb_ral 0)
    → Mapped w (igb_rah 0)
    → (mac : List ℕ) × (get_mac_addr hw w
        ≡ Outcome.ok mac (at_trace hw w (read (igb_rah 0) ∷ read (igb_ral 0) ∷ w.trace)))
      × (read_mac hw.reg w.trace ≡ Err.ok mac (read (igb_rah 0) ∷ read (igb_ral 0) ∷ w.trace))
unfolding get_mac_addr get_reg32 read_mac read_32 ral rah igb_ral igb_rah
read_mac-get_mac_addr hw w m m' = (_, rw (m, m', get_mac_addr) refl, refl)
