-- ===== src/Registers/Queues.antt =====
-- The registers of the receive and transmit queues (src/constants.rs) lie apart.
use igb_driver.Prelude.{
  ℕ, ◌+◌, ◌*◌, ◌%◌, ◌≤◌, ◌<◌, ◌≡◌, ◌⊎◌, inl, inr, refl, sym, ap, ◌∙◌, ◌==◌, if◌then◌else◌, arith,
}
use igb_driver.Registers.{
  igb_rdbal, igb_rdbah, igb_rdlen, igb_rdh, igb_rdt, igb_rxdctl, igb_tdbal, igb_tdbah, igb_tdlen,
  igb_tdh, igb_tdt, igb_txdctl,
}

pub data QueueReg : Type 0 where
  rdbal rdbah rdlen rdh rdt rxdctl tdbal tdbah tdlen tdh tdt txdctl : QueueReg

pub queue_reg : QueueReg → ℕ → ℕ
unfolding igb_rdbal igb_rdbah igb_rdlen igb_rdh igb_rdt igb_rxdctl igb_tdbal igb_tdbah igb_tdlen
    igb_tdh igb_tdt igb_txdctl
queue_reg rdbal = igb_rdbal
queue_reg rdbah = igb_rdbah
queue_reg rdlen = igb_rdlen
queue_reg rdh = igb_rdh
queue_reg rdt = igb_rdt
queue_reg rxdctl = igb_rxdctl
queue_reg tdbal = igb_tdbal
queue_reg tdbah = igb_tdbah
queue_reg tdlen = igb_tdlen
queue_reg tdh = igb_tdh
queue_reg tdt = igb_tdt
queue_reg txdctl = igb_txdctl

base : QueueReg → ℕ
unfolding queue_reg
base r = queue_reg r 0

-- Where the registers of queue 0 lie: in the bank of their ring, at a multiple of 4.
base_lem :
    (r : QueueReg)
    → (bank offset : ℕ) × (base r ≡ bank + 4 * offset)
      × (offset < 16)
      × ((bank ≡ 0xC000) ⊎ (bank ≡ 0xE000))
unfolding base
base_lem rdbal = (0xC000, 0, refl, omega arith, inl refl)
base_lem rdbah = (0xC000, 1, refl, omega arith, inl refl)
base_lem rdlen = (0xC000, 2, refl, omega arith, inl refl)
base_lem rdh = (0xC000, 4, refl, omega arith, inl refl)
base_lem rdt = (0xC000, 6, refl, omega arith, inl refl)
base_lem rxdctl = (0xC000, 10, refl, omega arith, inl refl)
base_lem tdbal = (0xE000, 0, refl, omega arith, inr refl)
base_lem tdbah = (0xE000, 1, refl, omega arith, inr refl)
base_lem tdlen = (0xE000, 2, refl, omega arith, inr refl)
base_lem tdh = (0xE000, 4, refl, omega arith, inr refl)
base_lem tdt = (0xE000, 6, refl, omega arith, inr refl)
base_lem txdctl = (0xE000, 10, refl, omega arith, inr refl)

queue_reg_lem : (r : QueueReg) (i : ℕ) → queue_reg r i ≡ base r + i * 64
unfolding base
queue_reg_lem r i = ground arith

-- A register is known by its address in queue 0.
decode : ℕ → QueueReg
decode a =
    if a == 0xC000
    then rdbal
    else if a == 0xC004
    then rdbah
    else if a == 0xC008
    then rdlen
    else if a == 0xC010
    then rdh
    else if a == 0xC018
    then rdt
    else if a == 0xC028
    then rxdctl
    else if a == 0xE000
    then tdbal
    else if a == 0xE004
    then tdbah
    else if a == 0xE008
    then tdlen
    else if a == 0xE010
    then tdh
    else if a == 0xE018
    then tdt
    else txdctl

decode-base : (r : QueueReg) → decode (base r) ≡ r
unfolding decode base
decode-base rdbal = refl
decode-base rdbah = refl
decode-base rdlen = refl
decode-base rdh = refl
decode-base rdt = refl
decode-base rxdctl = refl
decode-base tdbal = refl
decode-base tdbah = refl
decode-base tdlen = refl
decode-base tdh = refl
decode-base tdt = refl
decode-base txdctl = refl

-- The 16 receive and 16 transmit queues of the card: every register is an aligned word between the
-- offsets 0xC000 and 0x10000, and two of them share an address only if they are the same register of
-- the same queue.
pub queue_reg-apart :
    (r s : QueueReg) (i j : ℕ)
    → i < 16
    → j < 16
    → (queue_reg r i % 4 ≡ 0)
      × (0xC000 ≤ queue_reg r i)
      × (queue_reg r i + 4 ≤ 0x10000)
      × (queue_reg r i ≡ queue_reg s j → (r ≡ s) × (i ≡ j))
queue_reg-apart r s i j hi hj =
    let (bank, offset, e, l, c) = base_lem r in
    let (bank', offset', e', l', c') = base_lem s in
    (
      omega (arith, queue_reg_lem r i, e, c),
      omega (arith, queue_reg_lem r i, e, c),
      omega (arith, queue_reg_lem r i, e, l, c),
      (λ q. (
        sym (decode-base r)
            ∙ ap decode
                (omega (arith, q, queue_reg_lem r i, queue_reg_lem s j, e, e', l, l', c, c'))
            ∙ decode-base s,
        omega (arith, q, queue_reg_lem r i, queue_reg_lem s j, e, e', l, l', c, c'),
      )),
    )
