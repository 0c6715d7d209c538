-- ===== src/Registers/Mapped.antt =====
-- The registers of the queues (src/constants.rs) lie in the card's 128 KiB.
use igb_driver.Prelude.{ℕ, ◌<◌, arith}
use igb_driver.Device.Triples.{IsReg}
use igb_driver.Registers.{
  igb_rdbal, igb_rdbah, igb_rdlen, igb_rdh, igb_rdt, igb_rxdctl, igb_tdbal, igb_tdbah, igb_tdlen,
  igb_tdh, igb_tdt, igb_txdctl,
}

pub rdbal-IsReg : (q : ℕ) → q < 64 → IsReg (igb_rdbal q)
unfolding igb_rdbal
rdbal-IsReg q h = ground arith

pub rdbah-IsReg : (q : ℕ) → q < 64 → IsReg (igb_rdbah q)
unfolding igb_rdbah
rdbah-IsReg q h = ground arith

pub rdlen-IsReg : (q : ℕ) → q < 64 → IsReg (igb_rdlen q)
unfolding igb_rdlen
rdlen-IsReg q h = ground arith

pub rdh-IsReg : (q : ℕ) → q < 64 → IsReg (igb_rdh q)
unfolding igb_rdh
rdh-IsReg q h = ground arith

pub rdt-IsReg : (q : ℕ) → q < 64 → IsReg (igb_rdt q)
unfolding igb_rdt
rdt-IsReg q h = ground arith

pub rxdctl-IsReg : (q : ℕ) → q < 64 → IsReg (igb_rxdctl q)
unfolding igb_rxdctl
rxdctl-IsReg q h = ground arith

pub tdbal-IsReg : (q : ℕ) → q < 64 → IsReg (igb_tdbal q)
unfolding igb_tdbal
tdbal-IsReg q h = ground arith

pub tdbah-IsReg : (q : ℕ) → q < 64 → IsReg (igb_tdbah q)
unfolding igb_tdbah
tdbah-IsReg q h = ground arith

pub tdlen-IsReg : (q : ℕ) → q < 64 → IsReg (igb_tdlen q)
unfolding igb_tdlen
tdlen-IsReg q h = ground arith

pub tdh-IsReg : (q : ℕ) → q < 64 → IsReg (igb_tdh q)
unfolding igb_tdh
tdh-IsReg q h = ground arith

pub tdt-IsReg : (q : ℕ) → q < 64 → IsReg (igb_tdt q)
unfolding igb_tdt
tdt-IsReg q h = ground arith

pub txdctl-IsReg : (q : ℕ) → q < 64 → IsReg (igb_txdctl q)
unfolding igb_txdctl
txdctl-IsReg q h = ground arith

pub ruleset queue_regs = (
  rdbal-IsReg, rdbah-IsReg, rdlen-IsReg, rdh-IsReg, rdt-IsReg, rxdctl-IsReg, tdbal-IsReg,
  tdbah-IsReg, tdlen-IsReg, tdh-IsReg, tdt-IsReg, txdctl-IsReg,
)
