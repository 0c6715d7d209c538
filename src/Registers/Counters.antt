-- ===== src/Registers/Counters.antt =====
-- src/constants.rs, the register tables from `IGB_MPC` on: counters and diagnosis. The driver does not use
-- them. An index comes from a `u16`, so that no sum wraps.
use igb_driver.Prelude.{ℕ, ◌+◌, ◌*◌, if◌then◌else◌, leb}

unfoldable pub igb_mpc : ℕ → ℕ
igb_mpc i = 0x03FA0 + i * 4

unfoldable pub igb_pxonrxcnt : ℕ → ℕ
igb_pxonrxcnt i = 0x04140 + i * 4

unfoldable pub igb_pxoffrxcnt : ℕ → ℕ
igb_pxoffrxcnt i = 0x04160 + i * 4

unfoldable pub igb_pxon2offcnt : ℕ → ℕ
igb_pxon2offcnt i = 0x03240 + i * 4

unfoldable pub igb_pxontxc : ℕ → ℕ
igb_pxontxc i = 0x03F00 + i * 4

unfoldable pub igb_pxonrxc : ℕ → ℕ
igb_pxonrxc i = 0x0CF00 + i * 4

unfoldable pub igb_pxofftxc : ℕ → ℕ
igb_pxofftxc i = 0x03F20 + i * 4

unfoldable pub igb_pxoffrxc : ℕ → ℕ
igb_pxoffrxc i = 0x0CF20 + i * 4

unfoldable pub igb_rnbc : ℕ → ℕ
igb_rnbc i = 0x03FC0 + i * 4

unfoldable pub igb_rqsmr : ℕ → ℕ
igb_rqsmr i = 0x02300 + i * 4

unfoldable pub igb_tqsmr : ℕ → ℕ
igb_tqsmr i = if leb i 7 then 0x07300 + i * 4 else 0x08600 + i * 4

unfoldable pub igb_tqsm : ℕ → ℕ
igb_tqsm i = 0x08600 + i * 4

unfoldable pub igb_qprc : ℕ → ℕ
igb_qprc i = 0x01030 + i * 0x40

unfoldable pub igb_qptc : ℕ → ℕ
igb_qptc i = 0x06030 + i * 0x40

unfoldable pub igb_qbrc : ℕ → ℕ
igb_qbrc i = 0x01034 + i * 0x40

unfoldable pub igb_qbtc : ℕ → ℕ
igb_qbtc i = 0x06034 + i * 0x40

unfoldable pub igb_qbrc_l : ℕ → ℕ
igb_qbrc_l i = 0x01034 + i * 0x40

unfoldable pub igb_qbrc_h : ℕ → ℕ
igb_qbrc_h i = 0x01038 + i * 0x40

unfoldable pub igb_qprdc : ℕ → ℕ
igb_qprdc i = 0x01430 + i * 0x40

unfoldable pub igb_qbtc_l : ℕ → ℕ
igb_qbtc_l i = 0x08700 + i * 0x8

unfoldable pub igb_qbtc_h : ℕ → ℕ
igb_qbtc_h i = 0x08704 + i * 0x8

unfoldable pub igb_mavtv : ℕ → ℕ
igb_mavtv i = 0x05010 + i * 4

unfoldable pub igb_mfutp : ℕ → ℕ
igb_mfutp i = 0x05030 + i * 4

unfoldable pub igb_mdef : ℕ → ℕ
igb_mdef i = 0x05890 + i * 4

unfoldable pub igb_mmal : ℕ → ℕ
igb_mmal i = 0x05910 + i * 8

unfoldable pub igb_mmah : ℕ → ℕ
igb_mmah i = 0x05914 + i * 8

unfoldable pub igb_metf : ℕ → ℕ
igb_metf i = 0x05190 + i * 4

unfoldable pub igb_mdef_ext : ℕ → ℕ
igb_mdef_ext i = 0x05160 + i * 4

unfoldable pub igb_bmcip : ℕ → ℕ
igb_bmcip i = 0x05050 + i * 4

unfoldable pub igb_rdstat : ℕ → ℕ
igb_rdstat i = 0x02C00 + i * 4

unfoldable pub igb_ric_dw : ℕ → ℕ
igb_ric_dw i = 0x02F10 + i * 4

unfoldable pub igb_tic_dw : ℕ → ℕ
igb_tic_dw i = 0x07F10 + i * 4

unfoldable pub igb_tic_dw2 : ℕ → ℕ
igb_tic_dw2 i = 0x082B0 + i * 4

unfoldable pub igb_pcie_diag : ℕ → ℕ
igb_pcie_diag i = 0x11090 + i * 4

unfoldable pub igb_rxdatawrptr : ℕ → ℕ
igb_rxdatawrptr i = 0x03700 + i * 4

unfoldable pub igb_rxdescwrptr : ℕ → ℕ
igb_rxdescwrptr i = 0x03710 + i * 4

unfoldable pub igb_rxdatardptr : ℕ → ℕ
igb_rxdatardptr i = 0x03720 + i * 4

unfoldable pub igb_rxdescrdptr : ℕ → ℕ
igb_rxdescrdptr i = 0x03730 + i * 4

unfoldable pub igb_txdatawrptr : ℕ → ℕ
igb_txdatawrptr i = 0x0C700 + i * 4

unfoldable pub igb_txdescwrptr : ℕ → ℕ
igb_txdescwrptr i = 0x0C710 + i * 4

unfoldable pub igb_txdatardptr : ℕ → ℕ
igb_txdatardptr i = 0x0C720 + i * 4

unfoldable pub igb_txdescrdptr : ℕ → ℕ
igb_txdescrdptr i = 0x0C730 + i * 4

unfoldable pub igb_rxwrptr : ℕ → ℕ
igb_rxwrptr i = 0x03100 + i * 4

unfoldable pub igb_rxused : ℕ → ℕ
igb_rxused i = 0x03120 + i * 4

unfoldable pub igb_rxrdptr : ℕ → ℕ
igb_rxrdptr i = 0x03140 + i * 4

unfoldable pub igb_rxrdwrptr : ℕ → ℕ
igb_rxrdwrptr i = 0x03160 + i * 4

unfoldable pub igb_txwrptr : ℕ → ℕ
igb_txwrptr i = 0x0C100 + i * 4

unfoldable pub igb_txused : ℕ → ℕ
igb_txused i = 0x0C120 + i * 4

unfoldable pub igb_txrdptr : ℕ → ℕ
igb_txrdptr i = 0x0C140 + i * 4

unfoldable pub igb_txrdwrptr : ℕ → ℕ
igb_txrdwrptr i = 0x0C160 + i * 4
