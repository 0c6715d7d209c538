-- ===== src/Registers/Krm.antt =====
-- src/constants.rs, the registers of the two ports of the internal PHY. The driver does
-- not use them. An index comes from a `u16`, so that no sum wraps.
use igb_driver.Prelude.{ℕ, ◌+◌, ◌*◌, ◌==◌, if◌then◌else◌}

unfoldable pub igb_fuses0_group : ℕ → ℕ
igb_fuses0_group i = 0x11158 + i * 4

unfoldable pub igb_krm_port_car_gen_ctrl : ℕ → ℕ
igb_krm_port_car_gen_ctrl p = if p == 0 then 0x4010 else 0x8010

unfoldable pub igb_krm_link_s1 : ℕ → ℕ
igb_krm_link_s1 p = if p == 0 then 0x4200 else 0x8200

unfoldable pub igb_krm_link_ctrl_1 : ℕ → ℕ
igb_krm_link_ctrl_1 p = if p == 0 then 0x420C else 0x820C

unfoldable pub igb_krm_an_cntl_1 : ℕ → ℕ
igb_krm_an_cntl_1 p = if p == 0 then 0x422C else 0x822C

unfoldable pub igb_krm_an_cntl_4 : ℕ → ℕ
igb_krm_an_cntl_4 p = if p == 0 then 0x4238 else 0x8238

unfoldable pub igb_krm_an_cntl_8 : ℕ → ℕ
igb_krm_an_cntl_8 p = if p == 0 then 0x4248 else 0x8248

unfoldable pub igb_krm_pcs_kx_an : ℕ → ℕ
igb_krm_pcs_kx_an p = if p == 0 then 0x5918 else 0x9918

unfoldable pub igb_krm_pcs_kx_an_lp : ℕ → ℕ
igb_krm_pcs_kx_an_lp p = if p == 0 then 0x591C else 0x991C

unfoldable pub igb_krm_sgmii_ctrl : ℕ → ℕ
igb_krm_sgmii_ctrl p = if p == 0 then 0x42A0 else 0x82A0

unfoldable pub igb_krm_lp_base_page_high : ℕ → ℕ
igb_krm_lp_base_page_high p = if p == 0 then 0x436C else 0x836C

unfoldable pub igb_krm_dsp_txffe_state_4 : ℕ → ℕ
igb_krm_dsp_txffe_state_4 p = if p == 0 then 0x4634 else 0x8634

unfoldable pub igb_krm_dsp_txffe_state_5 : ℕ → ℕ
igb_krm_dsp_txffe_state_5 p = if p == 0 then 0x4638 else 0x8638

unfoldable pub igb_krm_rx_trn_linkup_ctrl : ℕ → ℕ
igb_krm_rx_trn_linkup_ctrl p = if p == 0 then 0x4B00 else 0x8B00

unfoldable pub igb_krm_pmd_dfx_burnin : ℕ → ℕ
igb_krm_pmd_dfx_burnin p = if p == 0 then 0x4E00 else 0x8E00

unfoldable pub igb_krm_pmd_flx_mask_st20 : ℕ → ℕ
igb_krm_pmd_flx_mask_st20 p = if p == 0 then 0x5054 else 0x9054

unfoldable pub igb_krm_tx_coeff_ctrl_1 : ℕ → ℕ
igb_krm_tx_coeff_ctrl_1 p = if p == 0 then 0x5520 else 0x9520

unfoldable pub igb_krm_rx_ana_ctl : ℕ → ℕ
igb_krm_rx_ana_ctl p = if p == 0 then 0x5A00 else 0x9A00
