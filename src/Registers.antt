-- ===== src/Registers.antt =====
-- src/constants.rs: the registers and flags that the driver uses. A register is its offset from the
-- device's base address.
pub mod Queues
pub mod Mapped
pub mod Tables
pub mod Security
pub mod Counters
pub mod Virtual
pub mod Guest
pub mod Led
pub mod Krm
pub mod Delay
use igb_driver.Prelude.{ℕ, ◌+◌, ◌-◌, ◌*◌, ◌^◌, leb, if◌then◌else◌}

abbrev pub igb_ctrl : ℕ
igb_ctrl = 0x00000

abbrev pub igb_mdic : ℕ
igb_mdic = 0x00020

abbrev pub igb_status : ℕ
igb_status = 0x00008

abbrev pub igb_ctrl_ext : ℕ
igb_ctrl_ext = 0x00018

abbrev pub igb_icr : ℕ
igb_icr = 0x01500

abbrev pub igb_ims : ℕ
igb_ims = 0x01508

abbrev pub igb_imc : ℕ
igb_imc = 0x0150C

abbrev pub igb_gpie : ℕ
igb_gpie = 0x00898

abbrev pub igb_gpie_msix_mode : ℕ
igb_gpie_msix_mode = 0x00000010

abbrev pub igb_gpie_eiame : ℕ
igb_gpie_eiame = 0x40000000

abbrev pub igb_gpie_pba_support : ℕ
igb_gpie_pba_support = 0x80000000

abbrev pub igb_eims_rtx_queue : ℕ
igb_eims_rtx_queue = 0x0000FFFF

abbrev pub igb_rdrxctl : ℕ
igb_rdrxctl = 0x02F00

abbrev pub igb_rxctrl : ℕ
igb_rxctrl = 0x00100

abbrev pub igb_fctrl : ℕ
igb_fctrl = 0x05080

abbrev pub igb_dmatxctl : ℕ
igb_dmatxctl = 0x04A80

abbrev pub igb_dmatxctl_te : ℕ
igb_dmatxctl_te = 0x1

abbrev pub igb_gprc : ℕ
igb_gprc = 0x04074

abbrev pub igb_gptc : ℕ
igb_gptc = 0x04080

abbrev pub igb_gorcl : ℕ
igb_gorcl = 0x04088

abbrev pub igb_gorch : ℕ
igb_gorch = 0x0408C

abbrev pub igb_gotcl : ℕ
igb_gotcl = 0x04090

abbrev pub igb_gotch : ℕ
igb_gotch = 0x04094

abbrev pub igb_hlreg0 : ℕ
igb_hlreg0 = 0x04240

abbrev pub igb_rdrxctl_crcstrip : ℕ
igb_rdrxctl_crcstrip = 0x00000002

abbrev pub igb_ctrl_global_rst : ℕ
igb_ctrl_global_rst = 2 ^ 26

abbrev pub igb_rxpbsize_128kb : ℕ
igb_rxpbsize_128kb = 0x00020000

abbrev pub igb_hlreg0_rxcrcstrp : ℕ
igb_hlreg0_rxcrcstrp = 0x00000002

abbrev pub igb_irq_clear_mask : ℕ
igb_irq_clear_mask = 0xFFFFFFFF

abbrev pub igb_ivar_alloc_val : ℕ
igb_ivar_alloc_val = 0x80

abbrev pub igb_links_up : ℕ
igb_links_up = 2 ^ 1

abbrev pub igb_txdctl_enable : ℕ
igb_txdctl_enable = 0x02000000

abbrev pub igb_rxctrl_rxen : ℕ
igb_rxctrl_rxen = 0x00000002

abbrev pub igb_rxctrl_bam : ℕ
igb_rxctrl_bam = 2 ^ 15

abbrev pub igb_rxdctl_enable : ℕ
igb_rxdctl_enable = 0x02000000

abbrev pub igb_fctrl_mpe : ℕ
igb_fctrl_mpe = 0x00000100

abbrev pub igb_fctrl_upe : ℕ
igb_fctrl_upe = 0x00000200

abbrev pub igb_fctrl_bam : ℕ
igb_fctrl_bam = 0x00000400

abbrev pub igb_txd_stat_dd : ℕ
igb_txd_stat_dd = 0x00000001

abbrev pub igb_advtxd_stat_dd : ℕ
igb_advtxd_stat_dd = igb_txd_stat_dd

unfoldable pub igb_rdbal : ℕ → ℕ
igb_rdbal i = 0x0C000 + i * 0x40

unfoldable pub igb_rdbah : ℕ → ℕ
igb_rdbah i = 0x0C004 + i * 0x40

unfoldable pub igb_rdlen : ℕ → ℕ
igb_rdlen i = 0x0C008 + i * 0x40

unfoldable pub igb_rdh : ℕ → ℕ
igb_rdh i = 0x0C010 + i * 0x40

unfoldable pub igb_rdt : ℕ → ℕ
igb_rdt i = 0x0C018 + i * 0x40

unfoldable pub igb_rxdctl : ℕ → ℕ
igb_rxdctl i = 0x0C028 + i * 0x40

unfoldable pub igb_tdbal : ℕ → ℕ
igb_tdbal i = 0xE000 + i * 0x40

unfoldable pub igb_tdbah : ℕ → ℕ
igb_tdbah i = 0x0E004 + i * 0x40

unfoldable pub igb_tdlen : ℕ → ℕ
igb_tdlen i = 0x0E008 + i * 0x40

unfoldable pub igb_tdh : ℕ → ℕ
igb_tdh i = 0x0E010 + i * 0x40

unfoldable pub igb_tdt : ℕ → ℕ
igb_tdt i = 0x0E018 + i * 0x40

unfoldable pub igb_txdctl : ℕ → ℕ
igb_txdctl i = 0x0E028 + i * 0x40

unfoldable pub igb_rxpbsize : ℕ → ℕ
igb_rxpbsize i = 0x03C00 + i * 4

unfoldable pub igb_ivar : ℕ → ℕ
igb_ivar i = 0x00900 + i * 4

unfoldable pub igb_ral : ℕ → ℕ
igb_ral i = if leb i 15 then 0x05400 + i * 8 else 0x054E0 + (i - 16) * 8

unfoldable pub igb_rah : ℕ → ℕ
igb_rah i = if leb i 15 then 0x05404 + i * 8 else 0x054E4 + (i - 16) * 8

unfoldable pub igb_eitr : ℕ → ℕ
igb_eitr i = if leb i 23 then 0x00820 + i * 4 else 0x012300 + (i - 24) * 4
