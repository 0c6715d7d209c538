-- ===== src/Registers/Tables.antt =====
-- src/constants.rs, the register tables from `IGB_EICS_EX` to `IGB_TXPBSIZE` that the driver does not
-- use. An index comes from a `u16`, so that no sum wraps; below the first index of a branch the
-- subtraction does not occur.
pub mod Aligned
use igb_driver.Prelude.{ℕ, ◌+◌, ◌-◌, ◌*◌, leb, ltb, ◌==◌, if◌then◌else◌}

unfoldable pub igb_eics_ex : ℕ → ℕ
igb_eics_ex i = 0x00A90 + i * 4

unfoldable pub igb_eims_ex : ℕ → ℕ
igb_eims_ex i = 0x00AA0 + i * 4

unfoldable pub igb_eimc_ex : ℕ → ℕ
igb_eimc_ex i = 0x00AB0 + i * 4

unfoldable pub igb_eiam_ex : ℕ → ℕ
igb_eiam_ex i = 0x00AD0 + i * 4

unfoldable pub igb_pbacl : ℕ → ℕ
igb_pbacl i = if i == 0 then 0x11068 else 0x110C0 + i * 4

unfoldable pub igb_fcrth_82599 : ℕ → ℕ
igb_fcrth_82599 i = 0x03260 + i * 4

unfoldable pub igb_fcrtl_82599 : ℕ → ℕ
igb_fcrtl_82599 i = 0x03220 + i * 4

unfoldable pub igb_fcttv : ℕ → ℕ
igb_fcttv i = 0x03200 + i * 4

unfoldable pub igb_fcrtl : ℕ → ℕ
igb_fcrtl i = 0x03220 + i * 8

unfoldable pub igb_fcrth : ℕ → ℕ
igb_fcrth i = 0x03260 + i * 8

unfoldable pub igb_rscctl : ℕ → ℕ
igb_rscctl i = if ltb i 64 then 0x0102C + i * 0x40 else 0x0D02C + (i - 64) * 0x40

unfoldable pub igb_srrctl : ℕ → ℕ
igb_srrctl i =
    if leb i 15
    then 0x02100 + i * 4
    else if ltb i 64
    then 0x01014 + i * 0x40
    else 0x0D014 + (i - 64) * 0x40

unfoldable pub igb_dca_rxctrl : ℕ → ℕ
igb_dca_rxctrl i =
    if leb i 15
    then 0x02200 + i * 4
    else if ltb i 64
    then 0x0100C + i * 0x40
    else 0x0D00C + (i - 64) * 0x40

unfoldable pub igb_mta : ℕ → ℕ
igb_mta i = 0x05200 + i * 4

unfoldable pub igb_mpsar_lo : ℕ → ℕ
igb_mpsar_lo i = 0x0A600 + i * 8

unfoldable pub igb_mpsar_hi : ℕ → ℕ
igb_mpsar_hi i = 0x0A604 + i * 8

unfoldable pub igb_psrtype : ℕ → ℕ
igb_psrtype i = if leb i 15 then 0x05480 + i * 4 else 0x0EA00 + i * 4

unfoldable pub igb_vfta : ℕ → ℕ
igb_vfta i = 0x0A000 + i * 4

unfoldable pub igb_vftavind : ℕ → ℕ → ℕ
igb_vftavind j i = 0x0A200 + j * 0x200 + i * 4

unfoldable pub igb_saqf : ℕ → ℕ
igb_saqf i = 0x0E000 + i * 4

unfoldable pub igb_daqf : ℕ → ℕ
igb_daqf i = 0x0E200 + i * 4

unfoldable pub igb_sdpqf : ℕ → ℕ
igb_sdpqf i = 0x0E400 + i * 4

unfoldable pub igb_ftqf : ℕ → ℕ
igb_ftqf i = 0x0E600 + i * 4

unfoldable pub igb_etqf : ℕ → ℕ
igb_etqf i = 0x05128 + i * 4

unfoldable pub igb_etqs : ℕ → ℕ
igb_etqs i = 0x0EC00 + i * 4

unfoldable pub igb_vlvf : ℕ → ℕ
igb_vlvf i = 0x0F100 + i * 4

unfoldable pub igb_vlvfb : ℕ → ℕ
igb_vlvfb i = 0x0F200 + i * 4

unfoldable pub igb_vmvir : ℕ → ℕ
igb_vmvir i = 0x08000 + i * 4

unfoldable pub igb_pfmailbox : ℕ → ℕ
igb_pfmailbox i = 0x04B00 + 4 * i

unfoldable pub igb_pfmbmem : ℕ → ℕ
igb_pfmbmem i = 0x13000 + 64 * i

unfoldable pub igb_pfmbicr : ℕ → ℕ
igb_pfmbicr i = 0x00710 + 4 * i

unfoldable pub igb_pfmbimr : ℕ → ℕ
igb_pfmbimr i = 0x00720 + 4 * i

unfoldable pub igb_vfre : ℕ → ℕ
igb_vfre i = 0x051E0 + i * 4

unfoldable pub igb_vfte : ℕ → ℕ
igb_vfte i = 0x08110 + i * 4

unfoldable pub igb_vmecm : ℕ → ℕ
igb_vmecm i = 0x08790 + i * 4

unfoldable pub igb_vmtxsw : ℕ → ℕ
igb_vmtxsw i = 0x05180 + i * 4

unfoldable pub igb_vmolr : ℕ → ℕ
igb_vmolr i = 0x0F000 + i * 4

unfoldable pub igb_uta : ℕ → ℕ
igb_uta i = 0x0F400 + i * 4

unfoldable pub igb_mrctl : ℕ → ℕ
igb_mrctl i = 0x0F600 + i * 4

unfoldable pub igb_vmrvlan : ℕ → ℕ
igb_vmrvlan i = 0x0F610 + i * 4

unfoldable pub igb_vmrvm : ℕ → ℕ
igb_vmrvm i = 0x0F630 + i * 4

unfoldable pub igb_wqbr_rx : ℕ → ℕ
igb_wqbr_rx i = 0x2FB0 + i * 4

unfoldable pub igb_wqbr_tx : ℕ → ℕ
igb_wqbr_tx i = 0x8130 + i * 4

unfoldable pub igb_l34t_imir : ℕ → ℕ
igb_l34t_imir i = 0x0E800 + i * 4

unfoldable pub igb_imir : ℕ → ℕ
igb_imir i = 0x05A80 + i * 4

unfoldable pub igb_imirext : ℕ → ℕ
igb_imirext i = 0x05AA0 + i * 4

unfoldable pub igb_reta : ℕ → ℕ
igb_reta i = 0x05C00 + i * 4

unfoldable pub igb_ereta : ℕ → ℕ
igb_ereta i = 0x0EE80 + i * 4

unfoldable pub igb_rssrk : ℕ → ℕ
igb_rssrk i = 0x05C80 + i * 4

unfoldable pub igb_pfvfmrqc : ℕ → ℕ
igb_pfvfmrqc p = 0x03400 + p * 4

unfoldable pub igb_pfvfrssrk : ℕ → ℕ → ℕ
igb_pfvfrssrk i p = 0x018000 + i * 4 + p * 0x40

unfoldable pub igb_pfvfreta : ℕ → ℕ → ℕ
igb_pfvfreta i p = 0x019000 + i * 4 + p * 0x40

unfoldable pub igb_fdirsipv6 : ℕ → ℕ
igb_fdirsipv6 i = 0x0EE0C + i * 4

unfoldable pub igb_tdwbal : ℕ → ℕ
igb_tdwbal i = 0x06038 + i * 0x40

unfoldable pub igb_tdwbah : ℕ → ℕ
igb_tdwbah i = 0x0603C + i * 0x40

unfoldable pub igb_pfvfspoof : ℕ → ℕ
igb_pfvfspoof i = 0x08200 + i * 4

unfoldable pub igb_txpbthresh : ℕ → ℕ
igb_txpbthresh i = 0x04950 + i * 4

unfoldable pub igb_dca_txctrl : ℕ → ℕ
igb_dca_txctrl i = 0x07200 + i * 4

unfoldable pub igb_dca_txctrl_82599 : ℕ → ℕ
igb_dca_txctrl_82599 i = 0x0600C + i * 0x40

unfoldable pub igb_txpbsize : ℕ → ℕ
igb_txpbsize i = 0x0CC00 + i * 4
