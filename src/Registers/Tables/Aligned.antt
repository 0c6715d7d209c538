-- ===== src/Registers/Tables/Aligned.antt =====
-- Where the register tables of src/constants.rs lie.
use igb_driver.Prelude.{ℕ, ◌+◌, ◌*◌, ◌%◌, ◌^◌, ◌≤◌, ◌<◌, ◌≡◌, arith}
use igb_driver.Registers.{igb_tdbal, igb_tdbah}
use igb_driver.Registers.Tables.{
  igb_eics_ex, igb_eims_ex, igb_eimc_ex, igb_eiam_ex, igb_pbacl, igb_fcrth_82599, igb_fcrtl_82599,
  igb_fcttv, igb_fcrtl, igb_fcrth, igb_rscctl, igb_srrctl, igb_dca_rxctrl, igb_mta, igb_mpsar_lo,
  igb_mpsar_hi, igb_psrtype, igb_vfta, igb_saqf, igb_daqf, igb_sdpqf, igb_ftqf, igb_etqf, igb_etqs,
  igb_vlvf, igb_vlvfb, igb_vmvir, igb_pfmailbox, igb_pfmbmem, igb_pfmbicr, igb_pfmbimr, igb_vfre,
  igb_vfte, igb_vmecm, igb_vmtxsw, igb_vmolr, igb_uta, igb_mrctl, igb_vmrvlan, igb_vmrvm,
  igb_wqbr_rx, igb_wqbr_tx, igb_l34t_imir, igb_imir, igb_imirext, igb_reta, igb_ereta, igb_rssrk,
  igb_pfvfmrqc, igb_fdirsipv6, igb_tdwbal, igb_tdwbah, igb_pfvfspoof, igb_txpbthresh,
  igb_dca_txctrl, igb_dca_txctrl_82599, igb_txpbsize,
}

pub data Table : Type 0 where
  eics_ex eims_ex eimc_ex eiam_ex pbacl fcrth_82599 fcrtl_82599 fcttv : Table
  fcrtl fcrth rscctl srrctl dca_rxctrl mta mpsar_lo mpsar_hi : Table
  psrtype vfta saqf daqf sdpqf ftqf etqf etqs : Table
  vlvf vlvfb vmvir pfmailbox pfmbmem pfmbicr pfmbimr vfre : Table
  vfte vmecm vmtxsw vmolr uta mrctl vmrvlan vmrvm : Table
  wqbr_rx wqbr_tx l34t_imir imir imirext reta ereta rssrk : Table
  pfvfmrqc fdirsipv6 tdwbal tdwbah pfvfspoof txpbthresh dca_txctrl dca_txctrl_82599 : Table
  txpbsize : Table

pub table_reg : Table → ℕ → ℕ
table_reg eics_ex = igb_eics_ex
table_reg eims_ex = igb_eims_ex
table_reg eimc_ex = igb_eimc_ex
table_reg eiam_ex = igb_eiam_ex
table_reg pbacl = igb_pbacl
table_reg fcrth_82599 = igb_fcrth_82599
table_reg fcrtl_82599 = igb_fcrtl_82599
table_reg fcttv = igb_fcttv
table_reg fcrtl = igb_fcrtl
table_reg fcrth = igb_fcrth
table_reg rscctl = igb_rscctl
table_reg srrctl = igb_srrctl
table_reg dca_rxctrl = igb_dca_rxctrl
table_reg mta = igb_mta
table_reg mpsar_lo = igb_mpsar_lo
table_reg mpsar_hi = igb_mpsar_hi
table_reg psrtype = igb_psrtype
table_reg vfta = igb_vfta
table_reg saqf = igb_saqf
table_reg daqf = igb_daqf
table_reg sdpqf = igb_sdpqf
table_reg ftqf = igb_ftqf
table_reg etqf = igb_etqf
table_reg etqs = igb_etqs
table_reg vlvf = igb_vlvf
table_reg vlvfb = igb_vlvfb
table_reg vmvir = igb_vmvir
table_reg pfmailbox = igb_pfmailbox
table_reg pfmbmem = igb_pfmbmem
table_reg pfmbicr = igb_pfmbicr
table_reg pfmbimr = igb_pfmbimr
table_reg vfre = igb_vfre
table_reg vfte = igb_vfte
table_reg vmecm = igb_vmecm
table_reg vmtxsw = igb_vmtxsw
table_reg vmolr = igb_vmolr
table_reg uta = igb_uta
table_reg mrctl = igb_mrctl
table_reg vmrvlan = igb_vmrvlan
table_reg vmrvm = igb_vmrvm
table_reg wqbr_rx = igb_wqbr_rx
table_reg wqbr_tx = igb_wqbr_tx
table_reg l34t_imir = igb_l34t_imir
table_reg imir = igb_imir
table_reg imirext = igb_imirext
table_reg reta = igb_reta
table_reg ereta = igb_ereta
table_reg rssrk = igb_rssrk
table_reg pfvfmrqc = igb_pfvfmrqc
table_reg fdirsipv6 = igb_fdirsipv6
table_reg tdwbal = igb_tdwbal
table_reg tdwbah = igb_tdwbah
table_reg pfvfspoof = igb_pfvfspoof
table_reg txpbthresh = igb_txpbthresh
table_reg dca_txctrl = igb_dca_txctrl
table_reg dca_txctrl_82599 = igb_dca_txctrl_82599
table_reg txpbsize = igb_txpbsize

-- The first 64 registers of every table are aligned words inside the 128 KiB of the card.
pub table_reg-aligned :
    (t : Table) (i : ℕ) → i < 64 → (table_reg t i % 4 ≡ 0) × (table_reg t i + 4 ≤ 2 ^ 17)
unfolding table_reg igb_eics_ex igb_eims_ex igb_eimc_ex igb_eiam_ex igb_pbacl igb_fcrth_82599
    igb_fcrtl_82599 igb_fcttv igb_fcrtl igb_fcrth igb_rscctl igb_srrctl igb_dca_rxctrl igb_mta
    igb_mpsar_lo igb_mpsar_hi igb_psrtype igb_vfta igb_saqf igb_daqf igb_sdpqf igb_ftqf igb_etqf
    igb_etqs igb_vlvf igb_vlvfb igb_vmvir igb_pfmailbox igb_pfmbmem igb_pfmbicr igb_pfmbimr igb_vfre
    igb_vfte igb_vmecm igb_vmtxsw igb_vmolr igb_uta igb_mrctl igb_vmrvlan igb_vmrvm igb_wqbr_rx
    igb_wqbr_tx igb_l34t_imir igb_imir igb_imirext igb_reta igb_ereta igb_rssrk igb_pfvfmrqc
    igb_fdirsipv6 igb_tdwbal igb_tdwbah igb_pfvfspoof igb_txpbthresh igb_dca_txctrl
    igb_dca_txctrl_82599 igb_txpbsize
table_reg-aligned eics_ex i h = ground arith
table_reg-aligned eims_ex i h = ground arith
table_reg-aligned eimc_ex i h = ground arith
table_reg-aligned eiam_ex i h = ground arith
table_reg-aligned pbacl i h = ground arith
table_reg-aligned fcrth_82599 i h = ground arith
table_reg-aligned fcrtl_82599 i h = ground arith
table_reg-aligned fcttv i h = ground arith
table_reg-aligned fcrtl i h = ground arith
table_reg-aligned fcrth i h = ground arith
table_reg-aligned rscctl i h = ground arith
table_reg-aligned srrctl i h = ground arith
table_reg-aligned dca_rxctrl i h = ground arith
table_reg-aligned mta i h = ground arith
table_reg-aligned mpsar_lo i h = ground arith
table_reg-aligned mpsar_hi i h = ground arith
table_reg-aligned psrtype i h = ground arith
table_reg-aligned vfta i h = ground arith
table_reg-aligned saqf i h = ground arith
table_reg-aligned daqf i h = ground arith
table_reg-aligned sdpqf i h = ground arith
table_reg-aligned ftqf i h = ground arith
table_reg-aligned etqf i h = ground arith
table_reg-aligned etqs i h = ground arith
table_reg-aligned vlvf i h = ground arith
table_reg-aligned vlvfb i h = ground arith
table_reg-aligned vmvir i h = ground arith
table_reg-aligned pfmailbox i h = ground arith
table_reg-aligned pfmbmem i h = ground arith
table_reg-aligned pfmbicr i h = ground arith
table_reg-aligned pfmbimr i h = ground arith
table_reg-aligned vfre i h = ground arith
table_reg-aligned vfte i h = ground arith
table_reg-aligned vmecm i h = ground arith
table_reg-aligned vmtxsw i h = ground arith
table_reg-aligned vmolr i h = ground arith
table_reg-aligned uta i h = ground arith
table_reg-aligned mrctl i h = ground arith
table_reg-aligned vmrvlan i h = ground arith
table_reg-aligned vmrvm i h = ground arith
table_reg-aligned wqbr_rx i h = ground arith
table_reg-aligned wqbr_tx i h = ground arith
table_reg-aligned l34t_imir i h = ground arith
table_reg-aligned imir i h = ground arith
table_reg-aligned imirext i h = ground arith
table_reg-aligned reta i h = ground arith
table_reg-aligned ereta i h = ground arith
table_reg-aligned rssrk i h = ground arith
table_reg-aligned pfvfmrqc i h = ground arith
table_reg-aligned fdirsipv6 i h = ground arith
table_reg-aligned tdwbal i h = ground arith
table_reg-aligned tdwbah i h = ground arith
table_reg-aligned pfvfspoof i h = ground arith
table_reg-aligned txpbthresh i h = ground arith
table_reg-aligned dca_txctrl i h = ground arith
table_reg-aligned dca_txctrl_82599 i h = ground arith
table_reg-aligned txpbsize i h = ground arith

-- The source address filters of the constants lie on the registers of the
-- transmit queues: every sixteenth filter has the address of a ring's base, and the next one that of
-- its high half.
pub igb_saqf-igb_tdbal :
    (i : ℕ) → (igb_saqf (16 * i) ≡ igb_tdbal i) × (igb_saqf (16 * i + 1) ≡ igb_tdbah i)
unfolding igb_saqf igb_tdbal igb_tdbah
igb_saqf-igb_tdbal i = (omega arith, omega arith)
