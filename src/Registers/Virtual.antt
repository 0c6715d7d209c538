-- ===== src/Registers/Virtual.antt =====
-- src/constants.rs, the registers of virtual functions as the physical function sees them. The driver does
-- not use them. An index comes from a `u16`, so that no sum wraps.
use igb_driver.Prelude.{ℕ, ◌+◌, ◌-◌, ◌*◌, ◌/◌, ◌^◌, ◌==◌, if◌then◌else◌, ltb, bit_and}

unfoldable pub igb_mbvficr_index : ℕ → ℕ
igb_mbvficr_index vf_number = vf_number / 2 ^ 4

unfoldable pub igb_mbvficr : ℕ → ℕ
igb_mbvficr i = 0x00710 + i * 4

unfoldable pub igb_vflre : ℕ → ℕ
igb_vflre i = if bit_and i 1 == 0 then 0x00600 else 0x001C0

unfoldable pub igb_vflrec : ℕ → ℕ
igb_vflrec i = 0x00700 + i * 4

unfoldable pub igb_pvfctrl : ℕ → ℕ
igb_pvfctrl p = 0x00300 + 4 * p

unfoldable pub igb_pvfstatus : ℕ → ℕ
igb_pvfstatus p = 0x00008 + 0 * p

unfoldable pub igb_pvflinks : ℕ → ℕ
igb_pvflinks p = 0x042A4 + 0 * p

unfoldable pub igb_pvfrtimer : ℕ → ℕ
igb_pvfrtimer p = 0x00048 + 0 * p

unfoldable pub igb_pvfmailbox : ℕ → ℕ
igb_pvfmailbox p = 0x04C00 + 4 * p

unfoldable pub igb_pvfrxmemwrap : ℕ → ℕ
igb_pvfrxmemwrap p = 0x03190 + 0 * p

unfoldable pub igb_pvteicr : ℕ → ℕ
igb_pvteicr p = 0x00B00 + 4 * p

unfoldable pub igb_pvteics : ℕ → ℕ
igb_pvteics p = 0x00C00 + 4 * p

unfoldable pub igb_pvteims : ℕ → ℕ
igb_pvteims p = 0x00D00 + 4 * p

unfoldable pub igb_pvteimc : ℕ → ℕ
igb_pvteimc p = 0x00E00 + 4 * p

unfoldable pub igb_pvteiac : ℕ → ℕ
igb_pvteiac p = 0x00F00 + 4 * p

unfoldable pub igb_pvteiam : ℕ → ℕ
igb_pvteiam p = 0x04D00 + 4 * p

unfoldable pub igb_pvteitr : ℕ → ℕ
igb_pvteitr p = if ltb p 24 then 0x00820 + p * 4 else 0x012300 + (p - 24) * 4

unfoldable pub igb_pvtivar : ℕ → ℕ
igb_pvtivar p = 0x12500 + 4 * p

unfoldable pub igb_pvtivar_misc : ℕ → ℕ
igb_pvtivar_misc p = 0x04E00 + 4 * p

unfoldable pub igb_pvtrscint : ℕ → ℕ
igb_pvtrscint p = 0x12000 + 4 * p

unfoldable pub igb_vfpbacl : ℕ → ℕ
igb_vfpbacl p = 0x110C8 + 4 * p

unfoldable pub igb_pvfrdbal : ℕ → ℕ
igb_pvfrdbal p = if ltb p 64 then 0x01000 + 0x40 * p else 0x0D000 + 0x40 * (p - 64)

unfoldable pub igb_pvfrdbah : ℕ → ℕ
igb_pvfrdbah p = if ltb p 64 then 0x01004 + 0x40 * p else 0x0D004 + 0x40 * (p - 64)

unfoldable pub igb_pvfrdlen : ℕ → ℕ
igb_pvfrdlen p = if ltb p 64 then 0x01008 + 0x40 * p else 0x0D008 + 0x40 * (p - 64)

unfoldable pub igb_pvfrdh : ℕ → ℕ
igb_pvfrdh p = if ltb p 64 then 0x01010 + 0x40 * p else 0x0D010 + 0x40 * (p - 64)

unfoldable pub igb_pvfrdt : ℕ → ℕ
igb_pvfrdt p = if ltb p 64 then 0x01018 + 0x40 * p else 0x0D018 + 0x40 * (p - 64)

unfoldable pub igb_pvfrxdctl : ℕ → ℕ
igb_pvfrxdctl p = if ltb p 64 then 0x01028 + 0x40 * p else 0x0D028 + 0x40 * (p - 64)

unfoldable pub igb_pvfsrrctl : ℕ → ℕ
igb_pvfsrrctl p = if ltb p 64 then 0x01014 + 0x40 * p else 0x0D014 + 0x40 * (p - 64)

unfoldable pub igb_pvfpsrtype : ℕ → ℕ
igb_pvfpsrtype p = 0x0EA00 + 4 * p

unfoldable pub igb_pvftdbal : ℕ → ℕ
igb_pvftdbal p = 0x06000 + 0x40 * p

unfoldable pub igb_pvftdbah : ℕ → ℕ
igb_pvftdbah p = 0x06004 + 0x40 * p

unfoldable pub igb_pvftdlen : ℕ → ℕ
igb_pvftdlen p = 0x06008 + 0x40 * p

unfoldable pub igb_pvftdh : ℕ → ℕ
igb_pvftdh p = 0x06010 + 0x40 * p

unfoldable pub igb_pvftdt : ℕ → ℕ
igb_pvftdt p = 0x06018 + 0x40 * p

unfoldable pub igb_pvftxdctl : ℕ → ℕ
igb_pvftxdctl p = 0x06028 + 0x40 * p

unfoldable pub igb_pvftdwbal : ℕ → ℕ
igb_pvftdwbal p = 0x06038 + 0x40 * p

unfoldable pub igb_pvftdwbah : ℕ → ℕ
igb_pvftdwbah p = 0x0603C + 0x40 * p

unfoldable pub igb_pvfdca_rxctrl : ℕ → ℕ
igb_pvfdca_rxctrl p = if ltb p 64 then 0x0100C + 0x40 * p else 0x0D00C + 0x40 * (p - 64)

unfoldable pub igb_pvfdca_txctrl : ℕ → ℕ
igb_pvfdca_txctrl p = 0x0600C + 0x40 * p

unfoldable pub igb_pvfgprc : ℕ → ℕ
igb_pvfgprc x = 0x0101C + 0x40 * x

unfoldable pub igb_pvfgptc : ℕ → ℕ
igb_pvfgptc x = 0x08300 + 0x04 * x

unfoldable pub igb_pvfgorc_lsb : ℕ → ℕ
igb_pvfgorc_lsb x = 0x01020 + 0x40 * x

unfoldable pub igb_pvfgorc_msb : ℕ → ℕ
igb_pvfgorc_msb x = 0x0D020 + 0x40 * x

unfoldable pub igb_pvfgotc_lsb : ℕ → ℕ
igb_pvfgotc_lsb x = 0x08400 + 0x08 * x

unfoldable pub igb_pvfgotc_msb : ℕ → ℕ
igb_pvfgotc_msb x = 0x08404 + 0x08 * x

unfoldable pub igb_pvfmprc : ℕ → ℕ
igb_pvfmprc x = 0x0D01C + 0x40 * x

unfoldable pub igb_pvftdwbaln : ℕ → ℕ → ℕ → ℕ
unfolding igb_pvftdwbal
igb_pvftdwbaln q_per_pool vf_number vf_q_index = igb_pvftdwbal (q_per_pool * vf_number + vf_q_index)

unfoldable pub igb_pvftdwbahn : ℕ → ℕ → ℕ → ℕ
unfolding igb_pvftdwbah
igb_pvftdwbahn q_per_pool vf_number vf_q_index = igb_pvftdwbah (q_per_pool * vf_number + vf_q_index)

unfoldable pub igb_pvftdhn : ℕ → ℕ → ℕ → ℕ
unfolding igb_pvftdh
igb_pvftdhn q_per_pool vf_number vf_q_index = igb_pvftdh (q_per_pool * vf_number + vf_q_index)

unfoldable pub igb_pvftdtn : ℕ → ℕ → ℕ → ℕ
unfolding igb_pvftdt
igb_pvftdtn q_per_pool vf_number vf_q_index = igb_pvftdt (q_per_pool * vf_number + vf_q_index)
