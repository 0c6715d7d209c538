-- ===== src/Registers/Guest.antt =====
-- src/constants.rs, the registers of a virtual function as its own driver sees them. The driver does
-- not use them. An index comes from a `u16`, so that no sum wraps.
use igb_driver.Prelude.{ℕ, ◌+◌, ◌*◌}

unfoldable pub igb_vteitr : ℕ → ℕ
igb_vteitr x = 0x00820 + 4 * x

unfoldable pub igb_vtivar : ℕ → ℕ
igb_vtivar x = 0x00120 + 4 * x

unfoldable pub igb_vtrscint : ℕ → ℕ
igb_vtrscint x = 0x00180 + 4 * x

unfoldable pub igb_vfrdbal : ℕ → ℕ
igb_vfrdbal x = 0x01000 + 0x40 * x

unfoldable pub igb_vfrdbah : ℕ → ℕ
igb_vfrdbah x = 0x01004 + 0x40 * x

unfoldable pub igb_vfrdlen : ℕ → ℕ
igb_vfrdlen x = 0x01008 + 0x40 * x

unfoldable pub igb_vfrdh : ℕ → ℕ
igb_vfrdh x = 0x01010 + 0x40 * x

unfoldable pub igb_vfrdt : ℕ → ℕ
igb_vfrdt x = 0x01018 + 0x40 * x

unfoldable pub igb_vfrxdctl : ℕ → ℕ
igb_vfrxdctl x = 0x01028 + 0x40 * x

unfoldable pub igb_vfsrrctl : ℕ → ℕ
igb_vfsrrctl x = 0x01014 + 0x40 * x

unfoldable pub igb_vfrscctl : ℕ → ℕ
igb_vfrscctl x = 0x0102C + 0x40 * x

unfoldable pub igb_vftdbal : ℕ → ℕ
igb_vftdbal x = 0x02000 + 0x40 * x

unfoldable pub igb_vftdbah : ℕ → ℕ
igb_vftdbah x = 0x02004 + 0x40 * x

unfoldable pub igb_vftdlen : ℕ → ℕ
igb_vftdlen x = 0x02008 + 0x40 * x

unfoldable pub igb_vftdh : ℕ → ℕ
igb_vftdh x = 0x02010 + 0x40 * x

unfoldable pub igb_vftdt : ℕ → ℕ
igb_vftdt x = 0x02018 + 0x40 * x

unfoldable pub igb_vftxdctl : ℕ → ℕ
igb_vftxdctl x = 0x02028 + 0x40 * x

unfoldable pub igb_vftdwbal : ℕ → ℕ
igb_vftdwbal x = 0x02038 + 0x40 * x

unfoldable pub igb_vftdwbah : ℕ → ℕ
igb_vftdwbah x = 0x0203C + 0x40 * x

unfoldable pub igb_vfdca_rxctrl : ℕ → ℕ
igb_vfdca_rxctrl x = 0x0100C + 0x40 * x

unfoldable pub igb_vfdca_txctrl : ℕ → ℕ
igb_vfdca_txctrl x = 0x0200c + 0x40 * x

unfoldable pub igb_vfrssrk : ℕ → ℕ
igb_vfrssrk x = 0x3100 + x * 4

unfoldable pub igb_vfreta : ℕ → ℕ
igb_vfreta x = 0x3200 + x * 4
