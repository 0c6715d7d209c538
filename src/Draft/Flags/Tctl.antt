-- ===== src/Draft/Flags/Tctl.antt =====
-- doc/main/regs.rs: `TCTL`, the transmit control register.
-- Its flags are the constants of the `bitflags!` block; the words of a register are numbers.
use igb_driver.Prelude.{ℕ}
use igb_driver.Draft.Reg.{FlagReg}

pub data Tctl : Type 0 where
  en : Tctl

abbrev pub bits : Tctl → ℕ
bits en = 0x00000002

abbrev pub flag_reg : FlagReg
flag_reg = record { reg = 0x00400 }
