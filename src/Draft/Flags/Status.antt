-- ===== src/Draft/Flags/Status.antt =====
-- doc/main/regs.rs: `STATUS`, the device status register.
-- Its flags are the constants of the `bitflags!` block; the words of a register are numbers.
use igb_driver.Prelude.{ℕ, ◌^◌}
use igb_driver.Draft.Reg.{FlagReg}

pub data Status : Type 0 where
  fd lu lan_id txoff speed phyra : Status

abbrev pub bits : Status → ℕ
bits fd = 0x00000001
bits lu = 2 ^ 1
bits lan_id = 2 ^ 2
bits txoff = 2 ^ 4
bits speed = 2 ^ 6
bits phyra = 2 ^ 10

abbrev pub flag_reg : FlagReg
flag_reg = record { reg = 0x00008 }
