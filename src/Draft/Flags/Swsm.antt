-- ===== src/Draft/Flags/Swsm.antt =====
-- doc/main/regs.rs: `SWSM`, the software semaphore register.
-- Its flags are the constants of the `bitflags!` block; the words of a register are numbers.
use igb_driver.Prelude.{ℕ, ◌^◌}
use igb_driver.Draft.Reg.{FlagReg}

pub data Swsm : Type 0 where
  smbi swesmbi wmng eeur : Swsm

abbrev pub bits : Swsm → ℕ
bits smbi = 1
bits swesmbi = 2 ^ 1
bits wmng = 2 ^ 2
bits eeur = 2 ^ 3

abbrev pub flag_reg : FlagReg
flag_reg = record { reg = 0x05B50 }
