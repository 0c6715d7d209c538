-- ===== src/Draft/Flags/CtrlExt.antt =====
-- doc/main/regs.rs: `CTRL_EXT`, the extended device control register.
-- Its flags are the constants of the `bitflags!` block; the words of a register are numbers.
use igb_driver.Prelude.{ℕ, ◌^◌}
use igb_driver.Draft.Reg.{FlagReg}

pub data CtrlExt : Type 0 where
  ee_rst drv_load : CtrlExt

abbrev pub bits : CtrlExt → ℕ
bits ee_rst = 2 ^ 13
bits drv_load = 2 ^ 28

abbrev pub flag_reg : FlagReg
flag_reg = record { reg = 0x18 }
