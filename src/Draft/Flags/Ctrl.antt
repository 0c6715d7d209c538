-- ===== src/Draft/Flags/Ctrl.antt =====
-- doc/main/regs.rs: `CTRL`, the device control register.
-- Its flags are the constants of the `bitflags!` block; the words of a register are numbers.
use igb_driver.Prelude.{ℕ}
use igb_driver.Draft.Reg.{FlagReg}

pub data Ctrl : Type 0 where
  fd prior gio_primary_disable lrst asde slu ilos spd_sel spd_10 spd_100 spd_1000 : Ctrl
  frcspd frcdpx swdpin0 swdpin1 swdpin2 advd3wuc swdpin3 swdpin0_io dev_rst rst : Ctrl
  rfce tfce vme phy_rst i2c_ena : Ctrl

abbrev pub bits : Ctrl → ℕ
bits fd = 0x00000001
bits prior = 0x00000004
bits gio_primary_disable = 0x00000004
bits lrst = 0x00000008
bits asde = 0x00000020
bits slu = 0x00000040
bits ilos = 0x00000080
bits spd_sel = 0x00000300
bits spd_10 = 0x00000000
bits spd_100 = 0x00000100
bits spd_1000 = 0x00000200
bits frcspd = 0x00000800
bits frcdpx = 0x00001000
bits swdpin0 = 0x00040000
bits swdpin1 = 0x00080000
bits swdpin2 = 0x00100000
bits advd3wuc = 0x00100000
bits swdpin3 = 0x00200000
bits swdpin0_io = 0x00400000
bits dev_rst = 0x20000000
bits rst = 0x04000000
bits rfce = 0x08000000
bits tfce = 0x10000000
bits vme = 0x40000000
bits phy_rst = 0x80000000
bits i2c_ena = 0x02000000

abbrev pub flag_reg : FlagReg
flag_reg = record { reg = 0x00000 }
