-- ===== src/Draft/Flags/SwFwSync.antt =====
-- doc/main/regs.rs: `SwFwSync`, the register that software and firmware share.
-- Its flags are the constants of the `bitflags!` block; the words of a register are numbers.
use igb_driver.Prelude.{ℕ, ◌^◌}
use igb_driver.Draft.Reg.{FlagReg}

pub data SwFwSync : Type 0 where
  sw_eep_sm sw_phy_sm0 sw_phy_sm1 : SwFwSync

abbrev pub bits : SwFwSync → ℕ
bits sw_eep_sm = 1
bits sw_phy_sm0 = 2 ^ 1
bits sw_phy_sm1 = 2 ^ 2

abbrev pub flag_reg : FlagReg
flag_reg = record { reg = 0x05B5C }
