-- ===== src/Draft/Flags/Mdic.antt =====
-- doc/main/regs.rs: `MDIC`, the register through which the PHY is read and written.
-- Its flags are the constants of the `bitflags!` block; the words of a register are numbers.
use igb_driver.Prelude.{ℕ, ◌^◌, ◌*◌}
use igb_driver.Draft.Reg.{FlagReg}

pub data Mdic : Type 0 where
  data_bits regadd phyadd op_write op_read ready i_flag e_flag destination : Mdic

abbrev pub bits : Mdic → ℕ
bits data_bits = 0xFFFF
bits regadd = 31 * 2 ^ 16
bits phyadd = 31 * 2 ^ 21
bits op_write = 0x04000000
bits op_read = 0x08000000
bits ready = 2 ^ 28
bits i_flag = 2 ^ 29
bits e_flag = 2 ^ 30
bits destination = 2 ^ 31

abbrev pub flag_reg : FlagReg
flag_reg = record { reg = 0x00020 }
