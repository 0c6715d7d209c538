-- ===== src/Draft/Flags/Rctl.antt =====
-- doc/main/regs.rs: `RCTL`, the receive control register.
-- Its flags are the constants of the `bitflags!` block; the words of a register are numbers.
use igb_driver.Prelude.{ℕ}
use igb_driver.Draft.Reg.{FlagReg}

pub data Rctl : Type 0 where
  rst rxen sbp upe mpe lpe lbm_no lbm_mac lbm_tcvr mo_3 bam sz_2048 sz_1024 sz_512 : Rctl
  sz_256 sz_16384 sz_8192 sz_4096 vfe cfien cfi psp dpf pmcf bsex secrc : Rctl

abbrev pub bits : Rctl → ℕ
bits rst = 0x00000001
bits rxen = 0x00000002
bits sbp = 0x00000004
bits upe = 0x00000008
bits mpe = 0x00000010
bits lpe = 0x00000020
bits lbm_no = 0
bits lbm_mac = 0x00000040
bits lbm_tcvr = 0x000000C0
bits mo_3 = 0x00003000
bits bam = 0x00008000
bits sz_2048 = 0x00000000
bits sz_1024 = 0x00010000
bits sz_512 = 0x00020000
bits sz_256 = 0x00030000
bits sz_16384 = 0x00010000
bits sz_8192 = 0x00020000
bits sz_4096 = 0x00030000
bits vfe = 0x00040000
bits cfien = 0x00080000
bits cfi = 0x00100000
bits psp = 0x00200000
bits dpf = 0x00400000
bits pmcf = 0x00800000
bits bsex = 0x02000000
bits secrc = 0x04000000

abbrev pub flag_reg : FlagReg
flag_reg = record { reg = 0x00100 }
