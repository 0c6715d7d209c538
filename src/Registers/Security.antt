-- ===== src/Registers/Security.antt =====
-- src/constants.rs, the register tables after `IGB_TXPBSIZE` up to `IGB_MPC`: wake-up filters, traffic
-- classes, security and flow control. The driver does not use them. An index comes from a `u16`, so that
-- no sum wraps.
use igb_driver.Prelude.{ℕ, ◌+◌, ◌*◌}

abbrev pub igb_fcreta0 : ℕ
igb_fcreta0 = 0x0ED10

unfoldable pub igb_fhft : ℕ → ℕ
igb_fhft n = 0x09000 + n * 0x100

unfoldable pub igb_fhft_ext : ℕ → ℕ
igb_fhft_ext n = 0x09800 + n * 0x100

unfoldable pub igb_fhft_ext_x550 : ℕ → ℕ
igb_fhft_ext_x550 n = 0x09600 + n * 0x100

unfoldable pub igb_rt2cr : ℕ → ℕ
igb_rt2cr i = 0x03C20 + i * 4

unfoldable pub igb_rt2sr : ℕ → ℕ
igb_rt2sr i = 0x03C40 + i * 4

unfoldable pub igb_tdtq2tccr : ℕ → ℕ
igb_tdtq2tccr i = 0x0602C + i * 0x40

unfoldable pub igb_tdtq2tcsr : ℕ → ℕ
igb_tdtq2tcsr i = 0x0622C + i * 0x40

unfoldable pub igb_tdpt2tccr : ℕ → ℕ
igb_tdpt2tccr i = 0x0CD20 + i * 4

unfoldable pub igb_tdpt2tcsr : ℕ → ℕ
igb_tdpt2tcsr i = 0x0CD40 + i * 4

unfoldable pub igb_dmcth : ℕ → ℕ
igb_dmcth i = 0x03300 + i * 4

unfoldable pub igb_lsectxkey0 : ℕ → ℕ
igb_lsectxkey0 n = 0x08A1C + 4 * n

unfoldable pub igb_lsectxkey1 : ℕ → ℕ
igb_lsectxkey1 n = 0x08A2C + 4 * n

unfoldable pub igb_lsecrxsa : ℕ → ℕ
igb_lsecrxsa i = 0x08F10 + 4 * i

unfoldable pub igb_lsecrxpn : ℕ → ℕ
igb_lsecrxpn i = 0x08F18 + 4 * i

unfoldable pub igb_lsecrxkey : ℕ → ℕ → ℕ
igb_lsecrxkey n m = 0x08F20 + (0x10 * n + 4 * m)

unfoldable pub igb_lsecrxok : ℕ → ℕ
igb_lsecrxok n = 0x08F64 + 0x04 * n

unfoldable pub igb_lsecrxinv : ℕ → ℕ
igb_lsecrxinv n = 0x08F6C + 0x04 * n

unfoldable pub igb_lsecrxnv : ℕ → ℕ
igb_lsecrxnv n = 0x08F74 + 0x04 * n

unfoldable pub igb_ipstxkey : ℕ → ℕ
igb_ipstxkey i = 0x08908 + 4 * i

unfoldable pub igb_ipsrxipaddr : ℕ → ℕ
igb_ipsrxipaddr i = 0x08E04 + 4 * i

unfoldable pub igb_ipsrxkey : ℕ → ℕ
igb_ipsrxkey i = 0x08E1C + 4 * i

unfoldable pub igb_rtrpt4c : ℕ → ℕ
igb_rtrpt4c i = 0x02140 + i * 4

unfoldable pub igb_txllq : ℕ → ℕ
igb_txllq i = 0x082E0 + i * 4

unfoldable pub igb_rtrpt4s : ℕ → ℕ
igb_rtrpt4s i = 0x02160 + i * 4

unfoldable pub igb_rttdt2c : ℕ → ℕ
igb_rttdt2c i = 0x04910 + i * 4

unfoldable pub igb_rttdt2s : ℕ → ℕ
igb_rttdt2s i = 0x04930 + i * 4

unfoldable pub igb_rttpt2c : ℕ → ℕ
igb_rttpt2c i = 0x0CD20 + i * 4

unfoldable pub igb_rttpt2s : ℕ → ℕ
igb_rttpt2s i = 0x0CD40 + i * 4

unfoldable pub igb_fcddc : ℕ → ℕ → ℕ
igb_fcddc i j = 0x20000 + i * 0x4 + j * 0x10

unfoldable pub igb_fcdfc : ℕ → ℕ → ℕ
igb_fcdfc i j = 0x28000 + i * 0x4 + j * 0x10

unfoldable pub igb_fcdfcd : ℕ → ℕ
igb_fcdfcd i = 0x30000 + i * 0x4

unfoldable pub igb_fcreta : ℕ → ℕ
igb_fcreta i = igb_fcreta0 + i * 4
