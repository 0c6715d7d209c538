-- ===== src/Draft/Flags.antt =====
-- doc/main/regs.rs: the registers that the draft names, with their flags.
pub mod Ctrl
pub mod Status
pub mod CtrlExt
pub mod Rctl
pub mod Tctl
pub mod Mdic
pub mod Swsm
pub mod SwFwSync
