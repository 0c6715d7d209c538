-- ===== src/Nic/Promise.antt =====
-- The trait `NicDevice` (src/lib.rs) and its implementation (src/igb.rs): how the methods work, from
-- `init` on.
use igb_driver.Memory.Store.{Store}
