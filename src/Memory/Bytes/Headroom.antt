-- ===== src/Memory/Bytes/Headroom.antt =====
-- The headroom of a new packet (src/memory.rs, `headroom_mut` after `alloc_pkt`).
use igb_driver.Memory.Bytes.{Bytes}
