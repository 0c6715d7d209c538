-- ===== src/Descriptor.antt =====
-- src/descriptor.rs: the advanced receive and transmit descriptors of the rings. `Rx` and `Tx` hold
-- the two structures with their methods, `Rx/Fields` and `Tx/Fields` what the fields come to.
pub mod Rx
pub mod Tx
