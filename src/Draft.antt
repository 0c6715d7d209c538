-- ===== src/Draft.antt =====
-- doc/main: the draft of another driver for the card, in the repository's documents.
pub mod Err
pub mod Reg
pub mod Flags
pub mod Semaphore
pub mod Synced
pub mod Phy
pub mod Ring
pub mod Igb
pub mod Waiting
pub mod PowerUp
pub mod Storing
pub mod Holding
pub mod Opening
pub mod Descriptor
pub mod Bak
pub mod Agreement
