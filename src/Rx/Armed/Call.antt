-- ===== src/Rx/Armed/Call.antt =====
-- A whole call of `receive_packets` (src/igb.rs) and the addresses in the descriptors.
use igb_driver.Prelude.{ℕ, ◌≡◌, List, some, get_elem?}
use igb_driver.Outcome.{Outcome}
use igb_driver.Memory.Store.{Store}
use igb_driver.Device.{Platform, IgbRxQueue, World}
use igb_driver.Rx.Armed.{IsArmed}

-- The queue is armed afterwards.
abbrev pub LeavesArmed : Platform → ℕ → List ℕ → World → Type 0
LeavesArmed hw q addresses w' =
    (after : IgbRxQueue) × (get_elem? w'.dev.rx_queues q ≡ some after) × IsArmed hw addresses after
