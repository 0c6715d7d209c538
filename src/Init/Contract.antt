-- ===== src/Init/Contract.antt =====
-- What bringing the card up (src/igb.rs, `init`) needs of the card, and what it makes of the device.
use igb_driver.Prelude.{ℕ, ◌+◌, ◌*◌, ◌^◌, ◌<◌, ◌≡◌, ◌≢◌, [], some, length, get_elem?}
use igb_driver.Memory.Counts.{count}
use igb_driver.Memory.Invariant.{IsPool}
use igb_driver.Memory.Store.{Store}
use igb_driver.Registers.{
  igb_ctrl, igb_ctrl_ext, igb_ctrl_global_rst, igb_mdic, igb_rxdctl, igb_rxdctl_enable, igb_txdctl,
  igb_txdctl_enable,
}
use igb_driver.Device.{Platform, IgbRxQueue, IgbTxQueue, World}
use igb_driver.Device.Triples.{IsMapped, SetsWithin, ClearsWithin}
use igb_driver.Rx.Valid.{IsRxQueue, IsAimed}
use igb_driver.Tx.Valid.{IsTxQueue}
use igb_driver.Link.{op_read, op_write, ready}
use igb_driver.Init.Sharing.{held_by}

-- The card answers what the driver writes before the fuel is used up: a reset ends, the flags that
-- enable a queue, and the one of the extended control register, are found set once they were written, and
-- a management command, to read or to write, becomes ready.
pub record IsAnswering (hw : Platform) (fuel num_rx num_tx : ℕ) : Type 0 where
  pub resets : ClearsWithin hw fuel igb_ctrl igb_ctrl_global_rst igb_ctrl_global_rst
  pub loads : SetsWithin hw fuel igb_ctrl_ext (2 ^ 28) (2 ^ 28)
  pub reads : SetsWithin hw fuel igb_mdic op_read ready
  pub writes : SetsWithin hw fuel igb_mdic op_write ready
  pub receives :
      (q : ℕ) → q < num_rx → SetsWithin hw fuel (igb_rxdctl q) igb_rxdctl_enable igb_rxdctl_enable
  pub sends :
      (q : ℕ) → q < num_tx → SetsWithin hw fuel (igb_txdctl q) igb_txdctl_enable igb_txdctl_enable

-- The device after `init`: its receive queues and its pool satisfy the invariants together, each receive
-- descriptor has the address of its buffer, and its send queues are empty.
pub record IsRunning (qs arc num_rx num_tx : ℕ) (start : Store) (w : World) : Type 0 where
  pub mapped : IsMapped w.dev
  pub rx_number : length w.dev.rx_queues ≡ num_rx
  pub receives :
      (i : ℕ)
      → i < num_rx
      → (queue : IgbRxQueue) × (get_elem? w.dev.rx_queues i ≡ some queue)
        × (queue.pool ≡ arc)
        × IsRxQueue queue (w.store.pools arc)
        × IsAimed (start.pools arc).phys_addr queue
  pub same_addresses : (w.store.pools arc).phys_addr ≡ (start.pools arc).phys_addr
  pub tx_number : length w.dev.tx_queues ≡ num_tx
  pub sends :
      (i : ℕ)
      → i < num_tx
      → (queue : IgbTxQueue) × (get_elem? w.dev.tx_queues i ≡ some queue)
        × (queue.bufs_in_use ≡ [])
        × IsTxQueue queue
  pub pool : IsPool (w.store.pools arc)
  pub size : (w.store.pools arc).num_entries ≡ (start.pools arc).num_entries
  pub room :
      length (w.store.pools arc).free_stack + num_rx * qs ≡ length (start.pools arc).free_stack
  pub conserved :
      (a : ℕ)
      → count a (w.store.pools arc).free_stack + held_by a w.dev.rx_queues
        ≡ count a (start.pools arc).free_stack
  pub others : (b : ℕ) → b ≢ arc → w.store.pools b ≡ start.pools b
