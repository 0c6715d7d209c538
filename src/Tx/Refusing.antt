-- ===== src/Tx/Refusing.antt =====
-- What becomes of a packet that `send` of src/igb.rs refuses.
use igb_driver.Prelude.{ℕ, ◌+◌, ◌≤◌, ◌<◌, ◌≡◌, ◌∙◌, refl, none, some, ◌∷◌, length, get_elem?}
use igb_driver.Outcome.{IgbError, err, fail, invalid_queue, queue_full, ◌>>◌}
use igb_driver.Memory.{MemPool}
use igb_driver.Memory.Counts.{count}
use igb_driver.Memory.Invariant.{IsPool, free_buf_lem}
use igb_driver.Memory.Store.{IgbNetBuf, drop_packet, put_pool}
use igb_driver.Device.{Platform, IgbTxQueue, World}
use igb_driver.Tx.{send, in_store}
use igb_driver.Tx.Valid.{IsTxQueue}
use igb_driver.Tx.Send.{send-errors}

module _ (hw : Platform) (q : ℕ) (w : World) (buf : IgbNetBuf) where
  abbrev its_pool : MemPool
  its_pool = w.store.pools buf.packet.pool

  -- The buffer is on top of the free entries of its pool; the device, the other pools and the events are as
  -- before.
  abbrev pub given_back : World
  given_back = record w {
    store =
        put_pool buf.packet.pool
          (record its_pool { free_stack = buf.packet.pool_entry ∷ its_pool.free_stack }) w.store;
  }

  drop_then_fail :
      IsPool its_pool
      → buf.packet.pool_entry < its_pool.num_entries
      → count buf.packet.pool_entry its_pool.free_stack ≡ 0
      → (e : IgbError)
      → (in_store (drop_packet buf.packet) >> fail {A = Unit {0}} e) w ≡ err e given_back
  unfolding drop_packet
  drop_then_fail v inside held e =
      let freed = (free_buf_lem buf.packet.pool_entry v).2 inside held in rw freed refl

  -- `send` of a buffer whose entry is one of its valid pool's and not free, to a queue that does not exist,
  -- ends with `InvalidQueue`, and to a valid queue that is full (all descriptors but one are in use) with
  -- `QueueFull`. Either way the buffer is then on top of the free entries of its pool, and nothing else has
  -- changed: the card is told of nothing.
  pub send-given_back :
      IsPool its_pool
      → buf.packet.pool_entry < its_pool.num_entries
      → count buf.packet.pool_entry its_pool.free_stack ≡ 0
      → (get_elem? w.dev.tx_queues q ≡ none → send hw q buf w ≡ err invalid_queue given_back)
        × ((queue : IgbTxQueue)
            → get_elem? w.dev.tx_queues q ≡ some queue
            → IsTxQueue queue
            → queue.num_descriptors ≤ length queue.bufs_in_use + 1
            → send hw q buf w ≡ err queue_full given_back)
  send-given_back v inside held =
      let dropped = drop_then_fail v inside held in
      let refused = send-errors hw q w buf in
      (
        (λ missing. refused.0 missing ∙ dropped invalid_queue),
        (λ queue found valid full. refused.1 queue found valid full ∙ dropped queue_full),
      )
