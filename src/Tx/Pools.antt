-- ===== src/Tx/Pools.antt =====
-- Packets of two pools on one transmit queue (src/igb.rs, `send`): the assertion "Distince memory pools
-- for a single tx queue are not supported yet" follows an assignment that makes it true, so it never
-- stops the second pool.
use igb_driver.Prelude.{
  ℕ, ◌+◌, ◌*◌, ◌≤◌, ◌<◌, ◌≡◌, ◌≢◌, ◌∙◌, sym, ap, List, [], ◌∷◌, ◌++◌, some, length, length-append,
  get_elem?, get_elem?-lt, get_elem?-set_self, arith,
}
use igb_driver.Outcome.{Returns, Returns-map, Returns-bind, ◌>>◌}
use igb_driver.Memory.{MemPool, extend}
use igb_driver.Memory.Store.{IgbNetBuf}
use igb_driver.Registers.{igb_tdt}
use igb_driver.Device.{Platform, IgbTxQueue, World}
use igb_driver.Device.Access.{Mapped}
use igb_driver.Tx.{send, recycle_tx_buffers}
use igb_driver.Tx.Valid.{IsTxQueue}
use igb_driver.Tx.Send.{send-Sent, Sent}
use igb_driver.Tx.Recycle.{recycle_tx_buffers-Cleans}
use igb_driver.Tx.Progress.{AllDone, Cleans-few}

abbrev pub with_freed : List ℕ → MemPool → MemPool
with_freed released pool = record pool { free_stack = extend released pool.free_stack }

module _ (hw : Platform) (fuel q : ℕ) (w : World) (queue : IgbTxQueue) (buf : IgbNetBuf)
    (a : ℕ) where
  abbrev pub Misplaced : World → Type 0
  Misplaced w' =
      (released rest : List ℕ) × (queue.bufs_in_use ++ buf.packet.pool_entry ∷ []
        ≡ released ++ rest)
      × (w'.store.pools buf.packet.pool ≡ with_freed released (w.store.pools buf.packet.pool))
      × (w'.store.pools a ≡ w.store.pools a)
      × (32 ≤ length released)
      × (length rest < 32)

  recycle_after :
      (w' : World)
      → get_elem? w.dev.tx_queues q ≡ some queue
      → buf.packet.pool ≢ a
      → length queue.bufs_in_use + 1 < 32 * fuel
      → 31 ≤ length queue.bufs_in_use
      → AllDone hw q
      → Sent q queue buf.packet w w'
      → Returns {A = Unit {0}} (λ _ w''. Misplaced w'') (recycle_tx_buffers hw fuel q w')
  recycle_after w' found differ l many all s =
      let again : get_elem? w'.dev.tx_queues q ≡ some s.after =
        ap (λ v. get_elem? v.dev.tx_queues q) s.world
        ∙ get_elem?-set_self w.dev.tx_queues q s.after (get_elem?-lt w.dev.tx_queues q found) in
      let store : w'.store ≡ w.store = ap (λ v. v.store) s.world in
      Returns-map (recycle_tx_buffers hw fuel q w')
        (λ _ w'' (t, e, c). (
          c.released,
          t.queue.bufs_in_use,
          sym s.buffers ∙ c.split,
          ap (λ v. v.store.pools buf.packet.pool) e
              ∙ c.freed
              ∙ ap (λ v. with_freed c.released (v.pools buf.packet.pool)) store,
          ap (λ v. v.store.pools a) e
              ∙ c.others a (λ same. differ (sym same))
              ∙ ap (λ v. v.pools a) store,
          omega (
            arith,
            many,
            Cleans-few all c,
            c.whole,
            ap length s.buffers,
            ap length c.split,
            length-append c.released t.queue.bufs_in_use,
            length-append queue.bufs_in_use (buf.packet.pool_entry ∷ []),
          ),
          Cleans-few all c,
        ))
        (recycle_tx_buffers-Cleans hw fuel q buf.packet.pool w' again s.valid s.pool (
          omega (
            arith,
            ap length s.buffers,
            length-append queue.bufs_in_use (buf.packet.pool_entry ∷ []),
          )))

  -- On a valid queue with room and a mapped tail register, with at least 31 buffers in use that belong to
  -- the pool `a`, a packet of another pool is sent, and then recycling is called, with enough fuel, on a
  -- card that reports every descriptor as done. Both calls succeed, and at least the oldest 32 buffers,
  -- which are buffers of `a` but for that packet's at the end, go to the free stack of the packet's pool,
  -- until fewer than 32 are left; the pool `a` is as it was and gets none of its buffers back.
  pub send-recycle-Misplaced :
      get_elem? w.dev.tx_queues q ≡ some queue
      → IsTxQueue queue
      → queue.pool ≡ some a
      → buf.packet.pool ≢ a
      → length queue.bufs_in_use + 1 < queue.num_descriptors
      → length queue.bufs_in_use + 1 < 32 * fuel
      → 31 ≤ length queue.bufs_in_use
      → AllDone hw q
      → Mapped w (igb_tdt q)
      → Returns {A = Unit {0}}
          (λ _ w'. Misplaced w')
          ((send hw q buf >> recycle_tx_buffers hw fuel q) w)
  send-recycle-Misplaced found v p differ room l many all m =
      Returns-bind {A = Unit {0}} {B = Unit {0}} (λ _ w'. Misplaced w') (send hw q buf w)
        (λ _. recycle_tx_buffers hw fuel q) (send-Sent hw q w buf found v room m)
        (λ _ w' s. recycle_after w' found differ l many all s)
