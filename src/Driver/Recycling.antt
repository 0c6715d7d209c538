-- ===== src/Driver/Recycling.antt =====
-- Recycling (src/igb.rs) keeps the whole driver in order.
use igb_driver.Prelude.{
  ℕ, zero, suc, ◌*◌, ◌<◌, ◌≡◌, ◌∙◌, ◌⊎◌, inl, inr, refl, ap, Option-cases, some, none, [], length,
  get_elem?, arith,
}
use igb_driver.Outcome.{ok, err, invalid_queue, Ends, Returns-ok}
use igb_driver.Memory.{MemPool}
use igb_driver.Memory.Counts.{count, count-append, count-extend}
use igb_driver.Device.{Platform, IgbTxQueue, World}
use igb_driver.Tx.{recycle_tx_buffers}
use igb_driver.Tx.Valid.{IsTxQueue}
use igb_driver.Tx.Recycle.{recycle_tx_buffers-Cleans, recycle_tx_buffers-few}
use igb_driver.Driver.{Working, IsWorking}
use igb_driver.Driver.Lines.{moved-IsWorking}

module _ {arc : ℕ} {start : MemPool} {s : Working} (v : IsWorking arc start s) where
  module _ (hw : Platform) (q : ℕ) where
    cleaned-IsWorking :
        (fuel : ℕ) (w : World) (queue : IgbTxQueue)
        → get_elem? s.world.dev.tx_queues q ≡ some queue
        → IsTxQueue queue
        → queue.pool ≡ some arc
        → length queue.bufs_in_use < 32 * fuel
        → recycle_tx_buffers hw fuel q s.world ≡ ok tt w
        → IsWorking arc start (record { world = w; clients = s.clients })
    cleaned-IsWorking fuel w queue found valid pool enough e =
        let (t, world, c) =
          rw e at (recycle_tx_buffers-Cleans hw fuel q arc s.world found valid pool enough) in
        let after : IgbTxQueue = record t.queue { clean_index = t.clean_index } in
        let freed = ap (λ (x : World). x.store.pools arc) world ∙ c.freed in
        moved-IsWorking v q queue after w s.clients found (ap (λ (x : World). x.dev) world)
          (record { valid = c.valid; pool = inr (c.pool_kept ∙ pool) })
          (ap (λ (p : MemPool). p.num_entries) freed) (ap (λ (p : MemPool). p.phys_addr) freed)
          (λ a. omega (
            arith,
            ap (λ (p : MemPool). count a p.free_stack) freed,
            count-extend a c.released (s.world.store.pools arc).free_stack,
            ap (count a) c.split,
            count-append a c.released t.queue.bufs_in_use,
          ))

    pub recycle_tx_buffers-missing :
        (fuel : ℕ) (w : World)
        → get_elem? w.dev.tx_queues q ≡ none
        → recycle_tx_buffers hw fuel q w ≡ err invalid_queue w
    unfolding recycle_tx_buffers
    recycle_tx_buffers-missing fuel w missing = rw (missing, recycle_tx_buffers) refl

    -- Recycling keeps the driver in order.
    pub recycles-IsWorking :
        (fuel : ℕ) (w : World)
        → ((queue : IgbTxQueue)
            → get_elem? s.world.dev.tx_queues q ≡ some queue
            → length queue.bufs_in_use < 32 * fuel)
        → recycle_tx_buffers hw fuel q s.world ≡ ok tt w
        → IsWorking arc start (record { world = w; clients = s.clients })
    recycles-IsWorking fuel w enough e = elim (Option-cases (get_elem? s.world.dev.tx_queues q)) [
      | inl missing ↦ let refused = recycle_tx_buffers-missing fuel s.world missing in absurd cc
      | inr (queue, found) ↦
          let line = v.lines q queue found in
          elim line.pool [
            | inl idle ↦ unchanged fuel queue found line.valid idle (enough queue found) e
            | inr pool ↦ cleaned-IsWorking fuel w queue found line.valid pool (enough queue found) e
          ]
    ]
      where
        unchanged :
            (fuel : ℕ) (queue : IgbTxQueue)
            → get_elem? s.world.dev.tx_queues q ≡ some queue
            → IsTxQueue queue
            → queue.bufs_in_use ≡ []
            → length queue.bufs_in_use < 32 * fuel
            → recycle_tx_buffers hw fuel q s.world ≡ ok tt w
            → IsWorking arc start (record { world = w; clients = s.clients })
        unchanged zero queue found valid idle l e = absurd (omega (arith, l))
        unchanged (suc fuel) queue found valid idle l e =
            let same =
              recycle_tx_buffers-few hw fuel q s.world found valid
                (omega (arith, ap length idle)) in
            let is_world : s.world ≡ w = cc in rw (← is_world) v

    -- A call with enough fuel succeeds on every queue that exists.
    pub recycle_tx_buffers-cases :
        (fuel : ℕ)
        → ((queue : IgbTxQueue)
            → get_elem? s.world.dev.tx_queues q ≡ some queue
            → length queue.bufs_in_use < 32 * fuel)
        → (recycle_tx_buffers hw fuel q s.world ≡ err invalid_queue s.world)
          ⊎ ((w : World) × (recycle_tx_buffers hw fuel q s.world ≡ ok tt w))
    recycle_tx_buffers-cases fuel enough = elim (Option-cases (get_elem? s.world.dev.tx_queues q)) [
      | inl missing ↦ inl (recycle_tx_buffers-missing fuel s.world missing)
      | inr (queue, found) ↦
          let line = v.lines q queue found in
          elim line.pool [
            | inl idle ↦ inr (few fuel queue found line.valid idle (enough queue found))
            | inr pool ↦
                let (_, w, e, _) = Returns-ok _ (
                  recycle_tx_buffers-Cleans hw fuel q arc s.world found line.valid pool
                    (enough queue found)) in
                inr (w, e)
          ]
    ]
      where
        few :
            (fuel : ℕ) (queue : IgbTxQueue)
            → get_elem? s.world.dev.tx_queues q ≡ some queue
            → IsTxQueue queue
            → queue.bufs_in_use ≡ []
            → length queue.bufs_in_use < 32 * fuel
            → (w : World) × (recycle_tx_buffers hw fuel q s.world ≡ ok tt w)
        few zero queue found valid idle l = absurd (omega (arith, l))
        few (suc fuel) queue found valid idle l =
            let e =
              recycle_tx_buffers-few hw fuel q s.world found valid
                (omega (arith, ap length idle)) in
            (_, e)

    -- A call with enough fuel comes back.
    pub recycle_tx_buffers-Ends :
        (fuel : ℕ)
        → ((queue : IgbTxQueue)
            → get_elem? s.world.dev.tx_queues q ≡ some queue
            → length queue.bufs_in_use < 32 * fuel)
        → Ends (recycle_tx_buffers hw fuel q s.world)
    recycle_tx_buffers-Ends fuel enough = elim (recycle_tx_buffers-cases fuel enough) [
      | inl e ↦ rw e tt
      | inr (w, e) ↦ rw e tt
    ]
