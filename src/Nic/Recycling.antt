-- ===== src/Nic/Recycling.antt =====
-- `recycle_tx_buffers` of the device (src/igb.rs), as the trait `NicDevice` describes it: which buffers of a
-- send queue are freed.
use igb_driver.Prelude.{
  ℕ, suc, ◌*◌, ◌<◌, ◌≡◌, ◌∙◌, ◌⊎◌, inl, inr, refl, sym, ap, Option, Option-cases, some, none, List,
  [], ◌++◌, length, get_elem?, get_elem?-lt, get_elem?-set_self, arith,
}
use igb_driver.Outcome.{err, invalid_queue, Returns, Returns-ok}
use igb_driver.Memory.{MemPool, extend}
use igb_driver.Device.{Platform, IgbTxQueue, World}
use igb_driver.Tx.{Cleaning, cleaning, cleaned, recycle_tx_buffers}
use igb_driver.Tx.Recycle.{Cleans, recycle_tx_buffers-Cleans, recycle_tx_buffers-few}
use igb_driver.Tx.Progress.{AllDone, Cleans-few}
use igb_driver.Driver.{Working, IsWorking}
use igb_driver.Driver.Recycling.{recycles-IsWorking, recycle_tx_buffers-missing}

abbrev bufs_of : Option IgbTxQueue → List ℕ
bufs_of none = []
bufs_of (some queue) = queue.bufs_in_use

-- The buffers of the packets that are given to a send queue, and the free entries of the pool.
abbrev pub in_use : ℕ → World → List ℕ
in_use q w = bufs_of (get_elem? w.dev.tx_queues q)

abbrev pub free : ℕ → World → List ℕ
free arc w = (w.store.pools arc).free_stack

-- Buffers of the queue, the oldest, are free, and fewer than 32 stay if the card has sent everything.
abbrev pub Frees : Platform → ℕ → ℕ → World → World → Type 0
Frees hw arc q w t =
    (released : List ℕ) × (in_use q w ≡ released ++ in_use q t)
    × (free arc t ≡ extend released (free arc w))
    × (AllDone hw q → length (in_use q t) < 32)

module _ {arc : ℕ} {start : MemPool} {s : Working} (v : IsWorking arc start s) (hw : Platform)
    (q fuel : ℕ)
    (enough : (queue : IgbTxQueue)
      → get_elem? s.world.dev.tx_queues q ≡ some queue
      → length queue.bufs_in_use < 32 * suc fuel) where
  abbrev Recycles : Type 0
  Recycles =
      Returns {A = Unit {0}}
        (λ _ t.
          IsWorking arc start (record { world = t; clients = s.clients })
          × Frees hw arc q s.world t)
        (recycle_tx_buffers hw (suc fuel) q s.world)

  idle-Recycles :
      (queue : IgbTxQueue)
      → get_elem? s.world.dev.tx_queues q ≡ some queue
      → queue.bufs_in_use ≡ []
      → Recycles
  unfolding extend
  idle-Recycles queue found idle =
      let empty : in_use q s.world ≡ [] = rw found idle in
      let small : length queue.bufs_in_use < 32 = omega (arith, ap length idle) in
      rw (recycle_tx_buffers-few hw fuel q s.world found (v.lines q queue found).valid small)
        (v, ([], refl, refl, (λ all. omega (arith, ap length empty))))

  pool-Recycles :
      (queue : IgbTxQueue)
      → get_elem? s.world.dev.tx_queues q ≡ some queue
      → queue.pool ≡ some arc
      → Recycles
  pool-Recycles queue found pool =
      let line = v.lines q queue found in
      let (_, w', e, (t, world, c)) =
        Returns-ok
          {P = λ _ w'.
            (t : Cleaning) × (w' ≡ cleaned q t s.world)
            × Cleans hw q arc (cleaning queue s.world) t}
          (recycle_tx_buffers hw (suc fuel) q s.world)
          (recycle_tx_buffers-Cleans hw (suc fuel) q arc s.world found line.valid pool
            (enough queue found)) in
      let before : in_use q s.world ≡ queue.bufs_in_use = rw found refl in
      let after : in_use q w' ≡ t.queue.bufs_in_use =
        ap (in_use q) world
        ∙ ap bufs_of (
            get_elem?-set_self s.world.dev.tx_queues q _
              (get_elem?-lt s.world.dev.tx_queues q found)) in
      let freed = ap (λ (x : World). x.store.pools arc) world ∙ c.freed in
      rw e (
        recycles-IsWorking v hw q (suc fuel) w' enough e,
        (
          c.released,
          before ∙ c.split ∙ ap (λ xs. c.released ++ xs) (sym after),
          ap (λ (p : MemPool). p.free_stack) freed,
          (λ all. omega (arith, Cleans-few all c, ap length after)),
        ),
      )

  -- With enough fuel, a queue that exists is recycled.
  pub recycle_tx_buffers-Recycles :
      (recycle_tx_buffers hw (suc fuel) q s.world ≡ err invalid_queue s.world) ⊎ Recycles
  recycle_tx_buffers-Recycles = elim (Option-cases (get_elem? s.world.dev.tx_queues q)) [
    | inl missing ↦ inl (recycle_tx_buffers-missing v hw q (suc fuel) s.world missing)
    | inr (queue, found) ↦ elim (v.lines q queue found).pool [
      | inl idle ↦ inr (idle-Recycles queue found idle)
      | inr pool ↦ inr (pool-Recycles queue found pool)
    ]
  ]
