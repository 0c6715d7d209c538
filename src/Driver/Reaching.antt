-- ===== src/Driver/Reaching.antt =====
-- The whole driver (src/igb.rs, src/memory.rs) after any sequence of calls, from `init` on.
use igb_driver.Prelude.{
  ℕ, suc, ◌≤◌, ◌≡◌, inl, refl, ap, List, [], ◌∷◌, some, get_elem?, get_elem?-lt, arith,
}
use igb_driver.Memory.{MemPool}
use igb_driver.Memory.Counts.{count}
use igb_driver.Memory.Invariant.{IsPool}
use igb_driver.Memory.Store.{Store}
use igb_driver.Device.{Platform, IgbTxQueue, World}
use igb_driver.Tx.Valid.{IsTxQueue}
use igb_driver.Rx.Round.{HasWholeFrames}
use igb_driver.Init.Contract.{IsRunning}
use igb_driver.Driver.{
  Working, Step, Reach, receives, receives_nothing, allocates, allocates_nothing, drops, sends,
  sends_nothing, recycles, here, next, sent_by, IsWorking,
}
use igb_driver.Driver.Receiving.{receives-IsWorking, receives_nothing-IsWorking}
use igb_driver.Driver.Sending.{sends-IsWorking, sends_nothing-IsWorking}
use igb_driver.Driver.Recycling.{recycles-IsWorking}
use igb_driver.Driver.Holding.{drops-IsWorking, allocates-IsWorking, allocates_nothing-IsWorking}

module _ (hw : Platform) (whole : HasWholeFrames hw) {arc : ℕ} {start : MemPool}
    (valid : IsPool start) where
  Step-IsWorking : {s t : Working} → Step hw arc s t → IsWorking arc start s → IsWorking arc start t
  Step-IsWorking (receives kept f q limit n bufs w closure e) v =
      receives-IsWorking valid v hw whole kept f closure q limit n bufs w e
  Step-IsWorking (receives_nothing kept f q limit er w closure e) v =
      receives_nothing-IsWorking valid v hw whole kept f closure q limit er w e
  Step-IsWorking (allocates size buf store e) v = allocates-IsWorking valid v size buf store e
  Step-IsWorking (allocates_nothing size er store e) v =
      allocates_nothing-IsWorking valid v size er store e
  Step-IsWorking (drops buf before after store at_arc holds e) v =
      drops-IsWorking valid v buf.packet before after at_arc holds store e
  Step-IsWorking (sends q buf before after w at_arc holds e) v =
      sends-IsWorking v hw q buf before after w at_arc holds e
  Step-IsWorking (sends_nothing q buf before after er w at_arc holds e) v =
      sends_nothing-IsWorking v hw q valid buf before after er w at_arc holds e
  Step-IsWorking (recycles q fuel w enough e) v = recycles-IsWorking v hw q fuel w enough e

  -- Whatever sequence of calls receives packets, drops or sends the buffers that clients hold, and recycles
  -- the sent ones, on queues on the pool `arc`: the driver stays in order. In particular every entry of the
  -- pool that was free at the start stays accounted for, once: it is free, the buffer of a receive
  -- descriptor, being sent, or held by a client. A descriptor that is done ends its frame.
  pub Reach-IsWorking :
      {s t : Working} → Reach hw arc s t → IsWorking arc start s → IsWorking arc start t
  Reach-IsWorking here v = v
  Reach-IsWorking (next r step) v = Step-IsWorking step (Reach-IsWorking r v)

sent_by-idle :
    (a : ℕ) (queues : List IgbTxQueue)
    → ((i : ℕ) (queue : IgbTxQueue) → get_elem? queues i ≡ some queue → queue.bufs_in_use ≡ [])
    → sent_by a queues ≡ 0
unfolding sent_by count
sent_by-idle a [] idle = refl
sent_by-idle a (queue ∷ queues) idle =
    omega (arith, ap (count a) (idle 0 queue refl), sent_by-idle a queues (λ i. idle (suc i)))

-- A driver that `init` brought up is in order, with no buffer held by a client.
pub IsRunning-IsWorking :
    (qs arc num_rx num_tx : ℕ) (start : Store) (w : World)
    → num_rx ≤ 64
    → num_tx ≤ 64
    → IsRunning qs arc num_rx num_tx start w
    → IsWorking arc (start.pools arc) (record { world = w; clients = [] })
unfolding count
IsRunning-IsWorking qs arc num_rx num_tx start w few_rx few_tx v = record {
  mapped = v.mapped;
  few_rx = omega (arith, v.rx_number, few_rx);
  few_tx = omega (arith, v.tx_number, few_tx);
  rings = λ i queue found.
      let (full, there, pool, ring, _) =
        v.receives i (omega (arith, v.rx_number, get_elem?-lt w.dev.rx_queues i found)) in
      let same : full ≡ queue = cc in
      rw (← same) (record {
        pool = pool;
        power = ring.power;
        small = ring.small;
        slots = ring.slots;
        held = ring.held;
        rx_in = ring.rx_in;
      });
  lines = λ i queue found.
      let (line, same, idle, fine) = sent i queue found in
      rw (← same) (record { valid = fine; pool = inl idle });
  size = v.size;
  addresses = v.pool.addresses;
  conserved = λ a. omega (
    arith,
    v.conserved a,
    sent_by-idle a w.dev.tx_queues
        (λ i queue found. let (line, same, idle, _) = sent i queue found in rw (← same) idle),
  );
}
  where
    sent :
        (i : ℕ) (queue : IgbTxQueue)
        → get_elem? w.dev.tx_queues i ≡ some queue
        → (line : IgbTxQueue) × (line ≡ queue) × (line.bufs_in_use ≡ []) × IsTxQueue line
    sent i queue found =
        let (line, there, idle, fine) =
          v.sends i (omega (arith, v.tx_number, get_elem?-lt w.dev.tx_queues i found)) in
        (line, cc, idle, fine)
