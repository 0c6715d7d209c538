-- ===== src/Init/Start.antt =====
-- What `start_rx_queue` of src/igb.rs makes of a fresh queue.
use igb_driver.Prelude.{
  ℕ, ◌+◌, ◌^◌, ◌≤◌, ◌<◌, ◌≡◌, ◌≢◌, Bool-cases, inl, inr, refl, sym, ap, true, [], some, false,
  length, get_elem?, get_elem?-lt, get_elem?-set_self, ◌==◌, ==_iff, arith,
}
use igb_driver.Outcome.{Outcome, ok, err, panic, hang, Returns, no_memory, queue_not_aligned}
use igb_driver.Word.{usize_mod}
use igb_driver.Ring.{is_ring_size}
use igb_driver.Ring.PowerOfTwo.{IsPowerOfTwo, is_ring_size_iff}
use igb_driver.Memory.Counts.{count}
use igb_driver.Memory.Invariant.{IsPool}
use igb_driver.Device.{Platform, IgbRxQueue, World}
use igb_driver.Rx.Valid.{IsRxQueue}
use igb_driver.Init.{Filling, fill, filled, start_rx_queue, enable_rx_queue}
use igb_driver.Init.Fill.{IsFilling, Filled, fill-Filled, fill-no_memory}

abbrev pub fresh : IgbRxQueue → World → Filling
fresh queue w = record { queue = queue; pool = w.store.pools queue.pool }

-- A queue without buffers yet, with its pool.
pub record IsFresh (queue : IgbRxQueue) (w : World) : Type 0 where
  pub power : IsPowerOfTwo queue.num_descriptors
  pub small : queue.num_descriptors < 2 ^ 31
  pub slots : length queue.descriptors ≡ queue.num_descriptors
  pub bufs : queue.bufs_in_use ≡ []
  pub first : queue.rx_index ≡ 0
  pub pool : IsPool (w.store.pools queue.pool)

pub fresh-IsFilling :
    {queue : IgbRxQueue} {w : World}
    → IsFresh queue w
    → IsFilling queue.num_descriptors 0 (fresh queue w)
unfolding count
fresh-IsFilling v = record {
  power = v.power;
  small = v.small;
  slots = v.slots;
  held = ap length v.bufs;
  left = omega arith;
  first = v.first;
  addresses = v.pool.addresses;
  in_range = λ a h. omega (arith, v.pool.in_range a h, ap (count a) v.bufs);
  once = λ a. omega (arith, v.pool.free_once a, ap (count a) v.bufs);
  aimed = record {
    at = λ i b d e h. let none_there = ap (λ bs. get_elem? bs i) v.bufs in absurd cc;
  };
}

-- The call fills the ring, puts the queue and the pool back and goes on to tell the card.
pub start_rx_queue-Filled :
    (hw : Platform) (fuel q : ℕ) (w : World) {queue : IgbRxQueue}
    → get_elem? w.dev.rx_queues q ≡ some queue
    → IsFresh queue w
    → queue.num_descriptors ≤ length (w.store.pools queue.pool).free_stack
    → (t : Filling) × (start_rx_queue hw fuel q w
        ≡ enable_rx_queue hw fuel q queue.num_descriptors (filled q w t))
      × Filled queue.num_descriptors (fresh queue w) t
unfolding start_rx_queue
start_rx_queue-Filled hw fuel q w {queue} found v enough =
    started (fill queue.num_descriptors 0 (fresh queue w)) refl
      (fill-Filled queue.num_descriptors 0 (fresh queue w) (fresh-IsFilling v) enough)
  where
    started :
        (r : Outcome Filling (Unit {0}))
        → fill queue.num_descriptors 0 (fresh queue w) ≡ r
        → Returns (λ _ t. Filled queue.num_descriptors (fresh queue w) t) r
        → (t : Filling) × (start_rx_queue hw fuel q w
            ≡ enable_rx_queue hw fuel q queue.num_descriptors (filled q w t))
          × Filled queue.num_descriptors (fresh queue w) t
    started (ok _ t) e f =
        let accepted =
          (is_ring_size_iff queue.num_descriptors (omega (arith, v.small))).1 (inr v.power) in
        (t, rw (found, start_rx_queue, accepted, e) refl, f)
    started (err x t) e f = absurd f
    started panic e f = absurd f
    started hang e f = absurd f

-- Starting a fresh receive queue on a valid pool with as many free entries as the queue has descriptors
-- puts one buffer of the pool into each descriptor: `start_rx_queue` goes on to enable the queue in a
-- world where the invariant of receive queues holds, and the free entries and the buffers are together
-- the entries that were free.
pub start_rx_queue-IsRxQueue :
    (hw : Platform) (fuel q : ℕ) (w : World) {queue : IgbRxQueue}
    → get_elem? w.dev.rx_queues q ≡ some queue
    → IsFresh queue w
    → queue.num_descriptors ≤ length (w.store.pools queue.pool).free_stack
    → (t : Filling) × (start_rx_queue hw fuel q w
        ≡ enable_rx_queue hw fuel q queue.num_descriptors (filled q w t))
      × (get_elem? (filled q w t).dev.rx_queues q ≡ some t.queue)
      × IsRxQueue t.queue ((filled q w t).store.pools queue.pool)
      × ((a : ℕ)
          → count a ((filled q w t).store.pools queue.pool).free_stack + count a t.queue.bufs_in_use
            ≡ count a (w.store.pools queue.pool).free_stack)
unfolding count
start_rx_queue-IsRxQueue hw fuel q w {queue} found v enough =
    let (t, e, f) = start_rx_queue-Filled hw fuel q w found v enough in
    let same : (queue.pool == t.queue.pool) ≡ true = (==_iff _ _).1 (sym f.same_pool) in
    (
      t,
      e,
      get_elem?-set_self w.dev.rx_queues q t.queue (get_elem?-lt w.dev.rx_queues q found),
      rw same f.valid,
      (λ a. rw same (omega (arith, f.conserved a, ap (count a) v.bufs))),
    )

-- Starting a queue whose number of descriptors, a machine word, is neither 0 nor a power of two is refused
-- as not aligned, with the world as before: no buffer is taken. A queue of a power of two below 2^31 that
-- has no buffers yet, with its index at 0, on a valid pool with fewer free entries than descriptors, ends
-- with `NoMemory`: then the pool has no free entry left, and the entries that were free are the buffers of
-- the queue, each as often as before.
pub start_rx_queue-errors :
    (hw : Platform) (fuel q : ℕ) (w : World)
    → ((queue : IgbRxQueue)
        → get_elem? w.dev.rx_queues q ≡ some queue
        → queue.num_descriptors < usize_mod
        → queue.num_descriptors ≢ 0
        → ¬ IsPowerOfTwo queue.num_descriptors
        → start_rx_queue hw fuel q w ≡ err queue_not_aligned w)
      × ((queue : IgbRxQueue)
          → get_elem? w.dev.rx_queues q ≡ some queue
          → IsFresh queue w
          → length (w.store.pools queue.pool).free_stack < queue.num_descriptors
          → (t : Filling) × (start_rx_queue hw fuel q w ≡ err no_memory (filled q w t))
            × (t.queue.pool ≡ queue.pool)
            × (t.pool.free_stack ≡ [])
            × ((a : ℕ)
                → count a t.queue.bufs_in_use ≡ count a (w.store.pools queue.pool).free_stack))
unfolding start_rx_queue count
start_rx_queue-errors hw fuel q w = (
  (λ queue found small some_slots odd.
      let refused : is_ring_size queue.num_descriptors ≡ false =
        elim (Bool-cases (is_ring_size queue.num_descriptors)) [
          | inl e ↦ elim ((is_ring_size_iff queue.num_descriptors small).0 e) [
            | inl none_there ↦ absurd (some_slots none_there)
            | inr power ↦ absurd (odd power)
          ]
          | inr e ↦ e
        ] in
      rw (found, start_rx_queue, refused) refl),
  (λ queue found v few.
      let accepted =
        (is_ring_size_iff queue.num_descriptors (omega (arith, v.small))).1 (inr v.power) in
      let (t, e, same, empty, all) =
        fill-no_memory queue.num_descriptors 0 (fresh queue w) (fresh-IsFilling v) few in
      (
        t,
        rw (found, start_rx_queue, accepted, e) refl,
        same,
        empty,
        (λ a. omega (arith, all a, ap (count a) v.bufs)),
      )),
)
