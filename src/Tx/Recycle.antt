-- ===== src/Tx/Recycle.antt =====
-- `recycle_tx_buffers` of src/igb.rs: which buffers go back to the pool, and in what order.
use mathlib.Core.List.{append_assoc}
use igb_driver.Prelude.{
  ℕ, zero, suc, ◌∷◌, ◌*◌, ◌≤◌, ◌<◌, ◌≡◌, ◌≢◌, ◌⊎◌, ◌∙◌, refl, sym, ap, true, false, Bool, List, [],
  ◌++◌, some, length, length-append, length-drop, take-append-drop, get_elem?, get_elem?-set_self,
  set-get_elem?, take, ltb, arith, ==_ne, ==_refl, lt→ltb, inl, inr,
}
use igb_driver.Outcome.{Outcome, ok, err, panic, hang, Returns, Returns-map, then_run}
use igb_driver.Descriptor.Tx.{AdvancedTxDescriptor}
use igb_driver.Memory.{extend}
use igb_driver.Device.{Platform, Event, read_tx, IgbTxQueue, World}
use igb_driver.Tx.{
  Cleaning, cleanable, seen, clean_one, clean_loop, recycle_tx_buffers, cleaning, cleaned,
}
use igb_driver.Tx.Valid.{IsTxQueue}
use igb_driver.Tx.Batches.{
  extend-append, length-take, view, batch_end, after_batch, batch_end-lt, seen-IsTxQueue,
  after_batch-IsTxQueue, IsDone, Reported, no_batch, batch_done, Round, few, unsent, batch,
  clean_one-Round,
}

-- What the loop, started at `s`, has done to the queue and to the pool `arc` when it stops at `t`:
-- the oldest buffers in use went onto the free stack of the pool, 32 at a time and in order, each 32 after
-- the descriptor at their end had been read as done; the rest is still in use; the loop stopped because
-- fewer than 32 are left or because the last thing it read, the descriptor at the end of the next batch, is
-- not done. Other pools, and the index to send from, are as before.
pub record Cleans (hw : Platform) (q arc : ℕ) (s t : Cleaning) : Type 0 where
  pub released : List ℕ
  pub batches : ℕ
  pub split : s.queue.bufs_in_use ≡ released ++ t.queue.bufs_in_use
  pub whole : length released ≡ 32 * batches
  pub seen_trace : List Event
  pub reported :
      Reported hw q s.queue.num_descriptors s.clean_index s.trace batches t.clean_index seen_trace
  pub freed :
      t.store.pools arc
      ≡ record (s.store.pools arc) { free_stack = extend released (s.store.pools arc).free_stack }
  pub others : (a : ℕ) → a ≢ arc → t.store.pools a ≡ s.store.pools a
  pub valid : IsTxQueue (view t)
  pub tx_kept : t.queue.tx_index ≡ s.queue.tx_index
  pub pool_kept : t.queue.pool ≡ s.queue.pool
  pub size_kept : t.queue.num_descriptors ≡ s.queue.num_descriptors
  pub stopped :
      ((length t.queue.bufs_in_use < 32) × (t.trace ≡ seen_trace))
      ⊎ ((desc : AdvancedTxDescriptor) × (get_elem? t.queue.descriptors (batch_end t) ≡ some desc)
          × ((old : AdvancedTxDescriptor) × (desc ≡ hw.tx_desc seen_trace q (batch_end t) old))
          × (t.trace ≡ read_tx q (batch_end t) ∷ seen_trace)
          × (¬ IsDone desc))

stops-Cleans :
    (hw : Platform) (q arc : ℕ) (s : Cleaning)
    → IsTxQueue (view s)
    → length s.queue.bufs_in_use < 32
    → Cleans hw q arc s s
unfolding extend
stops-Cleans hw q arc s v h = record {
  released = [];
  batches = 0;
  seen_trace = s.trace;
  reported = no_batch s.clean_index s.trace;
  split = refl;
  whole = refl;
  freed = refl;
  others = λ a ne. refl;
  valid = v;
  tx_kept = refl;
  pool_kept = refl;
  size_kept = refl;
  stopped = inl (h, refl);
}

unsent-Cleans :
    (hw : Platform) (q arc : ℕ) (desc old : AdvancedTxDescriptor) (s : Cleaning)
    → desc ≡ hw.tx_desc s.trace q (batch_end s) old
    → IsTxQueue (view s)
    → 32 ≤ length s.queue.bufs_in_use
    → ¬ IsDone desc
    → Cleans hw q arc s (seen q (batch_end s) desc s)
unfolding extend
unsent-Cleans hw q arc desc old s e v h d = record {
  released = [];
  batches = 0;
  seen_trace = s.trace;
  reported = no_batch s.clean_index s.trace;
  split = refl;
  whole = refl;
  freed = refl;
  others = λ a ne. refl;
  valid = seen-IsTxQueue q desc s v;
  tx_kept = refl;
  pool_kept = refl;
  size_kept = refl;
  stopped = inr (
    desc,
    get_elem?-set_self s.queue.descriptors (batch_end s) desc
        (omega (arith, v.slots, batch_end-lt s v h)),
    (old, e),
    refl,
    d,
  );
}

batch-Cleans :
    (hw : Platform) (q arc : ℕ) (desc old : AdvancedTxDescriptor) (s t : Cleaning)
    → desc ≡ hw.tx_desc s.trace q (batch_end s) old
    → IsDone desc
    → 32 ≤ length s.queue.bufs_in_use
    → Cleans hw q arc (after_batch q arc desc s) t
    → Cleans hw q arc s t
batch-Cleans hw q arc desc old s t e d h c = record {
  released = take 32 s.queue.bufs_in_use ++ c.released;
  batches = suc c.batches;
  seen_trace = c.seen_trace;
  reported =
      batch_done s.clean_index c.batches t.clean_index s.trace c.seen_trace old (rw (sym e) d)
        c.reported;
  split =
      sym (take-append-drop 32 s.queue.bufs_in_use)
      ∙ ap (λ rest. take 32 s.queue.bufs_in_use ++ rest) c.split
      ∙ sym (append_assoc (take 32 s.queue.bufs_in_use) c.released t.queue.bufs_in_use);
  whole = omega (
    arith,
    length-append (take 32 s.queue.bufs_in_use) c.released,
    length-take 32 s.queue.bufs_in_use h,
    c.whole,
  );
  freed = c.freed ∙ rw (==_refl arc, extend-append (take 32 s.queue.bufs_in_use) c.released) refl;
  others = λ a ne. c.others a ne ∙ rw (==_ne a arc ne) refl;
  valid = c.valid;
  tx_kept = c.tx_kept;
  pool_kept = c.pool_kept;
  size_kept = c.size_kept;
  stopped = c.stopped;
}

from_Round :
    (hw : Platform) (fuel q arc : ℕ) (s : Cleaning) (r : Outcome Cleaning Bool)
    → IsTxQueue (view s)
    → Round hw q arc s r
    → ((desc : AdvancedTxDescriptor)
        → 32 ≤ length s.queue.bufs_in_use
        → Returns {A = Unit {0}}
            (λ _ t. Cleans hw q arc (after_batch q arc desc s) t)
            (clean_loop hw fuel q s.queue.tx_index (after_batch q arc desc s)))
    → Returns {A = Unit {0}}
        (λ _ t. Cleans hw q arc s t)
        (then_run r (λ more t. elim more [
          | true ↦ clean_loop hw fuel q s.queue.tx_index t
          | false ↦ ok tt t
        ]))
from_Round hw fuel q arc s r v (few h) rest = stops-Cleans hw q arc s v h
from_Round hw fuel q arc s r v (unsent desc old e h d) rest =
    unsent-Cleans hw q arc desc old s e v h d
from_Round hw fuel q arc s r v (batch desc old e h d) rest =
    Returns-map (clean_loop hw fuel q s.queue.tx_index (after_batch q arc desc s))
      (λ _ t c. batch-Cleans hw q arc desc old s t e d h c) (rest desc h)

clean_loop-Cleans :
    (hw : Platform) (fuel q arc : ℕ) (s : Cleaning)
    → IsTxQueue (view s)
    → s.queue.pool ≡ some arc
    → length s.queue.bufs_in_use < 32 * fuel
    → Returns {A = Unit {0}} (λ _ t. Cleans hw q arc s t) (clean_loop hw fuel q s.queue.tx_index s)
unfolding clean_loop
clean_loop-Cleans hw zero q arc s v p l = absurd (omega arith)
clean_loop-Cleans hw (suc fuel) q arc s v p l =
    from_Round hw fuel q arc s (clean_one hw q s.queue.tx_index s) v
      (clean_one-Round hw q arc s v p)
      (λ desc h.
        clean_loop-Cleans hw fuel q arc (after_batch q arc desc s)
          (after_batch-IsTxQueue q arc desc s v h) p
          (omega (arith, length-drop 32 s.queue.bufs_in_use)))

-- On a valid queue with a pool the call returns, without an error or a panic, if 32 times its fuel exceeds
-- the number of buffers in use. The oldest buffers are then back on the free stack of the pool, in batches
-- of 32 and in order, and for each batch the card had reported its last descriptor, when the call read it,
-- as done. The call stopped because fewer than 32 buffers are left or because the last descriptor of the
-- next batch was read as not done; what was not given back is still in use, other pools are as before, and
-- the queue is valid.
pub recycle_tx_buffers-Cleans :
    (hw : Platform) (fuel q arc : ℕ) (w : World) {queue : IgbTxQueue}
    → get_elem? w.dev.tx_queues q ≡ some queue
    → IsTxQueue queue
    → queue.pool ≡ some arc
    → length queue.bufs_in_use < 32 * fuel
    → Returns {A = Unit {0}}
        (λ _ w'. (t : Cleaning) × (w' ≡ cleaned q t w) × Cleans hw q arc (cleaning queue w) t)
        (recycle_tx_buffers hw fuel q w)
unfolding recycle_tx_buffers
recycle_tx_buffers-Cleans hw fuel q arc w {queue} found v p l =
    rw (found, recycle_tx_buffers)
      (lift (clean_loop hw fuel q queue.tx_index (cleaning queue w))
        (clean_loop-Cleans hw fuel q arc (cleaning queue w) v p l))
  where
    lift :
        (r : Outcome Cleaning (Unit {0}))
        → Returns {A = Unit {0}} (λ _ t. Cleans hw q arc (cleaning queue w) t) r
        → Returns {A = Unit {0}}
            (λ _ w'. (t : Cleaning) × (w' ≡ cleaned q t w) × Cleans hw q arc (cleaning queue w) t)
            (elim r [
              | ok _ s ↦ ok tt (cleaned q s w)
              | err e s ↦ err e (cleaned q s w)
              | panic ↦ panic
              | hang ↦ hang
            ])
    lift (ok _ s) c = (s, refl, c)
    lift (err e s) c = absurd c
    lift panic c = absurd c
    lift hang c = absurd c

-- With fewer than 32 buffers in use there is nothing to give back.
pub recycle_tx_buffers-few :
    (hw : Platform) (fuel q : ℕ) (w : World) {queue : IgbTxQueue}
    → get_elem? w.dev.tx_queues q ≡ some queue
    → IsTxQueue queue
    → length queue.bufs_in_use < 32
    → recycle_tx_buffers hw (suc fuel) q w ≡ ok tt w
unfolding recycle_tx_buffers clean_loop clean_one
recycle_tx_buffers-few hw fuel q w {queue} found v small =
    let few : ltb (cleanable queue.tx_index queue.clean_index queue.num_descriptors) 32 ≡ true =
      lt→ltb _ 32 (omega (arith, v.in_flight, small)) in
    rw (found, recycle_tx_buffers)
      (rw few (ap (ok tt) (rw (set-get_elem? w.dev.tx_queues q found) refl)))

-- A ring of at most 32 descriptors never has a batch to give back: the call changes nothing, whatever
-- the card has sent, and the buffers of packets stay in use.
pub recycle_tx_buffers-small_ring :
    (hw : Platform) (fuel q : ℕ) (w : World) {queue : IgbTxQueue}
    → get_elem? w.dev.tx_queues q ≡ some queue
    → IsTxQueue queue
    → queue.num_descriptors ≤ 32
    → recycle_tx_buffers hw (suc fuel) q w ≡ ok tt w
recycle_tx_buffers-small_ring hw fuel q w {queue} found v small =
    recycle_tx_buffers-few hw fuel q w found v
      (ground (arith, v.in_flight, v.tx_in, v.clean_in, small))
