-- ===== src/Tx/Batches.antt =====
-- One round of the loop of `recycle_tx_buffers` (src/igb.rs).
use native.Mathlib.Decide.{dec_lt}
use igb_driver.Prelude.{
  ℕ, zero, suc, ◌≤◌, ◌<◌, ◌≡◌, ◌≢◌, ◌∙◌, refl, true, false, Bool, List, [], ◌∷◌, ◌++◌, some, length,
  length-set, length-drop, get_elem?-some, set, take, drop, ◌==◌, arith, ==_iff, lt→ltb, le→ltb,
  Bool-cases, inl, inr, bit_and,
}
use igb_driver.Outcome.{Outcome, ok}
use igb_driver.Descriptor.Tx.{AdvancedTxDescriptor}
use igb_driver.Memory.{extend}
use igb_driver.Ring.{wrap_ring}
use igb_driver.Registers.{igb_advtxd_stat_dd}
use igb_driver.Device.{Platform, Event, read_tx, IgbTxQueue}
use igb_driver.Tx.{Cleaning, cleanable, cleanup_to, drained, give_back, seen, clean_one}
use igb_driver.Tx.Valid.{IsTxQueue, wrap_ring-next}

pub extend-append : (xs ys stack : List ℕ) → extend (xs ++ ys) stack ≡ extend ys (extend xs stack)
unfolding extend
extend-append [] ys stack = refl
extend-append (x ∷ xs) ys stack = extend-append xs ys (x ∷ stack)

pub length-take : (n : ℕ) (xs : List ℕ) → n ≤ length xs → length (take n xs) ≡ n
length-take zero xs h = refl
length-take (suc n) [] h = absurd (omega arith)
length-take (suc n) (x ∷ xs) h = omega (arith, length-take n xs (omega arith))

pub drained_lem : (xs : List ℕ) → 32 ≤ length xs → drained xs ≡ 32
drained_lem xs h = ground arith

-- The queue as `recycle_tx_buffers` leaves it.
abbrev pub view : Cleaning → IgbTxQueue
view s = record s.queue { clean_index = s.clean_index }

-- The descriptor whose status decides on the next batch.
abbrev pub batch_end : Cleaning → ℕ
batch_end s = cleanup_to s.clean_index s.queue.num_descriptors

-- The state after a batch went back to the pool `arc`.
abbrev pub after_batch : ℕ → ℕ → AdvancedTxDescriptor → Cleaning → Cleaning
after_batch q arc desc s = record (seen q (batch_end s) desc s) {
  store = give_back arc (take 32 s.queue.bufs_in_use) s.store;
  queue = record s.queue {
    descriptors = set s.queue.descriptors (batch_end s) desc;
    bufs_in_use = drop 32 s.queue.bufs_in_use;
  };
  clean_index = wrap_ring (batch_end s) s.queue.num_descriptors;
}

pub batch_end-lt :
    (s : Cleaning)
    → IsTxQueue (view s)
    → 32 ≤ length s.queue.bufs_in_use
    → batch_end s < s.queue.num_descriptors
batch_end-lt s v h = ground (arith, v.in_flight, v.tx_in, v.clean_in)

pub seen-IsTxQueue :
    (q : ℕ) (desc : AdvancedTxDescriptor) (s : Cleaning)
    → IsTxQueue (view s)
    → IsTxQueue (view (seen q (batch_end s) desc s))
seen-IsTxQueue q desc s v = record {
  power = v.power;
  small = v.small;
  slots = length-set s.queue.descriptors (batch_end s) desc ∙ v.slots;
  tx_in = v.tx_in;
  clean_in = v.clean_in;
  in_flight = v.in_flight;
}

pub after_batch-IsTxQueue :
    (q arc : ℕ) (desc : AdvancedTxDescriptor) (s : Cleaning)
    → IsTxQueue (view s)
    → 32 ≤ length s.queue.bufs_in_use
    → IsTxQueue (view (after_batch q arc desc s))
after_batch-IsTxQueue q arc desc s v h =
    let next = wrap_ring-next (batch_end s) v.power v.small (batch_end-lt s v h) in
    record {
      power = v.power;
      small = v.small;
      slots = length-set s.queue.descriptors (batch_end s) desc ∙ v.slots;
      tx_in = v.tx_in;
      clean_in = ground (arith, next, v.tx_in, v.clean_in, v.in_flight);
      in_flight =
          ground
            (arith, next, v.tx_in, v.clean_in, v.in_flight, length-drop 32 s.queue.bufs_in_use);
    }

abbrev pub IsDone : AdvancedTxDescriptor → Type 0
IsDone desc = bit_and desc.paylen_popts_cc_idx_sta igb_advtxd_stat_dd ≢ 0

-- What the card reported for the batches that were given back, one after the other, from the index to
-- clean from, the ring size and the trace at the start to the index and the trace behind the last batch:
-- each time, the descriptor at the end of the batch, as it was read at that moment, is done.
pub data Reported (hw : Platform) (q n : ℕ) : ℕ → List Event → ℕ → ℕ → List Event → Type 0 where
  no_batch : (clean : ℕ) (t : List Event) → Reported hw q n clean t 0 clean t
  batch_done :
      (clean k end : ℕ) (t t' : List Event) (old : AdvancedTxDescriptor)
      → IsDone (hw.tx_desc t q (cleanup_to clean n) old)
      → Reported hw q n
          (wrap_ring (cleanup_to clean n) n)
          (read_tx q (cleanup_to clean n) ∷ t)
          k
          end
          t'
      → Reported hw q n clean t (suc k) end t'

-- The three ways of one round.
pub data Round (hw : Platform) (q arc : ℕ) (s : Cleaning) : Outcome Cleaning Bool → Type 0 where
  few : length s.queue.bufs_in_use < 32 → Round hw q arc s (ok false s)
  unsent :
      (desc old : AdvancedTxDescriptor)
      → desc ≡ hw.tx_desc s.trace q (batch_end s) old
      → 32 ≤ length s.queue.bufs_in_use
      → ¬ IsDone desc
      → Round hw q arc s (ok false (seen q (batch_end s) desc s))
  batch :
      (desc old : AdvancedTxDescriptor)
      → desc ≡ hw.tx_desc s.trace q (batch_end s) old
      → 32 ≤ length s.queue.bufs_in_use
      → IsDone desc
      → Round hw q arc s (ok true (after_batch q arc desc s))

pub clean_one-Round :
    (hw : Platform) (q arc : ℕ) (s : Cleaning)
    → IsTxQueue (view s)
    → s.queue.pool ≡ some arc
    → Round hw q arc s (clean_one hw q s.queue.tx_index s)
unfolding clean_one
clean_one-Round hw q arc s v p = elim (dec_lt (length s.queue.bufs_in_use) 32) [
  | yes less ↦ rw (lt→ltb far 32 (omega (arith, v.in_flight))) (few less)
  | no many ↦
      let enough : 32 ≤ length s.queue.bufs_in_use = omega arith in
      let (old, slot) =
        get_elem?-some s.queue.descriptors (batch_end s)
          (omega (arith, v.slots, batch_end-lt s v enough)) in
      let desc = hw.tx_desc s.trace q (batch_end s) old in
      let status = bit_and desc.paylen_popts_cc_idx_sta igb_advtxd_stat_dd in
      rw (le→ltb far 32 (omega (arith, v.in_flight)), slot)
        (elim (Bool-cases (status == 0)) [
          | inl e ↦ rw e (unsent desc old refl enough (λ done. done ((==_iff _ _).0 e)))
          | inr e ↦
              rw (e, p, drained_lem s.queue.bufs_in_use enough)
                (batch desc old refl enough (λ z. cc ((==_iff _ _).1 z)))
        ])
]
  where
    far : ℕ
    far = cleanable s.queue.tx_index s.clean_index s.queue.num_descriptors
