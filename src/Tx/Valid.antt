-- ===== src/Tx/Valid.antt =====
-- The invariant of a transmit queue (src/igb.rs), and when it has room.
use native.Mathlib.Nat.{mod-eq_of_lt, mod_self}
use igb_driver.Prelude.{
  ℕ, ◌+◌, ◌%◌, ◌^◌, ◌<◌, ◌≡◌, ◌↔◌, ◌∙◌, ap, true, length, ◌==◌, if◌then◌else◌, arith, ==_iff,
  Bool-cases, inl, inr,
}
use igb_driver.Ring.{wrap_ring}
use igb_driver.Ring.PowerOfTwo.{IsPowerOfTwo, wrap_ring-mod}
use igb_driver.Device.{IgbTxQueue}
use igb_driver.Tx.{queue_can_send, cleanable}

-- The ring size is a power of two that an `i32` holds, the ring has its descriptors, the indices are
-- on the ring, and the buffers in use are those from the clean index up to the index to send from.
pub record IsTxQueue (queue : IgbTxQueue) : Type 0 where
  pub power : IsPowerOfTwo queue.num_descriptors
  pub small : queue.num_descriptors < 2 ^ 31
  pub slots : length queue.descriptors ≡ queue.num_descriptors
  pub tx_in : queue.tx_index < queue.num_descriptors
  pub clean_in : queue.clean_index < queue.num_descriptors
  pub in_flight :
      length queue.bufs_in_use ≡ cleanable queue.tx_index queue.clean_index queue.num_descriptors

-- The next index of a ring.
pub wrap_ring-next :
    {n : ℕ} (i : ℕ)
    → IsPowerOfTwo n
    → n < 2 ^ 31
    → i < n
    → wrap_ring i n ≡ (if i + 1 == n then 0 else i + 1)
wrap_ring-next {n} i p h l = elim (Bool-cases (i + 1 == n)) [
  | inl last ↦
      wrap_ring-mod i p (omega arith) l
      ∙ rw last (ap (λ t. t % n) ((==_iff _ _).0 last) ∙ mod_self n)
  | inr more ↦ wrap_ring-mod i p (omega arith) l ∙ rw more (mod-eq_of_lt (ground arith))
]

-- There is room exactly as long as fewer buffers are in use than the ring has descriptors, less one.
pub queue_can_send_iff :
    {queue : IgbTxQueue}
    → IsTxQueue queue
    → (queue_can_send queue ≡ true) ↔ (length queue.bufs_in_use + 1 < queue.num_descriptors)
unfolding queue_can_send
queue_can_send_iff {queue} v =
    let next = wrap_ring-next queue.tx_index v.power v.small v.tx_in in
    (
      (λ h. ground (arith, next, v.in_flight, v.tx_in, v.clean_in)),
      (λ h. ground (arith, next, v.in_flight, v.tx_in, v.clean_in)),
    )

-- One descriptor stays unused.
pub in_use-lt :
    {queue : IgbTxQueue} → IsTxQueue queue → length queue.bufs_in_use < queue.num_descriptors
in_use-lt {queue} v = ground (arith, v.in_flight, v.tx_in, v.clean_in)
