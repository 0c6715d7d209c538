-- ===== src/Tx/Send.antt =====
-- `send` of src/igb.rs on each of its branches.
use igb_driver.Prelude.{
  ℕ, ◌+◌, ◌%◌, ◌^◌, ◌≤◌, ◌<◌, ◌≡◌, ◌∙◌, refl, false, [], ◌∷◌, ◌++◌, Option, none, some, length,
  length-append, length-set, get_elem?, get_elem?-some, get_elem?-set_self, ◌==◌, if◌then◌else◌,
  arith, ==_refl, Bool-cases, inl, inr,
}
use igb_driver.Word.{as_u16, as_u32}
use igb_driver.Outcome.{ok, fail, Returns, ◌>>◌, invalid_queue, queue_full}
use igb_driver.Descriptor.Tx
use igb_driver.Descriptor.Tx.{AdvancedTxDescriptor}
use igb_driver.Memory.{Packet}
use igb_driver.Memory.Store.{IgbNetBuf, drop_packet}
use igb_driver.Ring.{wrap_ring}
use igb_driver.Registers.{igb_tdt}
use igb_driver.Device.{Platform, IgbTxQueue, World, wrote, set_reg32}
use igb_driver.Device.Access.{Mapped}
use igb_driver.Tx.{queue_can_send, put_tx, send, send_on, in_store, queue_pool, enqueued}
use igb_driver.Tx.Valid.{IsTxQueue, wrap_ring-next, queue_can_send_iff}

-- Whatever pools came before, the queue has the pool of the packet.
pub queue_pool_lem : (old : Option ℕ) (arc : ℕ) → queue_pool old arc ≡ some arc
queue_pool_lem none arc = refl
queue_pool_lem (some old) arc = ground arith

pub enqueued-IsTxQueue :
    {queue : IgbTxQueue} (packet : Packet) (desc : AdvancedTxDescriptor)
    → IsTxQueue queue
    → length queue.bufs_in_use + 1 < queue.num_descriptors
    → IsTxQueue (enqueued queue packet desc)
enqueued-IsTxQueue {queue} packet desc v room =
    let next = wrap_ring-next queue.tx_index v.power v.small v.tx_in in
    record {
      power = v.power;
      small = v.small;
      slots =
          length-set queue.descriptors queue.tx_index
            (Tx.send packet.addr_phys (as_u16 packet.len) desc)
          ∙ v.slots;
      tx_in = ground (arith, next, v.tx_in);
      clean_in = v.clean_in;
      in_flight = ground (
        arith,
        next,
        v.in_flight,
        v.tx_in,
        v.clean_in,
        room,
        length-append queue.bufs_in_use (packet.pool_entry ∷ []),
      );
    }

-- What a successful `send` makes of the world: one descriptor is filled for the packet, its buffer
-- goes to the end of those in use, and the one event is the write of the new index to the tail
-- register. Other queues and the pools are as before.
pub record Sent (q : ℕ) (queue : IgbTxQueue) (packet : Packet) (w w' : World) : Type 0 where
  pub after : IgbTxQueue
  pub desc : AdvancedTxDescriptor
  pub world : w' ≡ record (put_tx q after w) { trace = wrote (igb_tdt q) after.tx_index ∷ w.trace }
  pub valid : IsTxQueue after
  pub buffers : after.bufs_in_use ≡ queue.bufs_in_use ++ packet.pool_entry ∷ []
  pub pool : after.pool ≡ some packet.pool
  pub filled :
      get_elem? after.descriptors queue.tx_index
      ≡ some (Tx.send packet.addr_phys (packet.len % 2 ^ 16) desc)
  pub advanced :
      after.tx_index
      ≡ (if queue.tx_index + 1 == queue.num_descriptors then 0 else queue.tx_index + 1)
  pub unclean : after.clean_index ≡ queue.clean_index
  pub size_kept : after.num_descriptors ≡ queue.num_descriptors

module _ (hw : Platform) where
  send_on_lem :
      (q : ℕ) (queue : IgbTxQueue) (packet : Packet) (w : World) {desc : AdvancedTxDescriptor}
      → get_elem? queue.descriptors queue.tx_index ≡ some desc
      → Mapped w (igb_tdt q)
      → send_on hw q queue packet w
        ≡ ok tt (record (put_tx q (enqueued queue packet desc) w) {
          trace = wrote (igb_tdt q) (as_u32 (enqueued queue packet desc).tx_index) ∷ w.trace;
        })
  unfolding send_on set_reg32
  send_on_lem q queue packet w {desc} slot m =
      rw (queue_pool_lem queue.pool packet.pool, ==_refl packet.pool, slot) (rw m refl)

  -- `send` on a valid queue with room and a mapped tail register succeeds: it fills the descriptor at
  -- the send index for the packet, puts the buffer behind those in use, advances the index by one
  -- around the ring, writes it to the tail register, and keeps the queue valid.
  pub send-Sent :
      (q : ℕ) (w : World) {queue : IgbTxQueue} (buf : IgbNetBuf)
      → get_elem? w.dev.tx_queues q ≡ some queue
      → IsTxQueue queue
      → length queue.bufs_in_use + 1 < queue.num_descriptors
      → Mapped w (igb_tdt q)
      → Returns (λ _ w'. Sent q queue buf.packet w w') (send hw q buf w)
  unfolding send
  send-Sent q w {queue} buf found v room m =
      let packet = buf.packet in
      let next = wrap_ring-next queue.tx_index v.power v.small v.tx_in in
      let (old, slot) =
        get_elem?-some queue.descriptors queue.tx_index (omega (arith, v.slots, v.tx_in)) in
      let fits : as_u32 (wrap_ring queue.tx_index queue.num_descriptors)
          ≡ wrap_ring queue.tx_index queue.num_descriptors =
        ground (arith, next, v.tx_in, v.small) in
      rw (found, send, (queue_can_send_iff v).1 room, send_on_lem q queue packet w slot m)
        (record {
          after = enqueued queue packet old;
          desc = old;
          world = rw fits refl;
          valid = enqueued-IsTxQueue packet old v room;
          buffers = refl;
          pool = queue_pool_lem queue.pool packet.pool;
          filled =
              get_elem?-set_self queue.descriptors queue.tx_index _
                (omega (arith, v.slots, v.tx_in));
          advanced = next;
          unclean = refl;
          size_kept = refl;
        })

  -- `send` to a queue that does not exist, or to one that is full, drops the packet and then fails.
  pub send-errors :
      (q : ℕ) (w : World) (buf : IgbNetBuf)
      → (get_elem? w.dev.tx_queues q ≡ none
          → send hw q buf w ≡ (in_store (drop_packet buf.packet) >> fail invalid_queue) w)
        × ((queue : IgbTxQueue)
            → get_elem? w.dev.tx_queues q ≡ some queue
            → IsTxQueue queue
            → queue.num_descriptors ≤ length queue.bufs_in_use + 1
            → send hw q buf w ≡ (in_store (drop_packet buf.packet) >> fail queue_full) w)
  unfolding send
  send-errors q w buf = ((λ e. rw (e, send)), (λ queue e v full. rw (e, send, full_queue v full)))
    where
      full_queue :
          {queue : IgbTxQueue}
          → IsTxQueue queue
          → queue.num_descriptors ≤ length queue.bufs_in_use + 1
          → queue_can_send queue ≡ false
      full_queue {queue} v full = elim (Bool-cases (queue_can_send queue)) [
        | inl e ↦ absurd (omega (arith, (queue_can_send_iff v).0 e))
        | inr e ↦ e
      ]
