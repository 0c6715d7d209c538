-- ===== src/Tests/Sending.antt =====
-- Runs of the sending side of src/igb.rs.
use igb_driver.Prelude.{
  [], ◌∷◌, inr, inl, some, ℕ, List, ◌++◌, ◌≤◌, get_elem?, ◌+◌, ◌<◌, ◌≡◌, refl, length,
  length-replicate, arith,
}
use igb_driver.Outcome.{Returns, ok, err, ◌>>◌, queue_full}
use igb_driver.Memory.Counts.{count, length-range}
use igb_driver.Registers.{igb_tdt}
use igb_driver.Tx.{send, send_on, recycle_tx_buffers, queue_can_send, Cleaning, cleaning, cleaned}
use igb_driver.Tx.Valid.{IsTxQueue}
use igb_driver.Tx.Send.{Sent, send-Sent}
use igb_driver.Tx.Refusing.{given_back, send-given_back}
use igb_driver.Memory.Store.{IgbNetBuf}
use igb_driver.Memory.Invariant.{IsPool}
use igb_driver.Tx.Recycle.{Cleans, recycle_tx_buffers-Cleans, recycle_tx_buffers-small_ring}
use igb_driver.Tx.Pools.{Misplaced, send-recycle-Misplaced}
use igb_driver.Tx.History.{Sending, sends, Reach, here, next, IsSending, Reach-IsSending}
use igb_driver.Tx.Refinement
use igb_driver.Tx.Refinement.{Bounded, Models, run, run-Bounded}
use igb_driver.Tx.Progress.{recycle_tx_buffers-send}
use igb_driver.Device.{IgbTxQueue}
use igb_driver.Ring.{wrap_ring}
use igb_driver.Descriptor.Tx
use igb_driver.Device.{wrote, set_reg32}
use igb_driver.Memory.{range_from}
use igb_driver.Tests.{small_pool, card, device, tx_queue, tx_slot, tx_world, net_buf}

-- 40 of 64 descriptors are in use.
busy_40 : IsTxQueue (tx_queue 64 40)
busy_40 = record {
  power = (6, refl);
  small = omega arith;
  slots = length-replicate 64 tx_slot;
  tx_in = omega arith;
  clean_in = omega arith;
  in_flight = length-range 0 40;
}

-- 10 of 16 descriptors are in use.
busy_10 : IsTxQueue (tx_queue 16 10)
busy_10 = record {
  power = (4, refl);
  small = omega arith;
  slots = length-replicate 16 tx_slot;
  tx_in = omega arith;
  clean_in = omega arith;
  in_flight = length-range 0 10;
}

room_40 : length (tx_queue 64 40).bufs_in_use + 1 < 64
room_40 = omega (arith, length-range 0 40)

Sent-41 :
    Returns
      (λ _ w'. Sent 0 (tx_queue 64 40) net_buf.packet (tx_world (tx_queue 64 40)) w')
      (send card 0 net_buf (tx_world (tx_queue 64 40)))
unfolding igb_tdt
Sent-41 = send-Sent card 0 (tx_world (tx_queue 64 40)) net_buf refl busy_40 room_40 refl

recycled_32 :
    Returns {A = Unit {0}}
      (λ _ w'.
        (t : Cleaning) × (w' ≡ cleaned 0 t (tx_world (tx_queue 64 40)))
        × Cleans card 0 0 (cleaning (tx_queue 64 40) (tx_world (tx_queue 64 40))) t)
      (recycle_tx_buffers card 2 0 (tx_world (tx_queue 64 40)))
recycled_32 =
    recycle_tx_buffers-Cleans card 2 0 0 (tx_world (tx_queue 64 40)) refl busy_40 refl
      (omega (arith, length-range 0 40))

recycled_none :
    recycle_tx_buffers card 1 0 (tx_world (tx_queue 16 10)) ≡ ok tt (tx_world (tx_queue 16 10))
recycled_none =
    recycle_tx_buffers-small_ring card 0 0 (tx_world (tx_queue 16 10)) refl busy_10 (omega arith)

Misplaced-32 :
    Returns {A = Unit {0}}
      (λ _ w'. Misplaced card 2 0 (tx_world (tx_queue 64 40)) (tx_queue 64 40) net_buf 0 w')
      ((send card 0 net_buf >> recycle_tx_buffers card 2 0) (tx_world (tx_queue 64 40)))
unfolding igb_tdt
Misplaced-32 =
    send-recycle-Misplaced card 2 0 (tx_world (tx_queue 64 40)) (tx_queue 64 40) net_buf 0 refl
      busy_40 refl (omega arith) room_40 (omega (arith, length-range 0 40))
      (omega (arith, length-range 0 40)) (λ events i desc. cc) refl

-- All of 63 places of a ring are taken.
full_63 : IsTxQueue (tx_queue 64 63)
full_63 = record {
  power = (6, refl);
  small = omega arith;
  slots = length-replicate 64 tx_slot;
  tx_in = omega arith;
  clean_in = omega arith;
  in_flight = length-range 0 63;
}

-- A packet of the entry 1, which a client holds, is refused by a queue with 63 of 64 places taken.
abbrev held_buf : IgbNetBuf
held_buf = record {
  packet = record { addr_virt = 6176; addr_phys = 6176; len = 60; pool = 0; pool_entry = 1 };
}

small_pool-IsPool : IsPool small_pool
unfolding count
small_pool-IsPool = record {
  addresses = refl;
  in_range = λ a h. ground arith;
  free_once = λ a. ground arith;
}

refused_full :
    send card 0 held_buf (tx_world (tx_queue 64 63))
    ≡ err queue_full (given_back card 0 (tx_world (tx_queue 64 63)) held_buf)
unfolding count
refused_full =
    (send-given_back card 0 (tx_world (tx_queue 64 63)) held_buf small_pool-IsPool (omega arith)
        refl).1
      (tx_queue 64 63) refl full_63 (omega (arith, length-range 0 63))

abbrev empty_ring : Sending
empty_ring = record { world = tx_world (tx_queue 2 0); sent = [] }

abbrev one_sent : Sending
one_sent = record {
  world = record (tx_world (tx_queue 2 0)) {
    dev = device [] (
        record (tx_queue 2 0) {
          descriptors = Tx.send 10272 60 tx_slot ∷ tx_slot ∷ [];
          pool = some 1;
          bufs_in_use = 3 ∷ [];
          tx_index = 1;
        }
        ∷ []);
    trace = wrote (igb_tdt 0) 1 ∷ [];
  };
  sent = 3 ∷ [];
}

reach_one_sent : Reach card 0 empty_ring one_sent
unfolding send send_on queue_can_send wrap_ring set_reg32 igb_tdt range_from
reach_one_sent = next here (sends empty_ring net_buf one_sent.world refl)

idle_2 : IsTxQueue (tx_queue 2 0)
unfolding range_from
idle_2 = record {
  power = (1, refl);
  small = omega arith;
  slots = refl;
  tx_in = omega arith;
  clean_in = omega arith;
  in_flight = refl;
}

empty_ring-IsSending : IsSending 0 empty_ring
unfolding igb_tdt range_from
empty_ring-IsSending = record {
  queue = tx_queue 2 0;
  found = refl;
  valid = idle_2;
  mapped = refl;
  given = [];
  order = refl;
  pool_known = inr (0, refl);
}

IsSending-one : IsSending 0 one_sent
IsSending-one = Reach-IsSending card 0 reach_one_sent empty_ring-IsSending

-- A client of a full ring of two descriptors, which sends twice and recycles.
two_tries :
    Returns
      (λ answers w'.
        (ys : List ℕ) × Bounded 2
          (Refinement.sends net_buf ∷ Refinement.recycles ∷ Refinement.sends net_buf ∷ [])
          []
          answers
          ys
        × Models 0 2 w' ys)
      (run card 0 2
        (Refinement.sends net_buf ∷ Refinement.recycles ∷ Refinement.sends net_buf ∷ [])
        (tx_world (tx_queue 2 0)))
unfolding igb_tdt range_from
two_tries =
    run-Bounded card 0 2
      (Refinement.sends net_buf ∷ Refinement.recycles ∷ Refinement.sends net_buf ∷ [])
      (tx_world (tx_queue 2 0)) []
      (record {
        queue = tx_queue 2 0;
        found = refl;
        valid = idle_2;
        size = refl;
        buffers = refl;
        mapped = refl;
        pool_known = inl refl;
      })

room_again :
    Returns {A = Unit {0}}
      (λ _ w'.
        (after : IgbTxQueue) × (released : List ℕ) × (get_elem? w'.dev.tx_queues 0 ≡ some after)
        × IsTxQueue after
        × ((tx_queue 64 63).bufs_in_use ++ net_buf.packet.pool_entry ∷ []
            ≡ released ++ after.bufs_in_use)
        × (length after.bufs_in_use ≤ 32))
      ((recycle_tx_buffers card 2 0 >> send card 0 net_buf) (tx_world (tx_queue 64 63)))
unfolding igb_tdt
room_again =
    recycle_tx_buffers-send card 2 0 0 (tx_world (tx_queue 64 63)) net_buf refl full_63 refl
      (omega arith) (omega (arith, length-range 0 63)) refl (λ events i desc. cc)
