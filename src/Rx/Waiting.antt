-- ===== src/Rx/Waiting.antt =====
-- Waiting for data (src/igb.rs, `receive_packets` and `can_receive`): the bit of the descriptor that decides.
use igb_driver.Prelude.{
  ℕ, ◌%◌, ◌^◌, ◌<◌, ◌≡◌, ◌∙◌, refl, true, false, ◌∷◌, some, set, get_elem?, bit_and, arith,
}
use igb_driver.Prelude.Masks.{bit_and_mask}
use igb_driver.Word.{as_u8}
use igb_driver.Outcome.{ok, err, not_ready}
use igb_driver.Memory.Store.{Store, IgbNetBuf}
use igb_driver.Descriptor.Rx
use igb_driver.Descriptor.Rx.{AdvancedRxDescriptor, IsGetBits, rx_status_dd}
use igb_driver.Device.{Platform, read_rx, IgbRxQueue, World}
use igb_driver.Rx.{done, receiving, receive_packets, can_receive}
use igb_driver.Rx.Round.{look_lem}

done-bit :
    (hw : Platform) (desc : AdvancedRxDescriptor)
    → IsGetBits hw.get_bits
    → desc.header_buffer_address < 2 ^ 64
    → (desc.header_buffer_address % 2 ≡ 0 → done hw desc ≡ false)
      × (desc.header_buffer_address % 2 ≡ 1 → done hw desc ≡ true)
unfolding done Rx.get_ext_status
done-bit hw desc bits small =
    let status = hw.get_bits desc.header_buffer_address 0 19 in
    let lowest : bit_and (as_u8 status) rx_status_dd ≡ desc.header_buffer_address % 2 =
      bit_and_mask 1 (as_u8 status)
      ∙ omega
          (arith, bits.range desc.header_buffer_address 0 19 (omega arith) (omega arith) small) in
    ((λ z. rw (lowest, z) refl), (λ z. rw (lowest, z) refl))

module _ (hw : Platform) (q : ℕ) (w : World) (queue : IgbRxQueue) (old : AdvancedRxDescriptor) where
  -- The descriptor as the card gives it, and the world when it was read.
  abbrev pub next_desc : AdvancedRxDescriptor
  next_desc = hw.rx_desc w.trace q queue.rx_index old

  abbrev pub after_look : World
  after_look = record w {
    dev = record w.dev {
      rx_queues =
          set w.dev.rx_queues q
            (record queue { descriptors = set queue.descriptors queue.rx_index next_desc });
    };
    trace = read_rx q queue.rx_index ∷ w.trace;
  }

  -- On a queue whose index is in its ring, bit 0 of the second word (of 64 bits) of the descriptor at that
  -- index, as the card gives it, decides. If it is 0, `can_receive` says no and `receive_packets` ends with
  -- `NotReady`; both have read that descriptor once and changed nothing else, no packet is delivered and
  -- the pools are as before. If it is 1, `can_receive` says yes, in that same state. The bit_field crate is
  -- taken to work as documented.
  pub can_receive-receive_packets :
      (f : IgbNetBuf → Store → Store) (limit : ℕ)
      → IsGetBits hw.get_bits
      → get_elem? w.dev.rx_queues q ≡ some queue
      → get_elem? queue.descriptors queue.rx_index ≡ some old
      → next_desc.header_buffer_address < 2 ^ 64
      → (next_desc.header_buffer_address % 2 ≡ 0
          → (can_receive hw q w ≡ ok false after_look)
            × (receive_packets hw f q limit w ≡ err not_ready after_look))
        × (next_desc.header_buffer_address % 2 ≡ 1 → can_receive hw q w ≡ ok true after_look)
  unfolding can_receive receive_packets
  can_receive-receive_packets f limit bits found slot small =
      let (clear, up) = done-bit hw next_desc bits small in
      let looks = look_lem hw q queue.rx_index (receiving queue w) slot in
      (
        (λ z. (
          rw (found, can_receive, looks, clear z) refl,
          rw (found, receive_packets, looks, clear z) refl,
        )),
        (λ z. rw (found, can_receive, looks, up z) refl),
      )
