-- ===== src/Tests/Receiving.antt =====
-- Runs of the receiving side of src/igb.rs.
use igb_driver.Prelude.{◌%◌, ◌≡◌, refl, true, false, [], ◌∷◌, arith}
use igb_driver.Outcome.{Returns, ok, err, not_ready}
use igb_driver.Memory.Counts.{count}
use igb_driver.Descriptor.Rx
use igb_driver.Registers.{igb_rdt}
use igb_driver.Rx.{receive_packets, can_receive, done, complete}
use igb_driver.Rx.Valid.{IsRxQueue}
use igb_driver.Rx.Closure.{all_kept, all_kept-IsClosure}
use igb_driver.Rx.Received.{Received}
use igb_driver.Rx.Waiting.{after_look, can_receive-receive_packets}
use igb_driver.Rx.Headroom.{AllOutside, receive_packets-AllOutside}
use igb_driver.Device.{Platform, IgbRxQueue}
use igb_driver.Tests.{card, small_pool, rx_slot, rx_two, rx_world}

two_buffers : IsRxQueue rx_two small_pool
unfolding count
two_buffers = record {
  power = (1, refl);
  small = omega arith;
  slots = refl;
  held = refl;
  rx_in = omega arith;
  addresses = refl;
  in_range = λ a h. ground arith;
  once = λ a. ground arith;
}

-- A card that has received nothing.
abbrev idle_card : Platform
idle_card = record card { rx_desc = λ t q i d. d }

nothing_yet :
    (rx_slot.header_buffer_address % 2 ≡ 0
      → (can_receive idle_card 0 (rx_world rx_two)
          ≡ ok false (after_look idle_card 0 (rx_world rx_two) rx_two rx_slot))
        × (receive_packets idle_card (λ b st. st) 0 3 (rx_world rx_two)
            ≡ err not_ready (after_look idle_card 0 (rx_world rx_two) rx_two rx_slot)))
    × (rx_slot.header_buffer_address % 2 ≡ 1
        → can_receive idle_card 0 (rx_world rx_two)
          ≡ ok true (after_look idle_card 0 (rx_world rx_two) rx_two rx_slot))
nothing_yet =
    can_receive-receive_packets idle_card 0 (rx_world rx_two) rx_two rx_slot (λ b st. st) 3
      (record { range = λ v a b h l w. refl }) refl refl (omega arith)

headroom_outside :
    Returns
      (λ r w'. AllOutside small_pool r.1)
      (receive_packets card (λ b st. st) 0 2 (rx_world rx_two))
unfolding done complete Rx.get_ext_status igb_rdt
headroom_outside =
    receive_packets-AllOutside card all_kept (λ b st. st) 0 2 (rx_world rx_two) (λ t q i d e. refl)
      all_kept-IsClosure refl refl two_buffers refl refl

-- The descriptors with the addresses of the entries 0 and 1.
abbrev armed_two : IgbRxQueue
armed_two = record rx_two {
  descriptors = rx_slot ∷ record rx_slot { packet_buffer_address = 6144 } ∷ [];
}
