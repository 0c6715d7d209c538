-- ===== src/Rx/Packets.antt =====
-- What a caller of `receive_packets` (src/igb.rs) sees.
use igb_driver.Prelude.{Bool, ℕ, ◌≡◌, refl, true, false, ◌∷◌, some, none, set, get_elem?, set}
use igb_driver.Outcome.{Outcome, ok, err, panic, hang, Returns, invalid_queue, not_ready}
use igb_driver.Registers.{igb_rdt}
use igb_driver.Memory.Store.{Store, IgbNetBuf}
use igb_driver.Descriptor.Rx.{AdvancedRxDescriptor}
use igb_driver.Device.{Platform, read_rx, IgbRxQueue, World}
use igb_driver.Device.Access.{Mapped}
use igb_driver.Rx.{
  Receiving, looked, done, receive_loop, receiving, received, finish, receive_packets,
}
use igb_driver.Rx.Valid.{IsRxQueue}
use igb_driver.Rx.Round.{HasWholeFrames, look_lem}
use igb_driver.Rx.Closure.{IsClosure}
use igb_driver.Rx.Taken.{Receives, looked-IsReceiving}
use igb_driver.Rx.Receive.{receive_loop-Receives}
use igb_driver.Rx.Received.{Received, finish-Received}

pub receive_packets-Received :
    (hw : Platform) (kept : IgbNetBuf → Bool) (f : IgbNetBuf → Store → Store) (q limit : ℕ)
    (w : World) {queue : IgbRxQueue} {old : AdvancedRxDescriptor}
    → HasWholeFrames hw
    → IsClosure kept f
    → Mapped w (igb_rdt q)
    → get_elem? w.dev.rx_queues q ≡ some queue
    → IsRxQueue queue (w.store.pools queue.pool)
    → get_elem? queue.descriptors queue.rx_index ≡ some old
    → done hw (hw.rx_desc w.trace q queue.rx_index old) ≡ true
    → Returns (Received kept q limit queue w) (receive_packets hw f q limit w)
unfolding receive_packets
receive_packets-Received hw kept f q limit w {queue} {old} whole closure m found v slot ready =
    let s = receiving queue w in
    let desc = hw.rx_desc w.trace q queue.rx_index old in
    rw (found, receive_packets, look_lem hw q queue.rx_index s slot, ready)
      (finished desc (receive_loop hw f limit q (looked q queue.rx_index desc s)) (
        receive_loop-Receives hw kept f limit q (looked q queue.rx_index desc s) whole closure
          (looked-IsReceiving q desc s v)))
  where
    finished :
        (d : AdvancedRxDescriptor) (r : Outcome Receiving (Unit {0}))
        → Returns (λ _ t. Receives kept limit (looked q queue.rx_index d (receiving queue w)) t) r
        → Returns
            (Received kept q limit queue w)
            (elim r [ ok _ t ↦ finish hw q t w | err e t ↦ err e w | panic ↦ panic | hang ↦ hang ])
    finished d (ok a t) c = finish-Received kept hw q limit w t d found v c m
    finished d (err e t) c = absurd c
    finished d panic c = absurd c
    finished d hang c = absurd c

-- The other ways of the call: a queue that does not exist is `invalid_queue` and nothing happens; if
-- the next descriptor is not done, the error is `not_ready`, one descriptor was read, and everything but
-- that descriptor is as before.
pub receive_packets-errors :
    (hw : Platform) (f : IgbNetBuf → Store → Store) (q limit : ℕ) (w : World)
    → (get_elem? w.dev.rx_queues q ≡ none → receive_packets hw f q limit w ≡ err invalid_queue w)
      × ((queue : IgbRxQueue) (old : AdvancedRxDescriptor)
          → get_elem? w.dev.rx_queues q ≡ some queue
          → get_elem? queue.descriptors queue.rx_index ≡ some old
          → done hw (hw.rx_desc w.trace q queue.rx_index old) ≡ false
          → (w' : World) × (receive_packets hw f q limit w ≡ err not_ready w')
            × (w'.store ≡ w.store)
            × (w'.trace ≡ read_rx q queue.rx_index ∷ w.trace)
            × (w'.dev ≡ record w.dev {
              rx_queues = set w.dev.rx_queues q (record queue {
                descriptors =
                    set queue.descriptors queue.rx_index (hw.rx_desc w.trace q queue.rx_index old);
              });
            }))
unfolding receive_packets
receive_packets-errors hw f q limit w = (
  (λ missing. rw (missing, receive_packets) refl),
  (λ queue old found slot idle. (
    received q queue.rx_index
        (looked q queue.rx_index (hw.rx_desc w.trace q queue.rx_index old) (receiving queue w)) w,
    rw (found, receive_packets, look_lem hw q queue.rx_index (receiving queue w) slot, idle) refl,
    refl,
    refl,
    refl,
  )),
)
