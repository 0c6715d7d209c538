-- ===== src/Nic/Receiving.antt =====
-- Receiving through the trait `NicDevice` (src/igb.rs) does what `can_receive` tells.
use igb_driver.Prelude.{
  ℕ, ◌≤◌, ◌≡◌, ◌⊎◌, inl, inr, refl, Bool, true, false, Bool-cases, Option-cases, List, ◌++◌, length,
  some, get_elem?, get_elem?-some, arith,
}
use igb_driver.Outcome.{Outcome, ok, err, panic, hang, not_ready, Returns}
use igb_driver.Memory.{MemPool}
use igb_driver.Memory.Invariant.{IsPool}
use igb_driver.Memory.Store.{Store, IgbNetBuf}
use igb_driver.Device.{Platform, IgbRxQueue, World}
use igb_driver.Descriptor.Rx.{AdvancedRxDescriptor}
use igb_driver.Rx.{receive_packets, can_receive, done, received, looked, receiving}
use igb_driver.Rx.Round.{HasWholeFrames, look_lem}
use igb_driver.Rx.Received.{Received}
use igb_driver.Rx.Packets.{receive_packets-errors}
use igb_driver.Rx.Closure.{IsClosure, kept_of, entries}
use igb_driver.Driver.Rings.{looked-IsWorking}
use igb_driver.Driver.Receiving.{ready-Received, receives-IsWorking}
use igb_driver.Nic.{ReceivesAsTold}
use igb_driver.Nic.Igb.{igb_nic, with, IsInOrder}

module _ (hw : Platform) (arc : ℕ) (start : MemPool) (valid : IsPool start)
    (whole : HasWholeFrames hw) where
  receives_found :
      (kept : IgbNetBuf → Bool) (f : IgbNetBuf → Store → Store) (q limit : ℕ) (clients : List ℕ)
      (w : World)
      → IsClosure kept f
      → IsInOrder hw arc start clients w
      → (queue : IgbRxQueue) (old : AdvancedRxDescriptor) → get_elem? w.dev.rx_queues q ≡ some queue
      → get_elem? queue.descriptors queue.rx_index ≡ some old
      → ((t : World) × (can_receive hw q w ≡ ok false t)
          × (receive_packets hw f q limit w ≡ err not_ready t)
          × IsInOrder hw arc start clients t)
        ⊎ ((t : World) × (can_receive hw q w ≡ ok true t)
            × IsInOrder hw arc start clients t
            × Returns
                (λ r u.
                  (r.0 ≡ length r.1)
                  × (r.0 ≤ limit)
                  × IsInOrder hw arc start (entries (kept_of kept r.1) ++ clients) u)
                (receive_packets hw f q limit w))
  unfolding can_receive receive_packets
  receives_found kept f q limit clients w closure order queue old found slot =
      let desc = hw.rx_desc w.trace q queue.rx_index old in
      let t = received q queue.rx_index (looked q queue.rx_index desc (receiving queue w)) w in
      let seen = look_lem hw q queue.rx_index (receiving queue w) slot in
      let fine : IsInOrder hw arc start clients t =
        looked-IsWorking valid {s = with clients w} order q t queue desc found refl refl in
      elim (Bool-cases (done hw desc)) [
        | inl ready ↦
            let received_some =
              ready-Received valid {s = with clients w} order hw whole kept f closure q limit queue
                old found slot ready in
            inr (t, rw (found, can_receive, seen, ready) refl, fine, in_order _ refl received_some)
        | inr idle ↦ inl (
          t,
          rw (found, can_receive, seen, idle) refl,
          rw (found, receive_packets, seen, idle) refl,
          fine,
        )
      ]
    where
      in_order :
          (r : Outcome World (ℕ × List IgbNetBuf))
          → receive_packets hw f q limit w ≡ r
          → Returns (Received kept q limit queue w) r
          → Returns
              (λ r u.
                (r.0 ≡ length r.1)
                × (r.0 ≤ limit)
                × IsInOrder hw arc start (entries (kept_of kept r.1) ++ clients) u)
              r
      in_order (ok (n, bufs) u) e c = (
        c.counted,
        c.bounded,
        receives-IsWorking valid {s = with clients w} order hw whole kept f closure q limit n bufs u
            e,
      )
      in_order (err er u) e c = c
      in_order panic e c = c
      in_order hang e c = c

  pub receives :
      (kept : IgbNetBuf → Bool) (f : IgbNetBuf → Store → Store) (q limit : ℕ) (clients : List ℕ)
      (w : World)
      → IsClosure kept f
      → IsInOrder hw arc start clients w
      → ReceivesAsTold (igb_nic hw) (IsInOrder hw arc start) kept f q limit clients w
  unfolding can_receive
  receives kept f q limit clients w closure order =
      elim (Option-cases (get_elem? w.dev.rx_queues q)) [
        | inl missing ↦
            inl (rw (missing, can_receive) refl, (receive_packets-errors hw f q limit w).0 missing)
        | inr (queue, found) ↦
            let ring = order.rings q queue found in
            let (old, slot) =
              get_elem?-some queue.descriptors queue.rx_index
                (omega (arith, ring.slots, ring.rx_in)) in
            inr (receives_found kept f q limit clients w closure order queue old found slot)
      ]
