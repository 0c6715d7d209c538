-- ===== src/Nic/Sending.antt =====
-- Sending through the trait `NicDevice` (src/igb.rs) does what `can_send` tells.
use igb_driver.Prelude.{
  ℕ, ◌+◌, ◌≤◌, ◌≡◌, ◌∙◌, inl, inr, refl, Bool-cases, Option-cases, List, ◌∷◌, ◌++◌, length,
  get_elem?, arith,
}
use igb_driver.Outcome.{IgbError, err, invalid_queue, queue_full, Returns-ok, ◌>>◌, fail}
use igb_driver.Memory.{MemPool}
use igb_driver.Memory.Invariant.{IsPool}
use igb_driver.Memory.Store.{IgbNetBuf, drop_packet}
use igb_driver.Device.{Platform, World}
use igb_driver.Tx.{send, can_send, queue_can_send, in_store}
use igb_driver.Tx.Valid.{queue_can_send_iff}
use igb_driver.Tx.Send.{send-Sent, send-errors}
use igb_driver.Driver.Lines.{tail-Mapped}
use igb_driver.Driver.Sending.{sends-IsWorking}
use igb_driver.Driver.Holding.{refused-errs}
use igb_driver.Nic.{SendsAsTold}
use igb_driver.Nic.Igb.{igb_nic, with, IsInOrder}

module _ (hw : Platform) (arc : ℕ) (start : MemPool) (valid : IsPool start) where
  pub sends :
      (q : ℕ) (buf : IgbNetBuf) (before after : List ℕ) (w : World)
      → buf.packet.pool ≡ arc
      → IsInOrder hw arc start (before ++ buf.packet.pool_entry ∷ after) w
      → SendsAsTold (igb_nic hw) (IsInOrder hw arc start) q buf (before ++ after) w
  unfolding can_send
  sends q buf before after w at_arc order = elim (Option-cases (get_elem? w.dev.tx_queues q)) [
    | inl missing ↦
        let (t, e, fine) = refused invalid_queue in
        inl (rw (missing, can_send) refl, t, (send-errors hw q w buf).0 missing ∙ e, fine)
    | inr (queue, found) ↦
        let line = order.lines q queue found in
        elim (Bool-cases (queue_can_send queue)) [
          | inl room ↦
              let (_, t, e, _) = Returns-ok (send hw q buf w) (
                send-Sent hw q w buf found line.valid ((queue_can_send_iff line.valid).0 room) (
                  tail-Mapped {s = with (before ++ buf.packet.pool_entry ∷ after) w} order q
                    found)) in
              inr (
                inr (
                  rw (found, can_send, room) refl,
                  rw e (
                      sends-IsWorking {s = with (before ++ buf.packet.pool_entry ∷ after) w} order
                        hw q buf before after t at_arc refl e),
                ))
          | inr full ↦
              let (t, e, fine) = refused queue_full in
              let no_room : queue.num_descriptors ≤ length queue.bufs_in_use + 1 =
                ground (arith, queue_can_send_iff line.valid, full) in
              inr (
                inl (
                  rw (found, can_send, full) refl,
                  t,
                  (send-errors hw q w buf).1 queue found line.valid no_room ∙ e,
                  fine,
                ))
        ]
  ]
    where
      refused :
          (er : IgbError)
          → (t : World) × ((in_store (drop_packet buf.packet) >> fail {A = Unit {0}} er) w
              ≡ err er t)
            × IsInOrder hw arc start (before ++ after) t
      refused er =
          refused-errs valid {s = with (before ++ buf.packet.pool_entry ∷ after) w} order buf.packet
            before after at_arc refl er
