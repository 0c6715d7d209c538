-- ===== src/Driver/Sending.antt =====
-- Sending (src/igb.rs) keeps the whole driver in order.
use native.Mathlib.Decide.{dec_lt}
use igb_driver.Prelude.{
  ℕ, ◌+◌, ◌≡◌, ◌∙◌, ◌⊎◌, inl, inr, sym, ap, Option-cases, some, List, [], ◌∷◌, ◌++◌, length,
  get_elem?, arith,
}
use igb_driver.Outcome.{
  IgbError, ok, err, fail, ◌>>◌, invalid_queue, queue_full, Returns, Ends, Returns-Ends,
}
use igb_driver.Memory.{MemPool}
use igb_driver.Memory.Counts.{count, count-append}
use igb_driver.Memory.Invariant.{IsPool}
use igb_driver.Memory.Store.{IgbNetBuf, drop_packet}
use igb_driver.Device.{Platform, IgbTxQueue, World}
use igb_driver.Tx.{send, in_store}
use igb_driver.Tx.Send.{Sent, send-Sent, send-errors}
use igb_driver.Tx.History.{never_ok}
use igb_driver.Driver.Holding.{refused-IsWorking, refused-Ends}
use igb_driver.Driver.{Working, IsWorking}
use igb_driver.Driver.Lines.{moved-IsWorking, tail-Mapped}

module _ {arc : ℕ} {start : MemPool} {s : Working} (v : IsWorking arc start s) where
  count-between :
      (a x : ℕ) (before after : List ℕ)
      → count a (before ++ x ∷ after) ≡ count a (before ++ after) + count a (x ∷ [])
  unfolding count
  count-between a x before after =
      omega (arith, count-append a before (x ∷ after), count-append a before after)

  module _ (hw : Platform) (q : ℕ) where
    -- A buffer is accepted, or dropped.
    send-cases :
        (buf : IgbNetBuf)
        → ((queue : IgbTxQueue) × (get_elem? s.world.dev.tx_queues q ≡ some queue)
            × Returns {A = Unit {0}}
                (λ _ w. Sent q queue buf.packet s.world w)
                (send hw q buf s.world))
          ⊎ ((er : IgbError) × (send hw q buf s.world
                ≡ (in_store (drop_packet buf.packet) >> fail {A = Unit {0}} er) s.world))
    send-cases buf = elim (Option-cases (get_elem? s.world.dev.tx_queues q)) [
      | inl missing ↦ inr (invalid_queue, (send-errors hw q s.world buf).0 missing)
      | inr (queue, found) ↦
          let line = v.lines q queue found in
          elim (dec_lt (length queue.bufs_in_use + 1) queue.num_descriptors) [
            | no full ↦
                inr (
                  queue_full,
                  (send-errors hw q s.world buf).1 queue found line.valid (omega arith),
                )
            | yes room ↦ inl (
              queue,
              found,
              send-Sent hw q s.world buf found line.valid room (tail-Mapped v q found),
            )
          ]
    ]

    accepted-IsWorking :
        (buf : IgbNetBuf) (before after : List ℕ) (w : World) (queue : IgbTxQueue)
        → buf.packet.pool ≡ arc
        → s.clients ≡ before ++ buf.packet.pool_entry ∷ after
        → get_elem? s.world.dev.tx_queues q ≡ some queue
        → Sent q queue buf.packet s.world w
        → IsWorking arc start (record { world = w; clients = before ++ after })
    accepted-IsWorking buf before after w queue at_arc holds found c =
        moved-IsWorking v q queue c.after w (before ++ after) found
          (ap (λ (x : World). x.dev) c.world)
          (record { valid = c.valid; pool = inr (c.pool ∙ ap some at_arc) })
          (ap (λ (x : World). (x.store.pools arc).num_entries) c.world)
          (ap (λ (x : World). (x.store.pools arc).phys_addr) c.world)
          (λ a. omega (
            arith,
            ap (λ (x : World). count a (x.store.pools arc).free_stack) c.world,
            ap (count a) c.buffers,
            count-append a queue.bufs_in_use (buf.packet.pool_entry ∷ []),
            ap (count a) holds,
            count-between a buf.packet.pool_entry before after,
          ))

    -- Sending a buffer that a client holds keeps the driver in order.
    pub sends-IsWorking :
        (buf : IgbNetBuf) (before after : List ℕ) (w : World)
        → buf.packet.pool ≡ arc
        → s.clients ≡ before ++ buf.packet.pool_entry ∷ after
        → send hw q buf s.world ≡ ok tt w
        → IsWorking arc start (record { world = w; clients = before ++ after })
    sends-IsWorking buf before after w at_arc holds e = elim (send-cases buf) [
      | inl (queue, found, c) ↦
          accepted-IsWorking buf before after w queue at_arc holds found (rw e at c)
      | inr (er, refused) ↦
          absurd (never_ok er (in_store (drop_packet buf.packet) s.world) (sym refused ∙ e))
    ]

    -- So does a call that drops the buffer.
    pub sends_nothing-IsWorking :
        IsPool start
        → (buf : IgbNetBuf) (before after : List ℕ) (er : IgbError) (w : World)
        → buf.packet.pool ≡ arc
        → s.clients ≡ before ++ buf.packet.pool_entry ∷ after
        → send hw q buf s.world ≡ err er w
        → IsWorking arc start (record { world = w; clients = before ++ after })
    sends_nothing-IsWorking valid buf before after er w at_arc holds e = elim (send-cases buf) [
      | inl (queue, found, c) ↦ absurd (rw e at c)
      | inr (er', refused) ↦
          refused-IsWorking valid v buf.packet before after at_arc holds er' er w (sym refused ∙ e)
    ]

    -- A call comes back.
    pub send-Ends :
        IsPool start
        → (buf : IgbNetBuf) (before after : List ℕ) → buf.packet.pool ≡ arc
        → s.clients ≡ before ++ buf.packet.pool_entry ∷ after
        → Ends (send hw q buf s.world)
    send-Ends valid buf before after at_arc holds = elim (send-cases buf) [
      | inl (queue, found, c) ↦ Returns-Ends _ _ c
      | inr (er, refused) ↦
          rw refused (refused-Ends valid v buf.packet before after at_arc holds er)
    ]
