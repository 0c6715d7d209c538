-- ===== src/Tx/Progress.antt =====
-- When the card has sent everything, recycling (src/igb.rs) makes room.
use mathlib.Core.List.{append_assoc}
use igb_driver.Prelude.{
  ap, [], ◌∷◌, ◌++◌, length-append, ℕ, ◌+◌, ◌*◌, ◌≤◌, ◌<◌, ◌≡◌, ◌∙◌, inl, inr, sym, List, some,
  length, get_elem?, get_elem?-lt, get_elem?-set_self, arith,
}
use igb_driver.Outcome.{Returns, Returns-map, Returns-bind, ◌>>◌}
use igb_driver.Descriptor.Tx.{AdvancedTxDescriptor}
use igb_driver.Memory.Store.{IgbNetBuf}
use igb_driver.Registers.{igb_tdt}
use igb_driver.Device.{Platform, Event, IgbTxQueue, World}
use igb_driver.Device.Access.{Mapped}
use igb_driver.Tx.{send, recycle_tx_buffers, Cleaning}
use igb_driver.Tx.Valid.{IsTxQueue}
use igb_driver.Tx.Batches.{IsDone}
use igb_driver.Tx.Send.{Sent, send-Sent}
use igb_driver.Tx.Recycle.{Cleans, recycle_tx_buffers-Cleans}

-- The card reports every descriptor of the queue as done.
abbrev pub AllDone : Platform → ℕ → Type 0
AllDone hw q =
    (events : List Event) (i : ℕ) (desc : AdvancedTxDescriptor)
    → IsDone (hw.tx_desc events q i desc)

-- Then the loop stops only when fewer than 32 buffers are left.
pub Cleans-few :
    {hw : Platform} {q arc : ℕ} {s t : Cleaning}
    → AllDone hw q
    → Cleans hw q arc s t
    → length t.queue.bufs_in_use < 32
Cleans-few {hw} {q} all c = elim c.stopped [
  | inl (few, _) ↦ few
  | inr (desc, _, (old, e), _, unsent) ↦ absurd (unsent (rw e (all c.seen_trace _ old)))
]

-- A valid queue of more than 32 descriptors never stays full: once the card has sent everything,
-- recycling with enough fuel, and then sending, succeeds, however full the queue was. Of the buffers in
-- use and the one that was sent the last ones are in use afterwards, at most 32.
pub recycle_tx_buffers-send :
    (hw : Platform) (fuel q arc : ℕ) (w : World) {queue : IgbTxQueue} (buf : IgbNetBuf)
    → get_elem? w.dev.tx_queues q ≡ some queue
    → IsTxQueue queue
    → queue.pool ≡ some arc
    → 32 < queue.num_descriptors
    → length queue.bufs_in_use < 32 * fuel
    → Mapped w (igb_tdt q)
    → AllDone hw q
    → Returns {A = Unit {0}}
        (λ _ w'.
          (after : IgbTxQueue) × (released : List ℕ) × (get_elem? w'.dev.tx_queues q ≡ some after)
          × IsTxQueue after
          × (queue.bufs_in_use ++ buf.packet.pool_entry ∷ [] ≡ released ++ after.bufs_in_use)
          × (length after.bufs_in_use ≤ 32))
        ((recycle_tx_buffers hw fuel q >> send hw q buf) w)
recycle_tx_buffers-send hw fuel q arc w {queue} buf found v p large l m all =
    Returns-bind _ (recycle_tx_buffers hw fuel q w) (λ _. send hw q buf)
      (recycle_tx_buffers-Cleans hw fuel q arc w found v p l)
      (λ _ w' (t, world, c).
        let few = Cleans-few all c in
        let before : IgbTxQueue = record t.queue { clean_index = t.clean_index } in
        let there : get_elem? w'.dev.tx_queues q ≡ some before =
          rw world
            (get_elem?-set_self w.dev.tx_queues q _ (get_elem?-lt w.dev.tx_queues q found)) in
        let room : length t.queue.bufs_in_use + 1 < t.queue.num_descriptors =
          omega (arith, few, c.size_kept, large) in
        Returns-map (send hw q buf w')
          (λ _ w'' (d : Sent q before buf.packet w' w''). (
            d.after,
            c.released,
            rw d.world
                (get_elem?-set_self w'.dev.tx_queues q _ (get_elem?-lt w'.dev.tx_queues q there)),
            d.valid,
            ap (λ xs. xs ++ buf.packet.pool_entry ∷ []) c.split
                ∙ append_assoc c.released t.queue.bufs_in_use (buf.packet.pool_entry ∷ [])
                ∙ ap (λ xs. c.released ++ xs) (sym d.buffers),
            omega (
              arith,
              few,
              ap length d.buffers,
              length-append t.queue.bufs_in_use (buf.packet.pool_entry ∷ []),
            ),
          ))
          (send-Sent hw q w' buf there c.valid room (rw world m)))
