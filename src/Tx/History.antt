-- ===== src/Tx/History.antt =====
-- A send queue of src/igb.rs over time: any sequence of `send` and `recycle_tx_buffers`.
use mathlib.Core.List.{append_assoc}
use native.Mathlib.Decide.{dec_lt}
use igb_driver.Prelude.{
  ℕ, zero, suc, ◌+◌, ◌*◌, ◌<◌, ◌≡◌, ◌≢◌, ◌∙◌, ◌⊎◌, inl, inr, sym, ap, some, List, [], ◌∷◌, ◌++◌,
  length, get_elem?, get_elem?-lt, get_elem?-set_self, arith,
}
use igb_driver.Outcome.{Outcome, IgbError, ok, err, panic, hang, fail, then_run}
use igb_driver.Memory.Store.{IgbNetBuf, drop_packet}
use igb_driver.Registers.{igb_tdt}
use igb_driver.Device.{Platform, IgbTxQueue, World}
use igb_driver.Device.Access.{Mapped}
use igb_driver.Tx.{send, recycle_tx_buffers, in_store}
use igb_driver.Tx.Valid.{IsTxQueue}
use igb_driver.Tx.Send.{Sent, send-Sent, send-errors}
use igb_driver.Tx.Recycle.{recycle_tx_buffers-Cleans, recycle_tx_buffers-few}

-- A world with the entries that were sent on the queue so far, in order.
pub record Sending : Type 0 where
  pub world : World
  pub sent : List ℕ

-- A call that succeeded; the loop of `recycle_tx_buffers` has enough fuel.
pub data Step (hw : Platform) (q : ℕ) : Sending → Sending → Type 0 where
  sends :
      (s : Sending) (buf : IgbNetBuf) (w : World)
      → send hw q buf s.world ≡ ok tt w
      → Step hw q s (record { world = w; sent = s.sent ++ buf.packet.pool_entry ∷ [] })
  recycles :
      (s : Sending) (fuel : ℕ) (w : World)
      → ((queue : IgbTxQueue)
          → get_elem? s.world.dev.tx_queues q ≡ some queue
          → length queue.bufs_in_use < 32 * fuel)
      → recycle_tx_buffers hw fuel q s.world ≡ ok tt w
      → Step hw q s (record { world = w; sent = s.sent })

pub data Reach (hw : Platform) (q : ℕ) (s : Sending) : Sending → Type 0 where
  here : Reach hw q s s
  next : {t u : Sending} → Reach hw q s t → Step hw q t u → Reach hw q s u

-- The queue is valid, and what was sent is what was given back, followed by what is in use.
pub record IsSending (q : ℕ) (s : Sending) : Type 0 where
  pub queue : IgbTxQueue
  pub found : get_elem? s.world.dev.tx_queues q ≡ some queue
  pub valid : IsTxQueue queue
  pub mapped : Mapped s.world (igb_tdt q)
  pub given : List ℕ
  pub order : s.sent ≡ given ++ queue.bufs_in_use
  pub pool_known : (queue.bufs_in_use ≡ []) ⊎ ((arc : ℕ) × (queue.pool ≡ some arc))

pub never_ok :
    {w : World} (e : IgbError) (r : Outcome World (Unit {0}))
    → then_run {B = Unit {0}} r (λ _. fail e) ≢ ok tt w
never_ok e (ok a s) h = cc
never_ok e (err x s) h = cc
never_ok e panic h = cc
never_ok e hang h = cc

sends-IsSending :
    (hw : Platform) (q : ℕ) (s : Sending) (buf : IgbNetBuf) (w : World)
    → send hw q buf s.world ≡ ok tt w
    → IsSending q s
    → IsSending q (record { world = w; sent = s.sent ++ buf.packet.pool_entry ∷ [] })
sends-IsSending hw q s buf w e v =
    elim (dec_lt (length v.queue.bufs_in_use + 1) v.queue.num_descriptors) [
      | no full ↦
          let refused = (send-errors hw q s.world buf).1 v.queue v.found v.valid (omega arith) in
          absurd (never_ok _ (in_store (drop_packet buf.packet) s.world) (sym refused ∙ e))
      | yes room ↦
          let c : Sent q v.queue buf.packet s.world w =
            rw e at (send-Sent hw q s.world buf v.found v.valid room v.mapped) in
          record {
            queue = c.after;
            found = rw c.world (
                get_elem?-set_self s.world.dev.tx_queues q c.after
                  (get_elem?-lt s.world.dev.tx_queues q v.found));
            valid = c.valid;
            mapped = rw c.world v.mapped;
            given = v.given;
            order =
                ap (λ xs. xs ++ buf.packet.pool_entry ∷ []) v.order
                ∙ append_assoc v.given v.queue.bufs_in_use (buf.packet.pool_entry ∷ [])
                ∙ ap (λ xs. v.given ++ xs) (sym c.buffers);
            pool_known = inr (buf.packet.pool, c.pool);
          }
    ]

recycled-IsSending :
    (hw : Platform) (q arc fuel : ℕ) (s : Sending) (w : World) (v : IsSending q s)
    → v.queue.pool ≡ some arc
    → length v.queue.bufs_in_use < 32 * fuel
    → recycle_tx_buffers hw fuel q s.world ≡ ok tt w
    → IsSending q (record { world = w; sent = s.sent })
recycled-IsSending hw q arc fuel s w v p l e =
    let (t, world, c) =
      rw e at (recycle_tx_buffers-Cleans hw fuel q arc s.world v.found v.valid p l) in
    record {
      queue = record t.queue { clean_index = t.clean_index };
      found = rw world (
          get_elem?-set_self s.world.dev.tx_queues q _
            (get_elem?-lt s.world.dev.tx_queues q v.found));
      valid = c.valid;
      mapped = rw world v.mapped;
      given = v.given ++ c.released;
      order =
          v.order
          ∙ ap (λ xs. v.given ++ xs) c.split
          ∙ sym (append_assoc v.given c.released t.queue.bufs_in_use);
      pool_known = inr (arc, c.pool_kept ∙ p);
    }

idle-IsSending :
    (hw : Platform) (q fuel : ℕ) (s : Sending) (w : World) (v : IsSending q s)
    → v.queue.bufs_in_use ≡ []
    → length v.queue.bufs_in_use < 32 * fuel
    → recycle_tx_buffers hw fuel q s.world ≡ ok tt w
    → IsSending q (record { world = w; sent = s.sent })
idle-IsSending hw q zero s w v none_used l e = absurd (omega (arith, l))
idle-IsSending hw q (suc fuel) s w v none_used l e =
    let same =
      recycle_tx_buffers-few hw fuel q s.world v.found v.valid
        (omega (arith, ap length none_used)) in
    let unchanged : s.world ≡ w = cc in rw (← unchanged) v

Step-IsSending :
    (hw : Platform) (q : ℕ) {s t : Sending} → Step hw q s t → IsSending q s → IsSending q t
Step-IsSending hw q (sends s buf w e) v = sends-IsSending hw q s buf w e v
Step-IsSending hw q (recycles s fuel w enough e) v = elim v.pool_known [
  | inl unused ↦ idle-IsSending hw q fuel s w v unused (enough v.queue v.found) e
  | inr (arc, p) ↦ recycled-IsSending hw q arc fuel s w v p (enough v.queue v.found) e
]

-- Whatever is sent and recycled on a valid queue with a mapped tail register, the queue stays valid, and
-- the buffers in use are the last ones of those that were sent, in the order in which they were sent: no
-- buffer leaves the queue before one that was sent earlier.
pub Reach-IsSending :
    (hw : Platform) (q : ℕ) {s t : Sending} → Reach hw q s t → IsSending q s → IsSending q t
Reach-IsSending hw q here v = v
Reach-IsSending hw q (next r step) v = Step-IsSending hw q step (Reach-IsSending hw q r v)
