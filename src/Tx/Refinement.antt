-- ===== src/Tx/Refinement.antt =====
-- A send queue of src/igb.rs as a bounded queue: a client that asks `can_send` before it calls `send`,
-- and recycles when it likes.
use native.Mathlib.Decide.{dec_lt}
use igb_driver.Prelude.{
  ℕ, suc, ◌+◌, ◌*◌, ◌≤◌, ◌<◌, ◌≡◌, ◌⊎◌, ◌∙◌, inl, inr, refl, sym, ap, Bool, true, false, some, List,
  [], ◌∷◌, ◌++◌, length, get_elem?, get_elem?-lt, get_elem?-set_self, Bool-cases, arith,
}
use igb_driver.Outcome.{pure, Returns, Returns-map, Returns-bind, ◌>>=◌, ◌>>◌}
use igb_driver.Memory.Store.{IgbNetBuf}
use igb_driver.Registers.{igb_tdt}
use igb_driver.Device.{Platform, IgbTxQueue, World, M}
use igb_driver.Device.Access.{Mapped}
use igb_driver.Tx.{can_send, queue_can_send, send, recycle_tx_buffers}
use igb_driver.Tx.Valid.{IsTxQueue, in_use-lt, queue_can_send_iff}
use igb_driver.Tx.Send.{Sent, send-Sent}
use igb_driver.Tx.Recycle.{recycle_tx_buffers-Cleans, recycle_tx_buffers-few}

pub data Op : Type 0 where
  sends : IgbNetBuf → Op
  recycles : Op

module _ (hw : Platform) (q : ℕ) where
  -- A client that sends only if there is room; the answer says whether it did.
  unfoldable pub try_send : IgbNetBuf → M Bool
  unfolding can_send send
  try_send buf =
      can_send q >>= λ room. elim room [ true ↦ send hw q buf >> pure true | false ↦ pure false ]

  -- The answers of the sends of a client; the loop of `recycle_tx_buffers` has `n + 1` rounds.
  unfoldable pub run : ℕ → List Op → M (List Bool)
  unfolding try_send recycle_tx_buffers
  run n [] = pure []
  run n (sends buf ∷ ops) = do answer ← try_send buf; answers ← run n ops; pure (answer ∷ answers)
  run n (recycles ∷ ops) = recycle_tx_buffers hw (suc n) q >> run n ops

-- A queue of entries with `n - 1` places: what may become of the entries `xs`, and the answers. A send
-- adds an entry at the end if there is a place; recycling takes some batches of 32 from the front.
pub data Bounded (n : ℕ) : List Op → List ℕ → List Bool → List ℕ → Type 0 where
  done : (xs : List ℕ) → Bounded n [] xs [] xs
  accepts :
      {ops : List Op} {xs ys : List ℕ} {answers : List Bool} (buf : IgbNetBuf)
      → length xs + 1 < n
      → Bounded n ops (xs ++ buf.packet.pool_entry ∷ []) answers ys
      → Bounded n (sends buf ∷ ops) xs (true ∷ answers) ys
  refuses :
      {ops : List Op} {xs ys : List ℕ} {answers : List Bool} (buf : IgbNetBuf)
      → n ≤ length xs + 1
      → Bounded n ops xs answers ys
      → Bounded n (sends buf ∷ ops) xs (false ∷ answers) ys
  shrinks :
      {ops : List Op} {xs zs ys : List ℕ} {answers : List Bool} (batches : ℕ) (released : List ℕ)
      → xs ≡ released ++ zs
      → length released ≡ 32 * batches
      → Bounded n ops zs answers ys
      → Bounded n (recycles ∷ ops) xs answers ys

-- The queue `q` is valid, has `n` descriptors, and its buffers in use are `xs`.
pub record Models (q n : ℕ) (w : World) (xs : List ℕ) : Type 0 where
  pub queue : IgbTxQueue
  pub found : get_elem? w.dev.tx_queues q ≡ some queue
  pub valid : IsTxQueue queue
  pub size : queue.num_descriptors ≡ n
  pub buffers : queue.bufs_in_use ≡ xs
  pub mapped : Mapped w (igb_tdt q)
  pub pool_known : (xs ≡ []) ⊎ ((arc : ℕ) × (queue.pool ≡ some arc))

module _ (hw : Platform) (q n : ℕ) where
  send-Models :
      (buf : IgbNetBuf) (w : World) (xs : List ℕ)
      → Models q n w xs
      → length xs + 1 < n
      → Returns (λ _ w'. Models q n w' (xs ++ buf.packet.pool_entry ∷ [])) (send hw q buf w)
  send-Models buf w xs m room =
      Returns-map (send hw q buf w)
        (λ _ w' (c : Sent q m.queue buf.packet w w'). record {
          queue = c.after;
          found = rw c.world (
              get_elem?-set_self w.dev.tx_queues q c.after
                (get_elem?-lt w.dev.tx_queues q m.found));
          valid = c.valid;
          size = c.size_kept ∙ m.size;
          buffers = c.buffers ∙ ap (λ ys. ys ++ buf.packet.pool_entry ∷ []) m.buffers;
          mapped = rw c.world m.mapped;
          pool_known = inr (buf.packet.pool, c.pool);
        })
        (send-Sent hw q w buf m.found m.valid (omega (arith, room, m.size, ap length m.buffers))
          m.mapped)

  recycle-Models :
      (w : World) (xs : List ℕ)
      → Models q n w xs
      → Returns {A = Unit {0}}
          (λ _ w'.
            (batches : ℕ) × (released : List ℕ) × (zs : List ℕ) × (xs ≡ released ++ zs)
            × (length released ≡ 32 * batches)
            × Models q n w' zs)
          (recycle_tx_buffers hw (suc n) q w)
  recycle-Models w xs m = elim m.pool_known [
    | inl unused ↦
        rw
          (recycle_tx_buffers-few hw n q w m.found m.valid
            (omega (arith, ap length m.buffers, ap length unused)))
          (0, [], xs, refl, refl, m)
    | inr (arc, p) ↦
        Returns-map (recycle_tx_buffers hw (suc n) q w)
          (λ _ w' (t, world, c). (
            c.batches,
            c.released,
            t.queue.bufs_in_use,
            sym m.buffers ∙ c.split,
            c.whole,
            record {
              queue = record t.queue { clean_index = t.clean_index };
              found =
                  rw world (
                    get_elem?-set_self w.dev.tx_queues q _
                      (get_elem?-lt w.dev.tx_queues q m.found));
              valid = c.valid;
              size = c.size_kept ∙ m.size;
              buffers = refl;
              mapped = rw world m.mapped;
              pool_known = inr (arc, c.pool_kept ∙ p);
            },
          ))
          (recycle_tx_buffers-Cleans hw (suc n) q arc w m.found m.valid p
            (omega (arith, in_use-lt m.valid, m.size)))
  ]

  try_send-Models :
      (buf : IgbNetBuf) (w : World) (xs : List ℕ)
      → Models q n w xs
      → Returns
          (λ answer w'.
            ((answer ≡ true)
              × (length xs + 1 < n)
              × Models q n w' (xs ++ buf.packet.pool_entry ∷ []))
            ⊎ ((answer ≡ false) × (n ≤ length xs + 1) × Models q n w' xs))
          (try_send hw q buf w)
  unfolding try_send can_send
  try_send-Models buf w xs m = elim (Bool-cases (queue_can_send m.queue)) [
    | inl e ↦
        let room : length xs + 1 < n =
          omega (arith, (queue_can_send_iff m.valid).0 e, m.size, ap length m.buffers) in
        rw (m.found, try_send, can_send, e)
          (Returns-bind _ (send hw q buf w) (λ _. pure true) (send-Models buf w xs m room)
            (λ _ w' m'. inl (refl, room, m')))
    | inr e ↦
        let full : n ≤ length xs + 1 = elim (dec_lt (length xs + 1) n) [
          | yes room ↦
              let free =
                (queue_can_send_iff m.valid).1 (omega (arith, room, m.size, ap length m.buffers)) in
              cc
          | no many ↦ omega arith
        ] in
        rw (m.found, try_send, can_send, e) (inr (refl, full, m))
  ]

  -- Whatever a client sends and recycles on a valid queue of `n` descriptors with a mapped tail register,
  -- asking for room before each send: the calls return, and their answers and the buffers in use at the
  -- end are those of a bounded queue with `n - 1` places, of which recycling takes batches of 32 from the
  -- front. The queue is valid again at the end.
  pub run-Bounded :
      (ops : List Op) (w : World) (xs : List ℕ)
      → Models q n w xs
      → Returns
          (λ answers w'. (ys : List ℕ) × Bounded n ops xs answers ys × Models q n w' ys)
          (run hw q n ops w)
  unfolding run
  run-Bounded [] w xs m = (xs, done xs, m)
  run-Bounded (sends buf ∷ ops) w xs m =
      Returns-bind _ (try_send hw q buf w) _ (try_send-Models buf w xs m) (λ answer v c. elim c [
        | inl (yes_sent, room, m') ↦
            Returns-bind _ (run hw q n ops v) _ (run-Bounded ops v _ m')
              (λ answers w' (ys, b, m''). (ys, rw yes_sent (accepts buf room b), m''))
        | inr (refused, full, m') ↦
            Returns-bind _ (run hw q n ops v) _ (run-Bounded ops v xs m')
              (λ answers w' (ys, b, m''). (ys, rw refused (refuses buf full b), m''))
      ])
  run-Bounded (recycles ∷ ops) w xs m =
      Returns-bind _ (recycle_tx_buffers hw (suc n) q w) _ (recycle-Models w xs m)
        (λ _ v (batches, released, zs, split, whole, m').
          Returns-map (run hw q n ops v)
            (λ answers w' (ys, b, m''). (ys, shrinks batches released split whole b, m''))
            (run-Bounded ops v zs m'))
