-- ===== src/Driver.antt =====
-- The whole driver at work (src/igb.rs, src/memory.rs): the queues of a device on one pool, and the
-- clients that hold buffers of it, through any sequence of calls.
pub mod Receiving
pub mod Rings
pub mod Lines
pub mod Sending
pub mod Recycling
pub mod Holding
pub mod Reaching
pub mod Ending
use igb_driver.Prelude.{
  Bool, ℕ, zero, suc, ◌+◌, ◌*◌, ◌^◌, ◌≤◌, ◌<◌, ◌≡◌, ◌⊎◌, some, List, [], ◌∷◌, ◌++◌, length,
  get_elem?, set, arith, inl, inr, sym, ◌∙◌, ◌==◌, ==_iff, Bool-cases, get_elem?-set_self,
  get_elem?-set_ne,
}
use igb_driver.Outcome.{IgbError, ok, err}
use igb_driver.Memory.{MemPool, Packet}
use igb_driver.Memory.Counts.{count}
use igb_driver.Memory.Store.{Store, IgbNetBuf, alloc, drop_packet}
use igb_driver.Device.{Platform, IgbRxQueue, IgbTxQueue, IgbDevice, World}
use igb_driver.Device.Triples.{IsMapped}
use igb_driver.Ring.PowerOfTwo.{IsPowerOfTwo}
use igb_driver.Rx.{receive_packets}
use igb_driver.Rx.Closure.{IsClosure, kept_of, entries}
use igb_driver.Tx.{send, recycle_tx_buffers}
use igb_driver.Tx.Valid.{IsTxQueue}
use igb_driver.Init.Sharing.{held_by}

-- The world with the entries whose buffers the clients hold.
pub record Working : Type 0 where
  pub world : World
  pub clients : List ℕ

-- One call. The clients hold the packets that the closure of a receiving call keeps. A client drops or
-- sends only a buffer of the pool that it holds, which is no longer its own then, whether or not it could be
-- sent.
pub data Step (hw : Platform) (arc : ℕ) (s : Working) : Working → Type 0 where
  receives :
      (kept : IgbNetBuf → Bool) (f : IgbNetBuf → Store → Store) (q limit n : ℕ)
      (bufs : List IgbNetBuf) (w : World)
      → IsClosure kept f
      → receive_packets hw f q limit s.world ≡ ok (n, bufs) w
      → Step hw arc s (record { world = w; clients = entries (kept_of kept bufs) ++ s.clients })
  receives_nothing :
      (kept : IgbNetBuf → Bool) (f : IgbNetBuf → Store → Store) (q limit : ℕ) (e : IgbError)
      (w : World)
      → IsClosure kept f
      → receive_packets hw f q limit s.world ≡ err e w
      → Step hw arc s (record { world = w; clients = s.clients })
  allocates :
      (size : ℕ) (buf : IgbNetBuf) (store : Store)
      → alloc arc size s.world.store ≡ ok buf store
      → Step hw arc s (record {
        world = record s.world { store = store };
        clients = buf.packet.pool_entry ∷ s.clients;
      })
  allocates_nothing :
      (size : ℕ) (e : IgbError) (store : Store)
      → alloc arc size s.world.store ≡ err e store
      → Step hw arc s (record { world = record s.world { store = store }; clients = s.clients })
  drops :
      (buf : IgbNetBuf) (before after : List ℕ) (store : Store)
      → buf.packet.pool ≡ arc
      → s.clients ≡ before ++ buf.packet.pool_entry ∷ after
      → drop_packet buf.packet s.world.store ≡ ok tt store
      → Step hw arc s
          (record { world = record s.world { store = store }; clients = before ++ after })
  sends :
      (q : ℕ) (buf : IgbNetBuf) (before after : List ℕ) (w : World)
      → buf.packet.pool ≡ arc
      → s.clients ≡ before ++ buf.packet.pool_entry ∷ after
      → send hw q buf s.world ≡ ok tt w
      → Step hw arc s (record { world = w; clients = before ++ after })
  sends_nothing :
      (q : ℕ) (buf : IgbNetBuf) (before after : List ℕ) (e : IgbError) (w : World)
      → buf.packet.pool ≡ arc
      → s.clients ≡ before ++ buf.packet.pool_entry ∷ after
      → send hw q buf s.world ≡ err e w
      → Step hw arc s (record { world = w; clients = before ++ after })
  recycles :
      (q fuel : ℕ) (w : World)
      → ((queue : IgbTxQueue)
          → get_elem? s.world.dev.tx_queues q ≡ some queue
          → length queue.bufs_in_use < 32 * fuel)
      → recycle_tx_buffers hw fuel q s.world ≡ ok tt w
      → Step hw arc s (record { world = w; clients = s.clients })

pub data Reach (hw : Platform) (arc : ℕ) (s : Working) : Working → Type 0 where
  here : Reach hw arc s s
  next : {t u : Working} → Reach hw arc s t → Step hw arc t u → Reach hw arc s u

-- How often an entry is the buffer of a packet that is being sent.
unfoldable pub sent_by : ℕ → List IgbTxQueue → ℕ
unfolding count
sent_by a [] = 0
sent_by a (queue ∷ queues) = count a queue.bufs_in_use + sent_by a queues

pub sent_by-set :
    (a : ℕ) (queues : List IgbTxQueue) (i : ℕ) {old : IgbTxQueue} (new : IgbTxQueue)
    → get_elem? queues i ≡ some old
    → sent_by a (set queues i new) + count a old.bufs_in_use
      ≡ sent_by a queues + count a new.bufs_in_use
unfolding sent_by
sent_by-set a [] i new e = ground arith
sent_by-set a (queue ∷ queues) zero new e = ground arith
sent_by-set a (queue ∷ queues) (suc i) new e = omega (arith, sent_by-set a queues i new e)

-- A receive queue on the pool `arc`, apart from where its buffers come from.
pub record IsRing (arc : ℕ) (queue : IgbRxQueue) : Type 0 where
  pub pool : queue.pool ≡ arc
  pub power : IsPowerOfTwo queue.num_descriptors
  pub small : queue.num_descriptors < 2 ^ 31
  pub slots : length queue.descriptors ≡ queue.num_descriptors
  pub held : length queue.bufs_in_use ≡ queue.num_descriptors
  pub rx_in : queue.rx_index < queue.num_descriptors

-- A send queue that is idle or has buffers of the pool `arc`.
pub record IsLine (arc : ℕ) (queue : IgbTxQueue) : Type 0 where
  pub valid : IsTxQueue queue
  pub pool : (queue.bufs_in_use ≡ []) ⊎ (queue.pool ≡ some arc)

-- Every entry of the pool that was free at the start is free, in a receive descriptor, being sent or held
-- by a client, and only one of these; and every queue is in order.
pub record IsWorking (arc : ℕ) (start : MemPool) (s : Working) : Type 0 where
  pub mapped : IsMapped s.world.dev
  pub few_rx : length s.world.dev.rx_queues ≤ 64
  pub few_tx : length s.world.dev.tx_queues ≤ 64
  pub rings :
      (i : ℕ) (queue : IgbRxQueue)
      → get_elem? s.world.dev.rx_queues i ≡ some queue
      → IsRing arc queue
  pub lines :
      (i : ℕ) (queue : IgbTxQueue)
      → get_elem? s.world.dev.tx_queues i ≡ some queue
      → IsLine arc queue
  pub size : (s.world.store.pools arc).num_entries ≡ start.num_entries
  pub addresses : length (s.world.store.pools arc).phys_addr ≡ (s.world.store.pools arc).num_entries
  pub conserved :
      (a : ℕ)
      → count a (s.world.store.pools arc).free_stack
          + held_by a s.world.dev.rx_queues
          + sent_by a s.world.dev.tx_queues
          + count a s.clients
        ≡ count a start.free_stack

-- What holds of every queue holds if one of them is replaced by one of which it holds.
pub every-set :
    {A : Type 0} (P : A → Type 0) (queues : List A) (q : ℕ) (after : A)
    → q < length queues
    → P after
    → ((i : ℕ) (queue : A) → get_elem? queues i ≡ some queue → P queue)
    → (i : ℕ) (queue : A) → get_elem? (set queues q after) i ≡ some queue
    → P queue
every-set P queues q after h new every i queue found = elim (Bool-cases (i == q)) [
  | inl e ↦
      let same = (==_iff i q).0 e in
      let there = get_elem?-set_self queues q after h in
      let is_after : after ≡ queue = cc in rw (← is_after) new
  | inr e ↦ every i queue (sym (get_elem?-set_ne queues after (λ z. ground (arith, e, z))) ∙ found)
]
