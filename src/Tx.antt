-- ===== src/Tx.antt =====
-- src/igb.rs: the transmit queues, `send`, `recycle_tx_buffers` and `can_send`. The casts of ring
-- indices to `i32` are exact, since a ring has fewer than 2^31 descriptors.
pub mod Valid
pub mod Send
pub mod Batches
pub mod Recycle
pub mod Pools
pub mod Refusing
pub mod History
pub mod Refinement
pub mod Progress
use igb_driver.Prelude.{
  ℕ, zero, suc, ◌+◌, ◌-◌, Bool, true, false, not, Option, none, some, List, [], ◌∷◌, ◌++◌, leb, ltb,
  ◌==◌, if◌then◌else◌, bit_and, get_elem?, set, take, drop, length,
}
use igb_driver.Word.{as_u16, as_u32}
use igb_driver.Outcome.{
  Outcome, Run, ok, err, panic, hang, pure, fail, panics, unwrap, zoom, ◌>>=◌, ◌>>◌, invalid_queue,
  queue_full,
}
use igb_driver.Descriptor.Tx
use igb_driver.Descriptor.Tx.{AdvancedTxDescriptor}
use igb_driver.Memory.{MemPool, Packet, extend}
use igb_driver.Memory.Store.{Store, put_pool, drop_packet, IgbNetBuf}
use igb_driver.Ring.{wrap_ring}
use igb_driver.Registers.{igb_tdt, igb_advtxd_stat_dd}
use igb_driver.Device.{Platform, Event, read_tx, IgbTxQueue, IgbDevice, World, M, event, set_reg32}

abbrev pub tx_clean_batch : ℕ
tx_clean_batch = 32

-- `IgbTxQueue::can_send`
unfoldable pub queue_can_send : IgbTxQueue → Bool
queue_can_send queue = not (wrap_ring queue.tx_index queue.num_descriptors == queue.clean_index)

abbrev pub put_tx : ℕ → IgbTxQueue → World → World
put_tx q queue w = record w { dev = record w.dev { tx_queues = set w.dev.tx_queues q queue } }

unfoldable pub can_send : ℕ → M Bool
unfolding queue_can_send
can_send q w = elim (get_elem? w.dev.tx_queues q) [
  | none ↦ err invalid_queue w
  | some queue ↦ ok (queue_can_send queue) w
]

-- The store of the pools as a part of the world.
abbrev pub in_store {ℓ} : {A : Type ℓ} → Run Store A → M A
in_store = zoom (λ w. w.store) (λ s w. record w { store = s })

-- The pool that the queue has after a packet of the pool `arc` came.
abbrev pub queue_pool : Option ℕ → ℕ → Option ℕ
queue_pool none arc = some arc
queue_pool (some old) arc = if old == arc then some old else some arc

-- The assertion that the pools are the same.
abbrev assert_pool : Option ℕ → ℕ → M (Unit {0})
assert_pool none arc = panics
assert_pool (some pool) arc = if pool == arc then pure tt else panics

abbrev put_queue : ℕ → IgbTxQueue → M (Unit {0})
put_queue q queue w = ok tt (put_tx q queue w)

-- The queue after the packet was put on the ring.
abbrev pub enqueued : IgbTxQueue → Packet → AdvancedTxDescriptor → IgbTxQueue
enqueued queue packet desc = record queue {
  pool = queue_pool queue.pool packet.pool;
  tx_index = wrap_ring queue.tx_index queue.num_descriptors;
  descriptors =
      set queue.descriptors queue.tx_index (Tx.send packet.addr_phys (as_u16 packet.len) desc);
  bufs_in_use = queue.bufs_in_use ++ packet.pool_entry ∷ [];
}

module _ (hw : Platform) where
  unfoldable pub send_on : ℕ → IgbTxQueue → Packet → M (Unit {0})
  unfolding set_reg32 Tx.send wrap_ring
  send_on q queue packet = do
    assert_pool (queue_pool queue.pool packet.pool) packet.pool
    desc ← unwrap (get_elem? queue.descriptors queue.tx_index)
    put_queue q (enqueued queue packet desc)
    set_reg32 hw (igb_tdt q) (as_u32 (enqueued queue packet desc).tx_index)

  -- A buffer that is not sent is dropped on the way out, which frees it.
  unfoldable pub send : ℕ → IgbNetBuf → M (Unit {0})
  unfolding send_on queue_can_send drop_packet
  send q tx_buf w = elim (get_elem? w.dev.tx_queues q) [
    | none ↦ (in_store (drop_packet tx_buf.packet) >> fail invalid_queue) w
    | some queue ↦
        if queue_can_send queue
        then send_on q queue tx_buf.packet w
        else (in_store (drop_packet tx_buf.packet) >> fail queue_full) w
  ]

-- The local variables of `recycle_tx_buffers`.
pub record Cleaning : Type 0 where
  pub queue : IgbTxQueue
  pub store : Store
  pub trace : List Event
  pub clean_index : ℕ

-- The number of descriptors from the clean index up to `cur_index`.
abbrev pub cleanable : ℕ → ℕ → ℕ → ℕ
cleanable cur_index clean_index n =
    if ltb cur_index clean_index then cur_index + n - clean_index else cur_index - clean_index

abbrev pub cleanup_to : ℕ → ℕ → ℕ
cleanup_to clean_index n =
    if leb n (clean_index + tx_clean_batch - 1)
    then clean_index + tx_clean_batch - 1 - n
    else clean_index + tx_clean_batch - 1

-- How many buffers are drained.
abbrev pub drained : List ℕ → ℕ
drained bufs = if leb (length bufs) tx_clean_batch then length bufs else tx_clean_batch

-- `free_stack.extend(..)`, past the checks of `free_buf`.
abbrev pub give_back : ℕ → List ℕ → Store → Store
give_back arc bufs s =
    put_pool arc (record (s.pools arc) { free_stack = extend bufs (s.pools arc).free_stack }) s

abbrev pub release_batch : Option ℕ → Cleaning → Cleaning
release_batch none s = s
release_batch (some arc) s = record s {
  store = give_back arc (take (drained s.queue.bufs_in_use) s.queue.bufs_in_use) s.store;
  queue = record s.queue { bufs_in_use = drop (drained s.queue.bufs_in_use) s.queue.bufs_in_use };
}

-- The state after the status of a descriptor was read.
abbrev pub seen : ℕ → ℕ → AdvancedTxDescriptor → Cleaning → Cleaning
seen q to desc s = record s {
  queue = record s.queue { descriptors = set s.queue.descriptors to desc };
  trace = read_tx q to ∷ s.trace;
}

-- The local variables at the start, and what the call leaves behind.
abbrev pub cleaning : IgbTxQueue → World → Cleaning
cleaning queue w = record {
  queue = queue;
  store = w.store;
  trace = w.trace;
  clean_index = queue.clean_index;
}

abbrev pub cleaned : ℕ → Cleaning → World → World
cleaned q s w =
    put_tx q (record s.queue { clean_index = s.clean_index })
      (record w { store = s.store; trace = s.trace })

module _ (hw : Platform) where
  -- One round of the loop; it says whether there is another.
  unfoldable pub clean_one : ℕ → ℕ → Run Cleaning Bool
  clean_one q cur_index s =
      let n = s.queue.num_descriptors in
      let to = cleanup_to s.clean_index n in
      if ltb (cleanable cur_index s.clean_index n) tx_clean_batch
      then ok false s
      else elim (get_elem? s.queue.descriptors to) [
        | none ↦ panic
        | some old ↦
            let desc = hw.tx_desc s.trace q to old in
            if bit_and desc.paylen_popts_cc_idx_sta igb_advtxd_stat_dd == 0
            then ok false (seen q to desc s)
            else ok true (record (release_batch s.queue.pool (seen q to desc s)) {
              clean_index = wrap_ring to n;
            })
      ]

  unfoldable pub clean_loop : ℕ → ℕ → ℕ → Run Cleaning (Unit {0})
  clean_loop zero q cur_index s = hang
  clean_loop (suc fuel) q cur_index s =
      (clean_one q cur_index >>= λ more t. elim more [
        | true ↦ clean_loop fuel q cur_index t
        | false ↦ ok tt t
      ])
        s

  unfoldable pub recycle_tx_buffers : ℕ → ℕ → M (Unit {0})
  recycle_tx_buffers fuel q w = elim (get_elem? w.dev.tx_queues q) [
    | none ↦ err invalid_queue w
    | some queue ↦ elim (clean_loop fuel q queue.tx_index (cleaning queue w)) [
      | ok _ s ↦ ok tt (cleaned q s w)
      | err e s ↦ err e (cleaned q s w)
      | panic ↦ panic
      | hang ↦ hang
    ]
  ]
