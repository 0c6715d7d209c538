-- ===== src/Rx/Received.antt =====
-- What a call of `receive_packets` (src/igb.rs) that received packets makes of the device.
use igb_driver.Prelude.{
  ℕ, ◌+◌, ◌%◌, ◌^◌, ◌≤◌, ◌<◌, ◌≡◌, ◌≢◌, ◌∙◌, ◌⊎◌, refl, sym, ap, Bool, List, ◌∷◌, some, length, set,
  get_elem?, set, get_elem?-lt, get_elem?-set_self, ◌==◌, arith, Bool-cases, inl, inr,
}
use igb_driver.Word.{as_u32}
use igb_driver.Outcome.{Returns}
use native.Mathlib.Nat.{mod-eq_of_lt, mod-one}
use igb_driver.Ring.{wrap_ring}
use igb_driver.Ring.PowerOfTwo.{IsPowerOfTwo}
use igb_driver.Tx.Valid.{wrap_ring-next}
use igb_driver.Registers.{igb_rdt}
use igb_driver.Memory.Counts.{count}
use igb_driver.Memory.Store.{IgbNetBuf}
use igb_driver.Descriptor.Rx.{AdvancedRxDescriptor}
use igb_driver.Device.{IgbDevice, Platform, Event, wrote, IgbRxQueue, World}
use igb_driver.Device.Access.{Mapped}
use igb_driver.Rx.{Receiving, looked, receiving, received, finish, put_rx}
use igb_driver.Rx.Valid.{IsRxQueue}
use igb_driver.Rx.Round.{pool_of}
use igb_driver.Rx.Closure.{kept_of, entries}
use igb_driver.Rx.Taken.{Receives, AllPlaced}

-- A call that received the packets `bufs` on the queue `q`.
pub record Received (kept : IgbNetBuf → Bool) (q limit : ℕ) (queue : IgbRxQueue) (w : World)
    (r : ℕ × List IgbNetBuf) (w' : World) : Type 0 where
  pub after : IgbRxQueue
  pub found : get_elem? w'.dev.rx_queues q ≡ some after
  pub valid : IsRxQueue after (w'.store.pools queue.pool)
  pub device : w'.dev ≡ record w.dev { rx_queues = set w.dev.rx_queues q after }
  pub same_pool : after.pool ≡ queue.pool
  pub same_ring : after.num_descriptors ≡ queue.num_descriptors
  pub same_size : (w'.store.pools queue.pool).num_entries ≡ (w.store.pools queue.pool).num_entries
  pub others : (b : ℕ) → b ≢ queue.pool → w'.store.pools b ≡ w.store.pools b
  pub counted : r.0 ≡ length r.1
  pub bounded : r.0 ≤ limit
  pub advanced : after.rx_index ≡ (queue.rx_index + r.0) % queue.num_descriptors
  pub conserved :
      (a : ℕ)
      → count a (w'.store.pools queue.pool).free_stack
          + count a after.bufs_in_use
          + count a (entries (kept_of kept r.1))
        ≡ count a (w.store.pools queue.pool).free_stack + count a queue.bufs_in_use
  pub placed :
      AllPlaced (w.store.pools queue.pool).base_addr (w.store.pools queue.pool).entry_size r.1
  pub told :
      0 < r.0
      → 1 < queue.num_descriptors
      → ((last : ℕ) × (before : List Event) × (w'.trace ≡ wrote (igb_rdt q) last ∷ before)
          × (after.rx_index ≡ wrap_ring last queue.num_descriptors))

-- On a ring of more than one descriptor the next index is another one.
wrap_ring_self : {n : ℕ} (i : ℕ) → IsPowerOfTwo n → n < 2 ^ 31 → i < n → i ≡ wrap_ring i n → n ≡ 1
wrap_ring_self {n} i p h l e = ground (arith, wrap_ring-next i p h l)

module _ (kept : IgbNetBuf → Bool) (hw : Platform) (q limit : ℕ) (w : World) {queue : IgbRxQueue}
    (t : Receiving) (desc : AdvancedRxDescriptor) (found : get_elem? w.dev.rx_queues q ≡ some queue)
    (v : IsRxQueue queue (w.store.pools queue.pool))
    (c : Receives kept limit (looked q queue.rx_index desc (receiving queue w)) t) where
  abbrev n : ℕ
  n = queue.num_descriptors

  pool_kept : pool_of t ≡ t.store.pools queue.pool
  pool_kept = ap t.store.pools c.same_pool

  count_kept :
      (a : ℕ)
      → count a (t.store.pools queue.pool).free_stack
          + count a t.queue.bufs_in_use
          + count a (entries (kept_of kept t.delivered))
        ≡ count a (w.store.pools queue.pool).free_stack + count a queue.bufs_in_use
  count_kept a = omega (
    arith,
    c.conserved a,
    ap (λ p. count a p.free_stack) pool_kept,
    ap (λ bs. count a (entries (kept_of kept bs))) c.given,
  )

  with_index :
      (i : ℕ) → i < n → IsRxQueue (record t.queue { rx_index = i }) (t.store.pools queue.pool)
  with_index i h = rw (← pool_kept) (record {
    power = c.valid.power;
    small = c.valid.small;
    slots = c.valid.slots;
    held = c.valid.held;
    rx_in = omega (arith, c.same_ring, h);
    addresses = c.valid.addresses;
    in_range = c.valid.in_range;
    once = c.valid.once;
  })

  length_given : length t.delivered ≡ length c.packets
  length_given = ap length c.given

  delivered_placed :
      AllPlaced
        (w.store.pools queue.pool).base_addr
        (w.store.pools queue.pool).entry_size
        t.delivered
  delivered_placed = rw c.given c.placed

  in_place :
      (i : ℕ)
      → get_elem? (put_rx q (record t.queue { rx_index = i }) w).dev.rx_queues q
        ≡ some (record t.queue { rx_index = i })
  in_place i =
      get_elem?-set_self w.dev.rx_queues q (record t.queue { rx_index = i })
        (get_elem?-lt w.dev.rx_queues q found)

  -- Nothing came, or the ring has one descriptor.
  still : t.rx_index ≡ t.last_rx_index → (length c.packets ≡ 0) ⊎ (n ≡ 1)
  still e = elim c.tail [
    | inl (z, _) ↦ inl z
    | inr (l, r) ↦ inr (wrap_ring_self t.last_rx_index v.power v.small l (sym e ∙ r))
  ]

  same_Received :
      t.rx_index ≡ t.last_rx_index
      → Received kept q limit queue w (t.recv_nums, t.delivered) (received q t.queue.rx_index t w)
  same_Received e = record {
    after = t.queue;
    found = in_place t.queue.rx_index;
    valid = with_index t.queue.rx_index (omega (arith, c.stored, v.rx_in));
    device = refl;
    same_pool = c.same_pool;
    same_ring = c.same_ring;
    same_size = sym (ap (λ p. p.num_entries) pool_kept) ∙ c.same_size;
    others = c.others;
    counted = omega (arith, c.counted, length_given);
    bounded = omega (arith, c.counted, c.bounded);
    advanced = elim (still e) [
      | inl z ↦
          c.stored ∙ sym (mod-eq_of_lt v.rx_in) ∙ ap (λ i. i % n) (omega (arith, z, c.counted))
      | inr one ↦ omega (arith, one, c.stored, v.rx_in, one_index one)
    ];
    conserved = count_kept;
    placed = delivered_placed;
    told = λ p m. elim (still e) [
      | inl z ↦ absurd (omega (arith, z, c.counted, p))
      | inr one ↦ absurd (omega (arith, one, m))
    ];
  }
    where
      one_index : n ≡ 1 → (queue.rx_index + t.recv_nums) % n ≡ 0
      one_index one =
          ap (λ m. (queue.rx_index + t.recv_nums) % m) one ∙ mod-one (queue.rx_index + t.recv_nums)

  -- Packets came: the last index was handed back to the card.
  moved :
      t.rx_index ≢ t.last_rx_index
      → (t.last_rx_index < n) × (t.rx_index ≡ wrap_ring t.last_rx_index n)
  moved ne = elim c.tail [
    | inl (z, e) ↦ absurd (
        ne (
          c.advanced
          ∙ ap (λ k. (queue.rx_index + k) % n) z
          ∙ ap (λ k. k % n) (omega arith)
          ∙ mod-eq_of_lt v.rx_in
          ∙ sym e))
    | inr p ↦ p
  ]

  given_nums : length c.packets ≡ t.recv_nums
  given_nums = omega (arith, c.counted)

  ring_index : t.rx_index < n
  ring_index = rw (← c.same_ring) c.valid.rx_in

  moved_Received :
      t.rx_index ≢ t.last_rx_index
      → (w' : World) → w'.dev ≡ (received q t.rx_index t w).dev
      → w'.store ≡ t.store
      → w'.trace ≡ wrote (igb_rdt q) t.last_rx_index ∷ t.trace
      → Received kept q limit queue w (t.recv_nums, t.delivered) w'
  moved_Received ne w' device store trace = record {
    after = record t.queue { rx_index = t.rx_index };
    found = ap (λ (d : IgbDevice). get_elem? d.rx_queues q) device ∙ in_place t.rx_index;
    valid = rw store (with_index t.rx_index (omega (arith, ring_index)));
    device = device;
    same_pool = c.same_pool;
    same_ring = c.same_ring;
    same_size = rw store (sym (ap (λ p. p.num_entries) pool_kept) ∙ c.same_size);
    others = rw store c.others;
    counted = omega (arith, c.counted, length_given);
    bounded = omega (arith, c.counted, c.bounded);
    advanced = c.advanced ∙ ap (λ k. (queue.rx_index + k) % n) given_nums;
    conserved = rw store count_kept;
    placed = delivered_placed;
    told = λ p m. (t.last_rx_index, t.trace, trace, (moved ne).1);
  }

  pub finish-Received :
      Mapped w (igb_rdt q) → Returns (Received kept q limit queue w) (finish hw q t w)
  unfolding finish
  finish-Received m = elim (Bool-cases (t.rx_index == t.last_rx_index)) [
    | inl e ↦ rw e (same_Received (ground (arith, e)))
    | inr e ↦
        let ne : t.rx_index ≢ t.last_rx_index = λ p. ground (arith, e, p) in
        let small : as_u32 t.last_rx_index ≡ t.last_rx_index =
          mod-eq_of_lt (omega (arith, (moved ne).0, v.small)) in
        rw (e, m, small) (moved_Received ne _ refl refl refl)
  ]
