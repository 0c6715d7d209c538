-- ===== src/Init/Fill.antt =====
-- The loop of `start_rx_queue` (src/igb.rs) that gives a queue its buffers.
use native.Mathlib.Nat.{one-le-pow}
use igb_driver.Prelude.{
  ℕ, zero, suc, ◌+◌, ◌^◌, ◌≤◌, ◌<◌, ◌≡◌, ◌∙◌, inl, inr, refl, ap, List, [], ◌∷◌, ◌++◌, some, length,
  length-append, length-set, set, get_elem?, get_elem?-some, arith,
}
use igb_driver.Outcome.{ok, err, Returns, Returns-map, no_memory}
use igb_driver.Descriptor.Rx
use igb_driver.Ring.PowerOfTwo.{IsPowerOfTwo}
use igb_driver.Memory.{MemPool, alloc_buf, get_phys_addr}
use igb_driver.Memory.Counts.{count, count-append}
use igb_driver.Memory.Invariant.{alloc_buf-cases}
use igb_driver.Rx.Valid.{IsRxQueue, IsAimed, push-IsAimed}
use igb_driver.Init.{Filling, use_buf, fill}

-- The descriptors below `i` have their buffers, and `n` are left.
pub record IsFilling (n i : ℕ) (s : Filling) : Type 0 where
  pub power : IsPowerOfTwo s.queue.num_descriptors
  pub small : s.queue.num_descriptors < 2 ^ 31
  pub slots : length s.queue.descriptors ≡ s.queue.num_descriptors
  pub held : length s.queue.bufs_in_use ≡ i
  pub left : i + n ≡ s.queue.num_descriptors
  pub first : s.queue.rx_index ≡ 0
  pub addresses : length s.pool.phys_addr ≡ s.pool.num_entries
  pub in_range :
      (a : ℕ) → s.pool.num_entries ≤ a → count a s.pool.free_stack + count a s.queue.bufs_in_use ≡ 0
  pub once : (a : ℕ) → count a s.pool.free_stack + count a s.queue.bufs_in_use ≤ 1
  pub aimed : IsAimed s.pool.phys_addr s.queue

-- The buffers of `t` come from the free entries of `s`, of which `n` were used.
pub record Filled (n : ℕ) (s t : Filling) : Type 0 where
  pub valid : IsRxQueue t.queue t.pool
  pub aimed : IsAimed t.pool.phys_addr t.queue
  pub same_addresses : t.pool.phys_addr ≡ s.pool.phys_addr
  pub same_pool : t.queue.pool ≡ s.queue.pool
  pub same_ring : t.queue.num_descriptors ≡ s.queue.num_descriptors
  pub same_size : t.pool.num_entries ≡ s.pool.num_entries
  pub used : length t.pool.free_stack + n ≡ length s.pool.free_stack
  pub conserved :
      (a : ℕ)
      → count a t.pool.free_stack + count a t.queue.bufs_in_use
        ≡ count a s.pool.free_stack + count a s.queue.bufs_in_use

use_buf_lem :
    (i id : ℕ) (s : Filling) (desc : Rx.AdvancedRxDescriptor) (address : ℕ)
    → get_elem? s.pool.phys_addr id ≡ some address
    → get_elem? s.queue.descriptors i ≡ some desc
    → use_buf i id s
      ≡ ok tt (record s {
        queue = record s.queue {
          descriptors =
              set s.queue.descriptors i (Rx.reset_status (Rx.set_packet_address address desc));
          bufs_in_use = s.queue.bufs_in_use ++ id ∷ [];
        };
      })
unfolding use_buf get_phys_addr
use_buf_lem i id s desc address a d = ground (arith, a, d)

-- The state when the free entry `id` has become the buffer of the descriptor `i`.
abbrev after : ℕ → ℕ → List ℕ → Rx.AdvancedRxDescriptor → ℕ → Filling → Filling
after i id rest desc address s = record s {
  pool = record s.pool { free_stack = rest };
  queue = record s.queue {
    descriptors = set s.queue.descriptors i (Rx.reset_status (Rx.set_packet_address address desc));
    bufs_in_use = s.queue.bufs_in_use ++ id ∷ [];
  };
}

module _ (i id : ℕ) (rest : List ℕ) (desc : Rx.AdvancedRxDescriptor) (address : ℕ) (s : Filling)
    (top : s.pool.free_stack ≡ id ∷ rest) where
  abbrev next : Filling
  next = after i id rest desc address s

  moved :
      (a : ℕ)
      → count a rest + count a (s.queue.bufs_in_use ++ id ∷ [])
        ≡ count a s.pool.free_stack + count a s.queue.bufs_in_use
  unfolding count
  moved a = omega (arith, ap (count a) top, count-append a s.queue.bufs_in_use (id ∷ []))

  after-IsFilling :
      {n : ℕ}
      → IsFilling (suc n) i s
      → get_elem? s.pool.phys_addr id ≡ some address
      → IsFilling n (i + 1) next
  unfolding Rx.set_packet_address Rx.reset_status
  after-IsFilling v known = record {
    power = v.power;
    small = v.small;
    slots =
        length-set s.queue.descriptors i (Rx.reset_status (Rx.set_packet_address address desc))
        ∙ v.slots;
    held = omega (arith, v.held, length-append s.queue.bufs_in_use (id ∷ []));
    left = omega (arith, v.left);
    first = v.first;
    addresses = v.addresses;
    in_range = λ a h. omega (arith, moved a, v.in_range a h);
    once = λ a. omega (arith, moved a, v.once a);
    aimed =
        push-IsAimed s.queue i id (Rx.reset_status (Rx.set_packet_address address desc)) v.aimed
          v.held (omega (arith, v.slots, v.left)) known;
  }

  after-Filled : {n : ℕ} {t : Filling} → Filled n next t → Filled (suc n) s t
  after-Filled f = record {
    valid = f.valid;
    aimed = f.aimed;
    same_addresses = f.same_addresses;
    same_pool = f.same_pool;
    same_ring = f.same_ring;
    same_size = f.same_size;
    used = omega (arith, f.used, ap length top);
    conserved = λ a. omega (arith, moved a, f.conserved a);
  }

alloc_buf_top :
    (pool : MemPool) {id : ℕ} {rest : List ℕ}
    → pool.free_stack ≡ id ∷ rest
    → alloc_buf pool ≡ ok (some id) (record pool { free_stack = rest })
unfolding alloc_buf
alloc_buf_top pool e = rw e refl

-- A round that finds a free entry.
fill_step :
    (n i : ℕ) (s : Filling) {id : ℕ} {rest : List ℕ}
    → IsFilling (suc n) i s
    → s.pool.free_stack ≡ id ∷ rest
    → (desc : Rx.AdvancedRxDescriptor) × (address : ℕ) × (get_elem? s.pool.phys_addr id
        ≡ some address)
      × (fill (suc n) i s ≡ fill n (i + 1) (after i id rest desc address s))
unfolding fill count
fill_step n i s {id} {rest} v top =
    let near : id < s.pool.num_entries = ground (arith, v.in_range id) in
    let (address, a) = get_elem?-some s.pool.phys_addr id (omega (arith, v.addresses, near)) in
    let (desc, d) = get_elem?-some s.queue.descriptors i (omega (arith, v.slots, v.left)) in
    let popped : Filling = record s { pool = record s.pool { free_stack = rest } } in
    (
      desc,
      address,
      a,
      rw (fill, alloc_buf_top s.pool top, use_buf_lem i id popped desc address a d) refl,
    )

pub fill-Filled :
    (n i : ℕ) (s : Filling)
    → IsFilling n i s
    → n ≤ length s.pool.free_stack
    → Returns {A = Unit {0}} (λ _ t. Filled n s t) (fill n i s)
unfolding fill
fill-Filled zero i s v h = record {
  valid = record {
    power = v.power;
    small = v.small;
    slots = v.slots;
    held = omega (arith, v.held, v.left);
    rx_in = (let (k, e) = v.power in omega (arith, v.first, e, one-le-pow k 2));
    addresses = v.addresses;
    in_range = v.in_range;
    once = v.once;
  };
  aimed = v.aimed;
  same_addresses = refl;
  same_pool = refl;
  same_ring = refl;
  same_size = refl;
  used = omega arith;
  conserved = λ a. refl;
}
fill-Filled (suc n) i s v h = elim (alloc_buf-cases s.pool) [
  | inl (none_free, _) ↦ absurd (omega (arith, h, ap length none_free))
  | inr (id, rest, top, _) ↦
      let (desc, address, known, e) = fill_step n i s v top in
      let enough : n ≤ length rest = omega (arith, h, ap length top) in
      rw e (
        Returns-map (fill n (i + 1) (after i id rest desc address s))
          (λ _ t f. after-Filled i id rest desc address s top f)
          (fill-Filled n (i + 1) (after i id rest desc address s)
            (after-IsFilling i id rest desc address s top v known) enough))
]

-- With too few free entries the loop ends with `no_memory`, and has given all of them to the queue.
pub fill-no_memory :
    (n i : ℕ) (s : Filling)
    → IsFilling n i s
    → length s.pool.free_stack < n
    → (t : Filling) × (fill n i s ≡ err no_memory t)
      × (t.queue.pool ≡ s.queue.pool)
      × (t.pool.free_stack ≡ [])
      × ((a : ℕ)
          → count a t.queue.bufs_in_use ≡ count a s.pool.free_stack + count a s.queue.bufs_in_use)
unfolding fill count
fill-no_memory zero i s v h = absurd (omega arith)
fill-no_memory (suc n) i s v h = elim (alloc_buf-cases s.pool) [
  | inl (none_free, e) ↦
      (s, ground (arith, e), refl, none_free, (λ a. omega (arith, ap (count a) none_free)))
  | inr (id, rest, top, _) ↦
      let (desc, address, known, e) = fill_step n i s v top in
      let few : length rest < n = omega (arith, h, ap length top) in
      let (t, ends, same, empty, all) =
        fill-no_memory n (i + 1) (after i id rest desc address s)
          (after-IsFilling i id rest desc address s top v known) few in
      (t, rw e ends, same, empty, (λ a. omega (arith, all a, moved i id rest desc address s top a)))
]
