-- ===== src/Init/Sharing.antt =====
-- The receive queues of a device (src/igb.rs) on one pool, while `reset_and_init` starts them.
use native.Mathlib.Nat.{add-mul}
use igb_driver.Prelude.{
  ℕ, zero, suc, ◌+◌, ◌*◌, ◌^◌, ◌≤◌, ◌<◌, ◌≡◌, inl, inr, refl, sym, ◌∙◌, List, [], ◌∷◌, some, length,
  length-set, get_elem?, get_elem?-set_self, get_elem?-set_ne, set, replicate, ◌==◌, ==_iff,
  Bool-cases, arith,
}
use igb_driver.Ring.PowerOfTwo.{IsPowerOfTwo}
use igb_driver.Memory.{MemPool}
use igb_driver.Memory.Counts.{count}
use igb_driver.Memory.Invariant.{IsPool}
use igb_driver.Device.{IgbRxQueue}
use igb_driver.Rx.Valid.{IsRxQueue, IsAimed}
use igb_driver.Setup.{new_rx_queue}
use igb_driver.Init.{Filling}
use igb_driver.Init.Fill.{Filled}

-- How often an entry is the buffer of a descriptor of the queues.
unfoldable pub held_by : ℕ → List IgbRxQueue → ℕ
unfolding count
held_by a [] = 0
held_by a (queue ∷ queues) = count a queue.bufs_in_use + held_by a queues

pub held_by-set :
    (a : ℕ) (queues : List IgbRxQueue) (i : ℕ) {old : IgbRxQueue} (new : IgbRxQueue)
    → get_elem? queues i ≡ some old
    → held_by a (set queues i new) + count a old.bufs_in_use
      ≡ held_by a queues + count a new.bufs_in_use
unfolding held_by
held_by-set a [] i new e = ground arith
held_by-set a (queue ∷ queues) zero new e = ground arith
held_by-set a (queue ∷ queues) (suc i) new e = omega (arith, held_by-set a queues i new e)

pub held_by-get_elem? :
    (a : ℕ) (queues : List IgbRxQueue) (i : ℕ) {queue : IgbRxQueue}
    → get_elem? queues i ≡ some queue
    → count a queue.bufs_in_use ≤ held_by a queues
unfolding held_by
held_by-get_elem? a [] i e = ground arith
held_by-get_elem? a (queue ∷ queues) zero e = ground arith
held_by-get_elem? a (queue ∷ queues) (suc i) e = omega (arith, held_by-get_elem? a queues i e)

pub held_by-new : (a n qs pool : ℕ) → held_by a (replicate n (new_rx_queue qs pool)) ≡ 0
unfolding held_by count
held_by-new a zero qs pool = refl
held_by-new a (suc n) qs pool = omega (arith, held_by-new a n qs pool)

pub get_elem?-replicate {ℓ} :
    {A : Type ℓ} (n i : ℕ) (x : A) → i < n → get_elem? (replicate n x) i ≡ some x
get_elem?-replicate zero i x h = absurd (omega arith)
get_elem?-replicate (suc n) zero x h = refl
get_elem?-replicate (suc n) (suc i) x h = get_elem?-replicate n i x (omega arith)

-- A queue that has its buffers, apart from where these come from.
pub record IsFull (qs arc : ℕ) (queue : IgbRxQueue) : Type 0 where
  pub ring : queue.num_descriptors ≡ qs
  pub pool : queue.pool ≡ arc
  pub slots : length queue.descriptors ≡ qs
  pub held : length queue.bufs_in_use ≡ qs
  pub rx_in : queue.rx_index < qs

-- `n` queues of `qs` descriptors on the pool `arc`, which was `start`. The first `k` have their
-- buffers; these and the free entries are what was free at the start.
pub record IsSharing (qs arc n : ℕ) (start : MemPool) (k : ℕ) (queues : List IgbRxQueue)
    (pool : MemPool) : Type 0 where
  pub number : length queues ≡ n
  pub full :
      (i : ℕ)
      → i < k
      → (queue : IgbRxQueue) × (get_elem? queues i ≡ some queue)
        × IsFull qs arc queue
        × IsAimed start.phys_addr queue
  pub new : (i : ℕ) → k ≤ i → i < n → get_elem? queues i ≡ some (new_rx_queue qs arc)
  pub entries : pool.num_entries ≡ start.num_entries
  pub addresses : length pool.phys_addr ≡ pool.num_entries
  pub same_addresses : pool.phys_addr ≡ start.phys_addr
  pub room : length pool.free_stack + k * qs ≡ length start.free_stack
  pub conserved : (a : ℕ) → count a pool.free_stack + held_by a queues ≡ count a start.free_stack

-- One more queue has its buffers.
pub IsSharing-Filled :
    {qs arc n k : ℕ} {start : MemPool} {queues : List IgbRxQueue} {pool : MemPool} {t : Filling}
    → k < n
    → IsSharing qs arc n start k queues pool
    → Filled qs (record { queue = new_rx_queue qs arc; pool = pool }) t
    → IsSharing qs arc n start (k + 1) (set queues k t.queue) t.pool
unfolding count
IsSharing-Filled {qs} {arc} {n} {k} {start} {queues} {pool} {t} h v f = record {
  number = omega (arith, v.number, length-set queues k t.queue);
  full = λ i l. elim (Bool-cases (i == k)) [
    | inl e ↦
        let same : k ≡ i = sym ((==_iff i k).0 e) in
        (
          t.queue,
          rw same (get_elem?-set_self queues i t.queue (omega (arith, h, v.number, same))),
          record {
            ring = f.same_ring;
            pool = f.same_pool;
            slots = omega (arith, f.valid.slots, f.same_ring);
            held = omega (arith, f.valid.held, f.same_ring);
            rx_in = omega (arith, f.valid.rx_in, f.same_ring);
          },
          rw (f.same_addresses ∙ v.same_addresses) at f.aimed,
        )
    | inr e ↦
        let (queue, found, full, aimed) = v.full i (ground (arith, e, l)) in
        (queue, get_elem?-set_ne queues t.queue (λ z. ground (arith, e, z)) ∙ found, full, aimed)
  ];
  new = λ i l m.
      get_elem?-set_ne queues t.queue (λ z. omega (arith, z, l)) ∙ v.new i (omega (arith, l)) m;
  entries = f.same_size ∙ v.entries;
  addresses = f.valid.addresses;
  same_addresses = f.same_addresses ∙ v.same_addresses;
  room = omega (arith, v.room, f.used, add-mul k 1 qs);
  conserved = λ a. omega (
    arith,
    v.conserved a,
    f.conserved a,
    held_by-set a queues k t.queue (v.new k (omega arith) h),
  );
}

module _ {qs arc n : ℕ} {start : MemPool} (valid : IsPool start) where
  pub IsSharing-IsPool :
      {k : ℕ} {queues : List IgbRxQueue} {pool : MemPool}
      → IsSharing qs arc n start k queues pool
      → IsPool pool
  IsSharing-IsPool v = record {
    addresses = v.addresses;
    in_range = λ a h. omega (arith, v.conserved a, valid.in_range a (omega (arith, h, v.entries)));
    free_once = λ a. omega (arith, v.conserved a, valid.free_once a);
  }

  -- A queue that has its buffers satisfies the invariant of receive queues.
  pub IsSharing-IsRxQueue :
      {k : ℕ} (i : ℕ) {queues : List IgbRxQueue} {pool : MemPool} {queue : IgbRxQueue}
      → IsPowerOfTwo qs
      → qs < 2 ^ 31
      → IsSharing qs arc n start k queues pool
      → get_elem? queues i ≡ some queue
      → IsFull qs arc queue
      → IsRxQueue queue pool
  IsSharing-IsRxQueue {k} i {queues} {pool} {queue} power small v found f = record {
    power = rw f.ring power;
    small = omega (arith, small, f.ring);
    slots = omega (arith, f.slots, f.ring);
    held = omega (arith, f.held, f.ring);
    rx_in = omega (arith, f.rx_in, f.ring);
    addresses = v.addresses;
    in_range = λ a h. omega (
      arith,
      v.conserved a,
      held_by-get_elem? a queues i found,
      valid.in_range a (omega (arith, h, v.entries)),
    );
    once = λ a. omega (arith, v.conserved a, held_by-get_elem? a queues i found, valid.free_once a);
  }
