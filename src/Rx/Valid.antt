-- ===== src/Rx/Valid.antt =====
-- The invariant of a receive queue (src/igb.rs) with its pool: every descriptor has a buffer of the
-- pool, and no buffer is in two places.
use igb_driver.Prelude.{
  ℕ, zero, suc, ◌+◌, ◌^◌, ◌≤◌, ◌<◌, ◌≡◌, ◌≢◌, ◌⊎◌, ◌∙◌, refl, sym, ap, List, [], ◌∷◌, ◌++◌, some,
  length, get_elem?, get_elem?-lt, get_elem?-set_self, get_elem?-set_ne, set, ltb, ltb→lt, ltb→le,
  arith, Bool-cases, inl, inr,
}
use igb_driver.Ring.PowerOfTwo.{IsPowerOfTwo}
use igb_driver.Memory.{MemPool}
use igb_driver.Memory.Counts.{count, count-get_elem?}
use igb_driver.Descriptor.Rx.{AdvancedRxDescriptor}
use igb_driver.Device.{IgbRxQueue}

pub record IsRxQueue (queue : IgbRxQueue) (pool : MemPool) : Type 0 where
  pub power : IsPowerOfTwo queue.num_descriptors
  pub small : queue.num_descriptors < 2 ^ 31
  pub slots : length queue.descriptors ≡ queue.num_descriptors
  pub held : length queue.bufs_in_use ≡ queue.num_descriptors
  pub rx_in : queue.rx_index < queue.num_descriptors
  pub addresses : length pool.phys_addr ≡ pool.num_entries
  pub in_range :
      (a : ℕ) → pool.num_entries ≤ a → count a pool.free_stack + count a queue.bufs_in_use ≡ 0
  pub once : (a : ℕ) → count a pool.free_stack + count a queue.bufs_in_use ≤ 1

module _ {queue : IgbRxQueue} {pool : MemPool} (v : IsRxQueue queue pool) where
  -- The buffer of a descriptor is in range, and so is a free one.
  pub held-lt : (i : ℕ) {a : ℕ} → get_elem? queue.bufs_in_use i ≡ some a → a < pool.num_entries
  held-lt i {a} e = elim (Bool-cases (ltb a pool.num_entries)) [
    | inl near ↦ ltb→lt a pool.num_entries near
    | inr far ↦ absurd (
        omega (
          arith,
          v.in_range a (ltb→le a pool.num_entries far),
          count-get_elem? queue.bufs_in_use i e,
        ))
  ]

  pub free-lt : {a : ℕ} {rest : List ℕ} → pool.free_stack ≡ a ∷ rest → a < pool.num_entries
  unfolding count
  free-lt {a} e = ground (arith, v.in_range a)

-- Every descriptor has the address of the buffer that the queue remembers for it.
pub record IsAimed (addresses : List ℕ) (queue : IgbRxQueue) : Type 0 where
  pub at :
      (i b : ℕ) (d : AdvancedRxDescriptor)
      → get_elem? queue.descriptors i ≡ some d
      → get_elem? queue.bufs_in_use i ≡ some b
      → get_elem? addresses b ≡ some d.packet_buffer_address

get_elem?-push :
    (xs : List ℕ) (x j : ℕ) {b : ℕ}
    → get_elem? (xs ++ x ∷ []) j ≡ some b
    → (get_elem? xs j ≡ some b) ⊎ ((j ≡ length xs) × (x ≡ b))
get_elem?-push [] x zero e = inr (refl, cc)
get_elem?-push [] x (suc j) e = absurd cc
get_elem?-push (y ∷ xs) x zero e = inl e
get_elem?-push (y ∷ xs) x (suc j) e = elim (get_elem?-push xs x j e) [
  | inl there ↦ inl there
  | inr (last, same) ↦ inr (ap suc last, same)
]

-- The next descriptor gets its buffer.
pub push-IsAimed :
    {addresses : List ℕ} (queue : IgbRxQueue) (i id : ℕ) (d : AdvancedRxDescriptor)
    → IsAimed addresses queue
    → length queue.bufs_in_use ≡ i
    → i < length queue.descriptors
    → get_elem? addresses id ≡ some d.packet_buffer_address
    → IsAimed addresses (record queue {
      descriptors = set queue.descriptors i d;
      bufs_in_use = queue.bufs_in_use ++ id ∷ [];
    })
push-IsAimed {addresses} queue i id d v size inside a = record {
  at = λ j b d' e h. elim (get_elem?-push queue.bufs_in_use id j h) [
    | inl there ↦
        let ne : i ≢ j = (λ z. omega (arith, z, size, get_elem?-lt queue.bufs_in_use j there)) in
        v.at j b d' (sym (get_elem?-set_ne queue.descriptors d ne) ∙ e) there
    | inr (last, entry) ↦
        let j_i : j ≡ i = last ∙ size in
        let new = get_elem?-set_self queue.descriptors i d inside in
        let d_d : d ≡ d' = cc in rw (← d_d, ← entry) a
  ];
}
