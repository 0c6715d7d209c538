-- ===== src/Memory/Invariant.antt =====
-- The invariant of a memory pool (src/memory.rs), and what allocation and release do to it.
use igb_driver.Prelude.{
  ℕ, zero, suc, ◌+◌, ◌*◌, ◌%◌, ◌≤◌, ◌<◌, ◌≡◌, ◌≢◌, ◌⊎◌, inl, inr, refl, some, none, List, [], ◌∷◌,
  map, ltb, if◌then◌else◌, arith, get_elem?, length, Bool-cases, ==_iff, ==_refl, ==_ne,
}
use igb_driver.Word.{mul_usize}
use igb_driver.Outcome.{ok, err, panic, Returns, Leaves, page_not_aligned}
use igb_driver.Memory.{
  MemPool, Dma, range, contains, new_pool, alloc_buf, free_buf, huge_page_size, default_entry_size,
  get_phys_addr,
}
use igb_driver.Memory.Counts.{
  count, count-extend, count-range, contains_iff, length-range, get_elem?-range,
}
use igb_driver.Memory.Store.{Store, allocate}

-- Every entry has a physical address, and a free entry is in range and free once.
pub record IsPool (pool : MemPool) : Type 0 where
  pub addresses : length pool.phys_addr ≡ pool.num_entries
  pub in_range : (a : ℕ) → pool.num_entries ≤ a → count a pool.free_stack ≡ 0
  pub free_once : (a : ℕ) → count a pool.free_stack ≤ 1

length-map : (f : ℕ → ℕ) (xs : List ℕ) → length (map f xs) ≡ length xs
length-map f [] = refl
length-map f (x ∷ xs) = omega (arith, length-map f xs)

get_elem?-map :
    (f : ℕ → ℕ) (xs : List ℕ) (i : ℕ) {x : ℕ}
    → get_elem? xs i ≡ some x
    → get_elem? (map f xs) i ≡ some (f x)
get_elem?-map f [] i e = ground arith
get_elem?-map f (x ∷ xs) zero e = ground arith
get_elem?-map f (x ∷ xs) (suc i) e = get_elem?-map f xs i e

module _ (virt_to_phys : ℕ → ℕ → ℕ) (dma : Dma) (entries size : ℕ) where
  pub count-new_pool :
      (a : ℕ)
      → count a (new_pool virt_to_phys dma entries size).free_stack
        ≡ (if ltb a entries then 1 else 0)
  unfolding new_pool count
  count-new_pool a = ground (arith, count-extend a (range entries) [], count-range a 0 entries)

  pub new_pool-IsPool : IsPool (new_pool virt_to_phys dma entries size)
  unfolding new_pool
  new_pool-IsPool = record {
    addresses = omega (
      arith,
      length-map (λ i. virt_to_phys (dma.virt + i * size) size) (range entries),
      length-range 0 entries,
    );
    in_range = λ a h. ground (arith, count-new_pool a);
    free_once = λ a. ground (arith, count-new_pool a);
  }

  pub get_phys_addr-new_pool :
      (i : ℕ)
      → i < entries
      → get_phys_addr i (new_pool virt_to_phys dma entries size)
        ≡ ok (virt_to_phys (dma.virt + i * size) size) (new_pool virt_to_phys dma entries size)
  unfolding new_pool get_phys_addr
  get_phys_addr-new_pool i h = ground (
    arith,
    get_elem?-map (λ i. virt_to_phys (dma.virt + i * size) size) (range entries) i
        (get_elem?-range 0 entries i h),
  )

-- An entry size that divides the page size gives a new pool behind a new pointer: the pool is valid,
-- its free entries are the numbers below `entries`, each once, and the other pools are as before. Any
-- other size is refused with `PageNotAligned`, and no pool is made.
pub allocate_lem :
    (dma_alloc : ℕ → Dma) (virt_to_phys : ℕ → ℕ → ℕ) (entries size : ℕ) (s : Store)
    → (huge_page_size % default_entry_size size ≡ 0
        → Returns
            (λ arc t.
              (arc ≡ s.next)
              × IsPool (t.pools arc)
              × ((a : ℕ) → count a (t.pools arc).free_stack ≡ (if ltb a entries then 1 else 0))
              × ((b : ℕ) → b ≢ arc → t.pools b ≡ s.pools b))
            (allocate dma_alloc virt_to_phys entries size s))
      × (huge_page_size % default_entry_size size ≢ 0
          → allocate dma_alloc virt_to_phys entries size s ≡ err page_not_aligned s)
unfolding allocate
allocate_lem dma_alloc virt_to_phys entries size s = (
  (λ h.
      let size' = default_entry_size size in
      let dma = dma_alloc (mul_usize entries size') in
      rw ((==_iff _ _).1 h) (
        refl,
        rw (==_refl s.next) (new_pool-IsPool virt_to_phys dma entries size'),
        (λ a. rw (==_refl s.next) (count-new_pool virt_to_phys dma entries size' a)),
        (λ b ne. rw (==_ne b s.next ne) refl),
      )),
  (λ h. rw (==_ne _ _ h)),
)

-- The two cases of an allocation.
pub alloc_buf-cases :
    (pool : MemPool)
    → ((pool.free_stack ≡ []) × (alloc_buf pool ≡ ok none pool))
      ⊎ ((id : ℕ) × (rest : List ℕ) × (pool.free_stack ≡ id ∷ rest)
          × (alloc_buf pool ≡ ok (some id) (record pool { free_stack = rest })))
unfolding alloc_buf
alloc_buf-cases pool = of pool.free_stack refl
  where
    of :
        (stack : List ℕ)
        → pool.free_stack ≡ stack
        → ((pool.free_stack ≡ []) × (alloc_buf pool ≡ ok none pool))
          ⊎ ((id : ℕ) × (rest : List ℕ) × (pool.free_stack ≡ id ∷ rest)
              × (alloc_buf pool ≡ ok (some id) (record pool { free_stack = rest })))
    of [] e = inl (e, ground arith)
    of (id ∷ rest) e = inr (id, rest, e, ground arith)

-- An allocation keeps a pool valid.
pub alloc_buf-IsPool : {pool : MemPool} → IsPool pool → Leaves IsPool (alloc_buf pool)
unfolding count
alloc_buf-IsPool {pool} v = elim (alloc_buf-cases pool) [
  | inl (_, e) ↦ rw e v
  | inr (id, rest, f, e) ↦ rw e (record {
    addresses = v.addresses;
    in_range = λ a h. ground (arith, v.in_range a h);
    free_once = λ a. ground (arith, v.free_once a);
  })
]

-- A release keeps a pool valid, if it does not panic. It panics exactly if the entry is out of range
-- or free already, and otherwise puts the entry on the stack of free entries.
pub free_buf_lem :
    {pool : MemPool} (id : ℕ)
    → IsPool pool
    → Leaves IsPool (free_buf id pool)
      × ((pool.num_entries ≤ id) ⊎ (0 < count id pool.free_stack) → free_buf id pool ≡ panic)
      × (id < pool.num_entries
          → count id pool.free_stack ≡ 0
          → free_buf id pool ≡ ok tt (record pool { free_stack = id ∷ pool.free_stack }))
unfolding free_buf count
free_buf_lem {pool} id v = (
  elim (Bool-cases (ltb id pool.num_entries)) [
    | inl near ↦ elim (Bool-cases (contains pool.free_stack id)) [
      | inl again ↦ rw (near, again) tt
      | inr fresh ↦
          rw (near, fresh)
            (record {
              addresses = v.addresses;
              in_range = λ a h. ground (arith, v.in_range a h);
              free_once = λ a. ground (arith, v.free_once a, contains_iff pool.free_stack id);
            })
    ]
    | inr far ↦ rw far tt
  ],
  ground (arith, contains_iff pool.free_stack id),
  ground (arith, contains_iff pool.free_stack id),
)

-- A buffer that was just allocated can be freed, which undoes the allocation. Until it is allocated
-- it cannot be freed.
pub free_buf-alloc_buf :
    (pool : MemPool) {id : ℕ} {pool' : MemPool}
    → IsPool pool
    → alloc_buf pool ≡ ok (some id) pool'
    → (id < pool.num_entries) × (free_buf id pool' ≡ ok tt pool) × (free_buf id pool ≡ panic)
unfolding alloc_buf free_buf count
free_buf-alloc_buf pool {id} {pool'} v e = elim (alloc_buf-cases pool) [
  | inl (_, e') ↦ cc
  | inr (x, rest, f, e') ↦ (
    ground (arith, v.in_range id),
    ground (arith, v.in_range id, v.free_once id, contains_iff rest id),
    ground (arith, v.in_range id, v.free_once id, contains_iff pool.free_stack id),
  )
]

pub free_buf-cases :
    (id : ℕ) (pool : MemPool)
    → (free_buf id pool ≡ panic)
      ⊎ (free_buf id pool ≡ ok tt (record pool { free_stack = id ∷ pool.free_stack }))
unfolding free_buf
free_buf-cases id pool = ground arith
