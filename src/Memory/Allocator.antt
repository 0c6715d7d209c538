-- ===== src/Memory/Allocator.antt =====
-- What the clients of a memory pool rely on (src/memory.rs), as an interface: entries are taken and given
-- back, each is free at most once, and giving back what is free or out of range panics. The pool with its
-- stack fills it.
use native.Mathlib.Decide.{dec_lt}
use igb_driver.Prelude.{
  ℕ, ◌+◌, ◌≤◌, ◌<◌, ◌≡◌, ◌⊎◌, inl, inr, refl, ◌==◌, if◌then◌else◌, Option, none, some, ◌∷◌, arith,
}
use igb_driver.Outcome.{Run, ok, panic}
use igb_driver.Memory.{MemPool, alloc_buf, free_buf}
use igb_driver.Memory.Counts.{count}
use igb_driver.Memory.Invariant.{IsPool, alloc_buf-cases, alloc_buf-IsPool, free_buf_lem}

pub record Allocator (P : Type 0) : Type 1 where
  pub take : Run P (Option ℕ)
  pub give : ℕ → Run P (Unit {0})
  pub entries : P → ℕ
  -- How often an entry is free.
  pub free : ℕ → P → ℕ
  pub IsValid : P → Type 0
  pub take_lem :
      (p : P)
      → IsValid p
      → (((a : ℕ) → free a p ≡ 0) × (take p ≡ ok none p))
        ⊎ ((id : ℕ) × (q : P) × (take p ≡ ok (some id) q)
            × IsValid q
            × (entries q ≡ entries p)
            × ((a : ℕ) → free a p ≡ (if id == a then 1 else 0) + free a q))
  pub give_lem :
      (id : ℕ) (p : P)
      → IsValid p
      → id < entries p
      → free id p ≡ 0
      → (q : P) × (give id p ≡ ok tt q)
        × IsValid q
        × (entries q ≡ entries p)
        × ((a : ℕ) → free a q ≡ (if id == a then 1 else 0) + free a p)
  pub give_refused :
      (id : ℕ) (p : P) → IsValid p → (entries p ≤ id) ⊎ (0 < free id p) → give id p ≡ panic

module _ {P : Type 0} (pool : Allocator P) where
  -- A release that succeeds was of an entry in range that was not free.
  pub give-cases :
      (id : ℕ) (p q : P)
      → pool.IsValid p
      → pool.give id p ≡ ok tt q
      → (id < pool.entries p) × (pool.free id p ≡ 0)
  give-cases id p q v e = elim (dec_lt id (pool.entries p)) [
    | no far ↦ absurd (let e' = pool.give_refused id p v (inl (omega arith)) in cc)
    | yes near ↦ elim (dec_lt 0 (pool.free id p)) [
      | yes again ↦ absurd (let e' = pool.give_refused id p v (inr again) in cc)
      | no fresh ↦ (near, omega arith)
    ]
  ]

pub take_stack :
    (p : MemPool)
    → IsPool p
    → (((a : ℕ) → count a p.free_stack ≡ 0) × (alloc_buf p ≡ ok none p))
      ⊎ ((id : ℕ) × (q : MemPool) × (alloc_buf p ≡ ok (some id) q)
          × IsPool q
          × (q.num_entries ≡ p.num_entries)
          × ((a : ℕ) → count a p.free_stack ≡ (if id == a then 1 else 0) + count a q.free_stack))
unfolding count
take_stack p v = elim (alloc_buf-cases p) [
  | inl (none_free, e) ↦ inl ((λ a. rw none_free refl), e)
  | inr (id, rest, top, e) ↦ inr (id, _, e, rw e at (alloc_buf-IsPool v), refl, λ a. rw top refl)
]

-- The pool of src/memory.rs, with the stack of its free entries.
abbrev pub stack_allocator : Allocator MemPool
unfolding count
stack_allocator = record {
  take = alloc_buf;
  give = free_buf;
  entries = λ p. p.num_entries;
  free = λ a p. count a p.free_stack;
  IsValid = IsPool;
  take_lem = take_stack;
  give_lem = λ id p v h used.
      let e = (free_buf_lem id v).2 h used in
      (
        record p { free_stack = id ∷ p.free_stack },
        e,
        rw e at ((free_buf_lem id v).0),
        refl,
        λ a. refl,
      );
  give_refused = λ id p v h. (free_buf_lem id v).1 h;
}
