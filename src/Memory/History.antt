-- ===== src/Memory/History.antt =====
-- The clients of one pool over time (src/memory.rs): each buffer is taken by `alloc_buf` and given
-- back by `free_buf`, as `Packet` does when it is dropped. They know the pool by its interface only.
use igb_driver.Prelude.{
  ℕ, ◌+◌, ◌<◌, ◌≤◌, ◌≡◌, refl, ap, sym, ◌∙◌, ◌⊎◌, some, List, [], ◌∷◌, ◌++◌, ltb, if◌then◌else◌,
  arith, inl, inr,
}
use igb_driver.Outcome.{ok, panic}
use igb_driver.Memory.{MemPool, Dma, new_pool, free_buf}
use igb_driver.Memory.Counts.{count, count-append}
use igb_driver.Memory.Invariant.{new_pool-IsPool, count-new_pool}
use igb_driver.Memory.Allocator.{Allocator, give-cases, stack_allocator}

-- A pool with the entries that its clients hold.
pub record Clients (P : Type 0) : Type 0 where
  pub pool : P
  pub held : List ℕ

module _ {P : Type 0} (A : Allocator P) where
  pub data Step : Clients P → Clients P → Type 0 where
    takes :
        (c : Clients P) (id : ℕ) (q : P)
        → A.take c.pool ≡ ok (some id) q
        → Step c (record { pool = q; held = id ∷ c.held })
    gives :
        (c : Clients P) (before after : List ℕ) (id : ℕ) (q : P)
        → c.held ≡ before ++ id ∷ after
        → A.give id c.pool ≡ ok tt q
        → Step c (record { pool = q; held = before ++ after })

  pub data Reach (c : Clients P) : Clients P → Type 0 where
    here : Reach c c
    next : {d e : Clients P} → Reach c d → Step d e → Reach c e

  -- Every entry of the pool is free or held, and it is so once.
  pub record IsShared (entries : ℕ) (c : Clients P) : Type 0 where
    pub valid : A.IsValid c.pool
    pub size : A.entries c.pool ≡ entries
    pub once : (a : ℕ) → A.free a c.pool + count a c.held ≡ (if ltb a entries then 1 else 0)

  Step-IsShared :
      {entries : ℕ} {c d : Clients P} → Step c d → IsShared entries c → IsShared entries d
  unfolding count
  Step-IsShared {entries} (takes c id q e) v = elim (A.take_lem c.pool v.valid) [
    | inl (_, e') ↦ absurd cc
    | inr (x, r, e', valid, size, freed) ↦
        let same : r ≡ q = cc in
        let taken : x ≡ id = cc in
        record {
          valid = rw same at valid;
          size = ap A.entries (sym same) ∙ size ∙ v.size;
          once = λ a. rw (← same, ← taken) (omega (arith, v.once a, freed a));
        }
  ]
  Step-IsShared {entries} (gives c before after id q h e) v =
      let (near, fresh) = give-cases A id c.pool q v.valid e in
      let (r, e', valid, size, freed) = A.give_lem id c.pool v.valid near fresh in
      let same : r ≡ q = cc in
      record {
        valid = rw same at valid;
        size = ap A.entries (sym same) ∙ size ∙ v.size;
        once = λ a. rw (← same) (
            omega (
              arith,
              v.once a,
              freed a,
              ap (count a) h,
              count-append a before (id ∷ after),
              count-append a before after,
            ));
      }

  -- Whatever the clients take and give back, every entry stays free or held, exactly once: none is lost
  -- and none is handed out twice.
  pub Reach-IsShared :
      {entries : ℕ} {c d : Clients P} → Reach c d → IsShared entries c → IsShared entries d
  Reach-IsShared here v = v
  Reach-IsShared (next r s) v = Step-IsShared s (Reach-IsShared r v)

  -- An entry that a client holds can be given back, and an entry that nobody holds cannot: giving it back
  -- panics.
  pub give-IsShared :
      {entries : ℕ} {c : Clients P} (id : ℕ)
      → IsShared entries c
      → (0 < count id c.held → (q : P) × (A.give id c.pool ≡ ok tt q))
        × (count id c.held ≡ 0 → A.give id c.pool ≡ panic)
  give-IsShared {entries} {c} id v = (
    (λ h.
        let (near, fresh) = held_in_range h in
        let (q, e, _, _, _) = A.give_lem id c.pool v.valid near fresh in (q, e)),
    (λ h. A.give_refused id c.pool v.valid (free_or_outside h)),
  )
    where
      held_in_range : 0 < count id c.held → (id < A.entries c.pool) × (A.free id c.pool ≡ 0)
      held_in_range h = (ground (arith, v.once id, v.size), ground (arith, v.once id))

      free_or_outside : count id c.held ≡ 0 → (A.entries c.pool ≤ id) ⊎ (0 < A.free id c.pool)
      free_or_outside h = ground (arith, v.once id, v.size)

-- The pool allocated over `entries` entries.
abbrev pub start : (ℕ → ℕ → ℕ) → Dma → ℕ → ℕ → Clients MemPool
start virt_to_phys dma entries size = record {
  pool = new_pool virt_to_phys dma entries size;
  held = [];
}

-- In every state that the clients of a new pool reach, an entry that a client holds can be given back,
-- and an entry that nobody holds cannot: giving it back panics.
pub Reach-free_buf :
    (virt_to_phys : ℕ → ℕ → ℕ) (dma : Dma) (entries size id : ℕ) {c : Clients MemPool}
    → Reach stack_allocator (start virt_to_phys dma entries size) c
    → (0 < count id c.held → (q : MemPool) × (free_buf id c.pool ≡ ok tt q))
      × (count id c.held ≡ 0 → free_buf id c.pool ≡ panic)
unfolding count new_pool
Reach-free_buf virt_to_phys dma entries size id r = give-IsShared stack_allocator id (
    Reach-IsShared stack_allocator r (record {
      valid = new_pool-IsPool virt_to_phys dma entries size;
      size = refl;
      once = λ a. ground (arith, count-new_pool virt_to_phys dma entries size a);
    }))
