-- ===== src/Memory/Bag.antt =====
-- What a memory pool promises (src/memory.rs), whatever the order of its stack of free entries: a bag of
-- free entries, from which an allocation takes any one and to which a release gives one back.
use mathlib.Core.Quot
use mathlib.Core.Quot.{Quot, Quot-set}
use native.Mathlib.Nat.{ℕ_set}
use native.Mathlib.Decide.{dec_lt}
use igb_driver.Prelude.{
  ℕ, ◌<◌, ◌≡◌, inl, inr, refl, sym, ap, ◌∙◌, Option, some, none, List, [], ◌∷◌, arith,
}
use igb_driver.Outcome.{ok}
use igb_driver.Memory.{MemPool, Dma, new_pool, range, alloc_buf, free_buf}
use igb_driver.Memory.Counts.{count, count-range}
use igb_driver.Memory.Invariant.{
  IsPool, new_pool-IsPool, count-new_pool, alloc_buf-cases, alloc_buf-IsPool, free_buf_lem,
  free_buf-cases,
}

-- Two stacks hold the same entries, as often.
abbrev pub SameEntries : List ℕ → List ℕ → Type 0
SameEntries xs ys = (a : ℕ) → count a xs ≡ count a ys

abbrev pub Bag : Type 0
Bag = Quot SameEntries

abbrev pub of_stack : List ℕ → Bag
of_stack = Quot.mk

unfoldable pub occurrences : ℕ → Bag → ℕ
occurrences a = Quot.lift ℕ_set (count a) λ xs ys h. h a

put_same : (x : ℕ) (xs ys : List ℕ) → SameEntries xs ys → SameEntries (x ∷ xs) (x ∷ ys)
unfolding count
put_same x xs ys h a = omega (arith, h a)

unfoldable pub put : ℕ → Bag → Bag
unfolding put_same
put x = Quot.lift Quot-set (λ xs. of_stack (x ∷ xs)) λ xs ys h. Quot.sound (put_same x xs ys h)

-- What a client sees of a call: the result of an allocation, or the entry of a release.
pub data Seen : Type 0 where
  took : Option ℕ → Seen
  gave : ℕ → Seen

-- A call on the pool.
pub data PoolStep (p : MemPool) : Seen → MemPool → Type 0 where
  takes : {r : Option ℕ} {q : MemPool} → alloc_buf p ≡ ok r q → PoolStep p (took r) q
  gives : {id : ℕ} {q : MemPool} → free_buf id p ≡ ok tt q → PoolStep p (gave id) q

pub data PoolRun (p : MemPool) : List Seen → MemPool → Type 0 where
  pool_start : PoolRun p [] p
  pool_next :
      {seen : List Seen} {q r : MemPool} {call : Seen}
      → PoolRun p seen q
      → PoolStep q call r
      → PoolRun p (call ∷ seen) r

-- A call on a bag of the entries below `n`: an allocation takes some entry out, or finds the bag empty;
-- a release puts an entry in that is not there.
pub data BagStep (n : ℕ) (b : Bag) : Seen → Bag → Type 0 where
  bag_takes : {id : ℕ} {c : Bag} → b ≡ put id c → BagStep n b (took (some id)) c
  bag_empty : b ≡ of_stack [] → BagStep n b (took none) b
  bag_gives : {id : ℕ} → id < n → occurrences id b ≡ 0 → BagStep n b (gave id) (put id b)

pub data BagRun (n : ℕ) (b : Bag) : List Seen → Bag → Type 0 where
  bag_start : BagRun n b [] b
  bag_next :
      {seen : List Seen} {c d : Bag} {call : Seen}
      → BagRun n b seen c
      → BagStep n c call d
      → BagRun n b (call ∷ seen) d

abbrev pub view : MemPool → Bag
view p = of_stack p.free_stack

-- The bag of the entries below `n`, each once.
abbrev pub all_below : ℕ → Bag
all_below n = of_stack (range n)

-- A release that succeeds is of an entry in range that is not free.
free_buf-fresh :
    {p q : MemPool} {id : ℕ}
    → IsPool p
    → free_buf id p ≡ ok tt q
    → (id < p.num_entries) × (count id p.free_stack ≡ 0)
free_buf-fresh {p} {q} {id} v e = elim (dec_lt id p.num_entries) [
  | no far ↦ absurd (let e' = (free_buf_lem id v).1 (inl (omega arith)) in cc)
  | yes near ↦ elim (dec_lt 0 (count id p.free_stack)) [
    | yes again ↦ absurd (let e' = (free_buf_lem id v).1 (inr again) in cc)
    | no fresh ↦ (near, omega arith)
  ]
]

PoolStep-BagStep :
    {p q : MemPool} {call : Seen}
    → IsPool p
    → PoolStep p call q
    → BagStep p.num_entries (view p) call (view q) × IsPool q × (q.num_entries ≡ p.num_entries)
unfolding put occurrences
PoolStep-BagStep {p} v (takes {r} {q} e) =
    let kept : IsPool q = rw e at (alloc_buf-IsPool v) in
    elim (alloc_buf-cases p) [
      | inl (none_free, e') ↦
          let result : none ≡ r = cc in
          let same : p ≡ q = cc in
          rw (← result, ← same) (bag_empty (ap of_stack none_free), v, refl)
      | inr (id, rest, top, e') ↦
          let result : some id ≡ r = cc in
          let same : record p { free_stack = rest } ≡ q = cc in
          (
            rw (← result, ← same) (bag_takes (ap of_stack top)),
            kept,
            sym (ap (λ (x : MemPool). x.num_entries) same),
          )
    ]
PoolStep-BagStep {p} v (gives {id} {q} e) =
    let kept : IsPool q = rw e at ((free_buf_lem id v).0) in
    elim (free_buf-cases id p) [
      | inl e' ↦ absurd cc
      | inr e' ↦
          let same : record p { free_stack = id ∷ p.free_stack } ≡ q = cc in
          let (inside, used) = free_buf-fresh v e in
          (
            rw (← same) (bag_gives inside used),
            kept,
            sym (ap (λ (x : MemPool). x.num_entries) same),
          )
    ]

view-new_pool :
    (virt_to_phys : ℕ → ℕ → ℕ) (dma : Dma) (entries size : ℕ)
    → view (new_pool virt_to_phys dma entries size) ≡ all_below entries
view-new_pool virt_to_phys dma entries size =
    Quot.sound
      λ a. ground (arith, count-new_pool virt_to_phys dma entries size a, count-range a 0 entries)

follows :
    (virt_to_phys : ℕ → ℕ → ℕ) (dma : Dma) (entries size : ℕ) {seen : List Seen} {q : MemPool}
    → PoolRun (new_pool virt_to_phys dma entries size) seen q
    → BagRun entries (all_below entries) seen (view q) × IsPool q × (q.num_entries ≡ entries)
unfolding new_pool
follows virt_to_phys dma entries size pool_start = (
  rw (view-new_pool virt_to_phys dma entries size) bag_start,
  new_pool-IsPool virt_to_phys dma entries size,
  refl,
)
follows virt_to_phys dma entries size (pool_next r step) =
    let (run, valid, same) = follows virt_to_phys dma entries size r in
    let (step', valid', same') = PoolStep-BagStep valid step in
    (bag_next run (rw same at step'), valid', same' ∙ same)

-- While the clients of a new pool take and give back entries in any order, the pool shows them a bag: every
-- sequence of calls is one that the bag of all entries below `entries` allows, with the free entries, in
-- whatever order they lie on the stack, as what is left in the bag. And the pool takes back whatever the bag
-- takes back: an entry in range that is not in the bag can be released next.
pub PoolRun-BagRun :
    (virt_to_phys : ℕ → ℕ → ℕ) (dma : Dma) (entries size : ℕ) {seen : List Seen} {q : MemPool}
    → PoolRun (new_pool virt_to_phys dma entries size) seen q
    → BagRun entries (all_below entries) seen (view q)
      × ((id : ℕ)
          → id < entries
          → occurrences id (view q) ≡ 0
          → PoolStep q (gave id) (record q { free_stack = id ∷ q.free_stack }))
unfolding occurrences
PoolRun-BagRun virt_to_phys dma entries size r =
    let (run, valid, same) = follows virt_to_phys dma entries size r in
    (run, λ id inside used. gives ((free_buf_lem id valid).2 (omega (arith, inside, same)) used))
