-- ===== src/Memory/Packets.antt =====
-- Where packets lie in the memory of their pool (src/memory.rs, `alloc_pkt` and `headroom_mut`).
use igb_driver.Prelude.{
  ℕ, ◌+◌, ◌-◌, ◌*◌, ◌≤◌, ◌<◌, ◌≡◌, ◌≢◌, ◌⊎◌, inl, inr, refl, ap, false, Option, some, none, List,
  [], ◌∷◌, ltb, arith, get_elem?-some, Bool-cases, lt→ltb, le→ltb, ltb→le, ltb→lt,
}
use igb_driver.Word.{usize_mod, sub_usize}
use igb_driver.Outcome.{Returns}
use igb_driver.Memory.{MemPool, Packet, packet_headroom, packet_at, alloc_pkt, headroom_mut}
use igb_driver.Memory.Counts.{count}
use igb_driver.Memory.Invariant.{IsPool, alloc_buf-cases}

-- The first address of an entry, and the first behind it.
abbrev pub entry_start : MemPool → ℕ → ℕ
entry_start pool id = pool.base_addr + id * pool.entry_size

abbrev pub entry_end : MemPool → ℕ → ℕ
entry_end pool id = entry_start pool id + pool.entry_size

-- A packet's data lies in its entry, as that of a received packet does.
pub record IsWithin (pool : MemPool) (p : Packet) : Type 0 where
  pub entry : p.pool_entry < pool.num_entries
  pub front : entry_start pool p.pool_entry ≤ p.addr_virt
  pub back : p.addr_virt + p.len ≤ entry_end pool p.pool_entry

-- A packet's data lies in its entry, behind the headroom, as `alloc_pkt` places it.
pub record IsInEntry (pool : MemPool) (p : Packet) : Type 0 where
  pub entry : p.pool_entry < pool.num_entries
  pub front : entry_start pool p.pool_entry + packet_headroom ≤ p.addr_virt
  pub back : p.addr_virt + p.len ≤ entry_end pool p.pool_entry

-- A valid pool finds both addresses of an entry in range.
pub packet_at_lem :
    {pool : MemPool} (arc len id : ℕ)
    → IsPool pool
    → id < pool.num_entries
    → Returns
        (λ p q.
          (q ≡ pool)
          × (p.pool ≡ arc)
          × (p.pool_entry ≡ id)
          × (p.len ≡ len)
          × (p.addr_virt ≡ entry_start pool id + packet_headroom))
        (packet_at arc len id pool)
unfolding packet_at
packet_at_lem {pool} arc len id v h =
    let (phys, e) = get_elem?-some pool.phys_addr id (omega (arith, v.addresses)) in
    rw (lt→ltb id pool.num_entries h, e) (refl, refl, refl, refl, refl)

-- The top free entry is in range.
top_in_range :
    {pool : MemPool} {id : ℕ} {rest : List ℕ}
    → IsPool pool
    → pool.free_stack ≡ id ∷ rest
    → id < pool.num_entries
unfolding count
top_in_range {pool} {id} v f = ground (arith, v.in_range id)

pub IsInEntry-IsWithin : {pool : MemPool} {p : Packet} → IsInEntry pool p → IsWithin pool p
IsInEntry-IsWithin v = record { entry = v.entry; front = omega (arith, v.front); back = v.back }

-- What `alloc_pkt` returns.
abbrev pub Allocates : MemPool → ℕ → Option Packet → MemPool → Type 0
Allocates pool size none q =
    (q ≡ pool) × ((pool.free_stack ≡ []) ⊎ (pool.entry_size < packet_headroom + size))
Allocates pool size (some p) q =
    (pool.free_stack ≡ p.pool_entry ∷ q.free_stack)
    × (q ≡ record pool { free_stack = q.free_stack })
    × (p.len ≡ size)
    × IsInEntry pool p

-- With entries that hold the headroom, `alloc_pkt` takes the top free entry and places the packet in
-- that entry, behind its headroom; it returns nothing only if no entry is free or the entries are too
-- small, and then the pool is as before.
pub alloc_pkt-Allocates :
    {pool : MemPool} (arc size : ℕ)
    → IsPool pool
    → packet_headroom ≤ pool.entry_size
    → pool.entry_size < usize_mod
    → Returns (Allocates pool size) (alloc_pkt arc size pool)
unfolding alloc_pkt
alloc_pkt-Allocates {pool} arc size v room h =
    elim (Bool-cases (ltb (sub_usize pool.entry_size packet_headroom) size)) [
      | inl big ↦ rw big (refl, inr (omega (arith, ltb→lt _ _ big)))
      | inr fits ↦ elim (alloc_buf-cases pool) [
        | inl (f, e) ↦ rw (fits, e) (refl, inl f)
        | inr (id, rest, f, e) ↦
            let near : id < pool.num_entries = top_in_range v f in
            let (phys, found) = get_elem?-some pool.phys_addr id (omega (arith, v.addresses)) in
            rw (fits, e, lt→ltb id pool.num_entries near, found)
              (
                f,
                refl,
                refl,
                record { entry = near; front = omega arith; back = omega (arith, ltb→le _ _ fits) },
              )
      ]
    ]

-- With entries smaller than the headroom, which `MemPool::allocate` accepts, the subtraction wraps
-- and packets of almost any size are handed out; they start behind the end of their entry.
pub alloc_pkt-small_entries :
    {pool : MemPool} (arc size : ℕ)
    → IsPool pool
    → pool.entry_size < packet_headroom
    → size < usize_mod - packet_headroom
    → pool.free_stack ≢ []
    → Returns
        (λ r q.
          (p : Packet) × (r ≡ some p)
          × (p.len ≡ size)
          × (entry_end pool p.pool_entry < p.addr_virt))
        (alloc_pkt arc size pool)
unfolding alloc_pkt
alloc_pkt-small_entries {pool} arc size v small h full =
    let fits : ltb (sub_usize pool.entry_size packet_headroom) size ≡ false =
      le→ltb _ _ (omega arith) in
    elim (alloc_buf-cases pool) [
      | inl (f, e) ↦ absurd (full f)
      | inr (id, rest, f, e) ↦
          let near : id < pool.num_entries = top_in_range v f in
          let (phys, found) = get_elem?-some pool.phys_addr id (omega (arith, v.addresses)) in
          rw (fits, e, lt→ltb id pool.num_entries near, found) (_, refl, refl, omega arith)
    ]

-- The headroom of a packet that lies in its entry, behind room for it, stands in that entry too, directly in
-- front of the packet. More than the headroom is refused.
pub headroom_mut_lem :
    (pool : MemPool) (p : Packet) (len : ℕ)
    → IsInEntry pool p
    → p.addr_virt < usize_mod
    → (len ≤ packet_headroom
        → (a : ℕ) × (headroom_mut p len ≡ some a)
          × (entry_start pool p.pool_entry ≤ a)
          × (a + len ≡ p.addr_virt))
      × (packet_headroom < len → headroom_mut p len ≡ none)
unfolding headroom_mut
headroom_mut_lem pool p len v h = (
  (λ l. (
    p.addr_virt - len,
    rw (le→ltb packet_headroom len l) (ap some (omega (arith, v.front))),
    omega arith,
    omega arith,
  )),
  (λ l. rw (lt→ltb packet_headroom len l)),
)
