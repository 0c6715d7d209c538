-- ===== src/Memory/Bytes/Copies.antt =====
-- The bytes of a packet are its own, and a clone has the same ones (src/memory.rs).
use native.Mathlib.Nat.{add-mul, mul-le-mul_right}
use native.Mathlib.Decide.{dec_lt}
use igb_driver.Prelude.{
  ℕ, zero, suc, ◌+◌, ◌≤◌, ◌<◌, ◌≡◌, ◌≢◌, ◌⊎◌, ◌∙◌, inl, inr, refl, sym, ap, Option, none, some,
  List, [], ◌∷◌, length, ◌==◌, if◌then◌else◌, ==_refl, ==_iff, ==_ne, arith,
}
use igb_driver.Word.{usize_mod}
use igb_driver.Outcome.{ok, panic, Returns, Returns-ok}
use igb_driver.Memory.{MemPool, Packet, packet_headroom, alloc_pkt}
use igb_driver.Memory.Counts.{count}
use igb_driver.Memory.Invariant.{IsPool}
use igb_driver.Memory.Packets.{
  IsWithin, IsInEntry, IsInEntry-IsWithin, Allocates, entry_start, entry_end, alloc_pkt-Allocates,
}
use igb_driver.Memory.Store.{clone_packet}
use igb_driver.Memory.Bytes.{
  Bytes, bytes_at, write_bytes, as_bytes, as_mut_bytes, clone_from_slice, Ram, clone,
}

length-bytes_at : (m : Bytes) (addr len : ℕ) → length (bytes_at m addr len) ≡ len
unfolding bytes_at
length-bytes_at m addr zero = refl
length-bytes_at m addr (suc len) = ap suc (length-bytes_at m (addr + 1) len)

-- A write changes the bytes of its place only.
pub write_bytes-outside :
    (m : Bytes) (addr : ℕ) (xs : List ℕ) (a : ℕ)
    → (a < addr) ⊎ (addr + length xs ≤ a)
    → write_bytes addr xs m a ≡ m a
unfolding write_bytes
write_bytes-outside m addr [] a out = refl
write_bytes-outside m addr (x ∷ xs) a out =
    let next : (a < addr + 1) ⊎ (addr + 1 + length xs ≤ a) = elim out [
      | inl l ↦ inl (omega arith)
      | inr l ↦ inr (omega arith)
    ] in
    let ne : a ≢ addr = (λ z. elim out [ inl l ↦ omega (arith, z) | inr l ↦ omega (arith, z) ]) in
    write_bytes-outside (λ b. if b == addr then x else m b) (addr + 1) xs a next
    ∙ rw (==_ne a addr ne) refl

pub bytes_at-ext :
    (m n : Bytes) (addr len : ℕ)
    → ((a : ℕ) → addr ≤ a → a < addr + len → m a ≡ n a)
    → bytes_at m addr len ≡ bytes_at n addr len
unfolding bytes_at
bytes_at-ext m n addr zero same = refl
bytes_at-ext m n addr (suc len) same =
    ap (λ x. x ∷ bytes_at m (addr + 1) len) (same addr (omega arith) (omega arith))
    ∙ ap (λ xs. n addr ∷ xs)
        (bytes_at-ext m n (addr + 1) len (λ a l h. same a (omega arith) (omega arith)))

-- What was written is what is read.
pub bytes_at-write_bytes :
    (m : Bytes) (addr : ℕ) (xs : List ℕ) → bytes_at (write_bytes addr xs m) addr (length xs) ≡ xs
unfolding bytes_at write_bytes
bytes_at-write_bytes m addr [] = refl
bytes_at-write_bytes m addr (x ∷ xs) =
    let put : Bytes = λ b. if b == addr then x else m b in
    let first : write_bytes (addr + 1) xs put addr ≡ x =
      write_bytes-outside put (addr + 1) xs addr (inl (omega arith)) ∙ rw (==_refl addr) refl in
    ap (λ y. y ∷ bytes_at (write_bytes (addr + 1) xs put) (addr + 1) (length xs)) first
    ∙ ap (λ ys. x ∷ ys) (bytes_at-write_bytes put (addr + 1) xs)

-- Two entries do not overlap.
pub entries_apart : (pool : MemPool) (i j : ℕ) → i < j → entry_end pool i ≤ entry_start pool j
entries_apart pool i j h =
    let next : i + 1 ≤ j = omega arith in
    omega (arith, add-mul i 1 pool.entry_size, mul-le-mul_right pool.entry_size next)

apart :
    {pool : MemPool} {p r : Packet}
    → IsWithin pool p
    → IsWithin pool r
    → p.pool_entry ≢ r.pool_entry
    → (p.addr_virt + p.len ≤ r.addr_virt) ⊎ (r.addr_virt + r.len ≤ p.addr_virt)
apart {pool} {p} {r} vp vr ne = elim (dec_lt p.pool_entry r.pool_entry) [
  | yes l ↦ inl (omega (arith, vp.back, vr.front, entries_apart pool p.pool_entry r.pool_entry l))
  | no g ↦
      let l : r.pool_entry < p.pool_entry = omega (arith, ne) in
      inr (omega (arith, vr.back, vp.front, entries_apart pool r.pool_entry p.pool_entry l))
]

-- Packets that lie in different entries of a pool, received ones or new ones, share no bytes: whatever is written to one through a slice of its
-- length is read back from it, and the bytes of the other one stay as they are.
pub as_mut_bytes-as_bytes :
    {pool : MemPool} {p r : Packet} (xs : List ℕ) (m : Bytes)
    → IsWithin pool p
    → IsWithin pool r
    → p.pool_entry ≢ r.pool_entry
    → length xs ≡ p.len
    → (as_bytes p (as_mut_bytes p xs m) ≡ xs) × (as_bytes r (as_mut_bytes p xs m) ≡ as_bytes r m)
unfolding as_bytes as_mut_bytes
as_mut_bytes-as_bytes {pool} {p} {r} xs m vp vr ne size = (
  ap (bytes_at (write_bytes p.addr_virt xs m) p.addr_virt) (sym size)
      ∙ bytes_at-write_bytes m p.addr_virt xs,
  bytes_at-ext (write_bytes p.addr_virt xs m) m r.addr_virt r.len (λ a l h.
      write_bytes-outside m p.addr_virt xs a (elim (apart vp vr ne) [
        | inl e ↦ inr (omega (arith, size, e))
        | inr e ↦ inl (omega (arith, e))
      ])),
)

-- What a clone comes to.
pub record IsClone (packet : Packet) (r : Ram) (p : Packet) (r' : Ram) : Type 0 where
  pub same_bytes : as_bytes p r'.bytes ≡ as_bytes packet r.bytes
  pub kept : as_bytes packet r'.bytes ≡ as_bytes packet r.bytes
  pub other_entry : p.pool_entry ≢ packet.pool_entry
  pub in_entry : IsInEntry (r.store.pools packet.pool) p
  pub taken :
      (r.store.pools packet.pool).free_stack
      ≡ p.pool_entry ∷ (r'.store.pools packet.pool).free_stack

module _ (packet : Packet) (r : Ram) (within : IsWithin (r.store.pools packet.pool) packet)
    (held : count packet.pool_entry (r.store.pools packet.pool).free_stack ≡ 0) where
  abbrev old_pool : MemPool
  old_pool = r.store.pools packet.pool

  -- What the call comes to, by the free entries and the length.
  abbrev Clones : Type 0
  Clones =
      (old_pool.free_stack ≢ []
        → packet_headroom + packet.len ≤ old_pool.entry_size
        → Returns (IsClone packet r) (clone packet r))
      × (old_pool.free_stack ≡ [] → clone packet r ≡ panic)
      × (old_pool.entry_size < packet_headroom + packet.len → clone packet r ≡ panic)

  from_alloc :
      (o : Option Packet) (q : MemPool)
      → alloc_pkt packet.pool packet.len old_pool ≡ ok o q
      → Allocates old_pool packet.len o q
      → Clones
  unfolding clone clone_packet clone_from_slice count
  from_alloc none q e (_, why) = (
    (λ some_free fits. elim why [
      | inl none_free ↦ absurd (some_free none_free)
      | inr small ↦ absurd (omega (arith, small, fits))
    ]),
    (λ _. rw e refl),
    (λ _. rw e refl),
  )
  from_alloc (some p) q e (top, rest, size, v) =
      let ne : p.pool_entry ≢ packet.pool_entry = (λ z. ground (arith, held, top, z)) in
      let long : length (as_bytes packet r.bytes) ≡ p.len =
        length-bytes_at r.bytes packet.addr_virt packet.len ∙ sym size in
      let (written, kept) =
        as_mut_bytes-as_bytes (as_bytes packet r.bytes) r.bytes (IsInEntry-IsWithin v) within ne
          long in
      (
        (λ _ _. rw e (
            rw ((==_iff _ _).1 long) (record {
              same_bytes = written;
              kept = kept;
              other_entry = ne;
              in_entry = v;
              taken = rw (==_refl packet.pool) top;
            }))),
        (λ none_free. absurd (omega (arith, ap length top, ap length none_free))),
        (λ big. absurd (omega (arith, big, size, v.front, v.back))),
      )

  -- Cloning a packet that lies in its entry, a received one or a new one, whose entry is not free. If an entry
  -- of its pool is free and holds the length of the packet behind the headroom, the clone is a packet in an
  -- entry of its own, taken from the top of the free ones, with the same bytes, and the bytes of the original
  -- are as before. If no entry is free, or if the packet is longer than an entry without the headroom, the call
  -- panics. The pool is valid and its entries hold the headroom.
  pub clone-IsClone :
      IsPool old_pool
      → packet_headroom ≤ old_pool.entry_size
      → old_pool.entry_size < usize_mod
      → (old_pool.free_stack ≢ []
          → packet_headroom + packet.len ≤ old_pool.entry_size
          → Returns (IsClone packet r) (clone packet r))
        × (old_pool.free_stack ≡ [] → clone packet r ≡ panic)
        × (old_pool.entry_size < packet_headroom + packet.len → clone packet r ≡ panic)
  clone-IsClone v room h =
      let allocates = alloc_pkt-Allocates packet.pool packet.len v room h in
      let (o, q, e, a) = Returns-ok (alloc_pkt packet.pool packet.len old_pool) allocates in
      from_alloc o q e a
