-- ===== src/Memory/Store.antt =====
-- The pools behind their `Arc`s: `MemPool::allocate`, and the operations that go through a pointer
-- (src/memory.rs), with `IgbNetBuf` (src/igb.rs).
use igb_driver.Prelude.{ℕ, ◌+◌, ◌%◌, Option, none, some, ◌==◌, if◌then◌else◌}
use igb_driver.Word.{mul_usize}
use igb_driver.Outcome.{Run, ok, err, pure, fail, panics, zoom, ◌>>=◌, page_not_aligned, no_memory}
use igb_driver.Memory.{
  MemPool, Dma, Packet, new_pool, default_entry_size, huge_page_size, free_buf, packet_at,
  alloc_pkt,
}

pub record Store : Type 0 where
  pub pools : ℕ → MemPool
  pub next : ℕ

abbrev pub put_pool : ℕ → MemPool → Store → Store
put_pool arc pool s = record s { pools = λ a. if a == arc then pool else s.pools a }

-- A method of the pool behind a pointer.
abbrev pub at_pool {ℓ} : {A : Type ℓ} → ℕ → Run MemPool A → Run Store A
at_pool arc = zoom (λ s. s.pools arc) (put_pool arc)

-- `dma_alloc` and `virt_to_phys` are those of the `IgbHal`.
unfoldable pub allocate : (ℕ → Dma) → (ℕ → ℕ → ℕ) → ℕ → ℕ → Run Store ℕ
allocate dma_alloc virt_to_phys entries size s =
    let entry_size = default_entry_size size in
    if huge_page_size % entry_size == 0
    then ok s.next (record s {
      pools = λ a.
          if a == s.next
          then new_pool virt_to_phys (dma_alloc (mul_usize entries entry_size)) entries entry_size
          else s.pools a;
      next = s.next + 1;
    })
    else err page_not_aligned s

-- A packet that goes out of scope.
unfoldable pub drop_packet : Packet → Run Store (Unit {0})
drop_packet p = at_pool p.pool (free_buf p.pool_entry)

abbrev or_no_memory : Option Packet → Run Store Packet
or_no_memory none = fail no_memory
or_no_memory (some p) = pure p

abbrev expect : Option Packet → Run Store Packet
expect none = panics
expect (some p) = pure p

unfoldable pub clone_packet : Packet → Run Store Packet
clone_packet p = at_pool p.pool (alloc_pkt p.pool p.len) >>= expect

pub record IgbNetBuf : Type 0 where
  pub packet : Packet

-- `IgbNetBuf::alloc`
unfoldable pub alloc : ℕ → ℕ → Run Store IgbNetBuf
alloc arc size = do
  p ← at_pool arc (alloc_pkt arc size) >>= or_no_memory
  pure (record { packet = p })

-- `IgbNetBuf::construct`
unfoldable pub construct : ℕ → ℕ → ℕ → Run Store IgbNetBuf
construct pool_entry arc len = do
  p ← at_pool arc (packet_at arc len pool_entry)
  pure (record { packet = p })
