-- ===== src/Memory.antt =====
-- src/memory.rs: the memory pool, its packets, and the packets' wrapper `IgbNetBuf` of src/igb.rs.
-- A pool lives behind an `Arc`; the store keeps the pools by number, and two pointers are equal
-- (`Arc::ptr_eq`) if the numbers are. Here are the places of the buffers; their bytes are in Bytes.antt.
pub mod Store
pub mod Invariant
pub mod Counts
pub mod Packets
pub mod Allocator
pub mod History
pub mod Bag
pub mod Bytes
use igb_driver.Prelude.{
  ℕ, zero, suc, ◌+◌, ◌*◌, ◌%◌, ◌^◌, Bool, true, false, Option, none, some, List, [], ◌∷◌, ◌++◌, map,
  ltb, ◌==◌, if◌then◌else◌, ◌||◌, get_elem?,
}
use igb_driver.Word.{add_usize, sub_usize, mul_usize}
use igb_driver.Outcome.{
  Outcome, Run, ok, err, panic, pure, fail, panics, unwrap, ◌>>=◌, ◌>>◌, page_not_aligned,
}

abbrev pub huge_page_bits : ℕ
huge_page_bits = 21

abbrev pub huge_page_size : ℕ
huge_page_size = 2 ^ huge_page_bits

abbrev pub packet_headroom : ℕ
packet_headroom = 32

-- The head of `free_stack` is the end of the vector.
pub record MemPool : Type 0 where
  pub base_addr : ℕ
  pub num_entries : ℕ
  pub entry_size : ℕ
  pub phys_addr : List ℕ
  pub free_stack : List ℕ

-- `0..n`
unfoldable pub range_from : ℕ → ℕ → List ℕ
range_from i zero = []
range_from i (suc n) = i ∷ range_from (i + 1) n

abbrev pub range : ℕ → List ℕ
range n = range_from 0 n

-- `Vec::extend` on a stack.
unfoldable pub extend : List ℕ → List ℕ → List ℕ
extend [] stack = stack
extend (x ∷ xs) stack = extend xs (x ∷ stack)

unfoldable pub contains : List ℕ → ℕ → Bool
contains [] id = false
contains (x ∷ xs) id = x == id || contains xs id

-- `Dma::allocate`: what `H::dma_alloc` returns, a physical and a virtual address.
pub record Dma : Type 0 where
  pub virt : ℕ
  pub phys : ℕ

-- The pool that `MemPool::allocate` builds over the memory at `dma`. The pointer is not null and
-- its `add` does not leave the allocation, so the `unwrap` of `NonNull::new` is not modelled.
unfoldable pub new_pool : (ℕ → ℕ → ℕ) → Dma → ℕ → ℕ → MemPool
new_pool virt_to_phys dma entries entry_size = record {
  base_addr = dma.virt;
  num_entries = entries;
  entry_size = entry_size;
  phys_addr = map (λ i. virt_to_phys (dma.virt + i * entry_size) entry_size) (range entries);
  free_stack = extend (range entries) [];
}

abbrev pub default_entry_size : ℕ → ℕ
default_entry_size size = if size == 0 then 2048 else size

unfoldable pub alloc_buf : Run MemPool (Option ℕ)
alloc_buf pool = elim pool.free_stack [
  | [] ↦ ok none pool
  | id ∷ rest ↦ ok (some id) (record pool { free_stack = rest })
]

unfoldable pub free_buf : ℕ → Run MemPool (Unit {0})
free_buf id pool =
    if ltb id pool.num_entries
    then if contains pool.free_stack id
      then panic
      else ok tt (record pool { free_stack = id ∷ pool.free_stack })
    else panic

unfoldable pub get_virt_addr : ℕ → Run MemPool ℕ
get_virt_addr id pool =
    if ltb id pool.num_entries then ok (pool.base_addr + id * pool.entry_size) pool else panic

unfoldable pub get_phys_addr : ℕ → Run MemPool ℕ
get_phys_addr id pool = unwrap (get_elem? pool.phys_addr id) pool

-- `pool` is the number of the `Arc`.
pub record Packet : Type 0 where
  pub addr_virt : ℕ
  pub addr_phys : ℕ
  pub len : ℕ
  pub pool : ℕ
  pub pool_entry : ℕ

-- `arc` points to the pool that the call runs on.
unfoldable pub packet_at : ℕ → ℕ → ℕ → Run MemPool Packet
unfolding get_virt_addr get_phys_addr
packet_at arc len id = do
  virt ← get_virt_addr id
  phys ← get_phys_addr id
  pure (record {
    addr_virt = virt + packet_headroom;
    addr_phys = add_usize phys packet_headroom;
    len = len;
    pool = arc;
    pool_entry = id;
  })

abbrev if_some : ℕ → ℕ → Option ℕ → Run MemPool (Option Packet)
unfolding packet_at
if_some arc size none = pure none
if_some arc size (some id) = do p ← packet_at arc size id; pure (some p)

unfoldable pub alloc_pkt : ℕ → ℕ → Run MemPool (Option Packet)
unfolding alloc_buf packet_at
alloc_pkt arc size pool =
    if ltb (sub_usize pool.entry_size packet_headroom) size
    then ok none pool
    else (alloc_buf >>= if_some arc size) pool

-- `headroom_mut(len)`: the address of the slice.
unfoldable pub headroom_mut : Packet → ℕ → Option ℕ
headroom_mut p len = if ltb packet_headroom len then none else some (sub_usize p.addr_virt len)
