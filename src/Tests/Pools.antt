-- ===== src/Tests/Pools.antt =====
-- Runs of the memory pool of src/memory.rs.
use igb_driver.Prelude.{ℕ, ◌+◌, ◌≤◌, ◌<◌, ◌≡◌, ◌≢◌, refl, some, List, [], ◌∷◌, arith}
use igb_driver.Outcome.{Returns, err, ok, panic, page_not_aligned}
use igb_driver.Memory.{
  MemPool, Packet, new_pool, range_from, extend, contains, alloc_buf, free_buf, alloc_pkt,
  packet_headroom,
}
use igb_driver.Memory.Bag.{
  Seen, took, gave, PoolRun, pool_start, pool_next, PoolStep, takes, gives, BagRun, all_below, view,
  occurrences, PoolRun-BagRun,
}
use igb_driver.Memory.Counts.{count}
use igb_driver.Memory.Store.{allocate}
use igb_driver.Memory.Invariant.{IsPool, allocate_lem, free_buf_lem}
use igb_driver.Memory.Packets.{
  IsWithin, Allocates, entry_end, alloc_pkt-Allocates, alloc_pkt-small_entries,
}
use igb_driver.Memory.Bytes.{as_bytes, as_mut_bytes, Ram, clone}
use igb_driver.Memory.Bytes.Copies.{as_mut_bytes-as_bytes, IsClone, clone-IsClone}
use igb_driver.Tests.{small_pool, small_store}

IsPool-two_free : IsPool small_pool
unfolding count
IsPool-two_free = record {
  addresses = refl;
  in_range = λ a h. ground arith;
  free_once = λ a. ground arith;
}

abbrev tiny_pool : MemPool
tiny_pool = record small_pool { entry_size = 16 }

tiny_pool-IsPool : IsPool tiny_pool
unfolding count
tiny_pool-IsPool = record {
  addresses = refl;
  in_range = λ a h. ground arith;
  free_once = λ a. ground arith;
}

refused :
    allocate (λ size. record { virt = 0; phys = 0 }) (λ v size. v) 4 3000 small_store
    ≡ err page_not_aligned small_store
refused =
    (allocate_lem (λ size. record { virt = 0; phys = 0 }) (λ v size. v) 4 3000 small_store).1
      (omega arith)

freed_0 : free_buf 0 small_pool ≡ ok tt (record small_pool { free_stack = 0 ∷ 3 ∷ 2 ∷ [] })
unfolding count
freed_0 = (free_buf_lem 0 IsPool-two_free).2 (omega arith) refl

packet_of_60 : Returns (Allocates small_pool 60) (alloc_pkt 0 60 small_pool)
packet_of_60 = alloc_pkt-Allocates 0 60 IsPool-two_free (omega arith) (omega arith)

packet_behind :
    Returns
      (λ r q.
        (p : Packet) × (r ≡ some p)
        × (p.len ≡ 9000)
        × (entry_end tiny_pool p.pool_entry < p.addr_virt))
      (alloc_pkt 0 9000 tiny_pool)
packet_behind =
    alloc_pkt-small_entries 0 9000 tiny_pool-IsPool (omega arith) (omega arith) (λ e. cc)

abbrev packet_at_3 : Packet
packet_at_3 = record { addr_virt = 10272; addr_phys = 10272; len = 60; pool = 0; pool_entry = 3 }

abbrev one_free : MemPool
one_free = record small_pool { free_stack = 2 ∷ [] }

-- A received packet of 60 bytes, at the start of the entry 0, and one of 4 in the entry 1.
abbrev first_packet : Packet
first_packet = record { addr_virt = 4096; addr_phys = 4096; len = 60; pool = 0; pool_entry = 0 }

abbrev second_packet : Packet
second_packet = record { addr_virt = 6176; addr_phys = 6176; len = 4; pool = 0; pool_entry = 1 }

first_packet-IsWithin : IsWithin small_pool first_packet
first_packet-IsWithin = record { entry = omega arith; front = omega arith; back = omega arith }

second_packet-IsWithin : IsWithin small_pool second_packet
second_packet-IsWithin = record { entry = omega arith; front = omega arith; back = omega arith }

four_bytes :
    (as_bytes second_packet (as_mut_bytes second_packet (1 ∷ 2 ∷ 3 ∷ 4 ∷ []) (λ a. 0))
      ≡ 1 ∷ 2 ∷ 3 ∷ 4 ∷ [])
    × (as_bytes first_packet (as_mut_bytes second_packet (1 ∷ 2 ∷ 3 ∷ 4 ∷ []) (λ a. 0))
        ≡ as_bytes first_packet (λ a. 0))
four_bytes =
    as_mut_bytes-as_bytes (1 ∷ 2 ∷ 3 ∷ 4 ∷ []) (λ a. 0) second_packet-IsWithin first_packet-IsWithin
      (λ z. omega (arith, z)) refl

abbrev small_ram : Ram
small_ram = record { store = small_store; bytes = λ a. a }

cloned :
    (small_pool.free_stack ≢ []
      → packet_headroom + 60 ≤ small_pool.entry_size
      → Returns (IsClone first_packet small_ram) (clone first_packet small_ram))
    × (small_pool.free_stack ≡ [] → clone first_packet small_ram ≡ panic)
    × (small_pool.entry_size < packet_headroom + 60 → clone first_packet small_ram ≡ panic)
unfolding count
cloned =
    clone-IsClone first_packet small_ram first_packet-IsWithin refl IsPool-two_free (omega arith)
      (omega arith)

-- A new pool of two entries, one of which is taken and given back.
abbrev pool_of_two : MemPool
pool_of_two = new_pool (λ v size. v) (record { virt = 4096; phys = 4096 }) 2 2048

abbrev taken_and_given : List Seen
taken_and_given = gave 1 ∷ took (some 1) ∷ []

one_round : PoolRun pool_of_two taken_and_given pool_of_two
unfolding new_pool range_from extend contains alloc_buf free_buf
one_round = pool_next (pool_next pool_start (takes refl)) (gives refl)

bag_of_two :
    BagRun 2 (all_below 2) taken_and_given (view pool_of_two)
    × ((id : ℕ)
        → id < 2
        → occurrences id (view pool_of_two) ≡ 0
        → PoolStep pool_of_two
            (gave id)
            (record pool_of_two { free_stack = id ∷ pool_of_two.free_stack }))
bag_of_two = PoolRun-BagRun (λ v size. v) (record { virt = 4096; phys = 4096 }) 2 2048 one_round
