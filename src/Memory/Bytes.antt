-- ===== src/Memory/Bytes.antt =====
-- src/memory.rs and src/igb.rs: the bytes of packets. The memory is a function from addresses to bytes.
-- A mutable slice is a place that `write_bytes` fills; a slice is what stands there.
pub mod Copies
pub mod Headroom
use igb_driver.Prelude.{
  ℕ, zero, suc, ◌+◌, Option, none, some, List, [], ◌∷◌, ◌==◌, if◌then◌else◌, length,
}
use igb_driver.Outcome.{Run, Outcome, ok, panic, pure, panics, zoom, ◌>>=◌, ◌>>◌}
use igb_driver.Memory.{Packet, headroom_mut}
use igb_driver.Memory.Store.{Store, IgbNetBuf, clone_packet}

abbrev pub Bytes : Type 0
Bytes = ℕ → ℕ

-- `slice::from_raw_parts(addr, len)`
unfoldable pub bytes_at : Bytes → ℕ → ℕ → List ℕ
bytes_at m addr zero = []
bytes_at m addr (suc len) = m addr ∷ bytes_at m (addr + 1) len

unfoldable pub write_bytes : ℕ → List ℕ → Bytes → Bytes
write_bytes addr [] m = m
write_bytes addr (x ∷ xs) m = write_bytes (addr + 1) xs (λ a. if a == addr then x else m a)

-- The slices of a packet: `as_bytes` and `deref`, and what `as_mut_bytes` and `deref_mut` let one write.
unfoldable pub as_bytes : Packet → Bytes → List ℕ
unfolding bytes_at
as_bytes p m = bytes_at m p.addr_virt p.len

unfoldable pub as_mut_bytes : Packet → List ℕ → Bytes → Bytes
unfolding write_bytes
as_mut_bytes p xs m = write_bytes p.addr_virt xs m

-- `clone_from_slice` panics if the two lengths differ.
unfoldable pub clone_from_slice : Packet → List ℕ → Run Bytes (Unit {0})
unfolding as_mut_bytes
clone_from_slice p xs m = if length xs == p.len then ok tt (as_mut_bytes p xs m) else panic

-- The pools with the memory.
pub record Ram : Type 0 where
  pub store : Store
  pub bytes : Bytes

abbrev pub in_store {ℓ} : {A : Type ℓ} → Run Store A → Run Ram A
in_store = zoom (λ r. r.store) (λ s r. record r { store = s })

abbrev pub in_bytes {ℓ} : {A : Type ℓ} → Run Bytes A → Run Ram A
in_bytes = zoom (λ r. r.bytes) (λ m r. record r { bytes = m })

-- `Packet::clone`
unfoldable pub clone : Packet → Run Ram Packet
unfolding clone_packet clone_from_slice as_bytes
clone packet r =
    (in_store (clone_packet packet) >>= λ p.
    in_bytes (clone_from_slice p (as_bytes packet r.bytes)) >> pure p)
      r

-- The methods of `IgbNetBuf`.
unfoldable pub packet_of : IgbNetBuf → Bytes → List ℕ
unfolding as_bytes
packet_of buf m = as_bytes buf.packet m

-- What `packet_mut` lets one write.
unfoldable pub packet_mut : IgbNetBuf → List ℕ → Bytes → Bytes
unfolding as_mut_bytes
packet_mut buf xs m = as_mut_bytes buf.packet xs m

abbrev pub packet_len : IgbNetBuf → ℕ
packet_len buf = buf.packet.len

abbrev pub pool_entry_of : IgbNetBuf → ℕ
pool_entry_of buf = buf.packet.pool_entry
