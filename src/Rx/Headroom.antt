-- ===== src/Rx/Headroom.antt =====
-- The headroom of received packets: `receive_packets` (src/igb.rs) places a packet at the start of its
-- entry, and `headroom_mut` (src/memory.rs) expects it behind the headroom.
use igb_driver.Prelude.{ℕ, ◌≡◌, ap, true, Bool, some, List, [], ◌∷◌, get_elem?}
use igb_driver.Word.{sub_usize}
use igb_driver.Outcome.{Returns, Returns-map}
use igb_driver.Memory.{MemPool, Packet, headroom_mut, packet_headroom}
use igb_driver.Memory.Packets.{entry_start}
use igb_driver.Memory.Store.{Store, IgbNetBuf}
use igb_driver.Registers.{igb_rdt}
use igb_driver.Descriptor.Rx.{AdvancedRxDescriptor}
use igb_driver.Device.{Platform, IgbRxQueue, World}
use igb_driver.Device.Access.{Mapped}
use igb_driver.Rx.{done, receive_packets}
use igb_driver.Rx.Valid.{IsRxQueue}
use igb_driver.Rx.Round.{HasWholeFrames}
use igb_driver.Rx.Closure.{IsClosure}
use igb_driver.Rx.Taken.{AllPlaced, none_placed, one_placed}
use igb_driver.Rx.Packets.{receive_packets-Received}

-- The full headroom of the packet is handed out as the 32 bytes in front of the packet's entry.
abbrev pub HeadroomOutside : MemPool → Packet → Type 0
HeadroomOutside pool p =
    headroom_mut p packet_headroom
    ≡ some (sub_usize (entry_start pool p.pool_entry) packet_headroom)

pub data AllOutside (pool : MemPool) : List IgbNetBuf → Type 0 where
  none_outside : AllOutside pool []
  one_outside :
      {b : IgbNetBuf} {bufs : List IgbNetBuf}
      → HeadroomOutside pool b.packet
      → AllOutside pool bufs
      → AllOutside pool (b ∷ bufs)

headroom_mut-outside :
    (pool : MemPool) (p : Packet)
    → p.addr_virt ≡ entry_start pool p.pool_entry
    → HeadroomOutside pool p
unfolding headroom_mut
headroom_mut-outside pool p e = ap (λ a. some (sub_usize a packet_headroom)) e

all_outside :
    (pool : MemPool) {bufs : List IgbNetBuf}
    → AllPlaced pool.base_addr pool.entry_size bufs
    → AllOutside pool bufs
all_outside pool none_placed = none_outside
all_outside pool (one_placed e rest) =
    one_outside (headroom_mut-outside pool _ e) (all_outside pool rest)

-- Whatever a call receives under the conditions of `receive_packets-Received`: for every packet that it
-- delivers, the full headroom is handed out as the 32 bytes in front of the packet's entry, which belong
-- to the entry before it or lie in front of the pool.
pub receive_packets-AllOutside :
    (hw : Platform) (kept : IgbNetBuf → Bool) (f : IgbNetBuf → Store → Store) (q limit : ℕ)
    (w : World) {queue : IgbRxQueue} {old : AdvancedRxDescriptor}
    → HasWholeFrames hw
    → IsClosure kept f
    → Mapped w (igb_rdt q)
    → get_elem? w.dev.rx_queues q ≡ some queue
    → IsRxQueue queue (w.store.pools queue.pool)
    → get_elem? queue.descriptors queue.rx_index ≡ some old
    → done hw (hw.rx_desc w.trace q queue.rx_index old) ≡ true
    → Returns (λ r w'. AllOutside (w.store.pools queue.pool) r.1) (receive_packets hw f q limit w)
receive_packets-AllOutside hw kept f q limit w {queue} whole closure m found v slot ready =
    Returns-map (receive_packets hw f q limit w)
      (λ r w' c. all_outside (w.store.pools queue.pool) c.placed)
      (receive_packets-Received hw kept f q limit w whole closure m found v slot ready)
