-- ===== src/Nic/Igb.antt =====
-- `impl NicDevice for IgbDevice` (src/igb.rs): its methods, and the calls that concern no packet.
use igb_driver.Prelude.{ℕ, ◌-◌, ◌*◌, ◌^◌, ◌<◌, ◌≡◌, ◌⊎◌, refl, List, length, some, get_elem?, arith}
use igb_driver.Outcome.{err, invalid_queue, Returns}
use igb_driver.Memory.{MemPool}
use igb_driver.Registers.{igb_ral, igb_rah, igb_status}
use igb_driver.Device.{Platform, IgbTxQueue, World}
use igb_driver.Device.Access.{Mapped}
use igb_driver.Device.Triples.{IsMapped-Mapped, At}
use igb_driver.Link.{get_mac_addr, reset_stats, get_link_speed, speed_of}
use igb_driver.Rx.{receive_packets, can_receive}
use igb_driver.Tx.{send, can_send, recycle_tx_buffers}
use igb_driver.Tx.Valid.{in_use-lt}
use igb_driver.Driver.{Working, IsWorking}
use igb_driver.Nic.Recycling.{Frees, recycle_tx_buffers-Recycles}
use igb_driver.Nic.{NicDevice, IsSpeed}

-- The methods; the loop of `recycle_tx_buffers` has fuel for any ring of fewer than `2 ^ 31` descriptors.
abbrev pub igb_nic : Platform → NicDevice World
igb_nic hw = record {
  get_mac_addr = get_mac_addr hw;
  reset_stats = reset_stats hw;
  get_link_speed = get_link_speed hw;
  recycle_tx_buffers = recycle_tx_buffers hw (2 ^ 26);
  receive_packets = receive_packets hw;
  send = send hw;
  can_receive = can_receive hw;
  can_send = can_send;
}

-- The world with its clients.
abbrev pub with : List ℕ → World → Working
with clients w = record { world = w; clients = clients }

module _ (hw : Platform) (arc : ℕ) (start : MemPool) where
  abbrev pub IsInOrder : List ℕ → World → Type 0
  IsInOrder clients w = IsWorking arc start (with clients w)

  -- What keeps the device and the pools keeps the order.
  pub same-IsInOrder :
      {clients : List ℕ} {w v : World}
      → IsInOrder clients w
      → At w.dev w.store v
      → IsInOrder clients v
  same-IsInOrder {w} {v} order (dev, store) = record {
    mapped = rw dev order.mapped;
    few_rx = rw dev order.few_rx;
    few_tx = rw dev order.few_tx;
    rings = rw dev order.rings;
    lines = rw dev order.lines;
    size = rw store order.size;
    addresses = rw store order.addresses;
    conserved = λ a. rw (dev, store) (order.conserved a);
  }

  speeds : (x : ℕ) → IsSpeed (speed_of x)
  unfolding speed_of
  speeds x = ground arith

  pub address :
      (clients : List ℕ) (w : World)
      → IsInOrder clients w
      → Returns (λ mac t. (length mac ≡ 6) × IsInOrder clients t) (get_mac_addr hw w)
  unfolding get_mac_addr igb_ral igb_rah
  address clients w order =
      let low : Mapped w (igb_ral 0) = IsMapped-Mapped w (igb_ral 0) (omega arith) order.mapped in
      let high : Mapped w (igb_rah 0) = IsMapped-Mapped w (igb_rah 0) (omega arith) order.mapped in
      rw (low, high) (refl, same-IsInOrder order (refl, refl))

  pub speed :
      (clients : List ℕ) (w : World)
      → IsInOrder clients w
      → Returns (λ speed t. IsSpeed speed × IsInOrder clients t) (get_link_speed hw w)
  unfolding get_link_speed
  speed clients w order =
      rw (IsMapped-Mapped w igb_status (omega arith) order.mapped)
        (speeds _, same-IsInOrder order (refl, refl))

  pub recycles :
      (q : ℕ) (clients : List ℕ) (w : World)
      → IsInOrder clients w
      → (recycle_tx_buffers hw (2 ^ 26) q w ≡ err invalid_queue w)
        ⊎ Returns
            (λ _ t. IsInOrder clients t × Frees hw arc q w t)
            (recycle_tx_buffers hw (2 ^ 26) q w)
  recycles q clients w order =
      recycle_tx_buffers-Recycles {s = with clients w} order hw q (2 ^ 26 - 1) enough
    where
      enough :
          (queue : IgbTxQueue)
          → get_elem? w.dev.tx_queues q ≡ some queue
          → length queue.bufs_in_use < 32 * 2 ^ 26
      enough queue found =
          let line = order.lines q queue found in
          omega (arith, in_use-lt line.valid, line.valid.small)
