-- ===== src/Rx.antt =====
-- src/igb.rs: the receive queues, `receive_packets` and `can_receive`. The closure that takes the
-- packets is the parameter `f`; it may change the pools, as it does when it drops a packet. The
-- status and the length of a descriptor come from one reading of it: the card writes a descriptor
-- back as a whole.
pub mod Valid
pub mod Closure
pub mod Round
pub mod Taken
pub mod Receive
pub mod Received
pub mod Packets
pub mod Headroom
pub mod Waiting
pub mod Armed
use igb_driver.Prelude.{
  ℕ, zero, suc, ◌+◌, Bool, true, false, not, Option, none, some, List, [], ◌∷◌, ◌++◌, ◌==◌,
  if◌then◌else◌, bit_and, get_elem?, set,
}
use igb_driver.Word.{as_u8, as_u32}
use igb_driver.Outcome.{
  Outcome, Run, ok, err, panic, hang, pure, unwrap, zoom, zoom_result, ◌>>=◌, ◌>>◌, invalid_queue,
  not_ready,
}
use igb_driver.Descriptor.Rx
use igb_driver.Descriptor.Rx.{AdvancedRxDescriptor, rx_status_dd, rx_status_eop}
use igb_driver.Memory.{MemPool, Packet, alloc_buf, get_virt_addr, get_phys_addr}
use igb_driver.Memory.Store.{Store, at_pool, IgbNetBuf}
use igb_driver.Ring.{wrap_ring}
use igb_driver.Registers.{igb_rdt}
use igb_driver.Device.{Platform, Event, read_rx, IgbRxQueue, IgbDevice, World, M, event, set_reg32}

abbrev pub put_rx : ℕ → IgbRxQueue → World → World
put_rx q queue w = record w { dev = record w.dev { rx_queues = set w.dev.rx_queues q queue } }

-- The local variables of `receive_packets`, with the packets that went to the closure, in order.
pub record Receiving : Type 0 where
  pub queue : IgbRxQueue
  pub store : Store
  pub trace : List Event
  pub rx_index : ℕ
  pub last_rx_index : ℕ
  pub recv_nums : ℕ
  pub delivered : List IgbNetBuf

-- A method of the queue's pool.
abbrev pub on_pool {ℓ} : {A : Type ℓ} → Run MemPool A → Run Receiving A
on_pool m s =
    zoom {T = Receiving} (λ r. r.store) (λ store r. record r { store = store })
      (at_pool s.queue.pool m) s

-- A method of the queue's pool that only reads.
abbrev pub ask_pool {ℓ} : {A : Type ℓ} → Run MemPool A → Run Receiving A
ask_pool m s = zoom_result (λ _. s) (m (s.store.pools s.queue.pool))

-- The state after the descriptor at `i` was read.
abbrev pub looked : ℕ → ℕ → AdvancedRxDescriptor → Receiving → Receiving
looked q i desc s = record s {
  queue = record s.queue { descriptors = set s.queue.descriptors i desc };
  trace = read_rx q i ∷ s.trace;
}

-- `mem::replace` on the buffer of the current descriptor.
abbrev pub replace_buf : ℕ → Receiving → Receiving
replace_buf buf s = record s {
  queue = record s.queue { bufs_in_use = set s.queue.bufs_in_use s.rx_index buf };
}

-- The call of the closure.
abbrev pub deliver : (IgbNetBuf → Store → Store) → Packet → Receiving → Receiving
deliver f packet s = record s {
  store = f (record { packet = packet }) s.store;
  recv_nums = s.recv_nums + 1;
  delivered = s.delivered ++ (record { packet = packet }) ∷ [];
}

-- The descriptor goes back to the card with the address of its new buffer, and the index goes on.
abbrev pub hand_back : ℕ → AdvancedRxDescriptor → Receiving → Receiving
hand_back address desc s = record s {
  queue = record s.queue {
    descriptors =
        set s.queue.descriptors s.rx_index (Rx.reset_status (Rx.set_packet_address address desc));
  };
  last_rx_index = s.rx_index;
  rx_index = wrap_ring s.rx_index s.queue.num_descriptors;
}

abbrev pub receiving : IgbRxQueue → World → Receiving
receiving queue w = record {
  queue = queue;
  store = w.store;
  trace = w.trace;
  rx_index = queue.rx_index;
  last_rx_index = queue.rx_index;
  recv_nums = 0;
  delivered = [];
}

-- The queue, the pools and the events go back into the world; `rx_index` is the index that the queue
-- keeps.
abbrev pub received : ℕ → ℕ → Receiving → World → World
received q rx_index s w =
    put_rx q (record s.queue { rx_index = rx_index })
      (record w { store = s.store; trace = s.trace })

module _ (hw : Platform) where
  unfoldable pub done : AdvancedRxDescriptor → Bool
  unfolding Rx.get_ext_status
  done desc = not (bit_and (as_u8 (Rx.get_ext_status hw.get_bits desc)) rx_status_dd == 0)

  unfoldable pub complete : AdvancedRxDescriptor → Bool
  unfolding Rx.get_ext_status
  complete desc = not (bit_and (as_u8 (Rx.get_ext_status hw.get_bits desc)) rx_status_eop == 0)

  -- A reading of the descriptor at `i`.
  unfoldable pub look : ℕ → ℕ → Run Receiving AdvancedRxDescriptor
  look q i s = elim (get_elem? s.queue.descriptors i) [
    | none ↦ panic
    | some old ↦ let desc = hw.rx_desc s.trace q i old in ok desc (looked q i desc s)
  ]

  -- The new buffer `buf` takes the place of the one that holds the packet.
  unfoldable pub swap_in :
      (IgbNetBuf → Store → Store) → AdvancedRxDescriptor → ℕ → Run Receiving Bool
  unfolding get_virt_addr get_phys_addr Rx.packet_length
  swap_in f desc buf s =
      (unwrap (get_elem? s.queue.bufs_in_use s.rx_index) >>= λ idx s'.
      (ask_pool (get_virt_addr idx) >>= λ virt. ask_pool (get_phys_addr idx) >>= λ phys t.
      let packet : Packet = record {
        addr_virt = virt;
        addr_phys = phys;
        len = Rx.packet_length hw.get_bits desc;
        pool = t.queue.pool;
        pool_entry = idx;
      } in
      (ask_pool (get_phys_addr buf) >>= λ address u. ok true (hand_back address desc u))
        (deliver f packet t))
        (replace_buf buf s'))
        s

  abbrev pub with_buffer :
      (IgbNetBuf → Store → Store) → AdvancedRxDescriptor → Option ℕ → Run Receiving Bool
  with_buffer f desc none = pure false
  with_buffer f desc (some buf) = swap_in f desc buf

  -- One round of the loop; it says whether the loop goes on.
  unfoldable pub receive_one : (IgbNetBuf → Store → Store) → ℕ → Run Receiving Bool
  receive_one f q s =
      (look q s.rx_index >>= λ desc t.
      if done desc
      then if complete desc then (on_pool alloc_buf >>= with_buffer f desc) t else panic
      else ok false t)
        s

  -- `for _ in 0..packet_nums`
  unfoldable pub receive_loop : (IgbNetBuf → Store → Store) → ℕ → ℕ → Run Receiving (Unit {0})
  receive_loop f zero q s = ok tt s
  receive_loop f (suc packet_nums) q s =
      (receive_one f q >>= λ more t. elim more [
        | true ↦ receive_loop f packet_nums q t
        | false ↦ ok tt t
      ])
        s

  -- The end of the call: the tail register and the queue's index are set if packets came.
  unfoldable pub finish : ℕ → Receiving → M (ℕ × List IgbNetBuf)
  unfolding set_reg32
  finish q s w =
      if s.rx_index == s.last_rx_index
      then ok (s.recv_nums, s.delivered) (received q s.queue.rx_index s w)
      else (set_reg32 hw (igb_rdt q) (as_u32 s.last_rx_index) >> pure (s.recv_nums, s.delivered))
          (received q s.rx_index s w)

  -- The result is the number of packets, with the packets that the closure was given.
  unfoldable pub receive_packets : (IgbNetBuf → Store → Store) → ℕ → ℕ → M (ℕ × List IgbNetBuf)
  receive_packets f q packet_nums w = elim (get_elem? w.dev.rx_queues q) [
    | none ↦ err invalid_queue w
    | some queue ↦ elim (look q queue.rx_index (receiving queue w)) [
      | ok desc s ↦
          if done desc
          then elim (receive_loop f packet_nums q s) [
            | ok _ t ↦ finish q t w
            | err e t ↦ err e w
            | panic ↦ panic
            | hang ↦ hang
          ]
          else err not_ready (received q queue.rx_index s w)
      | err e s ↦ err e w
      | panic ↦ panic
      | hang ↦ hang
    ]
  ]

  -- `can_receive`
  unfoldable pub can_receive : ℕ → M Bool
  unfolding look Rx.get_ext_status
  can_receive q w = elim (get_elem? w.dev.rx_queues q) [
    | none ↦ err invalid_queue w
    | some queue ↦ elim (look q queue.rx_index (receiving queue w)) [
      | ok desc s ↦ ok (done desc) (received q queue.rx_index s w)
      | err e s ↦ err e w
      | panic ↦ panic
      | hang ↦ hang
    ]
  ]
