-- ===== src/Tests.antt =====
-- The concrete card, pools and queues on which the modules below run src/igb.rs and src/memory.rs.
mod Pools
mod Sending
mod Receiving
mod Starting
mod Driving
mod Registers
mod Drafting
mod Interrupting
use igb_driver.Prelude.{
  ℕ, ◌+◌, ◌-◌, ◌*◌, ◌/◌, ◌%◌, ◌^◌, Bool, false, none, some, List, [], ◌∷◌, ◌==◌, if◌then◌else◌,
  replicate,
}
use igb_driver.Descriptor.Rx.{AdvancedRxDescriptor}
use igb_driver.Descriptor.Tx.{AdvancedTxDescriptor}
use igb_driver.Memory.{MemPool, Packet, range_from}
use igb_driver.Memory.Store.{Store, IgbNetBuf}
use igb_driver.Device.{Platform, IgbRxQueue, IgbTxQueue, IgbDevice, World}

abbrev pub slice_bits : ℕ → ℕ → ℕ → ℕ
slice_bits v a b = v / 2 ^ a % 2 ^ (b - a)

-- A card that has always finished its work: the control register is clear, every other register has
-- all bits set, and every descriptor is done. A received packet has 60 bytes.
abbrev pub card : Platform
card = record {
  reg = λ t r. if r == 0 then 0 else 2 ^ 32 - 1;
  rx_desc =
      λ t q i d. record { packet_buffer_address = 0; header_buffer_address = 3 + 60 * 2 ^ 32 };
  tx_desc = λ t q i d. record d { paylen_popts_cc_idx_sta = 1 };
  dma_alloc = λ t size. record { virt = 2 ^ 20; phys = 2 ^ 20 };
  virt_to_phys = λ v size. v;
  get_bits = slice_bits;
}

-- Four entries, the entries 2 and 3 free.
abbrev pub small_pool : MemPool
small_pool = record {
  base_addr = 4096;
  num_entries = 4;
  entry_size = 2048;
  phys_addr = 4096 ∷ 6144 ∷ 8192 ∷ 10240 ∷ [];
  free_stack = 3 ∷ 2 ∷ [];
}

abbrev pub small_store : Store
small_store = record { pools = λ a. small_pool; next = 2 }

abbrev pub rx_slot : AdvancedRxDescriptor
rx_slot = record { packet_buffer_address = 4096; header_buffer_address = 0 }

abbrev pub tx_slot : AdvancedTxDescriptor
tx_slot = record {
  packet_buffer_address = 0;
  data_len = 0;
  dtyp_mac_rsv = 0;
  dcmd = 0;
  paylen_popts_cc_idx_sta = 0;
}

-- Two descriptors with the entries 0 and 1.
abbrev pub rx_two : IgbRxQueue
rx_two = record {
  descriptors = rx_slot ∷ rx_slot ∷ [];
  num_descriptors = 2;
  pool = 0;
  bufs_in_use = 0 ∷ 1 ∷ [];
  rx_index = 1;
}

abbrev pub rx_fresh : IgbRxQueue
rx_fresh = record rx_two { bufs_in_use = []; rx_index = 0 }

-- A queue of the pool 0 with `n` descriptors, the first `busy` of them in use.
abbrev pub tx_queue : ℕ → ℕ → IgbTxQueue
tx_queue n busy = record {
  descriptors = replicate n tx_slot;
  num_descriptors = n;
  pool = some 0;
  bufs_in_use = range_from 0 busy;
  clean_index = 0;
  tx_index = busy;
}

abbrev pub device : List IgbRxQueue → List IgbTxQueue → IgbDevice
device rx_queues tx_queues = record {
  addr = 0;
  len = 2 ^ 17;
  num_rx_queues = 1;
  num_tx_queues = 1;
  rx_queues = rx_queues;
  tx_queues = tx_queues;
  interrupts = record {
    interrupts_enabled = false;
    itr_rate = 0;
    interrupt_type = 0;
    timeout_ms = 0;
    queues = [];
  };
}

abbrev pub rx_world : IgbRxQueue → World
rx_world queue = record { dev = device (queue ∷ []) []; store = small_store; trace = [] }

abbrev pub tx_world : IgbTxQueue → World
tx_world queue = record { dev = device [] (queue ∷ []); store = small_store; trace = [] }

-- A packet of the pool 1.
abbrev pub net_buf : IgbNetBuf
net_buf = record {
  packet = record { addr_virt = 10272; addr_phys = 10272; len = 60; pool = 1; pool_entry = 3 };
}
