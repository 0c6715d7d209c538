-- ===== src/Init.antt =====
-- src/igb.rs: bringing the card up (`init`, `reset_and_init`, `global_reset`, `init_rx`, `init_tx`,
-- `start_rx_queue`, `start_tx_queue`). The number of descriptors of a ring, `QS`, is the argument
-- `qs`, and `fuel` bounds every waiting loop.
pub mod Fill
pub mod Start
pub mod Quiet
pub mod Sharing
pub mod Loops
pub mod Contract
pub mod Running
use igb_driver.Prelude.{
  ℕ, zero, suc, ◌+◌, ◌-◌, ◌*◌, ◌/◌, ◌%◌, ◌^◌, Bool, true, false, not, Option, none, some, List, [],
  ◌∷◌, ◌++◌, ◌==◌, if◌then◌else◌, bit_and, bit_or, get_elem?, set, replicate,
}
use igb_driver.Word.{mul_usize, sub_usize, as_u32, not_u32}
use igb_driver.Outcome.{
  Outcome, Run, ok, err, panic, hang, pure, fail, panics, unwrap, zoom, zoom_result, then_run,
  ◌>>=◌, ◌>>◌, queue_not_aligned, no_memory,
}
use igb_driver.Descriptor.Rx
use igb_driver.Descriptor.Rx.{AdvancedRxDescriptor}
use igb_driver.Descriptor.Tx
use igb_driver.Descriptor.Tx.{AdvancedTxDescriptor}
use igb_driver.Memory.{MemPool, Dma, range, range_from, alloc_buf, get_phys_addr}
use igb_driver.Memory.Store.{Store, put_pool, at_pool}
use igb_driver.Ring.{is_ring_size}
use igb_driver.Registers.{
  igb_rdbal, igb_rdbah, igb_rdlen, igb_rdh, igb_rdt, igb_rxdctl, igb_rxdctl_enable, igb_tdbal,
  igb_tdbah, igb_tdlen, igb_tdh, igb_tdt, igb_txdctl, igb_txdctl_enable, igb_rxctrl,
  igb_rxctrl_rxen, igb_rxctrl_bam, igb_rxpbsize, igb_rxpbsize_128kb, igb_hlreg0,
  igb_hlreg0_rxcrcstrp, igb_rdrxctl, igb_rdrxctl_crcstrip, igb_fctrl, igb_fctrl_bam, igb_dmatxctl,
  igb_dmatxctl_te, igb_ctrl, igb_ctrl_ext, igb_ctrl_global_rst,
}
use igb_driver.Device.{
  Platform, Event, asked_memory, Interrupts, IgbRxQueue, IgbTxQueue, IgbDevice, World, M, event,
  wait_until, get_reg32, set_reg32, set_flags32, clear_flags32, wait_set_reg32, wait_clear_reg32,
}
use igb_driver.Rx.{put_rx}
use igb_driver.Tx.{put_tx}
use igb_driver.Link.{init_link, reset_stats, wait_for_link, get_mac_addr}
use igb_driver.Interrupts.{disable_interrupts, clear_interrupts}
use igb_driver.Setup.{for_each, init_rx, init_tx}

-- A receive queue with its pool, while `start_rx_queue` gives it buffers.
pub record Filling : Type 0 where
  pub queue : IgbRxQueue
  pub pool : MemPool

abbrev pub in_pool {ℓ} : {A : Type ℓ} → Run MemPool A → Run Filling A
in_pool = zoom (λ s. s.pool) (λ pool s. record s { pool = pool })

-- The buffer `id` goes into the descriptor `i`.
unfoldable pub use_buf : ℕ → ℕ → Run Filling (Unit {0})
unfolding get_phys_addr
use_buf i id = in_pool (get_phys_addr id) >>= λ address s. elim (get_elem? s.queue.descriptors i) [
  | none ↦ panic
  | some desc ↦ ok tt (record s {
    queue = record s.queue {
      descriptors =
          set s.queue.descriptors i (Rx.reset_status (Rx.set_packet_address address desc));
      bufs_in_use = s.queue.bufs_in_use ++ id ∷ [];
    };
  })
]

abbrev pub use_or_fail : ℕ → Option ℕ → Run Filling (Unit {0})
unfolding use_buf
use_or_fail i none = fail no_memory
use_or_fail i (some id) = use_buf i id

-- `n` rounds of the loop from the descriptor `i` on.
unfoldable pub fill : ℕ → ℕ → Run Filling (Unit {0})
unfolding alloc_buf use_buf
fill zero i = pure tt
fill (suc n) i = in_pool alloc_buf >>= use_or_fail i >> fill n (i + 1)

-- The queue and the pool go back into the world.
abbrev pub filled : ℕ → World → Filling → World
filled q w s = put_rx q s.queue (record w { store = put_pool s.queue.pool s.pool w.store })

module _ (hw : Platform) where
  unfoldable pub global_reset : ℕ → M (Unit {0})
  unfolding set_reg32 wait_clear_reg32
  global_reset fuel =
      set_reg32 hw igb_ctrl igb_ctrl_global_rst
      >> wait_clear_reg32 hw fuel igb_ctrl igb_ctrl_global_rst

  -- The card is told of a queue that has its buffers.
  unfoldable pub enable_rx_queue : ℕ → ℕ → ℕ → M (Unit {0})
  unfolding set_reg32 set_flags32 wait_set_reg32
  enable_rx_queue fuel q num_descriptors = do
    _ ← set_flags32 hw (igb_rxdctl q) igb_rxdctl_enable
    _ ← wait_set_reg32 hw fuel (igb_rxdctl q) igb_rxdctl_enable
    _ ← set_reg32 hw (igb_rdh q) 0
    set_reg32 hw (igb_rdt q) (as_u32 (sub_usize num_descriptors 1))

  unfoldable pub start_rx_queue : ℕ → ℕ → M (Unit {0})
  unfolding enable_rx_queue is_ring_size fill
  start_rx_queue fuel q w = elim (get_elem? w.dev.rx_queues q) [
    | none ↦ panic
    | some queue ↦
        if is_ring_size queue.num_descriptors
        then then_run
            (zoom_result (filled q w) (
              fill queue.num_descriptors 0
                (record { queue = queue; pool = w.store.pools queue.pool })))
            (λ _. enable_rx_queue fuel q queue.num_descriptors)
        else err queue_not_aligned w
  ]

  unfoldable pub start_tx_queue : ℕ → ℕ → M (Unit {0})
  unfolding set_reg32 set_flags32 wait_set_reg32 is_ring_size
  start_tx_queue fuel q w = elim (get_elem? w.dev.tx_queues q) [
    | none ↦ panic
    | some queue ↦
        if is_ring_size queue.num_descriptors
        then (set_reg32 hw (igb_tdh q) 0
              >> set_reg32 hw (igb_tdt q) 0
              >> set_flags32 hw (igb_txdctl q) igb_txdctl_enable
              >> wait_set_reg32 hw fuel (igb_txdctl q) igb_txdctl_enable)
            w
        else err queue_not_aligned w
  ]

  unfoldable pub reset_and_init : ℕ → ℕ → ℕ → M (Unit {0})
  unfolding disable_interrupts global_reset set_flags32 wait_set_reg32 wait_until init_link
      reset_stats init_rx init_tx for_each start_rx_queue start_tx_queue clear_interrupts
      wait_for_link get_mac_addr
  reset_and_init fuel qs pool w =
      (disable_interrupts hw
          >> global_reset fuel
          >> wait_until 1000
          >> disable_interrupts hw
          >> set_flags32 hw igb_ctrl_ext (2 ^ 28)
          >> wait_set_reg32 hw fuel igb_ctrl_ext (2 ^ 28)
          >> init_link hw fuel
          >> reset_stats hw
          >> init_rx hw qs pool
          >> init_tx hw qs
          >> for_each (range w.dev.num_rx_queues) (start_rx_queue fuel)
          >> for_each (range w.dev.num_tx_queues) (start_tx_queue fuel)
          >> clear_interrupts hw
          >> set_flags32 hw igb_ctrl
              (bit_or (bit_or (bit_or (bit_or (2 ^ 6) 1) 0x200) 0x1000) 0x800)
          >> wait_for_link hw
          >> (get_mac_addr hw >>= λ mac. pure tt))
        w

  -- `init`: the result is the device, the world at the end, or an error.
  unfoldable pub init : ℕ → ℕ → ℕ → ℕ → ℕ → ℕ → ℕ → Store → List Event → Outcome World (Unit {0})
  unfolding reset_and_init
  init fuel qs base len num_rx_queues num_tx_queues pool store trace =
      reset_and_init fuel qs pool (record {
        dev = record {
          addr = base;
          len = len;
          num_rx_queues = num_rx_queues;
          num_tx_queues = num_tx_queues;
          rx_queues = [];
          tx_queues = [];
          interrupts = record {
            interrupts_enabled = false;
            itr_rate = 0;
            interrupt_type = 0;
            timeout_ms = 0;
            queues = [];
          };
        };
        store = store;
        trace = trace;
      })
