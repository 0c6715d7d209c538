-- ===== src/Setup.antt =====
-- src/igb.rs: making the rings (`init_rx`, `init_tx`). The number of descriptors of a ring, `QS`, is the
-- argument `qs`.
pub mod Rings
use igb_driver.Prelude.{
  ℕ, zero, suc, ◌+◌, ◌-◌, ◌*◌, ◌/◌, ◌%◌, ◌^◌, Bool, true, false, not, Option, none, some, List, [],
  ◌∷◌, ◌++◌, ◌==◌, if◌then◌else◌, bit_and, bit_or, get_elem?, set, replicate,
}
use igb_driver.Word.{mul_usize, sub_usize, as_u32, not_u32}
use igb_driver.Outcome.{
  Outcome, Run, ok, err, panic, hang, pure, fail, panics, unwrap, zoom, zoom_result, then_run,
  ◌>>=◌, ◌>>◌, queue_not_aligned, no_memory,
}
use igb_driver.Descriptor.Rx
use igb_driver.Descriptor.Rx.{AdvancedRxDescriptor}
use igb_driver.Descriptor.Tx
use igb_driver.Descriptor.Tx.{AdvancedTxDescriptor}
use igb_driver.Memory.{MemPool, Dma, range, range_from, alloc_buf, get_phys_addr}
use igb_driver.Memory.Store.{Store, put_pool, at_pool}
use igb_driver.Ring.{is_ring_size}
use igb_driver.Registers.{
  igb_rdbal, igb_rdbah, igb_rdlen, igb_rdh, igb_rdt, igb_rxdctl, igb_rxdctl_enable, igb_tdbal,
  igb_tdbah, igb_tdlen, igb_tdh, igb_tdt, igb_txdctl, igb_txdctl_enable, igb_rxctrl,
  igb_rxctrl_rxen, igb_rxctrl_bam, igb_rxpbsize, igb_rxpbsize_128kb, igb_hlreg0,
  igb_hlreg0_rxcrcstrp, igb_rdrxctl, igb_rdrxctl_crcstrip, igb_fctrl, igb_fctrl_bam, igb_dmatxctl,
  igb_dmatxctl_te, igb_ctrl, igb_ctrl_ext, igb_ctrl_global_rst,
}
use igb_driver.Device.{
  Platform, Event, asked_memory, Interrupts, IgbRxQueue, IgbTxQueue, IgbDevice, World, M, event,
  wait_until, get_reg32, set_reg32, set_flags32, clear_flags32, wait_set_reg32, wait_clear_reg32,
}
use igb_driver.Rx.{put_rx}
use igb_driver.Tx.{put_tx}
use igb_driver.Link.{init_link, reset_stats, wait_for_link, get_mac_addr}
use igb_driver.Interrupts.{disable_interrupts, clear_interrupts}

-- `for i in is { body(i)?; }`
unfoldable pub for_each {ℓ} : {S : Type ℓ} → List ℕ → (ℕ → Run S (Unit {0})) → Run S (Unit {0})
for_each [] body = pure tt
for_each (i ∷ is) body = body i >> for_each is body

-- The new rings: `init` overwrites both words of a descriptor, whatever the memory held.
unfoldable pub rx_ring : ℕ → List AdvancedRxDescriptor
unfolding Rx.init
rx_ring qs =
    replicate qs (Rx.init (record { packet_buffer_address = 0; header_buffer_address = 0 }))

unfoldable pub tx_ring : ℕ → List AdvancedTxDescriptor
unfolding Tx.init
tx_ring qs = replicate qs (
    Tx.init (record {
      packet_buffer_address = 0;
      data_len = 0;
      dtyp_mac_rsv = 0;
      dcmd = 0;
      paylen_popts_cc_idx_sta = 0;
    }))

abbrev pub new_rx_queue : ℕ → ℕ → IgbRxQueue
new_rx_queue qs pool = record {
  descriptors = rx_ring qs;
  num_descriptors = qs;
  pool = pool;
  bufs_in_use = [];
  rx_index = 0;
}

abbrev pub new_tx_queue : ℕ → IgbTxQueue
new_tx_queue qs = record {
  descriptors = tx_ring qs;
  num_descriptors = qs;
  pool = none;
  bufs_in_use = [];
  clean_index = 0;
  tx_index = 0;
}

abbrev pub push_rx : IgbRxQueue → M (Unit {0})
push_rx queue w =
    ok tt (record w { dev = record w.dev { rx_queues = w.dev.rx_queues ++ queue ∷ [] } })

abbrev pub push_tx : IgbTxQueue → M (Unit {0})
push_tx queue w =
    ok tt (record w { dev = record w.dev { tx_queues = w.dev.tx_queues ++ queue ∷ [] } })

module _ (hw : Platform) where
  -- `Dma::allocate`
  unfoldable pub allocate_ring : ℕ → M Dma
  allocate_ring size w = ok (hw.dma_alloc w.trace size) (event (asked_memory size) w)

  unfoldable pub init_rx_queue : ℕ → ℕ → ℕ → M (Unit {0})
  unfolding set_reg32 allocate_ring
  init_rx_queue qs pool i = do
    let ring_size_bytes = mul_usize qs 16
    dma ← allocate_ring ring_size_bytes
    _ ← set_reg32 hw (igb_rdbal i) (as_u32 dma.phys)
    _ ← set_reg32 hw (igb_rdbah i) (as_u32 (dma.phys / 2 ^ 32))
    _ ← set_reg32 hw (igb_rdlen i) (as_u32 ring_size_bytes)
    _ ← set_reg32 hw (igb_rdh i) 0
    _ ← set_reg32 hw (igb_rdt i) 0
    push_rx (new_rx_queue qs pool)

  unfoldable pub init_rx : ℕ → ℕ → M (Unit {0})
  unfolding set_reg32 set_flags32 clear_flags32 for_each init_rx_queue
  init_rx qs pool w =
      (clear_flags32 hw igb_rxctrl igb_rxctrl_rxen
          >> set_reg32 hw (igb_rxpbsize 0) igb_rxpbsize_128kb
          >> for_each (range_from 1 7) (λ i. set_reg32 hw (igb_rxpbsize i) 0)
          >> set_flags32 hw igb_hlreg0 igb_hlreg0_rxcrcstrp
          >> set_flags32 hw igb_rdrxctl igb_rdrxctl_crcstrip
          >> set_flags32 hw igb_fctrl igb_fctrl_bam
          >> for_each (range w.dev.num_rx_queues) (init_rx_queue qs pool)
          >> set_flags32 hw igb_rxctrl (bit_or igb_rxctrl_rxen igb_rxctrl_bam))
        w

  unfoldable pub init_tx_queue : ℕ → ℕ → M (Unit {0})
  unfolding get_reg32 set_reg32 allocate_ring
  init_tx_queue qs i = do
    let ring_size_bytes = mul_usize qs 16
    dma ← allocate_ring ring_size_bytes
    _ ← set_reg32 hw (igb_tdbal i) (as_u32 dma.phys)
    _ ← set_reg32 hw (igb_tdbah i) (as_u32 (dma.phys / 2 ^ 32))
    _ ← set_reg32 hw (igb_tdlen i) (as_u32 ring_size_bytes)
    txdctl ← get_reg32 hw (igb_txdctl i)
    let thresholds = bit_or (bit_or 0x7F (0x7F * 2 ^ 8)) (0x7F * 2 ^ 16)
    _ ←
        set_reg32 hw (igb_txdctl i) (
          bit_or (bit_and txdctl (not_u32 thresholds))
            (bit_or (bit_or 36 (8 * 2 ^ 8)) (4 * 2 ^ 16)))
    push_tx (new_tx_queue qs)

  unfoldable pub init_tx : ℕ → M (Unit {0})
  unfolding set_reg32 for_each init_tx_queue
  init_tx qs w =
      (for_each (range w.dev.num_tx_queues) (init_tx_queue qs)
          >> set_reg32 hw igb_dmatxctl igb_dmatxctl_te)
        w
