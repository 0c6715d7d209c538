-- ===== src/Setup/Rings.antt =====
-- What `init_rx` and `init_tx` of src/igb.rs make of a device whose registers are all mapped.
use mathlib.Core.List.{append_assoc, append-nil}
use igb_driver.Prelude.{
  ℕ, zero, suc, ◌+◌, ◌*◌, ◌≤◌, ◌<◌, ◌≡◌, ◌∙◌, refl, sym, ap, [], ◌∷◌, ◌++◌, replicate, bit_or,
  arith,
}
use igb_driver.Outcome.{Returns, ◌>>◌}
use igb_driver.Memory.{range, range_from}
use igb_driver.Memory.Store.{Store}
use igb_driver.Registers.{
  igb_rxpbsize, igb_rxpbsize_128kb, igb_rxctrl, igb_rxctrl_rxen, igb_rxctrl_bam, igb_hlreg0,
  igb_hlreg0_rxcrcstrp, igb_rdrxctl, igb_rdrxctl_crcstrip, igb_fctrl, igb_fctrl_bam, igb_dmatxctl,
  igb_dmatxctl_te,
}
use igb_driver.Registers.Mapped.{queue_regs}
use igb_driver.Device.{Platform, IgbDevice, World, M, set_reg32, set_flags32, clear_flags32}
use igb_driver.Device.Triples.{
  IsMapped, Triple, Triple-then, Quiet, At, quiet_rules, set_flags32-Quiet, set_reg32-Quiet,
}
use igb_driver.Setup.{
  for_each, new_rx_queue, new_tx_queue, allocate_ring, init_rx_queue, init_rx, init_tx_queue,
  init_tx, push_rx, push_tx,
}

module _ (hw : Platform) where
  allocate_ring-Quiet : {d : IgbDevice} {s : Store} (size : ℕ) → Quiet d s (allocate_ring hw size)
  unfolding allocate_ring
  allocate_ring-Quiet size = record { at = λ w p. p }

  -- The other packet buffers get no memory.
  no_buffers-Quiet :
      {d : IgbDevice} {s : Store} (n i : ℕ)
      → IsMapped d
      → i + n ≤ 8
      → Quiet d s (for_each (range_from i n) (λ j. set_reg32 hw (igb_rxpbsize j) 0))
  unfolding for_each range_from igb_rxpbsize
  no_buffers-Quiet zero i mapped h = record { at = λ w p. p }
  no_buffers-Quiet (suc n) i mapped h =
      Triple-then (set_reg32-Quiet hw (0x03C00 + i * 4) 0 mapped (ground arith))
        (no_buffers-Quiet n (i + 1) mapped (omega (arith, h)))

  before_rings :
      {d : IgbDevice} {s : Store}
      → IsMapped d
      → (others : M (Unit {0})) → Quiet d s others
      → Quiet d s (
          clear_flags32 hw igb_rxctrl igb_rxctrl_rxen
          >> set_reg32 hw (igb_rxpbsize 0) igb_rxpbsize_128kb
          >> others
          >> set_flags32 hw igb_hlreg0 igb_hlreg0_rxcrcstrp
          >> set_flags32 hw igb_rdrxctl igb_rdrxctl_crcstrip
          >> set_flags32 hw igb_fctrl igb_fctrl_bam)
  unfolding igb_rxpbsize
  before_rings mapped others quiet = search (quiet_rules, mapped) depth 12

  module _ (qs pool : ℕ) where
    abbrev pub add_rx : ℕ → IgbDevice → IgbDevice
    add_rx n dev = record dev { rx_queues = dev.rx_queues ++ replicate n (new_rx_queue qs pool) }

    push_rx-add :
        {d : IgbDevice} {s : Store}
        → Triple (At d s) (push_rx (new_rx_queue qs pool)) (At (add_rx 1 d) s)
    push_rx-add = record {
      at = λ w (dv, sv). (
        ap (λ (e : IgbDevice). record e { rx_queues = e.rx_queues ++ new_rx_queue qs pool ∷ [] })
            dv,
        sv,
      );
    }

    init_rx_queue-add :
        {d : IgbDevice} {s : Store} (i : ℕ)
        → IsMapped d
        → i < 64
        → Triple (At d s) (init_rx_queue hw qs pool i) (At (add_rx 1 d) s)
    unfolding init_rx_queue
    init_rx_queue-add i mapped h =
        search (quiet_rules, mapped, h, queue_regs, allocate_ring-Quiet, push_rx-add) depth 12

    rx_rings-add :
        {d : IgbDevice} {s : Store} (n i : ℕ)
        → IsMapped d
        → i + n ≤ 64
        → Triple (At d s) (for_each (range_from i n) (init_rx_queue hw qs pool)) (At (add_rx n d) s)
    unfolding for_each range_from
    rx_rings-add {d} zero i mapped h = record {
      at = λ w (dv, sv).
          (dv ∙ ap (λ qs'. record d { rx_queues = qs' }) (sym (append-nil d.rx_queues)), sv);
    }
    rx_rings-add {d} {s} (suc n) i mapped h =
        Triple-then (init_rx_queue-add i mapped (omega (arith, h))) (record {
          at = λ w p.
              rw
                (ap (λ qs'. record d { rx_queues = qs' })
                  (sym (
                    append_assoc d.rx_queues (new_rx_queue qs pool ∷ [])
                      (replicate n (new_rx_queue qs pool)))))
                ((rx_rings-add {d = add_rx 1 d} {s = s} n (i + 1) mapped (omega (arith, h))).at w
                  p);
        })

    init_rx-all :
        {d : IgbDevice} {s : Store} (n : ℕ)
        → IsMapped d
        → n ≤ 64
        → Triple
            (At d s)
            (clear_flags32 hw igb_rxctrl igb_rxctrl_rxen
              >> set_reg32 hw (igb_rxpbsize 0) igb_rxpbsize_128kb
              >> for_each (range_from 1 7) (λ i. set_reg32 hw (igb_rxpbsize i) 0)
              >> set_flags32 hw igb_hlreg0 igb_hlreg0_rxcrcstrp
              >> set_flags32 hw igb_rdrxctl igb_rdrxctl_crcstrip
              >> set_flags32 hw igb_fctrl igb_fctrl_bam
              >> for_each (range n) (init_rx_queue hw qs pool)
              >> set_flags32 hw igb_rxctrl (bit_or igb_rxctrl_rxen igb_rxctrl_bam))
            (At (add_rx n d) s)
    unfolding igb_rxpbsize
    init_rx-all {d} {s} n mapped few =
        Triple-then
          (Triple-then
            (before_rings mapped (for_each (range_from 1 7) (λ i. set_reg32 hw (igb_rxpbsize i) 0))
              (no_buffers-Quiet 7 1 mapped (omega arith)))
            (rx_rings-add n 0 mapped (omega (arith, few))))
          (set_flags32-Quiet hw igb_rxctrl (bit_or igb_rxctrl_rxen igb_rxctrl_bam) mapped refl)

    -- On mapped registers `init_rx` returns, and gives the device a new empty queue with `qs` descriptors
    -- and the pool for each of its receive queues, of which there are at most 64; nothing else of the
    -- device changes, and the pools do not.
    pub init_rx-new_rx_queue :
        (w : World)
        → IsMapped w.dev
        → w.dev.num_rx_queues ≤ 64
        → Returns
            (λ _ w'.
              (w'.dev ≡ record w.dev {
                rx_queues = w.dev.rx_queues ++ replicate w.dev.num_rx_queues (new_rx_queue qs pool);
              })
              × (w'.store ≡ w.store))
            (init_rx hw qs pool w)
    unfolding init_rx
    init_rx-new_rx_queue w mapped few =
        (init_rx-all w.dev.num_rx_queues mapped few).at w (refl, refl)

    -- The same for every world with that device and those pools.
    pub init_rx-add :
        {d : IgbDevice} {s : Store}
        → IsMapped d
        → d.num_rx_queues ≤ 64
        → Triple (At d s) (init_rx hw qs pool) (At (add_rx d.num_rx_queues d) s)
    init_rx-add {d} {s} mapped few = record {
      at = λ w (dv, sv). rw (sym dv, sym sv) (init_rx-new_rx_queue w (rw dv mapped) (rw dv few));
    }

  module _ (qs : ℕ) where
    abbrev pub add_tx : ℕ → IgbDevice → IgbDevice
    add_tx n dev = record dev { tx_queues = dev.tx_queues ++ replicate n (new_tx_queue qs) }

    push_tx-add :
        {d : IgbDevice} {s : Store}
        → Triple (At d s) (push_tx (new_tx_queue qs)) (At (add_tx 1 d) s)
    push_tx-add = record {
      at = λ w (dv, sv). (
        ap (λ (e : IgbDevice). record e { tx_queues = e.tx_queues ++ new_tx_queue qs ∷ [] }) dv,
        sv,
      );
    }

    init_tx_queue-add :
        {d : IgbDevice} {s : Store} (i : ℕ)
        → IsMapped d
        → i < 64
        → Triple (At d s) (init_tx_queue hw qs i) (At (add_tx 1 d) s)
    unfolding init_tx_queue
    init_tx_queue-add i mapped h =
        search (quiet_rules, mapped, h, queue_regs, allocate_ring-Quiet, push_tx-add) depth 12

    tx_rings-add :
        {d : IgbDevice} {s : Store} (n i : ℕ)
        → IsMapped d
        → i + n ≤ 64
        → Triple (At d s) (for_each (range_from i n) (init_tx_queue hw qs)) (At (add_tx n d) s)
    unfolding for_each range_from
    tx_rings-add {d} zero i mapped h = record {
      at = λ w (dv, sv).
          (dv ∙ ap (λ qs'. record d { tx_queues = qs' }) (sym (append-nil d.tx_queues)), sv);
    }
    tx_rings-add {d} {s} (suc n) i mapped h =
        Triple-then (init_tx_queue-add i mapped (omega (arith, h))) (record {
          at = λ w p.
              rw
                (ap (λ qs'. record d { tx_queues = qs' })
                  (sym (
                    append_assoc d.tx_queues (new_tx_queue qs ∷ [])
                      (replicate n (new_tx_queue qs)))))
                ((tx_rings-add {d = add_tx 1 d} {s = s} n (i + 1) mapped (omega (arith, h))).at w
                  p);
        })

    -- On mapped registers `init_tx` returns, and gives the device a new empty queue with `qs` descriptors
    -- and no pool for each of its send queues, of which there are at most 64; nothing else of the device
    -- changes, and the pools do not.
    pub init_tx-new_tx_queue :
        (w : World)
        → IsMapped w.dev
        → w.dev.num_tx_queues ≤ 64
        → Returns
            (λ _ w'.
              (w'.dev ≡ record w.dev {
                tx_queues = w.dev.tx_queues ++ replicate w.dev.num_tx_queues (new_tx_queue qs);
              })
              × (w'.store ≡ w.store))
            (init_tx hw qs w)
    unfolding init_tx
    init_tx-new_tx_queue w mapped few =
        (Triple-then
            (tx_rings-add {d = w.dev} {s = w.store} w.dev.num_tx_queues 0 mapped
              (omega (arith, few)))
            (set_reg32-Quiet hw igb_dmatxctl igb_dmatxctl_te mapped refl)).at
          w (refl, refl)

    -- The same for every world with that device and those pools.
    pub init_tx-add :
        {d : IgbDevice} {s : Store}
        → IsMapped d
        → d.num_tx_queues ≤ 64
        → Triple (At d s) (init_tx hw qs) (At (add_tx d.num_tx_queues d) s)
    init_tx-add {d} {s} mapped few = record {
      at = λ w (dv, sv). rw (sym dv, sym sv) (init_tx-new_tx_queue w (rw dv mapped) (rw dv few));
    }
