-- ===== src/Tests/Starting.antt =====
-- Runs of the start of the card (src/igb.rs).
use igb_driver.Prelude.{
  ℕ, ◌+◌, ◌^◌, ◌≡◌, ◌≢◌, refl, true, false, Bool, List, [], ◌∷◌, arith, ==_ne, ==_refl, ◌==◌,
  if◌then◌else◌, ◌*◌,
}
use igb_driver.Outcome.{no_memory, Outcome, panic, ok, err, hang, Returns}
use igb_driver.Memory.{alloc_buf, get_phys_addr, range_from}
use igb_driver.Memory.Counts.{count}
use igb_driver.Memory.Invariant.{IsPool}
use igb_driver.Device.{
  Platform, Event, wrote, IgbRxQueue, World, wait_until, get_reg32, set_reg32, set_flags32,
  clear_flags32, wait_set_reg32, wait_clear_reg32,
}
use igb_driver.Registers.{
  igb_rdbal, igb_rdbah, igb_rdlen, igb_rdh, igb_rdt, igb_rxdctl, igb_tdbal, igb_tdbah, igb_tdlen,
  igb_tdh, igb_tdt, igb_txdctl, igb_rxpbsize, igb_ral, igb_rah, igb_mdic, igb_ctrl_ext,
  igb_rxdctl_enable, igb_txdctl_enable,
}
use igb_driver.Ring.{is_ring_size}
use igb_driver.Link.{
  init_link, reset_stats, wait_for_link, poll_link, speed_of, get_link_speed, get_mac_addr,
}
use igb_driver.Interrupts.{disable_interrupts, clear_interrupts}
use igb_driver.Setup.{
  rx_ring, tx_ring, for_each, allocate_ring, init_rx_queue, init_tx_queue, init_rx, init_tx,
}
use igb_driver.Init
use igb_driver.Init.{
  Filling, start_rx_queue, start_tx_queue, enable_rx_queue, filled, fill, use_buf, global_reset,
  reset_and_init,
}
use igb_driver.Init.Start.{IsFresh, start_rx_queue-errors}
use igb_driver.Device.Access.{polled}
use igb_driver.Init.Contract.{IsAnswering, IsRunning}
use igb_driver.Device.Triples.{SetsWithin}
use igb_driver.Init.Running.{init-IsRunning, init-no_memory}
use igb_driver.Tests.{card, small_pool, small_store, rx_slot, rx_world}

small_pool-IsPool : IsPool small_pool
unfolding count
small_pool-IsPool = record {
  addresses = refl;
  in_range = λ a h. ground arith;
  free_once = λ a. ground arith;
}

-- A queue of four descriptors without buffers; the pool has two free entries.
abbrev rx_four : IgbRxQueue
rx_four = record {
  descriptors = rx_slot ∷ rx_slot ∷ rx_slot ∷ rx_slot ∷ [];
  num_descriptors = 4;
  pool = 0;
  bufs_in_use = [];
  rx_index = 0;
}

rx_four-IsFresh : IsFresh rx_four (rx_world rx_four)
rx_four-IsFresh = record {
  power = (2, refl);
  small = omega arith;
  slots = refl;
  bufs = refl;
  first = refl;
  pool = small_pool-IsPool;
}

two_of_four :
    (t : Filling) × (start_rx_queue card 1 0 (rx_world rx_four)
      ≡ err no_memory (filled 0 (rx_world rx_four) t))
    × (t.queue.pool ≡ 0)
    × (t.pool.free_stack ≡ [])
    × ((a : ℕ) → count a t.queue.bufs_in_use ≡ count a small_pool.free_stack)
two_of_four =
    (start_rx_queue-errors card 1 0 (rx_world rx_four)).1 rx_four refl rx_four-IsFresh (omega arith)

-- The bring-up of a device with one queue of each kind and rings of two descriptors.
abbrev comes_up : Outcome World (Unit {0}) → Bool
comes_up (ok _ w) = true
comes_up (err e w) = false
comes_up panic = false
comes_up hang = false

brought_up : comes_up (Init.init card 1 2 0 (2 ^ 17) 1 1 0 small_store []) ≡ true
unfolding Init.init reset_and_init disable_interrupts clear_interrupts global_reset wait_until
    get_reg32 set_reg32 set_flags32 clear_flags32 wait_set_reg32 wait_clear_reg32 init_link
    reset_stats init_rx init_tx for_each range_from init_rx_queue init_tx_queue allocate_ring
    start_rx_queue start_tx_queue enable_rx_queue fill use_buf alloc_buf get_phys_addr is_ring_size
    wait_for_link poll_link speed_of get_link_speed get_mac_addr igb_rdbal igb_rdbah igb_rdlen
    igb_rdh igb_rdt igb_rxdctl igb_tdbal igb_tdbah igb_tdlen igb_tdh igb_tdt igb_txdctl igb_rxpbsize
    igb_ral igb_rah rx_ring tx_ring
brought_up = refl

-- A card whose registers hold what was written to them last, but for the control register, whose reset
-- is over at once, and the management register, whose command is done at once.
unfoldable pub held_word : ℕ → List Event → ℕ
held_word reg [] = 0
held_word reg (wrote r value ∷ t) = if reg == r then value else held_word reg t
held_word reg (_ ∷ t) = held_word reg t

abbrev pub holding_card : Platform
holding_card = record card {
  reg = λ t r. if r == 0 then 0 else if r == igb_mdic then 2 ^ 28 else held_word r t;
}

holding_card-SetsWithin :
    (reg flags : ℕ) → reg ≢ 0 → reg ≢ igb_mdic → SetsWithin holding_card 1 reg flags flags
unfolding polled held_word
holding_card-SetsWithin reg flags some_reg other t v has =
    (0, omega arith, rw (==_ne reg 0 some_reg, ==_ne reg igb_mdic other, ==_refl reg) has)

pub holding_card_answers : IsAnswering holding_card 1 1 1
unfolding polled igb_rxdctl igb_txdctl
holding_card_answers = record {
  resets = λ t v has. (0, omega arith, refl);
  loads =
      holding_card-SetsWithin igb_ctrl_ext (2 ^ 28) (λ z. omega (arith, z)) (λ z. omega (arith, z));
  reads = λ t v has. (0, omega arith, refl);
  writes = λ t v has. (0, omega arith, refl);
  receives = λ q h.
      holding_card-SetsWithin (igb_rxdctl q) igb_rxdctl_enable (λ z. omega (arith, z))
        (λ z. omega (arith, z));
  sends = λ q h.
      holding_card-SetsWithin (igb_txdctl q) igb_txdctl_enable (λ z. omega (arith, z))
        (λ z. omega (arith, z));
}

pub card_answers : IsAnswering card 1 1 1
unfolding polled igb_rxdctl igb_txdctl
card_answers = record {
  resets = λ t v has. (0, omega arith, refl);
  loads = λ t v has. (0, omega arith, refl);
  reads = λ t v has. (0, omega arith, refl);
  writes = λ t v has. (0, omega arith, refl);
  receives = λ q h t v has.
      (0, omega arith, rw (==_ne (0x0C028 + q * 0x40) 0 (λ z. omega (arith, z))) refl);
  sends = λ q h t v has.
      (0, omega arith, rw (==_ne (0x0E028 + q * 0x40) 0 (λ z. omega (arith, z))) refl);
}

IsRunning-two :
    Returns
      (λ _ w. IsRunning 2 0 1 1 small_store w)
      (Init.init holding_card 1 2 0 (2 ^ 17) 1 1 0 small_store [])
IsRunning-two =
    init-IsRunning holding_card 1 2 0 1 1 0 (2 ^ 17) small_store (1, refl) (omega arith)
      (omega arith) (omega arith) (omega arith) (omega arith) small_pool-IsPool holding_card_answers
      [] (omega arith)

too_few_entries :
    (w : World) × (Init.init holding_card 1 4 0 (2 ^ 17) 1 1 0 small_store [] ≡ err no_memory w)
too_few_entries =
    init-no_memory holding_card 1 4 0 1 1 0 (2 ^ 17) small_store (2, refl) (omega arith)
      (omega arith) (omega arith) (omega arith) (omega arith) small_pool-IsPool holding_card_answers
      [] (omega arith)
