-- ===== src/Tests/Driving.antt =====
-- A run of the whole driver (src/igb.rs, src/memory.rs): the card comes up, and two packets arrive.
use igb_driver.Prelude.{ℕ, ◌^◌, ◌≡◌, refl, Bool, false, List, [], ◌∷◌, ◌++◌, arith}
use igb_driver.Outcome.{Outcome, ok, err, panic, hang}
use igb_driver.Memory.{MemPool, alloc_buf, get_phys_addr, range_from, packet_at, free_buf, contains}
use igb_driver.Memory.Counts.{count}
use igb_driver.Memory.Invariant.{IsPool}
use igb_driver.Memory.Store.{Store, IgbNetBuf, drop_packet}
use igb_driver.Descriptor.Rx
use igb_driver.Device.{
  World, wait_until, get_reg32, set_reg32, set_flags32, clear_flags32, wait_set_reg32,
  wait_clear_reg32,
}
use igb_driver.Registers.{
  igb_rdbal, igb_rdbah, igb_rdlen, igb_rdh, igb_rdt, igb_rxdctl, igb_tdbal, igb_tdbah, igb_tdlen,
  igb_tdh, igb_tdt, igb_txdctl, igb_rxpbsize, igb_ral, igb_rah,
}
use igb_driver.Ring.{is_ring_size, wrap_ring}
use igb_driver.Link.{
  init_link, reset_stats, wait_for_link, poll_link, speed_of, get_link_speed, get_mac_addr,
}
use igb_driver.Interrupts.{disable_interrupts, clear_interrupts}
use igb_driver.Setup.{
  rx_ring, tx_ring, for_each, allocate_ring, init_rx_queue, init_tx_queue, init_rx, init_tx,
}
use igb_driver.Init
use igb_driver.Init.{
  start_rx_queue, start_tx_queue, enable_rx_queue, fill, use_buf, global_reset, reset_and_init,
}
use igb_driver.Rx.{
  done, complete, look, swap_in, receive_one, receive_loop, finish, receive_packets,
}
use igb_driver.Rx.Closure.{
  IsClosure, all_kept, all_kept-IsClosure, dropping, dropping-IsClosure, kept_of, entries,
}
use igb_driver.Driver.{Working, Step, IsWorking, Reach, receives, receives_nothing, here, next}
use igb_driver.Driver.Ending.{IsEnding, init-IsWorking, init-IsEnding}
use igb_driver.Tests.{card, small_pool, rx_two, rx_world}
use igb_driver.Tests.Starting.{card_answers}

-- All four entries are free.
abbrev four_free : MemPool
four_free = record small_pool { free_stack = 3 ∷ 2 ∷ 1 ∷ 0 ∷ [] }

abbrev four_store : Store
four_store = record { pools = λ a. four_free; next = 1 }

four_free-IsPool : IsPool four_free
unfolding count
four_free-IsPool = record {
  addresses = refl;
  in_range = λ a h. ground arith;
  free_once = λ a. ground arith;
}

abbrev up : Outcome World (Unit {0})
up = Init.init card 1 2 0 (2 ^ 17) 1 1 0 four_store []

abbrev world_of : Outcome World (Unit {0}) → World
world_of (ok _ w) = w
world_of (err e w) = w
world_of panic = rx_world rx_two
world_of hang = rx_world rx_two

abbrev world_up : World
world_up = world_of up

-- The state after a call that received with the closure `f`.
abbrev after_call : (IgbNetBuf → Bool) → Working → Outcome World (ℕ × List IgbNetBuf) → Working
after_call kept s (ok r w) = record { world = w; clients = entries (kept_of kept r.1) ++ s.clients }
after_call kept s (err e w) = record { world = w; clients = s.clients }
after_call kept s panic = record { world = world_up; clients = [] }
after_call kept s hang = record { world = world_up; clients = [] }

abbrev started : Working
started = record { world = world_up; clients = [] }

abbrev kept_one : Working
kept_one = after_call all_kept started (receive_packets card (λ _ st. st) 0 1 world_up)

abbrev dropped_one : Working
dropped_one = after_call (λ b. false) kept_one (receive_packets card dropping 0 1 kept_one.world)

came_up : up ≡ ok tt world_up
unfolding Init.init reset_and_init disable_interrupts clear_interrupts global_reset wait_until
    get_reg32 set_reg32 set_flags32 clear_flags32 wait_set_reg32 wait_clear_reg32 init_link
    reset_stats init_rx init_tx for_each range_from init_rx_queue init_tx_queue allocate_ring
    start_rx_queue start_tx_queue enable_rx_queue fill use_buf alloc_buf get_phys_addr is_ring_size
    wait_for_link poll_link speed_of get_link_speed get_mac_addr igb_rdbal igb_rdbah igb_rdlen
    igb_rdh igb_rdt igb_rxdctl igb_tdbal igb_tdbah igb_tdlen igb_tdh igb_tdt igb_txdctl igb_rxpbsize
    igb_ral igb_rah rx_ring tx_ring
came_up = refl

-- The first packet is in the entry 3, which the first receive descriptor had, and is kept; the second one is
-- in the entry 2, which is free again after the call.
dropped_one-3 :
    (dropped_one.clients ≡ 3 ∷ [])
    × ((dropped_one.world.store.pools 0).free_stack ≡ 2 ∷ [])
    × (kept_one.clients ≡ 3 ∷ [])
unfolding Init.init reset_and_init disable_interrupts clear_interrupts global_reset wait_until
    get_reg32 set_reg32 set_flags32 clear_flags32 wait_set_reg32 wait_clear_reg32 init_link
    reset_stats init_rx init_tx for_each range_from init_rx_queue init_tx_queue allocate_ring
    start_rx_queue start_tx_queue enable_rx_queue fill use_buf alloc_buf get_phys_addr is_ring_size
    wait_for_link poll_link speed_of get_link_speed get_mac_addr igb_rdbal igb_rdbah igb_rdlen
    igb_rdh igb_rdt igb_rxdctl igb_tdbal igb_tdbah igb_tdlen igb_tdh igb_tdt igb_txdctl igb_rxpbsize
    igb_ral igb_rah rx_ring tx_ring done complete look swap_in receive_one receive_loop finish
    receive_packets packet_at Rx.get_ext_status wrap_ring kept_of drop_packet free_buf contains
dropped_one-3 = (refl, refl, refl)

stepped :
    (kept : IgbNetBuf → Bool) (f : IgbNetBuf → Store → Store) (s : Working)
    (r : Outcome World (ℕ × List IgbNetBuf))
    → IsClosure kept f
    → receive_packets card f 0 1 s.world ≡ r
    → (after_call kept s r).clients ≡ 3 ∷ []
    → Step card 0 s (after_call kept s r)
stepped kept f s (ok (n, bufs) w) closure e h = receives kept f 0 1 n bufs w closure e
stepped kept f s (err er w) closure e h = receives_nothing kept f 0 1 er w closure e
stepped kept f s panic closure e h = absurd cc
stepped kept f s hang closure e h = absurd cc

two_received : Reach card 0 started dropped_one
two_received =
    next
      (next here (stepped all_kept (λ _ st. st) started _ all_kept-IsClosure refl dropped_one-3.2))
      (stepped (λ b. false) dropping kept_one _ dropping-IsClosure refl dropped_one-3.0)

IsWorking-one : IsWorking 0 four_free dropped_one
unfolding complete
IsWorking-one =
    init-IsWorking card 1 2 0 1 1 0 (2 ^ 17) four_store (1, refl) (omega arith) (omega arith)
      (omega arith) (omega arith) (omega arith) four_free-IsPool card_answers (λ t q i d e. refl) []
      (omega arith) world_up dropped_one came_up two_received

IsEnding-one : IsEnding card 0 dropped_one
unfolding complete
IsEnding-one =
    init-IsEnding card 1 2 0 1 1 0 (2 ^ 17) four_store (1, refl) (omega arith) (omega arith)
      (omega arith) (omega arith) (omega arith) four_free-IsPool card_answers (λ t q i d e. refl) []
      (omega arith) world_up dropped_one came_up two_received
