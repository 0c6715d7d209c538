-- ===== src/Init/Running.antt =====
-- What bringing the card up (src/igb.rs, `init`) comes to, on a card that answers what is written to it.
use igb_driver.Prelude.{
  ℕ, ◌*◌, ◌^◌, ◌≤◌, ◌<◌, ◌≡◌, refl, ap, false, List, [], length, length-replicate, bit_or, arith,
}
use igb_driver.Outcome.{err, no_memory, Returns, Returns-map, pure, ◌>>=◌, ◌>>◌}
use igb_driver.Ring.PowerOfTwo.{IsPowerOfTwo}
use igb_driver.Memory.{range}
use igb_driver.Memory.Invariant.{IsPool}
use igb_driver.Memory.Store.{Store}
use igb_driver.Registers.{igb_ctrl, igb_ctrl_ext}
use igb_driver.Device.{
  Platform, Event, IgbDevice, World, M, wait_until, set_flags32, wait_set_reg32,
}
use igb_driver.Device.Refusing.{Refuses-first, Refuses-then}
use igb_driver.Device.Triples.{
  Triple-after, IsMapped, Triple, Triple-then, Triple-bind, Triple-pure, set_flags32-Quiet, Quiet,
  At,
}
use igb_driver.Link.{init_link, reset_stats, wait_for_link, get_mac_addr}
use igb_driver.Interrupts.{disable_interrupts, clear_interrupts}
use igb_driver.Setup.{for_each, new_rx_queue, new_tx_queue, init_rx, init_tx}
use igb_driver.Setup.Rings.{add_rx, add_tx, init_rx-add, init_tx-add}
use igb_driver.Init.{global_reset, start_rx_queue, start_tx_queue, reset_and_init, init}
use igb_driver.Init.Quiet.{
  before_rings-Quiet, clear_interrupts-Quiet, wait_for_link-Quiet, get_mac_addr-Quiet,
}
use igb_driver.Init.Sharing.{
  held_by-new, get_elem?-replicate, IsSharing-IsPool, IsSharing-IsRxQueue,
}
use igb_driver.Init.Loops.{
  rx_loop-no_memory, IsUp, rx_loop-UpTo, tx_loop-Quiet, new_tx_queue-IsTxQueue,
}
use igb_driver.Init.Contract.{IsAnswering, IsRunning}

module _ (hw : Platform) (fuel qs arc num_rx num_tx base len : ℕ) (start : Store)
    (power : IsPowerOfTwo qs) (small : qs < 2 ^ 31) (below : 2 ^ 17 ≤ len) (above : len < 2 ^ 64)
    (few_rx : num_rx ≤ 64) (few_tx : num_tx ≤ 64) (valid : IsPool (start.pools arc))
    (answers : IsAnswering hw fuel num_rx num_tx) where
  abbrev new_device : IgbDevice
  new_device = record {
    addr = base;
    len = len;
    num_rx_queues = num_rx;
    num_tx_queues = num_tx;
    rx_queues = [];
    tx_queues = [];
    interrupts = record {
      interrupts_enabled = false;
      itr_rate = 0;
      interrupt_type = 0;
      timeout_ms = 0;
      queues = [];
    };
  }

  abbrev ringed : IgbDevice
  ringed = add_tx hw qs num_tx (add_rx hw qs arc num_rx new_device)

  IsUp-ringed : IsUp qs arc num_rx ringed start 0 ringed start
  IsUp-ringed = record {
    device = refl;
    sharing = record {
      number = length-replicate num_rx _;
      full = λ i h. absurd (omega arith);
      new = λ i _ h. get_elem?-replicate num_rx i (new_rx_queue qs arc) h;
      entries = refl;
      addresses = valid.addresses;
      same_addresses = refl;
      room = omega arith;
      conserved = λ a. omega (arith, held_by-new a num_rx qs arc);
    };
    others = λ b _. refl;
  }

  IsUp-IsRunning :
      (w : World)
      → IsUp qs arc num_rx ringed start num_rx w.dev w.store
      → IsRunning qs arc num_rx num_tx start w
  IsUp-IsRunning w u =
      let v = u.sharing in
      let tx = ap (λ (e : IgbDevice). e.tx_queues) u.device in
      record {
        mapped = rw (ap (λ (e : IgbDevice). e.len) u.device) (below, above);
        rx_number = v.number;
        receives = λ i h.
            let (queue, found, full, aimed) = v.full i h in
            (queue, found, full.pool, IsSharing-IsRxQueue valid i power small v found full, aimed);
        same_addresses = v.same_addresses;
        tx_number = rw tx (length-replicate num_tx _);
        sends = λ i h. (
          new_tx_queue qs,
          rw tx (get_elem?-replicate num_tx i (new_tx_queue qs) h),
          refl,
          new_tx_queue-IsTxQueue power small,
        );
        pool = IsSharing-IsPool valid v;
        size = v.entries;
        room = v.room;
        conserved = v.conserved;
        others = u.others;
      }

  abbrev IsUpIn : World → Type 0
  IsUpIn w = IsUp qs arc num_rx ringed start num_rx w.dev w.store

  -- The device and the pools before the receive queues are started.
  rings-made :
      Triple
        (At new_device start)
        (disable_interrupts hw
          >> global_reset hw fuel
          >> wait_until 1000
          >> disable_interrupts hw
          >> set_flags32 hw igb_ctrl_ext (2 ^ 28)
          >> wait_set_reg32 hw fuel igb_ctrl_ext (2 ^ 28)
          >> init_link hw fuel
          >> reset_stats hw
          >> init_rx hw qs arc
          >> init_tx hw qs)
        (λ w. IsUp qs arc num_rx ringed start 0 w.dev w.store)
  rings-made =
      Triple-then
        (Triple-then
          (before_rings-Quiet hw (below, above) fuel answers.resets answers.loads answers.reads
            answers.writes)
          (init_rx-add hw qs arc (below, above) few_rx))
        (record {
          at = λ w p.
              Returns-map (init_tx hw qs w) (λ _ w' (dv, sv). rw (dv, sv) IsUp-ringed)
                ((init_tx-add hw qs (below, above) few_tx).at w p);
        })

  abbrev rx_loop : M (Unit {0})
  rx_loop = for_each (range num_rx) (start_rx_queue hw fuel)

  abbrev tx_loop : M (Unit {0})
  tx_loop = for_each (range num_tx) (start_tx_queue hw fuel)

  IsUp-IsMapped :
      {d : IgbDevice} {s : Store} → IsUp qs arc num_rx ringed start num_rx d s → IsMapped d
  IsUp-IsMapped u = rw (ap (λ (e : IgbDevice). e.len) u.device) (below, above)

  tx_loop-keeps :
      (d : IgbDevice) (s : Store) → IsUp qs arc num_rx ringed start num_rx d s → Quiet d s tx_loop
  tx_loop-keeps d s u =
      tx_loop-Quiet hw fuel qs num_tx num_tx 0 power small (IsUp-IsMapped u) few_tx (omega arith)
        (ap (λ (e : IgbDevice). e.tx_queues) u.device) answers.sends

  after_rings-IsUp :
      (m : M (Unit {0}))
      → Triple (At new_device start) m IsUpIn
      → Triple
          (At new_device start)
          (m
            >> tx_loop
            >> clear_interrupts hw
            >> set_flags32 hw igb_ctrl
                (bit_or (bit_or (bit_or (bit_or (2 ^ 6) 1) 0x200) 0x1000) 0x800)
            >> wait_for_link hw
            >> (get_mac_addr hw >>= λ mac. pure (tt {0})))
          IsUpIn
  after_rings-IsUp m up =
      let flags = bit_or (bit_or (bit_or (bit_or (2 ^ 6) 1) 0x200) 0x1000) 0x800 in
      Triple-after
        (Triple-after
          (Triple-after
            (Triple-after (Triple-after up tx_loop-keeps)
              (λ d s u. clear_interrupts-Quiet hw (IsUp-IsMapped u)))
            (λ d s u. set_flags32-Quiet hw igb_ctrl flags (IsUp-IsMapped u) refl))
          (λ d s u. wait_for_link-Quiet hw (IsUp-IsMapped u)))
        (λ d s u. Triple-bind (get_mac_addr-Quiet hw (IsUp-IsMapped u)) (λ mac. Triple-pure tt))

  -- Bringing the card up returns, with all queues and the pool in order, on a card that answers within the
  -- fuel what is written to it (a reset ends, the enable flag of a queue and the flag 2^28 of the extended
  -- control register are found set once they are written, a management command becomes ready), with 128 KiB
  -- of registers, at most 64 queues of each kind, rings of a power of two below 2^31, and a valid pool with
  -- a free entry for each receive descriptor. Then every receive queue satisfies its invariant, with the
  -- address of its buffer in each descriptor, every send queue is empty and satisfies its own, and the
  -- buffers of all the receive queues with the entries that are still free are the entries that were free
  -- before, each once: no two queues share a buffer.
  pub init-IsRunning :
      (trace : List Event)
      → num_rx * qs ≤ length (start.pools arc).free_stack
      → Returns
          (λ _ w. IsRunning qs arc num_rx num_tx start w)
          (init hw fuel qs base len num_rx num_tx arc start trace)
  unfolding init reset_and_init
  init-IsRunning trace enough =
      let loop =
        rx_loop-UpTo hw fuel qs arc num_rx ringed start power small (below, above) few_rx valid
          answers.receives num_rx 0 enough (omega arith) in
      let up = (after_rings-IsUp _ (Triple-then rings-made loop)).at in
      Returns-map (init hw fuel qs base len num_rx num_tx arc start trace)
        (λ _ w u. IsUp-IsRunning w u)
        (up (record { dev = new_device; store = start; trace = trace }) (refl, refl))

  -- Bringing the card up ends with the error `NoMemory`, on a card that answers within the fuel what is
  -- written to it (a reset ends, the enable flag of a queue and the flag 2^28 of the extended control
  -- register are found set once they are written, a management command becomes ready), with 128 KiB of
  -- registers, at most 64 queues of each kind and rings of a power of two below 2^31, if the pool is valid
  -- but has fewer free entries than there are receive descriptors.
  pub init-no_memory :
      (trace : List Event)
      → length (start.pools arc).free_stack < num_rx * qs
      → (w : World) × (init hw fuel qs base len num_rx num_tx arc start trace ≡ err no_memory w)
  unfolding init reset_and_init
  init-no_memory trace short =
      let loop =
        rx_loop-no_memory hw fuel qs arc num_rx ringed start power small (below, above) few_rx valid
          answers.receives num_rx 0 short (omega arith) in
      (Refuses-first _ (
          Refuses-first _ (
            Refuses-first _
              (Refuses-first _ (Refuses-first _ (Refuses-then rings-made (λ _. loop))))))).at
        (record { dev = new_device; store = start; trace = trace }) (refl, refl)
