-- ===== src/Driver/Rings.antt =====
-- The receive queues of the whole driver (src/igb.rs) when one of them changes.
use igb_driver.Prelude.{
  Bool, ℕ, ◌+◌, ◌≡◌, ◌∙◌, ap, some, List, ◌++◌, length-set, get_elem?, get_elem?-lt, set, arith,
}
use igb_driver.Memory.{MemPool}
use igb_driver.Memory.Counts.{count, count-append}
use igb_driver.Memory.Invariant.{IsPool}
use igb_driver.Memory.Store.{Store, IgbNetBuf}
use igb_driver.Descriptor.Rx.{AdvancedRxDescriptor}
use igb_driver.Device.{IgbRxQueue, IgbDevice, World}
use igb_driver.Rx.Valid.{IsRxQueue}
use igb_driver.Rx.Closure.{kept_of, entries}
use igb_driver.Rx.Received.{Received}
use igb_driver.Init.Sharing.{held_by, held_by-set, held_by-get_elem?}
use igb_driver.Driver.{every-set, Working, IsRing, IsWorking, sent_by}

module _ {arc : ℕ} {start : MemPool} (valid : IsPool start) {s : Working}
    (v : IsWorking arc start s) where
  -- Each receive queue satisfies its own invariant.
  pub IsWorking-IsRxQueue :
      (i : ℕ) (queue : IgbRxQueue)
      → get_elem? s.world.dev.rx_queues i ≡ some queue
      → IsRxQueue queue (s.world.store.pools arc)
  IsWorking-IsRxQueue i queue found =
      let ring = v.rings i queue found in
      record {
        power = ring.power;
        small = ring.small;
        slots = ring.slots;
        held = ring.held;
        rx_in = ring.rx_in;
        addresses = v.addresses;
        in_range = λ a h. omega (
          arith,
          v.conserved a,
          held_by-get_elem? a s.world.dev.rx_queues i found,
          valid.in_range a (omega (arith, h, v.size)),
        );
        once = λ a. omega (
          arith,
          v.conserved a,
          held_by-get_elem? a s.world.dev.rx_queues i found,
          valid.free_once a,
        );
      }

  pub after_receiving-IsWorking :
      (kept : IgbNetBuf → Bool) (q limit n : ℕ) (bufs : List IgbNetBuf) (w : World)
      (queue : IgbRxQueue)
      → get_elem? s.world.dev.rx_queues q ≡ some queue
      → Received kept q limit queue s.world (n, bufs) w
      → IsWorking arc start
          (record { world = w; clients = entries (kept_of kept bufs) ++ s.clients })
  after_receiving-IsWorking kept q limit n bufs w queue found c =
      let ring = v.rings q queue found in
      let inside = get_elem?-lt s.world.dev.rx_queues q found in
      let balance : (a : ℕ)
          → count a (w.store.pools arc).free_stack
              + count a c.after.bufs_in_use
              + count a (entries (kept_of kept bufs))
            ≡ count a (s.world.store.pools arc).free_stack + count a queue.bufs_in_use =
        rw ring.pool at c.conserved in
      let c_valid : IsRxQueue c.after (w.store.pools arc) = rw ring.pool at c.valid in
      let c_size : (w.store.pools arc).num_entries ≡ (s.world.store.pools arc).num_entries =
        rw ring.pool at c.same_size in
      record {
        mapped = rw c.device v.mapped;
        few_rx = rw c.device (omega (arith, v.few_rx, length-set s.world.dev.rx_queues q c.after));
        few_tx = rw c.device v.few_tx;
        rings = rw c.device (
            every-set (IsRing arc) s.world.dev.rx_queues q c.after inside
              (record {
                pool = c.same_pool ∙ ring.pool;
                power = c_valid.power;
                small = c_valid.small;
                slots = c_valid.slots;
                held = c_valid.held;
                rx_in = c_valid.rx_in;
              })
              v.rings);
        lines = rw c.device v.lines;
        size = c_size ∙ v.size;
        addresses = c_valid.addresses;
        conserved = λ a. omega (
          arith,
          v.conserved a,
          balance a,
          held_by-set a s.world.dev.rx_queues q c.after found,
          count-append a (entries (kept_of kept bufs)) s.clients,
          ap (λ (e : IgbDevice). held_by a e.rx_queues) c.device,
          ap (λ (e : IgbDevice). sent_by a e.tx_queues) c.device,
        );
      }

  -- A queue whose next descriptor is read once more.
  pub looked-IsWorking :
      (q : ℕ) (w : World) (queue : IgbRxQueue) (desc : AdvancedRxDescriptor)
      → get_elem? s.world.dev.rx_queues q ≡ some queue
      → w.store ≡ s.world.store
      → w.dev ≡ record s.world.dev {
        rx_queues =
            set s.world.dev.rx_queues q
              (record queue { descriptors = set queue.descriptors queue.rx_index desc });
      }
      → IsWorking arc start (record { world = w; clients = s.clients })
  looked-IsWorking q w queue desc found store device =
      let ring = v.rings q queue found in
      let inside = get_elem?-lt s.world.dev.rx_queues q found in
      let after : IgbRxQueue = record queue {
        descriptors = set queue.descriptors queue.rx_index desc;
      } in
      record {
        mapped = rw device v.mapped;
        few_rx = rw device (omega (arith, v.few_rx, length-set s.world.dev.rx_queues q after));
        few_tx = rw device v.few_tx;
        rings = rw device (
            every-set (IsRing arc) s.world.dev.rx_queues q after inside
              (record {
                pool = ring.pool;
                power = ring.power;
                small = ring.small;
                slots = length-set queue.descriptors queue.rx_index desc ∙ ring.slots;
                held = ring.held;
                rx_in = ring.rx_in;
              })
              v.rings);
        lines = rw device v.lines;
        size = rw store v.size;
        addresses = rw store v.addresses;
        conserved = λ a. omega (
          arith,
          v.conserved a,
          held_by-set a s.world.dev.rx_queues q after found,
          ap (λ (t : Store). count a (t.pools arc).free_stack) store,
          ap (λ (e : IgbDevice). held_by a e.rx_queues) device,
          ap (λ (e : IgbDevice). sent_by a e.tx_queues) device,
        );
      }
