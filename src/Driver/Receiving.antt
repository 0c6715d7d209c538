-- ===== src/Driver/Receiving.antt =====
-- Receiving (src/igb.rs) keeps the whole driver in order.
use igb_driver.Prelude.{
  Bool, true, ℕ, ◌<◌, ◌≡◌, ◌⊎◌, inl, inr, ap, Option-cases, Bool-cases, some, List, ◌++◌, get_elem?,
  get_elem?-some, get_elem?-lt, set, arith,
}
use igb_driver.Outcome.{IgbError, ok, err, not_ready, Returns, Ends, Returns-Ends}
use igb_driver.Memory.{MemPool}
use igb_driver.Memory.Invariant.{IsPool}
use igb_driver.Memory.Store.{Store, IgbNetBuf}
use igb_driver.Descriptor.Rx.{AdvancedRxDescriptor}
use igb_driver.Registers.Mapped.{rdt-IsReg}
use igb_driver.Device.{Platform, IgbRxQueue, World}
use igb_driver.Registers.{igb_rdt}
use igb_driver.Device.Triples.{IsMapped-Mapped}
use igb_driver.Rx.{receive_packets, done}
use igb_driver.Rx.Round.{HasWholeFrames}
use igb_driver.Rx.Closure.{IsClosure, kept_of, entries}
use igb_driver.Rx.Received.{Received}
use igb_driver.Rx.Packets.{receive_packets-Received, receive_packets-errors}
use igb_driver.Driver.{Working, IsWorking}
use igb_driver.Driver.Rings.{IsWorking-IsRxQueue, after_receiving-IsWorking, looked-IsWorking}

module _ {arc : ℕ} {start : MemPool} (valid : IsPool start) {s : Working}
    (v : IsWorking arc start s) where
  module _ (hw : Platform) (whole : HasWholeFrames hw) (kept : IgbNetBuf → Bool)
      (f : IgbNetBuf → Store → Store) (closure : IsClosure kept f) (q limit : ℕ) where
    -- A call on a queue whose next descriptor is done.
    pub ready-Received :
        (queue : IgbRxQueue) (old : AdvancedRxDescriptor)
        → get_elem? s.world.dev.rx_queues q ≡ some queue
        → get_elem? queue.descriptors queue.rx_index ≡ some old
        → done hw (hw.rx_desc s.world.trace q queue.rx_index old) ≡ true
        → Returns (Received kept q limit queue s.world) (receive_packets hw f q limit s.world)
    ready-Received queue old found slot ready =
        let few : q < 64 = omega (arith, v.few_rx, get_elem?-lt s.world.dev.rx_queues q found) in
        receive_packets-Received hw kept f q limit s.world whole closure
          (IsMapped-Mapped s.world (igb_rdt q) (ground (arith, rdt-IsReg q few)) v.mapped) found
          (rw (ap s.world.store.pools (v.rings q queue found).pool)
            (IsWorking-IsRxQueue valid v q queue found))
          slot ready

    -- A call on a queue that exists.
    called :
        (queue : IgbRxQueue)
        → get_elem? s.world.dev.rx_queues q ≡ some queue
        → (Returns (Received kept q limit queue s.world) (receive_packets hw f q limit s.world))
          ⊎ ((w : World) × (desc : AdvancedRxDescriptor) × (receive_packets hw f q limit s.world
                ≡ err not_ready w)
              × (w.store ≡ s.world.store)
              × (w.dev ≡ record s.world.dev {
                rx_queues =
                    set s.world.dev.rx_queues q
                      (record queue { descriptors = set queue.descriptors queue.rx_index desc });
              }))
    called queue found =
        let ring = v.rings q queue found in
        let (old, slot) =
          get_elem?-some queue.descriptors queue.rx_index (omega (arith, ring.slots, ring.rx_in)) in
        let desc = hw.rx_desc s.world.trace q queue.rx_index old in
        elim (Bool-cases (done hw desc)) [
          | inl ready ↦ inl (ready-Received queue old found slot ready)
          | inr idle ↦
              let (w, e, store, _, device) =
                (receive_packets-errors hw f q limit s.world).1 queue old found slot idle in
              inr (w, desc, e, store, device)
        ]

    -- Receiving keeps the driver in order.
    pub receives-IsWorking :
        (n : ℕ) (bufs : List IgbNetBuf) (w : World)
        → receive_packets hw f q limit s.world ≡ ok (n, bufs) w
        → IsWorking arc start
            (record { world = w; clients = entries (kept_of kept bufs) ++ s.clients })
    receives-IsWorking n bufs w e = elim (Option-cases (get_elem? s.world.dev.rx_queues q)) [
      | inl missing ↦
          absurd (let refused = (receive_packets-errors hw f q limit s.world).0 missing in cc)
      | inr (queue, found) ↦ elim (called queue found) [
        | inl c ↦ after_receiving-IsWorking valid v kept q limit n bufs w queue found (rw e at c)
        | inr (_, _, refused, _, _) ↦ absurd cc
      ]
    ]

    -- So does a call that receives nothing.
    pub receives_nothing-IsWorking :
        (er : IgbError) (w : World)
        → receive_packets hw f q limit s.world ≡ err er w
        → IsWorking arc start (record { world = w; clients = s.clients })
    receives_nothing-IsWorking er w e = elim (Option-cases (get_elem? s.world.dev.rx_queues q)) [
      | inl missing ↦
          let refused = (receive_packets-errors hw f q limit s.world).0 missing in
          let same : s.world ≡ w = cc in rw (← same) v
      | inr (queue, found) ↦ elim (called queue found) [
        | inl c ↦ absurd (rw e at c)
        | inr (w', desc, refused, store, device) ↦
            let same : w' ≡ w = cc in
            looked-IsWorking valid v q w queue desc found (rw (← same) store) (rw (← same) device)
      ]
    ]

    -- A call comes back.
    pub receive_packets-Ends : Ends (receive_packets hw f q limit s.world)
    receive_packets-Ends = elim (Option-cases (get_elem? s.world.dev.rx_queues q)) [
      | inl missing ↦
          let refused = (receive_packets-errors hw f q limit s.world).0 missing in rw refused tt
      | inr (queue, found) ↦ elim (called queue found) [
        | inl c ↦ Returns-Ends _ _ c
        | inr (w', desc, refused, store, device) ↦ rw refused tt
      ]
    ]
