-- ===== src/Rx/Armed.antt =====
-- Where the card writes received packets (src/igb.rs, `receive_packets`): the addresses in the descriptors
-- of a receive queue, and the buffers that the queue remembers for them.
pub mod Call
use igb_driver.Prelude.{
  ℕ, zero, suc, ◌≡◌, ◌≢◌, ◌⊎◌, ◌∙◌, inl, inr, refl, sym, ap, Bool, true, false, Bool-cases, List,
  some, get_elem?, get_elem?-some, get_elem?-lt, get_elem?-set_self, get_elem?-set_ne, length-set,
  set, ◌==◌, ==_iff, arith,
}
use igb_driver.Outcome.{Outcome, ok, err, panic, hang, Returns, Returns-map, Reaches, then_run}
use igb_driver.Registers.{igb_rdt}
use igb_driver.Memory.{MemPool}
use igb_driver.Memory.Store.{Store, IgbNetBuf}
use igb_driver.Descriptor.Rx
use igb_driver.Descriptor.Rx.{AdvancedRxDescriptor}
use igb_driver.Device.{Platform, Event, IgbRxQueue, World}
use igb_driver.Device.Access.{Mapped}
use igb_driver.Rx.{
  Receiving, looked, receiving, received, done, finish, receive_one, receive_loop, receive_packets,
}
use igb_driver.Rx.Valid.{IsRxQueue}
use igb_driver.Rx.Valid.{IsAimed}
use igb_driver.Rx.Round.{
  pool_of, pool_of-popped, IsReceiving, Round, Seen, idle, starved, taken, HasWholeFrames,
  receive_one-Round, look_lem, packet_in, before_swap, after_swap,
}
use igb_driver.Rx.Closure.{IsClosure, given_back-phys_addr}
use igb_driver.Rx.Taken.{next_state, after_swap-IsReceiving, looked-IsReceiving}

-- Every descriptor that is not done has the address of the buffer that the queue remembers for it.
pub record IsArmed (hw : Platform) (addresses : List ℕ) (queue : IgbRxQueue) : Type 0 where
  pub at :
      (i b : ℕ) (d : AdvancedRxDescriptor)
      → get_elem? queue.descriptors i ≡ some d
      → get_elem? queue.bufs_in_use i ≡ some b
      → (done hw d ≡ true) ⊎ (get_elem? addresses b ≡ some d.packet_buffer_address)

pub IsAimed-IsArmed :
    (hw : Platform) {addresses : List ℕ} {queue : IgbRxQueue}
    → IsAimed addresses queue
    → IsArmed hw addresses queue
IsAimed-IsArmed hw v = record { at = λ i b d e h. inr (v.at i b d e h) }

-- The card changes a descriptor only to write it back as done.
abbrev pub WritesBack : Platform → Type 0
WritesBack hw =
    (t : List Event) (q i : ℕ) (d : AdvancedRxDescriptor)
    → (done hw (hw.rx_desc t q i d) ≡ true) ⊎ (hw.rx_desc t q i d ≡ d)

after_swap-phys_addr :
    (kept : IgbNetBuf → Bool) (hw : Platform) (q : ℕ) (desc : AdvancedRxDescriptor) (rest : List ℕ)
    (buf idx phys address : ℕ) (s : Receiving)
    → (pool_of (after_swap kept hw q desc rest buf idx phys address s)).phys_addr
      ≡ (pool_of s).phys_addr
after_swap-phys_addr kept hw q desc rest buf idx phys address s =
    let t = before_swap q desc rest s in
    let packet = packet_in hw t desc idx phys in
    given_back-phys_addr (kept (record { packet = packet })) packet t.store
    ∙ ap (λ (p : MemPool). p.phys_addr) (pool_of-popped rest (looked q s.rx_index desc s))

module _ {hw : Platform} {addresses : List ℕ} where
  -- A descriptor is replaced, and perhaps its buffer.
  set-IsArmed :
      (queue : IgbRxQueue) (i : ℕ) (d : AdvancedRxDescriptor) (bufs : List ℕ)
      → IsArmed hw addresses queue
      → ((j : ℕ) → i ≢ j → get_elem? bufs j ≡ get_elem? queue.bufs_in_use j)
      → ((b : ℕ)
          → get_elem? bufs i ≡ some b
          → (done hw d ≡ true) ⊎ (get_elem? addresses b ≡ some d.packet_buffer_address))
      → IsArmed hw addresses
          (record queue { descriptors = set queue.descriptors i d; bufs_in_use = bufs })
  set-IsArmed queue i d bufs v others here = record {
    at = λ j b d' e h. elim (Bool-cases (i == j)) [
      | inl same ↦
          let j_i : i ≡ j = (==_iff i j).0 same in
          let inside = get_elem?-lt (set queue.descriptors i d) j e in
          let there =
            get_elem?-set_self queue.descriptors i d
              (omega (arith, inside, length-set queue.descriptors i d, j_i)) in
          let d_d : d ≡ d' = cc in rw (← d_d) (here b (ap (get_elem? bufs) j_i ∙ h))
      | inr other ↦
          let ne : i ≢ j = (λ z. ground (arith, z, other)) in
          v.at j b d' (sym (get_elem?-set_ne queue.descriptors d ne) ∙ e) (sym (others j ne) ∙ h)
    ];
  }

  -- The descriptor at the index was read.
  pub looked-IsArmed :
      (q i : ℕ) (desc : AdvancedRxDescriptor) (s : Receiving)
      → IsArmed hw addresses s.queue
      → ((b : ℕ)
          → get_elem? s.queue.bufs_in_use i ≡ some b
          → (done hw desc ≡ true) ⊎ (get_elem? addresses b ≡ some desc.packet_buffer_address))
      → IsArmed hw addresses (looked q i desc s).queue
  looked-IsArmed q i desc s v here =
      set-IsArmed s.queue i desc s.queue.bufs_in_use v (λ j ne. refl) here

  -- What the card shows is done, or what it was.
  pub shown :
      (t : List Event) (q i b : ℕ) (old : AdvancedRxDescriptor) {queue : IgbRxQueue}
      → WritesBack hw
      → IsArmed hw addresses queue
      → get_elem? queue.descriptors i ≡ some old
      → get_elem? queue.bufs_in_use i ≡ some b
      → let desc = hw.rx_desc t q i old in
        (done hw desc ≡ true) ⊎ (get_elem? addresses b ≡ some desc.packet_buffer_address)
  shown t q i b old back v slot held = elim (back t q i old) [
    | inl ready ↦ inl ready
    | inr same ↦ rw same (v.at i b old slot held)
  ]

  after_swap-IsArmed :
      (kept : IgbNetBuf → Bool) (q : ℕ) (desc : AdvancedRxDescriptor) (rest : List ℕ)
      (buf idx phys address : ℕ) (s : Receiving)
      → IsArmed hw addresses s.queue
      → done hw desc ≡ true
      → get_elem? s.queue.bufs_in_use s.rx_index ≡ some idx
      → get_elem? addresses buf ≡ some address
      → IsArmed hw addresses (after_swap kept hw q desc rest buf idx phys address s).queue
  unfolding Rx.set_packet_address Rx.reset_status
  after_swap-IsArmed kept q desc rest buf idx phys address s v ready held a =
      let seen = looked-IsArmed q s.rx_index desc s v (λ b h. inl ready) in
      let handed = Rx.reset_status (Rx.set_packet_address address desc) in
      let bufs = set s.queue.bufs_in_use s.rx_index buf in
      set-IsArmed (looked q s.rx_index desc s).queue s.rx_index handed bufs seen
        (λ j ne. get_elem?-set_ne s.queue.bufs_in_use buf ne)
        (λ b h.
          let there =
            get_elem?-set_self s.queue.bufs_in_use s.rx_index buf
              (get_elem?-lt s.queue.bufs_in_use s.rx_index held) in
          let same : buf ≡ b = cc in inr (rw (← same) a))

  module _ (kept : IgbNetBuf → Bool) (f : IgbNetBuf → Store → Store) (q : ℕ)
      (whole : HasWholeFrames hw) (closure : IsClosure kept f) (back : WritesBack hw) where
    from_Round :
        (limit : ℕ) (s : Receiving) (r : Outcome Receiving Bool)
        → IsReceiving s
        → IsArmed hw addresses s.queue
        → (pool_of s).phys_addr ≡ addresses
        → Round kept hw q s r
        → ((t : Receiving)
            → IsReceiving t
            → IsArmed hw addresses t.queue
            → (pool_of t).phys_addr ≡ addresses
            → Returns {A = Unit {0}}
                (λ _ u. IsArmed hw addresses u.queue)
                (receive_loop hw f limit q t))
        → Returns {A = Unit {0}}
            (λ _ t. IsArmed hw addresses t.queue)
            (then_run r
              (λ more t. elim more [ true ↦ receive_loop hw f limit q t | false ↦ ok tt t ]))
    from_Round limit s r v armed same (idle desc e (old, slot, card)) rest =
        looked-IsArmed q s.rx_index desc s armed
          (λ b h. rw card (shown s.trace q s.rx_index b old back armed slot h))
    from_Round limit s r v armed same (starved desc e ready) rest =
        looked-IsArmed q s.rx_index desc s armed (λ b h. inl ready)
    from_Round limit s r v armed same (taken desc below buf idx phys address e top held p a) rest =
        rest (next_state kept hw q desc below buf idx phys address s)
          (after_swap-IsReceiving kept hw q desc below buf idx phys address s top held v)
          (after_swap-IsArmed kept q desc below buf idx phys address s armed e held (rw same at a))
          (after_swap-phys_addr kept hw q desc below buf idx phys address s ∙ same)

    pub receive_loop-IsArmed :
        (limit : ℕ) (s : Receiving)
        → IsReceiving s
        → IsArmed hw addresses s.queue
        → (pool_of s).phys_addr ≡ addresses
        → Returns {A = Unit {0}} (λ _ t. IsArmed hw addresses t.queue) (receive_loop hw f limit q s)
    unfolding receive_loop
    receive_loop-IsArmed zero s v armed same = armed
    receive_loop-IsArmed (suc limit) s v armed same =
        from_Round limit s (receive_one hw f q s) v armed same
          (receive_one-Round hw q s whole closure v) (receive_loop-IsArmed limit)
