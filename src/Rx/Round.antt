-- ===== src/Rx/Round.antt =====
-- One round of the loop of `receive_packets` (src/igb.rs).
use igb_driver.Prelude.{
  ℕ, ◌*◌, ◌<◌, ◌≡◌, refl, ap, ◌+◌, true, false, Bool, List, [], ◌∷◌, some, get_elem?,
  get_elem?-some, lt→ltb, ==_refl, arith, Bool-cases, inl, inr,
}
use igb_driver.Outcome.{Outcome, ok}
use igb_driver.Descriptor.Rx
use igb_driver.Descriptor.Rx.{AdvancedRxDescriptor}
use igb_driver.Memory.{MemPool, Packet}
use igb_driver.Memory.Invariant.{alloc_buf-cases}
use igb_driver.Memory.Store.{Store, put_pool, IgbNetBuf}
use igb_driver.Device.{Platform, Event, IgbRxQueue}
use igb_driver.Rx.{
  Receiving, looked, replace_buf, deliver, hand_back, done, complete, look, swap_in, receive_one,
}
use igb_driver.Memory.Counts.{count, count-get_elem?}
use igb_driver.Rx.Closure.{IsClosure, IsClosure-given_back, given_back, given_back-phys_addr}
use igb_driver.Rx.Valid.{IsRxQueue, held-lt, free-lt}

-- The queue as `receive_packets` would leave it, and its pool.
abbrev pub view : Receiving → IgbRxQueue
view s = record s.queue { rx_index = s.rx_index }

abbrev pub pool_of : Receiving → MemPool
pool_of s = s.store.pools s.queue.pool

abbrev pub IsReceiving : Receiving → Type 0
IsReceiving s = IsRxQueue (view s) (pool_of s)

-- The packet in the buffer `idx`.
abbrev pub packet_in : Platform → Receiving → AdvancedRxDescriptor → ℕ → ℕ → Packet
packet_in hw s desc idx phys = record {
  addr_virt = (pool_of s).base_addr + idx * (pool_of s).entry_size;
  addr_phys = phys;
  len = Rx.packet_length hw.get_bits desc;
  pool = s.queue.pool;
  pool_entry = idx;
}

-- The pool without its top free entry.
abbrev popped : List ℕ → Receiving → Receiving
popped rest s = record s {
  store = put_pool s.queue.pool (record (pool_of s) { free_stack = rest }) s.store;
}

swap_in_lem :
    (hw : Platform) (f : IgbNetBuf → Store → Store) (k : Bool) (s : Receiving)
    (desc : AdvancedRxDescriptor) (buf : ℕ) {idx phys address : ℕ}
    → (let b : IgbNetBuf = record { packet = packet_in hw s desc idx phys } in
        f b s.store ≡ given_back k b.packet s.store)
    → get_elem? s.queue.bufs_in_use s.rx_index ≡ some idx
    → idx < (pool_of s).num_entries
    → get_elem? (pool_of s).phys_addr idx ≡ some phys
    → get_elem? (pool_of s).phys_addr buf ≡ some address
    → swap_in hw f desc buf s
      ≡ ok true (
          hand_back address desc (
            deliver
              (λ b st. given_back k b.packet st)
              (packet_in hw s desc idx phys)
              (replace_buf buf s)))
unfolding swap_in
swap_in_lem hw f k s desc buf {idx} {phys} {address} closed old near p a =
    let packet : Packet = packet_in hw s desc idx phys in
    let same = given_back-phys_addr k packet s.store in
    rw (old, lt→ltb idx (pool_of s).num_entries near, p) (rw (closed, same, a) refl)

pub pool_of-popped :
    (rest : List ℕ) (s : Receiving)
    → pool_of (popped rest s) ≡ record (pool_of s) { free_stack = rest }
pool_of-popped rest s = rw (==_refl s.queue.pool) refl

-- The state before the new buffer is put in, and after.
abbrev pub before_swap : ℕ → AdvancedRxDescriptor → List ℕ → Receiving → Receiving
before_swap q desc rest s = popped rest (looked q s.rx_index desc s)

abbrev pub after_swap :
    (IgbNetBuf → Bool)
    → Platform
    → ℕ
    → AdvancedRxDescriptor
    → List ℕ
    → ℕ
    → ℕ
    → ℕ
    → ℕ
    → Receiving
    → Receiving
after_swap kept hw q desc rest buf idx phys address s = hand_back address desc (
    deliver (λ b st. given_back (kept b) b.packet st)
      (packet_in hw (before_swap q desc rest s) desc idx phys)
      (replace_buf buf (before_swap q desc rest s)))

abbrev pub starved_state : ℕ → AdvancedRxDescriptor → Receiving → Receiving
starved_state q desc s = record (looked q s.rx_index desc s) {
  store = put_pool s.queue.pool (pool_of s) s.store;
}

-- What the card showed of the current descriptor.
abbrev pub Seen : Platform → ℕ → Receiving → AdvancedRxDescriptor → Type 0
Seen hw q s desc =
    (old : AdvancedRxDescriptor) × (get_elem? s.queue.descriptors s.rx_index ≡ some old)
    × (desc ≡ hw.rx_desc s.trace q s.rx_index old)

-- The ways of one round on a card whose frames fit one buffer: nothing is there, the pool is empty, or
-- a packet is taken.
pub data Round (kept : IgbNetBuf → Bool) (hw : Platform) (q : ℕ) (s : Receiving)
    : Outcome Receiving Bool → Type 0 where
  idle :
      (desc : AdvancedRxDescriptor)
      → done hw desc ≡ false
      → Seen hw q s desc
      → Round kept hw q s (ok false (looked q s.rx_index desc s))
  starved :
      (desc : AdvancedRxDescriptor)
      → (pool_of s).free_stack ≡ []
      → done hw desc ≡ true
      → Round kept hw q s (ok false (starved_state q desc s))
  taken :
      (desc : AdvancedRxDescriptor) (rest : List ℕ) (buf idx phys address : ℕ)
      → done hw desc ≡ true
      → (pool_of s).free_stack ≡ buf ∷ rest
      → get_elem? s.queue.bufs_in_use s.rx_index ≡ some idx
      → get_elem? (pool_of s).phys_addr idx ≡ some phys
      → get_elem? (pool_of s).phys_addr buf ≡ some address
      → Round kept hw q s (ok true (after_swap kept hw q desc rest buf idx phys address s))

-- A descriptor that is done holds the end of its packet: no frame is larger than a buffer.
abbrev pub HasWholeFrames : Platform → Type 0
HasWholeFrames hw =
    (t : List Event) (q i : ℕ) (d : AdvancedRxDescriptor)
    → done hw (hw.rx_desc t q i d) ≡ true
    → complete hw (hw.rx_desc t q i d) ≡ true

pub look_lem :
    (hw : Platform) (q i : ℕ) (s : Receiving) {old : AdvancedRxDescriptor}
    → get_elem? s.queue.descriptors i ≡ some old
    → look hw q i s ≡ ok (hw.rx_desc s.trace q i old) (looked q i (hw.rx_desc s.trace q i old) s)
unfolding look
look_lem hw q i s slot = rw (slot, look) refl

-- The buffer of the current descriptor is not free.
used_once :
    (s : Receiving) {buf idx : ℕ} {rest : List ℕ}
    → IsReceiving s
    → (pool_of s).free_stack ≡ buf ∷ rest
    → get_elem? s.queue.bufs_in_use s.rx_index ≡ some idx
    → count idx rest ≡ 0
unfolding count
used_once s {buf} {idx} {rest} v top held =
    omega
      (arith, v.once idx, ap (count idx) top, count-get_elem? s.queue.bufs_in_use s.rx_index held)

pub receive_one-Round :
    (hw : Platform) {kept : IgbNetBuf → Bool} {f : IgbNetBuf → Store → Store} (q : ℕ)
    (s : Receiving)
    → HasWholeFrames hw
    → IsClosure kept f
    → IsReceiving s
    → Round kept hw q s (receive_one hw f q s)
unfolding receive_one
receive_one-Round hw {kept} {f} q s whole closure v =
    let (old, slot) =
      get_elem?-some s.queue.descriptors s.rx_index (omega (arith, v.slots, v.rx_in)) in
    let desc = hw.rx_desc s.trace q s.rx_index old in
    let arc = s.queue.pool in
    let seen = look_lem hw q s.rx_index s slot in
    elim (Bool-cases (done hw desc)) [
      | inr e ↦ rw (seen, e) (idle desc e (old, slot, refl))
      | inl e ↦ elim (alloc_buf-cases (pool_of s)) [
        | inl (none_free, empty) ↦
            rw (seen, e, whole s.trace q s.rx_index old e, empty) (starved desc none_free e)
        | inr (buf, rest, top, popped_top) ↦
            let (idx, held) =
              get_elem?-some s.queue.bufs_in_use s.rx_index (omega (arith, v.held, v.rx_in)) in
            let near = held-lt v s.rx_index held in
            let (phys, p) =
              get_elem?-some (pool_of s).phys_addr idx (omega (arith, v.addresses, near)) in
            let (address, a) =
              get_elem?-some (pool_of s).phys_addr buf
                (omega (arith, v.addresses, free-lt v top)) in
            let s' = before_swap q desc rest s in
            let b : IgbNetBuf = record { packet = packet_in hw s' desc idx phys } in
            let used : count idx rest ≡ 0 = used_once s v top held in
            let closed : f b s'.store ≡ given_back (kept b) b.packet s'.store =
              IsClosure-given_back closure b s'.store (rw (==_refl arc) near)
                (rw (==_refl arc) used) in
            let step =
              swap_in_lem hw f (kept b) s' desc buf closed held (rw (==_refl arc) near)
                (rw (==_refl arc) p) (rw (==_refl arc) a) in
            rw (seen, e, whole s.trace q s.rx_index old e, popped_top, step)
              (taken desc rest buf idx phys address e top held p a)
      ]
    ]
