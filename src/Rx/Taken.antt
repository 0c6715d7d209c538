-- ===== src/Rx/Taken.antt =====
-- What the loop of `receive_packets` (src/igb.rs) does, and what it does when it takes a packet.
use native.Mathlib.Nat.{mod-add-mod, mod-eq_of_lt}
use mathlib.Core.List.{append_assoc}
use igb_driver.Prelude.{
  ℕ, ◌*◌, suc, ◌+◌, ◌%◌, ◌≤◌, ◌<◌, ◌≡◌, ◌∙◌, ◌⊎◌, refl, sym, ap, List, [], ◌∷◌, ◌++◌, some, length,
  length-set, set, get_elem?, ==_refl, ==_ne, ◌≢◌, if◌then◌else◌, arith, inl, inr, Bool, Bool-cases,
}
use igb_driver.Descriptor.Rx
use igb_driver.Descriptor.Rx.{AdvancedRxDescriptor}
use igb_driver.Ring.{wrap_ring}
use igb_driver.Ring.PowerOfTwo.{wrap_ring-mod}
use igb_driver.Memory.Counts.{count, count-set}
use igb_driver.Memory.Store.{IgbNetBuf}
use igb_driver.Device.{Platform}
use igb_driver.Rx.{Receiving, looked}
use igb_driver.Rx.Closure.{kept_of, entries, count-kept_of}
use igb_driver.Rx.Round.{pool_of, IsReceiving, packet_in, after_swap, before_swap, starved_state}

-- Every packet starts where its entry starts, in a pool at `base` with entries of `size` bytes.
pub data AllPlaced (base size : ℕ) : List IgbNetBuf → Type 0 where
  none_placed : AllPlaced base size []
  one_placed :
      {b : IgbNetBuf} {bufs : List IgbNetBuf}
      → b.packet.addr_virt ≡ base + b.packet.pool_entry * size
      → AllPlaced base size bufs
      → AllPlaced base size (b ∷ bufs)

-- What the loop has done between the states `s` and `t`, in at most `limit` rounds.
pub record Receives (kept : IgbNetBuf → Bool) (limit : ℕ) (s t : Receiving) : Type 0 where
  pub packets : List IgbNetBuf
  pub given : t.delivered ≡ s.delivered ++ packets
  pub counted : t.recv_nums ≡ s.recv_nums + length packets
  pub bounded : length packets ≤ limit
  pub valid : IsReceiving t
  pub same_ring : t.queue.num_descriptors ≡ s.queue.num_descriptors
  pub same_pool : t.queue.pool ≡ s.queue.pool
  pub stored : t.queue.rx_index ≡ s.queue.rx_index
  pub same_size : (pool_of t).num_entries ≡ (pool_of s).num_entries
  pub others : (b : ℕ) → b ≢ s.queue.pool → t.store.pools b ≡ s.store.pools b
  pub conserved :
      (a : ℕ)
      → count a (pool_of t).free_stack
          + count a t.queue.bufs_in_use
          + count a (entries (kept_of kept packets))
        ≡ count a (pool_of s).free_stack + count a s.queue.bufs_in_use
  pub placed : AllPlaced (pool_of s).base_addr (pool_of s).entry_size packets
  pub advanced : t.rx_index ≡ (s.rx_index + length packets) % s.queue.num_descriptors
  pub tail :
      ((length packets ≡ 0) × (t.last_rx_index ≡ s.last_rx_index))
      ⊎ ((t.last_rx_index < s.queue.num_descriptors)
          × (t.rx_index ≡ wrap_ring t.last_rx_index s.queue.num_descriptors))

pub looked-IsReceiving :
    (q : ℕ) (desc : AdvancedRxDescriptor) (s : Receiving)
    → IsReceiving s
    → IsReceiving (looked q s.rx_index desc s)
looked-IsReceiving q desc s v = record {
  power = v.power;
  small = v.small;
  slots = length-set s.queue.descriptors s.rx_index desc ∙ v.slots;
  held = v.held;
  rx_in = v.rx_in;
  addresses = v.addresses;
  in_range = v.in_range;
  once = v.once;
}

pub starved-IsReceiving :
    (q : ℕ) (desc : AdvancedRxDescriptor) (s : Receiving)
    → IsReceiving s
    → IsReceiving (starved_state q desc s)
starved-IsReceiving q desc s v =
    let l = looked-IsReceiving q desc s v in
    rw (==_refl s.queue.pool) (record {
      power = l.power;
      small = l.small;
      slots = l.slots;
      held = l.held;
      rx_in = l.rx_in;
      addresses = l.addresses;
      in_range = l.in_range;
      once = l.once;
    })

module _ (kept : IgbNetBuf → Bool) (hw : Platform) (q : ℕ) (desc : AdvancedRxDescriptor)
    (rest : List ℕ) (buf idx phys address : ℕ) (s : Receiving) where
  abbrev pub next_state : Receiving
  next_state = after_swap kept hw q desc rest buf idx phys address s

  abbrev packet : IgbNetBuf
  packet = record { packet = packet_in hw (before_swap q desc rest s) desc idx phys }

  pool_of-next :
      pool_of next_state
      ≡ record (pool_of s) { free_stack = if kept packet then rest else idx ∷ rest }
  pool_of-next = elim (Bool-cases (kept packet)) [
    | inl e ↦ rw (e, ==_refl s.queue.pool) refl
    | inr e ↦ rw (e, ==_refl s.queue.pool) refl
  ]

  others_kept : (b : ℕ) → b ≢ s.queue.pool → next_state.store.pools b ≡ s.store.pools b
  others_kept b ne = elim (Bool-cases (kept packet)) [
    | inl e ↦ rw (e, ==_ne b s.queue.pool ne) refl
    | inr e ↦ rw (e, ==_ne b s.queue.pool ne) refl
  ]

  next_index : IsReceiving s → next_state.rx_index ≡ (s.rx_index + 1) % s.queue.num_descriptors
  next_index v = wrap_ring-mod s.rx_index v.power (omega (arith, v.small)) v.rx_in

  module _ (top : (pool_of s).free_stack ≡ buf ∷ rest)
      (held : get_elem? s.queue.bufs_in_use s.rx_index ≡ some idx) where
    counts :
        (a : ℕ)
        → count a (pool_of next_state).free_stack
            + count a next_state.queue.bufs_in_use
            + count a (entries (kept_of kept (packet ∷ [])))
          ≡ count a (pool_of s).free_stack + count a s.queue.bufs_in_use
    unfolding count kept_of
    counts a = elim (Bool-cases (kept packet)) [
      | inl e ↦
          rw (e, ==_refl s.queue.pool)
            (omega
              (arith, ap (count a) top, count-set a s.queue.bufs_in_use s.rx_index idx buf held))
      | inr e ↦
          rw (e, ==_refl s.queue.pool)
            (omega
              (arith, ap (count a) top, count-set a s.queue.bufs_in_use s.rx_index idx buf held))
    ]

    pub after_swap-IsReceiving : IsReceiving s → IsReceiving next_state
    after_swap-IsReceiving v = record {
      power = v.power;
      small = v.small;
      slots =
          length-set (set s.queue.descriptors s.rx_index desc) s.rx_index
            (Rx.reset_status (Rx.set_packet_address address desc))
          ∙ length-set s.queue.descriptors s.rx_index desc
          ∙ v.slots;
      held = length-set s.queue.bufs_in_use s.rx_index buf ∙ v.held;
      rx_in = omega (arith, next_index v, v.rx_in);
      addresses = rw pool_of-next v.addresses;
      in_range = λ a h. omega (arith, counts a, v.in_range a, ap (λ p. p.num_entries) pool_of-next);
      once = λ a. omega (arith, counts a, v.once a);
    }

    pub taken-Receives :
        (limit : ℕ) {t : Receiving}
        → IsReceiving s
        → Receives kept limit next_state t
        → Receives kept (suc limit) s t
    unfolding count kept_of
    taken-Receives limit {t} v c = record {
      packets = packet ∷ c.packets;
      given = c.given ∙ append_assoc s.delivered (packet ∷ []) c.packets;
      counted = omega (arith, c.counted);
      bounded = omega (arith, c.bounded);
      valid = c.valid;
      same_ring = c.same_ring;
      same_pool = c.same_pool;
      stored = c.stored;
      same_size = c.same_size ∙ ap (λ p. p.num_entries) pool_of-next;
      others = λ b ne. c.others b ne ∙ others_kept b ne;
      conserved = λ a. omega (
        arith,
        c.conserved a,
        counts a,
        count-kept_of a kept packet c.packets,
        count-kept_of a kept packet [],
      );
      placed = one_placed (rw (==_refl s.queue.pool) refl) (rw pool_of-next at c.placed);
      advanced =
          c.advanced
          ∙ ap (λ i. (i + length c.packets) % n) (next_index v)
          ∙ mod-add-mod (s.rx_index + 1) n (length c.packets)
          ∙ ap (λ i. i % n) (omega arith);
      tail = last c.tail;
    }
      where
        n : ℕ
        n = s.queue.num_descriptors

        last :
            ((length c.packets ≡ 0) × (t.last_rx_index ≡ s.rx_index))
              ⊎ ((t.last_rx_index < n) × (t.rx_index ≡ wrap_ring t.last_rx_index n))
            → ((length (packet ∷ c.packets) ≡ 0) × (t.last_rx_index ≡ s.last_rx_index))
              ⊎ ((t.last_rx_index < n) × (t.rx_index ≡ wrap_ring t.last_rx_index n))
        last (inr more) = inr more
        last (inl (z, e)) = inr (
          omega (arith, e, v.rx_in),
          c.advanced
              ∙ mod-eq_of_lt (omega (arith, z, next_index v, v.rx_in))
              ∙ omega (arith, z)
              ∙ ap (λ i. wrap_ring i n) (sym e),
        )
