-- ===== src/Driver/Holding.antt =====
-- Dropping a buffer (src/memory.rs) keeps the whole driver in order.
use igb_driver.Prelude.{
  ℕ, ◌+◌, ◌<◌, ◌≡◌, ◌∙◌, refl, sym, ap, List, [], ◌∷◌, ◌++◌, length, ==_refl, arith, get_elem?-some,
  ltb, lt→ltb, Bool-cases, inl, inr,
}
use igb_driver.Outcome.{IgbError, Outcome, ok, err, panic, hang, fail, ◌>>◌, Ends}
use igb_driver.Memory.{MemPool, Packet, free_buf, alloc_pkt, packet_at, packet_headroom}
use igb_driver.Memory.Counts.{count, count-append}
use igb_driver.Memory.Invariant.{IsPool, free_buf_lem, alloc_buf-cases}
use igb_driver.Memory.Store.{Store, IgbNetBuf, alloc, drop_packet, put_pool}
use igb_driver.Device.{World}
use igb_driver.Tx.{in_store}
use igb_driver.Word.{sub_usize}
use igb_driver.Driver.{Working, IsWorking}

module _ {arc : ℕ} {start : MemPool} (valid : IsPool start) {s : Working}
    (v : IsWorking arc start s) where
  abbrev pool : MemPool
  pool = s.world.store.pools arc

  pool-IsPool : IsPool pool
  pool-IsPool = record {
    addresses = v.addresses;
    in_range = λ a h. omega (arith, v.conserved a, valid.in_range a (omega (arith, h, v.size)));
    free_once = λ a. omega (arith, v.conserved a, valid.free_once a);
  }

  -- Buffers move between the pool and the clients.
  stored-IsWorking :
      (store : Store) (clients : List ℕ)
      → (store.pools arc).num_entries ≡ pool.num_entries
      → (store.pools arc).phys_addr ≡ pool.phys_addr
      → ((a : ℕ)
          → count a (store.pools arc).free_stack + count a clients
            ≡ count a pool.free_stack + count a s.clients)
      → IsWorking arc start (record { world = record s.world { store = store }; clients = clients })
  stored-IsWorking store clients size addresses balance = record {
    mapped = v.mapped;
    few_rx = v.few_rx;
    few_tx = v.few_tx;
    rings = v.rings;
    lines = v.lines;
    size = size ∙ v.size;
    addresses = ap length addresses ∙ v.addresses ∙ sym size;
    conserved = λ a. omega (arith, v.conserved a, balance a);
  }

  -- An allocation takes the top free entry, or leaves the pool as it is.
  abbrev Takes : Outcome Store IgbNetBuf → Type 0
  Takes (ok buf store) =
      (rest : List ℕ) × (pool.free_stack ≡ buf.packet.pool_entry ∷ rest)
      × (store.pools arc ≡ record pool { free_stack = rest })
  Takes (err e store) = store.pools arc ≡ pool
  Takes panic = ⊥
  Takes hang = ⊥

  pub alloc-Takes : (size : ℕ) → Takes (alloc arc size s.world.store)
  unfolding alloc alloc_pkt packet_at count
  alloc-Takes size = elim (Bool-cases (ltb (sub_usize pool.entry_size packet_headroom) size)) [
    | inl big ↦ rw (big, ==_refl arc) refl
    | inr fits ↦ elim (alloc_buf-cases pool) [
      | inl (f, e) ↦ rw (fits, e, ==_refl arc) refl
      | inr (id, rest, f, e) ↦
          let near : id < pool.num_entries = ground (arith, pool-IsPool.in_range id, f) in
          let (phys, found) = get_elem?-some pool.phys_addr id (omega (arith, v.addresses)) in
          rw (fits, e, lt→ltb id pool.num_entries near, found, ==_refl arc) (rest, f, refl)
    ]
  ]

  pub alloc-Ends : (size : ℕ) → Ends (alloc arc size s.world.store)
  alloc-Ends size = comes_back (alloc arc size s.world.store) (alloc-Takes size)
    where
      comes_back : (r : Outcome Store IgbNetBuf) → Takes r → Ends r
      comes_back (ok buf store) c = tt
      comes_back (err e store) c = tt
      comes_back panic c = c
      comes_back hang c = c

  -- An allocation keeps the driver in order.
  pub allocates-IsWorking :
      (size : ℕ) (buf : IgbNetBuf) (store : Store)
      → alloc arc size s.world.store ≡ ok buf store
      → IsWorking arc start (record {
        world = record s.world { store = store };
        clients = buf.packet.pool_entry ∷ s.clients;
      })
  unfolding count
  allocates-IsWorking size buf store e =
      let (rest, top, after) = rw e at (alloc-Takes size) in
      stored-IsWorking store (buf.packet.pool_entry ∷ s.clients)
        (ap (λ (p : MemPool). p.num_entries) after) (ap (λ (p : MemPool). p.phys_addr) after)
        (λ a. omega (arith, ap (λ (p : MemPool). count a p.free_stack) after, ap (count a) top))

  pub allocates_nothing-IsWorking :
      (size : ℕ) (er : IgbError) (store : Store)
      → alloc arc size s.world.store ≡ err er store
      → IsWorking arc start
          (record { world = record s.world { store = store }; clients = s.clients })
  allocates_nothing-IsWorking size er store e =
      let after = rw e at (alloc-Takes size) in
      stored-IsWorking store s.clients (ap (λ (p : MemPool). p.num_entries) after)
        (ap (λ (p : MemPool). p.phys_addr) after)
        (λ a. omega (arith, ap (λ (p : MemPool). count a p.free_stack) after))

  module _ (packet : Packet) (before after : List ℕ) (at_arc : packet.pool ≡ arc)
      (holds : s.clients ≡ before ++ packet.pool_entry ∷ after) where
    abbrev entry : ℕ
    entry = packet.pool_entry

    held_once : (a : ℕ) → count a s.clients ≡ count a (before ++ after) + count a (entry ∷ [])
    unfolding count
    held_once a = omega (
      arith,
      ap (count a) holds,
      count-append a before (entry ∷ after),
      count-append a before after,
    )

    entry_held : 0 < count entry s.clients
    unfolding count
    entry_held = ground (arith, held_once entry, ==_refl entry)

    entry_used : count entry pool.free_stack ≡ 0
    entry_used = omega (arith, v.conserved entry, valid.free_once entry, entry_held)

    entry_inside : entry < pool.num_entries
    entry_inside = ground (arith, v.conserved entry, valid.in_range entry, entry_held, v.size)

    freed : free_buf entry pool ≡ ok tt (record pool { free_stack = entry ∷ pool.free_stack })
    freed = (free_buf_lem entry pool-IsPool).2 entry_inside entry_used

    -- A client can drop every buffer that it holds.
    pub drop_packet-held :
        drop_packet packet s.world.store
        ≡ ok tt (put_pool arc (record pool { free_stack = entry ∷ pool.free_stack }) s.world.store)
    unfolding drop_packet
    drop_packet-held = rw (at_arc, freed) refl

    pub drop_packet-Ends : Ends (drop_packet packet s.world.store)
    drop_packet-Ends = rw drop_packet-held tt

    -- The driver is in order afterwards.
    pub drops-IsWorking :
        (store : Store)
        → drop_packet packet s.world.store ≡ ok tt store
        → IsWorking arc start
            (record { world = record s.world { store = store }; clients = before ++ after })
    unfolding count
    drops-IsWorking store e =
        let same : put_pool arc (record pool { free_stack = entry ∷ pool.free_stack }) s.world.store
            ≡ store =
          ground (arith, drop_packet-held, e) in
        let there : store.pools arc ≡ record pool { free_stack = entry ∷ pool.free_stack } =
          rw (← same, ==_refl arc) refl in
        stored-IsWorking store (before ++ after) (ap (λ (p : MemPool). p.num_entries) there)
          (ap (λ (p : MemPool). p.phys_addr) there)
          (λ a. omega (arith, held_once a, ap (λ (p : MemPool). count a p.free_stack) there))

    dropped :
        (er : IgbError)
        → (in_store (drop_packet packet) >> fail {A = Unit {0}} er) s.world
          ≡ err er (record s.world {
            store =
                put_pool arc (record pool { free_stack = entry ∷ pool.free_stack }) s.world.store;
          })
    dropped er = rw drop_packet-held refl

    -- So it is after a call that drops the buffer and fails.
    pub refused-IsWorking :
        (er er' : IgbError) (w : World)
        → (in_store (drop_packet packet) >> fail {A = Unit {0}} er) s.world ≡ err er' w
        → IsWorking arc start (record { world = w; clients = before ++ after })
    refused-IsWorking er er' w e =
        let same : record s.world {
          store = put_pool arc (record pool { free_stack = entry ∷ pool.free_stack }) s.world.store;
        }
            ≡ w =
          ground (arith, dropped er, e) in
        rw (← same) (drops-IsWorking _ drop_packet-held)

    pub refused-errs :
        (er : IgbError)
        → (w : World) × ((in_store (drop_packet packet) >> fail {A = Unit {0}} er) s.world
            ≡ err er w)
          × IsWorking arc start (record { world = w; clients = before ++ after })
    refused-errs er = (_, dropped er, drops-IsWorking _ drop_packet-held)

    pub refused-Ends :
        (er : IgbError) → Ends ((in_store (drop_packet packet) >> fail {A = Unit {0}} er) s.world)
    refused-Ends er = rw (dropped er) tt
