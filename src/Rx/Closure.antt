-- ===== src/Rx/Closure.antt =====
-- The closures that `receive_packets` (src/igb.rs) is given: each packet is kept for later or dropped, which
-- frees its buffer on the spot.
use igb_driver.Prelude.{
  ℕ, ◌+◌, ◌<◌, ◌≡◌, refl, ap, true, false, Bool, List, [], ◌∷◌, ◌==◌, ==_refl, if◌then◌else◌, arith,
  map, Bool-cases, inl, inr,
}
use igb_driver.Outcome.{Outcome, ok, err, panic, hang}
use igb_driver.Memory.{Packet, free_buf}
use igb_driver.Memory.Counts.{count, contains_iff}
use igb_driver.Memory.Store.{Store, IgbNetBuf, put_pool, drop_packet}

-- The closure leaves the pools as they are for the packets that it keeps, and drops the others.
pub record IsClosure (kept : IgbNetBuf → Bool) (f : IgbNetBuf → Store → Store) : Type 0 where
  pub keeps : (b : IgbNetBuf) (st : Store) → kept b ≡ true → f b st ≡ st
  pub drops :
      (b : IgbNetBuf) (st st' : Store)
      → kept b ≡ false
      → drop_packet b.packet st ≡ ok tt st'
      → f b st ≡ st'

-- The closure that keeps every packet, and below the one that drops every packet.
abbrev pub all_kept : IgbNetBuf → Bool
all_kept b = true

pub all_kept-IsClosure : IsClosure all_kept (λ b st. st)
all_kept-IsClosure = record { keeps = λ b st e. refl; drops = λ b st st' e. absurd cc }

abbrev store_after : Store → Outcome Store (Unit {0}) → Store
store_after st (ok _ st') = st'
store_after st (err e st') = st'
store_after st panic = st
store_after st hang = st

abbrev pub dropping : IgbNetBuf → Store → Store
dropping b st = store_after st (drop_packet b.packet st)

pub dropping-IsClosure : IsClosure (λ b. false) dropping
dropping-IsClosure = record {
  keeps = λ b st e. absurd cc;
  drops = λ b st st' e dropped. ap (store_after st) dropped;
}

-- The packets that the closure keeps.
unfoldable pub kept_of : (IgbNetBuf → Bool) → List IgbNetBuf → List IgbNetBuf
kept_of kept [] = []
kept_of kept (b ∷ bufs) = let rest = kept_of kept bufs in if kept b then b ∷ rest else rest

abbrev pub entries : List IgbNetBuf → List ℕ
entries = map (λ b. b.packet.pool_entry)

-- The pools after the closure has had the packet.
abbrev pub given_back : Bool → Packet → Store → Store
given_back true p st = st
given_back false p st =
    put_pool p.pool
      (record (st.pools p.pool) { free_stack = p.pool_entry ∷ (st.pools p.pool).free_stack }) st

drop_packet-fresh :
    (p : Packet) (st : Store)
    → p.pool_entry < (st.pools p.pool).num_entries
    → count p.pool_entry (st.pools p.pool).free_stack ≡ 0
    → drop_packet p st ≡ ok tt (given_back false p st)
unfolding drop_packet free_buf
drop_packet-fresh p st near used =
    let freed : free_buf p.pool_entry (st.pools p.pool)
        ≡ ok tt (record (st.pools p.pool) {
          free_stack = p.pool_entry ∷ (st.pools p.pool).free_stack;
        }) =
      ground (arith, contains_iff (st.pools p.pool).free_stack p.pool_entry) in
    rw freed refl

module _ {kept : IgbNetBuf → Bool} {f : IgbNetBuf → Store → Store} (law : IsClosure kept f) where
  -- The closure never drops an entry that is free already.
  pub IsClosure-given_back :
      (b : IgbNetBuf) (st : Store)
      → b.packet.pool_entry < (st.pools b.packet.pool).num_entries
      → count b.packet.pool_entry (st.pools b.packet.pool).free_stack ≡ 0
      → f b st ≡ given_back (kept b) b.packet st
  IsClosure-given_back b st near used = elim (Bool-cases (kept b)) [
    | inl e ↦ rw e (law.keeps b st e)
    | inr e ↦ rw e (law.drops b st _ e (drop_packet-fresh b.packet st near used))
  ]

pub given_back-phys_addr :
    (k : Bool) (p : Packet) (st : Store)
    → ((given_back k p st).pools p.pool).phys_addr ≡ (st.pools p.pool).phys_addr
given_back-phys_addr true p st = refl
given_back-phys_addr false p st = rw (==_refl p.pool) refl

-- The kept packets of a longer list.
pub count-kept_of :
    (a : ℕ) (kept : IgbNetBuf → Bool) (b : IgbNetBuf) (bufs : List IgbNetBuf)
    → count a (entries (kept_of kept (b ∷ bufs)))
      ≡ (if kept b then if b.packet.pool_entry == a then 1 else 0 else 0)
        + count a (entries (kept_of kept bufs))
unfolding kept_of count
count-kept_of a kept b bufs = elim (Bool-cases (kept b)) [
  | inl e ↦ rw e refl
  | inr e ↦ rw e (omega arith)
]
