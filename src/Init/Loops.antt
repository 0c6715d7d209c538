-- ===== src/Init/Loops.antt =====
-- The loops of `reset_and_init` (src/igb.rs) that start the queues.
use native.Mathlib.Nat.{mul-le-mul_right, add-mul, one-le-pow}
use igb_driver.Prelude.{
  ℕ, zero, suc, ◌+◌, ◌*◌, ◌^◌, ◌≤◌, ◌<◌, ◌≡◌, ◌≢◌, inr, refl, sym, ap, ◌∙◌, true, some, length,
  length-replicate, get_elem?, replicate, subst, ◌==◌, ==_iff, ==_ne, arith,
}
use native.Mathlib.Decide.{dec_lt}
use igb_driver.Outcome.{Returns, Returns-ok, err, no_memory, Returns-map}
use igb_driver.Ring.PowerOfTwo.{IsPowerOfTwo, is_ring_size_iff}
use igb_driver.Memory.{range_from}
use igb_driver.Memory.Invariant.{IsPool}
use igb_driver.Memory.Store.{Store}
use igb_driver.Registers.{igb_rxdctl, igb_rxdctl_enable, igb_txdctl, igb_txdctl_enable}
use igb_driver.Device.{Platform, IgbDevice, World}
use igb_driver.Device.Refusing.{Refuses}
use igb_driver.Device.Triples.{IsMapped, Triple, Triple-then, Quiet, SetsWithin}
use igb_driver.Tx.Valid.{IsTxQueue}
use igb_driver.Setup.{for_each, new_rx_queue, new_tx_queue, rx_ring, tx_ring}
use igb_driver.Init.{Filling, filled, start_rx_queue, start_tx_queue, enable_rx_queue}
use igb_driver.Init.Fill.{Filled}
use igb_driver.Init.Start.{IsFresh, start_rx_queue-Filled, start_rx_queue-errors}
use igb_driver.Init.Quiet.{enable_rx_queue-Quiet, enable_tx_queue-Quiet}
use igb_driver.Init.Sharing.{get_elem?-replicate, IsSharing, IsSharing-IsPool, IsSharing-Filled}

new_rx_queue-IsFresh :
    {qs arc : ℕ} {w : World}
    → IsPowerOfTwo qs
    → qs < 2 ^ 31
    → IsPool (w.store.pools arc)
    → IsFresh (new_rx_queue qs arc) w
unfolding rx_ring
new_rx_queue-IsFresh {qs} power small pool = record {
  power = power;
  small = small;
  slots = length-replicate qs _;
  bufs = refl;
  first = refl;
  pool = pool;
}

pub new_tx_queue-IsTxQueue : {qs : ℕ} → IsPowerOfTwo qs → qs < 2 ^ 31 → IsTxQueue (new_tx_queue qs)
unfolding tx_ring
new_tx_queue-IsTxQueue {qs} power small =
    let positive : 0 < qs = (let (k, e) = power in omega (arith, e, one-le-pow k 2)) in
    record {
      power = power;
      small = small;
      slots = length-replicate qs _;
      tx_in = positive;
      clean_in = positive;
      in_flight = ground arith;
    }

-- While the receive queues of the device `d` are started: only these and the pool `arc` change.
pub record IsUp (qs arc n : ℕ) (d : IgbDevice) (start : Store) (k : ℕ) (dev : IgbDevice)
    (store : Store) : Type 0 where
  pub device : dev ≡ record d { rx_queues = dev.rx_queues }
  pub sharing : IsSharing qs arc n (start.pools arc) k dev.rx_queues (store.pools arc)
  pub others : (b : ℕ) → b ≢ arc → store.pools b ≡ start.pools b

IsUp-filled :
    {qs arc n k : ℕ} {d : IgbDevice} {start : Store} (w : World) (t : Filling)
    → k < n
    → IsUp qs arc n d start k w.dev w.store
    → Filled qs (record { queue = new_rx_queue qs arc; pool = w.store.pools arc }) t
    → IsUp qs arc n d start (k + 1) (filled k w t).dev (filled k w t).store
IsUp-filled {arc} {k} w t h u f =
    let here : (arc == t.queue.pool) ≡ true = (==_iff _ _).1 (sym f.same_pool) in
    record {
      device =
          ap (λ (e : IgbDevice). record e { rx_queues = (filled k w t).dev.rx_queues }) u.device;
      sharing = rw here (IsSharing-Filled h u.sharing f);
      others = λ b ne. rw (==_ne b t.queue.pool (λ z. ne (z ∙ f.same_pool))) (u.others b ne);
    }

module _ (hw : Platform) (fuel qs arc n : ℕ) (d : IgbDevice) (start : Store)
    (power : IsPowerOfTwo qs) (small : qs < 2 ^ 31) (mapped : IsMapped d) (few : n ≤ 64)
    (valid : IsPool (start.pools arc))
    (answers : (q : ℕ)
      → q < n
      → SetsWithin hw fuel (igb_rxdctl q) igb_rxdctl_enable igb_rxdctl_enable) where
  abbrev pub UpTo : ℕ → World → Type 0
  UpTo k w = IsUp qs arc n d start k w.dev w.store

  -- With enough free entries for one more queue, that queue is started.
  start_rx_queue-UpTo :
      (k : ℕ) (w : World)
      → k < n
      → UpTo k w
      → qs ≤ length (w.store.pools arc).free_stack
      → Returns {A = Unit {0}} (λ _ w'. UpTo (k + 1) w') (start_rx_queue hw fuel k w)
  start_rx_queue-UpTo k w h u room =
      let v = u.sharing in
      let found = v.new k (omega arith) h in
      let fresh = new_rx_queue-IsFresh {w = w} power small (IsSharing-IsPool valid v) in
      let (t, e, f) = start_rx_queue-Filled hw fuel k w found fresh room in
      let up = IsUp-filled w t h u f in
      let inside : IsMapped (filled k w t).dev =
        rw (ap (λ (e : IgbDevice). e.len) u.device) mapped in
      rw e (
        Returns-map (enable_rx_queue hw fuel k qs (filled k w t)) (λ _ w' (dv, sv). rw (dv, sv) up)
          ((enable_rx_queue-Quiet hw inside fuel k qs (omega (arith, h, few)) (answers k h)).at
            (filled k w t) (refl, refl)))

  pub rx_loop-UpTo :
      (m k : ℕ)
      → n * qs ≤ length (start.pools arc).free_stack
      → k + m ≡ n
      → Triple (UpTo k) (for_each (range_from k m) (start_rx_queue hw fuel)) (UpTo n)
  unfolding for_each range_from
  rx_loop-UpTo zero k enough h = record { at = λ w u. subst (λ j. UpTo j w) (omega (arith, h)) u }
  rx_loop-UpTo (suc m) k enough h =
      let next : k + 1 ≤ n = omega (arith, h) in
      Triple-then
        (record {
          at = λ w u.
              start_rx_queue-UpTo k w (omega (arith, h)) u
                (omega (arith, u.sharing.room, enough, add-mul k 1 qs, mul-le-mul_right qs next));
        })
        (rx_loop-UpTo m (k + 1) enough (omega (arith, h)))

  -- A queue for which too few entries are free ends the loop.
  start_rx_queue-no_memory :
      (k : ℕ) (w : World)
      → k < n
      → UpTo k w
      → length (w.store.pools arc).free_stack < qs
      → (w' : World) × (start_rx_queue hw fuel k w ≡ err no_memory w')
  start_rx_queue-no_memory k w h u short =
      let v = u.sharing in
      let fresh = new_rx_queue-IsFresh {w = w} power small (IsSharing-IsPool valid v) in
      let found = v.new k (omega arith) h in
      let (t, e, _, _, _) =
        (start_rx_queue-errors hw fuel k w).1 (new_rx_queue qs arc) found fresh short in
      (filled k w t, e)

  pub rx_loop-no_memory :
      (m k : ℕ)
      → length (start.pools arc).free_stack < n * qs
      → k + m ≡ n
      → Refuses (UpTo k) (for_each (range_from k m) (start_rx_queue hw fuel)) no_memory
  unfolding for_each range_from
  rx_loop-no_memory zero k short h = record {
    at = λ w u. absurd (
        omega
          (arith, u.sharing.room, short, ap (λ j. j * qs) (let e : k ≡ n = omega (arith, h) in e)));
  }
  rx_loop-no_memory (suc m) k short h = record {
    at = λ w u. elim (dec_lt (length (w.store.pools arc).free_stack) qs) [
      | yes little ↦
          let (w', e) = start_rx_queue-no_memory k w (omega (arith, h)) u little in (w', rw e refl)
      | no room ↦
          let (_, v, e, u') =
            Returns-ok (start_rx_queue hw fuel k w)
              (start_rx_queue-UpTo k w (omega (arith, h)) u (omega arith)) in
          let (w', e') = (rx_loop-no_memory m (k + 1) short (omega (arith, h))).at v u' in
          (w', rw e e')
    ];
  }

module _ (hw : Platform) (fuel qs : ℕ) {d : IgbDevice} {s : Store} where
  start_tx_queue-Quiet :
      (q n : ℕ)
      → IsPowerOfTwo qs
      → qs < 2 ^ 31
      → IsMapped d
      → n ≤ 64
      → q < n
      → d.tx_queues ≡ replicate n (new_tx_queue qs)
      → SetsWithin hw fuel (igb_txdctl q) igb_txdctl_enable igb_txdctl_enable
      → Quiet d s (start_tx_queue hw fuel q)
  unfolding start_tx_queue
  start_tx_queue-Quiet q n power small mapped few h queues answers = record {
    at = λ w (dv, sv).
        let found : get_elem? w.dev.tx_queues q ≡ some (new_tx_queue qs) =
          rw (dv, queues) (get_elem?-replicate n q (new_tx_queue qs) h) in
        let accepted = (is_ring_size_iff qs (omega (arith, small))).1 (inr power) in
        rw (found, start_tx_queue, accepted)
          ((enable_tx_queue-Quiet hw mapped fuel q (omega (arith, h, few)) answers).at w (dv, sv));
  }

  pub tx_loop-Quiet :
      (n m k : ℕ)
      → IsPowerOfTwo qs
      → qs < 2 ^ 31
      → IsMapped d
      → n ≤ 64
      → k + m ≡ n
      → d.tx_queues ≡ replicate n (new_tx_queue qs)
      → ((q : ℕ) → q < n → SetsWithin hw fuel (igb_txdctl q) igb_txdctl_enable igb_txdctl_enable)
      → Quiet d s (for_each (range_from k m) (start_tx_queue hw fuel))
  unfolding for_each range_from
  tx_loop-Quiet n zero k power small mapped few h queues answers = record { at = λ w p. p }
  tx_loop-Quiet n (suc m) k power small mapped few h queues answers =
      let near : k < n = omega (arith, h) in
      Triple-then (start_tx_queue-Quiet k n power small mapped few near queues (answers k near))
        (tx_loop-Quiet n m (k + 1) power small mapped few (omega (arith, h)) queues answers)
