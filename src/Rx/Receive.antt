-- ===== src/Rx/Receive.antt =====
-- The loop of `receive_packets` of src/igb.rs: how many packets come, where their buffers come from,
-- and what becomes of the ring.
use native.Mathlib.Nat.{mod-eq_of_lt}
use mathlib.Core.List.{append-nil}
use igb_driver.Prelude.{
  ℕ, zero, suc, ◌%◌, ◌≡◌, ◌∙◌, refl, sym, ap, true, false, Bool, [], ==_refl, ==_ne, ◌≢◌, arith,
  inl,
}
use igb_driver.Outcome.{Outcome, ok, Returns, Returns-map, then_run}
use igb_driver.Memory.Counts.{count}
use igb_driver.Memory.Store.{Store, IgbNetBuf}
use igb_driver.Device.{Platform}
use igb_driver.Rx.{Receiving, receive_one, receive_loop}
use igb_driver.Rx.Round.{
  pool_of, IsReceiving, Round, idle, starved, taken, HasWholeFrames, receive_one-Round,
}
use igb_driver.Rx.Closure.{IsClosure, kept_of}
use igb_driver.Rx.Taken.{
  none_placed, Receives, looked-IsReceiving, starved-IsReceiving, next_state,
  after_swap-IsReceiving, taken-Receives,
}

nothing-Receives :
    (kept : IgbNetBuf → Bool) (limit : ℕ) {s t : Receiving}
    → IsReceiving s
    → IsReceiving t
    → t.queue.num_descriptors ≡ s.queue.num_descriptors
    → t.queue.pool ≡ s.queue.pool
    → t.queue.rx_index ≡ s.queue.rx_index
    → t.queue.bufs_in_use ≡ s.queue.bufs_in_use
    → pool_of t ≡ pool_of s
    → t.delivered ≡ s.delivered
    → t.recv_nums ≡ s.recv_nums
    → t.rx_index ≡ s.rx_index
    → t.last_rx_index ≡ s.last_rx_index
    → ((b : ℕ) → b ≢ s.queue.pool → t.store.pools b ≡ s.store.pools b)
    → Receives kept limit s t
unfolding count kept_of
nothing-Receives kept limit {s} {t} v v' ring pool stored bufs same delivered nums index last
      others =
    record {
      packets = [];
      given = delivered ∙ sym (append-nil s.delivered);
      counted = omega (arith, nums);
      bounded = omega arith;
      valid = v';
      same_ring = ring;
      same_pool = pool;
      stored = stored;
      same_size = ap (λ p. p.num_entries) same;
      others = others;
      conserved = λ a. omega (arith, ap (count a) bufs, ap (λ p. count a p.free_stack) same);
      placed = none_placed;
      advanced =
          index
          ∙ sym (mod-eq_of_lt (omega (arith, v.rx_in)))
          ∙ ap (λ i. i % s.queue.num_descriptors) (omega arith);
      tail = inl (refl, last);
    }

from_Round :
    (kept : IgbNetBuf → Bool) (hw : Platform) (f : IgbNetBuf → Store → Store) (limit q : ℕ)
    (s : Receiving) (r : Outcome Receiving Bool)
    → IsReceiving s
    → Round kept hw q s r
    → ((t : Receiving)
        → IsReceiving t
        → Returns {A = Unit {0}} (λ _ u. Receives kept limit t u) (receive_loop hw f limit q t))
    → Returns {A = Unit {0}}
        (λ _ t. Receives kept (suc limit) s t)
        (then_run r (λ more t. elim more [ true ↦ receive_loop hw f limit q t | false ↦ ok tt t ]))
from_Round kept hw f limit q s r v (idle desc e seen) rest =
    nothing-Receives kept (suc limit) v (looked-IsReceiving q desc s v) refl refl refl refl refl
      refl refl refl refl (λ b ne. refl)
from_Round kept hw f limit q s r v (starved desc e ready) rest =
    nothing-Receives kept (suc limit) v (starved-IsReceiving q desc s v) refl refl refl refl
      (rw (==_refl s.queue.pool) refl) refl refl refl refl
      (λ b ne. rw (==_ne b s.queue.pool ne) refl)
from_Round kept hw f limit q s r v (taken desc below buf idx phys address e top held p a) rest =
    let next = next_state kept hw q desc below buf idx phys address s in
    Returns-map (receive_loop hw f limit q next)
      (λ _ t c. taken-Receives kept hw q desc below buf idx phys address s top held limit v c)
      (rest next (after_swap-IsReceiving kept hw q desc below buf idx phys address s top held v))

-- The loop ends without a panic after at most `limit` rounds.
pub receive_loop-Receives :
    (hw : Platform) (kept : IgbNetBuf → Bool) (f : IgbNetBuf → Store → Store) (limit q : ℕ)
    (s : Receiving)
    → HasWholeFrames hw
    → IsClosure kept f
    → IsReceiving s
    → Returns {A = Unit {0}} (λ _ t. Receives kept limit s t) (receive_loop hw f limit q s)
unfolding receive_loop
receive_loop-Receives hw kept f zero q s whole closure v =
    nothing-Receives kept 0 v v refl refl refl refl refl refl refl refl refl (λ b ne. refl)
receive_loop-Receives hw kept f (suc limit) q s whole closure v =
    from_Round kept hw f limit q s (receive_one hw f q s) v
      (receive_one-Round hw q s whole closure v)
      (λ t tv. receive_loop-Receives hw kept f limit q t whole closure tv)
