-- ===== src/Nic.antt =====
-- src/lib.rs: the trait `NicDevice`, as a record of its methods on a state of the device, and what
-- the methods do. The name of the driver, a text, is left out.
pub mod Igb
pub mod Receiving
pub mod Sending
pub mod Recycling
pub mod Promise
use igb_driver.Prelude.{ℕ, ◌≤◌, ◌<◌, ◌≡◌, ◌⊎◌, Bool, true, false, List, ◌∷◌, ◌++◌, length}
use igb_driver.Outcome.{Run, ok, err, invalid_queue, not_ready, queue_full, Returns}
use igb_driver.Memory.{extend}
use igb_driver.Memory.Store.{Store, IgbNetBuf}
use igb_driver.Rx.Closure.{IsClosure, kept_of, entries}

pub record NicDevice (S : Type 0) : Type 0 where
  pub get_mac_addr : Run S (List ℕ)
  pub reset_stats : Run S (Unit {0})
  pub get_link_speed : Run S ℕ
  pub recycle_tx_buffers : ℕ → Run S (Unit {0})
  pub receive_packets : (IgbNetBuf → Store → Store) → ℕ → ℕ → Run S (ℕ × List IgbNetBuf)
  pub send : ℕ → IgbNetBuf → Run S (Unit {0})
  pub can_receive : ℕ → Run S Bool
  pub can_send : ℕ → Run S Bool

-- The speeds in Mbit/s, 0 for no link.
abbrev pub IsSpeed : ℕ → Type 0
IsSpeed x = (x ≡ 0) ⊎ ((x ≡ 10) ⊎ ((x ≡ 100) ⊎ (x ≡ 1000)))

module _ {S : Type 0} (nic : NicDevice S) (IsInOrder : List ℕ → S → Type 0) where
  -- Receiving does what `can_receive` tells: there is no such queue, or no data, or packets come, at most as
  -- many as were asked for, and the clients hold those that the closure kept.
  abbrev pub ReceivesAsTold :
      (IgbNetBuf → Bool) → (IgbNetBuf → Store → Store) → ℕ → ℕ → List ℕ → S → Type 0
  ReceivesAsTold kept f q limit clients s =
      ((nic.can_receive q s ≡ err invalid_queue s)
        × (nic.receive_packets f q limit s ≡ err invalid_queue s))
      ⊎ (((t : S) × (nic.can_receive q s ≡ ok false t)
            × (nic.receive_packets f q limit s ≡ err not_ready t)
            × IsInOrder clients t)
          ⊎ ((t : S) × (nic.can_receive q s ≡ ok true t)
              × IsInOrder clients t
              × Returns
                  (λ r u.
                    (r.0 ≡ length r.1)
                    × (r.0 ≤ limit)
                    × IsInOrder (entries (kept_of kept r.1) ++ clients) u)
                  (nic.receive_packets f q limit s)))

  -- Sending does what `can_send` tells: there is no such queue, or no room, or the packet is taken; in any
  -- case the clients hold the buffers `left` then.
  abbrev pub SendsAsTold : ℕ → IgbNetBuf → List ℕ → S → Type 0
  SendsAsTold q buf left s =
      ((nic.can_send q s ≡ err invalid_queue s)
        × (t : S) × (nic.send q buf s ≡ err invalid_queue t)
        × IsInOrder left t)
      ⊎ (((nic.can_send q s ≡ ok false s)
            × (t : S) × (nic.send q buf s ≡ err queue_full t)
            × IsInOrder left t)
          ⊎ ((nic.can_send q s ≡ ok true s) × Returns (λ _ t. IsInOrder left t) (nic.send q buf s)))

-- What the methods do on the states that are in order for clients that hold the buffers `clients` of
-- the pool `arc`: every call comes back and keeps the order, the questions `can_receive` and `can_send`
-- tell what the calls do, and recycling moves the oldest of the buffers `in_use` to the `free` ones, until
-- fewer than 32 are in use if the card has sent everything. (The comment of the trait has no such remainder.)
pub record IsNic {S : Type 0} (nic : NicDevice S) (arc : ℕ) (in_use : ℕ → S → List ℕ)
    (free : S → List ℕ) (IsAllSent : ℕ → Type 0) (IsInOrder : List ℕ → S → Type 0) : Type 0 where
  pub address :
      (clients : List ℕ) (s : S)
      → IsInOrder clients s
      → Returns (λ mac t. (length mac ≡ 6) × IsInOrder clients t) (nic.get_mac_addr s)
  pub stats :
      (clients : List ℕ) (s : S)
      → IsInOrder clients s
      → Returns (λ _ t. IsInOrder clients t) (nic.reset_stats s)
  pub speed :
      (clients : List ℕ) (s : S)
      → IsInOrder clients s
      → Returns (λ speed t. IsSpeed speed × IsInOrder clients t) (nic.get_link_speed s)
  pub recycles :
      (q : ℕ) (clients : List ℕ) (s : S)
      → IsInOrder clients s
      → (nic.recycle_tx_buffers q s ≡ err invalid_queue s)
        ⊎ Returns
            (λ _ t.
              IsInOrder clients t
              × ((released : List ℕ) × (in_use q s ≡ released ++ in_use q t)
                  × (free t ≡ extend released (free s))
                  × (IsAllSent q → length (in_use q t) < 32)))
            (nic.recycle_tx_buffers q s)
  pub receives :
      (kept : IgbNetBuf → Bool) (f : IgbNetBuf → Store → Store) (q limit : ℕ) (clients : List ℕ)
      (s : S)
      → IsClosure kept f
      → IsInOrder clients s
      → ReceivesAsTold nic IsInOrder kept f q limit clients s
  pub sends :
      (q : ℕ) (buf : IgbNetBuf) (before after : List ℕ) (s : S)
      → buf.packet.pool ≡ arc
      → IsInOrder (before ++ buf.packet.pool_entry ∷ after) s
      → SendsAsTold nic IsInOrder q buf (before ++ after) s
