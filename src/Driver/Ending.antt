-- ===== src/Driver/Ending.antt =====
-- The driver (src/igb.rs, src/memory.rs) from `init` on: it stays in order, and its calls come back.
use igb_driver.Prelude.{
  Bool, ℕ, ◌*◌, ◌^◌, ◌≤◌, ◌<◌, ◌≡◌, List, [], ◌∷◌, ◌++◌, some, length, get_elem?,
}
use igb_driver.Outcome.{ok, Ends}
use igb_driver.Ring.PowerOfTwo.{IsPowerOfTwo}
use igb_driver.Memory.{MemPool, Packet}
use igb_driver.Memory.Invariant.{IsPool}
use igb_driver.Memory.Store.{Store, IgbNetBuf, alloc, drop_packet}
use igb_driver.Device.{Platform, Event, IgbTxQueue, World}
use igb_driver.Rx.{receive_packets}
use igb_driver.Rx.Closure.{IsClosure}
use igb_driver.Rx.Round.{HasWholeFrames}
use igb_driver.Tx.{send, recycle_tx_buffers}
use igb_driver.Init.{init}
use igb_driver.Init.Contract.{IsAnswering, IsRunning}
use igb_driver.Init.Running.{init-IsRunning}
use igb_driver.Driver.{Working, Reach, IsWorking}
use igb_driver.Driver.Receiving.{receive_packets-Ends}
use igb_driver.Driver.Sending.{send-Ends}
use igb_driver.Driver.Recycling.{recycle_tx_buffers-Ends}
use igb_driver.Driver.Holding.{alloc-Ends, drop_packet-Ends}
use igb_driver.Driver.Reaching.{Reach-IsWorking, IsRunning-IsWorking}

-- Every call comes back that a client can make.
pub record IsEnding (hw : Platform) (arc : ℕ) (s : Working) : Type 0 where
  pub receives :
      (kept : IgbNetBuf → Bool) (f : IgbNetBuf → Store → Store)
      → IsClosure kept f
      → (q limit : ℕ) → Ends (receive_packets hw f q limit s.world)
  pub allocates : (size : ℕ) → Ends (alloc arc size s.world.store)
  pub drops :
      (packet : Packet) (before after : List ℕ)
      → packet.pool ≡ arc
      → s.clients ≡ before ++ packet.pool_entry ∷ after
      → Ends (drop_packet packet s.world.store)
  pub sends :
      (q : ℕ) (buf : IgbNetBuf) (before after : List ℕ)
      → buf.packet.pool ≡ arc
      → s.clients ≡ before ++ buf.packet.pool_entry ∷ after
      → Ends (send hw q buf s.world)
  pub recycles :
      (q fuel : ℕ)
      → ((queue : IgbTxQueue)
          → get_elem? s.world.dev.tx_queues q ≡ some queue
          → length queue.bufs_in_use < 32 * fuel)
      → Ends (recycle_tx_buffers hw fuel q s.world)

IsWorking-IsEnding :
    (hw : Platform) {arc : ℕ} {start : MemPool} {s : Working}
    → HasWholeFrames hw
    → IsPool start
    → IsWorking arc start s
    → IsEnding hw arc s
IsWorking-IsEnding hw whole valid v = record {
  receives = receive_packets-Ends valid v hw whole;
  allocates = alloc-Ends valid v;
  drops = drop_packet-Ends valid v;
  sends = λ q. send-Ends v hw q valid;
  recycles = λ q. recycle_tx_buffers-Ends v hw q;
}

module _ (hw : Platform) (fuel qs arc num_rx num_tx base len : ℕ) (start : Store)
    (power : IsPowerOfTwo qs) (small : qs < 2 ^ 31) (below : 2 ^ 17 ≤ len) (above : len < 2 ^ 64)
    (few_rx : num_rx ≤ 64) (few_tx : num_tx ≤ 64) (valid : IsPool (start.pools arc))
    (answers : IsAnswering hw fuel num_rx num_tx) (whole : HasWholeFrames hw) (trace : List Event)
    (enough : num_rx * qs ≤ length (start.pools arc).free_stack) where
  -- Once `init` has brought the card up, the driver stays in order through whatever sequence of calls
  -- follows: every entry of the pool that was free at the start is, as often as then, free, the buffer of a
  -- receive descriptor, in use by a send queue or held by a client, and every queue is in order. The calls
  -- receive, allocate, drop, send and recycle, and may fail; the closure of a receiving call keeps or drops
  -- each packet, and clients drop and send only buffers that they hold. The conditions are those under
  -- which `init` returns (a card that answers within the fuel what is written to it, 128 KiB of registers,
  -- at most 64 queues of each kind, rings of a power of two below 2^31, a valid pool with a free entry for
  -- each receive descriptor), that a descriptor that is done ends its frame, and that the loop of
  -- `recycle_tx_buffers` has enough fuel.
  pub init-IsWorking :
      (w : World) (t : Working)
      → init hw fuel qs base len num_rx num_tx arc start trace ≡ ok tt w
      → Reach hw arc (record { world = w; clients = [] }) t
      → IsWorking arc (start.pools arc) t
  init-IsWorking w t e r =
      let running : IsRunning qs arc num_rx num_tx start w = rw e at (
        init-IsRunning hw fuel qs arc num_rx num_tx base len start power small below above few_rx
          few_tx valid answers trace enough) in
      Reach-IsWorking hw whole valid r
        (IsRunning-IsWorking qs arc num_rx num_tx start w few_rx few_tx running)

  -- Under the same conditions no call panics or runs on: whatever sequence of calls came after `init`, the
  -- next call to receive, with a closure that keeps or drops each packet, to allocate, to drop or send a
  -- buffer that a client holds, or to recycle with enough fuel comes back with a value or an error.
  pub init-IsEnding :
      (w : World) (t : Working)
      → init hw fuel qs base len num_rx num_tx arc start trace ≡ ok tt w
      → Reach hw arc (record { world = w; clients = [] }) t
      → IsEnding hw arc t
  init-IsEnding w t e r = IsWorking-IsEnding hw whole valid (init-IsWorking w t e r)
