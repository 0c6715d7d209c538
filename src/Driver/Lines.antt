-- ===== src/Driver/Lines.antt =====
-- The send queues of the whole driver (src/igb.rs) when one of them changes.
use igb_driver.Prelude.{
  ℕ, ◌+◌, ◌<◌, ◌≡◌, ◌∙◌, sym, ap, some, List, length, length-set, get_elem?, get_elem?-lt, set,
  arith,
}
use igb_driver.Memory.{MemPool}
use igb_driver.Memory.Counts.{count}
use igb_driver.Registers.{igb_tdt}
use igb_driver.Registers.Mapped.{tdt-IsReg}
use igb_driver.Device.{IgbTxQueue, IgbDevice, World}
use igb_driver.Device.Access.{Mapped}
use igb_driver.Device.Triples.{IsMapped-Mapped}
use igb_driver.Init.Sharing.{held_by}
use igb_driver.Driver.{every-set, Working, IsLine, IsWorking, sent_by, sent_by-set}

module _ {arc : ℕ} {start : MemPool} {s : Working} (v : IsWorking arc start s) where
  -- A queue is replaced, and buffers move between it, the pool and the clients.
  pub moved-IsWorking :
      (q : ℕ) (queue after : IgbTxQueue) (w : World) (clients : List ℕ)
      → get_elem? s.world.dev.tx_queues q ≡ some queue
      → w.dev ≡ record s.world.dev { tx_queues = set s.world.dev.tx_queues q after }
      → IsLine arc after
      → (w.store.pools arc).num_entries ≡ (s.world.store.pools arc).num_entries
      → (w.store.pools arc).phys_addr ≡ (s.world.store.pools arc).phys_addr
      → ((a : ℕ)
          → count a (w.store.pools arc).free_stack + count a after.bufs_in_use + count a clients
            ≡ count a (s.world.store.pools arc).free_stack
              + count a queue.bufs_in_use
              + count a s.clients)
      → IsWorking arc start (record { world = w; clients = clients })
  moved-IsWorking q queue after w clients found device line size addresses balance = record {
    mapped = rw device v.mapped;
    few_rx = rw device v.few_rx;
    few_tx = rw device (omega (arith, v.few_tx, length-set s.world.dev.tx_queues q after));
    rings = rw device v.rings;
    lines = rw device (
        every-set (IsLine arc) s.world.dev.tx_queues q after
          (get_elem?-lt s.world.dev.tx_queues q found) line v.lines);
    size = size ∙ v.size;
    addresses = ap length addresses ∙ v.addresses ∙ sym size;
    conserved = λ a. omega (
      arith,
      v.conserved a,
      balance a,
      sent_by-set a s.world.dev.tx_queues q after found,
      ap (λ (e : IgbDevice). held_by a e.rx_queues) device,
      ap (λ (e : IgbDevice). sent_by a e.tx_queues) device,
    );
  }

  pub tail-Mapped :
      (q : ℕ) {queue : IgbTxQueue}
      → get_elem? s.world.dev.tx_queues q ≡ some queue
      → Mapped s.world (igb_tdt q)
  tail-Mapped q found =
      let few : q < 64 = omega (arith, v.few_tx, get_elem?-lt s.world.dev.tx_queues q found) in
      IsMapped-Mapped s.world (igb_tdt q) (ground (arith, tdt-IsReg q few)) v.mapped
