-- ===== src/Draft/Holding.antt =====
-- Taking and giving back what software and firmware share (doc/main/phy.rs), on a card whose two
-- registers for it hold what was written to them.
use igb_driver.Prelude.{ℕ, suc, ◌^◌, ◌<◌, ◌≡◌, ◌∙◌, ap, List, ◌∷◌, bit_and, bit_or, arith}
use igb_driver.Prelude.Bits.{bit}
use igb_driver.Device.{Event, read, wrote}
use igb_driver.Draft.Err.{ok}
use igb_driver.Draft.Reg.{Card, remove, read_reg, write_reg, modify_reg}
use igb_driver.Draft.Semaphore
use igb_driver.Draft.Synced
use igb_driver.Draft.Synced.{Synced, until_free}
use igb_driver.Draft.Storing.{
  Stores, swsm, sync, both, remove-bit_or, semaphore_taken, semaphore_dropped, until_free-now,
}

module _ (card : Card) (stores_swsm : Stores card swsm) (stores_sync : Stores card sync) where
  -- The resource is taken: its software bits are set, no other bit is changed, and the semaphore is free.
  pub record IsHeld (mask : ℕ) (t t' : List Event) : Type 0 where
    pub word : card t' sync ≡ bit_or (card t sync) mask
    pub smbi_clear : bit 0 (card t' swsm) ≡ 0
    pub swesmbi_clear : bit 1 (card t' swsm) ≡ 0

  synced_new :
      (fuel mask : ℕ) (t : List Event)
      → bit_and (card t sync) (both mask) ≡ 0
      → (t' : List Event) × (Synced.new card (suc fuel) mask t ≡ ok (record { mask = mask }) t')
        × IsHeld mask t t'
  unfolding Synced.new write_reg
  synced_new fuel mask t free =
      let (t1, taken, kept, _) = semaphore_taken card stores_swsm stores_sync fuel t in
      let found =
        until_free-now card stores_swsm stores_sync fuel mask t1
          (ap (λ a. bit_and a (both mask)) kept ∙ free) in
      let t2 = wrote sync (bit_or (card t1 sync) mask) ∷ read sync ∷ t1 in
      let (t3, dropped, still, low, next) = semaphore_dropped card stores_swsm stores_sync t2 in
      (
        t3,
        ground (arith, taken, found, dropped),
        record {
          word =
              still
              ∙ stores_sync.after_write (read sync ∷ t1) (bit_or (card t1 sync) mask)
              ∙ ap (λ a. bit_or a mask) kept;
          smbi_clear = low;
          swesmbi_clear = next;
        },
      )

  synced_drop :
      (fuel mask : ℕ) (t : List Event)
      → (t' : List Event) × (Synced.drop card (suc fuel) (record { mask = mask }) t ≡ ok tt t')
        × (card t' sync ≡ remove (card t sync) mask)
        × (bit 0 (card t' swsm) ≡ 0)
        × (bit 1 (card t' swsm) ≡ 0)
  unfolding Synced.drop modify_reg read_reg write_reg
  synced_drop fuel mask t =
      let (t1, taken, kept, _) = semaphore_taken card stores_swsm stores_sync fuel t in
      let t2 = wrote sync (remove (card t1 sync) mask) ∷ read sync ∷ t1 in
      let (t3, dropped, still, low, next) = semaphore_dropped card stores_swsm stores_sync t2 in
      (
        t3,
        ground (arith, taken, dropped),
        still
            ∙ stores_sync.after_write (read sync ∷ t1) (remove (card t1 sync) mask)
            ∙ ap (λ a. remove a mask) kept,
        low,
        next,
      )

  -- On a card whose two registers hold what is written to them: if neither software nor firmware has the
  -- resource, `Synced::new` returns with the software bits of the resource set, no other bit of the
  -- register changed, and the semaphore free again; and dropping what it returned does not panic, and
  -- brings the register back to the word that it held before, again with the semaphore free.
  pub new-drop :
      (fuel mask : ℕ) (t : List Event)
      → card t sync < 2 ^ 32
      → mask < 2 ^ 16
      → bit_and (card t sync) (both mask) ≡ 0
      → (t1 : List Event) × (t2 : List Event) × (synced : Synced) × (Synced.new card
            (suc fuel)
            mask
            t
          ≡ ok synced t1)
        × IsHeld mask t t1
        × (Synced.drop card (suc fuel) synced t1 ≡ ok tt t2)
        × (card t2 sync ≡ card t sync)
        × (bit 0 (card t2 swsm) ≡ 0)
        × (bit 1 (card t2 swsm) ≡ 0)
  new-drop fuel mask t word small free =
      let (t1, made, held) = synced_new fuel mask t free in
      let (t2, dropped, cleared, low, next) = synced_drop fuel mask t1 in
      (
        t1,
        t2,
        record { mask = mask },
        made,
        held,
        dropped,
        cleared
            ∙ ap (λ a. remove a mask) held.word
            ∙ remove-bit_or (card t sync) mask word (omega (arith, small)) free,
        low,
        next,
      )
