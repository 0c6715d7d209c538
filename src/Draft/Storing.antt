-- ===== src/Draft/Storing.antt =====
-- The semaphore of doc/main/phy.rs, and its waiting for a resource, on a card whose two registers for it
-- hold what was written to them.
use native.Mathlib.Decide.{dec_lt}
use igb_driver.Prelude.{
  ℕ, zero, suc, ◌-◌, ◌*◌, ◌^◌, ◌<◌, ◌≡◌, ◌≢◌, ◌∙◌, refl, sym, ap, true, List, ◌∷◌, ==_iff, bit_and,
  bit_or, arith,
}
use igb_driver.Prelude.Bits.{bit, bit-bit_and, bit-bit_or, bit-le-one, bit_ext, bit-zero}
use igb_driver.Prelude.Masks.{bit_and-bit_or, bit-complement, bit_above}
use igb_driver.Device.{Event, read, wrote}
use igb_driver.Draft.Err.{ok, hang}
use igb_driver.Draft.Reg.{Card, remove, contains, read_reg, write_reg, modify_reg}
use igb_driver.Draft.Flags.Swsm
use igb_driver.Draft.Flags.SwFwSync
use igb_driver.Draft.Semaphore
use igb_driver.Draft.Synced.{until_free}

-- The register holds the last word that was written to it.
pub record Stores (card : Card) (r : ℕ) : Type 0 where
  pub after_write : (t : List Event) (v : ℕ) → card (wrote r v ∷ t) r ≡ v
  pub after_other : (t : List Event) (x v : ℕ) → x ≢ r → card (wrote x v ∷ t) r ≡ card t r
  pub after_read : (t : List Event) (x : ℕ) → card (read x ∷ t) r ≡ card t r

abbrev pub swsm : ℕ
swsm = Swsm.flag_reg.reg

abbrev pub sync : ℕ
sync = SwFwSync.flag_reg.reg

-- The bits that say that software or firmware has the resource.
abbrev pub both : ℕ → ℕ
both mask = bit_or mask (mask * 2 ^ 16)

-- Flags that are set and cleared again.
pub remove-bit_or :
    (a m : ℕ) → a < 2 ^ 32 → m < 2 ^ 32 → bit_and a (both m) ≡ 0 → remove (bit_or a m) m ≡ a
remove-bit_or a m la lm free = bit_ext (remove (bit_or a m) m) a λ i.
    let apart = ap (bit i) free in
    let left = bit-bit_and i (bit_or a m) (2 ^ 32 - 1 - m) in
    elim (dec_lt i 32) [
      | yes l ↦ omega (
        arith,
        apart,
        bit-bit_and i a (both m),
        bit-bit_or i m (m * 2 ^ 16),
        left,
        bit-bit_or i a m,
        bit-complement 32 i m lm l,
        bit-zero i,
        bit-le-one i a,
        bit-le-one i m,
      )
      | no l ↦ omega (
        arith,
        left,
        bit_above 32 i a la (omega arith),
        bit_above 32 i (2 ^ 32 - 1 - m) (omega arith) (omega arith),
      )
    ]

module _ (card : Card) (stores_swsm : Stores card swsm) (stores_sync : Stores card sync) where
  pub semaphore_taken :
      (fuel : ℕ) (t : List Event)
      → (t' : List Event) × (Semaphore.new card (suc fuel) t ≡ ok tt t')
        × (card t' sync ≡ card t sync)
        × (card t' swsm ≡ bit_or (card t swsm) 2)
  unfolding Semaphore.new read_reg write_reg
  semaphore_taken fuel t =
      let word = card t swsm in
      let t' = read swsm ∷ wrote swsm (bit_or word 2) ∷ read swsm ∷ t in
      let now = stores_swsm.after_write (read swsm ∷ t) (bit_or word 2) in
      let taken : contains (bit_or word 2) 2 ≡ true = (==_iff _ _).1 (bit_and-bit_or word 2) in
      (
        t',
        ground (arith, now, taken),
        stores_sync.after_read _ swsm
            ∙ stores_sync.after_other _ swsm _ (λ z. omega (arith, z))
            ∙ stores_sync.after_read t swsm,
        stores_swsm.after_read _ swsm ∙ now,
      )

  pub semaphore_dropped :
      (t : List Event)
      → (t' : List Event) × (Semaphore.drop card t ≡ ok tt t')
        × (card t' sync ≡ card t sync)
        × (bit 0 (card t' swsm) ≡ 0)
        × (bit 1 (card t' swsm) ≡ 0)
  unfolding Semaphore.drop modify_reg read_reg write_reg bit
  semaphore_dropped t =
      let word = card t swsm in
      let cleared = remove (remove word 1) 2 in
      let now = stores_swsm.after_write (read swsm ∷ t) cleared in
      let outer = λ (i : ℕ). bit-bit_and i (remove word 1) (2 ^ 32 - 1 - 2) in
      let inner = bit-bit_and 0 word (2 ^ 32 - 1 - 1) in
      (
        wrote swsm cleared ∷ read swsm ∷ t,
        refl,
        stores_sync.after_other _ swsm _ (λ z. omega (arith, z)) ∙ stores_sync.after_read t swsm,
        rw now (omega (arith, outer 0, inner)),
        rw now (omega (arith, outer 1)),
      )

  pub until_free-now :
      (fuel mask : ℕ) (t : List Event)
      → bit_and (card t sync) (both mask) ≡ 0
      → until_free card (suc fuel) mask t ≡ ok (card t sync) (read sync ∷ t)
  unfolding until_free read_reg
  until_free-now fuel mask t free = ground (arith, free)

  pub until_free-again :
      (fuel mask : ℕ) (t : List Event)
      → bit_and (card t sync) (both mask) ≢ 0
      → until_free card (suc fuel) mask t ≡ until_free card fuel mask (read sync ∷ t)
  unfolding until_free read_reg
  until_free-again fuel mask t taken = ground arith

  pub until_free-never :
      (fuel mask : ℕ) (t : List Event)
      → bit_and (card t sync) (both mask) ≢ 0
      → until_free card fuel mask t ≡ hang
  unfolding until_free read_reg
  until_free-never zero mask t taken = refl
  until_free-never (suc fuel) mask t taken =
      let later =
        until_free-never fuel mask (read sync ∷ t) (λ z.
          taken (ap (λ a. bit_and a (both mask)) (sym (stores_sync.after_read t sync)) ∙ z)) in
      until_free-again fuel mask t taken ∙ later
