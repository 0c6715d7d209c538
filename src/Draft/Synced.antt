-- ===== src/Draft/Synced.antt =====
-- doc/main/phy.rs: a resource that software and firmware share (`Synced`), taken by `new` and given
-- back by `drop`. `fuel` bounds each loop.
use igb_driver.Prelude.{ℕ, zero, suc, ◌*◌, ◌^◌, true, false, ◌==◌, bit_and, bit_or}
use igb_driver.Draft.Err.{Call, pure, hang, unwrap, ◌>>=◌}
use igb_driver.Draft.Reg.{Card, remove, read_reg, write_reg, modify_reg}
use igb_driver.Draft.Flags.SwFwSync
use igb_driver.Draft.Semaphore

pub record Synced : Type 0 where
  pub mask : ℕ

module _ (card : Card) where
  -- The loop until neither software nor firmware has the resource; the result is the last word read.
  unfoldable pub until_free : ℕ → ℕ → Call ℕ
  unfolding read_reg
  until_free zero mask t = hang
  until_free (suc fuel) mask t =
      (read_reg card SwFwSync.flag_reg >>= λ word.
      elim (bit_and word (bit_or mask (mask * 2 ^ 16)) == 0) [
        | true ↦ pure word
        | false ↦ until_free fuel mask
      ])
        t

  unfoldable pub new : ℕ → ℕ → Call Synced
  unfolding Semaphore.new Semaphore.drop until_free write_reg
  new fuel mask = do
    _ ← Semaphore.new card fuel
    word ← until_free fuel mask
    _ ← write_reg card SwFwSync.flag_reg (bit_or word mask)
    _ ← Semaphore.drop card
    pure (record { mask = mask })

  unfoldable pub drop : ℕ → Synced → Call (Unit {0})
  unfolding Semaphore.new Semaphore.drop modify_reg
  drop fuel synced = do
    _ ← unwrap (Semaphore.new card fuel)
    _ ← modify_reg card SwFwSync.flag_reg (λ word. remove word synced.mask)
    Semaphore.drop card
