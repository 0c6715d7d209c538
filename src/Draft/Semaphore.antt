-- ===== src/Draft/Semaphore.antt =====
-- doc/main/phy.rs: the software semaphore (`Semaphore`), taken by `new` and given back by `drop`. It
-- has no data of its own. `fuel` bounds the loop that waits for it.
use igb_driver.Prelude.{ℕ, zero, suc, true, false, bit_or}
use igb_driver.Draft.Err.{Call, pure, hang, ◌>>=◌, ◌>>◌}
use igb_driver.Draft.Reg.{Card, contains, remove, read_reg, write_reg, modify_reg}
use igb_driver.Draft.Flags.Swsm
use igb_driver.Draft.Flags.Swsm.{smbi, swesmbi}

module _ (card : Card) where
  unfoldable pub new : ℕ → Call (Unit {0})
  unfolding read_reg write_reg
  new zero t = hang
  new (suc fuel) t =
      (read_reg card Swsm.flag_reg >>= λ swsm.
      write_reg card Swsm.flag_reg (bit_or swsm (Swsm.bits swesmbi))
      >> (read_reg card Swsm.flag_reg >>= λ now. elim (contains now (Swsm.bits swesmbi)) [
        | true ↦ pure tt
        | false ↦ new fuel
      ]))
        t

  unfoldable pub drop : Call (Unit {0})
  unfolding modify_reg
  drop =
      modify_reg card Swsm.flag_reg
        (λ word. remove (remove word (Swsm.bits smbi)) (Swsm.bits swesmbi))
