-- ===== src/Draft/Phy.antt =====
-- doc/main/phy.rs: reading and writing the registers of the PHY (`Phy`). `fuel` bounds the loops that
-- wait for the card.
use igb_driver.Prelude.{ℕ, zero, suc, ◌-◌, ◌^◌, true, false, bit_and, bit_or}
use igb_driver.Word.{as_u16, shl_u32}
use igb_driver.Draft.Err.{Call, pure, fail, hang, unknown, ◌>>=◌}
use igb_driver.Draft.Reg.{Card, contains, read_reg, write_reg}
use igb_driver.Draft.Flags.Mdic
use igb_driver.Draft.Flags.Mdic.{op_read, op_write, ready, e_flag}
use igb_driver.Draft.Synced
use igb_driver.Draft.Synced.{Synced}

abbrev pub phy_control : ℕ
phy_control = 0

abbrev pub mii_cr_power_down : ℕ
mii_cr_power_down = 0x0800

pub record Phy : Type 0 where
  pub addr : ℕ

abbrev pub new : Phy
new = record { addr = 1 }

-- The commands, without and with data.
abbrev pub read_command : Phy → ℕ → ℕ
read_command phy offset =
    bit_or (bit_or (shl_u32 offset 16) (shl_u32 phy.addr 21)) (Mdic.bits op_read)

abbrev pub write_command : Phy → ℕ → ℕ → ℕ
write_command phy offset value =
    bit_or (bit_or (bit_or (shl_u32 offset 16) (shl_u32 phy.addr 21)) value) (Mdic.bits op_write)

module _ (card : Card) where
  -- The loop of `read_mdic` and of `write_mdic`; the result is the last word read.
  unfoldable pub until_ready : ℕ → Call ℕ
  unfolding read_reg
  until_ready zero t = hang
  until_ready (suc fuel) t =
      (read_reg card Mdic.flag_reg >>= λ mdic. elim (contains mdic (Mdic.bits ready)) [
        | true ↦ pure mdic
        | false ↦ elim (contains mdic (Mdic.bits e_flag)) [
          | true ↦ fail unknown
          | false ↦ until_ready fuel
        ]
      ])
        t

  unfoldable pub read_mdic : ℕ → Phy → ℕ → Call ℕ
  unfolding write_reg until_ready
  read_mdic fuel phy offset = do
    _ ← write_reg card Mdic.flag_reg (read_command phy offset)
    mdic ← until_ready fuel
    pure (as_u16 mdic)

  unfoldable pub write_mdic : ℕ → Phy → ℕ → ℕ → Call (Unit {0})
  unfolding write_reg until_ready
  write_mdic fuel phy offset value = do
    _ ← write_reg card Mdic.flag_reg (write_command phy offset value)
    _ ← until_ready fuel
    pure (tt {0})

  unfoldable pub aquire_sync : ℕ → ℕ → Call Synced
  unfolding Synced.new
  aquire_sync fuel mask = Synced.new card fuel mask

  unfoldable pub power_up : ℕ → Phy → Call (Unit {0})
  unfolding read_mdic write_mdic
  power_up fuel phy = do
    mii_reg ← read_mdic fuel phy phy_control
    write_mdic fuel phy phy_control (bit_and mii_reg (2 ^ 16 - 1 - mii_cr_power_down))
