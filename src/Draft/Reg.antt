-- ===== src/Draft/Reg.antt =====
-- doc/main/regs.rs: the access to the registers of the card (`Reg`). The card is a parameter: what a
-- read finds may depend on all events so far. The memory at the address of the registers is the card's,
-- so that the address itself is not modelled. Register numbers are small: their sums do not wrap.
use igb_driver.Prelude.{
  ℕ, zero, suc, ◌+◌, ◌-◌, ◌*◌, ◌/◌, ◌^◌, Bool, true, false, Option, none, some, List, [], ◌∷◌, leb,
  ◌==◌, if◌then◌else◌, bit_and,
}
use igb_driver.Word.{as_u8, not_u32, usize_mod}
use igb_driver.Device.{Event, read, wrote, waited}
use igb_driver.Draft.Err.{Call, ok, pure, fail, timeout, ◌>>=◌, ◌>>◌}

abbrev pub Card : Type 0
Card = List Event → ℕ → ℕ

-- `FlagReg`: a type of flags has a register; its values are the words of that register.
pub record FlagReg : Type 0 where
  pub reg : ℕ

abbrev pub eims : ℕ
eims = 0x01524

abbrev pub eimc : ℕ
eimc = 0x01528

abbrev pub eicr : ℕ
eicr = 0x01580

unfoldable pub mta : ℕ → ℕ
mta i = 0x05200 + i * 4

unfoldable pub ral : ℕ → ℕ
ral i = if leb i 15 then 0x05400 + i * 8 else 0x0A200 + i * 8

unfoldable pub rah : ℕ → ℕ
rah i = if leb i 15 then 0x05404 + i * 8 else 0x0A204 + i * 8

-- The methods of bitflags that the draft uses.
abbrev pub contains : ℕ → ℕ → Bool
contains word flags = bit_and word flags == flags

abbrev pub remove : ℕ → ℕ → ℕ
remove word flags = bit_and word (not_u32 flags)

-- `sleep`, in milliseconds.
unfoldable pub sleep : ℕ → Call (Unit {0})
sleep ms t = ok tt (waited ms ∷ t)

module _ (card : Card) where
  unfoldable pub read_32 : ℕ → Call ℕ
  read_32 reg t = ok (card t reg) (read reg ∷ t)

  unfoldable pub write_32 : ℕ → ℕ → Call (Unit {0})
  write_32 reg val t = ok tt (wrote reg val ∷ t)

  unfoldable pub read_reg : FlagReg → Call ℕ
  unfolding read_32
  read_reg f = read_32 f.reg

  unfoldable pub write_reg : FlagReg → ℕ → Call (Unit {0})
  unfolding write_32
  write_reg f val = write_32 f.reg val

  unfoldable pub modify_reg : FlagReg → (ℕ → ℕ) → Call (Unit {0})
  unfolding read_reg write_reg
  modify_reg f change = do old ← read_reg f; write_reg f (change old)

  -- `tries` rounds of the loop.
  unfoldable pub wait_loop : FlagReg → (ℕ → Bool) → ℕ → ℕ → Call (Unit {0})
  unfolding read_reg sleep
  wait_loop f test interval zero = fail timeout
  wait_loop f test interval (suc tries) = read_reg f >>= λ word. elim (test word) [
    | true ↦ pure tt
    | false ↦ sleep interval >> wait_loop f test interval tries
  ]

  abbrev pub tries_of : Option ℕ → ℕ
  tries_of none = usize_mod - 1
  tries_of (some n) = n

  unfoldable pub wait_for : FlagReg → (ℕ → Bool) → ℕ → Option ℕ → Call (Unit {0})
  unfolding wait_loop
  wait_for f test interval try_count = wait_loop f test interval (tries_of try_count)

  unfoldable pub clear_interrupts : Call (Unit {0})
  unfolding read_32 write_32
  clear_interrupts = do _ ← write_32 eimc (2 ^ 32 - 1); _ ← read_32 eicr; pure (tt {0})

  unfoldable pub disable_interrupts : Call (Unit {0})
  unfolding write_32 clear_interrupts
  disable_interrupts = write_32 eims 0 >> clear_interrupts

  unfoldable pub read_mac : Call (List ℕ)
  unfolding read_32
  read_mac = do
    low ← read_32 (ral 0)
    high ← read_32 (rah 0)
    pure (
        as_u8 (bit_and low 0xff)
        ∷ as_u8 (bit_and (low / 2 ^ 8) 0xff)
        ∷ as_u8 (bit_and (low / 2 ^ 16) 0xff)
        ∷ as_u8 (low / 2 ^ 24)
        ∷ as_u8 (bit_and high 0xff)
        ∷ as_u8 (bit_and (high / 2 ^ 8) 0xff)
        ∷ [])
