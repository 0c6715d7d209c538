-- ===== src/Link/Power.antt =====
-- The command that `init_link` (src/igb.rs) gives to the PHY.
use igb_driver.Prelude.{ℕ, suc, ◌-◌, ◌%◌, ◌^◌, ◌≡◌, refl, List, ◌∷◌, bit_and, bit_or, arith}
use igb_driver.Prelude.Bits.{bit, bit-bit_and, bit-bit_or, bit-le-one}
use igb_driver.Outcome.{ok, Returns}
use igb_driver.Registers.{igb_mdic}
use igb_driver.Device.{Platform, Event, read, wrote, World, get_reg32, set_flags32, wait_set_reg32}
use igb_driver.Device.Access.{Mapped, at_trace}
use igb_driver.Link.{init_link, ready, read_command, power_up_command, op_write}

module _ (hw : Platform) where
  -- The register answers each reading at once with the same value.
  abbrev pub Answers : ℕ → Type 0
  Answers v = (t : List Event) → hw.reg t igb_mdic ≡ v

  -- What the second write holds: the value of the register, with the flags of the command.
  command_bits :
      (v : ℕ)
      → let x = bit_or v (power_up_command v) in
        (bit 11 x ≡ bit 11 v) × (bit 26 x ≡ 1) × (bit 27 x ≡ bit 27 v)
  unfolding bit
  command_bits v =
      let masked = bit_and (v % 2 ^ 16) (2 ^ 16 - 1 - 0x0800) in
      let outer = λ (i : ℕ). bit-bit_or i v (power_up_command v) in
      let middle = λ (i : ℕ). bit-bit_or i (bit_or (2 ^ 21) masked) op_write in
      let inner = λ (i : ℕ). bit-bit_or i (2 ^ 21) masked in
      let cleared = λ (i : ℕ). bit-bit_and i (v % 2 ^ 16) (2 ^ 16 - 1 - 0x0800) in
      (
        omega (arith, outer 11, middle 11, inner 11, cleared 11),
        omega (arith, outer 26, middle 26, bit-le-one 26 v, bit-le-one 26 (bit_or (2 ^ 21) masked)),
        omega (arith, outer 27, middle 27, inner 27, cleared 27),
      )

  get_reg32_lem :
      (v : ℕ) (w : World)
      → Mapped w igb_mdic
      → Answers v
      → get_reg32 hw igb_mdic w ≡ ok v (at_trace hw w (read igb_mdic ∷ w.trace))
  unfolding get_reg32
  get_reg32_lem v w m answers = rw (m, answers w.trace) refl

  set_flags32_lem :
      (v flags : ℕ) (w : World)
      → Mapped w igb_mdic
      → Answers v
      → set_flags32 hw igb_mdic flags w
        ≡ ok tt (at_trace hw w (wrote igb_mdic (bit_or v flags) ∷ read igb_mdic ∷ w.trace))
  unfolding set_flags32
  set_flags32_lem v flags w m answers = rw (m, m, answers w.trace) refl

  wait_ready_lem :
      (fuel v : ℕ) (w : World)
      → Mapped w igb_mdic
      → Answers v
      → bit_and v ready ≡ ready
      → wait_set_reg32 hw (suc fuel) igb_mdic ready w
        ≡ ok tt (at_trace hw w (read igb_mdic ∷ w.trace))
  unfolding wait_set_reg32
  wait_ready_lem fuel v w m answers r = ground (arith, m, answers w.trace, r)

  -- If the management register answers every reading at once with the same value, which is ready, then
  -- `init_link` ends, and the value of its second write has the write command, but the power-down bit 11
  -- and the read command bit 27 are as in the value that was read: the command that should clear the
  -- power-down bit keeps it.
  pub init_link-powered_down :
      (fuel v : ℕ) (w : World)
      → Mapped w igb_mdic
      → Answers v
      → bit_and v ready ≡ ready
      → Returns
          (λ _ w'.
            (x : ℕ) × (w'.trace
              ≡ read igb_mdic
                ∷ wrote igb_mdic x
                ∷ read igb_mdic
                ∷ read igb_mdic
                ∷ read igb_mdic
                ∷ wrote igb_mdic (bit_or v read_command)
                ∷ read igb_mdic
                ∷ read igb_mdic
                ∷ w.trace)
            × (bit 11 x ≡ bit 11 v)
            × (bit 26 x ≡ 1)
            × (bit 27 x ≡ bit 27 v))
          (init_link hw (suc fuel) w)
  unfolding init_link
  init_link-powered_down fuel v w m answers r =
      let t1 = read igb_mdic ∷ w.trace in
      let t2 = wrote igb_mdic (bit_or v read_command) ∷ read igb_mdic ∷ t1 in
      let t3 = read igb_mdic ∷ t2 in
      let t4 = read igb_mdic ∷ t3 in
      let x = bit_or v (power_up_command v) in
      rw
        (
          init_link,
          get_reg32_lem v w m answers,
          set_flags32_lem v read_command (at_trace hw w t1) m answers,
          wait_ready_lem fuel v (at_trace hw w t2) m answers r,
          get_reg32_lem v (at_trace hw w t3) m answers,
          set_flags32_lem v (power_up_command v) (at_trace hw w t4) m answers,
          wait_ready_lem fuel v (at_trace hw w (wrote igb_mdic x ∷ read igb_mdic ∷ t4)) m answers r,
        )
        (x, refl, (command_bits v).0, (command_bits v).1, (command_bits v).2)
