-- ===== src/Device/Access.antt =====
-- What the register accesses of src/igb.rs do, and when the polling loops end.
use igb_driver.Prelude.{
  ℕ, zero, suc, ◌+◌, ◌^◌, ◌≤◌, ◌<◌, ◌≡◌, ◌≢◌, refl, ◌∙◌, true, false, List, ◌∷◌, bit_and, arith,
  ◌↔◌,
}
use igb_driver.Prelude.Bits.{bit, bit-bit_and, bit-bit_or, bit-le-one}
use igb_driver.Prelude.Masks.{bit_and-bit_or, bit_and-clear, bit-complement}
use igb_driver.Word.{not_u32}
use igb_driver.Outcome.{ok, panic, hang, Returns}
use igb_driver.Device.{
  Platform, Event, read, wrote, waited, World, in_bounds, set_flags32, clear_flags32,
  wait_clear_reg32, wait_set_reg32,
}

-- A device object whose register space has a last word, and that word's number.
abbrev pub Mapped : World → ℕ → Type 0
Mapped w reg = in_bounds w.dev reg ≡ true

-- A register lies inside the mapped memory exactly if the assertion holds.
pub in_bounds_iff :
    (w : World) (reg : ℕ)
    → 4 ≤ w.dev.len
    → w.dev.len < 2 ^ 64
    → Mapped w reg ↔ (reg + 4 ≤ w.dev.len)
in_bounds_iff w reg h l = ((λ m. ground (arith, m)), (λ m. ground arith))

module _ (hw : Platform) where
  -- Setting or clearing flags of a mapped register is one read and one write. The value written has
  -- all the flags set, or none of them; every other bit is as it was read. Outside the mapped memory
  -- both panic.
  pub flags32_lem :
      (w : World) (reg flags : ℕ)
      → flags < 2 ^ 32
      → let old = hw.reg w.trace reg in
        (Mapped w reg
          → Returns
              (λ _ v.
                (x : ℕ) × (v ≡ record w { trace = wrote reg x ∷ read reg ∷ w.trace })
                × (bit_and x flags ≡ flags)
                × ((i : ℕ) → bit i flags ≡ 0 → bit i x ≡ bit i old))
              (set_flags32 hw reg flags w))
        × (Mapped w reg
            → Returns
                (λ _ v.
                  (x : ℕ) × (v ≡ record w { trace = wrote reg x ∷ read reg ∷ w.trace })
                  × (bit_and x flags ≡ 0)
                  × ((i : ℕ) → i < 32 → bit i flags ≡ 0 → bit i x ≡ bit i old))
                (clear_flags32 hw reg flags w))
        × (in_bounds w.dev reg ≡ false
            → (set_flags32 hw reg flags w ≡ panic) × (clear_flags32 hw reg flags w ≡ panic))
  unfolding set_flags32 clear_flags32
  flags32_lem w reg flags h =
      let old = hw.reg w.trace reg in
      (
        (λ m.
            rw (m, m)
              (
                _,
                refl,
                bit_and-bit_or old flags,
                (λ i z. omega (arith, z, bit-bit_or i old flags)),
              )),
        (λ m.
            rw (m, m)
              (
                _,
                refl,
                bit_and-clear 32 old flags h,
                (λ i l z. omega (
                  arith,
                  z,
                  bit-bit_and i old (not_u32 flags),
                  bit-complement 32 i flags h l,
                  bit-le-one i old,
                )),
              )),
        (λ m. (rw m, rw m)),
      )

  -- The events of `n` polls that did not find what they waited for.
  unfoldable pub polled : ℕ → ℕ → List Event → List Event
  polled reg zero t = t
  polled reg (suc n) t = polled reg n (waited 100 ∷ read reg ∷ t)

  abbrev pub at_trace : World → List Event → World
  at_trace w t = record w { trace = t }

  pub wait_set_reg32-again :
      (fuel reg value : ℕ) (w : World)
      → Mapped w reg
      → bit_and (hw.reg w.trace reg) value ≢ value
      → wait_set_reg32 hw (suc fuel) reg value w
        ≡ wait_set_reg32 hw fuel reg value (at_trace w (waited 100 ∷ read reg ∷ w.trace))
  unfolding wait_set_reg32
  wait_set_reg32-again fuel reg value w m h = ground arith

  pub wait_set_reg32-found :
      (fuel n reg value : ℕ) (w : World)
      → Mapped w reg
      → n < fuel
      → ((k : ℕ) → k < n → bit_and (hw.reg (polled reg k w.trace) reg) value ≢ value)
      → bit_and (hw.reg (polled reg n w.trace) reg) value ≡ value
      → wait_set_reg32 hw fuel reg value w ≡ ok tt (at_trace w (read reg ∷ polled reg n w.trace))
  unfolding wait_set_reg32 polled
  wait_set_reg32-found zero n reg value w m l before found = absurd (omega arith)
  wait_set_reg32-found (suc fuel) zero reg value w m l before found = ground arith
  wait_set_reg32-found (suc fuel) (suc n) reg value w m l before found =
      wait_set_reg32-again fuel reg value w m (before 0 (omega arith))
      ∙ (wait_set_reg32-found fuel n reg value (at_trace w (waited 100 ∷ read reg ∷ w.trace)) m
          (omega arith) (λ k h. before (suc k) (omega arith)) found)

  wait_set_reg32-never :
      (fuel reg value : ℕ) (w : World)
      → Mapped w reg
      → ((k : ℕ) → k < fuel → bit_and (hw.reg (polled reg k w.trace) reg) value ≢ value)
      → wait_set_reg32 hw fuel reg value w ≡ hang
  unfolding wait_set_reg32 polled
  wait_set_reg32-never zero reg value w m before = refl
  wait_set_reg32-never (suc fuel) reg value w m before =
      wait_set_reg32-again fuel reg value w m (before 0 (omega arith))
      ∙ (wait_set_reg32-never fuel reg value (at_trace w (waited 100 ∷ read reg ∷ w.trace)) m
          (λ k h. before (suc k) (omega arith)))

  -- Waiting for flags to be set polls until the first read that finds them all set, with 100 ms
  -- between two reads, and returns right then, whatever the fuel beyond that; as long as no read
  -- finds them it goes on.
  pub wait_set_reg32_lem :
      (fuel reg value : ℕ) (w : World)
      → Mapped w reg
      → let found = λ (k : ℕ). bit_and (hw.reg (polled reg k w.trace) reg) value ≡ value in
        ((n : ℕ)
          → n < fuel
          → ((k : ℕ) → k < n → ¬ found k)
          → found n
          → wait_set_reg32 hw fuel reg value w
            ≡ ok tt (at_trace w (read reg ∷ polled reg n w.trace)))
        × (((k : ℕ) → k < fuel → ¬ found k) → wait_set_reg32 hw fuel reg value w ≡ hang)
  wait_set_reg32_lem fuel reg value w m = (
    (λ n l before found. wait_set_reg32-found fuel n reg value w m l before found),
    (λ before. wait_set_reg32-never fuel reg value w m before),
  )

  pub wait_clear_reg32-again :
      (fuel reg value : ℕ) (w : World)
      → Mapped w reg
      → bit_and (hw.reg w.trace reg) value ≢ 0
      → wait_clear_reg32 hw (suc fuel) reg value w
        ≡ wait_clear_reg32 hw fuel reg value (at_trace w (waited 100 ∷ read reg ∷ w.trace))
  unfolding wait_clear_reg32
  wait_clear_reg32-again fuel reg value w m h = ground arith

  -- Waiting for flags of a mapped register to be cleared returns right at the first read that finds
  -- them all clear, if that read is within the fuel, after one 100 ms wait for each read before it.
  pub wait_clear_reg32-found :
      (fuel n reg value : ℕ) (w : World)
      → Mapped w reg
      → n < fuel
      → ((k : ℕ) → k < n → bit_and (hw.reg (polled reg k w.trace) reg) value ≢ 0)
      → bit_and (hw.reg (polled reg n w.trace) reg) value ≡ 0
      → wait_clear_reg32 hw fuel reg value w ≡ ok tt (at_trace w (read reg ∷ polled reg n w.trace))
  unfolding wait_clear_reg32 polled
  wait_clear_reg32-found zero n reg value w m l before found = absurd (omega arith)
  wait_clear_reg32-found (suc fuel) zero reg value w m l before found = ground arith
  wait_clear_reg32-found (suc fuel) (suc n) reg value w m l before found =
      wait_clear_reg32-again fuel reg value w m (before 0 (omega arith))
      ∙ (wait_clear_reg32-found fuel n reg value (at_trace w (waited 100 ∷ read reg ∷ w.trace)) m
          (omega arith) (λ k h. before (suc k) (omega arith)) found)
