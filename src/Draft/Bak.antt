-- ===== src/Draft/Bak.antt =====
-- doc/igb_bak.rs: the older driver file, whose `Igb::new` resets the card and logs its status. The loop
-- that waits for the reset runs on fuel; a register is reached by its distance from `bar0`.
use igb_driver.Prelude.{
  ℕ, zero, suc, ◌*◌, ◌/◌, ◌^◌, ◌<◌, ◌≡◌, refl, true, false, ◌==◌, List, ◌∷◌, bit_and, bit_or, arith,
  Bool-cases, inl, inr,
}
use igb_driver.Device.{Event, read, wrote}
use igb_driver.Draft.Err.{Call, ok, hang, pure, ◌>>=◌}
use igb_driver.Draft.Reg.{Card, read_32, write_32}
use igb_driver.Draft.Waiting.{reads}

-- What is logged: full duplex, link up and speed.
pub record Logged : Type 0 where
  pub fd : ℕ
  pub lu : ℕ
  pub speed : ℕ

unfoldable pub logged : ℕ → Logged
logged status = record {
  fd = bit_and status 1;
  lu = bit_and status (2 ^ 1);
  speed = bit_and status (3 * 2 ^ 6) / 2 ^ 6;
}

module _ (card : Card) where
  unfoldable pub until_reset : ℕ → Call (Unit {0})
  unfolding read_32
  until_reset zero t = hang
  until_reset (suc fuel) t =
      (read_32 card 0 >>= λ ctrl. elim (bit_and ctrl (2 ^ 26) == 0) [
        | true ↦ pure tt
        | false ↦ until_reset fuel
      ])
        t

  unfoldable pub new : ℕ → Call Logged
  unfolding read_32 write_32 until_reset
  new fuel = do
    ctrl ← read_32 card 0
    _ ← write_32 card 0 (bit_or ctrl (2 ^ 26))
    _ ← until_reset fuel
    status ← read_32 card 8
    pure (logged status)

  -- Whether the reset bit is still set after `n` readings of the control register.
  abbrev pub IsReset : ℕ → List Event → Type 0
  IsReset n t = bit_and (card (reads (record { reg = 0 }) n t) 0) (2 ^ 26) ≡ 0

  until_reset_lem :
      (fuel n : ℕ) (t : List Event)
      → n < fuel
      → ((j : ℕ) → j < n → ¬ IsReset j t)
      → IsReset n t
      → until_reset fuel t ≡ ok tt (read 0 ∷ reads (record { reg = 0 }) n t)
  unfolding until_reset reads
  until_reset_lem zero n t l before e = absurd (omega arith)
  until_reset_lem (suc fuel) zero t l before e = ground (arith, e)
  until_reset_lem (suc fuel) (suc n) t l before e =
      let rest =
        until_reset_lem fuel n (read 0 ∷ t) (omega arith) (λ j h. before (suc j) (omega arith)) e in
      elim (Bool-cases (bit_and (card t 0) (2 ^ 26) == 0)) [
        | inl set ↦ absurd (before 0 (omega arith) (ground (arith, set)))
        | inr clear ↦ ground (arith, clear, rest)
      ]

  until_reset_hangs :
      (fuel : ℕ) (t : List Event) → ((j : ℕ) → j < fuel → ¬ IsReset j t) → until_reset fuel t ≡ hang
  unfolding until_reset reads
  until_reset_hangs zero t before = refl
  until_reset_hangs (suc fuel) t before =
      let rest = until_reset_hangs fuel (read 0 ∷ t) (λ j h. before (suc j) (omega arith)) in
      elim (Bool-cases (bit_and (card t 0) (2 ^ 26) == 0)) [
        | inl set ↦ absurd (before 0 (omega arith) (ground (arith, set)))
        | inr clear ↦ ground (arith, clear, rest)
      ]

  -- `Igb::new` of the older file sets the reset bit and returns once the card clears it, however many
  -- readings that takes, with the status read after that; on a card that never clears it within the fuel it
  -- is still waiting, whatever the fuel.
  pub new_lem :
      (fuel n : ℕ) (t : List Event)
      → let started = wrote 0 (bit_or (card t 0) (2 ^ 26)) ∷ read 0 ∷ t in
        let ended = read 0 ∷ reads (record { reg = 0 }) n started in
        (n < fuel
          → ((j : ℕ) → j < n → ¬ IsReset j started)
          → IsReset n started
          → new fuel t ≡ ok (logged (card ended 8)) (read 8 ∷ ended))
        × (((j : ℕ) → j < fuel → ¬ IsReset j started) → new fuel t ≡ hang)
  unfolding new
  new_lem fuel n t = (
    (λ l before e. rw (until_reset_lem fuel n _ l before e) refl),
    (λ before. rw (until_reset_hangs fuel _ before) refl),
  )
