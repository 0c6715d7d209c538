-- ===== src/Draft/Waiting.antt =====
-- doc/main/regs.rs and doc/main/phy.rs: when the loops that wait for the card end.
use igb_driver.Prelude.{
  ℕ, zero, suc, ◌<◌, ◌≡◌, ◌∙◌, refl, true, false, Bool, List, ◌∷◌, some, arith,
}
use igb_driver.Word.{as_u16}
use igb_driver.Device.{Event, read, wrote, waited}
use igb_driver.Draft.Err.{ok, err, timeout, unknown}
use igb_driver.Draft.Reg.{Card, FlagReg, contains, write_reg, wait_loop, wait_for}
use igb_driver.Draft.Flags.Mdic
use igb_driver.Draft.Flags.Mdic.{ready, e_flag}
use igb_driver.Draft.Phy.{Phy, until_ready, read_mdic, read_command}

-- The events of `n` readings of a register, each followed by a wait.
unfoldable pub tried : FlagReg → ℕ → ℕ → List Event → List Event
tried f interval zero t = t
tried f interval (suc n) t = tried f interval n (waited interval ∷ read f.reg ∷ t)

-- The events of `n` readings without a wait.
unfoldable pub reads : FlagReg → ℕ → List Event → List Event
reads f zero t = t
reads f (suc n) t = reads f n (read f.reg ∷ t)

module _ (card : Card) (f : FlagReg) (test : ℕ → Bool) (interval : ℕ) where
  -- What the reading after `k` readings says.
  abbrev says : ℕ → List Event → Bool
  says k t = test (card (tried f interval k t) f.reg)

  wait_loop-again :
      (n : ℕ) (t : List Event)
      → says 0 t ≡ false
      → wait_loop card f test interval (suc n) t
        ≡ wait_loop card f test interval n (waited interval ∷ read f.reg ∷ t)
  unfolding wait_loop tried
  wait_loop-again n t e = rw (e, wait_loop) refl

  wait_loop-found :
      (n k : ℕ) (t : List Event)
      → k < n
      → ((j : ℕ) → j < k → says j t ≡ false)
      → says k t ≡ true
      → wait_loop card f test interval n t ≡ ok tt (read f.reg ∷ tried f interval k t)
  unfolding wait_loop tried
  wait_loop-found zero k t l before found = absurd (omega arith)
  wait_loop-found (suc n) zero t l before found = rw (found, wait_loop) refl
  wait_loop-found (suc n) (suc k) t l before found =
      wait_loop-again n t (before 0 (omega arith))
      ∙ (wait_loop-found n k (waited interval ∷ read f.reg ∷ t) (omega arith)
          (λ j h. before (suc j) (omega arith)) found)

  wait_loop-timeout :
      (n : ℕ) (t : List Event)
      → ((j : ℕ) → j < n → says j t ≡ false)
      → wait_loop card f test interval n t ≡ err timeout (tried f interval n t)
  unfolding wait_loop tried
  wait_loop-timeout zero t before = refl
  wait_loop-timeout (suc n) t before =
      wait_loop-again n t (before 0 (omega arith))
      ∙ (wait_loop-timeout n (waited interval ∷ read f.reg ∷ t)
          (λ j h. before (suc j) (omega arith)))

  -- With a bound of `n` tries the waiting always ends: with the first reading that passes the test, if it
  -- is one of the first `n`, and otherwise with `Timeout` after `n` readings, each followed by a wait.
  pub wait_for_lem :
      (n : ℕ) (t : List Event)
      → ((k : ℕ)
          → k < n
          → ((j : ℕ) → j < k → test (card (tried f interval j t) f.reg) ≡ false)
          → test (card (tried f interval k t) f.reg) ≡ true
          → wait_for card f test interval (some n) t ≡ ok tt (read f.reg ∷ tried f interval k t))
        × (((j : ℕ) → j < n → test (card (tried f interval j t) f.reg) ≡ false)
            → wait_for card f test interval (some n) t ≡ err timeout (tried f interval n t))
  unfolding wait_for
  wait_for_lem n t = (
    (λ k l before found. wait_loop-found n k t l before found),
    (λ before. wait_loop-timeout n t before),
  )

module _ (card : Card) where
  abbrev pub IsReady : ℕ → List Event → Type 0
  IsReady n t = contains (card (reads Mdic.flag_reg n t) Mdic.flag_reg.reg) (Mdic.bits ready) ≡ true

  abbrev pub IsBusy : ℕ → List Event → Type 0
  IsBusy n t =
      (contains (card (reads Mdic.flag_reg n t) Mdic.flag_reg.reg) (Mdic.bits ready) ≡ false)
      × (contains (card (reads Mdic.flag_reg n t) Mdic.flag_reg.reg) (Mdic.bits e_flag) ≡ false)

  abbrev pub IsFailed : ℕ → List Event → Type 0
  IsFailed n t =
      (contains (card (reads Mdic.flag_reg n t) Mdic.flag_reg.reg) (Mdic.bits ready) ≡ false)
      × (contains (card (reads Mdic.flag_reg n t) Mdic.flag_reg.reg) (Mdic.bits e_flag) ≡ true)

  until_ready-again :
      (fuel : ℕ) (t : List Event)
      → IsBusy 0 t
      → until_ready card (suc fuel) t ≡ until_ready card fuel (read Mdic.flag_reg.reg ∷ t)
  unfolding until_ready reads
  until_ready-again fuel t (r, e) = ground (arith, r, e)

  pub until_ready_lem :
      (fuel n : ℕ) (t : List Event)
      → n < fuel
      → ((j : ℕ) → j < n → IsBusy j t)
      → (IsReady n t
          → until_ready card fuel t
            ≡ ok
                (card (reads Mdic.flag_reg n t) Mdic.flag_reg.reg)
                (read Mdic.flag_reg.reg ∷ reads Mdic.flag_reg n t))
        × (IsFailed n t
            → until_ready card fuel t
              ≡ err unknown (read Mdic.flag_reg.reg ∷ reads Mdic.flag_reg n t))
  unfolding until_ready reads
  until_ready_lem zero n t l before = absurd (omega arith)
  until_ready_lem (suc fuel) zero t l before =
      ((λ r. ground (arith, r)), (λ (r, e). ground (arith, r, e)))
  until_ready_lem (suc fuel) (suc n) t l before =
      let again = until_ready-again fuel t (before 0 (omega arith)) in
      let (good, bad) =
        until_ready_lem fuel n (read Mdic.flag_reg.reg ∷ t) (omega arith)
          (λ j h. before (suc j) (omega arith)) in
      ((λ r. again ∙ good r), (λ b. again ∙ bad b))

  -- Reading a register of the PHY writes the read command for it, and then polls until the first reading
  -- that is ready, whose low 16 bits are the result, or that reports an error without being ready, which
  -- is the error `Unknown`; if that reading is within the fuel.
  pub read_mdic_lem :
      (fuel n : ℕ) (phy : Phy) (offset : ℕ) (t : List Event)
      → n < fuel
      → let asked = wrote Mdic.flag_reg.reg (read_command phy offset) ∷ t in
        ((j : ℕ) → j < n → IsBusy j asked)
        → (IsReady n asked
            → read_mdic card fuel phy offset t
              ≡ ok
                  (as_u16 (card (reads Mdic.flag_reg n asked) Mdic.flag_reg.reg))
                  (read Mdic.flag_reg.reg ∷ reads Mdic.flag_reg n asked))
          × (IsFailed n asked
              → read_mdic card fuel phy offset t
                ≡ err unknown (read Mdic.flag_reg.reg ∷ reads Mdic.flag_reg n asked))
  unfolding read_mdic write_reg
  read_mdic_lem fuel n phy offset t l before =
      let asked = wrote Mdic.flag_reg.reg (read_command phy offset) ∷ t in
      let (good, bad) = until_ready_lem fuel n asked l before in
      ((λ r. rw (good r) refl), (λ b. rw (bad b) refl))
