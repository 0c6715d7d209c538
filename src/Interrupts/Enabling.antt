-- ===== src/Interrupts/Enabling.antt =====
-- What `enable_msi_interrupt` and `enable_msix_interrupt` of src/igb.rs tell the card.
use igb_driver.Prelude.{
  ℕ, ◌+◌, ◌*◌, ◌/◌, ◌%◌, ◌^◌, ◌≤◌, ◌<◌, ◌≡◌, ◌⊎◌, refl, List, ◌∷◌, bit_and, bit_or, arith,
}
use igb_driver.Prelude.Bits.{bit}
use igb_driver.Prelude.Masks.{bit_and-bit_or}
use igb_driver.Outcome.{Returns, Returns-map, Returns-bind}
use igb_driver.Registers.{
  igb_eitr, igb_gpie, igb_ivar, igb_imc, igb_icr, igb_gpie_msix_mode, igb_gpie_pba_support,
  igb_gpie_eiame, igb_eims_rtx_queue, igb_irq_clear_mask, igb_ivar_alloc_val,
}
use igb_driver.Device.{Platform, Event, read, wrote, World, set_flags32}
use igb_driver.Device.Access.{Mapped, at_trace, flags32_lem}
use igb_driver.Interrupts.{queue_bit, set_ivar}
use igb_driver.Interrupts.Vectors.{set_ivar_lem}
use igb_driver.Interrupts.Irq.{enable_msi_interrupt, enable_msix_interrupt, enable_cause}

-- The value `x` has the vector `v` as the valid entry of the queue `q` for the direction, and the other
-- entries of the value `old`.
abbrev pub IsEntry : ℕ → ℕ → ℕ → ℕ → ℕ → Type 0
IsEntry direction q v old x =
    let index = 16 * (q % 2) + 8 * direction in
    ((i : ℕ) → i < 8 → bit (index + i) x ≡ bit i (bit_or v igb_ivar_alloc_val))
    × ((i : ℕ) → i < 32 → (i < index) ⊎ (index + 8 ≤ i) → bit i x ≡ bit i old)

-- The value `y` has the causes of `old` enabled and that of the queue `q`.
abbrev pub IsEnabling : ℕ → ℕ → ℕ → Type 0
IsEnabling q old y =
    (bit_and y (queue_bit q) ≡ queue_bit q)
    × ((i : ℕ) → bit i (queue_bit q) ≡ 0 → bit i y ≡ bit i old)

-- The flags of `IGB_GPIE` for MSI-X.
abbrev pub msix_mode : ℕ
msix_mode = bit_or (bit_or igb_gpie_msix_mode igb_gpie_pba_support) igb_gpie_eiame

module _ (hw : Platform) (eims eiac q : ℕ) (w : World) (vector : Mapped w (igb_ivar (q / 2)))
    (timer : Mapped w (igb_eitr q)) (causes : Mapped w eims) (automatic : Mapped w eiac) where
  -- The cause of the queue is enabled last, after the events `t`.
  abbrev pub EnablesLast : List Event → World → Type 0
  EnablesLast t v =
      (y : ℕ) × (v ≡ at_trace hw w (wrote eims y ∷ read eims ∷ t)) × IsEnabling q (hw.reg t eims) y

  enable_cause_lem :
      (t : List Event)
      → Returns (λ _ v. EnablesLast t v) (enable_cause hw eims eiac q (at_trace hw w t))
  unfolding enable_cause set_flags32
  enable_cause_lem t =
      Returns-map (set_flags32 hw eims (queue_bit q) (at_trace hw w t))
        (λ _ v (y, e, set, kept). (y, e, (set, kept)))
        ((flags32_lem hw (at_trace hw w t) eims (queue_bit q) (omega arith)).0 causes)

  -- The entry of the queue for receiving is the vector 0, no cause is cleared by itself, the timer has the
  -- rate of the driver, the interrupts are cleared, and then the cause of the queue is enabled.
  abbrev pub IsMsi : World → Type 0
  IsMsi v =
      (x : ℕ) × (t : List Event) × (t
        ≡ read igb_icr
          ∷ wrote igb_imc igb_irq_clear_mask
          ∷ wrote (igb_eitr q) w.dev.interrupts.itr_rate
          ∷ wrote eiac 0
          ∷ wrote (igb_ivar (q / 2)) x
          ∷ read (igb_ivar (q / 2))
          ∷ w.trace)
      × IsEntry 0 q 0 (hw.reg w.trace (igb_ivar (q / 2))) x
      × EnablesLast t v

  -- The mode is MSI-X, the entry of the queue for receiving is the vector of the queue, the causes of queues
  -- are cleared by themselves, the timer has the rate of the driver, and then the cause of the queue is
  -- enabled.
  abbrev pub IsMsix : World → Type 0
  IsMsix v =
      (g x : ℕ) × (t : List Event) × (t
        ≡ wrote (igb_eitr q) w.dev.interrupts.itr_rate
          ∷ wrote eiac igb_eims_rtx_queue
          ∷ wrote (igb_ivar (q / 2)) x
          ∷ read (igb_ivar (q / 2))
          ∷ wrote igb_gpie g
          ∷ read igb_gpie
          ∷ w.trace)
      × (bit_and g msix_mode ≡ msix_mode)
      × IsEntry 0 q q (hw.reg (wrote igb_gpie g ∷ read igb_gpie ∷ w.trace) (igb_ivar (q / 2))) x
      × EnablesLast t v

  pub enable_msi_interrupt_lem :
      Mapped w igb_imc
      → Mapped w igb_icr
      → Returns (λ _ v. IsMsi v) (enable_msi_interrupt hw eims eiac q w)
  unfolding enable_msi_interrupt
  enable_msi_interrupt_lem masks cause =
      Returns-bind _ (set_ivar hw 0 q 0 w) _
        (set_ivar_lem hw 0 q 0 w (omega arith) (omega arith) vector)
        λ _ v (x, e, inside, outside).
          rw (e, automatic, timer, masks, cause)
            (Returns-map {P = λ _ u. EnablesLast _ u}
              (enable_cause hw eims eiac q (at_trace hw w _))
              (λ _ u enabled. (x, _, refl, (inside, outside), enabled)) (enable_cause_lem _))

  pub enable_msix_interrupt_lem :
      q < 2 ^ 8
      → Mapped w igb_gpie
      → Returns (λ _ v. IsMsix v) (enable_msix_interrupt hw eims eiac q w)
  unfolding enable_msix_interrupt
  enable_msix_interrupt_lem small mode =
      let old = hw.reg w.trace igb_gpie in
      let next = at_trace hw w (wrote igb_gpie (bit_or old msix_mode) ∷ read igb_gpie ∷ w.trace) in
      rw (mode, mode)
        (Returns-bind _ (set_ivar hw 0 q q next) _
          (set_ivar_lem hw 0 q q next (omega arith) small vector)
          λ _ v (x, e, inside, outside).
            rw (e, automatic, timer)
              (Returns-map {P = λ _ u. EnablesLast _ u}
                (enable_cause hw eims eiac q (at_trace hw w _))
                (λ _ u enabled.
                  (_, x, _, refl, bit_and-bit_or old msix_mode, (inside, outside), enabled))
                (enable_cause_lem _)))
