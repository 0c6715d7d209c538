-- ===== src/Device/Triples.antt =====
-- Calls that return (src/igb.rs): what holds of the world before a call, and of the world after it;
-- with a rule for each register access and for each way in which the code puts calls together.
use igb_driver.Prelude.{
  ap, ◌∙◌, ℕ, zero, suc, ◌+◌, ◌^◌, ◌≤◌, ◌<◌, ◌≡◌, ◌≢◌, refl, true, false, Bool, List, [], ◌∷◌, leb,
  ltb, ◌==◌, bit_and, bit_or, ==_iff, Bool-cases, inl, inr, arith, if◌then◌else◌,
}
use igb_driver.Outcome.{
  err, Outcome, ok, err, panic, hang, Returns, Returns-map, then_run, pure, ◌>>=◌, ◌>>◌,
}
use igb_driver.Memory.Store.{Store}
use igb_driver.Device.{
  Platform, Event, read, wrote, waited, IgbDevice, World, M, wait_until, get_reg32, set_reg32,
  set_flags32, clear_flags32, wait_clear_reg32, wait_set_reg32,
}
use igb_driver.Device.Access.{
  Mapped, in_bounds_iff, polled, wait_set_reg32-found, wait_set_reg32-again, wait_clear_reg32-found,
  wait_clear_reg32-again,
}

-- The card's 128 KiB of registers are mapped.
abbrev pub IsMapped : IgbDevice → Type 0
IsMapped dev = (2 ^ 17 ≤ dev.len) × (dev.len < 2 ^ 64)

pub IsMapped-Mapped : (w : World) (reg : ℕ) → reg + 4 ≤ 2 ^ 17 → IsMapped w.dev → Mapped w reg
IsMapped-Mapped w reg h (l, u) = (in_bounds_iff w reg (omega arith) u).1 (omega arith)

-- The register is one of the card's.
abbrev pub IsReg : ℕ → Type 0
IsReg reg = leb (reg + 4) (2 ^ 17) ≡ true

-- From a world with `P` the call returns, and in a world with `Q`.
pub record Triple {ℓ} {A : Type ℓ} (P : World → Type 0) (m : M A) (Q : World → Type 0)
    : Type ℓ where
  pub at : (w : World) → P w → Returns (λ _ w'. Q w') (m w)

pub Triple-pure {ℓ} : {A : Type ℓ} {P : World → Type 0} (a : A) → Triple P (pure a) P
Triple-pure a = record { at = λ w p. p }

pub Triple-bind {ℓ κ} :
    {A : Type ℓ} {B : Type κ} {P R Q : World → Type 0} {m : M A} {k : A → M B}
    → Triple P m R
    → ((a : A) → Triple R (k a) Q)
    → Triple P (m >>= k) Q
Triple-bind {R} {Q} {m} {k} hm hk = record { at = λ w p. next (m w) (hm.at w p) }
  where
    next : (r : Outcome World _) → Returns (λ _ w'. R w') r → Returns (λ _ w'. Q w') (then_run r k)
    next (ok a w) p = (hk a).at w p
    next (err e w) p = p
    next panic p = p
    next hang p = p

pub Triple-then {ℓ} :
    {B : Type ℓ} {P R Q : World → Type 0} {m : M (Unit {0})} {k : M B}
    → Triple P m R
    → Triple R k Q
    → Triple P (m >> k) Q
Triple-then hm hk = Triple-bind hm (λ _. hk)

-- The device and the pools are as given; only the trace is free.
abbrev pub At : IgbDevice → Store → World → Type 0
At d s w = (w.dev ≡ d) × (w.store ≡ s)

abbrev pub Quiet {ℓ} : {A : Type ℓ} → IgbDevice → Store → M A → Type ℓ
Quiet d s m = Triple (At d s) m (At d s)

inside :
    {d : IgbDevice} {s : Store}
    → IsMapped d
    → (w : World) (reg : ℕ) → IsReg reg
    → At d s w
    → Mapped w reg
inside mapped w reg h (dv, _) = IsMapped-Mapped w reg (ground arith) (rw dv mapped)

-- What comes before the last call of a block keeps the device and the pools.
pub Quiet-bind {ℓ κ} :
    {A : Type ℓ} {B : Type κ} {d : IgbDevice} {s : Store} {Q : World → Type 0} (m : M A)
    (k : A → M B)
    → Quiet d s m
    → ((a : A) → Triple (At d s) (k a) Q)
    → Triple (At d s) (m >>= k) Q
Quiet-bind m k hm hk = Triple-bind hm hk

-- A call after which what holds of the device and the pools holds still.
pub Triple-after :
    {P : World → Type 0} {R : IgbDevice → Store → Type 0} {m k : M (Unit {0})}
    → Triple P m (λ w. R w.dev w.store)
    → ((d : IgbDevice) (s : Store) → R d s → Quiet d s k)
    → Triple P (m >> k) (λ w. R w.dev w.store)
Triple-after {k} before quiet = Triple-then before (record {
  at = λ w p.
      Returns-map (k w) (λ _ w' (dv, sv). rw (dv, sv) p)
        ((quiet w.dev w.store p).at w (refl, refl));
})

module _ (hw : Platform) {d : IgbDevice} {s : Store} where
  pub get_reg32-Quiet : (reg : ℕ) → IsMapped d → IsReg reg → Quiet d s (get_reg32 hw reg)
  unfolding get_reg32
  get_reg32-Quiet reg mapped h = record { at = λ w p. rw (inside mapped w reg h p) p }

  pub set_reg32-Quiet :
      (reg value : ℕ) → IsMapped d → IsReg reg → Quiet d s (set_reg32 hw reg value)
  unfolding set_reg32
  set_reg32-Quiet reg value mapped h = record { at = λ w p. rw (inside mapped w reg h p) p }

  pub set_flags32-Quiet :
      (reg flags : ℕ) → IsMapped d → IsReg reg → Quiet d s (set_flags32 hw reg flags)
  unfolding set_flags32
  set_flags32-Quiet reg flags mapped h = record {
    at = λ w p. let m = inside mapped w reg h p in rw (m, m) p;
  }

  pub clear_flags32-Quiet :
      (reg flags : ℕ) → IsMapped d → IsReg reg → Quiet d s (clear_flags32 hw reg flags)
  unfolding clear_flags32
  clear_flags32-Quiet reg flags mapped h = record {
    at = λ w p. let m = inside mapped w reg h p in rw (m, m) p;
  }

pub wait_until-Quiet : {d : IgbDevice} {s : Store} (ms : ℕ) → Quiet d s (wait_until ms)
unfolding wait_until
wait_until-Quiet ms = record { at = λ w p. p }

-- After the driver has written a word that has the bits `sent` to the register, the card shows the flags
-- set there, or cleared, before the driver has read the register `fuel` times. Of a card to which
-- nothing was written, nothing is said.
abbrev pub SetsWithin : Platform → ℕ → ℕ → ℕ → ℕ → Type 0
SetsWithin hw fuel reg sent flags =
    (t : List Event) (v : ℕ)
    → bit_and v sent ≡ sent
    → (n : ℕ) × (n < fuel)
      × (bit_and (hw.reg (polled hw reg n (wrote reg v ∷ t)) reg) flags ≡ flags)

abbrev pub ClearsWithin : Platform → ℕ → ℕ → ℕ → ℕ → Type 0
ClearsWithin hw fuel reg sent flags =
    (t : List Event) (v : ℕ)
    → bit_and v sent ≡ sent
    → (n : ℕ) × (n < fuel) × (bit_and (hw.reg (polled hw reg n (wrote reg v ∷ t)) reg) flags ≡ 0)

-- The last event is the write of a word that has the bits `sent`.
abbrev pub Written : IgbDevice → Store → ℕ → ℕ → World → Type 0
Written d s reg sent w =
    At d s w × (v : ℕ) × (t : List Event) × (w.trace ≡ wrote reg v ∷ t) × (bit_and v sent ≡ sent)

module _ (hw : Platform) {d : IgbDevice} {s : Store} where
  wait_set_reg32-Returns :
      (fuel n reg flags : ℕ) (w : World)
      → Mapped w reg
      → At d s w
      → n < fuel
      → bit_and (hw.reg (polled hw reg n w.trace) reg) flags ≡ flags
      → Returns {A = Unit {0}} (λ _ v. At d s v) (wait_set_reg32 hw fuel reg flags w)
  unfolding polled
  wait_set_reg32-Returns zero n reg flags w m p h found = absurd (omega arith)
  wait_set_reg32-Returns (suc fuel) zero reg flags w m p h found =
      rw
        (wait_set_reg32-found hw (suc fuel) 0 reg flags w m (omega arith)
          (λ i l. absurd (omega arith)) found)
        p
  wait_set_reg32-Returns (suc fuel) (suc n) reg flags w m p h found =
      let now = bit_and (hw.reg w.trace reg) flags in
      let next : World = record w { trace = waited 100 ∷ read reg ∷ w.trace } in
      elim (Bool-cases (now == flags)) [
        | inl e ↦
            rw
              (wait_set_reg32-found hw (suc fuel) 0 reg flags w m (omega arith)
                (λ i l. absurd (omega arith)) ((==_iff now flags).0 e))
              p
        | inr e ↦
            rw (wait_set_reg32-again hw fuel reg flags w m (λ z. ground (arith, e)))
              (wait_set_reg32-Returns fuel n reg flags next m p (omega arith) found)
      ]

  wait_clear_reg32-Returns :
      (fuel n reg flags : ℕ) (w : World)
      → Mapped w reg
      → At d s w
      → n < fuel
      → bit_and (hw.reg (polled hw reg n w.trace) reg) flags ≡ 0
      → Returns {A = Unit {0}} (λ _ v. At d s v) (wait_clear_reg32 hw fuel reg flags w)
  unfolding polled
  wait_clear_reg32-Returns zero n reg flags w m p h found = absurd (omega arith)
  wait_clear_reg32-Returns (suc fuel) zero reg flags w m p h found =
      rw
        (wait_clear_reg32-found hw (suc fuel) 0 reg flags w m (omega arith)
          (λ i l. absurd (omega arith)) found)
        p
  wait_clear_reg32-Returns (suc fuel) (suc n) reg flags w m p h found =
      let now = bit_and (hw.reg w.trace reg) flags in
      let next : World = record w { trace = waited 100 ∷ read reg ∷ w.trace } in
      elim (Bool-cases (now == 0)) [
        | inl e ↦
            rw
              (wait_clear_reg32-found hw (suc fuel) 0 reg flags w m (omega arith)
                (λ i l. absurd (omega arith)) ((==_iff now 0).0 e))
              p
        | inr e ↦
            rw (wait_clear_reg32-again hw fuel reg flags w m (λ z. ground (arith, e)))
              (wait_clear_reg32-Returns fuel n reg flags next m p (omega arith) found)
      ]

  pub set_reg32-Written :
      (reg value sent : ℕ)
      → IsMapped d
      → IsReg reg
      → bit_and value sent ≡ sent
      → Triple (At d s) (set_reg32 hw reg value) (Written d s reg sent)
  unfolding set_reg32
  set_reg32-Written reg value sent mapped h has = record {
    at = λ w p. rw (inside mapped w reg h p) (p, value, w.trace, refl, has);
  }

  pub set_flags32-Written :
      (reg flags sent : ℕ)
      → IsMapped d
      → IsReg reg
      → ((old : ℕ) → bit_and (bit_or old flags) sent ≡ sent)
      → Triple (At d s) (set_flags32 hw reg flags) (Written d s reg sent)
  unfolding set_flags32
  set_flags32-Written reg flags sent mapped h has = record {
    at = λ w p.
        let m = inside mapped w reg h p in
        rw (m, m)
          (
            p,
            bit_or (hw.reg w.trace reg) flags,
            read reg ∷ w.trace,
            refl,
            has (hw.reg w.trace reg),
          );
  }

  pub wait_set_reg32-Quiet :
      (fuel reg sent flags : ℕ)
      → IsMapped d
      → IsReg reg
      → SetsWithin hw fuel reg sent flags
      → Triple (Written d s reg sent) (wait_set_reg32 hw fuel reg flags) (At d s)
  wait_set_reg32-Quiet fuel reg sent flags mapped h answers = record {
    at = λ w (p, v, t, e, has).
        let (n, l, found) = answers t v has in
        wait_set_reg32-Returns fuel n reg flags w (inside mapped w reg h p) p l (rw e found);
  }

  pub wait_clear_reg32-Quiet :
      (fuel reg sent flags : ℕ)
      → IsMapped d
      → IsReg reg
      → ClearsWithin hw fuel reg sent flags
      → Triple (Written d s reg sent) (wait_clear_reg32 hw fuel reg flags) (At d s)
  wait_clear_reg32-Quiet fuel reg sent flags mapped h answers = record {
    at = λ w (p, v, t, e, has).
        let (n, l, found) = answers t v has in
        wait_clear_reg32-Returns fuel n reg flags w (inside mapped w reg h p) p l (rw e found);
  }

pub ruleset quiet_rules = (
  refl, Triple-pure, Quiet-bind, get_reg32-Quiet, set_reg32-Quiet, set_flags32-Quiet,
  clear_flags32-Quiet, wait_until-Quiet,
)
