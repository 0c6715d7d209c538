-- ===== src/Device/Refusing.antt =====
-- Calls that end with an error (src/igb.rs).
use igb_driver.Prelude.{ap, ◌∙◌, ◌≡◌}
use igb_driver.Outcome.{IgbError, err, Returns-ok, err, then_run, ◌>>=◌}
use igb_driver.Device.{World, M}
use igb_driver.Device.Triples.{Triple}

-- From a world with `P` the call ends with the error.
pub record Refuses {ℓ} {A : Type ℓ} (P : World → Type 0) (m : M A) (e : IgbError) : Type ℓ where
  pub at : (w : World) → P w → (w' : World) × (m w ≡ err e w')

-- The first error ends a block.
pub Refuses-first {ℓ κ} :
    {A : Type ℓ} {B : Type κ} {P : World → Type 0} {m : M A} {e : IgbError} (k : A → M B)
    → Refuses P m e
    → Refuses P (m >>= k) e
Refuses-first k refuses = record {
  at = λ w p. let (w', q) = refuses.at w p in (w', ap (λ r. then_run r k) q);
}

pub Refuses-then {ℓ κ} :
    {A : Type ℓ} {B : Type κ} {P R : World → Type 0} {m : M A} {k : A → M B} {e : IgbError}
    → Triple P m R
    → ((a : A) → Refuses R (k a) e)
    → Refuses P (m >>= k) e
Refuses-then {m} {k} before refuses = record {
  at = λ w p.
      let (a, v, q, r) = Returns-ok (m w) (before.at w p) in
      let (w', q') = (refuses a).at v r in (w', ap (λ o. then_run o k) q ∙ q');
}
