-- ===== src/Outcome.antt =====
-- What a call of the driver comes to (src/lib.rs, `IgbError` and `IgbResult`), and the state monad
-- in which the other modules write the code. A call returns a value, returns an error to its caller,
-- panics, or is still polling the device when the fuel of its loops is used up.
use igb_driver.Prelude.{Option, none, some, ◌≡◌, refl}

pub data IgbError : Type 0 where
  queue_not_aligned queue_full no_memory page_not_aligned not_ready invalid_queue : IgbError

pub data Outcome {ℓ κ} (S : Type ℓ) (A : Type κ) : Type (ℓ ⊔ κ) where
  ok : A → S → Outcome S A
  err : IgbError → S → Outcome S A
  panic : Outcome S A
  hang : Outcome S A

abbrev pub Run {ℓ κ} : Type ℓ → Type κ → Type (ℓ ⊔ κ)
Run S A = S → Outcome S A

-- The error of the `?` operator goes up with the state as it stands.
abbrev pub then_run {ℓ κ μ} :
    {S : Type ℓ} {A : Type κ} {B : Type μ} → Outcome S A → (A → Run S B) → Outcome S B
then_run (ok a s) k = k a s
then_run (err e s) k = err e s
then_run panic k = panic
then_run hang k = hang

infixl 5 ◌>>=◌ ◌>>◌
abbrev pub ◌>>=◌ {ℓ κ μ} :
    {S : Type ℓ} {A : Type κ} {B : Type μ} → Run S A → (A → Run S B) → Run S B
◌>>=◌ m k s = then_run (m s) k

abbrev pub ◌>>◌ {ℓ κ} : {S : Type ℓ} {B : Type κ} → Run S (Unit {0}) → Run S B → Run S B
m >> k = m >>= λ _. k

abbrev pub pure {ℓ κ} : {S : Type ℓ} {A : Type κ} → A → Run S A
pure a s = ok a s

abbrev pub fail {ℓ κ} : {S : Type ℓ} {A : Type κ} → IgbError → Run S A
fail e s = err e s

abbrev pub panics {ℓ κ} : {S : Type ℓ} {A : Type κ} → Run S A
panics s = panic

-- `x.ok_or(e)?`
abbrev pub ok_or {ℓ κ} : {S : Type ℓ} {A : Type κ} → Option A → IgbError → Run S A
ok_or none e = fail e
ok_or (some a) e = pure a

-- An index or an `unwrap`: `none` panics.
abbrev pub unwrap {ℓ κ} : {S : Type ℓ} {A : Type κ} → Option A → Run S A
unwrap none = panics
unwrap (some a) = pure a

-- Run on a part of the state.
abbrev pub zoom_result {ℓ κ μ} :
    {S : Type ℓ} {T : Type κ} {A : Type μ} → (S → T) → Outcome S A → Outcome T A
zoom_result put (ok a s) = ok a (put s)
zoom_result put (err e s) = err e (put s)
zoom_result put panic = panic
zoom_result put hang = hang

abbrev pub zoom {ℓ κ μ} :
    {S : Type ℓ} {T : Type κ} {A : Type μ} → (T → S) → (S → T → T) → Run S A → Run T A
zoom get put m t = zoom_result (λ s. put s t) (m (get t))

-- The call returns a value, and the value and the state satisfy `P`.
abbrev pub Returns {ℓ κ} : {S : Type ℓ} {A : Type κ} → (A → S → Type 0) → Outcome S A → Type 0
Returns P (ok a s) = P a s
Returns P (err e s) = ⊥
Returns P panic = ⊥
Returns P hang = ⊥

-- If the call comes back, with a value or with an error, the state satisfies `P`.
abbrev pub Leaves {ℓ κ} : {S : Type ℓ} {A : Type κ} → (S → Type 0) → Outcome S A → Type 0
Leaves P (ok a s) = P s
Leaves P (err e s) = P s
Leaves P panic = Unit
Leaves P hang = Unit

-- The call comes back: it neither panics nor runs on.
abbrev pub Ends {ℓ κ} : {S : Type ℓ} {A : Type κ} → Outcome S A → Type 0
Ends (ok a s) = Unit
Ends (err e s) = Unit
Ends panic = ⊥
Ends hang = ⊥

-- The call comes back, with a value or with an error, and the state satisfies `P`.
abbrev pub Reaches {ℓ κ} : {S : Type ℓ} {A : Type κ} → (S → Type 0) → Outcome S A → Type 0
Reaches P (ok a s) = P s
Reaches P (err e s) = P s
Reaches P panic = ⊥
Reaches P hang = ⊥

-- The call does not panic.
abbrev pub IsSafe {ℓ κ} : {S : Type ℓ} {A : Type κ} → Outcome S A → Type 0
IsSafe (ok a s) = Unit
IsSafe (err e s) = Unit
IsSafe panic = ⊥
IsSafe hang = Unit

pub Returns-map {ℓ κ} :
    {S : Type ℓ} {A : Type κ} {P Q : A → S → Type 0} (r : Outcome S A)
    → ((a : A) (s : S) → P a s → Q a s)
    → Returns P r
    → Returns Q r
Returns-map (ok a s) f p = f a s p
Returns-map (err e s) f p = p
Returns-map panic f p = p
Returns-map hang f p = p

pub Returns-bind {ℓ κ μ} :
    {S : Type ℓ} {A : Type κ} {B : Type μ} {P : A → S → Type 0} (Q : B → S → Type 0)
    (r : Outcome S A) (k : A → Run S B)
    → Returns P r
    → ((a : A) (s : S) → P a s → Returns Q (k a s))
    → Returns Q (then_run r k)
Returns-bind Q (ok a s) k p f = f a s p
Returns-bind Q (err e s) k p f = absurd p
Returns-bind Q panic k p f = absurd p
Returns-bind Q hang k p f = absurd p

pub Returns-ok {ℓ κ} :
    {S : Type ℓ} {A : Type κ} {P : A → S → Type 0} (r : Outcome S A)
    → Returns P r
    → (a : A) × (s : S) × (r ≡ ok a s) × P a s
Returns-ok (ok a s) p = (a, s, refl, p)
Returns-ok (err e s) p = absurd p
Returns-ok panic p = absurd p
Returns-ok hang p = absurd p

pub Returns-Ends {ℓ κ} :
    {S : Type ℓ} {A : Type κ} (P : A → S → Type 0) (r : Outcome S A) → Returns P r → Ends r
Returns-Ends P (ok a s) p = tt
Returns-Ends P (err e s) p = absurd p
Returns-Ends P panic p = absurd p
Returns-Ends P hang p = absurd p
