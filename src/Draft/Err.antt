-- ===== src/Draft/Err.antt =====
-- doc/main/err.rs: the errors of the draft, and the state monad in which its calls are written. The
-- state is the list of events so far, newest first. A call returns a value, returns an error, panics at
-- an `unwrap`, or is still polling the card when the fuel of its loop is used up.
use igb_driver.Prelude.{List}
use igb_driver.Device.{Event}

pub data IgbError : Type 0 where
  no_memory not_implemented unknown timeout : IgbError

pub data Ending {ℓ} (A : Type ℓ) : Type ℓ where
  ok : A → List Event → Ending A
  err : IgbError → List Event → Ending A
  panic : Ending A
  hang : Ending A

abbrev pub Call {ℓ} : Type ℓ → Type ℓ
Call A = List Event → Ending A

-- The error of the `?` operator goes up.
abbrev pub then_call {ℓ κ} : {A : Type ℓ} {B : Type κ} → Ending A → (A → Call B) → Ending B
then_call (ok a t) k = k a t
then_call (err e t) k = err e t
then_call panic k = panic
then_call hang k = hang

infixl 5 ◌>>=◌ ◌>>◌
abbrev pub ◌>>=◌ {ℓ κ} : {A : Type ℓ} {B : Type κ} → Call A → (A → Call B) → Call B
◌>>=◌ m k t = then_call (m t) k

abbrev pub ◌>>◌ {ℓ} : {B : Type ℓ} → Call (Unit {0}) → Call B → Call B
m >> k = m >>= λ _. k

abbrev pub pure {ℓ} : {A : Type ℓ} → A → Call A
pure a t = ok a t

abbrev pub fail {ℓ} : {A : Type ℓ} → IgbError → Call A
fail e t = err e t

-- `x.unwrap()` of a result.
abbrev unwrap_ending {ℓ} : {A : Type ℓ} → Ending A → Ending A
unwrap_ending (ok a t) = ok a t
unwrap_ending (err e t) = panic
unwrap_ending panic = panic
unwrap_ending hang = hang

abbrev pub unwrap {ℓ} : {A : Type ℓ} → Call A → Call A
unwrap m t = unwrap_ending (m t)
