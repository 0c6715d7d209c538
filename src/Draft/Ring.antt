-- ===== src/Draft/Ring.antt =====
-- doc/main/ring.rs: a ring of descriptors (`Ring`). `DVec` of the crate dma_api is a parameter: `zeros`
-- gives the place of a vector of so many zeroed descriptors, or none.
use igb_driver.Prelude.{ℕ, Option, none, some, List}
use igb_driver.Device.{Event}
use igb_driver.Draft.Err.{Call, pure, fail, no_memory}

abbrev pub default_ring_size : ℕ
default_ring_size = 256

pub record Ring : Type 0 where
  pub descriptors : ℕ

abbrev ok_or_no_memory : Option ℕ → Call Ring
ok_or_no_memory none = fail no_memory
ok_or_no_memory (some place) = pure (record { descriptors = place })

unfoldable pub new : (List Event → ℕ → Option ℕ) → ℕ → Call Ring
new zeros size t = ok_or_no_memory (zeros t size) t

unfoldable pub init : Ring → Call (Unit {0})
init ring = pure tt
