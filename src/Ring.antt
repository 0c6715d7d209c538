-- ===== src/Ring.antt =====
-- The ring indices of src/igb.rs: `wrap_ring`, and the test of `start_rx_queue` and
-- `start_tx_queue` for a ring size.
pub mod PowerOfTwo
use igb_driver.Prelude.{ℕ, Bool, bit_and, ◌==◌}
use igb_driver.Word.{add_usize, sub_usize}

unfoldable pub wrap_ring : ℕ → ℕ → ℕ
wrap_ring index ring_size = bit_and (add_usize index 1) (sub_usize ring_size 1)

-- `num_descriptors & (num_descriptors - 1) == 0`
unfoldable pub is_ring_size : ℕ → Bool
is_ring_size n = bit_and n (sub_usize n 1) == 0
