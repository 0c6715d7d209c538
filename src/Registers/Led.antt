-- ===== src/Registers/Led.antt =====
-- src/constants.rs, the numbers of queues and vectors, and the fields of the lights. The driver does
-- not use them. An index comes from a `u16`, so that no sum wraps.
use igb_driver.Prelude.{ℕ, ◌+◌, ◌*◌, ◌%◌}
use igb_driver.Word.{shl_u32}

abbrev pub igb_led_ivrt_base : ℕ
igb_led_ivrt_base = 0x00000040

abbrev pub igb_led_blink_base : ℕ
igb_led_blink_base = 0x00000080

abbrev pub igb_led_mode_mask_base : ℕ
igb_led_mode_mask_base = 0x0000000F

unfoldable pub igb_ivar_rx_queue : ℕ → ℕ
igb_ivar_rx_queue i = 0 + i

unfoldable pub igb_ivar_tx_queue : ℕ → ℕ
igb_ivar_tx_queue i = 64 + i

unfoldable pub igb_msix_vector : ℕ → ℕ
igb_msix_vector i = 0 + i

unfoldable pub igb_led_offset : ℕ → ℕ → ℕ
igb_led_offset base i = shl_u32 base (8 * i % 32)

unfoldable pub igb_led_mode_shift : ℕ → ℕ
igb_led_mode_shift i = 8 * i

unfoldable pub igb_led_ivrt : ℕ → ℕ
unfolding igb_led_offset
igb_led_ivrt i = igb_led_offset igb_led_ivrt_base i

unfoldable pub igb_led_blink : ℕ → ℕ
unfolding igb_led_offset
igb_led_blink i = igb_led_offset igb_led_blink_base i

unfoldable pub igb_led_mode_mask : ℕ → ℕ
unfolding igb_led_offset
igb_led_mode_mask i = igb_led_offset igb_led_mode_mask_base i
