-- ===== src/Link/Address.antt =====
-- The bytes of `get_mac_addr` (src/igb.rs).
use igb_driver.Prelude.{ℕ, ◌+◌, ◌*◌, ◌/◌, ◌%◌, ◌^◌, ◌<◌, ◌≡◌, refl, List, [], ◌∷◌, arith, length}
use igb_driver.Prelude.Masks.{bit_and_mask}
use igb_driver.Outcome.{Returns}
use igb_driver.Registers.{igb_ral, igb_rah}
use igb_driver.Device.{Platform, read, World}
use igb_driver.Device.Access.{Mapped}
use igb_driver.Link.{get_mac_addr}

-- The number whose bytes are `bytes`, the lowest first.
unfoldable pub little_endian : List ℕ → ℕ
little_endian [] = 0
little_endian (b ∷ bytes) = b + 256 * little_endian bytes

pub data AllBytes : List ℕ → Type 0 where
  no_bytes : AllBytes []
  more_bytes : {b : ℕ} {bytes : List ℕ} → b < 256 → AllBytes bytes → AllBytes (b ∷ bytes)

-- The address is six bytes, and they are the 32 bits of `RAL(0)` followed by the low 16 bits of
-- `RAH(0)`, the lowest byte first.
pub get_mac_addr_lem :
    (hw : Platform) (w : World)
    → Mapped w (igb_ral 0)
    → Mapped w (igb_rah 0)
    → let low = hw.reg w.trace (igb_ral 0) in
      let high = hw.reg (read (igb_ral 0) ∷ w.trace) (igb_rah 0) in
      low < 2 ^ 32
      → Returns
          (λ mac w'.
            (length mac ≡ 6) × AllBytes mac × (little_endian mac ≡ low + 2 ^ 32 * (high % 2 ^ 16)))
          (get_mac_addr hw w)
unfolding get_mac_addr little_endian
get_mac_addr_lem hw w m m' h =
    let low = hw.reg w.trace (igb_ral 0) in
    let high = hw.reg (read (igb_ral 0) ∷ w.trace) (igb_rah 0) in
    let byte = bit_and_mask 8 in
    rw
      (
        m,
        m',
        get_mac_addr,
        byte low,
        byte (low / 2 ^ 8),
        byte (low / 2 ^ 16),
        byte high,
        byte (high / 2 ^ 8),
      )
      (
        refl,
        more_bytes (omega arith) (
            more_bytes (omega arith) (
              more_bytes (omega arith) (
                more_bytes (omega arith)
                  (more_bytes (omega arith) (more_bytes (omega arith) no_bytes))))),
        omega (arith, h),
      )
