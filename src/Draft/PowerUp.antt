-- ===== src/Draft/PowerUp.antt =====
-- What `power_up` of doc/main/phy.rs tells the PHY.
use igb_driver.Prelude.{ℕ, ◌-◌, ◌^◌, ◌<◌, ◌≡◌, ◌≢◌, refl, List, ◌∷◌, bit_and, bit_or, arith}
use igb_driver.Prelude.Bits.{bit, bit-bit_and, bit-bit_or, bit-le-one}
use igb_driver.Prelude.Masks.{bit-complement, bit-pow_ne, bit-mod}
use igb_driver.Word.{as_u16}
use igb_driver.Device.{Event, wrote}
use igb_driver.Draft.Err.{ok}
use igb_driver.Draft.Reg.{Card, write_reg}
use igb_driver.Draft.Flags.Mdic
use igb_driver.Draft.Phy
use igb_driver.Draft.Phy.{
  Phy, until_ready, read_mdic, write_mdic, power_up, read_command, write_command,
}

-- The value that goes back, from the word that was read.
abbrev pub powered : ℕ → ℕ
powered word = bit_and (as_u16 word) (2 ^ 16 - 1 - 0x0800)

same_bit :
    (word i : ℕ) → i < 16 → i ≢ 11 → bit i (write_command Phy.new 0 (powered word)) ≡ bit i word
same_bit word i l ne =
    let outer = bit-bit_or i (bit_or (2 ^ 21) (powered word)) (2 ^ 26) in
    let inner = bit-bit_or i (2 ^ 21) (powered word) in
    let masked = bit-bit_and i (as_u16 word) (2 ^ 16 - 1 - 0x0800) in
    let mask : bit i (2 ^ 16 - 1 - 0x0800) ≡ 1 - bit i 0x0800 =
      bit-complement 16 i 0x0800 (omega arith) l in
    let at_11 : bit i 0x0800 ≡ 0 = bit-pow_ne i 11 ne in
    let at_21 : bit i (2 ^ 21) ≡ 0 = bit-pow_ne i 21 (λ z. omega (arith, z, l)) in
    let at_26 : bit i (2 ^ 26) ≡ 0 = bit-pow_ne i 26 (λ z. omega (arith, z, l)) in
    omega (
      arith,
      outer,
      inner,
      masked,
      mask,
      at_11,
      at_21,
      at_26,
      bit-mod 16 i word l,
      bit-le-one i word,
    )

powered_bits :
    (word : ℕ)
    → let x = write_command Phy.new 0 (powered word) in
      (bit 11 x ≡ 0)
      × (bit 26 x ≡ 1)
      × (bit 27 x ≡ 0)
      × ((i : ℕ) → i < 16 → i ≢ 11 → bit i x ≡ bit i word)
unfolding bit
powered_bits word =
    let x = write_command Phy.new 0 (powered word) in
    let outer = λ (i : ℕ). bit-bit_or i (bit_or (2 ^ 21) (powered word)) (2 ^ 26) in
    let inner = λ (i : ℕ). bit-bit_or i (2 ^ 21) (powered word) in
    let masked = λ (i : ℕ). bit-bit_and i (as_u16 word) (2 ^ 16 - 1 - 0x0800) in
    (
      omega (arith, outer 11, inner 11, masked 11),
      omega (arith, outer 26, bit-le-one 26 (bit_or (2 ^ 21) (powered word))),
      omega (arith, outer 27, inner 27, masked 27),
      λ i l ne. same_bit word i l ne,
    )

-- Powering up reads the control register of the PHY and writes it back. Whatever the polls find, if both
-- loops end with a word that is ready, then the call succeeds, and the command that it writes has the
-- write command and not the read command; the power-down bit 11 of its data is clear, and every other bit
-- of the data is as it was read.
pub power_up-powered :
    (card : Card) (fuel : ℕ) (t t1 t2 : List Event) (word last : ℕ)
    → until_ready card fuel (wrote Mdic.flag_reg.reg (read_command Phy.new 0) ∷ t) ≡ ok word t1
    → let x = write_command Phy.new 0 (powered word) in
      until_ready card fuel (wrote Mdic.flag_reg.reg x ∷ t1) ≡ ok last t2
      → (power_up card fuel Phy.new t ≡ ok tt t2)
        × (bit 11 x ≡ 0)
        × (bit 26 x ≡ 1)
        × (bit 27 x ≡ 0)
        × ((i : ℕ) → i < 16 → i ≢ 11 → bit i x ≡ bit i word)
unfolding power_up read_mdic write_mdic write_reg
power_up-powered card fuel t t1 t2 word last e e' =
    let (down, writes, reads, kept) = powered_bits word in
    (rw e (rw e' refl), down, writes, reads, kept)
