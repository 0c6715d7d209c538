-- ===== src/Descriptor/Rx/Fields.antt =====
-- What the methods of the receive descriptor read.
use igb_driver.Prelude.{
  ℕ, ◌+◌, ◌-◌, ◌*◌, ◌/◌, ◌%◌, ◌^◌, ◌≤◌, ◌<◌, ◌≡◌, ◌≢◌, ◌↔◌, ◌∙◌, refl, true, false, bit_and, arith,
}
use igb_driver.Prelude.Bits.{bit_and_step}
use igb_driver.Prelude.Masks.{bit_and-one}
use igb_driver.Word.{as_u8}
use igb_driver.Descriptor.Rx.{
  AdvancedRxDescriptor, IsGetBits, rx_status_dd, rx_status_eop, set_packet_address, reset_status,
  get_ext_status, get_ext_error, get_vlan_tag, descriptor_done, end_of_packet, packet_length,
}

bit_and_two : (a : ℕ) → bit_and a 2 ≡ a / 2 % 2 * 2
bit_and_two a = omega (arith, bit_and_step a 2, bit_and-one (a / 2))

-- The header word as the device writes it back: status in bits 19:0, error in bits 31:20, length in
-- bits 47:32, VLAN tag in bits 63:48.
abbrev pub written_back : ℕ → ℕ → ℕ → ℕ → ℕ
written_back status error len vlan = status + error * 2 ^ 20 + len * 2 ^ 32 + vlan * 2 ^ 48

abbrev pub with_header : ℕ → ℕ → AdvancedRxDescriptor
with_header address header = record {
  packet_buffer_address = address;
  header_buffer_address = header;
}

module _ (get_bits : ℕ → ℕ → ℕ → ℕ) (law : IsGetBits get_bits) where
  -- The status, error, length and VLAN tag that the device wrote back are read unchanged, if each
  -- leaves the highest bit of its field clear.
  pub fields-written_back :
      (address status error len vlan : ℕ)
      → status < 2 ^ 19
      → error < 2 ^ 11
      → len < 2 ^ 15
      → vlan < 2 ^ 15
      → let d = with_header address (written_back status error len vlan) in
        (get_ext_status get_bits d ≡ status)
        × (get_ext_error get_bits d ≡ error)
        × (packet_length get_bits d ≡ len)
        × (get_vlan_tag get_bits d ≡ vlan)
  unfolding get_ext_status get_ext_error packet_length get_vlan_tag
  fields-written_back address status error len vlan hs he hl hv = (
    at 0 19 (omega arith) (omega arith) ∙ omega arith,
    at 20 31 (omega arith) (omega arith) ∙ omega arith,
    at 32 47 (omega arith) (omega arith) ∙ omega arith,
    at 48 63 (omega arith) (omega arith) ∙ omega arith,
  )
    where
      at :
          (a b : ℕ)
          → a < b
          → b ≤ 64
          → get_bits (written_back status error len vlan) a b
            ≡ written_back status error len vlan / 2 ^ a % 2 ^ (b - a)
      at a b h l = law.range (written_back status error len vlan) a b h l (omega arith)

  -- A VLAN tag with its highest bit set, and a length with its highest bit set, are never read as
  -- what the device wrote: the methods leave out bit 63 and bit 47 of the header word.
  pub fields-highest_bit_lost :
      (address header : ℕ)
      → header < 2 ^ 64
      → (2 ^ 15 ≤ header / 2 ^ 48
          → get_vlan_tag get_bits (with_header address header) ≢ header / 2 ^ 48)
        × (2 ^ 15 ≤ header / 2 ^ 32 % 2 ^ 16
            → packet_length get_bits (with_header address header) ≢ header / 2 ^ 32 % 2 ^ 16)
  unfolding packet_length get_vlan_tag
  fields-highest_bit_lost address header h = (
    (λ big e. omega (arith, e, law.range header 48 63 (omega arith) (omega arith) h)),
    (λ big e. omega (arith, e, law.range header 32 47 (omega arith) (omega arith) h)),
  )

  -- The methods `descriptor_done` and `end_of_packet` agree with the tests of the receive loop on
  -- the low byte of the status.
  pub done_iff :
      (d : AdvancedRxDescriptor)
      → ((descriptor_done get_bits d ≡ true)
          ↔ (bit_and (as_u8 (get_ext_status get_bits d)) rx_status_dd ≢ 0))
        × ((end_of_packet get_bits d ≡ true)
            ↔ (bit_and (as_u8 (get_ext_status get_bits d)) rx_status_eop ≢ 0))
  unfolding descriptor_done end_of_packet
  done_iff d = (
    (
      (λ e z. ground (arith, bit_and-one status, bit_and-one (as_u8 status))),
      (λ n. ground (arith, bit_and-one status, bit_and-one (as_u8 status))),
    ),
    (
      (λ e z. ground (arith, bit_and_two status, bit_and_two (as_u8 status))),
      (λ n. ground (arith, bit_and_two status, bit_and_two (as_u8 status))),
    ),
  )
    where
      status : ℕ
      status = get_ext_status get_bits d

  -- A descriptor given back to the device has the new buffer's address, no status and no length.
  pub reset-status :
      (d : AdvancedRxDescriptor) (address : ℕ)
      → let r = reset_status (set_packet_address address d) in
        (r.packet_buffer_address ≡ address)
        × (descriptor_done get_bits r ≡ false)
        × (end_of_packet get_bits r ≡ false)
        × (packet_length get_bits r ≡ 0)
  unfolding reset_status set_packet_address descriptor_done end_of_packet packet_length
  reset-status d address = (
    refl,
    rw (law.range 0 0 19 (omega arith) (omega arith) (omega arith)) refl,
    rw (law.range 0 0 19 (omega arith) (omega arith) (omega arith)) refl,
    law.range 0 32 47 (omega arith) (omega arith) (omega arith),
  )
