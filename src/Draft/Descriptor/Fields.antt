-- ===== src/Draft/Descriptor/Fields.antt =====
-- The receive descriptor of the draft (doc/main/descriptor.rs) against that of the driver
-- (src/descriptor.rs): the same 16 bytes, read by the fields of the one and by the methods of the other.
use igb_driver.Prelude.{ℕ, ◌-◌, ◌/◌, ◌%◌, ◌^◌, ◌≤◌, ◌<◌, ◌≡◌, ◌∙◌, arith}
use igb_driver.Descriptor.Rx.{
  AdvancedRxDescriptor, IsGetBits, get_packet_type, get_hdr_len, get_rss_hash, get_ext_status,
  get_ext_error, packet_length, get_vlan_tag,
}
use igb_driver.Draft.Descriptor.{AdvRxDesc, rx_read, rx_write, hs_rss}

-- The driver's descriptor with the same bytes.
abbrev pub in_driver : AdvRxDesc → AdvancedRxDescriptor
in_driver d = record {
  packet_buffer_address = (rx_read d).pkt_addr;
  header_buffer_address = (rx_read d).hdr_addr;
}

module _ (get_bits : ℕ → ℕ → ℕ → ℕ) (law : IsGetBits get_bits) where
  low_bits :
      (d : AdvRxDesc) (a b : ℕ)
      → a < b
      → b ≤ 64
      → get_bits (rx_read d).pkt_addr a b ≡ d.bytes % 2 ^ 64 / 2 ^ a % 2 ^ (b - a)
  unfolding rx_read
  low_bits d a b h l = law.range (d.bytes % 2 ^ 64) a b h l (omega arith)

  high_bits :
      (d : AdvRxDesc) (a b : ℕ)
      → a < b
      → b ≤ 64
      → get_bits (rx_read d).hdr_addr a b ≡ d.bytes / 2 ^ 64 % 2 ^ 64 / 2 ^ a % 2 ^ (b - a)
  unfolding rx_read
  high_bits d a b h l = law.range (d.bytes / 2 ^ 64 % 2 ^ 64) a b h l (omega arith)

  -- On every descriptor that the card wrote back, the methods of the driver read the fields of the draft:
  -- the packet type is the packet information from bit 4 on; the length of the header, the RSS hash, the
  -- status, the error, the length and the VLAN tag are the fields without their highest bit. `get_bits`
  -- gives the bits that it is documented to give.
  pub methods-rx_write :
      (d : AdvRxDesc)
      → let w = rx_write d in
        let m = in_driver d in
        (get_packet_type get_bits m ≡ (hs_rss w.lo_dword).pkt_info / 2 ^ 4)
        × (get_hdr_len get_bits m ≡ (hs_rss w.lo_dword).hdr_info / 2 ^ 5 % 2 ^ 9)
        × (get_rss_hash get_bits m ≡ w.hi_dword.bytes % 2 ^ 31)
        × (get_ext_status get_bits m ≡ w.status_error % 2 ^ 19)
        × (get_ext_error get_bits m ≡ w.status_error / 2 ^ 20 % 2 ^ 11)
        × (packet_length get_bits m ≡ w.length % 2 ^ 15)
        × (get_vlan_tag get_bits m ≡ w.vlan % 2 ^ 15)
  unfolding get_packet_type get_hdr_len get_rss_hash get_ext_status get_ext_error packet_length
      get_vlan_tag rx_write hs_rss
  methods-rx_write d = (
    low_bits d 4 16 (omega arith) (omega arith) ∙ omega arith,
    low_bits d 21 30 (omega arith) (omega arith) ∙ omega arith,
    low_bits d 32 63 (omega arith) (omega arith) ∙ omega arith,
    high_bits d 0 19 (omega arith) (omega arith) ∙ omega arith,
    high_bits d 20 31 (omega arith) (omega arith) ∙ omega arith,
    high_bits d 32 47 (omega arith) (omega arith) ∙ omega arith,
    high_bits d 48 63 (omega arith) (omega arith) ∙ omega arith,
  )
