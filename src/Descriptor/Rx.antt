-- ===== src/Descriptor/Rx.antt =====
-- src/descriptor.rs, `AdvancedRxDescriptor`. The device writes back into the two words that the
-- driver gives it. `get_bits` of the bit_field crate is a parameter of the methods that read it.
pub mod Fields
use igb_driver.Prelude.{ℕ, ◌-◌, ◌/◌, ◌%◌, ◌^◌, ◌≤◌, ◌<◌, ◌≡◌, bit_and, ◌==◌, Bool}

abbrev pub rx_status_dd : ℕ
rx_status_dd = 2 ^ 0

abbrev pub rx_status_eop : ℕ
rx_status_eop = 2 ^ 1

pub record AdvancedRxDescriptor : Type 0 where
  pub packet_buffer_address : ℕ
  pub header_buffer_address : ℕ

-- The documented behaviour of `v.get_bits(a..b)` on a `u64`: bits `a` up to `b`, without bit `b`.
pub record IsGetBits (get_bits : ℕ → ℕ → ℕ → ℕ) : Type 0 where
  pub range : (v a b : ℕ) → a < b → b ≤ 64 → v < 2 ^ 64 → get_bits v a b ≡ v / 2 ^ a % 2 ^ (b - a)

unfoldable pub init : AdvancedRxDescriptor → AdvancedRxDescriptor
init d = record d { packet_buffer_address = 0; header_buffer_address = 0 }

unfoldable pub set_packet_address : ℕ → AdvancedRxDescriptor → AdvancedRxDescriptor
set_packet_address a d = record d { packet_buffer_address = a }

unfoldable pub reset_status : AdvancedRxDescriptor → AdvancedRxDescriptor
reset_status d = record d { header_buffer_address = 0 }

module _ (get_bits : ℕ → ℕ → ℕ → ℕ) (d : AdvancedRxDescriptor) where
  unfoldable pub get_rss_type : ℕ
  get_rss_type = get_bits d.packet_buffer_address 0 3

  unfoldable pub get_packet_type : ℕ
  get_packet_type = get_bits d.packet_buffer_address 4 16

  unfoldable pub get_rsccnt : ℕ
  get_rsccnt = get_bits d.packet_buffer_address 17 20

  unfoldable pub get_hdr_len : ℕ
  get_hdr_len = get_bits d.packet_buffer_address 21 30

  unfoldable pub get_rss_hash : ℕ
  get_rss_hash = get_bits d.packet_buffer_address 32 63

  unfoldable pub get_fdf_id : ℕ
  get_fdf_id = get_bits d.packet_buffer_address 32 63

  unfoldable pub get_ext_status : ℕ
  get_ext_status = get_bits d.header_buffer_address 0 19

  unfoldable pub get_ext_error : ℕ
  get_ext_error = get_bits d.header_buffer_address 20 31

  unfoldable pub get_pkt_len : ℕ
  get_pkt_len = get_bits d.header_buffer_address 32 47

  unfoldable pub get_vlan_tag : ℕ
  get_vlan_tag = get_bits d.header_buffer_address 48 63

  unfoldable pub descriptor_done : Bool
  unfolding get_ext_status
  descriptor_done = bit_and get_ext_status rx_status_dd == rx_status_dd

  unfoldable pub end_of_packet : Bool
  unfolding get_ext_status
  end_of_packet = bit_and get_ext_status rx_status_eop == rx_status_eop

  unfoldable pub packet_length : ℕ
  unfolding get_pkt_len
  packet_length = get_pkt_len
