-- ===== src/Tests/Registers.antt =====
-- Runs of the descriptors (src/descriptor.rs), the registers, the ring indices and the link (src/igb.rs).
use igb_driver.Prelude.{
  ℕ, ◌+◌, ◌*◌, ◌-◌, ◌/◌, ◌%◌, ◌^◌, ◌≤◌, ◌<◌, ◌≡◌, ◌≢◌, ◌⊎◌, refl, [], ◌∷◌, length, bit_or, arith,
}
use igb_driver.Prelude.Bits.{bit}
use igb_driver.Outcome.{Returns}
use igb_driver.Descriptor.Rx.{
  IsGetBits, get_packet_type, get_hdr_len, get_rss_hash, get_ext_status, get_ext_error,
  packet_length, get_vlan_tag,
}
use igb_driver.Draft.Descriptor.{AdvRxDesc, rx_write, hs_rss}
use igb_driver.Draft.Descriptor.Fields.{in_driver, methods-rx_write}
use igb_driver.Registers.{
  igb_tdbal, igb_tdbah, igb_status, igb_ral, igb_rah, igb_mdic, igb_ivar, igb_ivar_alloc_val,
}
use igb_driver.Registers.Delay.{igb_bt2kb, igb_bt2kb-kilobytes}
use igb_driver.Registers.Tables.{igb_saqf}
use igb_driver.Registers.Tables.Aligned.{igb_saqf-igb_tdbal}
use igb_driver.Device.{World, read, wrote}
use igb_driver.Device.Access.{at_trace}
use igb_driver.Link.{get_mac_addr, wait_for_link, init_link, read_command}
use igb_driver.Link.Speed.{Polled, wait_for_link-ends}
use igb_driver.Link.Address.{little_endian, AllBytes, get_mac_addr_lem}
use igb_driver.Link.Power.{init_link-powered_down}
use igb_driver.Interrupts.{set_ivar}
use igb_driver.Interrupts.Vectors.{set_ivar_lem}
use igb_driver.Tests.{card, slice_bits, rx_two, rx_world}

slice_bits-IsGetBits : IsGetBits slice_bits
slice_bits-IsGetBits = record { range = λ v a b h l w. refl }

abbrev world : World
world = rx_world rx_two

link_found :
    Returns
      (λ _ w'.
        (v : World) × Polled card 10 world v × (w' ≡ at_trace card v (read igb_status ∷ v.trace)))
      (wait_for_link card world)
link_found = wait_for_link-ends card world refl

address_of_card :
    Returns
      (λ mac w'.
        (length mac ≡ 6)
        × AllBytes mac
        × (little_endian mac ≡ 2 ^ 32 - 1 + 2 ^ 32 * ((2 ^ 32 - 1) % 2 ^ 16)))
      (get_mac_addr card world)
unfolding igb_ral igb_rah
address_of_card = get_mac_addr_lem card world refl refl (omega arith)

still_down :
    Returns
      (λ _ w'.
        (x : ℕ) × (w'.trace
          ≡ read igb_mdic
            ∷ wrote igb_mdic x
            ∷ read igb_mdic
            ∷ read igb_mdic
            ∷ read igb_mdic
            ∷ wrote igb_mdic (bit_or (2 ^ 32 - 1) read_command)
            ∷ read igb_mdic
            ∷ read igb_mdic
            ∷ [])
        × (bit 11 x ≡ bit 11 (2 ^ 32 - 1))
        × (bit 26 x ≡ 1)
        × (bit 27 x ≡ bit 27 (2 ^ 32 - 1)))
      (init_link card 1 world)
still_down = init_link-powered_down card 0 (2 ^ 32 - 1) world refl (λ t. refl) refl

-- The queue 3 receives on the vector 5.
vector_5 :
    Returns
      (λ _ w'.
        (x : ℕ) × (w' ≡ at_trace card world (wrote (igb_ivar 1) x ∷ read (igb_ivar 1) ∷ []))
        × ((i : ℕ) → i < 8 → bit (16 + i) x ≡ bit i (bit_or 5 igb_ivar_alloc_val))
        × ((i : ℕ) → i < 32 → (i < 16) ⊎ (24 ≤ i) → bit i x ≡ bit i (2 ^ 32 - 1)))
      (set_ivar card 0 3 5 world)
unfolding igb_ivar
vector_5 = set_ivar_lem card 0 3 5 world (omega arith) (omega arith) refl

filter_48 : (igb_saqf 48 ≡ igb_tdbal 3) × (igb_saqf 49 ≡ igb_tdbah 3)
filter_48 = igb_saqf-igb_tdbal 3

-- 10000 bit times are two kilobytes.
two_kilobytes :
    (10000 ≤ igb_bt2kb 10000 / 2 ^ 20 * 8192)
    × (igb_bt2kb 10000 / 2 ^ 20 * 8192 < 18192)
    × (igb_bt2kb 10000 ≢ igb_bt2kb 10000 / 2 ^ 20)
two_kilobytes = igb_bt2kb-kilobytes 10000 (omega arith)

-- A descriptor with 60 bytes, the status 3, the VLAN tag 5 and a packet type of 32.
abbrev written_60 : AdvRxDesc
written_60 = record { bytes = 32 * 2 ^ 4 + 3 * 2 ^ 64 + 60 * 2 ^ 96 + 5 * 2 ^ 112 }

methods_on_60 :
    let w = rx_write written_60 in
    let m = in_driver written_60 in
    (get_packet_type slice_bits m ≡ (hs_rss w.lo_dword).pkt_info / 2 ^ 4)
    × (get_hdr_len slice_bits m ≡ (hs_rss w.lo_dword).hdr_info / 2 ^ 5 % 2 ^ 9)
    × (get_rss_hash slice_bits m ≡ w.hi_dword.bytes % 2 ^ 31)
    × (get_ext_status slice_bits m ≡ w.status_error % 2 ^ 19)
    × (get_ext_error slice_bits m ≡ w.status_error / 2 ^ 20 % 2 ^ 11)
    × (packet_length slice_bits m ≡ w.length % 2 ^ 15)
    × (get_vlan_tag slice_bits m ≡ w.vlan % 2 ^ 15)
methods_on_60 = methods-rx_write slice_bits slice_bits-IsGetBits written_60
