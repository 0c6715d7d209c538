-- ===== src/Descriptor/Tx/Fields.antt =====
-- What `send` writes, and when the polling of a transmit descriptor ends.
use igb_driver.Prelude.{
  ℕ, zero, suc, ◌+◌, ◌*◌, ◌/◌, ◌%◌, ◌^◌, ◌≤◌, ◌<◌, ◌≡◌, ◌≢◌, refl, ap, true, false, bit_and, ◌==◌,
  arith, inl, inr, Bool-cases, ==_iff,
}
use igb_driver.Prelude.Masks.{bit_and-one}
use igb_driver.Word.{as_u8}
use igb_driver.Descriptor.Tx.{
  AdvancedTxDescriptor, send, wait_for_packet_tx, tx_status_dd, tx_cmd_eop, tx_cmd_rs, tx_dtyp_adv,
}

-- A descriptor that `send` fills has the buffer's address, the length both as buffer length and as
-- payload length in bits 31:14, the advanced type, a command that asks for a status report and ends
-- the packet, and a status that is not done.
pub send_lem :
    (address len : ℕ) (d : AdvancedTxDescriptor)
    → len < 2 ^ 16
    → let r = send address len d in
      (r.packet_buffer_address ≡ address)
      × (r.data_len ≡ len)
      × (r.paylen_popts_cc_idx_sta / 2 ^ 14 ≡ len)
      × (bit_and r.paylen_popts_cc_idx_sta tx_status_dd ≡ 0)
      × (bit_and r.dcmd tx_cmd_rs ≡ tx_cmd_rs)
      × (bit_and r.dcmd tx_cmd_eop ≡ tx_cmd_eop)
      × (r.dtyp_mac_rsv ≡ tx_dtyp_adv)
unfolding send
send_lem address len d h =
    (refl, refl, omega arith, omega (arith, bit_and-one (len * 2 ^ 14 % 2 ^ 32)), refl, refl, refl)

wait-ends :
    (status : ℕ → ℕ) (fuel k j : ℕ)
    → k ≤ j
    → j < k + fuel
    → status j % 2 ≡ 1
    → wait_for_packet_tx status fuel k ≡ true
unfolding wait_for_packet_tx
wait-ends status zero k j l h e = absurd (omega arith)
wait-ends status (suc fuel) k j l h e =
    elim (Bool-cases (bit_and (as_u8 (status k)) tx_status_dd == 0)) [
      | inl more ↦
          let differ : k ≢ j =
            λ q. omega (arith, (==_iff _ _).0 more, bit_and-one (as_u8 (status k)), ap status q) in
          rw (more, wait_for_packet_tx)
            (wait-ends status fuel (suc k) j (omega arith) (omega arith) e)
      | inr done ↦ rw (done, wait_for_packet_tx)
    ]

wait-goes_on :
    (status : ℕ → ℕ) (fuel k : ℕ)
    → ((j : ℕ) → status j % 2 ≡ 0)
    → wait_for_packet_tx status fuel k ≡ false
unfolding wait_for_packet_tx
wait-goes_on status zero k h = refl
wait-goes_on status (suc fuel) k h =
    let more : (bit_and (as_u8 (status k)) tx_status_dd == 0) ≡ true =
      (==_iff _ _).1 (omega (arith, h k, bit_and-one (as_u8 (status k)))) in
    rw (more, wait_for_packet_tx) (wait-goes_on status fuel (suc k) h)

-- The polling ends as soon as the device has reported the packet: it ends within the fuel if one of
-- so many reads finds the descriptor done, and it never ends on a device that reports nothing.
pub wait_for_packet_tx-ends :
    (status : ℕ → ℕ) (fuel : ℕ)
    → ((j : ℕ) → j < fuel → status j % 2 ≡ 1 → wait_for_packet_tx status fuel 0 ≡ true)
      × (((j : ℕ) → status j % 2 ≡ 0) → wait_for_packet_tx status fuel 0 ≡ false)
wait_for_packet_tx-ends status fuel =
    ((λ j h e. wait-ends status fuel 0 j (omega arith) (omega arith) e), wait-goes_on status fuel 0)
