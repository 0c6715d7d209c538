-- ===== src/Descriptor/Tx.antt =====
-- src/descriptor.rs, `AdvancedTxDescriptor`.
pub mod Fields
use igb_driver.Prelude.{ℕ, zero, suc, ◌*◌, ◌^◌, bit_and, bit_or, ◌==◌, Bool, true, false}
use igb_driver.Word.{as_u8, shl_u32}

abbrev pub tx_cmd_eop : ℕ
tx_cmd_eop = 2 ^ 0

abbrev pub tx_cmd_ifcs : ℕ
tx_cmd_ifcs = 2 ^ 1

abbrev pub tx_cmd_rs : ℕ
tx_cmd_rs = 2 ^ 3

abbrev pub tx_cmd_dext : ℕ
tx_cmd_dext = 2 ^ 5

abbrev pub tx_status_dd : ℕ
tx_status_dd = 2 ^ 0

abbrev pub tx_dtyp_adv : ℕ
tx_dtyp_adv = 0x3 * 2 ^ 4

-- 46 - 32
abbrev pub tx_paylen_shift : ℕ
tx_paylen_shift = 14

pub record AdvancedTxDescriptor : Type 0 where
  pub packet_buffer_address : ℕ
  pub data_len : ℕ
  pub dtyp_mac_rsv : ℕ
  pub dcmd : ℕ
  pub paylen_popts_cc_idx_sta : ℕ

unfoldable pub init : AdvancedTxDescriptor → AdvancedTxDescriptor
init d = record d {
  packet_buffer_address = 0;
  paylen_popts_cc_idx_sta = 0;
  dcmd = 0;
  dtyp_mac_rsv = 0;
  data_len = 0;
}

-- The length is a `u16`.
unfoldable pub send : ℕ → ℕ → AdvancedTxDescriptor → AdvancedTxDescriptor
send address len d = record d {
  packet_buffer_address = address;
  data_len = len;
  dtyp_mac_rsv = tx_dtyp_adv;
  paylen_popts_cc_idx_sta = shl_u32 len tx_paylen_shift;
  dcmd = bit_or (bit_or (bit_or tx_cmd_dext tx_cmd_rs) tx_cmd_ifcs) tx_cmd_eop;
}

-- The polling loop: `status k` is what the `k`th read of the status word finds. The result says
-- whether the loop has ended within the fuel.
unfoldable pub wait_for_packet_tx : (ℕ → ℕ) → ℕ → ℕ → Bool
wait_for_packet_tx status zero k = false
wait_for_packet_tx status (suc fuel) k = elim (bit_and (as_u8 (status k)) tx_status_dd == 0) [
  | true ↦ wait_for_packet_tx status fuel (suc k)
  | false ↦ true
]
