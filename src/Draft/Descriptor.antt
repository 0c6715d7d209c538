-- ===== src/Draft/Descriptor.antt =====
-- doc/main/descriptor.rs: the descriptors of the draft. A union is the number that its bytes make, the
-- first byte lowest, as on the machines of the card; its views take that number apart.
pub mod Views
pub mod Fields
use igb_driver.Prelude.{ℕ, ◌+◌, ◌*◌, ◌/◌, ◌%◌, ◌^◌, ◌<◌}

pub record AdvTxDescRead : Type 0 where
  pub buffer_addr : ℕ
  pub cmd_type_len : ℕ
  pub olinfo_status : ℕ

pub record AdvTxDescWb : Type 0 where
  pub rsvd : ℕ
  pub nxtseq_seed : ℕ
  pub status : ℕ

-- A union of 16 bytes.
pub record AdvTxDesc : Type 0 where
  pub bytes : ℕ

pub record HsRss : Type 0 where
  pub pkt_info : ℕ
  pub hdr_info : ℕ

pub record CsumIp : Type 0 where
  pub ip_id : ℕ
  pub csum : ℕ

-- Unions of 4 bytes.
pub record LoDword : Type 0 where
  pub bytes : ℕ

pub record HiDword : Type 0 where
  pub bytes : ℕ

pub record AdvRxDescRead : Type 0 where
  pub pkt_addr : ℕ
  pub hdr_addr : ℕ

pub record AdvRxDescWb : Type 0 where
  pub lo_dword : LoDword
  pub hi_dword : HiDword
  pub status_error : ℕ
  pub length : ℕ
  pub vlan : ℕ

-- A union of 16 bytes.
pub record AdvRxDesc : Type 0 where
  pub bytes : ℕ

module _ (d : AdvTxDesc) where
  -- The field `read` of `AdvTxDesc`.
  unfoldable pub tx_read : AdvTxDescRead
  tx_read = record {
    buffer_addr = d.bytes % 2 ^ 64;
    cmd_type_len = d.bytes / 2 ^ 64 % 2 ^ 32;
    olinfo_status = d.bytes / 2 ^ 96 % 2 ^ 32;
  }

  -- The field `write` of `AdvTxDesc`.
  unfoldable pub tx_write : AdvTxDescWb
  tx_write = record {
    rsvd = d.bytes % 2 ^ 64;
    nxtseq_seed = d.bytes / 2 ^ 64 % 2 ^ 32;
    status = d.bytes / 2 ^ 96 % 2 ^ 32;
  }

module _ (d : AdvRxDesc) where
  -- The field `read` of `AdvRxDesc`.
  unfoldable pub rx_read : AdvRxDescRead
  rx_read = record { pkt_addr = d.bytes % 2 ^ 64; hdr_addr = d.bytes / 2 ^ 64 % 2 ^ 64 }

  -- The field `write` of `AdvRxDesc`.
  unfoldable pub rx_write : AdvRxDescWb
  rx_write = record {
    lo_dword = record { bytes = d.bytes % 2 ^ 32 };
    hi_dword = record { bytes = d.bytes / 2 ^ 32 % 2 ^ 32 };
    status_error = d.bytes / 2 ^ 64 % 2 ^ 32;
    length = d.bytes / 2 ^ 96 % 2 ^ 16;
    vlan = d.bytes / 2 ^ 112 % 2 ^ 16;
  }

-- The field `hs_rss` of `LoDword`.
unfoldable pub hs_rss : LoDword → HsRss
hs_rss w = record { pkt_info = w.bytes % 2 ^ 16; hdr_info = w.bytes / 2 ^ 16 % 2 ^ 16 }

-- The field `csum_ip` of `HiDword`.
unfoldable pub csum_ip : HiDword → CsumIp
csum_ip w = record { ip_id = w.bytes % 2 ^ 16; csum = w.bytes / 2 ^ 16 % 2 ^ 16 }

-- The descriptors that the driver makes for the card, by the field `read`.
unfoldable pub of_tx_read : AdvTxDescRead → AdvTxDesc
of_tx_read r = record { bytes = r.buffer_addr + r.cmd_type_len * 2 ^ 64 + r.olinfo_status * 2 ^ 96 }

unfoldable pub of_rx_read : AdvRxDescRead → AdvRxDesc
of_rx_read r = record { bytes = r.pkt_addr + r.hdr_addr * 2 ^ 64 }

-- The descriptor that the card writes back, by the field `write`.
unfoldable pub of_rx_write : AdvRxDescWb → AdvRxDesc
of_rx_write r = record {
  bytes =
      r.lo_dword.bytes
      + r.hi_dword.bytes * 2 ^ 32
      + r.status_error * 2 ^ 64
      + r.length * 2 ^ 96
      + r.vlan * 2 ^ 112;
}
