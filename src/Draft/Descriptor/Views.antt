-- ===== src/Draft/Descriptor/Views.antt =====
-- The two views of a receive descriptor (doc/main/descriptor.rs) show the same 16 bytes.
use mathlib.Core.Equiv.{IsEquiv, iso_to_equiv}
use mathlib.Core.HLevel.{Σ_prop_path}
use native.Mathlib.Bridge.{le_prop}
use igb_driver.Prelude.{ℕ, ◌+◌, ◌*◌, ◌/◌, ◌%◌, ◌^◌, ◌<◌, ◌≡◌, arith}
use igb_driver.Draft.Descriptor.{
  AdvRxDesc, AdvRxDescRead, AdvRxDescWb, rx_read, rx_write, of_rx_read, of_rx_write,
}

-- The values that the fields of the type can have.
abbrev pub IsDesc : AdvRxDesc → Type 0
IsDesc d = d.bytes < 2 ^ 128

abbrev pub IsRead : AdvRxDescRead → Type 0
IsRead r = (r.pkt_addr < 2 ^ 64) × (r.hdr_addr < 2 ^ 64)

abbrev pub IsWb : AdvRxDescWb → Type 0
IsWb r =
    (r.lo_dword.bytes < 2 ^ 32)
    × (r.hi_dword.bytes < 2 ^ 32)
    × (r.status_error < 2 ^ 32)
    × (r.length < 2 ^ 16)
    × (r.vlan < 2 ^ 16)

pub rx_read-IsRead : (d : AdvRxDesc) → IsRead (rx_read d)
unfolding rx_read
rx_read-IsRead d = (omega arith, omega arith)

pub rx_write-IsWb : (d : AdvRxDesc) → IsWb (rx_write d)
unfolding rx_write
rx_write-IsWb d = (omega arith, omega arith, omega arith, omega arith, omega arith)

of_rx_read-IsDesc : (r : AdvRxDescRead) → IsRead r → IsDesc (of_rx_read r)
unfolding of_rx_read
of_rx_read-IsDesc r v = omega (arith, v.0, v.1)

of_rx_write-IsDesc : (r : AdvRxDescWb) → IsWb r → IsDesc (of_rx_write r)
unfolding of_rx_write
of_rx_write-IsDesc r v = omega (arith, v.0, v.1, v.2, v.3, v.4)

-- Writing a view and reading it again, and the other way round.
rx_read-of_rx_read : (r : AdvRxDescRead) → IsRead r → rx_read (of_rx_read r) ≡ r
unfolding rx_read of_rx_read
rx_read-of_rx_read r v =
    let bytes : ℕ = r.pkt_addr + r.hdr_addr * 2 ^ 64 in
    let low : bytes % 2 ^ 64 ≡ r.pkt_addr = omega (arith, v.0) in
    let high : bytes / 2 ^ 64 % 2 ^ 64 ≡ r.hdr_addr = omega (arith, v.0, v.1) in
    λ i. record { pkt_addr = low i; hdr_addr = high i }

of_rx_read-rx_read : (d : AdvRxDesc) → IsDesc d → of_rx_read (rx_read d) ≡ d
unfolding rx_read of_rx_read
of_rx_read-rx_read d h =
    let same : d.bytes % 2 ^ 64 + d.bytes / 2 ^ 64 % 2 ^ 64 * 2 ^ 64 ≡ d.bytes = omega arith in
    λ i. record { bytes = same i }

rx_write-of_rx_write : (r : AdvRxDescWb) → IsWb r → rx_write (of_rx_write r) ≡ r
unfolding rx_write of_rx_write
rx_write-of_rx_write r (hl, hh, hs, hn, hv) =
    let bytes : ℕ =
      r.lo_dword.bytes
      + r.hi_dword.bytes * 2 ^ 32
      + r.status_error * 2 ^ 64
      + r.length * 2 ^ 96
      + r.vlan * 2 ^ 112 in
    let lo : bytes % 2 ^ 32 ≡ r.lo_dword.bytes = omega arith in
    let hi : bytes / 2 ^ 32 % 2 ^ 32 ≡ r.hi_dword.bytes = omega arith in
    let status : bytes / 2 ^ 64 % 2 ^ 32 ≡ r.status_error = omega arith in
    let len : bytes / 2 ^ 96 % 2 ^ 16 ≡ r.length = omega arith in
    let vlan : bytes / 2 ^ 112 % 2 ^ 16 ≡ r.vlan = omega arith in
    λ i. record {
      lo_dword = record { bytes = lo i };
      hi_dword = record { bytes = hi i };
      status_error = status i;
      length = len i;
      vlan = vlan i;
    }

of_rx_write-rx_write : (d : AdvRxDesc) → IsDesc d → of_rx_write (rx_write d) ≡ d
unfolding rx_write of_rx_write
of_rx_write-rx_write d h =
    let same : d.bytes % 2 ^ 32
          + d.bytes / 2 ^ 32 % 2 ^ 32 * 2 ^ 32
          + d.bytes / 2 ^ 64 % 2 ^ 32 * 2 ^ 64
          + d.bytes / 2 ^ 96 % 2 ^ 16 * 2 ^ 96
          + d.bytes / 2 ^ 112 % 2 ^ 16 * 2 ^ 112
        ≡ d.bytes =
      omega arith in
    λ i. record { bytes = same i }

abbrev pub Desc : Type 0
Desc = (d : AdvRxDesc) × IsDesc d

abbrev pub read_view : Desc → (r : AdvRxDescRead) × IsRead r
read_view (d, h) = (rx_read d, rx_read-IsRead d)

abbrev pub write_view : Desc → (r : AdvRxDescWb) × IsWb r
write_view (d, h) = (rx_write d, rx_write-IsWb d)

-- Each of the two views of a receive descriptor is an equivalence between the values of 16 bytes and the
-- values of its fields: what the driver or the card puts into one view is determined by, and determines,
-- what the other view shows, with no value of a field left out.
pub views-IsEquiv : IsEquiv read_view × IsEquiv write_view
views-IsEquiv = (
  (iso_to_equiv (record {
    fun = read_view;
    inv = λ (r, v). (of_rx_read r, of_rx_read-IsDesc r v);
    rinv = λ (r, v). Σ_prop_path (λ x. hlevel (le_prop)) (rx_read-of_rx_read r v);
    linv = λ (d, h). Σ_prop_path (λ x. hlevel (le_prop)) (of_rx_read-rx_read d h);
  })).1,
  (iso_to_equiv (record {
    fun = write_view;
    inv = λ (r, v). (of_rx_write r, of_rx_write-IsDesc r v);
    rinv = λ (r, v). Σ_prop_path (λ x. hlevel (le_prop)) (rx_write-of_rx_write r v);
    linv = λ (d, h). Σ_prop_path (λ x. hlevel (le_prop)) (of_rx_write-rx_write d h);
  })).1,
)
