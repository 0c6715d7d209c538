-- ===== src/Registers/Delay.antt =====
-- src/constants.rs, the delay values of flow control and the conversion of bit times. The driver does not
-- use them. The arguments are a `u32`, and so are the sums and products, which wrap as in a release build.
use igb_driver.Prelude.{ℕ, ◌+◌, ◌*◌, ◌-◌, ◌/◌, ◌%◌, ◌^◌, ◌≤◌, ◌<◌, ◌≡◌, ◌≢◌, arith}

abbrev pub igb_pfc_d : ℕ
igb_pfc_d = 672

abbrev pub igb_cable_dc : ℕ
igb_cable_dc = 5556

abbrev pub igb_cable_do : ℕ
igb_cable_do = 5000

abbrev pub igb_phy_dc : ℕ
igb_phy_dc = 25600

abbrev pub igb_mac_dc : ℕ
igb_mac_dc = 8192

abbrev pub igb_xaui_dc : ℕ
igb_xaui_dc = 2 * 2048

abbrev pub igb_id_x540 : ℕ
igb_id_x540 = igb_mac_dc + igb_xaui_dc + igb_phy_dc

abbrev pub igb_phy_d : ℕ
igb_phy_d = 12800

abbrev pub igb_mac_d : ℕ
igb_mac_d = 4096

abbrev pub igb_xaui_d : ℕ
igb_xaui_d = 2 * 1024

abbrev pub igb_id : ℕ
igb_id = igb_mac_d + igb_xaui_d + igb_phy_d

abbrev pub igb_hd : ℕ
igb_hd = 6144

abbrev pub igb_pci_delay : ℕ
igb_pci_delay = 10000

unfoldable pub igb_bt2kb : ℕ → ℕ
igb_bt2kb bt = (bt + (8 * 1024 - 1)) % 2 ^ 32 / 8 * 1024 % 2 ^ 32

unfoldable pub igb_b2bt : ℕ → ℕ
igb_b2bt bt = bt * 8 % 2 ^ 32

-- Every term of the sums is taken modulo `2 ^ 32`, which a sum of them that wraps at each step is too.
unfoldable pub igb_dv_x540 : ℕ → ℕ → ℕ
unfolding igb_b2bt
igb_dv_x540 max_frame_link max_frame_tc =
    (36
        * ((igb_b2bt max_frame_link + igb_pfc_d + 2 * igb_cable_dc + 2 * igb_id_x540 + igb_hd)
            % 2 ^ 32)
        % 2 ^ 32
        / 25
      + 1
      + 2 * igb_b2bt max_frame_tc)
    % 2 ^ 32

unfoldable pub igb_dv : ℕ → ℕ → ℕ
unfolding igb_b2bt
igb_dv max_frame_link max_frame_tc =
    (36
        * ((igb_b2bt max_frame_link + igb_pfc_d + 2 * igb_cable_dc + 2 * igb_id + igb_hd) % 2 ^ 32)
        % 2 ^ 32
        / 25
      + 1
      + 2 * igb_b2bt max_frame_tc)
    % 2 ^ 32

unfoldable pub igb_low_dv_x540 : ℕ → ℕ
unfolding igb_b2bt
igb_low_dv_x540 max_frame_tc = (2 * igb_b2bt max_frame_tc + 36 * igb_pci_delay / 25 + 1) % 2 ^ 32

unfoldable pub igb_low_dv : ℕ → ℕ
unfolding igb_low_dv_x540
igb_low_dv max_frame_tc = 2 * igb_low_dv_x540 max_frame_tc % 2 ^ 32

-- `IGB_BT2KB` does not convert bit times to kilobytes: up to `2 ^ 25 - 8192` bit times, the kilobytes that
-- hold them, rounded up, are the result without its lowest 20 bits, so that the result is never the number
-- of kilobytes, and at least a million times as many for a single bit time.
pub igb_bt2kb-kilobytes :
    (bt : ℕ)
    → bt ≤ 2 ^ 25 - 8192
    → let kilobytes = igb_bt2kb bt / 2 ^ 20 in
      (bt ≤ kilobytes * 8192) × (kilobytes * 8192 < bt + 8192) × (igb_bt2kb bt ≢ kilobytes)
unfolding igb_bt2kb
igb_bt2kb-kilobytes bt h = (omega (arith, h), omega (arith, h), λ e. omega (arith, h, e))

-- For frames of up to `2 ^ 16` bytes the delay value covers what it is made of: 36 parts in 25 of the time
-- that a frame, the pause frame, the cable and the interfaces take, and two frames of the traffic class; it
-- exceeds that by one bit time at most. And the low threshold that is given for the 82599 is twice that
-- which is given for the X540.
pub igb_dv_lem :
    (link tc : ℕ)
    → link ≤ 2 ^ 16
    → tc ≤ 2 ^ 16
    → let taken = 8 * link + 672 + 2 * 5556 + 2 * 18944 + 6144 in
      (36 * taken < 25 * (igb_dv link tc - 16 * tc))
      × (25 * (igb_dv link tc - 16 * tc) ≤ 36 * taken + 25)
      × (igb_dv link tc ≤ igb_dv_x540 link tc)
      × (igb_low_dv tc ≡ 2 * (16 * tc + 14401))
unfolding igb_dv igb_dv_x540 igb_low_dv igb_low_dv_x540 igb_b2bt
igb_dv_lem link tc h h' =
    (omega (arith, h, h'), omega (arith, h, h'), omega (arith, h, h'), omega (arith, h, h'))
