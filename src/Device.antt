-- ===== src/Device.antt =====
-- The part of `struct osdp_pd` (src/osdp_common.h) that the packet layer and the secure channel
-- work on, with the helpers of that header: the flag tests and the protocol's constants. Each bit of
-- `flags` is a field, so ISSET_FLAG reads a field, and SET_FLAG and CLEAR_FLAG write it.
pub mod Sample
use libosdp.Common.{ℕ, ℤ, Bool, true, false, not, ◌&&◌, ◌||◌, List, ltb, ◌==◌, if◌then◌else◌}
use libosdp.Metrics.{Metrics, Event, report, sc_handshake, sc_failure}
use libosdp.RingBuffer.{RingBuffer}

pub record Flags : Type 0 where
  pub sc_capable : Bool
  pub skip_seq_check : Bool
  pub sc_use_scbkd : Bool
  pub sc_active : Bool
  pub pd_mode : Bool
  pub pkt_skip_mark : Bool
  pub pkt_has_mark : Bool
  pub sc_disabled : Bool
  pub pkt_broadcast : Bool
  pub cp_use_crc : Bool
  pub enforce_secure : Bool
  pub install_mode : Bool
  pub allow_empty_edb : Bool

-- struct osdp_secure_channel; each key is 16 bytes, each random number and the UID 8.
pub record ScContext : Type 0 where
  pub scbk : List ℕ
  pub s_enc : List ℕ
  pub s_mac1 : List ℕ
  pub s_mac2 : List ℕ
  pub r_mac : List ℕ
  pub c_mac : List ℕ
  pub cp_random : List ℕ
  pub pd_random : List ℕ
  pub pd_client_uid : List ℕ
  pub cp_cryptogram : List ℕ
  pub pd_cryptogram : List ℕ

-- struct osdp_pd_id, less the firmware version
pub record PdId : Type 0 where
  pub version : ℕ
  pub model : ℕ
  pub vendor_code : ℕ
  pub serial_number : ℕ

-- `tx_buf` is the staging buffer of the context, `osdp_tx_staging_buf(pd)`.
pub record Device : Type 0 where
  pub flags : Flags
  pub address : ℕ
  pub seq_number : ℤ
  pub id : PdId
  pub phy_state : ℕ
  pub phy_retry_count : ℕ
  pub phy_tx_seq : ℕ
  pub tstamp : ℕ
  pub peer_rx_size : ℕ
  pub rx_rb : RingBuffer
  pub packet_buf : List ℕ
  pub packet_len : ℕ
  pub packet_buf_len : ℕ
  pub packet_scan_skip : ℕ
  pub tx_buf : List ℕ
  pub last_tx_len : ℕ
  pub last_cmd_id : ℕ
  pub cmd_id : ℕ
  pub reply_id : ℕ
  pub nak_code : ℕ
  pub sc : ScContext
  pub metrics : Metrics

-- OSDP_PACKET_BUF_SIZE, OSDP_MINIMUM_PACKET_SIZE
abbrev pub packet_buf_size : ℕ
packet_buf_size = 256

abbrev pub minimum_packet_size : ℕ
minimum_packet_size = 128

abbrev pub is_pd_mode : Device → Bool
is_pd_mode pd = pd.flags.pd_mode

abbrev pub is_cp_mode : Device → Bool
is_cp_mode pd = not pd.flags.pd_mode

abbrev pub packet_has_mark : Device → Bool
packet_has_mark pd = pd.flags.pkt_has_mark

abbrev pub sc_is_active : Device → Bool
sc_is_active pd = pd.flags.sc_active

abbrev pub sc_is_capable : Device → Bool
sc_is_capable pd = pd.flags.sc_capable && not pd.flags.sc_disabled

abbrev pub is_enforce_secure : Device → Bool
is_enforce_secure pd = pd.flags.enforce_secure

abbrev pub is_install_mode : Device → Bool
is_install_mode pd = pd.flags.install_mode

unfoldable pub get_tx_buf_size : Device → ℕ
get_tx_buf_size pd =
    if not (pd.peer_rx_size == 0) && ltb pd.peer_rx_size packet_buf_size
    then pd.peer_rx_size
    else packet_buf_size

-- The CMD_*, REPLY_*, OSDP_PD_NAK_* and SCS_* values that the packet layer tests or sets.
abbrev pub cmd_keyset : ℕ
cmd_keyset = 0x75

abbrev pub cmd_chlng : ℕ
cmd_chlng = 0x76

abbrev pub cmd_scrypt : ℕ
cmd_scrypt = 0x77

abbrev pub reply_ack : ℕ
reply_ack = 0x40

abbrev pub reply_nak : ℕ
reply_nak = 0x41

abbrev pub reply_ccrypt : ℕ
reply_ccrypt = 0x76

abbrev pub reply_rmac_i : ℕ
reply_rmac_i = 0x78

abbrev pub reply_busy : ℕ
reply_busy = 0x79

abbrev pub nak_seq_num : ℕ
nak_seq_num = 4

abbrev pub nak_sc_unsup : ℕ
nak_sc_unsup = 5

abbrev pub nak_sc_cond : ℕ
nak_sc_cond = 6

abbrev pub scs_11 : ℕ
scs_11 = 0x11

abbrev pub scs_13 : ℕ
scs_13 = 0x13

abbrev pub scs_14 : ℕ
scs_14 = 0x14

abbrev pub scs_15 : ℕ
scs_15 = 0x15

abbrev pub scs_17 : ℕ
scs_17 = 0x17

abbrev pub scs_18 : ℕ
scs_18 = 0x18

unfoldable pub report_metric : Device → Event → Device
report_metric pd ev = record pd { metrics = report pd.metrics ev }

-- sc_activate, sc_deactivate; the teardown of the cryptography library keeps no state here.
unfoldable pub sc_activate : Device → Device
unfolding report_metric
sc_activate pd =
    report_metric (record pd { flags = record pd.flags { sc_active = true } }) sc_handshake

unfoldable pub sc_deactivate : Device → Device
unfolding report_metric
sc_deactivate pd =
    let pd' = if sc_is_active pd then report_metric pd sc_failure else pd in
    record pd' { flags = record pd'.flags { sc_active = false }; last_tx_len = 0 }
