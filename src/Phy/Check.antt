-- ===== src/Phy/Check.antt =====
-- The packet check of src/osdp_phy.c (phy_check_packet, osdp_phy_check_packet): integrity, address and
-- sequence number, and the repeat of a cached reply.
pub mod Integrity
pub mod Accept
pub mod Fresh
use libosdp.Common.{
  ℕ, zero, suc, ◌+◌, ◌-◌, ◌*◌, ◌%◌, ◌⊎◌, inl, inr, Bool, true, false, not, ◌&&◌, ◌||◌, Option, none,
  some, List, [], ◌∷◌, ltb, leb, ◌==◌, if◌then◌else◌, length, drop, take, u16, u8, ℤ, pos, negsuc,
}
use libosdp.Bytes.{byte_at}
use libosdp.Metrics.{packet_received, packet_check_error}
use libosdp.Device.{
  Device, Flags, is_pd_mode, is_cp_mode, reply_nak, reply_busy, nak_seq_num, report_metric,
  sc_deactivate,
}
use libosdp.Phy.{
  PktError, err_fmt, err_skip, err_check, err_busy, err_nack, header_size, pd_address_of,
  control_of, data_of, has_crc, has_scb, mark_len,
}
use libosdp.Phy.Sequence.{get_next_seq_number, rollback_seq_number, reset_seq_number}
use libosdp.Phy.Checksum.{compute_checksum}
use libosdp.Phy.Framer.{channel_receive, frame_packet}

-- `comp == pd->seq_number`
abbrev pub is_seq : ℤ → ℕ → Bool
is_seq (pos n) k = n == k
is_seq (negsuc n) k = false

-- The length that is left once the CRC or the checksum is taken off.
abbrev pub checked_len : List ℕ → ℕ → ℕ
checked_len pkt pkt_len = pkt_len - (if has_crc pkt then 2 else 1)

-- The CRC or the checksum of the `pkt_len` bytes of `pkt`.
unfoldable pub is_intact : (List ℕ → ℕ) → List ℕ → ℕ → Bool
is_intact crc16 pkt pkt_len =
    if has_crc pkt
    then u16 (crc16 (take (pkt_len - 2) pkt))
      == byte_at pkt (pkt_len - 2 + 1) * 256 + byte_at pkt (pkt_len - 2)
    else compute_checksum pkt (pkt_len - 1) == byte_at pkt (pkt_len - 1)

-- The last test: the sequence number must be the one expected next.
unfoldable pub check_seq : Device → ℕ → Option PktError × Device
check_seq pd comp =
    if not (is_seq (get_next_seq_number pd) comp) && not pd.flags.skip_seq_check
    then (some err_nack, record pd { reply_id = reply_nak; nak_code = nak_seq_num })
    else (none, pd)

abbrev pub note_broadcast : Device → ℕ → Device
note_broadcast pd pd_addr =
    if pd_addr == 0x7F then record pd { flags = record pd.flags { pkt_broadcast = true } } else pd

-- The ID of the command in the packet, after its security block.
abbrev pub rx_cmd_id : List ℕ → ℕ
rx_cmd_id pkt = byte_at pkt (header_size + (if has_scb pkt then data_of pkt 0 else 0))

-- On a PD: a restart, a repeat or the next packet. The third part is the bytes that are sent again,
-- if any.
unfoldable pub check_pd : Device → List ℕ → ℕ → ℕ → (Option PktError × Device) × Option (List ℕ)
check_pd pd pkt pd_addr comp =
    let restarted = sc_deactivate (record (reset_seq_number pd) { last_tx_len = 0 }) in
    let dropped = rollback_seq_number (record pd { last_tx_len = 0 }) in
    if comp == 0
    then (check_seq (note_broadcast restarted pd_addr) comp, none)
    else if is_seq pd.seq_number comp
    then if ltb 0 pd.last_tx_len && rx_cmd_id pkt == pd.last_cmd_id
      then ((some err_skip, pd), some (take pd.last_tx_len pd.tx_buf))
      else (check_seq (note_broadcast dropped pd_addr) comp, none)
    else (check_seq (note_broadcast pd pd_addr) comp, none)

-- On a CP: `pkt_len` is the length without the CRC or checksum.
unfoldable pub check_cp : Device → List ℕ → ℕ → ℕ → Option PktError × Device
check_cp pd pkt pkt_len comp =
    if comp == 0 && (pkt_len == 6 && (data_of pkt 0 == reply_busy && not (has_scb pkt)))
    then (some err_busy, pd)
    else check_seq pd comp

module _ (crc16 : List ℕ → ℕ) where
  -- phy_check_packet on the packet without its mark byte; `none` is OSDP_ERR_PKT_NONE.
  unfoldable pub check_unmarked : Device → List ℕ → ℕ → (Option PktError × Device) × Option (List ℕ)
  check_unmarked pd pkt pkt_len =
      let pd1 = report_metric pd packet_received in
      let pd_addr = pd_address_of pkt % 128 in
      let comp = control_of pkt % 4 in
      if not (is_intact crc16 pkt pkt_len)
      then ((some err_fmt, report_metric pd1 packet_check_error), none)
      else if not (pd_addr == pd.address) && not (pd_addr == 0x7F)
      then ((some (if is_cp_mode pd then err_check else err_skip), pd1), none)
      else if is_pd_mode pd
      then check_pd pd1 pkt pd_addr comp
      else (check_cp pd1 pkt (checked_len pkt pkt_len) comp, none)

  unfoldable pub check_packet : Device → List ℕ → ℕ → (Option PktError × Device) × Option (List ℕ)
  check_packet pd buf pkt_len = check_unmarked pd (drop (mark_len pd) buf) (pkt_len - mark_len pd)

  unfoldable pub on_frame : Option PktError × Device → (Option PktError × Device) × Option (List ℕ)
  on_frame (some err, pd) = ((some err, pd), none)
  on_frame (none, pd) = check_packet pd pd.packet_buf pd.packet_len

  -- osdp_phy_check_packet: `calls` are the channel's answers.
  unfoldable pub phy_check_packet :
      Device → List (List ℕ) → ℕ → (Option PktError × Device) × Option (List ℕ)
  phy_check_packet pd calls now =
      let (received, pd') = channel_receive calls pd 0 in on_frame (frame_packet pd' received now)
