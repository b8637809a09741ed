-- ===== src/Phy/Build.antt =====
-- Building a packet in src/osdp_phy.c: osdp_phy_packet_init, osdp_phy_finalize_packet and
-- osdp_phy_send_packet. `crc16` is CRC-16 over a list of bytes (osdp_compute_crc16), and the channel's
-- send callback is a parameter too: both stand outside of src/.
pub mod Finalize
pub mod Mark
use libosdp.Common.{
  ℕ, zero, suc, ◌+◌, ◌-◌, ◌*◌, ◌%◌, ◌⊎◌, inl, inr, Bool, true, false, not, ◌&&◌, ◌||◌, Option, none,
  some, List, [], ◌∷◌, ◌++◌, ltb, leb, ◌==◌, if◌then◌else◌, length, take, drop, set, splice, u8,
  u16, u8_ℤ, set_bit, has_bit, ℤ, pos, negsuc,
}
use libosdp.Bytes.{byte_at, byte_0, byte_1, bwrite_u16_le}
use libosdp.Metrics.{packet_sent}
use libosdp.Crypto.{Crypto}
use libosdp.SecureChannel.{aes_pad_len, encrypt_data, compute_mac}
use libosdp.Device.{
  Device, Flags, is_pd_mode, is_cp_mode, packet_has_mark, sc_is_active, minimum_packet_size,
  cmd_chlng, cmd_scrypt, reply_ccrypt, reply_rmac_i, reply_busy, scs_11, scs_15, scs_17, scs_18,
  report_metric,
}
use libosdp.Phy.{
  PktError, err_fmt, err_build, err_wait_tx, pkt_mark, pkt_som, header_size, control_crc,
  control_scb, som_of, control_of, data_of, set_len, has_crc, has_scb, mark_len, set_has_mark,
}
use libosdp.Phy.Sequence.{get_next_seq_number}
use libosdp.Phy.Checksum.{compute_checksum}

unfoldable pub packet_get_data_offset : Device → List ℕ → ℕ
packet_get_data_offset pd buf =
    let pkt = drop (mark_len pd) buf in
    let sb_len = if has_scb pkt then data_of pkt 0 else 0 in mark_len pd + header_size + sb_len

-- The index of the security block; `none` is the null pointer.
unfoldable pub packet_get_smb : Device → List ℕ → Option ℕ
packet_get_smb pd buf =
    if has_scb (drop (mark_len pd) buf) then some (mark_len pd + header_size) else none

unfoldable pub in_sc_handshake : Bool → ℕ → Bool
in_sc_handshake is_reply id =
    if is_reply
    then id == reply_ccrypt || id == reply_rmac_i
    else id == cmd_chlng || id == cmd_scrypt

-- Whether the packet is to start with a mark byte.
abbrev pub wants_mark : Device → Bool
wants_mark pd =
    (is_pd_mode pd && packet_has_mark pd) || (is_cp_mode pd && not pd.flags.pkt_skip_mark)

abbrev pub packet_id : Device → ℕ
packet_id pd = if is_pd_mode pd then pd.reply_id else pd.cmd_id

abbrev pub is_busy : Device → Bool
is_busy pd = is_pd_mode pd && packet_id pd == reply_busy

-- The address byte: broadcast or own address, with the top bit set in a reply.
abbrev pub address_byte : Device → ℕ
address_byte pd =
    let address = if pd.flags.pkt_broadcast then 0x7F else pd.address % 128 in
    if is_pd_mode pd then set_bit 0x80 address else address

-- The sequence number field, before the CRC and SCB bits are added.
abbrev pub seq_byte : Device → ℕ
seq_byte pd = if is_busy pd then 0 else u8_ℤ (get_next_seq_number pd)

-- The first bytes of the security block; the handshake's third byte is left to the caller.
unfoldable pub scb_bytes : Device → List ℕ
unfolding in_sc_handshake
scb_bytes pd =
    if is_busy pd
    then []
    else if sc_is_active pd
    then 2 ∷ scs_15 ∷ []
    else if in_sc_handshake (is_pd_mode pd) (packet_id pd)
    then 3 ∷ scs_11 ∷ []
    else []

abbrev pub scb_len : List ℕ → ℕ
scb_len [] = 0
scb_len (n ∷ ns) = n

abbrev pub control_byte : Device → ℕ
control_byte pd =
    let seq = seq_byte pd in
    let with_crc =
      if is_pd_mode pd || (is_cp_mode pd && pd.flags.cp_use_crc)
      then set_bit control_crc seq
      else seq in
    if scb_len (scb_bytes pd) == 0 then with_crc else set_bit control_scb with_crc

-- The header at the front of `pkt`; the length field is left for later.
abbrev pub fill_header : Device → List ℕ → List ℕ
fill_header pd pkt =
    splice (set (set (set pkt 0 pkt_som) 1 (address_byte pd)) 4 (control_byte pd)) 5 (scb_bytes pd)

unfoldable pub packet_init : Device → List ℕ → ℕ → (PktError ⊎ ℕ) × Device × List ℕ
packet_init pd buf max_len =
    let marks = wants_mark pd in
    let buf' = if marks then pkt_mark ∷ fill_header pd (drop 1 buf) else fill_header pd buf in
    let marked = if marks then set_has_mark pd true else pd in
    let pd' = record marked {
      flags = record marked.flags { pkt_broadcast = false };
      phy_tx_seq = seq_byte pd % 4;
    } in
    if ltb max_len minimum_packet_size
    then (inl err_fmt, pd, buf)
    else (inr (mark_len pd' + header_size + scb_len (scb_bytes pd)), pd', buf')

-- What finalizing leaves: the packet's length or an error, the device and the packet.
abbrev pub Built : Type 0
Built = (PktError ⊎ ℕ) × Device × List ℕ

module _ (crc16 : List ℕ → ℕ) where
  -- The CRC or the checksum at the end of the `len` bytes of `pkt`.
  unfoldable pub append_check : Device → List ℕ → ℕ → ℕ → Built
  append_check pd pkt len max_len =
      if has_crc pkt
      then if ltb max_len (len + 2)
        then (inl err_fmt, pd, pkt)
        else (inr (len + 2), pd, (bwrite_u16_le (u16 (crc16 (take len pkt))) pkt len).0)
      else if ltb max_len (len + 1)
      then (inl err_fmt, pd, pkt)
      else (inr (len + 1), pd, set pkt len (compute_checksum pkt len))

  abbrev pub check_len : List ℕ → ℕ
  check_len pkt = if has_crc pkt then 2 else 1

  module _ (c : Crypto) where
    -- The data after the command or reply ID is encrypted, for SCS_17 and SCS_18. The callers put at
    -- least the header, the security block and the ID in the packet, so `data_len` is not negative.
    unfoldable pub encrypt_packet : Device → List ℕ → ℕ → ℕ → Option ℕ × List ℕ
    encrypt_packet pd pkt len max_len =
        let data' = header_size + data_of pkt 0 + 1 in
        let data_len = len - data' in
        let out = encrypt_data c pd (is_cp_mode pd) pkt data' data_len in
        if data_of pkt 1 == scs_17 || data_of pkt 1 == scs_18
        then if ltb max_len (aes_pad_len (data_len + 1))
          then (none, pkt)
          else (some (len - data_len + out.0), out.1)
        else (some len, pkt)

    -- The length field with the MAC counted, then the MAC, then the check.
    unfoldable pub append_mac : Device → List ℕ → ℕ → ℕ → Built
    append_mac pd pkt len max_len =
        let pkt' = set_len pkt (len + check_len pkt + 4) in
        let pd' = compute_mac c pd (is_cp_mode pd) (take len pkt') len in
        let mac = if is_cp_mode pd then pd'.sc.c_mac else pd'.sc.r_mac in
        if ltb max_len (len + 4)
        then (inl err_fmt, pd, pkt)
        else append_check pd' (splice pkt' len (take 4 mac)) (len + 4) max_len

    unfoldable pub secure_packet : Device → Option ℕ × List ℕ → ℕ → Built
    secure_packet pd (none, pkt) max_len = (inl err_fmt, pd, pkt)
    secure_packet pd (some len, pkt) max_len = append_mac pd pkt len max_len

    -- The packet without its mark byte.
    unfoldable pub finalize_unmarked : Device → List ℕ → ℕ → ℕ → Built
    finalize_unmarked pd pkt len max_len =
        let pkt' = set_len pkt (len + check_len pkt) in
        if not (som_of pkt == pkt_som)
        then (inl err_fmt, pd, pkt)
        else if sc_is_active pd && (has_scb pkt' && leb scs_15 (data_of pkt' 1))
        then secure_packet pd (encrypt_packet pd pkt' len max_len) max_len
        else append_check pd pkt' len max_len

    unfoldable pub with_mark : Built → List ℕ → Built
    with_mark (inl err, pd, pkt) mark = (inl err, pd, mark ++ pkt)
    with_mark (inr len, pd, pkt) mark = (inr (len + 1), pd, mark ++ pkt)

    unfoldable pub finalize_packet : Device → List ℕ → ℕ → ℕ → Built
    finalize_packet pd buf len max_len =
        if leb len header_size
        then (inl err_fmt, pd, buf)
        else if packet_has_mark pd
        then if byte_at buf 0 == pkt_mark
          then with_mark (finalize_unmarked pd (drop 1 buf) (len - 1) (max_len - 1)) (take 1 buf)
          else (inl err_fmt, pd, buf)
        else finalize_unmarked pd buf len max_len

-- `ret` is the return value of the channel's send callback on the first `len` bytes of `buf`.
unfoldable pub send_packet : Device → ℤ → ℕ → (PktError ⊎ ℕ) × Device
send_packet pd (negsuc n) len = (inl err_build, pd)
send_packet pd (pos ret) len =
    if ret == 0
    then (inl err_wait_tx, pd)
    else if ret == len
    then (inr len, report_metric pd packet_sent)
    else (inl err_build, pd)
