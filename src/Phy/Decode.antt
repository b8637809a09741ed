-- ===== src/Phy/Decode.antt =====
-- Decoding a checked packet in src/osdp_phy.c (osdp_phy_decode_packet), and osdp_phy_state_reset.
pub mod Secure
use libosdp.Common.{
  ℕ, ◌+◌, ◌-◌, ◌⊎◌, inl, inr, Bool, true, not, ◌&&◌, ◌||◌, Option, none, some, List, ◌++◌, ltb, leb,
  ◌==◌, if◌then◌else◌, drop, take, ℤ, pos, negsuc, sub_ℕ, ◌-ℤ◌,
}
use libosdp.Bytes.{byte_at}
use libosdp.RingBuffer.{reset}
use libosdp.Crypto.{Crypto}
use libosdp.SecureChannel.{compute_mac, decrypt_data}
use libosdp.Device.{
  Device, is_pd_mode, is_cp_mode, sc_is_active, sc_is_capable, is_enforce_secure, is_install_mode,
  cmd_keyset, reply_ack, reply_nak, nak_sc_unsup, nak_sc_cond, scs_11, scs_13, scs_14, scs_15,
  scs_17, scs_18, sc_deactivate,
}
use libosdp.Phy.{PktError, err_nack, header_size, data_of, has_crc, has_scb, mark_len}
use libosdp.Phy.Sequence.{reset_seq_number}

abbrev pub nack : Device → ℕ → (PktError ⊎ (ℕ × ℤ)) × Device
nack pd code = (inl err_nack, record pd { reply_id = reply_nak; nak_code = code })

-- The first of the checks on a security block that fails: its NAK code.
unfoldable pub scb_error : Device → List ℕ → Option ℕ
scb_error pd pkt =
    if is_pd_mode pd && not (sc_is_capable pd)
    then some nak_sc_unsup
    else if ltb (data_of pkt 1) scs_11 || ltb scs_18 (data_of pkt 1)
    then some nak_sc_cond
    else if not (sc_is_active pd) && ltb scs_14 (data_of pkt 1)
    then some nak_sc_cond
    else none

-- A handshake packet on a PD in install mode can ask for the default key.
unfoldable pub note_scbkd : Device → List ℕ → Device
note_scbkd pd pkt =
    if (data_of pkt 1 == scs_11 || data_of pkt 1 == scs_13)
      && (is_install_mode pd && data_of pkt 2 == 0)
    then record pd { flags = record pd.flags { sc_use_scbkd = true } }
    else pd

-- A CP that waits for the answer to KEYSET takes a plain ACK, unless security is enforced.
abbrev pub is_keyset_ack : Device → List ℕ → Bool
is_keyset_ack pd pkt =
    is_cp_mode pd
    && (pd.cmd_id == cmd_keyset && (data_of pkt 0 == reply_ack && not (is_enforce_secure pd)))

-- The length and the place of the packet's data, and what to put back in front of the packet.
module _ (c : Crypto) where
  -- The first four bytes of the MAC over `n` bytes, against those of the packet.
  unfoldable pub mac_matches : Device → List ℕ → ℕ → Bool
  mac_matches pd pkt n =
      let mac = if is_pd_mode pd then pd.sc.c_mac else pd.sc.r_mac in
      let at = λ (i : ℕ). byte_at pkt (n + i) == byte_at mac i in at 0 && (at 1 && (at 2 && at 3))

  -- A decrypted data block counts the ID before it again.
  unfoldable pub on_decrypted :
      Device → List ℕ → ℕ → Option ℕ × List ℕ → (PktError ⊎ (ℕ × ℤ)) × Device
  on_decrypted pd mark start (none, pkt) =
      nack (sc_deactivate (record pd { packet_buf = mark ++ pkt })) nak_sc_cond
  on_decrypted pd mark start (some n, pkt) =
      (inr (start, pos (n + 1)), record pd { packet_buf = mark ++ pkt })

  -- The encrypted data block of `len - 1` bytes after the ID at `start`. A security block that leaves no
  -- data at all gives a negative length, which is not a multiple of 16 and is refused; a multiple of
  -- 16 below 0, with which the source works outside of the packet, is refused here too.
  unfoldable pub decrypt_block : Device → List ℕ → List ℕ → ℕ → ℤ → (PktError ⊎ (ℕ × ℤ)) × Device
  decrypt_block pd mark pkt start (pos n) =
      on_decrypted pd mark start (decrypt_data c pd (is_pd_mode pd) pkt (start + 1) n)
  decrypt_block pd mark pkt start (negsuc n) = on_decrypted pd mark start (none, pkt)

  -- The packet in a secure channel: the MAC, then the data block. `len` counts the MAC.
  unfoldable pub open_secure : Device → List ℕ → List ℕ → ℕ → ℕ → ℤ → (PktError ⊎ (ℕ × ℤ)) × Device
  open_secure pd mark pkt mac_offset start len =
      let pd' = compute_mac c pd (is_pd_mode pd) pkt mac_offset in
      let len' = len -ℤ pos 4 in
      if not (mac_matches pd' pkt mac_offset)
      then nack (sc_deactivate pd') nak_sc_cond
      else if data_of pkt 1 == scs_17 || data_of pkt 1 == scs_18
      then decrypt_block pd' mark pkt start (len' -ℤ pos 1)
      else (inr (start, len'), pd')

  -- The packet without its mark byte: where its data starts, the ID included, and how long it is.
  unfoldable pub decode_scb :
      Device → List ℕ → List ℕ → ℕ → Option ℕ → (PktError ⊎ (ℕ × ℤ)) × Device
  decode_scb pd mark pkt body (some code) = nack pd code
  decode_scb pd mark pkt body none =
      let pd' = note_scbkd pd pkt in
      let start = header_size + data_of pkt 0 in
      let len = sub_ℕ body start in
      if sc_is_active pd && leb scs_15 (data_of pkt 1)
      then open_secure pd' mark pkt (body - 4) start len
      else (inr (start, len), pd')

  unfoldable pub decode_plain : Device → List ℕ → ℕ → (PktError ⊎ (ℕ × ℤ)) × Device
  decode_plain pd pkt body =
      if sc_is_active pd && not (is_keyset_ack pd pkt)
      then nack pd nak_sc_cond
      else (inr (header_size, sub_ℕ body header_size), pd)

  -- `body` is the packet's length without its CRC or checksum.
  unfoldable pub decode_unmarked : Device → List ℕ → List ℕ → ℕ → (PktError ⊎ (ℕ × ℤ)) × Device
  decode_unmarked pd mark pkt body =
      if has_scb pkt
      then decode_scb pd mark pkt body (scb_error pd pkt)
      else decode_plain pd pkt body

  -- The start of the data is an index into the packet without its mark byte.
  unfoldable pub decode_packet : Device → (PktError ⊎ (ℕ × ℤ)) × Device
  decode_packet pd =
      let m = mark_len pd in
      let pkt = drop m pd.packet_buf in
      decode_unmarked pd (take m pd.packet_buf) pkt
        (pd.packet_buf_len - m - (if has_crc pkt then 2 else 1))

-- osdp_phy_state_reset; flushing the channel keeps no state here.
unfoldable pub state_reset : Device → Bool → Device
state_reset pd is_error =
    let pd' = record pd { packet_buf_len = 0; packet_len = 0; phy_state = 0 } in
    if is_error
    then reset_seq_number (record pd' {
      phy_retry_count = 0;
      phy_tx_seq = 0;
      last_tx_len = 0;
      rx_rb = reset pd'.rx_rb;
    })
    else pd'
