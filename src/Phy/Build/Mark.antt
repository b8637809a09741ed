-- ===== src/Phy/Build/Mark.antt =====
-- The mark byte of a packet that a CP builds in src/osdp_phy.c, and what finalizing makes of it.
use libosdp.Common.{
  ℕ, ◌≡◌, ◌≤◌, ◌<◌, ◌∙◌, inl, true, false, List, arith, length, set, get_or-set_self, get_or-set_ne,
  get_or-splice_lt,
}
use libosdp.Bytes.{byte_at}
use libosdp.Crypto.{Crypto}
use libosdp.Device.{Device, is_pd_mode, packet_has_mark, minimum_packet_size}
use libosdp.Phy.{err_fmt, pkt_som}
use libosdp.Phy.Build.{
  packet_init, finalize_packet, fill_header, address_byte, control_byte, scb_bytes,
}

fill_header-starts :
    (pd : Device) (buf : List ℕ) → 0 < length buf → byte_at (fill_header pd buf) 0 ≡ pkt_som
fill_header-starts pd buf h =
    get_or-splice_lt (set (set (set buf 0 pkt_som) 1 (address_byte pd)) 4 (control_byte pd)) 5 0
      (scb_bytes pd) 0 (omega arith)
    ∙ get_or-set_ne (set (set buf 0 pkt_som) 1 (address_byte pd)) 4 0 (control_byte pd) 0
        (λ e. absurd (omega (arith, e)))
    ∙ get_or-set_ne (set buf 0 pkt_som) 1 0 (address_byte pd) 0 (λ e. absurd (omega (arith, e)))
    ∙ get_or-set_self buf 0 pkt_som 0 h

module _ (pd : Device) (buf : List ℕ) (max_len : ℕ) (cp : is_pd_mode pd ≡ false)
    (skips : pd.flags.pkt_skip_mark ≡ true) (stale : packet_has_mark pd ≡ true)
    (space : minimum_packet_size ≤ max_len) (some_room : 0 < length buf) where
  keeps_flag : packet_has_mark (packet_init pd buf max_len).1 ≡ true
  unfolding packet_init
  keeps_flag = ground (arith, cp, skips, stale, space)

  no_mark : byte_at (packet_init pd buf max_len).2 0 ≡ pkt_som
  unfolding packet_init
  no_mark = ground (arith, cp, skips, stale, space, fill_header-starts pd buf some_room)

finalize_packet-refuses :
    (crc16 : List ℕ → ℕ) (c : Crypto) (pd : Device) (buf : List ℕ) (len max_len : ℕ)
    → packet_has_mark pd ≡ true
    → byte_at buf 0 ≡ pkt_som
    → (finalize_packet crc16 c pd buf len max_len).0 ≡ inl err_fmt
unfolding finalize_packet
finalize_packet-refuses crc16 c pd buf len max_len m s = ground (arith, m, s)

-- For a CP that is to skip mark bytes, but has its has-mark flag set by a reply that had one, and a
-- buffer that is big enough: a packet that it starts is refused when it is finalized, whatever its
-- length.
pub packet_init-stale_mark :
    (crc16 : List ℕ → ℕ) (c : Crypto) (pd : Device) (buf : List ℕ) (max_len len room : ℕ)
    → is_pd_mode pd ≡ false
    → pd.flags.pkt_skip_mark ≡ true
    → packet_has_mark pd ≡ true
    → minimum_packet_size ≤ max_len
    → 0 < length buf
    → let (started, pd', buf') = packet_init pd buf max_len in
      (finalize_packet crc16 c pd' buf' len room).0 ≡ inl err_fmt
packet_init-stale_mark crc16 c pd buf max_len len room cp skips stale space h =
    finalize_packet-refuses crc16 c (packet_init pd buf max_len).1 (packet_init pd buf max_len).2
      len room (keeps_flag pd buf max_len cp skips stale space h)
      (no_mark pd buf max_len cp skips stale space h)
