-- ===== src/Pd/Status.antt =====
-- A status reply that src/osdp_pd.c builds while it decodes the command (pd_prebuild_status_reply), from
-- the report that the application filled in.
use libosdp.Common.{
  ℕ, ◌+◌, ◌-◌, ◌⊎◌, inl, inr, Bool, true, false, not, ◌||◌, Option, none, some, List, ltb, leb,
  ◌==◌, if◌then◌else◌, length, take, set, splice,
}
use libosdp.Crypto.{Crypto}
use libosdp.Device.{Device, get_tx_buf_size}
use libosdp.Phy.{PktError}
use libosdp.Phy.Build.{packet_init, packet_get_data_offset, finalize_packet, Built}
use libosdp.Pd.Peripheral.{Peripheral, with_dev, num_items, cap_contacts, cap_outputs, cap_readers}

-- OSDP_STATUS_REPORT_MAX_LEN
abbrev pub status_report_max_len : ℕ
status_report_max_len = 64

-- A report with one entry for each of `n` items.
abbrev pub full_report : ℕ → List ℕ → ℕ → Option (List ℕ)
full_report n report max_len =
    if not (length report == n) || (ltb max_len n || ltb status_report_max_len n)
    then none
    else some (take n report)

-- The staging buffer is the packet's buffer from here on.
abbrev pub staged : Device → List ℕ → ℕ → Device
staged pd pkt len = record pd { packet_buf = pkt; tx_buf = pkt; packet_buf_len = len }

module _ {E : Type 0} where
  -- The data of a status reply in `max_len` bytes.
  unfoldable pub status_bytes : Peripheral E → ℕ → List ℕ → ℕ → Option (List ℕ)
  status_bytes p reply_id report max_len =
      if reply_id == 0x4A
      then full_report (num_items p cap_outputs) report max_len
      else if reply_id == 0x49
      then full_report (num_items p cap_contacts) report max_len
      else if reply_id == 0x48
      then if ltb (length report) 2 || ltb max_len 2 then none else some (take 2 report)
      else if reply_id == 0x4B
      then full_report (num_items p cap_readers) report max_len
      else none

  -- The end of a packet's building: it waits to be sent, or the error is reported.
  unfoldable pub park : Peripheral E → Built → Bool × Peripheral E
  park p (inl err, pd, pkt) = (false, with_dev p (staged pd pkt pd.packet_buf_len))
  park p (inr len, pd, pkt) = (true, record p { dev = staged pd pkt len; reply_prebuilt = true })

  module _ (crc16 : List ℕ → ℕ) (c : Crypto) where
    unfoldable pub fill_status :
        Peripheral E → Device → List ℕ → ℕ → ℕ → ℕ → Option (List ℕ) → Bool × Peripheral E
    unfolding park
    fill_status p pd pkt off hdr_len size none = (false, with_dev p (record pd { tx_buf = pkt }))
    fill_status p pd pkt off hdr_len size (some bytes) =
        let pkt' = splice pkt (off + 1) bytes in
        let len = hdr_len + 1 + length bytes in
        park p (finalize_packet crc16 c (staged pd pkt' len) pkt' len size)

    unfoldable pub status_from :
        Peripheral E → ℕ → List ℕ → ℕ → (PktError ⊎ ℕ) × Device × List ℕ → Bool × Peripheral E
    unfolding fill_status status_bytes
    status_from p reply_id report size (inl err, pd, pkt) = (false, with_dev p pd)
    status_from p reply_id report size (inr hdr_len, pd, pkt) =
        let off = packet_get_data_offset pd pkt in
        if leb size off
        then (false, with_dev p pd)
        else fill_status p pd (set pkt off reply_id) off hdr_len size
            (status_bytes p reply_id report (size - off - 1))

    -- pd_prebuild_status_reply; `true` is 0.
    unfoldable pub prebuild_status_reply : Peripheral E → ℕ → List ℕ → Bool × Peripheral E
    unfolding status_from
    prebuild_status_reply p reply_id report =
        let size = get_tx_buf_size p.dev in
        status_from p reply_id report size (packet_init p.dev p.dev.tx_buf size)
