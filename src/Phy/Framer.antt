-- ===== src/Phy/Framer.antt =====
-- The stream framer of src/osdp_phy.c: osdp_channel_receive, phy_rescan_packet_buf, phy_check_header
-- and the collecting part of osdp_phy_check_packet.
pub mod Rescan
pub mod Heading
pub mod Bounds
use libosdp.Common.{
  ℕ, zero, suc, ◌+◌, ◌-◌, ◌⊎◌, inl, inr, Bool, true, false, not, ◌&&◌, ◌||◌, Option, none, some,
  List, [], ◌∷◌, ltb, leb, ◌==◌, if◌then◌else◌, length, set, splice, take, ℤ, pos, negsuc,
}
use libosdp.Bytes.{byte_at}
use libosdp.RingBuffer.{RingBuffer, push_buf, pop, pop_buf}
use libosdp.Device.{Device, Flags, is_pd_mode, packet_buf_size}
use libosdp.Phy.{
  PktError, err_fmt, err_wait, err_skip, err_check, err_busy, err_nack, err_build, err_no_data,
  err_wait_tx, pkt_mark, pkt_som, header_size, mark_len, set_has_mark,
}
use libosdp.Phy.Header.{validate_header}

abbrev pub rx_chunk : ℕ
rx_chunk = 64

-- The loop of osdp_channel_receive: `calls` are the bytes that the channel's recv callback gives,
-- call by call, at most 64 each; an empty list is a result <= 0. `none` is -1, an overflow.
unfoldable pub channel_receive : List (List ℕ) → Device → ℕ → Option ℕ × Device
channel_receive [] pd total = (some total, pd)
channel_receive (bytes ∷ calls) pd total =
    let (n, rb) = push_buf pd.rx_rb bytes in
    let pd' = record pd { rx_rb = rb } in
    let rest = channel_receive calls pd' (total + length bytes) in
    if length bytes == 0
    then (some total, pd)
    else if not (n == length bytes)
    then (none, pd')
    else if length bytes == rx_chunk
    then rest
    else (some (total + length bytes), pd')

-- `while (i < n && buf[i] != SOM) i++`, for the `k` bytes from index `i` on.
unfoldable pub find_som : List ℕ → ℕ → ℕ → ℕ
find_som buf zero i = i
find_som buf (suc k) i =
    let rest = find_som buf k (i + 1) in if byte_at buf i == pkt_som then i else rest

-- `while (i < n) buf[j++] = buf[i++]`, for `k` bytes.
unfoldable pub move_down : List ℕ → ℕ → ℕ → ℕ → List ℕ
move_down buf zero j i = buf
move_down buf (suc k) j i = move_down (set buf j (byte_at buf i)) k (j + 1) (i + 1)

unfoldable pub rescan_packet_buf : Device → Bool × Device
rescan_packet_buf pd =
    let n = pd.packet_buf_len in
    let j = mark_len pd + 1 in
    let i = find_som pd.packet_buf (n - j) j in
    let marked = byte_at pd.packet_buf (i - 1) == pkt_mark in
    let buf =
      if marked
      then move_down (set pd.packet_buf 0 pkt_mark) (n - i) 1 i
      else move_down pd.packet_buf (n - i) 0 i in
    let pd' = set_has_mark pd marked in
    if ltb i n
    then (
      true,
      record pd' { packet_buf = buf; packet_buf_len = (if marked then 1 else 0) + (n - i) },
    )
    else (false, record pd { packet_buf_len = 0 })

-- What a byte from the ring does to the search for the start of a packet. A start of message ends it.
abbrev pub found_som : Device → ℕ → Device
found_som pd prev_byte =
    if prev_byte == pkt_mark
    then record pd { packet_buf = set (set pd.packet_buf 0 pkt_mark) 1 pkt_som; packet_buf_len = 2 }
    else record pd { packet_buf = set pd.packet_buf 0 pkt_som; packet_buf_len = 1 }

abbrev pub count_skip : Device → ℕ → Device
count_skip pd cur_byte = record pd {
  packet_scan_skip = if cur_byte == pkt_mark then pd.packet_scan_skip else pd.packet_scan_skip + 1;
}

-- The scan for a packet's start over at most `fuel` bytes of the ring; `none` is an empty ring, and
-- the ring's size is fuel enough, since it holds fewer bytes.
unfoldable pub scan_start : ℕ → Device → ℕ → Bool × Device
scan_start zero pd prev_byte = (false, pd)
scan_start (suc fuel) pd prev_byte =
    let (byte, rb) = pop pd.rx_rb in
    let pd' = record pd { rx_rb = rb } in
    elim byte [
      | none ↦ (false, pd')
      | some cur_byte ↦
          let rest = scan_start fuel (count_skip pd' cur_byte) cur_byte in
          if cur_byte == pkt_som then (true, found_som pd' prev_byte) else rest
    ]

-- `n` more bytes from the ring, after those that the packet buffer holds.
unfoldable pub collect : Device → ℕ → Device
collect pd n =
    let (bytes, rb) = pop_buf pd.rx_rb n in
    record pd {
      rx_rb = rb;
      packet_buf = splice pd.packet_buf pd.packet_buf_len bytes;
      packet_buf_len = pd.packet_buf_len + length bytes;
    }

-- The header bytes that are still missing.
abbrev pub header_need : Device → ℕ
header_need pd = header_size + (if byte_at pd.packet_buf 0 == pkt_mark then 1 else 0)

unfoldable pub top_up : Device → Device
top_up pd =
    if ltb pd.packet_buf_len (header_need pd)
    then collect pd (header_need pd - pd.packet_buf_len)
    else pd

-- A malformed header is searched for another start, and the answer is to wait.
unfoldable pub on_header : (PktError ⊎ ℕ) × Device → (PktError ⊎ ℕ) × Device
on_header (inl err_fmt, pd) = (inl err_wait, (rescan_packet_buf pd).1)
on_header (inl err, pd) = (inl err, pd)
on_header (inr len, pd) = (inr len, pd)

unfoldable pub after_scan : Bool × Device → (PktError ⊎ ℕ) × Device
after_scan (false, pd) = (inl err_no_data, pd)
after_scan (true, pd) =
    let full = top_up pd in
    on_header (validate_header full full.packet_buf full.packet_buf_len packet_buf_size)

unfoldable pub check_header : Device → (PktError ⊎ ℕ) × Device
check_header pd =
    after_scan
      (if pd.packet_buf_len == 0 then scan_start (length pd.rx_rb.buffer) pd 0 else (true, pd))

-- The packet's length is known; the rest of its bytes are collected. `none` is a complete packet.
unfoldable pub collect_body : Device → Option PktError × Device
collect_body pd =
    let pd' = collect pd (pd.packet_len - pd.packet_buf_len) in
    if ltb pd.packet_len pd.packet_buf_len
    then (some err_fmt, pd)
    else if pd'.packet_buf_len == pd'.packet_len
    then (none, pd')
    else (some err_wait, pd')

unfoldable pub on_packet_len : (PktError ⊎ ℕ) × Device → Option PktError × Device
on_packet_len (inl err, pd) = (some err, pd)
on_packet_len (inr len, pd) = collect_body (record pd { packet_len = len; packet_scan_skip = 0 })

-- `ret > 0`
abbrev pub got_bytes : Option ℕ → Bool
got_bytes none = false
got_bytes (some n) = ltb 0 n

-- `now` is osdp_millis_now(): a PD notes when the first bytes came.
unfoldable pub stamp : Device → Option ℕ → ℕ → Device
stamp pd received now =
    if is_pd_mode pd && (pd.packet_buf_len == 0 && got_bytes received)
    then record pd { tstamp = now }
    else pd

-- osdp_phy_check_packet up to the whole packet; `received` is what osdp_channel_receive returned.
unfoldable pub frame_packet : Device → Option ℕ → ℕ → Option PktError × Device
frame_packet pd received now =
    let pd' = stamp pd received now in
    if pd'.packet_len == 0 then on_packet_len (check_header pd') else collect_body pd'
