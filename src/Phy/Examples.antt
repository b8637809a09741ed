-- ===== src/Phy/Examples.antt =====
-- Concrete packets through src/osdp_phy.c.
use libosdp.Common.{
  ℕ, ◌+◌, ◌↔◌, ◌≡◌, ◌≢◌, ◌≤◌, ◌<◌, refl, inl, inr, ◌⊎◌, leb, none, ◌%◌, true, false, some, List, [],
  ◌∷◌, arith, replicate, length, pos,
}
use libosdp.Bytes.{byte_at}
use libosdp.Crypto.{Crypto}
use libosdp.Phy.Decode.{decode_unmarked, decode_plain}
use libosdp.Phy.Decode.Secure.{IsKeysetAck, CarriesMac, decode_unmarked-accepted}
use libosdp.Device.{Device, report_metric, cmd_keyset, reply_ack, scs_15}
use libosdp.Device.Sample.{sample_cp, sample_pd}
use libosdp.Phy.{pd_address_of, has_scb, data_of, err_fmt, pkt_mark, pkt_som, mark_len}
use libosdp.Phy.Checksum.{compute_checksum, byte_sum, compute_checksum_lem}
use libosdp.Phy.Sequence.{
  get_next_seq_number, rollback_seq_number, reset_seq_number, progress_sequence, progress_times,
  seq_cycle, rollback-next,
}
use libosdp.Phy.Build.Mark.{packet_init-stale_mark}
use libosdp.Phy.Build.{packet_init, finalize_unmarked, finalize_packet, append_check}
use libosdp.Phy.Build.Finalize.{finalize_packet-fits}
use libosdp.Phy.Framer.{frame_packet, rescan_packet_buf}
use libosdp.Phy.Framer.Bounds.{IsFramed, frame_packet-IsFramed}
use libosdp.Phy.Framer.Rescan.{rescan_progress}
use libosdp.Metrics.{report}
use libosdp.Phy.Check.{check_unmarked, check_pd, check_seq, is_intact, is_seq}
use libosdp.Phy.Check.Fresh.{CarriesCheck, IsNext, check_unmarked-accepted}
use libosdp.Phy.Check.Accept.{Peers, IsTaken, finalize_unmarked-IsTaken, finalize_marked-IsTaken}

abbrev no_cipher : Crypto
no_cipher = record {
  encrypt = λ key iv bytes. bytes;
  decrypt = λ key iv bytes. bytes;
  fill_random = λ n. replicate n 0;
}

abbrev byte_count : List ℕ → ℕ
byte_count xs = length xs

seq_cycle_example :
    ((progress_times 1 (reset_seq_number sample_cp)).seq_number ≡ pos 0)
    × ((progress_times 6 (reset_seq_number sample_cp)).seq_number ≡ pos 2)
seq_cycle_example = seq_cycle sample_cp 4

rollback-next_example :
    (get_next_seq_number (rollback_seq_number sample_cp) ≡ pos 2)
    × (progress_sequence (rollback_seq_number sample_cp) ≡ sample_cp)
rollback-next_example = rollback-next sample_cp 1 (omega arith) refl

-- A POLL command to address 1, before it is finalized.
abbrev poll : List ℕ
poll = pkt_som ∷ 1 ∷ 0 ∷ 0 ∷ 3 ∷ 96 ∷ replicate 10 0

poll-finalized : (finalize_unmarked byte_count no_cipher sample_cp poll 6 128).0 ≡ inr 7
unfolding finalize_unmarked append_check
poll-finalized = refl

poll-finalized_whole : (finalize_packet byte_count no_cipher sample_cp poll 6 128).0 ≡ inr 7
unfolding finalize_packet finalize_unmarked append_check
poll-finalized_whole = refl

poll-length : length (finalize_unmarked byte_count no_cipher sample_cp poll 6 128).2 ≡ 16
unfolding finalize_unmarked append_check
poll-length = refl

finalize_packet-fits_example : 7 ≤ 128
finalize_packet-fits_example =
    finalize_packet-fits byte_count no_cipher sample_cp poll 6 128 7 (omega arith)
      poll-finalized_whole

poll-Peers : Peers sample_cp sample_pd 1
poll-Peers = record { modes = refl; direction = refl }

finalize_unmarked-IsTaken_example :
    IsTaken byte_count sample_pd
      (finalize_unmarked byte_count no_cipher sample_cp poll 6 128).2
      7
      256
finalize_unmarked-IsTaken_example =
    finalize_unmarked-IsTaken byte_count sample_cp sample_pd 1 poll-Peers no_cipher poll 6 128 7 256
      (omega arith) (omega arith) refl poll-finalized (omega (arith, poll-length)) (omega arith)
      (omega arith)

finalize_marked-IsTaken_example :
    IsTaken byte_count sample_pd
      (pkt_mark ∷ (finalize_unmarked byte_count no_cipher sample_cp poll 6 128).2)
      8
      256
finalize_marked-IsTaken_example =
    finalize_marked-IsTaken byte_count sample_cp sample_pd 1 poll-Peers no_cipher poll 6 128 7 256
      (omega arith) (omega arith) refl poll-finalized (omega (arith, poll-length)) (omega arith)
      (omega arith)

-- Half a header in the packet buffer, and the rest of a packet in the ring.
abbrev half_header : Device
half_header = record sample_pd {
  packet_buf = pkt_som ∷ 1 ∷ replicate 254 0;
  packet_buf_len = 2;
  rx_rb = record { head = 6; tail = 1; buffer = 0 ∷ 7 ∷ 0 ∷ 3 ∷ 96 ∷ 66 ∷ 0 ∷ 0 ∷ [] };
}

half_header-IsFramed : IsFramed half_header
half_header-IsFramed = record {
  whole = refl;
  header = λ e. omega arith;
  body = λ k. absurd (k refl);
  fits = omega arith;
}

frame_packet-IsFramed_example :
    IsFramed (frame_packet half_header (some 5) 100).1
    × ((frame_packet half_header (some 5) 100).0 ≢ some err_fmt)
frame_packet-IsFramed_example = frame_packet-IsFramed half_header (some 5) 100 half_header-IsFramed

-- A start of message inside of a header.
abbrev nested_som : Device
nested_som = record sample_pd {
  packet_buf = pkt_som ∷ 1 ∷ pkt_som ∷ 1 ∷ 2 ∷ replicate 251 0;
  packet_buf_len = 5;
}

rescan_progress_example :
    let (found, pd') = rescan_packet_buf nested_som in
    (found ≡ true
      → (0 < pd'.packet_buf_len)
        × (pd'.packet_buf_len < 5)
        × (byte_at pd'.packet_buf (mark_len pd') ≡ pkt_som))
    × (found ≡ false → pd'.packet_buf_len ≡ 0)
rescan_progress_example =
    rescan_progress nested_som (omega arith) (λ e k. absurd (omega (arith, k)))

-- The POLL command as it is received, with its length and checksum.
abbrev poll_frame : List ℕ
poll_frame = pkt_som ∷ 1 ∷ 7 ∷ 0 ∷ 3 ∷ 96 ∷ 66 ∷ []

poll_frame-passes : (check_unmarked byte_count sample_pd poll_frame 7).0.0 ≡ none
unfolding check_unmarked check_pd check_seq is_intact compute_checksum get_next_seq_number
    report_metric report
poll_frame-passes = refl

check_unmarked-accepted_example :
    let out = (check_unmarked byte_count sample_pd poll_frame 7).0.1 in
    CarriesCheck byte_count poll_frame 7
    × ((pd_address_of poll_frame % 128 ≡ sample_pd.address)
        ⊎ (pd_address_of poll_frame % 128 ≡ 127))
    × IsNext sample_pd poll_frame 3
    × ((is_seq (get_next_seq_number out) 3 ≡ true) ⊎ (out.flags.skip_seq_check ≡ true))
check_unmarked-accepted_example =
    check_unmarked-accepted byte_count sample_pd poll_frame 7 (omega arith) poll_frame-passes

-- A CP that waits for the answer to KEYSET, and a plain ACK.
abbrev awaiting_keyset : Device
awaiting_keyset = record sample_cp {
  flags = record sample_cp.flags { sc_active = true };
  cmd_id = cmd_keyset;
}

abbrev plain_ack : List ℕ
plain_ack = pkt_som ∷ 129 ∷ 7 ∷ 0 ∷ 0 ∷ reply_ack ∷ 0 ∷ []

plain_ack-decoded : (decode_unmarked no_cipher awaiting_keyset [] plain_ack 6).0 ≡ inr (5, pos 1)
unfolding decode_unmarked decode_plain
plain_ack-decoded = refl

decode_unmarked-accepted_example :
    (has_scb plain_ack ≡ false → IsKeysetAck awaiting_keyset plain_ack)
    × (has_scb plain_ack ≡ true
        → leb scs_15 (data_of plain_ack 1) ≡ true
        → CarriesMac no_cipher awaiting_keyset plain_ack 2)
decode_unmarked-accepted_example =
    decode_unmarked-accepted no_cipher awaiting_keyset [] plain_ack 6 (5, pos 1) plain_ack-decoded
      refl

-- A CP that skips mark bytes, after a reply with one.
abbrev stale_cp : Device
stale_cp = record sample_cp { flags = record sample_cp.flags { pkt_has_mark = true } }

packet_init-stale_mark_example :
    let (started, pd', buf') = packet_init stale_cp (replicate 256 0) 256 in
    (finalize_packet byte_count no_cipher pd' buf' 7 256).0 ≡ inl err_fmt
packet_init-stale_mark_example =
    packet_init-stale_mark byte_count no_cipher stale_cp (replicate 256 0) 256 7 256 refl refl refl
      (omega arith) (omega arith)

compute_checksum_lem_example :
    ((byte_sum (0x53 ∷ 0x65 ∷ 0x08 ∷ []) 3 0 + 0x40) % 256 ≡ 0)
    ↔ (compute_checksum (0x53 ∷ 0x65 ∷ 0x08 ∷ []) 3 ≡ 0x40)
compute_checksum_lem_example = compute_checksum_lem (0x53 ∷ 0x65 ∷ 0x08 ∷ []) 3 0x40 (omega arith)
