-- ===== src/File/Sender.antt =====
-- The sending side of src/osdp_file.c: osdp_file_cmd_tx_build and osdp_file_cmd_stat_decode. They run on
-- registered file operations: without any, the second one returns -1 and nothing changes.
use libosdp.Common.{
  ℕ, ◌+◌, ◌-◌, ℤ, pos, negsuc, Bool, true, false, not, ◌&&◌, Option, none, some, List, ◌∷◌, ltb,
  leb, ◌==◌, if◌then◌else◌, drop, has_bit, u8,
}
use libosdp.Multipart.{Multipart, State, w32, hdr_size, is_active}
use libosdp.Multipart.Tx.{tx_build, tx_build_idle, tx_commit}
use libosdp.Multipart.Lifecycle.{set_wait, park}
use libosdp.File.{
  File, Plane, aborted, flag_exclusive, flag_plain_text, flag_poll_resp, set_flag_v,
  transition_done,
}
use libosdp.File.Status.{stat_size, read_stat, outcome_from_wire_status}

-- OSDP_MP_SC_RESERVE
abbrev pub sc_reserve : ℕ
sc_reserve = 16

-- The type byte and the engine's header.
abbrev pub frame_header : ℕ
frame_header = 1 + hdr_size w32

abbrev pub is_waiting : State → Bool
is_waiting State.wait = true
is_waiting _ = false

-- The control flags of a status, kept in the file's flags.
abbrev pub take_control : ℕ → ℕ → ℕ
take_control control flags = set_flag_v flag_poll_resp (has_bit 4 control) (
    set_flag_v flag_plain_text (has_bit 2 control)
      (set_flag_v flag_exclusive (not (has_bit 1 control)) flags))

-- The frame's length or an error, the buffer and the file.
abbrev pub Sent : Type 0 → Type 0
Sent A = Option ℕ × List ℕ × File A

module _ {A : Type 0} where
  -- The label "reply_abort".
  unfoldable pub reply_abort : File A → List ℕ → Sent A
  reply_abort f buf = (none, buf, transition_done f aborted)

  -- What follows the engine's build of a frame behind the type byte; an empty read is counted, and a
  -- frame with data clears the count.
  unfoldable pub after_frame : File A → List ℕ → Option ℕ × List ℕ × Multipart (Plane A) → Sent A
  unfolding reply_abort
  after_frame f buf (none, out, mp) = reply_abort (record f { mp = mp }) buf
  after_frame f buf (some n, out, mp) =
      let errors' =
        if mp.last_len == 0 then (if is_waiting mp.state then f.errors + 1 else f.errors) else 0 in
      (some (1 + n), u8 f.file_id ∷ out, record f { mp = mp; errors = errors' })

  unfoldable pub keep_alive_frame : File A → List ℕ → Sent A
  keep_alive_frame f buf =
      let (n, out, mp) = tx_build_idle f.mp (drop 1 buf) in
      (some (1 + n), u8 f.file_id ∷ out, record f { mp = mp })

  unfoldable pub cmd_tx_build : File A → List ℕ → ℕ → Sent A
  unfolding reply_abort after_frame keep_alive_frame
  cmd_tx_build f buf max_len =
      let engine_max = max_len - 1 - sc_reserve in
      if leb max_len frame_header
      then reply_abort f buf
      else if is_waiting f.mp.state && f.mp.offset == f.mp.total
      then keep_alive_frame f buf
      else if leb engine_max (hdr_size w32)
      then reply_abort f buf
      else after_frame f buf (tx_build f.mp (drop 1 buf) engine_max)

  -- What a status does once the acked chunk is committed.
  unfoldable pub on_status : File A → ℤ → File A
  on_status f (negsuc n) = transition_done f (outcome_from_wire_status (negsuc n))
  on_status f (pos n) =
      if not (f.mp.offset == f.mp.total)
      then f
      else if n == 3
      then record f { mp = park f.mp }
      else transition_done f (outcome_from_wire_status (pos n))

  -- `true` is the return value 0; `now` is osdp_millis_now().
  unfoldable pub cmd_stat_decode : File A → List ℕ → ℕ → ℕ → Bool × File A
  unfolding on_status
  cmd_stat_decode f buf len now =
      let stat = read_stat buf in
      let acked = record f {
        flags = take_control stat.control f.flags;
        mp = set_wait (tx_commit f.mp) stat.delay now;
      } in
      if not (is_active f.mp)
      then (false, f)
      else if ltb len stat_size
      then (false, f)
      else (true, on_status acked stat.status)
