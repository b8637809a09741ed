-- ===== src/File/Receiver.antt =====
-- The receiving side of src/osdp_file.c: osdp_file_cmd_tx_decode and osdp_file_cmd_stat_build, on
-- registered file operations; without any, both return -1 and nothing changes.
use libosdp.Common.{
  ℕ, ◌+◌, ◌-◌, ℤ, Bool, true, false, not, ◌&&◌, Option, none, some, List, ltb, ◌==◌, if◌then◌else◌,
  drop,
}
use libosdp.Bytes.{byte_at}
use libosdp.Multipart.{Multipart, Rc, more, early_term, err, w32, hdr_size, is_active}
use libosdp.Multipart.Header.{HeaderFields, hdr_read}
use libosdp.Multipart.Lifecycle.{emit_start, set_identity}
use libosdp.Multipart.Rx.{rx_init, rx_consume, rx_commit}
use libosdp.File.{
  File, Plane, Verdict, finished, aborted, msg_file_transfer, app_of, opened_with, with_app,
  state_reset, transition_done,
}
use libosdp.File.Status.{
  Stat, stat_size, status_ack, status_keep_alive, status_err_abort, status_err_invalid, write_stat,
  wire_status_from_outcome,
}
use libosdp.File.Sender.{frame_header}

-- OSDP_FILE_FINALIZE_TIMEOUT_MS
abbrev pub finalize_timeout_ms : ℕ
finalize_timeout_ms = 30000

abbrev pub reply : ℤ → ℕ → Stat
reply status delay = record { control = 0x01; delay = delay; status = status; rx_size = 0 }

module _ {A : Type 0} where
  -- The fields of a transfer that was just opened.
  unfoldable pub begin_receive : File A → ℕ → ℕ → File A
  begin_receive f id total =
      let fresh = state_reset f in
      record fresh {
        file_id = id;
        is_open = true;
        mp = emit_start (rx_init (set_identity fresh.mp msg_file_transfer id) w32 total);
      }

  -- The application is asked for the command; without a callback it is taken.
  abbrev pub ask_app : Option (A → ℕ → ℕ → Bool × A) → A → ℕ → ℕ → Bool × A
  ask_app none a flags id = (true, a)
  ask_app (some callback) a flags id = callback a flags id

  abbrev pub on_open : File A → ℕ → ℕ → Option ℕ × A → Bool × File A
  on_open f id total (none, a) = (false, with_app f a)
  on_open f id total (some size, a) = (true, begin_receive (opened_with f a) id total)

  abbrev pub on_ask : File A → ℕ → ℕ → Bool × A → Bool × File A
  on_ask f id total (false, a) = (false, with_app f a)
  on_ask f id total (true, a) = on_open f id total (f.ops.open_file a id total)

  -- A first frame: its header is read, the application asked, the file opened.
  unfoldable pub open_transfer : File A → List ℕ → ℕ → Option (HeaderFields × ℕ) → Bool × File A
  unfolding begin_receive
  open_transfer f buf len none = (false, f)
  open_transfer f buf len (some (h, pos')) =
      if ltb (len - 1 - hdr_size w32) h.data_len
      then (false, f)
      else on_ask f (byte_at buf 0) h.total
          (ask_app f.command_callback (app_of f) f.flags (byte_at buf 0))

  -- What the engine made of a frame. `opened_now` says that this frame opened the transfer.
  unfoldable pub after_consume : File A → Bool → Rc × Multipart (Plane A) → Bool × File A
  after_consume f opened_now (err, mp) =
      let failed = record f { mp = mp } in
      let counted = record failed { errors = f.errors + 1 } in
      if mp.arg.write_failed
      then (true, failed)
      else (false, (if opened_now then transition_done counted aborted else counted))
  after_consume f opened_now (early_term, mp) =
      (true, record f { mp = mp; keep_alive_pending = true })
  after_consume f opened_now (more, mp) = (
    true,
    record f {
      mp = mp;
      keep_alive_pending = if mp.last_len == 0 then true else f.keep_alive_pending;
    },
  )
  after_consume f opened_now (Rc.done, mp) = (
    true,
    record f {
      mp = mp;
      keep_alive_pending = if mp.last_len == 0 then true else f.keep_alive_pending;
    },
  )
  after_consume f opened_now (Rc.retry, mp) = (
    true,
    record f {
      mp = mp;
      keep_alive_pending = if mp.last_len == 0 then true else f.keep_alive_pending;
    },
  )

  unfoldable pub consume : Bool → Bool × File A → List ℕ → ℕ → Bool × File A
  unfolding after_consume
  consume opened_now (false, f) buf len = (false, f)
  consume opened_now (true, f) buf len =
      after_consume f opened_now (rx_consume f.mp (drop 1 buf) (len - 1))

  -- `true` is the return value 0.
  unfoldable pub cmd_tx_decode : File A → List ℕ → ℕ → Bool × File A
  unfolding open_transfer consume
  cmd_tx_decode f buf len =
      if ltb len frame_header
      then (false, f)
      else if is_active f.mp
      then consume false (true, f) buf len
      else consume true (open_transfer f buf len (hdr_read w32 (drop 1 buf) (len - 1))) buf len

  -- A finalize() that is not there is done, with the outcome OK.
  abbrev pub ask_finalize : Option (A → Verdict × A) → A → Verdict × A
  ask_finalize none a = (record { ready = true; outcome = finished; delay = 0 }, a)
  ask_finalize (some finalize) a = finalize a

  -- The end of the file is reached, and the application's verdict is there.
  unfoldable pub on_verdict : File A → Verdict → ℕ → Stat × File A
  on_verdict f v now =
      let since = if f.finalize_tstamp == 0 then now else f.finalize_tstamp in
      let outcome = if v.ready then v.outcome else aborted in
      let stamped = if v.ready then f else record f { finalize_tstamp = since } in
      if not v.ready && ltb (now - since) finalize_timeout_ms
      then (reply status_keep_alive v.delay, stamped)
      else (reply (wire_status_from_outcome outcome) 0, transition_done stamped outcome)

  -- The commit of the chunk that is acked, and its status.
  unfoldable pub ack_chunk : File A → ℤ × File A
  ack_chunk f =
      if f.keep_alive_pending
      then (status_ack, record f { keep_alive_pending = false })
      else if ltb 0 f.mp.last_len
      then (status_ack, record f { mp = rx_commit f.mp })
      else (status_err_invalid, f)

  unfoldable pub finish_chunk : ℤ × File A → ℕ → Stat × File A
  unfolding on_verdict
  finish_chunk (status, f) now =
      let (v, a) = ask_finalize f.ops.finalize (app_of f) in
      if f.mp.offset == f.mp.total && not (f.mp.total == 0)
      then on_verdict (with_app f a) v now
      else (reply status 0, f)

  unfoldable pub stat_of : File A → ℕ → Stat × File A
  unfolding ack_chunk finish_chunk
  stat_of f now =
      if f.mp.arg.write_failed
      then (reply status_err_abort 0, transition_done f aborted)
      else finish_chunk (ack_chunk f) now

  -- The length that is written, or `none` for -1.
  unfoldable pub cmd_stat_build : File A → List ℕ → ℕ → ℕ → Option ℕ × List ℕ × File A
  unfolding stat_of
  cmd_stat_build f buf max_len now =
      let (stat, f') = stat_of f now in
      let (n, out) = write_stat stat buf in
      if not (is_active f.mp)
      then (none, buf, f)
      else if ltb max_len stat_size
      then (none, buf, f)
      else (some n, out, f')
