-- ===== src/File/Control.antt =====
-- Starting, scheduling, cancelling and aborting a file transfer (src/osdp_file.c: osdp_file_tx_command,
-- osdp_file_tx_get_command, osdp_file_tx_request_cancel, osdp_file_tx_abort, osdp_file_register_ops and
-- osdp_get_file_tx_status), on registered file operations.
use libosdp.Common.{
  ℕ, Bool, true, false, not, ◌||◌, Option, none, some, ltb, ◌==◌, if◌then◌else◌, has_bit,
}
use libosdp.Multipart.{Multipart, Action, data_now, w32, is_active}
use libosdp.Multipart.Lifecycle.{
  emit_start, request_cancel, cancel_requested, tx_next, set_identity,
}
use libosdp.Multipart.Tx.{tx_init}
use libosdp.File.{
  File, Plane, aborted, flag_exclusive, flag_poll_resp, msg_file_transfer, app_of, opened_with,
  with_app, state_reset, transition_done, closed_with,
}

-- OSDP_FILE_ERROR_RETRY_MAX
abbrev pub error_retry_max : ℕ
error_retry_max = 10

-- CMD_POLL, CMD_FILETRANSFER, CMD_ABORT
abbrev pub cmd_poll : ℕ
cmd_poll = 0x60

abbrev pub cmd_filetransfer : ℕ
cmd_filetransfer = 0x7C

abbrev pub cmd_abort : ℕ
cmd_abort = 0xA2

-- What the control panel is to send: nothing of this module's (0), nothing at all (-1), or a command.
pub data Next : Type 0 where
  nothing hold : Next
  send : ℕ → Next

abbrev pub next_of : ℕ → Action → Next
next_of flags Action.wait = if has_bit flag_exclusive flags then hold else nothing
next_of flags data_now =
    if has_bit flag_poll_resp flags then send cmd_poll else send cmd_filetransfer
next_of flags Action.done = nothing

module _ {A : Type 0} where
  -- osdp_file_tx_request_cancel; `true` is 0.
  unfoldable pub tx_request_cancel : File A → Bool × File A
  tx_request_cancel f =
      if is_active f.mp then (true, record f { mp = request_cancel f.mp }) else (false, f)

  unfoldable pub tx_abort : File A → File A
  tx_abort f = if is_active f.mp then transition_done f aborted else f

  -- `now` is osdp_millis_now().
  unfoldable pub tx_get_command : File A → ℕ → Next × File A
  tx_get_command f now =
      let started = record f { mp = emit_start f.mp } in
      if not (is_active f.mp)
      then (nothing, f)
      else if ltb error_retry_max f.errors || cancel_requested f.mp
      then (send cmd_abort, transition_done started aborted)
      else (next_of f.flags (tx_next started.mp now), started)

  -- The engine is set to send; a size of 0 was refused before.
  abbrev pub or_same : Multipart (Plane A) → Option (Multipart (Plane A)) → Multipart (Plane A)
  or_same mp none = mp
  or_same mp (some mp') = mp'

  unfoldable pub begin_send : File A → ℕ → ℕ → ℕ → File A
  begin_send f id flags' size =
      let fresh = state_reset f in
      let identified = set_identity fresh.mp msg_file_transfer id in
      record fresh {
        flags = flags';
        file_id = id;
        is_open = true;
        mp = or_same identified (tx_init identified size w32);
      }

  -- A file that is empty is closed again.
  unfoldable pub on_opened : File A → ℕ → ℕ → Option ℕ × A → Bool × File A
  unfolding begin_send
  on_opened f id flags' (none, a) = (false, with_app f a)
  on_opened f id flags' (some size, a) =
      if size == 0
      then (false, closed_with (opened_with f a))
      else (true, begin_send (opened_with f a) id flags' size)

  -- osdp_file_tx_command; `engine_busy` is osdp_mp_engine_busy(pd), `true` is 0.
  unfoldable pub tx_command : File A → Bool → ℕ → ℕ → Bool × File A
  unfolding on_opened
  tx_command f engine_busy id flags' =
      if f.in_terminal || (is_active f.mp || engine_busy)
      then (false, f)
      else on_opened f id flags' (f.ops.open_file (app_of f) id 0)

  -- osdp_get_file_tx_status: the size and the offset.
  unfoldable pub get_file_tx_status : File A → Option (ℕ × ℕ)
  get_file_tx_status f = if is_active f.mp then some (f.mp.total, f.mp.offset) else none
