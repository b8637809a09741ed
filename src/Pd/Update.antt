-- ===== src/Pd/Update.antt =====
-- osdp_pd_update of src/osdp_pd.c, one pass of the refresh loop of a PD: a packet is received and its command
-- run, or the reply that still waits is sent. Beside it, the flush of the event queue.
use libosdp.Common.{
  ℕ, ◌+◌, ◌-◌, ◌⊎◌, inl, inr, Bool, true, false, ◌&&◌, Option, none, some, List, [], ◌∷◌, ltb, ◌==◌,
  if◌then◌else◌, take, drop, replicate, ℤ, pos, negsuc, u8, u16,
}
use libosdp.Bytes.{byte_at}
use libosdp.Crypto.{Crypto}
use libosdp.Device.{sc_is_active, cmd_keyset, reply_ack}
use libosdp.Cp.{Completion, ok, failed, flushed, pd_status, millis_since}
use libosdp.Phy.{
  PktError, err_skip, err_fmt, err_check, err_busy, err_nack, err_build, err_wait_tx, mark_len,
}
use libosdp.Phy.Sequence.{progress_sequence}
use libosdp.Phy.Build.{send_packet}
use libosdp.Phy.Check.{phy_check_packet}
use libosdp.Phy.Decode.{decode_packet, state_reset}
use libosdp.Pd.Event.{Event}
use libosdp.Pd.Peripheral.{
  Peripheral, App, comset_done, with_dev, complete_event, command_callback, deliver_notification,
  pd_sc_deactivate,
}
use libosdp.Pd.Engines.{Engines}
use libosdp.Pd.Dispatch.{
  PdErr, pd_err_none, pd_err_wait, pd_err_generic, pd_err_reply, pd_err_ignore, pd_err_no_data,
  pd_err_retry_send,
}
use libosdp.Pd.Decode.{decode_command}
use libosdp.Pd.Reply.{build_reply_packet}

-- OSDP_PD_SC_TIMEOUT_MS, OSDP_PD_ONLINE_TOUT_MS and OSDP_RESP_TOUT_MS
abbrev pub pd_sc_timeout_ms : ℕ
pd_sc_timeout_ms = 8000

abbrev pub pd_online_tout_ms : ℕ
pd_online_tout_ms = 8000

abbrev pub resp_tout_ms : ℕ
resp_tout_ms = 200

module _ {E : Type 0} where
  -- The active event goes back to the application.
  abbrev pub release_event : Peripheral E → Completion → Peripheral E
  release_event p s = record (complete_event p p.active_event s) { active_event = none }

  abbrev pub quieted : Peripheral E → Peripheral E
  quieted p = with_dev p (state_reset p.dev false)

  -- pd_drain_queue: how many events went back.
  unfoldable pub drain_events : Peripheral E → List Event → Completion → ℕ × Peripheral E
  drain_events p [] s = (0, p)
  drain_events p (ev ∷ rest) s =
      let r = drain_events (complete_event p (some ev) s) rest s in (r.0 + 1, r.1)

  -- osdp_pd_flush_events
  unfoldable pub flush_events : Peripheral E → ℕ × Peripheral E
  flush_events p = drain_events (record p { event_queue = [] }) p.event_queue flushed

module _ {E : Type 0} (crc16 : List ℕ → ℕ) (c : Crypto) (engines : Engines E) (app : App)
    (now : ℕ) where
  -- The command in the `len` bytes from `start` on, which count its ID. `start` leaves out the mark byte.
  unfoldable pub on_decoded : Peripheral E → PktError ⊎ (ℕ × ℤ) → PdErr × Peripheral E
  on_decoded p (inl err_nack) = (pd_err_reply, p)
  on_decoded p (inl _) = (pd_err_generic, p)
  on_decoded p (inr (start, negsuc n)) = (pd_err_generic, p)
  on_decoded p (inr (start, pos n)) =
      let buf = drop (mark_len p.dev + start) p.dev.packet_buf in
      if n == 0
      then (pd_err_generic, p)
      else decode_command app crc16 c engines p (byte_at buf 0) (take (n - 1) (drop 1 buf))

  -- The result of the check of the packet. Its error codes are those of the PD from here on, so that
  -- OSDP_ERR_PKT_CHECK reads as OSDP_PD_ERR_IGNORE and OSDP_ERR_PKT_BUSY as OSDP_PD_ERR_NO_DATA.
  unfoldable pub on_checked : Peripheral E → Option PktError → PdErr × Peripheral E
  unfolding on_decoded
  on_checked p none = let (r, pd) = decode_packet c p.dev in on_decoded (with_dev p pd) r
  on_checked p (some err_nack) = (pd_err_reply, p)
  on_checked p (some PktError.err_no_data) = (pd_err_no_data, p)
  on_checked p (some PktError.err_wait) = (pd_err_wait, p)
  on_checked p (some err_skip) = (pd_err_ignore, quieted p)
  on_checked p (some err_check) = (pd_err_ignore, p)
  on_checked p (some err_busy) = (pd_err_no_data, p)
  on_checked p (some err_fmt) = (pd_err_generic, p)
  on_checked p (some err_build) = (pd_err_generic, p)
  on_checked p (some err_wait_tx) = (pd_err_generic, p)

  -- pd_receive_and_process_command; `calls` are the answers of the channel.
  unfoldable pub receive_and_process_command : Peripheral E → List (List ℕ) → PdErr × Peripheral E
  unfolding on_checked
  receive_and_process_command p calls =
      let checked = phy_check_packet crc16 p.dev calls now in
      on_checked (record p { dev = checked.0.1; reply_prebuilt = false }) checked.0.0

  -- pd_error_reset
  unfoldable pub error_reset : Peripheral E → Peripheral E
  error_reset p = quieted (pd_sc_deactivate app (release_event p failed))

  -- The address and the speed of COMSET.
  abbrev pub moved : Peripheral E → Peripheral E → Peripheral E
  moved p q = record q {
    baud_rate = p.comset_baud_rate;
    dev = record q.dev { address = p.comset_address };
  }

  -- What a reply brings into force once it is sent: the new key, or the new address and speed.
  unfoldable pub commit : Peripheral E → Peripheral E
  commit p =
      if p.dev.cmd_id == cmd_keyset && p.dev.reply_id == reply_ack
      then pd_sc_deactivate app (record p {
        keyset_pending = replicate 16 0;
        dev = record p.dev {
          sc = record p.dev.sc { scbk = take 16 p.keyset_pending };
          flags = record p.dev.flags { sc_use_scbkd = false; install_mode = false };
        };
      })
      else if p.dev.cmd_id == 0x6E && p.dev.reply_id == 0x54
      then moved p (command_callback app p (comset_done p.comset_address p.comset_baud_rate)).1
      else p

  -- pd_send_reply, and what osdp_pd_update does with its result.
  unfoldable pub on_sent : Peripheral E → PktError ⊎ ℕ → Peripheral E
  unfolding commit
  on_sent p (inl err_wait_tx) = p
  on_sent p (inl _) = quieted (
      release_event (record p { reply_prebuilt = false; dev = record p.dev { packet_buf_len = 0 } })
        failed)
  on_sent p (inr n) =
      let sent = record p {
        reply_prebuilt = false;
        dev = record p.dev {
          packet_buf_len = 0;
          last_tx_len = u16 n;
          last_cmd_id = u8 p.dev.cmd_id;
        };
      } in
      let done = commit (release_event sent ok) in
      quieted (with_dev done (progress_sequence done.dev))

  -- `sent` is the return value of the channel's send callback.
  unfoldable pub send_reply : Peripheral E → ℤ → Peripheral E
  unfolding on_sent
  send_reply p sent =
      let (r, pd) = send_packet p.dev sent p.dev.packet_buf_len in on_sent (with_dev p pd) r

  unfoldable pub on_built : Bool × Peripheral E → ℤ → Peripheral E
  unfolding send_reply error_reset
  on_built (false, p) sent = error_reset p
  on_built (true, p) sent = send_reply p sent

  -- A session that was idle for too long is over.
  unfoldable pub check_session : Peripheral E → Peripheral E
  check_session p =
      if sc_is_active p.dev && ltb pd_sc_timeout_ms (millis_since now p.sc_tstamp)
      then pd_sc_deactivate app p
      else p

  -- A CP that was silent for too long is gone.
  unfoldable pub check_link : Peripheral E → Peripheral E
  check_link p =
      if p.is_online && ltb pd_online_tout_ms (millis_since now p.dev.tstamp)
      then deliver_notification app
          (record p { is_online = false; engines = engines.abort p.engines }) (pd_status false)
      else p

  unfoldable pub go_online : Peripheral E → Peripheral E
  go_online p =
      if p.is_online
      then p
      else deliver_notification app (record p { is_online = true }) (pd_status true)

  -- A command that was accepted keeps the session alive.
  unfoldable pub touch_session : Bool → Peripheral E → Peripheral E
  touch_session accepted p =
      if accepted && sc_is_active p.dev then record p { sc_tstamp = now } else p

  unfoldable pub answer : Bool → Peripheral E → ℤ → Peripheral E
  unfolding on_built go_online touch_session
  answer accepted p sent =
      let q = touch_session accepted (go_online p) in
      if q.reply_prebuilt
      then send_reply q sent
      else on_built (build_reply_packet engines c app now crc16 q) sent

  unfoldable pub on_received : PdErr × Peripheral E → ℤ → Peripheral E
  unfolding answer error_reset
  on_received (pd_err_ignore, p) sent = p
  on_received (pd_err_no_data, p) sent = p
  on_received (pd_err_wait, p) sent =
      if ltb (millis_since now p.dev.tstamp) resp_tout_ms then p else error_reset p
  on_received (pd_err_generic, p) sent = error_reset p
  on_received (pd_err_retry_send, p) sent = error_reset p
  on_received (pd_err_none, p) sent = answer true p sent
  on_received (pd_err_reply, p) sent = answer false p sent

  -- osdp_pd_update
  unfoldable pub update : Peripheral E → List (List ℕ) → ℤ → Peripheral E
  unfolding check_session check_link receive_and_process_command on_received send_reply
  update p calls sent =
      let q = check_link (check_session p) in
      if q.reply_prebuilt
      then send_reply q sent
      else on_received (receive_and_process_command q calls) sent
