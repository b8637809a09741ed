-- ===== src/Pd/Ledger/Passes.antt =====
-- The events of a PD over any sequence of passes of osdp_pd_refresh and calls of osdp_pd_submit_event and
-- osdp_pd_flush_events (src/osdp_pd.c).
use libosdp.Common.{
  ℕ, ◌≡◌, refl, ◌⊎◌, inl, inr, Bool, true, false, ◌&&◌, Option, none, some, List, if_both, if_known,
  ltb, ◌==◌, ℤ, pos, negsuc,
}
use libosdp.Crypto.{Crypto}
use libosdp.Device.{Device, sc_is_active, cmd_keyset, reply_ack}
use libosdp.Phy.{PktError, err_skip, err_fmt, err_check, err_busy, err_nack, err_build, err_wait_tx}
use libosdp.Phy.Build.{send_packet}
use libosdp.Phy.Check.{phy_check_packet}
use libosdp.Phy.Decode.{decode_packet}
use libosdp.Cp.{Completion, ok, failed, millis_since, pd_status}
use libosdp.Pd.Peripheral.{Peripheral, App}
use libosdp.Pd.Engines.{Engines}
use libosdp.Pd.Dispatch.{
  PdErr, pd_err_none, pd_err_wait, pd_err_generic, pd_err_reply, pd_err_ignore, pd_err_no_data,
  pd_err_retry_send,
}
use libosdp.Pd.Update.{
  on_decoded, on_checked, receive_and_process_command, error_reset, moved, commit, on_sent,
  send_reply, on_built, check_session, check_link, go_online, touch_session, answer, on_received,
  update, pd_sc_timeout_ms, pd_online_tout_ms, resp_tout_ms, quieted, release_event,
}
use libosdp.Pd.Ledger.{
  IsAccounted, IsSettled, Keeps, same, Keeps-trans, command_callback-Keeping,
  deliver_notification-Keeps, sc_deactivate-Keeps, release-IsAccounted, IsSettled-after,
}
use libosdp.Pd.Ledger.Decoding.{
  is_quiet, IsIdle, IsDecoded, IsIdle-after, dev-IsAccounted, dev-IsIdle,
}
use libosdp.Pd.Ledger.Choice.{decode-IsDecoded}
use libosdp.Pd.Ledger.Replies.{IsBuilt, reply-IsBuilt}

-- What was received: either the pass ends with no event on its way out, or the events are accounted for.
pub record IsReceived {E : Type 0} (r : PdErr × Peripheral E) : Type 0 where
  pub events : IsAccounted r.1
  pub stays_idle : is_quiet r.0 ≡ true → r.1.active_event ≡ none

module _ {E : Type 0} where
  IsSettled-idle : {p : Peripheral E} → IsIdle p → IsSettled p
  IsSettled-idle h = record { events = h.events; none_active = λ e. h.none_active }

  quieted-IsIdle : {p : Peripheral E} → IsIdle p → IsIdle (quieted p)
  quieted-IsIdle h = dev-IsIdle _ h

  release-IsIdle : (p : Peripheral E) (s : Completion) → IsAccounted p → IsIdle (release_event p s)
  release-IsIdle p s h = record { events = release-IsAccounted p s h; none_active = refl }

  module _ (crc16 : List ℕ → ℕ) (c : Crypto) (engines : Engines E) (app : App) (now : ℕ) where
    decoded-IsReceived : (r : PdErr × Peripheral E) → IsDecoded r → IsReceived r
    decoded-IsReceived r h = record { events = h.events; stays_idle = λ e. cc (h.goes_on) }

    idle-IsReceived : (e : PdErr) (p : Peripheral E) → IsIdle p → IsReceived (e, p)
    idle-IsReceived e p h = record { events = h.events; stays_idle = λ q. h.none_active }

    on_decoded-IsReceived :
        (p : Peripheral E) (r : PktError ⊎ (ℕ × ℤ))
        → IsIdle p
        → IsReceived (on_decoded crc16 c engines app now p r)
    unfolding on_decoded
    on_decoded-IsReceived p (inl err_nack) h = idle-IsReceived pd_err_reply p h
    on_decoded-IsReceived p (inl _) h = idle-IsReceived pd_err_generic p h
    on_decoded-IsReceived p (inr (start, negsuc n)) h = idle-IsReceived pd_err_generic p h
    on_decoded-IsReceived p (inr (start, pos n)) h =
        if_both IsReceived (n == 0) _ _ (idle-IsReceived pd_err_generic p h)
          (decoded-IsReceived _ (decode-IsDecoded engines app crc16 c p _ _ h))

    checked-IsReceived :
        (p : Peripheral E) (e : Option PktError)
        → IsIdle p
        → IsReceived (on_checked crc16 c engines app now p e)
    unfolding on_checked
    checked-IsReceived p none h =
        on_decoded-IsReceived _ (decode_packet c p.dev).0 (dev-IsIdle (decode_packet c p.dev).1 h)
    checked-IsReceived p (some err_nack) h = idle-IsReceived pd_err_reply p h
    checked-IsReceived p (some PktError.err_no_data) h = idle-IsReceived pd_err_no_data p h
    checked-IsReceived p (some PktError.err_wait) h = idle-IsReceived pd_err_wait p h
    checked-IsReceived p (some err_skip) h =
        idle-IsReceived pd_err_ignore (quieted p) (quieted-IsIdle h)
    checked-IsReceived p (some err_check) h = idle-IsReceived pd_err_ignore p h
    checked-IsReceived p (some err_busy) h = idle-IsReceived pd_err_no_data p h
    checked-IsReceived p (some err_fmt) h = idle-IsReceived pd_err_generic p h
    checked-IsReceived p (some err_build) h = idle-IsReceived pd_err_generic p h
    checked-IsReceived p (some err_wait_tx) h = idle-IsReceived pd_err_generic p h

    receive_and_process_command-IsReceived :
        (p : Peripheral E) (calls : List (List ℕ))
        → IsIdle p
        → IsReceived (receive_and_process_command crc16 c engines app now p calls)
    unfolding receive_and_process_command
    receive_and_process_command-IsReceived p calls h =
        checked-IsReceived _ (phy_check_packet crc16 p.dev calls now).0.0 (record {
          events = record { gives_back = h.events.gives_back; accounted = h.events.accounted };
          none_active = h.none_active;
        })

    reset-IsSettled :
        (p : Peripheral E) → IsAccounted p → IsSettled (error_reset crc16 c engines app now p)
    unfolding error_reset
    reset-IsSettled p h =
        IsSettled-idle
          (quieted-IsIdle (IsIdle-after (sc_deactivate-Keeps app _) (release-IsIdle p failed h)))

    rekeyed :
        (p : Peripheral E) (pd : Device) (key : List ℕ)
        → Keeps p (record p { dev = pd; keyset_pending = key })
    rekeyed p pd key = record {
      accounts = λ h. record { gives_back = h.gives_back; accounted = h.accounted };
      active = refl;
      parked = refl;
    }

    moved-Keeps : (p q : Peripheral E) → Keeps p q → Keeps p (moved crc16 c engines app now p q)
    moved-Keeps p q k = record {
      accounts = λ h.
          let g = k.accounts h in record { gives_back = g.gives_back; accounted = g.accounted };
      active = k.active;
      parked = k.parked;
    }

    commit-Keeps : (p : Peripheral E) → Keeps p (commit crc16 c engines app now p)
    unfolding commit
    commit-Keeps p =
        if_both (Keeps p) (p.dev.cmd_id == cmd_keyset && p.dev.reply_id == reply_ack) _ _
          (Keeps-trans (rekeyed p _ _) (sc_deactivate-Keeps app _))
          (if_both (Keeps p) (p.dev.cmd_id == 0x6E && p.dev.reply_id == 0x54) _ _
            (moved-Keeps p _ (command_callback-Keeping app p _).keeps) (same p))

    sent-IsSettled :
        (p : Peripheral E) (r : PktError ⊎ ℕ)
        → IsAccounted p
        → p.reply_prebuilt ≡ true
        → IsSettled (on_sent crc16 c engines app now p r)
    unfolding on_sent
    sent-IsSettled p (inl err_wait_tx) h e = record { events = h; none_active = λ n. cc (e) }
    sent-IsSettled p (inr n) h e = IsSettled-idle (
        quieted-IsIdle (
          dev-IsIdle _ (
            IsIdle-after (commit-Keeps _) (
              release-IsIdle _ ok
                (record { gives_back = h.gives_back; accounted = h.accounted })))))
    sent-IsSettled p (inl _) h e = IsSettled-idle (
        quieted-IsIdle
          (release-IsIdle _ failed (record { gives_back = h.gives_back; accounted = h.accounted })))

    send-IsSettled :
        (p : Peripheral E) (sent : ℤ)
        → IsAccounted p
        → p.reply_prebuilt ≡ true
        → IsSettled (send_reply crc16 c engines app now p sent)
    unfolding send_reply
    send-IsSettled p sent h e =
        sent-IsSettled _ (send_packet p.dev sent p.dev.packet_buf_len).0
          (dev-IsAccounted (send_packet p.dev sent p.dev.packet_buf_len).1 h) e

    built-IsSettled :
        (r : Bool × Peripheral E) (sent : ℤ)
        → IsBuilt r
        → IsSettled (on_built crc16 c engines app now r sent)
    unfolding on_built
    built-IsSettled (false, p) sent h = reset-IsSettled p h.events
    built-IsSettled (true, p) sent h = send-IsSettled p sent h.events (h.parked refl)

    online-Keeps : (p : Peripheral E) → Keeps p (go_online crc16 c engines app now p)
    unfolding go_online
    online-Keeps p = if_both (Keeps p) p.is_online _ _ (same p) (
        Keeps-trans
          (record {
            accounts = λ h. record { gives_back = h.gives_back; accounted = h.accounted };
            active = refl;
            parked = refl;
          })
          (deliver_notification-Keeps app (record p { is_online = true }) (pd_status true)))

    touch-Keeps :
        (b : Bool) (p : Peripheral E) → Keeps p (touch_session crc16 c engines app now b p)
    unfolding touch_session
    touch-Keeps b p =
        if_both (Keeps p) (b && sc_is_active p.dev) _ _
          (record {
            accounts = λ h. record { gives_back = h.gives_back; accounted = h.accounted };
            active = refl;
            parked = refl;
          })
          (same p)

    answer-IsSettled :
        (b : Bool) (p : Peripheral E) (sent : ℤ)
        → IsAccounted p
        → IsSettled (answer crc16 c engines app now b p sent)
    unfolding answer
    answer-IsSettled b p sent h =
        let online = go_online crc16 c engines app now p in
        let touched = touch_session crc16 c engines app now b online in
        let k = (Keeps-trans (online-Keeps p) (touch-Keeps b online)).accounts h in
        if_known IsSettled touched.reply_prebuilt _ _ (send-IsSettled touched sent k)
          (λ e. built-IsSettled _ sent (reply-IsBuilt c app now engines crc16 touched k))

    received-IsSettled :
        (r : PdErr × Peripheral E) (sent : ℤ)
        → IsReceived r
        → IsSettled (on_received crc16 c engines app now r sent)
    unfolding on_received
    received-IsSettled (pd_err_ignore, p) sent h = record {
      events = h.events;
      none_active = λ e. h.stays_idle refl;
    }
    received-IsSettled (pd_err_no_data, p) sent h = record {
      events = h.events;
      none_active = λ e. h.stays_idle refl;
    }
    received-IsSettled (pd_err_wait, p) sent h =
        if_both IsSettled (ltb (millis_since now p.dev.tstamp) resp_tout_ms) _ _
          (record { events = h.events; none_active = λ e. h.stays_idle refl })
          (reset-IsSettled p h.events)
    received-IsSettled (pd_err_generic, p) sent h = reset-IsSettled p h.events
    received-IsSettled (pd_err_retry_send, p) sent h = reset-IsSettled p h.events
    received-IsSettled (pd_err_none, p) sent h = answer-IsSettled true p sent h.events
    received-IsSettled (pd_err_reply, p) sent h = answer-IsSettled false p sent h.events

    session-Keeps : (p : Peripheral E) → Keeps p (check_session crc16 c engines app now p)
    unfolding check_session
    session-Keeps p =
        if_both (Keeps p)
          (sc_is_active p.dev && ltb pd_sc_timeout_ms (millis_since now p.sc_tstamp)) _ _
          (sc_deactivate-Keeps app p) (same p)

    link-Keeps : (p : Peripheral E) → Keeps p (check_link crc16 c engines app now p)
    unfolding check_link
    link-Keeps p =
        if_both (Keeps p) (p.is_online && ltb pd_online_tout_ms (millis_since now p.dev.tstamp)) _ _
          (Keeps-trans
            (record {
              accounts = λ h. record { gives_back = h.gives_back; accounted = h.accounted };
              active = refl;
              parked = refl;
            })
            (deliver_notification-Keeps app
              (record p { is_online = false; engines = engines.abort p.engines })
              (pd_status false)))
          (same p)

    pub update-IsSettled :
        (p : Peripheral E) (calls : List (List ℕ)) (sent : ℤ)
        → IsSettled p
        → IsSettled (update crc16 c engines app now p calls sent)
    unfolding update
    update-IsSettled p calls sent h =
        let timed = check_session crc16 c engines app now p in
        let q = check_link crc16 c engines app now timed in
        let k = IsSettled-after (Keeps-trans (session-Keeps p) (link-Keeps timed)) h in
        if_known IsSettled q.reply_prebuilt _ _ (send-IsSettled q sent k.events) (λ e.
          received-IsSettled _ sent (
            receive_and_process_command-IsReceived q calls
              (record { events = k.events; none_active = k.none_active e })))
