-- ===== src/Cp/Link.antt =====
-- The life of one command on the bus (src/osdp_cp.c: cp_phy_state_update and cp_process_reply): sending,
-- waiting for the channel, waiting for the reply, retries, and the end in DONE or ERR.
use libosdp.Common.{
  ℕ, ◌+◌, ◌-◌, ◌*◌, ◌/◌, ◌%◌, ℤ, sub_ℕ, ◌⊎◌, inl, inr, Bool, true, false, not, ◌&&◌, ◌||◌, Option,
  none, some, List, ◌==◌, if◌then◌else◌, ltb, leb,
}
use libosdp.Metrics.{command}
use libosdp.Device.{sc_is_active, reply_busy, nak_seq_num, nak_sc_cond, report_metric}
use libosdp.Phy.{PktError, err_wait, err_no_data, err_busy, err_nack, err_wait_tx}
use libosdp.Phy.Build.{send_packet}
use libosdp.Phy.Decode.{state_reset}
use libosdp.Phy.Sequence.{progress_sequence}
use libosdp.Cp.{
  Panel, Rc, rc_none, rc_generic, rc_no_data, rc_retry_cmd, rc_defer, rc_inprog, rc_unknown,
  rc_seq_num, rc_app, millis_since, phy_send_cmd, phy_send_cmd_wait, phy_reply_wait, phy_wait,
  phy_retry_cmd, phy_done, phy_err,
}
use libosdp.Cp.Online.{cmd_poll, EngineNext, request_restart}

-- What the state machine calls below and beside it: the packet layer's check and decoding of a reply, the
-- builder of command packets (cp_build_packet; `true` is OSDP_CP_ERR_NONE), the decoder of replies
-- (cp_decode_response) and the feature engines.
pub record Layers : Type 0 where
  pub build_packet : Panel → Bool × Panel
  pub check_packet : Panel → Option PktError × Panel
  pub decode_packet : Panel → Option (List ℕ × ℕ) × Panel
  pub decode_response : Panel → List ℕ → ℕ → Rc × Panel
  pub engine_command : Panel → EngineNext × Panel
  pub engines_abort : Panel → Panel
  pub file_tx_command : Panel → ℕ → ℕ → Bool × Panel
  pub file_tx_abort : Panel → Panel
  pub piv_abort : Panel → Panel
  pub piv_owns_cmd : Panel → ℕ → Bool
  pub bio_owns_cmd : Panel → ℕ → Bool

-- OSDP_CMD_MAX_RETRIES, OSDP_CMD_RETRY_WAIT_MS and OSDP_RESP_TOUT_MS
abbrev pub cmd_max_retries : ℕ
cmd_max_retries = 8

abbrev pub cmd_retry_wait_ms : ℕ
cmd_retry_wait_ms = 800

abbrev pub resp_tout_ms : ℕ
resp_tout_ms = 200

abbrev pub with_phy : Panel → ℕ → Panel
with_phy p s = record p { pd = record p.pd { phy_state = s } }

abbrev pub is_cmd_poll : Panel → Bool
is_cmd_poll p = p.pd.cmd_id == cmd_poll

-- cp_phy_running, with cp_phy_bus_is_busy
unfoldable pub phy_running : Panel → Bool
phy_running p =
    let s = p.pd.phy_state in
    s == phy_send_cmd
    || (s == phy_send_cmd_wait || (s == phy_reply_wait || (s == phy_wait || s == phy_retry_cmd)))

-- cp_phy_state_done
unfoldable pub phy_state_done : Panel → ℕ → Panel
phy_state_done p now =
    let t = if sc_is_active p.pd then now else p.sc_tstamp in
    record p { sc_tstamp = t; pd = record p.pd { phy_retry_count = 0; phy_state = phy_done } }

-- cp_phy_state_wait
unfoldable pub phy_state_wait : Panel → ℕ → ℕ → Panel
phy_state_wait p wait now = record p {
  wait_ms = wait;
  phy_tstamp = now;
  pd = record p.pd { phy_state = phy_wait };
}

-- cp_calculate_transmit_time; the quotient becomes a uint32_t.
unfoldable pub calculate_transmit_time : Panel → ℕ
calculate_transmit_time p =
    (p.pd.packet_buf_len * 10000 + p.baud_rate - 1) / p.baud_rate % 4294967296

-- The label "error".
abbrev pub phy_failed : Panel → Rc × Panel
phy_failed p = (rc_generic, with_phy p phy_err)

module _ (layers : Layers) where
  unfoldable pub after_decode : Option (List ℕ × ℕ) × Panel → Rc × Panel
  after_decode (none, p) = (rc_generic, p)
  after_decode (some (buf, len), p) = layers.decode_response p buf len

  unfoldable pub on_nack : Panel → Rc × Panel
  on_nack p =
      if p.pd.nak_code == nak_seq_num
      then (rc_seq_num, record p { request = record p.request { link_reset = true } })
      else (rc_generic, if p.pd.nak_code == nak_sc_cond then request_restart p else p)

  -- What follows osdp_phy_check_packet.
  unfoldable pub after_check : Option PktError × Panel → Rc × Panel
  unfolding after_decode on_nack
  after_check (none, p) = after_decode (layers.decode_packet p)
  after_check (some err_wait, p) = (rc_no_data, p)
  after_check (some err_no_data, p) = (rc_no_data, p)
  after_check (some err_busy, p) =
      (rc_retry_cmd, record p { pd = record p.pd { reply_id = reply_busy } })
  after_check (some err_nack, p) = on_nack p
  after_check (some _, p) = (rc_generic, p)

  -- cp_process_reply
  unfoldable pub process_reply : Panel → Rc × Panel
  unfolding after_check
  process_reply p = after_check (layers.check_packet p)

  -- The end of OSDP_CP_PHY_STATE_SEND_CMD_WAIT: `ret` is the return value of the channel's send callback.
  unfoldable pub after_send : Panel → ℕ → PktError ⊎ ℕ → Rc × Panel
  after_send p now (inl err_wait_tx) = (rc_defer, p)
  after_send p now (inl _) = phy_failed p
  after_send p now (inr n) =
      let sent = state_reset (report_metric p.pd command) false in
      let waiting = record p {
        phy_tstamp = now;
        pd = record sent { reply_id = 0; phy_state = phy_reply_wait };
      } in
      (
        rc_inprog,
        record waiting { resp_timeout_ms = resp_tout_ms + calculate_transmit_time waiting },
      )

  unfoldable pub send_parked : Panel → ℤ → ℕ → Rc × Panel
  unfolding after_send
  send_parked p ret now =
      let (r, pd') = send_packet p.pd ret p.pd.packet_buf_len in
      after_send (record p { pd = pd' }) now r

  unfoldable pub after_build : Bool × Panel → ℤ → ℕ → Rc × Panel
  unfolding send_parked
  after_build (false, p) ret now = phy_failed p
  after_build (true, p) ret now = send_parked (with_phy p phy_send_cmd_wait) ret now

  -- OSDP_CP_PHY_STATE_RETRY_CMD rewinds the sequence number; flushing the channel keeps no state here.
  unfoldable pub rewind : Panel → Panel
  rewind p = record p {
    pd = record p.pd { seq_number = sub_ℕ p.pd.phy_tx_seq 1; phy_state = phy_send_cmd };
  }

  -- The reply is still missing.
  unfoldable pub on_silence : Panel → ℕ → Rc × Panel
  on_silence p now =
      if not (ltb p.resp_timeout_ms (millis_since now p.phy_tstamp))
      then (rc_inprog, p)
      else if ltb p.pd.phy_retry_count cmd_max_retries
      then (
        rc_defer,
        phy_state_wait
            (record p { pd = record p.pd { phy_retry_count = p.pd.phy_retry_count + 1 } })
            cmd_retry_wait_ms now,
      )
      else phy_failed p

  unfoldable pub on_retry : Panel → ℕ → Rc × Panel
  on_retry p now =
      if leb cmd_max_retries p.pd.phy_retry_count then (rc_none, phy_state_done p now) else (
        rc_defer,
        phy_state_wait
            (record p { pd = record p.pd { phy_retry_count = p.pd.phy_retry_count + 1 } })
            cmd_retry_wait_ms now,
      )

  abbrev pub progressed : Panel → ℕ → Panel
  progressed p now = record p { pd = progress_sequence (record p.pd { tstamp = now }) }

  -- OSDP_CP_PHY_STATE_REPLY_WAIT, once the reply was processed.
  unfoldable pub on_reply : Rc × Panel → ℕ → Rc × Panel
  unfolding on_silence on_retry
  on_reply (rc_none, p) now = (rc_none, phy_state_done (progressed p now) now)
  on_reply (rc_seq_num, p) now = (rc_none, phy_state_done p now)
  on_reply (rc_unknown, p) now =
      if is_cmd_poll p && p.ignore_unsolicited
      then (rc_none, phy_state_done p now)
      else phy_failed p
  on_reply (rc_generic, p) now = phy_failed p
  on_reply (rc_app, p) now = phy_failed (progressed p now)
  on_reply (rc_retry_cmd, p) now = on_retry p now
  on_reply (rc_no_data, p) now = on_silence p now
  on_reply (rc_defer, p) now = on_silence p now
  on_reply (rc_inprog, p) now = on_silence p now

  -- cp_phy_state_update
  unfoldable pub phy_state_update : Panel → ℤ → ℕ → Rc × Panel
  unfolding after_build send_parked rewind process_reply on_reply
  phy_state_update p ret now =
      let s = p.pd.phy_state in
      if s == phy_err
      then (rc_generic, p)
      else if s == phy_wait
      then if ltb (millis_since now p.phy_tstamp) p.wait_ms
        then (rc_defer, p)
        else (rc_defer, with_phy p phy_retry_cmd)
      else if s == phy_retry_cmd
      then after_build (layers.build_packet (rewind p)) ret now
      else if s == phy_send_cmd
      then after_build (layers.build_packet p) ret now
      else if s == phy_send_cmd_wait
      then send_parked p ret now
      else if s == phy_reply_wait
      then on_reply (process_reply p) now
      else (rc_none, p)
