-- ===== src/Cp/Secured/Bus.antt =====
-- A command on its way (src/osdp_cp.c: cp_phy_state_update) leaves the link's state alone, but for a reply
-- that cannot be decoded, which can take the channel down and ends the command in ERR.
use libosdp.Common.{
  ℕ, ℤ, pos, negsuc, ◌≡◌, refl, sym, ap, ◌∙◌, ◌⊎◌, Bool, true, false, not, ◌&&◌, Option, none, some,
  List, inl, inr, if◌then◌else◌, arith, if_both, ◌==◌, ltb, leb, ◌+◌,
}
use libosdp.Metrics.{packet_sent}
use libosdp.Device.{Device, report_metric, nak_seq_num, nak_sc_cond}
use libosdp.Phy.{
  PktError, err_fmt, err_wait, err_skip, err_check, err_busy, err_nack, err_build, err_no_data,
  err_wait_tx,
}
use libosdp.Phy.Build.{send_packet}
use libosdp.Phy.Decode.{state_reset}
use libosdp.Phy.Sequence.{progress_sequence}
use libosdp.Cp.{
  Panel, Rc, rc_none, rc_generic, rc_no_data, rc_retry_cmd, rc_defer, rc_inprog, rc_unknown,
  rc_seq_num, rc_app, phy_err, phy_wait, phy_retry_cmd, phy_send_cmd, phy_send_cmd_wait,
  phy_reply_wait, millis_since,
}
use libosdp.Cp.Online.{request_restart}
use libosdp.Cp.Link.{
  Layers, after_decode, on_nack, after_check, process_reply, after_send, send_parked, after_build,
  rewind, on_silence, on_retry, on_reply, phy_state_update, phy_failed, with_phy, phy_state_done,
  phy_state_wait, progressed, is_cmd_poll, cmd_max_retries, cmd_retry_wait_ms,
}
use libosdp.Cp.Secured.{View, view, view-request_restart}
use libosdp.Cp.Secured.Pass.{IsLawful}

abbrev pub is_generic : Rc → Bool
is_generic rc_generic = true
is_generic _ = false

-- What a reply did to the link.
record Replied (v : View) (r : Rc × Panel) : Type 0 where
  link : view r.1 ≡ record v { active = (view r.1).active }
  kept : is_generic r.0 ≡ false → view r.1 ≡ v

Replied-same : (v : View) (rc : Rc) (q : Panel) → view q ≡ v → Replied v (rc, q)
Replied-same v rc q e = record {
  link = e ∙ ap (λ (b : Bool). record v { active = b }) (sym (ap (λ (w : View). w.active) e));
  kept = λ k. e;
}

Replied-trans : (v w : View) (r : Rc × Panel) → w ≡ v → Replied w r → Replied v r
Replied-trans v w r e h = record {
  link = h.link ∙ ap (λ (u : View). record u { active = (view r.1).active }) e;
  kept = λ g. h.kept g ∙ e;
}

-- What one step on the bus did: a failure is in ERR.
pub record OnBus (v : View) (r : Rc × Panel) : Type 0 where
  pub link : view r.1 ≡ record v { active = (view r.1).active }
  pub kept : is_generic r.0 ≡ false → view r.1 ≡ v
  pub failed : is_generic r.0 ≡ true → (r.1.pd.phy_state == phy_err) ≡ true

OnBus-same : (v : View) (rc : Rc) (q : Panel) → is_generic rc ≡ false → view q ≡ v → OnBus v (rc, q)
OnBus-same v rc q g e = record {
  link = (Replied-same v rc q e).link;
  kept = λ k. e;
  failed = λ k. ground (arith, k, g);
}

OnBus-failed :
    (v : View) (q : Panel) → view q ≡ record v { active = (view q).active } → OnBus v (phy_failed q)
OnBus-failed v q e = record { link = e; kept = λ k. ground (arith, k); failed = λ k. refl }

module _ (layers : Layers) (laws : IsLawful layers) where
  decode-Replied :
      (p : Panel) (r : Option (List ℕ × ℕ) × Panel)
      → (view p).install ≡ false
      → layers.decode_packet p ≡ r
      → Replied (view p) (after_decode layers r)
  unfolding after_decode
  decode-Replied p (none, q) k e = record {
    link = laws.not_decoded p q k e;
    kept = λ g. ground (arith, g);
  }
  decode-Replied p (some (buf, len), q) k e =
      Replied-same (view p) (layers.decode_response q buf len).0
        (layers.decode_response q buf len).1
        (laws.decode_response q buf len ∙ laws.decoded p q (buf, len) k e)

  nack-Replied : (p : Panel) → Replied (view p) (on_nack layers p)
  unfolding on_nack
  nack-Replied p =
      if_both (Replied (view p)) (p.pd.nak_code == nak_seq_num)
        (rc_seq_num, record p { request = record p.request { link_reset = true } })
        (rc_generic, if p.pd.nak_code == nak_sc_cond then request_restart p else p)
        (Replied-same (view p) rc_seq_num _ refl)
        (Replied-same (view p) rc_generic
          (if p.pd.nak_code == nak_sc_cond then request_restart p else p)
          (view-request_restart (p.pd.nak_code == nak_sc_cond) p))

  check-Replied :
      (v : View) (r : Option PktError × Panel)
      → view r.1 ≡ v
      → v.install ≡ false
      → Replied v (after_check layers r)
  unfolding after_check
  check-Replied v (none, p) e k =
      Replied-trans v (view p) (after_decode layers (layers.decode_packet p)) e
        (decode-Replied p (layers.decode_packet p) (ap (λ (w : View). w.install) e ∙ k) refl)
  check-Replied v (some err_wait, p) e k = Replied-same v rc_no_data p e
  check-Replied v (some err_no_data, p) e k = Replied-same v rc_no_data p e
  check-Replied v (some err_busy, p) e k = Replied-same v rc_retry_cmd _ e
  check-Replied v (some err_nack, p) e k =
      Replied-trans v (view p) (on_nack layers p) e (nack-Replied p)
  check-Replied v (some err_fmt, p) e k = Replied-same v rc_generic p e
  check-Replied v (some err_skip, p) e k = Replied-same v rc_generic p e
  check-Replied v (some err_check, p) e k = Replied-same v rc_generic p e
  check-Replied v (some err_build, p) e k = Replied-same v rc_generic p e
  check-Replied v (some err_wait_tx, p) e k = Replied-same v rc_generic p e

  process-Replied :
      (p : Panel) → (view p).install ≡ false → Replied (view p) (process_reply layers p)
  unfolding process_reply
  process-Replied p k = check-Replied (view p) (layers.check_packet p) (laws.check_packet p) k

  sent-OnBus :
      (v : View) (p : Panel) (now : ℕ) (r : PktError ⊎ ℕ)
      → view p ≡ v
      → OnBus v (after_send layers p now r)
  unfolding after_send state_reset report_metric
  sent-OnBus v p now (inl err_wait_tx) e = OnBus-same v rc_defer p refl e
  sent-OnBus v p now (inl err_fmt) e = OnBus-failed v p (Replied-same v rc_generic p e).link
  sent-OnBus v p now (inl err_wait) e = OnBus-failed v p (Replied-same v rc_generic p e).link
  sent-OnBus v p now (inl err_skip) e = OnBus-failed v p (Replied-same v rc_generic p e).link
  sent-OnBus v p now (inl err_check) e = OnBus-failed v p (Replied-same v rc_generic p e).link
  sent-OnBus v p now (inl err_busy) e = OnBus-failed v p (Replied-same v rc_generic p e).link
  sent-OnBus v p now (inl err_nack) e = OnBus-failed v p (Replied-same v rc_generic p e).link
  sent-OnBus v p now (inl err_build) e = OnBus-failed v p (Replied-same v rc_generic p e).link
  sent-OnBus v p now (inl err_no_data) e = OnBus-failed v p (Replied-same v rc_generic p e).link
  sent-OnBus v p now (inr n) e = OnBus-same v rc_inprog _ refl e

  send-OnBus :
      (v : View) (p : Panel) (ret : ℤ) (now : ℕ)
      → view p ≡ v
      → OnBus v (send_parked layers p ret now)
  unfolding send_parked send_packet report_metric
  send-OnBus v p (negsuc n) now e = sent-OnBus v p now (inl err_build) e
  send-OnBus v p (pos n) now e =
      let given = λ (x : (PktError ⊎ ℕ) × Device).
        OnBus v (after_send layers (record p { pd = x.1 }) now x.0) in
      if_both given (n == 0) (inl err_wait_tx, p.pd)
        (if n == p.pd.packet_buf_len
          then (inr p.pd.packet_buf_len, report_metric p.pd packet_sent)
          else (inl err_build, p.pd))
        (sent-OnBus v p now (inl err_wait_tx) e)
        (if_both given (n == p.pd.packet_buf_len)
          (inr p.pd.packet_buf_len, report_metric p.pd packet_sent) (inl err_build, p.pd)
          (sent-OnBus v (record p { pd = report_metric p.pd packet_sent }) now
            (inr p.pd.packet_buf_len) e)
          (sent-OnBus v p now (inl err_build) e))

  build-OnBus :
      (v : View) (r : Bool × Panel) (ret : ℤ) (now : ℕ)
      → view r.1 ≡ v
      → OnBus v (after_build layers r ret now)
  unfolding after_build
  build-OnBus v (false, p) ret now e = OnBus-failed v p (Replied-same v rc_generic p e).link
  build-OnBus v (true, p) ret now e = send-OnBus v (with_phy p phy_send_cmd_wait) ret now e

  silence-OnBus : (v : View) (p : Panel) (now : ℕ) → view p ≡ v → OnBus v (on_silence layers p now)
  unfolding on_silence phy_state_wait
  silence-OnBus v p now e =
      if_both (OnBus v) (not (ltb p.resp_timeout_ms (millis_since now p.phy_tstamp))) (rc_inprog, p)
        (if ltb p.pd.phy_retry_count cmd_max_retries
          then (
            rc_defer,
            phy_state_wait
                (record p { pd = record p.pd { phy_retry_count = p.pd.phy_retry_count + 1 } })
                cmd_retry_wait_ms now,
          )
          else phy_failed p)
        (OnBus-same v rc_inprog p refl e)
        (if_both (OnBus v) (ltb p.pd.phy_retry_count cmd_max_retries)
          (
            rc_defer,
            phy_state_wait
                (record p { pd = record p.pd { phy_retry_count = p.pd.phy_retry_count + 1 } })
                cmd_retry_wait_ms now,
          )
          (phy_failed p) (OnBus-same v rc_defer _ refl e)
          (OnBus-failed v p (Replied-same v rc_generic p e).link))

  retry-OnBus : (v : View) (p : Panel) (now : ℕ) → view p ≡ v → OnBus v (on_retry layers p now)
  unfolding on_retry phy_state_wait phy_state_done
  retry-OnBus v p now e =
      if_both (OnBus v) (leb cmd_max_retries p.pd.phy_retry_count) (rc_none, phy_state_done p now)
        (
          rc_defer,
          phy_state_wait
              (record p { pd = record p.pd { phy_retry_count = p.pd.phy_retry_count + 1 } })
              cmd_retry_wait_ms now,
        )
        (OnBus-same v rc_none _ refl e) (OnBus-same v rc_defer _ refl e)

  reply-OnBus :
      (v : View) (r : Rc × Panel) (now : ℕ) → Replied v r → OnBus v (on_reply layers r now)
  unfolding on_reply phy_state_done progress_sequence
  reply-OnBus v (rc_none, p) now h = OnBus-same v rc_none _ refl (h.kept refl)
  reply-OnBus v (rc_seq_num, p) now h = OnBus-same v rc_none _ refl (h.kept refl)
  reply-OnBus v (rc_unknown, p) now h =
      if_both (OnBus v) (is_cmd_poll p && p.ignore_unsolicited) (rc_none, phy_state_done p now)
        (phy_failed p) (OnBus-same v rc_none _ refl (h.kept refl)) (OnBus-failed v p h.link)
  reply-OnBus v (rc_generic, p) now h = OnBus-failed v p h.link
  reply-OnBus v (rc_app, p) now h = OnBus-failed v (progressed layers p now) h.link
  reply-OnBus v (rc_retry_cmd, p) now h = retry-OnBus v p now (h.kept refl)
  reply-OnBus v (rc_no_data, p) now h = silence-OnBus v p now (h.kept refl)
  reply-OnBus v (rc_defer, p) now h = silence-OnBus v p now (h.kept refl)
  reply-OnBus v (rc_inprog, p) now h = silence-OnBus v p now (h.kept refl)

  pub phy_update-OnBus :
      (p : Panel) (ret : ℤ) (now : ℕ)
      → (view p).install ≡ false
      → OnBus (view p) (phy_state_update layers p ret now)
  unfolding phy_state_update rewind
  phy_update-OnBus p ret now k = stepped (p.pd.phy_state == phy_err) refl
    where
      is_in : ℕ → Bool
      is_in n = p.pd.phy_state == n

      waited : Rc × Panel
      waited =
          if ltb (millis_since now p.phy_tstamp) p.wait_ms
          then (rc_defer, p)
          else (rc_defer, with_phy p phy_retry_cmd)

      waited-OnBus : OnBus (view p) waited
      waited-OnBus =
          if_both (OnBus (view p)) (ltb (millis_since now p.phy_tstamp) p.wait_ms) (rc_defer, p)
            (rc_defer, with_phy p phy_retry_cmd) (OnBus-same (view p) rc_defer p refl refl)
            (OnBus-same (view p) rc_defer _ refl refl)

      retried : Rc × Panel
      retried = after_build layers (layers.build_packet (rewind layers p)) ret now

      built : Rc × Panel
      built = after_build layers (layers.build_packet p) ret now

      sent : Rc × Panel
      sent = send_parked layers p ret now

      replied : Rc × Panel
      replied = on_reply layers (process_reply layers p) now

      stepped :
          (b : Bool)
          → (p.pd.phy_state == phy_err) ≡ b
          → OnBus (view p) (
              if b
              then (rc_generic, p)
              else if is_in phy_wait
              then waited
              else if is_in phy_retry_cmd
              then retried
              else if is_in phy_send_cmd
              then built
              else if is_in phy_send_cmd_wait
              then sent
              else if is_in phy_reply_wait
              then replied
              else (rc_none, p))
      stepped true e = record { link = refl; kept = λ g. refl; failed = λ g. e }
      stepped false e = if_both (OnBus (view p)) (is_in phy_wait) waited _ waited-OnBus (
          if_both (OnBus (view p)) (is_in phy_retry_cmd) retried _
            (build-OnBus (view p) (layers.build_packet (rewind layers p)) ret now
              (laws.build_packet (rewind layers p)))
            (if_both (OnBus (view p)) (is_in phy_send_cmd) built _
              (build-OnBus (view p) (layers.build_packet p) ret now (laws.build_packet p))
              (if_both (OnBus (view p)) (is_in phy_send_cmd_wait) sent _
                (send-OnBus (view p) p ret now refl)
                (if_both (OnBus (view p)) (is_in phy_reply_wait) replied _
                  (reply-OnBus (view p) (process_reply layers p) now (process-Replied p k))
                  (OnBus-same (view p) rc_none p refl refl)))))
