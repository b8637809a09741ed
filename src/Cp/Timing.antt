-- ===== src/Cp/Timing.antt =====
-- How long the control panel of src/osdp_cp.c waits for a reply.
use native.Mathlib.Nat.{div-eq_of_lt}
use libosdp.Common.{ℕ, ◌+◌, ◌-◌, ◌/◌, ◌%◌, ◌≡◌, ◌<◌, ap, ◌⊎◌, inl, inr, ℤ, arith}
use libosdp.Device.{report_metric}
use libosdp.Phy.{
  PktError, err_fmt, err_wait, err_skip, err_check, err_busy, err_nack, err_build, err_no_data,
  err_wait_tx,
}
use libosdp.Phy.Build.{send_packet}
use libosdp.Phy.Decode.{state_reset}
use libosdp.Cp.{Panel, rc_inprog}
use libosdp.Cp.Link.{Layers, send_parked, after_send, calculate_transmit_time, resp_tout_ms}

below-div : (b : ℕ) → 0 < b → (0 + b - 1) / b ≡ 0
below-div b h = div-eq_of_lt (omega (arith, h))

after_send-timeout :
    (layers : Layers) (p : Panel) (now : ℕ) (r : PktError ⊎ ℕ)
    → 0 < p.baud_rate
    → let q = after_send layers p now r in q.0 ≡ rc_inprog → q.1.resp_timeout_ms ≡ resp_tout_ms
unfolding after_send state_reset report_metric calculate_transmit_time
after_send-timeout layers p now (inr n) h e =
    ap (λ (k : ℕ). resp_tout_ms + k % 4294967296) (below-div p.baud_rate h)
after_send-timeout layers p now (inl err_fmt) h e = ground (arith, e)
after_send-timeout layers p now (inl err_wait) h e = ground (arith, e)
after_send-timeout layers p now (inl err_skip) h e = ground (arith, e)
after_send-timeout layers p now (inl err_check) h e = ground (arith, e)
after_send-timeout layers p now (inl err_busy) h e = ground (arith, e)
after_send-timeout layers p now (inl err_nack) h e = ground (arith, e)
after_send-timeout layers p now (inl err_build) h e = ground (arith, e)
after_send-timeout layers p now (inl err_no_data) h e = ground (arith, e)
after_send-timeout layers p now (inl err_wait_tx) h e = ground (arith, e)

-- Once a command is with the channel, its reply is due in 200 ms, whatever its length and the baud rate
-- are, if the baud rate is not 0: the length that the transmit time is made of is already cleared.
pub send_parked-timeout :
    (layers : Layers) (p : Panel) (ret : ℤ) (now : ℕ)
    → 0 < p.baud_rate
    → let q = send_parked layers p ret now in q.0 ≡ rc_inprog → q.1.resp_timeout_ms ≡ resp_tout_ms
unfolding send_parked send_packet report_metric
send_parked-timeout layers p ret now h e =
    let (r, pd') = send_packet p.pd ret p.pd.packet_buf_len in
    after_send-timeout layers (record p { pd = pd' }) now r h e
