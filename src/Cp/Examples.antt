-- ===== src/Cp/Examples.antt =====
-- A control panel of src/osdp_cp.c with one PD, over a link on which each reply is an ACK.
use libosdp.Common.{
  ℕ, ◌≡◌, ◌++◌, ◌<◌, refl, sym, ap, true, false, Option, none, some, List, [], ◌∷◌, pos, arith,
  length,
}
use libosdp.Crypto.{Crypto}
use libosdp.Device.{reply_ack}
use libosdp.Device.Sample.{sample_cp, sample_flags}
use libosdp.Phy.Build.{send_packet}
use libosdp.Cp.{
  Panel, init, online, accepts, submit_each, may_submit, complete_cmd, comset, flushed, rc_none,
  rc_retry_cmd, phy_reply_wait,
}
use libosdp.Cp.Online.{idle_engines}
use libosdp.Cp.Link.{Layers, send_parked, resp_tout_ms, on_reply, phy_state_wait}
use libosdp.Cp.Update.{state_update}
use libosdp.Cp.Control.{drain_queue, flush_commands, disable_pd}
use libosdp.Cp.Flush.{completed, submitted, flush_commands_lem}
use libosdp.Cp.Timing.{send_parked-timeout}
use libosdp.Cp.Retry.{tries_left, on_reply-tries_left}
use libosdp.Cp.Secured.{view, IsSound}
use libosdp.Cp.Secured.Pass.{IsLawful}
use libosdp.Cp.Secured.Reach.{here, next, pass, disables, IsFresh, Reach-IsSound}

abbrev no_cipher : Crypto
no_cipher = record {
  encrypt = λ key iv data'. data';
  decrypt = λ key iv data'. data';
  fill_random = λ n. [];
}

abbrev acked : Panel → Panel
acked p = record p { pd = record p.pd { reply_id = reply_ack } }

abbrev acking : Layers
acking = record {
  build_packet = λ p. (true, record p { pd = record p.pd { packet_buf_len = 8 } });
  check_packet = λ p. (none, p);
  decode_packet = λ p. (some (reply_ack ∷ [], 1), p);
  decode_response = λ p buf len. (rc_none, acked p);
  engine_command = λ p. (idle_engines, p);
  engines_abort = λ p. p;
  file_tx_command = λ p id flags. (false, p);
  file_tx_abort = λ p. p;
  piv_abort = λ p. p;
  piv_owns_cmd = λ p id. false;
  bio_owns_cmd = λ p id. false;
}

acking-IsLawful : IsLawful acking
acking-IsLawful = record {
  build_packet = λ p. refl;
  check_packet = λ p. refl;
  decoded = λ p q data' k e. ap (λ (r : Option (List ℕ × ℕ) × Panel). view r.1) (sym e);
  not_decoded = λ p q k e. ground (arith, ap (λ (r : Option (List ℕ × ℕ) × Panel). r.0) e);
  decode_response = λ p buf len. refl;
  engine_command = λ p. refl;
  engines_abort = λ p. refl;
  file_tx_command = λ p id flags. refl;
  file_tx_abort = λ p. refl;
  piv_abort = λ p. refl;
}

abbrev added : Panel
added = record {
  pd = record sample_cp { flags = record sample_flags { enforce_secure = true } };
  state = init;
  sc_established = false;
  ignore_unsolicited = false;
  notifies = true;
  completes = true;
  single_pd = true;
  readers = 1;
  request = record {
    restart_sc = false;
    link_reset = false;
    go_offline = false;
    disable = false;
    enable = false;
  };
  wait_ms = 0;
  sc_tstamp = 0;
  phy_tstamp = 0;
  resp_timeout_ms = 0;
  baud_rate = 9600;
  cmd_queue = [];
  active_cmd = none;
  engine_cmd = none;
  told = [];
  completions = [];
  on_complete = λ done cmd s. [];
}

added-IsFresh : IsFresh added
added-IsFresh = record { state = refl; told = refl; scbkd = refl; install = refl }

abbrev one_pass : Panel → ℕ → Panel
one_pass p now = state_update no_cipher acking p (pos 8) now

abbrev after_passes : Panel
after_passes = (disable_pd (one_pass (one_pass (one_pass added 10) 20) 30)).1

Reach-IsSound_example : IsSound (view after_passes)
Reach-IsSound_example = Reach-IsSound no_cipher added after_passes added-IsFresh (
    next
      (next
        (next (next here (pass acking (pos 8) 10 acking-IsLawful))
          (pass acking (pos 8) 20 acking-IsLawful))
        (pass acking (pos 8) 30 acking-IsLawful))
      disables)

-- The application answers each command that it gets back by another one.
abbrev queued : Panel
queued = record added {
  state = online;
  on_complete =
      λ done cmd s. (record { broadcast = false; other_flags = false; body = comset 5 9600 }) ∷ [];
  cmd_queue =
      (record { broadcast = false; other_flags = false; body = comset 3 9600 })
      ∷ (record { broadcast = false; other_flags = false; body = comset 4 9600 })
      ∷ [];
}

flush_commands_lem_example :
    ((flush_commands queued).0 ≡ length queued.cmd_queue)
    × ((flush_commands queued).1.completions
        ≡ completed queued.cmd_queue flushed ++ queued.completions)
    × ((flush_commands queued).1.cmd_queue
        ≡ submitted (accepts queued) queued.on_complete queued.completions queued.cmd_queue flushed)
flush_commands_lem_example = flush_commands_lem queued refl

flushed_resubmits : length (flush_commands queued).1.cmd_queue ≡ 2
unfolding flush_commands drain_queue complete_cmd submit_each may_submit
flushed_resubmits = refl

abbrev built : Panel
built = record added { pd = record added.pd { packet_buf_len = 8 } }

send_parked-timeout_example : (send_parked acking built (pos 8) 50).1.resp_timeout_ms ≡ resp_tout_ms
unfolding send_parked send_packet
send_parked-timeout_example = send_parked-timeout acking built (pos 8) 50 (omega arith) refl

-- One retry was made before; the reply says that the packet was damaged.
abbrev waiting : Panel
waiting = record added { pd = record added.pd { phy_state = phy_reply_wait; phy_retry_count = 1 } }

on_reply-tries_left_example :
    tries_left (on_reply acking (rc_retry_cmd, waiting) 50).1 < tries_left waiting
unfolding on_reply phy_state_wait
on_reply-tries_left_example = on_reply-tries_left acking rc_retry_cmd waiting 50 refl refl
