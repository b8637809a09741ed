-- ===== src/Multipart/Lifecycle.antt =====
-- Lifecycle, control and scheduling of a transfer (src/osdp_multipart.c: osdp_mp_reset,
-- osdp_mp_set_*, osdp_mp_park, osdp_mp_emit_start, osdp_mp_finish, osdp_mp_tx_next, and the
-- cancellation pair of src/osdp_multipart.h).
pub mod Events
use libosdp.Common.{
  ℕ, ◌-◌, ◌≡◌, ◌≢◌, refl, Bool, true, false, not, ◌&&◌, Option, none, List, [], ◌∷◌, ◌++◌, arith,
  ltb, ◌==◌, if◌then◌else◌,
}
use libosdp.Multipart.{
  Multipart, Ops, State, Phase, Progress, Action, Width, w16, start, progress, data_now, emit,
  is_active, is_active_state,
}

abbrev is_over : State → Bool
is_over State.done = true
is_over State.idle = true
is_over _ = false

module _ {S : Type 0} where
  -- osdp_mp_reset zeroes the whole record; `ops` and `arg` stand for the zeroed data plane, which
  -- no state but INPROG or WAIT uses. Zero is no Width: the first one stands for it.
  unfoldable pub reset : Ops S → S → Multipart S
  reset no_ops no_arg = record {
    state = State.idle;
    width = w16;
    total = 0;
    offset = 0;
    last_len = 0;
    last_off = 0;
    ops = no_ops;
    arg = no_arg;
    buf_len = none;
    has_event_cb = false;
    events = [];
    msg_type = 0;
    object_id = 0;
    done_outcome = 0;
    start_emitted = false;
    cancel_req = false;
    wait_time_ms = 0;
    tstamp = 0;
  }

  unfoldable pub request_cancel : Multipart S → Multipart S
  request_cancel mp = record mp { cancel_req = true }

  unfoldable pub cancel_requested : Multipart S → Bool
  cancel_requested mp = mp.cancel_req

  unfoldable pub set_event_cb : Multipart S → Multipart S
  set_event_cb mp = record mp { has_event_cb = true }

  unfoldable pub set_identity : Multipart S → ℕ → ℕ → Multipart S
  set_identity mp msg_type object_id = record mp { msg_type = msg_type; object_id = object_id }

  -- `now` is the tick that osdp_millis_now() reads.
  unfoldable pub set_wait : Multipart S → ℕ → ℕ → Multipart S
  set_wait mp ms now = record mp { wait_time_ms = ms; tstamp = now }

  unfoldable pub park : Multipart S → Multipart S
  park mp = record mp { state = State.wait }

  unfoldable pub emit_start : Multipart S → Multipart S
  emit_start mp = if mp.start_emitted then mp else emit (record mp { start_emitted = true }) start

  unfoldable pub finish : Multipart S → ℕ → Multipart S
  finish mp outcome =
      if is_over mp.state
      then mp
      else emit (record mp { done_outcome = outcome; state = State.done }) Phase.done

  -- A tick is a number that neither wraps nor runs backwards, so the elapsed time is a difference.
  unfoldable pub tx_next : Multipart S → ℕ → Action
  unfolding is_active
  tx_next mp now =
      if not (is_active mp)
      then Action.done
      else if not (mp.wait_time_ms == 0) && ltb (now - mp.tstamp) mp.wait_time_ms
      then Action.wait
      else data_now
