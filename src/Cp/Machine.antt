-- ===== src/Cp/Machine.antt =====
-- The state machine of the control panel for one PD (src/osdp_cp.c): the transition tables, the effects
-- of a transition and of entering a state, and state_update, which is one pass of the refresh loop.
use libosdp.Common.{ℕ, Bool, true, false, not, ◌&&◌, ◌||◌, if◌then◌else◌, ltb}
use libosdp.Device.{sc_is_active, sc_is_capable, sc_activate, sc_deactivate}
use libosdp.Crypto.{Crypto}
use libosdp.SecureChannel.{sc_setup}
use libosdp.Phy.Decode.{state_reset}
use libosdp.Cp.{
  Panel, State, init, capdet, sc_chlng, sc_scrypt, set_scbk, online, offline, disabled, is_online,
  sc_use_scbkd, set_scbkd, is_enforcing, millis_since, notify_pd_status, notify_sc_status,
}
use libosdp.Cp.Online.{keyset_complete}
use libosdp.Cp.Link.{Layers}

-- OSDP_PD_SC_RETRY_MS and OSDP_ONLINE_RETRY_WAIT_MAX_MS
abbrev pub sc_retry_ms : ℕ
sc_retry_ms = 600000

abbrev pub online_retry_wait_max_ms : ℕ
online_retry_wait_max_ms = 300000

abbrev pub is_state : State → State → Bool
is_state init init = true
is_state capdet capdet = true
is_state sc_chlng sc_chlng = true
is_state sc_scrypt sc_scrypt = true
is_state set_scbk set_scbk = true
is_state online online = true
is_state offline offline = true
is_state disabled disabled = true
is_state _ _ = false

-- cp_sc_should_retry
unfoldable pub sc_should_retry : Panel → ℕ → Bool
sc_should_retry p now =
    sc_is_capable p.pd
    && (not (sc_is_active p.pd) && ltb sc_retry_ms (millis_since now p.sc_tstamp))

-- get_next_ok_state
unfoldable pub next_ok : Panel → State → ℕ → State
next_ok p init now = capdet
next_ok p capdet now =
    if sc_is_capable p.pd then sc_chlng else if is_enforcing p then offline else online
next_ok p sc_chlng now = sc_scrypt
next_ok p sc_scrypt now = if sc_use_scbkd p then set_scbk else online
next_ok p set_scbk now = sc_chlng
next_ok p online now = if sc_should_retry p now then sc_chlng else online
next_ok p offline now = if ltb p.wait_ms (millis_since now p.pd.tstamp) then init else offline
next_ok p disabled now = disabled

-- get_next_err_state
unfoldable pub next_err : Panel → State → State
next_err p init = offline
next_err p capdet = offline
next_err p sc_chlng =
    if is_enforcing p
    then offline
    else if not (sc_use_scbkd p) && not p.sc_established
    then sc_chlng
    else online
next_err p sc_scrypt = if is_enforcing p then offline else online
next_err p set_scbk = if is_enforcing p || sc_use_scbkd p then offline else online
next_err p online = offline
next_err p offline = offline
next_err p disabled = disabled

-- get_next_state: `is_ok` is err == 0.
unfoldable pub next_state : Panel → Bool → ℕ → State
unfolding next_ok next_err
next_state p is_ok now = if is_ok then next_ok p p.state now else next_err p p.state

-- cp_transition_effects on success
unfoldable pub ok_effects : Panel → State → State → Panel
ok_effects p capdet next = if is_state next sc_chlng then set_scbkd p false else p
ok_effects p sc_scrypt next =
    let up = notify_sc_status (record p { pd = sc_activate p.pd }) in
    if is_state next set_scbk then up else record up { sc_established = true }
ok_effects p set_scbk next = keyset_complete p
ok_effects p _ next = p

-- cp_transition_effects on an error
unfoldable pub err_effects : Panel → State → State → ℕ → Panel
err_effects p sc_chlng next now =
    if is_state next offline
    then p
    else if is_state next sc_chlng
    then set_scbkd p true
    else record (set_scbkd p false) { sc_tstamp = now }
err_effects p set_scbk next now = notify_sc_status (record p { pd = sc_deactivate p.pd })
err_effects p _ next now = p

unfoldable pub transition_effects : Panel → Bool → State → ℕ → Panel
unfolding ok_effects err_effects
transition_effects p is_ok next now =
    if is_ok then ok_effects p p.state next else err_effects p p.state next now

-- The requests that end with a session.
abbrev pub drop_session_requests : Panel → Panel
drop_session_requests p = record p {
  request = record p.request { restart_sc = false; go_offline = false };
}

-- A session's requests are looked at while the PD is online or about to be.
unfoldable pub session_requests : State × Panel → State × Panel
session_requests (next, p) =
    let again = p.request.restart_sc in
    let leaving = p.request.go_offline in
    let p1 =
      if again
      then record p {
        pd = state_reset p.pd true;
        request = record p.request { restart_sc = false };
      }
      else p in
    let p2 = record p1 { request = record p1.request { go_offline = false } } in
    if is_online p.state || is_online next
    then ((if leaving then offline else if again then sc_chlng else next), p2)
    else (next, p)

-- The next state, before the application's own requests.
unfoldable pub pick : Panel → Bool → ℕ → State × Panel
unfolding session_requests next_state transition_effects
pick p is_ok now =
    let next = next_state p is_ok now in
    if p.request.link_reset
    then (offline, record p { request = record p.request { link_reset = false } })
    else session_requests (next, transition_effects p is_ok next now)

-- CP_REQ_DISABLE and CP_REQ_ENABLE
unfoldable pub lifecycle_requests : State × Panel → State × Panel
lifecycle_requests (next, p) =
    let r = p.request in
    (
      (if r.enable then init else if r.disable then disabled else next),
      record p { request = record r { disable = false; enable = false } },
    )

module _ (c : Crypto) (layers : Layers) where
  -- The entry actions of cp_state_change.
  unfoldable pub enter : Panel → State → ℕ → Panel
  enter p init now = record p { pd = state_reset p.pd true }
  enter p offline now =
      let timed = record p {
        wait_ms = online_retry_wait_max_ms;
        pd = record p.pd { tstamp = now };
      } in
      let dropped = drop_session_requests timed in
      layers.engines_abort (notify_sc_status (record dropped { pd = sc_deactivate dropped.pd }))
  enter p sc_chlng now = record p { pd = sc_setup c (state_reset p.pd true) }
  enter p disabled now =
      let dropped = drop_session_requests p in
      let down =
        layers.engines_abort
          (notify_sc_status (record dropped { pd = sc_deactivate dropped.pd })) in
      record down { pd = state_reset down.pd true }
  enter p _ now = p

  -- cp_state_change
  unfoldable pub state_change : Panel → State → ℕ → Panel
  unfolding enter
  state_change p next now =
      let moved = record (enter p next now) { state = next } in
      let was_online = is_online p.state in
      let now_online = is_online next in
      if (if was_online then now_online else not now_online)
      then moved
      else notify_pd_status moved now_online

  abbrev pub move : State × Panel → ℕ → Panel
  move (next, p) now = if is_state p.state next then p else state_change p next now

  unfoldable pub advance : Bool × Panel → ℕ → Panel
  unfolding pick lifecycle_requests state_change
  advance (is_ok, p) now = move (lifecycle_requests (pick p is_ok now)) now
