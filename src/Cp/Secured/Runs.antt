-- ===== src/Cp/Secured/Runs.antt =====
-- Every pass of the refresh loop of src/osdp_cp.c, and every call of the application between two passes,
-- keeps the promises of the link.
use libosdp.Common.{
  ℕ, ℤ, ◌≡◌, refl, ◌∙◌, Bool, true, false, not, ◌&&◌, Option, none, some, List, [], ◌∷◌,
  if◌then◌else◌, arith, if_both, ◌==◌, ltb,
}
use libosdp.Crypto.{Crypto}
use libosdp.Cp.{
  Panel, State, init, capdet, sc_chlng, sc_scrypt, set_scbk, online, offline, disabled, Rc, rc_none,
  rc_generic, rc_no_data, rc_retry_cmd, rc_defer, rc_inprog, rc_unknown, rc_seq_num, rc_app,
  phy_idle, phy_done, phy_err, Cmd, failed, millis_since,
}
use libosdp.Cp.Online.{
  EngineNext, idle_engines, hold_bus, engine_sends, get_online_command, get_online_from,
  setup_active_cmd, on_translated, after_engines, get_poll_command, note_broadcast, translate_cmd,
  cmd_poll, poll_timeout_ms,
}
use libosdp.Cp.Link.{Layers, phy_running, phy_state_update}
use libosdp.Cp.Machine.{advance}
use libosdp.Cp.Update.{get_cmd, kick, on_phy, after_phy, state_update, settle}
use libosdp.Cp.Secured.{View, view, IsSound, view-complete_cmd}
use libosdp.Cp.Secured.Transition.{Holds, Holds-same}
use libosdp.Cp.Secured.Pass.{IsLawful, advance-IsSound}
use libosdp.Cp.Secured.Settle.{settle-IsMid}
use libosdp.Cp.Secured.Bus.{OnBus, phy_update-OnBus}

IsSound-Holds : (claim : Bool) (v : View) → IsSound v → Holds claim v
IsSound-Holds claim v h = record {
  informed = h.informed;
  pinned = h.pinned;
  secured = λ e n c. h.secured e n;
  settled_keys = h.settled_keys;
}

Holds-IsSound : (v : View) → Holds true v → IsSound v
Holds-IsSound v h = record {
  informed = h.informed;
  pinned = h.pinned;
  secured = λ e n. h.secured e n refl;
  settled_keys = h.settled_keys;
}

pub IsSound-same : (v w : View) → w ≡ v → IsSound v → IsSound w
IsSound-same v w e h = rw e h

view-note_broadcast : (p : Panel) (cmd : Cmd) → view (note_broadcast p cmd) ≡ view p
view-note_broadcast p cmd =
    if_both (λ (q : Panel). view q ≡ view p) cmd.broadcast
      (record p { pd = record p.pd { flags = record p.pd.flags { pkt_broadcast = true } } }) p refl
      refl

view-on_translated :
    (p : Panel) (cmd : Cmd) (id : Option ℕ) → view (on_translated p cmd id).1 ≡ view p
unfolding on_translated
view-on_translated p cmd none = view-complete_cmd p (some cmd) failed
view-on_translated p cmd (some id) = refl

view-poll : (p : Panel) (now : ℕ) → view (get_poll_command p now).1 ≡ view p
unfolding get_poll_command
view-poll p now =
    if_both (λ (r : Option ℕ × Panel). view r.1 ≡ view p)
      (ltb poll_timeout_ms (millis_since now p.pd.tstamp))
      (some cmd_poll, record p { pd = record p.pd { tstamp = now } }) (none, p) refl refl

module _ (c : Crypto) (layers : Layers) (laws : IsLawful layers) where
  view-engines : (r : EngineNext × Panel) (now : ℕ) → view (after_engines r now).1 ≡ view r.1
  unfolding after_engines
  view-engines (idle_engines, p) now = view-poll p now
  view-engines (hold_bus, p) now = refl
  view-engines (engine_sends id, p) now = refl

  view-online_command :
      (p : Panel) (queue : List Cmd) (now : ℕ)
      → view (get_online_from layers.engine_command p queue now).1 ≡ view p
  unfolding get_online_from setup_active_cmd
  view-online_command p [] now = view-engines (layers.engine_command p) now ∙ laws.engine_command p
  view-online_command p (cmd ∷ rest) now =
      let q = record p { cmd_queue = rest } in
      view-on_translated (note_broadcast q cmd) cmd (translate_cmd q.pd cmd.body)
      ∙ view-note_broadcast q cmd

  view-get_cmd : (p : Panel) (s : State) (now : ℕ) → view (get_cmd layers p s now).1 ≡ view p
  unfolding get_cmd get_online_command
  view-get_cmd p init now = refl
  view-get_cmd p capdet now = refl
  view-get_cmd p sc_chlng now = refl
  view-get_cmd p sc_scrypt now = refl
  view-get_cmd p set_scbk now = refl
  view-get_cmd p online now = view-online_command p p.cmd_queue now
  view-get_cmd p offline now = refl
  view-get_cmd p disabled now = refl

  kick-IsSound :
      (r : Option ℕ × Panel) (now : ℕ) → IsSound (view r.1) → IsSound (view (kick c layers r now))
  unfolding kick
  kick-IsSound (some id, p) now h = h
  kick-IsSound (none, p) now h =
      advance-IsSound c layers laws (record p { pd = record p.pd { cmd_id = 4294967295 } }) true now
        (IsSound-Holds (true && not p.request.restart_sc) (view p) h)

  -- The command is not on the bus: it is idle, or it ended.
  on_phy-IsSound :
      (p : Panel) (now : ℕ)
      → Holds (not (p.pd.phy_state == phy_err)) (view p)
      → IsSound (view (on_phy c layers p now))
  unfolding on_phy
  on_phy-IsSound p now h = reached (p.pd.phy_state == phy_idle) refl
    where
      reached :
          (b : Bool)
          → (p.pd.phy_state == phy_idle) ≡ b
          → IsSound (
              view (
                if b
                then kick c layers (get_cmd layers p p.state now) now
                else advance c layers (settle layers p (p.pd.phy_state == phy_done)) now))
      reached true e = kick-IsSound (get_cmd layers p p.state now) now (
          IsSound-same (view p) _ (view-get_cmd p p.state now) (
            Holds-IsSound (view p) (
              Holds-same (not (p.pd.phy_state == phy_err)) true (view p) (view p) refl
                (λ k. ground (arith, e)) h)))
      reached false e =
          let r = settle layers p (p.pd.phy_state == phy_done) in
          advance-IsSound c layers laws r.1 r.0 now (
            settle-IsMid layers laws p (
              Holds-same (not (p.pd.phy_state == phy_err)) (p.pd.phy_state == phy_done) (view p)
                (view p) refl (λ k. ground (arith, k)) h))

  -- A link whose channel may be down, on which nothing is claimed of the channel.
  weakened : (v : View) (b : Bool) → IsSound v → Holds false (record v { active = b })
  weakened v b h = record {
    informed = h.informed;
    pinned = h.pinned;
    secured = λ e n k. ground (arith, k);
    settled_keys = h.settled_keys;
  }

  kept-IsSound :
      (v : View) (p : Panel) (now : ℕ)
      → IsSound v
      → view p ≡ v
      → IsSound (view (on_phy c layers p now))
  kept-IsSound v p now h e =
      on_phy-IsSound p now
        (IsSound-Holds (not (p.pd.phy_state == phy_err)) (view p) (IsSound-same v (view p) e h))

  after_phy-IsSound :
      (v : View) (r : Rc × Panel) (now : ℕ)
      → IsSound v
      → OnBus v r
      → IsSound (view (after_phy c layers r now))
  unfolding after_phy
  after_phy-IsSound v (rc_inprog, p) now h b = rw (b.kept refl) h
  after_phy-IsSound v (rc_defer, p) now h b = rw (b.kept refl) h
  after_phy-IsSound v (rc_generic, p) now h b = on_phy-IsSound p now (
      Holds-same false (not (p.pd.phy_state == phy_err)) (record v { active = (view p).active })
        (view p) b.link (λ k. ground (arith, k, b.failed refl)) (weakened v (view p).active h))
  after_phy-IsSound v (rc_none, p) now h b = kept-IsSound v p now h (b.kept refl)
  after_phy-IsSound v (rc_no_data, p) now h b = kept-IsSound v p now h (b.kept refl)
  after_phy-IsSound v (rc_retry_cmd, p) now h b = kept-IsSound v p now h (b.kept refl)
  after_phy-IsSound v (rc_unknown, p) now h b = kept-IsSound v p now h (b.kept refl)
  after_phy-IsSound v (rc_seq_num, p) now h b = kept-IsSound v p now h (b.kept refl)
  after_phy-IsSound v (rc_app, p) now h b = kept-IsSound v p now h (b.kept refl)

  -- One pass of the refresh loop.
  pub state_update-IsSound :
      (p : Panel) (ret : ℤ) (now : ℕ)
      → IsSound (view p)
      → IsSound (view (state_update c layers p ret now))
  unfolding state_update
  state_update-IsSound p ret now h =
      if_both (λ (q : Panel). IsSound (view q)) (phy_running p)
        (after_phy c layers (phy_state_update layers p ret now) now) (on_phy c layers p now)
        (after_phy-IsSound (view p) (phy_state_update layers p ret now) now h
          (phy_update-OnBus layers laws p ret now h.settled_keys))
        (on_phy-IsSound p now (IsSound-Holds (not (p.pd.phy_state == phy_err)) (view p) h))
