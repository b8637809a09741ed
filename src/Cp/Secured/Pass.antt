-- ===== src/Cp/Secured/Pass.antt =====
-- One pass of state_update (src/osdp_cp.c), from the choice of the next state to its entry, keeps the
-- promises of the link, over layers that leave the link's state alone.
use libosdp.Common.{
  ℕ, ◌≡◌, refl, sym, ap, ◌∙◌, Bool, Bool-cases, true, false, not, ◌||◌, none, some, List, inl, inr,
  if◌then◌else◌, arith, if_both,
}
use libosdp.Crypto.{Crypto}
use libosdp.SecureChannel.{sc_setup}
use libosdp.Device.{sc_deactivate}
use libosdp.Phy.Decode.{state_reset}
use libosdp.Phy.Sequence.{reset_seq_number}
use libosdp.Cp.{
  Panel, State, init, capdet, sc_chlng, sc_scrypt, set_scbk, online, offline, disabled, is_online,
  notify_sc_status, notify_pd_status,
}
use libosdp.Cp.Link.{Layers}
use libosdp.Cp.Machine.{
  next_state, transition_effects, is_state, session_requests, pick, lifecycle_requests, enter,
  state_change, move, advance, drop_session_requests, online_retry_wait_max_ms,
}
use libosdp.Cp.Secured.{
  View, view, IsSound, view-taken_down, view-state_reset, view-notify_pd_status,
}
use libosdp.Cp.Secured.Transition.{
  IsMid, Pinned, transition-MayEnter, transition-online, failed-offline,
}

-- The layers leave the link's state alone; a reply that cannot be decoded can take the secure channel
-- down. Only in install mode does a packet choose the default key, so that is left out.
pub record IsLawful (layers : Layers) : Type 0 where
  pub build_packet : (p : Panel) → view (layers.build_packet p).1 ≡ view p
  pub check_packet : (p : Panel) → view (layers.check_packet p).1 ≡ view p
  pub decoded :
      (p q : Panel) (data' : List ℕ × ℕ)
      → (view p).install ≡ false
      → layers.decode_packet p ≡ (some data', q)
      → view q ≡ view p
  pub not_decoded :
      (p q : Panel)
      → (view p).install ≡ false
      → layers.decode_packet p ≡ (none, q)
      → view q ≡ record (view p) { active = (view q).active }
  pub decode_response :
      (p : Panel) (buf : List ℕ) (len : ℕ) → view (layers.decode_response p buf len).1 ≡ view p
  pub engine_command : (p : Panel) → view (layers.engine_command p).1 ≡ view p
  pub engines_abort : (p : Panel) → view (layers.engines_abort p) ≡ view p
  pub file_tx_command :
      (p : Panel) (id flags : ℕ) → view (layers.file_tx_command p id flags).1 ≡ view p
  pub file_tx_abort : (p : Panel) → view (layers.file_tx_abort p) ≡ view p
  pub piv_abort : (p : Panel) → view (layers.piv_abort p) ≡ view p

-- The promises once the next state is chosen.
pub record IsChosen (next : State) (v : View) : Type 0 where
  pub informed : v.notifies ≡ true → v.heard ≡ is_online v.state
  pub pinned : (v.enforcing || v.established) ≡ true → v.scbkd ≡ false
  pub secured : v.enforcing ≡ true → is_online next ≡ true → v.active ≡ true
  pub settled_keys : v.install ≡ false

-- The requests of a session: what they leave online was about to be.
requests-IsChosen :
    (next : State) (q : Panel)
    → ((view q).notifies ≡ true → (view q).heard ≡ is_online (view q).state)
    → Pinned q
    → (view q).install ≡ false
    → ((view q).enforcing ≡ true
        → is_online next ≡ true
        → q.request.restart_sc ≡ false
        → (view q).active ≡ true)
    → let r = session_requests (next, q) in IsChosen r.0 (view r.1)
unfolding session_requests
requests-IsChosen next q i pin keys sec =
    looked (is_online q.state || is_online next) q.request.restart_sc q.request.go_offline refl refl
  where
    -- What is in force, whichever of the requests are there.
    same :
        (again : Bool)
        → view (
            if again
            then record q {
              pd = state_reset q.pd true;
              request = record q.request { restart_sc = false };
            }
            else q)
          ≡ view q
    same true = view-state_reset q true
    same false = refl

    looked :
        (up again leaving : Bool)
        → (is_online q.state || is_online next) ≡ up
        → q.request.restart_sc ≡ again
        → let p1 =
            if again
            then record q {
              pd = state_reset q.pd true;
              request = record q.request { restart_sc = false };
            }
            else q in
          let p2 = record p1 { request = record p1.request { go_offline = false } } in
          let r : State × Panel =
            if up
            then ((if leaving then offline else if again then sc_chlng else next), p2)
            else (next, q) in
          IsChosen r.0 (view r.1)
    looked false again leaving u a = record {
      informed = i;
      pinned = pin;
      secured = λ e n. ground (arith, u, n);
      settled_keys = keys;
    }
    looked true again true u a = rw (same again) (record {
      informed = i;
      pinned = pin;
      secured = λ e n. ground (arith, n);
      settled_keys = keys;
    })
    looked true true false u a = rw (same true) (record {
      informed = i;
      pinned = pin;
      secured = λ e n. ground (arith, n);
      settled_keys = keys;
    })
    looked true false false u a = record {
      informed = i;
      pinned = pin;
      secured = λ e n. sec e n a;
      settled_keys = keys;
    }

session-IsChosen :
    (p : Panel) (is_ok : Bool) (now : ℕ)
    → IsMid is_ok p
    → let next = next_state p is_ok now in
      let r = session_requests (next, transition_effects p is_ok next now) in
      IsChosen r.0 (view r.1)
session-IsChosen p is_ok now m = elim (Bool-cases (is_online p.state)) [
  | inl k ↦ rw (transition-online p is_ok now k) (
      requests-IsChosen (next_state p is_ok now) p m.informed m.pinned m.settled_keys
        (λ e n o. m.secured e k (ground (arith, o, succeeded is_ok k n))))
  | inr k ↦
      let e = transition-MayEnter p is_ok now m.pinned in
      let next = next_state p is_ok now in
      let q = transition_effects p is_ok next now in
      requests-IsChosen next q
        (λ n. e.heard ∙ m.informed (sym e.notifies ∙ n) ∙ sym (ap is_online e.state)) e.pinned
        (e.install ∙ m.settled_keys) (λ f n o. e.secured f n k)
]
  where
    succeeded :
        (b : Bool) → is_online p.state ≡ true → is_online (next_state p b now) ≡ true → b ≡ true
    succeeded true k n = refl
    succeeded false k n = ground (arith, n, failed-offline p now k)

pick-IsChosen :
    (p : Panel) (is_ok : Bool) (now : ℕ)
    → IsMid is_ok p
    → IsChosen (pick p is_ok now).0 (view (pick p is_ok now).1)
unfolding pick
pick-IsChosen p is_ok now m =
    let next = next_state p is_ok now in
    if_both (λ (r : State × Panel). IsChosen r.0 (view r.1)) p.request.link_reset
      (offline, record p { request = record p.request { link_reset = false } })
      (session_requests (next, transition_effects p is_ok next now))
      (record {
        informed = m.informed;
        pinned = m.pinned;
        secured = λ e n. ground (arith, n);
        settled_keys = m.settled_keys;
      })
      (session-IsChosen p is_ok now m)

lifecycle-IsChosen :
    (next : State) (p : Panel)
    → IsChosen next (view p)
    → let r = lifecycle_requests (next, p) in IsChosen r.0 (view r.1)
unfolding lifecycle_requests
lifecycle-IsChosen next p h =
    let n = chosen p.request.enable p.request.disable in
    record { informed = h.informed; pinned = h.pinned; secured = n; settled_keys = h.settled_keys }
  where
    chosen :
        (a b : Bool)
        → (view p).enforcing ≡ true
        → is_online (if a then init else if b then disabled else next) ≡ true
        → (view p).active ≡ true
    chosen true b e o = ground (arith, o)
    chosen false true e o = ground (arith, o)
    chosen false false e o = h.secured e o

is_state-online : (a b : State) → is_state a b ≡ true → is_online b ≡ is_online a
is_state-online init init e = refl
is_state-online capdet capdet e = refl
is_state-online sc_chlng sc_chlng e = refl
is_state-online sc_scrypt sc_scrypt e = refl
is_state-online set_scbk set_scbk e = refl
is_state-online online online e = refl
is_state-online offline offline e = refl
is_state-online disabled disabled e = refl
is_state-online a b e = ground (arith, e)

-- A view that is another one but for its channel, as one that keeps its own channel.
pub own_active :
    (v w : View) (b : Bool) → w ≡ record v { active = b } → w ≡ record v { active = w.active }
own_active v w b e =
    e ∙ ap (λ (x : Bool). record v { active = x }) (sym (ap (λ (u : View). u.active) e))

abbrev is_alike : Panel → State → Bool
is_alike p next = if is_online p.state then is_online next else not (is_online next)

alike : (a b : Bool) → (if a then b else not b) ≡ true → a ≡ b
alike true b e = sym e
alike false b e = ground (arith, e)

module _ (c : Crypto) (layers : Layers) (laws : IsLawful layers) where
  -- Entering a state: the channel goes down, or the link's state stays.
  enter-view :
      (p : Panel) (next : State) (now : ℕ)
      → view (enter c layers p next now)
        ≡ record (view p) { active = (view (enter c layers p next now)).active }
  unfolding enter sc_setup state_reset reset_seq_number
  enter-view p init now = refl
  enter-view p capdet now = refl
  enter-view p sc_chlng now = refl
  enter-view p sc_scrypt now = refl
  enter-view p set_scbk now = refl
  enter-view p online now = refl
  enter-view p offline now =
      let timed = record p {
        wait_ms = online_retry_wait_max_ms;
        pd = record p.pd { tstamp = now };
      } in
      let dropped = drop_session_requests timed in
      let down = notify_sc_status (record dropped { pd = sc_deactivate dropped.pd }) in
      own_active (view p) (view (layers.engines_abort down)) false
        (laws.engines_abort down ∙ view-taken_down dropped)
  enter-view p disabled now =
      let dropped = drop_session_requests p in
      let down = notify_sc_status (record dropped { pd = sc_deactivate dropped.pd }) in
      let ended = layers.engines_abort down in
      own_active (view p) (view (record ended { pd = state_reset ended.pd true })) false
        (view-state_reset ended true ∙ (laws.engines_abort down ∙ view-taken_down dropped))

  -- The channel of a PD that goes online is left alone.
  enter-online :
      (p : Panel) (next : State) (now : ℕ) → is_online next ≡ true → enter c layers p next now ≡ p
  unfolding enter
  enter-online p online now h = refl
  enter-online p init now h = ground (arith, h)
  enter-online p capdet now h = ground (arith, h)
  enter-online p sc_chlng now h = ground (arith, h)
  enter-online p sc_scrypt now h = ground (arith, h)
  enter-online p set_scbk now h = ground (arith, h)
  enter-online p offline now h = ground (arith, h)
  enter-online p disabled now h = ground (arith, h)

  state_change-IsSound :
      (p : Panel) (next : State) (now : ℕ)
      → IsChosen next (view p)
      → IsSound (view (state_change c layers p next now))
  unfolding state_change
  state_change-IsSound p next now h = told (is_alike p next) refl
    where
      moved : Panel
      moved = record (enter c layers p next now) { state = next }

      moved_view :
          view moved
          ≡ record (view p) { state = next; active = (view (enter c layers p next now)).active }
      moved_view = ap (λ (v : View). record v { state = next }) (enter-view p next now)

      in_channel :
          (view p).enforcing ≡ true
          → is_online next ≡ true
          → (view (enter c layers p next now)).active ≡ true
      in_channel e n =
          ap (λ (q : Panel). (view q).active) (enter-online p next now n) ∙ h.secured e n

      told :
          (b : Bool)
          → is_alike p next ≡ b
          → IsSound (view (if b then moved else notify_pd_status moved (is_online next)))
      told true k = rw moved_view (record {
        informed = λ n. h.informed n ∙ alike (is_online p.state) (is_online next) k;
        pinned = h.pinned;
        secured = in_channel;
        settled_keys = h.settled_keys;
      })
      told false k =
          rw
            (view-notify_pd_status moved (is_online next)
              ∙ ap
                  (λ (v : View). record v {
                    heard = if v.notifies then is_online next else v.heard;
                  })
                  moved_view)
            (record {
              informed = λ n. ground (arith, n);
              pinned = h.pinned;
              secured = in_channel;
              settled_keys = h.settled_keys;
            })

  -- The move to the state that was chosen.
  pub move-IsSound :
      (next : State) (p : Panel) (now : ℕ)
      → IsChosen next (view p)
      → IsSound (view (move c layers (next, p) now))
  move-IsSound next p now h = elim (Bool-cases (is_state p.state next)) [
    | inl k ↦ rw k (record {
      informed = h.informed;
      pinned = h.pinned;
      secured = λ e n. h.secured e (is_state-online p.state next k ∙ n);
      settled_keys = h.settled_keys;
    })
    | inr k ↦ rw k (state_change-IsSound p next now h)
  ]

  pub advance-IsSound :
      (p : Panel) (is_ok : Bool) (now : ℕ)
      → IsMid is_ok p
      → IsSound (view (advance c layers (is_ok, p) now))
  unfolding advance
  advance-IsSound p is_ok now m =
      let chosen = pick p is_ok now in
      let settled = lifecycle_requests chosen in
      move-IsSound settled.0 settled.1 now
        (lifecycle-IsChosen chosen.0 chosen.1 (pick-IsChosen p is_ok now m))
