-- ===== src/Cp/Secured/Transition.antt =====
-- What the transition tables and their effects (src/osdp_cp.c: get_next_ok_state, get_next_err_state and
-- cp_transition_effects) do to the promises of the link.
use libosdp.Common.{ℕ, ◌≡◌, refl, ap, Bool, true, false, not, ◌&&◌, ◌||◌, if◌then◌else◌, ltb, arith}
use libosdp.Device.{sc_activate, sc_is_capable}
use libosdp.Cp.{
  Panel, State, init, capdet, sc_chlng, sc_scrypt, set_scbk, online, offline, disabled, is_online,
  notify_sc_status, set_scbkd, millis_since,
}
use libosdp.Cp.Machine.{
  next_ok, next_err, ok_effects, err_effects, next_state, transition_effects, is_state,
  sc_should_retry,
}
use libosdp.Cp.Secured.{View, view, view-taken_down, view-brought_up, view-keyset_complete}

-- The promises while a pass is under way: a PD that has to be secure and is online is in a secure channel
-- as far as `claim` says so.
pub record Holds (claim : Bool) (v : View) : Type 0 where
  pub informed : v.notifies ≡ true → v.heard ≡ is_online v.state
  pub pinned : (v.enforcing || v.established) ≡ true → v.scbkd ≡ false
  pub secured : v.enforcing ≡ true → is_online v.state ≡ true → claim ≡ true → v.active ≡ true
  pub settled_keys : v.install ≡ false

pub Holds-same : (a b : Bool) (v w : View) → w ≡ v → (b ≡ true → a ≡ true) → Holds a v → Holds b w
Holds-same a b v w e c h = rw e (record {
  informed = h.informed;
  pinned = h.pinned;
  secured = λ f n k. h.secured f n (c k);
  settled_keys = h.settled_keys;
})

-- Between the end of a command and the choice of the next state: a PD that lost its secure channel
-- failed, or is about to start it again.
abbrev pub IsMid : Bool → Panel → Type 0
IsMid is_ok p = Holds (is_ok && not p.request.restart_sc) (view p)

-- The state `next` may follow, once the effects have made `v` the view.
pub record MayEnter (v v' : View) (next : State) : Type 0 where
  pub state : v'.state ≡ v.state
  pub notifies : v'.notifies ≡ v.notifies
  pub heard : v'.heard ≡ v.heard
  pub enforcing : v'.enforcing ≡ v.enforcing
  pub install : v'.install ≡ v.install
  pub pinned : (v'.enforcing || v'.established) ≡ true → v'.scbkd ≡ false
  pub secured :
      v'.enforcing ≡ true → is_online next ≡ true → is_online v.state ≡ false → v'.active ≡ true
  pub kept : is_online v.state ≡ true → v' ≡ v

-- Nothing changed, and the next state is not online, or nothing has to be secure.
MayEnter-same :
    (v : View) (next : State)
    → ((v.enforcing || v.established) ≡ true → v.scbkd ≡ false)
    → (v.enforcing ≡ true → is_online next ≡ true → is_online v.state ≡ false → v.active ≡ true)
    → MayEnter v v next
MayEnter-same v next pinned secured = record {
  state = refl;
  notifies = refl;
  heard = refl;
  enforcing = refl;
  install = refl;
  pinned = pinned;
  secured = secured;
  kept = λ k. refl;
}

-- The keys and the channel changed in a state in which the PD is not online.
MayEnter-changed :
    (v : View) (next : State) (established scbkd active : Bool)
    → is_online v.state ≡ false
    → ((v.enforcing || established) ≡ true → scbkd ≡ false)
    → (v.enforcing ≡ true → is_online next ≡ true → active ≡ true)
    → MayEnter v (record v { established = established; scbkd = scbkd; active = active }) next
MayEnter-changed v next established scbkd active down pinned secured = record {
  state = refl;
  notifies = refl;
  heard = refl;
  enforcing = refl;
  install = refl;
  pinned = pinned;
  secured = λ e n o. secured e n;
  kept = λ k. ground (arith, k, down);
}

abbrev pub Pinned : Panel → Type 0
Pinned p = ((view p).enforcing || (view p).established) ≡ true → (view p).scbkd ≡ false

capdet-MayEnter :
    (p : Panel) (cap enf : Bool)
    → (view p).enforcing ≡ enf
    → is_online (view p).state ≡ false
    → Pinned p
    → let next = if cap then sc_chlng else if enf then offline else online in
      MayEnter (view p) (view (if is_state next sc_chlng then set_scbkd p false else p)) next
capdet-MayEnter p true enf e d pin =
    MayEnter-changed (view p) sc_chlng (view p).established false (view p).active d (λ k. refl)
      (λ f n. ground (arith, n))
capdet-MayEnter p false true e d pin =
    MayEnter-same (view p) offline pin (λ f n o. ground (arith, n))
capdet-MayEnter p false false e d pin =
    MayEnter-same (view p) online pin (λ f n o. ground (arith, f, e))

scrypt-MayEnter :
    (p : Panel) (scbkd : Bool)
    → (view p).scbkd ≡ scbkd
    → is_online (view p).state ≡ false
    → Pinned p
    → let next = if scbkd then set_scbk else online in
      let up = notify_sc_status (record p { pd = sc_activate p.pd }) in
      MayEnter
        (view p)
        (view (if is_state next set_scbk then up else record up { sc_established = true }))
        next
scrypt-MayEnter p true e d pin = rw (view-brought_up p) (
    MayEnter-changed (view p) set_scbk (view p).established (view p).scbkd true d pin (λ f n. refl))
scrypt-MayEnter p false e d pin =
    let up = notify_sc_status (record p { pd = sc_activate p.pd }) in
    let v : view (record up { sc_established = true })
        ≡ record (view p) { established = true; active = true } =
      ap (λ (v : View). record v { established = true }) (view-brought_up p) in
    rw v (MayEnter-changed (view p) online true (view p).scbkd true d (λ k. e) (λ f n. refl))

pub ok_effects-MayEnter :
    (p : Panel) (s : State) (now : ℕ)
    → p.state ≡ s
    → Pinned p
    → MayEnter (view p) (view (ok_effects p s (next_ok p s now))) (next_ok p s now)
unfolding ok_effects next_ok
ok_effects-MayEnter p init now e pin =
    MayEnter-same (view p) capdet pin (λ f n d. ground (arith, n))
ok_effects-MayEnter p capdet now e pin =
    capdet-MayEnter p (sc_is_capable p.pd) (view p).enforcing refl (ap is_online e) pin
ok_effects-MayEnter p sc_chlng now e pin =
    MayEnter-same (view p) sc_scrypt pin (λ f n d. ground (arith, n))
ok_effects-MayEnter p sc_scrypt now e pin =
    scrypt-MayEnter p (view p).scbkd refl (ap is_online e) pin
ok_effects-MayEnter p set_scbk now e pin = rw (view-keyset_complete p) (
    MayEnter-changed (view p) sc_chlng (view p).established false false (ap is_online e) (λ k. refl)
      (λ f n. ground (arith, n)))
ok_effects-MayEnter p online now e pin =
    MayEnter-same (view p) (if sc_should_retry p now then sc_chlng else online) pin
      (λ f n d. ground (arith, d, ap is_online e))
ok_effects-MayEnter p offline now e pin =
    MayEnter-same (view p) (next_ok p offline now) pin
      (λ f n d. not_up (ltb p.wait_ms (millis_since now p.pd.tstamp)) n)
  where
    not_up : (b : Bool) {P : Type 0} → is_online (if b then init else offline) ≡ true → P
    not_up b n = ground (arith, n)
ok_effects-MayEnter p disabled now e pin =
    MayEnter-same (view p) disabled pin (λ f n d. ground (arith, n))

chlng-MayEnter :
    (p : Panel) (enf scbkd est : Bool) (now : ℕ)
    → (view p).enforcing ≡ enf
    → (view p).scbkd ≡ scbkd
    → (view p).established ≡ est
    → is_online (view p).state ≡ false
    → Pinned p
    → let next = if enf then offline else if not scbkd && not est then sc_chlng else online in
      MayEnter
        (view p)
        (view (
          if is_state next offline
          then p
          else if is_state next sc_chlng
          then set_scbkd p true
          else record (set_scbkd p false) { sc_tstamp = now }))
        next
chlng-MayEnter p true scbkd est now e k m d pin =
    MayEnter-same (view p) offline pin (λ f n o. ground (arith, n))
chlng-MayEnter p false true est now e k m d pin =
    MayEnter-changed (view p) online (view p).established false (view p).active d (λ x. refl)
      (λ f n. ground (arith, f, e))
chlng-MayEnter p false false true now e k m d pin =
    MayEnter-changed (view p) online (view p).established false (view p).active d (λ x. refl)
      (λ f n. ground (arith, f, e))
chlng-MayEnter p false false false now e k m d pin =
    MayEnter-changed (view p) sc_chlng (view p).established true (view p).active d
      (λ x. ground (arith, x, e, m)) (λ f n. ground (arith, n))

pub err_effects-MayEnter :
    (p : Panel) (s : State) (now : ℕ)
    → p.state ≡ s
    → Pinned p
    → MayEnter (view p) (view (err_effects p s (next_err p s) now)) (next_err p s)
unfolding err_effects next_err
err_effects-MayEnter p init now e pin =
    MayEnter-same (view p) offline pin (λ f n d. ground (arith, n))
err_effects-MayEnter p capdet now e pin =
    MayEnter-same (view p) offline pin (λ f n d. ground (arith, n))
err_effects-MayEnter p sc_chlng now e pin =
    chlng-MayEnter p (view p).enforcing (view p).scbkd (view p).established now refl refl refl
      (ap is_online e) pin
err_effects-MayEnter p sc_scrypt now e pin =
    MayEnter-same (view p) (if (view p).enforcing then offline else online) pin
      (λ f n d. ground (arith, f, n))
err_effects-MayEnter p set_scbk now e pin = rw (view-taken_down p) (
    MayEnter-changed (view p) (next_err p set_scbk) (view p).established (view p).scbkd false
      (ap is_online e) pin (λ f n. ground (arith, f, n)))
err_effects-MayEnter p online now e pin =
    MayEnter-same (view p) offline pin (λ f n d. ground (arith, n))
err_effects-MayEnter p offline now e pin =
    MayEnter-same (view p) offline pin (λ f n d. ground (arith, n))
err_effects-MayEnter p disabled now e pin =
    MayEnter-same (view p) disabled pin (λ f n d. ground (arith, n))

pub transition-MayEnter :
    (p : Panel) (is_ok : Bool) (now : ℕ)
    → Pinned p
    → MayEnter
        (view p)
        (view (transition_effects p is_ok (next_state p is_ok now) now))
        (next_state p is_ok now)
unfolding transition_effects next_state
transition-MayEnter p true now pin = ok_effects-MayEnter p p.state now refl pin
transition-MayEnter p false now pin = err_effects-MayEnter p p.state now refl pin

ok_effects-online :
    (p : Panel) (s : State) (now : ℕ) → is_online s ≡ true → ok_effects p s (next_ok p s now) ≡ p
unfolding ok_effects
ok_effects-online p online now h = refl
ok_effects-online p init now h = ground (arith, h)
ok_effects-online p capdet now h = ground (arith, h)
ok_effects-online p sc_chlng now h = ground (arith, h)
ok_effects-online p sc_scrypt now h = ground (arith, h)
ok_effects-online p set_scbk now h = ground (arith, h)
ok_effects-online p offline now h = ground (arith, h)
ok_effects-online p disabled now h = ground (arith, h)

err_effects-online :
    (p : Panel) (s : State) (now : ℕ) → is_online s ≡ true → err_effects p s (next_err p s) now ≡ p
unfolding err_effects
err_effects-online p online now h = refl
err_effects-online p init now h = ground (arith, h)
err_effects-online p capdet now h = ground (arith, h)
err_effects-online p sc_chlng now h = ground (arith, h)
err_effects-online p sc_scrypt now h = ground (arith, h)
err_effects-online p set_scbk now h = ground (arith, h)
err_effects-online p offline now h = ground (arith, h)
err_effects-online p disabled now h = ground (arith, h)

-- A PD that is online is left as it is.
pub transition-online :
    (p : Panel) (is_ok : Bool) (now : ℕ)
    → is_online p.state ≡ true
    → transition_effects p is_ok (next_state p is_ok now) now ≡ p
unfolding transition_effects next_state
transition-online p true now h = ok_effects-online p p.state now h
transition-online p false now h = err_effects-online p p.state now h

-- A PD that is online and failed does not stay so.
pub failed-offline :
    (p : Panel) (now : ℕ) → is_online p.state ≡ true → is_online (next_state p false now) ≡ false
unfolding next_state next_err
failed-offline p now h = down p.state h
  where
    down : (s : State) → is_online s ≡ true → is_online (next_err p s) ≡ false
    down online h = refl
    down init h = refl
    down capdet h = refl
    down sc_chlng h = ground (arith, h)
    down sc_scrypt h = ground (arith, h)
    down set_scbk h = ground (arith, h)
    down offline h = refl
    down disabled h = refl
