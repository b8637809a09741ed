-- ===== src/Pd/Handshake.antt =====
-- The handshake of the secure channel between a control panel (src/osdp_cp.c) and a PD (src/osdp_pd.c), by the data of
-- its four messages.
pub mod Keys
pub mod Agreement
pub mod Replay
use libosdp.Common.{
  ℕ, ◌+◌, ◌≡◌, ◌≤◌, refl, sym, ap, ap₂, ◌∙◌, Bool, true, false, not, ◌||◌, ◌&&◌, Option, none, some,
  List, [], ◌∷◌, ◌++◌, if◌then◌else◌, if_both, leb, ltb, ◌==◌, length, take, drop, arith,
}
use libosdp.Crypto.{Crypto}
use libosdp.SecureChannel.{
  scbk_default, compute_session_keys, compute_cp_cryptogram, compute_pd_cryptogram, compute_rmac_i,
  verify_cp_cryptogram, verify_pd_cryptogram, sc_setup, ct_compare, cp_block, pd_block,
  session_seed,
}
use libosdp.SecureChannel.Compare.{ct_compare_lem}
use libosdp.Device.{
  Device, Flags, ScContext, sc_is_active, sc_activate, sc_deactivate, report_metric,
  is_enforce_secure, reply_ccrypt, reply_rmac_i, cmd_chlng, cmd_scrypt, is_pd_mode,
}
use libosdp.Cp.{rc_none, Notification}
use libosdp.Cp.Build.{own_data}
use libosdp.Cp.Handshake.{decode_ccrypt, decode_rmac_i}
use libosdp.Pd.Event.{Event}
use libosdp.Pd.Peripheral.{
  Peripheral, App, Call, notified, reply_with, with_dev, level, submit_event, submit_all, call_app,
  deliver_notification, notify_sc_status, pd_sc_deactivate,
}
use libosdp.Pd.Engines.{Engines}
use libosdp.Pd.Dispatch.{PdErr, pd_err_none, pd_err_reply, capable, cmd_cap_ok}
use libosdp.Pd.Decode.{
  decode_command, on_id, on_library_id, on_challenge, on_scrypt, restart_handshake, verify_scrypt,
  refuse_undecoded, started,
}
use libosdp.Pd.Reply.{draft_ccrypt, draft_rmac_i}

module _ {E : Type 0} where
  -- The application changes nothing of the device.
  submit_event-dev : (p : Peripheral E) (ev : Event) → (submit_event p ev).1.dev ≡ p.dev
  unfolding submit_event
  submit_event-dev p ev = ground arith

  submit_all-dev : (evs : List Event) (p : Peripheral E) → (submit_all p evs).dev ≡ p.dev
  unfolding submit_all
  submit_all-dev [] p = refl
  submit_all-dev (ev ∷ evs) p = submit_all-dev evs (submit_event p ev).1 ∙ submit_event-dev p ev

  submit_all-caps : (evs : List Event) (p : Peripheral E) → (submit_all p evs).caps ≡ p.caps
  unfolding submit_all submit_event
  submit_all-caps [] p = refl
  submit_all-caps (ev ∷ evs) p = submit_all-caps evs (submit_event p ev).1 ∙ ground arith

-- What two devices have in common for the secure channel.
pub record SameChannel (a b : Device) : Type 0 where
  pub same_sc : a.sc ≡ b.sc
  pub same_flags : a.flags ≡ b.flags
  pub same_id : a.id ≡ b.id

SameChannel-eq : (a b : Device) → a ≡ b → SameChannel a b
SameChannel-eq a b e = record {
  same_sc = ap (λ (d : Device). d.sc) e;
  same_flags = ap (λ (d : Device). d.flags) e;
  same_id = ap (λ (d : Device). d.id) e;
}

deactivated-SameChannel :
    (pd : Device)
    → SameChannel (sc_deactivate pd) (record pd { flags = record pd.flags { sc_active = false } })
unfolding sc_deactivate report_metric
deactivated-SameChannel pd = ground arith

module _ {E : Type 0} (app : App) where
  module _ (p : Peripheral E) (call : Call) where
    call_app-dev : (call_app app p call).dev ≡ p.dev
    unfolding call_app
    call_app-dev = submit_all-dev (app p.calls call).submits (record p { calls = call ∷ p.calls })

    call_app-caps : (call_app app p call).caps ≡ p.caps
    unfolding call_app
    call_app-caps = submit_all-caps (app p.calls call).submits (record p { calls = call ∷ p.calls })

  pub notified-SameChannel :
      (p : Peripheral E) (n : Notification) → SameChannel (deliver_notification app p n).dev p.dev
  unfolding deliver_notification report_metric
  notified-SameChannel p n =
      if_both (λ (q : Peripheral E). SameChannel q.dev p.dev)
        (not p.has_callback || not p.enables_notif) p _ (SameChannel-eq _ _ refl)
        (let k = SameChannel-eq _ _ (call_app-dev p (notified n)) in
          record { same_sc = k.same_sc; same_flags = k.same_flags; same_id = k.same_id })

  notified-caps :
      (p : Peripheral E) (n : Notification) → (deliver_notification app p n).caps ≡ p.caps
  unfolding deliver_notification
  notified-caps p n =
      if_both (λ (q : Peripheral E). q.caps ≡ p.caps) (not p.has_callback || not p.enables_notif) p
        _ refl (call_app-caps p (notified n))

  pub deactivate-SameChannel :
      (p : Peripheral E)
      → SameChannel
          (pd_sc_deactivate app p).dev
          (record p.dev { flags = record p.dev.flags { sc_active = false } })
  unfolding pd_sc_deactivate notify_sc_status
  deactivate-SameChannel p =
      let k = deactivated-SameChannel p.dev in
      let n = notified-SameChannel (with_dev p (sc_deactivate p.dev)) _ in
      let off = record p.dev { flags = record p.dev.flags { sc_active = false } } in
      if_both (λ (q : Peripheral E). SameChannel q.dev off) (sc_is_active p.dev) _ _
        (record {
          same_sc = n.same_sc ∙ k.same_sc;
          same_flags = n.same_flags ∙ k.same_flags;
          same_id = n.same_id ∙ k.same_id;
        })
        k

  pub deactivate-caps : (p : Peripheral E) → (pd_sc_deactivate app p).caps ≡ p.caps
  unfolding pd_sc_deactivate notify_sc_status
  deactivate-caps p =
      if_both (λ (q : Peripheral E). q.caps ≡ p.caps) (sc_is_active p.dev) _ _
        (notified-caps (with_dev p (sc_deactivate p.dev)) _) refl

  -- Reading CMD_CHLNG and CMD_SCRYPT, which are allowed with and without a secure channel.
  module _ (crc16 : List ℕ → ℕ) (c : Crypto) (engines : Engines E) where
    pub decode-challenge :
        (p : Peripheral E) (d : List ℕ)
        → (level p 9 == 0) ≡ false
        → length d ≡ 8
        → decode_command app crc16 c engines p cmd_chlng d
          ≡ restart_handshake c app (started app crc16 c engines p cmd_chlng) d
    unfolding decode_command on_id on_library_id on_challenge cmd_cap_ok capable refuse_undecoded
        restart_handshake
    decode-challenge p d cap_ok len = ground arith

    pub decode-scrypt :
        (p : Peripheral E) (d : List ℕ)
        → (level p 9 == 0) ≡ false
        → length d ≡ 16
        → decode_command app crc16 c engines p cmd_scrypt d
          ≡ verify_scrypt c app (started app crc16 c engines p cmd_scrypt) d
    unfolding decode_command on_id on_library_id on_scrypt cmd_cap_ok capable refuse_undecoded
        verify_scrypt
    decode-scrypt p d cap_ok len = ground arith

  -- A cryptogram that is right, without a secure channel.
  pub verify_scrypt-accepts :
      (c : Crypto) (p : Peripheral E) (d : List ℕ)
      → sc_is_active p.dev ≡ false
      → verify_cp_cryptogram c (record p.dev { sc = record p.dev.sc { cp_cryptogram = take 16 d } })
        ≡ true
      → verify_scrypt c app p d ≡ (
        pd_err_none,
        reply_with
            (with_dev p (record p.dev { sc = record p.dev.sc { cp_cryptogram = take 16 d } }))
            reply_rmac_i,
      )
  unfolding verify_scrypt
  verify_scrypt-accepts c p d inactive good = ground arith

  -- REPLY_RMAC_I, where there is space.
  pub draft_rmac_i-drafts :
      (c : Crypto) (p : Peripheral E) (n now : ℕ)
      → 16 ≤ n
      → draft_rmac_i c app p true n now ≡ (
        some (take 16 (compute_rmac_i c p.dev).sc.r_mac),
        record (notify_sc_status app (with_dev p (sc_activate (compute_rmac_i c p.dev)))) {
          sc_tstamp = now;
        },
        3 ∷ 0x14 ∷ 1 ∷ [],
      )
  unfolding draft_rmac_i
  draft_rmac_i-drafts c p n now fits = let e : ltb n 16 ≡ false = ground (arith, fits) in rw e

  -- Telling the application leaves the keys as they are, and the channel up.
  pub session_up :
      (p : Peripheral E) (pd : Device)
      → ((notify_sc_status app (with_dev p (sc_activate pd))).dev.sc ≡ pd.sc)
        × (sc_is_active (notify_sc_status app (with_dev p (sc_activate pd))).dev ≡ true)
  unfolding notify_sc_status sc_activate report_metric
  session_up p pd =
      let n = notified-SameChannel (with_dev p (sc_activate pd)) _ in
      (n.same_sc, ap (λ (f : Flags). f.sc_active) n.same_flags)
