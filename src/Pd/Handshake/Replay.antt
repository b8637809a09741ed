-- ===== src/Pd/Handshake/Replay.antt =====
-- CMD_SCRYPT without a challenge before it (src/osdp_pd.c: pd_decode_command), once a session of the PD is over.
use libosdp.Common.{
  ℕ, ◌≡◌, ◌≤◌, sym, ap, ◌∙◌, Bool, true, false, not, ◌&&◌, none, some, Option, List, ◌==◌, length,
  take, arith,
}
use libosdp.Crypto.{Crypto}
use libosdp.SecureChannel.{compute_rmac_i, verify_cp_cryptogram, cp_block, ct_compare}
use libosdp.Device.{
  Device, Flags, ScContext, sc_is_active, sc_activate, is_enforce_secure, reply_rmac_i, cmd_scrypt,
}
use libosdp.Pd.Peripheral.{
  Peripheral, App, Cap, level, with_dev, reply_with, notify_sc_status, pd_sc_deactivate,
}
use libosdp.Pd.Engines.{Engines}
use libosdp.Pd.Dispatch.{
  PdErr, pd_err_none, pd_err_wait, pd_err_generic, pd_err_reply, pd_err_ignore, pd_err_no_data,
  pd_err_retry_send, allowed_in_clear, capable, cmd_cap_ok,
}
use libosdp.Pd.Decode.{
  decode_command, on_id, on_library_id, on_scrypt, verify_scrypt, refuse_undecoded, started,
}
use libosdp.Pd.Reply.{draft_rmac_i}
use libosdp.Pd.Handshake.{
  deactivate-SameChannel, deactivate-caps, notified-caps, decode-scrypt, verify_scrypt-accepts,
  draft_rmac_i-drafts, session_up,
}

module _ {E : Type 0} (crc16 : List ℕ → ℕ) (c : Crypto) (engines : Engines E) (app : App) where
  abbrev with_cryptogram : Device → List ℕ → Device
  with_cryptogram pd d = record pd { sc = record pd.sc { cp_cryptogram = take 16 d } }

  on_scrypt-length :
      (q : Peripheral E) (d : List ℕ) → (on_scrypt c app q d).0 ≡ pd_err_none → length d ≡ 16
  unfolding on_scrypt
  on_scrypt-length q d h = ground arith

  on_scrypt-capable :
      (q : Peripheral E) (d : List ℕ)
      → (on_scrypt c app q d).0 ≡ pd_err_none
      → ((cmd_cap_ok q 0).0 ≡ true) × ((verify_scrypt c app (cmd_cap_ok q 0).1 d).0 ≡ pd_err_none)
  unfolding on_scrypt
  on_scrypt-capable q d h = ground arith

  verify_scrypt-good :
      (q : Peripheral E) (d : List ℕ)
      → (verify_scrypt c app q d).0 ≡ pd_err_none
      → (sc_is_active q.dev ≡ false) × (verify_cp_cryptogram c (with_cryptogram q.dev d) ≡ true)
  unfolding verify_scrypt
  verify_scrypt-good q d h = ground arith

  cap_ok-same : (q : Peripheral E) → (cmd_cap_ok q 0).0 ≡ true → (cmd_cap_ok q 0) ≡ (true, q)
  unfolding cmd_cap_ok
  cap_ok-same q h = ground arith

  scrypt-level :
      (p : Peripheral E)
      → (cmd_cap_ok (started app crc16 c engines p cmd_scrypt) 0).0 ≡ true
      → (level p 9 == 0) ≡ false
  unfolding cmd_cap_ok capable
  scrypt-level p h = ground arith

  decode-on_scrypt :
      (p : Peripheral E) (d : List ℕ)
      → decode_command app crc16 c engines p cmd_scrypt d
        ≡ refuse_undecoded app crc16 c engines
            (on_scrypt c app (started app crc16 c engines p cmd_scrypt) d)
  unfolding decode_command on_id on_library_id
  decode-on_scrypt p d =
      let e : (is_enforce_secure p.dev
            && (not (sc_is_active p.dev) && not (allowed_in_clear cmd_scrypt)))
          ≡ false =
        ground arith in
      rw e

  undecoded-none :
      (r : PdErr × Peripheral E)
      → (refuse_undecoded app crc16 c engines r).0 ≡ pd_err_none
      → r.0 ≡ pd_err_none
  unfolding refuse_undecoded
  undecoded-none (pd_err_generic, p) h = cc
  undecoded-none (pd_err_none, p) h = h
  undecoded-none (pd_err_wait, p) h = h
  undecoded-none (pd_err_reply, p) h = h
  undecoded-none (pd_err_ignore, p) h = h
  undecoded-none (pd_err_no_data, p) h = h
  undecoded-none (pd_err_retry_send, p) h = h

  -- What CMD_SCRYPT asks for.
  scrypt-accepted :
      (p : Peripheral E) (d : List ℕ)
      → (decode_command app crc16 c engines p cmd_scrypt d).0 ≡ pd_err_none
      → (length d ≡ 16)
        × ((level p 9 == 0) ≡ false)
        × (sc_is_active p.dev ≡ false)
        × (verify_cp_cryptogram c (with_cryptogram p.dev d) ≡ true)
  unfolding verify_cp_cryptogram
  scrypt-accepted p d h =
      let q = started app crc16 c engines p cmd_scrypt in
      let taken =
        undecoded-none (on_scrypt c app q d)
          (ap (λ (r : PdErr × Peripheral E). r.0) (sym (decode-on_scrypt p d)) ∙ h) in
      let (cap_ok, good) = on_scrypt-capable q d taken in
      let same =
        ap (λ (r : Bool × Peripheral E). (verify_scrypt c app r.1 d).0) (cap_ok-same q cap_ok) in
      let (inactive, verified) = verify_scrypt-good q d (sym same ∙ good) in
      (on_scrypt-length q d taken, scrypt-level p cap_ok, inactive, verified)

  module _ (p : Peripheral E) (d : List ℕ) (n now : ℕ) where
    abbrev accepted : Peripheral E
    accepted = (decode_command app crc16 c engines p cmd_scrypt d).1

    -- The session that the reply brought up, once it is over: it timed out, or the link was reset.
    abbrev pub ended : Peripheral E
    ended = pd_sc_deactivate app (draft_rmac_i c app accepted true n now).1

    module _ (fits : 16 ≤ n)
        (took : (decode_command app crc16 c engines p cmd_scrypt d).0 ≡ pd_err_none) where
      accepted_lem :
          accepted
          ≡ reply_with
              (with_dev
                (started app crc16 c engines p cmd_scrypt)
                (with_cryptogram (started app crc16 c engines p cmd_scrypt).dev d))
              reply_rmac_i
      unfolding verify_cp_cryptogram
      accepted_lem =
          let (len, cap_ok, inactive, verified) = scrypt-accepted p d took in
          ap (λ (r : PdErr × Peripheral E). r.1)
            (decode-scrypt app crc16 c engines p d cap_ok len
              ∙ verify_scrypt-accepts app c (started app crc16 c engines p cmd_scrypt) d inactive
                  verified)

      -- The keys with the cryptogram and the first MAC of the session.
      abbrev session : ScContext
      session = record p.dev.sc {
        cp_cryptogram = take 16 d;
        r_mac = c.encrypt p.dev.sc.s_mac2 none (c.encrypt p.dev.sc.s_mac1 none (take 16 d));
      }

      -- The reply to a cryptogram `d` under the keys of the session.
      replied :
          (q : Peripheral E) (t : ℕ)
          → (compute_rmac_i c q.dev).sc ≡ session
          → ((draft_rmac_i c app q true n t).0 ≡ some (take 16 session.r_mac))
            × ((draft_rmac_i c app q true n t).1.dev.sc ≡ session)
            × ((draft_rmac_i c app q true n t).1.caps ≡ q.caps)
      unfolding notify_sc_status
      replied q t e =
          let drafts = draft_rmac_i-drafts app c q n t fits in
          (
            ap (λ (r : Option (List ℕ) × Peripheral E × List ℕ). r.0) drafts
                ∙ ap (λ (s : ScContext). some (take 16 s.r_mac)) e,
            ap (λ (r : Option (List ℕ) × Peripheral E × List ℕ). r.1.dev.sc) drafts
                ∙ (session_up app q (compute_rmac_i c q.dev)).0
                ∙ e,
            ap (λ (r : Option (List ℕ) × Peripheral E × List ℕ). r.1.caps) drafts
                ∙ notified-caps app (with_dev q (sc_activate (compute_rmac_i c q.dev))) _,
          )

      first : (compute_rmac_i c accepted.dev).sc ≡ session
      unfolding compute_rmac_i
      first =
          ap
            (λ (q : Peripheral E). record q.dev.sc {
              r_mac =
                  c.encrypt q.dev.sc.s_mac2 none
                    (c.encrypt q.dev.sc.s_mac1 none q.dev.sc.cp_cryptogram);
            })
            accepted_lem

      ended-sc : ended.dev.sc ≡ session
      ended-sc =
          (deactivate-SameChannel app (draft_rmac_i c app accepted true n now).1).same_sc
          ∙ (replied accepted now first).1

      ended-caps : ended.caps ≡ p.caps
      ended-caps =
          deactivate-caps app (draft_rmac_i c app accepted true n now).1
          ∙ (replied accepted now first).2
          ∙ ap (λ (q : Peripheral E). q.caps) accepted_lem

      -- The same cryptogram once more.
      again-decoded : decode_command app crc16 c engines ended cmd_scrypt d ≡ (
        pd_err_none,
        reply_with
            (with_dev
              (started app crc16 c engines ended cmd_scrypt)
              (with_cryptogram (started app crc16 c engines ended cmd_scrypt).dev d))
            reply_rmac_i,
      )
      unfolding verify_cp_cryptogram
      again-decoded =
          let (len, cap_ok, inactive, verified) = scrypt-accepted p d took in
          let off =
            ap (λ (f : Flags). f.sc_active)
              (deactivate-SameChannel app (draft_rmac_i c app accepted true n now).1).same_flags in
          decode-scrypt app crc16 c engines ended d
            (ap (λ (caps : ℕ → Cap). (caps 9).compliance_level == 0) ended-caps ∙ cap_ok) len
          ∙ verify_scrypt-accepts app c (started app crc16 c engines ended cmd_scrypt) d off (
              ap (λ (s : ScContext). ct_compare (take 16 d) (cp_block c s) 16 == 0) ended-sc
              ∙ verified)

      again-first :
          (compute_rmac_i c (decode_command app crc16 c engines ended cmd_scrypt d).1.dev).sc
          ≡ session
      unfolding compute_rmac_i
      again-first =
          ap
            (λ (r : PdErr × Peripheral E). record r.1.dev.sc {
              r_mac =
                  c.encrypt r.1.dev.sc.s_mac2 none
                    (c.encrypt r.1.dev.sc.s_mac1 none r.1.dev.sc.cp_cryptogram);
            })
            again-decoded
          ∙ ap
              (λ (s : ScContext). record s {
                cp_cryptogram = take 16 d;
                r_mac = c.encrypt s.s_mac2 none (c.encrypt s.s_mac1 none (take 16 d));
              })
              ended-sc

      -- A CMD_SCRYPT that a PD accepted is accepted a second time after the session that it opened has ended, with
      -- no challenge in between, and the PD answers with the same REPLY_RMAC_I and holds the same keys, random
      -- numbers and first MAC as in the first session.
      pub scrypt_replayed :
          (later : ℕ)
          → ((decode_command app crc16 c engines ended cmd_scrypt d).0 ≡ pd_err_none)
            × ((draft_rmac_i c app
                  (decode_command app crc16 c engines ended cmd_scrypt d).1
                  true
                  n
                  later).0
                ≡ (draft_rmac_i c app
                    (decode_command app crc16 c engines p cmd_scrypt d).1
                    true
                    n
                    now).0)
            × ((draft_rmac_i c app
                  (decode_command app crc16 c engines ended cmd_scrypt d).1
                  true
                  n
                  later).1.dev.sc
                ≡ (draft_rmac_i c app
                    (decode_command app crc16 c engines p cmd_scrypt d).1
                    true
                    n
                    now).1.dev.sc)
      scrypt_replayed later =
          let (bytes, sc, caps) = replied accepted now first in
          let (bytes', sc', caps') =
            replied (decode_command app crc16 c engines ended cmd_scrypt d).1 later again-first in
          (ap (λ (r : PdErr × Peripheral E). r.0) again-decoded, bytes' ∙ sym bytes, sc' ∙ sym sc)
