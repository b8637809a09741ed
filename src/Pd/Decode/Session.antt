-- ===== src/Pd/Decode/Session.antt =====
-- CMD_CHLNG and CMD_SCRYPT in pd_decode_command of src/osdp_pd.c: the handshake of the secure channel.
use libosdp.Common.{ℕ, not, List, ◌==◌, if◌then◌else◌, length, take}
use libosdp.Crypto.{Crypto}
use libosdp.SecureChannel.{sc_setup, verify_cp_cryptogram}
use libosdp.Device.{sc_is_active, reply_ccrypt, reply_rmac_i, nak_sc_unsup, nak_sc_cond}
use libosdp.Pd.Peripheral.{Peripheral, App, with_dev, refuse, reply_with, pd_sc_deactivate}
use libosdp.Pd.Dispatch.{PdErr, pd_err_none, pd_err_generic, pd_err_reply, if_capable}

module _ {E : Type 0} (c : Crypto) (app : App) where
  -- The handshake starts over with the CP's random number.
  unfoldable pub restart_handshake : Peripheral E → List ℕ → PdErr × Peripheral E
  restart_handshake p d =
      let q = pd_sc_deactivate app p in
      let dev' = sc_setup c q.dev in
      (
        pd_err_none,
        reply_with (with_dev q (record dev' { sc = record dev'.sc { cp_random = take 8 d } }))
            reply_ccrypt,
      )

  -- CMD_CHLNG
  unfoldable pub on_challenge : Peripheral E → List ℕ → PdErr × Peripheral E
  unfolding restart_handshake
  on_challenge p d =
      if not (length d == 8)
      then (pd_err_generic, p)
      else if_capable p 0 (λ q. restart_handshake q d)

  -- The cryptogram of the CP is verified against the session keys at hand.
  unfoldable pub verify_scrypt : Peripheral E → List ℕ → PdErr × Peripheral E
  verify_scrypt p d =
      let q = with_dev p (record p.dev { sc = record p.dev.sc { cp_cryptogram = take 16 d } }) in
      if sc_is_active p.dev
      then (pd_err_reply, refuse p nak_sc_cond)
      else if not (verify_cp_cryptogram c q.dev)
      then (pd_err_reply, refuse q nak_sc_unsup)
      else (pd_err_none, reply_with q reply_rmac_i)

  -- CMD_SCRYPT
  unfoldable pub on_scrypt : Peripheral E → List ℕ → PdErr × Peripheral E
  unfolding verify_scrypt
  on_scrypt p d =
      if not (length d == 16) then (pd_err_generic, p) else if_capable p 0 (λ q. verify_scrypt q d)
