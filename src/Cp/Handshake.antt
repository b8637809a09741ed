-- ===== src/Cp/Handshake.antt =====
-- The replies of the secure channel's handshake as a control panel reads them (src/osdp_cp.c: cp_decode_response,
-- REPLY_CCRYPT and REPLY_RMAC_I), from the data after the reply's ID.
use libosdp.Common.{
  ℕ, ◌≡◌, true, false, arith, not, ◌||◌, List, ◌==◌, if◌then◌else◌, length, take, drop,
}
use libosdp.Crypto.{Crypto}
use libosdp.SecureChannel.{compute_session_keys, verify_pd_cryptogram}
use libosdp.Device.{Device, sc_is_active, cmd_chlng, cmd_scrypt}
use libosdp.Cp.{Rc, rc_none, rc_generic, rc_app}

-- The UID, the random number and the cryptogram of the PD.
unfoldable pub read_ccrypt : Device → List ℕ → Device
read_ccrypt pd d = record pd {
  sc = record pd.sc {
    pd_client_uid = take 8 d;
    pd_random = take 8 (drop 8 d);
    pd_cryptogram = take 16 (drop 16 d);
  };
}

-- REPLY_CCRYPT
unfoldable pub decode_ccrypt : Crypto → Device → List ℕ → Rc × Device
unfolding read_ccrypt
decode_ccrypt c pd d =
    let keyed = compute_session_keys c (read_ccrypt pd d) in
    if sc_is_active pd || not (pd.cmd_id == cmd_chlng)
    then (rc_generic, pd)
    else if not (length d == 32)
    then (rc_generic, pd)
    else if not (verify_pd_cryptogram c keyed)
    then (rc_app, keyed)
    else (rc_none, keyed)

-- REPLY_RMAC_I
unfoldable pub decode_rmac_i : Device → List ℕ → Rc × Device
decode_rmac_i pd d =
    if sc_is_active pd || not (pd.cmd_id == cmd_scrypt)
    then (rc_generic, pd)
    else if not (length d == 16)
    then (rc_generic, pd)
    else (rc_none, record pd { sc = record pd.sc { r_mac = take 16 d } })

pub decode_ccrypt-accepts :
    (c : Crypto) (pd : Device) (d : List ℕ)
    → sc_is_active pd ≡ false
    → (pd.cmd_id == cmd_chlng) ≡ true
    → length d ≡ 32
    → verify_pd_cryptogram c (compute_session_keys c (read_ccrypt pd d)) ≡ true
    → decode_ccrypt c pd d ≡ (rc_none, compute_session_keys c (read_ccrypt pd d))
unfolding decode_ccrypt
decode_ccrypt-accepts c pd d inactive asked len good = ground arith

pub decode_rmac_i-accepts :
    (pd : Device) (d : List ℕ)
    → sc_is_active pd ≡ false
    → (pd.cmd_id == cmd_scrypt) ≡ true
    → length d ≡ 16
    → decode_rmac_i pd d ≡ (rc_none, record pd { sc = record pd.sc { r_mac = take 16 d } })
unfolding decode_rmac_i
decode_rmac_i-accepts pd d inactive asked len = ground arith
