-- ===== src/Pd/Handshake/Agreement.antt =====
-- A whole handshake between a control panel (src/osdp_cp.c) and a PD (src/osdp_pd.c): CMD_CHLNG, REPLY_CCRYPT,
-- CMD_SCRYPT and REPLY_RMAC_I, each with the data that one end builds and the other reads.
use libosdp.Common.{
  ℕ, ◌≡◌, ◌≤◌, refl, sym, ap, ap₂, ◌∙◌, Bool, true, false, some, List, [], ◌∷◌, if◌then◌else◌,
  if_both, ltb, ◌==◌, length, take, arith, take_ge,
}
use libosdp.Crypto.{Crypto, IsBlockCipher}
use libosdp.SecureChannel.{
  scbk_default, compute_session_keys, compute_cp_cryptogram, compute_pd_cryptogram, compute_rmac_i,
  verify_cp_cryptogram, sc_setup, client_uid, cp_block,
}
use libosdp.Device.{
  Device, Flags, ScContext, reply_rmac_i, sc_is_active, sc_activate, is_pd_mode, cmd_chlng,
  cmd_scrypt,
}
use libosdp.Cp.{rc_none}
use libosdp.Cp.Build.{own_data, handshake_data, own_effect}
use libosdp.Cp.Handshake.{
  read_ccrypt, decode_ccrypt, decode_rmac_i, decode_ccrypt-accepts, decode_rmac_i-accepts,
}
use libosdp.Pd.Peripheral.{
  Peripheral, App, Cap, reply_with, level, with_dev, notify_sc_status, pd_sc_deactivate,
}
use libosdp.Pd.Engines.{Engines}
use libosdp.Pd.Dispatch.{pd_err_none}
use libosdp.Pd.Decode.{decode_command, started, restart_handshake}
use libosdp.Pd.Reply.{draft_ccrypt, draft_rmac_i}
use libosdp.Pd.Handshake.{
  deactivate-SameChannel, deactivate-caps, decode-challenge, decode-scrypt, verify_scrypt-accepts,
  draft_rmac_i-drafts, session_up,
}
use libosdp.Pd.Handshake.Keys.{
  base_key, taken, take_self, compare-same, length-cp_block, keyed_pd, ccrypt_data, keyed_cp,
  keys-agree, ccrypt-len, cp_block-agrees, pd_cryptogram-verifies,
}

module _ {E : Type 0} (crc16 : List ℕ → ℕ) (c : Crypto) (engines : Engines E) (app : App)
    (now space : ℕ) where
  -- The four messages of a handshake that went well, with `space` bytes for each, and the states of both ends in it.
  pub record Handshake (a a' : Device) (p p' : Peripheral E) : Type 0 where
    pub challenge : List ℕ
    pub ccrypt : List ℕ
    pub scrypt : List ℕ
    pub rmac_i : List ℕ
    pub ccrypt_block : List ℕ
    pub rmac_i_block : List ℕ
    pub cp_keyed : Device
    pub pd_asked : Peripheral E
    pub pd_keyed : Peripheral E
    pub pd_verified : Peripheral E
    pub sends_challenge : own_data c a true cmd_chlng space ≡ some challenge
    pub takes_challenge :
        decode_command app crc16 c engines p cmd_chlng challenge ≡ (pd_err_none, pd_asked)
    pub sends_ccrypt : draft_ccrypt c pd_asked true space ≡ (some ccrypt, pd_keyed, ccrypt_block)
    pub takes_ccrypt :
        decode_ccrypt c (record a { cmd_id = cmd_chlng }) ccrypt ≡ (rc_none, cp_keyed)
    pub keeps_cryptogram :
        (own_effect c cp_keyed true cmd_scrypt space).1 ≡ compute_cp_cryptogram c cp_keyed
    pub sends_scrypt : own_data c cp_keyed true cmd_scrypt space ≡ some scrypt
    pub takes_scrypt :
        decode_command app crc16 c engines pd_keyed cmd_scrypt scrypt ≡ (pd_err_none, pd_verified)
    pub sends_rmac_i :
        draft_rmac_i c app pd_verified true space now ≡ (some rmac_i, p', rmac_i_block)
    pub takes_rmac_i :
        decode_rmac_i (record (compute_cp_cryptogram c cp_keyed) { cmd_id = cmd_scrypt }) rmac_i
        ≡ (rc_none, a')

-- Both ends use the same keys and the same first MAC.
pub record SameSession (a d : Device) : Type 0 where
  pub same_enc : a.sc.s_enc ≡ d.sc.s_enc
  pub same_mac1 : a.sc.s_mac1 ≡ d.sc.s_mac1
  pub same_mac2 : a.sc.s_mac2 ≡ d.sc.s_mac2
  pub same_rmac : a.sc.r_mac ≡ d.sc.r_mac

module _ {E : Type 0} (crc16 : List ℕ → ℕ) (c : Crypto) (engines : Engines E) (app : App)
    (now space : ℕ) (a : Device) (p : Peripheral E) where
  abbrev challenge_of : List ℕ
  challenge_of = take 8 a.sc.cp_random

  abbrev asked : Peripheral E
  asked = (restart_handshake c app (started app crc16 c engines p cmd_chlng) challenge_of).1

  -- The PD with its random number drawn.
  abbrev drawn : Device
  drawn = record asked.dev { sc = record asked.dev.sc { pd_random = c.fill_random 8 } }

  module _ (block : IsBlockCipher c) (fits : 32 ≤ space) (inactive : sc_is_active a ≡ false)
      (capable : (level p 9 == 0) ≡ false) (random_len : length a.sc.cp_random ≡ 8)
      (key_len : length p.dev.sc.scbk ≡ 16) (same_key : base_key a ≡ base_key p.dev) where
    drawn-key : base_key a ≡ base_key drawn
    unfolding restart_handshake sc_setup
    drawn-key =
        let same = deactivate-SameChannel app (started app crc16 c engines p cmd_chlng) in
        same_key
        ∙ sym (
            ap₂ (λ (b : Bool) (k : List ℕ). if b then scbk_default else k)
              (ap (λ (f : Flags). f.sc_use_scbkd) same.same_flags)
              (ap (λ (s : ScContext). take 16 s.scbk) same.same_sc
                ∙ take_ge 16 p.dev.sc.scbk (omega (arith, key_len))))

    drawn-random : a.sc.cp_random ≡ drawn.sc.cp_random
    unfolding restart_handshake sc_setup
    drawn-random =
        sym (take_self 8 a.sc.cp_random ∙ take_ge 8 a.sc.cp_random (omega (arith, random_len)))

    drawn_random_len : length drawn.sc.cp_random ≡ 8
    drawn_random_len = ap length (sym drawn-random) ∙ random_len

    drawn_uid_len : length drawn.sc.pd_client_uid ≡ 8
    unfolding restart_handshake sc_setup client_uid
    drawn_uid_len =
        if_both (λ (l : List ℕ). length l ≡ 8)
          (is_pd_mode (pd_sc_deactivate app (started app crc16 c engines p cmd_chlng)).dev) _ _ refl
          refl

    drawn-inactive : sc_is_active drawn ≡ false
    unfolding restart_handshake sc_setup
    drawn-inactive =
        ap (λ (f : Flags). f.sc_active)
          (deactivate-SameChannel app (started app crc16 c engines p cmd_chlng)).same_flags

    asked-capable : (level asked 9 == 0) ≡ false
    unfolding restart_handshake
    asked-capable =
        ap (λ (caps : ℕ → Cap). (caps 9).compliance_level == 0)
          (deactivate-caps app (started app crc16 c engines p cmd_chlng))
        ∙ capable

    abbrev asking : Device
    asking = record a { cmd_id = cmd_chlng }

    abbrev keyed_panel : Device
    keyed_panel = keyed_cp c block asking drawn

    abbrev keyed_device : Device
    keyed_device = keyed_pd c block asking drawn

    abbrev answering : Peripheral E
    answering = with_dev asked keyed_device

    abbrev scrypt_of : List ℕ
    scrypt_of = take 16 (cp_block c keyed_panel.sc)

    -- The PD once it verified the cryptogram of the control panel.
    abbrev verified : Peripheral E
    verified =
        let q = started app crc16 c engines answering cmd_scrypt in
        reply_with
          (with_dev q (record q.dev { sc = record q.dev.sc { cp_cryptogram = take 16 scrypt_of } }))
          reply_rmac_i

    cp_block_len : length (cp_block c keyed_device.sc) ≡ 16
    unfolding compute_session_keys compute_pd_cryptogram
    cp_block_len = length-cp_block c block keyed_device.sc drawn_random_len block.length-random

    scrypt-agrees : take 16 scrypt_of ≡ cp_block c keyed_device.sc
    scrypt-agrees =
        take_self 16 (cp_block c keyed_panel.sc)
        ∙ ap (take 16) (
            cp_block-agrees c block asking drawn drawn-key drawn-random drawn_random_len
              drawn_uid_len block.length-random)
        ∙ take_ge 16 (cp_block c keyed_device.sc) (omega (arith, cp_block_len))

    sent_challenge : own_data c a true cmd_chlng space ≡ some challenge_of
    unfolding own_data handshake_data
    sent_challenge = ground (arith, fits)

    taken_challenge :
        decode_command app crc16 c engines p cmd_chlng challenge_of ≡ (pd_err_none, asked)
    unfolding restart_handshake
    taken_challenge =
        decode-challenge app crc16 c engines p challenge_of capable
          (taken 8 a.sc.cp_random random_len)

    sent_ccrypt : draft_ccrypt c asked true space ≡ (
      some (ccrypt_data c block asking drawn),
      answering,
      3 ∷ 0x12 ∷ (if keyed_device.flags.sc_use_scbkd then 0 else 1) ∷ [],
    )
    unfolding draft_ccrypt compute_session_keys compute_pd_cryptogram
    sent_ccrypt = let e : ltb space 32 ≡ false = ground (arith, fits) in rw e

    taken_ccrypt :
        decode_ccrypt c asking (ccrypt_data c block asking drawn) ≡ (rc_none, keyed_panel)
    taken_ccrypt =
        decode_ccrypt-accepts c asking (ccrypt_data c block asking drawn) inactive refl
          (ccrypt-len c block asking drawn drawn-key drawn-random drawn_random_len drawn_uid_len
            block.length-random)
          (pd_cryptogram-verifies c block asking drawn drawn-key drawn-random drawn_random_len
            drawn_uid_len block.length-random)

    scrypt_len : length scrypt_of ≡ 16
    scrypt_len =
        ap length (sym (take_self 16 (cp_block c keyed_panel.sc)) ∙ scrypt-agrees) ∙ cp_block_len

    kept_cryptogram :
        (own_effect c keyed_panel true cmd_scrypt space).1 ≡ compute_cp_cryptogram c keyed_panel
    unfolding own_effect
    kept_cryptogram = let e : ltb space 16 ≡ false = ground (arith, fits) in rw e refl

    sent_scrypt : own_data c keyed_panel true cmd_scrypt space ≡ some scrypt_of
    unfolding own_data handshake_data compute_cp_cryptogram
    sent_scrypt = let e : ltb space 16 ≡ false = ground (arith, fits) in rw e

    taken_scrypt :
        decode_command app crc16 c engines answering cmd_scrypt scrypt_of ≡ (pd_err_none, verified)
    unfolding verify_cp_cryptogram compute_session_keys compute_pd_cryptogram
    taken_scrypt =
        decode-scrypt app crc16 c engines answering scrypt_of asked-capable scrypt_len
        ∙ verify_scrypt-accepts app c (started app crc16 c engines answering cmd_scrypt) scrypt_of
            drawn-inactive
            (compare-same (take 16 scrypt_of) (cp_block c keyed_device.sc) 16 scrypt-agrees)

    abbrev rmac : List ℕ
    rmac = (compute_rmac_i c verified.dev).sc.r_mac

    rmac_len : length rmac ≡ 16
    unfolding compute_rmac_i
    rmac_len =
        block.length-block verified.dev.sc.s_mac2 _
          (block.length-block verified.dev.sc.s_mac1 _ (ap length scrypt-agrees ∙ cp_block_len))

    abbrev confirming : Device
    confirming = record (compute_cp_cryptogram c keyed_panel) { cmd_id = cmd_scrypt }

    taken_rmac_i : decode_rmac_i confirming (take 16 rmac) ≡ (
      rc_none,
      record confirming { sc = record confirming.sc { r_mac = take 16 (take 16 rmac) } },
    )
    unfolding compute_cp_cryptogram compute_session_keys read_ccrypt
    taken_rmac_i =
        decode_rmac_i-accepts confirming (take 16 rmac) inactive refl (taken 16 rmac rmac_len)

    abbrev panel_after : Device
    panel_after = record confirming { sc = record confirming.sc { r_mac = take 16 (take 16 rmac) } }

    abbrev device_after : Peripheral E
    device_after =
        record (notify_sc_status app
          (with_dev verified (sc_activate (compute_rmac_i c verified.dev)))) { sc_tstamp = now }

    same_session : SameSession panel_after device_after.dev
    unfolding compute_cp_cryptogram compute_rmac_i
    same_session =
        let keys =
          keys-agree c block asking drawn drawn-key drawn-random drawn_random_len drawn_uid_len
            block.length-random in
        let up = (session_up app verified (compute_rmac_i c verified.dev)).0 in
        record {
          same_enc = keys.0 ∙ sym (ap (λ (s : ScContext). s.s_enc) up);
          same_mac1 = keys.1 ∙ sym (ap (λ (s : ScContext). s.s_mac1) up);
          same_mac2 = keys.2 ∙ sym (ap (λ (s : ScContext). s.s_mac2) up);
          same_rmac =
              take_self 16 rmac
              ∙ take_ge 16 rmac (omega (arith, rmac_len))
              ∙ sym (ap (λ (s : ScContext). s.r_mac) up);
        }

    -- A control panel and a PD with the same base key, whatever the flags and the state of the PD's channel:
    -- the four messages of the handshake are built and accepted at both ends, and then both hold the same
    -- three session keys and the same first MAC, and the PD's channel is up. The PD has the capability of
    -- secure communication, the panel's channel is down, and 32 bytes fit in a packet. The PD's base key has 16
    -- bytes, the panel's random number and one drawn by the PD have 8, and a block is encrypted to a block.
    pub Handshake-SameSession :
        (a' : Device) × (p' : Peripheral E) × Handshake crc16 c engines app now space a a' p p'
        × SameSession a' p'.dev
        × (sc_is_active p'.dev ≡ true)
    Handshake-SameSession = (
      panel_after,
      device_after,
      record {
        challenge = challenge_of;
        ccrypt = ccrypt_data c block asking drawn;
        scrypt = scrypt_of;
        rmac_i = take 16 rmac;
        ccrypt_block = 3 ∷ 0x12 ∷ (if keyed_device.flags.sc_use_scbkd then 0 else 1) ∷ [];
        rmac_i_block = 3 ∷ 0x14 ∷ 1 ∷ [];
        cp_keyed = keyed_panel;
        pd_asked = asked;
        pd_keyed = answering;
        pd_verified = verified;
        sends_challenge = sent_challenge;
        takes_challenge = taken_challenge;
        sends_ccrypt = sent_ccrypt;
        takes_ccrypt = taken_ccrypt;
        keeps_cryptogram = kept_cryptogram;
        sends_scrypt = sent_scrypt;
        takes_scrypt = taken_scrypt;
        sends_rmac_i = draft_rmac_i-drafts app c verified space now (omega (arith, fits));
        takes_rmac_i = taken_rmac_i;
      },
      same_session,
      (session_up app verified (compute_rmac_i c verified.dev)).1,
    )
