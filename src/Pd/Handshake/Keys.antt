-- ===== src/Pd/Handshake/Keys.antt =====
-- The keys and cryptograms of both ends of a handshake: compute_session_keys and the cryptograms of src/osdp_sc.c, on
-- the control panel (src/osdp_cp.c) after REPLY_CCRYPT and on the PD (src/osdp_pd.c) before it.
use libosdp.Common.{
  ℕ, ◌+◌, ◌≡◌, sym, ap, ap₂, ◌∙◌, true, List, ◌∷◌, ◌++◌, if◌then◌else◌, ◌==◌, length, take, drop,
  replicate, arith, take_ge, take-append, drop-append, length-take, length-append, append_assoc,
  none,
}
use libosdp.Bytes.{byte_at}
use libosdp.Crypto.{Crypto, IsBlockCipher}
use libosdp.SecureChannel.{
  scbk_default, compute_session_keys, compute_pd_cryptogram, verify_pd_cryptogram, ct_compare,
  cp_block, pd_block, session_seed,
}
use libosdp.SecureChannel.Compare.{ct_compare_lem}
use libosdp.Device.{Device, ScContext}
use libosdp.Cp.Handshake.{read_ccrypt}

pub take_self : (n : ℕ) (xs : List ℕ) → take n (take n xs) ≡ take n xs
take_self n xs = take_ge n (take n xs) (omega (arith, length-take {0} n xs))

-- The three parts of REPLY_CCRYPT.
module _ (u f x : List ℕ) (lu : length u ≡ 8) (lf : length f ≡ 8) (lx : length x ≡ 16) where
  pub first_part : take 8 (u ++ (f ++ x)) ≡ u
  first_part = ap (λ (n : ℕ). take n (u ++ (f ++ x))) (sym lu) ∙ take-append u (f ++ x)

  after_first : drop 8 (u ++ (f ++ x)) ≡ f ++ x
  after_first = ap (λ (n : ℕ). drop n (u ++ (f ++ x))) (sym lu) ∙ drop-append u (f ++ x)

  pub second_part : take 8 (drop 8 (u ++ (f ++ x))) ≡ f
  second_part = ap (take 8) after_first ∙ ap (λ (n : ℕ). take n (f ++ x)) (sym lf) ∙ take-append f x

  uf_len : length (u ++ f) ≡ 16
  uf_len = length-append {0} u f ∙ omega (arith, lu, lf)

  pub third_part : take 16 (drop 16 (u ++ (f ++ x))) ≡ x
  third_part =
      ap (λ (l : List ℕ). take 16 (drop 16 l)) (sym (append_assoc u f x))
      ∙ ap (λ (n : ℕ). take 16 (drop n ((u ++ f) ++ x))) (sym uf_len)
      ∙ ap (take 16) (drop-append (u ++ f) x)
      ∙ take_ge 16 x (omega (arith, lx))

  pub whole_len : length (u ++ (f ++ x)) ≡ 32
  whole_len = length-append {0} u (f ++ x) ∙ omega (arith, lu, lf, lx, length-append {0} f x)

-- Comparing a block with itself.
pub compare-same : (xs ys : List ℕ) (n : ℕ) → xs ≡ ys → (ct_compare xs ys n == 0) ≡ true
compare-same xs ys n e =
    ground (arith, (ct_compare_lem xs ys n).1 (λ k h. ap (λ (l : List ℕ). byte_at l k) e))

abbrev pub base_key : Device → List ℕ
base_key pd = if pd.flags.sc_use_scbkd then scbk_default else pd.sc.scbk

pub taken : (n : ℕ) (l : List ℕ) → length l ≡ n → length (take n l) ≡ n
taken n l h = ap length (take_ge n l (omega (arith, h))) ∙ h

module _ (c : Crypto) (block : IsBlockCipher c) (sc : ScContext) where
  random_block : (x y : List ℕ) → length x ≡ 8 → length y ≡ 8 → length (take 8 x ++ take 8 y) ≡ 16
  random_block x y h k =
      length-append {0} (take 8 x) (take 8 y) ∙ ap₂ (◌+◌) (taken 8 x h) (taken 8 y k)

  pub length-cp_block :
      length sc.cp_random ≡ 8 → length sc.pd_random ≡ 8 → length (cp_block c sc) ≡ 16
  length-cp_block r q = block.length-block sc.s_enc _ (random_block sc.pd_random sc.cp_random q r)

  pub length-pd_block :
      length sc.cp_random ≡ 8 → length sc.pd_random ≡ 8 → length (pd_block c sc) ≡ 16
  length-pd_block r q = block.length-block sc.s_enc _ (random_block sc.cp_random sc.pd_random r q)

-- `a` is the control panel with its random number, `d` the PD with both random numbers.
module _ (c : Crypto) (block : IsBlockCipher c) (a d : Device) where
  abbrev pub keyed_pd : Device
  keyed_pd = compute_pd_cryptogram c (compute_session_keys c d)

  abbrev pub ccrypt_data : List ℕ
  ccrypt_data =
      take 8 d.sc.pd_client_uid ++ (take 8 d.sc.pd_random ++ take 16 keyed_pd.sc.pd_cryptogram)

  abbrev pub keyed_cp : Device
  keyed_cp = compute_session_keys c (read_ccrypt a ccrypt_data)

  module _ (same_key : base_key a ≡ base_key d) (same_random : a.sc.cp_random ≡ d.sc.cp_random)
      (random_len : length d.sc.cp_random ≡ 8) (uid_len : length d.sc.pd_client_uid ≡ 8)
      (pd_random_len : length d.sc.pd_random ≡ 8) where
    -- The session keys are the same.
    pub keys-agree :
        (keyed_cp.sc.s_enc ≡ keyed_pd.sc.s_enc)
        × (keyed_cp.sc.s_mac1 ≡ keyed_pd.sc.s_mac1)
        × (keyed_cp.sc.s_mac2 ≡ keyed_pd.sc.s_mac2)
    unfolding compute_session_keys compute_pd_cryptogram read_ccrypt session_seed
    keys-agree =
        let key = λ (x y : ℕ).
          ap₂ (λ (k r : List ℕ). c.encrypt k none (x ∷ y ∷ (take 6 r ++ replicate 8 0))) same_key
            same_random in
        (key 1 0x82, key 1 1, key 1 2)

    crypt_len : length (take 16 keyed_pd.sc.pd_cryptogram) ≡ 16
    unfolding compute_pd_cryptogram compute_session_keys
    crypt_len =
        taken 16 (pd_block c (compute_session_keys c d).sc)
          (length-pd_block c block (compute_session_keys c d).sc random_len pd_random_len)

    -- The reply has the length that the control panel asks for.
    pub ccrypt-len : length ccrypt_data ≡ 32
    ccrypt-len = whole_len _ _ _ (taken 8 _ uid_len) (taken 8 _ pd_random_len) crypt_len

    pub random-read : keyed_cp.sc.pd_random ≡ d.sc.pd_random
    unfolding compute_session_keys read_ccrypt
    random-read =
        second_part (take 8 d.sc.pd_client_uid) (take 8 d.sc.pd_random)
          (take 16 keyed_pd.sc.pd_cryptogram) (taken 8 _ uid_len) (taken 8 _ pd_random_len)
          crypt_len
        ∙ take_ge 8 d.sc.pd_random (omega (arith, pd_random_len))

    -- Both ends compute the same cryptogram of the control panel.
    pub cp_block-agrees : cp_block c keyed_cp.sc ≡ cp_block c keyed_pd.sc
    unfolding compute_session_keys compute_pd_cryptogram read_ccrypt
    cp_block-agrees =
        ap₂ (λ (k l : List ℕ). c.encrypt k none l) keys-agree.0
          (ap₂ (λ (x y : List ℕ). take 8 x ++ take 8 y) random-read same_random)

    -- The control panel finds the cryptogram of the PD right.
    pub pd_cryptogram-verifies : verify_pd_cryptogram c keyed_cp ≡ true
    unfolding verify_pd_cryptogram compute_session_keys compute_pd_cryptogram read_ccrypt
    pd_cryptogram-verifies =
        let sent = length-pd_block c block (compute_session_keys c d).sc random_len pd_random_len in
        let got =
          third_part (take 8 d.sc.pd_client_uid) (take 8 d.sc.pd_random)
            (take 16 keyed_pd.sc.pd_cryptogram) (taken 8 _ uid_len) (taken 8 _ pd_random_len)
            crypt_len in
        compare-same _ _ 16 (
          got
          ∙ take_ge 16 (pd_block c (compute_session_keys c d).sc) (omega (arith, sent))
          ∙ sym (
              ap₂ (λ (k l : List ℕ). c.encrypt k none l) keys-agree.0
                (ap₂ (λ (x y : List ℕ). take 8 x ++ take 8 y) same_random random-read)))
