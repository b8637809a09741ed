-- ===== src/SecureChannel.antt =====
-- The secure channel of src/osdp_sc.c: key derivation, cryptograms, MAC chaining and the encrypted
-- data block. A buffer that is updated in place is returned.
pub mod DataBlock
pub mod Compare
mod Examples
use Prim.Native.Nat.{bit_or, bit_xor}
use libosdp.Common.{
  ℕ, zero, suc, ◌+◌, ◌-◌, ◌*◌, ◌/◌, ◌%◌, Bool, true, false, not, ◌&&◌, Option, none, some, List, [],
  ◌∷◌, ◌++◌, map, ltb, leb, ◌==◌, if◌then◌else◌, length, take, slice, splice, set, replicate,
}
use libosdp.Bytes.{byte_at, byte_0, byte_1, byte_2, byte_3}
use libosdp.Crypto.{Crypto}
use libosdp.Device.{Device, Flags, ScContext, PdId, is_pd_mode}

abbrev pub eom_marker : ℕ
eom_marker = 0x80

abbrev pub scbk_default : List ℕ
scbk_default =
    0x30 ∷ 0x31 ∷ 0x32 ∷ 0x33 ∷ 0x34 ∷ 0x35 ∷ 0x36 ∷ 0x37 ∷ 0x38 ∷ 0x39 ∷ 0x3A ∷ 0x3B ∷ 0x3C ∷ 0x3D
    ∷ 0x3E ∷ 0x3F ∷ []

-- `~x` as a byte
abbrev pub complement : ℕ → ℕ
complement x = 255 - x % 256

-- AES_PAD_LEN(x): `(x + 15) & ~15`
abbrev pub aes_pad_len : ℕ → ℕ
aes_pad_len x = (x + 15) / 16 * 16

-- `data[i] = value` for the `n` bytes from `i` on
abbrev pub fill : List ℕ → ℕ → ℕ → List ℕ
fill buf i n = splice buf i (replicate n 0)

module _ (c : Crypto) where
  unfoldable pub compute_scbk : Device → List ℕ → List ℕ
  compute_scbk pd master_key =
      let uid = take 8 pd.sc.pd_client_uid in c.encrypt master_key none (uid ++ map complement uid)

  -- The seed of a session key: two constants, six bytes of the CP's random number, zeros.
  unfoldable pub session_seed : Device → ℕ → ℕ → List ℕ
  session_seed pd a b = a ∷ b ∷ (take 6 pd.sc.cp_random ++ replicate 8 0)

  unfoldable pub compute_session_keys : Device → Device
  unfolding session_seed
  compute_session_keys pd =
      let scbk = if pd.flags.sc_use_scbkd then scbk_default else pd.sc.scbk in
      record pd {
        sc = record pd.sc {
          s_enc = c.encrypt scbk none (session_seed pd 0x01 0x82);
          s_mac1 = c.encrypt scbk none (session_seed pd 0x01 0x01);
          s_mac2 = c.encrypt scbk none (session_seed pd 0x01 0x02);
        };
      }

  -- AES-ECB(pd_random || cp_random, s_enc)
  abbrev pub cp_block : ScContext → List ℕ
  cp_block sc = c.encrypt sc.s_enc none (take 8 sc.pd_random ++ take 8 sc.cp_random)

  abbrev pub pd_block : ScContext → List ℕ
  pd_block sc = c.encrypt sc.s_enc none (take 8 sc.cp_random ++ take 8 sc.pd_random)

  unfoldable pub compute_cp_cryptogram : Device → Device
  compute_cp_cryptogram pd = record pd { sc = record pd.sc { cp_cryptogram = cp_block pd.sc } }

  unfoldable pub compute_pd_cryptogram : Device → Device
  compute_pd_cryptogram pd = record pd { sc = record pd.sc { pd_cryptogram = pd_block pd.sc } }

  unfoldable pub compute_rmac_i : Device → Device
  compute_rmac_i pd = record pd {
    sc = record pd.sc {
      r_mac = c.encrypt pd.sc.s_mac2 none (c.encrypt pd.sc.s_mac1 none pd.sc.cp_cryptogram);
    };
  }

-- The loop of osdp_ct_compare over the `n` bytes from index `i` on.
unfoldable pub ct_compare_from : List ℕ → List ℕ → ℕ → ℕ → ℕ → ℕ
ct_compare_from s1 s2 zero i ret = ret
ct_compare_from s1 s2 (suc n) i ret =
    ct_compare_from s1 s2 n (i + 1) (bit_or ret (bit_xor (byte_at s1 i) (byte_at s2 i)))

unfoldable pub ct_compare : List ℕ → List ℕ → ℕ → ℕ
unfolding ct_compare_from
ct_compare s1 s2 len = ct_compare_from s1 s2 len 0 0

-- The IV of a data block: the complement of the other direction's last MAC.
abbrev pub data_iv : Device → Bool → List ℕ
data_iv pd is_cmd = map complement (if is_cmd then pd.sc.r_mac else pd.sc.c_mac)

-- The index of the last byte that is not 0, at or below `a`, but no lower than `pos` if the search
-- starts there. It is an index into the whole buffer, since it can start below `pos`.
abbrev pub marker_index : List ℕ → ℕ → ℕ → ℕ
marker_index buf pos zero = 0
marker_index buf pos (suc a) =
    let rest = marker_index buf pos a in
    if not (suc a == pos) && byte_at buf (suc a) == 0 then rest else suc a

module _ (c : Crypto) where
  -- `true` is the return value 0, `false` is -1.
  unfoldable pub verify_cp_cryptogram : Device → Bool
  verify_cp_cryptogram pd = ct_compare pd.sc.cp_cryptogram (cp_block c pd.sc) 16 == 0

  unfoldable pub verify_pd_cryptogram : Device → Bool
  verify_pd_cryptogram pd = ct_compare pd.sc.pd_cryptogram (pd_block c pd.sc) 16 == 0

  -- osdp_decrypt_data on the `len` bytes of `buf` from `pos` on; a negative return is `none`.
  unfoldable pub decrypt_data : Device → Bool → List ℕ → ℕ → ℕ → Option ℕ × List ℕ
  decrypt_data pd is_cmd buf pos len =
      let buf' =
        splice buf pos (c.decrypt pd.sc.s_enc (some (data_iv pd is_cmd)) (slice buf pos len)) in
      let a = marker_index buf' pos (pos + len - 1) in
      if not (len % 16 == 0)
      then (none, buf)
      else if pd.flags.allow_empty_edb && len == 0
      then (some 0, buf)
      else if not (byte_at buf' a == eom_marker)
      then (none, buf')
      else ((if ltb a pos then none else some (a - pos)), set buf' a 0)

  -- osdp_encrypt_data on the `len` bytes of `buf` from `pos` on; the length is what is returned.
  unfoldable pub encrypt_data : Device → Bool → List ℕ → ℕ → ℕ → ℕ × List ℕ
  encrypt_data pd is_cmd buf pos len =
      let pad_len = aes_pad_len (len + 1) in
      let marked = set buf (pos + len) eom_marker in
      let padded = fill marked (pos + len + 1) (pad_len - len - 1) in
      (
        pad_len,
        splice padded pos
            (c.encrypt pd.sc.s_enc (some (data_iv pd is_cmd)) (slice padded pos pad_len)),
      )

  -- `a[j] ^= b[j]`
  abbrev pub xor_block : List ℕ → List ℕ → List ℕ
  xor_block [] ys = []
  xor_block (x ∷ xs) [] = x ∷ xs
  xor_block (x ∷ xs) (y ∷ ys) = bit_xor x y ∷ xor_block xs ys

  -- The blocks before the last, `n` of them from byte `p` on; the result is the chained IV.
  mac_chain : List ℕ → List ℕ → ℕ → ℕ → List ℕ → List ℕ
  mac_chain key buf zero p iv = iv
  mac_chain key buf (suc n) p iv =
      mac_chain key buf n (p + 16) (c.encrypt key none (xor_block (slice buf p 16) iv))

  -- The last block from byte `p` on, padded when it is not whole.
  abbrev last_block : List ℕ → ℕ → ℕ → ℕ → List ℕ
  last_block buf full_blocks rem p =
      if rem == 0 && ltb 0 full_blocks
      then slice buf p 16
      else slice buf p rem ++ (eom_marker ∷ replicate (15 - rem) 0)

  unfoldable pub mac_of : ScContext → Bool → List ℕ → ℕ → List ℕ
  unfolding mac_chain
  mac_of sc is_cmd buf len =
      let full_blocks = len / 16 in
      let rem = len % 16 in
      let blocks = if rem == 0 then full_blocks else full_blocks + 1 in
      let n = if blocks == 0 then 1 else blocks in
      let iv = mac_chain sc.s_mac1 buf (n - 1) 0 (if is_cmd then sc.r_mac else sc.c_mac) in
      c.encrypt sc.s_mac2 none (xor_block (last_block buf full_blocks rem ((n - 1) * 16)) iv)

  -- osdp_compute_mac; it always returns 0.
  unfoldable pub compute_mac : Device → Bool → List ℕ → ℕ → Device
  unfolding mac_of
  compute_mac pd is_cmd buf len =
      let mac = mac_of pd.sc is_cmd buf len in
      if is_cmd
      then record pd { sc = record pd.sc { c_mac = mac } }
      else record pd { sc = record pd.sc { r_mac = mac } }

  abbrev zeros16 : List ℕ
  zeros16 = replicate 16 0

  -- The UID that a PD sends: vendor, model, version and serial number.
  unfoldable pub client_uid : PdId → List ℕ
  client_uid id =
      byte_0 id.vendor_code
      ∷ byte_1 id.vendor_code
      ∷ byte_0 id.model
      ∷ byte_1 id.version
      ∷ byte_0 id.serial_number
      ∷ byte_1 id.serial_number
      ∷ byte_2 id.serial_number
      ∷ byte_3 id.serial_number
      ∷ []

  -- osdp_sc_setup; osdp_crypt_setup() keeps no state here.
  unfoldable pub sc_setup : Device → Device
  unfolding client_uid
  sc_setup pd = record pd {
    last_tx_len = 0;
    sc = record {
      scbk = take 16 pd.sc.scbk;
      s_enc = zeros16;
      s_mac1 = zeros16;
      s_mac2 = zeros16;
      r_mac = zeros16;
      c_mac = zeros16;
      cp_random = if is_pd_mode pd then replicate 8 0 else c.fill_random 8;
      pd_random = replicate 8 0;
      pd_client_uid = if is_pd_mode pd then client_uid pd.id else replicate 8 0;
      cp_cryptogram = zeros16;
      pd_cryptogram = zeros16;
    };
  }
