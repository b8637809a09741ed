-- ===== src/SecureChannel/DataBlock.antt =====
-- The encrypted data block of src/osdp_sc.c: what osdp_encrypt_data builds, osdp_decrypt_data opens.
use libosdp.Common.{
  ℕ, zero, suc, ◌+◌, ◌-◌, ◌%◌, ◌≤◌, ◌<◌, ◌≡◌, ◌≢◌, refl, sym, ap, ◌∙◌, Bool, Bool-cases, inl, inr,
  some, List, arith, ◌==◌, length, get_or, slice, splice, set, replicate, length-set, length-splice,
  length-slice, length-replicate, slice-splice, splice-slice_back, slice-splice_lt, slice-set_ge,
  get_or-set_self, get_or-splice_lt, get_or-splice_in,
}
use libosdp.Bytes.{byte_at}
use libosdp.Crypto.{Crypto, IsCipher}
use libosdp.Device.{Device}
use libosdp.SecureChannel.{
  eom_marker, aes_pad_len, fill, data_iv, marker_index, decrypt_data, encrypt_data,
}

-- The padded length is the least multiple of the block size that also holds the marker.
pub aes_pad_len_lem :
    (len : ℕ)
    → (aes_pad_len (len + 1) % 16 ≡ 0)
      × (len < aes_pad_len (len + 1))
      × (aes_pad_len (len + 1) ≤ len + 16)
aes_pad_len_lem len = omega arith

get_or-replicate : (n k : ℕ) → get_or (replicate n 0) k zero ≡ zero
get_or-replicate zero k = refl
get_or-replicate (suc n) zero = refl
get_or-replicate (suc n) (suc k) = get_or-replicate n k

-- The search stops at the last byte that is not 0.
marker_index-eq :
    (buf : List ℕ) (start m a : ℕ)
    → start ≤ m
    → m ≤ a
    → byte_at buf m ≢ 0
    → ((j : ℕ) → m < j → j ≤ a → byte_at buf j ≡ 0)
    → marker_index buf start a ≡ m
marker_index-eq buf start m zero hs hm h z = omega arith
marker_index-eq buf start m (suc a) hs hm h z = elim (Bool-cases (suc a == m)) [
  | inl here ↦
      let same : m ≡ suc a = ground arith in
      let there : byte_at buf (suc a) ≢ 0 = λ e. h (ap (byte_at buf) same ∙ e) in ground arith
  | inr below ↦ ground (
    arith,
    z (suc a),
    marker_index-eq buf start m a hs (ground arith) h (λ j p q. z j p (omega arith)),
  )
]

-- The buffer with its marker and padding, before it is encrypted.
marked : List ℕ → ℕ → ℕ → List ℕ
marked buf pos len =
    fill (set buf (pos + len) eom_marker) (pos + len + 1) (aes_pad_len (len + 1) - len - 1)

module _ (buf : List ℕ) (pos len : ℕ) (fits : pos + aes_pad_len (len + 1) ≤ length buf) where
  length-marked : length (marked buf pos len) ≡ length buf
  unfolding marked
  length-marked =
      length-splice (set buf (pos + len) eom_marker) (pos + len + 1) _
      ∙ length-set buf (pos + len) eom_marker

  marker_at : byte_at (marked buf pos len) (pos + len) ≡ eom_marker
  unfolding marked
  marker_at =
      get_or-splice_lt (set buf (pos + len) eom_marker) (pos + len + 1) (pos + len) _ 0
        (omega arith)
      ∙ get_or-set_self buf (pos + len) eom_marker 0 (omega arith)

  zeros_after :
      (j : ℕ)
      → pos + len < j
      → j ≤ pos + aes_pad_len (len + 1) - 1
      → byte_at (marked buf pos len) j ≡ 0
  unfolding marked
  zeros_after j lo hi =
      get_or-splice_in (set buf (pos + len) eom_marker) (pos + len + 1)
        (replicate (aes_pad_len (len + 1) - len - 1) 0) j 0 (omega arith)
        (omega (arith, length-replicate {A = ℕ} (aes_pad_len (len + 1) - len - 1) 0))
        (omega (arith, length-set buf (pos + len) eom_marker))
      ∙ get_or-replicate (aes_pad_len (len + 1) - len - 1) _

  finds_marker : marker_index (marked buf pos len) pos (pos + aes_pad_len (len + 1) - 1) ≡ pos + len
  finds_marker =
      marker_index-eq (marked buf pos len) pos (pos + len) (pos + aes_pad_len (len + 1) - 1)
        (omega arith) (omega arith) (omega (arith, marker_at)) zeros_after

  keeps_data : slice (set (marked buf pos len) (pos + len) 0) pos len ≡ slice buf pos len
  unfolding marked
  keeps_data =
      slice-set_ge (marked buf pos len) pos len (pos + len) 0 (omega arith)
      ∙ slice-splice_lt (set buf (pos + len) eom_marker) pos len (pos + len + 1) _ (omega arith)
      ∙ slice-set_ge buf pos len (pos + len) eom_marker (omega arith)

module _ (c : Crypto) (law : IsCipher c) (sender receiver : Device) (is_cmd : Bool) (buf : List ℕ)
    (pos len : ℕ) (fits : pos + aes_pad_len (len + 1) ≤ length buf)
    (same_key : sender.sc.s_enc ≡ receiver.sc.s_enc)
    (same_iv : data_iv sender is_cmd ≡ data_iv receiver is_cmd) where
  clear : List ℕ
  clear = slice (marked buf pos len) pos (aes_pad_len (len + 1))

  cipher : List ℕ
  cipher = c.encrypt sender.sc.s_enc (some (data_iv sender is_cmd)) clear

  length-clear : length clear ≡ aes_pad_len (len + 1)
  unfolding clear
  length-clear =
      length-slice (marked buf pos len) pos (aes_pad_len (len + 1))
        (omega (arith, length-marked buf pos len fits))

  whole_blocks : length clear % 16 ≡ 0
  whole_blocks = omega (arith, length-clear)

  length-cipher : length cipher ≡ aes_pad_len (len + 1)
  unfolding cipher
  length-cipher =
      law.length-encrypt sender.sc.s_enc (data_iv sender is_cmd) clear whole_blocks ∙ length-clear

  sent : List ℕ
  sent = splice (marked buf pos len) pos cipher

  encrypts : encrypt_data c sender is_cmd buf pos len ≡ (aes_pad_len (len + 1), sent)
  unfolding encrypt_data sent cipher clear marked
  encrypts = refl

  opened :
      splice sent pos (
        c.decrypt receiver.sc.s_enc
          (some (data_iv receiver is_cmd))
          (slice sent pos (aes_pad_len (len + 1))))
      ≡ marked buf pos len
  unfolding sent cipher clear
  opened =
      ap
        (λ b.
          splice (splice (marked buf pos len) pos cipher) pos
            (c.decrypt receiver.sc.s_enc (some (data_iv receiver is_cmd)) b))
        taken
      ∙ ap (splice (splice (marked buf pos len) pos cipher) pos) decrypted
      ∙ splice-slice_back (marked buf pos len) pos cipher (aes_pad_len (len + 1))
          (sym length-cipher) (omega (arith, length-marked buf pos len fits))
    where
      taken : slice (splice (marked buf pos len) pos cipher) pos (aes_pad_len (len + 1)) ≡ cipher
      taken =
          ap (slice (splice (marked buf pos len) pos cipher) pos) (sym length-cipher)
          ∙ slice-splice (marked buf pos len) pos cipher
              (omega (arith, length-cipher, length-marked buf pos len fits))

      decrypted :
          c.decrypt receiver.sc.s_enc (some (data_iv receiver is_cmd)) cipher
          ≡ slice (marked buf pos len) pos (aes_pad_len (len + 1))
      decrypted =
          rw (← same_key, ← same_iv)
            (law.decrypt-encrypt sender.sc.s_enc (data_iv sender is_cmd) clear whole_blocks)

  -- Between two devices that share the session key and the chaining MACs, with a cipher that
  -- decrypts what it encrypts, and room for the padded block: what one encrypts as a data block, the
  -- other decrypts to the same length and the same bytes, whatever the bytes are.
  pub decrypt_data-encrypt_data :
      let (n, buf1) = encrypt_data c sender is_cmd buf pos len in
      let (o, buf2) = decrypt_data c receiver is_cmd buf1 pos n in
      (o ≡ some len) × (slice buf2 pos len ≡ slice buf pos len)
  unfolding decrypt_data
  decrypt_data-encrypt_data =
      rw (encrypts, opened, finds_marker buf pos len fits)
        (ground
          (arith, marker_at buf pos len fits, keeps_data buf pos len fits, aes_pad_len_lem len))
