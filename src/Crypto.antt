-- ===== src/Crypto.antt =====
-- The cryptography that the secure channel calls (src/osdp_common.h: osdp_encrypt, osdp_decrypt,
-- osdp_fill_random). src/crypto/ forwards them to OpenSSL, mbed TLS or tiny-AES, which are not
-- modelled: they are a parameter, with the laws of AES that the code relies on.
use libosdp.Common.{ℕ, ◌%◌, ◌≡◌, Option, none, some, List}
use libosdp.Common.{length}

-- `encrypt key iv data`: AES-128 in CBC mode, or in ECB mode on one block when `iv` is `none`.
pub record Crypto : Type 0 where
  pub encrypt : List ℕ → Option (List ℕ) → List ℕ → List ℕ
  pub decrypt : List ℕ → Option (List ℕ) → List ℕ → List ℕ
  pub fill_random : ℕ → List ℕ

-- Decryption undoes encryption under the same key and IV, on whole blocks, and encryption keeps the
-- length of whole blocks.
pub record IsCipher (c : Crypto) : Type 0 where
  pub decrypt-encrypt :
      (key iv data' : List ℕ)
      → length data' % 16 ≡ 0
      → c.decrypt key (some iv) (c.encrypt key (some iv) data') ≡ data'
  pub length-encrypt :
      (key iv data' : List ℕ)
      → length data' % 16 ≡ 0
      → length (c.encrypt key (some iv) data') ≡ length data'

-- One block under ECB is one block, and a random number has the length that was asked for.
pub record IsBlockCipher (c : Crypto) : Type 0 where
  pub length-block :
      (key data' : List ℕ) → length data' ≡ 16 → length (c.encrypt key none data') ≡ 16
  pub length-random : length (c.fill_random 8) ≡ 8
