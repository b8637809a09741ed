-- ===== src/SecureChannel/Examples.antt =====
-- The data block of src/osdp_sc.c with a cipher that leaves the bytes as they are.
use libosdp.Common.{ℕ, ◌≡◌, ◌<◌, ◌↔◌, refl, [], true, some, List, ◌∷◌, arith, replicate, slice}
use libosdp.Crypto.{Crypto, IsCipher}
use libosdp.Device.Sample.{sample_cp, sample_pd}
use libosdp.Bytes.{byte_at}
use libosdp.SecureChannel.{encrypt_data, decrypt_data, ct_compare}
use libosdp.SecureChannel.Compare.{ct_compare_lem}
use libosdp.SecureChannel.DataBlock.{decrypt_data-encrypt_data}

abbrev plain_cipher : Crypto
plain_cipher = record {
  encrypt = λ key iv bytes. bytes;
  decrypt = λ key iv bytes. bytes;
  fill_random = λ n. replicate n 0;
}

plain_cipher-IsCipher : IsCipher plain_cipher
plain_cipher-IsCipher = record {
  decrypt-encrypt = λ key iv bytes whole. refl;
  length-encrypt = λ key iv bytes whole. refl;
}

-- Two bytes of data, the second of them 0, in a block of sixteen.
abbrev block : List ℕ
block = 7 ∷ 0 ∷ replicate 16 9

decrypt_data-encrypt_data_example :
    let (n, buf1) = encrypt_data plain_cipher sample_cp true block 0 2 in
    let (o, buf2) = decrypt_data plain_cipher sample_pd true buf1 0 n in
    (o ≡ some 2) × (slice buf2 0 2 ≡ slice block 0 2)
decrypt_data-encrypt_data_example =
    decrypt_data-encrypt_data plain_cipher plain_cipher-IsCipher sample_cp sample_pd true block 0 2
      (omega arith) refl refl

abbrev expected : List ℕ
expected = 0xA5 ∷ 0x0F ∷ 0x31 ∷ []

abbrev forged : List ℕ
forged = 0xA5 ∷ 0x0F ∷ 0x30 ∷ []

ct_compare_lem_example :
    (ct_compare expected forged 3 ≡ 0) ↔ ((k : ℕ) → k < 3 → byte_at expected k ≡ byte_at forged k)
ct_compare_lem_example = ct_compare_lem expected forged 3
