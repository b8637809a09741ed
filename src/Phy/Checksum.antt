-- ===== src/Phy/Checksum.antt =====
-- The checksum of src/osdp_phy.c (osdp_compute_checksum), the two's complement of the byte sum.
use libosdp.Common.{ℕ, zero, suc, ◌+◌, ◌-◌, ◌%◌, ◌<◌, ◌≡◌, ◌↔◌, sym, ap, ◌∙◌, List, u8, arith}
use libosdp.Bytes.{byte_at}

-- The loop from byte `i` on, with the sum and the checksum so far.
unfoldable pub checksum_from : List ℕ → ℕ → ℕ → ℕ → ℕ → ℕ
checksum_from msg zero i whole_checksum checksum = checksum
checksum_from msg (suc n) i whole_checksum checksum =
    let whole = whole_checksum + byte_at msg i in
    checksum_from msg n (i + 1) whole (u8 (255 - whole % 256 + 1))

unfoldable pub compute_checksum : List ℕ → ℕ → ℕ
unfolding checksum_from
compute_checksum msg length' = checksum_from msg length' 0 0 0

-- The sum of `n` bytes from index `i` on.
abbrev pub byte_sum : List ℕ → ℕ → ℕ → ℕ
byte_sum msg zero i = 0
byte_sum msg (suc n) i = byte_at msg i + byte_sum msg n (i + 1)

checksum_from_lem :
    (msg : List ℕ) (n i w : ℕ)
    → checksum_from msg n i w (u8 (255 - w % 256 + 1)) ≡ u8 (255 - (w + byte_sum msg n i) % 256 + 1)
unfolding checksum_from
checksum_from_lem msg zero i w = ap (λ (k : ℕ). u8 (255 - k % 256 + 1)) (omega arith)
checksum_from_lem msg (suc n) i w =
    checksum_from_lem msg n (i + 1) (w + byte_at msg i)
    ∙ ap (λ (k : ℕ). u8 (255 - k % 256 + 1)) (omega arith)

-- The checksum is the negated byte sum modulo 256: the bytes and their checksum add up to a multiple of
-- 256, and it is the only byte with which they do.
pub compute_checksum_lem :
    (msg : List ℕ) (n b : ℕ)
    → b < 256
    → ((byte_sum msg n 0 + b) % 256 ≡ 0) ↔ (compute_checksum msg n ≡ b)
unfolding compute_checksum
compute_checksum_lem msg n b h =
    let e : compute_checksum msg n ≡ u8 (255 - byte_sum msg n 0 % 256 + 1) =
      checksum_from_lem msg n 0 0 ∙ ap (λ (k : ℕ). u8 (255 - k % 256 + 1)) (omega arith) in
    (λ k. e ∙ omega (arith, k, h), λ k. omega (arith, sym e ∙ k, h))
