-- ===== src/Bytes/RoundTrip.antt =====
-- What a bwrite_* helper of src/osdp_common.h stores, the bread_* helper of its width and byte
-- order gives back.
use libosdp.Common.{
  ℕ, ◌+◌, ◌^◌, ◌≤◌, ◌<◌, ◌≡◌, List, arith, length, set, length-set, get_or-set_self, get_or-set_ne,
}
use libosdp.Bytes.{
  byte_at, byte_0, byte_1, byte_2, byte_3, bread_u16_le, bread_u24_le, bread_u32_le, bwrite_u16_le,
  bwrite_u24_le, bwrite_u32_le, bread_u16_be, bread_u24_be, bread_u32_be, bwrite_u16_be,
  bwrite_u24_be, bwrite_u32_be,
}

abbrev set2 : List ℕ → ℕ → ℕ → ℕ → List ℕ
set2 buf i a b = set (set buf i a) (i + 1) b

abbrev set3 : List ℕ → ℕ → ℕ → ℕ → ℕ → List ℕ
set3 buf i a b c = set (set2 buf i a b) (i + 2) c

abbrev set4 : List ℕ → ℕ → ℕ → ℕ → ℕ → ℕ → List ℕ
set4 buf i a b c d = set (set3 buf i a b c) (i + 3) d

pub get-set2 :
    (buf : List ℕ) (i a b : ℕ)
    → i + 2 ≤ length buf
    → (byte_at (set2 buf i a b) i ≡ a) × (byte_at (set2 buf i a b) (i + 1) ≡ b)
get-set2 buf i a b h = (
  rw (get_or-set_ne (set buf i a) (i + 1) i b 0 (omega arith))
      (get_or-set_self buf i a 0 (omega arith)),
  get_or-set_self (set buf i a) (i + 1) b 0 (omega (arith, length-set buf i a)),
)

get-set3 :
    (buf : List ℕ) (i a b c : ℕ)
    → i + 3 ≤ length buf
    → (byte_at (set3 buf i a b c) i ≡ a)
      × (byte_at (set3 buf i a b c) (i + 1) ≡ b)
      × (byte_at (set3 buf i a b c) (i + 2) ≡ c)
get-set3 buf i a b c h =
    let (p, q) = get-set2 buf i a b (omega arith) in
    (
      rw (get_or-set_ne (set2 buf i a b) (i + 2) i c 0 (omega arith)) p,
      rw (get_or-set_ne (set2 buf i a b) (i + 2) (i + 1) c 0 (omega arith)) q,
      get_or-set_self (set2 buf i a b) (i + 2) c 0
          (omega (arith, length-set (set buf i a) (i + 1) b, length-set buf i a)),
    )

get-set4 :
    (buf : List ℕ) (i a b c d : ℕ)
    → i + 4 ≤ length buf
    → (byte_at (set4 buf i a b c d) i ≡ a)
      × (byte_at (set4 buf i a b c d) (i + 1) ≡ b)
      × (byte_at (set4 buf i a b c d) (i + 2) ≡ c)
      × (byte_at (set4 buf i a b c d) (i + 3) ≡ d)
get-set4 buf i a b c d h =
    let (p, q, r) = get-set3 buf i a b c (omega arith) in
    (
      rw (get_or-set_ne (set3 buf i a b c) (i + 3) i d 0 (omega arith)) p,
      rw (get_or-set_ne (set3 buf i a b c) (i + 3) (i + 1) d 0 (omega arith)) q,
      rw (get_or-set_ne (set3 buf i a b c) (i + 3) (i + 2) d 0 (omega arith)) r,
      get_or-set_self (set3 buf i a b c) (i + 3) d 0 (
          omega (
            arith,
            length-set (set2 buf i a b) (i + 2) c,
            length-set (set buf i a) (i + 1) b,
            length-set buf i a,
          )),
    )

pub read-write_u16_le :
    (v : ℕ) (buf : List ℕ) (i : ℕ)
    → v < 2 ^ 16
    → i + 2 ≤ length buf
    → bread_u16_le (bwrite_u16_le v buf i).0 i ≡ (v, (bwrite_u16_le v buf i).1)
unfolding bread_u16_le bwrite_u16_le
read-write_u16_le v buf i hv h = ground (arith, get-set2 buf i (byte_0 v) (byte_1 v) h)

pub read-write_u24_le :
    (v : ℕ) (buf : List ℕ) (i : ℕ)
    → v < 2 ^ 24
    → i + 3 ≤ length buf
    → bread_u24_le (bwrite_u24_le v buf i).0 i ≡ (v, (bwrite_u24_le v buf i).1)
unfolding bread_u24_le bwrite_u24_le
read-write_u24_le v buf i hv h = ground (arith, get-set3 buf i (byte_0 v) (byte_1 v) (byte_2 v) h)

-- A 32-bit field written in little-endian order into a buffer that holds it is read back unchanged, and
-- both leave the position behind it.
pub read-write_u32_le :
    (v : ℕ) (buf : List ℕ) (i : ℕ)
    → v < 2 ^ 32
    → i + 4 ≤ length buf
    → bread_u32_le (bwrite_u32_le v buf i).0 i ≡ (v, (bwrite_u32_le v buf i).1)
unfolding bread_u32_le bwrite_u32_le
read-write_u32_le v buf i hv h =
    ground (arith, get-set4 buf i (byte_0 v) (byte_1 v) (byte_2 v) (byte_3 v) h)

read-write_u16_be :
    (v : ℕ) (buf : List ℕ) (i : ℕ)
    → v < 2 ^ 16
    → i + 2 ≤ length buf
    → bread_u16_be (bwrite_u16_be v buf i).0 i ≡ (v, (bwrite_u16_be v buf i).1)
unfolding bread_u16_be bwrite_u16_be
read-write_u16_be v buf i hv h = ground (arith, get-set2 buf i (byte_1 v) (byte_0 v) h)

read-write_u24_be :
    (v : ℕ) (buf : List ℕ) (i : ℕ)
    → v < 2 ^ 24
    → i + 3 ≤ length buf
    → bread_u24_be (bwrite_u24_be v buf i).0 i ≡ (v, (bwrite_u24_be v buf i).1)
unfolding bread_u24_be bwrite_u24_be
read-write_u24_be v buf i hv h = ground (arith, get-set3 buf i (byte_2 v) (byte_1 v) (byte_0 v) h)

-- A 32-bit field written in big-endian order into a buffer that holds it is read back unchanged, and
-- both leave the position behind it.
pub read-write_u32_be :
    (v : ℕ) (buf : List ℕ) (i : ℕ)
    → v < 2 ^ 32
    → i + 4 ≤ length buf
    → bread_u32_be (bwrite_u32_be v buf i).0 i ≡ (v, (bwrite_u32_be v buf i).1)
unfolding bread_u32_be bwrite_u32_be
read-write_u32_be v buf i hv h =
    ground (arith, get-set4 buf i (byte_3 v) (byte_2 v) (byte_1 v) (byte_0 v) h)
