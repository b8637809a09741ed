-- ===== src/Bytes.antt =====
-- The little-endian and big-endian field codec of src/osdp_common.h: the BYTE_n macros, and the
-- bread_* and bwrite_* helpers. A pointer to a position becomes the position, passed in and
-- returned beside the result; a buffer is the list of its bytes.
pub mod RoundTrip
use libosdp.Common.{ℕ, ◌+◌, ◌*◌, ◌/◌, ◌%◌, List, get_or, set, u16, u32}

-- `buf[i]`. A read past the end, undefined in the source, is 0 here.
abbrev pub byte_at : List ℕ → ℕ → ℕ
byte_at buf i = get_or buf i 0

abbrev pub byte_0 : ℕ → ℕ
byte_0 x = x % 256

abbrev pub byte_1 : ℕ → ℕ
byte_1 x = x / 256 % 256

abbrev pub byte_2 : ℕ → ℕ
byte_2 x = x / 65536 % 256

abbrev pub byte_3 : ℕ → ℕ
byte_3 x = x / 16777216 % 256

-- The shifted bytes occupy distinct bits, so `|` of them is their sum.
unfoldable pub bread_u16_le : List ℕ → ℕ → ℕ × ℕ
bread_u16_le buf pos = (u16 (byte_at buf pos + byte_at buf (pos + 1) * 256), pos + 2)

unfoldable pub bread_u24_le : List ℕ → ℕ → ℕ × ℕ
bread_u24_le buf pos =
    (byte_at buf pos + byte_at buf (pos + 1) * 256 + byte_at buf (pos + 2) * 65536, pos + 3)

unfoldable pub bread_u32_le : List ℕ → ℕ → ℕ × ℕ
bread_u32_le buf pos = (
  u32 (
      byte_at buf pos
      + byte_at buf (pos + 1) * 256
      + byte_at buf (pos + 2) * 65536
      + byte_at buf (pos + 3) * 16777216),
  pos + 4,
)

unfoldable pub bwrite_u8 : ℕ → List ℕ → ℕ → List ℕ × ℕ
bwrite_u8 val buf len = (set buf len val, len + 1)

unfoldable pub bwrite_u16_le : ℕ → List ℕ → ℕ → List ℕ × ℕ
bwrite_u16_le val buf len = (set (set buf len (byte_0 val)) (len + 1) (byte_1 val), len + 2)

unfoldable pub bwrite_u24_le : ℕ → List ℕ → ℕ → List ℕ × ℕ
bwrite_u24_le val buf len =
    (set (set (set buf len (byte_0 val)) (len + 1) (byte_1 val)) (len + 2) (byte_2 val), len + 3)

unfoldable pub bwrite_u32_le : ℕ → List ℕ → ℕ → List ℕ × ℕ
bwrite_u32_le val buf len = (
  set (set (set (set buf len (byte_0 val)) (len + 1) (byte_1 val)) (len + 2) (byte_2 val)) (len + 3)
      (byte_3 val),
  len + 4,
)

unfoldable pub bread_u16_be : List ℕ → ℕ → ℕ × ℕ
bread_u16_be buf pos = (u16 (byte_at buf pos * 256 + byte_at buf (pos + 1)), pos + 2)

unfoldable pub bread_u24_be : List ℕ → ℕ → ℕ × ℕ
bread_u24_be buf pos =
    (byte_at buf pos * 65536 + byte_at buf (pos + 1) * 256 + byte_at buf (pos + 2), pos + 3)

unfoldable pub bread_u32_be : List ℕ → ℕ → ℕ × ℕ
bread_u32_be buf pos = (
  u32 (
      byte_at buf pos * 16777216
      + byte_at buf (pos + 1) * 65536
      + byte_at buf (pos + 2) * 256
      + byte_at buf (pos + 3)),
  pos + 4,
)

unfoldable pub bwrite_u16_be : ℕ → List ℕ → ℕ → List ℕ × ℕ
bwrite_u16_be val buf len = (set (set buf len (byte_1 val)) (len + 1) (byte_0 val), len + 2)

unfoldable pub bwrite_u24_be : ℕ → List ℕ → ℕ → List ℕ × ℕ
bwrite_u24_be val buf len =
    (set (set (set buf len (byte_2 val)) (len + 1) (byte_1 val)) (len + 2) (byte_0 val), len + 3)

unfoldable pub bwrite_u32_be : ℕ → List ℕ → ℕ → List ℕ × ℕ
bwrite_u32_be val buf len = (
  set (set (set (set buf len (byte_3 val)) (len + 1) (byte_2 val)) (len + 2) (byte_1 val)) (len + 3)
      (byte_0 val),
  len + 4,
)
