-- ===== src/Multipart/Header.antt =====
-- The header codec of src/osdp_multipart.c: TOTAL and OFFSET in the engine's width, then DATA_LEN
-- in two bytes, all little-endian.
use libosdp.Common.{
  ℕ, ◌≤◌, ◌<◌, ◌≡◌, refl, Option, none, some, List, arith, ltb, if◌then◌else◌, u16, length, drop,
  splice, splice-nil, splice-prefix, [], ◌∷◌, ◌++◌,
}
use libosdp.Bytes.{
  bread_u16_le, bread_u32_le, bwrite_u16_le, bwrite_u32_le, byte_0, byte_1, byte_2, byte_3,
}
use libosdp.Multipart.{Width, w16, w32, hdr_size}

unfoldable pub mp_write_wide : Width → ℕ → List ℕ → ℕ → List ℕ × ℕ
mp_write_wide w32 val buf len = bwrite_u32_le val buf len
mp_write_wide w16 val buf len = bwrite_u16_le (u16 val) buf len

unfoldable pub mp_read_wide : Width → List ℕ → ℕ → ℕ × ℕ
mp_read_wide w32 buf pos = bread_u32_le buf pos
mp_read_wide w16 buf pos = bread_u16_le buf pos

unfoldable pub hdr_write : Width → ℕ → ℕ → ℕ → List ℕ → List ℕ × ℕ
hdr_write w total offset data_len buf =
    let (buf1, len1) = mp_write_wide w total buf 0 in
    let (buf2, len2) = mp_write_wide w offset buf1 len1 in bwrite_u16_le data_len buf2 len2

pub record HeaderFields : Type 0 where
  pub total : ℕ
  pub offset : ℕ
  pub data_len : ℕ

unfoldable pub hdr_read : Width → List ℕ → ℕ → Option (HeaderFields × ℕ)
hdr_read w buf len =
    let (t, pos1) = mp_read_wide w buf 0 in
    let (o, pos2) = mp_read_wide w buf pos1 in
    let (d, pos3) = bread_u16_le buf pos2 in
    if ltb len (hdr_size w)
    then none
    else some (record { total = t; offset = o; data_len = d }, pos3)

-- The greatest value that a field of this width carries, plus one.
abbrev pub field_limit : Width → ℕ
field_limit w16 = 65536
field_limit w32 = 4294967296

abbrev pub wide_bytes : Width → ℕ → List ℕ
wide_bytes w32 v = byte_0 v ∷ byte_1 v ∷ byte_2 v ∷ byte_3 v ∷ []
wide_bytes w16 v = byte_0 (u16 v) ∷ byte_1 (u16 v) ∷ []

-- The wire form of a header.
abbrev pub hdr_bytes : Width → ℕ → ℕ → ℕ → List ℕ
hdr_bytes w total offset data_len =
    wide_bytes w total ++ (wide_bytes w offset ++ (byte_0 data_len ∷ byte_1 data_len ∷ []))

-- Writing a header overwrites the first bytes of the buffer by its wire form.
pub hdr_write-splice :
    (w : Width) (total offset data_len : ℕ) (buf : List ℕ)
    → hdr_size w ≤ length buf
    → hdr_write w total offset data_len buf
      ≡ (splice buf 0 (hdr_bytes w total offset data_len), hdr_size w)
unfolding hdr_write mp_write_wide bwrite_u16_le bwrite_u32_le
hdr_write-splice w16 t o d (b0 ∷ b1 ∷ b2 ∷ b3 ∷ b4 ∷ b5 ∷ rest) h = rw (splice-nil rest)
hdr_write-splice w16 t o d _ h = absurd (omega arith)
hdr_write-splice w32 t o d (b0 ∷ b1 ∷ b2 ∷ b3 ∷ b4 ∷ b5 ∷ b6 ∷ b7 ∷ b8 ∷ b9 ∷ rest) h =
    rw (splice-nil rest)
hdr_write-splice w32 t o d _ h = absurd (omega arith)

-- A header's wire form reads back as its fields, where they fit their widths.
pub hdr_read-hdr_bytes :
    (w : Width) (total offset data_len len : ℕ) (rest : List ℕ)
    → total < field_limit w
    → offset < field_limit w
    → data_len < 65536
    → hdr_size w ≤ len
    → hdr_read w (hdr_bytes w total offset data_len ++ rest) len
      ≡ some (record { total = total; offset = offset; data_len = data_len }, hdr_size w)
unfolding hdr_read mp_read_wide bread_u16_le bread_u32_le
hdr_read-hdr_bytes w16 t o d len rest ht ho hd hl = ground arith
hdr_read-hdr_bytes w32 t o d len rest ht ho hd hl = ground arith

pub length-hdr_bytes : (w : Width) (t o d : ℕ) → length (hdr_bytes w t o d) ≡ hdr_size w
length-hdr_bytes w16 t o d = refl
length-hdr_bytes w32 t o d = refl

-- A header written into a buffer that holds it is read back as its fields, where TOTAL and OFFSET
-- fit the engine's width and DATA_LEN fits two bytes.
pub hdr_read-hdr_write :
    (w : Width) (total offset data_len len : ℕ) (buf : List ℕ)
    → total < field_limit w
    → offset < field_limit w
    → data_len < 65536
    → hdr_size w ≤ len
    → hdr_size w ≤ length buf
    → hdr_read w (hdr_write w total offset data_len buf).0 len
      ≡ some (record { total = total; offset = offset; data_len = data_len }, hdr_size w)
hdr_read-hdr_write w t o d len buf ht ho hd hl hb =
    rw (hdr_write-splice w t o d buf hb, splice-prefix buf (hdr_bytes w t o d) fits)
      (hdr_read-hdr_bytes w t o d len (drop (length (hdr_bytes w t o d)) buf) ht ho hd hl)
  where
    fits : length (hdr_bytes w t o d) ≤ length buf
    fits = omega (arith, length-hdr_bytes w t o d)
