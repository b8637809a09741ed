-- ===== src/Phy/Header.antt =====
-- The header check of src/osdp_phy.c (phy_validate_header).
use libosdp.Common.{
  ℕ, ◌+◌, ◌⊎◌, inl, inr, true, false, not, ◌&&◌, ◌||◌, List, ltb, ◌==◌, if◌then◌else◌, drop,
  has_bit,
}
use libosdp.Bytes.{byte_at}
use libosdp.Device.{Device, is_pd_mode, is_cp_mode}
use libosdp.Phy.{
  PktError, err_fmt, err_wait, err_skip, pkt_mark, pkt_som, header_size, som_of, pd_address_of,
  len_of, set_has_mark,
}

-- The checks on the header `pkt`, after `mark` mark bytes.
unfoldable pub check_fields : Device → List ℕ → ℕ → ℕ → PktError ⊎ ℕ
check_fields pd pkt mark max_len =
    let pkt_len = len_of pkt in
    if not (som_of pkt == pkt_som)
    then inl err_fmt
    else if ltb max_len (pkt_len + mark) || ltb pkt_len (header_size + 1)
    then inl err_fmt
    else if is_pd_mode pd && has_bit 0x80 (pd_address_of pkt)
    then inl err_skip
    else if is_cp_mode pd && not (has_bit 0x80 (pd_address_of pkt))
    then inl err_skip
    else inr (pkt_len + mark)

-- The first `buf_len` bytes of `buf` are valid.
unfoldable pub validate_header : Device → List ℕ → ℕ → ℕ → (PktError ⊎ ℕ) × Device
unfolding check_fields
validate_header pd buf buf_len max_len =
    if ltb buf_len header_size
    then (inl err_wait, pd)
    else if byte_at buf 0 == pkt_mark && (ltb 1 buf_len && byte_at buf 1 == pkt_som)
    then (check_fields pd (drop 1 buf) 1 max_len, set_has_mark pd true)
    else if byte_at buf 0 == pkt_som
    then (check_fields pd buf 0 max_len, set_has_mark pd false)
    else (inl err_fmt, pd)
