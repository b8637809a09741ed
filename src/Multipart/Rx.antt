-- ===== src/Multipart/Rx.antt =====
-- The receiving side of src/osdp_multipart.c.
pub mod Checks
pub mod Accept
use libosdp.Common.{
  ℕ, ◌+◌, ◌-◌, ◌≤◌, ◌<◌, ◌^◌, ◌≡◌, refl, Bool, true, false, not, ◌&&◌, ◌||◌, Option, none, some,
  List, [], ◌∷◌, ◌++◌, arith, ltb, leb, ◌==◌, if◌then◌else◌, length, splice, slice, u32,
}
use libosdp.Multipart.{
  Multipart, Ops, State, Phase, progress, Width, hdr_size, sub_u32, emit, inprog, Rc, more,
  early_term, err, RxStatus, ok, abort,
}
use libosdp.Multipart.Header.{hdr_read, HeaderFields}

-- The test on a bound buffer, if there is one.
abbrev pub exceeds_buffer : ℕ → Option ℕ → Bool
exceeds_buffer total none = false
exceeds_buffer total (some buf_len) = ltb buf_len total

-- The prefix rides on the offset-0 fragment only.
abbrev pub rx_skip : ℕ → ℕ → ℕ
rx_skip off pfx_len = if off == 0 then pfx_len else 0

module _ {S : Type 0} where
  -- osdp_mp_rx_init; it always returns 0.
  unfoldable pub rx_init : Multipart S → Width → ℕ → Multipart S
  rx_init mp w total = record mp {
    width = w;
    total = total;
    offset = 0;
    last_len = 0;
    last_off = 0;
    start_emitted = false;
    state = inprog;
  }

  -- The last part of osdp_mp_rx_consume_ex, from "all ERR checks passed" on.
  unfoldable pub accept : Multipart S → ℕ → ℕ → ℕ → Rc × Multipart S
  accept mp cur_total off dlen = (
    (if leb (sub_u32 cur_total off) dlen then Rc.done else more),
    record mp { total = cur_total; last_off = off; last_len = dlen },
  )

  -- The write of a chunk, and what follows it.
  unfoldable pub store : Multipart S → ℕ → ℕ → List ℕ → Rc × Multipart S
  unfolding accept
  store mp cur_total off chunk =
      let (st, arg') = mp.ops.write mp.arg chunk off in
      let mp' = record mp { arg = arg' } in
      elim st [
        | ok ↦ accept mp' cur_total off (length chunk)
        | RxStatus.retry ↦ (Rc.retry, mp')
        | abort ↦ (err, mp')
      ]

  -- The checks between the header and the write.
  unfoldable pub check_frame : Multipart S → HeaderFields → List ℕ → Rc × Multipart S
  unfolding store
  check_frame mp h chunk =
      let unfixed = mp.offset == 0 && mp.last_len == 0 && mp.total == 0 in
      let cur_total = if unfixed then h.total else mp.total in
      if not unfixed && not (h.total == mp.total)
      then (err, mp)
      else if exceeds_buffer cur_total mp.buf_len
      then (err, mp)
      else if leb cur_total h.offset && h.data_len == 0
      then (early_term, record mp { total = cur_total })
      else if ltb mp.offset h.offset
      then (err, mp)
      else if ltb (sub_u32 cur_total h.offset) h.data_len
      then (err, mp)
      else if ltb 0 h.data_len
      then store mp cur_total h.offset chunk
      else accept mp cur_total h.offset 0

  -- The body once the header is read (`none`: it could not be).
  unfoldable pub consume_header :
      Multipart S → List ℕ → ℕ → ℕ → Option (HeaderFields × ℕ) → Rc × List ℕ × Multipart S
  unfolding check_frame
  consume_header mp buf len pfx_len none = (err, [], mp)
  consume_header mp buf len pfx_len (some (h, pos)) =
      let hdr = hdr_size mp.width in
      let skip = rx_skip h.offset pfx_len in
      let out = check_frame mp h (slice buf (hdr + skip) h.data_len) in
      if ltb len (hdr + skip + h.data_len)
      then (err, [], mp)
      else (out.0, slice buf hdr skip, out.1)

  -- osdp_mp_rx_consume_ex, with the bytes copied out to `pfx` in the middle.
  unfoldable pub rx_consume_ex : Multipart S → List ℕ → ℕ → ℕ → Rc × List ℕ × Multipart S
  unfolding consume_header
  rx_consume_ex mp buf len pfx_len = consume_header mp buf len pfx_len (hdr_read mp.width buf len)

  unfoldable pub rx_consume : Multipart S → List ℕ → ℕ → Rc × Multipart S
  unfolding rx_consume_ex
  rx_consume mp buf len = let (rc, _, mp') = rx_consume_ex mp buf len 0 in (rc, mp')

  unfoldable pub rx_commit : Multipart S → Multipart S
  rx_commit mp =
      let end = u32 (mp.last_off + mp.last_len) in
      let offset' = if ltb mp.offset end then end else mp.offset in
      let mp' = record mp { offset = offset'; last_len = 0 } in
      if ltb 0 mp.last_len && ltb mp.offset end && ltb offset' mp.total
      then emit mp' progress
      else mp'
