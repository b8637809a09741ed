-- ===== src/Multipart/Rx/Accept.antt =====
-- The path of src/osdp_multipart.c's receiver that accepts a data fragment, new or retransmitted.
use native.Mathlib.Nat.{add-zero}
use libosdp.Common.{
  ℕ, ◌+◌, ◌≤◌, ◌<◌, ◌≡◌, ap, ◌∙◌, true, false, ◌&&◌, some, List, arith, ltb, leb, ◌==◌,
  if◌then◌else◌, length, slice,
}
use libosdp.Multipart.{Multipart, hdr_size, sub_u32, Rc, more, ok}
use libosdp.Multipart.Header.{hdr_read, HeaderFields}
use libosdp.Multipart.Rx.{
  rx_consume, rx_consume_ex, consume_header, check_frame, store, rx_skip, exceeds_buffer,
}

-- The frame that header `h` announces, with the bytes `chunk`, goes into the transfer: it is at or
-- before the committed offset, holds at least one byte, and ends within the total.
pub record Acceptable {S : Type 0} (mp : Multipart S) (h : HeaderFields) (chunk : List ℕ)
    : Type 0 where
  pub same_total : h.total ≡ mp.total
  pub no_gap : h.offset ≤ mp.offset
  pub nonempty : 0 < h.data_len
  pub ends_in : h.offset + h.data_len ≤ mp.total
  pub total_fits : mp.total < 4294967296
  pub whole : length chunk ≡ h.data_len
  pub buffer_fits : exceeds_buffer mp.total mp.buf_len ≡ false

module _ {S : Type 0} (mp : Multipart S) (h : HeaderFields) (chunk : List ℕ)
    (a : Acceptable mp h chunk) (arg' : S)
    (w : mp.ops.write mp.arg chunk h.offset ≡ (ok, arg')) where
  abbrev pub accepted : Rc × Multipart S
  accepted = (
    (if h.offset + h.data_len == mp.total then Rc.done else more),
    record mp { arg = arg'; last_off = h.offset; last_len = h.data_len },
  )

  fixed : (mp.offset == 0 && mp.last_len == 0 && mp.total == 0) ≡ false
  fixed = ground (arith, a.nonempty, a.ends_in)

  agrees : (h.total == mp.total) ≡ true
  agrees = ground (arith, a.same_total)

  not_idle : (leb mp.total h.offset && h.data_len == 0) ≡ false
  not_idle = ground (arith, a.nonempty)

  gapless : ltb mp.offset h.offset ≡ false
  gapless = ground (arith, a.no_gap)

  inside : ltb (sub_u32 mp.total h.offset) h.data_len ≡ false
  inside = ground (arith, a.ends_in, a.total_fits)

  with_data : ltb 0 h.data_len ≡ true
  with_data = ground (arith, a.nonempty)

  ends : leb (sub_u32 mp.total h.offset) h.data_len ≡ (h.offset + h.data_len == mp.total)
  ends = ground (arith, a.ends_in, a.total_fits)

  store-accepted : store mp mp.total h.offset chunk ≡ accepted
  unfolding store
  store-accepted = rw (w, store) (rw (a.whole, ends, w))

  check_frame-accepted : check_frame mp h chunk ≡ accepted
  unfolding check_frame
  check_frame-accepted =
      rw (fixed, agrees, a.buffer_fits, not_idle, gapless, inside, with_data) store-accepted

  -- A frame whose header and bytes are acceptable is stored at its offset, and reported as the last
  -- one of the transfer exactly when it ends it.
  pub rx_consume-accepted :
      (buf : List ℕ) (len pos : ℕ)
      → hdr_read mp.width buf len ≡ some (h, pos)
      → slice buf (hdr_size mp.width) h.data_len ≡ chunk
      → hdr_size mp.width + h.data_len ≤ len
      → rx_consume mp buf len ≡ accepted
  unfolding rx_consume rx_consume_ex
  rx_consume-accepted buf len pos e c hl =
      ap (λ o. let (rc, _, mp') = consume_header mp buf len 0 o in (rc, mp')) e
      ∙ rw (no_skip, add-zero (hdr_size mp.width), long_enough, c) check_frame-accepted
    where
      no_skip : rx_skip h.offset 0 ≡ 0
      no_skip = ground arith

      long_enough : ltb len (hdr_size mp.width + h.data_len) ≡ false
      long_enough = ground arith
