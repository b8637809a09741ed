-- ===== src/Multipart/Rx/Checks.antt =====
-- What the receiving side of src/osdp_multipart.c accepts, and what it leaves alone otherwise.
use libosdp.Common.{
  ℕ, ◌+◌, ◌≤◌, ◌<◌, ◌^◌, ◌≡◌, ◌⊎◌, ◌↔◌, inl, inr, refl, false, Option, none, some, Bool-cases, List,
  arith, ltb, length, slice, length-slice,
}
use libosdp.Bytes.{bread_u16_le, bread_u32_le}
use libosdp.Multipart.{Multipart, Width, w16, w32, hdr_size, emit, Rc, more, err}
use libosdp.Multipart.Header.{hdr_read, HeaderFields, mp_read_wide}
use libosdp.Multipart.Rx.{
  rx_init, check_frame, exceeds_buffer, rx_consume_ex, rx_consume, rx_commit, rx_skip,
  consume_header,
}

-- The invariant of a receiving engine: what is committed, and the last frame, lie in the transfer.
pub record IsReceiving {S : Type 0} (mp : Multipart S) : Type 0 where
  pub offset_in : mp.offset ≤ mp.total
  pub frame_in : mp.last_off + mp.last_len ≤ mp.total
  pub no_gap : mp.last_off ≤ mp.offset
  pub total_fits : mp.total < 2 ^ 32

hdr_read-lt :
    (w : Width) (buf : List ℕ) (len : ℕ) {h : HeaderFields} {pos : ℕ}
    → hdr_read w buf len ≡ some (h, pos)
    → (h.total < 2 ^ 32) × (h.offset < 2 ^ 32) × (h.data_len < 65536)
unfolding hdr_read mp_read_wide bread_u16_le bread_u32_le
hdr_read-lt w16 buf len e = ground arith
hdr_read-lt w32 buf len e = ground arith

module _ {S : Type 0} where
  pub rx_init-IsReceiving :
      (mp : Multipart S) (w : Width) (total : ℕ) → total < 2 ^ 32 → IsReceiving (rx_init mp w total)
  unfolding rx_init
  rx_init-IsReceiving mp w total h = ground arith

  -- What a consumed frame amounts to.
  pub record Consumed (mp : Multipart S) (out : Rc × Multipart S) : Type 0 where
    pub keeps : IsReceiving out.1
    pub same_offset : out.1.offset ≡ mp.offset
    pub same_plane : (out.1.ops ≡ mp.ops) × (out.1.buf_len ≡ mp.buf_len) × (out.1.width ≡ mp.width)
    pub in_buffer :
        (out.0 ≡ more) ⊎ (out.0 ≡ Rc.done) → exceeds_buffer out.1.total out.1.buf_len ≡ false
    pub finished :
        (out.0 ≡ more) ⊎ (out.0 ≡ Rc.done)
        → (out.0 ≡ Rc.done) ↔ (out.1.last_off + out.1.last_len ≡ out.1.total)
    pub refused :
        (out.0 ≡ err) ⊎ (out.0 ≡ Rc.retry)
        → (out.1.total ≡ mp.total) × (out.1.last_off ≡ mp.last_off) × (out.1.last_len ≡ mp.last_len)

  check_frame-Consumed :
      (mp : Multipart S) (h : HeaderFields) (chunk : List ℕ)
      → IsReceiving mp
      → h.total < 2 ^ 32
      → h.offset < 2 ^ 32
      → length chunk ≡ h.data_len
      → Consumed mp (check_frame mp h chunk)
  unfolding check_frame
  check_frame-Consumed mp h chunk v ht ho hc = record {
    keeps = record {
      offset_in = ground arith;
      frame_in = ground arith;
      no_gap = ground arith;
      total_fits = ground arith;
    };
    same_offset = ground arith;
    same_plane = (ground arith, ground arith, ground arith);
    in_buffer = λ c. ground arith;
    finished = λ c. ground arith;
    refused = λ c. ground arith;
  }

  refused_frame : (mp : Multipart S) → IsReceiving mp → Consumed mp (err, mp)
  refused_frame mp v = record {
    keeps = v;
    same_offset = refl;
    same_plane = (refl, refl, refl);
    in_buffer = λ c. ground arith;
    finished = λ c. ground arith;
    refused = λ c. (refl, refl, refl);
  }

  consume_header-Consumed :
      (mp : Multipart S) (buf : List ℕ) (len : ℕ) (o : Option (HeaderFields × ℕ))
      → IsReceiving mp
      → len ≤ length buf
      → ((h : HeaderFields) (pos : ℕ)
          → o ≡ some (h, pos)
          → (h.total < 2 ^ 32) × (h.offset < 2 ^ 32))
      → let (rc, _, mp') = consume_header mp buf len 0 o in Consumed mp (rc, mp')
  unfolding consume_header
  consume_header-Consumed mp buf len none v hl hr = refused_frame mp v
  consume_header-Consumed mp buf len (some (h, pos)) v hl hr =
      elim (Bool-cases (ltb len (hdr_size mp.width + rx_skip h.offset 0 + h.data_len))) [
        | inl short ↦ rw short (refused_frame mp v)
        | inr long ↦ rw long (
            check_frame-Consumed mp h
              (slice buf (hdr_size mp.width + rx_skip h.offset 0) h.data_len) v (hr h pos refl).0
              (hr h pos refl).1
              (length-slice buf (hdr_size mp.width + rx_skip h.offset 0) h.data_len (ground arith)))
      ]

  -- For a receiving engine in its invariant and any bytes of at least the given length, consuming a
  -- frame keeps the invariant: every accepted chunk lies inside the transfer and leaves no gap. The
  -- committed offset and the data plane's binding do not move. An accepted transfer fits in a bound
  -- buffer, it is reported done exactly when the frame reaches the transfer's end, and a frame that
  -- is refused or to be retried leaves the total and the last frame as they were.
  pub rx_consume-Consumed :
      (mp : Multipart S) (buf : List ℕ) (len : ℕ)
      → IsReceiving mp
      → len ≤ length buf
      → Consumed mp (rx_consume mp buf len)
  unfolding rx_consume rx_consume_ex
  rx_consume-Consumed mp buf len v hl =
      consume_header-Consumed mp buf len (hdr_read mp.width buf len) v hl
        λ h pos e. let (ht, ho, _) = hdr_read-lt mp.width buf len e in (ht, ho)

  pub rx_commit-IsReceiving :
      (mp : Multipart S)
      → IsReceiving mp
      → IsReceiving (rx_commit mp) × (mp.offset ≤ (rx_commit mp).offset)
  unfolding rx_commit emit
  rx_commit-IsReceiving mp v = ground arith
