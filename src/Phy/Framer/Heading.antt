-- ===== src/Phy/Framer/Heading.antt =====
-- The header phase of the framer: what it holds is a header at most, and what it accepts fits.
use libosdp.Common.{
  ℕ, zero, suc, ◌+◌, ◌-◌, ◌≤◌, ◌≡◌, ◌≢◌, refl, ap, ◌∙◌, ◌⊎◌, inl, inr, Bool, Bool-cases,
  Option-cases, true, false, none, some, List, [], ◌∷◌, arith, ltb, ◌==◌, if◌then◌else◌, length,
  set, length-set, length-splice,
}
use libosdp.Bytes.{byte_at}
use libosdp.RingBuffer.{RingBuffer, pop, pop_buf}
use libosdp.Device.{Device, packet_buf_size}
use libosdp.Phy.{
  PktError, err_fmt, err_wait, err_skip, err_check, err_busy, err_nack, err_build, err_no_data,
  err_wait_tx, pkt_mark, pkt_som,
}
use libosdp.Phy.Header.{check_fields, validate_header}
use libosdp.Phy.Framer.{
  find_som, move_down, rescan_packet_buf, found_som, scan_start, collect, header_need, top_up,
  on_header, after_scan, check_header,
}

length-pop_buf : (p : RingBuffer) (n : ℕ) → length (pop_buf p n).0 ≤ n
unfolding pop_buf
length-pop_buf p zero = omega arith
length-pop_buf p (suc n) =
    elim (pop p).0
      as (λ b.
        length
          (elim b as (λ x. List ℕ × RingBuffer) [
            | none ↦ ([], (pop p).1)
            | some x ↦ (x ∷ (pop_buf (pop p).1 n).0, (pop_buf (pop p).1 n).1)
          ]).0
        ≤ suc n) [ none ↦ omega arith | some x ↦ omega (arith, length-pop_buf (pop p).1 n) ]

-- What a header that is accepted declares: at least a header with an ID and a check, at most the space.
pub validate_header_lem :
    (pd : Device) (buf : List ℕ) (buf_len max_len n : ℕ)
    → (validate_header pd buf buf_len max_len).0 ≡ inr n
    → (n ≤ max_len) × (6 ≤ n) × (5 ≤ buf_len)
unfolding validate_header check_fields
validate_header_lem pd buf buf_len max_len n e = ground arith

-- Accepting a header changes one flag at most.
record SameFrame (pd pd' : Device) : Type 0 where
  same_buf : pd'.packet_buf ≡ pd.packet_buf
  same_buf_len : pd'.packet_buf_len ≡ pd.packet_buf_len
  same_len : pd'.packet_len ≡ pd.packet_len

validate_header-SameFrame :
    (pd : Device) (buf : List ℕ) (buf_len max_len : ℕ)
    → SameFrame pd (validate_header pd buf buf_len max_len).1
unfolding validate_header
validate_header-SameFrame pd buf buf_len max_len = record {
  same_buf = ground arith;
  same_buf_len = ground arith;
  same_len = ground arith;
}

pub length-move_down : (buf : List ℕ) (k j i : ℕ) → length (move_down buf k j i) ≡ length buf
unfolding move_down
length-move_down buf zero j i = refl
length-move_down buf (suc k) j i =
    length-move_down (set buf j (byte_at buf i)) k (j + 1) (i + 1)
    ∙ length-set buf j (byte_at buf i)

pub find_som_bounds : (buf : List ℕ) (k i : ℕ) → (i ≤ find_som buf k i) × (find_som buf k i ≤ i + k)
unfolding find_som
find_som_bounds buf zero i = omega arith
find_som_bounds buf (suc k) i = ground (arith, find_som_bounds buf k (i + 1))

-- What the header phase starts from and leaves.
pub record IsHeading (pd : Device) : Type 0 where
  pub whole : length pd.packet_buf ≡ packet_buf_size
  pub unknown : pd.packet_len ≡ 0
  pub short : pd.packet_buf_len ≤ 6

rescan-IsHeading : (pd : Device) → IsHeading pd → IsHeading (rescan_packet_buf pd).1
unfolding rescan_packet_buf
rescan-IsHeading pd h =
    let j = (if pd.flags.pkt_has_mark then 1 else 0) + 1 in
    let i = find_som pd.packet_buf (pd.packet_buf_len - j) j in
    record {
      whole = ground (
        arith,
        h.whole,
        length-move_down (set pd.packet_buf 0 pkt_mark) (pd.packet_buf_len - i) 1 i,
        length-set pd.packet_buf 0 pkt_mark,
        length-move_down pd.packet_buf (pd.packet_buf_len - i) 0 i,
      );
      unknown = ground (arith, h.unknown);
      short = ground (arith, h.short, find_som_bounds pd.packet_buf (pd.packet_buf_len - j) j);
    }

found_som-IsHeading : (pd : Device) (prev : ℕ) → IsHeading pd → IsHeading (found_som pd prev)
found_som-IsHeading pd prev h = record {
  whole = ground (
    arith,
    h.whole,
    length-set pd.packet_buf 0 pkt_som,
    length-set pd.packet_buf 0 pkt_mark,
    length-set (set pd.packet_buf 0 pkt_mark) 1 pkt_som,
  );
  unknown = ground (arith, h.unknown);
  short = ground arith;
}

scan-IsHeading :
    (fuel : ℕ) (pd : Device) (prev : ℕ) → IsHeading pd → IsHeading (scan_start fuel pd prev).1
unfolding scan_start
scan-IsHeading zero pd prev h = h
scan-IsHeading (suc fuel) pd prev h = elim (Option-cases (pop pd.rx_rb).0) [
  | inl e ↦ rw (e, scan_start) (record { whole = h.whole; unknown = h.unknown; short = h.short })
  | inr (byte, e) ↦ elim (Bool-cases (byte == pkt_som)) [
    | inl k ↦
        rw (e, scan_start, k)
          (found_som-IsHeading (record pd { rx_rb = (pop pd.rx_rb).1 }) prev
            (record { whole = h.whole; unknown = h.unknown; short = h.short }))
    | inr k ↦
        rw (e, scan_start, k)
          (scan-IsHeading fuel _ byte
            (record { whole = h.whole; unknown = h.unknown; short = h.short }))
  ]
]

pub collect-len : (pd : Device) (n : ℕ) → (collect pd n).packet_buf_len ≤ pd.packet_buf_len + n
unfolding collect
collect-len pd n = omega (arith, length-pop_buf pd.rx_rb n)

pub collect-whole : (pd : Device) (n : ℕ) → length (collect pd n).packet_buf ≡ length pd.packet_buf
unfolding collect
collect-whole pd n = length-splice pd.packet_buf pd.packet_buf_len (pop_buf pd.rx_rb n).0

pub collect-packet_len : (pd : Device) (n : ℕ) → (collect pd n).packet_len ≡ pd.packet_len
unfolding collect
collect-packet_len pd n = refl

collect-IsHeading :
    (pd : Device) (n : ℕ) → pd.packet_buf_len + n ≤ 6 → IsHeading pd → IsHeading (collect pd n)
collect-IsHeading pd n le h = record {
  whole = collect-whole pd n ∙ h.whole;
  unknown = collect-packet_len pd n ∙ h.unknown;
  short = omega (arith, collect-len pd n);
}

top_up-IsHeading : (pd : Device) → IsHeading pd → IsHeading (top_up pd)
unfolding top_up
top_up-IsHeading pd h = elim (Bool-cases (ltb pd.packet_buf_len (header_need pd))) [
  | inl e ↦ rw e (collect-IsHeading pd (header_need pd - pd.packet_buf_len) (ground arith) h)
  | inr e ↦ rw e h
]

validate_header-IsHeading :
    (pd : Device) (buf : List ℕ) (buf_len max_len : ℕ)
    → IsHeading pd
    → IsHeading (validate_header pd buf buf_len max_len).1
validate_header-IsHeading pd buf buf_len max_len h =
    let s = validate_header-SameFrame pd buf buf_len max_len in
    record {
      whole = ap length s.same_buf ∙ h.whole;
      unknown = s.same_len ∙ h.unknown;
      short = omega (arith, s.same_buf_len, h.short);
    }

on_header-IsHeading : (r : (PktError ⊎ ℕ) × Device) → IsHeading r.1 → IsHeading (on_header r).1
unfolding on_header
on_header-IsHeading (inl err_fmt, pd) h = rescan-IsHeading pd h
on_header-IsHeading (inl err_wait, pd) h = h
on_header-IsHeading (inl err_skip, pd) h = h
on_header-IsHeading (inl err_check, pd) h = h
on_header-IsHeading (inl err_busy, pd) h = h
on_header-IsHeading (inl err_nack, pd) h = h
on_header-IsHeading (inl err_build, pd) h = h
on_header-IsHeading (inl err_no_data, pd) h = h
on_header-IsHeading (inl err_wait_tx, pd) h = h
on_header-IsHeading (inr len, pd) h = h

on_header-inr : (r : (PktError ⊎ ℕ) × Device) (n : ℕ) → (on_header r).0 ≡ inr n → r.0 ≡ inr n
unfolding on_header
on_header-inr (inl err_fmt, pd) n e = ground arith
on_header-inr (inl err_wait, pd) n e = e
on_header-inr (inl err_skip, pd) n e = e
on_header-inr (inl err_check, pd) n e = e
on_header-inr (inl err_busy, pd) n e = e
on_header-inr (inl err_nack, pd) n e = e
on_header-inr (inl err_build, pd) n e = e
on_header-inr (inl err_no_data, pd) n e = e
on_header-inr (inl err_wait_tx, pd) n e = e
on_header-inr (inr len, pd) n e = e

after_scan-IsHeading : (r : Bool × Device) → IsHeading r.1 → IsHeading (after_scan r).1
unfolding after_scan
after_scan-IsHeading (false, pd) h = h
after_scan-IsHeading (true, pd) h =
    on_header-IsHeading _ (validate_header-IsHeading (top_up pd) _ _ _ (top_up-IsHeading pd h))

after_scan-bounds :
    (r : Bool × Device) (n : ℕ) → (after_scan r).0 ≡ inr n → (n ≤ packet_buf_size) × (6 ≤ n)
unfolding after_scan
after_scan-bounds (false, pd) n e = ground arith
after_scan-bounds (true, pd) n e =
    let full = top_up pd in
    let b =
      validate_header_lem full full.packet_buf full.packet_buf_len packet_buf_size n
        (on_header-inr _ n e) in
    (b.0, b.1)

-- The header phase keeps the packet buffer's size, and what it holds is at most a header.
pub check_header-IsHeading : (pd : Device) → IsHeading pd → IsHeading (check_header pd).1
unfolding check_header
check_header-IsHeading pd h = after_scan-IsHeading _ scanned
  where
    scanned :
        IsHeading
          (if pd.packet_buf_len == 0
            then scan_start (length pd.rx_rb.buffer) pd 0
            else (true, pd)).1
    scanned = elim (Bool-cases (pd.packet_buf_len == 0)) [
      | inl e ↦ rw e (scan-IsHeading (length pd.rx_rb.buffer) pd 0 h)
      | inr e ↦ rw e h
    ]

pub check_header-bounds :
    (pd : Device) (n : ℕ) → (check_header pd).0 ≡ inr n → (n ≤ packet_buf_size) × (6 ≤ n)
unfolding check_header
check_header-bounds pd n = after_scan-bounds _ n

on_header-ne : (r : (PktError ⊎ ℕ) × Device) → (on_header r).0 ≢ inl err_fmt
unfolding on_header
on_header-ne (inl err_fmt, pd) = ground arith
on_header-ne (inl err_wait, pd) = ground arith
on_header-ne (inl err_skip, pd) = ground arith
on_header-ne (inl err_check, pd) = ground arith
on_header-ne (inl err_busy, pd) = ground arith
on_header-ne (inl err_nack, pd) = ground arith
on_header-ne (inl err_build, pd) = ground arith
on_header-ne (inl err_no_data, pd) = ground arith
on_header-ne (inl err_wait_tx, pd) = ground arith
on_header-ne (inr n, pd) = ground arith

after_scan-ne : (r : Bool × Device) → (after_scan r).0 ≢ inl err_fmt
unfolding after_scan
after_scan-ne (false, pd) = ground arith
after_scan-ne (true, pd) = on_header-ne _

pub check_header-ne : (pd : Device) → (check_header pd).0 ≢ inl err_fmt
unfolding check_header
check_header-ne pd = after_scan-ne _
