-- ===== src/Multipart/Buffer.antt =====
-- The engine's own data plane for a bound buffer (src/osdp_multipart.c: mp_buf_read, mp_buf_write,
-- osdp_mp_bind_buffer), and the binding of an application's. The state of the buffer's data plane
-- is the buffer's bytes.
use libosdp.Common.{
  ℕ, ◌+◌, ◌≤◌, ◌<◌, ◌^◌, ◌≡◌, ◌≢◌, ◌↔◌, min, ◌-◌, false, Option, none, some, List, [], arith, ltb,
  leb, ◌||◌, if◌then◌else◌, length, slice, splice, length-splice, take-splice, take, slice-splice,
}
use libosdp.Multipart.{Multipart, Ops, RxStatus, ok, abort, sub_u32}

unfoldable pub mp_buf_read : List ℕ → ℕ → ℕ → Option (List ℕ) × List ℕ
mp_buf_read buf size offset =
    if leb (length buf) offset
    then (some [], buf)
    else (let left = sub_u32 (length buf) offset in
        (some (slice buf offset (if ltb left size then left else size)), buf))

-- The size is that of `src`.
unfoldable pub mp_buf_write : List ℕ → List ℕ → ℕ → RxStatus × List ℕ
mp_buf_write buf src offset =
    if leb (length buf) offset || ltb (sub_u32 (length buf) offset) (length src)
    then (abort, buf)
    else (ok, splice buf offset src)

abbrev pub buffer_ops : Ops (List ℕ)
buffer_ops = record { read = mp_buf_read; write = mp_buf_write }

module _ {S T : Type 0} where
  -- osdp_mp_bind_ops
  unfoldable pub bind_ops : Multipart S → Ops T → T → Multipart T
  bind_ops mp ops arg = record {
    state = mp.state;
    width = mp.width;
    total = mp.total;
    offset = mp.offset;
    last_len = mp.last_len;
    last_off = mp.last_off;
    ops = ops;
    arg = arg;
    buf_len = none;
    has_event_cb = mp.has_event_cb;
    events = mp.events;
    msg_type = mp.msg_type;
    object_id = mp.object_id;
    done_outcome = mp.done_outcome;
    start_emitted = mp.start_emitted;
    cancel_req = mp.cancel_req;
    wait_time_ms = mp.wait_time_ms;
    tstamp = mp.tstamp;
  }

module _ {S : Type 0} where
  -- osdp_mp_bind_buffer
  unfoldable pub bind_buffer : Multipart S → List ℕ → Multipart (List ℕ)
  unfolding bind_ops
  bind_buffer mp buf = record (bind_ops mp buffer_ops buf) { buf_len = some (length buf) }

-- For any offset, and any length of chunk and buffer below 2^32, the write is accepted exactly when it
-- starts inside the buffer and ends within it, with no
-- wrap-around. An accepted chunk is stored at its offset and changes nothing before it or in the
-- buffer's length, and a refused one changes nothing.
pub mp_buf_write_lem :
    (buf src : List ℕ) (offset : ℕ)
    → length buf < 2 ^ 32
    → (((mp_buf_write buf src offset).0 ≡ ok)
        ↔ ((offset < length buf) × (offset + length src ≤ length buf)))
      × ((mp_buf_write buf src offset).0 ≡ ok
          → let buf' = (mp_buf_write buf src offset).1 in
            (slice buf' offset (length src) ≡ src)
            × (take offset buf' ≡ take offset buf)
            × (length buf' ≡ length buf))
      × ((mp_buf_write buf src offset).0 ≢ ok → (mp_buf_write buf src offset).1 ≡ buf)
unfolding mp_buf_write
mp_buf_write_lem buf src offset h = ground (
  arith,
  slice-splice buf offset src,
  take-splice offset buf offset src,
  length-splice buf offset src,
)

pub mp_buf_write-in :
    (buf src : List ℕ) (offset : ℕ)
    → length buf < 2 ^ 32
    → offset < length buf
    → offset + length src ≤ length buf
    → mp_buf_write buf src offset ≡ (ok, splice buf offset src)
unfolding mp_buf_write
mp_buf_write-in buf src offset h i e = rw inside
  where
    inside : (leb (length buf) offset || ltb (sub_u32 (length buf) offset) (length src)) ≡ false
    inside = ground arith

slice-zero : (buf : List ℕ) (i n : ℕ) → n ≡ 0 → slice buf i n ≡ []
slice-zero buf i n e = rw e

slice_size : (m n : ℕ) (buf : List ℕ) (i : ℕ) → m ≡ n → slice buf i m ≡ slice buf i n
slice_size m n buf i e = rw e

-- A read of a bound buffer below 2^32 bytes gives the bytes from the offset on, as many as are
-- asked for or as are left, none past the end, and never fails.
pub mp_buf_read_lem :
    (buf : List ℕ) (size offset : ℕ)
    → length buf < 2 ^ 32
    → mp_buf_read buf size offset ≡ (some (slice buf offset (min size (length buf - offset))), buf)
unfolding mp_buf_read
mp_buf_read_lem buf size offset h = ground (
  arith,
  slice-zero buf offset (min size (length buf - offset)),
  slice_size (sub_u32 (length buf) offset) (min size (length buf - offset)) buf offset,
  slice_size size (min size (length buf - offset)) buf offset,
)
