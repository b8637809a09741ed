-- ===== src/RingBuffer/Invariant.antt =====
-- The representation invariant of `struct osdp_rb`: both indices stay inside the storage, so no
-- access of osdp_rb_push or osdp_rb_pop is out of range.
use libosdp.Common.{ℕ, ◌<◌, ◌≡◌, arith, length, length-set, length-replicate}
use libosdp.RingBuffer.{RingBuffer, rx_rb_size, empty, push, pop, reset}

pub record IsValid (p : RingBuffer) : Type 0 where
  pub head_in : p.head < length p.buffer
  pub tail_in : p.tail < length p.buffer

pub empty-IsValid : IsValid empty
unfolding empty
empty-IsValid = record {
  head_in = rw (length-replicate {A = ℕ} rx_rb_size 0) (omega arith);
  tail_in = rw (length-replicate {A = ℕ} rx_rb_size 0) (omega arith);
}

pub push-IsValid : {p : RingBuffer} (x : ℕ) → IsValid p → IsValid (push p x).1
unfolding push
push-IsValid {p} x v = ground (arith, length-set p.buffer p.head x)

pub pop-IsValid : {p : RingBuffer} → IsValid p → IsValid (pop p).1
unfolding pop
pop-IsValid v = ground arith

pub reset-IsValid : {p : RingBuffer} → IsValid p → IsValid (reset p)
unfolding reset
reset-IsValid v = omega arith

pub length-push : (p : RingBuffer) (x : ℕ) → length (push p x).1.buffer ≡ length p.buffer
unfolding push
length-push p x = ground (arith, length-set p.buffer p.head x)

pub length-pop : (p : RingBuffer) → length (pop p).1.buffer ≡ length p.buffer
unfolding pop
length-pop p = ground arith
