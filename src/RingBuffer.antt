-- ===== src/RingBuffer.antt =====
-- The receive ring buffer `struct osdp_rb` of src/osdp_common.c. A function that updates `*p`
-- returns the new ring; a status is `true` for 0 and `false` for -1. One slot stays free, so a
-- buffer of n bytes holds at most n - 1.
pub mod Invariant
pub mod Refine
pub mod Bulk
mod Examples
use libosdp.Common.{
  ℕ, zero, suc, ◌+◌, Bool, true, false, Option, none, some, List, [], ◌∷◌, leb, ◌==◌, if◌then◌else◌,
  length, get_or, set, replicate,
}

-- OSDP_RX_RB_SIZE
abbrev pub rx_rb_size : ℕ
rx_rb_size = 512

pub record RingBuffer : Type 0 where
  pub head : ℕ
  pub tail : ℕ
  pub buffer : List ℕ

-- As allocated by `osdp_calloc`.
unfoldable pub empty : RingBuffer
empty = record { head = 0; tail = 0; buffer = replicate rx_rb_size 0 }

-- The index after `i`, going round at `size`.
abbrev pub wrap_inc : ℕ → ℕ → ℕ
wrap_inc size i = if leb size (i + 1) then 0 else i + 1

-- `size` is `sizeof(p->buffer)`.
abbrev pub next_index : RingBuffer → ℕ → ℕ
next_index p i = wrap_inc (length p.buffer) i

unfoldable pub push : RingBuffer → ℕ → Bool × RingBuffer
push p byte =
    let next = next_index p p.head in
    if next == p.tail
    then (false, p)
    else (true, record p { buffer = set p.buffer p.head byte; head = next })

-- The loop over `buf[i..len)`; the count is the bytes stored.
unfoldable pub push_from : RingBuffer → List ℕ → ℕ → ℕ × RingBuffer
push_from p [] i = (i, p)
push_from p (x ∷ xs) i =
    let (done, p') = push p x in
    let rest = push_from p' xs (i + 1) in if done then rest else (i, p')

unfoldable pub push_buf : RingBuffer → List ℕ → ℕ × RingBuffer
unfolding push_from
push_buf p buf = push_from p buf 0

-- The byte goes through `*data`; `none` is the return value -1.
unfoldable pub pop : RingBuffer → Option ℕ × RingBuffer
pop p =
    if p.head == p.tail
    then (none, p)
    else (some (get_or p.buffer p.tail 0), record p { tail = next_index p p.tail })

-- Up to `max_len` bytes, in the order in which they are stored at `buf`.
unfoldable pub pop_buf : RingBuffer → ℕ → List ℕ × RingBuffer
pop_buf p zero = ([], p)
pop_buf p (suc max_len) =
    let (byte, p') = pop p in
    let rest = pop_buf p' max_len in elim byte [ none ↦ ([], p') | some x ↦ (x ∷ rest.0, rest.1) ]

unfoldable pub reset : RingBuffer → RingBuffer
reset p = record p { head = 0; tail = 0 }
