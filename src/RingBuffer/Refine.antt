-- ===== src/RingBuffer/Refine.antt =====
-- A valid ring of n bytes behaves as a first-in first-out queue of at most n - 1 bytes.
use libosdp.Common.{
  ℕ, zero, suc, ◌+◌, ◌-◌, ◌≤◌, ◌<◌, ◌≡◌, ◌≢◌, refl, ap, ap₂, Bool, true, false, Option, none, some,
  List, [], ◌∷◌, ◌++◌, arith, ltb, leb, if◌then◌else◌, length, get_or, set, length-set,
  get_or-set_self, get_or-set_ne, length-append,
}
use libosdp.RingBuffer.{RingBuffer, wrap_inc, push, pop}
use libosdp.RingBuffer.Invariant.{IsValid}

-- The specification: the queue as the list of its bytes, oldest first.
unfoldable pub enqueue : ℕ → List ℕ → ℕ → Bool × List ℕ
enqueue cap q x = if ltb (length q) cap then (true, q ++ (x ∷ [])) else (false, q)

unfoldable pub dequeue : List ℕ → Option ℕ × List ℕ
dequeue [] = (none, [])
dequeue (x ∷ q) = (some x, q)

-- The number of bytes stored.
abbrev pub count : RingBuffer → ℕ
count p = if leb p.tail p.head then p.head - p.tail else length p.buffer + p.head - p.tail

-- The `n` bytes from index `i` on, going round at `size`.
abbrev pub window : List ℕ → ℕ → ℕ → ℕ → List ℕ
window buf size i zero = []
window buf size i (suc n) = get_or buf i 0 ∷ window buf size (wrap_inc size i) n

abbrev pub contents : RingBuffer → List ℕ
contents p = window p.buffer (length p.buffer) p.tail (count p)

pub length-append_one : (xs : List ℕ) (x : ℕ) → length (xs ++ (x ∷ [])) ≡ length xs + 1
length-append_one xs x = omega (arith, length-append xs (x ∷ []))

pub length-window : (buf : List ℕ) (size i n : ℕ) → length (window buf size i n) ≡ n
length-window buf size i zero = refl
length-window buf size i (suc n) = ap suc (length-window buf size (wrap_inc size i) n)

-- The index `n` places after `i`.
abbrev after : ℕ → ℕ → ℕ → ℕ
after size i n = if ltb (i + n) size then i + n else i + n - size

window-set :
    (buf : List ℕ) (size x n i j : ℕ)
    → size ≤ length buf
    → i < size
    → n < size
    → j ≡ after size i n
    → window (set buf j x) size i (suc n) ≡ window buf size i n ++ (x ∷ [])
window-set buf size x zero i j hs hi hn e =
    ap (λ b. b ∷ []) (ground (arith, get_or-set_self buf i x 0))
window-set buf size x (suc n) i j hs hi hn e =
    ap₂ ◌∷◌ (get_or-set_ne buf j i x 0 (ground arith))
      (window-set buf size x n (wrap_inc size i) j hs (ground arith) (omega arith) (ground arith))

-- The next free index is `count` places after the oldest byte.
head-eq-after : {p : RingBuffer} → IsValid p → p.head ≡ after (length p.buffer) p.tail (count p)
head-eq-after v = ground arith

count-lt : {p : RingBuffer} → IsValid p → count p < length p.buffer
count-lt v = ground arith

-- Pushing a byte onto a valid ring of n bytes enqueues it at the back of the ring's contents, and
-- fails, leaving them as they are, exactly when they number n - 1.
pub push_refines :
    (p : RingBuffer) (x : ℕ)
    → IsValid p
    → let (done, p') = push p x in
      (done, contents p') ≡ enqueue (length p.buffer - 1) (contents p) x
unfolding push enqueue
push_refines p x v = ground (
  arith,
  length-window p.buffer (length p.buffer) p.tail (count p),
  length-set p.buffer p.head x,
  window-set p.buffer (length p.buffer) x (count p) p.tail p.head,
)

window_of_pos :
    (buf : List ℕ) (size i n : ℕ)
    → n ≢ 0
    → window buf size i n ≡ get_or buf i 0 ∷ window buf size (wrap_inc size i) (n - 1)
window_of_pos buf size i zero h = absurd (h refl)
window_of_pos buf size i (suc n) h = ap (λ k. window buf size i (suc k)) (omega arith)

-- Popping from a valid ring dequeues the oldest byte of its contents, and fails, leaving them as
-- they are, exactly when they are empty.
pub pop_refines :
    (p : RingBuffer)
    → IsValid p
    → let (byte, p') = pop p in (byte, contents p') ≡ dequeue (contents p)
unfolding pop dequeue
pop_refines p v = ground (arith, window_of_pos p.buffer (length p.buffer) p.tail (count p))
