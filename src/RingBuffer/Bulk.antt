-- ===== src/RingBuffer/Bulk.antt =====
-- osdp_rb_push_buf and osdp_rb_pop_buf: how many bytes they move, and which.
use libosdp.Common.{
  ℕ, zero, suc, ◌+◌, ◌-◌, ◌<◌, min, ◌≡◌, refl, sym, ap, ◌∙◌, true, false, Option, none, some, List,
  [], ◌∷◌, ◌++◌, arith, inl, inr, Bool-cases, Option-cases, append_assoc, append-nil, length, take,
  drop, take_ge, take-length,
}
use libosdp.RingBuffer.{RingBuffer, push, push_from, push_buf, pop, pop_buf}
use libosdp.RingBuffer.Invariant.{IsValid, push-IsValid, pop-IsValid, length-push}
use libosdp.RingBuffer.Refine.{
  contents, enqueue, dequeue, length-append_one, push_refines, pop_refines,
}

-- The bytes that still fit.
abbrev pub room : RingBuffer → ℕ
room p = length p.buffer - 1 - length (contents p)

-- What a run of the push loop from ring `p`, with `i` bytes already pushed, ends in.
record Pushed (p : RingBuffer) (xs : List ℕ) (i : ℕ) (out : ℕ × RingBuffer) : Type 0 where
  valid : IsValid out.1
  count : out.0 ≡ i + min (length xs) (room p)
  bytes : contents out.1 ≡ contents p ++ take (room p) xs

take-zero {ℓ} : {A : Type ℓ} (n : ℕ) (xs : List A) → n ≡ 0 → take n xs ≡ []
take-zero zero xs e = refl
take-zero (suc n) xs e = absurd (omega arith)

take-cons {ℓ} :
    {A : Type ℓ} (n m : ℕ) (x : A) (xs : List A) → n ≡ suc m → take n (x ∷ xs) ≡ x ∷ take m xs
take-cons n m x xs e = rw e

take-nil {ℓ} : {A : Type ℓ} (n : ℕ) → take {A = A} n [] ≡ []
take-nil zero = refl
take-nil (suc n) = refl

-- The queue step, read at the ring.
push_step :
    (p : RingBuffer) (x : ℕ)
    → IsValid p
    → ((push p x).0 ≡ false → (contents (push p x).1 ≡ contents p) × (room p ≡ 0))
      × ((push p x).0 ≡ true
          → (contents (push p x).1 ≡ contents p ++ (x ∷ [])) × (room p ≡ suc (room (push p x).1)))
unfolding enqueue
push_step p x v =
    ground (arith, push_refines p x v, length-push p x, length-append_one (contents p) x)

push_from-Pushed :
    (xs : List ℕ) (p : RingBuffer) (i : ℕ) → IsValid p → Pushed p xs i (push_from p xs i)
unfolding push_from
push_from-Pushed [] p i v = record {
  valid = v;
  count = omega arith;
  bytes = rw (take-nil {A = ℕ} (room p), append-nil);
}
push_from-Pushed (x ∷ xs) p i v = elim (Bool-cases (push p x).0) [
  | inl done ↦
      let ih = push_from-Pushed xs (push p x).1 (i + 1) (push-IsValid x v) in
      let (bytes, more) = (push_step p x v).1 done in
      rw done (record {
        valid = ih.valid;
        count = omega (arith, ih.count, more);
        bytes =
            ih.bytes
            ∙ ap (λ c. c ++ take (room (push p x).1) xs) bytes
            ∙ append_assoc (contents p) (x ∷ []) (take (room (push p x).1) xs)
            ∙ ap (◌++◌ (contents p)) (sym (take-cons (room p) (room (push p x).1) x xs more));
      })
  | inr full ↦
      let (bytes, none_left) = (push_step p x v).0 full in
      rw full (record {
        valid = push-IsValid x v;
        count = omega (arith, none_left);
        bytes = rw (take-zero (room p) (x ∷ xs) none_left, bytes, append-nil);
      })
]

-- Pushing a buffer onto a valid ring stores as many of its bytes as there is room for, in order,
-- behind what the ring holds, returns their number, and leaves the ring valid.
pub push_buf_lem :
    (p : RingBuffer) (xs : List ℕ)
    → IsValid p
    → let (n, p') = push_buf p xs in
      (n ≡ min (length xs) (room p)) × (contents p' ≡ contents p ++ take (room p) xs) × IsValid p'
unfolding push_buf
push_buf_lem p xs v =
    let w = push_from-Pushed xs p 0 v in (omega (arith, w.count), w.bytes, w.valid)

-- What `pop` gave, back in front of the queue.
abbrev unpop : Option ℕ → List ℕ → List ℕ
unpop none q = q
unpop (some x) q = x ∷ q

unpop-dequeue :
    (q : List ℕ) (o : Option ℕ) (q' : List ℕ)
    → (o, q') ≡ dequeue q
    → (q ≡ unpop o q') × (o ≡ none → q' ≡ [])
unfolding dequeue
unpop-dequeue [] o q' e = ground arith
unpop-dequeue (x ∷ q) o q' e = ground arith

pop_step :
    (p : RingBuffer)
    → IsValid p
    → (contents p ≡ unpop (pop p).0 (contents (pop p).1))
      × ((pop p).0 ≡ none → contents (pop p).1 ≡ [])
pop_step p v = unpop-dequeue (contents p) (pop p).0 (contents (pop p).1) (pop_refines p v)

-- Popping up to n bytes from a valid ring gives the n oldest, or all if there are fewer, in order,
-- keeps the others, and leaves the ring valid.
pub pop_buf_lem :
    (n : ℕ) (p : RingBuffer)
    → IsValid p
    → let (xs, p') = pop_buf p n in
      (xs ≡ take n (contents p)) × (contents p' ≡ drop n (contents p)) × IsValid p'
unfolding pop_buf
pop_buf_lem zero p v = (refl, refl, v)
pop_buf_lem (suc n) p v =
    let ih = pop_buf_lem n (pop p).1 (pop-IsValid v) in
    let step = pop_step p v in
    elim (Option-cases (pop p).0) [
      | inl e ↦
          let nothing : contents p ≡ [] =
            step.0 ∙ ap (λ o. unpop o (contents (pop p).1)) e ∙ step.1 e in
          (
            rw (e, pop_buf) (sym (ap (take (suc n)) nothing)),
            rw (e, pop_buf) (step.1 e ∙ sym (ap (drop (suc n)) nothing)),
            rw (e, pop_buf) (pop-IsValid v),
          )
      | inr (x, e) ↦
          let front : contents p ≡ x ∷ contents (pop p).1 =
            step.0 ∙ ap (λ o. unpop o (contents (pop p).1)) e in
          (
            rw (e, pop_buf) (ap (◌∷◌ x) ih.0 ∙ sym (ap (take (suc n)) front)),
            rw (e, pop_buf) (ih.1 ∙ sym (ap (drop (suc n)) front)),
            rw (e, pop_buf) ih.2,
          )
    ]

-- What is pushed onto a valid and empty ring, and is shorter than its storage, is popped again
-- unchanged and in order.
pub pop_buf-push_buf :
    (p : RingBuffer) (xs : List ℕ)
    → IsValid p
    → contents p ≡ []
    → length xs < length p.buffer
    → (pop_buf (push_buf p xs).1 (length xs)).0 ≡ xs
pop_buf-push_buf p xs v e h =
    let (n, bytes, v') = push_buf_lem p xs v in
    let (out, _, _) = pop_buf_lem (length xs) (push_buf p xs).1 v' in
    out
    ∙ ap (take (length xs)) bytes
    ∙ ap (λ c. take (length xs) (c ++ take (room p) xs)) e
    ∙ ap (take (length xs)) (take_ge (room p) xs (omega (arith, ap (length {A = ℕ}) e)))
    ∙ take-length xs
