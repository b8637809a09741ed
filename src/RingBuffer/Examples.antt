-- ===== src/RingBuffer/Examples.antt =====
-- Concrete runs of src/osdp_common.c's ring buffer, on a ring whose contents go round the end of
-- its storage.
use libosdp.Common.{◌≡◌, refl, [], ◌∷◌, arith}
use libosdp.RingBuffer.{RingBuffer, push, push_buf, pop, pop_buf}
use libosdp.RingBuffer.Invariant.{IsValid}
use libosdp.RingBuffer.Refine.{contents, enqueue, dequeue, push_refines, pop_refines}
use libosdp.RingBuffer.Bulk.{pop_buf-push_buf}

-- 8, then 9, round the end of four bytes of storage.
abbrev wrapped : RingBuffer
wrapped = record { head = 1; tail = 3; buffer = 9 ∷ 0 ∷ 0 ∷ 8 ∷ [] }

abbrev drained : RingBuffer
drained = record { head = 2; tail = 2; buffer = 9 ∷ 0 ∷ 0 ∷ 8 ∷ [] }

wrapped-IsValid : IsValid wrapped
wrapped-IsValid = omega arith

contents-wrapped : contents wrapped ≡ 8 ∷ 9 ∷ []
contents-wrapped = refl

push_then_full : (push_buf wrapped (1 ∷ 2 ∷ 3 ∷ [])).0 ≡ 1
unfolding push_buf push
push_then_full = refl

push_refines_example :
    let (done, p') = push wrapped 5 in (done, contents p') ≡ enqueue 3 (contents wrapped) 5
push_refines_example = push_refines wrapped 5 wrapped-IsValid

pop_refines_example :
    let (byte, p') = pop wrapped in (byte, contents p') ≡ dequeue (contents wrapped)
pop_refines_example = pop_refines wrapped wrapped-IsValid

pop_buf-push_buf_example : (pop_buf (push_buf drained (1 ∷ 2 ∷ 3 ∷ [])).1 3).0 ≡ 1 ∷ 2 ∷ 3 ∷ []
pop_buf-push_buf_example =
    pop_buf-push_buf drained (1 ∷ 2 ∷ 3 ∷ []) (omega arith) refl (omega arith)
