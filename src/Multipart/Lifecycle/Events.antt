-- ===== src/Multipart/Lifecycle/Events.antt =====
-- Which phases a transfer of src/osdp_multipart.c reports to the event callback, and how often.
use libosdp.Common.{
  ℕ, ◌+◌, ◌≤◌, ◌≡◌, Bool, true, false, List, [], ◌∷◌, ◌++◌, arith, ltb, if◌then◌else◌, u32,
}
use libosdp.Multipart.{Multipart, State, Phase, Progress, start, progress, progress_of, emit}
use libosdp.Multipart.Lifecycle.{emit_start, finish, set_wait, request_cancel, is_over}
use libosdp.Multipart.Tx.{tx_commit}
use libosdp.Multipart.Rx.{rx_commit}

abbrev pub is_phase : Phase → Phase → Bool
is_phase start start = true
is_phase progress progress = true
is_phase Phase.done Phase.done = true
is_phase _ _ = false

-- How often a phase was reported.
abbrev pub reports : Phase → List (Phase × Progress) → ℕ
reports p [] = 0
reports p ((q, _) ∷ es) = (if is_phase p q then 1 else 0) + reports p es

pub reports-append :
    (p q : Phase) (r : Progress) (es : List (Phase × Progress))
    → reports p (es ++ (q, r) ∷ []) ≡ reports p es + (if is_phase p q then 1 else 0)
reports-append p q r [] = omega arith
reports-append p q r ((a, b) ∷ es) = omega (arith, reports-append p q r es)

-- What a consumer calls while a transfer is live.
pub data Call : Type 0 where
  starts tx_commits rx_commits cancels : Call
  finishes : ℕ → Call
  waits : ℕ → ℕ → Call

module _ {S : Type 0} where
  pub call : Multipart S → Call → Multipart S
  call mp starts = emit_start mp
  call mp tx_commits = tx_commit mp
  call mp rx_commits = rx_commit mp
  call mp cancels = request_cancel mp
  call mp (finishes outcome) = finish mp outcome
  call mp (waits ms now) = set_wait mp ms now

  pub calls : Multipart S → List Call → Multipart S
  calls mp [] = mp
  calls mp (c ∷ cs) = calls (call mp c) cs

  -- START is reported at most once, and only once it is marked; DONE only by a finished transfer.
  pub record IsCounted (mp : Multipart S) : Type 0 where
    pub one_start : reports start mp.events ≤ (if mp.start_emitted then 1 else 0)
    pub one_done : reports Phase.done mp.events ≤ (if is_over mp.state then 1 else 0)

  emitted :
      (p q : Phase) (mp : Multipart S)
      → (reports p (emit mp q).events ≤ reports p mp.events + (if is_phase p q then 1 else 0))
        × ((emit mp q).start_emitted ≡ mp.start_emitted)
        × ((emit mp q).state ≡ mp.state)
  unfolding emit
  emitted p q mp = ground (arith, reports-append p q (progress_of mp) mp.events)

  call-IsCounted : (mp : Multipart S) (c : Call) → IsCounted mp → IsCounted (call mp c)
  unfolding call emit_start tx_commit rx_commit request_cancel finish set_wait
  call-IsCounted mp starts v =
      let mp' = record mp { start_emitted = true } in
      ground (arith, emitted start start mp', emitted Phase.done start mp')
  call-IsCounted mp tx_commits v =
      let mp' = record mp { offset = u32 (mp.offset + mp.last_len); last_len = 0 } in
      ground (arith, emitted start progress mp', emitted Phase.done progress mp')
  call-IsCounted mp rx_commits v =
      let end = u32 (mp.last_off + mp.last_len) in
      let mp' = record mp { offset = if ltb mp.offset end then end else mp.offset; last_len = 0 } in
      ground (arith, emitted start progress mp', emitted Phase.done progress mp')
  call-IsCounted mp cancels v = ground arith
  call-IsCounted mp (finishes outcome) v =
      let mp' = record mp { done_outcome = outcome; state = State.done } in
      ground (arith, emitted start Phase.done mp', emitted Phase.done Phase.done mp')
  call-IsCounted mp (waits ms now) v = ground arith

  -- From an engine that has reported neither START nor DONE, any sequence of START, commit, cancel,
  -- wait and finish calls reports each of the two at most once, DONE only if the transfer is over,
  -- and START only if it is marked as reported.
  pub calls-IsCounted :
      (mp : Multipart S) (cs : List Call)
      → reports start mp.events ≡ 0
      → reports Phase.done mp.events ≡ 0
      → IsCounted (calls mp cs)
  unfolding calls
  calls-IsCounted mp cs h k = run mp cs (record { one_start = omega arith; one_done = omega arith })
    where
      run : (mp : Multipart S) (cs : List Call) → IsCounted mp → IsCounted (calls mp cs)
      run mp [] v = v
      run mp (c ∷ cs) v = run (call mp c) cs (call-IsCounted mp c v)

-- A second finish changes nothing: the first outcome stays, and DONE is not reported again.
pub finish-finish :
    {S : Type 0} (mp : Multipart S) (first second : ℕ)
    → finish (finish mp first) second ≡ finish mp first
unfolding finish emit
finish-finish mp first second = ground arith
