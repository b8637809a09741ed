-- ===== src/File/Lifetime/Runs.antt =====
-- Any sequence of the operations of src/osdp_file.c keeps a file transfer consistent.
use libosdp.Common.{
  ℕ, ◌+◌, ◌≡◌, refl, sym, ap, ◌∙◌, Bool, Bool-cases, true, false, ◌||◌, Option, none, some, List,
  [], arith, inl, inr, ltb, ◌==◌, if_both,
}
use libosdp.Multipart.{Phase, start, is_active, is_active_state, w32}
use libosdp.Multipart.Lifecycle.{emit_start, request_cancel, tx_next, cancel_requested}
use libosdp.Multipart.Lifecycle.Events.{reports}
use libosdp.File.{
  File, aborted, app_of, opened_with, closed_with, state_reset, transition_done, msg_file_transfer,
}
use libosdp.File.Sender.{cmd_tx_build, cmd_stat_decode}
use libosdp.File.Receiver.{cmd_tx_decode, cmd_stat_build}
use libosdp.File.Control.{
  Next, send, next_of, cmd_abort, tx_request_cancel, tx_abort, tx_get_command, tx_command,
  begin_send, on_opened, error_retry_max,
}
use libosdp.File.Lifetime.{is_live, IsConsistent, state_reset-IsConsistent}
use libosdp.File.Lifetime.Engine.{emit_start-lem, request_cancel-SameLife, tx_init-lem}
use libosdp.File.Lifetime.Sending.{
  engine-IsConsistent, ended, tx_build-IsConsistent, stat_decode-IsConsistent,
}
use libosdp.File.Lifetime.Receiving.{
  reopened, with_app-IsConsistent, tx_decode-IsConsistent, stat_build-IsConsistent,
}

module _ {A : Type 0} where
  cancel-IsConsistent : (f : File A) → IsConsistent f → IsConsistent (tx_request_cancel f).1
  unfolding tx_request_cancel
  cancel-IsConsistent f v =
      if_both (λ (r : Bool × File A). IsConsistent r.1) (is_active f.mp)
        (true, record f { mp = request_cancel f.mp }) (false, f)
        (engine-IsConsistent f (record f { mp = request_cancel f.mp })
          (request_cancel-SameLife f.mp) refl refl v)
        v

  abort-IsConsistent : (f : File A) → IsConsistent f → IsConsistent (tx_abort f)
  unfolding tx_abort is_active
  abort-IsConsistent f v = elim (Bool-cases (is_live f)) [
    | inl k ↦ rw k (ended f aborted k v.paired v.balanced)
    | inr k ↦ rw k v
  ]

  started-IsConsistent :
      (f : File A)
      → is_live f ≡ true
      → IsConsistent f
      → IsConsistent (record f { mp = emit_start f.mp })
        × (is_active_state (emit_start f.mp).state ≡ true)
  started-IsConsistent f a v =
      let (p, s, d, m) = emit_start-lem f.mp a v.paired in
      let same = ap is_active_state s in
      (
        record {
          handle = v.handle ∙ sym same;
          paired = p;
          settled = v.settled;
          balanced = v.balanced;
        },
        same ∙ a,
      )

  get_command-IsConsistent :
      (f : File A) (now : ℕ) → IsConsistent f → IsConsistent (tx_get_command f now).1
  unfolding tx_get_command is_active
  get_command-IsConsistent f now v = elim (Bool-cases (is_live f)) [
    | inr k ↦ rw k v
    | inl k ↦
        let (w, l) = started-IsConsistent f k v in
        let started : File A = record f { mp = emit_start f.mp } in
        rw k (
          if_both (λ (r : Next × File A). IsConsistent r.1)
            (ltb error_retry_max f.errors || cancel_requested f.mp)
            (send cmd_abort, transition_done started aborted)
            (next_of f.flags (tx_next started.mp now), started)
            (ended started aborted l w.paired w.balanced) w)
  ]

  begin_send-IsConsistent :
      (f : File A) (a : A) (id flags' size : ℕ)
      → is_live f ≡ false
      → (size == 0) ≡ false
      → IsConsistent f
      → IsConsistent (begin_send (opened_with f a) id flags' size)
  unfolding begin_send state_reset
  begin_send-IsConsistent f a id flags' size d e v =
      let (paired, dead, shut) = reopened f a d v in
      let clean = state_reset (opened_with f a) in
      let (mp', set, p, l) = tx_init-lem clean.mp msg_file_transfer id size w32 dead paired e in
      rw set (record {
        handle = sym l;
        paired = p;
        settled = refl;
        balanced = ap (λ (n : ℕ). n + 1) shut;
      })

  -- An empty file: its open is followed by its close at once.
  closed_again :
      (f : File A) (a : A) → IsConsistent f → IsConsistent (closed_with (opened_with f a))
  closed_again f a v =
      let b = v.balanced in
      record {
        handle = v.handle;
        paired = record { listening = v.paired.listening; balance = v.paired.balance };
        settled = v.settled;
        balanced = ground (arith, b);
      }

  on_opened-IsConsistent :
      (f : File A) (id flags' : ℕ) (r : Option ℕ × A)
      → is_live f ≡ false
      → IsConsistent f
      → IsConsistent (on_opened f id flags' r).1
  unfolding on_opened
  on_opened-IsConsistent f id flags' (none, a) d v = with_app-IsConsistent f a v
  on_opened-IsConsistent f id flags' (some size, a) d v = elim (Bool-cases (size == 0)) [
    | inl k ↦ rw k (closed_again f a v)
    | inr k ↦ rw k (begin_send-IsConsistent f a id flags' size d k v)
  ]

  command-IsConsistent :
      (f : File A) (engine_busy : Bool) (id flags' : ℕ)
      → IsConsistent f
      → IsConsistent (tx_command f engine_busy id flags').1
  unfolding tx_command is_active
  command-IsConsistent f engine_busy id flags' v =
      elim (Bool-cases (f.in_terminal || (is_live f || engine_busy))) [
        | inl k ↦ rw k v
        | inr k ↦ rw k (
            on_opened-IsConsistent f id flags' (f.ops.open_file (app_of f) id 0)
              (not_live f.in_terminal (is_live f) engine_busy k) v)
      ]
    where
      not_live : (a b d : Bool) → (a || (b || d)) ≡ false → b ≡ false
      not_live a b d k = ground (arith, k)

  -- One call of the module, with any arguments.
  pub data Step (f : File A) : File A → Type 0 where
    builds : (buf : List ℕ) (max_len : ℕ) → is_live f ≡ true → Step f (cmd_tx_build f buf max_len).2
    acks : (buf : List ℕ) (len now : ℕ) → Step f (cmd_stat_decode f buf len now).1
    receives : (buf : List ℕ) (len : ℕ) → Step f (cmd_tx_decode f buf len).1
    replies : (buf : List ℕ) (max_len now : ℕ) → Step f (cmd_stat_build f buf max_len now).2
    cancels : Step f (tx_request_cancel f).1
    aborts : Step f (tx_abort f)
    schedules : (now : ℕ) → Step f (tx_get_command f now).1
    starts : (engine_busy : Bool) (id flags' : ℕ) → Step f (tx_command f engine_busy id flags').1

  Step-IsConsistent : {f g : File A} → Step f g → IsConsistent f → IsConsistent g
  Step-IsConsistent {f} (builds buf max_len a) v = tx_build-IsConsistent f buf max_len a v
  Step-IsConsistent {f} (acks buf len now) v = stat_decode-IsConsistent f buf len now v
  Step-IsConsistent {f} (receives buf len) v = tx_decode-IsConsistent f buf len v
  Step-IsConsistent {f} (replies buf max_len now) v = stat_build-IsConsistent f buf max_len now v
  Step-IsConsistent {f} cancels v = cancel-IsConsistent f v
  Step-IsConsistent {f} aborts v = abort-IsConsistent f v
  Step-IsConsistent {f} (schedules now) v = get_command-IsConsistent f now v
  Step-IsConsistent {f} (starts engine_busy id flags') v =
      command-IsConsistent f engine_busy id flags' v

  pub data Reach (f : File A) : File A → Type 0 where
    here : Reach f f
    next : {g h : File A} → Reach f g → Step g h → Reach f h

  -- From a file whose operations were just registered, on an engine that reported nothing yet, any
  -- sequence of calls, in either role and with any answers of the application, leaves the file open
  -- exactly while a transfer is live. The application's close was called once for each of its opens that
  -- succeeded, but for the file that is open: no file is left open, and none is closed twice. And as many
  -- starts as ends were reported, one more start while a transfer that was reported to start is live.
  pub Reach-IsConsistent :
      (f g : File A)
      → f.mp.events ≡ []
      → f.opens ≡ f.closes
      → Reach (state_reset f) g
      → IsConsistent g
  Reach-IsConsistent f g e o here = fresh f e o
    where
      fresh : (f : File A) → f.mp.events ≡ [] → f.opens ≡ f.closes → IsConsistent (state_reset f)
      fresh f e o =
          let r =
            state_reset-IsConsistent f (ap (reports start) e ∙ sym (ap (reports Phase.done) e)) o in
          r.0
  Reach-IsConsistent f g e o (next {g = h} r s) = Step-IsConsistent s (Reach-IsConsistent f h e o r)
