-- ===== src/File/Lifetime/Receiving.antt =====
-- The receiving side of src/osdp_file.c keeps a file transfer consistent.
use libosdp.Common.{
  ℕ, ◌+◌, ◌-◌, ◌≡◌, refl, sym, ap, ◌∙◌, ℤ, Bool, Bool-cases, true, false, not, ◌&&◌, Option, none,
  some, List, arith, inl, inr, ltb, ◌==◌, if◌then◌else◌, if_both, drop,
}
use libosdp.Bytes.{byte_at}
use libosdp.Multipart.{
  Multipart, Phase, start, Rc, more, early_term, err, is_active, is_active_state, hdr_size, w32,
}
use libosdp.Multipart.Header.{HeaderFields, hdr_read}
use libosdp.Multipart.Lifecycle.{reset, set_identity}
use libosdp.Multipart.Lifecycle.Events.{reports}
use libosdp.Multipart.Rx.{rx_init, rx_consume, rx_commit}
use libosdp.File.{
  File, Plane, Verdict, aborted, app_of, with_app, opened_with, state_reset, transition_done,
  msg_file_transfer,
}
use libosdp.File.Status.{
  Stat, stat_size, status_ack, status_keep_alive, status_err_abort, status_err_invalid,
  wire_status_from_outcome,
}
use libosdp.File.Sender.{frame_header}
use libosdp.File.Receiver.{
  begin_receive, open_transfer, on_open, on_ask, ask_app, after_consume, consume, cmd_tx_decode,
  ask_finalize, on_verdict, ack_chunk, finish_chunk, stat_of, cmd_stat_build, finalize_timeout_ms,
  reply,
}
use libosdp.File.Lifetime.{is_live, IsConsistent}
use libosdp.File.Lifetime.Engine.{
  SameLife, IsPaired, same_life, SameLife-IsPaired, emit_start-lem, rx_commit-SameLife,
  rx_consume-SameLife, rx_init-lem,
}
use libosdp.File.Lifetime.Sending.{engine-IsConsistent, ended}

module _ {A : Type 0} where
  pub idle_balance :
      (f : File A)
      → is_live f ≡ false
      → IsConsistent f
      → reports start f.mp.events ≡ reports Phase.done f.mp.events
  idle_balance f d v = let b = v.paired.balance in ground (arith, d, b)

  -- What is left of the file when a new transfer starts with the file that was just opened.
  pub reopened :
      (f : File A) (a : A)
      → is_live f ≡ false
      → IsConsistent f
      → IsPaired (state_reset (opened_with f a)).mp
        × (is_live (state_reset (opened_with f a)) ≡ false)
        × (f.opens ≡ f.closes)
  unfolding state_reset reset
  reopened f a d v =
      let b = v.balanced in
      let h = v.handle in
      (
        record { listening = refl; balance = omega (arith, idle_balance f d v) },
        refl,
        ground (arith, b, h, d),
      )

  begin_receive-IsConsistent :
      (f : File A) (a : A) (id total : ℕ)
      → is_live f ≡ false
      → IsConsistent f
      → let g = begin_receive (opened_with f a) id total in IsConsistent g × (is_live g ≡ true)
  unfolding begin_receive state_reset
  begin_receive-IsConsistent f a id total d v =
      let (paired, dead, shut) = reopened f a d v in
      let clean = state_reset (opened_with f a) in
      let (p, l) = rx_init-lem clean.mp msg_file_transfer id total w32 dead paired in
      let (p1, s1, d1, m1) =
        emit_start-lem (rx_init (set_identity clean.mp msg_file_transfer id) w32 total) l p in
      let l1 = ap is_active_state s1 ∙ l in
      (
        record {
          handle = sym l1;
          paired = p1;
          settled = refl;
          balanced = ap (λ (n : ℕ). n + 1) shut;
        },
        l1,
      )

  after_consume-IsConsistent :
      (f : File A) (opened_now : Bool) (out : Rc × Multipart (Plane A))
      → SameLife f.mp out.1
      → is_live f ≡ true
      → IsConsistent f
      → IsConsistent (after_consume f opened_now out).1
  unfolding after_consume
  after_consume-IsConsistent f opened_now (more, mp) s a v = engine-IsConsistent f _ s refl refl v
  after_consume-IsConsistent f opened_now (early_term, mp) s a v =
      engine-IsConsistent f _ s refl refl v
  after_consume-IsConsistent f opened_now (Rc.done, mp) s a v =
      engine-IsConsistent f _ s refl refl v
  after_consume-IsConsistent f opened_now (Rc.retry, mp) s a v =
      engine-IsConsistent f _ s refl refl v
  after_consume-IsConsistent f opened_now (err, mp) s a v =
      let failed : File A = record f { mp = mp } in
      let counted : File A = record failed { errors = f.errors + 1 } in
      if_both (λ (r : Bool × File A). IsConsistent r.1) mp.arg.write_failed (true, failed)
        (false, (if opened_now then transition_done counted aborted else counted))
        (engine-IsConsistent f failed s refl refl v)
        (if_both IsConsistent opened_now (transition_done counted aborted) counted
          (ended counted aborted (s.live ∙ a) (SameLife-IsPaired f.mp mp s v.paired) v.balanced)
          (engine-IsConsistent f counted s refl refl v))

  pub with_app-IsConsistent : (f : File A) (a : A) → IsConsistent f → IsConsistent (with_app f a)
  with_app-IsConsistent f a v = record {
    handle = v.handle;
    paired = record { listening = v.paired.listening; balance = v.paired.balance };
    settled = v.settled;
    balanced = v.balanced;
  }

  -- A first frame leaves the file as it was, or open for a transfer that is live.
  Opened : Bool × File A → Type 0
  Opened r = IsConsistent r.1 × (r.0 ≡ true → is_live r.1 ≡ true)

  refused : (f : File A) → IsConsistent f → Opened (false, f)
  unfolding Opened
  refused f v = (v, λ e. absurd (ground (arith, e)))

  opened : (f : File A) → IsConsistent f → is_live f ≡ true → Opened (true, f)
  unfolding Opened
  opened f v l = (v, λ e. l)

  on_open-Opened :
      (f : File A) (id total : ℕ) (r : Option ℕ × A)
      → is_live f ≡ false
      → IsConsistent f
      → Opened (on_open f id total r)
  on_open-Opened f id total (none, a) d v = refused (with_app f a) (with_app-IsConsistent f a v)
  on_open-Opened f id total (some size, a) d v =
      let (x, l) = begin_receive-IsConsistent f a id total d v in
      opened (begin_receive (opened_with f a) id total) x l

  on_ask-Opened :
      (f : File A) (id total : ℕ) (r : Bool × A)
      → is_live f ≡ false
      → IsConsistent f
      → Opened (on_ask f id total r)
  on_ask-Opened f id total (false, a) d v = refused (with_app f a) (with_app-IsConsistent f a v)
  on_ask-Opened f id total (true, a) d v =
      on_open-Opened f id total (f.ops.open_file a id total) d v

  open_transfer-Opened :
      (f : File A) (buf : List ℕ) (len : ℕ) (o : Option (HeaderFields × ℕ))
      → is_live f ≡ false
      → IsConsistent f
      → Opened (open_transfer f buf len o)
  unfolding open_transfer
  open_transfer-Opened f buf len none d v = refused f v
  open_transfer-Opened f buf len (some (h, pos')) d v =
      if_both Opened (ltb (len - 1 - hdr_size w32) h.data_len) (false, f) _ (refused f v)
        (on_ask-Opened f (byte_at buf 0) h.total
          (ask_app f.command_callback (app_of f) f.flags (byte_at buf 0)) d v)

  consume-IsConsistent :
      (opened_now : Bool) (r : Bool × File A) (buf : List ℕ) (len : ℕ)
      → Opened r
      → IsConsistent (consume opened_now r buf len).1
  unfolding consume Opened
  consume-IsConsistent opened_now (false, f) buf len v = v.0
  consume-IsConsistent opened_now (true, f) buf len v =
      after_consume-IsConsistent f opened_now (rx_consume f.mp (drop 1 buf) (len - 1))
        (rx_consume-SameLife f.mp (drop 1 buf) (len - 1)) (v.1 refl) v.0

  pub tx_decode-IsConsistent :
      (f : File A) (buf : List ℕ) (len : ℕ)
      → IsConsistent f
      → IsConsistent (cmd_tx_decode f buf len).1
  unfolding cmd_tx_decode is_active
  tx_decode-IsConsistent f buf len v = elim (Bool-cases (ltb len frame_header)) [
    | inl k ↦ rw k v
    | inr k ↦ elim (Bool-cases (is_live f)) [
      | inl l ↦ rw (k, l) (consume-IsConsistent false (true, f) buf len (opened f v l))
      | inr l ↦
          rw (k, l)
            (consume-IsConsistent true _ buf len
              (open_transfer-Opened f buf len (hdr_read w32 (drop 1 buf) (len - 1)) l v))
    ]
  ]

  -- The verdict ends the transfer, or leaves it as it is.
  on_verdict-IsConsistent :
      (f : File A) (v : Verdict) (now : ℕ)
      → is_live f ≡ true
      → IsConsistent f
      → IsConsistent (on_verdict f v now).1
  unfolding on_verdict
  on_verdict-IsConsistent f v now a w =
      let since = if f.finalize_tstamp == 0 then now else f.finalize_tstamp in
      let outcome = if v.ready then v.outcome else aborted in
      let stamped : File A = if v.ready then f else record f { finalize_tstamp = since } in
      let live : is_live stamped ≡ true =
        if_both (λ (g : File A). is_live g ≡ true) v.ready f (record f { finalize_tstamp = since })
          a a in
      let kept : IsConsistent stamped =
        if_both IsConsistent v.ready f (record f { finalize_tstamp = since }) w
          (engine-IsConsistent f (record f { finalize_tstamp = since }) (same_life f.mp) refl refl
            w) in
      if_both (λ (r : Stat × File A). IsConsistent r.1)
        (not v.ready && ltb (now - since) finalize_timeout_ms)
        (reply status_keep_alive v.delay, stamped)
        (reply (wire_status_from_outcome outcome) 0, transition_done stamped outcome) kept
        (ended stamped outcome live kept.paired kept.balanced)

  ack_chunk-SameLife : (f : File A) → SameLife f.mp (ack_chunk f).1.mp
  unfolding ack_chunk
  ack_chunk-SameLife f =
      if_both (λ (r : ℤ × File A). SameLife f.mp r.1.mp) f.keep_alive_pending
        (status_ack, record f { keep_alive_pending = false }) _ (same_life f.mp)
        (if_both (λ (r : ℤ × File A). SameLife f.mp r.1.mp) (ltb 0 f.mp.last_len)
          (status_ack, record f { mp = rx_commit f.mp }) (status_err_invalid, f)
          (rx_commit-SameLife f.mp) (same_life f.mp))

  ack_chunk-IsConsistent : (f : File A) → IsConsistent f → IsConsistent (ack_chunk f).1
  unfolding ack_chunk
  ack_chunk-IsConsistent f v =
      if_both (λ (r : ℤ × File A). IsConsistent r.1) f.keep_alive_pending
        (status_ack, record f { keep_alive_pending = false }) _
        (engine-IsConsistent f (record f { keep_alive_pending = false }) (same_life f.mp) refl refl
          v)
        (if_both (λ (r : ℤ × File A). IsConsistent r.1) (ltb 0 f.mp.last_len)
          (status_ack, record f { mp = rx_commit f.mp }) (status_err_invalid, f)
          (engine-IsConsistent f (record f { mp = rx_commit f.mp }) (rx_commit-SameLife f.mp) refl
            refl v)
          v)

  finish_chunk-IsConsistent :
      (r : ℤ × File A) (now : ℕ)
      → is_live r.1 ≡ true
      → IsConsistent r.1
      → IsConsistent (finish_chunk r now).1
  unfolding finish_chunk
  finish_chunk-IsConsistent (status, f) now a v =
      let (d, b) = ask_finalize f.ops.finalize (app_of f) in
      if_both (λ (r : Stat × File A). IsConsistent r.1)
        (f.mp.offset == f.mp.total && not (f.mp.total == 0)) (on_verdict (with_app f b) d now)
        (reply status 0, f)
        (on_verdict-IsConsistent (with_app f b) d now a (with_app-IsConsistent f b v)) v

  pub stat_build-IsConsistent :
      (f : File A) (buf : List ℕ) (max_len now : ℕ)
      → IsConsistent f
      → IsConsistent (cmd_stat_build f buf max_len now).2
  unfolding cmd_stat_build stat_of is_active
  stat_build-IsConsistent f buf max_len now v = elim (Bool-cases (is_live f)) [
    | inr k ↦ rw k v
    | inl k ↦ elim (Bool-cases (ltb max_len stat_size)) [
      | inl l ↦ rw (k, l) v
      | inr l ↦
          let s = ack_chunk-SameLife f in
          rw (k, l)
            (if_both (λ (r : Stat × File A). IsConsistent r.1) f.mp.arg.write_failed
              (reply status_err_abort 0, transition_done f aborted) (finish_chunk (ack_chunk f) now)
              (ended f aborted k v.paired v.balanced)
              (finish_chunk-IsConsistent (ack_chunk f) now (s.live ∙ k)
                (ack_chunk-IsConsistent f v)))
    ]
  ]
