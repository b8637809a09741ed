-- ===== src/File/Lifetime/Engine.antt =====
-- What each operation of the multi-part engine does to the life of a transfer: whether it is live, and
-- how often its start and its end were reported.
use libosdp.Common.{
  ℕ, ◌+◌, ◌-◌, ◌≡◌, slice, refl, sym, ◌∙◌, true, false, ◌&&◌, Option, none, some, List, [], ◌∷◌,
  arith, ltb, ◌==◌, if◌then◌else◌, u32,
}
use libosdp.Multipart.{
  Multipart, State, inprog, Width, hdr_size, sub_u32, Phase, start, progress, progress_of, emit,
  is_active_state,
}
use libosdp.Multipart.Header.{HeaderFields, hdr_read}
use libosdp.Multipart.Lifecycle.{emit_start, finish, set_wait, park, request_cancel, set_identity}
use libosdp.Multipart.Lifecycle.Events.{reports, reports-append, is_phase}
use libosdp.Multipart.Tx.{tx_init, tx_build, tx_build_ex, frame_read, tx_build_idle, tx_commit}
use libosdp.Multipart.Rx.{
  rx_init, rx_consume, rx_consume_ex, rx_commit, consume_header, check_frame, store, accept,
  rx_skip,
}

module _ {S : Type 0} where
  -- The two engines are live together, and were reported as often.
  pub record SameLife (mp mp' : Multipart S) : Type 0 where
    pub live : is_active_state mp'.state ≡ is_active_state mp.state
    pub marked : mp'.start_emitted ≡ mp.start_emitted
    pub listens : mp'.has_event_cb ≡ mp.has_event_cb
    pub starts : reports start mp'.events ≡ reports start mp.events
    pub dones : reports Phase.done mp'.events ≡ reports Phase.done mp.events

  pub same_life : (mp : Multipart S) → SameLife mp mp
  same_life mp = record { live = refl; marked = refl; listens = refl; starts = refl; dones = refl }

  pub emit_progress-SameLife : (mp : Multipart S) → SameLife mp (emit mp progress)
  unfolding emit
  emit_progress-SameLife mp = record {
    live = ground arith;
    marked = ground arith;
    listens = ground arith;
    starts = ground (arith, reports-append start progress (progress_of mp) mp.events);
    dones = ground (arith, reports-append Phase.done progress (progress_of mp) mp.events);
  }

  pub tx_commit-SameLife : (mp : Multipart S) → SameLife mp (tx_commit mp)
  unfolding tx_commit
  tx_commit-SameLife mp =
      let mp' = record mp { offset = u32 (mp.offset + mp.last_len); last_len = 0 } in
      let s = emit_progress-SameLife mp' in
      record {
        live = ground (arith, s.live);
        marked = ground (arith, s.marked);
        listens = ground (arith, s.listens);
        starts = ground (arith, s.starts);
        dones = ground (arith, s.dones);
      }

  pub rx_commit-SameLife : (mp : Multipart S) → SameLife mp (rx_commit mp)
  unfolding rx_commit
  rx_commit-SameLife mp =
      let end = u32 (mp.last_off + mp.last_len) in
      let mp' = record mp { offset = if ltb mp.offset end then end else mp.offset; last_len = 0 } in
      let s = emit_progress-SameLife mp' in
      record {
        live = ground (arith, s.live);
        marked = ground (arith, s.marked);
        listens = ground (arith, s.listens);
        starts = ground (arith, s.starts);
        dones = ground (arith, s.dones);
      }

  frame_read-SameLife :
      (mp : Multipart S) (buf : List ℕ) (hdr skip : ℕ) (pfx : List ℕ) (o : Option (List ℕ))
      → is_active_state mp.state ≡ true
      → SameLife mp (frame_read mp buf hdr skip pfx o).2
  unfolding frame_read
  frame_read-SameLife mp buf hdr skip pfx none h = same_life mp
  frame_read-SameLife mp buf hdr skip pfx (some []) h = ground (arith, h)
  frame_read-SameLife mp buf hdr skip pfx (some (x ∷ xs)) h = ground (arith, h)

  pub tx_build-SameLife :
      (mp : Multipart S) (buf : List ℕ) (max_len : ℕ)
      → is_active_state mp.state ≡ true
      → SameLife mp (tx_build mp buf max_len).2
  unfolding tx_build tx_build_ex
  tx_build-SameLife mp buf max_len h =
      let avail = max_len - hdr_size mp.width - (if mp.offset == 0 then 0 else 0) in
      let remaining = sub_u32 mp.total mp.offset in
      let size = if ltb remaining avail then remaining else avail in
      let (bytes, arg') = mp.ops.read mp.arg size mp.offset in
      let s =
        frame_read-SameLife (record mp { arg = arg' }) buf (hdr_size mp.width)
          (if mp.offset == 0 then 0 else 0) [] bytes h in
      record {
        live = ground (arith, s.live);
        marked = ground (arith, s.marked);
        listens = ground (arith, s.listens);
        starts = ground (arith, s.starts);
        dones = ground (arith, s.dones);
      }

  store-SameLife :
      (mp : Multipart S) (cur_total off : ℕ) (chunk : List ℕ)
      → SameLife mp (store mp cur_total off chunk).1
  unfolding store accept
  store-SameLife mp cur_total off chunk = record {
    live = ground arith;
    marked = ground arith;
    listens = ground arith;
    starts = ground arith;
    dones = ground arith;
  }

  accept-SameLife :
      (mp : Multipart S) (cur_total off dlen : ℕ) → SameLife mp (accept mp cur_total off dlen).1
  unfolding accept
  accept-SameLife mp cur_total off dlen = record {
    live = refl;
    marked = refl;
    listens = refl;
    starts = refl;
    dones = refl;
  }

  check_frame-SameLife :
      (mp : Multipart S) (h : HeaderFields) (chunk : List ℕ)
      → SameLife mp (check_frame mp h chunk).1
  unfolding check_frame
  check_frame-SameLife mp h chunk =
      let unfixed = mp.offset == 0 && mp.last_len == 0 && mp.total == 0 in
      let cur_total = if unfixed then h.total else mp.total in
      let s = store-SameLife mp cur_total h.offset chunk in
      let a = accept-SameLife mp cur_total h.offset 0 in
      record {
        live = ground (arith, s.live, a.live);
        marked = ground (arith, s.marked, a.marked);
        listens = ground (arith, s.listens, a.listens);
        starts = ground (arith, s.starts, a.starts);
        dones = ground (arith, s.dones, a.dones);
      }

  consume_header-SameLife :
      (mp : Multipart S) (buf : List ℕ) (len pfx_len : ℕ) (o : Option (HeaderFields × ℕ))
      → SameLife mp (consume_header mp buf len pfx_len o).2
  unfolding consume_header
  consume_header-SameLife mp buf len pfx_len none = same_life mp
  consume_header-SameLife mp buf len pfx_len (some (h, pos')) =
      let s =
        check_frame-SameLife mp h
          (slice buf (hdr_size mp.width + rx_skip h.offset pfx_len) h.data_len) in
      record {
        live = ground (arith, s.live);
        marked = ground (arith, s.marked);
        listens = ground (arith, s.listens);
        starts = ground (arith, s.starts);
        dones = ground (arith, s.dones);
      }

  pub tx_build_idle-SameLife :
      (mp : Multipart S) (buf : List ℕ) → SameLife mp (tx_build_idle mp buf).2
  unfolding tx_build_idle
  tx_build_idle-SameLife mp buf = record {
    live = refl;
    marked = refl;
    listens = refl;
    starts = refl;
    dones = refl;
  }

  pub set_wait-SameLife : (mp : Multipart S) (ms now : ℕ) → SameLife mp (set_wait mp ms now)
  unfolding set_wait
  set_wait-SameLife mp ms now = record {
    live = refl;
    marked = refl;
    listens = refl;
    starts = refl;
    dones = refl;
  }

  pub request_cancel-SameLife : (mp : Multipart S) → SameLife mp (request_cancel mp)
  unfolding request_cancel
  request_cancel-SameLife mp = record {
    live = refl;
    marked = refl;
    listens = refl;
    starts = refl;
    dones = refl;
  }

  pub park-SameLife : (mp : Multipart S) → is_active_state mp.state ≡ true → SameLife mp (park mp)
  unfolding park
  park-SameLife mp a = record {
    live = sym a;
    marked = refl;
    listens = refl;
    starts = refl;
    dones = refl;
  }

  pub SameLife-trans : (a b d : Multipart S) → SameLife a b → SameLife b d → SameLife a d
  SameLife-trans a b d s t = record {
    live = t.live ∙ s.live;
    marked = t.marked ∙ s.marked;
    listens = t.listens ∙ s.listens;
    starts = t.starts ∙ s.starts;
    dones = t.dones ∙ s.dones;
  }

  pub rx_consume-SameLife :
      (mp : Multipart S) (buf : List ℕ) (len : ℕ) → SameLife mp (rx_consume mp buf len).1
  unfolding rx_consume rx_consume_ex
  rx_consume-SameLife mp buf len = consume_header-SameLife mp buf len 0 (hdr_read mp.width buf len)

  reports-emit :
      (mp : Multipart S) (p q : Phase)
      → mp.has_event_cb ≡ true
      → reports p (emit mp q).events ≡ reports p mp.events + (if is_phase p q then 1 else 0)
  unfolding emit
  reports-emit mp p q h = ground (arith, h, reports-append p q (progress_of mp) mp.events)

  emit-kept :
      (mp : Multipart S) (q : Phase)
      → ((emit mp q).state ≡ mp.state)
        × ((emit mp q).start_emitted ≡ mp.start_emitted)
        × ((emit mp q).has_event_cb ≡ mp.has_event_cb)
  unfolding emit
  emit-kept mp q = ground arith

  -- The start and the end of a transfer are reported in pairs; a live one may lack its end.
  pub record IsPaired (mp : Multipart S) : Type 0 where
    pub listening : mp.has_event_cb ≡ true
    pub balance :
        reports start mp.events
        ≡ reports Phase.done mp.events
          + (if is_active_state mp.state && mp.start_emitted then 1 else 0)

  pub SameLife-IsPaired : (mp mp' : Multipart S) → SameLife mp mp' → IsPaired mp → IsPaired mp'
  SameLife-IsPaired mp mp' s v = record {
    listening = s.listens ∙ v.listening;
    balance = ground (arith, s.live, s.marked, s.starts, s.dones, v.balance);
  }

  -- Starting a live transfer, once or again.
  pub emit_start-lem :
      (mp : Multipart S)
      → is_active_state mp.state ≡ true
      → IsPaired mp
      → IsPaired (emit_start mp)
        × ((emit_start mp).state ≡ mp.state)
        × (reports Phase.done (emit_start mp).events ≡ reports Phase.done mp.events)
        × ((emit_start mp).start_emitted ≡ true)
  unfolding emit_start
  emit_start-lem mp a v =
      let mp' = record mp { start_emitted = true } in
      let k = emit-kept mp' start in
      let l = v.listening in
      let s = reports-emit mp' start start l in
      let d = reports-emit mp' Phase.done start l in
      (
        record {
          listening = ground (arith, k, v.listening);
          balance = ground (arith, k, s, d, a, v.balance);
        },
        ground (arith, k),
        ground (arith, d),
        ground (arith, k),
      )

  -- Finishing a live transfer reports its end, and its start is reported as often.
  pub finish-lem :
      (mp : Multipart S) (outcome : ℕ)
      → is_active_state mp.state ≡ true
      → IsPaired mp
      → mp.start_emitted ≡ true
      → ((finish mp outcome).has_event_cb ≡ true)
        × (reports start (finish mp outcome).events ≡ reports Phase.done (finish mp outcome).events)
        × (reports Phase.done (finish mp outcome).events ≡ reports Phase.done mp.events + 1)
  unfolding finish
  finish-lem mp outcome a v m =
      let mp' = record mp { done_outcome = outcome; state = State.done } in
      let k = emit-kept mp' Phase.done in
      let l = v.listening in
      let s = reports-emit mp' start Phase.done l in
      let d = reports-emit mp' Phase.done Phase.done l in
      (
        ground (arith, k, a, v.listening),
        ground (arith, s, d, a, m, v.balance),
        ground (arith, d, a),
      )

  -- A receiver that is set up is live, and its start is not reported yet.
  pub rx_init-lem :
      (mp : Multipart S) (msg_type id total : ℕ) (w : Width)
      → is_active_state mp.state ≡ false
      → IsPaired mp
      → let mp' = rx_init (set_identity mp msg_type id) w total in
        IsPaired mp' × (is_active_state mp'.state ≡ true)
  unfolding rx_init set_identity
  rx_init-lem mp msg_type id total w d v =
      (record { listening = v.listening; balance = ground (arith, d, v.balance) }, refl)

  -- So is a sender, where the transfer is not empty.
  pub tx_init-lem :
      (mp : Multipart S) (msg_type id total : ℕ) (w : Width)
      → is_active_state mp.state ≡ false
      → IsPaired mp
      → (total == 0) ≡ false
      → (mp' : Multipart S) × (tx_init (set_identity mp msg_type id) total w ≡ some mp')
        × IsPaired mp'
        × (is_active_state mp'.state ≡ true)
  unfolding tx_init set_identity
  tx_init-lem mp msg_type id total w d v e = (
    record mp {
      msg_type = msg_type;
      object_id = id;
      width = w;
      total = total;
      offset = 0;
      last_len = 0;
      start_emitted = false;
      state = inprog;
    },
    rw e,
    record { listening = v.listening; balance = ground (arith, d, v.balance) },
    refl,
  )
