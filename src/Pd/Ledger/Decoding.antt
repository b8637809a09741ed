-- ===== src/Pd/Ledger/Decoding.antt =====
-- What a command does to the events of a PD (src/osdp_pd.c: pd_decode_command): the head of the queue can become the
-- reply, and the application can submit more.
use libosdp.Common.{
  ℕ, ◌≡◌, refl, ap₂, ◌++◌, ◌∙◌, Bool, true, false, not, ◌||◌, Option, none, some, List, [], ◌∷◌,
  if_both, ◌==◌,
}
use libosdp.Device.{Device, sc_is_active}
use libosdp.Cp.{Command, comset, keyset}
use libosdp.Pd.Event.{Event, is_reply_to}
use libosdp.Pd.Peripheral.{Peripheral, App, Call, given, command_callback}
use libosdp.Pd.Dispatch.{
  PdErr, pd_err_wait, pd_err_generic, pd_err_ignore, pd_err_no_data, capable, cmd_cap_ok,
  if_capable, acked, take_event, take_if, take_inline_reply, or_ack, take_polled, run_record,
  run_records, after_records, if_taken, to_app, with_reply, on_display, on_comset, on_bioread,
  on_keyset, new_key, with_key, on_command, item_of,
}
use libosdp.Pd.Ledger.{IsAccounted, Keeps, waiting, events_of, command_callback-Keeping}

-- The results with which a pass ends at once.
abbrev pub is_quiet : PdErr → Bool
is_quiet pd_err_ignore = true
is_quiet pd_err_no_data = true
is_quiet pd_err_wait = true
is_quiet _ = false

-- No event is on its way out.
pub record IsIdle {E : Type 0} (p : Peripheral E) : Type 0 where
  pub events : IsAccounted p
  pub none_active : p.active_event ≡ none

-- A decoded command: its events are accounted for, and the pass goes on.
pub record IsDecoded {E : Type 0} (r : PdErr × Peripheral E) : Type 0 where
  pub events : IsAccounted r.1
  pub goes_on : is_quiet r.0 ≡ false

-- A result with a flag or a report, whose events are accounted for.
pub record IsKept {A E : Type 0} (r : A × Peripheral E) : Type 0 where
  pub events : IsAccounted r.1

-- The same, with no event on its way out.
pub record StaysIdle {A E : Type 0} (r : A × Peripheral E) : Type 0 where
  pub idle : IsIdle r.1

module _ {E : Type 0} where
  pub IsIdle-after : {p q : Peripheral E} → Keeps p q → IsIdle p → IsIdle q
  IsIdle-after k h = record { events = k.accounts h.events; none_active = k.active ∙ h.none_active }

  pub ends : {e : PdErr} {p : Peripheral E} → is_quiet e ≡ false → IsAccounted p → IsDecoded (e, p)
  ends q h = record { events = h; goes_on = q }

  -- Only the fields outside of the events differ.
  pub dev-IsAccounted :
      {p : Peripheral E} (pd : Device) → IsAccounted p → IsAccounted (record p { dev = pd })
  dev-IsAccounted pd h = record { gives_back = h.gives_back; accounted = h.accounted }

  pub dev-IsIdle : {p : Peripheral E} (pd : Device) → IsIdle p → IsIdle (record p { dev = pd })
  dev-IsIdle pd h = record { events = dev-IsAccounted pd h.events; none_active = h.none_active }

  pub engines-IsIdle : {p : Peripheral E} (e : E) → IsIdle p → IsIdle (record p { engines = e })
  engines-IsIdle e h = record {
    events = record { gives_back = h.events.gives_back; accounted = h.events.accounted };
    none_active = h.none_active;
  }

  pub generic-IsDecoded : {p : Peripheral E} → IsIdle p → IsDecoded (pd_err_generic, p)
  generic-IsDecoded h = ends refl h.events

  pub cap_ok-StaysIdle : (p : Peripheral E) (item : ℕ) → IsIdle p → StaysIdle (cmd_cap_ok p item)
  unfolding cmd_cap_ok
  cap_ok-StaysIdle p item h =
      if_both StaysIdle (capable p item p.dev.cmd_id) _ _ (record { idle = h })
        (record { idle = dev-IsIdle _ h })

  pub capable-IsDecoded :
      (p : Peripheral E) (item : ℕ) (rest : Peripheral E → PdErr × Peripheral E)
      → ((q : Peripheral E) → IsIdle q → IsDecoded (rest q))
      → IsIdle p
      → IsDecoded (if_capable p item rest)
  capable-IsDecoded p item rest f h =
      let q = (cap_ok-StaysIdle p item h).idle in
      if_both IsDecoded (cmd_cap_ok p item).0 _ _ (f (cmd_cap_ok p item).1 q) (ends refl q.events)

  pub acked-IsDecoded : (p : Peripheral E) → IsIdle p → IsDecoded (acked p)
  acked-IsDecoded p h = ends refl (dev-IsAccounted _ h.events)

  -- With no event on its way out, the head of the queue takes that place.
  pub take-IsAccounted :
      (p : Peripheral E) (ev : Event) (rest : List Event)
      → p.event_queue ≡ ev ∷ rest
      → IsIdle p
      → IsAccounted (take_event p ev rest)
  take-IsAccounted p ev rest e h = record {
    gives_back = h.events.gives_back;
    accounted =
        h.events.accounted
        ∙ ap₂ (λ (o : Option Event) (l : List Event). events_of p.completed ++ (waiting o ++ l))
            h.none_active e;
  }

  pub take_if-IsKept :
      (p : Peripheral E) (fits : Event → Bool) (queue : List Event)
      → p.event_queue ≡ queue
      → IsIdle p
      → IsKept (take_if p fits queue)
  unfolding take_if
  take_if-IsKept p fits [] e h = record { events = h.events }
  take_if-IsKept p fits (ev ∷ rest) e h =
      if_both IsKept (fits ev) _ _ (record { events = take-IsAccounted p ev rest e h })
        (record { events = h.events })

  pub or_ack-IsDecoded : (r : Bool × Peripheral E) → IsKept r → IsDecoded (or_ack r)
  or_ack-IsDecoded r h =
      if_both IsDecoded r.0 _ _ (ends refl h.events) (ends refl (dev-IsAccounted _ h.events))

  pub inline-IsDecoded : (q : Peripheral E) → IsIdle q → IsDecoded (or_ack (take_inline_reply q))
  unfolding take_inline_reply
  inline-IsDecoded q h =
      or_ack-IsDecoded (take_if q (is_reply_to q.dev.cmd_id) q.event_queue)
        (take_if-IsKept q (is_reply_to q.dev.cmd_id) q.event_queue refl h)

  pub polled-IsAccounted :
      (p : Peripheral E) (queue : List Event)
      → p.event_queue ≡ queue
      → IsIdle p
      → IsAccounted (take_polled p queue)
  polled-IsAccounted p [] e h = dev-IsAccounted _ h.events
  polled-IsAccounted p (ev ∷ rest) e h = take-IsAccounted p ev rest e h

  module _ (app : App) where
    pub callback-StaysIdle :
        (p : Peripheral E) (call : Call) → IsIdle p → StaysIdle (command_callback app p call)
    callback-StaysIdle p call h = record {
      idle = IsIdle-after (command_callback-Keeping app p call).keeps h;
    }

    taken-IsDecoded :
        (r : Option (List ℕ) × Peripheral E) (rest : Peripheral E → PdErr × Peripheral E)
        → ((q : Peripheral E) → IsIdle q → IsDecoded (rest q))
        → StaysIdle r
        → IsDecoded (if_taken app r rest)
    taken-IsDecoded (none, p) rest f h = ends refl h.idle.events
    taken-IsDecoded (some report, p) rest f h = f p h.idle

    pub to_app-IsDecoded :
        (p : Peripheral E) (call : Call) (rest : Peripheral E → PdErr × Peripheral E)
        → ((q : Peripheral E) → IsIdle q → IsDecoded (rest q))
        → IsIdle p
        → IsDecoded (to_app app p call rest)
    to_app-IsDecoded p call rest f h =
        taken-IsDecoded (command_callback app p call) rest f (callback-StaysIdle p call h)

    pub with_reply-IsDecoded :
        (p : Peripheral E) (call : Call) → IsIdle p → IsDecoded (with_reply app p call)
    with_reply-IsDecoded p call = to_app-IsDecoded p call _ inline-IsDecoded

    record-StaysIdle :
        (p : Peripheral E) (cmd : Command) → IsIdle p → StaysIdle (run_record app p cmd)
    unfolding run_record
    record-StaysIdle p cmd h =
        let q = (cap_ok-StaysIdle p (item_of cmd) h).idle in
        if_both StaysIdle (cmd_cap_ok p (item_of cmd)).0 _ _
          (record { idle = (callback-StaysIdle (cmd_cap_ok p (item_of cmd)).1 (given cmd) q).idle })
          (record { idle = q })

    records-StaysIdle :
        (cmds : List Command) (p : Peripheral E) → IsIdle p → StaysIdle (run_records app p cmds)
    unfolding run_records
    records-StaysIdle [] p h = record { idle = h }
    records-StaysIdle (cmd ∷ cmds) p h =
        let r = record-StaysIdle p cmd h in
        if_both StaysIdle (run_record app p cmd).0 _ _
          (records-StaysIdle cmds (run_record app p cmd).1 r.idle) r

    after-IsDecoded : (r : Bool × Peripheral E) → StaysIdle r → IsDecoded (after_records app r)
    after-IsDecoded r h = if_both IsDecoded (not r.0) _ _ (ends refl h.idle.events) (
        if_both IsDecoded (r.1.dev.cmd_id == 0x68) _ _ (inline-IsDecoded r.1 h.idle)
          (acked-IsDecoded r.1 h.idle))

    display-IsDecoded :
        (p : Peripheral E) (cmd : Command) → IsIdle p → IsDecoded (on_display app p cmd)
    display-IsDecoded p cmd =
        capable-IsDecoded p (item_of cmd) _
          (λ q k. to_app-IsDecoded q (given cmd) acked acked-IsDecoded k)

    comset-IsDecoded :
        (p : Peripheral E) (cmd : Command) → IsIdle p → IsDecoded (on_comset app p cmd)
    comset-IsDecoded p (comset address baud) h =
        to_app-IsDecoded p (given (comset address baud)) _
          (λ q k.
            ends refl (record { gives_back = k.events.gives_back; accounted = k.events.accounted }))
          h
    comset-IsDecoded p _ h = generic-IsDecoded h

    bioread-IsDecoded :
        (p : Peripheral E) (cmd : Command) → IsIdle p → IsDecoded (on_bioread app p cmd)
    bioread-IsDecoded p cmd = capable-IsDecoded p 0 _ (λ q k. with_reply-IsDecoded q (given cmd) k)

    new_key-IsDecoded :
        (r : Option (List ℕ) × Peripheral E) (d : List ℕ)
        → StaysIdle r
        → IsDecoded (new_key app r d)
    new_key-IsDecoded (none, p) d h = ends refl (dev-IsAccounted _ h.idle.events)
    new_key-IsDecoded (some report, p) d h =
        ends refl
          (record { gives_back = h.idle.events.gives_back; accounted = h.idle.events.accounted })

    with_key-IsDecoded :
        (p : Peripheral E) (type : ℕ) (d : List ℕ) → IsIdle p → IsDecoded (with_key app p type d)
    with_key-IsDecoded p type d h =
        if_both IsDecoded (not (sc_is_active p.dev) || not p.has_callback) _ _
          (ends refl (dev-IsAccounted _ h.events))
          (new_key-IsDecoded (command_callback app p (given (keyset type d))) d
            (callback-StaysIdle p (given (keyset type d)) h))

    keyset-IsDecoded :
        (p : Peripheral E) (cmd : Command) → IsIdle p → IsDecoded (on_keyset app p cmd)
    keyset-IsDecoded p (keyset type d) =
        capable-IsDecoded p 0 _ (λ q k. with_key-IsDecoded q type d k)
    keyset-IsDecoded p _ = generic-IsDecoded

    -- The commands with one record.
    pub command-IsDecoded :
        (p : Peripheral E) (id : ℕ) (cmd : Command) → IsIdle p → IsDecoded (on_command app p id cmd)
    unfolding on_command
    command-IsDecoded p id cmd h =
        if_both IsDecoded (id == 0x6B || id == 0x6D) _ _ (display-IsDecoded p cmd h) (
          if_both IsDecoded (id == 0x6E) _ _ (comset-IsDecoded p cmd h) (
            if_both IsDecoded (id == 0x80) _ _ (with_reply-IsDecoded p (given cmd) h) (
              if_both IsDecoded (id == 0x73) _ _ (bioread-IsDecoded p cmd h)
                (keyset-IsDecoded p cmd h))))

    -- The commands with records.
    pub records-IsDecoded :
        (p : Peripheral E) (cmds : List Command)
        → IsIdle p
        → IsDecoded (after_records app (run_records app p cmds))
    records-IsDecoded p cmds h =
        after-IsDecoded (run_records app p cmds) (records-StaysIdle cmds p h)
