-- ===== src/Pd/Ledger.antt =====
-- The events of a PD of src/osdp_pd.c: those that osdp_pd_submit_event accepted, against those that wait and those
-- that went back to the application.
pub mod Decoding
pub mod Commands
pub mod Choice
pub mod Replies
pub mod Passes
pub mod Runs
use libosdp.Common.{
  ℕ, ◌≡◌, refl, sym, ap, ◌∙◌, Bool, true, false, not, ◌||◌, ◌&&◌, Option, none, some, List, [], ◌∷◌,
  ◌++◌, map, append_assoc, if◌then◌else◌, if_both, arith, Option-cases, inl, inr,
}
use mathlib.Core.Path.{subst}
use mathlib.Core.List.{map-append}
use libosdp.Device.{Device, sc_deactivate, sc_is_active}
use libosdp.Cp.{is_beyond, Completion, Notification}
use libosdp.Pd.Event.{Event, event_reader_no}
use libosdp.Pd.Peripheral.{
  Peripheral, App, Call, notified, refuse, submit_event, submit_all, complete_event, handed_back,
  call_app, command_callback, deliver_notification, notify_sc_status, pd_sc_deactivate, event_ok,
  num_items, validate_command, is_zero, cap_readers,
}
use libosdp.Pd.Update.{release_event}

abbrev pub waiting : Option Event → List Event
waiting none = []
waiting (some ev) = ev ∷ []

abbrev pub events_of : List (Event × Completion) → List Event
events_of done = map (λ (x : Event × Completion). x.0) done

-- Each event that was accepted is with the application again, or on its way out, or in the queue, in the order in
-- which they came.
pub record IsAccounted {E : Type 0} (p : Peripheral E) : Type 0 where
  pub gives_back : p.has_completion ≡ true
  pub accounted : p.accepted ≡ events_of p.completed ++ (waiting p.active_event ++ p.event_queue)

-- Completing the active event moves it to the end of those that are done.
pub released-eq :
    (done : List (Event × Completion)) (ev : Event) (s : Completion) (queue : List Event)
    → events_of done ++ (ev ∷ queue) ≡ events_of (done ++ ((ev, s) ∷ [])) ++ queue
released-eq [] ev s queue = refl
released-eq (d ∷ done) ev s queue = ap (λ (l : List Event). d.0 ∷ l) (released-eq done ev s queue)

-- Between two passes an event is on its way out only with a reply that waits to be sent.
pub record IsSettled {E : Type 0} (p : Peripheral E) : Type 0 where
  pub events : IsAccounted p
  pub none_active : p.reply_prebuilt ≡ false → p.active_event ≡ none

-- What neither loses an event nor starts or ends a reply.
pub record Keeps {E : Type 0} (p q : Peripheral E) : Type 0 where
  pub accounts : IsAccounted p → IsAccounted q
  pub active : q.active_event ≡ p.active_event
  pub parked : q.reply_prebuilt ≡ p.reply_prebuilt

pub record Keeping {A E : Type 0} (p : Peripheral E) (r : A × Peripheral E) : Type 0 where
  pub keeps : Keeps p r.1

module _ {E : Type 0} where
  pub same : (p : Peripheral E) → Keeps p p
  same p = record { accounts = λ h. h; active = refl; parked = refl }

  pub Keeps-trans : {p q r : Peripheral E} → Keeps p q → Keeps q r → Keeps p r
  Keeps-trans f g = record {
    accounts = λ h. g.accounts (f.accounts h);
    active = g.active ∙ f.active;
    parked = g.parked ∙ f.parked;
  }

  -- A step that keeps the events keeps them settled.
  pub IsSettled-after : {p q : Peripheral E} → Keeps p q → IsSettled p → IsSettled q
  IsSettled-after k h = record {
    events = k.accounts h.events;
    none_active = λ e. k.active ∙ h.none_active (sym k.parked ∙ e);
  }

  -- The events do not depend on the device below.
  pub redev : {p q : Peripheral E} → Keeps p q → (pd : Device) → Keeps p (record q { dev = pd })
  redev k pd = record {
    accounts =
        λ h. let g = k.accounts h in record { gives_back = g.gives_back; accounted = g.accounted };
    active = k.active;
    parked = k.parked;
  }

  -- All events that were accepted, if those of `l` are neither with the application nor in the queue.
  abbrev pub Detached : Peripheral E → List Event → Type 0
  Detached p l = p.accepted ≡ events_of p.completed ++ (l ++ p.event_queue)

  queued-Detached :
      (p : Peripheral E) (ev : Event) (l : List Event)
      → Detached p l
      → p.accepted ++ (ev ∷ []) ≡ events_of p.completed ++ (l ++ (p.event_queue ++ (ev ∷ [])))
  queued-Detached p ev l h =
      ap (λ (k : List Event). k ++ (ev ∷ [])) h
      ∙ append_assoc (events_of p.completed) (l ++ p.event_queue) (ev ∷ [])
      ∙ ap (λ (k : List Event). events_of p.completed ++ k) (append_assoc l p.event_queue (ev ∷ []))

  -- What a submission leaves: the events, and who gets them back.
  abbrev pub Kept : Peripheral E → List Event → Type 0
  Kept p l = Detached p l × (p.has_completion ≡ true)

  submit-Kept :
      (p : Peripheral E) (ev : Event) (l : List Event) → Kept p l → Kept (submit_event p ev).1 l
  unfolding submit_event
  submit-Kept p ev l h =
      if_both (λ (r : Bool × Peripheral E). Kept r.1 l) (not p.has_completion) _ _ h
        (if_both (λ (r : Bool × Peripheral E). Kept r.1 l) (not (event_ok p ev)) _ _ h
          (if_both (λ (r : Bool × Peripheral E). Kept r.1 l)
            (is_beyond (event_reader_no ev) (num_items p cap_readers)) _ _ h
            (queued-Detached p ev l h.0, h.1)))

  submit_all-Kept :
      (evs : List Event) (p : Peripheral E) (l : List Event) → Kept p l → Kept (submit_all p evs) l
  unfolding submit_all
  submit_all-Kept [] p l h = h
  submit_all-Kept (ev ∷ evs) p l h =
      submit_all-Kept evs (submit_event p ev).1 l (submit-Kept p ev l h)

  queued-IsAccounted :
      (p : Peripheral E) (ev : Event)
      → IsAccounted p
      → IsAccounted (record p {
        event_queue = p.event_queue ++ (ev ∷ []);
        accepted = p.accepted ++ (ev ∷ []);
      })
  queued-IsAccounted p ev h = record {
    gives_back = h.gives_back;
    accounted = queued-Detached p ev (waiting p.active_event) h.accounted;
  }

  pub queued-Keeping : (p : Peripheral E) (ev : Event) → Keeping p (submit_event p ev)
  unfolding submit_event
  queued-Keeping p ev =
      if_both (Keeping p) (not p.has_completion) _ _ (record { keeps = same p })
        (if_both (Keeping p) (not (event_ok p ev)) _ _ (record { keeps = same p })
          (if_both (Keeping p) (is_beyond (event_reader_no ev) (num_items p cap_readers)) _ _
            (record { keeps = same p })
            (record {
              keeps = record { accounts = queued-IsAccounted p ev; active = refl; parked = refl };
            })))

  pub submit_all-Keeps : (evs : List Event) (p : Peripheral E) → Keeps p (submit_all p evs)
  unfolding submit_all
  submit_all-Keeps [] p = same p
  submit_all-Keeps (ev ∷ evs) p =
      Keeps-trans (queued-Keeping p ev).keeps (submit_all-Keeps evs (submit_event p ev).1)

  pub completed-eq :
      (p : Peripheral E) (ev : Event) (s : Completion)
      → p.has_completion ≡ true
      → complete_event p (some ev) s ≡ handed_back p ev s
  unfolding complete_event
  completed-eq p ev s g = ap (λ (b : Bool). if not b then p else handed_back p ev s) g

  pub handed-Kept :
      (p : Peripheral E) (ev : Event) (s : Completion) (l : List Event)
      → p.has_completion ≡ true
      → p.accepted ≡ events_of p.completed ++ (ev ∷ (l ++ p.event_queue))
      → Kept (handed_back p ev s) l
  handed-Kept p ev s l g h =
      submit_all-Kept (p.on_complete p.completed ev s)
        (record p { completed = p.completed ++ ((ev, s) ∷ []) }) l
        (h ∙ released-eq p.completed ev s (l ++ p.event_queue), g)

  module _ (p : Peripheral E) (s : Completion) (g : p.has_completion ≡ true) where
    done-IsAccounted :
        (o : Option Event)
        → p.accepted ≡ events_of p.completed ++ (waiting o ++ p.event_queue)
        → IsAccounted (record (complete_event p o s) { active_event = none })
    unfolding complete_event
    done-IsAccounted none h = record { gives_back = g; accounted = h }
    done-IsAccounted (some ev) h =
        let k = handed-Kept p ev s [] g h in
        subst (λ (q : Peripheral E). IsAccounted (record q { active_event = none }))
          (sym (completed-eq p ev s g)) (record { gives_back = k.1; accounted = k.0 })

  pub release-IsAccounted :
      (p : Peripheral E) (s : Completion) → IsAccounted p → IsAccounted (release_event p s)
  release-IsAccounted p s h = done-IsAccounted p s h.gives_back p.active_event h.accounted

  module _ (app : App) where
    call_app-Keeps : (p : Peripheral E) (call : Call) → Keeps p (call_app app p call)
    unfolding call_app
    call_app-Keeps p call =
        let k = submit_all-Keeps (app p.calls call).submits (record p { calls = call ∷ p.calls }) in
        record {
          accounts =
              λ h. k.accounts (record { gives_back = h.gives_back; accounted = h.accounted });
          active = k.active;
          parked = k.parked;
        }

    pub command_callback-Keeping :
        (p : Peripheral E) (call : Call) → Keeping p (command_callback app p call)
    unfolding command_callback
    command_callback-Keeping p call =
        let k = call_app-Keeps p call in
        if_both (Keeping p) (not (validate_command p call && p.has_callback)) _ _
          (record { keeps = redev (same p) _ })
          (if_both (Keeping p) (is_zero (app p.calls call).ret) _ _ (record { keeps = redev k _ })
            (record { keeps = redev k _ }))

    pub deliver_notification-Keeps :
        (p : Peripheral E) (n : Notification) → Keeps p (deliver_notification app p n)
    unfolding deliver_notification
    deliver_notification-Keeps p n =
        if_both (Keeps p) (not p.has_callback || not p.enables_notif) _ _ (same p)
          (redev (call_app-Keeps p (notified n)) _)

    pub notify_sc-Keeps : (p : Peripheral E) → Keeps p (notify_sc_status app p)
    unfolding notify_sc_status
    notify_sc-Keeps p = deliver_notification-Keeps p _

    pub sc_deactivate-Keeps : (p : Peripheral E) → Keeps p (pd_sc_deactivate app p)
    unfolding pd_sc_deactivate notify_sc_status
    sc_deactivate-Keeps p =
        let k = redev (same p) (sc_deactivate p.dev) in
        if_both (Keeps p) (sc_is_active p.dev) _ _ (Keeps-trans k (deliver_notification-Keeps _ _))
          k
