-- ===== src/Pd/Ledger/Runs.antt =====
-- Any sequence of passes of the refresh loop of a PD and of calls of osdp_pd_submit_event and osdp_pd_flush_events
-- (src/osdp_pd.c), and the events in it.
use libosdp.Common.{
  ℕ, ◌≡◌, sym, ap, ap₂, ◌∙◌, true, false, none, Option, List, [], ◌∷◌, ◌++◌, ℤ, append-nil,
}
use mathlib.Core.Path.{subst}
use libosdp.Crypto.{Crypto}
use libosdp.Cp.{Completion, flushed}
use libosdp.Pd.Event.{Event}
use libosdp.Pd.Peripheral.{Peripheral, App, submit_event, handed_back}
use libosdp.Pd.Engines.{Engines}
use libosdp.Pd.Update.{update, drain_events, flush_events}
use libosdp.Pd.Ledger.{
  IsSettled, waiting, events_of, Detached, handed-Kept, completed-eq, submit_all-Keeps,
  queued-Keeping, IsSettled-after,
}
use libosdp.Pd.Ledger.Passes.{update-IsSettled}

-- A PD after its setup, with a completion callback.
pub record IsFresh {E : Type 0} (p : Peripheral E) : Type 0 where
  pub gives_back : p.has_completion ≡ true
  pub no_event : p.accepted ≡ []
  pub none_completed : p.completed ≡ []
  pub none_active : p.active_event ≡ none
  pub none_queued : p.event_queue ≡ []

module _ {E : Type 0} where
  fresh-IsSettled : (p : Peripheral E) → IsFresh p → IsSettled p
  fresh-IsSettled p h = record {
    events = record {
      gives_back = h.gives_back;
      accounted =
          h.no_event
          ∙ sym (
              ap
                (λ (l : List (Event × Completion)).
                  events_of l ++ (waiting p.active_event ++ p.event_queue))
                h.none_completed
              ∙ ap₂ (λ (o : Option Event) (l : List Event). waiting o ++ l) h.none_active
                  h.none_queued);
    };
    none_active = λ e. h.none_active;
  }

  -- A flush sends the queue back from its front on; what the application submits meanwhile waits behind it.
  drain-IsSettled :
      (queue : List Event) (p : Peripheral E) (s : Completion)
      → p.has_completion ≡ true
      → p.active_event ≡ none
      → Detached p queue
      → IsSettled (drain_events p queue s).1
  unfolding drain_events
  drain-IsSettled [] p s g a h = record {
    events = record {
      gives_back = g;
      accounted =
          h
          ∙ ap (λ (o : Option Event). events_of p.completed ++ (waiting o ++ p.event_queue))
              (sym a);
    };
    none_active = λ e. a;
  }
  drain-IsSettled (ev ∷ rest) p s g a h =
      let k = handed-Kept p ev s rest g h in
      let given_back = record p { completed = p.completed ++ ((ev, s) ∷ []) } in
      let kept = submit_all-Keeps (p.on_complete p.completed ev s) given_back in
      subst (λ (r : Peripheral E). IsSettled (drain_events r rest s).1)
        (sym (completed-eq p ev s g))
        (drain-IsSettled rest (handed_back p ev s) s k.1 (kept.active ∙ a) k.0)

  module _ (crc16 : List ℕ → ℕ) (c : Crypto) (engines : Engines E) (app : App) where
    -- A flush here waits for the reply that is on its way, if there is one.
    pub data Run (start : Peripheral E) : Peripheral E → Type 0 where
      here : Run start start
      passes :
          {p : Peripheral E} (now : ℕ) (calls : List (List ℕ)) (sent : ℤ)
          → Run start p
          → Run start (update crc16 c engines app now p calls sent)
      submits : {p : Peripheral E} (ev : Event) → Run start p → Run start (submit_event p ev).1
      flushes :
          {p : Peripheral E} → p.reply_prebuilt ≡ false → Run start p → Run start (flush_events p).1

    Run-IsSettled : {start p : Peripheral E} → IsSettled start → Run start p → IsSettled p
    unfolding flush_events
    Run-IsSettled h here = h
    Run-IsSettled h (passes now calls sent r) =
        update-IsSettled crc16 c engines app now _ calls sent (Run-IsSettled h r)
    Run-IsSettled h (submits ev r) = IsSettled-after (queued-Keeping _ ev).keeps (Run-IsSettled h r)
    Run-IsSettled h (flushes {p = p} e r) =
        let k = Run-IsSettled h r in
        drain-IsSettled p.event_queue (record p { event_queue = [] }) flushed k.events.gives_back
          (k.none_active e)
          (k.events.accounted
            ∙ ap (λ (o : Option Event). events_of p.completed ++ (waiting o ++ p.event_queue))
                (k.none_active e)
            ∙ ap (λ (l : List Event). events_of p.completed ++ l) (sym (append-nil p.event_queue)))

    -- From a fresh PD on, whatever packets arrive, whatever the channel does with the replies and whatever
    -- the application answers and submits: the events that were accepted are, in their order, those that
    -- were given back, then the one whose reply is on its way, then the queue. So no event is lost, none is
    -- given back twice, and none overtakes another. Events that the application submits from its callbacks
    -- are included, and flushes while no reply waits to be sent.
    pub Run-accounted :
        (start p : Peripheral E)
        → IsFresh start
        → Run start p
        → p.accepted ≡ events_of p.completed ++ (waiting p.active_event ++ p.event_queue)
    Run-accounted start p h r = (Run-IsSettled (fresh-IsSettled start h) r).events.accounted
