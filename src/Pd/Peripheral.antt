-- ===== src/Pd/Peripheral.antt =====
-- A peripheral device: what `struct osdp_pd` keeps in PD mode beside the packet layer's part, the
-- application behind its callbacks, and how commands and notifications reach it (src/osdp_pd.c).
use libosdp.Common.{
  ℕ, ◌+◌, Bool, true, false, not, ◌&&◌, ◌||◌, Option, none, some, List, [], ◌∷◌, ◌++◌, ltb, leb,
  ◌==◌, if◌then◌else◌, length, ℤ, pos, negsuc,
}
use libosdp.Metrics.{command, event}
use libosdp.Device.{Device, report_metric, reply_nak, sc_is_active, sc_deactivate}
use libosdp.Cp.{
  reader_no, is_beyond, Command, output, led, buzzer, text, tdset, LedParams, Completion,
  Notification, sc_status, StatusType, input_report, output_report, local_report, reader_report,
}
use libosdp.Pd.Event.{Event, raw_unspecified, raw_wiegand, cardread, status_event, event_reader_no}

-- struct osdp_pd_cap
pub record Cap : Type 0 where
  pub function_code : ℕ
  pub compliance_level : ℕ
  pub num_items : ℕ

-- What the command callback is called with.
pub data Call : Type 0 where
  given : Command → Call
  comset_done : (address baud_rate : ℕ) → Call
  notified : Notification → Call
  piv_data : (oid0 oid1 oid2 element offset : ℕ) → Call
  piv_auth : (cmd_id : ℕ) (data' : List ℕ) → Call
  xwr : (data' : List ℕ) → Call

-- What the application does in its callback: its return value, the status report that it fills in, and the
-- events that it submits.
pub record Answer : Type 0 where
  pub ret : ℤ
  pub report : List ℕ
  pub submits : List Event

-- The application, which knows all the calls before.
abbrev pub App : Type 0
App = List Call → Call → Answer

-- `E` is the state of the feature engines. `calls` (the last one first), `accepted` and `completed` (the
-- first one first) record the calls of the command callback, the events that osdp_pd_submit_event took
-- and those that the completion callback gave back. `on_complete` is what the application submits from
-- inside of its completion callback, by the events that it was given back before; a callback that
-- flushes the queue is left out.
pub record Peripheral (E : Type 0) : Type 0 where
  pub dev : Device
  pub caps : ℕ → Cap
  pub is_online : Bool
  pub enables_notif : Bool
  pub has_callback : Bool
  pub has_completion : Bool
  pub on_complete : List (Event × Completion) → Event → Completion → List Event
  pub bioreadr_mp : Bool
  pub event_queue : List Event
  pub active_event : Option Event
  pub reply_prebuilt : Bool
  pub sc_tstamp : ℕ
  pub baud_rate : ℕ
  pub firmware_version : ℕ
  pub comset_address : ℕ
  pub comset_baud_rate : ℕ
  pub keyset_pending : List ℕ
  pub engines : E
  pub calls : List Call
  pub accepted : List Event
  pub completed : List (Event × Completion)

-- OSDP_PD_CAP_CONTACT_STATUS_MONITORING, OSDP_PD_CAP_OUTPUT_CONTROL and OSDP_PD_CAP_READERS
abbrev pub cap_contacts : ℕ
cap_contacts = 1

abbrev pub cap_outputs : ℕ
cap_outputs = 2

abbrev pub cap_readers : ℕ
cap_readers = 13

-- The tests of validate_command on the temporary and the permanent parameters of an LED.
abbrev pub led_ok : LedParams → ℕ → ℕ → Bool
led_ok t set sentinel =
    ltb t.control_code sentinel
    && not (t.control_code == set && (t.on_count == 0 && t.off_count == 0))

unfoldable pub fields_ok : Command → Bool
fields_ok (output n code timer) = ltb code 7
fields_ok (led r n t p) = led_ok t 2 3 && led_ok p 1 2
fields_ok (buzzer r code on off n) = ltb code 3 && not (on == 0 && not (code == 1))
fields_ok (text r code t row col d) = leb 1 code && ltb code 5
fields_ok (tdset y m d h min s) =
    (leb 1 m && leb m 12) && ((leb 1 d && leb d 31) && (leb h 23 && (leb min 59 && leb s 59)))
fields_ok _ = true

-- pd_nak_code_from_callback, on the code that is returned with its sign turned.
unfoldable pub nak_code_from_callback : ℤ → ℕ
nak_code_from_callback (pos n) = 9
nak_code_from_callback (negsuc n) = if n == 6 || n == 7 then n + 1 else 9

abbrev pub is_zero : ℤ → Bool
is_zero (pos n) = n == 0
is_zero (negsuc n) = false

module _ {E : Type 0} where
  abbrev pub with_dev : Peripheral E → Device → Peripheral E
  with_dev p d = record p { dev = d }

  -- The reply that refuses a command.
  abbrev pub refuse : Peripheral E → ℕ → Peripheral E
  refuse p code = record p { dev = record p.dev { reply_id = reply_nak; nak_code = code } }

  abbrev pub reply_with : Peripheral E → ℕ → Peripheral E
  reply_with p id = record p { dev = record p.dev { reply_id = id } }

  abbrev pub num_items : Peripheral E → ℕ → ℕ
  num_items p fc = (p.caps fc).num_items

  abbrev pub level : Peripheral E → ℕ → ℕ
  level p fc = (p.caps fc).compliance_level

  -- validate_command; the other calls pass.
  unfoldable pub validate_command : Peripheral E → Call → Bool
  unfolding fields_ok reader_no
  validate_command p (given cmd) =
      fields_ok cmd && not (is_beyond (reader_no cmd) (num_items p cap_readers))
  validate_command p _ = true

  -- pd_status_report_capacity
  abbrev pub report_capacity : Peripheral E → StatusType → ℕ
  report_capacity p input_report = num_items p cap_contacts
  report_capacity p output_report = num_items p cap_outputs
  report_capacity p local_report = 2
  report_capacity p reader_report = num_items p cap_readers

  -- The checks of osdp_pd_submit_event that depend on the event's type.
  unfoldable pub event_ok : Peripheral E → Event → Bool
  event_ok p (cardread r raw_unspecified n d) = true
  event_ok p (cardread r raw_wiegand n d) = true
  event_ok p (cardread r _ n d) = false
  event_ok p (status_event t r) = length r == report_capacity p t
  event_ok p _ = true

  -- osdp_pd_submit_event; `true` is 0.
  unfoldable pub submit_event : Peripheral E → Event → Bool × Peripheral E
  unfolding event_ok event_reader_no
  submit_event p ev =
      if not p.has_completion
      then (false, p)
      else if not (event_ok p ev)
      then (false, p)
      else if is_beyond (event_reader_no ev) (num_items p cap_readers)
      then (false, p)
      else (
        true,
        record p { event_queue = p.event_queue ++ (ev ∷ []); accepted = p.accepted ++ (ev ∷ []) },
      )

  unfoldable pub submit_all : Peripheral E → List Event → Peripheral E
  submit_all p [] = p
  submit_all p (ev ∷ evs) = submit_all (submit_event p ev).1 evs

  -- The event is with the application, which may submit others before its callback returns.
  abbrev pub handed_back : Peripheral E → Event → Completion → Peripheral E
  handed_back p ev s =
      let q =
        submit_all (record p { completed = p.completed ++ ((ev, s) ∷ []) })
          (p.on_complete p.completed ev s) in
      record q { dev = report_metric q.dev event }

  -- pd_complete_event; `none` is the null pointer.
  unfoldable pub complete_event : Peripheral E → Option Event → Completion → Peripheral E
  complete_event p none s = p
  complete_event p (some ev) s = if not p.has_completion then p else handed_back p ev s

  module _ (app : App) where
    -- A call of the command callback.
    unfoldable pub call_app : Peripheral E → Call → Peripheral E
    unfolding submit_all
    call_app p call = submit_all (record p { calls = call ∷ p.calls }) (app p.calls call).submits

    -- do_command_callback; the list is what the application put in `cmd->status.report`.
    unfoldable pub command_callback : Peripheral E → Call → Option (List ℕ) × Peripheral E
    unfolding validate_command nak_code_from_callback call_app
    command_callback p call =
        let answer = app p.calls call in
        let q = call_app p call in
        if not (validate_command p call && p.has_callback)
        then (none, refuse p 9)
        else if is_zero answer.ret
        then (some answer.report, record q { dev = report_metric q.dev command })
        else (none, refuse q (nak_code_from_callback answer.ret))

    -- pd_deliver_notification
    unfoldable pub deliver_notification : Peripheral E → Notification → Peripheral E
    unfolding call_app
    deliver_notification p n =
        if not p.has_callback || not p.enables_notif
        then p
        else let q = call_app p (notified n) in record q { dev = report_metric q.dev event }

    -- notify_sc_status
    unfoldable pub notify_sc_status : Peripheral E → Peripheral E
    unfolding deliver_notification
    notify_sc_status p =
        deliver_notification p (sc_status (sc_is_active p.dev) p.dev.flags.sc_use_scbkd)

    -- pd_sc_deactivate
    unfoldable pub pd_sc_deactivate : Peripheral E → Peripheral E
    unfolding notify_sc_status
    pd_sc_deactivate p =
        let q = with_dev p (sc_deactivate p.dev) in
        if sc_is_active p.dev then notify_sc_status q else q
