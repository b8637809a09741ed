-- ===== src/Pd/Dispatch.antt =====
-- pd_decode_command of src/osdp_pd.c: what a PD does with a command, and the reply that it chooses.
use libosdp.Common.{
  ℕ, ◌+◌, Bool, true, false, not, ◌&&◌, ◌||◌, Option, none, some, List, [], ◌∷◌, leb, ◌==◌,
  if◌then◌else◌, take,
}
use libosdp.Device.{sc_is_active, reply_ack, nak_sc_unsup, nak_sc_cond}
use libosdp.Cp.{
  Command, output, led, comset, keyset, StatusType, input_report, output_report, local_report,
  reader_report,
}
use libosdp.Pd.Event.{Event, translate_event, is_reply_to}
use libosdp.Pd.Peripheral.{
  Peripheral, App, Call, given, refuse, reply_with, num_items, level, command_callback,
}

-- OSDP_PD_ERR_*
pub data PdErr : Type 0 where
  pd_err_none pd_err_wait pd_err_generic pd_err_reply pd_err_ignore pd_err_no_data
        pd_err_retry_send :
      PdErr

-- OSDP_PD_NAK_CMD_LEN and OSDP_PD_NAK_CMD_UNKNOWN
abbrev pub nak_cmd_len : ℕ
nak_cmd_len = 2

abbrev pub nak_cmd_unknown : ℕ
nak_cmd_unknown = 3

abbrev pub nak_record : ℕ
nak_record = 9

-- The output or the LED that a command names.
abbrev pub item_of : Command → ℕ
item_of (output n c t) = n
item_of (led r n t p) = n
item_of _ = 0

-- The commands that can go without a secure channel where security is enforced.
abbrev pub allowed_in_clear : ℕ → Bool
allowed_in_clear id = (id == 0x61 || id == 0x62) || (id == 0x76 || id == 0x77)

abbrev pub is_sc_command : ℕ → Bool
is_sc_command id = id == 0x75 || (id == 0x76 || id == 0x77)

-- The type of the report that a status command asks for.
abbrev pub asked_report : ℕ → StatusType
asked_report id =
    if id == 0x64
    then local_report
    else if id == 0x65
    then input_report
    else if id == 0x66
    then output_report
    else reader_report

module _ {E : Type 0} where
  -- Whether the capabilities cover the command.
  unfoldable pub capable : Peripheral E → ℕ → ℕ → Bool
  capable p item id =
      if id == 0x65
      then not (num_items p 1 == 0) && not (level p 1 == 0)
      else if id == 0x66
      then not (num_items p 2 == 0) && not (level p 2 == 0)
      else if id == 0x68
      then not (level p 2 == 0) && leb (item + 1) (num_items p 2)
      else if id == 0x69
      then not (level p 4 == 0) && leb (item + 1) (num_items p 4)
      else if id == 0x6A
      then not (num_items p 5 == 0) && not (level p 5 == 0)
      else if id == 0x6B
      then not (num_items p 6 == 0) && not (level p 6 == 0)
      else if id == 0x6D
      then not (level p 7 == 0)
      else if id == 0x73 || id == 0x74
      then not (num_items p 14 == 0) && not (level p 14 == 0)
      else if id == 0xA3 || (id == 0xA4 || id == 0xA5)
      then not (level p 12 == 0)
      else is_sc_command id && not (level p 9 == 0)

  -- pd_cmd_cap_ok
  unfoldable pub cmd_cap_ok : Peripheral E → ℕ → Bool × Peripheral E
  unfolding capable
  cmd_cap_ok p item =
      if capable p item p.dev.cmd_id
      then (true, p)
      else (false, refuse p (if is_sc_command p.dev.cmd_id then nak_sc_unsup else nak_cmd_unknown))

  -- The rest of a command's case, if the capabilities cover it.
  abbrev pub if_capable :
      Peripheral E → ℕ → (Peripheral E → PdErr × Peripheral E) → PdErr × Peripheral E
  if_capable p item rest =
      let r = cmd_cap_ok p item in if r.0 then rest r.1 else (pd_err_reply, r.1)

  abbrev pub acked : Peripheral E → PdErr × Peripheral E
  acked p = (pd_err_none, reply_with p reply_ack)

  -- The event at the head of the queue becomes the reply.
  abbrev pub take_event : Peripheral E → Event → List Event → Peripheral E
  take_event p ev rest = record p {
    event_queue = rest;
    active_event = some ev;
    dev = record p.dev { reply_id = translate_event ev };
  }

  unfoldable pub take_if : Peripheral E → (Event → Bool) → List Event → Bool × Peripheral E
  take_if p fits [] = (false, p)
  take_if p fits (ev ∷ rest) = if fits ev then (true, take_event p ev rest) else (false, p)

  -- pd_take_inline_reply
  unfoldable pub take_inline_reply : Peripheral E → Bool × Peripheral E
  unfolding take_if
  take_inline_reply p = take_if p (is_reply_to p.dev.cmd_id) p.event_queue

  abbrev pub or_ack : Bool × Peripheral E → PdErr × Peripheral E
  or_ack r = if r.0 then (pd_err_none, r.1) else acked r.1

  abbrev pub take_polled : Peripheral E → List Event → Peripheral E
  take_polled p [] = reply_with p reply_ack
  take_polled p (ev ∷ rest) = take_event p ev rest

  module _ (app : App) where
    -- The rest of a command's case, if the application takes the command.
    abbrev pub if_taken :
        Option (List ℕ) × Peripheral E
        → (Peripheral E → PdErr × Peripheral E)
        → PdErr × Peripheral E
    if_taken (none, p) rest = (pd_err_reply, p)
    if_taken (some report, p) rest = rest p

    abbrev pub to_app :
        Peripheral E → Call → (Peripheral E → PdErr × Peripheral E) → PdErr × Peripheral E
    to_app p call rest = if_taken (command_callback app p call) rest

    -- One record of CMD_OUT, CMD_LED or CMD_BUZ.
    unfoldable pub run_record : Peripheral E → Command → Bool × Peripheral E
    unfolding cmd_cap_ok command_callback
    run_record p cmd =
        let r = cmd_cap_ok p (item_of cmd) in
        let answered = command_callback app r.1 (given cmd) in
        if r.0 then (elim answered.0 [ none ↦ false | some report ↦ true ], answered.1) else r

    -- The records in order, up to the first that is refused.
    unfoldable pub run_records : Peripheral E → List Command → Bool × Peripheral E
    unfolding run_record
    run_records p [] = (true, p)
    run_records p (cmd ∷ cmds) =
        let r = run_record p cmd in let rest = run_records r.1 cmds in if r.0 then rest else r

    -- CMD_OUT, CMD_LED and CMD_BUZ: only CMD_OUT looks for a reply of the application.
    abbrev pub after_records : Bool × Peripheral E → PdErr × Peripheral E
    after_records r =
        if not r.0
        then (pd_err_reply, r.1)
        else if r.1.dev.cmd_id == 0x68
        then or_ack (take_inline_reply r.1)
        else acked r.1

    -- CMD_TEXT and CMD_TDSET
    abbrev pub on_display : Peripheral E → Command → PdErr × Peripheral E
    on_display p cmd = if_capable p (item_of cmd) (λ q. to_app q (given cmd) acked)

    -- CMD_COMSET
    abbrev pub on_comset : Peripheral E → Command → PdErr × Peripheral E
    on_comset p (comset address baud_rate) = to_app p (given (comset address baud_rate)) (λ q. (
      pd_err_none,
      reply_with (record q { comset_address = address; comset_baud_rate = baud_rate }) 0x54,
    ))
    on_comset p _ = (pd_err_generic, p)

    abbrev pub with_reply : Peripheral E → Call → PdErr × Peripheral E
    with_reply p call = to_app p call (λ q. or_ack (take_inline_reply q))

    -- CMD_BIOREAD
    abbrev pub on_bioread : Peripheral E → Command → PdErr × Peripheral E
    on_bioread p cmd = if_capable p 0 (λ q. with_reply q (given cmd))

    -- The key, once the application took it.
    abbrev pub new_key : Option (List ℕ) × Peripheral E → List ℕ → PdErr × Peripheral E
    new_key (none, p) d = (pd_err_reply, refuse p nak_sc_cond)
    new_key (some report, p) d = acked (record p { keyset_pending = take 16 d })

    abbrev pub with_key : Peripheral E → ℕ → List ℕ → PdErr × Peripheral E
    with_key p type d =
        if not (sc_is_active p.dev) || not p.has_callback
        then (pd_err_reply, refuse p nak_sc_cond)
        else new_key (command_callback app p (given (keyset type d))) d

    -- CMD_KEYSET; the key waits until the reply is sent.
    abbrev pub on_keyset : Peripheral E → Command → PdErr × Peripheral E
    on_keyset p (keyset type d) = if_capable p 0 (λ q. with_key q type d)
    on_keyset p _ = (pd_err_generic, p)

    -- The commands with one record, by their ID.
    unfoldable pub on_command : Peripheral E → ℕ → Command → PdErr × Peripheral E
    on_command p id cmd =
        if id == 0x6B || id == 0x6D
        then on_display p cmd
        else if id == 0x6E
        then on_comset p cmd
        else if id == 0x80
        then with_reply p (given cmd)
        else if id == 0x73
        then on_bioread p cmd
        else on_keyset p cmd
