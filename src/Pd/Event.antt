-- ===== src/Pd/Event.antt =====
-- The events that an application hands a PD (`struct osdp_event`), and the replies that carry them
-- (src/osdp_pd.c).
use libosdp.Common.{ℕ, Bool, true, false, Option, none, some, List, ◌==◌, if◌then◌else◌}
use libosdp.Cp.{StatusType, input_report, output_report, local_report, reader_report}

-- enum osdp_event_cardread_format_e; `fmt_other` is any value that is no format.
pub data CardFormat : Type 0 where
  raw_unspecified raw_wiegand fmt_ascii fmt_other : CardFormat

-- struct osdp_event by its type, with the data that a reply carries. `bits` is the length of the card
-- data, and a status report has as many entries as its list.
pub data Event : Type 0 where
  cardread : (reader_no : ℕ) (format : CardFormat) (bits : ℕ) (data' : List ℕ) → Event
  keypress : (reader_no : ℕ) (data' : List ℕ) → Event
  mfgrep : (vendor_code : ℕ) (data' : List ℕ) → Event
  status_event : (type : StatusType) (report : List ℕ) → Event
  mfgstatr : (data' : List ℕ) → Event
  mfgerrr : (data' : List ℕ) → Event
  bioreadr : (reader status type quality : ℕ) (data' : List ℕ) → Event
  biomatchr : (reader status score : ℕ) → Event
  pivdatar : (data' : List ℕ) → Event
  genauthr : (data' : List ℕ) → Event
  crauthr : (data' : List ℕ) → Event
  trs : (data' : List ℕ) → Event

abbrev pub status_reply : StatusType → ℕ
status_reply input_report = 0x49
status_reply output_report = 0x4A
status_reply local_report = 0x48
status_reply reader_report = 0x4B

-- pd_translate_event; a card format that is not supported is a BUG() of the source, and no event of the
-- queue has it.
unfoldable pub translate_event : Event → ℕ
translate_event (cardread r f n d) = 0x50
translate_event (keypress r d) = 0x53
translate_event (mfgrep v d) = 0x90
translate_event (status_event t r) = status_reply t
translate_event (mfgstatr d) = 0x83
translate_event (mfgerrr d) = 0x84
translate_event (bioreadr r s t q d) = 0x57
translate_event (biomatchr r s k) = 0x58
translate_event (pivdatar d) = 0x80
translate_event (genauthr d) = 0x81
translate_event (crauthr d) = 0x82
translate_event (trs d) = 0xB1

-- The command that asks for a status report of a type.
abbrev pub status_command : StatusType → ℕ
status_command input_report = 0x65
status_command output_report = 0x66
status_command local_report = 0x64
status_command reader_report = 0x67

abbrev pub answers_status : ℕ → StatusType → Bool
answers_status cmd_id output_report = if cmd_id == 0x68 then true else cmd_id == 0x66
answers_status cmd_id t = cmd_id == status_command t

-- event_is_reply_to
unfoldable pub is_reply_to : ℕ → Event → Bool
is_reply_to cmd_id (mfgrep v d) = cmd_id == 0x80
is_reply_to cmd_id (mfgstatr d) = cmd_id == 0x80
is_reply_to cmd_id (mfgerrr d) = cmd_id == 0x80
is_reply_to cmd_id (bioreadr r s t q d) = cmd_id == 0x73
is_reply_to cmd_id (biomatchr r s k) = cmd_id == 0x74
is_reply_to cmd_id (pivdatar d) = cmd_id == 0xA3
is_reply_to cmd_id (genauthr d) = cmd_id == 0xA4
is_reply_to cmd_id (crauthr d) = cmd_id == 0xA5
is_reply_to cmd_id (status_event t r) = answers_status cmd_id t
is_reply_to cmd_id _ = false

abbrev pub is_trs : Event → Bool
is_trs (trs d) = true
is_trs _ = false

-- osdp_event_reader_no of src/osdp_common.c; `none` is -1.
unfoldable pub event_reader_no : Event → Option ℕ
event_reader_no (cardread r f n d) = some r
event_reader_no (keypress r d) = some r
event_reader_no (bioreadr r s t q d) = some r
event_reader_no (biomatchr r s k) = some r
event_reader_no _ = none
