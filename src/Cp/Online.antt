-- ===== src/Cp/Online.antt =====
-- What the control panel does with a PD that is online (src/osdp_cp.c): the choice of the next command,
-- the check of its reply, the end of a KEYSET, and the failures that leave the link up.
use libosdp.Common.{
  ℕ, Bool, true, false, not, ◌&&◌, ◌||◌, Option, none, some, List, [], ◌∷◌, ◌==◌, if◌then◌else◌,
  ltb, take,
}
use libosdp.Device.{
  Device, sc_is_active, sc_deactivate, cmd_keyset, reply_ack, reply_nak, reply_busy,
}
use libosdp.Cp.{
  Panel, Command, output, led, buzzer, text, tdset, comset, mfg, bioread, biomatch, status, keyset,
  file_tx, StatusType, input_report, output_report, local_report, reader_report, Cmd, failed,
  is_online, sc_use_scbkd, set_scbkd, notify_sc_status, complete_cmd, millis_since, phy_done,
}

-- OSDP_PD_POLL_TIMEOUT_MS
abbrev pub poll_timeout_ms : ℕ
poll_timeout_ms = 50

-- CMD_POLL and the other command and reply codes that are tested here.
abbrev pub cmd_poll : ℕ
cmd_poll = 0x60

abbrev pub cmd_filetransfer : ℕ
cmd_filetransfer = 0x7C

abbrev pub cmd_mfg : ℕ
cmd_mfg = 0x80

abbrev pub reply_mfgerrr : ℕ
reply_mfgerrr = 0x84

abbrev pub status_cmd : StatusType → ℕ
status_cmd input_report = 0x65
status_cmd output_report = 0x66
status_cmd local_report = 0x64
status_cmd reader_report = 0x67

-- cp_translate_cmd: `none` is -1. A file transfer is not queued; the source stops with BUG() there.
unfoldable pub translate_cmd : Device → Command → Option ℕ
translate_cmd pd (output n c t) = some 0x68
translate_cmd pd (led r n t p) = some 0x69
translate_cmd pd (buzzer r c on off n) = some 0x6A
translate_cmd pd (text r c t row col d) = some 0x6B
translate_cmd pd (tdset y m d h min s) = some 0x6D
translate_cmd pd (comset a b) = some 0x6E
translate_cmd pd (mfg v d) = some 0x80
translate_cmd pd (bioread r t f q) = some 0x73
translate_cmd pd (biomatch r t f q d) = some 0x74
translate_cmd pd (status type) = some (status_cmd type)
translate_cmd pd (keyset type d) =
    if not (type == 1) || not (sc_is_active pd) then none else some cmd_keyset
translate_cmd pd (file_tx id flags) = none

-- cp_setup_active_cmd, with the command ID or `none` for -1.
unfoldable pub on_translated : Panel → Cmd → Option ℕ → Option ℕ × Panel
on_translated p cmd none = (none, record (complete_cmd p (some cmd) failed) { active_cmd = none })
on_translated p cmd (some id) = (some id, record p { active_cmd = some cmd })

abbrev pub note_broadcast : Panel → Cmd → Panel
note_broadcast p cmd =
    if cmd.broadcast
    then record p { pd = record p.pd { flags = record p.pd.flags { pkt_broadcast = true } } }
    else p

unfoldable pub setup_active_cmd : Panel → Cmd → Option ℕ × Panel
unfolding on_translated
setup_active_cmd p cmd = on_translated (note_broadcast p cmd) cmd (translate_cmd p.pd cmd.body)

-- cp_get_poll_command
unfoldable pub get_poll_command : Panel → ℕ → Option ℕ × Panel
get_poll_command p now =
    if ltb poll_timeout_ms (millis_since now p.pd.tstamp)
    then (some cmd_poll, record p { pd = record p.pd { tstamp = now } })
    else (none, p)

-- What the file, PIV and biometric engines answer in turn: their command, a hold of the bus, or nothing
-- from any of them.
pub data EngineNext : Type 0 where
  idle_engines hold_bus : EngineNext
  engine_sends : (id : ℕ) → EngineNext

unfoldable pub after_engines : EngineNext × Panel → ℕ → Option ℕ × Panel
unfolding get_poll_command
after_engines (idle_engines, p) now = get_poll_command p now
after_engines (hold_bus, p) now = (none, p)
after_engines (engine_sends id, p) now = (some id, p)

-- cp_get_online_command, with the engines' answer on a panel.
unfoldable pub get_online_from :
    (Panel → EngineNext × Panel) → Panel → List Cmd → ℕ → Option ℕ × Panel
unfolding setup_active_cmd after_engines
get_online_from engines p [] now = after_engines (engines p) now
get_online_from engines p (cmd ∷ rest) now = setup_active_cmd (record p { cmd_queue = rest }) cmd

unfoldable pub get_online_command : (Panel → EngineNext × Panel) → Panel → ℕ → Option ℕ × Panel
unfolding get_online_from
get_online_command engines p now = get_online_from engines p p.cmd_queue now

abbrev pub commit_body : Panel → Command → Panel
commit_body p (keyset type d) = record p {
  pd = record p.pd { sc = record p.pd.sc { scbk = take 16 d } };
}
commit_body p _ = p

-- The key of an active KEYSET command, for the device.
abbrev pub commit_key : Panel → Option Cmd → Panel
commit_key p none = p
commit_key p (some cmd) = commit_body p cmd.body

abbrev pub request_restart : Panel → Panel
request_restart p = record p { request = record p.request { restart_sc = true } }

-- cp_keyset_complete
unfoldable pub keyset_complete : Panel → Panel
keyset_complete p =
    let keyed = if sc_use_scbkd p then set_scbkd p false else commit_key p p.active_cmd in
    let down = notify_sc_status (record keyed { pd = sc_deactivate keyed.pd }) in
    if is_online down.state then request_restart down else down

-- The replies that a poll can have.
abbrev pub is_poll_reply : ℕ → Bool
is_poll_reply r =
    r == 0x48
    || (r == 0x49
        || (r == 0x4A
            || (r == 0x4B
                || (r == 0x90
                    || (r == 0x83
                        || (r == 0x84
                            || (r == 0x57
                                || (r == 0x58
                                    || (r == 0x80
                                        || (r == 0x81
                                            || (r == 0x82
                                                || (r == 0x50
                                                    || (r == 0x53 || r == 0xB1)))))))))))))

-- The last switch of cp_check_online_response: the reply that each command expects, when it is no ACK.
unfoldable pub is_expected : ℕ → ℕ → Bool
is_expected c r =
    if c == cmd_filetransfer
    then r == 0x7A
    else if c == 0x6E
    then r == 0x54
    else if c == cmd_mfg
    then r == reply_ack || (r == 0x90 || r == 0x83)
    else if c == 0x73
    then r == reply_ack || r == 0x57
    else if c == 0x74
    then r == reply_ack || r == 0x58
    else if c == 0xA3
    then r == reply_ack || r == 0x80
    else if c == 0xA4
    then r == reply_ack || r == 0x81
    else if c == 0xA5
    then r == reply_ack || r == 0x82
    else if c == 0x64
    then r == 0x48
    else if c == 0x65
    then r == 0x49
    else if c == 0x66
    then r == 0x4A
    else if c == 0x68
    then r == 0x4A
    else if c == 0x67
    then r == 0x4B
    else if c == 0xA1
    then r == 0xB1
    else false

-- cp_check_online_response
unfoldable pub check_online_response : Panel → Bool × Panel
unfolding is_expected
check_online_response p =
    let r = p.pd.reply_id in
    if r == reply_ack
    then (true, if p.pd.cmd_id == cmd_keyset then keyset_complete p else p)
    else if r == reply_nak || r == 0
    then (false, p)
    else if p.pd.cmd_id == cmd_poll
    then ((if is_poll_reply r then true else p.ignore_unsolicited), p)
    else (is_expected p.pd.cmd_id r, p)

-- cp_cmd_is_app_owned; CMD_XWR is the application's in a TRS session only.
unfoldable pub is_app_owned : ℕ → Bool
is_app_owned c =
    c == 0x68
    || (c == 0x69
        || (c == 0x6A
            || (c == 0x6B
                || (c == 0x6D
                    || (c == 0x65
                        || (c == 0x66
                            || (c == 0x64
                                || (c == 0x67
                                    || (c == 0x6E
                                        || (c == 0x75
                                            || (c == 0x80
                                                || (c == 0x73
                                                    || (c == 0x74
                                                        || (c == 0xA3
                                                            || (c == 0xA4
                                                            || (c == 0xA5
                                                            || c == 0x7C))))))))))))))))

-- cp_nak_code_is_app_level: CMD_LEN, CMD_UNKNOWN, BIO_TYPE, BIO_FMT and RECORD
unfoldable pub is_app_level : ℕ → Bool
is_app_level n = n == 2 || (n == 3 || (n == 7 || (n == 8 || n == 9)))

-- cp_cmd_failure_is_soft; a reply has no TRS error in this build, and no XWR command is the application's.
unfoldable pub failure_is_soft : Panel → Bool
unfolding is_app_owned is_app_level
failure_is_soft p =
    if not (is_online p.state)
      || (not (p.pd.phy_state == phy_done) || not (is_app_owned p.pd.cmd_id))
    then false
    else if p.pd.cmd_id == cmd_mfg && p.pd.reply_id == reply_mfgerrr
    then true
    else if p.pd.reply_id == reply_busy
    then true
    else p.pd.reply_id == reply_nak && is_app_level p.pd.nak_code
