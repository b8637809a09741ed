-- ===== src/Cp.antt =====
-- The control panel's side of one PD, src/osdp_cp.c, in a build without OPT_BUILD_OSDP_TRS: the part of
-- `struct osdp_pd` that it keeps beside the packet layer's, the commands that the application queues, and
-- what the application is told.
pub mod Online
pub mod Link
pub mod Machine
pub mod Update
pub mod Control
pub mod Build
pub mod Handshake
pub mod Timing
pub mod Retry
pub mod Flush
pub mod Secured
mod Examples
use libosdp.Common.{
  ltb, ◌++◌, ◌||◌, ◌==◌, ℕ, ◌-◌, Bool, true, false, not, ◌&&◌, ◌||◌, Option, none, some, List, [],
  ◌∷◌, ◌==◌, if◌then◌else◌, ltb,
}
use libosdp.Metrics.{event}
use libosdp.Device.{Device, sc_is_active, report_metric}

-- enum osdp_cp_state_e
pub data State : Type 0 where
  init capdet sc_chlng sc_scrypt set_scbk online offline disabled : State

-- The results OSDP_CP_ERR_*.
pub data Rc : Type 0 where
  rc_none rc_generic rc_no_data rc_retry_cmd rc_defer rc_inprog rc_unknown rc_seq_num rc_app : Rc

-- CP_REQ_*, a field for each bit.
pub record Requests : Type 0 where
  pub restart_sc : Bool
  pub link_reset : Bool
  pub go_offline : Bool
  pub disable : Bool
  pub enable : Bool

-- struct osdp_cmd_led_params; `timer_count` counts for the temporary parameters only.
pub record LedParams : Type 0 where
  pub control_code : ℕ
  pub on_count : ℕ
  pub off_count : ℕ
  pub on_color : ℕ
  pub off_color : ℕ
  pub timer_count : ℕ

-- enum osdp_status_report_type
pub data StatusType : Type 0 where
  input_report output_report local_report reader_report : StatusType

-- The commands that ride the queue, with their data, and a file transfer.
pub data Command : Type 0 where
  output : (output_no control_code timer_count : ℕ) → Command
  led : (reader led_number : ℕ) (temporary permanent : LedParams) → Command
  buzzer : (reader control_code on_count off_count rep_count : ℕ) → Command
  text : (reader control_code temp_time offset_row offset_col : ℕ) (data' : List ℕ) → Command
  tdset : (year month day hour minute second : ℕ) → Command
  comset : (address baud_rate : ℕ) → Command
  mfg : (vendor_code : ℕ) (data' : List ℕ) → Command
  bioread : (reader type format quality : ℕ) → Command
  biomatch : (reader type format quality : ℕ) (data' : List ℕ) → Command
  status : (type : StatusType) → Command
  keyset : (type : ℕ) (data' : List ℕ) → Command
  file_tx : (id flags : ℕ) → Command

-- struct osdp_cmd: `broadcast` is the flag OSDP_CMD_FLAG_BROADCAST, `other_flags` whether any other is set.
pub record Cmd : Type 0 where
  pub broadcast : Bool
  pub other_flags : Bool
  pub body : Command

-- enum osdp_completion_status
pub data Completion : Type 0 where
  ok failed flushed aborted : Completion

-- The notifications of the event callback.
pub data Notification : Type 0 where
  pd_status : (is_up : Bool) → Notification
  sc_status : (active scbk_d : Bool) → Notification
  pd_id : Notification

-- `notifies` says that there is an event callback and that notifications are enabled, and `completes`
-- that there is a completion callback. `readers` is the number of readers among the PD's capabilities. `told` and `completions` are what the
-- two callbacks were given, the last one first. `on_complete` is what the application submits from inside of its completion callback, by the
-- commands that it was given back before.
pub record Panel : Type 0 where
  pub pd : Device
  pub state : State
  pub sc_established : Bool
  pub ignore_unsolicited : Bool
  pub notifies : Bool
  pub completes : Bool
  pub single_pd : Bool
  pub readers : ℕ
  pub request : Requests
  pub wait_ms : ℕ
  pub sc_tstamp : ℕ
  pub phy_tstamp : ℕ
  pub resp_timeout_ms : ℕ
  pub baud_rate : ℕ
  pub cmd_queue : List Cmd
  pub active_cmd : Option Cmd
  pub engine_cmd : Option Cmd
  pub told : List Notification
  pub completions : List (Cmd × Completion)
  pub on_complete : List (Cmd × Completion) → Cmd → Completion → List Cmd

-- enum osdp_cp_phy_state_e, the values of `phy_state`.
abbrev pub phy_idle : ℕ
phy_idle = 0

abbrev pub phy_send_cmd : ℕ
phy_send_cmd = 1

abbrev pub phy_send_cmd_wait : ℕ
phy_send_cmd_wait = 2

abbrev pub phy_reply_wait : ℕ
phy_reply_wait = 3

abbrev pub phy_wait : ℕ
phy_wait = 4

abbrev pub phy_retry_cmd : ℕ
phy_retry_cmd = 5

abbrev pub phy_done : ℕ
phy_done = 6

abbrev pub phy_err : ℕ
phy_err = 7

-- cp_state_is_online
abbrev pub is_online : State → Bool
is_online online = true
is_online _ = false

abbrev pub is_disabled : State → Bool
is_disabled disabled = true
is_disabled _ = false

abbrev pub sc_use_scbkd : Panel → Bool
sc_use_scbkd p = p.pd.flags.sc_use_scbkd

abbrev pub is_enforcing : Panel → Bool
is_enforcing p = p.pd.flags.enforce_secure

-- osdp_millis_since, on a clock that does not go back.
abbrev pub millis_since : ℕ → ℕ → ℕ
millis_since now last = now - last

abbrev pub set_scbkd : Panel → Bool → Panel
set_scbkd p b = record p { pd = record p.pd { flags = record p.pd.flags { sc_use_scbkd = b } } }

unfoldable pub notify : Panel → Notification → Panel
notify p n = if p.notifies then record p { told = n ∷ p.told; pd = report_metric p.pd event } else p

unfoldable pub notify_pd_status : Panel → Bool → Panel
unfolding notify
notify_pd_status p is_up = notify p (pd_status is_up)

unfoldable pub notify_sc_status : Panel → Panel
unfolding notify
notify_sc_status p = notify p (sc_status (sc_is_active p.pd) (sc_use_scbkd p))

-- osdp_cmd_reader_no of src/osdp_common.c; `none` is -1.
unfoldable pub reader_no : Command → Option ℕ
reader_no (led r n t p) = some r
reader_no (buzzer r c on off n) = some r
reader_no (text r c t row col d) = some r
reader_no (bioread r t f q) = some r
reader_no (biomatch r t f q d) = some r
reader_no _ = none

abbrev pub is_beyond : Option ℕ → ℕ → Bool
is_beyond none readers = false
is_beyond (some r) readers = ltb readers r

unfoldable pub enqueue : Panel → Cmd → Bool × Panel
enqueue p cmd = (true, record p { cmd_queue = p.cmd_queue ++ (cmd ∷ []) })

-- The checks of cp_submit_command that all commands share.
unfoldable pub may_submit : Panel → Cmd → Bool
unfolding reader_no
may_submit p cmd =
    p.completes
    && ((not (is_disabled p.state) && is_online p.state)
        && (not cmd.other_flags
            && (not (cmd.broadcast && (not p.single_pd || is_enforcing p))
                && not (is_beyond (reader_no cmd.body) p.readers))))

-- Whether cp_submit_command queues a command that passed these checks: a key has its own, and a file transfer is
-- never queued.
abbrev pub is_queued : Panel → Command → Bool
is_queued p (keyset type d) = type == 1 && sc_is_active p.pd
is_queued p (file_tx id flags) = false
is_queued p _ = true

abbrev pub accepts : Panel → Cmd → Bool
accepts p cmd = may_submit p cmd && is_queued p cmd.body

-- Commands that the application submits from inside of its completion callback. A file transfer that it starts
-- there is left out, and so is a flush.
unfoldable pub submit_each : Panel → List Cmd → Panel
unfolding enqueue
submit_each p [] = p
submit_each p (cmd ∷ cmds) = submit_each (if accepts p cmd then (enqueue p cmd).1 else p) cmds

-- cp_complete_cmd, of a command that may not be there. The application may submit others before its callback
-- returns.
unfoldable pub complete_cmd : Panel → Option Cmd → Completion → Panel
unfolding submit_each
complete_cmd p none s = p
complete_cmd p (some cmd) s =
    if p.completes
    then submit_each (record p { completions = (cmd, s) ∷ p.completions })
        (p.on_complete p.completions cmd s)
    else p
