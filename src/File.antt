-- ===== src/File.antt =====
-- File transfer, src/osdp_file.c and src/osdp_file.h, over the multi-part engine: `struct osdp_file`,
-- the data plane that it gives the engine, and the way every transfer ends. The application's file
-- operations are functions over a state `A` of its own; the three fields of `struct osdp_pd` that the
-- module uses stand in the same record.
pub mod Sender
pub mod Receiver
pub mod Control
pub mod Status
pub mod Lifetime
mod Examples
use libosdp.Common.{
  ℕ, ◌+◌, ◌-◌, ◌/◌, ◌%◌, ℤ, pos, negsuc, Bool, true, false, ◌&&◌, Option, none, some, List, [], ltb,
  ◌==◌, if◌then◌else◌, length, has_bit, set_bit,
}
use libosdp.Multipart.{Multipart, Ops, State, RxStatus, ok, abort}
use libosdp.Multipart.Lifecycle.{reset, emit_start, finish}

-- enum osdp_mp_outcome of include/osdp.h
pub data Outcome : Type 0 where
  finished rebooting aborted unrecognized invalid : Outcome

-- The value of the enumerator.
abbrev pub outcome_value : Outcome → ℕ
outcome_value finished = 0
outcome_value rebooting = 1
outcome_value aborted = 2
outcome_value unrecognized = 3
outcome_value invalid = 4

-- What the application's finalize() answers: whether it is done, and through its two pointers the
-- outcome and a delay.
pub record Verdict : Type 0 where
  pub ready : Bool
  pub outcome : Outcome
  pub delay : ℕ

-- struct osdp_file_ops. A negative return is `none`, or `false` where nothing else is returned;
-- `open_file` takes and gives back `*size`, `read_at` gives the bytes it put in the buffer.
pub record FileOps (A : Type 0) : Type 0 where
  pub open_file : A → ℕ → ℕ → Option ℕ × A
  pub read_at : A → ℕ → ℕ → Option (List ℕ) × A
  pub write_at : A → List ℕ → ℕ → ℤ × A
  pub close_file : A → Bool × A
  pub finalize : Option (A → Verdict × A)

-- What the data plane changes: the application's state and `write_failed`.
pub record Plane (A : Type 0) : Type 0 where
  pub app : A
  pub write_failed : Bool

-- struct osdp_file, with the PD's mode, its request for CP_REQ_OFFLINE and its command callback, which
-- is told the flags and the file's ID. `opens` and `closes` are not in the source: they count the calls
-- of the application's open that succeeded, and those of its close.
pub record File (A : Type 0) : Type 0 where
  pub cp_mode : Bool
  pub offline_request : Bool
  pub command_callback : Option (A → ℕ → ℕ → Bool × A)
  pub ops : FileOps A
  pub flags : ℕ
  pub file_id : ℕ
  pub mp : Multipart (Plane A)
  pub is_open : Bool
  pub keep_alive_pending : Bool
  pub finalize_tstamp : ℕ
  pub errors : ℕ
  pub in_terminal : Bool
  pub opens : ℕ
  pub closes : ℕ

-- OSDP_FILE_TX_FLAG_EXCLUSIVE, _PLAIN_TEXT and _POLL_RESP
abbrev pub flag_exclusive : ℕ
flag_exclusive = 0x01000000

abbrev pub flag_plain_text : ℕ
flag_plain_text = 0x02000000

abbrev pub flag_poll_resp : ℕ
flag_poll_resp = 0x04000000

-- SET_FLAG_V
abbrev pub set_flag_v : ℕ → Bool → ℕ → ℕ
set_flag_v m v x = if v then set_bit m x else if has_bit m x then x - m else x

-- OSDP_MP_MSG_FILE_TRANSFER
abbrev pub msg_file_transfer : ℕ
msg_file_transfer = 1

-- `n == (int)size`
abbrev pub is_count : ℤ → ℕ → Bool
is_count (pos n) size = n == size
is_count (negsuc n) size = false

abbrev pub is_rebooting : Outcome → Bool
is_rebooting rebooting = true
is_rebooting _ = false

module _ {A : Type 0} where
  -- The fields that are on the application's side.
  abbrev pub app_of : File A → A
  app_of f = f.mp.arg.app

  abbrev pub with_app : File A → A → File A
  with_app f a = record f { mp = record f.mp { arg = record f.mp.arg { app = a } } }

  abbrev pub file_mp_read : FileOps A → Plane A → ℕ → ℕ → Option (List ℕ) × Plane A
  file_mp_read ops p size offset =
      let (bytes, app') = ops.read_at p.app size offset in (bytes, record p { app = app' })

  abbrev pub file_mp_write : FileOps A → Plane A → List ℕ → ℕ → RxStatus × Plane A
  file_mp_write ops p src offset =
      let (n, app') = ops.write_at p.app src offset in
      if is_count n (length src)
      then (ok, record p { app = app' })
      else (abort, record p { app = app'; write_failed = true })

  abbrev pub file_mp_ops : FileOps A → Ops (Plane A)
  file_mp_ops ops = record { read = file_mp_read ops; write = file_mp_write ops }

  -- file_state_reset. What the event callback was told is not the engine's own, and stays.
  unfoldable pub state_reset : File A → File A
  state_reset f = record f {
    flags = 0;
    errors = 0;
    is_open = false;
    keep_alive_pending = false;
    finalize_tstamp = 0;
    file_id = 0;
    in_terminal = false;
    mp = record (reset (file_mp_ops f.ops) (record { app = app_of f; write_failed = false })) {
      events = f.mp.events;
      has_event_cb = true;
    };
  }

  -- The application opened a file.
  abbrev pub opened_with : File A → A → File A
  opened_with f a = record (with_app f a) { opens = f.opens + 1 }

  -- The application's close is called; a failure is logged only.
  abbrev pub closed_with : File A → File A
  closed_with f =
      let (_, app') = f.ops.close_file (app_of f) in
      record (with_app f app') { closes = f.closes + 1 }

  unfoldable pub close_if_open : File A → File A
  close_if_open f = if f.is_open then record (closed_with f) { is_open = false } else f

  -- The engine's part of the end of a transfer.
  unfoldable pub end_engine : File A → Outcome → File A
  end_engine f outcome = record f {
    in_terminal = true;
    mp = finish (emit_start f.mp) (outcome_value outcome);
  }

  -- file_transition_done
  unfoldable pub transition_done : File A → Outcome → File A
  unfolding state_reset close_if_open end_engine
  transition_done f outcome =
      let closed = close_if_open (end_engine f outcome) in
      state_reset (
        if f.cp_mode && is_rebooting outcome
        then record closed { offline_request = true }
        else closed)
