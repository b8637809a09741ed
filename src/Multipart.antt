-- ===== src/Multipart.antt =====
-- The multi-part transfer engine of src/osdp_multipart.c: `struct osdp_multipart` and its enums.
-- The data plane (`struct osdp_mp_ops`) is application code: it is a pair of functions over a state
-- `S` of its own, which is the engine's `arg`. The event callback is the list of what it was told.
pub mod Header
pub mod Buffer
pub mod Lifecycle
pub mod Tx
pub mod Rx
pub mod Transfer
mod Examples
use libosdp.Common.{
  ℕ, ◌+◌, ◌*◌, ◌-◌, ◌%◌, Bool, false, Option, none, List, [], ◌∷◌, ◌++◌, if◌then◌else◌, ◌||◌, true,
}

-- enum osdp_mp_width
pub data Width : Type 0 where
  w16 w32 : Width

abbrev pub width_bytes : Width → ℕ
width_bytes w16 = 2
width_bytes w32 = 4

-- OSDP_MP_HDR_SIZE
abbrev pub hdr_size : Width → ℕ
hdr_size w = 2 * width_bytes w + 2

-- enum osdp_mp_state
pub data State : Type 0 where
  idle inprog wait done : State

-- enum osdp_mp_rc
pub data Rc : Type 0 where
  more done early_term err retry : Rc

-- enum osdp_mp_action, less ABORT, which nothing returns
pub data Action : Type 0 where
  data_now wait done : Action

-- enum osdp_mp_rx_status
pub data RxStatus : Type 0 where
  ok retry abort : RxStatus

-- enum osdp_mp_phase
pub data Phase : Type 0 where
  start progress done : Phase

-- struct osdp_mp_progress; the identity is relayed and never read.
pub record Progress : Type 0 where
  pub msg_type : ℕ
  pub object_id : ℕ
  pub total : ℕ
  pub offset : ℕ
  pub outcome : ℕ

-- struct osdp_mp_ops. `read s size offset` is the bytes placed at `dst`, or `none` for a negative
-- return; `write s src offset` consumes a chunk.
pub record Ops (S : Type 0) : Type 0 where
  pub read : S → ℕ → ℕ → Option (List ℕ) × S
  pub write : S → List ℕ → ℕ → RxStatus × S

-- `buf_len` is `none` while `buf` is NULL; the bytes of a bound buffer are the state `arg`.
-- `has_event_cb` says that a callback is registered, `events` is what it was called with so far.
pub record Multipart (S : Type 0) : Type 0 where
  pub state : State
  pub width : Width
  pub total : ℕ
  pub offset : ℕ
  pub last_len : ℕ
  pub last_off : ℕ
  pub ops : Ops S
  pub arg : S
  pub buf_len : Option ℕ
  pub has_event_cb : Bool
  pub events : List (Phase × Progress)
  pub msg_type : ℕ
  pub object_id : ℕ
  pub done_outcome : ℕ
  pub start_emitted : Bool
  pub cancel_req : Bool
  pub wait_time_ms : ℕ
  pub tstamp : ℕ

-- uint32_t a - b
abbrev pub sub_u32 : ℕ → ℕ → ℕ
sub_u32 a b = (a + 4294967296 - b) % 4294967296

abbrev pub is_active_state : State → Bool
is_active_state inprog = true
is_active_state wait = true
is_active_state _ = false

module _ {S : Type 0} where
  -- What the callback is told, filled from the engine's state.
  abbrev pub progress_of : Multipart S → Progress
  progress_of mp = record {
    msg_type = mp.msg_type;
    object_id = mp.object_id;
    total = mp.total;
    offset = mp.offset;
    outcome = mp.done_outcome;
  }

  -- mp_emit
  unfoldable pub emit : Multipart S → Phase → Multipart S
  emit mp phase =
      if mp.has_event_cb
      then record mp { events = mp.events ++ (phase, progress_of mp) ∷ [] }
      else mp

  unfoldable pub is_active : Multipart S → Bool
  is_active mp = is_active_state mp.state
