-- ===== src/Pd/Engines.antt =====
-- What src/osdp_pd.c calls of the feature engines: file transfer, smartcards, biometrics and the
-- transparent reader. They keep a state `E` of their own.
use libosdp.Common.{ℕ, Bool, Option, List}
use libosdp.Pd.Event.{Event}

-- What osdp_piv_pd_cmd_frag finds: an error, a fragment with more to come, or the whole command.
pub data Fragment : Type 0 where
  fragment_refused : Fragment
  fragment_kept : Fragment
  whole : (data' : List ℕ) → Fragment

-- The results of osdp_trs_cmd_decode.
pub data TrsDecode : Type 0 where
  trs_refused trs_ack trs_mode_report : TrsDecode
  trs_to_app : (data' : List ℕ) → TrsDecode

-- An empty list is a result of 0 or less. `piv_takes` says that the event has the type that the smartcard
-- engine waits for.
pub record Engines (E : Type 0) : Type 0 where
  pub abort : E → E
  pub file_cmd_tx_decode : E → List ℕ → Bool × E
  pub file_cmd_stat_build : E → ℕ → List ℕ × E
  pub piv_reply_pending : E → Bool
  pub piv_reply_id : E → ℕ
  pub piv_takes : E → Event → Bool
  pub piv_open : E → ℕ → Bool × E
  pub piv_cmd_frag : E → ℕ → List ℕ → Fragment × E
  pub piv_abort : E → E
  pub piv_reply_build : E → Option Event → ℕ → List ℕ × E
  pub bio_reply_pending : E → Bool
  pub bio_reply_build : E → Option Event → ℕ → Option (List ℕ) × E
  pub trs_cmd_decode : E → List ℕ → TrsDecode × E
  pub trs_reply_build : E → Option Event → ℕ → List ℕ × E
