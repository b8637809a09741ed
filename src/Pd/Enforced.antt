-- ===== src/Pd/Enforced.antt =====
-- A PD that enforces security (src/osdp_pd.c: pd_decode_command): what a command reaches while no secure channel is up.
use libosdp.Common.{◌≡◌, false, take}
use libosdp.Crypto.{Crypto}
use libosdp.Device.{Device, sc_is_active}
use libosdp.Pd.Peripheral.{Peripheral}
use libosdp.Pd.Engines.{Engines}

-- From `p` to `q` the application was not called, no engine ran, no event left the queue, and key, pending key and
-- address are the same; the channel is down.
pub record IsUntouched {E : Type 0} (p q : Peripheral E) : Type 0 where
  pub same_calls : q.calls ≡ p.calls
  pub same_engines : q.engines ≡ p.engines
  pub same_queue : q.event_queue ≡ p.event_queue
  pub same_active : q.active_event ≡ p.active_event
  pub same_pending : q.keyset_pending ≡ p.keyset_pending
  pub same_address : q.dev.address ≡ p.dev.address
  pub same_scbk : take 16 q.dev.sc.scbk ≡ take 16 p.dev.sc.scbk
  pub channel_down : sc_is_active q.dev ≡ false
