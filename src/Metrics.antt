-- ===== src/Metrics.antt =====
-- The health counters of src/osdp_metrics.c. A counter is a uint32_t; `Metrics` is
-- `struct osdp_metrics`, and `Event` is `enum osdp_metric_event`.
pub mod Counting
mod Examples
use mathlib.Core.Option
use libosdp.Common.{
  ℕ, zero, suc, ◌+◌, ℤ, pos, negsuc, Bool, true, false, Option, none, some, List, [], ◌∷◌, ◌==◌,
  if◌then◌else◌,
}

pub record Metrics : Type 0 where
  pub packets_sent : ℕ
  pub packets_received : ℕ
  pub packet_check_errors : ℕ
  pub nak_count : ℕ
  pub sc_handshake_count : ℕ
  pub sc_failure_count : ℕ
  pub command_count : ℕ
  pub event_count : ℕ

pub data Event : Type 0 where
  packet_sent packet_received packet_check_error nak sc_handshake sc_failure command event : Event

abbrev pub uint32_max : ℕ
uint32_max = 4294967295

unfoldable pub sat_inc : ℕ → ℕ
sat_inc c = if c == uint32_max then c else c + 1

unfoldable pub report : Metrics → Event → Metrics
report m packet_sent = record m { packets_sent = sat_inc m.packets_sent }
report m packet_received = record m { packets_received = sat_inc m.packets_received }
report m packet_check_error = record m { packet_check_errors = sat_inc m.packet_check_errors }
report m nak = record m { nak_count = sat_inc m.nak_count }
report m sc_handshake = record m { sc_handshake_count = sat_inc m.sc_handshake_count }
report m sc_failure = record m { sc_failure_count = sat_inc m.sc_failure_count }
report m command = record m { command_count = sat_inc m.command_count }
report m event = record m { event_count = sat_inc m.event_count }

abbrev pub zeros : Metrics
zeros = record {
  packets_sent = 0;
  packets_received = 0;
  packet_check_errors = 0;
  nak_count = 0;
  sc_handshake_count = 0;
  sc_failure_count = 0;
  command_count = 0;
  event_count = 0;
}

-- The value of the enumerator.
abbrev pub enum_value : Event → ℕ
enum_value packet_sent = 0
enum_value packet_received = 1
enum_value packet_check_error = 2
enum_value nak = 3
enum_value sc_handshake = 4
enum_value sc_failure = 5
enum_value command = 6
enum_value event = 7

unfoldable pub report_all : Metrics → List Event → Metrics
report_all m [] = m
report_all m (e ∷ es) = report_all (report m e) es

-- The counters of PD `i`, and those of all PDs with its own reset.
take_metrics : List Metrics → ℕ → Option (Metrics × List Metrics)
take_metrics [] i = none
take_metrics (m ∷ ms) zero = some (m, zeros ∷ ms)
take_metrics (m ∷ ms) (suc i) = Option.map (λ (out, rest). (out, m ∷ rest)) (take_metrics ms i)

-- osdp_get_metrics: the context is the list of its PDs' counters, `none` when `ctx` is NULL, and
-- `has_out` says that `out` is not NULL. `none` is the return value -1.
unfoldable pub get_metrics : Option (List Metrics) → Bool → ℤ → Option (Metrics × List Metrics)
unfolding take_metrics
get_metrics none has_out pd_idx = none
get_metrics (some ms) false pd_idx = none
get_metrics (some ms) true (negsuc n) = none
get_metrics (some ms) true (pos i) = take_metrics ms i
