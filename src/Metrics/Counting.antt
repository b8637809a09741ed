-- ===== src/Metrics/Counting.antt =====
-- What the counters of src/osdp_metrics.c hold after a history of reports, and what reading them
-- does.
use libosdp.Common.{
  ℕ, zero, suc, ◌+◌, ◌≤◌, ◌<◌, min, ◌≡◌, refl, some, List, [], ◌∷◌, ◌==◌, arith, pos, true,
  if◌then◌else◌, length, set, get_or,
}
use libosdp.Metrics.{
  Metrics, Event, packet_sent, packet_received, packet_check_error, nak, sc_handshake, sc_failure,
  command, event, uint32_max, zeros, sat_inc, report, enum_value, report_all, get_metrics,
  take_metrics,
}

-- The counter that an event stands for.
abbrev pub counter : Event → Metrics → ℕ
counter packet_sent m = m.packets_sent
counter packet_received m = m.packets_received
counter packet_check_error m = m.packet_check_errors
counter nak m = m.nak_count
counter sc_handshake m = m.sc_handshake_count
counter sc_failure m = m.sc_failure_count
counter command m = m.command_count
counter event m = m.event_count

-- How often an event was reported.
abbrev pub occurrences : Event → List Event → ℕ
occurrences e [] = 0
occurrences e (f ∷ fs) = (if enum_value e == enum_value f then 1 else 0) + occurrences e fs

-- One report moves its own counter, saturating, and no other.
pub counter-report :
    (e f : Event) (m : Metrics)
    → counter e (report m f)
      ≡ (if enum_value e == enum_value f then sat_inc (counter e m) else counter e m)
unfolding report
counter-report packet_sent f m = ground arith
counter-report _ f m = ground arith

sat_inc-le : (c : ℕ) → c ≤ uint32_max → sat_inc c ≤ uint32_max
unfolding sat_inc
sat_inc-le c h = ground arith

counter-report-le :
    (e f : Event) (m : Metrics) → counter e m ≤ uint32_max → counter e (report m f) ≤ uint32_max
unfolding sat_inc
counter-report-le e f m h = ground (arith, counter-report e f m)

-- From a counter that is a uint32_t, and after any history of reports, each counter holds its old
-- value plus the number of its own events, stopped at UINT32_MAX, so it never wraps.
pub counter-report_all :
    (e : Event) (m : Metrics) (es : List Event)
    → counter e m ≤ uint32_max
    → counter e (report_all m es) ≡ min (counter e m + occurrences e es) uint32_max
unfolding report_all sat_inc
counter-report_all e m [] h = omega arith
counter-report_all e m (f ∷ fs) h =
    ground
      (arith, counter-report e f m, counter-report-le e f m h, counter-report_all e (report m f) fs)

-- Reading the counters of a PD that exists gives them as they were, sets them to zero, and leaves
-- those of the other PDs alone.
pub get_metrics_lem :
    (ms : List Metrics) (i : ℕ)
    → i < length ms
    → get_metrics (some ms) true (pos i) ≡ some (get_or ms i zeros, set ms i zeros)
unfolding get_metrics take_metrics
get_metrics_lem [] i h = absurd (omega arith)
get_metrics_lem (m ∷ ms) zero h = refl
get_metrics_lem (m ∷ ms) (suc i) h = rw (get_metrics_lem ms i (omega arith))
