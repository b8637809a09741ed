-- ===== src/Metrics/Examples.antt =====
-- Concrete runs of src/osdp_metrics.c.
use libosdp.Common.{◌≡◌, refl, [], ◌∷◌, arith}
use libosdp.Metrics.{Metrics, packet_sent, nak, uint32_max, zeros, sat_inc, report, report_all}
use libosdp.Metrics.Counting.{counter, counter-report_all}

abbrev nearly_full : Metrics
nearly_full = record zeros { nak_count = 4294967294 }

abbrev sent_once : Metrics
sent_once = record zeros { packets_sent = 1 }

counter-report_all_example :
    counter nak (report_all nearly_full (nak ∷ packet_sent ∷ nak ∷ nak ∷ [])) ≡ uint32_max
counter-report_all_example =
    counter-report_all nak nearly_full (nak ∷ packet_sent ∷ nak ∷ nak ∷ []) (omega arith)

counts_by_evaluation :
    report_all zeros (packet_sent ∷ nak ∷ []) ≡ record sent_once { nak_count = 1 }
unfolding report_all report sat_inc
counts_by_evaluation = refl
