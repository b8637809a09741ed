-- ===== src/File/Examples.antt =====
-- A transfer of src/osdp_file.c by an application that keeps one file in memory.
use libosdp.Common.{
  ℕ, ◌+◌, ◌≡◌, refl, pos, negsuc, true, false, none, some, List, [], ◌∷◌, arith, replicate, length,
  take, drop,
}
use libosdp.Multipart.{is_active}
use libosdp.Multipart.Tx.{tx_init}
use libosdp.Multipart.Lifecycle.{reset}
use libosdp.File.{
  File, FileOps, Plane, aborted, rebooting, file_mp_ops, state_reset, transition_done,
  flag_exclusive,
}
use libosdp.File.Status.{
  Stat, stat_size, read_stat, write_stat, read_stat-write_stat, outcome_from_wire_status,
  wire_status_from_outcome, outcome_delivered,
}
use libosdp.File.Control.{tx_command, tx_get_command}
use libosdp.File.Lifetime.{is_live, ends, IsBalanced, IsConsistent, transition_done-lem}
use libosdp.File.Lifetime.Engine.{IsPaired}
use libosdp.File.Lifetime.Runs.{Reach, here, next, starts, schedules, Reach-IsConsistent}

-- The application's state is the file.
abbrev memory : FileOps (List ℕ)
memory = record {
  open_file = λ file id size. (some (length file), file);
  read_at = λ file size offset. (some (take size (drop offset file)), file);
  write_at = λ file src offset. (pos (length src), file);
  close_file = λ file. (true, file);
  finalize = none;
}

abbrev plane : Plane (List ℕ)
plane = record { app = 1 ∷ 2 ∷ 3 ∷ []; write_failed = false }

abbrev blank : File (List ℕ)
blank = record {
  cp_mode = true;
  offline_request = false;
  command_callback = none;
  ops = memory;
  flags = 0;
  file_id = 0;
  mp = reset (file_mp_ops memory) plane;
  is_open = false;
  keep_alive_pending = false;
  finalize_tstamp = 0;
  errors = 0;
  in_terminal = false;
  opens = 0;
  closes = 0;
}

abbrev registered : File (List ℕ)
registered = state_reset blank

abbrev opened : File (List ℕ)
opened = (tx_command registered false 7 flag_exclusive).1

abbrev scheduled : File (List ℕ)
scheduled = (tx_get_command opened 100).1

opened_live : is_live opened ≡ true
unfolding tx_command state_reset reset is_active tx_init
opened_live = refl

scheduled_run : Reach registered scheduled
scheduled_run = next (next here (starts false 7 flag_exclusive)) (schedules 100)

Reach-IsConsistent_example : IsConsistent scheduled
unfolding reset
Reach-IsConsistent_example = Reach-IsConsistent blank scheduled refl refl scheduled_run

opened-IsPaired : IsPaired opened.mp
unfolding reset
opened-IsPaired =
    (Reach-IsConsistent blank opened refl refl (next here (starts false 7 flag_exclusive))).paired

opened-IsBalanced : IsBalanced opened
unfolding reset
opened-IsBalanced =
    (Reach-IsConsistent blank opened refl refl (next here (starts false 7 flag_exclusive))).balanced

transition_done-lem_example :
    IsConsistent (transition_done opened aborted)
    × (is_live (transition_done opened aborted) ≡ false)
    × (ends (transition_done opened aborted) ≡ ends opened + 1)
    × ((transition_done opened aborted).opens ≡ (transition_done opened aborted).closes)
transition_done-lem_example =
    transition_done-lem opened aborted opened_live opened-IsPaired opened-IsBalanced

abbrev ack : Stat
ack = record { control = 1; delay = 500; status = negsuc 2; rx_size = 64 }

read_stat-write_stat_example :
    ((write_stat ack (replicate 8 0)).0 ≡ stat_size)
    × (read_stat (write_stat ack (replicate 8 0)).1 ≡ ack)
read_stat-write_stat_example =
    read_stat-write_stat 1 500 64 (negsuc 2) (replicate 8 0) (omega arith) (omega arith)
      (omega arith) (omega arith) (omega arith)

outcome_delivered_example :
    outcome_from_wire_status
      (read_stat
        (write_stat
          (record {
            control = 1;
            delay = 0;
            status = wire_status_from_outcome rebooting;
            rx_size = 0;
          })
          (replicate 8 0)).1).status
    ≡ rebooting
outcome_delivered_example =
    outcome_delivered rebooting 0 (replicate 8 0) (omega arith) (omega arith)
