-- ===== src/Cp/Control.antt =====
-- What the application calls of src/osdp_cp.c between two passes of the refresh loop: osdp_cp_disable_pd,
-- osdp_cp_enable_pd, osdp_cp_submit_command and osdp_cp_flush_commands.
use libosdp.Common.{ℕ, ◌+◌, Bool, true, false, not, ◌||◌, some, List, [], ◌∷◌, ◌==◌, if◌then◌else◌}
use libosdp.Device.{sc_is_active}
use libosdp.Cp.{
  Panel, Cmd, Command, keyset, file_tx, Completion, flushed, complete_cmd, is_disabled, may_submit,
  enqueue,
}
use libosdp.Cp.Link.{Layers}

-- osdp_cp_disable_pd; `true` is 0.
unfoldable pub disable_pd : Panel → Bool × Panel
disable_pd p =
    if is_disabled p.state || p.request.disable
    then (false, p)
    else (true, record p { request = record p.request { disable = true } })

-- osdp_cp_enable_pd
unfoldable pub enable_pd : Panel → Bool × Panel
enable_pd p =
    if not (is_disabled p.state) || p.request.enable
    then (false, p)
    else (true, record p { request = record p.request { enable = true } })

-- A file transfer that was started owns the command.
abbrev pub owned : Cmd → Bool × Panel → Bool × Panel
owned cmd (false, p) = (false, p)
owned cmd (true, p) = (true, record p { engine_cmd = some cmd })

module _ (layers : Layers) where
  -- A command by its kind, once the checks that all share are passed.
  unfoldable pub route : Panel → Cmd → Command → Bool × Panel
  unfolding enqueue
  route p cmd (file_tx id flags) = owned cmd (layers.file_tx_command p id flags)
  route p cmd (keyset type d) =
      if not (type == 1) || not (sc_is_active p.pd) then (false, p) else enqueue p cmd
  route p cmd _ = enqueue p cmd

  -- cp_submit_command, without the smartcard operations and TRS; `true` is 0.
  unfoldable pub submit_command : Panel → Cmd → Bool × Panel
  unfolding may_submit route
  submit_command p cmd = if not (may_submit p cmd) then (false, p) else route p cmd cmd.body

-- cp_drain_queue: the number of commands that went back to the application.
unfoldable pub drain_queue : Panel → List Cmd → Completion → ℕ × Panel
drain_queue p [] s = (0, p)
drain_queue p (cmd ∷ rest) s =
    let (n, q) = drain_queue (complete_cmd p (some cmd) s) rest s in (n + 1, q)

-- osdp_cp_flush_commands
unfoldable pub flush_commands : Panel → ℕ × Panel
flush_commands p = drain_queue (record p { cmd_queue = [] }) p.cmd_queue flushed
