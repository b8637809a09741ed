-- ===== src/Cp/Flush.antt =====
-- What osdp_cp_flush_commands of src/osdp_cp.c gives back.
use libosdp.Common.{
  ℕ, ◌+◌, ◌≡◌, refl, sym, ap, ◌∙◌, Bool, true, false, List, [], ◌∷◌, ◌++◌, append_assoc, append-nil,
  length, some, arith, if◌then◌else◌,
}
use mathlib.Core.Path.{subst}
use libosdp.Cp.{
  Panel, Cmd, Completion, flushed, accepts, may_submit, enqueue, submit_each, complete_cmd,
}
use libosdp.Cp.Control.{drain_queue, flush_commands}

-- The commands of a queue with a status, the last one first.
abbrev pub completed : List Cmd → Completion → List (Cmd × Completion)
completed [] s = []
completed (cmd ∷ rest) s = completed rest s ++ ((cmd, s) ∷ [])

abbrev pub only : (Cmd → Bool) → List Cmd → List Cmd
only f [] = []
only f (cmd ∷ cmds) = if f cmd then cmd ∷ only f cmds else only f cmds

-- What the application submits while it gets a queue back, and is accepted: it reacts to each command by those
-- that it was given back before.
abbrev pub submitted :
    (Cmd → Bool)
    → (List (Cmd × Completion) → Cmd → Completion → List Cmd)
    → List (Cmd × Completion)
    → List Cmd
    → Completion
    → List Cmd
submitted f react done [] s = []
submitted f react done (cmd ∷ rest) s =
    only f (react done cmd s) ++ submitted f react ((cmd, s) ∷ done) rest s

-- One command more, whether it is accepted or not.
step-eq :
    (p : Panel) (cmd : Cmd) (cmds : List Cmd) (b : Bool)
    → submit_each (enqueue p cmd).1 cmds
      ≡ record p { cmd_queue = (p.cmd_queue ++ (cmd ∷ [])) ++ only (accepts p) cmds }
    → submit_each p cmds ≡ record p { cmd_queue = p.cmd_queue ++ only (accepts p) cmds }
    → submit_each (if b then (enqueue p cmd).1 else p) cmds ≡ record p {
      cmd_queue = p.cmd_queue ++ (if b then cmd ∷ only (accepts p) cmds else only (accepts p) cmds);
    }
step-eq p cmd cmds true e f =
    e
    ∙ ap (λ (l : List Cmd). record p { cmd_queue = l })
        (append_assoc p.cmd_queue (cmd ∷ []) (only (accepts p) cmds))
step-eq p cmd cmds false e f = f

submit_each-eq :
    (cmds : List Cmd) (p : Panel)
    → submit_each p cmds ≡ record p { cmd_queue = p.cmd_queue ++ only (accepts p) cmds }
unfolding submit_each enqueue may_submit
submit_each-eq [] p =
    ap (λ (l : List Cmd). record p { cmd_queue = l }) (sym (append-nil p.cmd_queue))
submit_each-eq (cmd ∷ cmds) p =
    step-eq p cmd cmds (accepts p cmd) (submit_each-eq cmds (enqueue p cmd).1)
      (submit_each-eq cmds p)

-- A command that was given back, with what the application submitted meanwhile.
abbrev after_one : Panel → Cmd → Completion → Panel
after_one p cmd s = record p {
  completions = (cmd, s) ∷ p.completions;
  cmd_queue = p.cmd_queue ++ only (accepts p) (p.on_complete p.completions cmd s);
}

complete_cmd_lem :
    (p : Panel) (cmd : Cmd) (s : Completion)
    → p.completes ≡ true
    → complete_cmd p (some cmd) s ≡ after_one p cmd s
unfolding complete_cmd may_submit
complete_cmd_lem p cmd s h =
    let given_back = record p { completions = (cmd, s) ∷ p.completions } in
    ap (λ (b : Bool). if b then submit_each given_back (p.on_complete p.completions cmd s) else p) h
    ∙ submit_each-eq (p.on_complete p.completions cmd s) given_back

drain_queue_lem :
    (queue : List Cmd) (p : Panel) (s : Completion)
    → p.completes ≡ true
    → let r = drain_queue p queue s in
      (r.0 ≡ length queue)
      × (r.1.completions ≡ completed queue s ++ p.completions)
      × (r.1.cmd_queue ≡ p.cmd_queue ++ submitted (accepts p) p.on_complete p.completions queue s)
unfolding drain_queue may_submit
drain_queue_lem [] p s h = (refl, refl, sym (append-nil p.cmd_queue))
drain_queue_lem (cmd ∷ rest) p s h =
    let (n, done, left) = drain_queue_lem rest (after_one p cmd s) s h in
    subst
      (λ (q : Panel).
        let r = drain_queue q rest s in
        (r.0 + 1 ≡ length (cmd ∷ rest))
        × (r.1.completions ≡ completed (cmd ∷ rest) s ++ p.completions)
        × (r.1.cmd_queue
            ≡ p.cmd_queue ++ submitted (accepts p) p.on_complete p.completions (cmd ∷ rest) s))
      (sym (complete_cmd_lem p cmd s h))
      (
        ap (λ (k : ℕ). k + 1) n ∙ omega arith,
        done ∙ sym (append_assoc (completed rest s) ((cmd, s) ∷ []) p.completions),
        left ∙ append_assoc p.cmd_queue (only (accepts p) (p.on_complete p.completions cmd s)) _,
      )

-- Flushing returns each command that was queued to the application once, in the order of the queue and as
-- flushed, and counts them, given a completion callback. The queue then holds just the commands that the
-- application submitted from inside of that callback meanwhile, in their order, of those that are accepted.
pub flush_commands_lem :
    (p : Panel)
    → p.completes ≡ true
    → let r = flush_commands p in
      (r.0 ≡ length p.cmd_queue)
      × (r.1.completions ≡ completed p.cmd_queue flushed ++ p.completions)
      × (r.1.cmd_queue ≡ submitted (accepts p) p.on_complete p.completions p.cmd_queue flushed)
unfolding flush_commands may_submit
flush_commands_lem p h = drain_queue_lem p.cmd_queue (record p { cmd_queue = [] }) flushed h
