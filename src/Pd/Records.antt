-- ===== src/Pd/Records.antt =====
-- The commands with several records, CMD_OUT, CMD_LED and CMD_BUZ (src/osdp_pd.c: pd_decode_command): which of the
-- records the application gets.
use libosdp.Common.{
  ℕ, zero, ◌≡◌, ◌≤◌, ◌⊎◌, inl, inr, refl, sym, ap, ◌∙◌, Bool, true, false, not, ◌&&◌, Option, none,
  some, List, [], ◌∷◌, ◌++◌, if◌then◌else◌, arith, if_known,
}
use mathlib.Core.Path.{subst}
use libosdp.Device.{report_metric}
use libosdp.Cp.{Command}
use libosdp.Pd.Event.{Event}
use libosdp.Pd.Peripheral.{
  Peripheral, App, Call, Cap, given, submit_event, submit_all, call_app, command_callback,
  validate_command, is_zero,
}
use libosdp.Pd.Dispatch.{cmd_cap_ok, capable, item_of, run_record, run_records}

-- The calls of the command callback once the commands were given, the last one first.
abbrev pub delivered : List Command → List Call → List Call
delivered [] calls = calls
delivered (cmd ∷ cmds) calls = delivered cmds (given cmd ∷ calls)

module _ {E : Type 0} where
  -- The capabilities cover the record, its fields are valid, and there is a callback to give it to.
  abbrev pub reaches : Peripheral E → Command → Bool
  reaches p cmd =
      capable p (item_of cmd) p.dev.cmd_id && (validate_command p (given cmd) && p.has_callback)

  abbrev pub calls_with : Peripheral E → List Call → Command → List Call
  calls_with p calls cmd = if reaches p cmd then given cmd ∷ calls else calls

  -- What decides about a record, and stays the same while records are run.
  abbrev setup_of : Peripheral E → (ℕ → Cap) × ℕ × Bool
  setup_of p = (p.caps, p.dev.cmd_id, p.has_callback)

module _ {E : Type 0} (app : App) where
  -- After these calls, the record reaches the application, and the application takes it.
  abbrev pub takes : Peripheral E → List Call → Command → Bool
  takes p calls cmd = reaches p cmd && is_zero (app calls (given cmd)).ret

  -- The application takes each of the records, given one after the other.
  abbrev pub AllTaken : Peripheral E → List Call → List Command → Type 0
  AllTaken p calls [] = zero ≤ zero
  AllTaken p calls (cmd ∷ cmds) = (takes p calls cmd ≡ true) × AllTaken p (given cmd ∷ calls) cmds

  -- All the records were taken and given, or there is a first one that was not: those before it were taken
  -- and given, it was given only if it reaches the application, and none after it was given.
  abbrev pub Delivers : Peripheral E → List Command → List Call → Bool × Peripheral E → Type 0
  Delivers p cmds calls r =
      ((r.0 ≡ true) × AllTaken p calls cmds × (r.1.calls ≡ delivered cmds calls))
      ⊎ ((before : List Command) × (cmd : Command) × (after : List Command) × (cmds
            ≡ before ++ (cmd ∷ after))
          × (r.0 ≡ false)
          × AllTaken p calls before
          × (takes p (delivered before calls) cmd ≡ false)
          × (r.1.calls ≡ calls_with p (delivered before calls) cmd))

  submit_all-calls : (evs : List Event) (p : Peripheral E) → (submit_all p evs).calls ≡ p.calls
  unfolding submit_all submit_event
  submit_all-calls [] p = refl
  submit_all-calls (ev ∷ evs) p = submit_all-calls evs (submit_event p ev).1 ∙ ground arith

  submit_all-setup :
      (evs : List Event) (p : Peripheral E) → setup_of (submit_all p evs) ≡ setup_of p
  unfolding submit_all submit_event
  submit_all-setup [] p = refl
  submit_all-setup (ev ∷ evs) p = submit_all-setup evs (submit_event p ev).1 ∙ ground arith

  call_app-calls : (p : Peripheral E) (call : Call) → (call_app app p call).calls ≡ call ∷ p.calls
  unfolding call_app
  call_app-calls p call =
      submit_all-calls (app p.calls call).submits (record p { calls = call ∷ p.calls })

  call_app-setup : (p : Peripheral E) (call : Call) → setup_of (call_app app p call) ≡ setup_of p
  unfolding call_app
  call_app-setup p call =
      submit_all-setup (app p.calls call).submits (record p { calls = call ∷ p.calls })

  abbrev was_taken : Option (List ℕ) × Peripheral E → Bool × Peripheral E
  was_taken r = (elim r.0 [ none ↦ false | some report ↦ true ], r.1)

  -- What running a record does: whether it is covered by the capabilities, whether it is valid and whether the
  -- application takes it decide.
  record Ran (able valid good : Bool) (p : Peripheral E) (cmd : Command) (r : Bool × Peripheral E)
      : Type 0 where
    result : r.0 ≡ (able && valid) && good
    gave : r.1.calls ≡ (if able && valid then given cmd ∷ p.calls else p.calls)
    setup : setup_of r.1 ≡ setup_of p

  answered-Ran :
      (p q q' q'' : Peripheral E) (cmd : Command) (report : List ℕ) (valid good : Bool)
      → (q.calls ≡ p.calls) × (setup_of q ≡ setup_of p)
      → (q'.calls ≡ given cmd ∷ p.calls) × (setup_of q' ≡ setup_of p)
      → (q''.calls ≡ given cmd ∷ p.calls) × (setup_of q'' ≡ setup_of p)
      → Ran true valid good p cmd (
          was_taken
            (if not valid then (none, q) else if good then (some report, q') else (none, q'')))
  answered-Ran p q q' q'' cmd report false good a b c = record {
    result = refl;
    gave = a.0;
    setup = a.1;
  }
  answered-Ran p q q' q'' cmd report true true a b c = record {
    result = refl;
    gave = b.0;
    setup = b.1;
  }
  answered-Ran p q q' q'' cmd report true false a b c = record {
    result = refl;
    gave = c.0;
    setup = c.1;
  }

  callback-Ran :
      (p : Peripheral E) (cmd : Command)
      → Ran true
          (validate_command p (given cmd) && p.has_callback)
          (is_zero (app p.calls (given cmd)).ret)
          p
          cmd
          (was_taken (command_callback app p (given cmd)))
  unfolding command_callback report_metric
  callback-Ran p cmd =
      let gave = call_app-calls p (given cmd) in
      let same = call_app-setup p (given cmd) in
      answered-Ran p _ _ _ cmd (app p.calls (given cmd)).report
        (validate_command p (given cmd) && p.has_callback) (is_zero (app p.calls (given cmd)).ret)
        (refl, refl) (gave, same) (gave, same)

  able-Ran :
      (p q : Peripheral E) (cmd : Command) (rest : Peripheral E → Option (List ℕ) × Peripheral E)
      (able valid good : Bool)
      → (q.calls ≡ p.calls) × (setup_of q ≡ setup_of p)
      → Ran true valid good p cmd (was_taken (rest p))
      → let r : Bool × Peripheral E = if able then (true, p) else (false, q) in
        Ran able valid good p cmd (if r.0 then was_taken (rest r.1) else r)
  able-Ran p q cmd rest true valid good a h = h
  able-Ran p q cmd rest false valid good a h = record { result = refl; gave = a.0; setup = a.1 }

  run_record-Ran :
      (p : Peripheral E) (cmd : Command)
      → Ran
          (capable p (item_of cmd) p.dev.cmd_id)
          (validate_command p (given cmd) && p.has_callback)
          (is_zero (app p.calls (given cmd)).ret)
          p
          cmd
          (run_record app p cmd)
  unfolding run_record cmd_cap_ok
  run_record-Ran p cmd =
      able-Ran p _ cmd (λ q. command_callback app q (given cmd))
        (capable p (item_of cmd) p.dev.cmd_id) _ _ (refl, refl) (callback-Ran p cmd)

  reaches-setup :
      (p q : Peripheral E) (cmd : Command) → setup_of q ≡ setup_of p → reaches q cmd ≡ reaches p cmd
  unfolding capable validate_command
  reaches-setup p q cmd e =
      ap
        (λ (x : (ℕ → Cap) × ℕ × Bool).
          reaches (record p { caps = x.0; dev = record p.dev { cmd_id = x.1 }; has_callback = x.2 })
            cmd)
        e

  -- The first record decides, and the rest goes on from there.
  stopped :
      (p q : Peripheral E) (cmd : Command) (cmds : List Command) (r : Bool × Peripheral E)
      → setup_of q ≡ setup_of p
      → r.0 ≡ false
      → takes q q.calls cmd ≡ false
      → r.1.calls ≡ calls_with q q.calls cmd
      → Delivers p (cmd ∷ cmds) q.calls r
  stopped p q cmd cmds r same e f gave = inr (
    [],
    cmd,
    cmds,
    refl,
    e,
    omega arith,
    ap (λ (b : Bool). b && is_zero (app q.calls (given cmd)).ret) (sym (reaches-setup p q cmd same))
        ∙ f,
    gave
        ∙ ap (λ (b : Bool). if b then given cmd ∷ q.calls else q.calls)
            (reaches-setup p q cmd same),
  )

  went_on :
      (p : Peripheral E) (cmd : Command) (cmds : List Command) (calls between : List Call)
      (r : Bool × Peripheral E)
      → takes p calls cmd ≡ true
      → between ≡ given cmd ∷ calls
      → Delivers p cmds between r
      → Delivers p (cmd ∷ cmds) calls r
  went_on p cmd cmds calls between r took e h =
      go (subst (λ (l : List Call). Delivers p cmds l r) e h)
    where
      go : Delivers p cmds (given cmd ∷ calls) r → Delivers p (cmd ∷ cmds) calls r
      go (inl (ok, all, gave)) = inl (ok, (took, all), gave)
      go (inr (before, last, after, split, bad, all, f, gave)) = inr (
        cmd ∷ before,
        last,
        after,
        ap (λ (l : List Command). cmd ∷ l) split,
        bad,
        (took, all),
        f,
        gave,
      )

  Delivers-from :
      (p : Peripheral E) (cmds : List Command) (q : Peripheral E)
      → setup_of q ≡ setup_of p
      → Delivers p cmds q.calls (run_records app q cmds)
  unfolding run_records
  Delivers-from p [] q same = inl (refl, omega arith, refl)
  Delivers-from p (cmd ∷ cmds) q same =
      let r = run_record app q cmd in
      let ran = run_record-Ran q cmd in
      if_known (Delivers p (cmd ∷ cmds) q.calls) r.0 (run_records app r.1 cmds) r
        (λ e.
          let took : takes q q.calls cmd ≡ true = sym ran.result ∙ e in
          let reached : reaches q cmd ≡ true = ground (arith, took) in
          went_on p cmd cmds q.calls r.1.calls (run_records app r.1 cmds)
            (ap (λ (b : Bool). b && is_zero (app q.calls (given cmd)).ret)
                (sym (reaches-setup p q cmd same))
              ∙ took)
            (ran.gave ∙ ap (λ (b : Bool). if b then given cmd ∷ q.calls else q.calls) reached)
            (Delivers-from p cmds r.1 (ran.setup ∙ same)))
        (λ e. stopped p q cmd cmds r same e (sym ran.result ∙ e) ran.gave)

  -- The records of a command reach the application one by one in their order, each once, up to the first that is
  -- refused. Either each is covered by the capabilities, valid and taken by the application, and all were
  -- given to it with the result true; or there is a first one that is not, with the result false: the records
  -- before it were given and taken, it was given only if capabilities and checks let it through, and none
  -- after it was given.
  pub run_records-Delivers :
      (cmds : List Command) (p : Peripheral E) → Delivers p cmds p.calls (run_records app p cmds)
  run_records-Delivers cmds p = Delivers-from p cmds p refl
