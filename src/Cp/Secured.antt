-- ===== src/Cp/Secured.antt =====
-- What the control panel of src/osdp_cp.c promises of the link to a PD, as a predicate on the part of its
-- state that the promise is about, and how the smallest operations change that part.
pub mod Transition
pub mod Pass
pub mod Settle
pub mod Bus
pub mod Runs
pub mod Reach
use libosdp.Common.{
  ℕ, ◌≡◌, refl, sym, ap, ◌∙◌, Bool, Bool-cases, true, false, not, ◌&&◌, ◌||◌, Option, none, some,
  List, [], ◌∷◌, inl, inr, if◌then◌else◌, arith, if_both,
}
use libosdp.Device.{Device, sc_activate, sc_deactivate, report_metric}
use libosdp.Phy.Decode.{state_reset}
use libosdp.Phy.Sequence.{reset_seq_number}
use libosdp.Cp.{
  Panel, State, Notification, pd_status, sc_status, pd_id, notify, notify_sc_status,
  notify_pd_status, is_online, Cmd, Completion, complete_cmd, submit_each, accepts, enqueue,
  set_scbkd, Command, output, led, buzzer, text, tdset, comset, mfg, bioread, biomatch, status,
  keyset, file_tx,
}
use libosdp.Cp.Online.{keyset_complete, request_restart, commit_key, commit_body}

-- The status that the application heard of last; before any, the PD is not online.
abbrev pub told_online : List Notification → Bool
told_online [] = false
told_online (pd_status b ∷ _) = b
told_online (sc_status _ _ ∷ rest) = told_online rest
told_online (pd_id ∷ rest) = told_online rest

pub record View : Type 0 where
  pub state : State
  pub established : Bool
  pub notifies : Bool
  pub heard : Bool
  pub enforcing : Bool
  pub scbkd : Bool
  pub active : Bool
  pub install : Bool

abbrev pub view : Panel → View
view p = record {
  state = p.state;
  established = p.sc_established;
  notifies = p.notifies;
  heard = told_online p.told;
  enforcing = p.pd.flags.enforce_secure;
  scbkd = p.pd.flags.sc_use_scbkd;
  active = p.pd.flags.sc_active;
  install = p.pd.flags.install_mode;
}

-- The application's last news of the PD are true; the default key is not in use where it is refused; and
-- a PD that has to be secure is online in a secure channel only.
pub record IsSound (v : View) : Type 0 where
  pub informed : v.notifies ≡ true → v.heard ≡ is_online v.state
  pub pinned : (v.enforcing || v.established) ≡ true → v.scbkd ≡ false
  pub secured : v.enforcing ≡ true → is_online v.state ≡ true → v.active ≡ true
  pub settled_keys : v.install ≡ false

view-notify_sc_status : (p : Panel) → view (notify_sc_status p) ≡ view p
unfolding notify_sc_status notify report_metric
view-notify_sc_status p = elim (Bool-cases p.notifies) [ inl k ↦ rw k refl | inr k ↦ rw k refl ]

view-sc_deactivate :
    (p : Panel) → view (record p { pd = sc_deactivate p.pd }) ≡ record (view p) { active = false }
unfolding sc_deactivate report_metric
view-sc_deactivate p = elim (Bool-cases p.pd.flags.sc_active) [
  | inl k ↦ rw k refl
  | inr k ↦ rw k refl
]

view-sc_activate :
    (p : Panel) → view (record p { pd = sc_activate p.pd }) ≡ record (view p) { active = true }
unfolding sc_activate report_metric
view-sc_activate p = refl

pub view-state_reset :
    (p : Panel) (is_error : Bool) → view (record p { pd = state_reset p.pd is_error }) ≡ view p
unfolding state_reset reset_seq_number
view-state_reset p true = refl
view-state_reset p false = refl

view-submit_each : (cmds : List Cmd) (p : Panel) → view (submit_each p cmds) ≡ view p
unfolding submit_each enqueue
view-submit_each [] p = refl
view-submit_each (cmd ∷ cmds) p =
    view-submit_each cmds (if accepts p cmd then (enqueue p cmd).1 else p)
    ∙ if_both (λ (q : Panel). view q ≡ view p) (accepts p cmd) (enqueue p cmd).1 p refl refl

pub view-complete_cmd :
    (p : Panel) (cmd : Option Cmd) (s : Completion) → view (complete_cmd p cmd s) ≡ view p
unfolding complete_cmd
view-complete_cmd p none s = refl
view-complete_cmd p (some cmd) s =
    if_both (λ (q : Panel). view q ≡ view p) p.completes _ p
      (view-submit_each (p.on_complete p.completions cmd s)
        (record p { completions = (cmd, s) ∷ p.completions }))
      refl

-- A secure channel goes down, and the application is told.
pub view-taken_down :
    (p : Panel)
    → view (notify_sc_status (record p { pd = sc_deactivate p.pd }))
      ≡ record (view p) { active = false }
view-taken_down p =
    view-notify_sc_status (record p { pd = sc_deactivate p.pd }) ∙ view-sc_deactivate p

-- It comes up, and the application is told.
pub view-brought_up :
    (p : Panel)
    → view (notify_sc_status (record p { pd = sc_activate p.pd }))
      ≡ record (view p) { active = true }
view-brought_up p = view-notify_sc_status (record p { pd = sc_activate p.pd }) ∙ view-sc_activate p

pub view-notify_pd_status :
    (p : Panel) (b : Bool)
    → view (notify_pd_status p b)
      ≡ record (view p) { heard = if p.notifies then b else told_online p.told }
unfolding notify_pd_status notify report_metric
view-notify_pd_status p b = elim (Bool-cases p.notifies) [ inl k ↦ rw k refl | inr k ↦ rw k refl ]

view-commit_key : (p : Panel) (cmd : Option Cmd) → view (commit_key p cmd) ≡ view p
view-commit_key p none = refl
view-commit_key p (some cmd) = commit p cmd.body
  where
    commit : (p : Panel) (body : Command) → view (commit_body p body) ≡ view p
    commit p (output n c t) = refl
    commit p (led r n t m) = refl
    commit p (buzzer r c n f m) = refl
    commit p (text r c t row col d) = refl
    commit p (tdset y m d h n s) = refl
    commit p (comset a b) = refl
    commit p (mfg v d) = refl
    commit p (bioread r t f q) = refl
    commit p (biomatch r t f q d) = refl
    commit p (status t) = refl
    commit p (keyset t d) = refl
    commit p (file_tx i f) = refl

view-request_restart : (b : Bool) (p : Panel) → view (if b then request_restart p else p) ≡ view p
view-request_restart true p = refl
view-request_restart false p = refl

-- At the end of a KEYSET the default key is out of use, and the channel is down.
pub view-keyset_complete :
    (p : Panel) → view (keyset_complete p) ≡ record (view p) { scbkd = false; active = false }
unfolding keyset_complete
view-keyset_complete p =
    let keyed = if p.pd.flags.sc_use_scbkd then set_scbkd p false else commit_key p p.active_cmd in
    let down = notify_sc_status (record keyed { pd = sc_deactivate keyed.pd }) in
    view-request_restart (is_online down.state) down
    ∙ (view-taken_down keyed
        ∙ ap (λ (v : View). record v { active = false }) (unkeyed p.pd.flags.sc_use_scbkd refl))
  where
    unkeyed :
        (b : Bool)
        → p.pd.flags.sc_use_scbkd ≡ b
        → view (if b then set_scbkd p false else commit_key p p.active_cmd)
          ≡ record (view p) { scbkd = false }
    unkeyed true e = refl
    unkeyed false e =
        view-commit_key p p.active_cmd ∙ ap (λ (b : Bool). record (view p) { scbkd = b }) e

-- A PD that was online then starts the secure channel again.
pub keyset_complete-restarts :
    (p : Panel) → is_online p.state ≡ true → (keyset_complete p).request.restart_sc ≡ true
unfolding keyset_complete
keyset_complete-restarts p h =
    let keyed = if p.pd.flags.sc_use_scbkd then set_scbkd p false else commit_key p p.active_cmd in
    let down = notify_sc_status (record keyed { pd = sc_deactivate keyed.pd }) in
    requested (is_online down.state) down (
      ap (λ (v : View). is_online v.state) (view-taken_down keyed)
      ∙ (ap (λ (v : View). is_online v.state) (same p.pd.flags.sc_use_scbkd) ∙ h))
  where
    requested :
        (b : Bool) (q : Panel)
        → b ≡ true
        → (if b then request_restart q else q).request.restart_sc ≡ true
    requested b q e = rw e refl

    same :
        (b : Bool)
        → record (view (if b then set_scbkd p false else commit_key p p.active_cmd)) {
          scbkd = false;
        }
          ≡ record (view p) { scbkd = false }
    same true = refl
    same false = ap (λ (v : View). record v { scbkd = false }) (view-commit_key p p.active_cmd)
