-- ===== src/Cp/Secured/Reach.antt =====
-- The link of src/osdp_cp.c in any sequence of passes and calls, from a PD that was just added.
use libosdp.Common.{
  ℕ, ℤ, ◌≡◌, refl, sym, ap, ◌∙◌, Bool, true, false, not, ◌||◌, some, List, [], ◌∷◌, if_both, arith,
  ◌==◌,
}
use libosdp.Crypto.{Crypto}
use libosdp.Device.{sc_is_active}
use libosdp.Cp.{
  Panel, init, Cmd, Command, output, led, buzzer, text, tdset, comset, mfg, bioread, biomatch,
  status, keyset, file_tx, Completion, flushed, complete_cmd, may_submit, enqueue, is_online,
  is_disabled,
}
use libosdp.Cp.Link.{Layers}
use libosdp.Cp.Update.{state_update}
use libosdp.Cp.Control.{
  disable_pd, enable_pd, submit_command, route, owned, drain_queue, flush_commands,
}
use libosdp.Cp.Secured.{view, IsSound, told_online, view-complete_cmd}
use libosdp.Cp.Secured.Pass.{IsLawful}
use libosdp.Cp.Secured.Runs.{state_update-IsSound, IsSound-same}

view-disable : (p : Panel) → view (disable_pd p).1 ≡ view p
unfolding disable_pd
view-disable p =
    if_both (λ (r : Bool × Panel). view r.1 ≡ view p) (is_disabled p.state || p.request.disable)
      (false, p) (true, record p { request = record p.request { disable = true } }) refl refl

view-enable : (p : Panel) → view (enable_pd p).1 ≡ view p
unfolding enable_pd
view-enable p =
    if_both (λ (r : Bool × Panel). view r.1 ≡ view p)
      (not (is_disabled p.state) || p.request.enable) (false, p)
      (true, record p { request = record p.request { enable = true } }) refl refl

view-drain :
    (p : Panel) (queue : List Cmd) (s : Completion) → view (drain_queue p queue s).1 ≡ view p
unfolding drain_queue
view-drain p [] s = refl
view-drain p (cmd ∷ rest) s =
    view-drain (complete_cmd p (some cmd) s) rest s ∙ view-complete_cmd p (some cmd) s

view-owned :
    (p : Panel) (cmd : Cmd) (r : Bool × Panel) → view r.1 ≡ view p → view (owned cmd r).1 ≡ view p
view-owned p cmd (false, q) e = e
view-owned p cmd (true, q) e = e

module _ (layers : Layers) (laws : IsLawful layers) where
  view-route : (p : Panel) (cmd : Cmd) (body : Command) → view (route layers p cmd body).1 ≡ view p
  unfolding route enqueue
  view-route p cmd (file_tx id flags) =
      view-owned p cmd (layers.file_tx_command p id flags) (laws.file_tx_command p id flags)
  view-route p cmd (keyset type d) =
      if_both (λ (r : Bool × Panel). view r.1 ≡ view p) (not (type == 1) || not (sc_is_active p.pd))
        (false, p) (enqueue p cmd) refl refl
  view-route p cmd (output n c t) = refl
  view-route p cmd (led r n t m) = refl
  view-route p cmd (buzzer r c n f m) = refl
  view-route p cmd (text r c t row col d) = refl
  view-route p cmd (tdset y m d h n s) = refl
  view-route p cmd (comset a b) = refl
  view-route p cmd (mfg v d) = refl
  view-route p cmd (bioread r t f q) = refl
  view-route p cmd (biomatch r t f q d) = refl
  view-route p cmd (status t) = refl

  view-submit : (p : Panel) (cmd : Cmd) → view (submit_command layers p cmd).1 ≡ view p
  unfolding submit_command
  view-submit p cmd =
      if_both (λ (r : Bool × Panel). view r.1 ≡ view p) (not (may_submit p cmd)) (false, p)
        (route layers p cmd cmd.body) refl (view-route p cmd cmd.body)

-- One pass of the refresh loop for the PD, or one call of the application.
pub data Step (c : Crypto) (p : Panel) : Panel → Type 0 where
  pass :
      (layers : Layers) (ret : ℤ) (now : ℕ)
      → IsLawful layers
      → Step c p (state_update c layers p ret now)
  submits :
      (layers : Layers) (cmd : Cmd) → IsLawful layers → Step c p (submit_command layers p cmd).1
  disables : Step c p (disable_pd p).1
  enables : Step c p (enable_pd p).1
  flushes : Step c p (flush_commands p).1

Step-IsSound : (c : Crypto) {p q : Panel} → Step c p q → IsSound (view p) → IsSound (view q)
unfolding flush_commands
Step-IsSound c {p} (pass layers ret now laws) h = state_update-IsSound c layers laws p ret now h
Step-IsSound c {p} (submits layers cmd laws) h =
    IsSound-same (view p) (view (submit_command layers p cmd).1) (view-submit layers laws p cmd) h
Step-IsSound c {p} disables h = IsSound-same (view p) (view (disable_pd p).1) (view-disable p) h
Step-IsSound c {p} enables h = IsSound-same (view p) (view (enable_pd p).1) (view-enable p) h
Step-IsSound c {p} flushes h =
    IsSound-same (view p) (view (flush_commands p).1)
      (view-drain (record p { cmd_queue = [] }) p.cmd_queue flushed) h

pub data Reach (c : Crypto) (p : Panel) : Panel → Type 0 where
  here : Reach c p p
  next : {q r : Panel} → Reach c p q → Step c q r → Reach c p r

-- cp_add_pd: nothing was told and no key is in use yet. Install mode, with which a PD can ask for the
-- default key, is left out.
pub record IsFresh (p : Panel) : Type 0 where
  pub state : p.state ≡ init
  pub told : told_online p.told ≡ false
  pub scbkd : p.pd.flags.sc_use_scbkd ≡ false
  pub install : p.pd.flags.install_mode ≡ false

-- From a PD that was just added, without install mode, any sequence of passes and of calls to submit,
-- flush, disable and enable, over layers that leave the link's state alone, keeps three promises. The last status that the
-- application was told, if notifications are on, is whether the PD is online now. The default key is not
-- in use on a PD that has to be secure, or that once ran a secure channel on its own key. And a PD that
-- has to be secure is online only while its secure channel is active.
pub Reach-IsSound : (c : Crypto) (p q : Panel) → IsFresh p → Reach c p q → IsSound (view q)
Reach-IsSound c p q f here = record {
  informed = λ n. f.told ∙ sym (ap is_online f.state);
  pinned = λ e. f.scbkd;
  secured = λ e n. ground (arith, n, ap is_online f.state);
  settled_keys = f.install;
}
Reach-IsSound c p q f (next {q = m} r s) = Step-IsSound c s (Reach-IsSound c p m f r)
