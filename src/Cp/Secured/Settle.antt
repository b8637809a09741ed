-- ===== src/Cp/Secured/Settle.antt =====
-- The end of a command in state_update (src/osdp_cp.c): the check of its reply, its completion, and the
-- failures that leave the link up keep the promises of the link.
use libosdp.Common.{
  List, [], ◌∷◌, ℕ, ◌≡◌, refl, sym, ap, ap₂, ◌∙◌, Bool, Bool-cases, true, false, not, ◌&&◌, ◌||◌,
  Option, none, some, inl, inr, if◌then◌else◌, arith, if_both, ◌==◌,
}
use libosdp.Device.{cmd_keyset, reply_ack, reply_nak}
use libosdp.Cp.{
  Panel, State, init, capdet, sc_chlng, sc_scrypt, set_scbk, online, offline, disabled, is_online,
  Cmd, Completion, ok, failed, complete_cmd, submit_each, accepts, enqueue, phy_done,
}
use libosdp.Cp.Online.{
  keyset_complete, check_online_response, failure_is_soft, cmd_poll, is_expected, is_poll_reply,
  cmd_filetransfer,
}
use libosdp.Cp.Link.{Layers}
use libosdp.Cp.Update.{
  check_reply, settle_cmd, soft_aborts, quieted, settle, own_engine_cmd, is_some,
}
use libosdp.Cp.Secured.{
  View, view, view-keyset_complete, keyset_complete-restarts, view-complete_cmd, view-state_reset,
}
use libosdp.Cp.Secured.Transition.{IsMid, Pinned, Holds, Holds-same}
use libosdp.Cp.Secured.Pass.{IsLawful}

-- The check of a reply: what is refused changes nothing, and a PD that lost its channel by it starts the
-- channel again.
pub record Checked (p : Panel) (r : Bool × Panel) : Type 0 where
  pub same : view r.1 ≡ record (view p) { scbkd = (view r.1).scbkd; active = (view r.1).active }
  pub pinned : Pinned p → Pinned r.1
  pub kept :
      is_online p.state ≡ true
      → r.1.request.restart_sc ≡ false
      → (view r.1).active ≡ (view p).active
  pub refused : r.0 ≡ false → r.1 ≡ p

Checked-same : (p : Panel) (status : Bool) → Checked p (status, p)
Checked-same p status = record {
  same = refl;
  pinned = λ k. k;
  kept = λ k n. refl;
  refused = λ k. refl;
}

Checked-keyset : (p : Panel) → Checked p (true, keyset_complete p)
Checked-keyset p = record {
  same =
      view-keyset_complete p
      ∙ ap₂ (λ (a b : Bool). record (view p) { scbkd = a; active = b })
          (sym (ap (λ (v : View). v.scbkd) (view-keyset_complete p)))
          (sym (ap (λ (v : View). v.active) (view-keyset_complete p)));
  pinned = λ k e. ap (λ (v : View). v.scbkd) (view-keyset_complete p);
  kept = λ k n. ground (arith, n, keyset_complete-restarts p k);
  refused = λ e. ground (arith, e);
}

online-Checked : (p : Panel) → Checked p (check_online_response p)
unfolding check_online_response
online-Checked p =
    if_both (Checked p) (p.pd.reply_id == reply_ack)
      (true, if p.pd.cmd_id == cmd_keyset then keyset_complete p else p)
      (if p.pd.reply_id == reply_nak || p.pd.reply_id == 0
        then (false, p)
        else if p.pd.cmd_id == cmd_poll
        then ((if is_poll_reply p.pd.reply_id then true else p.ignore_unsolicited), p)
        else (is_expected p.pd.cmd_id p.pd.reply_id, p))
      (if_both (λ (q : Panel). Checked p (true, q)) (p.pd.cmd_id == cmd_keyset) (keyset_complete p)
        p (Checked-keyset p) (Checked-same p true))
      (if_both (Checked p) (p.pd.reply_id == reply_nak || p.pd.reply_id == 0) (false, p)
        (if p.pd.cmd_id == cmd_poll
          then ((if is_poll_reply p.pd.reply_id then true else p.ignore_unsolicited), p)
          else (is_expected p.pd.cmd_id p.pd.reply_id, p))
        (Checked-same p false)
        (if_both (Checked p) (p.pd.cmd_id == cmd_poll)
          ((if is_poll_reply p.pd.reply_id then true else p.ignore_unsolicited), p)
          (is_expected p.pd.cmd_id p.pd.reply_id, p) (Checked-same p _) (Checked-same p _)))

pub reply-Checked : (p : Panel) (s : State) → Checked p (check_reply p s)
unfolding check_reply
reply-Checked p init = Checked-same p _
reply-Checked p capdet = Checked-same p _
reply-Checked p sc_chlng = Checked-same p _
reply-Checked p sc_scrypt = Checked-same p _
reply-Checked p set_scbk = Checked-same p _
reply-Checked p online = online-Checked p
reply-Checked p offline = Checked-same p _
reply-Checked p disabled = Checked-same p _

-- Only what ended in DONE can have failed softly.
soft-done : (p : Panel) → failure_is_soft p ≡ true → (p.pd.phy_state == phy_done) ≡ true
unfolding failure_is_soft
soft-done p h = ground (arith, h)

-- At the end of a command: a PD that is online in DONE still has its channel.
abbrev pub IsEnded : Panel → Type 0
IsEnded p = Holds (p.pd.phy_state == phy_done) (view p)

-- A reply that was accepted keeps the promises, unless the channel is to start again.
accepted-Holds :
    (done : Bool) (p q : Panel)
    → Checked p (true, q)
    → Holds done (view p)
    → Holds (done && not q.request.restart_sc) (view q)
accepted-Holds done p q k h =
    let up : is_online q.state ≡ is_online p.state = ap (λ (v : View). is_online v.state) k.same in
    record {
      informed = λ n.
          ap (λ (v : View). v.heard) k.same
          ∙ (h.informed (sym (ap (λ (v : View). v.notifies) k.same) ∙ n) ∙ sym up);
      pinned = k.pinned h.pinned;
      secured = λ f n c.
          let o : is_online p.state ≡ true = sym up ∙ n in
          k.kept o (ground (arith, c))
          ∙ h.secured (sym (ap (λ (v : View). v.enforcing) k.same) ∙ f) o (ground (arith, c));
      settled_keys = ap (λ (v : View). v.install) k.same ∙ h.settled_keys;
    }

-- What a completion leaves alone.
abbrev rest_of : Panel → ℕ × Bool
rest_of p = (p.pd.phy_state, p.request.restart_sc)

submit_each-rest : (cmds : List Cmd) (p : Panel) → rest_of (submit_each p cmds) ≡ rest_of p
unfolding submit_each enqueue
submit_each-rest [] p = refl
submit_each-rest (cmd ∷ cmds) p =
    submit_each-rest cmds (if accepts p cmd then (enqueue p cmd).1 else p)
    ∙ if_both (λ (q : Panel). rest_of q ≡ rest_of p) (accepts p cmd) (enqueue p cmd).1 p refl refl

complete_cmd-rest :
    (p : Panel) (cmd : Option Cmd) (s : Completion)
    → ((complete_cmd p cmd s).pd.phy_state ≡ p.pd.phy_state)
      × ((complete_cmd p cmd s).request.restart_sc ≡ p.request.restart_sc)
unfolding complete_cmd
complete_cmd-rest p none s = (refl, refl)
complete_cmd-rest p (some cmd) s =
    let e : rest_of (complete_cmd p (some cmd) s) ≡ rest_of p =
      if_both (λ (q : Panel). rest_of q ≡ rest_of p) p.completes _ p
        (submit_each-rest (p.on_complete p.completions cmd s)
          (record p { completions = (cmd, s) ∷ p.completions }))
        refl in
    (ap (λ (x : ℕ × Bool). x.0) e, ap (λ (x : ℕ × Bool). x.1) e)

module _ (layers : Layers) where
  settle_cmd-view : (b : Bool) (p : Panel) → view (settle_cmd layers (b, p)) ≡ view p
  unfolding settle_cmd
  settle_cmd-view b p =
      if_both (λ (q : Panel). view (record q { active_cmd = none }) ≡ view p)
        (b
          && (is_some p.active_cmd
              && (not (is_some p.engine_cmd) && layers.bio_owns_cmd p p.pd.cmd_id)))
        (own_engine_cmd p p.active_cmd) (complete_cmd p p.active_cmd (if b then ok else failed))
        refl (view-complete_cmd p p.active_cmd (if b then ok else failed))

  soft_aborts-view : IsLawful layers → (p : Panel) → view (soft_aborts layers p) ≡ view p
  unfolding soft_aborts
  soft_aborts-view laws p =
      let p' = if p.pd.cmd_id == cmd_filetransfer then layers.file_tx_abort p else p in
      let q : view p' ≡ view p =
        if_both (λ (q : Panel). view q ≡ view p) (p.pd.cmd_id == cmd_filetransfer)
          (layers.file_tx_abort p) p (laws.file_tx_abort p) refl in
      if_both (λ (r : Panel). view r ≡ view p) (layers.piv_owns_cmd p' p'.pd.cmd_id)
        (layers.piv_abort p') p' (laws.piv_abort p' ∙ q) q

  -- Completing a command leaves the requests and the bus alone.
  settle_cmd-rest :
      (b : Bool) (p : Panel)
      → ((settle_cmd layers (b, p)).pd.phy_state ≡ p.pd.phy_state)
        × ((settle_cmd layers (b, p)).request.restart_sc ≡ p.request.restart_sc)
  unfolding settle_cmd
  settle_cmd-rest b p =
      if_both
        (λ (q : Panel).
          (q.pd.phy_state ≡ p.pd.phy_state) × (q.request.restart_sc ≡ p.request.restart_sc))
        (b
          && (is_some p.active_cmd
              && (not (is_some p.engine_cmd) && layers.bio_owns_cmd p p.pd.cmd_id)))
        (own_engine_cmd p p.active_cmd) (complete_cmd p p.active_cmd (if b then ok else failed))
        (refl, refl) (complete_cmd-rest p p.active_cmd (if b then ok else failed))

  pub settle-IsMid :
      IsLawful layers
      → (p : Panel) → IsEnded p
      → let r = settle layers p (p.pd.phy_state == phy_done) in IsMid r.0 r.1
  unfolding settle
  settle-IsMid laws p h =
      checked (check_reply p p.state).0 (check_reply p p.state).1 (reply-Checked p p.state)
    where
      checked :
          (status : Bool) (q : Panel)
          → Checked p (status, q)
          → let settled = settle_cmd layers (status, q) in
            let r : Bool × Panel =
              if status
              then (p.pd.phy_state == phy_done, quieted settled)
              else if failure_is_soft settled
              then (true, quieted (soft_aborts layers settled))
              else (false, quieted settled) in
            IsMid r.0 r.1
      checked true q k =
          let settled = settle_cmd layers (true, q) in
          let v : view (quieted settled) ≡ view q =
            view-state_reset settled false ∙ settle_cmd-view true q in
          Holds-same (p.pd.phy_state == phy_done && not q.request.restart_sc)
            (p.pd.phy_state == phy_done && not settled.request.restart_sc) (view q)
            (view (quieted settled)) v
            (λ n.
              ap (λ (b : Bool). p.pd.phy_state == phy_done && not b)
                (sym (settle_cmd-rest true q).1)
              ∙ n)
            (accepted-Holds (p.pd.phy_state == phy_done) p q k h)
      checked false q k =
          let settled = settle_cmd layers (false, q) in
          let w : view settled ≡ view p = settle_cmd-view false q ∙ ap view (k.refused refl) in
          let r = settle_cmd-rest false q in
          let soft = soft_aborts layers settled in
          elim (Bool-cases (failure_is_soft settled)) [
            | inl f ↦ rw f (
                Holds-same (p.pd.phy_state == phy_done)
                  (true && not (quieted soft).request.restart_sc) (view p) (view (quieted soft))
                  (view-state_reset soft false ∙ (soft_aborts-view laws settled ∙ w))
                  (λ _.
                    ap (λ (n : ℕ). n == phy_done)
                      (sym (r.0 ∙ ap (λ (x : Panel). x.pd.phy_state) (k.refused refl)))
                    ∙ soft-done settled f)
                  h)
            | inr f ↦ rw f (
                Holds-same (p.pd.phy_state == phy_done) false (view p) (view (quieted settled))
                  (view-state_reset settled false ∙ w) (λ n. ground (arith, n)) h)
          ]
