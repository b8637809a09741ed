-- ===== src/Cp/Retry.antt =====
-- The retries of a command in cp_phy_state_update of src/osdp_cp.c, counted against OSDP_CMD_MAX_RETRIES.
use libosdp.Common.{ℕ, ◌-◌, ◌≡◌, ◌<◌, true, ◌==◌, arith}
use libosdp.Phy.Sequence.{progress_sequence}
use libosdp.Cp.{
  Panel, Rc, rc_none, rc_generic, rc_no_data, rc_retry_cmd, rc_defer, rc_inprog, rc_unknown,
  rc_seq_num, rc_app, phy_wait, phy_reply_wait,
}
use libosdp.Cp.Link.{
  Layers, on_reply, on_silence, on_retry, phy_state_done, phy_state_wait, cmd_max_retries,
}

-- The tries that are left of OSDP_CMD_MAX_RETRIES.
abbrev pub tries_left : Panel → ℕ
tries_left p = cmd_max_retries - p.pd.phy_retry_count

-- A panel that waits for its next try has fewer tries left than `p`.
Fewer : Panel → Rc × Panel → Type 0
Fewer p q = (q.1.pd.phy_state == phy_wait) ≡ true → tries_left q.1 < tries_left p

silence-Fewer :
    (layers : Layers) (p : Panel) (now : ℕ)
    → (p.pd.phy_state == phy_reply_wait) ≡ true
    → Fewer p (on_silence layers p now)
unfolding on_silence phy_state_wait Fewer
silence-Fewer layers p now h = ground (arith, h)

retry-Fewer : (layers : Layers) (p : Panel) (now : ℕ) → Fewer p (on_retry layers p now)
unfolding on_retry phy_state_wait phy_state_done Fewer
retry-Fewer layers p now = ground arith

reply-Fewer :
    (layers : Layers) (rc : Rc) (p : Panel) (now : ℕ)
    → (p.pd.phy_state == phy_reply_wait) ≡ true
    → Fewer p (on_reply layers (rc, p) now)
unfolding on_reply phy_state_done progress_sequence Fewer
reply-Fewer layers rc_none p now h = ground arith
reply-Fewer layers rc_seq_num p now h = ground arith
reply-Fewer layers rc_unknown p now h = ground arith
reply-Fewer layers rc_generic p now h = ground arith
reply-Fewer layers rc_app p now h = ground arith
reply-Fewer layers rc_retry_cmd p now h = retry-Fewer layers p now
reply-Fewer layers rc_no_data p now h = silence-Fewer layers p now h
reply-Fewer layers rc_defer p now h = silence-Fewer layers p now h
reply-Fewer layers rc_inprog p now h = silence-Fewer layers p now h

-- Whatever became of the reply that was waited for, a panel that goes on to wait for another try of the command has fewer
-- tries left than before.
pub on_reply-tries_left :
    (layers : Layers) (rc : Rc) (p : Panel) (now : ℕ)
    → (p.pd.phy_state == phy_reply_wait) ≡ true
    → ((on_reply layers (rc, p) now).1.pd.phy_state == phy_wait) ≡ true
    → tries_left (on_reply layers (rc, p) now).1 < tries_left p
unfolding Fewer
on_reply-tries_left layers rc p now h w = reply-Fewer layers rc p now h w
