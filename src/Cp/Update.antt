-- ===== src/Cp/Update.antt =====
-- state_update of src/osdp_cp.c, one pass of the refresh loop: a command is chosen and started, or followed
-- on the bus, or it ended, its reply is checked and the state machine moves on.
use libosdp.Common.{ℕ, ℤ, Bool, true, false, not, ◌&&◌, Option, none, some, ◌==◌, if◌then◌else◌}
use libosdp.Device.{reply_ack, reply_ccrypt, reply_rmac_i, cmd_keyset, cmd_chlng, cmd_scrypt}
use libosdp.Crypto.{Crypto}
use libosdp.Phy.Decode.{state_reset}
use libosdp.Cp.{
  Panel, State, init, capdet, sc_chlng, sc_scrypt, set_scbk, online, Rc, rc_defer, rc_inprog, Cmd,
  ok, failed, complete_cmd, phy_idle, phy_send_cmd, phy_done,
}
use libosdp.Cp.Online.{get_online_command, check_online_response, failure_is_soft, cmd_filetransfer}
use libosdp.Cp.Link.{Layers, phy_running, phy_state_update}
use libosdp.Cp.Machine.{advance}

-- OSDP_MP_MSG_BIOREAD tags the engine's command; the slot alone is kept here.
abbrev pub own_engine_cmd : Panel → Option Cmd → Panel
own_engine_cmd p cmd = record p { engine_cmd = cmd }

abbrev pub is_some : Option Cmd → Bool
is_some none = false
is_some (some _) = true

-- state_check_reply
unfoldable pub check_reply : Panel → State → Bool × Panel
check_reply p init = (p.pd.reply_id == 0x45, p)
check_reply p capdet = (p.pd.reply_id == 0x46, p)
check_reply p sc_chlng = (p.pd.reply_id == reply_ccrypt, p)
check_reply p sc_scrypt = (p.pd.reply_id == reply_rmac_i, p)
check_reply p set_scbk = (p.pd.reply_id == reply_ack, p)
check_reply p online = check_online_response p
check_reply p _ = (false, p)

abbrev pub quieted : Panel → Panel
quieted p = record p { pd = state_reset p.pd false }

module _ (layers : Layers) where
  -- state_get_cmd
  unfoldable pub get_cmd : Panel → State → ℕ → Option ℕ × Panel
  get_cmd p init now = (some 0x61, p)
  get_cmd p capdet now = (some 0x62, p)
  get_cmd p sc_chlng now = (some cmd_chlng, p)
  get_cmd p sc_scrypt now = (some cmd_scrypt, p)
  get_cmd p set_scbk now = (some cmd_keyset, p)
  get_cmd p online now = get_online_command layers.engine_command p now
  get_cmd p _ now = (none, p)

  -- The active command goes to the biometric engine or back to the application.
  unfoldable pub settle_cmd : Bool × Panel → Panel
  settle_cmd (status, p) =
      let bio =
        is_some p.active_cmd && (not (is_some p.engine_cmd) && layers.bio_owns_cmd p p.pd.cmd_id) in
      let settled =
        if status && bio
        then own_engine_cmd p p.active_cmd
        else complete_cmd p p.active_cmd (if status then ok else failed) in
      record settled { active_cmd = none }

  -- A failure that leaves the link up ends the file or smartcard transfer that it belongs to.
  unfoldable pub soft_aborts : Panel → Panel
  soft_aborts p =
      let p' = if p.pd.cmd_id == cmd_filetransfer then layers.file_tx_abort p else p in
      if layers.piv_owns_cmd p' p'.pd.cmd_id then layers.piv_abort p' else p'

  -- The cases OSDP_CP_PHY_STATE_DONE and _ERR of state_update: whether err is 0 after them.
  unfoldable pub settle : Panel → Bool → Bool × Panel
  unfolding check_reply settle_cmd soft_aborts
  settle p is_done =
      let (status, checked) = check_reply p p.state in
      let settled = settle_cmd (status, checked) in
      let soft = failure_is_soft settled in
      if status
      then (is_done, quieted settled)
      else if soft
      then (true, quieted (soft_aborts settled))
      else (false, quieted settled)

module _ (c : Crypto) (layers : Layers) where
  -- OSDP_CP_PHY_STATE_IDLE; -1 as a command ID is the last uint32_t.
  unfoldable pub kick : Option ℕ × Panel → ℕ → Panel
  unfolding advance
  kick (some id, p) now = record p { pd = record p.pd { cmd_id = id; phy_state = phy_send_cmd } }
  kick (none, p) now =
      advance c layers (true, record p { pd = record p.pd { cmd_id = 4294967295 } }) now

  unfoldable pub on_phy : Panel → ℕ → Panel
  unfolding kick get_cmd settle advance
  on_phy p now =
      if p.pd.phy_state == phy_idle
      then kick (get_cmd layers p p.state now) now
      else advance c layers (settle layers p (p.pd.phy_state == phy_done)) now

  unfoldable pub after_phy : Rc × Panel → ℕ → Panel
  unfolding on_phy
  after_phy (rc_inprog, p) now = p
  after_phy (rc_defer, p) now = p
  after_phy (_, p) now = on_phy p now

  -- state_update: `ret` is what the channel's send callback returns, `now` is osdp_millis_now().
  unfoldable pub state_update : Panel → ℤ → ℕ → Panel
  unfolding after_phy on_phy
  state_update p ret now =
      if phy_running p then after_phy (phy_state_update layers p ret now) now else on_phy p now
