-- ===== src/Pd/Decode.antt =====
-- pd_decode_command of src/osdp_pd.c as a whole: the status commands, the blocks of commands for the
-- application, and the choice between all commands.
pub mod Session
pub mod Exchange
use libosdp.Common.{
  ℕ, ◌+◌, Bool, true, false, not, ◌&&◌, ◌||◌, Option, none, some, List, [], ◌∷◌, ltb, ◌==◌,
  if◌then◌else◌, length, take,
}
use libosdp.Bytes.{byte_at, bread_u16_le}
use libosdp.Crypto.{Crypto}
use libosdp.SecureChannel.{sc_setup, verify_cp_cryptogram}
use libosdp.Device.{
  sc_is_active, is_enforce_secure, reply_nak, reply_ccrypt, reply_rmac_i, nak_sc_unsup, nak_sc_cond,
}
use libosdp.Cp.{Command, status, StatusType, input_report, output_report}
use libosdp.Pd.{read_commands, read_biomatch}
use libosdp.Pd.Event.{is_trs, status_reply}
use libosdp.Pd.Peripheral.{
  Peripheral, App, given, piv_data, piv_auth, xwr, with_dev, refuse, reply_with, command_callback,
  pd_sc_deactivate,
}
use libosdp.Pd.Engines.{
  Engines, Fragment, fragment_refused, fragment_kept, whole, TrsDecode, trs_refused, trs_ack,
  trs_mode_report, trs_to_app,
}
use libosdp.Pd.Status.{prebuild_status_reply}
use libosdp.Pd.Dispatch.{
  PdErr, pd_err_none, pd_err_generic, pd_err_reply, nak_cmd_len, nak_cmd_unknown, nak_record,
  allowed_in_clear, asked_report, if_capable, acked, take_if, take_inline_reply, or_ack,
  take_polled, run_records, after_records, to_app, with_reply, on_command,
}
unfoldable pub use libosdp.Pd.Decode.Session.{
  restart_handshake, on_challenge, verify_scrypt, on_scrypt,
}
unfoldable pub use libosdp.Pd.Decode.Exchange.{
  on_query, on_rx_size, on_keep_active, on_poll, on_abort, on_file, on_piv_open, on_piv_data,
  on_authenticated, on_fragment, on_piv_auth, on_trs, on_xwr,
}

-- The ID and the data block are kept apart, as in the source after the first byte is consumed.
abbrev pub needs_items : StatusType → Bool
needs_items input_report = true
needs_items output_report = true
needs_items _ = false

-- The commands that are read as a block and given to the application.
abbrev pub is_app_command : ℕ → Bool
is_app_command id =
    (id == 0x68 || (id == 0x69 || (id == 0x6A || id == 0x6B)))
    || ((id == 0x6D || (id == 0x6E || id == 0x80)) || (id == 0x73 || id == 0x75))

module _ {E : Type 0} (app : App) where
  -- A data block that was read: one record, or the records of CMD_OUT, CMD_LED and CMD_BUZ.
  unfoldable pub on_block : Peripheral E → ℕ → Option (List Command) → PdErr × Peripheral E
  on_block p id none = (pd_err_generic, p)
  on_block p id (some cmds) =
      if id == 0x68 || (id == 0x69 || id == 0x6A)
      then after_records app (run_records app p cmds)
      else elim cmds [ [] ↦ (pd_err_generic, p) | cmd ∷ rest ↦ on_command app p id cmd ]

  -- The template of CMD_BIOMATCH.
  unfoldable pub on_template : Peripheral E → Option (List Command) → PdErr × Peripheral E
  on_template p none = (pd_err_generic, p)
  on_template p (some []) = (pd_err_generic, p)
  on_template p (some (cmd ∷ rest)) = with_reply app p (given cmd)

  -- CMD_BIOMATCH
  unfoldable pub on_biomatch : Peripheral E → List ℕ → PdErr × Peripheral E
  unfolding on_template
  on_biomatch p d =
      if ltb (length d) 6
      then (pd_err_generic, p)
      else if_capable p 0 (λ q. on_template q (read_biomatch d))

  module _ (crc16 : List ℕ → ℕ) (c : Crypto) where
    unfoldable pub on_prebuilt : Bool × Peripheral E → StatusType → PdErr × Peripheral E
    on_prebuilt (false, p) t = (pd_err_generic, p)
    on_prebuilt (true, p) t = (pd_err_none, reply_with p (status_reply t))

    -- The report of the application goes out at once, unless it submitted an event with one.
    unfoldable pub after_inline : Bool × Peripheral E → StatusType → List ℕ → PdErr × Peripheral E
    unfolding on_prebuilt
    after_inline (true, p) t report = (pd_err_none, p)
    after_inline (false, p) t report =
        on_prebuilt (prebuild_status_reply crc16 c p (status_reply t) report) t

    unfoldable pub on_report : Option (List ℕ) × Peripheral E → StatusType → PdErr × Peripheral E
    unfolding after_inline
    on_report (none, p) t = (pd_err_reply, p)
    on_report (some report, p) t = after_inline (take_inline_reply p) t report

    -- CMD_LSTAT, CMD_ISTAT, CMD_OSTAT and CMD_RSTAT
    unfoldable pub on_status : Peripheral E → StatusType → List ℕ → PdErr × Peripheral E
    unfolding on_report
    on_status p t d =
        if not (length d == 0)
        then (pd_err_generic, p)
        else if needs_items t
        then if_capable p 0 (λ q. on_report (command_callback app q (given (status t))) t)
        else on_report (command_callback app p (given (status t))) t

    module _ (engines : Engines E) where
      -- The case of the command's ID, for the commands that the application does not see as such.
      unfoldable pub on_library_id : Peripheral E → ℕ → List ℕ → PdErr × Peripheral E
      unfolding on_biomatch on_rx_size on_keep_active on_abort on_file on_piv_data on_piv_auth
          on_xwr on_challenge on_scrypt
      on_library_id p id d =
          if id == 0x74
          then on_biomatch p d
          else if id == 0x7B
          then on_rx_size p d
          else if id == 0xA7
          then on_keep_active p d
          else if id == 0xA2
          then on_abort engines p d
          else if id == 0x7C
          then on_file engines p d
          else if id == 0xA3
          then on_piv_data engines app p d
          else if id == 0xA4 || id == 0xA5
          then on_piv_auth engines app p d
          else if id == 0xA1
          then on_xwr engines app p d
          else if id == 0x76
          then on_challenge c app p d
          else if id == 0x77
          then on_scrypt c app p d
          else (pd_err_reply, refuse p nak_cmd_unknown)

      -- The case of the command's ID.
      unfoldable pub on_id : Peripheral E → ℕ → List ℕ → PdErr × Peripheral E
      unfolding on_poll on_status on_query on_block on_library_id
      on_id p id d =
          if id == 0x60
          then on_poll engines p d
          else if id == 0x64 || (id == 0x65 || (id == 0x66 || id == 0x67))
          then on_status p (asked_report id) d
          else if id == 0x61
          then on_query p d 0x45
          else if id == 0x62
          then on_query p d 0x46
          else if is_app_command id
          then on_block p id (read_commands id d)
          else on_library_id p id d

      -- A command that could not be decoded is refused for its length.
      unfoldable pub refuse_undecoded : PdErr × Peripheral E → PdErr × Peripheral E
      refuse_undecoded (pd_err_generic, p) = (pd_err_reply, refuse p nak_cmd_len)
      refuse_undecoded (e, p) = (e, p)

      -- The state when the command's ID was read.
      abbrev pub started : Peripheral E → ℕ → Peripheral E
      started p id = record p {
        dev = record p.dev { cmd_id = id; reply_id = reply_nak; nak_code = nak_record };
      }

      -- pd_decode_command
      unfoldable pub decode_command : Peripheral E → ℕ → List ℕ → PdErr × Peripheral E
      unfolding on_id refuse_undecoded
      decode_command p id d =
          if is_enforce_secure p.dev && (not (sc_is_active p.dev) && not (allowed_in_clear id))
          then (pd_err_reply, refuse (started p id) nak_sc_cond)
          else refuse_undecoded (on_id (started p id) id d)
