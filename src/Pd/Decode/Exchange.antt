-- ===== src/Pd/Decode/Exchange.antt =====
-- The commands in pd_decode_command of src/osdp_pd.c that the library or one of its feature engines answers.
use libosdp.Common.{
  ℕ, ◌+◌, Bool, true, false, not, Option, none, some, List, ltb, ◌==◌, if◌then◌else◌, length,
}
use libosdp.Bytes.{byte_at, bread_u16_le}
use libosdp.Pd.Event.{is_trs}
use libosdp.Pd.Peripheral.{
  Peripheral, App, piv_data, piv_auth, xwr, with_dev, refuse, reply_with, command_callback,
}
use libosdp.Pd.Engines.{
  Engines, Fragment, fragment_refused, fragment_kept, whole, TrsDecode, trs_refused, trs_ack,
  trs_mode_report, trs_to_app,
}
use libosdp.Pd.Dispatch.{
  PdErr, pd_err_none, pd_err_generic, pd_err_reply, nak_record, if_capable, acked, take_if,
  take_inline_reply, or_ack, take_polled, to_app, with_reply,
}

module _ {E : Type 0} where
  -- CMD_ID and CMD_CAP
  unfoldable pub on_query : Peripheral E → List ℕ → ℕ → PdErr × Peripheral E
  on_query p d reply_id =
      if not (length d == 1) then (pd_err_generic, p) else (pd_err_none, reply_with p reply_id)

  -- CMD_ACURXSIZE
  unfoldable pub on_rx_size : Peripheral E → List ℕ → PdErr × Peripheral E
  on_rx_size p d =
      if ltb (length d) 2
      then (pd_err_generic, p)
      else acked (with_dev p (record p.dev { peer_rx_size = (bread_u16_le d 0).0 }))

  -- CMD_KEEPACTIVE
  unfoldable pub on_keep_active : Peripheral E → List ℕ → PdErr × Peripheral E
  on_keep_active p d =
      if ltb (length d) 2
      then (pd_err_generic, p)
      else acked (record p { sc_tstamp = p.sc_tstamp + (bread_u16_le d 0).0 })

  abbrev pub with_engines : Peripheral E → E → Peripheral E
  with_engines p e = record p { engines = e }

module _ {E : Type 0} (engines : Engines E) where
  -- CMD_POLL
  unfoldable pub on_poll : Peripheral E → List ℕ → PdErr × Peripheral E
  on_poll p d =
      if not (length d == 0)
      then (pd_err_generic, p)
      else if engines.piv_reply_pending p.engines
      then (pd_err_none, reply_with p (engines.piv_reply_id p.engines))
      else if engines.bio_reply_pending p.engines
      then (pd_err_none, reply_with p 0x57)
      else (pd_err_none, take_polled p p.event_queue)

  -- CMD_ABORT
  unfoldable pub on_abort : Peripheral E → List ℕ → PdErr × Peripheral E
  on_abort p d =
      if not (length d == 0)
      then (pd_err_generic, p)
      else acked (with_engines p (engines.abort p.engines))

  -- CMD_FILETRANSFER
  unfoldable pub on_file : Peripheral E → List ℕ → PdErr × Peripheral E
  on_file p d =
      let (took, e) = engines.file_cmd_tx_decode p.engines d in
      if took
      then (pd_err_none, reply_with (with_engines p e) 0x7A)
      else (pd_err_reply, refuse (with_engines p e) nak_record)

  module _ (app : App) where
    unfoldable pub on_piv_open : Bool × E → Peripheral E → List ℕ → PdErr × Peripheral E
    on_piv_open (false, e) p d = (pd_err_generic, with_engines p e)
    on_piv_open (true, e) p d =
        with_reply app (with_engines p e)
          (piv_data (byte_at d 0) (byte_at d 1) (byte_at d 2) (byte_at d 3) (byte_at d 4))

    -- CMD_PIVDATA
    unfoldable pub on_piv_data : Peripheral E → List ℕ → PdErr × Peripheral E
    unfolding on_piv_open
    on_piv_data p d =
        if not (length d == 5)
        then (pd_err_generic, p)
        else if_capable p 0 (λ q. on_piv_open (engines.piv_open q.engines (byte_at d 3)) q d)

    -- A command that the application refuses ends the smartcard exchange.
    unfoldable pub on_authenticated : Option (List ℕ) × Peripheral E → PdErr × Peripheral E
    on_authenticated (none, p) = (pd_err_reply, with_engines p (engines.piv_abort p.engines))
    on_authenticated (some report, p) = or_ack (take_inline_reply p)

    unfoldable pub on_fragment : Fragment × E → Peripheral E → PdErr × Peripheral E
    unfolding on_authenticated
    on_fragment (fragment_refused, e) p = (pd_err_generic, with_engines p e)
    on_fragment (fragment_kept, e) p = acked (with_engines p e)
    on_fragment (whole d, e) p =
        on_authenticated (command_callback app (with_engines p e) (piv_auth p.dev.cmd_id d))

    -- CMD_GENAUTH and CMD_CRAUTH; the header of a fragment is 6 bytes.
    unfoldable pub on_piv_auth : Peripheral E → List ℕ → PdErr × Peripheral E
    unfolding on_fragment
    on_piv_auth p d =
        if ltb (length d) 6
        then (pd_err_generic, p)
        else if_capable p 0 (λ q. on_fragment (engines.piv_cmd_frag q.engines q.dev.cmd_id d) q)

    unfoldable pub on_trs : TrsDecode × E → Peripheral E → PdErr × Peripheral E
    on_trs (trs_refused, e) p = (pd_err_generic, with_engines p e)
    on_trs (trs_ack, e) p = acked (with_engines p e)
    on_trs (trs_mode_report, e) p = (pd_err_none, reply_with (with_engines p e) 0xB1)
    on_trs (trs_to_app d, e) p =
        to_app app (with_engines p e) (xwr d) (λ q. or_ack (take_if q is_trs q.event_queue))

    -- CMD_XWR
    unfoldable pub on_xwr : Peripheral E → List ℕ → PdErr × Peripheral E
    unfolding on_trs
    on_xwr p d = on_trs (engines.trs_cmd_decode p.engines d) p
