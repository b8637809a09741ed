-- ===== src/Pd/Ledger/Choice.antt =====
-- The commands of the feature engines and the choice between all commands in pd_decode_command of src/osdp_pd.c: what
-- becomes of the events.
use libosdp.Common.{
  ℕ, refl, Bool, true, false, not, ◌||◌, ◌&&◌, Option, none, some, List, if_both, length, ltb, ◌==◌,
}
use libosdp.Bytes.{byte_at}
use libosdp.Crypto.{Crypto}
use libosdp.Device.{sc_is_active, is_enforce_secure}
use libosdp.Pd.{read_commands}
use libosdp.Pd.Event.{is_trs}
use libosdp.Pd.Peripheral.{Peripheral, App, xwr}
use libosdp.Pd.Engines.{
  Engines, Fragment, fragment_refused, fragment_kept, whole, TrsDecode, trs_refused, trs_ack,
  trs_mode_report, trs_to_app,
}
use libosdp.Pd.Dispatch.{
  PdErr, pd_err_none, pd_err_wait, pd_err_generic, pd_err_reply, pd_err_ignore, pd_err_no_data,
  pd_err_retry_send, take_if, or_ack, allowed_in_clear, asked_report,
}
use libosdp.Pd.Decode.{
  on_query, on_rx_size, on_keep_active, on_poll, on_abort, on_file, on_piv_data, on_fragment,
  on_piv_auth, on_trs, on_xwr, on_piv_open, on_authenticated, on_id, is_app_command, on_library_id,
  refuse_undecoded, started, decode_command,
}
use libosdp.Pd.Ledger.Decoding.{
  IsIdle, IsDecoded, StaysIdle, ends, dev-IsAccounted, dev-IsIdle, engines-IsIdle,
  generic-IsDecoded, capable-IsDecoded, acked-IsDecoded, take_if-IsKept, or_ack-IsDecoded,
  inline-IsDecoded, polled-IsAccounted, callback-StaysIdle, to_app-IsDecoded, with_reply-IsDecoded,
}
use libosdp.Pd.Ledger.Commands.{
  status-IsDecoded, block-IsDecoded, biomatch-IsDecoded, challenge-IsDecoded, scrypt-IsDecoded,
}

module _ {E : Type 0} where
  query-IsDecoded :
      (p : Peripheral E) (d : List ℕ) (id : ℕ) → IsIdle p → IsDecoded (on_query p d id)
  unfolding on_query
  query-IsDecoded p d id h =
      if_both IsDecoded (not (length d == 1)) _ _ (generic-IsDecoded h)
        (ends refl (dev-IsAccounted _ h.events))

  rx_size-IsDecoded : (p : Peripheral E) (d : List ℕ) → IsIdle p → IsDecoded (on_rx_size p d)
  unfolding on_rx_size
  rx_size-IsDecoded p d h =
      if_both IsDecoded (ltb (length d) 2) _ _ (generic-IsDecoded h)
        (ends refl (dev-IsAccounted _ h.events))

  keep_active-IsDecoded :
      (p : Peripheral E) (d : List ℕ) → IsIdle p → IsDecoded (on_keep_active p d)
  unfolding on_keep_active
  keep_active-IsDecoded p d h =
      if_both IsDecoded (ltb (length d) 2) _ _ (generic-IsDecoded h)
        (ends refl (record { gives_back = h.events.gives_back; accounted = h.events.accounted }))

  module _ (engines : Engines E) where
    poll-IsDecoded : (p : Peripheral E) (d : List ℕ) → IsIdle p → IsDecoded (on_poll engines p d)
    unfolding on_poll
    poll-IsDecoded p d h = if_both IsDecoded (not (length d == 0)) _ _ (generic-IsDecoded h) (
        if_both IsDecoded (engines.piv_reply_pending p.engines) _ _
          (ends refl (dev-IsAccounted _ h.events))
          (if_both IsDecoded (engines.bio_reply_pending p.engines) _ _
            (ends refl (dev-IsAccounted _ h.events))
            (ends refl (polled-IsAccounted p p.event_queue refl h))))

    abort-IsDecoded : (p : Peripheral E) (d : List ℕ) → IsIdle p → IsDecoded (on_abort engines p d)
    unfolding on_abort
    abort-IsDecoded p d h =
        if_both IsDecoded (not (length d == 0)) _ _ (generic-IsDecoded h)
          (acked-IsDecoded _ (engines-IsIdle _ h))

    file-IsDecoded : (p : Peripheral E) (d : List ℕ) → IsIdle p → IsDecoded (on_file engines p d)
    unfolding on_file
    file-IsDecoded p d h =
        let k = engines-IsIdle (engines.file_cmd_tx_decode p.engines d).1 h in
        if_both IsDecoded (engines.file_cmd_tx_decode p.engines d).0 _ _
          (ends refl (dev-IsAccounted _ k.events)) (ends refl (dev-IsAccounted _ k.events))

    module _ (app : App) where
      piv_open-IsDecoded :
          (r : Bool × E) (p : Peripheral E) (d : List ℕ)
          → IsIdle p
          → IsDecoded (on_piv_open engines app r p d)
      unfolding on_piv_open
      piv_open-IsDecoded (false, e) p d h = generic-IsDecoded (engines-IsIdle e h)
      piv_open-IsDecoded (true, e) p d h = with_reply-IsDecoded app _ _ (engines-IsIdle e h)

      piv_data-IsDecoded :
          (p : Peripheral E) (d : List ℕ) → IsIdle p → IsDecoded (on_piv_data engines app p d)
      unfolding on_piv_data
      piv_data-IsDecoded p d h = if_both IsDecoded (not (length d == 5)) _ _ (generic-IsDecoded h) (
          capable-IsDecoded p 0 _
            (λ q k. piv_open-IsDecoded (engines.piv_open q.engines (byte_at d 3)) q d k) h)

      authenticated-IsDecoded :
          (r : Option (List ℕ) × Peripheral E)
          → StaysIdle r
          → IsDecoded (on_authenticated engines app r)
      unfolding on_authenticated
      authenticated-IsDecoded (none, p) h = ends refl (engines-IsIdle _ h.idle).events
      authenticated-IsDecoded (some report, p) h = inline-IsDecoded p h.idle

      fragment-IsDecoded :
          (f : Fragment × E) (p : Peripheral E) → IsIdle p → IsDecoded (on_fragment engines app f p)
      unfolding on_fragment
      fragment-IsDecoded (fragment_refused, e) p h = generic-IsDecoded (engines-IsIdle e h)
      fragment-IsDecoded (fragment_kept, e) p h = acked-IsDecoded _ (engines-IsIdle e h)
      fragment-IsDecoded (whole d, e) p h =
          authenticated-IsDecoded _ (callback-StaysIdle app _ _ (engines-IsIdle e h))

      piv_auth-IsDecoded :
          (p : Peripheral E) (d : List ℕ) → IsIdle p → IsDecoded (on_piv_auth engines app p d)
      unfolding on_piv_auth
      piv_auth-IsDecoded p d h = if_both IsDecoded (ltb (length d) 6) _ _ (generic-IsDecoded h) (
          capable-IsDecoded p 0 _
            (λ q k. fragment-IsDecoded (engines.piv_cmd_frag q.engines q.dev.cmd_id d) q k) h)

      trs_taken-IsDecoded :
          (q : Peripheral E) → IsIdle q → IsDecoded (or_ack (take_if q is_trs q.event_queue))
      trs_taken-IsDecoded q h =
          or_ack-IsDecoded (take_if q is_trs q.event_queue)
            (take_if-IsKept q is_trs q.event_queue refl h)

      trs-IsDecoded :
          (r : TrsDecode × E) (p : Peripheral E) → IsIdle p → IsDecoded (on_trs engines app r p)
      unfolding on_trs
      trs-IsDecoded (trs_refused, e) p h = generic-IsDecoded (engines-IsIdle e h)
      trs-IsDecoded (trs_ack, e) p h = acked-IsDecoded _ (engines-IsIdle e h)
      trs-IsDecoded (trs_mode_report, e) p h =
          ends refl (dev-IsAccounted _ (engines-IsIdle e h).events)
      trs-IsDecoded (trs_to_app d, e) p h =
          to_app-IsDecoded app _ (xwr d) _ trs_taken-IsDecoded (engines-IsIdle e h)

      module _ (crc16 : List ℕ → ℕ) (c : Crypto) where
        library-IsDecoded :
            (p : Peripheral E) (id : ℕ) (d : List ℕ)
            → IsIdle p
            → IsDecoded (on_library_id app crc16 c engines p id d)
        unfolding on_library_id on_xwr
        library-IsDecoded p id d h =
            if_both IsDecoded (id == 0x74) _ _ (biomatch-IsDecoded crc16 c app p d h) (
              if_both IsDecoded (id == 0x7B) _ _ (rx_size-IsDecoded p d h) (
                if_both IsDecoded (id == 0xA7) _ _ (keep_active-IsDecoded p d h) (
                  if_both IsDecoded (id == 0xA2) _ _ (abort-IsDecoded p d h) (
                    if_both IsDecoded (id == 0x7C) _ _ (file-IsDecoded p d h) (
                      if_both IsDecoded (id == 0xA3) _ _ (piv_data-IsDecoded p d h) (
                        if_both IsDecoded (id == 0xA4 || id == 0xA5) _ _ (piv_auth-IsDecoded p d h)
                          (if_both IsDecoded (id == 0xA1) _ _
                            (trs-IsDecoded (engines.trs_cmd_decode p.engines d) p h)
                            (if_both IsDecoded (id == 0x76) _ _
                              (challenge-IsDecoded crc16 c app p d h)
                              (if_both IsDecoded (id == 0x77) _ _
                                (scrypt-IsDecoded crc16 c app p d h)
                                (ends refl (dev-IsAccounted _ h.events)))))))))))

        id-IsDecoded :
            (p : Peripheral E) (id : ℕ) (d : List ℕ)
            → IsIdle p
            → IsDecoded (on_id app crc16 c engines p id d)
        unfolding on_id
        id-IsDecoded p id d h = if_both IsDecoded (id == 0x60) _ _ (poll-IsDecoded p d h) (
            if_both IsDecoded (id == 0x64 || (id == 0x65 || (id == 0x66 || id == 0x67))) _ _
              (status-IsDecoded crc16 c app p (asked_report id) d h)
              (if_both IsDecoded (id == 0x61) _ _ (query-IsDecoded p d 0x45 h) (
                if_both IsDecoded (id == 0x62) _ _ (query-IsDecoded p d 0x46 h) (
                  if_both IsDecoded (is_app_command id) _ _
                    (block-IsDecoded crc16 c app p id (read_commands id d) h)
                    (library-IsDecoded p id d h)))))

        undecoded-IsDecoded :
            (r : PdErr × Peripheral E)
            → IsDecoded r
            → IsDecoded (refuse_undecoded app crc16 c engines r)
        unfolding refuse_undecoded
        undecoded-IsDecoded (pd_err_generic, p) h = ends refl (dev-IsAccounted _ h.events)
        undecoded-IsDecoded (pd_err_none, p) h = h
        undecoded-IsDecoded (pd_err_wait, p) h = h
        undecoded-IsDecoded (pd_err_reply, p) h = h
        undecoded-IsDecoded (pd_err_ignore, p) h = h
        undecoded-IsDecoded (pd_err_no_data, p) h = h
        undecoded-IsDecoded (pd_err_retry_send, p) h = h

        pub decode-IsDecoded :
            (p : Peripheral E) (id : ℕ) (d : List ℕ)
            → IsIdle p
            → IsDecoded (decode_command app crc16 c engines p id d)
        unfolding decode_command
        decode-IsDecoded p id d h =
            let k = dev-IsIdle (started app crc16 c engines p id).dev h in
            if_both IsDecoded
              (is_enforce_secure p.dev && (not (sc_is_active p.dev) && not (allowed_in_clear id))) _
              _ (ends refl (dev-IsAccounted _ h.events))
              (undecoded-IsDecoded
                (on_id app crc16 c engines (started app crc16 c engines p id) id d)
                (id-IsDecoded (started app crc16 c engines p id) id d k))
