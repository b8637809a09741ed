-- ===== src/Pd/Reply.antt =====
-- pd_build_reply and pd_build_reply_packet of src/osdp_pd.c: the packet of the reply that was chosen.
pub mod Data
use libosdp.Common.{
  ℕ, ◌+◌, ◌-◌, ◌/◌, ◌⊎◌, inl, inr, Bool, true, false, not, ◌&&◌, ◌||◌, Option, none, some, List, [],
  ◌∷◌, ◌++◌, ltb, leb, ◌==◌, if◌then◌else◌, length, take, splice, u8,
}
use libosdp.Bytes.{byte_at, byte_0, byte_1, byte_2}
use libosdp.Metrics.{nak}
use libosdp.Crypto.{Crypto}
use libosdp.SecureChannel.{compute_session_keys, compute_pd_cryptogram, compute_rmac_i}
use libosdp.Device.{
  Device, sc_is_active, sc_activate, get_tx_buf_size, report_metric, reply_ack, reply_nak,
  reply_busy, reply_ccrypt, reply_rmac_i, scs_14, scs_18,
}
use libosdp.Cp.{failed}
use libosdp.Cp.Build.{le16, le24, le32}
use libosdp.Phy.{PktError}
use libosdp.Phy.Build.{packet_init, packet_get_data_offset, packet_get_smb, finalize_packet}
use libosdp.Pd.Event.{
  Event, CardFormat, raw_unspecified, raw_wiegand, fmt_ascii, fmt_other, cardread, keypress, mfgrep,
  status_event, mfgstatr, mfgerrr, bioreadr, biomatchr, translate_event,
}
use libosdp.Pd.Peripheral.{Peripheral, App, with_dev, complete_event, notify_sc_status}
use libosdp.Pd.Engines.{Engines}
use libosdp.Pd.Status.{status_bytes, staged, park}
use libosdp.Pd.Dispatch.{nak_record}
unfoldable pub use libosdp.Pd.Reply.Data.{
  is_bioreadr, fitting, fit, nonempty, cap_codes, needs_event, is_backing, event_bytes,
  backed_bytes, id_bytes, cap_bytes,
}

abbrev pub scs_12 : ℕ
scs_12 = 0x12

abbrev pub scs_16 : ℕ
scs_16 = 0x16

-- The data of a reply, the PD after it, and the security block if the reply writes its own.
abbrev pub Draft : Type 0 → Type 0
Draft E = Option (List ℕ) × Peripheral E × List ℕ

module _ {E : Type 0} where
  abbrev pub plain : Peripheral E → Option (List ℕ) → Draft E
  plain p bytes = (bytes, p, [])

  -- REPLY_NAK
  abbrev pub draft_nak : Peripheral E → ℕ → Draft E
  draft_nak p max_len =
      if ltb max_len 1
      then plain p none
      else plain (with_dev p (report_metric p.dev nak)) (some (p.dev.nak_code ∷ []))

  -- REPLY_CCRYPT, with the security block that asks for the handshake to go on.
  unfoldable pub draft_ccrypt : Crypto → Peripheral E → Bool → ℕ → Draft E
  draft_ccrypt c p has_smb max_len =
      let drawn = record p.dev { sc = record p.dev.sc { pd_random = c.fill_random 8 } } in
      let dev' = compute_pd_cryptogram c (compute_session_keys c drawn) in
      if not has_smb || ltb max_len 32 then plain p none else (
        some (
            take 8 dev'.sc.pd_client_uid
            ++ (take 8 dev'.sc.pd_random ++ take 16 dev'.sc.pd_cryptogram)),
        with_dev p dev',
        3 ∷ scs_12 ∷ (if dev'.flags.sc_use_scbkd then 0 else 1) ∷ [],
      )

  -- REPLY_RMAC_I brings the secure channel up.
  unfoldable pub draft_rmac_i : Crypto → App → Peripheral E → Bool → ℕ → ℕ → Draft E
  draft_rmac_i c app p has_smb max_len now =
      let up = notify_sc_status app (with_dev p (sc_activate (compute_rmac_i c p.dev))) in
      if not has_smb || ltb max_len 16 then plain p none else (
        some (take 16 (compute_rmac_i c p.dev).sc.r_mac),
        record up { sc_tstamp = now },
        3 ∷ scs_14 ∷ 1 ∷ [],
      )

  module _ (engines : Engines E) where
    abbrev pub with_bytes : Peripheral E → List ℕ × E → Draft E
    with_bytes p (bytes, e) = plain (record p { engines = e }) (nonempty bytes)

    abbrev pub with_fragment : Peripheral E → Option (List ℕ) × E → Draft E
    with_fragment p (bytes, e) = plain (record p { engines = e }) bytes

    -- pd_engine_reply_pending
    unfoldable pub engine_reply_pending : Peripheral E → ℕ → Bool
    engine_reply_pending p id =
        (id == 0x57 && engines.bio_reply_pending p.engines)
        || (engines.piv_reply_pending p.engines && id == engines.piv_reply_id p.engines)

    -- Whether the reply lacks the event that it is to be built from.
    unfoldable pub lacks_event : Peripheral E → ℕ → Bool
    unfolding needs_event is_backing engine_reply_pending
    lacks_event p id =
        let backed : Bool = elim p.active_event [ none ↦ false | some ev ↦ is_backing id ev ] in
        needs_event id && (not backed && not (engine_reply_pending p id))

    module _ (c : Crypto) (app : App) (now : ℕ) where
      -- The case of the reply's ID. An ID that is none of these is a BUG() of the source, and gives none here.
      unfoldable pub draft : Peripheral E → ℕ → Bool → ℕ → Draft E
      unfolding event_bytes cap_bytes draft_ccrypt draft_rmac_i
      draft p id has_smb max_len =
          if id == reply_ack || id == reply_busy
          then plain p (some [])
          else if id == 0x45
          then plain p (fit max_len 12 (id_bytes p))
          else if id == 0x46
          then plain p (some (cap_bytes p cap_codes max_len))
          else if id == 0x54
          then plain p (fit max_len 5 (u8 p.comset_address ∷ le32 p.comset_baud_rate))
          else if id == reply_nak
          then draft_nak p max_len
          else if id == 0x80 || (id == 0x81 || id == 0x82)
          then with_bytes p (
              engines.piv_reply_build p.engines
                (fitting (engines.piv_takes p.engines) p.active_event) max_len)
          else if id == 0x57 && p.bioreadr_mp
          then with_fragment p (
              engines.bio_reply_build p.engines
                (if is_bioreadr p.active_event then p.active_event else none) max_len)
          else if id == 0x7A
          then with_bytes p (engines.file_cmd_stat_build p.engines max_len)
          else if id == 0xB1
          then with_bytes p (engines.trs_reply_build p.engines p.active_event (max_len - 1))
          else if id == reply_ccrypt
          then draft_ccrypt c p has_smb max_len
          else if id == reply_rmac_i
          then draft_rmac_i c app p has_smb max_len now
          else plain p (backed_bytes p id max_len p.active_event)

      -- The active event goes back to the application.
      abbrev pub give_back : Peripheral E → Peripheral E
      give_back p = record (complete_event p p.active_event failed) { active_event = none }

      -- The ID and the data, or the NAK that stands in for a reply that could not be built.
      unfoldable pub or_nak : ℕ → ℕ → Draft E → Option (List ℕ) × Peripheral E × List ℕ
      or_nak id max_len (some bytes, p, scb) = (some (id ∷ bytes), p, scb)
      or_nak id max_len (none, p, scb) = if ltb max_len 1 then (none, p, scb) else (
        some (reply_nak ∷ nak_record ∷ []),
        give_back (with_dev p (report_metric p.dev nak)),
        scb,
      )

      unfoldable pub drafted : Peripheral E → Bool → ℕ → Option (List ℕ) × Peripheral E × List ℕ
      unfolding or_nak lacks_event draft
      drafted p has_smb max_len =
          let id = p.dev.reply_id in
          or_nak id max_len (if lacks_event p id then plain p none else draft p id has_smb max_len)

      -- The packet with the reply at `off` and the security block at `smb`: SCS_16 or SCS_18 once the
      -- secure channel is up, but for the handshake.
      unfoldable pub mark_scb : Peripheral E → List ℕ → Option ℕ → List ℕ → ℕ → List ℕ
      mark_scb p pkt none scb len = pkt
      mark_scb p pkt (some at) scb len =
          let own = splice pkt at scb in
          if ltb scs_14 (byte_at own (at + 1)) && sc_is_active p.dev
          then splice own at (2 ∷ (if ltb 1 len then scs_18 else scs_16) ∷ [])
          else own

      unfoldable pub placed :
          List ℕ
          → ℕ
          → Option ℕ
          → Option (List ℕ) × Peripheral E × List ℕ
          → Option ℕ × Peripheral E × List ℕ
      unfolding mark_scb
      placed pkt off smb (none, p, scb) = (none, p, pkt)
      placed pkt off smb (some bytes, p, scb) =
          (some (length bytes), p, mark_scb p (splice pkt off bytes) smb scb (length bytes))

      abbrev pub is_some : Option ℕ → Bool
      is_some none = false
      is_some (some n) = true

      -- pd_build_reply: the length of the reply, or none for an error.
      unfoldable pub build_reply : Peripheral E → List ℕ → ℕ → Option ℕ × Peripheral E × List ℕ
      unfolding drafted placed
      build_reply p pkt max_len =
          let off = packet_get_data_offset p.dev pkt in
          let smb = packet_get_smb p.dev pkt in
          if leb max_len off
          then (none, p, pkt)
          else placed pkt off smb (drafted p (is_some smb) (max_len - off - 1))

      module _ (crc16 : List ℕ → ℕ) where
        unfoldable pub finish_reply : ℕ → ℕ → Option ℕ × Peripheral E × List ℕ → Bool × Peripheral E
        unfolding park
        finish_reply hdr_len size (none, p, pkt) = (false, with_dev p (staged p.dev pkt hdr_len))
        finish_reply hdr_len size (some len, p, pkt) =
            park p
              (finalize_packet crc16 c (staged p.dev pkt (hdr_len + len)) pkt (hdr_len + len) size)

        unfoldable pub reply_from :
            Peripheral E → ℕ → (PktError ⊎ ℕ) × Device × List ℕ → Bool × Peripheral E
        unfolding build_reply finish_reply
        reply_from p size (inl err, pd, pkt) =
            (false, with_dev p (staged pd pkt p.dev.packet_buf_len))
        reply_from p size (inr hdr_len, pd, pkt) =
            finish_reply hdr_len size (build_reply (with_dev p (staged pd pkt hdr_len)) pkt size)

        -- pd_build_reply_packet; `true` is OSDP_PD_ERR_NONE.
        unfoldable pub build_reply_packet : Peripheral E → Bool × Peripheral E
        unfolding reply_from
        build_reply_packet p =
            let size = get_tx_buf_size p.dev in
            reply_from p size (packet_init p.dev p.dev.tx_buf size)
