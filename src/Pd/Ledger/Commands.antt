-- ===== src/Pd/Ledger/Commands.antt =====
-- What the commands of src/osdp_pd.c that the library, the feature engines and the secure channel answer do to the
-- events, and with them pd_decode_command as a whole.
use libosdp.Common.{
  ℕ, ◌≡◌, refl, ◌⊎◌, inl, inr, Bool, true, false, not, ◌||◌, Option, none, some, List, [], take,
  ◌∷◌, if_both, length, leb, ltb, ◌==◌,
}
use libosdp.Crypto.{Crypto}
use libosdp.SecureChannel.{verify_cp_cryptogram}
use libosdp.Device.{Device, sc_is_active, get_tx_buf_size}
use libosdp.Phy.{PktError}
use libosdp.Phy.Build.{packet_init, packet_get_data_offset, Built}
use libosdp.Cp.{Command, status, StatusType}
use libosdp.Pd.{read_biomatch}
use libosdp.Pd.Event.{Event, is_reply_to, status_reply}
use libosdp.Pd.Peripheral.{Peripheral, App, given, command_callback}
use libosdp.Pd.Status.{prebuild_status_reply, status_from, fill_status, park}
use libosdp.Pd.Dispatch.{take_event, take_if, take_inline_reply}
use libosdp.Pd.Decode.{
  on_challenge, on_scrypt, on_block, on_template, on_biomatch, on_report, on_prebuilt, after_inline,
  on_status, restart_handshake, verify_scrypt, needs_items,
}
use libosdp.Pd.Ledger.{sc_deactivate-Keeps}
use libosdp.Pd.Ledger.Decoding.{
  IsIdle, IsDecoded, StaysIdle, ends, dev-IsAccounted, dev-IsIdle, generic-IsDecoded,
  capable-IsDecoded, take-IsAccounted, callback-StaysIdle, with_reply-IsDecoded, command-IsDecoded,
  records-IsDecoded,
}

module _ {E : Type 0} where
  -- What status replies leave out of the events.
  prebuilt-IsIdle :
      {p : Peripheral E} (pd : Device)
      → IsIdle p
      → IsIdle (record p { dev = pd; reply_prebuilt = true })
  prebuilt-IsIdle pd h = record {
    events = record { gives_back = h.events.gives_back; accounted = h.events.accounted };
    none_active = h.none_active;
  }

  pub park-StaysIdle : (p : Peripheral E) (b : Built) → IsIdle p → StaysIdle (park p b)
  unfolding park
  park-StaysIdle p (inl err, pd, pkt) h = record { idle = dev-IsIdle _ h }
  park-StaysIdle p (inr len, pd, pkt) h = record { idle = prebuilt-IsIdle _ h }

  module _ (crc16 : List ℕ → ℕ) (c : Crypto) where
    filled-StaysIdle :
        (p : Peripheral E) (pd : Device) (pkt : List ℕ) (off hdr size : ℕ) (bytes : Option (List ℕ))
        → IsIdle p
        → StaysIdle (fill_status crc16 c p pd pkt off hdr size bytes)
    unfolding fill_status
    filled-StaysIdle p pd pkt off hdr size none h = record { idle = dev-IsIdle _ h }
    filled-StaysIdle p pd pkt off hdr size (some bytes) h = park-StaysIdle p _ h

    status_from-StaysIdle :
        (p : Peripheral E) (id : ℕ) (report : List ℕ) (size : ℕ)
        (r : (PktError ⊎ ℕ) × Device × List ℕ)
        → IsIdle p
        → StaysIdle (status_from crc16 c p id report size r)
    unfolding status_from
    status_from-StaysIdle p id report size (inl err, pd, pkt) h = record { idle = dev-IsIdle _ h }
    status_from-StaysIdle p id report size (inr hdr, pd, pkt) h =
        if_both StaysIdle (leb size (packet_get_data_offset pd pkt)) _ _
          (record { idle = dev-IsIdle _ h }) (filled-StaysIdle p pd _ _ hdr size _ h)

    prebuild-StaysIdle :
        (p : Peripheral E) (id : ℕ) (report : List ℕ)
        → IsIdle p
        → StaysIdle (prebuild_status_reply crc16 c p id report)
    unfolding prebuild_status_reply
    prebuild-StaysIdle p id report h =
        status_from-StaysIdle p id report (get_tx_buf_size p.dev)
          (packet_init p.dev p.dev.tx_buf (get_tx_buf_size p.dev)) h

    module _ (app : App) where
      on_prebuilt-IsDecoded :
          (r : Bool × Peripheral E) (t : StatusType)
          → StaysIdle r
          → IsDecoded (on_prebuilt app crc16 c r t)
      unfolding on_prebuilt
      on_prebuilt-IsDecoded (false, p) t h = ends refl h.idle.events
      on_prebuilt-IsDecoded (true, p) t h = ends refl (dev-IsAccounted _ h.idle.events)

      untaken-IsDecoded :
          (p : Peripheral E) (t : StatusType) (report : List ℕ)
          → IsIdle p
          → IsDecoded (after_inline app crc16 c (false, p) t report)
      unfolding after_inline
      untaken-IsDecoded p t report h =
          on_prebuilt-IsDecoded (prebuild_status_reply crc16 c p (status_reply t) report) t
            (prebuild-StaysIdle p (status_reply t) report h)

      inline_or_report :
          (p : Peripheral E) (t : StatusType) (report : List ℕ) (queue : List Event)
          → p.event_queue ≡ queue
          → IsIdle p
          → IsDecoded
              (after_inline app crc16 c (take_if p (is_reply_to p.dev.cmd_id) queue) t report)
      unfolding take_if
      inline_or_report p t report [] e h = untaken-IsDecoded p t report h
      inline_or_report p t report (ev ∷ rest) e h =
          if_both (λ (r : Bool × Peripheral E). IsDecoded (after_inline app crc16 c r t report))
            (is_reply_to p.dev.cmd_id ev) (true, take_event p ev rest) (false, p)
            (unfold after_inline in ends refl (take-IsAccounted p ev rest e h))
            (untaken-IsDecoded p t report h)

      report-IsDecoded :
          (r : Option (List ℕ) × Peripheral E) (t : StatusType)
          → StaysIdle r
          → IsDecoded (on_report app crc16 c r t)
      unfolding on_report take_inline_reply
      report-IsDecoded (none, p) t h = ends refl h.idle.events
      report-IsDecoded (some report, p) t h = inline_or_report p t report p.event_queue refl h.idle

      pub status-IsDecoded :
          (p : Peripheral E) (t : StatusType) (d : List ℕ)
          → IsIdle p
          → IsDecoded (on_status app crc16 c p t d)
      unfolding on_status
      status-IsDecoded p t d h =
          let asked = λ (q : Peripheral E) (k : IsIdle q).
            report-IsDecoded (command_callback app q (given (status t))) t
              (callback-StaysIdle app q (given (status t)) k) in
          if_both IsDecoded (not (length d == 0)) _ _ (generic-IsDecoded h)
            (if_both IsDecoded (needs_items t) _ _ (capable-IsDecoded p 0 _ asked h) (asked p h))

      pub block-IsDecoded :
          (p : Peripheral E) (id : ℕ) (cmds : Option (List Command))
          → IsIdle p
          → IsDecoded (on_block app p id cmds)
      unfolding on_block
      block-IsDecoded p id none h = generic-IsDecoded h
      block-IsDecoded p id (some []) h =
          if_both IsDecoded (id == 0x68 || (id == 0x69 || id == 0x6A)) _ _
            (records-IsDecoded app p [] h) (generic-IsDecoded h)
      block-IsDecoded p id (some (cmd ∷ cmds)) h =
          if_both IsDecoded (id == 0x68 || (id == 0x69 || id == 0x6A)) _ _
            (records-IsDecoded app p (cmd ∷ cmds) h) (command-IsDecoded app p id cmd h)

      template-IsDecoded :
          (p : Peripheral E) (cmds : Option (List Command))
          → IsIdle p
          → IsDecoded (on_template app p cmds)
      unfolding on_template
      template-IsDecoded p none h = generic-IsDecoded h
      template-IsDecoded p (some []) h = generic-IsDecoded h
      template-IsDecoded p (some (cmd ∷ rest)) h = with_reply-IsDecoded app p (given cmd) h

      pub biomatch-IsDecoded :
          (p : Peripheral E) (d : List ℕ) → IsIdle p → IsDecoded (on_biomatch app p d)
      unfolding on_biomatch
      biomatch-IsDecoded p d h =
          if_both IsDecoded (ltb (length d) 6) _ _ (generic-IsDecoded h)
            (capable-IsDecoded p 0 _ (λ q k. template-IsDecoded q (read_biomatch d) k) h)

      handshake-IsDecoded :
          (p : Peripheral E) (d : List ℕ) → IsIdle p → IsDecoded (restart_handshake c app p d)
      unfolding restart_handshake
      handshake-IsDecoded p d h =
          ends refl (dev-IsAccounted _ ((sc_deactivate-Keeps app p).accounts h.events))

      pub challenge-IsDecoded :
          (p : Peripheral E) (d : List ℕ) → IsIdle p → IsDecoded (on_challenge c app p d)
      unfolding on_challenge
      challenge-IsDecoded p d h =
          if_both IsDecoded (not (length d == 8)) _ _ (generic-IsDecoded h)
            (capable-IsDecoded p 0 _ (λ q k. handshake-IsDecoded q d k) h)

      verified-IsDecoded :
          (p : Peripheral E) (d : List ℕ) → IsIdle p → IsDecoded (verify_scrypt c app p d)
      unfolding verify_scrypt
      verified-IsDecoded p d h =
          let sc' = record p.dev.sc { cp_cryptogram = take 16 d } in
          if_both IsDecoded (sc_is_active p.dev) _ _ (ends refl (dev-IsAccounted _ h.events)) (
            if_both IsDecoded (not (verify_cp_cryptogram c (record p.dev { sc = sc' }))) _ _
              (ends refl (dev-IsAccounted _ h.events)) (ends refl (dev-IsAccounted _ h.events)))

      pub scrypt-IsDecoded :
          (p : Peripheral E) (d : List ℕ) → IsIdle p → IsDecoded (on_scrypt c app p d)
      unfolding on_scrypt
      scrypt-IsDecoded p d h =
          if_both IsDecoded (not (length d == 16)) _ _ (generic-IsDecoded h)
            (capable-IsDecoded p 0 _ (λ q k. verified-IsDecoded q d k) h)
