-- ===== src/Pd/Ledger/Replies.antt =====
-- Building a reply (src/osdp_pd.c: pd_build_reply_packet) and the events: the active event stays, or goes back to the
-- application where a NAK stands in for its reply.
use libosdp.Common.{
  ℕ, ◌≡◌, refl, ◌⊎◌, inl, inr, Bool, true, not, ◌||◌, ◌&&◌, Option, none, some, List, if_both, leb,
  ltb, ◌==◌,
}
use libosdp.Crypto.{Crypto}
use libosdp.Device.{
  Device, get_tx_buf_size, reply_ack, reply_nak, reply_busy, reply_ccrypt, reply_rmac_i,
}
use libosdp.Cp.{failed}
use libosdp.Phy.{PktError}
use libosdp.Phy.Build.{packet_init, packet_get_data_offset, Built}
use libosdp.Pd.Peripheral.{Peripheral, App, with_dev}
use libosdp.Pd.Engines.{Engines}
use libosdp.Pd.Status.{park}
use libosdp.Pd.Reply.{
  Draft, draft, draft_nak, draft_ccrypt, draft_rmac_i, or_nak, drafted, placed, build_reply,
  finish_reply, reply_from, build_reply_packet, lacks_event,
}
use libosdp.Pd.Ledger.{IsAccounted, release-IsAccounted, notify_sc-Keeps}
use libosdp.Pd.Ledger.Decoding.{dev-IsAccounted}

-- The reply that was built waits, or an error is reported.
pub record IsBuilt {E : Type 0} (r : Bool × Peripheral E) : Type 0 where
  pub events : IsAccounted r.1
  pub parked : r.0 ≡ true → r.1.reply_prebuilt ≡ true

-- A draft or a placed reply, which is a triple.
pub record IsDrafted {A B E : Type 0} (r : A × Peripheral E × B) : Type 0 where
  pub events : IsAccounted r.1

module _ {E : Type 0} where
  engines-IsAccounted :
      {p : Peripheral E} (e : E) → IsAccounted p → IsAccounted (record p { engines = e })
  engines-IsAccounted e h = record { gives_back = h.gives_back; accounted = h.accounted }

  draft_nak-IsDrafted : (p : Peripheral E) (n : ℕ) → IsAccounted p → IsDrafted (draft_nak p n)
  draft_nak-IsDrafted p n h =
      if_both IsDrafted (ltb n 1) _ _ (record { events = h })
        (record { events = dev-IsAccounted _ h })

  module _ (c : Crypto) (app : App) (now : ℕ) where
    ccrypt-IsDrafted :
        (p : Peripheral E) (smb : Bool) (n : ℕ) → IsAccounted p → IsDrafted (draft_ccrypt c p smb n)
    unfolding draft_ccrypt
    ccrypt-IsDrafted p smb n h =
        if_both IsDrafted (not smb || ltb n 32) _ _ (record { events = h })
          (record { events = dev-IsAccounted _ h })

    rmac_i-IsDrafted :
        (p : Peripheral E) (smb : Bool) (n : ℕ)
        → IsAccounted p
        → IsDrafted (draft_rmac_i c app p smb n now)
    unfolding draft_rmac_i
    rmac_i-IsDrafted p smb n h =
        let k = (notify_sc-Keeps app (with_dev p _)).accounts (dev-IsAccounted _ h) in
        if_both IsDrafted (not smb || ltb n 16) _ _ (record { events = h })
          (record { events = record { gives_back = k.gives_back; accounted = k.accounted } })

    module _ (engines : Engines E) where
      draft-IsDrafted :
          (p : Peripheral E) (id : ℕ) (smb : Bool) (n : ℕ)
          → IsAccounted p
          → IsDrafted (draft engines c app now p id smb n)
      unfolding draft
      draft-IsDrafted p id smb n h =
          if_both IsDrafted (id == reply_ack || id == reply_busy) _ _ (record { events = h })
            (if_both IsDrafted (id == 0x45) _ _ (record { events = h })
              (if_both IsDrafted (id == 0x46) _ _ (record { events = h })
                (if_both IsDrafted (id == 0x54) _ _ (record { events = h })
                  (if_both IsDrafted (id == reply_nak) _ _ (draft_nak-IsDrafted p n h) (
                    if_both IsDrafted (id == 0x80 || (id == 0x81 || id == 0x82)) _ _
                      (record { events = engines-IsAccounted _ h })
                      (if_both IsDrafted (id == 0x57 && p.bioreadr_mp) _ _
                        (record { events = engines-IsAccounted _ h })
                        (if_both IsDrafted (id == 0x7A) _ _
                          (record { events = engines-IsAccounted _ h })
                          (if_both IsDrafted (id == 0xB1) _ _
                            (record { events = engines-IsAccounted _ h })
                            (if_both IsDrafted (id == reply_ccrypt) _ _ (ccrypt-IsDrafted p smb n h)
                              (if_both IsDrafted (id == reply_rmac_i) _ _
                                (rmac_i-IsDrafted p smb n h) (record { events = h })))))))))))

      or_nak-IsDrafted :
          (id n : ℕ) (r : Draft E) → IsDrafted r → IsDrafted (or_nak engines c app now id n r)
      unfolding or_nak
      or_nak-IsDrafted id n (some bytes, p, scb) h = record { events = h.events }
      or_nak-IsDrafted id n (none, p, scb) h =
          if_both IsDrafted (ltb n 1) _ _ (record { events = h.events })
            (record { events = release-IsAccounted _ failed (dev-IsAccounted _ h.events) })

      drafted-IsDrafted :
          (p : Peripheral E) (smb : Bool) (n : ℕ)
          → IsAccounted p
          → IsDrafted (drafted engines c app now p smb n)
      unfolding drafted
      drafted-IsDrafted p smb n h = or_nak-IsDrafted p.dev.reply_id n _ (
          if_both IsDrafted (lacks_event engines p p.dev.reply_id) _ _ (record { events = h })
            (draft-IsDrafted p p.dev.reply_id smb n h))

      placed-IsDrafted :
          (pkt : List ℕ) (off : ℕ) (smb : Option ℕ) (r : Option (List ℕ) × Peripheral E × List ℕ)
          → IsDrafted r
          → IsDrafted (placed engines c app now pkt off smb r)
      unfolding placed
      placed-IsDrafted pkt off smb (none, p, scb) h = record { events = h.events }
      placed-IsDrafted pkt off smb (some bytes, p, scb) h = record { events = h.events }

      build-IsDrafted :
          (p : Peripheral E) (pkt : List ℕ) (n : ℕ)
          → IsAccounted p
          → IsDrafted (build_reply engines c app now p pkt n)
      unfolding build_reply
      build-IsDrafted p pkt n h =
          if_both IsDrafted (leb n (packet_get_data_offset p.dev pkt)) _ _ (record { events = h })
            (placed-IsDrafted pkt _ _ _ (drafted-IsDrafted p _ _ h))

      module _ (crc16 : List ℕ → ℕ) where
        park-IsBuilt : (p : Peripheral E) (b : Built) → IsAccounted p → IsBuilt (park p b)
        unfolding park
        park-IsBuilt p (inl err, pd, pkt) h = record {
          events = dev-IsAccounted _ h;
          parked = λ e. cc;
        }
        park-IsBuilt p (inr len, pd, pkt) h = record {
          events = record { gives_back = h.gives_back; accounted = h.accounted };
          parked = λ e. refl;
        }

        finish-IsBuilt :
            (hdr size : ℕ) (r : Option ℕ × Peripheral E × List ℕ)
            → IsDrafted r
            → IsBuilt (finish_reply engines c app now crc16 hdr size r)
        unfolding finish_reply
        finish-IsBuilt hdr size (none, p, pkt) h = record {
          events = dev-IsAccounted _ h.events;
          parked = λ e. cc;
        }
        finish-IsBuilt hdr size (some len, p, pkt) h = park-IsBuilt p _ h.events

        reply_from-IsBuilt :
            (p : Peripheral E) (size : ℕ) (r : (PktError ⊎ ℕ) × Device × List ℕ)
            → IsAccounted p
            → IsBuilt (reply_from engines c app now crc16 p size r)
        unfolding reply_from
        reply_from-IsBuilt p size (inl err, pd, pkt) h = record {
          events = dev-IsAccounted _ h;
          parked = λ e. cc;
        }
        reply_from-IsBuilt p size (inr hdr, pd, pkt) h =
            finish-IsBuilt hdr size _ (build-IsDrafted _ pkt size (dev-IsAccounted _ h))

        pub reply-IsBuilt :
            (p : Peripheral E)
            → IsAccounted p
            → IsBuilt (build_reply_packet engines c app now crc16 p)
        unfolding build_reply_packet
        reply-IsBuilt p h =
            reply_from-IsBuilt p (get_tx_buf_size p.dev)
              (packet_init p.dev p.dev.tx_buf (get_tx_buf_size p.dev)) h
