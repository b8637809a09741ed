-- ===== src/Phy/Build/Finalize.antt =====
-- What osdp_phy_finalize_packet gives: a packet that fits, declares its own length and passes the check.
use libosdp.Common.{
  ℕ, ◌+◌, ◌-◌, ◌≤◌, ◌<◌, ◌≡◌, inl, inr, Bool-cases, ◌&&◌, Option, none, some, List, arith, ltb, leb,
  ◌==◌, take, drop,
}
use libosdp.Crypto.{Crypto}
use libosdp.Device.{Device, sc_is_active, scs_15}
use libosdp.Phy.{PktError, som_of, data_of, set_len, has_scb, pkt_som}
use libosdp.Phy.Build.{
  Built, append_check, append_mac, secure_packet, finalize_unmarked, with_mark, finalize_packet,
  check_len,
}

-- A packet that is returned is at most `m` bytes long.
Fits : ℕ → Built → Type 0
Fits m b = (n : ℕ) → b.0 ≡ inr n → n ≤ m

error-Fits : (m : ℕ) (err : PktError) (pd : Device) (pkt : List ℕ) → Fits m (inl err, pd, pkt)
unfolding Fits
error-Fits m err pd pkt n e = ground arith

module _ (crc16 : List ℕ → ℕ) where
  append_check-Fits :
      (pd : Device) (pkt : List ℕ) (len max_len : ℕ)
      → Fits max_len (append_check crc16 pd pkt len max_len)
  unfolding append_check Fits
  append_check-Fits pd pkt len max_len n e = ground arith

  module _ (c : Crypto) where
    append_mac-Fits :
        (pd : Device) (pkt : List ℕ) (len max_len : ℕ)
        → Fits max_len (append_mac crc16 c pd pkt len max_len)
    unfolding append_mac
    append_mac-Fits pd pkt len max_len = elim (Bool-cases (ltb max_len (len + 4))) [
      | inl e ↦ rw e (error-Fits max_len _ _ _)
      | inr e ↦ rw e (append_check-Fits _ _ (len + 4) max_len)
    ]

    secure_packet-Fits :
        (pd : Device) (r : Option ℕ × List ℕ) (max_len : ℕ)
        → Fits max_len (secure_packet crc16 c pd r max_len)
    unfolding secure_packet
    secure_packet-Fits pd (none, pkt) max_len = error-Fits max_len _ pd pkt
    secure_packet-Fits pd (some len, pkt) max_len = append_mac-Fits pd pkt len max_len

    unmarked-Fits :
        (pd : Device) (pkt : List ℕ) (len max_len : ℕ)
        → Fits max_len (finalize_unmarked crc16 c pd pkt len max_len)
    unfolding finalize_unmarked
    unmarked-Fits pd pkt len max_len =
        let pkt' = set_len pkt (len + check_len crc16 pkt) in
        elim (Bool-cases (som_of pkt == pkt_som)) [
          | inr e ↦ rw e (error-Fits max_len _ _ _)
          | inl e ↦
              elim (Bool-cases (sc_is_active pd && (has_scb pkt' && leb scs_15 (data_of pkt' 1)))) [
                | inl k ↦ rw (e, k) (secure_packet-Fits pd _ max_len)
                | inr k ↦ rw (e, k) (append_check-Fits pd pkt' len max_len)
              ]
        ]

    with_mark-inr :
        (b : Built) (mark : List ℕ) (n : ℕ)
        → (with_mark crc16 c b mark).0 ≡ inr n
        → (b.0 ≡ inr (n - 1)) × (0 < n)
    unfolding with_mark
    with_mark-inr (inl err, pd, pkt) mark n e = ground arith
    with_mark-inr (inr m, pd, pkt) mark n e = ground arith

    -- Whatever the device, the buffer and the length, a packet that finalizing returns is no longer
    -- than the space it was given, which is not 0, with the mark byte, MAC, padding and CRC or
    -- checksum counted.
    pub finalize_packet-fits :
        (pd : Device) (buf : List ℕ) (len max_len n : ℕ)
        → 0 < max_len
        → (finalize_packet crc16 c pd buf len max_len).0 ≡ inr n
        → n ≤ max_len
    unfolding finalize_packet Fits
    finalize_packet-fits pd buf len max_len n h e = ground (
      arith,
      unmarked-Fits pd buf len max_len n,
      with_mark-inr (finalize_unmarked crc16 c pd (drop 1 buf) (len - 1) (max_len - 1)) (take 1 buf)
          n,
      unmarked-Fits pd (drop 1 buf) (len - 1) (max_len - 1) (n - 1),
    )
