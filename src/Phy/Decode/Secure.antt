-- ===== src/Phy/Decode/Secure.antt =====
-- What osdp_phy_decode_packet of src/osdp_phy.c takes while the secure channel is active.
use libosdp.Common.{
  ℕ, zero, suc, ◌+◌, ◌-◌, ◌≡◌, ◌<◌, refl, ap, ◌∙◌, inl, inr, Bool-cases, true, false, ◌&&◌, Option,
  none, some, List, arith, leb, ◌==◌, if◌then◌else◌, if_both, ℤ, sub_ℕ,
}
use libosdp.Bytes.{byte_at}
use libosdp.Crypto.{Crypto}
use libosdp.Device.{
  Device, sc_is_active, is_cp_mode, is_pd_mode, is_enforce_secure, scs_15, cmd_keyset, reply_ack,
}
use libosdp.SecureChannel.{compute_mac, mac_of}
use libosdp.Phy.{data_of, has_scb}
use libosdp.Phy.Decode.{
  scb_error, note_scbkd, is_keyset_ack, mac_matches, open_secure, decode_scb, decode_plain,
  decode_unmarked,
}

-- A CP that waits for the answer to KEYSET and does not enforce security gets a plain ACK.
abbrev pub IsKeysetAck : Device → List ℕ → Type 0
IsKeysetAck pd pkt =
    (is_cp_mode pd ≡ true)
    × (pd.cmd_id ≡ cmd_keyset)
    × (data_of pkt 0 ≡ reply_ack)
    × (is_enforce_secure pd ≡ false)

IsKeysetAck-true : (pd : Device) (pkt : List ℕ) → is_keyset_ack pd pkt ≡ true → IsKeysetAck pd pkt
IsKeysetAck-true pd pkt k =
    (ground (arith, k), ground (arith, k), ground (arith, k), ground (arith, k))

-- The four bytes of the packet after the first `n` are those of the MAC over the first `n`, a command's on a PD and
-- a reply's on a CP.
abbrev pub CarriesMac : Crypto → Device → List ℕ → ℕ → Type 0
CarriesMac c pd pkt n =
    (i : ℕ) → i < 4 → byte_at pkt (n + i) ≡ byte_at (mac_of c pd.sc (is_pd_mode pd) pkt n) i

four_equal :
    (f g : ℕ → ℕ)
    → (f 0 == g 0 && (f 1 == g 1 && (f 2 == g 2 && f 3 == g 3))) ≡ true
    → (i : ℕ) → i < 4
    → f i ≡ g i
four_equal f g e zero h = ground (arith, e)
four_equal f g e (suc zero) h = ground (arith, e)
four_equal f g e (suc (suc zero)) h = ground (arith, e)
four_equal f g e (suc (suc (suc zero))) h = ground (arith, e)
four_equal f g e (suc (suc (suc (suc i)))) h = absurd (omega (arith, h))

-- The MAC that was just computed is the one that is compared.
compared-eq :
    (c : Crypto) (pd : Device) (pkt : List ℕ) (n : ℕ)
    → let d = compute_mac c pd (is_pd_mode pd) pkt n in
      (if is_pd_mode d then d.sc.c_mac else d.sc.r_mac) ≡ mac_of c pd.sc (is_pd_mode pd) pkt n
unfolding compute_mac
compared-eq c pd pkt n = elim (Bool-cases (is_pd_mode pd)) [ inl k ↦ rw k refl | inr k ↦ rw k refl ]

mac_matches-CarriesMac :
    (c : Crypto) (pd : Device) (pkt : List ℕ) (n : ℕ)
    → mac_matches c (compute_mac c pd (is_pd_mode pd) pkt n) pkt n ≡ true
    → CarriesMac c pd pkt n
unfolding mac_matches
mac_matches-CarriesMac c pd pkt n e i h =
    let d = compute_mac c pd (is_pd_mode pd) pkt n in
    let mac = if is_pd_mode d then d.sc.c_mac else d.sc.r_mac in
    four_equal (λ k. byte_at pkt (n + k)) (byte_at mac) e i h
    ∙ ap (λ (m : List ℕ). byte_at m i) (compared-eq c pd pkt n)

module _ (c : Crypto) (pd : Device) (mark pkt : List ℕ) (body : ℕ) (at : ℕ × ℤ) where
  plain_accepted :
      (decode_plain c pd pkt body).0 ≡ inr at → sc_is_active pd ≡ true → is_keyset_ack pd pkt ≡ true
  unfolding decode_plain
  plain_accepted e active = ground (arith, e, active)

  secure_accepted :
      (d : Device) (n start : ℕ) (len : ℤ)
      → (open_secure c d mark pkt n start len).0 ≡ inr at
      → mac_matches c (compute_mac c d (is_pd_mode d) pkt n) pkt n ≡ true
  unfolding open_secure
  secure_accepted d n start len e = ground (arith, e)

  -- Noting the default key leaves the mode and the keys alone.
  noted-CarriesMac : (n : ℕ) → CarriesMac c (note_scbkd pd pkt) pkt n → CarriesMac c pd pkt n
  unfolding note_scbkd
  noted-CarriesMac n =
      if_both (λ (d : Device). CarriesMac c d pkt n → CarriesMac c pd pkt n) _ _ pd (λ k. k)
        (λ k. k)

  scb_accepted :
      (o : Option ℕ)
      → (decode_scb c pd mark pkt body o).0 ≡ inr at
      → sc_is_active pd ≡ true
      → leb scs_15 (data_of pkt 1) ≡ true
      → CarriesMac c pd pkt (body - 4)
  unfolding decode_scb
  scb_accepted (some code) e active secure = absurd (ground (arith, e))
  scb_accepted none e active secure =
      let start = 5 + data_of pkt 0 in
      noted-CarriesMac (body - 4) (
        mac_matches-CarriesMac c (note_scbkd pd pkt) pkt (body - 4) (
          secure_accepted (note_scbkd pd pkt) (body - 4) start (sub_ℕ body start)
            (ground (arith, e, active, secure))))

  -- While the secure channel is active, a packet that is decoded and has no security block is an ACK that
  -- answers KEYSET, on a CP that does not enforce security. One whose security block says that it is
  -- MACed (SCS_15 and up) ends, before its CRC or checksum, in the first four bytes of the MAC over what
  -- is before them: on a PD the MAC of a command, which continues the chain from the last reply's MAC,
  -- and on a CP that of a reply, which continues it from the last command's.
  pub decode_unmarked-accepted :
      (decode_unmarked c pd mark pkt body).0 ≡ inr at
      → sc_is_active pd ≡ true
      → (has_scb pkt ≡ false → IsKeysetAck pd pkt)
        × (has_scb pkt ≡ true → leb scs_15 (data_of pkt 1) ≡ true → CarriesMac c pd pkt (body - 4))
  unfolding decode_unmarked
  decode_unmarked-accepted e active = (
    (λ plain. IsKeysetAck-true pd pkt (plain_accepted (ground (arith, e, plain)) active)),
    (λ scb. scb_accepted (scb_error pd pkt) (ground (arith, e, scb)) active),
  )
