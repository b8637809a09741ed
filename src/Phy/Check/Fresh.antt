-- ===== src/Phy/Check/Fresh.antt =====
-- What a packet that phy_check_packet of src/osdp_phy.c lets through is.
use libosdp.Common.{
  ℕ, ◌+◌, ◌-◌, ◌*◌, ◌<◌, ◌%◌, take, if_both, ◌≡◌, refl, ◌⊎◌, inl, inr, Bool, Bool-cases, true,
  false, not, ◌&&◌, Option, none, some, List, arith, ltb, ◌==◌, if◌then◌else◌,
}
use libosdp.Bytes.{byte_at}
use libosdp.Metrics.{packet_received}
use libosdp.Phy.Checksum.{byte_sum, compute_checksum_lem}
use libosdp.Device.{Device, is_pd_mode, report_metric}
use libosdp.Phy.{PktError, err_busy, pd_address_of, control_of, has_crc}
use libosdp.Phy.Sequence.{get_next_seq_number}
use libosdp.Phy.Check.{
  is_seq, is_intact, check_seq, check_pd, check_cp, check_unmarked, checked_len, rx_cmd_id,
  note_broadcast,
}

-- The device expects this sequence number next, unless it was told not to check.
Fresh : ℕ → Option PktError × Device → Type 0
Fresh comp r =
    r.0 ≡ none → (is_seq (get_next_seq_number r.1) comp ≡ true) ⊎ (r.1.flags.skip_seq_check ≡ true)

error-Fresh : (comp : ℕ) (err : PktError) (pd : Device) → Fresh comp (some err, pd)
unfolding Fresh
error-Fresh comp err pd e = absurd (ground (arith, e))

passed-Fresh :
    (comp : ℕ) (pd : Device)
    → (is_seq (get_next_seq_number pd) comp ≡ true) ⊎ (pd.flags.skip_seq_check ≡ true)
    → Fresh comp (none, pd)
unfolding Fresh
passed-Fresh comp pd h e = h

both-Fresh :
    (comp : ℕ) (b : Bool) (x y : Option PktError × Device)
    → Fresh comp x
    → Fresh comp y
    → Fresh comp (if b then x else y)
both-Fresh comp true x y f g = f
both-Fresh comp false x y f g = g

not_both : (a b : Bool) → (not a && not b) ≡ false → (a ≡ true) ⊎ (b ≡ true)
not_both true b e = inl refl
not_both false true e = inr refl
not_both false false e = absurd (ground (arith, e))

check_seq-Fresh : (pd : Device) (comp : ℕ) → Fresh comp (check_seq pd comp)
unfolding check_seq
check_seq-Fresh pd comp =
    let test = not (is_seq (get_next_seq_number pd) comp) && not pd.flags.skip_seq_check in
    elim (Bool-cases test) [
      | inl t ↦ rw t (error-Fresh comp _ _)
      | inr f ↦ rw f (
          passed-Fresh comp pd
            (not_both (is_seq (get_next_seq_number pd) comp) pd.flags.skip_seq_check f))
    ]

check_cp-Fresh :
    (pd : Device) (pkt : List ℕ) (pkt_len comp : ℕ) → Fresh comp (check_cp pd pkt pkt_len comp)
unfolding check_cp
check_cp-Fresh pd pkt pkt_len comp =
    both-Fresh comp _ (some err_busy, pd) (check_seq pd comp) (error-Fresh comp err_busy pd)
      (check_seq-Fresh pd comp)

check_pd-Fresh :
    (pd : Device) (pkt : List ℕ) (pd_addr comp : ℕ) → Fresh comp (check_pd pd pkt pd_addr comp).0
unfolding check_pd
check_pd-Fresh pd pkt pd_addr comp = elim (Bool-cases (comp == 0)) [
  | inl z ↦ rw z (check_seq-Fresh _ comp)
  | inr z ↦ elim (Bool-cases (is_seq pd.seq_number comp)) [
    | inr s ↦ rw (z, s) (check_seq-Fresh _ comp)
    | inl s ↦ elim (Bool-cases (ltb 0 pd.last_tx_len && rx_cmd_id pkt == pd.last_cmd_id)) [
      | inl r ↦ rw (z, s, r) (error-Fresh comp _ _)
      | inr r ↦ rw (z, s, r) (check_seq-Fresh _ comp)
    ]
  ]
]

-- The last two bytes of the `n` are the CRC of those before, the low byte first, or all of the `n` bytes add up to a
-- multiple of 256.
abbrev pub CarriesCheck : (List ℕ → ℕ) → List ℕ → ℕ → Type 0
CarriesCheck crc16 pkt n =
    (has_crc pkt ≡ true
      → crc16 (take (n - 2) pkt) % 65536 ≡ byte_at pkt (n - 2 + 1) * 256 + byte_at pkt (n - 2))
    × (has_crc pkt ≡ false → (byte_sum pkt (n - 1) 0 + byte_at pkt (n - 1)) % 256 ≡ 0)

-- The sequence number `comp` is the next one for the device. For a PD it is also 0, which restarts the sequence, or
-- the last one again, unless the command is the last one too and its reply is still at hand. A device that was
-- told not to check takes any.
abbrev pub IsNext : Device → List ℕ → ℕ → Type 0
IsNext pd pkt comp =
    ((is_seq (get_next_seq_number pd) comp ≡ true) ⊎ (pd.flags.skip_seq_check ≡ true))
    ⊎ ((is_pd_mode pd ≡ true)
        × ((comp ≡ 0)
            ⊎ ((is_seq pd.seq_number comp ≡ true)
                × ((ltb 0 pd.last_tx_len && rx_cmd_id pkt == pd.last_cmd_id) ≡ false))))

check_seq-accepts :
    (pd : Device) (comp : ℕ)
    → (check_seq pd comp).0 ≡ none
    → (is_seq (get_next_seq_number pd) comp ≡ true) ⊎ (pd.flags.skip_seq_check ≡ true)
unfolding check_seq
check_seq-accepts pd comp e =
    not_both (is_seq (get_next_seq_number pd) comp) pd.flags.skip_seq_check (ground (arith, e))

check_cp-IsNext :
    (pd : Device) (pkt : List ℕ) (pkt_len comp : ℕ)
    → (check_cp pd pkt pkt_len comp).0 ≡ none
    → IsNext pd pkt comp
unfolding check_cp
check_cp-IsNext pd pkt pkt_len comp e = inl (check_seq-accepts pd comp (ground (arith, e)))

-- What depends on the address does not touch the sequence number.
note_broadcast-seq :
    (pd : Device) (addr comp : ℕ)
    → (check_seq (note_broadcast pd addr) comp).0 ≡ none
    → (is_seq (get_next_seq_number pd) comp ≡ true) ⊎ (pd.flags.skip_seq_check ≡ true)
unfolding get_next_seq_number
note_broadcast-seq pd addr comp e =
    if_both
      (λ (d : Device).
        (check_seq d comp).0 ≡ none
        → (is_seq (get_next_seq_number pd) comp ≡ true) ⊎ (pd.flags.skip_seq_check ≡ true))
      (addr == 0x7F) _ pd (check_seq-accepts _ comp) (check_seq-accepts pd comp) e

check_pd-IsNext :
    (pd : Device) (pkt : List ℕ) (addr comp : ℕ)
    → is_pd_mode pd ≡ true
    → (check_pd pd pkt addr comp).0.0 ≡ none
    → IsNext pd pkt comp
unfolding check_pd
check_pd-IsNext pd pkt addr comp m e = elim (Bool-cases (comp == 0)) [
  | inl z ↦ inr (m, inl (ground (arith, z)))
  | inr z ↦ elim (Bool-cases (is_seq pd.seq_number comp)) [
    | inr s ↦ inl (note_broadcast-seq pd addr comp (ground (arith, e, z, s)))
    | inl s ↦ elim (Bool-cases (ltb 0 pd.last_tx_len && rx_cmd_id pkt == pd.last_cmd_id)) [
      | inr r ↦ inr (m, inr (s, r))
      | inl r ↦ absurd (ground (arith, e, z, s, r))
    ]
  ]
]

both-Fresh_sent :
    (comp : ℕ) (b : Bool) (x y : (Option PktError × Device) × Option (List ℕ))
    → Fresh comp x.0
    → Fresh comp y.0
    → Fresh comp (if b then x else y).0
both-Fresh_sent comp true x y f g = f
both-Fresh_sent comp false x y f g = g

module _ (crc16 : List ℕ → ℕ) where
  check_unmarked-Fresh :
      (pd : Device) (pkt : List ℕ) (pkt_len : ℕ)
      → Fresh (control_of pkt % 4) (check_unmarked crc16 pd pkt pkt_len).0
  unfolding check_unmarked
  check_unmarked-Fresh pd pkt pkt_len =
      let comp = control_of pkt % 4 in
      let pd1 = report_metric pd packet_received in
      elim (Bool-cases (is_intact crc16 pkt pkt_len)) [
        | inr i ↦ rw i (error-Fresh comp _ _)
        | inl i ↦
            elim (Bool-cases (
              not (pd_address_of pkt % 128 == pd.address)
              && not (pd_address_of pkt % 128 == 0x7F))) [
                | inl a ↦ rw (i, a) (error-Fresh comp _ _)
                | inr a ↦
                    rw (i, a)
                      (both-Fresh_sent comp (is_pd_mode pd)
                        (check_pd pd1 pkt (pd_address_of pkt % 128) comp)
                        (check_cp pd1 pkt (checked_len pkt pkt_len) comp, none)
                        (check_pd-Fresh pd1 pkt (pd_address_of pkt % 128) comp)
                        (check_cp-Fresh pd1 pkt (checked_len pkt pkt_len) comp))
              ]
      ]

  accepted-is_intact :
      (pd : Device) (pkt : List ℕ) (pkt_len : ℕ)
      → (check_unmarked crc16 pd pkt pkt_len).0.0 ≡ none
      → is_intact crc16 pkt pkt_len ≡ true
  unfolding check_unmarked
  accepted-is_intact pd pkt pkt_len e = ground (arith, e)

  accepted-address :
      (pd : Device) (pkt : List ℕ) (pkt_len : ℕ)
      → (check_unmarked crc16 pd pkt pkt_len).0.0 ≡ none
      → (pd_address_of pkt % 128 ≡ pd.address) ⊎ (pd_address_of pkt % 128 ≡ 0x7F)
  unfolding check_unmarked
  accepted-address pd pkt pkt_len e = ground (arith, e)

  intact-CarriesCheck :
      (pkt : List ℕ) (n : ℕ)
      → byte_at pkt (n - 1) < 256
      → is_intact crc16 pkt n ≡ true
      → CarriesCheck crc16 pkt n
  unfolding is_intact
  intact-CarriesCheck pkt n h e = (
    (λ k. ground (arith, e, k)),
    (λ k. (compute_checksum_lem pkt (n - 1) (byte_at pkt (n - 1)) h).1 (ground (arith, e, k))),
  )

  accepted-IsNext :
      (pd : Device) (pkt : List ℕ) (pkt_len : ℕ)
      → (check_unmarked crc16 pd pkt pkt_len).0.0 ≡ none
      → IsNext pd pkt (control_of pkt % 4)
  unfolding check_unmarked report_metric get_next_seq_number
  accepted-IsNext pd pkt pkt_len e =
      let comp = control_of pkt % 4 in
      let pd1 = report_metric pd packet_received in
      elim (Bool-cases (is_pd_mode pd)) [
        | inl m ↦ check_pd-IsNext pd1 pkt (pd_address_of pkt % 128) comp m (ground (arith, e, m))
        | inr m ↦ check_cp-IsNext pd1 pkt (checked_len pkt pkt_len) comp (ground (arith, e, m))
      ]

  -- A packet of bytes that the check lets through carries a right CRC, or a checksum that makes its bytes
  -- add up to a multiple of 256, and is for this device's address or broadcast. Its sequence number is the
  -- one that the device expected next, or on a PD 0, or the last one again with no reply to repeat, unless
  -- the device was told not to check sequence numbers; and it is the one that the device as it is after
  -- the check expects next.
  pub check_unmarked-accepted :
      (pd : Device) (pkt : List ℕ) (pkt_len : ℕ)
      → byte_at pkt (pkt_len - 1) < 256
      → (check_unmarked crc16 pd pkt pkt_len).0.0 ≡ none
      → let out = (check_unmarked crc16 pd pkt pkt_len).0.1 in
        CarriesCheck crc16 pkt pkt_len
        × ((pd_address_of pkt % 128 ≡ pd.address) ⊎ (pd_address_of pkt % 128 ≡ 0x7F))
        × IsNext pd pkt (control_of pkt % 4)
        × ((is_seq (get_next_seq_number out) (control_of pkt % 4) ≡ true)
            ⊎ (out.flags.skip_seq_check ≡ true))
  unfolding Fresh
  check_unmarked-accepted pd pkt pkt_len h e = (
    intact-CarriesCheck pkt pkt_len h (accepted-is_intact pd pkt pkt_len e),
    accepted-address pd pkt pkt_len e,
    accepted-IsNext pd pkt pkt_len e,
    check_unmarked-Fresh pd pkt pkt_len e,
  )
