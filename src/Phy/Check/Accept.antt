-- ===== src/Phy/Check/Accept.antt =====
-- What osdp_phy_finalize_packet returns, the other end's header check and integrity check accept.
use libosdp.Common.{
  ℕ, ◌+◌, ◌-◌, ◌≤◌, ◌<◌, ◌≡◌, refl, ap, ◌∙◌, inl, inr, Bool, Bool-cases, true, not, ◌&&◌, Option,
  none, some, List, ◌∷◌, arith, ltb, leb, ◌==◌, if◌then◌else◌, length, take, drop, set, splice,
  has_bit, length-set, length-splice, get_or-set_self, get_or-set_ne, get_or-splice_lt,
}
use libosdp.Bytes.{byte_at, byte_0, byte_1}
use libosdp.Crypto.{Crypto}
use libosdp.Device.{Device, sc_is_active, is_cp_mode, is_pd_mode, scs_15}
use libosdp.SecureChannel.{compute_mac, encrypt_data, eom_marker}
use libosdp.Phy.{
  som_of, pd_address_of, control_of, data_of, set_len, has_scb, len_of, mark_len, pkt_mark, pkt_som,
  header_size,
}
use libosdp.Phy.Build.{append_mac, secure_packet, encrypt_packet, finalize_unmarked, check_len}
use libosdp.Phy.Check.{is_intact}
use libosdp.Phy.Header.{check_fields, validate_header}
use libosdp.Phy.Check.Integrity.{
  SameBytes, IsSound, Sound, IsHeader, IsHeader-kept, error-Sound, append_check-Sound,
}

-- A packet buffer whose header was begun.
pub record IsStarted (address : ℕ) (pkt : List ℕ) : Type 0 where
  pub long : 5 ≤ length pkt
  pub som : som_of pkt ≡ pkt_som
  pub to : pd_address_of pkt ≡ address

set_len_low : (pkt : List ℕ) (n j : ℕ) → j < 2 → byte_at (set_len pkt n) j ≡ byte_at pkt j
set_len_low pkt n j h =
    get_or-set_ne (set pkt 2 (byte_0 n)) 3 j (byte_1 n) 0 (λ e. absurd (omega (arith, e)))
    ∙ get_or-set_ne pkt 2 j (byte_0 n) 0 (λ e. absurd (omega (arith, e)))

set_len_high : (pkt : List ℕ) (n j : ℕ) → 4 ≤ j → byte_at (set_len pkt n) j ≡ byte_at pkt j
set_len_high pkt n j h =
    get_or-set_ne (set pkt 2 (byte_0 n)) 3 j (byte_1 n) 0 (λ e. absurd (omega (arith, e)))
    ∙ get_or-set_ne pkt 2 j (byte_0 n) 0 (λ e. absurd (omega (arith, e)))

length-set_len : (pkt : List ℕ) (n : ℕ) → length (set_len pkt n) ≡ length pkt
length-set_len pkt n = length-set (set pkt 2 (byte_0 n)) 3 (byte_1 n) ∙ length-set pkt 2 (byte_0 n)

set_len-declares : (pkt : List ℕ) (n : ℕ) → 5 ≤ length pkt → n < 65536 → len_of (set_len pkt n) ≡ n
set_len-declares pkt n h l = omega (
  arith,
  get_or-set_self (set pkt 2 (byte_0 n)) 3 (byte_1 n) 0
      (omega (arith, length-set pkt 2 (byte_0 n))),
  get_or-set_ne (set pkt 2 (byte_0 n)) 3 2 (byte_1 n) 0 (λ e. absurd (omega (arith, e))),
  get_or-set_self pkt 2 (byte_0 n) 0 (omega arith),
)

set_len-IsStarted :
    (address : ℕ) (pkt : List ℕ) (n : ℕ) → IsStarted address pkt → IsStarted address (set_len pkt n)
set_len-IsStarted address pkt n h = record {
  long = omega (arith, h.long, length-set_len pkt n);
  som = set_len_low pkt n 0 (omega arith) ∙ h.som;
  to = set_len_low pkt n 1 (omega arith) ∙ h.to;
}

splice-SameBytes : (xs : List ℕ) (i : ℕ) (ys : List ℕ) → 5 ≤ i → SameBytes 5 xs (splice xs i ys)
unfolding SameBytes
splice-SameBytes xs i ys h j l = get_or-splice_lt xs i j ys 0 (omega arith)

module _ (crc16 : List ℕ → ℕ) where
  set_len-IsHeader :
      (address : ℕ) (pkt : List ℕ) (n : ℕ)
      → IsStarted address pkt
      → IsHeader crc16 address (set_len pkt n) n
  set_len-IsHeader address pkt n h = record {
    declares = set_len-declares pkt n h.long;
    starts = set_len_low pkt n 0 (omega arith) ∙ h.som;
    to = set_len_low pkt n 1 (omega arith) ∙ h.to;
  }

  check_len-same :
      (xs ys : List ℕ) → control_of ys ≡ control_of xs → check_len crc16 ys ≡ check_len crc16 xs
  check_len-same xs ys e = ap (λ x. if has_bit 4 x then 2 else 1) e

  module _ (c : Crypto) where
    append_mac-Sound :
        (address : ℕ) (pd : Device) (pkt : List ℕ) (len max_len : ℕ)
        → 5 ≤ len
        → IsStarted address pkt
        → Sound crc16 address (append_mac crc16 c pd pkt len max_len)
    unfolding append_mac SameBytes
    append_mac-Sound address pd pkt len max_len l h =
        let n = len + check_len crc16 pkt + 4 in
        let pkt' = set_len pkt n in
        let pd' = compute_mac c pd (is_cp_mode pd) (take len pkt') len in
        let mac = take 4 (if is_cp_mode pd then pd'.sc.c_mac else pd'.sc.r_mac) in
        let same =
          check_len-same pkt (splice pkt' len mac) (
            splice-SameBytes pkt' len mac l 4 (omega arith) ∙ set_len_high pkt n 4 (omega arith)) in
        let total : n ≡ len + 4 + check_len crc16 (splice pkt' len mac) = omega (arith, same) in
        elim (Bool-cases (ltb max_len (len + 4))) [
          | inl k ↦ rw k (error-Sound crc16 address _ _ _)
          | inr k ↦ rw k (
              append_check-Sound crc16 address pd' (splice pkt' len mac) (len + 4) max_len
                (omega arith)
                (rw (← total) (
                  IsHeader-kept crc16 address pkt' (splice pkt' len mac) n
                    (splice-SameBytes pkt' len mac l) (set_len-IsHeader address pkt n h))))
        ]

    length-encrypt_data :
        (pd : Device) (is_cmd : Bool) (buf : List ℕ) (i n : ℕ)
        → length (encrypt_data c pd is_cmd buf i n).1 ≡ length buf
    unfolding encrypt_data
    length-encrypt_data pd is_cmd buf i n =
        length-splice (splice (set buf (i + n) eom_marker) (i + n + 1) _) i _
        ∙ length-splice (set buf (i + n) eom_marker) (i + n + 1) _
        ∙ length-set buf (i + n) eom_marker

    encrypt_data-below :
        (pd : Device) (is_cmd : Bool) (buf : List ℕ) (i n j : ℕ)
        → j < i
        → byte_at (encrypt_data c pd is_cmd buf i n).1 j ≡ byte_at buf j
    unfolding encrypt_data
    encrypt_data-below pd is_cmd buf i n j h =
        get_or-splice_lt (splice (set buf (i + n) eom_marker) (i + n + 1) _) i j _ 0 h
        ∙ get_or-splice_lt (set buf (i + n) eom_marker) (i + n + 1) j _ 0 (omega arith)
        ∙ get_or-set_ne buf (i + n) j eom_marker 0 (λ e. absurd (omega (arith, e)))

    -- What encryption leaves is still started, and no shorter than a header.
    encrypt_packet-IsStarted :
        (address : ℕ) (pd : Device) (pkt : List ℕ) (len max_len : ℕ)
        → IsStarted address pkt
        → IsStarted address (encrypt_packet crc16 c pd pkt len max_len).1
    unfolding encrypt_packet
    encrypt_packet-IsStarted address pd pkt len max_len h =
        let i = header_size + data_of pkt 0 + 1 in
        record {
          long = ground (arith, h.long, length-encrypt_data pd (is_cp_mode pd) pkt i (len - i));
          som = ground (arith, h.som, encrypt_data-below pd (is_cp_mode pd) pkt i (len - i) 0);
          to = ground (arith, h.to, encrypt_data-below pd (is_cp_mode pd) pkt i (len - i) 1);
        }

    encrypt_packet-len :
        (pd : Device) (pkt : List ℕ) (len max_len n : ℕ)
        → 5 ≤ len
        → (encrypt_packet crc16 c pd pkt len max_len).0 ≡ some n
        → 5 ≤ n
    unfolding encrypt_packet encrypt_data
    encrypt_packet-len pd pkt len max_len n l e = ground arith

    secure_packet-Sound :
        (address : ℕ) (pd : Device) (r : Option ℕ × List ℕ) (max_len : ℕ)
        → ((n : ℕ) → r.0 ≡ some n → 5 ≤ n)
        → IsStarted address r.1
        → Sound crc16 address (secure_packet crc16 c pd r max_len)
    unfolding secure_packet
    secure_packet-Sound address pd (none, pkt) max_len l h = error-Sound crc16 address _ _ _
    secure_packet-Sound address pd (some n, pkt) max_len l h =
        append_mac-Sound address pd pkt n max_len (l n refl) h

    unmarked-Sound :
        (address : ℕ) (pd : Device) (pkt : List ℕ) (len max_len : ℕ)
        → 5 ≤ len
        → 5 ≤ length pkt
        → pd_address_of pkt ≡ address
        → Sound crc16 address (finalize_unmarked crc16 c pd pkt len max_len)
    unfolding finalize_unmarked
    unmarked-Sound address pd pkt len max_len l long to =
        let n = len + check_len crc16 pkt in
        let pkt' = set_len pkt n in
        elim (Bool-cases (som_of pkt == pkt_som)) [
          | inr e ↦ rw e (error-Sound crc16 address _ _ _)
          | inl e ↦
              let h : IsStarted address pkt = record {
                long = long;
                som = ground (arith, e);
                to = to;
              } in
              elim (Bool-cases (sc_is_active pd && (has_scb pkt' && leb scs_15 (data_of pkt' 1)))) [
                | inl k ↦
                    rw (e, k)
                      (secure_packet-Sound address pd (encrypt_packet crc16 c pd pkt' len max_len)
                        max_len (λ m. encrypt_packet-len pd pkt' len max_len m l)
                        (encrypt_packet-IsStarted address pd pkt' len max_len
                          (set_len-IsStarted address pkt n h)))
                | inr k ↦
                    let same : n ≡ len + check_len crc16 pkt' =
                      omega (arith, check_len-same pkt pkt' (set_len_high pkt n 4 (omega arith))) in
                    rw (e, k)
                      (append_check-Sound crc16 address pd pkt' len max_len l
                        (rw (← same) (set_len-IsHeader address pkt n h)))
              ]
        ]

-- The end that receives runs in the other mode than the one that sends, whose address byte tells.
pub record Peers (sender receiver : Device) (address : ℕ) : Type 0 where
  pub modes : is_pd_mode receiver ≡ not (is_pd_mode sender)
  pub direction : has_bit 0x80 address ≡ is_pd_mode sender

-- What the receiver finds in the `n` bytes of `out`.
pub record IsTaken (crc16 : List ℕ → ℕ) (receiver : Device) (out : List ℕ) (n max_len : ℕ)
    : Type 0 where
  pub accepted : (validate_header receiver out n max_len).0 ≡ inr n
  pub holds :
      let m = mark_len (validate_header receiver out n max_len).1 in
      is_intact crc16 (drop m out) (n - m) ≡ true

module _ (crc16 : List ℕ → ℕ) (sender receiver : Device) (address : ℕ)
    (p : Peers sender receiver address) where
  fields_accepted :
      (pkt : List ℕ) (n mark max_len : ℕ)
      → IsSound crc16 address pkt n
      → n + mark ≤ max_len
      → check_fields receiver pkt mark max_len ≡ inr (n + mark)
  unfolding check_fields
  fields_accepted pkt n mark max_len s h =
      ground (arith, s.enough, s.declared, s.start, s.addressed, p.modes, p.direction)

  plain_mark :
      (pkt : List ℕ) (n max_len : ℕ)
      → IsSound crc16 address pkt n
      → mark_len (validate_header receiver pkt n max_len).1 ≡ 0
  unfolding validate_header
  plain_mark pkt n max_len s = ground (arith, s.enough, s.start)

  marked_mark :
      (pkt : List ℕ) (n max_len : ℕ)
      → IsSound crc16 address pkt n
      → mark_len (validate_header receiver (pkt_mark ∷ pkt) (n + 1) max_len).1 ≡ 1
  unfolding validate_header
  marked_mark pkt n max_len s = ground (arith, s.enough, s.start)

  plain_accepted :
      (pkt : List ℕ) (n max_len : ℕ)
      → IsSound crc16 address pkt n
      → n ≤ max_len
      → (validate_header receiver pkt n max_len).0 ≡ inr n
  unfolding validate_header
  plain_accepted pkt n max_len s h =
      ground (arith, s.enough, s.start, fields_accepted pkt n 0 max_len s)

  marked_accepted :
      (pkt : List ℕ) (n max_len : ℕ)
      → IsSound crc16 address pkt n
      → n + 1 ≤ max_len
      → (validate_header receiver (pkt_mark ∷ pkt) (n + 1) max_len).0 ≡ inr (n + 1)
  unfolding validate_header
  marked_accepted pkt n max_len s h =
      ground (arith, s.enough, s.start, fields_accepted pkt n 1 max_len s)

  plain-IsTaken :
      (pkt : List ℕ) (n max_len : ℕ)
      → IsSound crc16 address pkt n
      → n ≤ max_len
      → IsTaken crc16 receiver pkt n max_len
  plain-IsTaken pkt n max_len s h =
      let back : n - 0 ≡ n = omega arith in
      record {
        accepted = plain_accepted pkt n max_len s h;
        holds = rw (plain_mark pkt n max_len s, back) s.intact;
      }

  marked-IsTaken :
      (pkt : List ℕ) (n max_len : ℕ)
      → IsSound crc16 address pkt n
      → n + 1 ≤ max_len
      → IsTaken crc16 receiver (pkt_mark ∷ pkt) (n + 1) max_len
  marked-IsTaken pkt n max_len s h =
      let back : n + 1 - 1 ≡ n = omega arith in
      record {
        accepted = marked_accepted pkt n max_len s h;
        holds = rw (marked_mark pkt n max_len s, back) s.intact;
      }

  -- What finalizing returns for a packet without a mark byte, of at least a header, in a buffer
  -- that holds it and with a length below 2^16: the other end, which runs in the other mode than
  -- the one that the address byte tells of and has the room for it, accepts its header as the
  -- header of a packet of that length, and finds its CRC or checksum right.
  pub finalize_unmarked-IsTaken :
      (c : Crypto) (pkt : List ℕ) (len max_len n peer_max : ℕ)
      → 5 ≤ len
      → 5 ≤ length pkt
      → pd_address_of pkt ≡ address
      → let (r, pd', out) = finalize_unmarked crc16 c sender pkt len max_len in
        r ≡ inr n
        → n ≤ length out
        → n < 65536
        → n ≤ peer_max
        → IsTaken crc16 receiver out n peer_max
  unfolding Sound
  finalize_unmarked-IsTaken c pkt len max_len n peer_max l long to e fits small h =
      plain-IsTaken (finalize_unmarked crc16 c sender pkt len max_len).2 n peer_max
        (unmarked-Sound crc16 c address sender pkt len max_len l long to n e fits small) h

  -- What finalizing returns for the packet behind a mark byte, under the same conditions: the other
  -- end accepts the mark byte and the packet at the packet's length and one, and finds its CRC or
  -- checksum right.
  pub finalize_marked-IsTaken :
      (c : Crypto) (pkt : List ℕ) (len max_len n peer_max : ℕ)
      → 5 ≤ len
      → 5 ≤ length pkt
      → pd_address_of pkt ≡ address
      → let (r, pd', out) = finalize_unmarked crc16 c sender pkt len max_len in
        r ≡ inr n
        → n ≤ length out
        → n < 65536
        → n + 1 ≤ peer_max
        → IsTaken crc16 receiver (pkt_mark ∷ out) (n + 1) peer_max
  unfolding Sound
  finalize_marked-IsTaken c pkt len max_len n peer_max l long to e fits small h =
      marked-IsTaken (finalize_unmarked crc16 c sender pkt len max_len).2 n peer_max
        (unmarked-Sound crc16 c address sender pkt len max_len l long to n e fits small) h
