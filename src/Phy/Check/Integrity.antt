-- ===== src/Phy/Check/Integrity.antt =====
-- A finalized packet declares its own length, and its CRC or checksum holds.
use libosdp.Common.{
  ℕ, zero, suc, ◌+◌, ◌-◌, ◌≤◌, ◌<◌, ◌≡◌, refl, sym, ap, ◌∙◌, inl, inr, Bool-cases, true, false,
  List, arith, ltb, if◌then◌else◌, length, take, set, u16, length-set, get_or-set_self,
  get_or-set_ne, take-set_ge,
}
use libosdp.Bytes.{byte_at, byte_0, byte_1, bwrite_u16_le}
use libosdp.Device.{Device}
use libosdp.Phy.{PktError, som_of, pd_address_of, has_crc, len_of, pkt_som}
use libosdp.Phy.Checksum.{compute_checksum, checksum_from}
use libosdp.Phy.Build.{Built, append_check, check_len}
use libosdp.Phy.Check.{is_intact}

-- The header bytes below `n` are those of another packet.
unfoldable pub SameBytes : ℕ → List ℕ → List ℕ → Type 0
SameBytes n xs ys = (j : ℕ) → j < n → byte_at ys j ≡ byte_at xs j

pub set-SameBytes : (xs : List ℕ) (i v : ℕ) → SameBytes i xs (set xs i v)
unfolding SameBytes
set-SameBytes xs i v j h = get_or-set_ne xs i j v 0 (λ e. absurd (omega (arith, e)))

-- The checksum loop reads only the bytes it is given.
checksum_from-same :
    (n : ℕ) (xs ys : List ℕ) (i w s : ℕ)
    → ((j : ℕ) → j < i + n → byte_at ys j ≡ byte_at xs j)
    → checksum_from ys n i w s ≡ checksum_from xs n i w s
unfolding checksum_from
checksum_from-same zero xs ys i w s h = refl
checksum_from-same (suc n) xs ys i w s h =
    rw (h i (omega arith)) (checksum_from-same n xs ys (i + 1) _ _ (λ j l. h j (omega arith)))

checksum_from_byte : (n : ℕ) (xs : List ℕ) (i w s : ℕ) → s < 256 → checksum_from xs n i w s < 256
unfolding checksum_from
checksum_from_byte zero xs i w s h = h
checksum_from_byte (suc n) xs i w s h = checksum_from_byte n xs (i + 1) _ _ (omega arith)

compute_checksum-set :
    (xs : List ℕ) (n v : ℕ) → compute_checksum (set xs n v) n ≡ compute_checksum xs n
unfolding compute_checksum SameBytes
compute_checksum-set xs n v =
    checksum_from-same n xs (set xs n v) 0 0 0 (λ j h. set-SameBytes xs n v j (omega arith))

module _ (crc16 : List ℕ → ℕ) where
  -- What a packet that is returned satisfies: its check holds, and its header declares its length.
  pub record IsSound (address : ℕ) (pkt : List ℕ) (n : ℕ) : Type 0 where
    pub enough : 6 ≤ n
    pub intact : is_intact crc16 pkt n ≡ true
    pub declared : len_of pkt ≡ n
    pub start : som_of pkt ≡ pkt_som
    pub addressed : pd_address_of pkt ≡ address

  unfoldable pub Sound : ℕ → Built → Type 0
  Sound address b = (n : ℕ) → b.0 ≡ inr n → n ≤ length b.2 → n < 65536 → IsSound address b.2 n

  intact_checksum :
      (pkt : List ℕ) (len : ℕ)
      → 5 ≤ len
      → len + 1 ≤ length pkt
      → has_crc pkt ≡ false
      → is_intact crc16 (set pkt len (compute_checksum pkt len)) (len + 1) ≡ true
  unfolding is_intact
  intact_checksum pkt len h l e = ground (
    arith,
    e,
    get_or-set_ne pkt len 4 (compute_checksum pkt len) 0 (λ k. absurd (omega (arith, k))),
    get_or-set_self pkt len (compute_checksum pkt len) 0 (omega arith),
    compute_checksum-set pkt len (compute_checksum pkt len),
  )

  intact_crc :
      (pkt : List ℕ) (len : ℕ)
      → 5 ≤ len
      → len + 2 ≤ length pkt
      → has_crc pkt ≡ true
      → is_intact crc16 (bwrite_u16_le (u16 (crc16 (take len pkt))) pkt len).0 (len + 2) ≡ true
  unfolding is_intact bwrite_u16_le
  intact_crc pkt len h l e = rw shorter (
      ground (
        arith,
        e,
        get_or-set_ne (set pkt len low) (len + 1) 4 high 0 (λ k. absurd (omega (arith, k))),
        get_or-set_ne pkt len 4 low 0 (λ k. absurd (omega (arith, k))),
        get_or-set_self (set pkt len low) (len + 1) high 0 (omega (arith, length-set pkt len low)),
        get_or-set_ne (set pkt len low) (len + 1) len high 0 (λ k. absurd (omega (arith, k))),
        get_or-set_self pkt len low 0 (omega arith),
        ap (λ x. u16 (crc16 x)) unread,
      ))
    where
      low : ℕ
      low = byte_0 (u16 (crc16 (take len pkt)))

      high : ℕ
      high = byte_1 (u16 (crc16 (take len pkt)))

      shorter : len + 2 - 2 ≡ len
      shorter = omega arith

      unread : take len (set (set pkt len low) (len + 1) high) ≡ take len pkt
      unread =
          take-set_ge len (len + 1) (set pkt len low) high (omega arith)
          ∙ take-set_ge len len pkt low (omega arith)

  -- A header whose length field stands for `n` bytes.
  pub record IsHeader (address : ℕ) (pkt : List ℕ) (n : ℕ) : Type 0 where
    pub declares : n < 65536 → len_of pkt ≡ n
    pub starts : som_of pkt ≡ pkt_som
    pub to : pd_address_of pkt ≡ address

  pub IsHeader-kept :
      (address : ℕ) (xs ys : List ℕ) (n : ℕ)
      → SameBytes 5 xs ys
      → IsHeader address xs n
      → IsHeader address ys n
  unfolding SameBytes
  IsHeader-kept address xs ys n s h = record {
    declares = λ l. omega (arith, s 2 (omega arith), s 3 (omega arith), h.declares l);
    starts = s 0 (omega arith) ∙ h.starts;
    to = s 1 (omega arith) ∙ h.to;
  }

  sound :
      (address : ℕ) (pkt : List ℕ) (n : ℕ)
      → 6 ≤ n
      → n < 65536
      → IsHeader address pkt n
      → is_intact crc16 pkt n ≡ true
      → IsSound address pkt n
  sound address pkt n m l h i = record {
    enough = m;
    intact = i;
    declared = h.declares l;
    start = h.starts;
    addressed = h.to;
  }

  pub header-set : (xs : List ℕ) (len v : ℕ) → 5 ≤ len → SameBytes 5 xs (set xs len v)
  unfolding SameBytes
  header-set xs len v l j h = set-SameBytes xs len v j (omega arith)

  bwrite-SameBytes : (xs : List ℕ) (len v : ℕ) → 5 ≤ len → SameBytes 5 xs (bwrite_u16_le v xs len).0
  unfolding SameBytes bwrite_u16_le
  bwrite-SameBytes xs len v l j h =
      header-set (set xs len (byte_0 v)) (len + 1) (byte_1 v) (omega arith) j h
      ∙ header-set xs len (byte_0 v) l j h

  length-bwrite_u16_le :
      (v : ℕ) (xs : List ℕ) (len : ℕ) → length (bwrite_u16_le v xs len).0 ≡ length xs
  unfolding bwrite_u16_le
  length-bwrite_u16_le v xs len =
      length-set (set xs len (byte_0 v)) (len + 1) (byte_1 v) ∙ length-set xs len (byte_0 v)

  pub returned-Sound :
      (address m : ℕ) (pd : Device) (pkt : List ℕ)
      → (m ≤ length pkt → m < 65536 → IsSound address pkt m)
      → Sound address (inr m, pd, pkt)
  unfolding Sound
  returned-Sound address m pd pkt s n e l k =
      let same : n ≡ m = ground (arith, e) in
      rw same (s (omega (arith, l, same)) (omega (arith, k, same)))

  pub error-Sound :
      (address : ℕ) (err : PktError) (pd : Device) (pkt : List ℕ) → Sound address (inl err, pd, pkt)
  unfolding Sound
  error-Sound address err pd pkt n e = absurd (ground (arith, e))

  pub append_check-Sound :
      (address : ℕ) (pd : Device) (pkt : List ℕ) (len max_len : ℕ)
      → 5 ≤ len
      → IsHeader address pkt (len + check_len crc16 pkt)
      → Sound address (append_check crc16 pd pkt len max_len)
  unfolding append_check
  append_check-Sound address pd pkt len max_len l h = elim (Bool-cases (has_crc pkt)) [
    | inl crc ↦
        let h2 : IsHeader address pkt (len + 2) =
          rw (ap (λ b. len + (if b then 2 else 1)) (sym crc)) h in
        elim (Bool-cases (ltb max_len (len + 2))) [
          | inl k ↦ rw (crc, k) (error-Sound address _ _ _)
          | inr k ↦
              let val = u16 (crc16 (take len pkt)) in
              let out = (bwrite_u16_le val pkt len).0 in
              rw (crc, k)
                (returned-Sound address (len + 2) pd out (λ fits small.
                  sound address out (len + 2) (omega (arith, l)) small
                    (IsHeader-kept address pkt out (len + 2) (bwrite-SameBytes pkt len val l) h2)
                    (intact_crc pkt len l (omega (arith, fits, length-bwrite_u16_le val pkt len))
                      crc)))
        ]
    | inr sum ↦
        let h1 : IsHeader address pkt (len + 1) =
          rw (ap (λ b. len + (if b then 2 else 1)) (sym sum)) h in
        elim (Bool-cases (ltb max_len (len + 1))) [
          | inl k ↦ rw (sum, k) (error-Sound address _ _ _)
          | inr k ↦
              let out = set pkt len (compute_checksum pkt len) in
              rw (sum, k)
                (returned-Sound address (len + 1) pd out (λ fits small.
                  sound address out (len + 1) (omega (arith, l)) small
                    (IsHeader-kept address pkt out (len + 1) (header-set pkt len _ l) h1)
                    (intact_checksum pkt len l
                      (omega (arith, fits, length-set pkt len (compute_checksum pkt len))) sum)))
        ]
  ]
