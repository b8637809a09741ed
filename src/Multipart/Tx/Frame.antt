-- ===== src/Multipart/Tx/Frame.antt =====
-- The frames that the sending side of src/osdp_multipart.c builds: how long they are, and what
-- stands in them.
use native.Mathlib.Nat.{add-zero}
use libosdp.Common.{
  ℕ, ◌+◌, ◌-◌, ◌≤◌, ◌<◌, ◌^◌, ◌≡◌, ◌⊎◌, suc, length-splice, refl, ap, ◌∙◌, false, ◌&&◌, ◌||◌,
  Option, none, some, inl, inr, List, [], ◌∷◌, ◌++◌, arith, ltb, ◌==◌, if◌then◌else◌, length,
  splice, splice-splice, u16,
}
use libosdp.Multipart.{Multipart, Ops, hdr_size, sub_u32, inprog}
use libosdp.Multipart.Header.{hdr_write, hdr_bytes, hdr_write-splice, length-hdr_bytes}
use libosdp.Multipart.Tx.{tx_build, tx_build_ex, frame_data, frame_read}

-- What the engine relies on of `read`: it gives at most as many bytes as it is asked for.
abbrev pub ReadsAtMost : {S : Type 0} → Ops S → Type 0
ReadsAtMost {S} ops =
    (s : S) (size offset : ℕ) (bytes : List ℕ)
    → (ops.read s size offset).0 ≡ some bytes
    → length bytes ≤ size

-- The bytes and the prefix before them, written separately, are one write.
write_body :
    (buf : List ℕ) (hdr skip : ℕ) (front pfx bytes : List ℕ)
    → skip ≡ length front
    → (front ≡ pfx) ⊎ (front ≡ [])
    → (if skip == 0
        then splice buf (hdr + skip) bytes
        else splice (splice buf (hdr + skip) bytes) hdr pfx)
      ≡ splice buf hdr (front ++ bytes)
write_body buf hdr skip [] pfx bytes e c = let start : hdr + 0 ≡ hdr = omega arith in rw (e, start)
write_body buf hdr skip (p ∷ ps) pfx bytes e (inl same) =
    let nonzero : (suc (length ps) == 0) ≡ false = ground arith in
    rw (e, ← same, nonzero) (splice-splice buf hdr (hdr + suc (length ps)) (p ∷ ps) bytes refl)
write_body buf hdr skip (p ∷ ps) pfx bytes e (inr none_left) = cc

module _ {S : Type 0} where
  -- The number of bytes that the engine asks its data plane for.
  abbrev pub fragment_size : Multipart S → ℕ → ℕ → ℕ
  fragment_size mp max_len pfx_len =
      let avail = max_len - hdr_size mp.width - (if mp.offset == 0 then pfx_len else 0) in
      let remaining = sub_u32 mp.total mp.offset in if ltb remaining avail then remaining else avail

  frame_read-fits :
      {n : ℕ} {buf' : List ℕ} {mp' : Multipart S} (mp : Multipart S) (buf : List ℕ)
      (hdr skip size : ℕ) (pfx : List ℕ) (o : Option (List ℕ))
      → ((bytes : List ℕ) → o ≡ some bytes → length bytes ≤ size)
      → frame_read mp buf hdr skip pfx o ≡ (some n, buf', mp')
      → (hdr ≤ n)
        × (n ≤ hdr + skip + size)
        × (mp'.last_len ≤ size)
        × (mp'.offset ≡ mp.offset)
        × (mp'.total ≡ mp.total)
  unfolding frame_read
  frame_read-fits mp buf hdr skip size pfx none h e = ground arith
  frame_read-fits mp buf hdr skip size pfx (some []) h e = ground arith
  frame_read-fits mp buf hdr skip size pfx (some (x ∷ xs)) h e = ground (arith, h (x ∷ xs) refl)

  -- With a data plane that reads no more than it is asked for, and an offset inside the transfer, a
  -- frame that is built fits in `max_len` bytes, holds at least a header, and what it is about to
  -- commit does not run past the transfer's total; the offset does not move.
  pub tx_build_ex-fits :
      (mp : Multipart S) (buf : List ℕ) (max_len : ℕ) (pfx : List ℕ) {n : ℕ} {buf' : List ℕ}
      {mp' : Multipart S}
      → ReadsAtMost mp.ops
      → mp.offset ≤ mp.total
      → mp.total < 2 ^ 32
      → tx_build_ex mp buf max_len pfx ≡ (some n, buf', mp')
      → (hdr_size mp.width ≤ n)
        × (n ≤ max_len)
        × (mp'.offset + mp'.last_len ≤ mp'.total)
        × (mp'.offset ≡ mp.offset)
  unfolding tx_build_ex
  tx_build_ex-fits mp buf max_len pfx {n} {buf'} {mp'} r ho ht e = ground (
    arith,
    frame_read-fits {n = n} {buf' = buf'} {mp' = mp'}
        (record mp {
          arg = (mp.ops.read mp.arg (fragment_size mp max_len (length pfx)) mp.offset).1;
        })
        buf (hdr_size mp.width) (if mp.offset == 0 then length pfx else 0)
        (fragment_size mp max_len (length pfx)) pfx
        (mp.ops.read mp.arg (fragment_size mp max_len (length pfx)) mp.offset).0
        (r mp.arg (fragment_size mp max_len (length pfx)) mp.offset),
  )

  -- The prefix as it stands in the frame.
  abbrev pub frame_prefix : Multipart S → List ℕ → List ℕ
  frame_prefix mp pfx = if mp.offset == 0 then pfx else []

  -- A fragment whose read gave some bytes is the header, the prefix if this is the offset-0
  -- fragment, and those bytes, written over the start of the buffer, where the buffer holds them.
  pub frame_data-eq :
      (mp : Multipart S) (buf pfx : List ℕ) (x : ℕ) (xs : List ℕ) (skip : ℕ)
      → skip ≡ length (frame_prefix mp pfx)
      → hdr_size mp.width + skip + length (x ∷ xs) ≤ length buf
      → frame_data mp buf (hdr_size mp.width) skip pfx (x ∷ xs) ≡ (
        some (hdr_size mp.width + skip + length (x ∷ xs)),
        splice buf 0 (
            hdr_bytes mp.width mp.total mp.offset (u16 (length (x ∷ xs)))
            ++ (frame_prefix mp pfx ++ (x ∷ xs))),
        record mp { last_len = length (x ∷ xs); state = inprog },
      )
  unfolding frame_data
  frame_data-eq mp buf pfx x xs skip hs hb =
      ap
        (λ b. (
          some (hdr_size mp.width + skip + length (x ∷ xs)),
          b,
          record mp { last_len = length (x ∷ xs); state = inprog },
        ))
        written
    where
      body : List ℕ
      body = frame_prefix mp pfx ++ (x ∷ xs)

      which : (frame_prefix mp pfx ≡ pfx) ⊎ (frame_prefix mp pfx ≡ [])
      which = ground arith

      written :
          (hdr_write mp.width mp.total mp.offset (u16 (length (x ∷ xs))) (
            if skip == 0
            then splice buf (hdr_size mp.width + skip) (x ∷ xs)
            else splice (splice buf (hdr_size mp.width + skip) (x ∷ xs)) (hdr_size mp.width) pfx)).0
          ≡ splice buf 0 (hdr_bytes mp.width mp.total mp.offset (u16 (length (x ∷ xs))) ++ body)
      written =
          rw (write_body buf (hdr_size mp.width) skip (frame_prefix mp pfx) pfx (x ∷ xs) hs which) (
            ap (λ r. r.0)
              (hdr_write-splice mp.width mp.total mp.offset (u16 (length (x ∷ xs)))
                (splice buf (hdr_size mp.width) body)
                (omega (arith, length-splice buf (hdr_size mp.width) body)))
            ∙ splice-splice buf 0 (hdr_size mp.width)
                (hdr_bytes mp.width mp.total mp.offset (u16 (length (x ∷ xs)))) body
                (omega
                  (arith, length-hdr_bytes mp.width mp.total mp.offset (u16 (length (x ∷ xs))))))

  no_skip : (mp : Multipart S) → (if mp.offset == 0 then length {A = ℕ} [] else 0) ≡ 0
  no_skip mp = ground arith

  no_prefix : (mp : Multipart S) → frame_prefix mp [] ≡ []
  no_prefix mp = ground arith

  goes_on :
      (mp : Multipart S) (max_len : ℕ)
      → hdr_size mp.width < max_len
      → let full = hdr_size mp.width + (if mp.offset == 0 then length {A = ℕ} [] else 0) in
        (ltb max_len full || (max_len == full && ltb 0 (sub_u32 mp.total mp.offset))) ≡ false
  goes_on mp max_len h = ground arith

  -- With no prefix, some room behind the header, and a read that gives some bytes, the frame is
  -- the header and those bytes over the start of the buffer.
  pub tx_build-eq :
      (mp : Multipart S) (buf : List ℕ) (max_len : ℕ) (bytes : List ℕ) (arg' : S)
      → mp.ops.read mp.arg (fragment_size mp max_len 0) mp.offset ≡ (some bytes, arg')
      → 0 < length bytes
      → hdr_size mp.width < max_len
      → hdr_size mp.width + length bytes ≤ length buf
      → tx_build mp buf max_len ≡ (
        some (hdr_size mp.width + length bytes),
        splice buf 0 (hdr_bytes mp.width mp.total mp.offset (u16 (length bytes)) ++ bytes),
        record mp { arg = arg'; last_len = length bytes; state = inprog },
      )
  unfolding tx_build tx_build_ex
  tx_build-eq mp buf max_len [] arg' e pos hm hb = absurd (omega arith)
  tx_build-eq mp buf max_len (x ∷ xs) arg' e pos hm hb =
      rw (goes_on mp max_len hm, e, no_skip mp)
        (frame_data-eq (record mp { arg = arg' }) buf [] x xs 0 (ground arith) (omega arith)
          ∙ rw (no_prefix mp, add-zero (hdr_size mp.width)))
