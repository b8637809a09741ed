-- ===== src/Multipart/Tx.antt =====
-- The sending side of src/osdp_multipart.c. A length or status that is negative is `none`. A frame
-- is written into `buf`, and its length returned.
pub mod Frame
use libosdp.Common.{
  ℕ, ◌+◌, ◌-◌, ◌≤◌, ◌<◌, ◌^◌, ◌≡◌, refl, Bool, true, false, ◌&&◌, ◌||◌, Option, none, some, List,
  [], ◌∷◌, ◌++◌, arith, ltb, ◌==◌, if◌then◌else◌, length, splice, u16, u32,
}
use libosdp.Multipart.{
  Multipart, Ops, State, Phase, progress, Width, hdr_size, sub_u32, emit, inprog,
}
use libosdp.Multipart.Header.{hdr_write}

module _ {S : Type 0} where
  unfoldable pub tx_init : Multipart S → ℕ → Width → Option (Multipart S)
  tx_init mp total w =
      if total == 0
      then none
      else some (record mp {
        width = w;
        total = total;
        offset = 0;
        last_len = 0;
        start_emitted = false;
        state = inprog;
      })

  -- The frame once the data plane has given its bytes; `hdr` and `skip` are the local variables.
  unfoldable pub frame_data :
      Multipart S → List ℕ → ℕ → ℕ → List ℕ → List ℕ → Option ℕ × List ℕ × Multipart S
  frame_data mp buf hdr skip pfx [] = (
    some hdr,
    (hdr_write mp.width mp.total mp.offset 0 buf).0,
    record mp { last_len = 0; state = State.wait },
  )
  frame_data mp buf hdr skip pfx (x ∷ xs) =
      let bytes : List ℕ = x ∷ xs in
      let buf1 = splice buf (hdr + skip) bytes in
      let buf2 = if skip == 0 then buf1 else splice buf1 hdr pfx in
      let mp' = record mp { last_len = length bytes; state = inprog } in
      (
        some (hdr + skip + length bytes),
        (hdr_write mp.width mp.total mp.offset (u16 (length bytes)) buf2).0,
        mp',
      )

  unfoldable pub frame_read :
      Multipart S → List ℕ → ℕ → ℕ → List ℕ → Option (List ℕ) → Option ℕ × List ℕ × Multipart S
  unfolding frame_data
  frame_read mp buf hdr skip pfx none = (none, buf, mp)
  frame_read mp buf hdr skip pfx (some bytes) = frame_data mp buf hdr skip pfx bytes

  -- osdp_mp_tx_build_ex; the length of the prefix is that of the list.
  unfoldable pub tx_build_ex : Multipart S → List ℕ → ℕ → List ℕ → Option ℕ × List ℕ × Multipart S
  unfolding frame_read
  tx_build_ex mp buf max_len pfx =
      let hdr = hdr_size mp.width in
      let skip = if mp.offset == 0 then length pfx else 0 in
      let avail = max_len - hdr - skip in
      let remaining = sub_u32 mp.total mp.offset in
      let size = if ltb remaining avail then remaining else avail in
      let (bytes, arg') = mp.ops.read mp.arg size mp.offset in
      if ltb max_len (hdr + skip) || (max_len == hdr + skip && ltb 0 remaining)
      then (none, buf, mp)
      else frame_read (record mp { arg = arg' }) buf hdr skip pfx bytes

  unfoldable pub tx_build : Multipart S → List ℕ → ℕ → Option ℕ × List ℕ × Multipart S
  unfolding tx_build_ex
  tx_build mp buf max_len = tx_build_ex mp buf max_len []

  unfoldable pub tx_build_idle : Multipart S → List ℕ → ℕ × List ℕ × Multipart S
  tx_build_idle mp buf =
      let (buf', len) = hdr_write mp.width mp.total mp.offset 0 buf in
      (len, buf', record mp { last_len = 0 })

  unfoldable pub tx_commit : Multipart S → Multipart S
  tx_commit mp =
      let offset' = u32 (mp.offset + mp.last_len) in
      let mp' = record mp { offset = offset'; last_len = 0 } in
      if ltb 0 mp.last_len && ltb offset' mp.total then emit mp' progress else mp'
