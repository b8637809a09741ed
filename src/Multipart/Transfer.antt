-- ===== src/Multipart/Transfer.antt =====
-- A whole transfer between two engines of src/osdp_multipart.c that are bound to buffers: the
-- sender builds a fragment, the receiver consumes it, and both commit.
use libosdp.Common.{
  ℕ, zero, suc, ◌+◌, ◌-◌, ◌≤◌, ◌<◌, ◌^◌, min, ◌≡◌, refl, sym, ap, ap₂, ◌∙◌, Bool-cases, inl, inr,
  Bool, Option, none, some, List, ◌++◌, arith, ltb, ◌==◌, if◌then◌else◌, length, take, drop, slice,
  splice, splice-prefix, length-slice, length-splice, take-splice, slice-splice, slice-append,
  take-add, take-length, append_assoc, length-append, u16, u32,
}
use libosdp.Multipart.{Multipart, width_bytes, hdr_size, inprog, Rc, more, err, emit, ok}
use libosdp.Multipart.Header.{
  HeaderFields, hdr_read, hdr_bytes, hdr_read-hdr_bytes, length-hdr_bytes, field_limit,
}
use libosdp.Multipart.Buffer.{buffer_ops, mp_buf_read_lem, mp_buf_write-in}
use libosdp.Multipart.Tx.{tx_build, tx_commit}
use libosdp.Multipart.Tx.Frame.{fragment_size, tx_build-eq}
use libosdp.Multipart.Rx.{rx_consume, rx_commit}
use libosdp.Multipart.Rx.Accept.{Acceptable, rx_consume-accepted}

tx_commit-eq :
    {S : Type 0} (mp : Multipart S)
    → tx_commit mp ≡ record mp {
      offset = u32 (mp.offset + mp.last_len);
      last_len = 0;
      events = (tx_commit mp).events;
    }
unfolding tx_commit emit
tx_commit-eq mp = ground arith

rx_commit-eq :
    {S : Type 0} (mp : Multipart S)
    → rx_commit mp ≡ record mp {
      offset =
          let end = u32 (mp.last_off + mp.last_len) in if ltb mp.offset end then end else mp.offset;
      last_len = 0;
      events = (rx_commit mp).events;
    }
unfolding rx_commit emit
rx_commit-eq mp = ground arith

abbrev pub Engine : Type 0
Engine = Multipart (List ℕ)

-- One fragment from `tx` to `rx` over a packet buffer, both committing it if it is accepted.
after_consume : Engine → Rc × Engine → Rc × Engine × Engine
after_consume tx (more, rx) = (more, tx_commit tx, rx_commit rx)
after_consume tx (Rc.done, rx) = (Rc.done, tx_commit tx, rx_commit rx)
after_consume tx (rc, rx) = (rc, tx, rx)

after_build : Engine → Option ℕ × List ℕ × Engine → Rc × Engine × Engine
after_build rx (none, frame, tx) = (err, tx, rx)
after_build rx (some n, frame, tx) = after_consume tx (rx_consume rx frame n)

pub exchange : Engine → Engine → List ℕ → ℕ → Rc × Engine × Engine
exchange tx rx buf max_len = after_build rx (tx_build tx buf max_len)

-- The two engines are at the same place of the same transfer, and the receiver's buffer holds what
-- was sent so far.
pub record Linked (payload : List ℕ) (tx rx : Engine) : Type 0 where
  pub tx_plane : (tx.ops ≡ buffer_ops) × (tx.arg ≡ payload)
  pub rx_plane : (rx.ops ≡ buffer_ops) × (rx.buf_len ≡ some (length rx.arg))
  pub widths : rx.width ≡ tx.width
  pub tx_total : tx.total ≡ length payload
  pub rx_total : rx.total ≡ length payload
  pub fits_field : length payload < field_limit tx.width
  pub fits_buffer : length payload ≤ length rx.arg
  pub buffer_small : length rx.arg < 2 ^ 32
  pub same_offset : rx.offset ≡ tx.offset
  pub offset_in : tx.offset ≤ length payload
  pub same_bytes : take tx.offset rx.arg ≡ take tx.offset payload

module _ (payload : List ℕ) (tx rx : Engine) (v : Linked payload tx rx) (buf : List ℕ) (max_len : ℕ)
    (open_end : tx.offset < length payload) (above : hdr_size tx.width < max_len)
    (within : max_len ≤ length buf) (small : max_len < 65536) where
  abbrev size : ℕ
  size = min (max_len - hdr_size tx.width) (length payload - tx.offset)

  -- Where the two engines stand after the fragment.
  abbrev pub next_offset : ℕ
  next_offset = tx.offset + size

  abbrev bytes : List ℕ
  bytes = slice payload tx.offset size

  length-bytes : length bytes ≡ size
  length-bytes = length-slice payload tx.offset size (omega (arith, v.offset_in))

  fits_u32 : length payload < 4294967296
  fits_u32 = omega (arith, v.fits_buffer, v.buffer_small)

  fragment : fragment_size tx max_len 0 ≡ size
  fragment = ground (arith, v.tx_total, fits_u32)

  reads : tx.ops.read tx.arg (fragment_size tx max_len 0) tx.offset ≡ (some bytes, payload)
  reads =
      rw (v.tx_plane.0, v.tx_plane.1, fragment)
        (mp_buf_read_lem payload size tx.offset fits_u32
          ∙ ap (λ (n : ℕ). (some (slice payload tx.offset n), payload)) (omega arith))

  frame : List ℕ
  frame = splice buf 0 (hdr_bytes tx.width tx.total tx.offset (u16 (length bytes)) ++ bytes)

  builds : tx_build tx buf max_len ≡ (
    some (hdr_size tx.width + length bytes),
    frame,
    record tx { arg = payload; last_len = length bytes; state = inprog },
  )
  unfolding frame
  builds =
      tx_build-eq tx buf max_len bytes payload reads (omega (arith, length-bytes)) above
        (omega (arith, length-bytes))

  header : HeaderFields
  header = record { total = tx.total; offset = tx.offset; data_len = u16 (length bytes) }

  u16_bytes : u16 (length bytes) ≡ size
  u16_bytes = omega (arith, length-bytes)

  frame-eq :
      frame
      ≡ hdr_bytes tx.width tx.total tx.offset (u16 (length bytes))
        ++ (bytes ++ drop (hdr_size tx.width + length bytes) buf)
  unfolding frame
  frame-eq =
      splice-prefix buf (hdr ++ bytes)
        (omega (arith, length-append hdr bytes, length-hdr, length-bytes))
      ∙ append_assoc hdr bytes (drop (length (hdr ++ bytes)) buf)
      ∙ ap (λ (n : ℕ). hdr ++ (bytes ++ drop n buf))
          (omega (arith, length-append hdr bytes, length-hdr))
    where
      hdr : List ℕ
      hdr = hdr_bytes tx.width tx.total tx.offset (u16 (length bytes))

      length-hdr : length hdr ≡ hdr_size tx.width
      length-hdr = length-hdr_bytes tx.width tx.total tx.offset (u16 (length bytes))

  reads_header :
      hdr_read rx.width frame (hdr_size tx.width + length bytes) ≡ some (header, hdr_size tx.width)
  unfolding header
  reads_header =
      rw (frame-eq, v.widths)
        (hdr_read-hdr_bytes tx.width tx.total tx.offset (u16 (length bytes)) _ _
          (omega (arith, v.tx_total, v.fits_field)) (omega (arith, v.fits_field)) (omega arith)
          (omega arith))

  written : List ℕ
  written = splice rx.arg tx.offset bytes

  stores : rx.ops.write rx.arg bytes tx.offset ≡ (ok, written)
  unfolding written
  stores = rw v.rx_plane.0 (
      mp_buf_write-in rx.arg bytes tx.offset v.buffer_small (omega (arith, v.fits_buffer))
        (omega (arith, v.fits_buffer, length-bytes)))

  fits : Acceptable rx header bytes
  unfolding header
  fits = record {
    same_total = v.tx_total ∙ sym v.rx_total;
    no_gap = omega (arith, v.same_offset);
    nonempty = omega (arith, u16_bytes);
    ends_in = omega (arith, u16_bytes, v.rx_total);
    total_fits = omega (arith, v.rx_total, fits_u32);
    whole = omega (arith, u16_bytes, length-bytes);
    buffer_fits = rw v.rx_plane.1 (ground (arith, v.fits_buffer, v.rx_total));
  }

  slices : slice frame (hdr_size rx.width) (u16 (length bytes)) ≡ bytes
  slices =
      rw (frame-eq, v.widths)
        (slice-append (hdr_bytes tx.width tx.total tx.offset (u16 (length bytes))) bytes _
          (hdr_size tx.width) (u16 (length bytes))
          (sym (length-hdr_bytes tx.width tx.total tx.offset (u16 (length bytes))))
          (omega (arith, u16_bytes, length-bytes)))

  tx_sent : Engine
  tx_sent = record tx { arg = payload; last_len = length bytes; state = inprog }

  rx_stored : Engine
  rx_stored = record rx { arg = written; last_off = tx.offset; last_len = u16 (length bytes) }

  rc : Rc
  rc = if next_offset == length payload then Rc.done else more

  consumes : rx_consume rx frame (hdr_size tx.width + length bytes) ≡ (rc, rx_stored)
  unfolding rc rx_stored header
  consumes =
      rx_consume-accepted rx header bytes fits written stores frame
        (hdr_size tx.width + length bytes) (hdr_size tx.width) reads_header slices
        (omega (arith, u16_bytes, length-bytes, ap width_bytes v.widths))
      ∙ rw (u16_bytes, v.rx_total) refl

  exchanged : exchange tx rx buf max_len ≡ (rc, tx_commit tx_sent, rx_commit rx_stored)
  unfolding exchange after_build after_consume rc tx_sent
  exchanged =
      rw (builds, consumes)
        (elim (Bool-cases (next_offset == length payload)) [
          | inl last ↦ rw last
          | inr going ↦ rw going
        ])

  written_prefix : take next_offset written ≡ take next_offset payload
  unfolding written
  written_prefix =
      take-add tx.offset size (splice rx.arg tx.offset bytes)
      ∙ ap₂ ◌++◌ (take-splice tx.offset rx.arg tx.offset bytes (omega arith) ∙ v.same_bytes) same
      ∙ sym (take-add tx.offset size payload)
    where
      same : slice (splice rx.arg tx.offset bytes) tx.offset size ≡ bytes
      same =
          ap (λ n. slice (splice rx.arg tx.offset bytes) tx.offset n) (sym length-bytes)
          ∙ slice-splice rx.arg tx.offset bytes (omega (arith, v.fits_buffer, length-bytes))

  committed : u32 (tx.offset + length bytes) ≡ next_offset
  committed = omega (arith, length-bytes, fits_u32)

  rx_committed :
      (let end = u32 (tx.offset + u16 (length bytes)) in
        if ltb rx.offset end then end else rx.offset)
      ≡ next_offset
  rx_committed = ground (arith, u16_bytes, v.same_offset, fits_u32)

  length-written : length written ≡ length rx.arg
  unfolding written
  length-written = length-splice rx.arg tx.offset bytes

  Linked-after : Linked payload (tx_commit tx_sent) (rx_commit rx_stored)
  unfolding tx_sent rx_stored
  Linked-after =
      rw (tx_commit-eq tx_sent, rx_commit-eq rx_stored, committed, rx_committed)
        (record {
          tx_plane = (v.tx_plane.0, refl);
          rx_plane = (v.rx_plane.0, v.rx_plane.1 ∙ ap some (sym length-written));
          widths = v.widths;
          tx_total = v.tx_total;
          rx_total = v.rx_total;
          fits_field = v.fits_field;
          fits_buffer = omega (arith, length-written, v.fits_buffer);
          buffer_small = omega (arith, length-written, v.buffer_small);
          same_offset = refl;
          offset_in = omega arith;
          same_bytes = written_prefix;
        })

  -- Between two linked engines that have bytes left, a packet with room for a header and at least
  -- one byte carries the next fragment: as many bytes as fit or are left. Both engines move past
  -- it, the exchange is done exactly when that was the last one, and the receiver's buffer then
  -- holds all that was sent so far.
  pub exchange-Linked :
      let (rc, tx', rx') = exchange tx rx buf max_len in
      (rc ≡ (if next_offset == length payload then Rc.done else more))
      × (tx'.offset ≡ next_offset)
      × (tx'.width ≡ tx.width)
      × Linked payload tx' rx'
  unfolding rc tx_sent
  exchange-Linked = rw exchanged (
    refl,
    ap (λ m. m.offset) (tx_commit-eq tx_sent) ∙ committed,
    ap (λ m. m.width) (tx_commit-eq tx_sent),
    Linked-after,
  )

-- The sender's refresh loop: fragments one after another, until the receiver reports the end.
pub transfer : ℕ → Engine → Engine → List ℕ → ℕ → Option Engine
transfer zero tx rx buf max_len = none
transfer (suc fuel) tx rx buf max_len =
    let (rc, tx', rx') = exchange tx rx buf max_len in
    let rest = transfer fuel tx' rx' buf max_len in
    elim rc [ Rc.done ↦ some rx' | more ↦ rest | _ ↦ none ]

-- Two linked engines with bytes left move the whole payload, in at most as many exchanges as there
-- are bytes left, over packets with room for a header and at least one byte: the receiver reports
-- the end, and its buffer starts with the payload.
pub transfer_delivers :
    (fuel : ℕ) (payload : List ℕ) (tx rx : Engine) (buf : List ℕ) (max_len : ℕ)
    → Linked payload tx rx
    → tx.offset < length payload
    → length payload - tx.offset ≤ fuel
    → hdr_size tx.width < max_len
    → max_len ≤ length buf
    → max_len < 65536
    → (rx' : Engine) × (transfer fuel tx rx buf max_len ≡ some rx')
      × (take (length payload) rx'.arg ≡ payload)
unfolding transfer
transfer_delivers zero payload tx rx buf max_len v h f a w s = absurd (omega arith)
transfer_delivers (suc fuel) payload tx rx buf max_len v h f a w s =
    let (rc, off, wid, link) = exchange-Linked payload tx rx v buf max_len h a w s in
    let tx' = (exchange tx rx buf max_len).1 in
    let rx' = (exchange tx rx buf max_len).2 in
    let ending = λ (b : Bool). if b then Rc.done else more in
    elim (Bool-cases (
      tx.offset + min (max_len - hdr_size tx.width) (length payload - tx.offset)
      == length payload)) [
        | inl last ↦
            let at_end : tx'.offset ≡ length payload = ground arith in
            (
              rx',
              rw (rc ∙ ap ending last, transfer) refl,
              ap (λ n. take n rx'.arg) (sym at_end)
                  ∙ link.same_bytes
                  ∙ ap (λ n. take n payload) at_end
                  ∙ take-length payload,
            )
        | inr going ↦
            let more_left : tx'.offset < length payload = ground (arith, link.offset_in) in
            let (out, run, whole) =
              transfer_delivers fuel payload tx' rx' buf max_len link more_left (ground arith)
                (ground arith) w s in
            (out, rw (rc ∙ ap ending going, transfer) run, whole)
      ]
