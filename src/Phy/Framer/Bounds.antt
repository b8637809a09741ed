-- ===== src/Phy/Framer/Bounds.antt =====
-- The framer stays inside of its packet buffer, and never holds more than the packet declares.
use libosdp.Common.{
  ℕ, ◌-◌, ◌≤◌, ◌≡◌, ◌≢◌, refl, sym, ◌∙◌, ◌⊎◌, inl, inr, Bool-cases, Option, some, arith, ltb, ◌==◌,
  length,
}
use libosdp.Device.{Device, packet_buf_size}
use libosdp.Phy.{PktError, err_fmt}
use libosdp.Phy.Framer.{collect, check_header, collect_body, on_packet_len, stamp, frame_packet}
use libosdp.Phy.Framer.Heading.{
  IsHeading, collect-len, collect-whole, collect-packet_len, check_header-IsHeading,
  check_header-bounds, check_header-ne,
}

-- The packet buffer keeps its size. While the length is not known, it holds a header at most; then
-- it holds no more than the packet, and the packet fits in it.
pub record IsFramed (pd : Device) : Type 0 where
  pub whole : length pd.packet_buf ≡ packet_buf_size
  pub header : pd.packet_len ≡ 0 → pd.packet_buf_len ≤ 6
  pub body : pd.packet_len ≢ 0 → pd.packet_buf_len ≤ pd.packet_len
  pub fits : pd.packet_len ≤ packet_buf_size

-- The guard on too many bytes never fires, and what is collected stays within the packet.
collect_body-IsFramed :
    (pd : Device)
    → IsFramed pd
    → pd.packet_len ≢ 0
    → IsFramed (collect_body pd).1 × ((collect_body pd).0 ≢ some err_fmt)
unfolding collect_body
collect_body-IsFramed pd h known = (
  elim (Bool-cases (ltb pd.packet_len pd.packet_buf_len)) [
    | inl e ↦ absurd (ground (arith, h.body known))
    | inr e ↦
        elim (Bool-cases (
          (collect pd (pd.packet_len - pd.packet_buf_len)).packet_buf_len
          == (collect pd (pd.packet_len - pd.packet_buf_len)).packet_len)) [
            | inl k ↦ rw (e, k) collected
            | inr k ↦ rw (e, k) collected
          ]
  ],
  ground (arith, h.body known),
)
  where
    collected : IsFramed (collect pd (pd.packet_len - pd.packet_buf_len))
    collected = record {
      whole = collect-whole pd (pd.packet_len - pd.packet_buf_len) ∙ h.whole;
      header =
          λ e. absurd (known (sym (collect-packet_len pd (pd.packet_len - pd.packet_buf_len)) ∙ e));
      body = λ e. omega (
        arith,
        collect-len pd (pd.packet_len - pd.packet_buf_len),
        collect-packet_len pd (pd.packet_len - pd.packet_buf_len),
        h.body known,
      );
      fits = omega (arith, collect-packet_len pd (pd.packet_len - pd.packet_buf_len), h.fits);
    }

on_packet_len-IsFramed :
    (r : (PktError ⊎ ℕ) × Device)
    → IsHeading r.1
    → ((n : ℕ) → r.0 ≡ inr n → (n ≤ packet_buf_size) × (6 ≤ n))
    → r.0 ≢ inl err_fmt
    → IsFramed (on_packet_len r).1 × ((on_packet_len r).0 ≢ some err_fmt)
unfolding on_packet_len
on_packet_len-IsFramed (inl err, pd) h b ne = (
  record {
    whole = h.whole;
    header = λ e. h.short;
    body = λ k. absurd (k h.unknown);
    fits = omega (arith, h.unknown);
  },
  ground (arith, ne),
)
on_packet_len-IsFramed (inr n, pd) h b ne =
    let framed : IsFramed (record pd { packet_len = n; packet_scan_skip = 0 }) = record {
      whole = h.whole;
      header = λ e. h.short;
      body = λ k. omega (arith, h.short, b n refl);
      fits = (b n refl).0;
    } in
    collect_body-IsFramed (record pd { packet_len = n; packet_scan_skip = 0 }) framed
      (λ e. absurd (omega (arith, b n refl)))

stamp-IsFramed :
    (pd : Device) (received : Option ℕ) (now : ℕ) → IsFramed pd → IsFramed (stamp pd received now)
unfolding stamp
stamp-IsFramed pd received now h = record {
  whole = ground (arith, h.whole);
  header = ground (arith, h.header);
  body = ground (arith, h.body);
  fits = ground (arith, h.fits);
}

-- From a device whose framer is in order, and whatever the channel gave, the framer keeps the
-- packet buffer at its 256 bytes, holds at most a header while it does not know the packet's
-- length, and never more than that length after; its guard against an overfull buffer never fires.
pub frame_packet-IsFramed :
    (pd : Device) (received : Option ℕ) (now : ℕ)
    → IsFramed pd
    → IsFramed (frame_packet pd received now).1 × ((frame_packet pd received now).0 ≢ some err_fmt)
unfolding frame_packet
frame_packet-IsFramed pd received now h =
    let h' = stamp-IsFramed pd received now h in
    elim (Bool-cases ((stamp pd received now).packet_len == 0)) [
      | inl e ↦
          let unknown : (stamp pd received now).packet_len ≡ 0 = ground arith in
          let heading : IsHeading (stamp pd received now) = record {
            whole = h'.whole;
            unknown = unknown;
            short = h'.header unknown;
          } in
          rw e (
            on_packet_len-IsFramed (check_header (stamp pd received now))
              (check_header-IsHeading (stamp pd received now) heading)
              (check_header-bounds (stamp pd received now))
              (check_header-ne (stamp pd received now)))
      | inr e ↦ rw e (collect_body-IsFramed (stamp pd received now) h' (λ k. ground (arith, k)))
    ]
