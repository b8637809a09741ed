-- ===== src/File/Lifetime/Sending.antt =====
-- The sending side of src/osdp_file.c keeps a file transfer consistent.
use libosdp.Common.{
  ℕ, ◌-◌, ◌≡◌, refl, sym, ap, Bool, ◌+◌, ◌∙◌, ℤ, pos, negsuc, Bool-cases, true, ◌&&◌, Option, none,
  some, List, inl, inr, ltb, leb, ◌==◌, drop,
}
use libosdp.Multipart.{Multipart, is_active, hdr_size, w32}
use libosdp.Multipart.Lifecycle.{set_wait}
use libosdp.Multipart.Tx.{tx_build, tx_commit}
use libosdp.File.{File, Plane, Outcome, aborted, transition_done}
use libosdp.File.Status.{stat_size, read_stat}
use libosdp.File.Sender.{
  cmd_tx_build, after_frame, on_status, cmd_stat_decode, take_control, sc_reserve, is_waiting,
  frame_header,
}
use libosdp.File.Lifetime.{held, IsBalanced, files_of, is_live, IsConsistent, transition_done-lem}
use libosdp.File.Lifetime.Engine.{
  SameLife, IsPaired, SameLife-IsPaired, tx_commit-SameLife, tx_build-SameLife,
  tx_build_idle-SameLife, set_wait-SameLife, park-SameLife, SameLife-trans,
}

module _ {A : Type 0} where
  -- A change of the engine that leaves the transfer's life alone.
  pub engine-IsConsistent :
      (f f' : File A)
      → SameLife f.mp f'.mp
      → files_of f' ≡ files_of f
      → f'.in_terminal ≡ f.in_terminal
      → IsConsistent f
      → IsConsistent f'
  engine-IsConsistent f f' s o t v = record {
    handle = ap (λ (x : Bool × ℕ × ℕ). x.0) o ∙ v.handle ∙ sym s.live;
    paired = SameLife-IsPaired f.mp f'.mp s v.paired;
    settled = t ∙ v.settled;
    balanced =
        ap (λ (x : Bool × ℕ × ℕ). x.1) o
        ∙ v.balanced
        ∙ sym (ap (λ (x : Bool × ℕ × ℕ). x.2 + held x.0) o);
  }

  pub ended :
      (f : File A) (outcome : Outcome)
      → is_live f ≡ true
      → IsPaired f.mp
      → IsBalanced f
      → IsConsistent (transition_done f outcome)
  ended f outcome a v o = let r = transition_done-lem f outcome a v o in r.0

  after_frame-IsConsistent :
      (f : File A) (buf : List ℕ) (out : Option ℕ × List ℕ × Multipart (Plane A))
      → SameLife f.mp out.2
      → is_live f ≡ true
      → IsConsistent f
      → IsConsistent (after_frame f buf out).2
  unfolding after_frame
  after_frame-IsConsistent f buf (none, out, mp) s a v =
      ended (record f { mp = mp }) aborted (s.live ∙ a) (SameLife-IsPaired f.mp mp s v.paired)
        v.balanced
  after_frame-IsConsistent f buf (some n, out, mp) s a v = engine-IsConsistent f _ s refl refl v

  pub tx_build-IsConsistent :
      (f : File A) (buf : List ℕ) (max_len : ℕ)
      → is_live f ≡ true
      → IsConsistent f
      → IsConsistent (cmd_tx_build f buf max_len).2
  unfolding cmd_tx_build
  tx_build-IsConsistent f buf max_len a v =
      let engine_max = max_len - 1 - sc_reserve in
      elim (Bool-cases (leb max_len frame_header)) [
        | inl k ↦ rw k (ended f aborted a v.paired v.balanced)
        | inr k ↦ elim (Bool-cases (is_waiting f.mp.state && f.mp.offset == f.mp.total)) [
          | inl w ↦
              rw (k, w)
                (engine-IsConsistent f _ (tx_build_idle-SameLife f.mp (drop 1 buf)) refl refl v)
          | inr w ↦ elim (Bool-cases (leb engine_max (hdr_size w32))) [
            | inl l ↦ rw (k, w, l) (ended f aborted a v.paired v.balanced)
            | inr l ↦
                rw (k, w, l)
                  (after_frame-IsConsistent f buf (tx_build f.mp (drop 1 buf) engine_max)
                    (tx_build-SameLife f.mp (drop 1 buf) engine_max a) a v)
          ]
        ]
      ]

  -- What a status does to a live transfer.
  on_status-IsConsistent :
      (f : File A) (status : ℤ)
      → is_live f ≡ true
      → IsConsistent f
      → IsConsistent (on_status f status)
  unfolding on_status
  on_status-IsConsistent f (negsuc n) a v = ended f _ a v.paired v.balanced
  on_status-IsConsistent f (pos n) a v = elim (Bool-cases (f.mp.offset == f.mp.total)) [
    | inr k ↦ rw k v
    | inl k ↦ elim (Bool-cases (n == 3)) [
      | inl p ↦ rw (k, p) (engine-IsConsistent f _ (park-SameLife f.mp a) refl refl v)
      | inr p ↦ rw (k, p) (ended f _ a v.paired v.balanced)
    ]
  ]

  acked-SameLife :
      (mp : Multipart (Plane A)) (ms now : ℕ) → SameLife mp (set_wait (tx_commit mp) ms now)
  acked-SameLife mp ms now =
      SameLife-trans mp (tx_commit mp) (set_wait (tx_commit mp) ms now) (tx_commit-SameLife mp)
        (set_wait-SameLife (tx_commit mp) ms now)

  pub stat_decode-IsConsistent :
      (f : File A) (buf : List ℕ) (len now : ℕ)
      → IsConsistent f
      → IsConsistent (cmd_stat_decode f buf len now).1
  unfolding cmd_stat_decode is_active
  stat_decode-IsConsistent f buf len now v =
      let stat = read_stat buf in
      let acked : File A = record f {
        flags = take_control stat.control f.flags;
        mp = set_wait (tx_commit f.mp) stat.delay now;
      } in
      let s = acked-SameLife f.mp stat.delay now in
      elim (Bool-cases (is_live f)) [
        | inr k ↦ rw k v
        | inl k ↦ elim (Bool-cases (ltb len stat_size)) [
          | inl l ↦ rw (k, l) v
          | inr l ↦
              rw (k, l)
                (on_status-IsConsistent acked stat.status (s.live ∙ k)
                  (engine-IsConsistent f acked s refl refl v))
        ]
      ]
