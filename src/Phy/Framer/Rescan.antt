-- ===== src/Phy/Framer/Rescan.antt =====
-- phy_rescan_packet_buf: what is left after a malformed header.
use libosdp.Common.{
  ℕ, zero, suc, ◌+◌, ◌-◌, ◌≤◌, ◌<◌, ◌≡◌, ◌≢◌, refl, ◌∙◌, inl, inr, Bool-cases, true, false, List,
  arith, ◌==◌, length, set, length-set, get_or-set_self, get_or-set_ne,
}
use libosdp.Bytes.{byte_at}
use libosdp.Device.{Device}
use libosdp.Phy.{pkt_mark, pkt_som, mark_len}
use libosdp.Phy.Framer.{find_som, move_down, rescan_packet_buf}
use libosdp.Phy.Framer.Heading.{find_som_bounds}

find_som-found :
    (buf : List ℕ) (k i : ℕ) → find_som buf k i < i + k → byte_at buf (find_som buf k i) ≡ pkt_som
unfolding find_som
find_som-found buf zero i h = absurd (omega arith)
find_som-found buf (suc k) i h = elim (Bool-cases (byte_at buf i == pkt_som)) [
  | inl e ↦ rw (e, find_som) (ground (arith, h))
  | inr e ↦ rw (e, find_som) (find_som-found buf k (i + 1) (ground (arith, h)))
]

-- The copy writes at `j` and above only.
move_down-below :
    (buf : List ℕ) (k j i m : ℕ) → m < j → byte_at (move_down buf k j i) m ≡ byte_at buf m
unfolding move_down
move_down-below buf zero j i m h = refl
move_down-below buf (suc k) j i m h =
    move_down-below (set buf j (byte_at buf i)) k (j + 1) (i + 1) m (omega arith)
    ∙ get_or-set_ne buf j m (byte_at buf i) 0 (λ e. absurd (omega (arith, e)))

move_down-first :
    (buf : List ℕ) (k j i : ℕ)
    → 0 < k
    → j < length buf
    → byte_at (move_down buf k j i) j ≡ byte_at buf i
unfolding move_down
move_down-first buf zero j i h l = absurd (omega arith)
move_down-first buf (suc k) j i h l =
    move_down-below (set buf j (byte_at buf i)) k (j + 1) (i + 1) j (omega arith)
    ∙ get_or-set_self buf j (byte_at buf i) 0 l

-- For a packet buffer that holds what its length says, and whose has-mark flag is set if it starts
-- with the mark byte: a rescan that finds another start of message leaves fewer bytes, but some,
-- with the start of message at their front, behind the mark byte if the flag says so; one that
-- finds none leaves no bytes.
pub rescan_progress :
    (pd : Device)
    → pd.packet_buf_len ≤ length pd.packet_buf
    → (pd.flags.pkt_has_mark ≡ false → byte_at pd.packet_buf 0 ≢ pkt_mark)
    → let (found, pd') = rescan_packet_buf pd in
      (found ≡ true
        → (0 < pd'.packet_buf_len)
          × (pd'.packet_buf_len < pd.packet_buf_len)
          × (byte_at pd'.packet_buf (mark_len pd') ≡ pkt_som))
      × (found ≡ false → pd'.packet_buf_len ≡ 0)
unfolding rescan_packet_buf
rescan_progress pd h m = (
  (λ e. (
    ground (arith, e, bounds),
    ground (arith, e, bounds, m),
    ground (arith, e, bounds, som_at, first_marked, first_plain, kept),
  )),
  (λ e. ground (arith, e)),
)
  where
    j : ℕ
    j = mark_len pd + 1

    i : ℕ
    i = find_som pd.packet_buf (pd.packet_buf_len - j) j

    bounds : (j ≤ i) × (i ≤ j + (pd.packet_buf_len - j))
    bounds = find_som_bounds pd.packet_buf (pd.packet_buf_len - j) j

    som_at : i < j + (pd.packet_buf_len - j) → byte_at pd.packet_buf i ≡ pkt_som
    som_at = find_som-found pd.packet_buf (pd.packet_buf_len - j) j

    kept : 0 < i → byte_at (set pd.packet_buf 0 pkt_mark) i ≡ byte_at pd.packet_buf i
    kept l = get_or-set_ne pd.packet_buf 0 i pkt_mark 0 (λ e. absurd (omega (arith, e)))

    first_marked :
        0 < pd.packet_buf_len - i
        → 1 < length pd.packet_buf
        → byte_at (move_down (set pd.packet_buf 0 pkt_mark) (pd.packet_buf_len - i) 1 i) 1
          ≡ byte_at (set pd.packet_buf 0 pkt_mark) i
    first_marked l k =
        move_down-first (set pd.packet_buf 0 pkt_mark) (pd.packet_buf_len - i) 1 i l
          (omega (arith, length-set pd.packet_buf 0 pkt_mark))

    first_plain :
        0 < pd.packet_buf_len - i
        → 0 < length pd.packet_buf
        → byte_at (move_down pd.packet_buf (pd.packet_buf_len - i) 0 i) 0 ≡ byte_at pd.packet_buf i
    first_plain l k = move_down-first pd.packet_buf (pd.packet_buf_len - i) 0 i l k
