-- ===== src/File/Status.antt =====
-- The status reply of a file transfer in src/osdp_file.c: `struct osdp_cmd_file_stat` and the status
-- codes in it.
use libosdp.Common.{
  ℕ, ◌+◌, ◌-◌, ◌*◌, ◌%◌, ◌≤◌, ◌<◌, ◌≡◌, refl, ap, ◌∙◌, ◌/◌, ℤ, pos, negsuc, List, ◌∷◌, ltb, ◌==◌,
  if◌then◌else◌, length, u8, u16, arith,
}
use libosdp.Bytes.{byte_at, bread_u16_le, bwrite_u8, bwrite_u16_le}
use libosdp.File.{Outcome, finished, rebooting, aborted, unrecognized, invalid}

-- FILE_TRANSFER_STAT_SIZE, which is sizeof(struct osdp_cmd_file_stat)
abbrev pub stat_size : ℕ
stat_size = 7

-- OSDP_FILE_TX_STATUS_ACK, _KEEP_ALIVE and the negative ones
abbrev pub status_ack : ℤ
status_ack = pos 0

abbrev pub status_keep_alive : ℤ
status_keep_alive = pos 3

abbrev pub status_err_abort : ℤ
status_err_abort = negsuc 0

abbrev pub status_err_unknown : ℤ
status_err_unknown = negsuc 1

abbrev pub status_err_invalid : ℤ
status_err_invalid = negsuc 2

-- file_outcome_from_wire_status
unfoldable pub outcome_from_wire_status : ℤ → Outcome
outcome_from_wire_status (pos n) =
    if n == 1 then finished else if n == 2 then rebooting else aborted
outcome_from_wire_status (negsuc n) =
    if n == 1 then unrecognized else if n == 2 then invalid else aborted

-- file_wire_status_from_outcome
unfoldable pub wire_status_from_outcome : Outcome → ℤ
wire_status_from_outcome finished = pos 1
wire_status_from_outcome rebooting = pos 2
wire_status_from_outcome unrecognized = status_err_unknown
wire_status_from_outcome invalid = status_err_invalid
wire_status_from_outcome aborted = status_err_abort

pub record Stat : Type 0 where
  pub control : ℕ
  pub delay : ℕ
  pub status : ℤ
  pub rx_size : ℕ

-- An int16_t as the uint16_t that is written, and back.
abbrev pub u16_of : ℤ → ℕ
u16_of (pos n) = u16 n
u16_of (negsuc n) = 65535 - n % 65536

abbrev pub int16_of : ℕ → ℤ
int16_of n = if ltb n 32768 then pos n else negsuc (65535 - n)

-- The end of osdp_file_cmd_stat_build, from "serialize" on.
unfoldable pub write_stat : Stat → List ℕ → ℕ × List ℕ
write_stat stat buf =
    let (b1, l1) = bwrite_u8 (u8 stat.control) buf 0 in
    let (b2, l2) = bwrite_u16_le stat.delay b1 l1 in
    let (b3, l3) = bwrite_u16_le (u16_of stat.status) b2 l2 in
    let (b4, l4) = bwrite_u16_le stat.rx_size b3 l3 in (l4, b4)

-- "Collect struct osdp_cmd_file_stat" of osdp_file_cmd_stat_decode.
unfoldable pub read_stat : List ℕ → Stat
read_stat buf =
    let (d, p1) = bread_u16_le buf 1 in
    let (s, p2) = bread_u16_le buf p1 in
    let (r, p3) = bread_u16_le buf p2 in
    record { control = byte_at buf 0; delay = d; status = int16_of s; rx_size = r }

abbrev pub IsInt16 : ℤ → Type 0
IsInt16 (pos n) = n < 32768
IsInt16 (negsuc n) = n < 32768

int16_of-u16_of : (s : ℤ) → IsInt16 s → int16_of (u16 (u16_of s)) ≡ s
int16_of-u16_of (pos n) h = ground arith
int16_of-u16_of (negsuc n) h = ground arith

u16_bytes : (n : ℕ) → u16 (n % 256 + n / 256 % 256 * 256) ≡ u16 n
u16_bytes n = omega arith

-- A status whose fields fit their types, written into a buffer that holds it, takes seven bytes and is
-- read back as it was.
pub read_stat-write_stat :
    (control delay rx_size : ℕ) (status : ℤ) (buf : List ℕ)
    → control < 256
    → delay < 65536
    → rx_size < 65536
    → IsInt16 status
    → stat_size ≤ length buf
    → let stat : Stat = record {
      control = control;
      delay = delay;
      status = status;
      rx_size = rx_size;
    } in
      ((write_stat stat buf).0 ≡ stat_size) × (read_stat (write_stat stat buf).1 ≡ stat)
unfolding read_stat write_stat bread_u16_le bwrite_u8 bwrite_u16_le
read_stat-write_stat c d r s (b0 ∷ b1 ∷ b2 ∷ b3 ∷ b4 ∷ b5 ∷ b6 ∷ rest) hc hd hr hs h = (
  refl,
  ground
      (arith, u16_bytes d, u16_bytes r, ap int16_of (u16_bytes (u16_of s)), int16_of-u16_of s hs),
)
read_stat-write_stat c d r s _ hc hd hr hs h = absurd (omega arith)

-- What the receiver reports of an outcome, the sender takes for that outcome: through the status code, and
-- its bytes in the reply.
pub outcome_delivered :
    (o : Outcome) (delay : ℕ) (buf : List ℕ)
    → delay < 65536
    → stat_size ≤ length buf
    → let stat : Stat = record {
      control = 1;
      delay = delay;
      status = wire_status_from_outcome o;
      rx_size = 0;
    } in
      outcome_from_wire_status (read_stat (write_stat stat buf).1).status ≡ o
unfolding wire_status_from_outcome outcome_from_wire_status
outcome_delivered o delay buf hd h =
    let s = wire_status_from_outcome o in
    let (n, e) = read_stat-write_stat 1 delay 0 s buf (omega arith) hd (omega arith) (fits o) h in
    ap (λ (x : Stat). outcome_from_wire_status x.status) e ∙ known o
  where
    fits : (o : Outcome) → IsInt16 (wire_status_from_outcome o)
    fits finished = omega arith
    fits rebooting = omega arith
    fits aborted = omega arith
    fits unrecognized = omega arith
    fits invalid = omega arith

    known : (o : Outcome) → outcome_from_wire_status (wire_status_from_outcome o) ≡ o
    known finished = refl
    known rebooting = refl
    known aborted = refl
    known unrecognized = refl
    known invalid = refl
