-- ===== src/Pd.antt =====
-- A peripheral device's reading of commands (src/osdp_pd.c: pd_decode_command): from the ID and the data block
-- to the commands that the application's callback gets.
pub mod RoundTrip
pub mod Built
pub mod Event
pub mod Peripheral
pub mod Engines
pub mod Status
pub mod Dispatch
pub mod Decode
pub mod Reply
pub mod Update
pub mod Ledger
pub mod Records
pub mod Handshake
pub mod Enforced
pub mod Sample
mod Examples
use libosdp.Common.{
  ℕ, zero, suc, ◌+◌, ◌-◌, ◌/◌, ◌%◌, Bool, true, false, not, ◌&&◌, ◌||◌, Option, none, some, List,
  [], ◌∷◌, ltb, leb, ◌==◌, if◌then◌else◌, length, take, drop,
}
use libosdp.Bytes.{byte_at, bread_u16_le, bread_u24_le, bread_u32_le}
use libosdp.Cp.{
  Command, output, led, buzzer, text, tdset, comset, mfg, bioread, biomatch, status, keyset,
  StatusType, input_report, output_report, local_report, reader_report, LedParams,
}
use libosdp.Cp.Build.{mfg_max_datalen, biomatch_max_template_len, text_max_len}

-- One record of CMD_OUT, CMD_LED and CMD_BUZ.
unfoldable pub read_output : List ℕ → Command
read_output d = output (byte_at d 0) (byte_at d 1) (bread_u16_le d 2).0

abbrev pub read_led_params : List ℕ → ℕ → ℕ → LedParams
read_led_params d pos timer = record {
  control_code = byte_at d pos;
  on_count = byte_at d (pos + 1);
  off_count = byte_at d (pos + 2);
  on_color = byte_at d (pos + 3);
  off_color = byte_at d (pos + 4);
  timer_count = timer;
}

unfoldable pub read_led : List ℕ → Command
read_led d =
    led (byte_at d 0) (byte_at d 1) (read_led_params d 2 (bread_u16_le d 7).0)
      (read_led_params d 9 0)

unfoldable pub read_buzzer : List ℕ → Command
read_buzzer d = buzzer (byte_at d 0) (byte_at d 1) (byte_at d 2) (byte_at d 3) (byte_at d 4)

-- `count` records of `size` bytes.
unfoldable pub read_each : ℕ → (List ℕ → Command) → ℕ → List ℕ → List Command
read_each size read zero d = []
read_each size read (suc count) d = read d ∷ read_each size read count (drop size d)

unfoldable pub read_records : ℕ → (List ℕ → Command) → List ℕ → Option (List Command)
unfolding read_each
read_records size read d =
    if not (length d % size == 0) then none else some (read_each size read (length d / size) d)

abbrev pub one : Command → Option (List Command)
one cmd = some (cmd ∷ [])

unfoldable pub read_text : List ℕ → Option (List Command)
read_text d =
    let n = byte_at d 5 in
    if ltb (length d) 6 || (ltb text_max_len n || ltb (length d - 6) n)
    then none
    else one (
        text (byte_at d 0) (byte_at d 1) (byte_at d 2) (byte_at d 3) (byte_at d 4)
          (take n (drop 6 d)))

unfoldable pub read_tdset : List ℕ → Option (List Command)
read_tdset d =
    if not (length d == 7)
    then none
    else one (
        tdset (bread_u16_le d 0).0 (byte_at d 2) (byte_at d 3) (byte_at d 4) (byte_at d 5)
          (byte_at d 6))

unfoldable pub read_comset : List ℕ → Option (List Command)
read_comset d =
    if not (length d == 5) || leb 0x7F (byte_at d 0)
    then none
    else one (comset (byte_at d 0) (bread_u32_le d 1).0)

unfoldable pub read_mfg : List ℕ → Option (List Command)
read_mfg d =
    if ltb (length d) 3 || ltb mfg_max_datalen (length d - 3)
    then none
    else one (mfg (bread_u24_le d 0).0 (take (length d - 3) (drop 3 d)))

unfoldable pub read_bioread : List ℕ → Option (List Command)
read_bioread d =
    if not (length d == 4)
    then none
    else one (bioread (byte_at d 0) (byte_at d 1) (byte_at d 2) (byte_at d 3))

unfoldable pub read_biomatch : List ℕ → Option (List Command)
read_biomatch d =
    let n = (bread_u16_le d 4).0 in
    if ltb (length d) 6 || (not (n == length d - 6) || ltb biomatch_max_template_len n)
    then none
    else one (biomatch (byte_at d 0) (byte_at d 1) (byte_at d 2) (byte_at d 3) (take n (drop 6 d)))

unfoldable pub read_status : StatusType → List ℕ → Option (List Command)
read_status t d = if not (length d == 0) then none else one (status t)

unfoldable pub read_keyset : List ℕ → Option (List Command)
read_keyset d =
    if not (length d == 18) || (not (byte_at d 0 == 1) || not (byte_at d 1 == 16))
    then none
    else one (keyset 1 (take 16 (drop 2 d)))

-- The commands of a data block, or `none` where the block is refused for its form. The commands that ask
-- nothing of the application are not among them.
unfoldable pub read_commands : ℕ → List ℕ → Option (List Command)
unfolding read_output read_led read_buzzer read_records read_text read_tdset read_comset read_mfg
    read_bioread read_biomatch read_status read_keyset
read_commands id d =
    if id == 0x64
    then read_status local_report d
    else if id == 0x65
    then read_status input_report d
    else if id == 0x66
    then read_status output_report d
    else if id == 0x67
    then read_status reader_report d
    else if id == 0x68
    then read_records 4 read_output d
    else if id == 0x69
    then read_records 14 read_led d
    else if id == 0x6A
    then read_records 5 read_buzzer d
    else if id == 0x6B
    then read_text d
    else if id == 0x6D
    then read_tdset d
    else if id == 0x6E
    then read_comset d
    else if id == 0x80
    then read_mfg d
    else if id == 0x73
    then read_bioread d
    else if id == 0x74
    then read_biomatch d
    else if id == 0x75
    then read_keyset d
    else none
