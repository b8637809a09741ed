-- ===== src/Phy.antt =====
-- The packet layer of src/osdp_phy.c, built without zero-copy receive and without packet or data
-- traces. A pointer into a buffer is the list from that byte on; `buf += 1` is `drop`, and what was
-- dropped is put back in front of the result.
pub mod Sequence
pub mod Checksum
pub mod Build
pub mod Header
pub mod Framer
pub mod Check
pub mod Decode
mod Examples
use libosdp.Common.{ℕ, ◌+◌, ◌*◌, ◌%◌, Bool, true, false, List, has_bit, if◌then◌else◌, set, u16}
use libosdp.Bytes.{byte_at, byte_0, byte_1}
use libosdp.Device.{Device, Flags, packet_has_mark}

-- enum osdp_pkt_errors_e, less OSDP_ERR_PKT_NONE
pub data PktError : Type 0 where
  err_fmt err_wait err_skip err_check err_busy err_nack err_build err_no_data err_wait_tx : PktError

abbrev pub pkt_mark : ℕ
pkt_mark = 0xFF

abbrev pub pkt_som : ℕ
pkt_som = 0x53

-- sizeof(struct osdp_packet_header)
abbrev pub header_size : ℕ
header_size = 5

-- PKT_CONTROL_CRC and PKT_CONTROL_SCB
abbrev pub control_crc : ℕ
control_crc = 4

abbrev pub control_scb : ℕ
control_scb = 8

-- The fields of `struct osdp_packet_header` at the front of a buffer.
abbrev pub som_of : List ℕ → ℕ
som_of pkt = byte_at pkt 0

abbrev pub pd_address_of : List ℕ → ℕ
pd_address_of pkt = byte_at pkt 1

abbrev pub control_of : List ℕ → ℕ
control_of pkt = byte_at pkt 4

abbrev pub data_of : List ℕ → ℕ → ℕ
data_of pkt i = byte_at pkt (5 + i)

-- `(len_msb << 8) | len_lsb`
abbrev pub len_of : List ℕ → ℕ
len_of pkt = byte_at pkt 3 * 256 + byte_at pkt 2

abbrev pub set_len : List ℕ → ℕ → List ℕ
set_len pkt n = set (set pkt 2 (byte_0 n)) 3 (byte_1 n)

abbrev pub has_crc : List ℕ → Bool
has_crc pkt = has_bit control_crc (control_of pkt)

abbrev pub has_scb : List ℕ → Bool
has_scb pkt = has_bit control_scb (control_of pkt)

-- The mark byte before the header.
abbrev pub mark_len : Device → ℕ
mark_len pd = if packet_has_mark pd then 1 else 0

abbrev pub set_has_mark : Device → Bool → Device
set_has_mark pd b = record pd { flags = record pd.flags { pkt_has_mark = b } }
