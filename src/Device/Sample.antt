-- ===== src/Device/Sample.antt =====
-- A device to run src/osdp_phy.c and src/osdp_sc.c on.
use libosdp.Common.{true, false, replicate, pos}
use libosdp.Metrics.{zeros}
use libosdp.Device.{Device, Flags, ScContext}

abbrev pub sample_sc : ScContext
sample_sc = record {
  scbk = replicate 16 1;
  s_enc = replicate 16 2;
  s_mac1 = replicate 16 3;
  s_mac2 = replicate 16 4;
  r_mac = replicate 16 5;
  c_mac = replicate 16 6;
  cp_random = replicate 8 7;
  pd_random = replicate 8 8;
  pd_client_uid = replicate 8 9;
  cp_cryptogram = replicate 16 10;
  pd_cryptogram = replicate 16 11;
}

abbrev pub sample_flags : Flags
sample_flags = record {
  sc_capable = true;
  skip_seq_check = false;
  sc_use_scbkd = false;
  sc_active = false;
  pd_mode = false;
  pkt_skip_mark = true;
  pkt_has_mark = false;
  sc_disabled = false;
  pkt_broadcast = false;
  cp_use_crc = false;
  enforce_secure = false;
  install_mode = false;
  allow_empty_edb = false;
}

-- A control panel that sent the packet with sequence number 2.
abbrev pub sample_cp : Device
sample_cp = record {
  flags = sample_flags;
  address = 1;
  seq_number = pos 2;
  id = record { version = 1; model = 2; vendor_code = 3; serial_number = 4 };
  phy_state = 0;
  phy_retry_count = 0;
  phy_tx_seq = 2;
  tstamp = 0;
  peer_rx_size = 0;
  rx_rb = record { head = 0; tail = 0; buffer = replicate 16 0 };
  packet_buf = replicate 256 0;
  packet_len = 0;
  packet_buf_len = 0;
  packet_scan_skip = 0;
  tx_buf = replicate 256 0;
  last_tx_len = 0;
  last_cmd_id = 0;
  cmd_id = 96;
  reply_id = 0;
  nak_code = 0;
  sc = sample_sc;
  metrics = zeros;
}

abbrev pub sample_pd : Device
sample_pd = record sample_cp { flags = record sample_flags { pd_mode = true } }
