-- ===== src/Pd/Sample.antt =====
-- A peripheral device to run src/osdp_pd.c on, with an application that takes every command and engines that are idle.
use libosdp.Common.{ℕ, true, false, none, [], pos, replicate}
use libosdp.Crypto.{Crypto}
use libosdp.Device.Sample.{sample_pd}
use libosdp.Pd.Peripheral.{Peripheral, App}
use libosdp.Pd.Engines.{Engines, fragment_refused, trs_refused}

abbrev pub plain_cipher : Crypto
plain_cipher = record {
  encrypt = λ key iv data'. data';
  decrypt = λ key iv data'. data';
  fill_random = λ n. replicate n 4;
}

abbrev pub taking_app : App
taking_app = λ calls call. record { ret = pos 0; report = []; submits = [] }

abbrev pub idle_engines : Engines ℕ
idle_engines = record {
  abort = λ e. e;
  file_cmd_tx_decode = λ e d. (false, e);
  file_cmd_stat_build = λ e n. ([], e);
  piv_reply_pending = λ e. false;
  piv_reply_id = λ e. 0x80;
  piv_takes = λ e ev. false;
  piv_open = λ e n. (false, e);
  piv_cmd_frag = λ e n d. (fragment_refused, e);
  piv_abort = λ e. e;
  piv_reply_build = λ e ev n. ([], e);
  bio_reply_pending = λ e. false;
  bio_reply_build = λ e ev n. (none, e);
  trs_cmd_decode = λ e d. (trs_refused, e);
  trs_reply_build = λ e ev n. ([], e);
}

abbrev pub sample_peripheral : Peripheral ℕ
sample_peripheral = record {
  dev = sample_pd;
  caps = λ fc. record { function_code = fc; compliance_level = 1; num_items = 2 };
  is_online = false;
  enables_notif = false;
  has_callback = true;
  has_completion = true;
  on_complete = λ done ev s. [];
  bioreadr_mp = false;
  event_queue = [];
  active_event = none;
  reply_prebuilt = false;
  sc_tstamp = 0;
  baud_rate = 9600;
  firmware_version = 1;
  comset_address = 0;
  comset_baud_rate = 0;
  keyset_pending = [];
  engines = 0;
  calls = [];
  accepted = [];
  completed = [];
}
