-- ===== src/Multipart/Examples.antt =====
-- Transfers of src/osdp_multipart.c between two bound buffers.
use libosdp.Common.{
  ℕ, ◌+◌, ◌≡◌, ◌≢◌, ◌≤◌, ◌<◌, ◌↔◌, refl, true, false, some, List, [], ◌∷◌, arith, replicate, length,
  take, drop, slice, length-take,
}
use libosdp.Multipart.{Ops, w16, idle, ok, hdr_size}
use libosdp.Multipart.Header.{hdr_write, hdr_read, hdr_read-hdr_write}
use libosdp.Multipart.Buffer.{
  mp_buf_read, mp_buf_write, buffer_ops, mp_buf_write_lem, mp_buf_read_lem,
}
use libosdp.Multipart.Lifecycle.{finish}
use libosdp.Multipart.Lifecycle.Events.{
  Call, starts, tx_commits, cancels, finishes, calls, IsCounted, calls-IsCounted, finish-finish,
}
use libosdp.Multipart.Tx.{tx_build_ex}
use libosdp.Multipart.Tx.Frame.{ReadsAtMost, tx_build_ex-fits}
use libosdp.Multipart.Rx.{rx_consume}
use libosdp.Multipart.Rx.Checks.{Consumed, rx_consume-Consumed}
use libosdp.Multipart.Transfer.{Engine, transfer, Linked, transfer_delivers}

abbrev payload : List ℕ
payload = 1 ∷ 2 ∷ 3 ∷ 4 ∷ 5 ∷ []

abbrev sender : Engine
sender = record {
  state = idle;
  width = w16;
  total = 5;
  offset = 0;
  last_len = 0;
  last_off = 0;
  ops = buffer_ops;
  arg = payload;
  buf_len = some 5;
  has_event_cb = true;
  events = [];
  msg_type = 0;
  object_id = 0;
  done_outcome = 0;
  start_emitted = false;
  cancel_req = false;
  wait_time_ms = 0;
  tstamp = 0;
}

abbrev receiver : Engine
receiver = record sender { arg = replicate 8 0; buf_len = some 8 }

linked : Linked payload sender receiver
linked = record {
  tx_plane = (refl, refl);
  rx_plane = (refl, refl);
  widths = refl;
  tx_total = refl;
  rx_total = refl;
  fits_field = omega arith;
  fits_buffer = omega arith;
  buffer_small = omega arith;
  same_offset = refl;
  offset_in = omega arith;
  same_bytes = refl;
}

-- Two bytes of payload in each frame of eight bytes.
transfer_delivers_example :
    (rx' : Engine) × (transfer 5 sender receiver (replicate 8 0) 8 ≡ some rx')
    × (take 5 rx'.arg ≡ payload)
transfer_delivers_example =
    transfer_delivers 5 payload sender receiver (replicate 8 0) 8 linked (omega arith) (omega arith)
      (omega arith) (omega arith) (omega arith)

hdr_read-hdr_write_example :
    hdr_read w16 (hdr_write w16 300 2 3 (replicate 8 0)).0 8
    ≡ some (record { total = 300; offset = 2; data_len = 3 }, 6)
hdr_read-hdr_write_example =
    hdr_read-hdr_write w16 300 2 3 8 (replicate 8 0) (omega arith) (omega arith) (omega arith)
      (omega arith) (omega arith)

mp_buf_read_lem_example : mp_buf_read payload 4 3 ≡ (some (4 ∷ 5 ∷ []), payload)
mp_buf_read_lem_example = mp_buf_read_lem payload 4 3 (omega arith)

mp_buf_write_lem_example :
    (((mp_buf_write payload (8 ∷ 9 ∷ []) 3).0 ≡ ok) ↔ ((3 < 5) × (5 ≤ 5)))
    × ((mp_buf_write payload (8 ∷ 9 ∷ []) 3).0 ≡ ok
        → let buf' = (mp_buf_write payload (8 ∷ 9 ∷ []) 3).1 in
          (slice buf' 3 2 ≡ 8 ∷ 9 ∷ []) × (take 3 buf' ≡ take 3 payload) × (length buf' ≡ 5))
    × ((mp_buf_write payload (8 ∷ 9 ∷ []) 3).0 ≢ ok
        → (mp_buf_write payload (8 ∷ 9 ∷ []) 3).1 ≡ payload)
mp_buf_write_lem_example = mp_buf_write_lem payload (8 ∷ 9 ∷ []) 3 (omega arith)

finish-finish_example : finish (finish sender 1) 2 ≡ finish sender 1
finish-finish_example = finish-finish sender 1 2

rx_consume-Consumed_example :
    Consumed receiver (rx_consume receiver (5 ∷ 0 ∷ 0 ∷ 0 ∷ 2 ∷ 0 ∷ 1 ∷ 2 ∷ []) 8)
rx_consume-Consumed_example =
    rx_consume-Consumed receiver (5 ∷ 0 ∷ 0 ∷ 0 ∷ 2 ∷ 0 ∷ 1 ∷ 2 ∷ []) 8 (omega arith) (omega arith)

-- Cancelled after one commit, and finished twice.
abbrev history : List Call
history = starts ∷ tx_commits ∷ starts ∷ cancels ∷ finishes 1 ∷ finishes 2 ∷ []

calls-IsCounted_example : IsCounted (calls sender history)
calls-IsCounted_example = calls-IsCounted sender history refl refl

-- A data plane that hands out the payload.
abbrev payload_ops : Ops (List ℕ)
payload_ops = record {
  read = λ s size offset. (some (take size (drop offset payload)), s);
  write = λ s src offset. (ok, s);
}

payload_ops-ReadsAtMost : ReadsAtMost payload_ops
payload_ops-ReadsAtMost s size offset bytes e =
    ground (arith, e, length-take size (drop offset payload))

abbrev reader : Engine
reader = record sender { ops = payload_ops }

reader-built : tx_build_ex reader (replicate 8 0) 8 [] ≡ (
  some 8,
  (tx_build_ex reader (replicate 8 0) 8 []).1,
  (tx_build_ex reader (replicate 8 0) 8 []).2,
)
unfolding tx_build_ex
reader-built = refl

tx_build_ex-fits_example :
    (hdr_size w16 ≤ 8)
    × (8 ≤ 8)
    × ((tx_build_ex reader (replicate 8 0) 8 []).2.offset
          + (tx_build_ex reader (replicate 8 0) 8 []).2.last_len
        ≤ (tx_build_ex reader (replicate 8 0) 8 []).2.total)
    × ((tx_build_ex reader (replicate 8 0) 8 []).2.offset ≡ 0)
tx_build_ex-fits_example =
    tx_build_ex-fits reader (replicate 8 0) 8 [] payload_ops-ReadsAtMost (omega arith) (omega arith)
      reader-built
