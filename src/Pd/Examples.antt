-- ===== src/Pd/Examples.antt =====
-- Concrete runs of the PD of src/osdp_pd.c, some with a command or a handshake of the control panel.
use libosdp.Common.{
  ℕ, ◌+◌, ◌++◌, ◌≡◌, refl, some, List, [], ◌∷◌, length, drop, arith, pos, true, replicate,
}
use libosdp.Bytes.{byte_at}
use libosdp.Crypto.{Crypto, IsBlockCipher}
use libosdp.SecureChannel.{verify_cp_cryptogram, ct_compare}
use libosdp.Device.{Device, sc_is_active, cmd_scrypt}
use libosdp.Device.Sample.{sample_cp}
use libosdp.Cp.{Command, output, text}
use libosdp.Cp.Online.{translate_cmd}
use libosdp.Cp.Build.{build_command}
use libosdp.Pd.{read_commands}
use libosdp.Pd.Event.{keypress}
use libosdp.Pd.Peripheral.{Peripheral, submit_event}
use libosdp.Pd.Update.{flush_events, update}
use libosdp.Pd.Sample.{sample_peripheral, plain_cipher, taking_app, idle_engines}
use libosdp.Pd.Dispatch.{PdErr, pd_err_none, run_records, cmd_cap_ok, capable}
use libosdp.Pd.Decode.{
  decode_command, on_id, on_library_id, on_scrypt, refuse_undecoded, verify_scrypt,
}
use libosdp.Pd.Reply.{draft_rmac_i}
use libosdp.Pd.Records.{Delivers, run_records-Delivers}
use libosdp.Pd.Handshake.Agreement.{Handshake, SameSession, Handshake-SameSession}
use libosdp.Pd.Handshake.Replay.{ended, scrypt_replayed}
use libosdp.Pd.Ledger.{waiting, events_of}
use libosdp.Pd.Ledger.Runs.{here, passes, submits, flushes, Run-accounted}
use libosdp.Pd.RoundTrip.{read_commands-build_command}
use libosdp.Pd.Built.{build_command-builds, data_len}

abbrev no_cipher : Crypto
no_cipher = record {
  encrypt = λ key iv data'. data';
  decrypt = λ key iv data'. data';
  fill_random = λ n. [];
}

abbrev greeting : Command
greeting = text 0 1 0 1 1 (72 ∷ 105 ∷ [])

read_commands-build_command_example :
    (byte_at (0x68 ∷ 2 ∷ 5 ∷ 44 ∷ 1 ∷ []) 0 ≡ 0x68)
    × (read_commands 0x68 (drop 1 (0x68 ∷ 2 ∷ 5 ∷ 44 ∷ 1 ∷ [])) ≡ some (output 2 5 300 ∷ []))
unfolding translate_cmd build_command
read_commands-build_command_example =
    read_commands-build_command no_cipher sample_cp true (output 2 5 300) 0x68 20
      (0x68 ∷ 2 ∷ 5 ∷ 44 ∷ 1 ∷ []) (omega arith) refl refl

build_command-builds_example :
    (bytes : List ℕ) × (build_command no_cipher sample_cp true 0x6B (some greeting) 32 ≡ some bytes)
    × (length bytes ≡ 1 + data_len greeting)
unfolding translate_cmd
build_command-builds_example =
    build_command-builds no_cipher sample_cp true greeting 0x6B 32 (omega arith) (omega arith) refl

-- The key 1 is pressed, the queue is flushed, and a pass finds no packet.
abbrev pressed : Peripheral ℕ
pressed = (submit_event sample_peripheral (keypress 0 (49 ∷ []))).1

abbrev cleared : Peripheral ℕ
cleared = (flush_events pressed).1

abbrev passed : Peripheral ℕ
passed = update (λ bytes. 0) plain_cipher idle_engines taking_app 5 cleared [] (pos 0)

Run-accounted_example :
    passed.accepted
    ≡ events_of passed.completed ++ (waiting passed.active_event ++ passed.event_queue)
unfolding submit_event flush_events
Run-accounted_example =
    Run-accounted (λ bytes. 0) plain_cipher idle_engines taking_app sample_peripheral passed
      (record {
        gives_back = refl;
        no_event = refl;
        none_completed = refl;
        none_active = refl;
        none_queued = refl;
      })
      (passes 5 [] (pos 0) (flushes refl (submits (keypress 0 (49 ∷ [])) here)))

-- A PD that got CMD_OUT for its two outputs.
abbrev ordered : Peripheral ℕ
ordered = record sample_peripheral { dev = record sample_peripheral.dev { cmd_id = 0x68 } }

run_records-Delivers_example :
    Delivers taking_app ordered
      (output 0 2 0 ∷ output 1 1 0 ∷ [])
      []
      (run_records taking_app ordered (output 0 2 0 ∷ output 1 1 0 ∷ []))
run_records-Delivers_example =
    run_records-Delivers taking_app (output 0 2 0 ∷ output 1 1 0 ∷ []) ordered

plain-IsBlockCipher : IsBlockCipher plain_cipher
plain-IsBlockCipher = record { length-block = λ key d h. h; length-random = refl }

Handshake-SameSession_example :
    (a' : Device) × (p' : Peripheral ℕ) × Handshake
      (λ bytes. 0)
      plain_cipher
      idle_engines
      taking_app
      7
      100
      sample_cp
      a'
      sample_peripheral
      p'
    × SameSession a' p'.dev
    × (sc_is_active p'.dev ≡ true)
Handshake-SameSession_example =
    Handshake-SameSession (λ bytes. 0) plain_cipher idle_engines taking_app 7 100 sample_cp
      sample_peripheral plain-IsBlockCipher (omega arith) refl refl refl refl refl

-- The cryptogram of a control panel under a cipher that changes nothing.
abbrev cryptogram : List ℕ
cryptogram = replicate 8 8 ++ replicate 8 7

abbrev over : Peripheral ℕ
over = ended (λ bytes. 0) plain_cipher idle_engines taking_app sample_peripheral cryptogram 100 7

abbrev decoded : Peripheral ℕ → PdErr × Peripheral ℕ
decoded p = decode_command taking_app (λ bytes. 0) plain_cipher idle_engines p cmd_scrypt cryptogram

scrypt_took : (decoded sample_peripheral).0 ≡ pd_err_none
unfolding decode_command on_id on_library_id on_scrypt cmd_cap_ok capable refuse_undecoded
    verify_scrypt verify_cp_cryptogram ct_compare
scrypt_took = refl

scrypt_replayed_example :
    ((decoded over).0 ≡ pd_err_none)
    × ((draft_rmac_i plain_cipher taking_app (decoded over).1 true 100 9).0
        ≡ (draft_rmac_i plain_cipher taking_app (decoded sample_peripheral).1 true 100 7).0)
    × ((draft_rmac_i plain_cipher taking_app (decoded over).1 true 100 9).1.dev.sc
        ≡ (draft_rmac_i plain_cipher taking_app (decoded sample_peripheral).1 true 100 7).1.dev.sc)
scrypt_replayed_example =
    scrypt_replayed (λ bytes. 0) plain_cipher idle_engines taking_app sample_peripheral cryptogram
      100 7 (omega arith) scrypt_took 9

-- A PD that enforces security gets CMD_OUT in the clear.
abbrev strict : Peripheral ℕ
strict = record sample_peripheral {
  dev = record sample_peripheral.dev {
    flags = record sample_peripheral.dev.flags { enforce_secure = true };
  };
}
