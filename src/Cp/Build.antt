-- ===== src/Cp/Build.antt =====
-- The data block of a command as src/osdp_cp.c writes it (cp_build_command), for the commands that are not
-- fragments of a transfer: the bytes after the command's ID, or `none` for an error.
use libosdp.Common.{
  ℕ, ◌+◌, ◌-◌, Bool, not, ◌||◌, ◌&&◌, Option, none, some, List, [], ◌∷◌, ◌++◌, ltb, ◌==◌,
  if◌then◌else◌, length, take, u8,
}
use libosdp.Bytes.{byte_0, byte_1, byte_2, byte_3}
use libosdp.Crypto.{Crypto}
use libosdp.SecureChannel.{compute_scbk, compute_cp_cryptogram}
use libosdp.Device.{
  Device, sc_is_active, packet_buf_size, scs_11, scs_13, cmd_keyset, cmd_chlng, cmd_scrypt,
}
use libosdp.Cp.{
  Command, output, led, buzzer, text, tdset, comset, mfg, bioread, biomatch, status, keyset,
  file_tx, LedParams,
}

-- The fields that bwrite_u16_le, bwrite_u24_le and bwrite_u32_le append.
abbrev pub le16 : ℕ → List ℕ
le16 v = byte_0 v ∷ byte_1 v ∷ []

abbrev pub le24 : ℕ → List ℕ
le24 v = byte_0 v ∷ byte_1 v ∷ byte_2 v ∷ []

abbrev pub le32 : ℕ → List ℕ
le32 v = byte_0 v ∷ byte_1 v ∷ byte_2 v ∷ byte_3 v ∷ []

-- OSDP_CMD_MFG_MAX_DATALEN, OSDP_CMD_BIOMATCH_MAX_TEMPLATE_LEN and OSDP_CMD_TEXT_MAX_LEN
abbrev pub mfg_max_datalen : ℕ
mfg_max_datalen = 64

abbrev pub biomatch_max_template_len : ℕ
biomatch_max_template_len = 128

abbrev pub text_max_len : ℕ
text_max_len = 32

-- The check for space, with the number of bytes that it is about.
abbrev pub within : ℕ → ℕ → List ℕ → Option (List ℕ)
within space n bytes = if ltb space n then none else some bytes

-- A colour is an enumerator, which becomes a byte.
abbrev pub led_bytes : LedParams → List ℕ → List ℕ
led_bytes t rest = t.control_code ∷ t.on_count ∷ t.off_count ∷ u8 t.on_color ∷ u8 t.off_color ∷ rest

-- CMD_KEYSET, for a key of the type SCBK or a master key.
abbrev pub keyset_payload : Crypto → Device → ℕ → List ℕ → ℕ → Option (List ℕ)
keyset_payload c pd t d space =
    if not (sc_is_active pd) || not (length d == 16)
    then none
    else if ltb space 18
    then none
    else if t == 1
    then some (1 ∷ 16 ∷ take 16 d)
    else if t == 0
    then some (1 ∷ 16 ∷ compute_scbk c pd d)
    else none

-- The data of a command of the application in `space` bytes. A status request has none, and a file
-- transfer is not built here.
unfoldable pub payload : Crypto → Device → Command → ℕ → Option (List ℕ)
payload c pd (output n code timer) space = within space 4 (n ∷ code ∷ le16 timer)
payload c pd (led r n t p) space =
    within space 14
      (r ∷ n ∷ led_bytes t (byte_0 t.timer_count ∷ byte_1 t.timer_count ∷ led_bytes p []))
payload c pd (buzzer r code on off n) space = within space 5 (r ∷ code ∷ on ∷ off ∷ n ∷ [])
payload c pd (text r code time row col d) space =
    within space (6 + length d) (r ∷ code ∷ time ∷ row ∷ col ∷ length d ∷ d)
payload c pd (tdset y m d h min s) space =
    within space 7 (byte_0 y ∷ byte_1 y ∷ m ∷ d ∷ h ∷ min ∷ s ∷ [])
payload c pd (comset a b) space = within space 5 (a ∷ le32 b)
payload c pd (mfg v d) space =
    if ltb mfg_max_datalen (length d) then none else within space (3 + length d) (le24 v ++ d)
payload c pd (bioread r t f q) space = within space 4 (r ∷ t ∷ f ∷ q ∷ [])
payload c pd (biomatch r t f q d) space =
    if ltb biomatch_max_template_len (length d)
    then none
    else within space (6 + length d) (r ∷ t ∷ f ∷ q ∷ byte_0 (length d) ∷ byte_1 (length d) ∷ d)
payload c pd (status t) space = some []
payload c pd (keyset t d) space = keyset_payload c pd t d space
payload c pd (file_tx id flags) space = none

-- cmd_needs_payload
unfoldable pub needs_payload : ℕ → Bool
needs_payload id =
    id == 0x68
    || (id == 0x69
        || (id == 0x6A
            || (id == 0x6B
                || (id == 0x6D
                    || (id == 0x6E
                        || (id == 0x80 || (id == 0x73 || (id == 0x74 || id == cmd_keyset))))))))

-- CMD_ACURXSIZE and CMD_KEEPACTIVE
unfoldable pub limits_data : ℕ → ℕ → Option (List ℕ)
limits_data id space = within space 2 (le16 (if id == 0x7B then packet_buf_size else 0))

-- CMD_CHLNG and CMD_SCRYPT. `has_smb` says that the packet has a security block, which they fill in.
unfoldable pub handshake_data : Crypto → Device → Bool → ℕ → ℕ → Option (List ℕ)
handshake_data c pd has_smb id space =
    if id == cmd_chlng
    then (if not has_smb then none else within space 8 (take 8 pd.sc.cp_random))
    else if id == cmd_scrypt
    then (if not has_smb
        then none
        else within space 16 (take 16 (compute_cp_cryptogram c pd).sc.cp_cryptogram))
    else none

-- The commands that the library fills in itself, by their ID.
unfoldable pub own_data : Crypto → Device → Bool → ℕ → ℕ → Option (List ℕ)
unfolding limits_data handshake_data
own_data c pd has_smb id space =
    if id == 0x60 || (id == 0x64 || (id == 0x65 || (id == 0x66 || (id == 0x67 || id == 0xA2))))
    then some []
    else if id == 0x61 || id == 0x62
    then within space 1 (0 ∷ [])
    else if id == 0x7B || id == 0xA7
    then limits_data id space
    else handshake_data c pd has_smb id space

-- What CMD_CHLNG and CMD_SCRYPT do beside: the security block that they write, and the device with the
-- cryptogram of the control panel.
unfoldable pub own_effect : Crypto → Device → Bool → ℕ → ℕ → List ℕ × Device
own_effect c pd has_smb id space =
    let key = if pd.flags.sc_use_scbkd then 0 else 1 in
    if has_smb && (id == cmd_chlng && not (ltb space 8))
    then (3 ∷ scs_11 ∷ key ∷ [], pd)
    else if has_smb && (id == cmd_scrypt && not (ltb space 16))
    then (3 ∷ scs_13 ∷ key ∷ [], compute_cp_cryptogram c pd)
    else ([], pd)

abbrev pub given_data : Crypto → Device → Option Command → ℕ → Option (List ℕ)
given_data c pd none space = none
given_data c pd (some cmd) space = payload c pd cmd space

abbrev pub after_id : ℕ → Option (List ℕ) → Option (List ℕ)
after_id id none = none
after_id id (some d) = some (id ∷ d)

-- The command with its ID in `max_len` bytes. Once a command of the handshake is built, the packet and the
-- device are those of `own_effect`.
unfoldable pub build_command : Crypto → Device → Bool → ℕ → Option Command → ℕ → Option (List ℕ)
unfolding payload needs_payload own_data
build_command c pd has_smb id cmd max_len =
    if max_len == 0
    then none
    else after_id id (
        if needs_payload id
        then given_data c pd cmd (max_len - 1)
        else own_data c pd has_smb id (max_len - 1))
