-- ===== src/Pd/RoundTrip.antt =====
-- What the control panel writes (src/osdp_cp.c: cp_build_command), the device reads (src/osdp_pd.c:
-- pd_decode_command).
use libosdp.Common.{
  ℕ, zero, ◌+◌, ◌-◌, ◌*◌, ◌≡◌, ◌≤◌, ◌<◌, refl, sym, ap, ap₂, ◌∙◌, Bool, Bool-cases, true, false,
  not, ◌||◌, Option, none, some, List, [], ◌∷◌, ◌++◌, take-length, ltb, leb, ◌==◌, if◌then◌else◌,
  length, take, drop, u8, u16, u32, arith, inl, inr,
}
use libosdp.Bytes.{
  byte_0, byte_1, byte_2, byte_3, byte_at, bread_u16_le, bread_u24_le, bread_u32_le,
}
use libosdp.Crypto.{Crypto}
use libosdp.SecureChannel.{compute_scbk}
use libosdp.Device.{Device, sc_is_active}
use libosdp.Cp.{
  Command, output, led, buzzer, text, tdset, comset, mfg, bioread, biomatch, status, keyset,
  file_tx, LedParams, StatusType, input_report, output_report, local_report, reader_report,
}
use libosdp.Cp.Online.{translate_cmd, status_cmd}
use libosdp.Cp.Build.{
  payload, needs_payload, own_data, handshake_data, after_id, build_command, within, led_bytes,
  le16, le24, le32, text_max_len, mfg_max_datalen, biomatch_max_template_len,
}
use libosdp.Pd.{
  read_commands, read_text, read_mfg, read_bioread, read_biomatch, read_status, read_keyset,
}

-- The fields fit their types, and the device takes the length, the address and the kind of key. The permanent
-- parameters of an LED have no timer count on the wire: it is 0.
abbrev pub IsSendable : Command → Type 0
IsSendable (output n c t) = t < 65536
IsSendable (led r n t p) =
    (t.on_color < 256)
    × (t.off_color < 256)
    × (t.timer_count < 65536)
    × (p.on_color < 256)
    × (p.off_color < 256)
    × (p.timer_count ≡ 0)
IsSendable (text r c t row col d) = length d ≤ text_max_len
IsSendable (tdset y m d h min s) = y < 65536
IsSendable (comset a b) = (a < 127) × (b < 4294967296)
IsSendable (mfg v d) = v < 16777216
IsSendable (keyset t d) = t ≡ 1
IsSendable _ = zero ≤ zero

-- A test that fails leaves the other branch.
otherwise {ℓ} : {A : Type ℓ} (b : Bool) (x y z : A) → b ≡ false → y ≡ z → (if b then x else y) ≡ z
otherwise b x y z e h = ap (λ (k : Bool). if k then x else y) e ∙ h

within-some : (space n : ℕ) (x d : List ℕ) → within space n x ≡ some d → d ≡ x
within-some space n x d e = elim (Bool-cases (ltb space n)) [
  | inl k ↦ ground (arith, k, e)
  | inr k ↦ ground (arith, k, e)
]

le16-read : (t : ℕ) → t < 65536 → u16 (byte_0 t + byte_1 t * 256) ≡ t
le16-read t h = omega arith

le24-read : (t : ℕ) → t < 16777216 → byte_0 t + byte_1 t * 256 + byte_2 t * 65536 ≡ t
le24-read t h = omega arith

le32-read :
    (t : ℕ)
    → t < 4294967296
    → u32 (byte_0 t + byte_1 t * 256 + byte_2 t * 65536 + byte_3 t * 16777216) ≡ t
le32-read t h = omega arith

output-read :
    (n c t : ℕ) → t < 65536 → read_commands 0x68 (n ∷ c ∷ le16 t) ≡ some (output n c t ∷ [])
unfolding read_commands bread_u16_le
output-read n c t h = ap (λ (x : ℕ). some (output n c x ∷ [])) (le16-read t h)

led_params-read :
    (t : LedParams) (timer : ℕ)
    → t.on_color < 256
    → t.off_color < 256
    → timer ≡ t.timer_count
    → record t { on_color = u8 t.on_color; off_color = u8 t.off_color; timer_count = timer } ≡ t
led_params-read t timer a b e =
    let x : u8 t.on_color ≡ t.on_color = omega arith in
    let y : u8 t.off_color ≡ t.off_color = omega arith in
    ap (λ (k : ℕ). record t { on_color = k; off_color = u8 t.off_color; timer_count = timer }) x
    ∙ (ap (λ (k : ℕ). record t { off_color = k; timer_count = timer }) y
        ∙ ap (λ (k : ℕ). record t { timer_count = k }) e)

led-read :
    (r n : ℕ) (t p : LedParams)
    → IsSendable (led r n t p)
    → read_commands 0x69
        (r ∷ n ∷ led_bytes t (byte_0 t.timer_count ∷ byte_1 t.timer_count ∷ led_bytes p []))
      ≡ some (led r n t p ∷ [])
unfolding read_commands bread_u16_le
led-read r n t p (a, b, k, x, y, z) =
    ap₂ (λ (u v : LedParams). some (led r n u v ∷ []))
      (led_params-read t (u16 (byte_0 t.timer_count + byte_1 t.timer_count * 256)) a b
        (le16-read t.timer_count k))
      (led_params-read p 0 x y (sym z))

tdset-read :
    (y m d h n s : ℕ)
    → y < 65536
    → read_commands 0x6D (byte_0 y ∷ byte_1 y ∷ m ∷ d ∷ h ∷ n ∷ s ∷ [])
      ≡ some (tdset y m d h n s ∷ [])
unfolding read_commands bread_u16_le
tdset-read y m d h n s k = ap (λ (x : ℕ). some (tdset x m d h n s ∷ [])) (le16-read y k)

comset-read :
    (a b : ℕ) → a < 127 → b < 4294967296 → read_commands 0x6E (a ∷ le32 b) ≡ some (comset a b ∷ [])
unfolding read_commands bread_u32_le
comset-read a b h k =
    let e : leb 127 a ≡ false = ground (arith, h) in
    rw e (ap (λ (x : ℕ). some (comset a x ∷ [])) (le32-read b k))

text-read :
    (r c t row col : ℕ) (d : List ℕ)
    → length d ≤ text_max_len
    → read_commands 0x6B (r ∷ c ∷ t ∷ row ∷ col ∷ length d ∷ d) ≡ some (text r c t row col d ∷ [])
unfolding read_commands read_text
text-read r c t row col d h =
    otherwise _ none _ _ (ground (arith, h))
      (ap (λ (x : List ℕ). some (text r c t row col x ∷ [])) (take-length d))

mfg-read :
    (v : ℕ) (d : List ℕ)
    → v < 16777216
    → ltb mfg_max_datalen (length d) ≡ false
    → read_commands 0x80 (le24 v ++ d) ≡ some (mfg v d ∷ [])
unfolding read_commands bread_u24_le read_mfg
mfg-read v d h k = otherwise _ none _ _ (ground (arith, k)) (
    ap₂ (λ (w : ℕ) (x : List ℕ). some (mfg w x ∷ [])) (le24-read v h)
      (ap (λ (n : ℕ). take n d) (omega arith) ∙ take-length d))

biomatch-read :
    (r t f q : ℕ) (d : List ℕ)
    → ltb biomatch_max_template_len (length d) ≡ false
    → read_commands 0x74 (r ∷ t ∷ f ∷ q ∷ byte_0 (length d) ∷ byte_1 (length d) ∷ d)
      ≡ some (biomatch r t f q d ∷ [])
unfolding read_commands bread_u16_le read_biomatch
biomatch-read r t f q d k =
    let e : u16 (byte_0 (length d) + byte_1 (length d) * 256) ≡ length d =
      le16-read (length d) (ground (arith, k)) in
    otherwise _ none _ _ (ground (arith, k, e)) (
      ap (λ (x : List ℕ). some (biomatch r t f q x ∷ []))
        (ap (λ (n : ℕ). take n d) e ∙ take-length d))

keyset-read :
    (d : List ℕ) → length d ≡ 16 → read_commands 0x75 (1 ∷ 16 ∷ take 16 d) ≡ some (keyset 1 d ∷ [])
unfolding read_commands read_keyset
keyset-read d h =
    let e : take 16 d ≡ d = ap (λ (n : ℕ). take n d) (sym h) ∙ take-length d in
    rw e (otherwise _ none _ _ (ground (arith, h)) (ap (λ (x : List ℕ). some (keyset 1 x ∷ [])) e))

-- The ID of a command that is translated.
unfoldable pub code : Command → ℕ
code (output n c t) = 0x68
code (led r n t p) = 0x69
code (buzzer r c on off n) = 0x6A
code (text r c t row col d) = 0x6B
code (tdset y m d h min s) = 0x6D
code (comset a b) = 0x6E
code (mfg v d) = 0x80
code (bioread r t f q) = 0x73
code (biomatch r t f q d) = 0x74
code (status t) = status_cmd t
code (keyset t d) = 0x75
code (file_tx id flags) = 0

some-inj : (a b : ℕ) → some a ≡ some b → b ≡ a
some-inj a b e = ground (arith, e)

pub translate-code :
    (pd : Device) (cmd : Command) (id : ℕ) → translate_cmd pd cmd ≡ some id → id ≡ code cmd
unfolding translate_cmd code
translate-code pd (output n c t) id e = some-inj _ id e
translate-code pd (led r n t p) id e = some-inj _ id e
translate-code pd (buzzer r c on off n) id e = some-inj _ id e
translate-code pd (text r c t row col d) id e = some-inj _ id e
translate-code pd (tdset y m d h min s) id e = some-inj _ id e
translate-code pd (comset a b) id e = some-inj _ id e
translate-code pd (mfg v d) id e = some-inj _ id e
translate-code pd (bioread r t f q) id e = some-inj _ id e
translate-code pd (biomatch r t f q d) id e = some-inj _ id e
translate-code pd (status t) id e = some-inj _ id e
translate-code pd (keyset t d) id e = ground (arith, e)
translate-code pd (file_tx i flags) id e = ground (arith, e)

given :
    (x d : List ℕ) (id : ℕ) (r : Option (List Command))
    → d ≡ x
    → read_commands id x ≡ r
    → read_commands id d ≡ r
given x d id r e h = ap (read_commands id) e ∙ h

buzzer-read :
    (r k on off n : ℕ)
    → read_commands 0x6A (r ∷ k ∷ on ∷ off ∷ n ∷ []) ≡ some (buzzer r k on off n ∷ [])
unfolding read_commands
buzzer-read r k on off n = refl

bioread-read : (r t f q : ℕ) → read_commands 0x73 (r ∷ t ∷ f ∷ q ∷ []) ≡ some (bioread r t f q ∷ [])
unfolding read_commands read_bioread
bioread-read r t f q = refl

status-read : (t : StatusType) → read_commands (status_cmd t) [] ≡ some (status t ∷ [])
unfolding read_commands read_status
status-read input_report = refl
status-read output_report = refl
status-read local_report = refl
status-read reader_report = refl

some-list : (a b : List ℕ) → some a ≡ some b → b ≡ a
some-list a b e = ground (arith, e)

-- A guard that was passed.
passed :
    (b : Bool) (o : Option (List ℕ)) (d : List ℕ)
    → (if b then none else o) ≡ some d
    → (b ≡ false) × (o ≡ some d)
passed true o d e = ground (arith, e)
passed false o d e = (refl, e)

-- The data of a command, as the device reads it.
payload-read :
    (c : Crypto) (pd : Device) (cmd : Command) (space : ℕ) (d : List ℕ)
    → IsSendable cmd
    → payload c pd cmd space ≡ some d
    → read_commands (code cmd) d ≡ some (cmd ∷ [])
unfolding payload code
payload-read c pd (output n k t) space d h e =
    given _ d _ _ (within-some space _ _ d e) (output-read n k t h)
payload-read c pd (led r n t p) space d h e =
    given _ d _ _ (within-some space _ _ d e) (led-read r n t p h)
payload-read c pd (buzzer r k on off n) space d h e =
    given _ d _ _ (within-some space _ _ d e) (buzzer-read r k on off n)
payload-read c pd (text r k t row col x) space d h e =
    given _ d _ _ (within-some space _ _ d e) (text-read r k t row col x h)
payload-read c pd (tdset y m x k n s) space d h e =
    given _ d _ _ (within-some space _ _ d e) (tdset-read y m x k n s h)
payload-read c pd (comset a b) space d h e =
    given _ d _ _ (within-some space _ _ d e) (comset-read a b h.0 h.1)
payload-read c pd (mfg v x) space d h e =
    let (b, o) = passed (ltb mfg_max_datalen (length x)) _ d e in
    given _ d _ _ (within-some space _ _ d o) (mfg-read v x h b)
payload-read c pd (bioread r t f q) space d h e =
    given _ d _ _ (within-some space _ _ d e) (bioread-read r t f q)
payload-read c pd (biomatch r t f q x) space d h e =
    let (b, o) = passed (ltb biomatch_max_template_len (length x)) _ d e in
    given _ d _ _ (within-some space _ _ d o) (biomatch-read r t f q x b)
payload-read c pd (status t) space d h e = given [] d _ _ (some-list [] d e) (status-read t)
payload-read c pd (keyset t x) space d h e =
    let (b, o) = passed (not (sc_is_active pd) || not (length x == 16)) _ d e in
    let (k, o') = passed (ltb space 18) _ d o in
    let one : (t == 1) ≡ true = ground (arith, h) in
    let is : some (1 ∷ 16 ∷ take 16 x) ≡ some d =
      ap
        (λ (f : Bool).
          if f
          then some (1 ∷ 16 ∷ take 16 x)
          else if t == 0
          then some (1 ∷ 16 ∷ compute_scbk c pd x)
          else none)
        (sym one)
      ∙ o' in
    given _ d _ _ (some-list _ d is)
      (keyset-read x (ground (arith, b)) ∙ ap (λ (u : ℕ). some (keyset u x ∷ [])) (sym h))
payload-read c pd (file_tx id flags) space d h e = ground (arith, e)

-- What was put behind the ID.
after_id-some :
    (id : ℕ) (o : Option (List ℕ)) (bytes : List ℕ)
    → after_id id o ≡ some bytes
    → (byte_at bytes 0 ≡ id) × (o ≡ some (drop 1 bytes))
after_id-some id none bytes e = ground (arith, e)
after_id-some id (some d) bytes e =
    let is : bytes ≡ id ∷ d = some-list (id ∷ d) bytes e in
    (ap (λ (x : List ℕ). byte_at x 0) is, ap (λ (x : List ℕ). some (drop 1 x)) (sym is))

-- The data of a command with the ID it is translated to.
data-read :
    (c : Crypto) (pd : Device) (has_smb : Bool) (cmd : Command) (space : ℕ) (d : List ℕ)
    → IsSendable cmd
    → (if needs_payload (code cmd)
        then payload c pd cmd space
        else own_data c pd has_smb (code cmd) space)
      ≡ some d
    → read_commands (code cmd) d ≡ some (cmd ∷ [])
unfolding code needs_payload own_data handshake_data
data-read c pd has_smb (status input_report) space d h e =
    given [] d _ _ (some-list [] d e) (status-read input_report)
data-read c pd has_smb (status output_report) space d h e =
    given [] d _ _ (some-list [] d e) (status-read output_report)
data-read c pd has_smb (status local_report) space d h e =
    given [] d _ _ (some-list [] d e) (status-read local_report)
data-read c pd has_smb (status reader_report) space d h e =
    given [] d _ _ (some-list [] d e) (status-read reader_report)
data-read c pd has_smb (file_tx i f) space d h e = ground (arith, e)
data-read c pd has_smb (output n k t) space d h e = payload-read c pd (output n k t) space d h e
data-read c pd has_smb (led r n t p) space d h e = payload-read c pd (led r n t p) space d h e
data-read c pd has_smb (buzzer r k on off n) space d h e =
    payload-read c pd (buzzer r k on off n) space d h e
data-read c pd has_smb (text r k t row col x) space d h e =
    payload-read c pd (text r k t row col x) space d h e
data-read c pd has_smb (tdset y m x k n s) space d h e =
    payload-read c pd (tdset y m x k n s) space d h e
data-read c pd has_smb (comset a b) space d h e = payload-read c pd (comset a b) space d h e
data-read c pd has_smb (mfg v x) space d h e = payload-read c pd (mfg v x) space d h e
data-read c pd has_smb (bioread r t f q) space d h e =
    payload-read c pd (bioread r t f q) space d h e
data-read c pd has_smb (biomatch r t f q x) space d h e =
    payload-read c pd (biomatch r t f q x) space d h e
data-read c pd has_smb (keyset t x) space d h e = payload-read c pd (keyset t x) space d h e

-- A command of the application whose fields fit their types, with a text that the device takes, a unit
-- address below 127, a key of type SCBK, and no timer count among the permanent parameters of an LED, if it is built at all under the ID it is translated to, is
-- read by the device as that one command, behind its ID.
pub read_commands-build_command :
    (c : Crypto) (pd : Device) (has_smb : Bool) (cmd : Command) (id max_len : ℕ) (bytes : List ℕ)
    → IsSendable cmd
    → translate_cmd pd cmd ≡ some id
    → build_command c pd has_smb id (some cmd) max_len ≡ some bytes
    → (byte_at bytes 0 ≡ id) × (read_commands id (drop 1 bytes) ≡ some (cmd ∷ []))
unfolding build_command
read_commands-build_command c pd has_smb cmd id max_len bytes h t e =
    let k : id ≡ code cmd = translate-code pd cmd id t in
    let (z, o) = passed (max_len == 0) _ bytes e in
    let (first, rest) = after_id-some id _ bytes o in
    (
      first,
      ap (λ (x : ℕ). read_commands x (drop 1 bytes)) k
          ∙ data-read c pd has_smb cmd (max_len - 1) (drop 1 bytes) h (
              ap
                (λ (x : ℕ).
                  if needs_payload x
                  then payload c pd cmd (max_len - 1)
                  else own_data c pd has_smb x (max_len - 1))
                (sym k)
              ∙ rest),
    )
