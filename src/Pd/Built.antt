-- ===== src/Pd/Built.antt =====
-- When a command of the application is built (src/osdp_cp.c: cp_build_command), and how long it is.
use libosdp.Common.{
  ℕ, zero, suc, ◌+◌, ◌-◌, ◌≡◌, ◌≤◌, ◌<◌, refl, sym, ap, ◌∙◌, Bool, true, false, not, ◌||◌, Option,
  none, some, List, [], ◌∷◌, ◌++◌, ltb, ◌==◌, if◌then◌else◌, length, take, arith, take-length,
}
use libosdp.Crypto.{Crypto}
use libosdp.SecureChannel.{compute_scbk}
use libosdp.Device.{Device, sc_is_active}
use libosdp.Cp.{
  Command, output, led, buzzer, text, tdset, comset, mfg, bioread, biomatch, status, keyset,
  file_tx, input_report, output_report, local_report, reader_report,
}
use libosdp.Cp.Online.{translate_cmd}
use libosdp.Cp.Build.{
  payload, within, needs_payload, own_data, handshake_data, after_id, build_command,
  mfg_max_datalen, biomatch_max_template_len, le24,
}
use libosdp.Pd.RoundTrip.{code, translate-code}

-- The length of the data block.
abbrev pub data_len : Command → ℕ
data_len (output n c t) = 4
data_len (led r n t p) = 14
data_len (buzzer r c on off n) = 5
data_len (text r c t row col d) = 6 + length d
data_len (tdset y m d h min s) = 7
data_len (comset a b) = 5
data_len (mfg v d) = 3 + length d
data_len (bioread r t f q) = 4
data_len (biomatch r t f q d) = 6 + length d
data_len (status t) = 0
data_len (keyset t d) = 18
data_len (file_tx id flags) = 0

-- The limits on the data.
abbrev pub IsBuildable : Command → Type 0
IsBuildable (mfg v d) = length d ≤ mfg_max_datalen
IsBuildable (biomatch r t f q d) = length d ≤ biomatch_max_template_len
IsBuildable (keyset t d) = length d ≡ 16
IsBuildable _ = zero ≤ zero

within-fits : (space n : ℕ) (x : List ℕ) → n ≤ space → within space n x ≡ some x
within-fits space n x h =
    let k : ltb space n ≡ false = ground (arith, h) in
    ap (λ (b : Bool). if b then none else some x) k

guarded :
    (b : Bool) (o : Option (List ℕ)) (d : List ℕ)
    → b ≡ false
    → o ≡ some d
    → (if b then none else o) ≡ some d
guarded b o d e h = ap (λ (k : Bool). if k then none else o) e ∙ h

abbrev built_data : Crypto → Device → Bool → Command → ℕ → Option (List ℕ)
built_data c pd has_smb cmd space =
    if needs_payload (code cmd)
    then payload c pd cmd space
    else own_data c pd has_smb (code cmd) space

data-built :
    (c : Crypto) (pd : Device) (has_smb : Bool) (cmd : Command) (space id : ℕ)
    → IsBuildable cmd
    → data_len cmd ≤ space
    → translate_cmd pd cmd ≡ some id
    → (d : List ℕ) × (built_data c pd has_smb cmd space ≡ some d) × (length d ≡ data_len cmd)
unfolding code needs_payload payload own_data handshake_data translate_cmd
data-built c pd has_smb (output n k t) space id b h e = (_, within-fits space _ _ h, refl)
data-built c pd has_smb (led r n t p) space id b h e = (_, within-fits space _ _ h, refl)
data-built c pd has_smb (buzzer r k on off n) space id b h e = (_, within-fits space _ _ h, refl)
data-built c pd has_smb (text r k t row col d) space id b h e =
    (_, within-fits space _ _ h, omega arith)
data-built c pd has_smb (tdset y m d hr min s) space id b h e = (_, within-fits space _ _ h, refl)
data-built c pd has_smb (comset a bd) space id b h e = (_, within-fits space _ _ h, refl)
data-built c pd has_smb (mfg v d) space id b h e =
    (le24 v ++ d, guarded _ _ _ (ground (arith, b)) (within-fits space _ _ h), omega arith)
data-built c pd has_smb (bioread r t f q) space id b h e = (_, within-fits space _ _ h, refl)
data-built c pd has_smb (biomatch r t f q d) space id b h e =
    (_, guarded _ _ _ (ground (arith, b)) (within-fits space _ _ h), omega arith)
data-built c pd has_smb (status input_report) space id b h e = ([], refl, refl)
data-built c pd has_smb (status output_report) space id b h e = ([], refl, refl)
data-built c pd has_smb (status local_report) space id b h e = ([], refl, refl)
data-built c pd has_smb (status reader_report) space id b h e = ([], refl, refl)
data-built c pd has_smb (keyset t d) space id b h e =
    let on : (not (sc_is_active pd) || not (length d == 16)) ≡ false = ground (arith, b, e) in
    let room : ltb space 18 ≡ false = ground (arith, h) in
    let scbk : (t == 1) ≡ true = ground (arith, e) in
    (
      1 ∷ 16 ∷ take 16 d,
      guarded _ _ _ on (
          guarded _ _ _ room (
            ap
              (λ (f : Bool).
                if f
                then some (1 ∷ 16 ∷ take 16 d)
                else if t == 0
                then some (1 ∷ 16 ∷ compute_scbk c pd d)
                else none)
              scbk)),
      ap (λ (x : List ℕ). suc (suc (length x))) (ap (λ (n : ℕ). take n d) (sym b) ∙ take-length d)
          ∙ omega (arith, b),
    )
data-built c pd has_smb (file_tx i f) space id b h e = ground (arith, e)

-- A command that is translated, whose data are within their limits, is built whenever its ID and its data
-- fit in the space that is given, and is as long as these.
pub build_command-builds :
    (c : Crypto) (pd : Device) (has_smb : Bool) (cmd : Command) (id max_len : ℕ)
    → IsBuildable cmd
    → data_len cmd < max_len
    → translate_cmd pd cmd ≡ some id
    → (bytes : List ℕ) × (build_command c pd has_smb id (some cmd) max_len ≡ some bytes)
      × (length bytes ≡ 1 + data_len cmd)
unfolding build_command
build_command-builds c pd has_smb cmd id max_len b h t =
    let k : id ≡ code cmd = translate-code pd cmd id t in
    let (d, e, n) = data-built c pd has_smb cmd (max_len - 1) id b (omega arith) t in
    let room : (max_len == 0) ≡ false = ground (arith, h) in
    (
      id ∷ d,
      guarded _ _ _ room (
          ap (after_id id) (
            ap
              (λ (x : ℕ).
                if needs_payload x
                then payload c pd cmd (max_len - 1)
                else own_data c pd has_smb x (max_len - 1))
              k
            ∙ e)),
      omega (arith, n),
    )
