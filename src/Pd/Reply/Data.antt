-- ===== src/Pd/Reply/Data.antt =====
-- The data of the replies that pd_build_reply of src/osdp_pd.c writes from an event, the identity and the capabilities.
use libosdp.Common.{
  ℕ, ◌+◌, ◌-◌, ◌/◌, Bool, true, false, not, ◌||◌, Option, none, some, List, [], ◌∷◌, ◌++◌, ltb,
  ◌==◌, if◌then◌else◌, length, take, u8,
}
use libosdp.Bytes.{byte_0, byte_1, byte_2}
use libosdp.Cp.Build.{le16, le24, le32}
use libosdp.Pd.Event.{
  Event, CardFormat, raw_unspecified, raw_wiegand, fmt_ascii, fmt_other, cardread, keypress, mfgrep,
  status_event, mfgstatr, mfgerrr, bioreadr, biomatchr, translate_event,
}
use libosdp.Pd.Peripheral.{Peripheral}
use libosdp.Pd.Status.{status_bytes}

-- The enumerator of a card format.
abbrev pub format_code : CardFormat → ℕ
format_code raw_unspecified = 0
format_code raw_wiegand = 1
format_code fmt_ascii = 2
format_code fmt_other = 3

abbrev pub is_status_reply : ℕ → Bool
is_status_reply id = (id == 0x48 || id == 0x49) || (id == 0x4A || id == 0x4B)

-- Whether reply_backing_event_type gives an event type for the reply.
unfoldable pub needs_event : ℕ → Bool
needs_event id =
    is_status_reply id
    || ((id == 0x53 || (id == 0x50 || id == 0x90))
        || ((id == 0x83 || id == 0x84) || (id == 0x57 || id == 0x58)))

-- Whether the event has that type.
unfoldable pub is_backing : ℕ → Event → Bool
is_backing id (status_event t r) = is_status_reply id
is_backing id ev = id == translate_event ev

abbrev pub is_bioreadr : Option Event → Bool
is_bioreadr (some (bioreadr r s t q d)) = true
is_bioreadr _ = false

-- The event, if `fits` holds of it.
abbrev pub fitting : (Event → Bool) → Option Event → Option Event
fitting fits none = none
fitting fits (some ev) = if fits ev then some ev else none

-- The data in `max_len` bytes.
abbrev pub fit : ℕ → ℕ → List ℕ → Option (List ℕ)
fit max_len n bytes = if ltb max_len n then none else some bytes

abbrev pub nonempty : List ℕ → Option (List ℕ)
nonempty [] = none
nonempty (b ∷ bs) = some (b ∷ bs)

-- OSDP_EVENT_BIOREADR_MAX_TEMPLATE_LEN
abbrev pub bioreadr_max_template_len : ℕ
bioreadr_max_template_len = 256

-- The codes below OSDP_PD_CAP_SENTINEL, from 1 on.
abbrev pub cap_codes : List ℕ
cap_codes = 1 ∷ 2 ∷ 3 ∷ 4 ∷ 5 ∷ 6 ∷ 7 ∷ 8 ∷ 9 ∷ 10 ∷ 11 ∷ 12 ∷ 13 ∷ 14 ∷ 15 ∷ 16 ∷ []

module _ {E : Type 0} where
  -- The data of a reply that an event backs. The arrays of the event hold at least as many bytes as the
  -- lengths beside them count.
  unfoldable pub event_bytes : Peripheral E → ℕ → ℕ → Event → Option (List ℕ)
  unfolding status_bytes
  event_bytes p id max_len (status_event t r) = status_bytes p id r max_len
  event_bytes p id max_len (keypress r d) = fit max_len (2 + length d) (u8 r ∷ u8 (length d) ∷ d)
  event_bytes p id max_len (cardread r f n d) =
      let bytes = (n + 7) / 8 in
      fit max_len (4 + bytes) (u8 r ∷ format_code f ∷ (le16 n ++ take bytes d))
  event_bytes p id max_len (mfgrep v d) = fit max_len (3 + length d) (le24 v ++ d)
  event_bytes p id max_len (mfgstatr d) = fit max_len (length d) d
  event_bytes p id max_len (mfgerrr d) = fit max_len (length d) d
  event_bytes p id max_len (bioreadr r s t q d) =
      if ltb bioreadr_max_template_len (length d)
      then none
      else fit max_len (6 + length d) (r ∷ u8 s ∷ u8 t ∷ q ∷ (le16 (length d) ++ d))
  event_bytes p id max_len (biomatchr r s k) = fit max_len 3 (r ∷ u8 s ∷ k ∷ [])
  event_bytes p id max_len _ = none

  -- No event, no data: an engine's fragment that continues without one is not built here.
  abbrev pub backed_bytes : Peripheral E → ℕ → ℕ → Option Event → Option (List ℕ)
  backed_bytes p id max_len none = none
  backed_bytes p id max_len (some ev) = event_bytes p id max_len ev

  -- REPLY_PDID
  abbrev pub id_bytes : Peripheral E → List ℕ
  id_bytes p =
      le24 p.dev.id.vendor_code
      ++ (u8 p.dev.id.model
          ∷ u8 p.dev.id.version
          ∷ (le32 p.dev.id.serial_number
              ++ (byte_2 p.firmware_version
                  ∷ byte_1 p.firmware_version
                  ∷ byte_0 p.firmware_version
                  ∷ [])))

  -- REPLY_PDCAP: the capabilities from code `i` on, as far as there is space.
  unfoldable pub cap_bytes : Peripheral E → List ℕ → ℕ → List ℕ
  cap_bytes p [] max_len = []
  cap_bytes p (i ∷ is) max_len =
      let entity = p.caps i in
      let rest = cap_bytes p is (if entity.function_code == i then max_len - 3 else max_len) in
      if not (entity.function_code == i)
      then rest
      else if ltb max_len 3
      then []
      else i ∷ u8 entity.compliance_level ∷ u8 entity.num_items ∷ rest
