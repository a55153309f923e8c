-- ===== src/Records/Validate.antt =====
-- `validate_log` and `valid_log_record` of components/sniffer_core/records.cpp, and `grade` of
-- parsers.cpp.
use surveillance_hound.Common.{
  ℕ, zero, suc, ◌+◌, ◌-◌, Bool, true, false, not, ◌&&◌, ◌||◌, Option, none, some, List, [], ◌∷◌,
  ◌++◌, leb, ◌==◌, if◌then◌else◌, length, take, drop, byte_at, all, list_eq, ◌>>=◌,
}
use surveillance_hound.Common.Int.{ℤ, pos, negsuc, ltb_ℤ}
use surveillance_hound.Core.Text.{codes}
use surveillance_hound.Json.{
  Reader, token, object, array, boolean, type_eq, parse, member, integer, string_of, raw,
}
use surveillance_hound.Utilities.{parse_utc}

abbrev pub grade : ℕ → List ℕ
grade score =
    if leb 80 score
    then codes "high"
    else if leb 50 score
    then codes "medium"
    else if leb 20 score
    then codes "low"
    else codes "informational"

unfoldable pub one_of : List (List ℕ) → List ℕ → Bool
one_of [] s = false
one_of (w ∷ ws) s = list_eq w s || one_of ws s

abbrev pub categories : List (List ℕ)
categories =
    codes "FLOCK"
    ∷ codes "AXON"
    ∷ codes "GLASSES"
    ∷ codes "SKIMMER"
    ∷ codes "RAVEN"
    ∷ codes "AIRTAG"
    ∷ codes "TILE"
    ∷ codes "SAMSUNG_TAG"
    ∷ codes "GOOGLE_TAG"
    ∷ codes "DRONE"
    ∷ codes "ALPR"
    ∷ codes "CAMERA"
    ∷ codes "RING"
    ∷ codes "IBEACON"
    ∷ codes "FLIPPER"
    ∷ codes "PWNAGOTCHI"
    ∷ codes "PINEAPPLE"
    ∷ codes "DEAUTH"
    ∷ codes "EVIL_TWIN"
    ∷ []

abbrev pub is_lower_hex : ℕ → Bool
is_lower_hex c = (leb b'0' c && leb c b'9') || (leb b'a' c && leb c b'f')

abbrev pub is_base32 : ℕ → Bool
is_base32 c = (leb b'A' c && leb c b'Z') || (leb b'2' c && leb c b'7')

abbrev pub is_rule_char : ℕ → Bool
is_rule_char c =
    (leb b'a' c && leb c b'z') || (leb b'0' c && leb c b'9') || (c == b'_') || (c == b'.')

-- The text of a string that is read, tested; none fails.
abbrev pub passes : (List ℕ → Bool) → Option (List ℕ) → Bool
passes test none = false
passes test (some s) = test s

abbrev pub within : ℤ → ℤ → Option ℤ → Bool
within lo hi none = false
within lo hi (some n) = not (ltb_ℤ n lo) && not (ltb_ℤ hi n)

abbrev pub ordered : Option ℤ → Option ℤ → Bool
ordered (some a) (some b) = not (ltb_ℤ b a)
ordered none b = false
ordered (some a) none = false

-- yyyy-mm-ddThh:mm:ssZ
unfoldable pub is_utc : List ℕ → Bool
is_utc utc =
    (length utc == 20)
    && (byte_at utc 4 == b'-')
    && (byte_at utc 7 == b'-')
    && (byte_at utc 10 == b'T')
    && (byte_at utc 13 == b':')
    && (byte_at utc 16 == b':')
    && (byte_at utc 19 == b'Z')
    && elim (parse_utc (
          take 4 utc
          ++ (take 2 (drop 5 utc)
              ++ (take 2 (drop 8 utc) ++ (take 2 (drop 11 utc) ++ take 2 (drop 14 utc))))))
        as (λ o. Bool) [ none ↦ false | some n ↦ true ]
    && leb b'0' (byte_at utc 17)
    && leb (byte_at utc 17) b'5'
    && leb b'0' (byte_at utc 18)
    && leb (byte_at utc 18) b'9'

module _ (line : List ℕ) (j : Reader) where
  -- str(key, out), where `out` has `size` characters.
  unfoldable pub str : List ℕ → ℕ → Option (List ℕ)
  str key size = do t ← member line j (some 0) key; string_of line j t size

  unfoldable pub number : List ℕ → Option ℤ
  number key = integer line j (member line j (some 0) key)

  unfoldable pub all_filled : List (List ℕ) → Bool
  unfolding str
  all_filled [] = true
  all_filled (key ∷ keys) = passes (λ s. not (byte_at s 0 == 0)) (str key 160) && all_filled keys

  unfoldable pub numbers_ok : Bool
  unfolding number
  numbers_ok =
      within (pos 1) (pos 1) (number (codes "schema_version"))
      && within (pos 1) (pos 100) (number (codes "score"))
      && within (pos 1) (pos 0xffffffff) (number (codes "seen_count"))
      && within (pos 0) (pos 14) (number (codes "channel"))
      && within (pos 0) (pos 9007199254740991) (number (codes "first_seen_ms"))
      && within (pos 0) (pos 9007199254740991) (number (codes "uptime_ms"))
      && ordered (number (codes "first_seen_ms")) (number (codes "uptime_ms"))
      && within (negsuc 126) (pos 20) (number (codes "rssi_min"))
      && within (negsuc 126) (pos 20) (number (codes "rssi_max"))
      && within (negsuc 126) (pos 20) (number (codes "rssi_avg"))
      && ordered (number (codes "rssi_min")) (number (codes "rssi_avg"))
      && ordered (number (codes "rssi_avg")) (number (codes "rssi_max"))

  unfoldable pub grade_of : Option ℤ → List ℕ
  grade_of none = []
  grade_of (some (negsuc n)) = []
  grade_of (some (pos n)) = grade n

  unfoldable pub choices_ok : Bool
  unfolding str one_of
  choices_ok =
      passes (one_of (codes "wifi" ∷ codes "ble" ∷ [])) (str (codes "radio") 160)
      && passes (one_of (codes "US" ∷ codes "EU" ∷ [])) (str (codes "region") 160)
      && passes (one_of (codes "private" ∷ codes "research" ∷ [])) (str (codes "privacy_mode") 160)
      && passes (one_of (codes "public" ∷ codes "random" ∷ [])) (str (codes "address_type") 160)
      && passes (one_of (codes "uptime_only" ∷ codes "manual" ∷ []))
          (str (codes "time_quality") 160)

  unfoldable pub time_ok : Bool
  unfolding str is_utc raw
  time_ok =
      if passes (list_eq (codes "uptime_only")) (str (codes "time_quality") 160)
      then elim (member line j (some 0) (codes "observed_at")) as (λ o. Bool) [
        | none ↦ false
        | some t ↦ list_eq (raw line j t) (codes "null")
      ]
      else passes is_utc (str (codes "observed_at") 24)

  -- The loop over the rule ids, from token i on.
  unfoldable pub rule_ids_ok : ℕ → ℕ → Bool
  rule_ids_ok zero i = true
  rule_ids_ok (suc n) i =
      passes (λ s. not (byte_at s 0 == 0) && all is_rule_char s) (string_of line j i 65)
      && rule_ids_ok n (i + 1)

  unfoldable pub rules_ok : Option ℕ → Bool
  unfolding rule_ids_ok
  rules_ok none = false
  rules_ok (some t) =
      let size = (token j t).after - t in
      type_eq (token j t).type array && leb 2 size && leb size 5 && rule_ids_ok (size - 1) (t + 1)

  unfoldable pub is_boolean : Option ℕ → Bool
  is_boolean none = false
  is_boolean (some t) = type_eq (token j t).type boolean

  unfoldable pub validate_log : Bool
  unfolding str number all_filled one_of numbers_ok grade_of choices_ok time_ok is_boolean rules_ok
  validate_log =
      type_eq (token j 0).type object
      && all_filled (
          codes "event_id"
          ∷ codes "firmware_version"
          ∷ codes "hardware"
          ∷ codes "identifier"
          ∷ codes "label"
          ∷ codes "reason"
          ∷ codes "session_id"
          ∷ codes "signature_pack"
          ∷ [])
      && passes (list_eq (codes "E32R40T")) (str (codes "hardware") 160)
      && passes (λ s. (length s == 32) && all is_lower_hex s) (str (codes "session_id") 160)
      && passes (λ s. (length s == 20) && all is_base32 s) (str (codes "identifier") 160)
      && passes (one_of categories) (str (codes "category") 160)
      && numbers_ok
      && passes (list_eq (grade_of (number (codes "score")))) (str (codes "confidence") 160)
      && choices_ok
      && time_ok
      && is_boolean (member line j (some 0) (codes "meal_awarded"))
      && rules_ok (member line j (some 0) (codes "rule_ids"))

unfoldable pub valid_log_record : List ℕ → Bool
unfolding validate_log
valid_log_record line = elim (parse line) as (λ o. Bool) [
  | none ↦ false
  | some j ↦ validate_log line j
]
