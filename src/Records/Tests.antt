-- ===== src/Records/Tests.antt =====
-- Escaped text at concrete inputs.
use surveillance_hound.Records.Validate.{valid_log_record}
use surveillance_hound.Common.{true, ℕ, ◌≡◌, refl, some, List, [], ◌∷◌, ◌++◌, arith, ◌>>=◌}
use surveillance_hound.Core.Text.{codes}
use surveillance_hound.Json.{integer, member, parse, string_of}
use surveillance_hound.Records.{escape_char, hex_digit, json_escape}
use surveillance_hound.Records.Escape.{escape_text}
use surveillance_hound.Records.ReadBack.{string_of-json_escape}

-- A quote, a backslash and a line feed.
abbrev odd : List ℕ
odd = b'a' ∷ b'"' ∷ b'\\' ∷ 10 ∷ 127 ∷ []

odd_escaped : (json_escape odd 40).0.written ≡ codes "\"a\\\"\\\\\\u000a\\u007f\""
unfolding json_escape hex_digit
odd_escaped = refl

string_of-json_escape_example :
    (do r ← parse (json_escape odd 40).0.written; string_of (json_escape odd 40).0.written r 0 6)
    ≡ some odd
string_of-json_escape_example =
    string_of-json_escape odd 40 6 (omega arith) (unfold escape_text escape_char in omega arith)
      (unfold escape_text escape_char in omega arith) (omega arith)

abbrev log_row : List ℕ
log_row =
    codes
      "{\"schema_version\":1,\"firmware_version\":\"1\",\"hardware\":\"E32R40T\",\"signature_pack\":\"1\",\"region\":\"US\",\"event_id\":\"e\",\"session_id\":\"0123456789abcdef0123456789abcdef\",\"observed_at\":null,\"time_quality\":\"uptime_only\",\"uptime_ms\":9,\"first_seen_ms\":5,\"category\":\"TILE\",\"label\":\"l\",\"confidence\":\"high\",\"score\":85,\"rule_ids\":[\"a.b\"],\"reason\":\"r\",\"radio\":\"ble\",\"channel\":0,\"rssi_min\":-60,\"rssi_max\":-50,\"rssi_avg\":-55,\"seen_count\":2,\"identifier\":\"ABCDEFGHIJKLMNOPQRST\",\"address_type\":\"random\",\"meal_awarded\":true,\"privacy_mode\":\"private\"}"
    ++ (10 ∷ [])

valid_log_record-row : valid_log_record log_row ≡ true
unfolding valid_log_record parse member integer string_of
valid_log_record-row = refl
