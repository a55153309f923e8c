-- ===== src/Json/Tests.antt =====
-- The JSON reader at concrete inputs.
use surveillance_hound.Common.{
  replicate, length-replicate, ℕ, ◌≡◌, refl, false, none, some, List, [], ◌∷◌, arith, ◌>>=◌,
}
use surveillance_hound.Common.Int.{negsuc}
use surveillance_hound.Core.Text.{codes, starts_with}
use surveillance_hound.Json.Bounds.{IsParsed, parse-IsParsed, value-Reads}
use surveillance_hound.Json.Walk.{members-fuel}
use surveillance_hound.Json.{
  array, number, blank_token, new_reader, open_token, members, value, Reader, parse, member,
  integer,
}

abbrev sample : List ℕ
sample = codes "{ \"a\": [1, true], \"b\\u0063\": -27 }"

bc_of_sample :
    (do r ← parse sample; integer sample r (member sample r (some 0) (codes "bc")))
    ≡ some (negsuc 26)
unfolding parse member integer starts_with
bc_of_sample = refl

same_name_twice : parse (codes "{\"a\":1,\"a\":2}") ≡ none
unfolding parse
same_name_twice = refl

abbrev small : List ℕ
small = codes "[1]"

abbrev small_read : Reader
small_read = record {
  rest = [];
  count = 2;
  tokens =
      record { start = 0; size = 3; after = 2; type = array }
      ∷ record { start = 1; size = 1; after = 2; type = number }
      ∷ replicate 158 blank_token;
}

small_parsed : parse small ≡ some small_read
unfolding parse
small_parsed = refl

parse-IsParsed_example : IsParsed small small_read
parse-IsParsed_example = parse-IsParsed small small_read small_parsed

abbrev in_array : Reader
in_array = record (open_token small b'[' (codes "1]") (new_reader small)) { rest = codes "1]" }

members-fuel_example :
    members small 3 (value small 8) b']' false 0 in_array
    ≡ members small 9 (value small 8) b']' false 0 in_array
unfolding open_token
members-fuel_example =
    members-fuel small (value small 8) (value-Reads small 8) 3 9 b']' false 0 in_array
      (record { slots = length-replicate 160 blank_token; limit = omega arith; fits = omega arith })
      (omega arith) (omega arith)
