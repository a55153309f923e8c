-- ===== src/Json.antt =====
-- The bounded JSON reader, components/sniffer_core/json.cpp and include/sniffer/json.hpp. The position
-- in the input is kept as the rest of the input; `value` returns `none` for -1.
pub mod Scan
pub mod Rests
pub mod Grows
pub mod Bounds
pub mod Walk
mod Tests
use surveillance_hound.Common.{
  ℕ, zero, suc, ◌+◌, ◌-◌, ◌*◌, ◌/◌, ◌%◌, ◌^◌, ◌≤◌, ◌<◌, min, max, pred, ◌≡◌, refl, sym, ap, ap₂,
  subst, ◌∙◌, ◌≢◌, ◌↔◌, ◌⊎◌, inl, inr, Bool, true, false, not, ◌&&◌, ◌||◌, Option, none, some, List,
  [], ◌∷◌, ◌++◌, map, arith, ltb, leb, ◌==◌, if◌then◌else◌, bool_eq, to_bit, Bool-cases,
  Option-cases, get_or, set, length, take, drop, replicate, list_eq, ◌>>=◌, ◌>>◌, guard,
}
use surveillance_hound.Common.Int.{ℤ, pos, negsuc}
use surveillance_hound.Core.Text.{codes, starts_with}
use surveillance_hound.Json.Scan.{space, scan_string, scan_number, decode, plain, read_integer}

pub data TokenType : Type 0 where
  object array string number boolean null : TokenType

abbrev pub type_index : TokenType → ℕ
type_index object = 0
type_index array = 1
type_index string = 2
type_index number = 3
type_index boolean = 4
type_index null = 5

abbrev pub type_eq : TokenType → TokenType → Bool
type_eq a b = type_index a == type_index b

pub record Token : Type 0 where
  pub start : ℕ
  pub size : ℕ
  pub after : ℕ
  pub type : TokenType

-- Token{}
abbrev pub blank_token : Token
blank_token = record { start = 0; size = 0; after = 0; type = object }

abbrev pub capacity : ℕ
capacity = 160

pub record Reader : Type 0 where
  pub tokens : List Token
  pub count : ℕ
  pub rest : List ℕ

unfoldable pub token : Reader → ℕ → Token
token r t = get_or r.tokens t blank_token

-- By the first character of a value.
unfoldable pub type_of : ℕ → TokenType
type_of c =
    if c == b'{'
    then object
    else if c == b'['
    then array
    else if c == b'"'
    then string
    else if c == b'n'
    then null
    else if (c == b't') || (c == b'f')
    then boolean
    else number

abbrev pub word_of : ℕ → List ℕ
word_of c = if c == b't' then codes "true" else if c == b'f' then codes "false" else codes "null"

unfoldable pub scan_word : ℕ → List ℕ → Option (List ℕ)
unfolding starts_with
scan_word c s = if starts_with s (word_of c) then some (drop (length (word_of c)) s) else none

unfoldable pub expect : ℕ → List ℕ → Option (List ℕ)
expect c [] = none
expect c (x ∷ xs) = if x == c then some xs else none

unfoldable pub opens_string : List ℕ → Bool
opens_string [] = false
opens_string (c ∷ cs) = c == b'"'

abbrev pub with_rest : Reader → Option (List ℕ) → Option Reader
with_rest r none = none
with_rest r (some rest) = some (record r { rest = rest })

-- Behind a member: the closing bracket, or a comma and `more` members.
unfoldable pub separate : ℕ → Reader → (Reader → Option Reader) → List ℕ → Option Reader
separate close r more [] = none
separate close r more (c ∷ cs) =
    if c == close
    then some (record r { rest = cs })
    else if c == b','
    then more (record r { rest = cs })
    else none

unfoldable pub finish : Option (ℕ × Reader) → Option Reader
unfolding space
finish none = none
finish (some (t, r)) = if length (space r.rest) == 0 then some r else none

module _ (input : List ℕ) where
  unfoldable pub raw : Reader → ℕ → List ℕ
  unfolding token
  raw r t = if ltb t r.count then take (token r t).size (drop (token r t).start input) else []

  -- What `string` writes into a buffer of `size` characters, and whether it succeeds.
  unfoldable pub read_string : Reader → ℕ → ℕ → List ℕ × Bool
  unfolding raw decode
  read_string r t size =
      if not (ltb t r.count) || not (type_eq (token r t).type string) || (size == 0)
      then ([], false)
      else decode plain (size - 1) (drop 1 (raw r t))

  unfoldable pub string_of : Reader → ℕ → ℕ → Option (List ℕ)
  unfolding read_string
  string_of r t size = let (text, ok) = read_string r t size in if ok then some text else none

  unfoldable pub integer : Reader → Option ℕ → Option ℤ
  unfolding raw token read_integer
  integer r none = none
  integer r (some t) =
      if not (ltb t r.count) || not (type_eq (token r t).type number)
      then none
      else read_integer (raw r t)

  -- `string` into a buffer: it is written up to the failure.
  unfoldable pub string_into : Reader → Option ℕ → List ℕ → List ℕ × Bool
  unfolding read_string
  string_into r none out = (out, false)
  string_into r (some t) out =
      let (text, ok) = read_string r t (length out) in
      if ok
      then (text ++ (0 ∷ drop (suc (length text)) out), true)
      else (text ++ drop (length text) out, false)

  -- The loop of `member`, from member i on, for at most `fuel` members.
  unfoldable pub find_member : ℕ → Reader → ℕ → ℕ → List ℕ → Option ℕ
  unfolding string_of
  find_member zero r i last key = none
  find_member (suc fuel) r i last key =
      let rest = find_member fuel r (token r (i + 1)).after last key in
      let here = elim (string_of r i 80) as (λ o. Bool) [
        | none ↦ false
        | some name ↦ list_eq key name
      ] in
      if not (ltb i last) then none else if here then some (i + 1) else rest

  unfoldable pub member : Reader → Option ℕ → List ℕ → Option ℕ
  unfolding find_member token
  member r none key = none
  member r (some t) key =
      if not (ltb t r.count) || not (type_eq (token r t).type object)
      then none
      else find_member capacity r (t + 1) (token r t).after key

  -- No member of the object before token k has the name of k.
  unfoldable pub unique : ℕ → Reader → ℕ → ℕ → List ℕ → Bool
  unfolding string_of
  unique zero r i k name = false
  unique (suc fuel) r i k name =
      let rest = unique fuel r (token r (i + 1)).after k name in
      let fresh = elim (string_of r i 80) as (λ o. Bool) [
        | none ↦ false
        | some prev ↦ not (list_eq prev name)
      ] in
      if not (ltb i k) then true else if fresh then rest else false

  -- The first character of a token is read; its end is not known yet.
  unfoldable pub open_token : ℕ → List ℕ → Reader → Reader
  unfolding token type_of
  open_token c rest r = record {
    tokens =
        set r.tokens r.count
          (record (token r r.count) { start = length input - suc (length rest); type = type_of c });
    count = r.count + 1;
    rest = rest;
  }

  unfoldable pub close_token : ℕ → Reader → Reader
  unfolding token
  close_token t r = record r {
    tokens = set r.tokens t (record (token r t) {
      size = length input - length r.rest - (token r t).start;
      after = r.count;
    });
  }

  -- The name of a member and the colon; `v` reads a value one level down.
  unfoldable pub read_key : (Reader → Option (ℕ × Reader)) → ℕ → Reader → Option Reader
  unfolding space unique string_of expect opens_string
  read_key v t r = do
    guard (opens_string (space r.rest))
    (k, r1) ← v (record r { rest = space r.rest })
    name ← string_of r1 k 80
    guard (unique capacity r1 (t + 1) k name)
    rest ← expect b':' (space r1.rest)
    some (record r1 { rest = rest })

  -- The loop over the members of token t, whose closing bracket is `close`; the fuel is more than the
  -- characters left.
  unfoldable pub members :
      ℕ → (Reader → Option (ℕ × Reader)) → ℕ → Bool → ℕ → Reader → Option Reader
  unfolding read_key space separate
  members zero v close keyed t r = none
  members (suc fuel) v close keyed t r = do
    r1 ← if keyed then read_key v t r else some r
    (k, r2) ← v r1
    separate close r2 (members fuel v close keyed t) (space r2.rest)

  unfoldable pub container_at :
      (Reader → Option (ℕ × Reader)) → ℕ → Bool → ℕ → Reader → List ℕ → Option Reader
  unfolding members
  container_at v close keyed t r [] = members 1 v close keyed t (record r { rest = [] })
  container_at v close keyed t r (c ∷ cs) =
      if c == close
      then some (record r { rest = cs })
      else members (suc (suc (length cs))) v close keyed t (record r { rest = c ∷ cs })

  unfoldable pub container : (Reader → Option (ℕ × Reader)) → ℕ → Bool → ℕ → Reader → Option Reader
  unfolding container_at space
  container v close keyed t r = container_at v close keyed t r (space r.rest)

  -- Behind the first character c.
  unfoldable pub body : (Reader → Option (ℕ × Reader)) → ℕ → List ℕ → ℕ → Reader → Option Reader
  unfolding container scan_string scan_word scan_number
  body v c cs t r =
      if c == b'{'
      then container v b'}' true t r
      else if c == b'['
      then container v b']' false t r
      else if c == b'"'
      then with_rest r (scan_string plain cs)
      else if (c == b't') || (c == b'f') || (c == b'n')
      then with_rest r (scan_word c (c ∷ cs))
      else with_rest r (scan_number (c ∷ cs))

  -- A value whose text is given, where `read` is its body.
  unfoldable pub value_at :
      (ℕ → List ℕ → ℕ → Reader → Option Reader) → Reader → List ℕ → Option (ℕ × Reader)
  unfolding open_token close_token
  value_at read r [] = none
  value_at read r (c ∷ cs) =
      if leb capacity r.count
      then none
      else (do r1 ← read c cs r.count (open_token c cs r); some (r.count, close_token r.count r1))

  -- `value(9 - levels)`; at no level the depth is over eight.
  unfoldable pub value : ℕ → Reader → Option (ℕ × Reader)
  unfolding body space value_at
  value zero r = none
  value (suc levels) r = value_at (body (value levels)) r (space r.rest)

  abbrev pub new_reader : Reader
  new_reader = record { tokens = replicate capacity blank_token; count = 0; rest = input }

  unfoldable pub parse : Option Reader
  unfolding value finish
  parse =
      if (length input == 0) || ltb 2048 (length input) then none else finish (value 9 new_reader)
