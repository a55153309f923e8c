-- ===== src/Storage/Recovery.antt =====
-- components/storage/history_recovery.cpp: the check of the log files on the card. A card gives the
-- contents of a path; an open file is the rest that is still to be read; `Faults` says which of the
-- calls of one round fail. `good` keeps its value where the source sets -1 and never reads it.
pub mod Lines
pub mod Finish
pub mod Repair
mod Tests
use surveillance_hound.Common.{
  ℕ, zero, suc, ◌+◌, ◌-◌, ◌*◌, ◌/◌, ◌%◌, ◌^◌, ◌≤◌, ◌<◌, min, max, pred, ◌≡◌, refl, sym, ap, ap₂,
  subst, ◌∙◌, ◌≢◌, ◌↔◌, ◌⊎◌, inl, inr, Bool, true, false, not, ◌&&◌, ◌||◌, Option, none, some, List,
  [], ◌∷◌, ◌++◌, map, arith, ltb, leb, ◌==◌, if◌then◌else◌, bool_eq, to_bit, Bool-cases,
  Option-cases, length, take, drop, all, list_eq, byte_at,
}
use surveillance_hound.Core.Text.{codes, c_string}
use surveillance_hound.Records.Validate.{valid_log_record}

abbrev pub Card : Type 0
Card = List ℕ → Option (List ℕ)

pub record Faults : Type 0 where
  pub readdir : Bool
  pub fopen : Bool
  pub read : Bool
  pub close : Bool
  pub tell : Bool
  pub reopen : Bool
  pub truncate : Bool
  pub sync : Bool
  pub close_again : Bool
  pub closedir : Bool

-- What is still to be read, and how much was read.
pub record Input : Type 0 where
  pub rest : List ℕ
  pub read : ℕ

pub record Recovery : Type 0 where
  pub root : List ℕ
  pub directory : Option (List (List ℕ))
  pub input : Option Input
  pub path : List ℕ
  pub good : ℕ
  pub read_only : Bool
  pub close_failed : Bool
  pub files : ℕ
  pub rows : ℕ
  pub errors : ℕ

abbrev pub new_recovery : Recovery
new_recovery = record {
  root = [];
  directory = none;
  input = none;
  path = [];
  good = 0;
  read_only = false;
  close_failed = false;
  files = 0;
  rows = 0;
  errors = 0;
}

unfoldable pub error : Recovery → Recovery
error r = record r { read_only = true; errors = (r.errors + 1) % 2 ^ 32 }

abbrev pub is_some {ℓ} : {A : Type ℓ} → Option A → Bool
is_some none = false
is_some (some a) = true

-- The names that `opendir` leads to; none is its failure.
unfoldable pub begin : List ℕ → Option (List (List ℕ)) → Recovery → Recovery × Bool
unfolding error
begin root names r =
    if is_some r.directory || is_some r.input
    then (r, false)
    else if is_some names
    then (record r { root = root; directory = names }, true)
    else (error (record r { root = root }), false)

unfoldable pub failed_close : Recovery → Recovery
unfolding error
failed_close r = error (record r { close_failed = true })

unfoldable pub close_input : Bool → Recovery → Recovery
unfolding failed_close
close_input fails r =
    if is_some r.input then record (if fails then failed_close r else r) { input = none } else r

unfoldable pub close_directory : Bool → Recovery → Recovery
unfolding failed_close
close_directory fails r =
    if is_some r.directory
    then record (if fails then failed_close r else r) { directory = none }
    else r

-- `close` is the failure of fclose, `closedir` that of closedir.
unfoldable pub cancel : Bool → Bool → Recovery → Recovery
unfolding close_input close_directory
cancel close closedir r = close_directory closedir (close_input close r)

-- The file opened for writing; nothing is read from it.
abbrev pub reopened : Recovery → Recovery
reopened r = record r { input = some (record { rest = []; read = 0 }) }

abbrev pub truncated : ℕ → Option (List ℕ) → Option (List ℕ)
truncated good none = none
truncated good (some contents) = some (take good contents)

abbrev pub cut_file : List ℕ → ℕ → Card → Card
cut_file path good card = λ p. if list_eq p path then truncated good (card p) else card p

-- The repair of `finish_file`: the file is cut behind the last row that was checked.
unfoldable pub repair : Faults → Recovery → Card → Recovery × Card
unfolding error close_input failed_close
repair f r card =
    if f.reopen
    then (error r, card)
    else if f.truncate
    then (close_input f.close_again (failed_close (reopened r)), card)
    else (
      close_input f.close_again (if f.sync then failed_close (reopened r) else reopened r),
      cut_file r.path r.good card,
    )

-- `read_failed` is ferror of the input.
unfoldable pub finish_file : Faults → Bool → Bool → Recovery → Card → Recovery × Card
unfolding error close_input repair
finish_file f read_failed partial r card =
    let r' = close_input f.close (if read_failed then error r else r) in
    if not partial || r'.read_only then (r', card) else repair f r' card

abbrev pub line_size : ℕ
line_size = 2048

-- What fgets reads: the line, what is left, and whether it met the end of the file.
unfoldable pub read_line : ℕ → List ℕ → List ℕ × List ℕ × Bool
read_line zero s = ([], s, false)
read_line (suc n) [] = ([], [], true)
read_line (suc n) (c ∷ s) =
    let (line, rest, end) = read_line n s in
    if c == 10 then (c ∷ [], s, false) else (c ∷ line, rest, end)

abbrev pub last_is_newline : List ℕ → Bool
last_is_newline [] = false
last_is_newline (c ∷ []) = c == 10
last_is_newline (c ∷ d ∷ s) = last_is_newline (d ∷ s)

-- The line of a file that is not at its end.
unfoldable pub check_line : Faults → Input → Recovery → Card → Recovery × Card
unfolding error finish_file read_line c_string
check_line f i r card =
    let (line, rest, end) = read_line (line_size - 1) i.rest in
    let row = c_string line in
    let next = i.read + length line in
    let r' = record r { input = some (record { rest = rest; read = next }) } in
    if not (last_is_newline row)
    then finish_file f false end (if end then r' else error r') card
    else if not (valid_log_record row)
    then finish_file f false false (error r') card
    else if f.tell
    then finish_file f false false (error r') card
    else (record r' { good = next; rows = (r.rows + 1) % 2 ^ 32 }, card)

unfoldable pub read_row : Faults → Input → Recovery → Card → Recovery × Card
unfolding finish_file check_line
read_row f i r card =
    if f.read
    then finish_file f true false r card
    else if length i.rest == 0
    then finish_file f false false r card
    else check_line f i r card

unfoldable pub ends_with : List ℕ → List ℕ → Bool
ends_with s name = list_eq s (drop (length name - length s) name) && leb (length s) (length name)

unfoldable pub is_log : List ℕ → Bool
unfolding ends_with
is_log name = ends_with (codes ".JSONL") name && all (λ c. not (c == b'/')) name

unfoldable pub open_file : Faults → List ℕ → Option (List ℕ) → Recovery → Recovery
unfolding error
open_file f path none r = error (record r { path = path })
open_file f path (some contents) r =
    if f.fopen
    then error (record r { path = path })
    else record r { path = path; input = some (record { rest = contents; read = 0 }); good = 0 }

-- A directory entry, once it is a log file.
unfoldable pub visit_file : Faults → List ℕ → Recovery → Card → Recovery
unfolding error cancel open_file
visit_file f name r card =
    let path = r.root ++ (b'/' ∷ name) in
    let counted = record r { files = (r.files + 1) % 2 ^ 32 } in
    if ltb 4096 counted.files
    then cancel f.close f.closedir (error counted)
    else if not (ltb (length path) 300)
    then error (record counted { path = take 299 path })
    else open_file f path (card path) counted

unfoldable pub next_file : Faults → List (List ℕ) → Recovery → Card → Recovery
unfolding error cancel is_log visit_file
next_file f [] r card = cancel f.close f.closedir (if f.readdir then error r else r)
next_file f (name ∷ names) r card =
    let r' = record r { directory = some names } in
    if f.readdir
    then cancel f.close f.closedir (error r)
    else if is_log name
    then visit_file f name r' card
    else r'

-- One round of the loop of `step`, while the recovery is active.
unfoldable pub round_with :
    Faults → List (List ℕ) → Option Input → Recovery → Card → Recovery × Card
unfolding next_file read_row
round_with f names none r card = (next_file f names r card, card)
round_with f names (some i) r card = read_row f i r card

unfoldable pub round_at : Faults → Option (List (List ℕ)) → Recovery → Card → Recovery × Card
unfolding round_with
round_at f none r card = (r, card)
round_at f (some names) r card = round_with f names r.input r card

unfoldable pub round : Faults → Recovery × Card → Recovery × Card
unfolding round_at
round f (r, card) = round_at f r.directory r card

-- `step`; the list has as many rounds as the budget.
unfoldable pub step : List Faults → Recovery × Card → Recovery × Card
unfolding round
step [] s = s
step (f ∷ fs) s = step fs (round f s)
