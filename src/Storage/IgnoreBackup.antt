-- ===== src/Storage/IgnoreBackup.antt =====
-- components/storage/ignore_backup.cpp: the ignore list in two files on the card, written in turn, each
-- with a generation and a message authentication code. `hmac` stands for hmac_sha256, which a
-- cryptographic library computes; a disk gives what opening and reading a path leads to.
pub mod Format
pub mod Slots
pub mod Atomic
mod Tests
use Prim.Native.Nat.{bit_or, bit_xor}
use surveillance_hound.Common.{
  ℕ, zero, suc, ◌+◌, ◌-◌, ◌*◌, ◌/◌, ◌%◌, ◌^◌, ◌≤◌, ◌<◌, min, max, pred, ◌≡◌, refl, sym, ap, ap₂,
  subst, ◌∙◌, ◌≢◌, ◌↔◌, ◌⊎◌, inl, inr, Bool, true, false, not, ◌&&◌, ◌||◌, Option, none, some, List,
  [], ◌∷◌, ◌++◌, map, arith, ltb, leb, ◌==◌, if◌then◌else◌, bool_eq, to_bit, Bool-cases,
  Option-cases, length, take, drop, byte_at, replicate, all, list_eq, guard, ◌>>=◌, ◌>>◌,
}
use surveillance_hound.Core.Text.{codes}
use surveillance_hound.Companion.{IgnoredScent, blank_ignored, ignore_capacity, valid_ignores}
use surveillance_hound.Companion.Digest.{digest_of, hash_of}

abbrev pub ignore_backup_bytes : ℕ
ignore_backup_bytes = 16 + ignore_capacity * 9 + 32

abbrev pub signed_size : ℕ
signed_size = ignore_backup_bytes - 32

abbrev pub magic : List ℕ
magic = b'H' ∷ b'N' ∷ b'D' ∷ b'I' ∷ b'G' ∷ b'N' ∷ b'0' ∷ b'2' ∷ []

unfoldable pub hex_digit : ℕ → ℕ
hex_digit d = if ltb d 10 then b'0' + d else b'A' + d - 10

unfoldable pub hex_text : List ℕ → List ℕ
unfolding hex_digit
hex_text [] = []
hex_text (b ∷ bytes) = hex_digit (b / 16) ∷ hex_digit (b % 16) ∷ hex_text bytes

unfoldable pub key_ok : List ℕ → Bool
key_ok key = not (all (λ b. b == 0) key)

-- The differing bits of two codes.
unfoldable pub difference : List ℕ → List ℕ → ℕ
difference [] bytes = 0
difference (m ∷ mac) [] = 0
difference (m ∷ mac) (b ∷ bytes) = bit_or (bit_xor m b) (difference mac bytes)

unfoldable pub entries : ℕ → List ℕ → List IgnoredScent
entries zero bytes = []
entries (suc n) bytes =
    record { digest = take 8 bytes; category = byte_at bytes 8 } ∷ entries n (drop 9 bytes)

unfoldable pub entry_bytes : List IgnoredScent → List ℕ
entry_bytes [] = []
entry_bytes (e ∷ es) = e.digest ++ (e.category % 256 ∷ entry_bytes es)

-- What the code signs.
unfoldable pub signed_bytes : List IgnoredScent → ℕ → List ℕ
unfolding entry_bytes digest_of
signed_bytes list gen = magic ++ (digest_of gen ++ entry_bytes list)

-- What is at a path.
pub data Contents : Type 0 where
  absent : Contents
  unreadable : Contents
  stored : List ℕ → Contents

pub data ReadResult : Type 0 where
  missing : ReadResult
  invalid : ReadResult
  error : ReadResult
  valid : List IgnoredScent → ℕ → ReadResult

unfoldable pub read_result : Option (List IgnoredScent × ℕ) → ReadResult
read_result none = invalid
read_result (some (list, gen)) = valid list gen

pub data BackupResult : Type 0 where
  failed unchanged written : BackupResult

-- How opening and writing a file goes: it is not opened, every call succeeds, or the card holds the
-- first `kept` bytes when a call fails or the power does.
pub data Attempt : Type 0 where
  refused : Attempt
  completed : Attempt
  cut : ℕ → Attempt

abbrev pub Disk : Type 0
Disk = List ℕ → Contents

abbrev pub suffix : ℕ → List ℕ
suffix slot = b'-' ∷ (b'0' + slot) ∷ b'.' ∷ b'B' ∷ b'I' ∷ b'N' ∷ []

unfoldable pub path : List ℕ → ℕ → Option (List ℕ)
path base slot = if ltb (length (base ++ suffix slot)) 192 then some (base ++ suffix slot) else none

pub record Latest : Type 0 where
  pub slot : Option ℕ
  pub generation : ℕ
  pub existing : Bool
  pub error : Bool
  pub list : List IgnoredScent

abbrev pub no_backup : Latest
no_backup = record {
  slot = none;
  generation = 0;
  existing = false;
  error = false;
  list = replicate ignore_capacity blank_ignored;
}

-- One round of the loop over the slots.
unfoldable pub visit : ℕ → ReadResult → Latest → Latest
visit slot missing l = l
visit slot invalid l = record l { existing = true }
visit slot error l = record l { existing = true; error = true }
visit slot (valid list gen) l =
    if ltb l.generation gen
    then record {
      slot = some slot;
      generation = gen;
      existing = true;
      error = l.error;
      list = list;
    }
    else record l { existing = true }

unfoldable pub latest_of : ReadResult → ReadResult → Latest
unfolding visit
latest_of first second = visit 1 second (visit 0 first no_backup)

unfoldable pub same_ignores : List IgnoredScent → List IgnoredScent → Bool
same_ignores [] [] = true
same_ignores [] (e ∷ es) = false
same_ignores (d ∷ ds) [] = false
same_ignores (d ∷ ds) (e ∷ es) =
    list_eq d.digest e.digest && (d.category == e.category) && same_ignores ds es

abbrev pub found_any : Option ℕ → Bool
found_any none = false
found_any (some slot) = true

-- The slot that is written next.
unfoldable pub other_slot : Option ℕ → ℕ
other_slot none = 0
other_slot (some slot) = if slot == 0 then 1 else 0

abbrev pub overwrite : List ℕ → Contents → Disk → Disk
overwrite name contents disk = λ n. if list_eq n name then contents else disk n

-- Opening for writing empties the file.
unfoldable pub store : List ℕ → List ℕ → Attempt → Disk → BackupResult × Disk
store name bytes refused disk = (failed, disk)
store name bytes completed disk = (written, overwrite name (stored bytes) disk)
store name bytes (cut kept) disk = (failed, overwrite name (stored (take kept bytes)) disk)

unfoldable pub store_at : Option (List ℕ) → Option (List ℕ) → Attempt → Disk → BackupResult × Disk
unfolding store
store_at none name attempt disk = (failed, disk)
store_at (some bytes) none attempt disk = (failed, disk)
store_at (some bytes) (some name) attempt disk = store name bytes attempt disk

unfoldable pub recovered : Latest → Option (List IgnoredScent × ℕ)
recovered l = if l.error || not (found_any l.slot) then none else some (l.list, l.generation)

module _ (hmac : List ℕ → List ℕ → Option (List ℕ)) where
  unfoldable pub decode : List ℕ → List ℕ → Option (List IgnoredScent × ℕ)
  unfolding key_ok difference entries hash_of valid_ignores
  decode key bytes = do
    guard (key_ok key && list_eq magic (take 8 bytes))
    mac ← hmac key (take signed_size bytes)
    guard (difference mac (drop signed_size bytes) == 0)
    let gen = hash_of (take 8 (drop 8 bytes))
    guard (not (gen == 0))
    let list = entries ignore_capacity (drop 16 bytes)
    guard (valid_ignores list)
    some (list, gen)

  -- The name of the card's files: eight bytes of a code in hexadecimal digits.
  unfoldable pub ignore_backup_id : List ℕ → Option (List ℕ)
  unfolding key_ok hex_text
  ignore_backup_id key = do
    guard (key_ok key)
    mac ← hmac key (codes "HOUND-IGNORE-ID")
    some (hex_text (take 8 mac))

  -- A file of another size is invalid.
  unfoldable pub check : List ℕ → Contents → ReadResult
  unfolding decode read_result
  check key absent = missing
  check key unreadable = error
  check key (stored bytes) =
      if not (length bytes == ignore_backup_bytes) then invalid else read_result (decode key bytes)

  -- A path that is too long is an error.
  unfoldable pub read_at : List ℕ → Disk → Option (List ℕ) → ReadResult
  unfolding check
  read_at key disk none = error
  read_at key disk (some name) = check key (disk name)

  unfoldable pub read_slot : Disk → List ℕ → ℕ → List ℕ → ReadResult
  unfolding read_at path
  read_slot disk base slot key = read_at key disk (path base slot)

  unfoldable pub latest : Disk → List ℕ → List ℕ → Latest
  unfolding latest_of read_slot
  latest disk base key = latest_of (read_slot disk base 0 key) (read_slot disk base 1 key)

  unfoldable pub read_ignore_backup : Disk → List ℕ → List ℕ → Option (List IgnoredScent × ℕ)
  unfolding latest recovered
  read_ignore_backup disk base key = recovered (latest disk base key)

  unfoldable pub encode : List ℕ → List IgnoredScent → ℕ → Option (List ℕ)
  unfolding signed_bytes
  encode key list gen = do
    mac ← hmac key (signed_bytes list gen)
    some (signed_bytes list gen ++ mac)

  -- `backup_ignores` behind its tests.
  unfoldable pub write_next :
      Disk → List ℕ → List ℕ → List IgnoredScent → Latest → Attempt → BackupResult × Disk
  unfolding encode other_slot store_at path
  write_next disk base key list found attempt =
      store_at (encode key list (found.generation + 1)) (path base (other_slot found.slot)) attempt
        disk

  unfoldable pub backup_ignores :
      Disk → List ℕ → List ℕ → List IgnoredScent → Attempt → BackupResult × Disk
  backup_ignores disk base key list attempt =
      let found = latest disk base key in
      if not (key_ok key) || not (valid_ignores list)
      then (failed, disk)
      else if found.error
          || (not (found_any found.slot) && found.existing)
          || (found.generation == 2 ^ 64 - 1)
      then (failed, disk)
      else if found_any found.slot && same_ignores found.list list
      then (unchanged, disk)
      else write_next disk base key list found attempt
