-- ===== src/Storage/IgnoreBackup/Tests.antt =====
-- The ignore backup at concrete cards. The code that is used here is not a cryptographic one.
use surveillance_hound.Common.{
  ℕ, ◌+◌, ◌≡◌, refl, Option, some, List, [], ◌∷◌, ◌++◌, arith, length, byte_at, replicate,
  All-replicate,
}
use surveillance_hound.Companion.{IgnoredScent, blank_ignored, valid_ignores}
use surveillance_hound.Companion.Digest.{hash_of}
use surveillance_hound.Storage.IgnoreBackup.{
  ignore_backup_bytes, key_ok, absent, stored, cut, Disk, suffix, overwrite, signed_bytes, decode,
  encode, read_ignore_backup, backup_ignores,
}
use surveillance_hound.Storage.IgnoreBackup.Format.{IsMac, decode-encode}
use surveillance_hound.Storage.IgnoreBackup.Atomic.{OldOrNew, backup_ignores-OldOrNew}

abbrev toy : List ℕ → List ℕ → Option (List ℕ)
toy key bytes = some (replicate 32 (byte_at key 0 + length bytes))

toy-IsMac : IsMac toy
toy-IsMac key bytes mac e = ground (arith, e)

abbrev device_key : List ℕ
device_key = 7 ∷ replicate 31 0

abbrev nothing_ignored : List IgnoredScent
nothing_ignored = replicate 64 blank_ignored

abbrev one_ignored : List IgnoredScent
one_ignored = record { digest = 9 ∷ replicate 7 0; category = 3 } ∷ replicate 63 blank_ignored

abbrev base : List ℕ
base = b'/' ∷ b'I' ∷ []

first_file : List ℕ
unfolding signed_bytes
first_file = signed_bytes nothing_ignored 1 ++ replicate 32 599

card : Disk
card = overwrite (base ++ suffix 0) (stored first_file) (λ n. absent)

encode-first_file : encode toy device_key nothing_ignored 1 ≡ some first_file
unfolding encode first_file
encode-first_file = refl

decode-encode_example :
    (length first_file ≡ ignore_backup_bytes)
    × (decode toy device_key first_file ≡ some (nothing_ignored, 1))
unfolding key_ok valid_ignores hash_of
decode-encode_example =
    decode-encode toy device_key nothing_ignored 1 first_file toy-IsMac refl
      (refl, All-replicate (λ (e : IgnoredScent). length e.digest ≡ 8) 64 blank_ignored refl) refl
      (omega arith) (omega arith) encode-first_file

read-card : read_ignore_backup toy card base device_key ≡ some (nothing_ignored, 1)
unfolding read_ignore_backup card first_file
read-card = refl

-- The power fails after 100 bytes of the second file.
backup_ignores-OldOrNew_example :
    OldOrNew toy base device_key nothing_ignored one_ignored 1
      (backup_ignores toy card base device_key one_ignored (cut 100)).0
      (backup_ignores toy card base device_key one_ignored (cut 100)).1
backup_ignores-OldOrNew_example =
    backup_ignores-OldOrNew toy base device_key nothing_ignored one_ignored 1 card (cut 100)
      toy-IsMac
      (
        refl,
        (refl, All-replicate (λ (e : IgnoredScent). length e.digest ≡ 8) 63 blank_ignored refl),
      )
      (omega arith) read-card
