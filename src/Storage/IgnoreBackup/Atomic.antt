-- ===== src/Storage/IgnoreBackup/Atomic.antt =====
-- An interrupted backup leaves the generation before it readable.
use surveillance_hound.Common.{
  ℕ, ◌+◌, ◌-◌, ◌^◌, ◌<◌, ◌≡◌, refl, sym, ap, ap₂, subst, ◌∙◌, ◌≢◌, ◌⊎◌, inl, inr, Bool, true, false,
  not, ◌&&◌, ◌||◌, Option, none, some, List, arith, ◌==◌, Bool-cases, length, or-false,
}
use surveillance_hound.Companion.{IgnoredScent, valid_ignores}
use surveillance_hound.Storage.IgnoreBackup.{
  read_result, ignore_backup_bytes, key_ok, stored, ReadResult, invalid, valid, BackupResult,
  failed, written, Attempt, Disk, path, Latest, latest_of, found_any, other_slot, recovered,
  same_ignores, store, store_at, overwrite, decode, check, read_slot, latest, read_ignore_backup,
  encode, write_next, backup_ignores,
}
use surveillance_hound.Storage.IgnoreBackup.Format.{IsIgnoreList, IsMac, decode-encode}
use surveillance_hound.Storage.IgnoreBackup.Slots.{
  Recovers, Chosen, from_first, from_second, recovered-Chosen, recovered-eq-some, keep_first,
  next_first, keep_second, next_second, read_slot-overwrite, read_slot-overwrite_other, Stored,
  untouched, cut_short, whole, store-Stored,
}

not-false : (b : Bool) → not b ≡ false → b ≡ true
not-false true e = refl
not-false false e = cc

module _ (hmac : List ℕ → List ℕ → Option (List ℕ)) (base key : List ℕ)
    (old list : List IgnoredScent) (gen : ℕ) where
  -- The old generation can be read, or the new one; the new one when the write is reported as done.
  abbrev pub OldOrNew : BackupResult → Disk → Type 0
  OldOrNew r disk =
      ((r ≢ written) × (read_ignore_backup hmac disk base key ≡ some (old, gen)))
      ⊎ (read_ignore_backup hmac disk base key ≡ some (list, gen + 1))

  check-invalid :
      (rest : List ℕ) → length rest ≢ ignore_backup_bytes → check hmac key (stored rest) ≡ invalid
  unfolding check
  check-invalid rest h = elim (Bool-cases (length rest == ignore_backup_bytes)) [
    | inl e ↦ absurd (h (ground (arith, e)))
    | inr e ↦ rw (e) refl
  ]

  check-valid :
      (bytes : List ℕ)
      → length bytes ≡ ignore_backup_bytes
      → decode hmac key bytes ≡ some (list, gen + 1)
      → check hmac key (stored bytes) ≡ valid list (gen + 1)
  unfolding check read_result
  check-valid bytes h d =
      let size : (length bytes == ignore_backup_bytes) ≡ true = ground (arith, h) in
      rw (size) (ap read_result d)

  read_with :
      (d : Disk) (first second : ReadResult) (l : List IgnoredScent) (g : ℕ)
      → read_slot hmac d base 0 key ≡ first
      → read_slot hmac d base 1 key ≡ second
      → Recovers first second l g
      → read_ignore_backup hmac d base key ≡ some (l, g)
  unfolding read_ignore_backup latest
  read_with d first second l g a b e = ap₂ (λ f s. recovered (latest_of f s)) a b ∙ e

  module _ (name : List ℕ) (disk : Disk) where
    Turns : ReadResult → List IgnoredScent → ℕ → Type 0
    Turns r l g =
        (rest : List ℕ)
        → check hmac key (stored rest) ≡ r
        → read_ignore_backup hmac (overwrite name (stored rest) disk) base key ≡ some (l, g)

    Stored-OldOrNew :
        (bytes : List ℕ) (r : BackupResult) (d : Disk)
        → Turns invalid old gen
        → Turns (valid list (gen + 1)) list (gen + 1)
        → read_ignore_backup hmac disk base key ≡ some (old, gen)
        → length bytes ≡ ignore_backup_bytes
        → check hmac key (stored bytes) ≡ valid list (gen + 1)
        → Stored name bytes disk r d
        → OldOrNew r d
    unfolding Turns
    Stored-OldOrNew bytes r d kept next before size good untouched =
        inl (λ e. ground (arith, e), before)
    Stored-OldOrNew bytes r d kept next before size good (cut_short rest same) =
        elim (Bool-cases (length rest == length bytes)) [
          | inl e ↦
              inr
                (next rest (ap (λ b. check hmac key (stored b)) (same (ground (arith, e))) ∙ good))
          | inr e ↦ inl (
            λ f. ground (arith, f),
            kept rest (check-invalid rest (λ f. ground (arith, e, f, size))),
          )
        ]
    Stored-OldOrNew bytes r d kept next before size good whole = inr (next bytes good)

    -- The file that is written is the one that the old generation is not in.
    second-Turns :
        path base 1 ≡ some name
        → read_slot hmac disk base 0 key ≡ valid old gen
        → 0 < gen
        → Turns invalid old gen × Turns (valid list (gen + 1)) list (gen + 1)
    unfolding Turns
    second-Turns named first pos = (
      λ rest c.
          read_with (overwrite name (stored rest) disk) (valid old gen) invalid old gen
            (read_slot-overwrite_other hmac base key disk 0 1 name (stored rest) refl named ∙ first)
            (read_slot-overwrite hmac base key disk 1 name (stored rest) named ∙ c)
            (keep_first old list gen pos),
      λ rest c.
          read_with (overwrite name (stored rest) disk) (valid old gen) (valid list (gen + 1)) list
            (gen + 1)
            (read_slot-overwrite_other hmac base key disk 0 1 name (stored rest) refl named ∙ first)
            (read_slot-overwrite hmac base key disk 1 name (stored rest) named ∙ c)
            (next_first old list gen pos),
    )

    first-Turns :
        path base 0 ≡ some name
        → read_slot hmac disk base 1 key ≡ valid old gen
        → 0 < gen
        → Turns invalid old gen × Turns (valid list (gen + 1)) list (gen + 1)
    unfolding Turns
    first-Turns named second pos = (
      λ rest c.
          read_with (overwrite name (stored rest) disk) invalid (valid old gen) old gen
            (read_slot-overwrite hmac base key disk 0 name (stored rest) named ∙ c)
            (read_slot-overwrite_other hmac base key disk 1 0 name (stored rest) refl named
              ∙ second)
            (keep_second old list gen pos),
      λ rest c.
          read_with (overwrite name (stored rest) disk) (valid list (gen + 1)) (valid old gen) list
            (gen + 1) (read_slot-overwrite hmac base key disk 0 name (stored rest) named ∙ c)
            (read_slot-overwrite_other hmac base key disk 1 0 name (stored rest) refl named
              ∙ second)
            (next_second old list gen),
    )

  module _ (disk : Disk) (attempt : Attempt) (sized : IsMac hmac) (shaped : IsIgnoreList list)
      (usable : key_ok key ≡ true) (ok : valid_ignores list ≡ true) (small : gen + 1 < 2 ^ 64)
      (before : read_ignore_backup hmac disk base key ≡ some (old, gen)) where
    stored_at :
        (t : ℕ) (o p : Option (List ℕ))
        → ((name : List ℕ)
            → path base t ≡ some name
            → Turns name disk invalid old gen
              × Turns name disk (valid list (gen + 1)) list (gen + 1))
        → encode hmac key list (gen + 1) ≡ o
        → path base t ≡ p
        → OldOrNew (store_at o p attempt disk).0 (store_at o p attempt disk).1
    unfolding store_at
    stored_at t none p turns e f = inl (λ g. ground (arith, g), before)
    stored_at t (some bytes) none turns e f = inl (λ g. ground (arith, g), before)
    stored_at t (some bytes) (some name) turns e f =
        let (kept, next) = turns name f in
        let (size, read) =
          decode-encode hmac key list (gen + 1) bytes sized usable shaped ok (omega arith) small
            e in
        Stored-OldOrNew name disk bytes (store name bytes attempt disk).0
          (store name bytes attempt disk).1 kept next before size (check-valid bytes size read)
          (store-Stored name bytes attempt disk)

    -- The slot that was chosen decides which file is written.
    write_next-store_at :
        (found : Latest) (s : ℕ)
        → found.slot ≡ some s
        → found.generation ≡ gen
        → write_next hmac disk base key list found attempt
          ≡ store_at (encode hmac key list (gen + 1)) (path base (other_slot (some s))) attempt disk
    unfolding write_next
    write_next-store_at found s slot generation = λ i.
        store_at (encode hmac key list (generation i + 1)) (path base (other_slot (slot i))) attempt
          disk

    write_next-OldOrNew :
        (first second : ReadResult) (found : Latest)
        → read_slot hmac disk base 0 key ≡ first
        → read_slot hmac disk base 1 key ≡ second
        → Chosen old gen first second found
        → OldOrNew
            (write_next hmac disk base key list found attempt).0
            (write_next hmac disk base key list found attempt).1
    write_next-OldOrNew first second found a b (from_first _ _ slot generation pos) =
        subst (λ (p : BackupResult × Disk). OldOrNew p.0 p.1)
          (sym (write_next-store_at found 0 slot generation))
          (unfold other_slot in
            stored_at 1 _ _ (λ name f. second-Turns name disk f a pos) refl refl)
    write_next-OldOrNew first second found a b (from_second _ _ slot generation pos) =
        subst (λ (p : BackupResult × Disk). OldOrNew p.0 p.1)
          (sym (write_next-store_at found 1 slot generation))
          (unfold other_slot in stored_at 0 _ _ (λ name f. first-Turns name disk f b pos) refl refl)

  -- Whatever is on the card, and wherever the write is cut off: when a generation could be read before,
  -- afterwards either that one can still be read, and the call did not report a write, or the new list
  -- can, as the next generation. Nothing is assumed of the authentication code but its size.
  pub backup_ignores-OldOrNew :
      (disk : Disk) (attempt : Attempt)
      → IsMac hmac
      → IsIgnoreList list
      → gen < 2 ^ 64
      → read_ignore_backup hmac disk base key ≡ some (old, gen)
      → OldOrNew
          (backup_ignores hmac disk base key list attempt).0
          (backup_ignores hmac disk base key list attempt).1
  unfolding backup_ignores
  backup_ignores-OldOrNew disk attempt sized shaped small before =
      let found = latest hmac disk base key in
      let (_, _, gen_found) =
        recovered-eq-some found old gen (unfold read_ignore_backup in before) in
      let fresh_write : (not (key_ok key) || not (valid_ignores list)) ≡ false
          → (found.error
              || (not (found_any found.slot) && found.existing)
              || (found.generation == 2 ^ 64 - 1))
            ≡ false
          → OldOrNew (write_next hmac disk base key list found attempt).0
              (write_next hmac disk base key list found attempt).1 =
        λ good go.
          let (usable, ok) = or-false (not (key_ok key)) (not (valid_ignores list)) good in
          let (_, room) =
            or-false (found.error || (not (found_any found.slot) && found.existing))
              (found.generation == 2 ^ 64 - 1) go in
          write_next-OldOrNew disk attempt sized shaped (not-false (key_ok key) usable)
            (not-false (valid_ignores list) ok) (ground (arith, room, small, gen_found)) before
            (read_slot hmac disk base 0 key) (read_slot hmac disk base 1 key) found refl refl
            (unfold latest in
              recovered-Chosen (read_slot hmac disk base 0 key) old gen
                (read_slot hmac disk base 1 key) (unfold read_ignore_backup latest in before)) in
      let same : OldOrNew failed disk = inl (λ e. ground (arith, e), before) in
      elim (Bool-cases (not (key_ok key) || not (valid_ignores list))) [
        | inl bad ↦ rw (bad) same
        | inr good ↦
            elim (Bool-cases (
              found.error
              || (not (found_any found.slot) && found.existing)
              || (found.generation == 2 ^ 64 - 1))) [
                | inl stop ↦ rw (good, stop) same
                | inr go ↦
                    elim (Bool-cases (found_any found.slot && same_ignores found.list list)) [
                      | inl equal ↦ rw (good, go, equal) (inl (λ e. ground (arith, e), before))
                      | inr fresh ↦ rw (good, go, fresh) (fresh_write good go)
                    ]
              ]
      ]
