-- ===== src/TagWatch/Outcome.antt =====
-- What one call of `observe` can do to the table: four outcomes, each with the facts that the
-- tests on its path establish.
use surveillance_hound.Common.{
  ltb, leb, Bool-cases, ℕ, ◌-◌, ◌==◌, ◌≤◌, ◌<◌, ◌≡◌, refl, ◌≢◌, ◌⊎◌, inl, inr, List, get_or, set,
  length, Option, none, some, true, false, not, ◌&&◌, arith, find_index-some, set-set, get_or-set,
}
use surveillance_hound.Core.{Detection, samsung_connected}
use surveillance_hound.TagWatch.{
  Entry, TagWatch, blank_entry, gap, fresh, find, admits, first_sighting, next_sighting, resight,
  enrol, stale_slot, track, dismiss, observe,
}

module _ (w : TagWatch) (hash : ℕ) (d : Detection) (now : ℕ) where
  abbrev slot : ℕ → Entry
  slot i = get_or w.entries i blank_entry

  -- The sighting is in the window, of a watched tag, neither in the future nor too old.
  pub record Counts : Type 0 where
    pub admitted : admits w hash d ≡ true
    pub not_later : d.last_ms ≤ now
    pub recent : now - d.last_ms ≤ gap
    pub away : samsung_connected d ≡ false

  pub data Outcome : List Entry → Type 0 where
    keep : Outcome w.entries
    forget :
        (i : ℕ)
        → i < length w.entries
        → (slot i).hash ≡ hash
        → (slot i).last ≤ d.last_ms
        → samsung_connected d ≡ true
        → Outcome (set w.entries i blank_entry)
    begin :
        (i : ℕ)
        → i < length w.entries
        → Counts
        → ((slot i).hash ≡ hash) ⊎ ((fresh (slot i) now ≡ false) × (find hash w.entries ≡ none))
        → Outcome (set w.entries i (first_sighting hash d))
    go_on :
        (i : ℕ)
        → i < length w.entries
        → Counts
        → (slot i).hash ≡ hash
        → (slot i).last < d.last_ms
        → d.last_ms - (slot i).last ≤ gap
        → Outcome (set w.entries i (next_sighting d (slot i)))

  find-some :
      (i : ℕ)
      → find hash w.entries ≡ some i
      → (i < length w.entries) × (hash ≢ 0) × ((slot i).hash ≡ hash)
  unfolding find
  find-some i e = ground (
    arith,
    find_index-some (λ (e : Entry). not (hash == 0) && (e.hash == hash)) w.entries i blank_entry,
  )

  sight-fresh_slot :
      (i : ℕ)
      → i < length w.entries
      → Counts
      → fresh (slot i) now ≡ false
      → find hash w.entries ≡ none
      → Outcome (enrol w hash d (some i)).entries
  unfolding enrol
  sight-fresh_slot i lt c f e = rw (enrolled) (begin i lt c (inr (f, e)))
    where
      enrolled : (enrol w hash d (some i)).entries ≡ set w.entries i (first_sighting hash d)
      enrolled = ground (
        arith,
        set-set w.entries i blank_entry (first_sighting hash d),
        get_or-set w.entries i i blank_entry blank_entry,
      )

  enrol-Outcome :
      (o : Option ℕ)
      → Counts
      → find hash w.entries ≡ none
      → stale_slot w.entries now ≡ o
      → Outcome (enrol w hash d o).entries
  unfolding stale_slot
  enrol-Outcome none c e st = unfold enrol in keep
  enrol-Outcome (some i) c e st = sight-fresh_slot i found.0 c (ground (arith, found.1)) e
    where
      found : (i < length w.entries) × (not (fresh (slot i) now) ≡ true)
      found = find_index-some (λ (e : Entry). not (fresh e now)) w.entries i blank_entry st

  resight-Outcome :
      (i : ℕ) → Counts → find hash w.entries ≡ some i → Outcome (resight w hash d i).entries
  unfolding resight
  resight-Outcome i c e = elim (Bool-cases (leb d.last_ms (slot i).last)) [
    | inl old ↦ rw (old, resight) keep
    | inr new ↦ elim (Bool-cases (ltb gap (d.last_ms - (slot i).last))) [
      | inl far ↦ rw (restarted new far) (begin i (find-some i e).0 c (inl (find-some i e).2))
      | inr near ↦
          rw (moved new near)
            (go_on i (find-some i e).0 c (find-some i e).2 (ground arith) (ground arith))
    ]
  ]
    where
      restarted :
          leb d.last_ms (slot i).last ≡ false
          → ltb gap (d.last_ms - (slot i).last) ≡ true
          → (resight w hash d i).entries ≡ set w.entries i (first_sighting hash d)
      restarted new far =
          ground (arith, find-some i e, set-set w.entries i blank_entry (first_sighting hash d))

      moved :
          leb d.last_ms (slot i).last ≡ false
          → ltb gap (d.last_ms - (slot i).last) ≡ false
          → (resight w hash d i).entries ≡ set w.entries i (next_sighting d (slot i))
      moved new near = ground (arith, find-some i e)

  track-Outcome :
      (o : Option ℕ) → Counts → find hash w.entries ≡ o → Outcome (track w hash d now o).entries
  unfolding track
  track-Outcome none c e = enrol-Outcome (stale_slot w.entries now) c e refl
  track-Outcome (some i) c e = resight-Outcome i c e

  dismiss-Outcome :
      (o : Option ℕ)
      → samsung_connected d ≡ true
      → find hash w.entries ≡ o
      → Outcome (dismiss w d o).entries
  unfolding dismiss
  dismiss-Outcome none s e = keep
  dismiss-Outcome (some i) s e = elim (Bool-cases (leb (slot i).last d.last_ms)) [
    | inl late ↦ rw (dropped late) (forget i (find-some i e).0 (find-some i e).2 (ground arith) s)
    | inr early ↦ rw (early, dismiss) keep
  ]
    where
      dropped :
          leb (slot i).last d.last_ms ≡ true
          → (dismiss w d (some i)).entries ≡ set w.entries i blank_entry
      dropped late = ground (arith, find-some i e)

  -- Every call of `observe` has one of the four outcomes.
  pub observe-Outcome : Outcome (observe w hash d now).entries
  unfolding observe
  observe-Outcome = elim (Bool-cases (admits w hash d)) [
    | inr out ↦ rw (out, observe) keep
    | inl adm ↦ elim (Bool-cases (ltb now d.last_ms)) [
      | inl ahead ↦ rw (adm, observe, ahead) keep
      | inr now_ok ↦ elim (Bool-cases (ltb gap (now - d.last_ms))) [
        | inl old ↦ rw (adm, observe, now_ok, old) keep
        | inr recent ↦ elim (Bool-cases (samsung_connected d)) [
          | inl conn ↦
              rw (adm, observe, now_ok, recent, conn)
                (dismiss-Outcome (find hash w.entries) conn refl)
          | inr away ↦
              rw (adm, observe, now_ok, recent, away)
                (track-Outcome (find hash w.entries)
                  (record {
                    admitted = adm;
                    not_later = ground arith;
                    recent = ground arith;
                    away = away;
                  })
                  refl)
        ]
      ]
    ]
  ]
