-- ===== src/Storage/IgnoreBackup/Slots.antt =====
-- Which of the two files a backup is read from, and what writing the other one leaves.
use surveillance_hound.Common.{
  take_all, or-false, ℕ, ◌+◌, ◌<◌, ◌≡◌, refl, sym, ap, ap₂, subst, ◌∙◌, ◌⊎◌, inl, inr, true, false,
  not, ◌||◌, Option, none, some, List, [], ◌∷◌, ◌++◌, arith, ltb, ◌==◌, Bool-cases, Option-cases,
  length, take, list_eq, length-take, unless-some, some-inj, list_eq_refl,
}
use surveillance_hound.Companion.{IgnoredScent}
use surveillance_hound.Storage.IgnoreBackup.{
  no_backup, read_at, overwrite, suffix, Contents, stored, ReadResult, missing, invalid, error,
  valid, BackupResult, failed, written, Attempt, refused, completed, cut, Disk, path, Latest, visit,
  latest_of, found_any, recovered, store, check, read_slot,
}

abbrev pub Recovers : ReadResult → ReadResult → List IgnoredScent → ℕ → Type 0
Recovers first second list gen = recovered (latest_of first second) ≡ some (list, gen)

-- Which slot a recovered backup comes from.
pub data Chosen (list : List IgnoredScent) (gen : ℕ)
    : ReadResult → ReadResult → Latest → Type 0 where
  from_first :
      (second : ReadResult) (l : Latest)
      → l.slot ≡ some 0
      → l.generation ≡ gen
      → 0 < gen
      → Chosen list gen (valid list gen) second l
  from_second :
      (first : ReadResult) (l : Latest)
      → l.slot ≡ some 1
      → l.generation ≡ gen
      → 0 < gen
      → Chosen list gen first (valid list gen) l

pair-inj :
    {a b : List IgnoredScent} {m n : ℕ}
    → ◌≡◌ {A = Option (List IgnoredScent × ℕ)} (some (a, m)) (some (b, n))
    → (a ≡ b) × (m ≡ n)
pair-inj e = (
  ap (λ (p : List IgnoredScent × ℕ). p.0) (some-inj e),
  ap (λ (p : List IgnoredScent × ℕ). p.1) (some-inj e),
)

pub recovered-eq-some :
    (l : Latest) (list : List IgnoredScent) (gen : ℕ)
    → recovered l ≡ some (list, gen)
    → (found_any l.slot ≡ true) × (l.list ≡ list) × (l.generation ≡ gen)
unfolding recovered
recovered-eq-some l list gen e =
    let (ok, e1) =
      unless-some (l.error || not (found_any l.slot)) (some (l.list, l.generation)) e in
    let (_, some_slot) = or-false l.error (not (found_any l.slot)) ok in
    let (a, b) = pair-inj e1 in (ground (arith, some_slot), a, b)

-- The first slot is the latest so far, or none is.
visit_first :
    (first : ReadResult)
    → ((visit 0 first no_backup).slot ≡ none)
      ⊎ ((first ≡ valid (visit 0 first no_backup).list (visit 0 first no_backup).generation)
          × ((visit 0 first no_backup).slot ≡ some 0)
          × (0 < (visit 0 first no_backup).generation))
unfolding visit
visit_first missing = inl refl
visit_first invalid = inl refl
visit_first error = inl refl
visit_first (valid l g) = elim (Bool-cases (ltb 0 g)) [
  | inl e ↦ rw (e) (inr (refl, refl, ground (arith, e)))
  | inr e ↦ rw (e) (inl refl)
]

module _ (first : ReadResult) (list : List IgnoredScent) (gen : ℕ) where
  -- The second slot did not take over.
  stays_first :
      (second : ReadResult) (l : Latest)
      → l.slot ≡ (visit 0 first no_backup).slot
      → l.list ≡ (visit 0 first no_backup).list
      → l.generation ≡ (visit 0 first no_backup).generation
      → recovered l ≡ some (list, gen)
      → Chosen list gen first second l
  stays_first second l s t u e =
      let (found, same_list, same_gen) = recovered-eq-some l list gen e in
      elim (visit_first first) [
        | inl empty ↦
            let impossible : false ≡ true = sym (ap found_any (s ∙ empty)) ∙ found in
            absurd (ground (arith, impossible))
        | inr (is, at, pos) ↦
            subst (λ r. Chosen list gen r second l)
              (sym (is ∙ ap₂ valid (sym t ∙ same_list) (sym u ∙ same_gen)))
              (from_first second l (s ∙ at) same_gen (omega (arith, pos, u, same_gen)))
      ]

  takes_second :
      (b : List IgnoredScent) (n : ℕ) (l : Latest)
      → l.slot ≡ some 1
      → l.list ≡ b
      → l.generation ≡ n
      → 0 < n
      → recovered l ≡ some (list, gen)
      → Chosen list gen first (valid b n) l
  takes_second b n l s t u pos e =
      let (_, same_list, same_gen) = recovered-eq-some l list gen e in
      subst (λ r. Chosen list gen first r l) (ap₂ valid (sym same_list ∙ t) (sym same_gen ∙ u))
        (from_second first l s same_gen (omega (arith, pos, u, same_gen)))

  pub recovered-Chosen :
      (second : ReadResult)
      → Recovers first second list gen
      → Chosen list gen first second (latest_of first second)
  unfolding latest_of visit
  recovered-Chosen missing e = stays_first missing (latest_of first missing) refl refl refl e
  recovered-Chosen invalid e = stays_first invalid (latest_of first invalid) refl refl refl e
  recovered-Chosen error e = stays_first error (latest_of first error) refl refl refl e
  recovered-Chosen (valid b n) e = elim (Bool-cases (ltb (visit 0 first no_backup).generation n)) [
    | inl later ↦
        takes_second b n (latest_of first (valid b n)) (rw (later) refl) (rw (later) refl)
          (rw (later) refl) (ground (arith, later)) e
    | inr older ↦
        stays_first (valid b n) (latest_of first (valid b n)) (rw (older) refl) (rw (older) refl)
          (rw (older) refl) e
  ]

module _ (old list : List IgnoredScent) (gen : ℕ) where
  pub keep_first : 0 < gen → Recovers (valid old gen) invalid old gen
  unfolding recovered latest_of visit
  keep_first h = ground (arith, h)

  pub next_first : 0 < gen → Recovers (valid old gen) (valid list (gen + 1)) list (gen + 1)
  unfolding recovered latest_of visit
  next_first h = ground (arith, h)

  pub keep_second : 0 < gen → Recovers invalid (valid old gen) old gen
  unfolding recovered latest_of visit
  keep_second h = ground (arith, h)

  pub next_second : Recovers (valid list (gen + 1)) (valid old gen) list (gen + 1)
  unfolding recovered latest_of visit
  next_second = ground arith

names_differ :
    (base : List ℕ) (s t : ℕ)
    → (s == t) ≡ false
    → list_eq (base ++ suffix s) (base ++ suffix t) ≡ false
names_differ [] s t h = ground (arith, h)
names_differ (b ∷ base) s t h = rw (names_differ base s t h) (ground arith)

path-suffix :
    (base : List ℕ) (s : ℕ) (name : List ℕ) → path base s ≡ some name → name ≡ base ++ suffix s
unfolding path
path-suffix base s name e = elim (Bool-cases (ltb (length (base ++ suffix s)) 192)) [
  | inl short ↦ sym (some-inj (rw (short) at e))
  | inr long ↦ let impossible : none ≡ some name = rw (long) at e in cc
]

-- What the card holds after an attempt to write the backup: nothing new, or a cut or whole file.
pub data Stored (name bytes : List ℕ) (disk : Disk) : BackupResult → Disk → Type 0 where
  untouched : Stored name bytes disk failed disk
  cut_short :
      (rest : List ℕ)
      → (length rest ≡ length bytes → rest ≡ bytes)
      → Stored name bytes disk failed (overwrite name (stored rest) disk)
  whole : Stored name bytes disk written (overwrite name (stored bytes) disk)

take_whole : (k : ℕ) (bytes : List ℕ) → length (take k bytes) ≡ length bytes → take k bytes ≡ bytes
take_whole k bytes h = take_all bytes k (omega (arith, h, length-take k bytes))

pub store-Stored :
    (name bytes : List ℕ) (attempt : Attempt) (disk : Disk)
    → Stored name bytes disk (store name bytes attempt disk).0 (store name bytes attempt disk).1
unfolding store
store-Stored name bytes refused disk = untouched
store-Stored name bytes completed disk = whole
store-Stored name bytes (cut k) disk = cut_short (take k bytes) (take_whole k bytes)

module _ (hmac : List ℕ → List ℕ → Option (List ℕ)) (base key : List ℕ) where
  pub read_slot-overwrite :
      (disk : Disk) (s : ℕ) (name : List ℕ) (c : Contents)
      → path base s ≡ some name
      → read_slot hmac (overwrite name c disk) base s key ≡ check hmac key c
  unfolding read_at read_slot
  read_slot-overwrite disk s name c e = rw (e, list_eq_refl name) refl

  pub read_slot-overwrite_other :
      (disk : Disk) (s t : ℕ) (name : List ℕ) (c : Contents)
      → (s == t) ≡ false
      → path base t ≡ some name
      → read_slot hmac (overwrite name c disk) base s key ≡ read_slot hmac disk base s key
  read_slot-overwrite_other disk s t name c differ e = elim (Option-cases (path base s)) [
    | inl none_s ↦ unfold read_slot in rw (none_s) refl
    | inr (other, some_s) ↦
        let apart : list_eq other name ≡ false =
          rw (path-suffix base s other some_s, path-suffix base t name e)
            (names_differ base s t differ) in
        unfold read_slot read_at in rw (some_s, apart) refl
  ]
