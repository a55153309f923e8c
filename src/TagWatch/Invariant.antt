-- ===== src/TagWatch/Invariant.antt =====
-- The table invariant of `observe`, and the rule that a crowd never evicts a present identity.
use Prim.Native.Nat.{◌≤◌}
use surveillance_hound.Common.{
  All-replicate, get_or-ge, ℕ, ◌+◌, ◌-◌, ◌/◌, ◌≤◌, ◌<◌, ◌≡◌, refl, sym, ap, subst, ◌∙◌, ◌≢◌, ◌⊎◌,
  inl, inr, Bool, true, not, ◌&&◌, Option, none, some, List, arith, ltb, ◌==◌, Bool-cases, get_or,
  set, length, All, All-set, All-get_or, length-set, get_or-set, get_or-replicate, find_index-none,
}
use surveillance_hound.Core.{Detection}
use surveillance_hound.TagWatch.{
  resight, stale_slot, enrol, dismiss, sight, track, Entry, TagWatch, blank_entry, no_entries, gap,
  fresh, find, tag, admits, first_sighting, next_sighting, start, clear, observe,
}
use surveillance_hound.TagWatch.Outcome.{
  Outcome, Counts, keep, forget, begin, go_on, observe-Outcome,
}

-- An occupied entry counts each minute bin between its first and last sighting at most once.
abbrev pub IsEntry : ℕ → Entry → Type 0
IsEntry started e =
    (e.hash ≡ 0)
    ⊎ ((started ≤ e.first)
        × (e.first ≤ e.last)
        × (1 ≤ e.minutes)
        × (e.minutes ≤ (e.last - e.first) / 60000 + 1)
        × (e.minutes ≤ 65535)
        × (50 ≤ e.score)
        × (e.score ≤ 100)
        × (tag e.category ≡ true))

-- Two occupied entries have different hashes.
abbrev pub AreUnique : List Entry → Type 0
AreUnique es =
    (i j : ℕ)
    → (get_or es i blank_entry).hash ≢ 0
    → (get_or es i blank_entry).hash ≡ (get_or es j blank_entry).hash
    → i ≡ j

pub record IsValid (w : TagWatch) : Type 0 where
  pub size : length w.entries ≡ 16
  pub each : All (IsEntry w.started) w.entries
  pub unique : AreUnique w.entries

module _ {w : TagWatch} {hash : ℕ} {d : Detection} {now : ℕ} where
  -- A property of entries survives if blanking, a first and a next sighting have it.
  pub Outcome-All {ℓ} :
      (P : Entry → Type ℓ)
      → All P w.entries
      → P blank_entry
      → (Counts w hash d now → P (first_sighting hash d))
      → ((e : Entry)
          → P e
          → Counts w hash d now
          → e.hash ≡ hash
          → e.last < d.last_ms
          → d.last_ms - e.last ≤ gap
          → P (next_sighting d e))
      → {es : List Entry} → Outcome w hash d now es
      → All P es
  Outcome-All P h blank first next keep = h
  Outcome-All P h blank first next (forget i _ _ _ _) = All-set P w.entries i blank_entry h blank
  Outcome-All P h blank first next (begin i _ c _) = All-set P w.entries i _ h (first c)
  Outcome-All P h blank first next (go_on i _ c same later near) =
      All-set P w.entries i _ h
        (next _ (All-get_or P w.entries i blank_entry h blank) c same later near)

  Outcome-size : {es : List Entry} → Outcome w hash d now es → length es ≡ length w.entries
  Outcome-size keep = refl
  Outcome-size (forget i _ _ _ _) = length-set w.entries i _
  Outcome-size (begin i _ _ _) = length-set w.entries i _
  Outcome-size (go_on i _ _ _ _ _) = length-set w.entries i _

  first_sighting-IsEntry : Counts w hash d now → IsEntry w.started (first_sighting hash d)
  unfolding first_sighting admits
  first_sighting-IsEntry c = ground (arith, c.admitted)

  next_sighting-IsEntry :
      (e : Entry)
      → IsEntry w.started e
      → Counts w hash d now
      → e.last < d.last_ms
      → IsEntry w.started (next_sighting d e)
  unfolding next_sighting admits
  next_sighting-IsEntry e (inl z) c later = inl z
  next_sighting-IsEntry e (inr h) c later = inr (ground (arith, c.admitted))

AreUnique-set :
    (es : List Entry) (i : ℕ) (v : Entry)
    → AreUnique es
    → ((j : ℕ) → j ≢ i → (get_or es j blank_entry).hash ≡ v.hash → v.hash ≡ 0)
    → AreUnique (set es i v)
AreUnique-set es i v u clash a b nz e = ground (
  arith,
  get_or-set es i a v blank_entry,
  get_or-set es i b v blank_entry,
  u a b,
  clash a,
  clash b,
)

abbrev SameSettings : TagWatch → TagWatch → Type 0
SameSettings v w = (v.started ≡ w.started) × (v.armed ≡ w.armed) × (v.demo ≡ w.demo)

sight_settings :
    (w : TagWatch) (hash : ℕ) (d : Detection) (i : ℕ) → SameSettings (sight w hash d i) w
unfolding sight
sight_settings w hash d i = ground arith

track_settings :
    (w : TagWatch) (hash : ℕ) (d : Detection) (now : ℕ) (o : Option ℕ)
    → SameSettings (track w hash d now o) w
unfolding track enrol
track_settings w hash d now none = enrolled (stale_slot w.entries now)
  where
    enrolled : (o : Option ℕ) → SameSettings (enrol w hash d o) w
    enrolled none = (refl, refl, refl)
    enrolled (some i) = sight_settings (record w { entries = set w.entries i blank_entry }) hash d i
track_settings w hash d now (some i) = unfold resight in ground (arith, sight_settings w hash d i)

dismiss_settings : (w : TagWatch) (d : Detection) (o : Option ℕ) → SameSettings (dismiss w d o) w
unfolding dismiss
dismiss_settings w d none = (refl, refl, refl)
dismiss_settings w d (some i) = ground arith

module _ (w : TagWatch) (hash : ℕ) (d : Detection) (now : ℕ) where
  find_none-clash :
      (j : ℕ) → hash ≢ 0 → find hash w.entries ≡ none → (get_or w.entries j blank_entry).hash ≢ hash
  unfolding find
  find_none-clash j nz e same = elim (Bool-cases (ltb j (length w.entries))) [
    | inl lt ↦ ground (
      arith,
      find_index-none (λ (e : Entry). not (hash == 0) && (e.hash == hash)) w.entries j blank_entry
          e,
    )
    | inr ge ↦ ground (arith, get_or-ge w.entries j blank_entry)
  ]

  Outcome-unique : {es : List Entry} → AreUnique w.entries → Outcome w hash d now es → AreUnique es
  unfolding first_sighting next_sighting admits
  Outcome-unique u keep = u
  Outcome-unique u (forget i _ _ _ _) = AreUnique-set w.entries i blank_entry u (λ j ne e. refl)
  Outcome-unique u (begin i _ c (inl same)) =
      AreUnique-set w.entries i _ u (λ j ne e. ground (arith, c.admitted, u j i))
  Outcome-unique u (begin i _ c (inr none_found)) = AreUnique-set w.entries i _ u (λ j ne e.
      ground (arith, c.admitted, find_none-clash j (ground (arith, c.admitted)) none_found.1))
  Outcome-unique u (go_on i _ c same _ _) =
      AreUnique-set w.entries i _ u (λ j ne e. ground (arith, c.admitted, u j i))

  -- What a call leaves alone.
  pub observe_settings :
      ((observe w hash d now).started ≡ w.started)
      × ((observe w hash d now).armed ≡ w.armed)
      × ((observe w hash d now).demo ≡ w.demo)
  unfolding observe
  observe_settings = ground (
    arith,
    track_settings w hash d now (find hash w.entries),
    dismiss_settings w d (find hash w.entries),
  )

  -- A sighting leaves the table with 16 slots; each occupied one holds a watched tag, first seen no
  -- earlier than the start, whose minutes number at most the minute bins from its first to its last
  -- sighting; and no two hold one identity.
  pub observe-IsValid : IsValid w → IsValid (observe w hash d now)
  observe-IsValid v = record {
    size = Outcome-size out ∙ v.size;
    each =
        subst (λ t. All (IsEntry t) (observe w hash d now).entries) (sym observe_settings.0)
          (Outcome-All (IsEntry w.started) v.each (inl refl) first_sighting-IsEntry
            (λ e h c same later near. next_sighting-IsEntry e h c later) out);
    unique = Outcome-unique v.unique out;
  }
    where
      out : Outcome w hash d now (observe w hash d now).entries
      out = observe-Outcome w hash d now

  -- A sighting of one identity leaves the entry of every other identity that is still present as it
  -- was: a crowd that fills the table never evicts it.
  pub observe_keeps_fresh :
      (j : ℕ)
      → (get_or w.entries j blank_entry).hash ≢ hash
      → fresh (get_or w.entries j blank_entry) now ≡ true
      → get_or (observe w hash d now).entries j blank_entry ≡ get_or w.entries j blank_entry
  observe_keeps_fresh j other f = others_stay (observe-Outcome w hash d now)
    where
      others_stay :
          {es : List Entry}
          → Outcome w hash d now es
          → get_or es j blank_entry ≡ get_or w.entries j blank_entry
      others_stay keep = refl
      others_stay (forget i _ same _ _) =
          ground (arith, get_or-set w.entries i j blank_entry blank_entry)
      others_stay (begin i _ _ why) =
          ground (arith, why, get_or-set w.entries i j (first_sighting hash d) blank_entry)
      others_stay (go_on i _ _ same _ _) = ground (
        arith,
        get_or-set w.entries i j (next_sighting d (get_or w.entries i blank_entry)) blank_entry,
      )

-- `start` and `clear` make a valid table.
pub start-IsValid :
    (w : TagWatch) (now : ℕ) (synthetic : Bool)
    → IsValid (start w now synthetic) × IsValid (clear w)
unfolding start clear
start-IsValid w now synthetic = (
  record { size = refl; each = blanks now; unique = none_held },
  record { size = refl; each = blanks w.started; unique = none_held },
)
  where
    none_held : AreUnique no_entries
    none_held i j nz e =
        absurd (nz (ap (λ (x : Entry). x.hash) (get_or-replicate 16 i blank_entry)))

    blanks : (t : ℕ) → All (IsEntry t) no_entries
    blanks t = All-replicate (IsEntry t) 16 blank_entry (inl refl)
