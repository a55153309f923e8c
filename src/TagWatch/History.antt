-- ===== src/TagWatch/History.antt =====
-- Where a Travel Watch warning comes from: the sightings since `start`, newest first.
use surveillance_hound.Common.{
  ℕ, ◌+◌, ◌-◌, ◌/◌, ◌≤◌, ◌<◌, min, ◌≡◌, refl, sym, subst, ◌⊎◌, inl, inr, Bool, true, false, not,
  ◌&&◌, some, List, [], ◌∷◌, arith, ◌==◌, if◌then◌else◌, get_or, All, All-get_or, All-replicate,
  find_index-some,
}
use surveillance_hound.Core.{Detection, samsung_connected}
use surveillance_hound.TagWatch.{
  Entry, TagWatch, blank_entry, gap, duration, required_minutes, ready, admits, tag, first_sighting,
  next_sighting, start, observe, warning,
}
use surveillance_hound.TagWatch.Outcome.{Counts, observe-Outcome}
use surveillance_hound.TagWatch.Invariant.{Outcome-All}

-- One call of `observe`: the keyed identity, the detection and the time of the call.
pub record Call : Type 0 where
  pub hash : ℕ
  pub detection : Detection
  pub now : ℕ

unfoldable pub run : TagWatch → List Call → TagWatch
run w [] = w
run w (c ∷ log) = observe (run w log) c.hash c.detection c.now

-- The log holds a detection of this identity at time t, of a watched kind of tag, away from its
-- owner, with a score from 50 up.
abbrev pub Heard : ℕ → ℕ → List Call → Type 0
Heard hash t [] = ⊥
Heard hash t (c ∷ log) =
    ((c.hash ≡ hash)
      × (c.detection.last_ms ≡ t)
      × (50 ≤ c.detection.score)
      × (tag c.detection.category ≡ true)
      × (samsung_connected c.detection ≡ false))
    ⊎ Heard hash t log

-- Detections of one identity, each at most two minutes after the one before, with the number of
-- minute bins counted from the first.
pub data Trail (log : List Call) (hash first : ℕ) : ℕ → ℕ → Type 0 where
  single : Heard hash first log → Trail log hash first first 1
  longer :
      {last t minutes minutes' : ℕ}
      → Trail log hash first last minutes
      → Heard hash t log
      → last < t
      → t - last ≤ gap
      → minutes' ≡ (
          if (t - first) / 60000 == (last - first) / 60000
          then minutes
          else min 65535 (minutes + 1))
      → Trail log hash first t minutes'

Trail-later :
    {log : List Call} {hash first last minutes : ℕ} (c : Call)
    → Trail log hash first last minutes
    → Trail (c ∷ log) hash first last minutes
Trail-later c (single h) = single (inr h)
Trail-later c (longer t h a b e) = longer (Trail-later c t) (inr h) a b e

abbrev Supported : List Call → Entry → Type 0
Supported log e = (e.hash ≡ 0) ⊎ Trail log e.hash e.first e.last e.minutes

All-later :
    (log : List Call) (c : Call) (es : List Entry)
    → All (Supported log) es
    → All (Supported (c ∷ log)) es
All-later log c [] h = tt
All-later log c (e ∷ es) (inl z, h) = (inl z, All-later log c es h)
All-later log c (e ∷ es) (inr t, h) = (inr (Trail-later c t), All-later log c es h)

Heard-now :
    (w : TagWatch) (log : List Call) (c : Call)
    → Counts w c.hash c.detection c.now
    → Heard c.hash c.detection.last_ms (c ∷ log)
unfolding admits
Heard-now w log c k = inl (ground (arith, k.admitted, k.away))

first_sighting-Supported :
    (w : TagWatch) (log : List Call) (c : Call)
    → Counts w c.hash c.detection c.now
    → Supported (c ∷ log) (first_sighting c.hash c.detection)
unfolding first_sighting
first_sighting-Supported w log c k = inr (single (Heard-now w log c k))

next_sighting-Supported :
    (w : TagWatch) (log : List Call) (c : Call) (e : Entry)
    → Supported (c ∷ log) e
    → Counts w c.hash c.detection c.now
    → e.hash ≡ c.hash
    → e.last < c.detection.last_ms
    → c.detection.last_ms - e.last ≤ gap
    → Supported (c ∷ log) (next_sighting c.detection e)
unfolding next_sighting
next_sighting-Supported w log c e (inl z) k same later near = inl z
next_sighting-Supported w log c e (inr t) k same later near = inr (
    longer t (subst (λ h. Heard h c.detection.last_ms (c ∷ log)) (sym same) (Heard-now w log c k))
      later near refl)

run-Supported :
    (w : TagWatch) (log : List Call)
    → All (Supported []) w.entries
    → All (Supported log) (run w log).entries
unfolding run
run-Supported w [] h = h
run-Supported w (c ∷ log) h =
    Outcome-All (Supported (c ∷ log)) (All-later log c _ (run-Supported w log h)) (inl refl)
      (first_sighting-Supported (run w log) log c)
      (λ e s k same later near. next_sighting-Supported (run w log) log c e s k same later near)
      (observe-Outcome (run w log) c.hash c.detection c.now)

start-Supported :
    (w : TagWatch) (at : ℕ) (synthetic : Bool) → All (Supported []) (start w at synthetic).entries
unfolding start
start-Supported w at synthetic = All-replicate (Supported []) 16 blank_entry (inl refl)

module _ (w : TagWatch) (at : ℕ) (synthetic : Bool) (log : List Call) (now i : ℕ) where
  abbrev pub watched : TagWatch
  watched = run (start w at synthetic) log

  abbrev pub warned : Entry
  warned = get_or watched.entries i blank_entry

  -- What stands behind a warning about entry e.
  pub record Backed (e : Entry) : Type 0 where
    pub trail : Trail log e.hash e.first e.last e.minutes
    pub long : e.first + duration ≤ e.last
    pub bins : required_minutes ≤ e.minutes
    pub not_later : e.last ≤ now
    pub recent : now ≤ e.last + gap
    pub unseen : e.acknowledged ≡ false

  warning-tests :
      warning watched now ≡ some i → (ready warned now ≡ true) × (warned.acknowledged ≡ false)
  unfolding warning
  warning-tests e = ground (
    arith,
    find_index-some (λ (e : Entry). ready e now && not e.acknowledged) watched.entries i
        blank_entry,
  )

  -- After any calls since `start`, a warning names an identity whose logged detections, of a
  -- watched tag away from its owner and scored at least 50, go on without a gap of over two minutes
  -- for at least ten minutes, in at least eight counted minute bins, up to less than two minutes ago
  -- (or exactly two); and it has not been acknowledged.
  pub warning-Backed : warning watched now ≡ some i → Backed warned
  unfolding ready
  warning-Backed e =
      assemble (All-get_or (Supported log) watched.entries i blank_entry held (inl refl))
    where
      held : All (Supported log) watched.entries
      held = run-Supported (start w at synthetic) log (start-Supported w at synthetic)

      tests : (ready warned now ≡ true) × (warned.acknowledged ≡ false)
      tests = warning-tests e

      assemble : Supported log warned → Backed warned
      assemble (inl z) = absurd (ground (arith, tests))
      assemble (inr t) = record {
        trail = t;
        long = ground (arith, tests);
        bins = ground (arith, tests);
        not_later = ground (arith, tests);
        recent = ground (arith, tests);
        unseen = tests.1;
      }
