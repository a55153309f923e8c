-- ===== src/Engine/Reach.antt =====
-- The entries that an observation touches: in the cache, and about that observation.
use surveillance_hound.Common.{
  some-inj, and-true, ==→eq, All-set, ℕ, ◌<◌, ◌≡◌, refl, sym, subst, inl, inr, true, Option, none,
  some, List, [], ◌∷◌, arith, ◌==◌, Bool-cases, All, length, get_or, set, length-set,
  get_or-set_same, get_or-set_other, find_index, find_index-some, min_index-lt, test_bit,
}
use surveillance_hound.Core.{Observation, Settings, Detection, Rule}
use surveillance_hound.Engine.{
  Entry, Touched, blank_entry, first_entry, see, credit, touch, locate, holds, free_entry,
}

-- A detection of an enabled category at the observation's time, address and channel.
pub record IsCurrent (o : Observation) (s : Settings) (d : Detection) : Type 0 where
  pub last_ms : d.last_ms ≡ o.ms
  pub address : d.address ≡ o.address
  pub address_type : d.address_type ≡ o.address_type
  pub channel : d.channel ≡ o.channel
  pub enabled : test_bit s.enabled_categories d.category ≡ true

-- Every touched entry is in the cache and current.
unfoldable pub AllCurrent : Observation → Settings → List Entry → Touched → Type 0
AllCurrent o s cache touched =
    All
      (λ t.
        (i : ℕ)
        → t ≡ some i
        → (i < length cache) × IsCurrent o s (get_or cache i blank_entry).detection)
      touched

module _ (o : Observation) (s : Settings) where
  write-IsCurrent :
      (cache : List Entry) (i j : ℕ) (e : Entry)
      → IsCurrent o s e.detection
      → j < length cache
      → IsCurrent o s (get_or cache j blank_entry).detection
      → (j < length (set cache i e))
        × IsCurrent o s (get_or (set cache i e) j blank_entry).detection
  write-IsCurrent cache i j e c lt old = elim (Bool-cases (j == i)) [
    | inl f ↦
        rw
          (
            ==→eq j i f,
            length-set cache i e,
            get_or-set_same cache i e blank_entry (subst (λ x. x < length cache) (==→eq j i f) lt),
          )
          (subst (λ x. x < length cache) (==→eq j i f) lt, c)
    | inr f ↦ rw (length-set cache i e, get_or-set_other cache i j e blank_entry f) (lt, old)
  ]

  pub write_AllCurrent :
      (cache : List Entry) (touched : Touched) (i : ℕ) (e : Entry)
      → IsCurrent o s e.detection
      → AllCurrent o s cache touched
      → AllCurrent o s (set cache i e) touched
  unfolding AllCurrent
  write_AllCurrent cache [] i e c h = tt
  write_AllCurrent cache (t ∷ touched) i e c h = (
    λ j f. let (lt, old) = h.0 j f in write-IsCurrent cache i j e c lt old,
    write_AllCurrent cache touched i e c h.1,
  )

  pub mark_touched :
      (cache : List Entry) (touched : Touched) (k i : ℕ)
      → i < length cache
      → IsCurrent o s (get_or cache i blank_entry).detection
      → AllCurrent o s cache touched
      → AllCurrent o s cache (set touched k (some i))
  unfolding AllCurrent
  mark_touched cache touched k i lt c h =
      All-set
        (λ t.
          (i : ℕ)
          → t ≡ some i
          → (i < length cache) × IsCurrent o s (get_or cache i blank_entry).detection)
        touched k (some i) h
        (λ j f.
          subst (λ x. (x < length cache) × IsCurrent o s (get_or cache x blank_entry).detection)
            (some-inj f) (lt, c))

  pub credit_keeps : (rule : Rule) (e : Entry) → (credit rule o e).detection ≡ e.detection
  unfolding credit
  credit_keeps rule e = ground arith

  -- The entry that a matching rule touches.
  pub record Reaches (cache : List Entry) (i : ℕ) (e : Entry) : Type 0 where
    pub inside : i < length cache
    pub current : IsCurrent o s e.detection

  seen-IsCurrent :
      (e : Entry)
      → test_bit s.enabled_categories e.detection.category ≡ true
      → IsCurrent o s (see o e).detection
  unfolding see
  seen-IsCurrent e on = record {
    last_ms = refl;
    address = refl;
    address_type = refl;
    channel = refl;
    enabled = on;
  }

  free_entry-lt :
      (cache : List Entry) (found : Option ℕ)
      → find_index (λ e. e.detection.seen_count == 0) cache ≡ found
      → 0 < length cache
      → free_entry cache found < length cache
  unfolding free_entry
  free_entry-lt cache (some i) e room =
      (find_index-some (λ e. e.detection.seen_count == 0) cache i blank_entry e).0
  free_entry-lt cache none e room = min_index-lt (λ e. e.detection.last_ms) cache room

  holds_category :
      (rule : Rule) (e : Entry) → holds rule o e ≡ true → e.detection.category ≡ rule.category
  unfolding holds
  holds_category rule e h =
      let (abc, d) = and-true _ _ h in let (ab, c) = and-true _ _ abc in ==→eq _ _ c

  locate-Reaches :
      (cache : List Entry) (rule : Rule) (found : Option ℕ)
      → 0 < length cache
      → test_bit s.enabled_categories rule.category ≡ true
      → find_index (holds rule o) cache ≡ found
      → Reaches cache (locate cache rule o found).0 (see o (locate cache rule o found).1)
  unfolding locate first_entry
  locate-Reaches cache rule none room on e = record {
    inside = free_entry-lt cache (find_index (λ e. e.detection.seen_count == 0) cache) refl room;
    current = seen-IsCurrent (first_entry rule o) on;
  }
  locate-Reaches cache rule (some i) room on e =
      let (lt, h) = find_index-some (holds rule o) cache i blank_entry e in
      record {
        inside = lt;
        current = seen-IsCurrent (get_or cache i blank_entry) (
            subst (λ c. test_bit s.enabled_categories c ≡ true)
              (sym (holds_category rule (get_or cache i blank_entry) h)) on);
      }

  pub touch-Reaches :
      (cache : List Entry) (rule : Rule) (found : Option ℕ)
      → 0 < length cache
      → test_bit s.enabled_categories rule.category ≡ true
      → ((i : ℕ)
          → found ≡ some i
          → (i < length cache) × IsCurrent o s (get_or cache i blank_entry).detection)
      → Reaches cache (touch cache rule o found).0 (touch cache rule o found).1
  unfolding touch
  touch-Reaches cache rule none room on h =
      locate-Reaches cache rule (find_index (holds rule o) cache) room on refl
  touch-Reaches cache rule (some i) room on h = record {
    inside = (h i refl).0;
    current = (h i refl).1;
  }
