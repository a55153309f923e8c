-- ===== src/Companion/Ignores.antt =====
-- The ignore list: what `ignore` changes, when it refuses, and that it keeps the list valid.
use surveillance_hound.Common.{
  all-get_or, count_if-all, ℕ, zero, suc, ◌^◌, ◌≤◌, ◌<◌, ◌≡◌, refl, ◌≢◌, ◌↔◌, ◌⊎◌, inl, inr, Bool,
  true, false, not, ◌&&◌, ◌||◌, Option, none, some, List, [], ◌∷◌, arith, leb, ◌==◌, Bool-cases,
  get_or, set, find_index, all, length, find_none-all, find_some-all, find_index-some,
}
use surveillance_hound.Core.Category.{category_count}
use surveillance_hound.Companion.{
  Companion, IgnoredScent, blank_ignored, ignored_scent, ignored_hash, no_earlier,
  valid_ignores_from, valid_ignores, is_ignored, add_ignored, ignore, ignored_count,
}
use surveillance_hound.Companion.Digest.{hash_of-digest_of}

abbrev pub absent : ℕ → List IgnoredScent → Bool
absent h es = all (λ e. not (ignored_hash e == h)) es

pub ignored_hash-ignored_scent : (h c : ℕ) → h < 2 ^ 64 → ignored_hash (ignored_scent h c) ≡ h
unfolding ignored_scent
ignored_hash-ignored_scent h c lt = hash_of-digest_of h lt

absent-set :
    (h : ℕ) (es : List IgnoredScent) (i : ℕ) (v : IgnoredScent)
    → i < length es
    → ignored_hash (get_or es i blank_ignored) ≡ 0
    → h ≢ 0
    → absent h (set es i v) ≡ (not (ignored_hash v == h) && absent h es)
absent-set h [] i v lt z nz = absurd (omega arith)
absent-set h (e ∷ es) zero v lt z nz = ground arith
absent-set h (e ∷ es) (suc i) v lt z nz = ground (arith, absent-set h es i v)

pub is_ignored-absent : (c : Companion) (h : ℕ) → h ≢ 0 → is_ignored c h ≡ not (absent h c.ignored)
unfolding is_ignored
is_ignored-absent c h nz = by_search (find_index (λ e. ignored_hash e == h) c.ignored) refl
  where
    by_search :
        (o : Option ℕ)
        → find_index (λ e. ignored_hash e == h) c.ignored ≡ o
        → is_ignored c h ≡ not (absent h c.ignored)
    by_search none e = rw (find_none-all (λ e. ignored_hash e == h) c.ignored e) (ground arith)
    by_search (some i) e =
        rw (find_some-all (λ e. ignored_hash e == h) c.ignored i e) (ground arith)

module _ (c : Companion) (hash category : ℕ) where
  -- The three ways in which a call can end.
  data Ends : Companion × Bool → Type 0 where
    refused :
        (hash ≡ 0)
          ⊎ (category_count ≤ category)
          ⊎ ((is_ignored c hash ≡ false) × (ignored_count c ≡ length c.ignored))
        → Ends (c, false)
    known : hash ≢ 0 → category < category_count → is_ignored c hash ≡ true → Ends (c, true)
    added :
        (i : ℕ)
        → hash ≢ 0
        → category < category_count
        → is_ignored c hash ≡ false
        → i < length c.ignored
        → ignored_hash (get_or c.ignored i blank_ignored) ≡ 0
        → Ends (record c { ignored = set c.ignored i (ignored_scent hash category) }, true)

  add_ignored-Ends :
      (o : Option ℕ)
      → find_index (λ e. ignored_hash e == 0) c.ignored ≡ o
      → hash ≢ 0
      → category < category_count
      → is_ignored c hash ≡ false
      → Ends (add_ignored c hash category o)
  unfolding add_ignored ignored_count
  add_ignored-Ends none e nz ok new = refused (
      inr (
        inr (
          new,
          (count_if-all (λ e. not (ignored_hash e == 0)) c.ignored).0
              (find_none-all (λ e. ignored_hash e == 0) c.ignored e),
        )))
  add_ignored-Ends (some i) e nz ok new =
      let found = find_index-some (λ e. ignored_hash e == 0) c.ignored i blank_ignored e in
      added i nz ok new found.0 (ground (arith, found.1))

  ignore-Ends : Ends (ignore c hash category)
  unfolding ignore
  ignore-Ends = elim (Bool-cases (hash == 0 || leb category_count category)) [
    | inl bad ↦ rw (bad, ignore) (refused (ground arith))
    | inr good ↦ elim (Bool-cases (is_ignored c hash)) [
      | inl old ↦ rw (good, ignore, old) (known (ground arith) (ground arith) old)
      | inr new ↦
          rw (good, ignore, new)
            (add_ignored-Ends (find_index (λ e. ignored_hash e == 0) c.ignored) refl (ground arith)
              (ground arith) new)
    ]
  ]

  added_refutes :
      (i : ℕ)
      → i < length c.ignored
      → ignored_hash (get_or c.ignored i blank_ignored) ≡ 0
      → ignored_count c ≢ length c.ignored
  unfolding ignored_count
  added_refutes i lt z full = ground (
    arith,
    all-get_or (λ (e : IgnoredScent). not (ignored_hash e == 0)) c.ignored i blank_ignored
        ((count_if-all (λ e. not (ignored_hash e == 0)) c.ignored).1 full) lt,
  )

  -- `ignore` refuses an identity, and then changes nothing, exactly when its hash is zero, its
  -- category is out of range, or it is new and every entry of the list is in use.
  pub ignore_refuses : ((ignore c hash category).1 ≡ false) ↔ (
      (hash ≡ 0)
      ⊎ (category_count ≤ category)
      ⊎ ((is_ignored c hash ≡ false) × (ignored_count c ≡ length c.ignored)))
  ignore_refuses = (why (ignore-Ends), when ignore-Ends)
    where
      why :
          {r : Companion × Bool}
          → Ends r
          → r.1 ≡ false
          → (hash ≡ 0)
            ⊎ (category_count ≤ category)
            ⊎ ((is_ignored c hash ≡ false) × (ignored_count c ≡ length c.ignored))
      why (refused h) e = h
      why (known _ _ _) e = cc
      why (added _ _ _ _ _ _) e = cc

      when :
          {r : Companion × Bool}
          → Ends r
          → (hash ≡ 0)
            ⊎ (category_count ≤ category)
            ⊎ ((is_ignored c hash ≡ false) × (ignored_count c ≡ length c.ignored))
          → r.1 ≡ false
      when (refused _) h = refl
      when (known nz ok old) h = ground arith
      when (added i nz ok new lt z) h = ground (arith, added_refutes i lt z)

  -- An accepted identity is ignored afterwards, and of every other identity the list says what it
  -- said before: none is evicted.
  pub is_ignored-ignore :
      hash < 2 ^ 64
      → (ignore c hash category).1 ≡ true
      → (h : ℕ) → is_ignored (ignore c hash category).0 h ≡ (h == hash || is_ignored c h)
  is_ignored-ignore word yes_ h = after ignore-Ends yes_
    where
      entered :
          (i : ℕ)
          → hash ≢ 0
          → h ≢ 0
          → i < length c.ignored
          → ignored_hash (get_or c.ignored i blank_ignored) ≡ 0
          → is_ignored (record c { ignored = set c.ignored i (ignored_scent hash category) }) h
            ≡ (h == hash || is_ignored c h)
      entered i nz hz lt z =
          rw
            (
              is_ignored-absent
                  (record c { ignored = set c.ignored i (ignored_scent hash category) }) h hz,
              is_ignored-absent c h hz,
              absent-set h c.ignored i (ignored_scent hash category) lt z hz,
              ignored_hash-ignored_scent hash category word,
            )
            (ground arith)

      after :
          {r : Companion × Bool}
          → Ends r
          → r.1 ≡ true
          → is_ignored r.0 h ≡ (h == hash || is_ignored c h)
      after (refused _) e = cc
      after (known nz ok old) e = ground arith
      after (added i nz ok new lt z) e = elim (Bool-cases (h == 0)) [
        | inl zero_hash ↦ unfold is_ignored in ground arith
        | inr hz ↦ entered i nz (ground arith) lt z
      ]

-- Validity does not look at what stands before, except for the hash that is put in.
abbrev Extends : ℕ → List IgnoredScent → List IgnoredScent → Type 0
Extends v before after = (h : ℕ) → h ≢ v → no_earlier h before ≡ true → no_earlier h after ≡ true

Extends-cons :
    (v : ℕ) (e : IgnoredScent) (before after : List IgnoredScent)
    → Extends v before after
    → Extends v (e ∷ before) (e ∷ after)
unfolding no_earlier
Extends-cons v e before after x h ne ok = ground (arith, x h)

valid_from-Extends :
    (v : ℕ) (es before after : List IgnoredScent)
    → Extends v before after
    → absent v es ≡ true
    → valid_ignores_from before es ≡ true
    → valid_ignores_from after es ≡ true
unfolding valid_ignores_from
valid_from-Extends v [] before after x a ok = refl
valid_from-Extends v (e ∷ es) before after x a ok = ground (
  arith,
  x (ignored_hash e),
  valid_from-Extends v es (e ∷ before) (e ∷ after) (Extends-cons v e before after x),
)

valid_from-set :
    (before es : List IgnoredScent) (i : ℕ) (v : IgnoredScent)
    → v.category < category_count
    → ignored_hash (get_or es i blank_ignored) ≡ 0
    → no_earlier (ignored_hash v) before ≡ true
    → absent (ignored_hash v) es ≡ true
    → valid_ignores_from before es ≡ true
    → valid_ignores_from before (set es i v) ≡ true
unfolding valid_ignores_from
valid_from-set before [] i v ok z n a h = refl
valid_from-set before (e ∷ es) zero v ok z n a h =
    ground (arith, valid_from-Extends (ignored_hash v) es (e ∷ before) (v ∷ before) swapped)
  where
    swapped : Extends (ignored_hash v) (e ∷ before) (v ∷ before)
    swapped h' ne ok' = unfold no_earlier in ground arith
valid_from-set before (e ∷ es) (suc i) v ok z n a h =
    ground (arith, later, valid_from-set (e ∷ before) es i v ok z)
  where
    later : no_earlier (ignored_hash v) (e ∷ before) ≡ true
    later = unfold no_earlier in ground arith

-- `ignore` keeps a valid list valid: categories in range, and no hash twice.
pub ignore-valid_ignores :
    (c : Companion) (hash category : ℕ)
    → hash < 2 ^ 64
    → valid_ignores c.ignored ≡ true
    → valid_ignores (ignore c hash category).0.ignored ≡ true
unfolding valid_ignores
ignore-valid_ignores c hash category word v = after (ignore-Ends c hash category)
  where
    after :
        {r : Companion × Bool} → Ends c hash category r → valid_ignores_from [] r.0.ignored ≡ true
    after (refused _) = v
    after (known _ _ _) = v
    after (added i nz ok new lt z) =
        valid_from-set [] c.ignored i (ignored_scent hash category) (unfold ignored_scent in ok) z
          (unfold no_earlier in ground arith)
          (rw (ignored_hash-ignored_scent hash category word)
            (ground (arith, is_ignored-absent c hash nz)))
          v
