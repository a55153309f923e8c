-- ===== src/FollowScent/Samples.antt =====
-- The sample array as what it stands for: the last thirty one-second samples, oldest first.
use surveillance_hound.Common.{
  length-drop, length-append, length-take, ℕ, zero, suc, ◌-◌, ◌/◌, ◌≤◌, ◌<◌, ◌≡◌, refl, sym, ap,
  subst, ◌∙◌, inl, inr, Bool, true, false, List, [], ◌∷◌, ◌++◌, arith, ltb, ◌==◌, if◌then◌else◌,
  Bool-cases, get_or, set, take, drop, length, take_all, set-append_end,
}
use surveillance_hound.FollowScent.{
  FollowScent, Sample, blank_sample, history_size, shift, remember,
}

abbrev pub same_second : Sample → Sample → Bool
same_second a b = a.ms / 1000 == b.ms / 1000

-- The specification: a sample of the last one's second takes its place, any other goes to the end.
abbrev pub push_sample : List Sample → Sample → List Sample
push_sample [] s = s ∷ []
push_sample (x ∷ []) s = if same_second x s then s ∷ [] else x ∷ s ∷ []
push_sample (x ∷ y ∷ ys) s = x ∷ push_sample (y ∷ ys) s

abbrev pub keep_last : ℕ → List Sample → List Sample
keep_last n xs = drop (length xs - n) xs

abbrev pub samples : FollowScent → List Sample
samples f = take f.count f.history

replace_last :
    (h : List Sample) (n : ℕ) (s : Sample)
    → n < length h
    → same_second (get_or h n blank_sample) s ≡ true
    → take (suc n) (set h n s) ≡ push_sample (take (suc n) h) s
replace_last [] n s lt same = absurd (omega arith)
replace_last (x ∷ h) zero s lt same = ground arith
replace_last (x ∷ []) (suc n) s lt same = absurd (omega arith)
replace_last (x ∷ y ∷ h) (suc n) s lt same =
    ap (λ t. x ∷ t) (replace_last (y ∷ h) n s (omega arith) same)

push_first : (h : List Sample) (s : Sample) → 0 < length h → take 1 (set h 0 s) ≡ push_sample [] s
push_first [] s lt = absurd (omega arith)
push_first (x ∷ h) s lt = refl

push_last :
    (h : List Sample) (n : ℕ) (s : Sample)
    → suc n < length h
    → same_second (get_or h n blank_sample) s ≡ false
    → take (suc (suc n)) (set h (suc n) s) ≡ push_sample (take (suc n) h) s
push_last [] n s lt other = absurd (omega arith)
push_last (x ∷ []) n s lt other = absurd (omega arith)
push_last (x ∷ y ∷ h) zero s lt other = ground arith
push_last (x ∷ y ∷ h) (suc n) s lt other =
    ap (λ t. x ∷ t) (push_last (y ∷ h) n s (omega arith) other)

push_sample-append :
    (xs : List Sample) (n : ℕ) (s : Sample)
    → length xs ≡ suc n
    → same_second (get_or xs n blank_sample) s ≡ false
    → push_sample xs s ≡ xs ++ s ∷ []
push_sample-append [] n s e other = absurd (omega arith)
push_sample-append (x ∷ []) zero s e other = ground arith
push_sample-append (x ∷ []) (suc n) s e other = absurd (omega arith)
push_sample-append (x ∷ y ∷ ys) zero s e other = absurd (omega arith)
push_sample-append (x ∷ y ∷ ys) (suc n) s e other =
    ap (λ t. x ∷ t) (push_sample-append (y ∷ ys) n s (omega arith) other)

set-shift :
    (h : List Sample) (s : Sample)
    → length h ≡ history_size
    → set (shift h) 29 s ≡ drop 1 (h ++ s ∷ [])
unfolding shift
set-shift [] s e = absurd (omega arith)
set-shift (x ∷ xs) s e =
    subst (λ n. set (xs ++ last ∷ []) n s ≡ xs ++ s ∷ []) {x = length xs} {y = 29} (omega arith)
      (set-append_end xs last s)
  where
    last : Sample
    last = get_or (x ∷ xs) (length (x ∷ xs) - 1) blank_sample

keep_last-short : (xs : List Sample) → length xs ≤ history_size → keep_last history_size xs ≡ xs
keep_last-short xs h = rw (at_zero) refl
  where
    at_zero : length xs - history_size ≡ 0
    at_zero = omega arith

full_holds :
    (h : List Sample) (s : Sample)
    → length h ≡ history_size
    → same_second (get_or h 29 blank_sample) s ≡ false
    → take history_size (set (shift h) 29 s)
      ≡ keep_last history_size (push_sample (take history_size h) s)
full_holds h s e other =
    rw
      (
        set-shift h s e,
        take_all h history_size (omega arith),
        push_sample-append h 29 s e other,
        one_over,
      )
      (take_all (drop 1 (h ++ s ∷ [])) history_size
        (omega (arith, length-drop 1 (h ++ s ∷ []), length-append h (s ∷ []))))
  where
    one_over : length (h ++ s ∷ []) - history_size ≡ 1
    one_over = omega (arith, length-append h (s ∷ []))

module _ (f : FollowScent) (s : Sample) (size : length f.history ≡ history_size) where
  -- The array and count that `remember` leaves, and the samples that they stand for.
  record Leaves (h : List Sample) (n : ℕ) : Type 0 where
    history_is : (remember f s).history ≡ h
    count_is : (remember f s).count ≡ n
    holds : take n h ≡ keep_last history_size (push_sample (samples f) s)

  samples_of :
      {h : List Sample} {n : ℕ}
      → Leaves h n
      → samples (remember f s) ≡ keep_last history_size (push_sample (samples f) s)
  samples_of l = rw (l.history_is, l.count_is) l.holds

  remember_empty : f.count ≡ 0 → Leaves (set f.history 0 s) 1
  unfolding remember
  remember_empty e = record {
    history_is = ground arith;
    count_is = ground arith;
    holds = rw e (push_first f.history s (omega arith));
  }

  module _ (m : ℕ) (e : f.count ≡ suc m) (within : m < history_size) where
    remember_same :
        same_second (get_or f.history m blank_sample) s ≡ true → Leaves (set f.history m s) (suc m)
    unfolding remember
    remember_same same = record {
      history_is = ground (arith, last);
      count_is = ground (arith, last);
      holds = rw e (
          replaced
          ∙ sym (
              keep_last-short _
                (omega (arith, ap length replaced, length-take (suc m) (set f.history m s)))));
    }
      where
        last : f.count - 1 ≡ m
        last = omega arith

        replaced : take (suc m) (set f.history m s) ≡ push_sample (take (suc m) f.history) s
        replaced = replace_last f.history m s (omega arith) same

    remember_other :
        same_second (get_or f.history m blank_sample) s ≡ false
        → suc m < history_size
        → Leaves (set f.history (suc m) s) (suc (suc m))
    unfolding remember
    remember_other other room = record {
      history_is = ground (arith, last);
      count_is = ground (arith, last);
      holds = rw e (
          pushed
          ∙ sym (
              keep_last-short _ (
                omega
                  (arith, ap length pushed, length-take (suc (suc m)) (set f.history (suc m) s)))));
    }
      where
        last : f.count - 1 ≡ m
        last = omega arith

        pushed :
            take (suc (suc m)) (set f.history (suc m) s) ≡ push_sample (take (suc m) f.history) s
        pushed = push_last f.history m s (omega arith) other

    remember_full :
        same_second (get_or f.history m blank_sample) s ≡ false
        → m ≡ 29
        → Leaves (set (shift f.history) m s) history_size
    unfolding remember
    remember_full other full = record {
      history_is = ground (arith, last);
      count_is = ground (arith, last);
      holds =
          rw (e, full)
            (full_holds f.history s size
              (subst (λ k. same_second (get_or f.history k blank_sample) s ≡ false) full other));
    }
      where
        last : f.count - 1 ≡ m
        last = omega arith

-- Remembering a sample takes the last thirty of the samples with it pushed.
pub samples-remember :
    (f : FollowScent) (s : Sample)
    → length f.history ≡ history_size
    → f.count ≤ history_size
    → samples (remember f s) ≡ keep_last history_size (push_sample (samples f) s)
samples-remember f s size within = by_count f.count refl
  where
    nonempty :
        (m : ℕ)
        → f.count ≡ suc m
        → samples (remember f s) ≡ keep_last history_size (push_sample (samples f) s)
    nonempty m e = elim (Bool-cases (same_second (get_or f.history m blank_sample) s)) [
      | inl same ↦ samples_of f s size (remember_same f s size m e (omega arith) same)
      | inr other ↦ elim (Bool-cases (ltb (suc m) history_size)) [
        | inl room ↦
            samples_of f s size (remember_other f s size m e (omega arith) other (ground arith))
        | inr full ↦
            samples_of f s size (remember_full f s size m e (omega arith) other (ground arith))
      ]
    ]

    by_count :
        (n : ℕ)
        → f.count ≡ n
        → samples (remember f s) ≡ keep_last history_size (push_sample (samples f) s)
    by_count zero e = samples_of f s size (remember_empty f s size e)
    by_count (suc m) e = nonempty m e
