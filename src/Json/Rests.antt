-- ===== src/Json/Rests.antt =====
-- What the character loops leave of the input.
use surveillance_hound.Common.{
  length-drop, some-inj, ℕ, suc, ◌≤◌, ◌<◌, ◌≡◌, ap, subst, inl, inr, true, Option, none, some, List,
  [], ◌∷◌, arith, Bool-cases, length, drop, >>=-eq-some,
}
use surveillance_hound.Core.Text.{starts_with}
use surveillance_hound.Json.{scan_word, word_of}
use surveillance_hound.Json.Scan.{
  Mode, space, scan_step, scan_string, digits, some_digits, whole_part, skip_sign, skip_minus,
  fraction, exponent, scan_number,
}

pub length-space : (s : List ℕ) → length (space s) ≤ length s
unfolding space
length-space [] = omega arith
length-space (c ∷ s) = ground (arith, length-space s)

pub scan_string-lt : (m : Mode) (s s' : List ℕ) → scan_string m s ≡ some s' → length s' < length s
unfolding scan_string
scan_string-lt m [] s' e = cc
scan_string-lt m (c ∷ s) s' e = go (λ m'. scan_string-lt m' s s') (scan_step m c) e
  where
    go :
        ((m' : Mode) → scan_string m' s ≡ some s' → length s' < length s)
        → (o : Option (Option Mode))
        → (elim o as (λ x. Option (List ℕ)) [
          | none ↦ none
          | some none ↦ some s
          | some (some m') ↦ scan_string m' s
        ])
          ≡ some s'
        → length s' < suc (length s)
    go ih none h = cc
    go ih (some none) h = subst (λ x. length x < suc (length s)) (some-inj h) (omega arith)
    go ih (some (some m')) h = omega (arith, ih m' h)

length-digits : (s : List ℕ) → length (digits s) ≤ length s
unfolding digits
length-digits [] = omega arith
length-digits (c ∷ s) = ground (arith, length-digits s)

some_digits-lt : (s s' : List ℕ) → some_digits s ≡ some s' → length s' < length s
unfolding some_digits
some_digits-lt [] s' e = cc
some_digits-lt (c ∷ s) s' e = ground (arith, length-digits s)

whole_part-lt : (s s' : List ℕ) → whole_part s ≡ some s' → length s' < length s
unfolding whole_part
whole_part-lt [] s' e = cc
whole_part-lt (c ∷ s) s' e = ground (arith, some_digits-lt (c ∷ s) s')

length-skip_minus : (s : List ℕ) → length (skip_minus s) ≤ length s
unfolding skip_minus
length-skip_minus [] = omega arith
length-skip_minus (c ∷ s) = ground arith

length-skip_sign : (s : List ℕ) → length (skip_sign s) ≤ length s
unfolding skip_sign
length-skip_sign [] = omega arith
length-skip_sign (c ∷ s) = ground arith

fraction-le : (s s' : List ℕ) → fraction s ≡ some s' → length s' ≤ length s
unfolding fraction
fraction-le [] s' e = ground arith
fraction-le (c ∷ s) s' e = ground (arith, some_digits-lt s s')

exponent-le : (s s' : List ℕ) → exponent s ≡ some s' → length s' ≤ length s
unfolding exponent
exponent-le [] s' e = ground arith
exponent-le (c ∷ s) s' e = ground (arith, some_digits-lt (skip_sign s) s', length-skip_sign s)

pub scan_number-lt : (s s' : List ℕ) → scan_number s ≡ some s' → length s' < length s
unfolding scan_number
scan_number-lt s s' e =
    let (s1, e1, f1) = >>=-eq-some (whole_part (skip_minus s)) _ e in
    let (s2, e2, f2) = >>=-eq-some (fraction s1) _ f1 in
    omega (
      arith,
      length-skip_minus s,
      whole_part-lt (skip_minus s) s1 e1,
      fraction-le s1 s2 e2,
      exponent-le s2 s' f2,
    )

starts_with-le : (s p : List ℕ) → starts_with s p ≡ true → length p ≤ length s
unfolding starts_with
starts_with-le s [] e = omega arith
starts_with-le [] (c ∷ p) e = cc
starts_with-le (d ∷ s) (c ∷ p) e = ground (arith, starts_with-le s p)

word_pos : (c : ℕ) → 0 < length (word_of c)
word_pos c = ground arith

pub scan_word-lt : (c : ℕ) (s s' : List ℕ) → scan_word c s ≡ some s' → length s' < length s
unfolding scan_word
scan_word-lt c s s' e = elim (Bool-cases (starts_with s (word_of c))) [
  | inl f ↦
      let same : drop (length (word_of c)) s ≡ s' = some-inj (rw f at e) in
      omega (
        arith,
        ap length same,
        length-drop (length (word_of c)) s,
        word_pos c,
        starts_with-le s (word_of c) f,
      )
  | inr f ↦ absurd (ground (arith, e, f))
]
