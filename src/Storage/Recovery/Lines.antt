-- ===== src/Storage/Recovery/Lines.antt =====
-- The lines that the check reads, and what follows from how a line ends.
use surveillance_hound.Common.{
  ℕ, zero, suc, ◌≡◌, refl, sym, ap, ◌∙◌, inl, inr, Bool, true, false, not, List, [], ◌∷◌, ◌++◌,
  arith, ◌==◌, Bool-cases, all,
}
use surveillance_hound.Core.Text.{c_string}
use surveillance_hound.Storage.Recovery.{read_line, last_is_newline}

abbrev pub no_newline : List ℕ → Bool
no_newline s = all (λ c. not (c == 10)) s

-- At the end of the file the line is all there was, and has no newline unless it ends in one.
pub read_line-end : (n : ℕ) (s : List ℕ) → (read_line n s).2 ≡ true → no_newline s ≡ true
unfolding read_line
read_line-end zero s e = ground (arith, e)
read_line-end (suc n) [] e = refl
read_line-end (suc n) (c ∷ s) e = elim (Bool-cases (c == 10)) [
  | inl nl ↦ let impossible : false ≡ true = rw (nl) at e in absurd (ground (arith, impossible))
  | inr other ↦ rw (other) (read_line-end n s (rw (other) at e))
]

pub read_line-append : (n : ℕ) (s : List ℕ) → (read_line n s).0 ++ (read_line n s).1 ≡ s
unfolding read_line
read_line-append zero s = refl
read_line-append (suc n) [] = refl
read_line-append (suc n) (c ∷ s) = elim (Bool-cases (c == 10)) [
  | inl nl ↦ rw (nl) refl
  | inr other ↦ rw (other) (ap (λ t. c ∷ t) (read_line-append n s))
]

pub last_is_newline-cons :
    (c : ℕ) (s : List ℕ) → (c == 10) ≡ false → last_is_newline (c ∷ s) ≡ last_is_newline s
last_is_newline-cons c [] h = h
last_is_newline-cons c (d ∷ s) h = refl

-- Where the row up to a zero ends in a newline, it is the whole line.
pub c_string-line :
    (n : ℕ) (s : List ℕ)
    → last_is_newline (c_string (read_line n s).0) ≡ true
    → c_string (read_line n s).0 ≡ (read_line n s).0
unfolding read_line c_string
c_string-line zero s e = refl
c_string-line (suc n) [] e = refl
c_string-line (suc n) (c ∷ s) e = elim (Bool-cases (c == 10)) [
  | inl nl ↦ let filled : (c == 0) ≡ false = ground (arith, nl) in rw (nl, filled) refl
  | inr other ↦ elim (Bool-cases (c == 0)) [
    | inl z ↦
        let impossible : false ≡ true = rw (other, z) at e in absurd (ground (arith, impossible))
    | inr z ↦
        let e1 : last_is_newline (c ∷ c_string (read_line n s).0) ≡ true = rw (other, z) at e in
        rw (other, z)
          (ap (λ t. c ∷ t)
            (c_string-line n s
              (sym (last_is_newline-cons c (c_string (read_line n s).0) other) ∙ e1)))
  ]
]
