-- ===== src/Storage/Recovery/Finish.antt =====
-- Finishing a file: what the card holds afterwards.
use surveillance_hound.Storage.Recovery.Lines.{
  no_newline, read_line-end, read_line-append, c_string-line,
}
use surveillance_hound.Common.{
  ℕ, ◌+◌, ◌%◌, ◌^◌, ◌≡◌, refl, sym, ap, subst, ◌∙◌, inl, inr, Bool, true, false, not, ◌||◌, Option,
  none, some, List, [], ◌++◌, arith, ◌==◌, if◌then◌else◌, Bool-cases, length, length-append,
  or-false,
}
use mathlib.Core.List.{append_assoc}
use surveillance_hound.Core.Text.{c_string}
use surveillance_hound.Records.Validate.{valid_log_record}
use surveillance_hound.Storage.Recovery.{
  Card, Faults, Input, Recovery, error, failed_close, close_input, cut_file, reopened, repair,
  finish_file, read_line, last_is_newline, check_line, read_row, is_some,
}

-- Complete log rows, one after the other.
pub data IsRows : List ℕ → Type 0 where
  no_rows : IsRows []
  one_more :
      (rows row : List ℕ)
      → IsRows rows
      → last_is_newline row ≡ true
      → valid_log_record row ≡ true
      → IsRows (rows ++ row)

-- An open file is read up to the last row that was checked.
pub data IsOpen (r : Recovery) (card : Card) : Option Input → Type 0 where
  closed : IsOpen r card none
  opened :
      (i : Input) (rows : List ℕ)
      → card r.path ≡ some (rows ++ i.rest)
      → i.read ≡ length rows
      → r.good ≡ length rows
      → IsRows rows
      → IsOpen r card (some i)

-- Nothing changes, or the part of one file behind its complete rows goes, in which there is no newline.
pub data Repairs (path : List ℕ) (read_only : Bool) (card : Card) : Card → Type 0 where
  same : Repairs path read_only card card
  cut :
      (rows tail : List ℕ)
      → card path ≡ some (rows ++ tail)
      → IsRows rows
      → no_newline tail ≡ true
      → read_only ≡ false
      → Repairs path read_only card (cut_file path (length rows) card)

pub none_of : (o : Option Input) → is_some o ≡ false → o ≡ none
none_of none h = refl
none_of (some i) h = absurd (ground (arith, h))

pub close_input-none : (fails : Bool) (r : Recovery) → (close_input fails r).input ≡ none
unfolding close_input
close_input-none fails r = elim (Bool-cases (is_some r.input)) [
  | inl e ↦ rw (e) refl
  | inr e ↦ rw (e) (none_of r.input e)
]

-- Closing keeps the path and the mark, and never ends the read-only state.
abbrev Kept : Recovery → Recovery → Type 0
Kept r q = (q.path ≡ r.path) × (q.good ≡ r.good) × (q.read_only ≡ false → r.read_only ≡ false)

close_input-Kept : (fails : Bool) (r : Recovery) → Kept r (close_input fails r)
unfolding close_input failed_close error
close_input-Kept fails r = elim (Bool-cases (is_some r.input)) [
  | inl e ↦ rw (e) (by fails)
  | inr e ↦ rw (e) (refl, refl, λ h. h)
]
  where
    by : (b : Bool) → Kept r (record (if b then failed_close r else r) { input = none })
    by true = (refl, refl, λ h. absurd (ground (arith, h)))
    by false = (refl, refl, λ h. h)

error-Kept : (failed : Bool) (r : Recovery) → Kept r (if failed then error r else r)
unfolding error
error-Kept true r = (refl, refl, λ h. absurd (ground (arith, h)))
error-Kept false r = (refl, refl, λ h. h)

-- The recovery once a line is read.
abbrev taken : Input → Recovery → Recovery
taken i r = record r {
  input = some (record {
    rest = (read_line 2047 i.rest).1;
    read = i.read + length (read_line 2047 i.rest).0;
  });
}

-- What a round leads to.
abbrev pub Ends : List ℕ → Bool → Card → Recovery × Card → Type 0
Ends path read_only card s = Repairs path read_only card s.1 × IsOpen s.0 s.1 s.0.input

pub closed-IsOpen : (r : Recovery) (card : Card) → r.input ≡ none → IsOpen r card r.input
closed-IsOpen r card e = subst (IsOpen r card) (sym e) closed

module _ (path rows tail : List ℕ) (read_only : Bool) (card : Card)
    (at : card path ≡ some (rows ++ tail)) (checked : IsRows rows) where
  repair-Ends :
      (f : Faults) (r : Recovery)
      → r.path ≡ path
      → r.good ≡ length rows
      → r.input ≡ none
      → read_only ≡ false
      → no_newline tail ≡ true
      → Ends path read_only card (repair f r card)
  unfolding repair
  repair-Ends f r p g none_open writable last = by f.reopen f.truncate f.sync
    where
      by :
          (a b c : Bool)
          → Ends path read_only card (
              if a
              then (error r, card)
              else if b
              then (close_input f.close_again (failed_close (reopened r)), card)
              else (
                close_input f.close_again (if c then failed_close (reopened r) else reopened r),
                cut_file r.path r.good card,
              ))
      by true b c = (same, closed-IsOpen (error r) card (unfold error in none_open))
      by false true c =
          (same, closed-IsOpen _ card (close_input-none f.close_again (failed_close (reopened r))))
      by false false c = (
        subst (Repairs path read_only card) (λ i. cut_file (sym p i) (sym g i) card)
            (cut rows tail at checked last writable),
        closed-IsOpen _ _
            (close_input-none f.close_again (if c then failed_close (reopened r) else reopened r)),
      )

  -- `partial` says that the file ended within a line.
  finish_file-Ends :
      (f : Faults) (failed partial : Bool) (r : Recovery)
      → r.path ≡ path
      → r.good ≡ length rows
      → (r.read_only ≡ false → read_only ≡ false)
      → (partial ≡ true → no_newline tail ≡ true)
      → Ends path read_only card (finish_file f failed partial r card)
  unfolding finish_file
  finish_file-Ends f failed partial r p g writable last =
      let q = close_input f.close (if failed then error r else r) in
      elim (Bool-cases (not partial || q.read_only)) [
        | inl e ↦
            rw (e) (
              same,
              closed-IsOpen q card (close_input-none f.close (if failed then error r else r)),
            )
        | inr e ↦
            let (part, open_q) = or-false (not partial) q.read_only e in
            let (p1, g1, w1) = close_input-Kept f.close (if failed then error r else r) in
            let (p2, g2, w2) = error-Kept failed r in
            rw (e) (
              repair-Ends f q (p1 ∙ p2 ∙ p) (g1 ∙ g2 ∙ g)
                (close_input-none f.close (if failed then error r else r))
                (writable (w2 (w1 open_q))) (last (ground (arith, part))))
      ]

  gives_up :
      (f : Faults) (i : Input) (r : Recovery)
      → r.path ≡ path
      → r.good ≡ length rows
      → Ends path read_only card (finish_file f false false (error (taken i r)) card)
  unfolding error
  gives_up f i r p g =
      finish_file-Ends f false false (error (taken i r)) p g (λ h. absurd (ground (arith, h)))
        (λ h. absurd (ground (arith, h)))

  next_row :
      (f : Faults) (i : Input) (r : Recovery)
      → r.path ≡ path
      → i.rest ≡ tail
      → i.read ≡ length rows
      → last_is_newline (c_string (read_line 2047 i.rest).0) ≡ true
      → valid_log_record (c_string (read_line 2047 i.rest).0) ≡ true
      → IsOpen
          (record (taken i r) {
            good = i.read + length (read_line 2047 i.rest).0;
            rows = (r.rows + 1) % 2 ^ 32;
          })
          card
          (taken i r).input
  next_row f i r p t n e v =
      let line = (read_line 2047 i.rest).0 in
      let whole = c_string-line 2047 i.rest e in
      let size : i.read + length line ≡ length (rows ++ line) =
        omega (arith, n, length-append rows line) in
      opened _ (rows ++ line)
        (ap card p
          ∙ at
          ∙ ap (λ u. some (rows ++ u)) (sym t ∙ sym (read_line-append 2047 i.rest))
          ∙ ap some (sym (append_assoc rows line (read_line 2047 i.rest).1)))
        size size
        (one_more rows line checked (ap last_is_newline (sym whole) ∙ e)
          (ap valid_log_record (sym whole) ∙ v))

  check_line-Ends :
      (f : Faults) (i : Input) (r : Recovery)
      → r.path ≡ path
      → r.good ≡ length rows
      → r.read_only ≡ read_only
      → i.rest ≡ tail
      → i.read ≡ length rows
      → Ends path read_only card (check_line f i r card)
  unfolding check_line
  check_line-Ends f i r p g w t n =
      let line = (read_line 2047 i.rest).0 in
      elim (Bool-cases (last_is_newline (c_string line))) [
        | inl e ↦ elim (Bool-cases (valid_log_record (c_string line))) [
          | inl v ↦ elim (Bool-cases f.tell) [
            | inl l ↦ rw (e, v, l) (gives_up f i r p g)
            | inr l ↦ rw (e, v, l) (same, next_row f i r p t n e v)
          ]
          | inr v ↦ rw (e, v) (gives_up f i r p g)
        ]
        | inr e ↦ rw (e) (elim (Bool-cases (read_line 2047 i.rest).2) [
          | inl last ↦ rw (last) (
              finish_file-Ends f false true (taken i r) p g (λ h. sym w ∙ h)
                (λ _. ap no_newline (sym t) ∙ read_line-end 2047 i.rest last))
          | inr more ↦ rw (more) (gives_up f i r p g)
        ])
      ]

  pub read_row-Ends :
      (f : Faults) (i : Input) (r : Recovery)
      → r.path ≡ path
      → r.good ≡ length rows
      → r.read_only ≡ read_only
      → i.rest ≡ tail
      → i.read ≡ length rows
      → Ends path read_only card (read_row f i r card)
  unfolding read_row
  read_row-Ends f i r p g w t n = by f.read (length i.rest == 0)
    where
      done : (failed : Bool) → Ends path read_only card (finish_file f failed false r card)
      done failed =
          finish_file-Ends f failed false r p g (λ h. sym w ∙ h) (λ h. absurd (ground (arith, h)))

      by :
          (a b : Bool)
          → Ends path read_only card (
              if a
              then finish_file f true false r card
              else if b
              then finish_file f false false r card
              else check_line f i r card)
      by true b = done true
      by false true = done false
      by false false = check_line-Ends f i r p g w t n
