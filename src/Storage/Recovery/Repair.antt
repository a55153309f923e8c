-- ===== src/Storage/Recovery/Repair.antt =====
-- What the recovery does to the files on the card.
use surveillance_hound.Storage.Recovery.Finish.{
  no_rows, IsOpen, opened, Repairs, same, Ends, closed-IsOpen, close_input-none, read_row-Ends,
}
use surveillance_hound.Common.{
  ℕ, ◌+◌, ◌%◌, ◌^◌, ◌≡◌, refl, ◌∙◌, inl, inr, Bool, true, false, Option, none, some, List, [], ◌∷◌,
  ◌++◌, ltb, if◌then◌else◌, Bool-cases, length, take,
}
use surveillance_hound.Storage.Recovery.{
  Card, Faults, Input, Recovery, new_recovery, begin, error, failed_close, close_input, cancel,
  close_directory, is_log, open_file, visit_file, next_file, round_with, round_at, round, step,
  is_some,
}

close_directory-input : (fails : Bool) (r : Recovery) → (close_directory fails r).input ≡ r.input
unfolding close_directory failed_close error
close_directory-input fails r = elim (Bool-cases (is_some r.directory)) [
  | inl e ↦ rw (e) (by fails)
  | inr e ↦ rw (e) refl
]
  where
    by : (b : Bool) → (if b then failed_close r else r).input ≡ r.input
    by true = refl
    by false = refl

cancel-IsOpen :
    (close closedir : Bool) (r : Recovery) (card : Card)
    → IsOpen (cancel close closedir r) card (cancel close closedir r).input
cancel-IsOpen close closedir r card = closed-IsOpen _ card (
    unfold cancel in
    close_directory-input closedir (close_input close r) ∙ close_input-none close r)

open_file-IsOpen :
    (f : Faults) (path : List ℕ) (r : Recovery) (card : Card) (o : Option (List ℕ))
    → r.input ≡ none
    → card path ≡ o
    → IsOpen (open_file f path o r) card (open_file f path o r).input
unfolding open_file error
open_file-IsOpen f path r card none e at = closed-IsOpen _ card e
open_file-IsOpen f path r card (some contents) e at = elim (Bool-cases f.fopen) [
  | inl fails ↦ rw (fails) (closed-IsOpen _ card e)
  | inr opens ↦ rw (opens) (opened _ [] at refl refl no_rows)
]

visit_file-IsOpen :
    (f : Faults) (name : List ℕ) (r : Recovery) (card : Card)
    → r.input ≡ none
    → IsOpen (visit_file f name r card) card (visit_file f name r card).input
unfolding visit_file
visit_file-IsOpen f name r card e = elim (Bool-cases (ltb 4096 ((r.files + 1) % 2 ^ 32))) [
  | inl full ↦
      rw (full) (
        cancel-IsOpen f.close f.closedir (error (record r { files = (r.files + 1) % 2 ^ 32 })) card)
  | inr free ↦ elim (Bool-cases (ltb (length (r.root ++ (b'/' ∷ name))) 300)) [
    | inl fits ↦
        rw (free, fits) (open_file-IsOpen f _ _ card (card (r.root ++ (b'/' ∷ name))) e refl)
    | inr long ↦
        rw (free, long)
          (closed-IsOpen
            (error (record r {
              files = (r.files + 1) % 2 ^ 32;
              path = take 299 (r.root ++ (b'/' ∷ name));
            }))
            card (unfold error in e))
  ]
]

next_file-IsOpen :
    (f : Faults) (names : List (List ℕ)) (r : Recovery) (card : Card)
    → r.input ≡ none
    → IsOpen (next_file f names r card) card (next_file f names r card).input
unfolding next_file
next_file-IsOpen f [] r card e =
    cancel-IsOpen f.close f.closedir (if f.readdir then error r else r) card
next_file-IsOpen f (name ∷ names) r card e = by f.readdir (is_log name)
  where
    next : Bool → Bool → Recovery
    next a b =
        if a
        then cancel f.close f.closedir (error r)
        else if b
        then visit_file f name (record r { directory = some names }) card
        else record r { directory = some names }

    by : (a b : Bool) → IsOpen (next a b) card (next a b).input
    by true b = cancel-IsOpen f.close f.closedir (error r) card
    by false true = visit_file-IsOpen f name (record r { directory = some names }) card e
    by false false = closed-IsOpen (record r { directory = some names }) card e

round_with-Ends :
    (f : Faults) (names : List (List ℕ)) (o : Option Input) (r : Recovery) (card : Card)
    → r.input ≡ o
    → IsOpen r card o
    → Ends r.path r.read_only card (round_with f names o r card)
unfolding round_with
round_with-Ends f names none r card e h = (same, next_file-IsOpen f names r card e)
round_with-Ends f names (some i) r card e (opened _ rows at read good checked) =
    read_row-Ends r.path rows i.rest r.read_only card at checked f i r refl good refl refl read

round-Ends :
    (f : Faults) (r : Recovery) (card : Card)
    → IsOpen r card r.input
    → Ends r.path r.read_only card (round f (r, card))
unfolding round
round-Ends f r card h = by r.directory
  where
    by : (d : Option (List (List ℕ))) → Ends r.path r.read_only card (round_at f d r card)
    by none = unfold round_at in (same, h)
    by (some names) = unfold round_at in round_with-Ends f names r.input r card refl h

step-IsOpen :
    (fs : List Faults) (s : Recovery × Card)
    → IsOpen s.0 s.1 s.0.input
    → IsOpen (step fs s).0 (step fs s).1 (step fs s).0.input
unfolding step
step-IsOpen [] s h = h
step-IsOpen (f ∷ fs) (r, card) h = step-IsOpen fs (round f (r, card)) (round-Ends f r card h).1

-- After any rounds of the check of any card, and whichever calls fail, the next round either leaves
-- every file as it is, or cuts the one file that is being read behind the complete, valid rows it
-- starts with; what it cuts off has no newline in it, so it is no complete row, and this only happens
-- while no error was met: in the read-only state no file changes any more.
pub round-Repairs :
    (root : List ℕ) (names : Option (List (List ℕ))) (fs : List Faults) (f : Faults) (card : Card)
    → Repairs
        (step fs ((begin root names new_recovery).0, card)).0.path
        (step fs ((begin root names new_recovery).0, card)).0.read_only
        (step fs ((begin root names new_recovery).0, card)).1
        (round f (step fs ((begin root names new_recovery).0, card))).1
round-Repairs root names fs f card =
    (round-Ends f _ _ (
      step-IsOpen fs ((begin root names new_recovery).0, card)
        (closed-IsOpen _ card (begun names)))).0
  where
    begun : (o : Option (List (List ℕ))) → (begin root o new_recovery).0.input ≡ none
    begun none = unfold begin error in refl
    begun (some n) = unfold begin in refl
