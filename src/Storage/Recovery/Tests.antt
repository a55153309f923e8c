-- ===== src/Storage/Recovery/Tests.antt =====
-- The recovery at concrete cards.
use surveillance_hound.Common.{◌≡◌, refl, false, none, some, [], ◌∷◌, if◌then◌else◌, list_eq}
use surveillance_hound.Core.Text.{codes}
use surveillance_hound.Storage.Recovery.{Card, Faults, new_recovery, begin, round, step}
use surveillance_hound.Storage.Recovery.Finish.{Repairs}
use surveillance_hound.Storage.Recovery.Repair.{round-Repairs}

abbrev fine : Faults
fine = record {
  readdir = false;
  fopen = false;
  read = false;
  close = false;
  tell = false;
  reopen = false;
  truncate = false;
  sync = false;
  close_again = false;
  closedir = false;
}

-- One file that holds the start of a row.
abbrev torn : Card
torn = λ p. if list_eq p (codes "/L/A.JSONL") then some (codes "{\"sch") else none

-- The first round opens the file, the second one cuts it.
torn-step :
    (step
        (fine ∷ fine ∷ [])
        ((begin (codes "/L") (some (codes "A.JSONL" ∷ [])) new_recovery).0, torn)).1
      (codes "/L/A.JSONL")
    ≡ some []
unfolding step begin
torn-step = refl

round-Repairs_example :
    Repairs
      (codes "/L/A.JSONL")
      false
      torn
      (round fine (
        step
          (fine ∷ [])
          ((begin (codes "/L") (some (codes "A.JSONL" ∷ [])) new_recovery).0, torn))).1
unfolding step begin
round-Repairs_example =
    round-Repairs (codes "/L") (some (codes "A.JSONL" ∷ [])) (fine ∷ []) fine torn
