-- ===== src/MealGuard.antt =====
-- `class MealGuard` of components/sniffer_core/include/sniffer/core.hpp and its functions in
-- engine.cpp: which detections may be eaten. uint64_t sums of the clock are written with their wrap.
-- The order that `std::sort` leaves among equal times is not specified; the model puts the later one of
-- the array first.
pub mod Cooldown
pub mod Guarded
pub mod Restart
mod Tests
use surveillance_hound.Common.{
  ℕ, zero, suc, ◌+◌, ◌-◌, ◌*◌, ◌/◌, ◌%◌, ◌^◌, ◌≤◌, ◌<◌, min, max, pred, ◌≡◌, refl, sym, ap, ap₂,
  subst, ◌∙◌, ◌≢◌, ◌↔◌, ◌⊎◌, inl, inr, Bool, true, false, not, ◌&&◌, ◌||◌, Option, none, some, List,
  [], ◌∷◌, ◌++◌, map, arith, ltb, leb, ◌==◌, if◌then◌else◌, bool_eq, to_bit, Bool-cases,
  Option-cases, get_or, set, take, replicate, length, find_index, min_index, u64_mod,
}
use surveillance_hound.Core.Category.{category_count, deauth}

pub record MealStamp : Type 0 where
  pub hash : ℕ
  pub remaining_ms : ℕ

abbrev pub blank_stamp : MealStamp
blank_stamp = record { hash = 0; remaining_ms = 0 }

abbrev pub stamp_count : ℕ
stamp_count = 128

abbrev pub full_cooldown : ℕ
full_cooldown = 1800000

pub record MealGuard : Type 0 where
  pub stamps : List MealStamp
  pub category_until : List ℕ
  pub global_until : ℕ

-- MealGuard{}
abbrev pub new_guard : MealGuard
new_guard = record {
  stamps = replicate stamp_count blank_stamp;
  category_until = replicate category_count 0;
  global_until = 0;
}

-- A stamp of this identity that still runs.
abbrev pub running : ℕ → ℕ → MealStamp → Bool
running hash now s = (s.hash == hash) && ltb now s.remaining_ms

-- The tests of `award`: nothing forbids a meal of this identity.
unfoldable pub allows : MealGuard → ℕ → ℕ → ℕ → ℕ → Bool → Bool
allows g hash now category score low =
    not (hash == 0 || ltb score (if low then 20 else 50))
    && not (ltb now g.global_until || ltb now (get_or g.category_until category 0))
    && elim (find_index (running hash now) g.stamps) [ none ↦ true | some i ↦ false ]

-- The stamp that is written: the identity's own, or the one that ends first.
unfoldable pub destination : List MealStamp → ℕ → ℕ
destination stamps hash = elim (find_index (λ s. s.hash == hash) stamps) [
  | some i ↦ i
  | none ↦ min_index (λ s. s.remaining_ms) stamps
]

abbrev pub cooldown : ℕ → ℕ
cooldown category = if category == deauth then 600000 else full_cooldown

unfoldable pub award : MealGuard → ℕ → ℕ → ℕ → ℕ → Bool → MealGuard × Bool
unfolding allows destination
award g hash now category score low =
    if not (allows g hash now category score low) then (g, false) else (
      record {
        stamps =
            set g.stamps (destination g.stamps hash)
              (record { hash = hash; remaining_ms = (now + cooldown category) % u64_mod });
        global_until = (now + 5000) % u64_mod;
        category_until = set g.category_until category ((now + 30000) % u64_mod);
      },
      true,
    )

-- The stamps that `restore` takes over, in order, while there is room.
unfoldable pub restored : List MealStamp → List MealStamp
restored [] = []
restored (s ∷ saved) =
    let rest = restored saved in
    if not (s.hash == 0) && not (s.remaining_ms == 0)
    then record { hash = s.hash; remaining_ms = full_cooldown } ∷ rest
    else rest

unfoldable pub restore : MealGuard → List MealStamp → MealGuard
unfolding restored
restore g saved = record g {
  stamps = take stamp_count (restored saved ++ replicate stamp_count blank_stamp);
}

-- Longest first.
unfoldable pub insert_stamp : MealStamp → List MealStamp → List MealStamp
insert_stamp s [] = s ∷ []
insert_stamp s (t ∷ ts) =
    if ltb t.remaining_ms s.remaining_ms then s ∷ t ∷ ts else t ∷ insert_stamp s ts

unfoldable pub sort_stamps : List MealStamp → List MealStamp
unfolding insert_stamp
sort_stamps [] = []
sort_stamps (s ∷ ss) = insert_stamp s (sort_stamps ss)

abbrev pub left_at : ℕ → MealStamp → MealStamp
left_at now s =
    if ltb now s.remaining_ms
    then record { hash = s.hash; remaining_ms = s.remaining_ms - now }
    else blank_stamp

unfoldable pub snapshot : MealGuard → ℕ → List MealStamp
unfolding sort_stamps
snapshot g now = map (left_at now) (take 32 (sort_stamps g.stamps))
