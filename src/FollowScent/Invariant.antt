-- ===== src/FollowScent/Invariant.antt =====
-- What `select`, `restart` and `observe` keep true of the followed identity.
use surveillance_hound.Common.{
  All, ℕ, zero, suc, ◌-◌, ◌/◌, ◌≤◌, ◌<◌, ◌≡◌, refl, inl, inr, Bool, true, false, List, [], ◌∷◌,
  arith, leb, Bool-cases, get_or, take, drop, length, length-set, length-append, length-drop,
}
use surveillance_hound.Core.{Detection, Observation}
use surveillance_hound.FollowScent.{
  FollowScent, Sample, blank_sample, history_size, shift, remember, accepts, observe, select,
  restart,
}
use surveillance_hound.FollowScent.Samples.{samples, push_sample, samples-remember}

-- Each sample is of a later second than the one before.
abbrev pub Rising : List Sample → Type 0
Rising [] = Unit
Rising (x ∷ []) = Unit
Rising (x ∷ y ∷ ys) = (x.ms / 1000 < y.ms / 1000) × Rising (y ∷ ys)

-- The time of the newest sample is at most t.
abbrev pub NoneAfter : ℕ → List Sample → Type 0
NoneAfter t [] = Unit
NoneAfter t (x ∷ []) = x.ms ≤ t
NoneAfter t (x ∷ y ∷ ys) = NoneAfter t (y ∷ ys)

pub record IsOrdered (f : FollowScent) : Type 0 where
  pub size : length f.history ≡ history_size
  pub within : f.count ≤ history_size
  pub rising : Rising (samples f)
  pub newest : NoneAfter f.last_ms (samples f)
  pub unheard : f.received ≡ false → f.count ≡ 0

push_sample-NoneAfter : (xs : List Sample) (s : Sample) → NoneAfter s.ms (push_sample xs s)
push_sample-NoneAfter [] s = omega arith
push_sample-NoneAfter (x ∷ []) s = ground arith
push_sample-NoneAfter (x ∷ y ∷ []) s = ground arith
push_sample-NoneAfter (x ∷ y ∷ z ∷ ys) s = push_sample-NoneAfter (y ∷ z ∷ ys) s

push_sample-Rising :
    (xs : List Sample) (s : Sample) → Rising xs → NoneAfter s.ms xs → Rising (push_sample xs s)
push_sample-Rising [] s r n = tt
push_sample-Rising (x ∷ []) s r n = ground arith
push_sample-Rising (x ∷ y ∷ []) s r n = ground arith
push_sample-Rising (x ∷ y ∷ z ∷ ys) s r n = (r.0, push_sample-Rising (y ∷ z ∷ ys) s r.1 n)

drop-Rising : (n : ℕ) (xs : List Sample) → Rising xs → Rising (drop n xs)
drop-Rising zero xs r = r
drop-Rising (suc n) [] r = tt
drop-Rising (suc n) (x ∷ []) r = drop-Rising n [] tt
drop-Rising (suc n) (x ∷ y ∷ ys) r = drop-Rising n (y ∷ ys) r.1

drop-NoneAfter : (t n : ℕ) (xs : List Sample) → NoneAfter t xs → NoneAfter t (drop n xs)
drop-NoneAfter t zero xs h = h
drop-NoneAfter t (suc n) [] h = tt
drop-NoneAfter t (suc n) (x ∷ []) h = drop-NoneAfter t n [] tt
drop-NoneAfter t (suc n) (x ∷ y ∷ ys) h = drop-NoneAfter t n (y ∷ ys) h

NoneAfter-mono : (t u : ℕ) (xs : List Sample) → t ≤ u → NoneAfter t xs → NoneAfter u xs
NoneAfter-mono t u [] le h = tt
NoneAfter-mono t u (x ∷ []) le h = omega arith
NoneAfter-mono t u (x ∷ y ∷ ys) le h = NoneAfter-mono t u (y ∷ ys) le h

length-shift : (h : List Sample) → 0 < length h → length (shift h) ≡ length h
unfolding shift
length-shift h lt =
    omega
      (arith, length-append (drop 1 h) (get_or h (length h - 1) blank_sample ∷ []), length-drop 1 h)

remember_bounds :
    (f : FollowScent) (s : Sample)
    → length f.history ≡ history_size
    → f.count ≤ history_size
    → (length (remember f s).history ≡ history_size)
      × ((remember f s).count ≤ history_size)
      × ((remember f s).received ≡ f.received)
      × ((remember f s).last_ms ≡ f.last_ms)
unfolding remember
remember_bounds f s size within = ground (
  arith,
  length-set f.history (f.count - 1) s,
  length-set f.history f.count s,
  length-set (shift f.history) (f.count - 1) s,
  length-shift f.history (omega arith),
)

remember-IsOrdered :
    (f : FollowScent) (s : Sample)
    → IsOrdered f
    → f.received ≡ true
    → s.ms ≡ f.last_ms
    → NoneAfter s.ms (samples f)
    → IsOrdered (remember f s)
remember-IsOrdered f s v heard newest earlier = record {
  size = kept.0;
  within = kept.1;
  rising = rw (samples-remember f s v.size v.within) (
      drop-Rising (length pushed - history_size) pushed
        (push_sample-Rising (samples f) s v.rising earlier));
  newest =
      rw (samples-remember f s v.size v.within, kept.3, ← newest)
        (drop-NoneAfter s.ms (length pushed - history_size) pushed
          (push_sample-NoneAfter (samples f) s));
  unheard = λ e. ground (arith, kept.2);
}
  where
    pushed : List Sample
    pushed = push_sample (samples f) s

    kept :
        (length (remember f s).history ≡ history_size)
        × ((remember f s).count ≤ history_size)
        × ((remember f s).received ≡ f.received)
        × ((remember f s).last_ms ≡ f.last_ms)
    kept = remember_bounds f s v.size v.within

module _ (f : FollowScent) (o : Observation) (synthetic : Bool) where
  heard_earlier : IsOrdered f → accepts f o synthetic ≡ true → NoneAfter o.ms (samples f)
  unfolding accepts
  heard_earlier v a = elim (Bool-cases f.received) [
    | inl heard ↦ NoneAfter-mono f.last_ms o.ms (samples f) (ground arith) v.newest
    | inr silent ↦ rw (v.unheard silent) tt
  ]

  -- A call of `observe` leaves at most thirty samples, each of a later second than the one before,
  -- none after the time of the last observation taken, and no sample where none was taken.
  pub observe-IsOrdered : IsOrdered f → IsOrdered (observe f o synthetic).0
  unfolding observe
  observe-IsOrdered v = elim (Bool-cases (accepts f o synthetic)) [
    | inr refused ↦ rw (refused, observe) v
    | inl taken ↦
        rw (taken, observe)
          (remember-IsOrdered heard (record { ms = o.ms; rssi = o.rssi })
            (record {
              size = v.size;
              within = v.within;
              rising = v.rising;
              newest = heard_earlier v taken;
              unheard = λ e. cc;
            })
            refl refl (heard_earlier v taken))
  ]
    where
      heard : FollowScent
      heard = record f {
        address = o.address;
        address_type = o.address_type;
        received = true;
        last_ms = o.ms;
        rssi = o.rssi;
      }

-- Following a new identity, and starting over with the same one, begin with no sample.
pub restart-IsOrdered :
    (f : FollowScent) (d : Detection) (now : ℕ)
    → IsOrdered f
    → IsOrdered (restart f now) × IsOrdered (select d now)
unfolding restart select
restart-IsOrdered f d now v = (
  record { size = v.size; within = omega arith; rising = tt; newest = tt; unheard = λ e. refl },
  selected,
)
  where
    selected : IsOrdered (select d now)
    selected = elim (Bool-cases (leb 19 d.category)) [
      | inl bad ↦
          rw (bad, select)
            (record {
              size = refl;
              within = omega arith;
              rising = tt;
              newest = tt;
              unheard = λ e. refl;
            })
      | inr good ↦
          rw (good, select)
            (record {
              size = refl;
              within = omega arith;
              rising = tt;
              newest = tt;
              unheard = λ e. refl;
            })
    ]

-- Every sample is at most as late as the newest.
All-earlier : (t : ℕ) (xs : List Sample) → Rising xs → NoneAfter t xs → All (λ s. s.ms ≤ t) xs
All-earlier t [] r n = tt
All-earlier t (x ∷ []) r n = (n, tt)
All-earlier t (x ∷ y ∷ ys) r n =
    let rest = All-earlier t (y ∷ ys) r.1 n in (omega (arith, rest.0), rest)

All-take :
    (t n i : ℕ) (h : List Sample)
    → All (λ s. s.ms ≤ t) (take n h)
    → i < n
    → (get_or h i blank_sample).ms ≤ t
All-take t n i [] a lt = omega arith
All-take t zero i (x ∷ h) a lt = absurd (omega arith)
All-take t (suc n) zero (x ∷ h) a lt = a.0
All-take t (suc n) (suc i) (x ∷ h) a lt = All-take t n i h a.1 (omega arith)

-- No sample in use is later than the last observation taken.
pub samples_earlier :
    (f : FollowScent) (i : ℕ)
    → IsOrdered f
    → i < f.count
    → (get_or f.history i blank_sample).ms ≤ f.last_ms
samples_earlier f i v lt =
    All-take f.last_ms f.count i f.history (All-earlier f.last_ms (samples f) v.rising v.newest) lt
