-- ===== src/Storage/Snapshots/InFlight.antt =====
-- A snapshot that the worker has not released yet is never overwritten.
use surveillance_hound.Common.{
  and-true, all, some-inj, ℕ, zero, suc, ◌+◌, ◌≡◌, refl, subst, inl, inr, Bool, true, false, not,
  some, List, [], ◌∷◌, arith, ◌==◌, Bool-cases,
}
use surveillance_hound.Storage.Snapshots.{Slot, claim, claim_from, release, get, is_busy}

module _ {ℓ} (State : Type ℓ) (empty : State) where
  -- What the interface and the worker do to the slots.
  pub data Event : Type ℓ where
    claimed : State → Event
    released : ℕ → Event

  unfoldable pub after : Event → List (Slot State) → List (Slot State)
  after (claimed s) slots = (claim State s slots).0
  after (released i) slots = release State i slots

  unfoldable pub after_all : List Event → List (Slot State) → List (Slot State)
  unfolding after
  after_all [] slots = slots
  after_all (e ∷ es) slots = after_all es (after e slots)

  abbrev pub releases : ℕ → Event → Bool
  releases i (claimed s) = false
  releases i (released j) = i == j

  abbrev Holds : ℕ → State → List (Slot State) → Type ℓ
  Holds i s slots = (is_busy State i slots ≡ true) × (get State empty i slots ≡ s)

  claim_from-Holds :
      (n i : ℕ) (s t : State) (slots : List (Slot State))
      → Holds i s slots
      → Holds i s (claim_from State n t slots).0
  unfolding claim_from get
  claim_from-Holds n i s t [] h = h
  claim_from-Holds n zero s t (x ∷ slots) h = rw (h.0) (refl, h.1)
  claim_from-Holds n (suc i) s t (x ∷ slots) h = elim (Bool-cases x.busy) [
    | inl e ↦ rw (e) (claim_from-Holds (n + 1) i s t slots h)
    | inr e ↦ rw (e) h
  ]

  release-Holds :
      (i j : ℕ) (s : State) (slots : List (Slot State))
      → (i == j) ≡ false
      → Holds i s slots
      → Holds i s (release State j slots)
  unfolding release get
  release-Holds i j s [] differ h = h
  release-Holds zero zero s (x ∷ slots) differ h = absurd (ground (arith, differ))
  release-Holds zero (suc j) s (x ∷ slots) differ h = h
  release-Holds (suc i) zero s (x ∷ slots) differ h = h
  release-Holds (suc i) (suc j) s (x ∷ slots) differ h =
      release-Holds i j s slots (ground (arith, differ)) h

  -- A claim takes a slot that was free.
  claim_from-free :
      (n k : ℕ) (t : State) (slots : List (Slot State))
      → (claim_from State n t slots).1 ≡ some k
      → (i : ℕ) × (k ≡ n + i)
        × (is_busy State i slots ≡ false)
        × Holds i t (claim_from State n t slots).0
  unfolding claim_from get
  claim_from-free n k t [] e = cc
  claim_from-free n k t (x ∷ slots) e = elim (Bool-cases x.busy) [
    | inl b ↦
        let (i, at, free, held) = claim_from-free (n + 1) k t slots (rw (b) at e) in
        (suc i, omega (arith, at), free, rw (b) held)
    | inr b ↦ (zero, omega (arith, some-inj (rw (b) at e)), b, rw (b) (refl, refl))
  ]

  after_all-Holds :
      (i : ℕ) (s : State) (es : List Event) (slots : List (Slot State))
      → all (λ e. not (releases i e)) es ≡ true
      → Holds i s slots
      → Holds i s (after_all es slots)
  unfolding after_all after claim
  after_all-Holds i s [] slots kept h = h
  after_all-Holds i s (claimed t ∷ es) slots kept h =
      after_all-Holds i s es (claim_from State 0 t slots).0 kept (claim_from-Holds 0 i s t slots h)
  after_all-Holds i s (released j ∷ es) slots kept h =
      let (here, later) = and-true (not (i == j)) _ kept in
      after_all-Holds i s es (release State j slots) later
        (release-Holds i j s slots (ground (arith, here)) h)

  -- A snapshot that is claimed goes into a slot that was free, and whatever is claimed and released
  -- afterwards, as long as that slot is not released it stays busy and the worker reads what was stored:
  -- when both slots are busy a claim is refused, and nothing is overwritten.
  pub claim-Holds :
      (s : State) (slots : List (Slot State)) (i : ℕ) (es : List Event)
      → (claim State s slots).1 ≡ some i
      → all (λ e. not (releases i e)) es ≡ true
      → (is_busy State i slots ≡ false)
        × (is_busy State i (after_all es (claim State s slots).0) ≡ true)
        × (get State empty i (after_all es (claim State s slots).0) ≡ s)
  claim-Holds s slots i es e kept =
      let (j, at, free, held) = claim_from-free 0 i s slots (unfold claim in e) in
      let same : j ≡ i = omega (arith, at) in
      let (busy, stored) =
        after_all-Holds i s es (claim State s slots).0 kept
          (unfold claim in subst (λ k. Holds k s (claim_from State 0 s slots).0) same held) in
      (subst (λ k. is_busy State k slots ≡ false) same free, busy, stored)
