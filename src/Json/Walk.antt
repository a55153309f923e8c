-- ===== src/Json/Walk.antt =====
-- The loops of the reader end: enough fuel is given.
use surveillance_hound.Common.{
  ℕ, zero, suc, ◌<◌, ◌≡◌, refl, inl, inr, Bool, Option, some, List, [], ◌∷◌, arith, ◌==◌,
  if◌then◌else◌, Bool-cases, length, >>=_same,
}
use surveillance_hound.Json.{Reader, read_key, members, separate}
use surveillance_hound.Json.Scan.{space}
use surveillance_hound.Json.Rests.{length-space}
use surveillance_hound.Json.Bounds.{
  IsReader, IsReader-Grows, skip-IsReader, Sound, key_or_not-Grows,
}

separate_same :
    (close : ℕ) (r : Reader) (more more' : Reader → Option Reader) (s : List ℕ)
    → ((rest : List ℕ)
        → length rest < length s
        → more (record r { rest = rest }) ≡ more' (record r { rest = rest }))
    → separate close r more s ≡ separate close r more' s
unfolding separate
separate_same close r more more' [] h = refl
separate_same close r more more' (c ∷ cs) h = elim (Bool-cases (c == close)) [
  | inl e ↦ rw (e) refl
  | inr e ↦ elim (Bool-cases (c == b',')) [
    | inl f ↦ rw (e, f) (h cs (omega arith))
    | inr f ↦ rw (e, f) refl
  ]
]

module _ (input : List ℕ) (v : Reader → Option (ℕ × Reader)) (sound : Sound input v) where
  -- The loop over the members of an object or an array takes no more rounds than there are characters
  -- left: any fuel above that gives the same result.
  pub members-fuel :
      (f g close : ℕ) (keyed : Bool) (t : ℕ) (r : Reader)
      → IsReader input r
      → length r.rest < f
      → length r.rest < g
      → members input f v close keyed t r ≡ members input g v close keyed t r
  unfolding members
  members-fuel zero g close keyed t r h hf hg = absurd (omega arith)
  members-fuel (suc f) zero close keyed t r h hf hg = absurd (omega arith)
  members-fuel (suc f) (suc g) close keyed t r h hf hg =
      >>=_same (if keyed then read_key input v t r else some r) _ _ (λ r1 e1.
        let g1 = key_or_not-Grows input v sound keyed t r r1 h e1 in
        >>=_same (v r1) _ _ (λ (k, r2) e2.
          let read = sound r1 k r2 (IsReader-Grows input r r1 h g1) e2 in
          let h2 = IsReader-Grows input r1 r2 (IsReader-Grows input r r1 h g1) read.grows in
          separate_same close r2 (members input f v close keyed t) (members input g v close keyed t)
            (space r2.rest)
            (λ rest less.
              members-fuel f g close keyed t (record r2 { rest = rest })
                (skip-IsReader input r2 rest h2 (omega (arith, less, length-space r2.rest)))
                (omega (arith, less, length-space r2.rest, read.less, g1.shorter))
                (omega (arith, less, length-space r2.rest, read.less, g1.shorter)))))
