-- ===== src/Parsers/Ble/Framing.antt =====
-- The framing of advertisements, against an encoder of structures.
use surveillance_hound.Common.{
  ℕ, zero, suc, ◌+◌, ◌-◌, ◌≤◌, ◌<◌, ◌≡◌, refl, ap, ◌∙◌, true, false, Option, none, some, List, [],
  ◌∷◌, ◌++◌, arith, ltb, ◌==◌, take, drop, length, all, replicate, take-append, drop-append,
  length-append,
}
use mathlib.Core.Option
use surveillance_hound.Core.{Observation}
use surveillance_hound.Parsers.Ble.{
  Progress, add_structure, parse_structures, begin_ble, with_samsung, parse_ble,
}

-- A type and a value.
pub record Structure : Type 0 where
  pub type : ℕ
  pub value : List ℕ

abbrev pub frame : Structure → List ℕ → List ℕ
frame s rest = suc (length s.value) ∷ s.type ∷ (s.value ++ rest)

-- The structures one after the other, and k zero bytes behind them.
abbrev pub frames : List Structure → ℕ → List ℕ
frames [] k = replicate k 0
frames (s ∷ ss) k = frame s (frames ss k)

-- The structures read in order, up to the first that is refused.
abbrev pub add_all : List Structure → Progress → Option Progress
add_all [] p = some p
add_all (s ∷ ss) p = Option.bind (add_structure s.type s.value p) (add_all ss)

all-replicate : (k : ℕ) → all (λ b. b == 0) (replicate k 0) ≡ true
all-replicate zero = refl
all-replicate (suc k) = all-replicate k

parse_structures-cons :
    (fuel : ℕ) (s : Structure) (rest : List ℕ) (p : Progress)
    → parse_structures (suc fuel) (frame s rest) p
      ≡ Option.bind (add_structure s.type s.value p) (parse_structures fuel rest)
unfolding parse_structures
parse_structures-cons fuel s rest p = rw (nonzero, fits, value_is, rest_is)
  where
    nonzero : (suc (length s.value) == 0) ≡ false
    nonzero = ground arith

    fits : ltb (suc (length (s.value ++ rest))) (suc (length s.value)) ≡ false
    fits = ground (arith, length-append s.value rest)

    value_is : take (suc (length s.value) - 1) (s.value ++ rest) ≡ s.value
    value_is = take-append (suc (length s.value) - 1) s.value rest (omega arith)

    rest_is : drop (length s.value) (s.value ++ rest) ≡ rest
    rest_is = drop-append (length s.value) s.value rest refl

bind-ext :
    (o : Option Progress) (f g : Progress → Option Progress)
    → ((q : Progress) → f q ≡ g q)
    → Option.bind o f ≡ Option.bind o g
unfolding Option.bind
bind-ext none f g h = refl
bind-ext (some q) f g h = h q

-- With more rounds than structures the loop ends, having read them in order.
pub parse_structures-frames :
    (fuel : ℕ) (ss : List Structure) (k : ℕ) (p : Progress)
    → length ss < fuel
    → parse_structures fuel (frames ss k) p ≡ add_all ss p
parse_structures-frames zero ss k p lt = absurd (omega arith)
parse_structures-frames (suc fuel) [] zero p lt = unfold parse_structures in refl
parse_structures-frames (suc fuel) [] (suc k) p lt = unfold parse_structures in rw (all-replicate k)
parse_structures-frames (suc fuel) (s ∷ ss) k p lt =
    parse_structures-cons fuel s (frames ss k) p
    ∙ bind-ext (add_structure s.type s.value p) _ _
        (λ q. parse_structures-frames fuel ss k q (omega arith))

length-frames : (ss : List Structure) (k : ℕ) → length ss ≤ length (frames ss k)
length-frames [] k = omega arith
length-frames (s ∷ ss) k = omega (arith, length-append s.value (frames ss k), length-frames ss k)

-- An advertisement of at most 31 bytes that holds structures one after the other, with any number of
-- zero bytes behind them, is read as those structures in order, and refused if one of them is.
pub parse_ble-frames :
    (ss : List Structure) (k : ℕ) (output : Observation)
    → length (frames ss k) ≤ 31
    → parse_ble (frames ss k) output
      ≡ Option.map (λ p. with_samsung p.o) (add_all ss (begin_ble output))
parse_ble-frames ss k output fits =
    unfold parse_ble in
    rw (short, parse_ble)
      (ap (Option.map (λ p. with_samsung p.o)) (
        parse_structures-frames (length (frames ss k) + 1) ss k (begin_ble output)
          (omega (arith, length-frames ss k))))
  where
    short : ltb 31 (length (frames ss k)) ≡ false
    short = ground arith
