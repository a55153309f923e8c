-- ===== src/Privacy/Token.antt =====
-- A token is what the log validator takes for an identifier.
use surveillance_hound.Common.{
  some-inj, ℕ, zero, suc, ◌+◌, ◌-◌, ◌*◌, ◌/◌, ◌%◌, ◌^◌, ◌≤◌, ◌<◌, ◌≡◌, refl, subst, inl, inr, true,
  ◌&&◌, Option, none, some, List, [], ◌∷◌, ◌++◌, arith, ltb, ◌==◌, if◌then◌else◌, Bool-cases,
  length, take, byte_at, all, length-append, length-take, checked_up_to, checked_up_to-at, and-true,
}
use surveillance_hound.Core.{samsung_identity, Detection}
use surveillance_hound.Records.Validate.{is_base32}
use surveillance_hound.Privacy.{
  address_input, samsung_input, alphabet, letter, drain, base32, token_of, private_token,
}

-- A code has 32 bytes.
abbrev pub IsMac : (List ℕ → List ℕ → Option (List ℕ)) → Type 0
IsMac hmac = (key bytes mac : List ℕ) → hmac key bytes ≡ some mac → length mac ≡ 32

letter-base32 : (k : ℕ) → is_base32 (letter k) ≡ true
unfolding letter
letter-base32 k = by (k % 32) (omega arith)
  where
    by : (i : ℕ) → i < 32 → is_base32 (byte_at alphabet i) ≡ true
    by i h =
        checked_up_to-at (λ i. is_base32 (byte_at alphabet i)) 32 i h (unfold checked_up_to in refl)

drain-length :
    (fuel bits available : ℕ)
    → available ≤ fuel
    → (length (drain fuel bits available).0 ≡ available / 5)
      × ((drain fuel bits available).1 ≡ available % 5)
unfolding drain
drain-length zero bits available h = (omega arith, omega arith)
drain-length (suc fuel) bits available h = elim (Bool-cases (ltb available 5)) [
  | inl e ↦ rw (e) (few available e)
  | inr e ↦
      let (a, b) = drain-length fuel bits (available - 5) (ground (arith, h, e)) in
      let five : available ≡ 5 + (available - 5) = ground (arith, e) in
      rw (e) (ground (arith, a, five), ground (arith, b, five))
]
  where
    few : (n : ℕ) → ltb n 5 ≡ true → (0 ≡ n / 5) × (n ≡ n % 5)
    few n e = (ground (arith, e), ground (arith, e))

drain-base32 : (fuel bits available : ℕ) → all is_base32 (drain fuel bits available).0 ≡ true
unfolding drain
drain-base32 zero bits available = refl
drain-base32 (suc fuel) bits available = elim (Bool-cases (ltb available 5)) [
  | inl e ↦ rw (e) refl
  | inr e ↦
      rw (e, letter-base32 (bits / 2 ^ (available - 5))) (drain-base32 fuel bits (available - 5))
]

all-append_true :
    (xs ys : List ℕ)
    → all is_base32 xs ≡ true
    → all is_base32 ys ≡ true
    → all is_base32 (xs ++ ys) ≡ true
all-append_true [] ys a b = b
all-append_true (x ∷ xs) ys a b =
    let (here, later) = and-true (is_base32 x) (all is_base32 xs) a in
    rw (here) (all-append_true xs ys later b)

base32-length :
    (bytes : List ℕ) (bits available : ℕ)
    → available < 5
    → length (base32 bits available bytes) ≡ (available + 8 * length bytes + 4) / 5
unfolding base32
base32-length [] bits available h = elim (Bool-cases (available == 0)) [
  | inl e ↦ rw (e) (ground (arith, e))
  | inr e ↦ rw (e) (ground (arith, e, h))
]
base32-length (b ∷ bytes) bits available h =
    let next = bits * 256 % 2 ^ 32 + b in
    let taken = drain (available + 8) next (available + 8) in
    let (count, left) = drain-length (available + 8) next (available + 8) (omega arith) in
    let later = base32-length bytes next taken.1 (omega (arith, left)) in
    omega (arith, length-append taken.0 (base32 next taken.1 bytes), count, left, later)

base32-all :
    (bytes : List ℕ) (bits available : ℕ) → all is_base32 (base32 bits available bytes) ≡ true
unfolding base32
base32-all [] bits available = elim (Bool-cases (available == 0)) [
  | inl e ↦ rw (e) refl
  | inr e ↦ rw (e, letter-base32 (bits * 2 ^ (5 - available) % 2 ^ 32)) refl
]
base32-all (b ∷ bytes) bits available =
    all-append_true (drain (available + 8) (bits * 256 % 2 ^ 32 + b) (available + 8)).0 _
      (drain-base32 (available + 8) (bits * 256 % 2 ^ 32 + b) (available + 8))
      (base32-all bytes _ _)

-- A token that could be computed has twenty characters, all of them letters or digits of base 32: just
-- what the validator of the log accepts as an identifier.
pub private_token-base32 :
    (hmac : List ℕ → List ℕ → Option (List ℕ)) (key : List ℕ) (d : Detection) (token : List ℕ)
    → IsMac hmac
    → private_token hmac key d ≡ some token
    → ((length token == 20) && all is_base32 token) ≡ true
private_token-base32 hmac key d token sized e = by (hmac key input) refl (unfold private_token in e)
  where
    input : List ℕ
    input = if samsung_identity d then samsung_input d 1 else address_input d

    by :
        (o : Option (List ℕ))
        → hmac key input ≡ o
        → token_of o ≡ some token
        → ((length token == 20) && all is_base32 token) ≡ true
    by none f g = cc
    by (some digest) f g =
        let size : (length (base32 0 0 (take 12 digest)) == 20) ≡ true = ground (
          arith,
          base32-length (take 12 digest) 0 0 (omega arith),
          length-take 12 digest,
          sized key input digest f,
        ) in
        subst (λ t. ((length t == 20) && all is_base32 t) ≡ true) (some-inj g)
          (rw (size) (base32-all (take 12 digest) 0 0))
