-- ===== src/Json/Bounds.antt =====
-- Every token of a parsed text lies within the text and ends within the tokens, and reading a value
-- uses up input.
use surveillance_hound.Common.{
  unless-some, some-inj, ℕ, zero, suc, ◌+◌, ◌≤◌, ◌<◌, ◌≡◌, refl, sym, ap, subst, ◌∙◌, ◌⊎◌, inl, inr,
  Bool, true, false, ◌||◌, Option, none, some, List, [], ◌∷◌, arith, ltb, leb, ◌==◌, if◌then◌else◌,
  Bool-cases, length, length-replicate, >>=-eq-some, guard-eq-some,
}
use surveillance_hound.Json.{
  Reader, blank_token, token, capacity, separate, container_at, value_at, open_token, expect,
  opens_string, read_key, members, container, body, with_rest, value, finish, parse, new_reader,
  unique, string_of, scan_word,
}
use surveillance_hound.Json.Scan.{space, scan_string, scan_number, plain}
use surveillance_hound.Json.Rests.{length-space, scan_string-lt, scan_number-lt, scan_word-lt}
use surveillance_hound.Json.Grows.{
  IsToken, Grows, Grows-refl, Grows-trans, Grows-skip, skip_Grows, open-slots, close-Grows,
}

-- A reader with room for its tokens whose rest is part of the input.
pub record IsReader (input : List ℕ) (r : Reader) : Type 0 where
  pub slots : length r.tokens ≡ capacity
  pub limit : r.count ≤ capacity
  pub fits : length r.rest ≤ length input

-- One value: the next token and those inside it, and some input.
pub record Reads (input : List ℕ) (r : Reader) (t : ℕ) (r' : Reader) : Type 0 where
  pub first : t ≡ r.count
  pub grows : Grows (length input) r r'
  pub more : r.count < r'.count
  pub less : length r'.rest < length r.rest

pub IsReader-Grows :
    (input : List ℕ) (r r' : Reader)
    → IsReader input r
    → Grows (length input) r r'
    → IsReader input r'
IsReader-Grows input r r' h g = record {
  slots = g.slots ∙ h.slots;
  limit = g.limit;
  fits = omega (arith, g.shorter, h.fits);
}

pub skip-IsReader :
    (input : List ℕ) (r : Reader) (s : List ℕ)
    → IsReader input r
    → length s ≤ length r.rest
    → IsReader input (record r { rest = s })
skip-IsReader input r s h le = record {
  slots = h.slots;
  limit = h.limit;
  fits = omega (arith, h.fits);
}

abbrev pub Sound : List ℕ → (Reader → Option (ℕ × Reader)) → Type 0
Sound input v =
    (r : Reader) (t : ℕ) (r' : Reader) → IsReader input r → v r ≡ some (t, r') → Reads input r t r'

expect-lt : (c : ℕ) (s s' : List ℕ) → expect c s ≡ some s' → length s' < length s
unfolding expect
expect-lt c [] s' e = cc
expect-lt c (x ∷ xs) s' e = ground (arith, e)

module _ (input : List ℕ) (v : Reader → Option (ℕ × Reader)) (sound : Sound input v) where
  abbrev len : ℕ
  len = length input

  read_key-Grows :
      (t : ℕ) (r r' : Reader) → IsReader input r → read_key input v t r ≡ some r' → Grows len r r'
  unfolding read_key
  read_key-Grows t r r' h e =
      let (q, e1) = guard-eq-some (opens_string (space r.rest)) _ e in
      let ((k, r1), e2, e3) = >>=-eq-some (v (record r { rest = space r.rest })) _ e1 in
      let (name, e4, e5) = >>=-eq-some (string_of input r1 k 80) _ e3 in
      let (u, e6) = guard-eq-some (unique input capacity r1 (t + 1) k name) _ e5 in
      let (rest, e7, e8) = >>=-eq-some (expect b':' (space r1.rest)) _ e6 in
      let read =
        sound (record r { rest = space r.rest }) k r1
          (skip-IsReader input r (space r.rest) h (length-space r.rest)) e2 in
      let g = skip_Grows len r r1 (space r.rest) read.grows (length-space r.rest) in
      subst (Grows len r) (some-inj e8) (
        Grows-skip len r r1 rest g
          (omega (arith, expect-lt b':' (space r1.rest) rest e7, length-space r1.rest)))

  pub separated :
      (close : ℕ) (r r' : Reader) (more : Reader → Option Reader) (s : List ℕ)
      → separate close r more s ≡ some r'
      → (rest : List ℕ) × (length rest < length s)
        × ((r' ≡ record r { rest = rest }) ⊎ (more (record r { rest = rest }) ≡ some r'))
  unfolding separate
  separated close r r' more [] e = cc
  separated close r r' more (c ∷ cs) e = (cs, omega arith, ground (arith, e))

  pub key_or_not-Grows :
      (keyed : Bool) (t : ℕ) (r r' : Reader)
      → IsReader input r
      → (if keyed then read_key input v t r else some r) ≡ some r'
      → Grows len r r'
  key_or_not-Grows true t r r' h e = read_key-Grows t r r' h e
  key_or_not-Grows false t r r' h e = subst (Grows len r) (some-inj e) (Grows-refl len r h.limit)

  members-Grows :
      (fuel close : ℕ) (keyed : Bool) (t : ℕ) (r r' : Reader)
      → IsReader input r
      → members input fuel v close keyed t r ≡ some r'
      → Grows len r r'
  unfolding members
  members-Grows zero close keyed t r r' h e = cc
  members-Grows (suc fuel) close keyed t r r' h e =
      let (r1, e1, f1) = >>=-eq-some (if keyed then read_key input v t r else some r) _ e in
      let g1 = key_or_not-Grows keyed t r r1 h e1 in
      let h1 = IsReader-Grows input r r1 h g1 in
      let ((k, r2), e2, f2) = >>=-eq-some (v r1) _ f1 in
      let g2 = Grows-trans len r r1 r2 g1 (sound r1 k r2 h1 e2).grows in
      let h2 = IsReader-Grows input r r2 h g2 in
      let (rest, less, last) =
        separated close r2 r' (members input fuel v close keyed t) (space r2.rest) f2 in
      let le : length rest ≤ length r2.rest = omega (arith, less, length-space r2.rest) in
      elim last [
        | inl same ↦ subst (Grows len r) (sym same) (Grows-skip len r r2 rest g2 le)
        | inr more ↦ Grows-trans len r r2 r' g2 (
            skip_Grows len r2 r' rest
              (members-Grows fuel close keyed t (record r2 { rest = rest }) r'
                (skip-IsReader input r2 rest h2 le) more)
              le)
      ]

  container_at-Grows :
      (close : ℕ) (keyed : Bool) (t : ℕ) (r r' : Reader) (s : List ℕ)
      → IsReader input r
      → length s ≤ length r.rest
      → container_at input v close keyed t r s ≡ some r'
      → Grows len r r'
  unfolding container_at
  container_at-Grows close keyed t r r' [] h le e =
      skip_Grows len r r' []
        (members-Grows 1 close keyed t (record r { rest = [] }) r' (skip-IsReader input r [] h le)
          e)
        le
  container_at-Grows close keyed t r r' (c ∷ cs) h le e = elim (Bool-cases (c == close)) [
    | inl f ↦
        subst (Grows len r) (some-inj (rw f at e))
          (Grows-skip len r r cs (Grows-refl len r h.limit) (omega (arith, le)))
    | inr f ↦
        skip_Grows len r r' (c ∷ cs)
          (members-Grows (suc (suc (length cs))) close keyed t (record r { rest = c ∷ cs }) r'
            (skip-IsReader input r (c ∷ cs) h le) (rw f at e))
          le
  ]

  container-Grows :
      (close : ℕ) (keyed : Bool) (t : ℕ) (r r' : Reader)
      → IsReader input r
      → container input v close keyed t r ≡ some r'
      → Grows len r r'
  unfolding container
  container-Grows close keyed t r r' h e =
      container_at-Grows close keyed t r r' (space r.rest) h (length-space r.rest) e

  with_rest-Grows :
      (r r' : Reader) (o : Option (List ℕ))
      → IsReader input r
      → ((s : List ℕ) → o ≡ some s → length s ≤ length r.rest)
      → with_rest r o ≡ some r'
      → Grows len r r'
  with_rest-Grows r r' none h le e = cc
  with_rest-Grows r r' (some s) h le e =
      subst (Grows len r) (some-inj e) (Grows-skip len r r s (Grows-refl len r h.limit) (le s refl))

  body-Grows :
      (c : ℕ) (cs : List ℕ) (t : ℕ) (r r' : Reader)
      → IsReader input r
      → r.rest ≡ cs
      → body input v c cs t r ≡ some r'
      → Grows len r r'
  unfolding body
  body-Grows c cs t r r' h same e = elim (Bool-cases (c == b'{')) [
    | inl f ↦ container-Grows b'}' true t r r' h (rw f at e)
    | inr f ↦ elim (Bool-cases (c == b'[')) [
      | inl g ↦ container-Grows b']' false t r r' h (rw (f, g) at e)
      | inr g ↦ elim (Bool-cases (c == b'"')) [
        | inl k ↦
            with_rest-Grows r r' (scan_string plain cs) h
              (λ s w. omega (arith, scan_string-lt plain cs s w, ap length same))
              (rw (f, g, k) at e)
        | inr k ↦ elim (Bool-cases ((c == b't') || (c == b'f') || (c == b'n'))) [
          | inl m ↦
              with_rest-Grows r r' (scan_word c (c ∷ cs)) h
                (λ s w. omega (arith, scan_word-lt c (c ∷ cs) s w, ap length same))
                (rw (f, g, k, m) at e)
          | inr m ↦
              with_rest-Grows r r' (scan_number (c ∷ cs)) h
                (λ s w. omega (arith, scan_number-lt (c ∷ cs) s w, ap length same))
                (rw (f, g, k, m) at e)
        ]
      ]
    ]
  ]

lt_of_leb : (a b : ℕ) → leb a b ≡ false → b < a
lt_of_leb a b h = ground (arith, h)

module _ (input : List ℕ) where
  opened-IsReader :
      (c : ℕ) (cs : List ℕ) (r : Reader)
      → IsReader input r
      → r.count < capacity
      → length cs ≤ length input
      → IsReader input (open_token input c cs r)
  unfolding open_token
  opened-IsReader c cs r h free fits = record {
    slots = open-slots input c cs r ∙ h.slots;
    limit = omega (arith, free);
    fits = fits;
  }

  value_at-Reads :
      (v : Reader → Option (ℕ × Reader))
      → Sound input v
      → (r : Reader) (t : ℕ) (r' : Reader) (s : List ℕ) → IsReader input r
      → length s ≤ length r.rest
      → value_at input (body input v) r s ≡ some (t, r')
      → Reads input r t r'
  unfolding value_at
  value_at-Reads v sound r t r' [] h le e = cc
  value_at-Reads v sound r t r' (c ∷ cs) h le e =
      let (room, e1) = unless-some (leb capacity r.count) _ {q = (t, r')} e in
      let opened = open_token input c cs r in
      let (r1, e2, e3) = >>=-eq-some (body input v c cs r.count opened) _ e1 in
      let free : r.count < capacity = lt_of_leb capacity r.count room in
      let ready = opened-IsReader c cs r h free (omega (arith, le, h.fits)) in
      let g =
        body-Grows input v sound c cs r.count opened r1 ready (unfold open_token in refl) e2 in
      let (grows, more, less) = close-Grows input c cs r r1 h.slots free le h.fits g in
      subst (λ p. Reads input r p.0 p.1) (some-inj e3)
        (record { first = refl; grows = grows; more = more; less = less })

  -- Reading a value, at any depth: it is the next token.
  pub value-Reads : (levels : ℕ) → Sound input (value input levels)
  unfolding value
  value-Reads zero r t r' h e = cc
  value-Reads (suc levels) r t r' h e =
      value_at-Reads (value input levels) (value-Reads levels) r t r' (space r.rest) h
        (length-space r.rest) e

  new-IsReader : IsReader input (new_reader input)
  new-IsReader = record {
    slots = length-replicate capacity blank_token;
    limit = omega arith;
    fits = omega arith;
  }

  -- What a parsed text is made of.
  pub record IsParsed (r : Reader) : Type 0 where
    pub some_token : 0 < r.count
    pub limit : r.count ≤ capacity
    pub tokens : (i : ℕ) → i < r.count → IsToken (length input) r.count i (token r i)

  finished :
      (o : Option (ℕ × Reader)) (r : Reader) → finish o ≡ some r → (t : ℕ) × (o ≡ some (t, r))
  unfolding finish
  finished none r e = cc
  finished (some (t, r')) r e = (t, ground (arith, e))

  -- In a text that is accepted, there are one to 160 tokens, each of them lies within the text, and
  -- each ends behind itself and within the tokens, so that no walk over them leaves them.
  pub parse-IsParsed : (r : Reader) → parse input ≡ some r → IsParsed r
  unfolding parse
  parse-IsParsed r e =
      let (q, e1) = unless-some ((length input == 0) || ltb 2048 (length input)) _ {q = r} e in
      let (t, e2) = finished (value input 9 (new_reader input)) r e1 in
      let read = value-Reads 9 (new_reader input) t r new-IsReader e2 in
      record {
        some_token = read.more;
        limit = read.grows.limit;
        tokens = λ i lt. read.grows.added i (omega arith) lt;
      }
