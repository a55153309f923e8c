-- ===== src/Json/Grows.antt =====
-- How a reader changes: tokens are added, the old ones stay, and the input gets shorter.
use surveillance_hound.Common.{
  ==→eq, ℕ, suc, ◌+◌, ◌-◌, ◌≤◌, ◌<◌, ◌≡◌, refl, sym, ap, subst, ◌∙◌, ◌≢◌, inl, inr, false, List,
  arith, ltb, ◌==◌, Bool-cases, length, length-set, get_or-set_same, get_or-set_other,
}
use surveillance_hound.Json.{Reader, Token, blank_token, token, capacity, open_token, close_token}

-- A finished token i, of n tokens over an input of `len` characters.
pub record IsToken (len n i : ℕ) (t : Token) : Type 0 where
  pub follows : i < t.after
  pub after_le : t.after ≤ n
  pub within : t.start + t.size ≤ len

pub record Grows (len : ℕ) (r r' : Reader) : Type 0 where
  pub shorter : length r'.rest ≤ length r.rest
  pub more : r.count ≤ r'.count
  pub limit : r'.count ≤ capacity
  pub slots : length r'.tokens ≡ length r.tokens
  pub old : (i : ℕ) → i < r.count → token r' i ≡ token r i
  pub added : (i : ℕ) → r.count ≤ i → i < r'.count → IsToken len r'.count i (token r' i)

IsToken-later : (len n m i : ℕ) (t : Token) → n ≤ m → IsToken len n i t → IsToken len m i t
IsToken-later len n m i t le h = record {
  follows = h.follows;
  after_le = omega (arith, h.after_le);
  within = h.within;
}

pub Grows-refl : (len : ℕ) (r : Reader) → r.count ≤ capacity → Grows len r r
Grows-refl len r h = record {
  shorter = omega arith;
  more = omega arith;
  limit = h;
  slots = refl;
  old = λ i lt. refl;
  added = λ i le lt. absurd (omega arith);
}

module _ (len : ℕ) where
  pub Grows-trans : (a b c : Reader) → Grows len a b → Grows len b c → Grows len a c
  Grows-trans a b c g h = record {
    shorter = omega (arith, g.shorter, h.shorter);
    more = omega (arith, g.more, h.more);
    limit = h.limit;
    slots = h.slots ∙ g.slots;
    old = λ i lt. h.old i (omega (arith, g.more)) ∙ g.old i lt;
    added = λ i le lt. elim (Bool-cases (ltb i b.count)) [
      | inl e ↦
          let before : i < b.count = ground (arith, e) in
          subst (IsToken len c.count i) (sym (h.old i before))
            (IsToken-later len b.count c.count i (token b i) h.more (g.added i le before))
      | inr e ↦ h.added i (ground (arith, e)) lt
    ];
  }

  -- Moving on in the input alone.
  pub Grows-skip :
      (a b : Reader) (s : List ℕ)
      → Grows len a b
      → length s ≤ length b.rest
      → Grows len a (record b { rest = s })
  unfolding token
  Grows-skip a b s g le = record {
    shorter = omega (arith, g.shorter);
    more = g.more;
    limit = g.limit;
    slots = g.slots;
    old = g.old;
    added = g.added;
  }

  pub skip_Grows :
      (a b : Reader) (s : List ℕ)
      → Grows len (record a { rest = s }) b
      → length s ≤ length a.rest
      → Grows len a b
  unfolding token
  skip_Grows a b s g le = record {
    shorter = omega (arith, g.shorter);
    more = g.more;
    limit = g.limit;
    slots = g.slots;
    old = g.old;
    added = g.added;
  }

pub open-count :
    (input : List ℕ) (c : ℕ) (cs : List ℕ) (r : Reader)
    → (open_token input c cs r).count ≡ r.count + 1
unfolding open_token
open-count input c cs r = refl

pub open-slots :
    (input : List ℕ) (c : ℕ) (cs : List ℕ) (r : Reader)
    → length (open_token input c cs r).tokens ≡ length r.tokens
unfolding open_token
open-slots input c cs r = length-set r.tokens r.count _

-- Opening writes one token, that of the count.
open_other :
    (input : List ℕ) (c : ℕ) (cs : List ℕ) (r : Reader) (i : ℕ)
    → (i == r.count) ≡ false
    → token (open_token input c cs r) i ≡ token r i
unfolding open_token token
open_other input c cs r i off = get_or-set_other r.tokens r.count i _ blank_token off

open_start :
    (input : List ℕ) (c : ℕ) (cs : List ℕ) (r : Reader)
    → r.count < length r.tokens
    → (token (open_token input c cs r) r.count).start ≡ length input - suc (length cs)
unfolding open_token token
open_start input c cs r lt = ap (λ t. t.start) (get_or-set_same r.tokens r.count _ blank_token lt)

close_other :
    (input : List ℕ) (t i : ℕ) (r : Reader)
    → (i == t) ≡ false
    → token (close_token input t r) i ≡ token r i
unfolding close_token token
close_other input t i r off = get_or-set_other r.tokens t i _ blank_token off

close_same :
    (input : List ℕ) (t : ℕ) (r : Reader)
    → t < length r.tokens
    → token (close_token input t r) t ≡ record (token r t) {
      size = length input - length r.rest - (token r t).start;
      after = r.count;
    }
unfolding close_token token
close_same input t r lt = get_or-set_same r.tokens t _ blank_token lt

close-slots :
    (input : List ℕ) (t : ℕ) (r : Reader) → length (close_token input t r).tokens ≡ length r.tokens
unfolding close_token
close-slots input t r = length-set r.tokens t _

close-count : (input : List ℕ) (t : ℕ) (r : Reader) → (close_token input t r).count ≡ r.count
unfolding close_token
close-count input t r = refl

close-rest : (input : List ℕ) (t : ℕ) (r : Reader) → (close_token input t r).rest ≡ r.rest
unfolding close_token
close-rest input t r = refl

unlike : (i j : ℕ) → i ≢ j → (i == j) ≡ false
unlike i j h = ground (arith, h)

module _ (input : List ℕ) (c : ℕ) (cs : List ℕ) (r r1 : Reader) (slots : length r.tokens ≡ capacity)
    (room : r.count < capacity) (less : length cs < length r.rest)
    (fits : length r.rest ≤ length input)
    (g : Grows (length input) (open_token input c cs r) r1) where
  abbrev closed : Reader
  closed = close_token input r.count r1

  slots1 : length r1.tokens ≡ capacity
  slots1 = g.slots ∙ open-slots input c cs r ∙ slots

  count1 : r.count < r1.count
  count1 = omega (arith, g.more, open-count input c cs r)

  shorter1 : length r1.rest ≤ length cs
  shorter1 = unfold open_token in g.shorter

  start1 : (token r1 r.count).start ≡ length input - suc (length cs)
  start1 =
      ap (λ t. t.start) (g.old r.count (omega (arith, open-count input c cs r)))
      ∙ open_start input c cs r (omega (arith, slots, room))

  old1 : (i : ℕ) → i < r.count → token closed i ≡ token r i
  old1 i lt =
      close_other input r.count i r1 (unlike i r.count (λ e. omega arith))
      ∙ g.old i (omega (arith, open-count input c cs r))
      ∙ open_other input c cs r i (unlike i r.count (λ e. omega arith))

  own1 : IsToken (length input) r1.count r.count (token closed r.count)
  own1 =
      subst (IsToken (length input) r1.count r.count)
        (sym (close_same input r.count r1 (omega (arith, slots1, room))))
        (record {
          follows = count1;
          after_le = omega arith;
          within = omega (arith, start1, shorter1, less, fits);
        })

  added1 : (i : ℕ) → r.count ≤ i → i < r1.count → IsToken (length input) r1.count i (token closed i)
  added1 i le lt = elim (Bool-cases (i == r.count)) [
    | inl e ↦
        subst (λ k. IsToken (length input) r1.count k (token closed k)) (sym (==→eq i r.count e))
          own1
    | inr e ↦
        subst (IsToken (length input) r1.count i) (sym (close_other input r.count i r1 e))
          (g.added i (omega (arith, open-count input c cs r, ne_of_unlike i r.count e)) lt)
  ]
    where
      ne_of_unlike : (a b : ℕ) → (a == b) ≡ false → a ≢ b
      ne_of_unlike a b h k = ground (arith, h, k)

  -- A token that is opened, filled and closed is one more token, and uses up input.
  pub close-Grows :
      Grows (length input) r closed
      × (r.count < closed.count)
      × (length closed.rest < length r.rest)
  unfolding close_token
  close-Grows = (
    record {
      shorter = omega (arith, shorter1, less);
      more = omega (arith, count1);
      limit = g.limit;
      slots = close-slots input r.count r1 ∙ g.slots ∙ open-slots input c cs r;
      old = old1;
      added = added1;
    },
    count1,
    omega (arith, shorter1, less),
  )
