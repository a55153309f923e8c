-- ===== src/Parsers/Samsung/RoundTrip.antt =====
-- Samsung finding packets: what is accepted, and what is read from it.
use surveillance_hound.Common.{
  refl, some-inj, subst, Option, if◌then◌else◌, none, unless-some, eq_of_unlike, or-false, ℕ, ◌+◌,
  ◌/◌, ◌%◌, ◌<◌, ◌≡◌, ◌↔◌, ◌⊎◌, true, false, some, List, ◌∷◌, ◌++◌, arith, byte_at, take, drop,
  length, take-append, length-append,
}
use surveillance_hound.Core.{
  SamsungTag, SamsungState, unknown, recently_separated, offline, long_offline, connected,
  samsung_valid,
}
use surveillance_hound.Parsers.Samsung.{bad_packet, samsung_state, blank_id, parse_samsung_tag}

-- A version-1 packet: the service, a header with three state bits, three bytes, the broadcast id and
-- the rest of the payload.
abbrev pub packet : ℕ → ℕ → ℕ → ℕ → List ℕ → List ℕ → List ℕ
packet k a b c id rest = 0x5a ∷ 0xfd ∷ (16 + k) ∷ a ∷ b ∷ c ∷ (id ++ rest)

-- The state that the three state bits stand for, as a table.
pub data Means : ℕ → SamsungState → Type 0 where
  is_recent : Means 1 recently_separated
  is_offline : Means 2 offline
  is_long_offline : Means 3 long_offline
  is_connected : Means 5 connected
  is_none : {k : ℕ} → (k ≡ 0) ⊎ (k ≡ 4) ⊎ (k ≡ 6) ⊎ (k ≡ 7) → Means k unknown

samsung_state-Means : (k : ℕ) (st : SamsungState) → Means k st → samsung_state k ≡ st
unfolding samsung_state
samsung_state-Means _ _ is_recent = refl
samsung_state-Means _ _ is_offline = refl
samsung_state-Means _ _ is_long_offline = refl
samsung_state-Means _ _ is_connected = refl
samsung_state-Means k _ (is_none h) = ground (arith, h)

-- A well-formed packet with an identity reads back with that identity and the state of its bits: 1 is
-- recently separated, 2 offline, 3 offline for long, 5 connected, the other four unknown.
pub parse_samsung_tag-packet :
    (k a b c : ℕ) (id rest : List ℕ)
    → k < 8
    → length id ≡ 8
    → length rest ≡ 8
    → blank_id id ≡ false
    → (st : SamsungState) → Means k st
    → parse_samsung_tag (packet k a b c id rest) ≡ some (record { id = id; state = st })
unfolding parse_samsung_tag
parse_samsung_tag-packet k a b c id rest small hid hrest real st means =
    ground (arith, take-append 8 id rest hid, length-append id rest, samsung_state-Means k st means)

-- What a tag that was read says of its bytes.
pub record Reads (s : List ℕ) (t : SamsungTag) : Type 0 where
  pub size : length s ≡ 22
  pub service_is : (byte_at s 0 ≡ 0x5a) × (byte_at s 1 ≡ 0xfd)
  pub version_is : (byte_at s 2 / 8) % 32 ≡ 2
  pub id_is : t.id ≡ take 8 (drop 6 s)
  pub real : blank_id t.id ≡ false
  pub valid : samsung_valid t ≡ true
  pub connected_iff : (t.state ≡ connected) ↔ (byte_at s 2 % 8 ≡ 5)

bad_packet-false :
    (s : List ℕ)
    → bad_packet s ≡ false
    → (length s ≡ 22) × (byte_at s 0 ≡ 0x5a) × (byte_at s 1 ≡ 0xfd) × ((byte_at s 2 / 8) % 32 ≡ 2)
unfolding bad_packet
bad_packet-false s good =
    let (abc, d) = or-false _ _ good in
    let (ab, c) = or-false _ _ abc in
    let (a, b) = or-false _ _ ab in
    (eq_of_unlike _ _ a, eq_of_unlike _ _ b, eq_of_unlike _ _ c, eq_of_unlike _ _ d)

samsung_state-valid :
    (k : ℕ) (id : List ℕ) → samsung_valid (record { id = id; state = samsung_state k }) ≡ true
unfolding samsung_state
samsung_state-valid k id = ground arith

samsung_state-connected : (k : ℕ) → (samsung_state k ≡ connected) ↔ (k ≡ 5)
unfolding samsung_state
samsung_state-connected k = (λ h. ground arith, λ h. ground arith)

-- Only 22 bytes of the service's version-1 packets are read; the tag is valid, its identity is the
-- eight bytes at 6 and neither all zeros nor all ones, and it counts as connected exactly when the
-- state bits are five.
pub parse_samsung_tag-Reads :
    (s : List ℕ) (t : SamsungTag) → parse_samsung_tag s ≡ some t → Reads s t
parse_samsung_tag-Reads s t e = subst (Reads s) (some-inj inner.1) (record {
  size = header.0;
  service_is = (header.1, header.2);
  version_is = header.3;
  id_is = refl;
  real = inner.0;
  valid = samsung_state-valid (byte_at s 2 % 8) id;
  connected_iff = samsung_state-connected (byte_at s 2 % 8);
})
  where
    id : List ℕ
    id = take 8 (drop 6 s)

    read : SamsungTag
    read = record { id = id; state = samsung_state (byte_at s 2 % 8) }

    outer : (bad_packet s ≡ false) × ((if blank_id id then none else some read) ≡ some t)
    outer =
        unless-some (bad_packet s) (if blank_id id then none else some read) {q = t}
          (unfold parse_samsung_tag in e)

    inner : (blank_id id ≡ false) × (◌≡◌ {A = Option SamsungTag} (some read) (some t))
    inner = unless-some (blank_id id) (some read) {q = t} outer.1

    header :
        (length s ≡ 22) × (byte_at s 0 ≡ 0x5a) × (byte_at s 1 ≡ 0xfd) × ((byte_at s 2 / 8) % 32 ≡ 2)
    header = bad_packet-false s outer.0
