-- ===== src/Behavior.antt =====
-- `Engine::behavior` and `Engine::remember_ap` of components/sniffer_core/engine.cpp: bursts of
-- deauthentication frames, and access points whose security changes. The engine passes its tables.
pub mod Ring
pub mod Senders
pub mod Placing
pub mod Burst20
pub mod Downgrade
mod Tests
use surveillance_hound.Common.{
  ℕ, zero, suc, ◌+◌, ◌-◌, ◌*◌, ◌/◌, ◌%◌, ◌^◌, ◌≤◌, ◌<◌, min, max, pred, ◌≡◌, refl, sym, ap, ap₂,
  subst, ◌∙◌, ◌≢◌, ◌↔◌, ◌⊎◌, inl, inr, Bool, true, false, not, ◌&&◌, ◌||◌, Option, none, some, List,
  [], ◌∷◌, ◌++◌, map, arith, ltb, leb, ◌==◌, if◌then◌else◌, bool_eq, to_bit, Bool-cases,
  Option-cases, byte_at, get_or, set, take, replicate, find_index, min_index, list_eq,
}
use surveillance_hound.Common.Int.{ℤ, pos, pos_part, neg_part, ◌-ℤ◌}
use surveillance_hound.Core.{Observation, Rule, wifi, radio_eq}
use surveillance_hound.Core.Text.{codes}
use surveillance_hound.Signatures.{hosts_network}

pub record Burst : Type 0 where
  pub used : Bool
  pub address : List ℕ
  pub channel : ℕ
  pub times : List ℕ
  pub count : ℕ
  pub next : ℕ
  pub last : ℕ

abbrev pub ring_size : ℕ
ring_size = 20

-- Burst{}
abbrev pub blank_burst : Burst
blank_burst = record {
  used = false;
  address = replicate 6 0;
  channel = 0;
  times = replicate ring_size 0;
  count = 0;
  next = 0;
  last = 0;
}

abbrev pub no_bursts : List Burst
no_bursts = replicate 16 blank_burst

-- The new time in the ring.
unfoldable pub stamp : Burst → ℕ → Burst
stamp b ms = record b {
  times = set b.times b.next ms;
  next = (b.next + 1) % ring_size;
  count = min 20 (b.count + 1);
  last = ms;
}

-- Twenty frames in ten seconds, the ring having been stamped.
unfoldable pub full : Burst → ℕ → Bool
full b ms =
    let oldest = get_or b.times b.next 0 in
    (b.count == 20) && leb oldest ms && leb (ms - oldest) 10000

unfoldable pub same_sender : Observation → Burst → Bool
same_sender o b = b.used && list_eq b.address o.address && (b.channel == o.channel)

-- A slot for a new sender: the first unused one, otherwise the one that was stamped first.
unfoldable pub free_burst : List Burst → ℕ
free_burst bs = elim (find_index (λ b. not b.used) bs) [
  | some i ↦ i
  | none ↦ min_index (λ b. b.last) bs
]

unfoldable pub burst_slot : List Burst → Observation → ℕ × Burst
unfolding same_sender free_burst
burst_slot bs o = elim (find_index (same_sender o) bs) [
  | some i ↦ (i, get_or bs i blank_burst)
  | none ↦
      (free_burst bs, record blank_burst { used = true; address = o.address; channel = o.channel })
]

unfoldable pub deauth_burst : List Burst → Observation → List Burst × Bool
unfolding burst_slot stamp full
deauth_burst bs o =
    if not ((o.subtype == 10) || (o.subtype == 12))
    then (bs, false)
    else let (i, b) = burst_slot bs o in (set bs i (stamp b o.ms), full (stamp b o.ms) o.ms)

pub record Summary : Type 0 where
  pub ms : ℕ
  pub address : List ℕ
  pub ssid : List ℕ
  pub ssid_len : ℕ
  pub protected_network : Bool
  pub rsn_caps : ℕ
  pub rssi : ℤ
  pub channel : ℕ
  pub vendor_fingerprint : ℕ

pub record AccessPoint : Type 0 where
  pub used : Bool
  pub obs : Summary

-- AccessPoint{}
abbrev pub blank_ap : AccessPoint
blank_ap = record {
  used = false;
  obs = record {
    ms = 0;
    address = replicate 6 0;
    ssid = replicate 32 0;
    ssid_len = 0;
    protected_network = false;
    rsn_caps = 0;
    rssi = pos 0;
    channel = 0;
    vendor_fingerprint = 0;
  };
}

abbrev pub no_aps : List AccessPoint
no_aps = replicate 24 blank_ap

-- Another access point of the network, seen in the last 30 seconds, with other protection.
unfoldable pub clashes : Observation → AccessPoint → Bool
clashes o a =
    a.used
    && leb a.obs.ms o.ms
    && leb (o.ms - a.obs.ms) 30000
    && not (list_eq a.obs.address o.address)
    && (o.ssid_len == a.obs.ssid_len)
    && list_eq (take o.ssid_len o.ssid) (take o.ssid_len a.obs.ssid)
    && not (bool_eq o.protected_network a.obs.protected_network)

unfoldable pub clues : Observation → Summary → ℕ
clues o a =
    to_bit (
      not (byte_at a.address 0 == byte_at o.address 0)
      || not (byte_at a.address 1 == byte_at o.address 1)
      || not (byte_at a.address 2 == byte_at o.address 2))
    + to_bit (not (a.rsn_caps / 64 % 4 == o.rsn_caps / 64 % 4))
    + to_bit (
        not (a.vendor_fingerprint == 0)
        && not (o.vendor_fingerprint == 0)
        && not (a.vendor_fingerprint == o.vendor_fingerprint))
    + to_bit (
        not (a.channel == o.channel)
        && leb 20 (pos_part (a.rssi -ℤ o.rssi) + neg_part (a.rssi -ℤ o.rssi)))

-- The loop over the access points, for `security_downgrade` or for `security_corroborated`.
unfoldable pub any_clash : Bool → Observation → List AccessPoint → Bool
unfolding clashes clues
any_clash corroborated o [] = false
any_clash corroborated o (a ∷ aps) =
    (clashes o a && (not corroborated || leb 2 (clues o a.obs))) || any_clash corroborated o aps

unfoldable pub security : Bool → Observation → List AccessPoint → Bool
unfolding any_clash
security corroborated o aps =
    hosts_network o && not (o.ssid_len == 0) && any_clash corroborated o aps

-- The rules of kind behaviour: the bursts change, the access points are read.
unfoldable pub behaves : List Burst → List AccessPoint → Rule → Observation → List Burst × Bool
unfolding deauth_burst security
behaves bs aps r o =
    if not (radio_eq o.radio wifi)
    then (bs, false)
    else if list_eq r.value (codes "deauth_burst")
    then deauth_burst bs o
    else if list_eq r.value (codes "security_downgrade")
    then (bs, security false o aps)
    else if list_eq r.value (codes "security_corroborated")
    then (bs, security true o aps)
    else (bs, false)

unfoldable pub summary : Observation → Summary
summary o = record {
  ms = o.ms;
  address = o.address;
  ssid = o.ssid;
  ssid_len = o.ssid_len;
  protected_network = o.protected_network;
  rsn_caps = o.rsn_caps;
  rssi = o.rssi;
  channel = o.channel;
  vendor_fingerprint = o.vendor_fingerprint;
}

abbrev pub holds_address : Observation → AccessPoint → Bool
holds_address o a = a.used && list_eq a.obs.address o.address

-- A slot for a new access point: the first unused one, or the oldest.
unfoldable pub free_ap : List AccessPoint → Option ℕ → ℕ
free_ap aps (some i) = i
free_ap aps none = min_index (λ a. a.obs.ms) aps

-- The slot that has the address, or one for a new access point.
unfoldable pub ap_slot_or : List AccessPoint → Option ℕ → ℕ
unfolding free_ap
ap_slot_or aps (some i) = i
ap_slot_or aps none = free_ap aps (find_index (λ a. not a.used) aps)

unfoldable pub ap_slot : List AccessPoint → Observation → ℕ
unfolding ap_slot_or
ap_slot aps o = ap_slot_or aps (find_index (holds_address o) aps)

unfoldable pub remember_ap : List AccessPoint → Observation → List AccessPoint
unfolding summary ap_slot
remember_ap aps o =
    if not (radio_eq o.radio wifi) || not (hosts_network o) || (o.ssid_len == 0) || o.pwnagotchi
    then aps
    else set aps (ap_slot aps o) (record { used = true; obs = summary o })
