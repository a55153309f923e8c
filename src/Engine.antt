-- ===== src/Engine.antt =====
-- `Engine` of components/sniffer_core/engine.cpp: the evidence cache, `ingest` and `recent_counts`.
-- A pointer into the cache is its index. `std::sort` may order rules of equal score in any way; the
-- model puts the later one of the list first.
pub mod Score
pub mod Cache
pub mod Emission
pub mod Reach
pub mod Current
pub mod Bounds
pub mod Counts
mod Tests
use surveillance_hound.Common.{
  sub64, u64_mod, ℕ, zero, suc, ◌+◌, ◌-◌, ◌*◌, ◌/◌, ◌%◌, ◌^◌, ◌≤◌, ◌<◌, min, max, pred, ◌≡◌, refl,
  sym, ap, ap₂, subst, ◌∙◌, ◌≢◌, ◌↔◌, ◌⊎◌, inl, inr, Bool, true, false, not, ◌&&◌, ◌||◌, Option,
  none, some, List, [], ◌∷◌, ◌++◌, map, arith, ltb, leb, ◌==◌, if◌then◌else◌, bool_eq, to_bit,
  Bool-cases, Option-cases, get_or, set, take, length, replicate, find_index, min_index, list_eq,
  test_bit, u32_mod,
}
use surveillance_hound.Common.Int.{ℤ, ◌+ℤ◌, min_ℤ, max_ℤ}
use surveillance_hound.Core.{
  Observation, Rule, Detection, blank_detection, Settings, SamsungState, unavailable,
  no_samsung_tag, samsung_identity, samsung_valid, samsung_state_eq, radio_eq, ble, behavior,
}
use surveillance_hound.Core.Category.{category_count, samsung_tag}
use surveillance_hound.Signatures.{matches, group, cap, kind_eq}
use surveillance_hound.Behavior.{Burst, AccessPoint, no_bursts, no_aps, behaves, remember_ap}

pub record Evidence : Type 0 where
  pub rule : Option Rule
  pub at : ℕ

abbrev pub blank_evidence : Evidence
blank_evidence = record { rule = none; at = 0 }

abbrev pub evidence_group_count : ℕ
evidence_group_count = 9

abbrev pub no_evidence : List Evidence
no_evidence = replicate evidence_group_count blank_evidence

pub record Entry : Type 0 where
  pub detection : Detection
  pub emitted : ℕ
  pub emitted_samsung_state : SamsungState
  pub evidence : List Evidence

-- Entry{}
abbrev pub blank_entry : Entry
blank_entry = record {
  detection = blank_detection;
  emitted = 0;
  emitted_samsung_state = unavailable;
  evidence = no_evidence;
}

pub record Engine : Type 0 where
  pub rules : List Rule
  pub cache : List Entry
  pub bursts : List Burst
  pub aps : List AccessPoint
  pub next_emit : ℕ

-- Engine(rules)
abbrev pub new_engine : List Rule → Engine
new_engine rules = record {
  rules = rules;
  cache = replicate 128 blank_entry;
  bursts = no_bursts;
  aps = no_aps;
  next_emit = 0;
}

abbrev pub Touched : Type 0
Touched = List (Option ℕ)

abbrev pub untouched : Touched
untouched = replicate category_count none

-- The identity test of the cache: an exact Samsung broadcast id, otherwise the address and its type.
unfoldable pub same_identity : Observation → Detection → Bool
same_identity o d =
    if samsung_identity d && samsung_valid o.samsung
    then list_eq d.samsung.id o.samsung.id
    else list_eq d.address o.address && (d.address_type == o.address_type)

unfoldable pub holds : Rule → Observation → Entry → Bool
unfolding same_identity
holds rule o e =
    not (e.detection.seen_count == 0)
    && same_identity o e.detection
    && (e.detection.category == rule.category)
    && radio_eq e.detection.radio o.radio

-- A slot for a new identity: the first unused one, or the one that was seen first.
unfoldable pub free_entry : List Entry → Option ℕ → ℕ
free_entry cache (some i) = i
free_entry cache none = min_index (λ e. e.detection.last_ms) cache

unfoldable pub first_entry : Rule → Observation → Entry
first_entry rule o = record blank_entry {
  detection = record blank_detection {
    category = rule.category;
    radio = o.radio;
    address = o.address;
    address_type = o.address_type;
    first_ms = o.ms;
    rssi_min = o.rssi;
    rssi_max = o.rssi;
  };
}

-- The entry of the observation's identity for the rule's category, and where it is kept.
unfoldable pub locate : List Entry → Rule → Observation → Option ℕ → ℕ × Entry
unfolding free_entry first_entry
locate cache rule o (some i) = (i, get_or cache i blank_entry)
locate cache rule o none =
    (free_entry cache (find_index (λ e. e.detection.seen_count == 0) cache), first_entry rule o)

-- One more sighting: evidence that is older than 30 seconds is dropped, or all of it when the clock
-- went back.
unfoldable pub see : Observation → Entry → Entry
see o e =
    let d = e.detection in
    let counted = not (d.seen_count == 2 ^ 32 - 1) in
    record e {
      evidence =
          if ltb o.ms d.last_ms || ltb 30000 (o.ms - d.last_ms) then no_evidence else e.evidence;
      detection = record d {
        last_ms = o.ms;
        address = o.address;
        address_type = o.address_type;
        samsung =
            if (d.category == samsung_tag) && radio_eq o.radio ble
            then o.samsung
            else no_samsung_tag;
        channel = o.channel;
        rssi_min = min_ℤ d.rssi_min o.rssi;
        rssi_max = max_ℤ d.rssi_max o.rssi;
        seen_count = if counted then d.seen_count + 1 else d.seen_count;
        rssi_sum = if counted then d.rssi_sum +ℤ o.rssi else d.rssi_sum;
      };
    }

-- uint32_t(o.ms) - ev.at
abbrev pub age : ℕ → Evidence → ℕ
age ms ev = (ms % u32_mod + (u32_mod - ev.at)) % u32_mod

unfoldable pub overrides : Rule → ℕ → Evidence → Option Rule → Bool
overrides rule ms ev none = true
overrides rule ms ev (some r) = ltb 30000 (age ms ev) || leb r.score rule.score

-- The rule replaces the evidence of its group unless that is stronger and at most 30 seconds old.
unfoldable pub credit : Rule → Observation → Entry → Entry
unfolding group overrides
credit rule o e =
    let ev = get_or e.evidence (group rule.kind) blank_evidence in
    if overrides rule o.ms ev ev.rule
    then record e {
      evidence =
          set e.evidence (group rule.kind) (record { rule = some rule; at = o.ms % u32_mod });
    }
    else e

-- The entry that this observation already touched for the category, otherwise one that is seen now.
unfoldable pub touch : List Entry → Rule → Observation → Option ℕ → ℕ × Entry
unfolding holds locate see
touch cache rule o (some i) = (i, get_or cache i blank_entry)
touch cache rule o none =
    let (i, e) = locate cache rule o (find_index (holds rule o) cache) in (i, see o e)

-- A rule that matches.
unfoldable pub apply_hit : Observation → Rule → Engine × Touched → Engine × Touched
unfolding touch credit
apply_hit o rule (g, touched) =
    let (i, e) = touch g.cache rule o (get_or touched rule.category none) in
    (record g { cache = set g.cache i (credit rule o e) }, set touched rule.category (some i))

-- Whether a rule matches; a behaviour rule changes the bursts.
unfoldable pub probe : Engine → Rule → Observation → Engine × Bool
unfolding behaves matches
probe g rule o =
    if kind_eq rule.kind behavior
    then (
      record g { bursts = (behaves g.bursts g.aps rule o).0 },
      (behaves g.bursts g.aps rule o).1,
    )
    else (g, matches rule o)

unfoldable pub apply_rule : Observation → Settings → Rule → Engine × Touched → Engine × Touched
unfolding probe apply_hit
apply_rule o s rule (g, touched) =
    if not (test_bit s.enabled_categories rule.category)
    then (g, touched)
    else if (probe g rule o).1
    then apply_hit o rule ((probe g rule o).0, touched)
    else ((probe g rule o).0, touched)

unfoldable pub apply_rules :
    Observation → Settings → List Rule → Engine × Touched → Engine × Touched
unfolding apply_rule
apply_rules o s [] st = st
apply_rules o s (rule ∷ rules) st = apply_rules o s rules (apply_rule o s rule st)

unfoldable pub listed : Option Rule → List Rule → List Rule
listed none rest = rest
listed (some r) rest = r ∷ rest

-- The rules of the evidence that is at most 30 seconds old.
unfoldable pub active_rules : ℕ → List Evidence → List Rule
unfolding listed
active_rules ms [] = []
active_rules ms (ev ∷ evs) =
    let rest = active_rules ms evs in if leb (age ms ev) 30000 then listed ev.rule rest else rest

-- What a rule is worth for an observation.
abbrev pub worth : Observation → Rule → ℕ
worth o r = min r.score (cap r o)

-- std::sort, the strongest first.
unfoldable pub insert_rule : Observation → Rule → List Rule → List Rule
insert_rule o r [] = r ∷ []
insert_rule o r (x ∷ xs) =
    let rest = insert_rule o r xs in if ltb (worth o x) (worth o r) then r ∷ x ∷ xs else x ∷ rest

unfoldable pub sort_rules : Observation → List Rule → List Rule
unfolding insert_rule
sort_rules o [] = []
sort_rules o (r ∷ rs) = insert_rule o r (sort_rules o rs)

pub record Tally : Type 0 where
  pub score : ℕ
  pub ceiling : ℕ
  pub strongest_specific : Bool

-- Tally i: the strongest rule counts in full; the second adds a quarter if both are specific.
unfoldable pub tally_rule : Observation → ℕ → Rule → Tally → Tally
tally_rule o i r t =
    let ceiling = max t.ceiling (cap r o) in
    if i == 0
    then record { score = worth o r; ceiling = ceiling; strongest_specific = not r.generic }
    else if (i == 1) && t.strongest_specific && not r.generic
    then record t { score = t.score + worth o r / 4; ceiling = ceiling }
    else record t { ceiling = ceiling }

unfoldable pub tally : Observation → ℕ → List Rule → Tally → Tally
unfolding tally_rule
tally o i [] t = t
tally o i (r ∷ rs) t = tally o (suc i) rs (tally_rule o i r t)

abbrev pub no_tally : Tally
no_tally = record { score = 0; ceiling = 0; strongest_specific = false }

-- The score of the sorted active rules.
unfoldable pub total_score : Observation → List Rule → ℕ
unfolding tally
total_score o rs =
    let t = tally o 0 rs no_tally in
    let score = min t.score t.ceiling in
    if o.contradiction then if ltb 20 score then score - 20 else 1 else score

unfoldable pub listed_rules : ℕ → List Rule → List (Option Rule)
listed_rules zero rs = []
listed_rules (suc n) [] = none ∷ listed_rules n []
listed_rules (suc n) (r ∷ rs) = some r ∷ listed_rules n rs

-- The detection's score and rules from its evidence.
unfoldable pub rescore : Observation → Entry → Entry
unfolding active_rules sort_rules total_score listed_rules
rescore o e =
    let active = sort_rules o (active_rules o.ms e.evidence) in
    record e {
      detection = record e.detection {
        rule_count = min (length active) 4;
        rules = listed_rules 4 active;
        score = total_score o active;
      };
    }

unfoldable pub level : ℕ → ℕ
level score = if leb 80 score then 3 else if leb 50 score then 2 else if leb 20 score then 1 else 0

-- A first emission, half a minute since the last one (the difference wraps around), a changed tag state, or a higher level.
unfoldable pub due : ℕ → ℕ → Entry → Bool
unfolding level
due ms old_score e =
    (e.emitted == 0)
    || leb 30000 (sub64 ms e.emitted)
    || not (samsung_state_eq e.detection.samsung.state e.emitted_samsung_state)
    || ltb (level old_score) (level e.detection.score)

-- What the end of `ingest` does with one touched entry; `out` holds at most `room` detections.
unfoldable pub settle : Observation → ℕ → ℕ → Engine × List Detection → Engine × List Detection
unfolding rescore due
settle o room i (g, out) =
    let old = get_or g.cache i blank_entry in
    let e = rescore o old in
    if due o.ms old.detection.score e && leb g.next_emit o.ms && ltb (length out) room
    then (
      record g {
        cache =
            set g.cache i (record e {
              emitted = max 1 o.ms;
              emitted_samsung_state = e.detection.samsung.state;
            });
        next_emit = (o.ms + 100) % u64_mod;
      },
      out ++ (e.detection ∷ []),
    )
    else (record g { cache = set g.cache i e }, out)

unfoldable pub settle_all :
    Observation → ℕ → Touched → Engine × List Detection → Engine × List Detection
unfolding settle
settle_all o room [] st = st
settle_all o room (none ∷ touched) st = settle_all o room touched st
settle_all o room (some i ∷ touched) st = settle_all o room touched (settle o room i st)

-- The engine afterwards and the detections written to `out`, which has room for `room` of them.
unfoldable pub ingest : Engine → Observation → Settings → ℕ → Engine × List Detection
unfolding apply_rules settle_all remember_ap
ingest g o s room =
    let (ruled, touched) = apply_rules o s g.rules (g, untouched) in
    settle_all o room touched (record ruled { aps = remember_ap ruled.aps o }, [])

unfoldable pub counts_now : ℕ → Settings → Entry → Bool
counts_now now s e =
    let d = e.detection in
    not (d.seen_count == 0)
    && leb 20 d.score
    && leb d.last_ms now
    && leb (now - d.last_ms) 90000
    && test_bit s.enabled_categories d.category

unfoldable pub same_device : Detection → Detection → Bool
same_device d other =
    if samsung_identity d && samsung_identity other
    then list_eq d.samsung.id other.samsung.id
    else list_eq d.address other.address
      && radio_eq d.radio other.radio
      && (d.address_type == other.address_type)

-- Entry j is another active entry of the device of entry i, with detection d, and ranks above it.
unfoldable pub beats : ℕ → Settings → ℕ → Detection → ℕ → Entry → Bool
unfolding counts_now same_device
beats now s i d j e =
    not (i == j)
    && counts_now now s e
    && same_device d e.detection
    && (ltb d.score e.detection.score || ((e.detection.score == d.score) && ltb j i))

-- The inner loop, from slot j.
unfoldable pub outranked : ℕ → Settings → ℕ → Detection → ℕ → List Entry → Bool
unfolding beats
outranked now s i d j [] = false
outranked now s i d j (e ∷ es) = beats now s i d j e || outranked now s i d (suc j) es

-- Entry i is active and the first of its device.
unfoldable pub counted : ℕ → Settings → List Entry → ℕ → Entry → Bool
unfolding counts_now outranked
counted now s cache i e = counts_now now s e && not (outranked now s i e.detection 0 cache)

abbrev pub count_slot : ℕ → ℕ
count_slot score = if leb 80 score then 0 else if leb 50 score then 1 else 2

-- The outer loop, from slot i.
unfoldable pub count_from : ℕ → Settings → List Entry → ℕ → List Entry → List ℕ → List ℕ
unfolding counted
count_from now s cache i [] counts = counts
count_from now s cache i (e ∷ es) counts =
    let slot = count_slot e.detection.score in
    count_from now s cache (suc i) es
      (if counted now s cache i e then set counts slot (get_or counts slot 0 + 1) else counts)

unfoldable pub recent_counts : Engine → ℕ → Settings → List ℕ
unfolding count_from
recent_counts g now s = count_from now s g.cache 0 g.cache (0 ∷ 0 ∷ 0 ∷ [])
