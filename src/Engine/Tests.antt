-- ===== src/Engine/Tests.antt =====
-- The engine at concrete inputs.
use surveillance_hound.Common.{
  ◌-◌, ◌^◌, ◌≤◌, ◌≡◌, refl, true, false, ◌&&◌, List, [], ◌∷◌, map, arith, All, get_or,
}
use surveillance_hound.Common.Int.{negsuc}
use surveillance_hound.Core.{
  samsung_identity, Rule, Observation, Settings, blank_observation, blank_detection, company,
  name_exact, ble,
}
use surveillance_hound.Core.Text.{codes}
use surveillance_hound.Signatures.{cap}
use surveillance_hound.Engine.{
  same_device, Engine, Entry, new_engine, ingest, recent_counts, total_score, counted, blank_entry,
}
use surveillance_hound.Engine.Bounds.{new_engine-IsBounded, IsBounded, IsByte, ingest-IsBounded}
use surveillance_hound.Engine.Emission.{
  Call, Emits, ingest-Emits, IsSpaced, emission_times, emission_times-IsSpaced,
}
use surveillance_hound.Engine.Current.{ingest-IsCurrent}
use surveillance_hound.Engine.Reach.{IsCurrent}
use surveillance_hound.Engine.Counts.{counted_once}

abbrev apple : Rule
apple = record {
  id = codes "apple";
  category = 5;
  kind = company;
  value = codes "004C";
  score = 60;
  cap = 70;
  generic = false;
  label = [];
  reason = [];
}

abbrev named : Rule
named = record apple { kind = name_exact; value = codes "tag"; score = 40; cap = 60 }

abbrev advert : Observation
advert = record blank_observation {
  ms = 5000;
  radio = ble;
  rssi = negsuc 59;
  manufacturer = 0x4c ∷ 0x00 ∷ 0x12 ∷ [];
  manufacturer_len = 3;
  address = 1 ∷ 2 ∷ 3 ∷ 4 ∷ 5 ∷ 6 ∷ [];
}

abbrev all_on : Settings
all_on = record {
  version = 1;
  enabled_categories = 2 ^ 19 - 1;
  threshold = 50;
  region = 0;
  brightness = 0;
  character = 0;
  sound = true;
  low_feeding = false;
  reduced_animation = false;
  research = false;
  raw_ssid = false;
  onboarded = true;
  ibeacon_alerts = false;
  name = [];
  portrait = false;
  rotation_locked = false;
  alert_categories = 0;
}

abbrev hound : Engine
hound = new_engine (apple ∷ named ∷ [])

-- The first advertisement is emitted with the rule's score.
first_emission : map (λ d. d.score) (ingest hound advert all_on 4).1 ≡ 60 ∷ []
unfolding ingest cap
first_emission = refl

-- 60 and a quarter of 40, within the caps.
two_clues : total_score advert (apple ∷ named ∷ []) ≡ 70
unfolding total_score cap
two_clues = refl

caps_70 : All (λ r. cap r advert ≤ 70) (apple ∷ named ∷ [])
unfolding cap
caps_70 = (omega arith, (omega arith, tt))

near : IsByte advert.rssi
unfolding IsByte
near = (omega arith, omega arith)

ingest-IsBounded_example :
    All (IsBounded 70) (ingest hound advert all_on 4).0.cache
    × All (λ d. d.score ≤ 70) (ingest hound advert all_on 4).1
ingest-IsBounded_example =
    ingest-IsBounded hound advert all_on 4 70 (omega arith, (omega arith, tt)) near
      (new_engine-IsBounded (apple ∷ named ∷ []) 70)

ingest-Emits_example : Emits advert 0 (ingest hound advert all_on 4)
ingest-Emits_example = ingest-Emits hound advert all_on 4 (omega arith)

abbrev two_calls : List Call
two_calls =
    record { o = advert; settings = all_on; room = 4 }
    ∷ record { o = record advert { ms = 40000 }; settings = all_on; room = 4 }
    ∷ []

emission_times-IsSpaced_example : IsSpaced 0 (emission_times hound two_calls)
emission_times-IsSpaced_example =
    emission_times-IsSpaced two_calls hound (omega arith, (omega arith, tt))

ingest-IsCurrent_example : All (IsCurrent advert all_on) (ingest hound advert all_on 4).1
ingest-IsCurrent_example = ingest-IsCurrent hound advert all_on 4 (omega arith)

-- Two entries of one device: the first has the higher score.
abbrev strong : Entry
strong = record blank_entry {
  detection = record blank_detection {
    seen_count = 2;
    score = 60;
    last_ms = 900;
    category = 5;
    radio = ble;
  };
}

abbrev pair : List Entry
pair =
    strong ∷ record strong { detection = record strong.detection { score = 30; category = 6 } } ∷ []

counted_once_example :
    (counted 1000 all_on pair 0 (get_or pair 0 blank_entry)
      && counted 1000 all_on pair 1 (get_or pair 1 blank_entry))
    ≡ false
unfolding same_device samsung_identity
counted_once_example = counted_once 1000 all_on pair 0 1 refl (omega arith) (omega arith) refl

abbrev busy : Engine
busy = record hound { cache = pair }

one_device : recent_counts busy 1000 all_on ≡ 0 ∷ 1 ∷ 0 ∷ []
unfolding recent_counts samsung_identity
one_device = refl
