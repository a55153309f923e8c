-- ===== src/Signatures/Caps.antt =====
-- Bounds of the score caps and the evidence groups.
use surveillance_hound.Common.{◌≤◌, ◌<◌, ◌≡◌, true, arith}
use surveillance_hound.Core.{
  Kind, Rule, Observation, oui, ssid_exact, ssid_prefix, name_exact, name_prefix, uuid16, uuid128,
  company, payload, protocol, behavior,
}
use surveillance_hound.Signatures.{cap, group, by_name}

pub group-lt : (k : Kind) → group k < 9
unfolding group
group-lt oui = omega arith
group-lt ssid_exact = omega arith
group-lt ssid_prefix = omega arith
group-lt name_exact = omega arith
group-lt name_prefix = omega arith
group-lt uuid16 = omega arith
group-lt uuid128 = omega arith
group-lt company = omega arith
group-lt payload = omega arith
group-lt protocol = omega arith
group-lt behavior = omega arith

pub cap-le : (r : Rule) (o : Observation) → cap r o ≤ r.cap
unfolding cap by_name
cap-le r o = ground arith

pub cap-generic : (r : Rule) (o : Observation) → r.generic ≡ true → cap r o ≤ 49
unfolding cap by_name
cap-generic r o e = ground (arith, e)
