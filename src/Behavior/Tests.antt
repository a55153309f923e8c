-- ===== src/Behavior/Tests.antt =====
-- Bursts and access points at concrete inputs.
use surveillance_hound.Common.{◌≡◌, refl, ◌↔◌, true, false, List, [], ◌∷◌, ◌++◌, arith, replicate}
use surveillance_hound.Core.{Observation, blank_observation}
use surveillance_hound.Behavior.{deauth_burst, no_aps, remember_ap, security}
use surveillance_hound.Behavior.Ring.{Bursting}
use surveillance_hound.Behavior.Senders.{after, senders, sent}
use surveillance_hound.Behavior.Burst20.{deauth_burst-Bursting}
use surveillance_hound.Behavior.Downgrade.{
  no_aps-IsDistinct, IsDistinct, remember_ap-IsDistinct, security-remember_ap,
}

abbrev deauth_frame : Observation
deauth_frame = record blank_observation { subtype = 12; channel = 6 }

-- A frame of another address on the same channel.
abbrev other_frame : Observation
other_frame = record deauth_frame { ms = 1500; address = 2 ∷ 0 ∷ 0 ∷ 0 ∷ 0 ∷ 7 ∷ [] }

-- Nineteen frames of one sender, with two of another between them, and then the twentieth.
abbrev two_senders : List Observation
two_senders =
    replicate 10 (record deauth_frame { ms = 1000 })
    ++ (other_frame ∷ other_frame ∷ replicate 9 (record deauth_frame { ms = 1000 }))

abbrev twentieth : Observation
twentieth = record deauth_frame { ms = 2000 }

deauth_burst-Bursting_example :
    ((deauth_burst (after two_senders) twentieth).1 ≡ true)
    ↔ Bursting (2000 ∷ replicate 19 1000) 2000
unfolding sent
deauth_burst-Bursting_example =
    deauth_burst-Bursting two_senders twentieth refl (unfold senders in omega arith)

abbrev beacon : Observation
beacon = record blank_observation {
  ms = 5000;
  subtype = 8;
  ssid = 0x68 ∷ replicate 31 0;
  ssid_len = 1;
  protected_network = true;
  address = 2 ∷ 1 ∷ 1 ∷ 1 ∷ 1 ∷ 1 ∷ [];
}

abbrev twin : Observation
twin = record beacon { ms = 6000; protected_network = false; address = 2 ∷ 1 ∷ 1 ∷ 1 ∷ 1 ∷ 9 ∷ [] }

security-remember_ap_example : security false twin (remember_ap no_aps beacon) ≡ true
security-remember_ap_example =
    security-remember_ap no_aps beacon twin (omega arith) no_aps-IsDistinct refl (record {
      hosts = refl;
      named = refl;
      after = omega arith;
      soon = omega arith;
      other = refl;
      same_length = refl;
      same_ssid = refl;
      protection = refl;
    })

remember_ap-IsDistinct_example : IsDistinct (remember_ap no_aps beacon)
remember_ap-IsDistinct_example =
    remember_ap-IsDistinct no_aps beacon (omega arith) no_aps-IsDistinct
