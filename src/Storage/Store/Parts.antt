-- ===== src/Storage/Store/Parts.antt =====
-- Writing the parts of a generation: what it leaves of the other one, and what can be read when it is done.
use surveillance_hound.Common.{
  all, ==→eq, ℕ, ◌+◌, ◌/◌, ◌%◌, ◌^◌, ◌≡◌, refl, sym, ap, ◌∙◌, inl, inr, Bool, true, false, not,
  ◌&&◌, ◌||◌, some, List, [], ◌∷◌, arith, leb, ◌==◌, Bool-cases, and-true,
}
use surveillance_hound.Storage.State.{
  good_settings, good_calibration, valid_state, Calibration, State, valid_current,
}
use surveillance_hound.Core.Category.{category_count}
use surveillance_hound.Companion.{valid_companion}
use surveillance_hound.Utilities.{valid_battery}
use surveillance_hound.Storage.Store.{
  MealStamp, Pet, Settings, and_then, valid_appearance, Nvs, put, Outcome, refused, unsure, done,
  read_parts, seal, write_part, opens, read_part, parts_of, write_parts,
}
use surveillance_hound.Storage.Store.Layout.{
  as_config, as_pets, as_boot, as_scents, as_look, look, scents, boot, pets, config, checksum, Part,
  Space, hound_settings, hound_pet, hound_system, hound_companion, hound_look, space_index,
  Envelope,
}

unfoldable pub part_of : State → Space → Part
part_of s hound_settings =
    config (record { settings = s.settings; calibration = s.calibration; battery = s.battery })
part_of s hound_pet = pets (record { pet = s.pet; recent = s.recent; key = s.meal_key })
part_of s hound_system = boot (record { boots = s.boots; reason = s.reset_reason; version = 5 })
part_of s hound_companion = scents s.companion
part_of s hound_look = look s.appearance

valid_state-version :
    (version : ℕ) (v : Settings) (p : Pet) (c : Calibration)
    → valid_state version v p c 5 ≡ true
    → version ≡ 5
valid_state-version version v p c h =
    let h1 : (good_calibration c
          && (version == 5)
          && good_settings v 5
          && leb p.fullness 100
          && leb p.mood 100)
        ≡ true =
      unfold valid_state in h in
    let (a, _) =
      and-true (good_calibration c && (version == 5) && good_settings v 5 && leb p.fullness 100) _
        h1 in
    let (b, _) = and-true (good_calibration c && (version == 5) && good_settings v 5) _ a in
    let (d, _) = and-true (good_calibration c && (version == 5)) _ b in
    let (_, e) = and-true (good_calibration c) (version == 5) d in ==→eq version 5 e

pub valid_current-version :
    (s : State) → valid_current s ≡ true → (s.version ≡ 5) × (valid_appearance s.appearance ≡ true)
valid_current-version s ok =
    let battery = not s.battery.enabled || valid_battery s.battery in
    let alerts = s.settings.alert_categories / 2 ^ category_count == 0 in
    let recents = all (λ (m : MealStamp). leb m.remaining_ms 1800000) s.recent in
    let state = valid_state s.version s.settings s.pet s.calibration 5 in
    let ok1 : (state
          && valid_companion s.companion
          && valid_appearance s.appearance
          && alerts
          && battery
          && recents
          && not (all (λ b. b == 0) s.meal_key))
        ≡ true =
      unfold valid_current in ok in
    let (a, _) =
      and-true
        (state
          && valid_companion s.companion
          && valid_appearance s.appearance
          && alerts
          && battery
          && recents)
        _ ok1 in
    let (b, _) =
      and-true
        (state && valid_companion s.companion && valid_appearance s.appearance && alerts && battery)
        _ a in
    let (c, _) =
      and-true (state && valid_companion s.companion && valid_appearance s.appearance && alerts) _
        b in
    let (d, _) =
      and-true (state && valid_companion s.companion && valid_appearance s.appearance) _ c in
    let (e, good_look) = and-true (state && valid_companion s.companion) _ d in
    let (f, _) = and-true state _ e in
    (valid_state-version s.version s.settings s.pet s.calibration f, good_look)

-- The parts of a state that is checked read back as that state.
pub read_parts-part_of :
    (s : State) → valid_current s ≡ true → read_parts (λ space. some (part_of s space)) ≡ some s
unfolding read_parts part_of as_config as_pets as_boot as_scents as_look
read_parts-part_of s ok =
    let (version, good_look) = valid_current-version s ok in
    let same : record s { version = 5 } ≡ s = λ i. record s { version = sym version i } in
    rw (good_look, ap valid_current same ∙ ok) (ap some same)

-- A slot and the number of the generation, before and after.
abbrev pub Same : Space → ℕ → Nvs → Nvs → Type 0
Same s k n n' = (n'.blobs s k ≡ n.blobs s k) × (n'.generation ≡ n.generation)

module _ (bytes : Part → List ℕ) where
  -- The slots of another parity, and the number of the generation, stay as they are.
  pub write_parts-other :
      (outs : ℕ → Outcome) (gen : ℕ) (ps : List (Space × Part)) (nvs : Nvs) (s : Space) (k : ℕ)
      → (k == gen % 2) ≡ false
      → Same s k nvs (write_parts bytes outs gen ps nvs).0
  unfolding write_parts
  write_parts-other outs gen [] nvs s k h = (refl, refl)
  write_parts-other outs gen ((space, value) ∷ ps) nvs s k h =
      by (outs 0) (λ n. write_parts-other (λ n. outs (n + 1)) gen ps n s k h)
    where
      put_other : (e : Envelope) → (put space (gen % 2) e nvs).blobs s k ≡ nvs.blobs s k
      put_other e = elim (Bool-cases (space_index s == space_index space)) [
        | inl same ↦ rw (same, h) refl
        | inr other ↦ rw (other) refl
      ]

      by :
          (o : Outcome)
          → ((n : Nvs) → Same s k n (write_parts bytes (λ n. outs (n + 1)) gen ps n).0)
          → Same s k nvs
              (and_then
                (write_part bytes o space gen value nvs)
                (write_parts bytes (λ n. outs (n + 1)) gen ps)).0
      by refused more = unfold write_part and_then in (refl, refl)
      by unsure more = unfold write_part and_then in (put_other (seal bytes gen value), refl)
      by done more =
          unfold write_part and_then in
          let (a, b) = more (put space (gen % 2) (seal bytes gen value) nvs) in
          (a ∙ put_other (seal bytes gen value), b)

  pub put_all : ℕ → List (Space × Part) → Nvs → Nvs
  put_all gen [] nvs = nvs
  put_all gen ((space, value) ∷ ps) nvs =
      put_all gen ps (put space (gen % 2) (seal bytes gen value) nvs)

  pub write_parts-put_all :
      (outs : ℕ → Outcome) (gen : ℕ) (ps : List (Space × Part)) (nvs : Nvs)
      → (write_parts bytes outs gen ps nvs).1 ≡ true
      → (write_parts bytes outs gen ps nvs).0 ≡ put_all gen ps nvs
  unfolding write_parts put_all
  write_parts-put_all outs gen [] nvs e = refl
  write_parts-put_all outs gen ((space, value) ∷ ps) nvs e =
      by (outs 0) (λ n. write_parts-put_all (λ n. outs (n + 1)) gen ps n) e
    where
      rest : Nvs → Nvs × Bool
      rest = write_parts bytes (λ n. outs (n + 1)) gen ps

      by :
          (o : Outcome)
          → ((n : Nvs) → (rest n).1 ≡ true → (rest n).0 ≡ put_all gen ps n)
          → (and_then (write_part bytes o space gen value nvs) rest).1 ≡ true
          → (and_then (write_part bytes o space gen value nvs) rest).0
            ≡ put_all gen ps (put space (gen % 2) (seal bytes gen value) nvs)
      by refused more f =
          let f1 : false ≡ true = unfold write_part and_then in f in absurd (ground (arith, f1))
      by unsure more f =
          let f1 : false ≡ true = unfold write_part and_then in f in absurd (ground (arith, f1))
      by done more f =
          unfold write_part and_then in more (put space (gen % 2) (seal bytes gen value) nvs) f

  pub read_part-sealed :
      (nvs : Nvs) (space : Space) (gen : ℕ) (value : Part)
      → nvs.blobs space (gen % 2) ≡ some (seal bytes gen value)
      → read_part bytes nvs space gen ≡ some value
  unfolding read_part opens seal
  read_part-sealed nvs space gen value e =
      rw (e, same_number gen, same_number (checksum (bytes value))) refl
    where
      same_number : (n : ℕ) → (n == n) ≡ true
      same_number n = ground arith

  pub put_all-sealed :
      (gen : ℕ) (s : State) (nvs : Nvs) (space : Space)
      → (put_all gen (parts_of s) nvs).blobs space (gen % 2)
        ≡ some (seal bytes gen (part_of s space))
  unfolding put_all parts_of part_of
  put_all-sealed gen s nvs space = by space
    where
      same : (gen % 2 == gen % 2) ≡ true
      same = ground arith

      by :
          (space : Space)
          → (put_all gen (parts_of s) nvs).blobs space (gen % 2)
            ≡ some (seal bytes gen (part_of s space))
      by hound_settings = rw (same) refl
      by hound_pet = rw (same) refl
      by hound_system = rw (same) refl
      by hound_companion = rw (same) refl
      by hound_look = rw (same) refl
