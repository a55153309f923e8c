-- ===== src/Storage/SaveRetry.antt =====
-- components/sniffer_core/include/sniffer/save_retry.hpp: when the saved state is queued again.
use surveillance_hound.Common.{ℕ, ◌-◌, Bool, false, not, ◌&&◌, leb, if◌then◌else◌}

pub record SaveRetry : Type 0 where
  pub pending : Bool
  pub backup_requested : Bool
  pub attempted : ℕ
  pub accepted : ℕ

abbrev pub new_retry : SaveRetry
new_retry = record { pending = false; backup_requested = false; attempted = 0; accepted = 0 }

unfoldable pub due : SaveRetry → ℕ → Bool
due r now =
    let previous = if r.pending then r.attempted else r.accepted in
    leb previous now && leb (if r.pending then 1000 else 60000) (now - previous)

unfoldable pub result : SaveRetry → ℕ → Bool → SaveRetry
result r now queued = record {
  pending = not queued;
  backup_requested = if queued then false else r.backup_requested;
  attempted = now;
  accepted = if queued then now else r.accepted;
}
