-- ===== src/Sns/Metrics.antt =====
-- src/sns/metrics.rs: the counters of the pipeline, of 64 bits each, and their windows.
pub mod Windows
use alert_distributor.Base.{ℕ, ◌+◌, ◌%◌, ◌^◌}

abbrev pub u64_mod : ℕ
u64_mod = 2 ^ 64

pub record SnsMetrics : Type 0 where
  pub resolved : ℕ
  pub enqueued : ℕ
  pub lagged : ℕ
  pub published : ℕ
  pub failed : ℕ

-- `SnsMetrics::default()`, and what a swap of each counter by 0 leaves.
abbrev pub zeroed : SnsMetrics
zeroed = record { resolved = 0; enqueued = 0; lagged = 0; published = 0; failed = 0 }

-- `fetch_add` wraps.
abbrev pub fetch_add : ℕ → ℕ → ℕ
fetch_add counter n = (counter + n) % u64_mod

unfoldable pub inc_resolved : SnsMetrics → SnsMetrics
inc_resolved m = record m { resolved = fetch_add m.resolved 1 }

unfoldable pub inc_enqueued : SnsMetrics → SnsMetrics
inc_enqueued m = record m { enqueued = fetch_add m.enqueued 1 }

unfoldable pub add_lagged : ℕ → SnsMetrics → SnsMetrics
add_lagged n m = record m { lagged = fetch_add m.lagged n }

unfoldable pub inc_published : SnsMetrics → SnsMetrics
inc_published m = record m { published = fetch_add m.published 1 }

unfoldable pub inc_failed : SnsMetrics → SnsMetrics
inc_failed m = record m { failed = fetch_add m.failed 1 }

-- One window of the reporter: what it logs, and the counters that it leaves.
unfoldable pub report_window : SnsMetrics → SnsMetrics × SnsMetrics
report_window m = (m, zeroed)
