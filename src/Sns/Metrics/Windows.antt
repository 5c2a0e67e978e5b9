-- ===== src/Sns/Metrics/Windows.antt =====
-- No count is lost between windows: what was logged and what is still held make up all increments.
use alert_distributor.Base.{ℕ, ◌+◌, ◌%◌, ◌≡◌, List, [], ◌∷◌, arith}
use alert_distributor.Sns.Metrics.{
  SnsMetrics, u64_mod, inc_resolved, inc_enqueued, add_lagged, inc_published, inc_failed,
  report_window,
}

-- What the tasks that share the counters do, one at a time.
pub data Op : Type 0 where
  resolve enqueue publish fail report : Op
  lag : ℕ → Op

-- The counters, and the sum of the windows logged so far.
pub record Totals : Type 0 where
  pub held : SnsMetrics
  pub logged_published : ℕ
  pub logged_failed : ℕ
  pub logged_lagged : ℕ
  pub logged_resolved : ℕ
  pub logged_enqueued : ℕ

log_window : SnsMetrics × SnsMetrics → Totals → Totals
log_window (window, left) t = record {
  held = left;
  logged_published = t.logged_published + window.published;
  logged_failed = t.logged_failed + window.failed;
  logged_lagged = t.logged_lagged + window.lagged;
  logged_resolved = t.logged_resolved + window.resolved;
  logged_enqueued = t.logged_enqueued + window.enqueued;
}

unfoldable pub run_op : Op → Totals → Totals
unfolding log_window
run_op resolve t = record t { held = inc_resolved t.held }
run_op enqueue t = record t { held = inc_enqueued t.held }
run_op publish t = record t { held = inc_published t.held }
run_op fail t = record t { held = inc_failed t.held }
run_op (lag n) t = record t { held = add_lagged n t.held }
run_op report t = log_window (report_window t.held) t

unfoldable pub run_ops : List Op → Totals → Totals
run_ops [] t = t
run_ops (o ∷ os) t = run_ops os (run_op o t)

-- What the operations added to each counter.
abbrev pub added : (Op → ℕ) → List Op → ℕ
added weight [] = 0
added weight (o ∷ os) = weight o + added weight os

abbrev pub resolves : Op → ℕ
resolves resolve = 1
resolves _ = 0

abbrev pub enqueues : Op → ℕ
enqueues enqueue = 1
enqueues _ = 0

abbrev pub publishes : Op → ℕ
publishes publish = 1
publishes _ = 0

abbrev pub fails : Op → ℕ
fails fail = 1
fails _ = 0

abbrev pub lags : Op → ℕ
lags (lag n) = n
lags _ = 0

-- All counts, logged and held, up to the wrap of a counter.
abbrev pub AddsUp : Totals → Totals → List Op → Type 0
AddsUp t u os =
    ((u.logged_resolved + u.held.resolved) % u64_mod
      ≡ (t.logged_resolved + t.held.resolved + added resolves os) % u64_mod)
    × ((u.logged_enqueued + u.held.enqueued) % u64_mod
        ≡ (t.logged_enqueued + t.held.enqueued + added enqueues os) % u64_mod)
    × ((u.logged_lagged + u.held.lagged) % u64_mod
        ≡ (t.logged_lagged + t.held.lagged + added lags os) % u64_mod)
    × ((u.logged_published + u.held.published) % u64_mod
        ≡ (t.logged_published + t.held.published + added publishes os) % u64_mod)
    × ((u.logged_failed + u.held.failed) % u64_mod
        ≡ (t.logged_failed + t.held.failed + added fails os) % u64_mod)

step-AddsUp : (o : Op) (t : Totals) → AddsUp t (run_op o t) (o ∷ [])
unfolding run_op inc_resolved inc_enqueued add_lagged inc_published inc_failed report_window
step-AddsUp resolve t = omega arith
step-AddsUp enqueue t = omega arith
step-AddsUp publish t = omega arith
step-AddsUp fail t = omega arith
step-AddsUp (lag n) t = omega arith
step-AddsUp report t = omega arith

-- Whatever the order of increments and reports, what the reports logged plus what the counters hold
-- is what was counted, modulo 2^64: no count is lost or logged twice.
pub run_ops-AddsUp : (os : List Op) (t : Totals) → AddsUp t (run_ops os t) os
unfolding run_ops
run_ops-AddsUp [] t = omega arith
run_ops-AddsUp (o ∷ os) t =
    let h = step-AddsUp o t in
    let k = run_ops-AddsUp os (run_op o t) in
    (
      omega (arith, h.0, k.0),
      omega (arith, h.1, k.1),
      omega (arith, h.2, k.2),
      omega (arith, h.3, k.3),
      omega (arith, h.4, k.4),
    )
