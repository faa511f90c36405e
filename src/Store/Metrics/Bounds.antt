-- ===== src/Store/Metrics/Bounds.antt =====
-- The number of points of a time series, and the parameters of its query.
use machmqtt_dashboard.Prelude.{
  ℕ, zero, suc, ◌+◌, ◌-◌, ◌*◌, ◌/◌, ◌≤◌, ◌<◌, ◌==◌, Option, none, some, arith, if_elim,
}
use native.Mathlib.Nat.{lt-div-mul-add, div-lt_iff_lt-mul}
use machmqtt_dashboard.Store.Metrics.Queries.{
  TimeRange, auto_step, step_or_auto, within, clamp_step, parse_time_range,
}

-- The buckets `ts / step` of the times of a range.
abbrev pub buckets : ℕ → ℕ → ℕ → ℕ
buckets from to step = to / step - from / step + 1

-- `a / s < c` as soon as `a < c * s`, and `b < (b / s + 1) * s`.
div-le : (s a b k : ℕ) → 0 < s → a ≤ b + k * s → a / s ≤ b / s + k
div-le s a b k h le =
    let below : a < (b / s + k + 1) * s = grind (arith, lt-div-mul-add {a = b} {b = s} h) in
    omega (arith, (div-lt_iff_lt-mul {k = s} {x = a} {y = b / s + k + 1} h).1 below)

auto_step_bounds :
    (from to : ℕ) → (5 ≤ auto_step from to 200) × (to - from < 200 * auto_step from to 200 + 200)
unfolding auto_step
auto_step_bounds from to = ground arith

clamp_step_bounds :
    (from to step : ℕ)
    → 0 < step
    → (0 < clamp_step from to step) × (to - from < 5000 * clamp_step from to step + 5000)
clamp_step_bounds from to step h = ground arith

auto_step_buckets : (from to : ℕ) → buckets from to (auto_step from to 200) ≤ 241
auto_step_buckets from to =
    let step = auto_step from to 200 in
    let h = auto_step_bounds from to in
    let d = div-le step to from 240 (omega (arith, h)) (omega (arith, h)) in omega (arith, d)

clamp_step_buckets :
    (from to step : ℕ) → 0 < step → buckets from to (clamp_step from to step) ≤ 10000
clamp_step_buckets from to step h =
    let step' = clamp_step from to step in
    let b = clamp_step_bounds from to step h in
    let d = div-le step' to from 9999 b.0 (omega (arith, b)) in omega (arith, d)

step_buckets :
    (from to step : ℕ) → buckets from to (step_or_auto from to (clamp_step from to step)) ≤ 10000
step_buckets from to zero = omega (arith, auto_step_buckets from to)
step_buckets from to (suc step) =
    let b = clamp_step_bounds from to (suc step) (omega arith) in
    let P = λ (x : ℕ). buckets from to x ≤ 10000 in
    if_elim P (clamp_step from to (suc step) == 0) _ _
      (λ e. omega (arith, auto_step_buckets from to))
      (λ e. clamp_step_buckets from to (suc step) (omega arith))

within_bounds :
    (low high otherwise : ℕ) (o : Option ℕ)
    → low ≤ otherwise
    → otherwise ≤ high
    → (low ≤ within low high otherwise o) × (within low high otherwise o ≤ high)
within_bounds low high otherwise none h k = (h, k)
within_bounds low high otherwise (some n) h k = ground arith

-- What a request can ask for.
pub record IsWithin (now : ℕ) (r : TimeRange) : Type 0 where
  pub ordered : r.from ≤ r.to
  pub recent : now - 30 * 24 * 3600 ≤ r.from
  pub not_ahead : r.to ≤ now + 60
  pub points : buckets r.from r.to (step_or_auto r.from r.to r.step) ≤ 10000

-- Whatever a request asks for, its range is in order, goes back 30 days at most and ahead 60 seconds at most,
-- and its series has at most 10000 points, be the step its own or the automatic one.
pub parse_time_range-IsWithin :
    (now : ℕ) (from to step : Option ℕ) → IsWithin now (parse_time_range now from to step)
unfolding parse_time_range
parse_time_range-IsWithin now from to step =
    let start = within (now - 30 * 24 * 3600) now (now - 3600) from in
    let end = within start (now + 60) now to in
    let b =
      within_bounds (now - 30 * 24 * 3600) now (now - 3600) from (omega arith) (omega arith) in
    let c = within_bounds start (now + 60) now to b.1 (omega arith) in
    record {
      ordered = c.0;
      recent = b.0;
      not_ahead = c.1;
      points = step_buckets start end (within 1 86400 0 step);
    }
