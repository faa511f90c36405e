-- ===== src/Collector/Rates.antt =====
-- internal/collector/snapshot.go, `computeRates`, and `nonNegRate` of mqtt_subscriber.go.
use machmqtt_dashboard.Prelude.{
  ℕ, ◌-◌, [], ◌∷◌, Option, some, none, Map, lookup, ltb, leb, if◌then◌else◌,
}
use machmqtt_dashboard.Collector.{Varz, Payloads, ServerRates, Snapshot}

-- Division of a count by a number of nanoseconds, per second, in floating point.
pub record Arithmetic (Float : Type 0) : Type 0 where
  pub zero_rate : Float
  pub per_second : (delta nanoseconds : ℕ) → Float

module _ (p : Payloads) (fl : Arithmetic p.Float) where
  -- A counter that went down was reset by a restart.
  unfoldable pub non_neg_rate : ℕ → ℕ → ℕ → p.Float
  non_neg_rate cur prev dt =
      if leb dt 0
      then fl.zero_rate
      else if ltb cur prev
      then fl.zero_rate
      else fl.per_second (cur - prev) dt

  unfoldable pub server_rates : Varz p.VarzRest → Varz p.VarzRest → ServerRates p.Float
  unfolding non_neg_rate
  server_rates cv pv =
      let dt = cv.now - pv.now in
      record {
        in_msgs_rate = non_neg_rate cv.in_msgs pv.in_msgs dt;
        out_msgs_rate = non_neg_rate cv.out_msgs pv.out_msgs dt;
        in_bytes_rate = non_neg_rate cv.in_bytes pv.in_bytes dt;
        out_bytes_rate = non_neg_rate cv.out_bytes pv.out_bytes dt;
      }

  -- The loop over `cur.Varz`.
  unfoldable pub rate_entries :
      Map (Varz p.VarzRest) → Map (Varz p.VarzRest) → Map (ServerRates p.Float)
  rate_entries prev [] = []
  rate_entries prev ((id, cv) ∷ rest) =
      let others = rate_entries prev rest in
      elim (lookup id prev) [
        | none ↦ others
        | some pv ↦ if leb cv.now pv.now then others else (id, server_rates cv pv) ∷ others
      ]

  unfoldable pub compute_rates : Option (Snapshot p) → Snapshot p → Map (ServerRates p.Float)
  unfolding rate_entries server_rates
  compute_rates none cur = []
  compute_rates (some prev) cur = rate_entries prev.varz cur.varz
