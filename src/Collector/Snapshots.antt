-- ===== src/Collector/Snapshots.antt =====
-- internal/collector: what a snapshot holds for each server, and its rates.
use machmqtt_dashboard.Prelude.{
  ℕ, ◌≡◌, refl, inl, inr, List, [], ◌∷◌, String, Bool, true, false, Option, some, none, Map, lookup,
  insert, lookup-insert, Distinct, str_eq, eq_iff, leb, if◌then◌else◌, arith, Option-cases,
}
use machmqtt_dashboard.Collector.{Varz, Payloads, Snapshot, ServerRates}
use machmqtt_dashboard.Collector.Rates.{Arithmetic, compute_rates, rate_entries, server_rates}
use machmqtt_dashboard.Collector.Fetch.{Answers, fetch_all, fetch_server}

module _ (p : Payloads) where
  -- The varz of the server `id` in the answers of `urls`: the last that names itself so.
  unfoldable pub answered :
      (String → Answers p)
      → String
      → Option (Varz p.VarzRest)
      → List String
      → Option (Varz p.VarzRest)
  answered answers id found [] = found
  answered answers id found (url ∷ urls) = elim (answers url).varz [
    | none ↦ answered answers id found urls
    | some v ↦ answered answers id (if str_eq v.server_id id then some v else found) urls
  ]

  fetch_server-varz :
      (slow : Bool) (a : Answers p) (s : Snapshot p × Map ℕ) (v : Varz p.VarzRest)
      → a.varz ≡ some v
      → (fetch_server slow a s).0.varz ≡ insert v.server_id v s.0.varz
  unfolding fetch_server
  fetch_server-varz true a s v e = ground (arith, e)
  fetch_server-varz false a s v e = ground (arith, e)

  fetch_server-silent :
      (slow : Bool) (a : Answers p) (s : Snapshot p × Map ℕ)
      → a.varz ≡ none
      → (fetch_server slow a s).0.varz ≡ s.0.varz
  unfolding fetch_server
  fetch_server-silent slow a s e = ground (arith, e)

  -- After the fetches of a poll, the snapshot has a varz for a server exactly if one of the configured
  -- URLs answered with its id, and then the last such answer; no other endpoint's failure changes that.
  pub lookup-fetch_all :
      (slow : Bool) (answers : String → Answers p) (urls : List String) (s : Snapshot p × Map ℕ)
      (id : String)
      → lookup id (fetch_all slow answers urls s).0.varz
        ≡ answered answers id (lookup id s.0.varz) urls
  unfolding fetch_all answered
  lookup-fetch_all slow answers [] s id = refl
  lookup-fetch_all slow answers (url ∷ urls) s id = elim (Option-cases (answers url).varz) [
    | inl e ↦ ground (
      arith,
      e,
      lookup-fetch_all slow answers urls (fetch_server slow (answers url) s) id,
      fetch_server-silent slow (answers url) s e,
    )
    | inr (v, e) ↦ ground (
      arith,
      e,
      lookup-fetch_all slow answers urls (fetch_server slow (answers url) s) id,
      fetch_server-varz slow (answers url) s v e,
      lookup-insert v.server_id id v s.0.varz,
    )
  ]

module _ (p : Payloads) (fl : Arithmetic p.Float) where
  -- The rates of one server, from what the two snapshots have of it.
  abbrev pub rates_between :
      Option (Varz p.VarzRest) → Option (Varz p.VarzRest) → Option (ServerRates p.Float)
  rates_between none cv = none
  rates_between (some pv) none = none
  rates_between (some pv) (some cv) =
      if leb cv.now pv.now then none else some (server_rates p fl cv pv)

  lookup-rate_entries-none :
      (prev cur : Map (Varz p.VarzRest)) (id : String)
      → lookup id cur ≡ none
      → lookup id (rate_entries p fl prev cur) ≡ none
  unfolding rate_entries lookup
  lookup-rate_entries-none prev [] id h = refl
  lookup-rate_entries-none prev ((k, cv) ∷ rest) id h = elim (Option-cases (lookup k prev)) [
    | inl e ↦ ground (arith, e, lookup-rate_entries-none prev rest id (ground arith))
    | inr (pv, e) ↦ ground (arith, e, lookup-rate_entries-none prev rest id (ground arith))
  ]

  lookup-rate_entries :
      (prev cur : Map (Varz p.VarzRest)) (id : String)
      → Distinct cur
      → lookup id (rate_entries p fl prev cur) ≡ rates_between (lookup id prev) (lookup id cur)
  unfolding rate_entries lookup
  lookup-rate_entries prev [] id d = elim (Option-cases (lookup id prev)) [
    | inl e ↦ ground (arith, e)
    | inr (pv, e) ↦ ground (arith, e)
  ]
  lookup-rate_entries prev ((k, cv) ∷ rest) id d = elim (Option-cases (lookup k prev)) [
    | inl e ↦ ground (
      arith,
      e,
      eq_iff k id,
      lookup-rate_entries prev rest id d.1,
      lookup-rate_entries-none prev rest k d.0,
    )
    | inr (pv, e) ↦ ground (
      arith,
      e,
      eq_iff k id,
      lookup-rate_entries prev rest id d.1,
      lookup-rate_entries-none prev rest k d.0,
    )
  ]

  -- A server has rates exactly if both snapshots know it and its own clock moved on between them; they
  -- are those of its two readings.
  pub lookup-compute_rates :
      (prev cur : Snapshot p) (id : String)
      → Distinct cur.varz
      → lookup id (compute_rates p fl (some prev) cur)
        ≡ rates_between (lookup id prev.varz) (lookup id cur.varz)
  unfolding compute_rates
  lookup-compute_rates prev cur id d = lookup-rate_entries prev.varz cur.varz id d
