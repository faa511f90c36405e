-- ===== src/Collector/Fallback.antt =====
-- internal/collector/collector.go, `poll`: when a collector falls back to HTTP, and when it resumes.
use machmqtt_dashboard.Prelude.{
  ℕ, ◌+◌, ◌≤◌, ◌<◌, ◌≡◌, refl, ap, ◌∙◌, Map, inl, inr, List, [], ◌∷◌, String, Bool, true, false,
  Option, some, none, leb, ◌==◌, length, if◌then◌else◌, arith, Option-cases,
}
use machmqtt_dashboard.Collector.{Varz, Payloads, Snapshot, Collector}
use machmqtt_dashboard.Collector.Rates.{Arithmetic, compute_rates}
use machmqtt_dashboard.Collector.Fetch.{Answers, fetch_all, fetch_server}
use machmqtt_dashboard.Collector.Poll.{
  collect_http, carry_slow, Round, poll, poll_body, poll_sys, poll_http, poll_without_sys,
  maybe_discover_bridges, store_snapshot, try_sys, note_fail, resume_sys, sys_fallback_grace,
  empty_snapshot,
}

module _ (p : Payloads) (fl : Arithmetic p.Float) where
  abbrev pub brings_none : Option (Snapshot p) → Bool
  brings_none none = true
  brings_none (some snap) = length snap.varz == 0

  -- A round in which the $SYS collector has no server to tell of.
  pub record IsSilent (r : Round p) : Type 0 where
    pub silent : (cur : Snapshot p) (slow : Bool) → brings_none (r.sys_poll cur slow) ≡ true

  poll_sys-silent : (c : Collector p) (r : Round p) → IsSilent r → poll_sys p fl c r ≡ none
  unfolding poll_sys
  poll_sys-silent c r s = elim (Option-cases (r.sys_poll c.snapshot r.slow)) [
    | inl e ↦ ground (arith, e)
    | inr (snap, e) ↦ ground (arith, e, s.silent c.snapshot r.slow)
  ]

  -- What the discovery of bridges leaves alone.
  pub maybe_discover-keeps :
      (c : Collector p) (r : Round p)
      → ((maybe_discover_bridges c r).sys_fell_back ≡ c.sys_fell_back)
        × ((maybe_discover_bridges c r).sys_ever_healthy ≡ c.sys_ever_healthy)
        × ((maybe_discover_bridges c r).sys_first_fail ≡ c.sys_first_fail)
        × ((maybe_discover_bridges c r).has_sys ≡ c.has_sys)
        × ((maybe_discover_bridges c r).snapshot ≡ c.snapshot)
        × ((maybe_discover_bridges c r).prev ≡ c.prev)
        × ((maybe_discover_bridges c r).mqtt_bridges ≡ c.mqtt_bridges)
  unfolding maybe_discover_bridges
  maybe_discover-keeps c r = (
    ground arith,
    ground arith,
    ground arith,
    ground arith,
    ground arith,
    ground arith,
    ground arith,
  )

  pub poll_silent :
      (c : Collector p) (r : Round p)
      → c.has_sys ≡ true
      → IsSilent r
      → poll_body p fl c r ≡ poll_without_sys p fl (note_fail (try_sys c r) r.now c) r
  unfolding poll_body
  poll_silent c r s q = ground (arith, s, poll_sys-silent c r q)

  pub fetch_all-timestamp :
      (slow : Bool) (answers : String → Answers p) (urls : List String) (s : Snapshot p × Map ℕ)
      → (fetch_all slow answers urls s).0.timestamp ≡ s.0.timestamp
  unfolding fetch_all fetch_server
  fetch_all-timestamp slow answers [] s = refl
  fetch_all-timestamp slow answers (url ∷ urls) s =
      fetch_all-timestamp slow answers urls (fetch_server slow (answers url) s)
      ∙ one (answers url).varz slow
    where
      one :
          (v : Option (Varz p.VarzRest)) (b : Bool)
          → (fetch_server b (record (answers url) { varz = v }) s).0.timestamp ≡ s.0.timestamp
      one none b = refl
      one (some v) true = refl
      one (some v) false = refl

  pub collect_http-timestamp :
      (c : Collector p) (r : Round p) → (collect_http p fl c r).snapshot.timestamp ≡ some r.now
  unfolding collect_http store_snapshot
  collect_http-timestamp c r =
      carried r.slow
        (fetch_all r.slow r.answers c.servers (empty_snapshot (some r.now), c.endpoint_failure)).0
        (fetch_all-timestamp r.slow r.answers c.servers
          (empty_snapshot (some r.now), c.endpoint_failure))
    where
      carried :
          (slow : Bool) (snap : Snapshot p)
          → snap.timestamp ≡ some r.now
          → (carry_slow slow c.snapshot snap).timestamp ≡ some r.now
      carried true snap e = e
      carried false snap e = e

  -- The state in an outage that began at `first`, after a round at `last`.
  pub record Out (c : Collector p) (first last : ℕ) : Type 0 where
    pub has : c.has_sys ≡ true
    pub healthy : c.sys_ever_healthy ≡ true
    pub failed : c.sys_first_fail ≡ some first
    pub fell : c.sys_fell_back ≡ leb (first + sys_fallback_grace) last

  pub discover-Out :
      (c : Collector p) (r : Round p) (first last : ℕ)
      → Out c first last
      → Out (maybe_discover_bridges c r) first last
  discover-Out c r first last o =
      let k = maybe_discover-keeps c r in
      record {
        has = k.3 ∙ o.has;
        healthy = k.1 ∙ o.healthy;
        failed = k.2 ∙ o.failed;
        fell = k.0 ∙ o.fell;
      }

  pub collect-Out :
      (c : Collector p) (r : Round p) (first last : ℕ)
      → Out c first last
      → Out (collect_http p fl c r) first last
  unfolding collect_http store_snapshot
  collect-Out c r first last o = record {
    has = o.has;
    healthy = o.healthy;
    failed = o.failed;
    fell = o.fell;
  }

  pub without_sys-late :
      (c : Collector p) (r : Round p) (first : ℕ)
      → c.sys_first_fail ≡ some first
      → first + sys_fallback_grace ≤ r.now
      → poll_without_sys p fl c r ≡ poll_http p fl (record c { sys_fell_back = true }) r
  unfolding poll_without_sys
  without_sys-late c r first f late = ground (arith, f)

  pub without_sys-early :
      (c : Collector p) (r : Round p) (first : ℕ)
      → c.sys_first_fail ≡ some first
      → r.now < first + sys_fallback_grace
      → c.sys_ever_healthy ≡ true
      → c.sys_fell_back ≡ false
      → poll_without_sys p fl c r ≡ maybe_discover_bridges c r
  unfolding poll_without_sys
  without_sys-early c r first f early h b = ground (arith, f, h, b)

  pub collect_http-fell_back :
      (c : Collector p) (r : Round p) → (collect_http p fl c r).sys_fell_back ≡ c.sys_fell_back
  unfolding collect_http store_snapshot
  collect_http-fell_back c r = refl

  resumed :
      (c : Collector p) (r : Round p) (snap : Snapshot p)
      → c.has_sys ≡ true
      → try_sys c r ≡ true
      → r.sys_poll c.snapshot r.slow ≡ some snap
      → 0 < length snap.varz
      → poll_body p fl c r
        ≡ maybe_discover_bridges
            (resume_sys (record (store_snapshot p fl c snap) { last_success = some r.now }))
            r
  unfolding poll_body poll_sys
  resumed c r snap s t e many = ground (arith, s, t, e)

  stored :
      (c : Collector p) (snap : Snapshot p)
      → (store_snapshot p fl c snap).snapshot
        ≡ record snap { rates = compute_rates p fl (some c.snapshot) snap }
  unfolding store_snapshot
  stored c snap = refl

  stored_prev :
      (c : Collector p) (snap : Snapshot p) → (store_snapshot p fl c snap).prev ≡ some c.snapshot
  unfolding store_snapshot
  stored_prev c snap = refl

  stored_bridges :
      (c : Collector p) (snap : Snapshot p)
      → (if (store_snapshot p fl c snap).sys_fell_back
          then []
          else (store_snapshot p fl c snap).mqtt_bridges)
        ≡ (if c.sys_fell_back then [] else c.mqtt_bridges)
  unfolding store_snapshot
  stored_bridges c snap = refl

  -- A round with $SYS data puts it in place with the rates since the last snapshot, keeps that as the
  -- previous one, ends the fallback and forgets the outage; the bridges that the fallback scanned go.
  pub poll-resumes :
      (c : Collector p) (r : Round p) (snap : Snapshot p)
      → c.has_sys ≡ true
      → try_sys c r ≡ true
      → r.sys_poll c.snapshot r.slow ≡ some snap
      → 0 < length snap.varz
      → ((poll p fl c r).snapshot
          ≡ record snap { rates = compute_rates p fl (some c.snapshot) snap })
        × ((poll p fl c r).prev ≡ some c.snapshot)
        × ((poll p fl c r).sys_fell_back ≡ false)
        × ((poll p fl c r).sys_first_fail ≡ none)
        × ((poll p fl c r).mqtt_bridges ≡ (if c.sys_fell_back then [] else c.mqtt_bridges))
  unfolding poll
  poll-resumes c r snap s t e many =
      let got = record (store_snapshot p fl c snap) { last_success = some r.now } in
      let body : poll_body p fl c r ≡ maybe_discover_bridges (resume_sys got) r =
        resumed c r snap s t e many in
      let k = maybe_discover-keeps (resume_sys got) r in
      (
        ap (λ (x : Collector p). x.snapshot) body ∙ k.4 ∙ stored c snap,
        ap (λ (x : Collector p). x.prev) body ∙ k.5 ∙ stored_prev c snap,
        ap (λ (x : Collector p). x.sys_fell_back) body ∙ k.0,
        ap (λ (x : Collector p). x.sys_first_fail) body ∙ k.2,
        ap (λ (x : Collector p). x.mqtt_bridges) body ∙ k.6 ∙ stored_bridges c snap,
      )
