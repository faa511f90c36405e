-- ===== src/Collector/Outage.antt =====
-- internal/collector/collector.go, `poll`: how an outage of $SYS runs its course.
use machmqtt_dashboard.Prelude.{
  ℕ, ◌+◌, ◌≤◌, ◌≡◌, ◌∙◌, ap, inl, inr, List, [], ◌∷◌, Bool, true, false, some, none, leb, arith,
  Bool-cases,
}
use machmqtt_dashboard.Collector.{Payloads, Snapshot, Collector}
use machmqtt_dashboard.Collector.Rates.{Arithmetic}
use machmqtt_dashboard.Collector.Poll.{
  Round, poll, run, poll_body, poll_http, poll_without_sys, collect_http, maybe_discover_bridges,
  try_sys, note_fail, sys_fallback_grace,
}
use machmqtt_dashboard.Collector.Fallback.{
  Out, IsSilent, poll_silent, discover-Out, collect-Out, without_sys-late, without_sys-early,
  maybe_discover-keeps, collect_http-timestamp, collect_http-fell_back,
}

module _ (p : Payloads) (fl : Arithmetic p.Float) where
  -- What `note_fail` leaves of a state that has a first failure.
  note_fail-Out :
      (c : Collector p) (tried : Bool) (now first last : ℕ)
      → Out p fl c first last
      → Out p fl (note_fail tried now c) first last
  note_fail-Out c true now first last o = record {
    has = o.has;
    healthy = o.healthy;
    failed = ground (arith, o.failed);
    fell = o.fell;
  }
  note_fail-Out c false now first last o = o

  without_sys-Out :
      (c : Collector p) (r : Round p) (first last : ℕ)
      → Out p fl c first last
      → last ≤ r.now
      → Out p fl (poll_without_sys p fl c r) first r.now
  unfolding poll_http
  without_sys-Out c r first last o le = elim (Bool-cases (leb (first + sys_fallback_grace) r.now)) [
    | inl late ↦
        let fallen = record c { sys_fell_back = true } in
        let engaged : Out p fl fallen first r.now = record {
          has = o.has;
          healthy = o.healthy;
          failed = o.failed;
          fell = ground (arith, late);
        } in
        rw (without_sys-late p fl c r first o.failed (ground (arith, late))) (
          discover-Out p fl (collect_http p fl fallen r) r first r.now
            (collect-Out p fl fallen r first r.now engaged))
    | inr early ↦
        let waits : Out p fl c first r.now = record {
          has = o.has;
          healthy = o.healthy;
          failed = o.failed;
          fell = ground (arith, o.fell, early);
        } in
        rw
          (without_sys-early p fl c r first o.failed (ground (arith, early)) o.healthy
            (ground (arith, o.fell, early)))
          (discover-Out p fl c r first r.now waits)
  ]

  counted-Out :
      (c : Collector p) (n first last : ℕ)
      → Out p fl c first last
      → Out p fl (record c { polls = n }) first last
  counted-Out c n first last o = record {
    has = o.has;
    healthy = o.healthy;
    failed = o.failed;
    fell = o.fell;
  }

  poll-Out :
      (c : Collector p) (r : Round p) (first last : ℕ)
      → Out p fl (note_fail (try_sys c r) r.now c) first last
      → c.has_sys ≡ true
      → last ≤ r.now
      → IsSilent p fl r
      → Out p fl (poll p fl c r) first r.now
  unfolding poll
  poll-Out c r first last o s le q = counted-Out (poll_body p fl c r) _ first r.now (
      rw (poll_silent p fl c r s q)
        (without_sys-Out (note_fail (try_sys c r) r.now c) r first last o le))

  -- The rounds come in the order of time, from `last` on, and none of them has $SYS data.
  abbrev pub Outage : ℕ → List (Round p) → Type 0
  Outage last [] = Unit {0}
  Outage last (r ∷ rs) = (last ≤ r.now) × IsSilent p fl r × Outage r.now rs

  abbrev pub last_time : ℕ → List (Round p) → ℕ
  last_time last [] = last
  last_time last (r ∷ rs) = last_time r.now rs

  run-Out :
      (c : Collector p) (rs : List (Round p)) (first last : ℕ)
      → Out p fl c first last
      → Outage last rs
      → Out p fl (run p fl c rs) first (last_time last rs)
  unfolding run
  run-Out c [] first last o q = o
  run-Out c (r ∷ rs) first last o q =
      run-Out (poll p fl c r) rs first r.now
        (poll-Out c r first last (note_fail-Out c (try_sys c r) r.now first last o) o.has q.0 q.1)
        q.2

  -- In an outage of $SYS that follows a healthy round, its rounds in the order of time, the collector is on the HTTP fallback after a
  -- round exactly if that round came 60 seconds or more after the first silent one.
  pub sys_fell_back-run :
      (c : Collector p) (r : Round p) (rs : List (Round p))
      → c.has_sys ≡ true
      → c.sys_ever_healthy ≡ true
      → c.sys_fell_back ≡ false
      → c.sys_first_fail ≡ none
      → IsSilent p fl r
      → Outage r.now rs
      → (run p fl c (r ∷ rs)).sys_fell_back ≡ leb (r.now + sys_fallback_grace) (last_time r.now rs)
  unfolding run
  sys_fell_back-run c r rs s h b f q qs =
      let starts : Out p fl (note_fail (try_sys c r) r.now c) r.now r.now = record {
        has = ground (arith, s, b, f);
        healthy = ground (arith, h, b, f);
        failed = ground (arith, b, f);
        fell = ground (arith, b, f);
      } in
      (run-Out (poll p fl c r) rs r.now r.now (poll-Out c r r.now r.now starts s (omega arith) q)
        qs).fell

  -- A collector that has never had $SYS data falls back in its first silent round, and has a snapshot
  -- over HTTP at its end.
  pub poll-cold_start :
      (c : Collector p) (r : Round p)
      → c.has_sys ≡ true
      → c.sys_ever_healthy ≡ false
      → IsSilent p fl r
      → ((poll p fl c r).sys_fell_back ≡ true) × ((poll p fl c r).snapshot.timestamp ≡ some r.now)
  unfolding poll poll_http poll_without_sys
  poll-cold_start c r s h q =
      let noted = note_fail (try_sys c r) r.now c in
      let cold : noted.sys_ever_healthy ≡ false = ground (arith, h) in
      let fallen = record noted { sys_fell_back = true } in
      let body : poll_body p fl c r ≡ maybe_discover_bridges (collect_http p fl fallen r) r =
        poll_silent p fl c r s q ∙ ground (arith, cold) in
      let k = maybe_discover-keeps p fl (collect_http p fl fallen r) r in
      (
        ap (λ (x : Collector p). x.sys_fell_back) body ∙ k.0 ∙ collect_http-fell_back p fl fallen r,
        ap (λ (x : Collector p). x.snapshot.timestamp) body
            ∙ (ap (λ (x : Snapshot p). x.timestamp) k.4 ∙ collect_http-timestamp p fl fallen r),
      )
