-- ===== src/Store/Metrics/Conserved.antt =====
-- internal/store/metrics.go: what becomes of the samples that are submitted.
use machmqtt_dashboard.Prelude.{
  ℕ, suc, ap, ◌+◌, ◌%◌, ◌^◌, ◌≤◌, ◌<◌, ◌≡◌, refl, ltb, ◌==◌, if◌then◌else◌, List, [], ◌∷◌, ◌++◌,
  length, length-append, Bool, true, false, Option, none, some, Bytes, arith, add_u64, if_elim,
}
use machmqtt_dashboard.Store.Metrics.{MetricSample, MetricsDb, Statement, Faults, write_sample}
use machmqtt_dashboard.Store.Metrics.Writer.{
  MetricsWriter, Phase, idle, running, draining, finished, WriterEvent, run, cancel, tick,
  submitted, received, pruned, queried, queue_capacity, submit, persist, account, observe_query,
  receive, start_in, cancel_in, tick_in, step, tally, run_all, reject, is_busy, new_metrics_writer,
}

-- The writer stops at `ctx.Done()`, and its loop ends with an empty channel.
abbrev pub PhaseIsValid : Phase → Bool → ℕ → Type 0
PhaseIsValid idle stopped queued = stopped ≡ false
PhaseIsValid running stopped queued = stopped ≡ false
PhaseIsValid draining stopped queued = stopped ≡ true
PhaseIsValid finished stopped queued = (stopped ≡ true) × (queued ≡ 0)

-- After so many submissions were taken and rejected.
pub record IsConserved {Float : Type 0} (w : MetricsWriter Float) (taken rejected : ℕ)
    : Type 0 where
  pub bounded : length w.ch ≤ queue_capacity
  pub conserved : (w.written + w.failed + length w.ch) % 2 ^ 64 ≡ taken % 2 ^ 64
  pub counted : w.dropped_total ≡ rejected % 2 ^ 64
  pub phase : PhaseIsValid w.phase w.stopped (length w.ch)

phase_open :
    (p : Phase) (stopped : Bool) (n m : ℕ)
    → stopped ≡ false
    → PhaseIsValid p stopped n
    → PhaseIsValid p stopped m
phase_open idle stopped n m e v = v
phase_open running stopped n m e v = v
phase_open draining stopped n m e v = v
phase_open finished stopped n m e v = absurd (ground (arith, e, v))

phase_shrink :
    (p : Phase) (stopped : Bool) (n : ℕ) → PhaseIsValid p stopped (suc n) → PhaseIsValid p stopped n
phase_shrink idle stopped n v = v
phase_shrink running stopped n v = v
phase_shrink draining stopped n v = v
phase_shrink finished stopped n v = absurd (omega (arith, v.1))

draining_stopped :
    (p : Phase) (stopped : Bool) (n : ℕ) → p ≡ draining → PhaseIsValid p stopped n → stopped ≡ true
draining_stopped p stopped n e v = rw e at v

-- What the invariant does not read may change.
relabel :
    {Float : Type 0} (w u : MetricsWriter Float) (taken rejected : ℕ)
    → w.ch ≡ u.ch
    → w.written ≡ u.written
    → w.failed ≡ u.failed
    → w.dropped_total ≡ u.dropped_total
    → w.phase ≡ u.phase
    → w.stopped ≡ u.stopped
    → IsConserved w taken rejected
    → IsConserved u taken rejected
relabel w u taken rejected a b c d e f v = record {
  bounded = rw (← a) v.bounded;
  conserved = rw (← a, ← b, ← c) v.conserved;
  counted = rw (← d) v.counted;
  phase = rw (← a, ← e, ← f) v.phase;
}

abbrev counts : ℕ → ℕ → Bool → ℕ × ℕ
counts taken rejected accepted = if accepted then (taken + 1, rejected) else (taken, rejected + 1)

module _ {Float : Type 0} (message : Statement × Bytes → Bytes) where
  reject-IsConserved :
      (w : MetricsWriter Float) (taken rejected : ℕ)
      → IsConserved w taken rejected
      → IsConserved (reject message w) taken (rejected + 1)
  reject-IsConserved w taken rejected v = record {
    bounded = v.bounded;
    conserved = v.conserved;
    counted = omega (arith, v.counted);
    phase = v.phase;
  }

  accept-IsConserved :
      (s : MetricSample Float) (oldest : ℕ) (w : MetricsWriter Float) (taken rejected : ℕ)
      → w.stopped ≡ false
      → length w.ch < queue_capacity
      → IsConserved w taken rejected
      → IsConserved (record w { ch = w.ch ++ s ∷ []; oldest_ns = oldest }) (taken + 1) rejected
  accept-IsConserved s oldest w taken rejected e f v = record {
    bounded = omega (arith, length-append w.ch (s ∷ []));
    conserved = omega (arith, v.conserved, length-append w.ch (s ∷ []));
    counted = v.counted;
    phase = phase_open w.phase w.stopped (length w.ch) (length (w.ch ++ s ∷ [])) e v.phase;
  }

  submit-IsConserved :
      (now : ℕ) (s : MetricSample Float) (w : MetricsWriter Float) (taken rejected : ℕ)
      → IsConserved w taken rejected
      → IsConserved
          (submit message now s w).0
          (tally message (submitted now s) w (taken, rejected)).0
          (tally message (submitted now s) w (taken, rejected)).1
  unfolding submit
  submit-IsConserved now s w taken rejected v =
      let P = λ (r : MetricsWriter Float × Bool).
        IsConserved r.0 (counts taken rejected r.1).0 (counts taken rejected r.1).1 in
      let dropped = reject-IsConserved w taken rejected v in
      if_elim P w.stopped _ _ (λ e. dropped)
        λ e.
          if_elim P (ltb (length w.ch) queue_capacity) _ _
            (λ f. accept-IsConserved s _ w taken rejected e (ground (arith, f)) v) (λ f. dropped)

  -- As `IsConserved`, with one sample taken out of the channel.
  record IsHolding (w : MetricsWriter Float) (taken rejected : ℕ) : Type 0 where
    bounded : length w.ch + 1 ≤ queue_capacity
    conserved : (w.written + w.failed + (length w.ch + 1)) % 2 ^ 64 ≡ taken % 2 ^ 64
    counted : w.dropped_total ≡ rejected % 2 ^ 64
    phase : PhaseIsValid w.phase w.stopped (length w.ch)

  account-IsConserved :
      (r : MetricsDb Float × Option (Statement × Bytes)) (w : MetricsWriter Float)
      (taken rejected : ℕ)
      → IsHolding w taken rejected
      → IsConserved (account message r w) taken rejected
  account-IsConserved (db, none) w taken rejected v = record {
    bounded = omega (arith, v.bounded);
    conserved = omega (arith, v.conserved);
    counted = v.counted;
    phase = v.phase;
  }
  account-IsConserved (db, some e) w taken rejected v =
      let P = λ (u : MetricsWriter Float). IsConserved u taken rejected in
      let failed : IsConserved (record w { db = db; failed = add_u64 w.failed 1 }) taken rejected =
        record {
          bounded = omega (arith, v.bounded);
          conserved = omega (arith, v.conserved);
          counted = v.counted;
          phase = v.phase;
        } in
      if_elim P (is_busy (message e)) _ _
        (λ b. record {
          bounded = failed.bounded;
          conserved = failed.conserved;
          counted = failed.counted;
          phase = failed.phase;
        })
        (λ b. failed)

  persist-IsConserved :
      (faults : Faults) (took : ℕ) (s : MetricSample Float) (w : MetricsWriter Float)
      (taken rejected : ℕ)
      → IsHolding w taken rejected
      → IsConserved (persist message faults took s w) taken rejected
  unfolding persist
  persist-IsConserved faults took s w taken rejected v =
      account-IsConserved (write_sample faults s w.db) _ taken rejected (record {
        bounded = v.bounded;
        conserved = v.conserved;
        counted = v.counted;
        phase = v.phase;
      })

  received-IsHolding :
      (s : MetricSample Float) (rest : List (MetricSample Float)) (w : MetricsWriter Float)
      (taken rejected : ℕ)
      → w.ch ≡ s ∷ rest
      → IsConserved w taken rejected
      → IsHolding (record w { ch = rest }) taken rejected
  received-IsHolding s rest w taken rejected f v =
      let size : length w.ch ≡ suc (length rest) = ap length f in
      record {
        bounded = omega (arith, v.bounded, size);
        conserved = omega (arith, v.conserved, size);
        counted = v.counted;
        phase = phase_shrink w.phase w.stopped (length rest) (rw size at v.phase);
      }

  receive-IsConserved :
      (faults : Faults) (took : ℕ) (p : Phase) (ch : List (MetricSample Float))
      (w : MetricsWriter Float) (taken rejected : ℕ)
      → w.phase ≡ p
      → w.ch ≡ ch
      → IsConserved w taken rejected
      → IsConserved (receive message faults took p ch w) taken rejected
  receive-IsConserved faults took idle ch w taken rejected e f v = v
  receive-IsConserved faults took finished ch w taken rejected e f v = v
  receive-IsConserved faults took running [] w taken rejected e f v = v
  receive-IsConserved faults took draining [] w taken rejected e f v = record {
    bounded = v.bounded;
    conserved = v.conserved;
    counted = v.counted;
    phase = (draining_stopped w.phase w.stopped (length w.ch) e v.phase, ap length f);
  }
  receive-IsConserved faults took draining (s ∷ rest) w taken rejected e f v =
      persist-IsConserved faults took s (record w { ch = rest }) taken rejected
        (received-IsHolding s rest w taken rejected f v)
  receive-IsConserved faults took running (s ∷ rest) w taken rejected e f v =
      let u = persist message faults took s (record w { ch = rest }) in
      let kept =
        persist-IsConserved faults took s (record w { ch = rest }) taken rejected
          (received-IsHolding s rest w taken rejected f v) in
      if_elim (λ (x : MetricsWriter Float). IsConserved x taken rejected) (length u.ch == 0) _ _
        (λ b.
          relabel u (record u { oldest_ns = 0 }) taken rejected refl refl refl refl refl refl kept)
        (λ b. kept)

  start-IsConserved :
      (p : Phase) (w : MetricsWriter Float) (taken rejected : ℕ)
      → w.phase ≡ p
      → IsConserved w taken rejected
      → IsConserved (start_in message p w) taken rejected
  start-IsConserved running w taken rejected e v = v
  start-IsConserved draining w taken rejected e v = v
  start-IsConserved finished w taken rejected e v = v
  start-IsConserved idle w taken rejected e v = record {
    bounded = v.bounded;
    conserved = v.conserved;
    counted = v.counted;
    phase = rw e at v.phase;
  }

  cancel-IsConserved :
      (p : Phase) (w : MetricsWriter Float) (taken rejected : ℕ)
      → w.phase ≡ p
      → IsConserved w taken rejected
      → IsConserved (cancel_in message p w) taken rejected
  cancel-IsConserved idle w taken rejected e v = v
  cancel-IsConserved draining w taken rejected e v = v
  cancel-IsConserved finished w taken rejected e v = v
  cancel-IsConserved running w taken rejected e v = record {
    bounded = v.bounded;
    conserved = v.conserved;
    counted = v.counted;
    phase = refl;
  }

  tick-IsConserved :
      (p : Phase) (w : MetricsWriter Float) (taken rejected : ℕ)
      → IsConserved w taken rejected
      → IsConserved (tick_in message p w) taken rejected
  tick-IsConserved idle w taken rejected v = v
  tick-IsConserved draining w taken rejected v = v
  tick-IsConserved finished w taken rejected v = v
  tick-IsConserved running w taken rejected v =
      relabel w _ taken rejected refl refl refl refl refl refl v

  observe-IsConserved :
      (took : ℕ) (e : Option Bytes) (w : MetricsWriter Float) (taken rejected : ℕ)
      → IsConserved w taken rejected
      → IsConserved (observe_query message took e w) taken rejected
  unfolding observe_query
  observe-IsConserved took none w taken rejected v =
      relabel w _ taken rejected refl refl refl refl refl refl v
  observe-IsConserved took (some text) w taken rejected v =
      if_elim (λ (x : MetricsWriter Float). IsConserved x taken rejected) (is_busy text) _ _
        (λ b. relabel w _ taken rejected refl refl refl refl refl refl v)
        (λ b. relabel w _ taken rejected refl refl refl refl refl refl v)

  step-IsConserved :
      (e : WriterEvent Float) (w : MetricsWriter Float) (taken rejected : ℕ)
      → IsConserved w taken rejected
      → IsConserved
          (step message e w)
          (tally message e w (taken, rejected)).0
          (tally message e w (taken, rejected)).1
  unfolding step
  step-IsConserved run w taken rejected v = start-IsConserved w.phase w taken rejected refl v
  step-IsConserved cancel w taken rejected v = cancel-IsConserved w.phase w taken rejected refl v
  step-IsConserved tick w taken rejected v = tick-IsConserved w.phase w taken rejected v
  step-IsConserved (submitted now s) w taken rejected v =
      submit-IsConserved now s w taken rejected v
  step-IsConserved (received faults took) w taken rejected v =
      receive-IsConserved faults took w.phase w.ch w taken rejected refl refl v
  step-IsConserved (pruned fails now took) w taken rejected v =
      if_elim (λ (x : MetricsWriter Float). IsConserved x taken rejected) w.pruning _ _
        (λ b. relabel w _ taken rejected refl refl refl refl refl refl v) (λ b. v)
  step-IsConserved (queried took e) w taken rejected v =
      observe-IsConserved took e w taken rejected v

  run_from :
      (es : List (WriterEvent Float)) (w : MetricsWriter Float) (taken rejected : ℕ)
      → IsConserved w taken rejected
      → IsConserved
          (run_all message es (w, taken, rejected)).0
          (run_all message es (w, taken, rejected)).1
          (run_all message es (w, taken, rejected)).2
  unfolding run_all
  run_from [] w taken rejected v = v
  run_from (e ∷ es) w taken rejected v =
      run_from es (step message e w) _ _ (step-IsConserved e w taken rejected v)

  -- No sample is lost without trace: from a new writer, after any run of submissions, receptions with whatever
  -- errors of the database, prunings, queries and ticks, before and after the stop, the channel holds at most
  -- 256 samples; the samples that were taken are those written, those counted as failed and those in the
  -- channel, and those rejected are counted as dropped (modulo 2 ^ 64); and when the loop has ended, after its
  -- stop, the channel is empty, so that each sample that was taken is written or counted as failed.
  pub run_all-IsConserved :
      (es : List (WriterEvent Float)) (db : MetricsDb Float) (retention : Option ℕ)
      → IsConserved
          (run_all message es (new_metrics_writer db retention, 0, 0)).0
          (run_all message es (new_metrics_writer db retention, 0, 0)).1
          (run_all message es (new_metrics_writer db retention, 0, 0)).2
  unfolding new_metrics_writer
  run_all-IsConserved es db retention =
      run_from es (new_metrics_writer db retention) 0 0
        (record { bounded = omega arith; conserved = refl; counted = refl; phase = refl })
