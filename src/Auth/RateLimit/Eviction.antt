-- ===== src/Auth/RateLimit/Eviction.antt =====
-- internal/auth/ratelimit.go, `evictStaleLocked`: which keys a full table gives up.
mod Keys
use machmqtt_dashboard.Prelude.{
  ℕ, zero, suc, ◌+◌, ◌-◌, ◌/◌, ◌≤◌, ◌<◌, ◌≡◌, refl, ap, ◌∙◌, sym, ◌⊎◌, inl, inr, List, [], ◌∷◌,
  String, Map, lookup, insert, delete, length, filter, take, All, arith, ltb, leb, Bool, true,
  false, not, ◌||◌, str_eq, if◌then◌else◌, Bool-cases, Option, Option-cases, some, none, Distinct,
  lookup-filter, filter-Distinct, length-take, take_of_length-le, guard_value,
}
use machmqtt_dashboard.Auth.RateLimit.{
  Limiter, Aged, is_expired, live, evictable, sort_aged, delete_aged, unexpired, doomed,
  evict_stale,
}
use native.Mathlib.Decide.{dec_lt}
use machmqtt_dashboard.Auth.RateLimit.Window.{IsSorted, live-is_expired}
use Keys.{
  mem_key, mem_key-sort_aged, mem_key-take, lookup-delete_aged, delete_aged-Distinct, has_budget,
  mem_key-evictable, length-delete_aged, sort_aged-DistinctKeys, take-DistinctKeys,
  sort_aged-AllPresent, take-AllPresent, evictable-DistinctKeys, evictable-AllPresent,
  length-sort_aged,
}

pub ltb-false : (a b : ℕ) → ltb a b ≡ false → b ≤ a
ltb-false a b h = ground arith

module _ (rl : Limiter) (now : ℕ) where
  abbrev kept : Map (List ℕ)
  kept = unexpired rl.window now rl.attempts

  abbrev candidates : List Aged
  candidates = evictable rl.max rl.window now kept

  abbrev drop_count : ℕ
  drop_count = length kept - rl.max_keys + rl.max_keys / 10 + 1

  kept-Distinct : Distinct rl.attempts → Distinct kept
  kept-Distinct = filter-Distinct (λ e. not (is_expired rl.window now e.1)) rl.attempts

  length-doomed :
      Distinct rl.attempts
      → length (delete_aged (doomed rl now kept) kept) + length (doomed rl now kept) ≡ length kept
  length-doomed d =
      length-delete_aged (doomed rl now kept) kept (kept-Distinct d)
        (take-DistinctKeys drop_count (sort_aged candidates) (
          sort_aged-DistinctKeys candidates
            (evictable-DistinctKeys rl.max rl.window now kept (kept-Distinct d))))
        (take-AllPresent kept drop_count (sort_aged candidates)
          (sort_aged-AllPresent kept candidates (evictable-AllPresent rl.max rl.window now kept)))

  -- Where all candidates go, what stays has no budget left.
  all_doomed :
      (k : String) (ts : List ℕ)
      → Distinct rl.attempts
      → length candidates < drop_count
      → lookup k (delete_aged (doomed rl now kept) kept) ≡ some ts
      → rl.max ≤ live rl.window now ts
  all_doomed k ts d few h =
      let whole =
        take_of_length-le drop_count (sort_aged candidates)
          (omega (arith, length-sort_aged candidates)) in
      ground (
        arith,
        whole,
        lookup-delete_aged k (doomed rl now kept) kept,
        mem_key-sort_aged k candidates,
        mem_key-evictable rl.max rl.window now k kept (kept-Distinct d),
      )

  pub evict_stale-Distinct : Distinct rl.attempts → Distinct (evict_stale rl now).attempts
  unfolding evict_stale
  evict_stale-Distinct d =
      let k = kept-Distinct d in ground (arith, k, delete_aged-Distinct (doomed rl now kept) kept k)

  mem_key-doomed :
      (k : String) (ts : List ℕ)
      → Distinct rl.attempts
      → lookup k kept ≡ some ts
      → rl.max ≤ live rl.window now ts
      → mem_key k (doomed rl now kept) ≡ false
  mem_key-doomed k ts d e full =
      mem_key-take k _ (sort_aged (evictable rl.max rl.window now kept)) (
        mem_key-sort_aged k (evictable rl.max rl.window now kept)
        ∙ mem_key-evictable rl.max rl.window now k kept (kept-Distinct d)
        ∙ rw e (ground arith))

  -- A key at its limit keeps all its attempts, however full the table is.
  pub evict_stale-blocked :
      (k : String) (ts : List ℕ)
      → Distinct rl.attempts
      → lookup k rl.attempts ≡ some ts
      → IsSorted ts
      → 0 < rl.max
      → rl.max ≤ live rl.window now ts
      → lookup k (evict_stale rl now).attempts ≡ some ts
  unfolding evict_stale
  evict_stale-blocked k ts d e s pos full =
      let found : lookup k kept ≡ some ts =
        lookup-filter (λ e. not (is_expired rl.window now e.1)) k rl.attempts d
        ∙ rw e (ground (arith, live-is_expired rl.window now ts s)) in
      ground (
        arith,
        found,
        mem_key-doomed k ts d found full,
        lookup-delete_aged k (doomed rl now kept) kept,
      )

  -- No key is changed: its attempts are as they were, or it is gone.
  pub evict_stale-keeps :
      (k : String)
      → Distinct rl.attempts
      → (lookup k (evict_stale rl now).attempts ≡ none)
        ⊎ (lookup k (evict_stale rl now).attempts ≡ lookup k rl.attempts)
  unfolding evict_stale
  evict_stale-keeps k d = ground (
    arith,
    lookup-filter (λ e. not (is_expired rl.window now e.1)) k rl.attempts d,
    lookup-delete_aged k (doomed rl now kept) kept,
  )

  -- If the table is still full afterwards, every key left in it is at its limit.
  pub evict_stale-room :
      (k : String) (ts : List ℕ)
      → Distinct rl.attempts
      → 0 < rl.max_keys
      → rl.max_keys ≤ length (evict_stale rl now).attempts
      → lookup k (evict_stale rl now).attempts ≡ some ts
      → rl.max ≤ live rl.window now ts
  unfolding evict_stale
  evict_stale-room k ts d pos crowded found = elim (Bool-cases (ltb (length kept) rl.max_keys)) [
    | inl e ↦ absurd (ground arith)
    | inr e ↦ elim (dec_lt (length candidates) drop_count) [
      | yes few ↦ all_doomed k ts d few (ground arith)
      | no many ↦
          let fits : length (delete_aged (doomed rl now kept) kept) < rl.max_keys = omega (
            arith,
            length-doomed d,
            length-take drop_count (sort_aged candidates),
            length-sort_aged candidates,
            ltb-false _ _ e,
          ) in
          absurd (ground arith)
    ]
  ]

  pub evict_stale-settings :
      ((evict_stale rl now).max ≡ rl.max)
      × ((evict_stale rl now).window ≡ rl.window)
      × ((evict_stale rl now).max_keys ≡ rl.max_keys)
  unfolding evict_stale
  evict_stale-settings = ground arith
