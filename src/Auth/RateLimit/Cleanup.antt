-- ===== src/Auth/RateLimit/Cleanup.antt =====
-- internal/auth/ratelimit.go, `prune`: the periodic cleanup.
use machmqtt_dashboard.Prelude.{
  ℕ, ◌≤◌, ◌≡◌, refl, inl, inr, List, [], ◌∷◌, String, Map, lookup, arith, eq_iff, Option,
  Option-cases, some, none, Distinct,
}
use machmqtt_dashboard.Auth.RateLimit.{Limiter, prune_front, prune_entries, prune, allow}
use machmqtt_dashboard.Auth.RateLimit.Window.{prune_front-IsSorted, prune_front-All}
use machmqtt_dashboard.Auth.RateLimit.Budget.{
  IsValid, IsBounded, attempts_of, allow-live, length-prune_front-le,
}
use machmqtt_dashboard.Auth.RateLimit.Budget.Run.{live-prune_front}

-- What the cleanup leaves of one entry.
abbrev some_if_any : List ℕ → Option (List ℕ)
some_if_any [] = none
some_if_any (t ∷ ts) = some (t ∷ ts)

abbrev pruned : ℕ → ℕ → Option (List ℕ) → Option (List ℕ)
pruned window now none = none
pruned window now (some ts) = some_if_any (prune_front window now ts)

module _ (window now : ℕ) where
  lookup-prune_entries-none :
      (k : String) (m : Map (List ℕ))
      → lookup k m ≡ none
      → lookup k (prune_entries window now m) ≡ none
  unfolding lookup prune_entries
  lookup-prune_entries-none k [] h = refl
  lookup-prune_entries-none k ((j, ts) ∷ m) h = ground (arith, lookup-prune_entries-none k m)

  lookup-prune_entries :
      (k : String) (m : Map (List ℕ))
      → Distinct m
      → lookup k (prune_entries window now m) ≡ pruned window now (lookup k m)
  unfolding lookup prune_entries
  lookup-prune_entries k [] d = refl
  lookup-prune_entries k ((j, ts) ∷ m) d =
      ground (arith, eq_iff j k, lookup-prune_entries k m d.1, lookup-prune_entries-none k m)

  prune_entries-Distinct : (m : Map (List ℕ)) → Distinct m → Distinct (prune_entries window now m)
  unfolding prune_entries
  prune_entries-Distinct [] d = tt
  prune_entries-Distinct ((j, ts) ∷ m) d =
      ground (arith, prune_entries-Distinct m d.1, lookup-prune_entries-none j m d.0)

prune_front-IsBounded :
    (max window now : ℕ) (ts : List ℕ)
    → IsBounded max now ts
    → IsBounded max now (prune_front window now ts)
prune_front-IsBounded max window now ts b = record {
  sorted = prune_front-IsSorted window now ts b.sorted;
  past = prune_front-All window now now ts b.past;
  within = omega (arith, length-prune_front-le window now ts b.sorted, b.within);
}

some_if_any-eq : (xs ts : List ℕ) → some_if_any xs ≡ some ts → xs ≡ ts
some_if_any-eq [] ts e = cc
some_if_any-eq (x ∷ xs) ts e = ground arith

pub prune-IsValid : {rl : Limiter} {now : ℕ} → IsValid rl now → IsValid (prune rl now) now
unfolding prune
prune-IsValid {rl} {now} v = record {
  distinct = prune_entries-Distinct rl.window now rl.attempts v.distinct;
  keys = λ k ts e. elim (Option-cases (lookup k rl.attempts)) [
    | inl absent ↦ cc (absent, e, lookup-prune_entries rl.window now k rl.attempts v.distinct)
    | inr (us, found) ↦
        let shown = lookup-prune_entries rl.window now k rl.attempts v.distinct in
        let same : prune_front rl.window now us ≡ ts =
          some_if_any-eq (prune_front rl.window now us) ts (ground (arith, shown, found, e)) in
        rw (← same) (prune_front-IsBounded rl.max rl.window now us (v.keys k us found))
  ];
}

attempts_of-prune :
    (k : String) (rl : Limiter) (now : ℕ)
    → Distinct rl.attempts
    → attempts_of k (prune rl now) ≡ prune_front rl.window now (attempts_of k rl)
unfolding prune prune_front
attempts_of-prune k rl now d = ground (arith, lookup-prune_entries rl.window now k rl.attempts d)

-- The cleanup is invisible: no later call of `Allow` is decided otherwise because of it.
pub allow-prune :
    {rl : Limiter} {now : ℕ} (ip : String) (later : ℕ)
    → IsValid rl now
    → now ≤ later
    → (allow (prune rl now) ip later).1 ≡ (allow rl ip later).1
unfolding prune
allow-prune {rl} {now} ip later v le =
    let same = attempts_of-prune ip rl now v.distinct in
    let kept = live-prune_front rl.window now later (attempts_of ip rl) le in
    ground (arith, allow-live ip later (prune-IsValid v), allow-live ip later v, same, kept)
