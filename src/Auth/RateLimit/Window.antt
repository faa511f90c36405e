-- ===== src/Auth/RateLimit/Window.antt =====
-- internal/auth/ratelimit.go: what pruning leaves of one key's attempts.
use machmqtt_dashboard.Prelude.{
  ℕ, ◌≤◌, ◌≡◌, refl, ap, List, [], ◌∷◌, ◌++◌, length, filter, All, arith, true, false, not,
}
use machmqtt_dashboard.Auth.RateLimit.{is_stale, prune_front, is_expired, live}

-- Oldest first.
abbrev pub IsSorted : List ℕ → Type 0
IsSorted [] = Unit {0}
IsSorted (t ∷ ts) = All (λ u. t ≤ u) ts × IsSorted ts

module _ (window now : ℕ) where
  filter-live_of_fresh :
      (t : ℕ) (ts : List ℕ)
      → All (λ u. t ≤ u) ts
      → is_stale window now t ≡ false
      → filter (λ u. not (is_stale window now u)) ts ≡ ts
  filter-live_of_fresh t [] h f = refl
  filter-live_of_fresh t (u ∷ ts) h f = ground (arith, filter-live_of_fresh t ts h.1)

  -- On sorted attempts, cutting the stale front keeps exactly the live ones.
  pub prune_front-filter :
      (ts : List ℕ)
      → IsSorted ts
      → prune_front window now ts ≡ filter (λ u. not (is_stale window now u)) ts
  unfolding prune_front
  prune_front-filter [] s = refl
  prune_front-filter (t ∷ ts) s =
      ground (arith, prune_front-filter ts s.1, filter-live_of_fresh t ts s.0)

  pub length-prune_front :
      (ts : List ℕ) → IsSorted ts → length (prune_front window now ts) ≡ live window now ts
  length-prune_front ts s = ap length (prune_front-filter ts s)

  pub prune_front-IsSorted : (ts : List ℕ) → IsSorted ts → IsSorted (prune_front window now ts)
  unfolding prune_front
  prune_front-IsSorted [] s = tt
  prune_front-IsSorted (t ∷ ts) s = ground (arith, prune_front-IsSorted ts s.1)

  pub prune_front-All :
      (b : ℕ) (ts : List ℕ) → All (λ u. u ≤ b) ts → All (λ u. u ≤ b) (prune_front window now ts)
  unfolding prune_front
  prune_front-All b [] h = tt
  prune_front-All b (t ∷ ts) h = ground (arith, prune_front-All b ts h.1)

  -- The last of sorted attempts is stale only if all are.
  pub live-is_expired :
      (ts : List ℕ) → IsSorted ts → is_expired window now ts ≡ true → live window now ts ≡ 0
  unfolding is_expired
  live-is_expired [] s e = refl
  live-is_expired (t ∷ []) s e = ground arith
  live-is_expired (t ∷ u ∷ ts) s e = ground (arith, live-is_expired (u ∷ ts) s.1)

pub All-mono : (b c : ℕ) (ts : List ℕ) → b ≤ c → All (λ u. u ≤ b) ts → All (λ u. u ≤ c) ts
All-mono b c [] h a = tt
All-mono b c (t ∷ ts) h a = (omega arith, All-mono b c ts h a.1)

pub append-IsSorted :
    (ts : List ℕ) (t : ℕ) → IsSorted ts → All (λ u. u ≤ t) ts → IsSorted (ts ++ t ∷ [])
append-IsSorted [] t s a = (tt, tt)
append-IsSorted (u ∷ ts) t s a = (append-All ts t u a.0 s.0, append-IsSorted ts t s.1 a.1)
  where
    append-All :
        (ts : List ℕ) (t u : ℕ) → u ≤ t → All (λ v. u ≤ v) ts → All (λ v. u ≤ v) (ts ++ t ∷ [])
    append-All [] t u h a = (h, tt)
    append-All (v ∷ ts) t u h a = (a.0, append-All ts t u h a.1)

pub append-All_le : (ts : List ℕ) (t : ℕ) → All (λ u. u ≤ t) ts → All (λ u. u ≤ t) (ts ++ t ∷ [])
append-All_le [] t a = (omega arith, tt)
append-All_le (u ∷ ts) t a = (a.0, append-All_le ts t a.1)
