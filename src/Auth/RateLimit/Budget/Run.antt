-- ===== src/Auth/RateLimit/Budget/Run.antt =====
-- internal/auth/ratelimit.go, `Allow`, over a run of calls: how many attempts an address gets in a window.
use machmqtt_dashboard.Prelude.{
  ℕ, ◌+◌, ◌≤◌, ◌<◌, ◌≡◌, refl, inl, inr, List, [], ◌∷◌, ◌++◌, String, lookup, length, arith, not,
  ◌&&◌, str_eq, eq_iff, if◌then◌else◌, Bool-cases, length-filter-le,
}
use machmqtt_dashboard.Auth.RateLimit.{Limiter, new, is_stale, live, prune_front, allow, reclaim}
use machmqtt_dashboard.Auth.RateLimit.Budget.{
  IsValid, attempts_of, found-IsBounded, lookup-allow_self, lookup-allow_other, allow-settings,
  allow-IsValid,
}

-- The times at which calls of `Allow` admit the address `k`, in order.
unfoldable pub admitted : String → Limiter → List (String × ℕ) → List ℕ
admitted k rl [] = []
admitted k rl ((ip, now) ∷ calls) =
    let (rl', ok) = allow rl ip now in
    let rest = admitted k rl' calls in if str_eq ip k && ok then now ∷ rest else rest

-- The calls come in order of time, from `from` to `until`.
abbrev pub InOrder : ℕ → ℕ → List (String × ℕ) → Type 0
InOrder from until [] = from ≤ until
InOrder from until ((ip, now) ∷ calls) = (from ≤ now) × InOrder now until calls

-- The table is below its capacity at each call.
abbrev pub NeverFull : Limiter → List (String × ℕ) → Type 0
NeverFull rl [] = Unit {0}
NeverFull rl ((ip, now) ∷ calls) =
    (length rl.attempts < rl.max_keys) × NeverFull (allow rl ip now).0 calls

InOrder-le : (from until : ℕ) (calls : List (String × ℕ)) → InOrder from until calls → from ≤ until
InOrder-le from until [] o = o
InOrder-le from until ((ip, now) ∷ calls) o = omega (arith, InOrder-le now until calls o.1)

live-append :
    (window now : ℕ) (xs ys : List ℕ)
    → live window now (xs ++ ys) ≡ live window now xs + live window now ys
live-append window now [] ys = omega arith
live-append window now (x ∷ xs) ys = ground (arith, live-append window now xs ys)

-- What is stale now is stale later.
pub live-prune_front :
    (window now until : ℕ) (ts : List ℕ)
    → now ≤ until
    → live window until (prune_front window now ts) ≡ live window until ts
unfolding prune_front
live-prune_front window now until [] h = refl
live-prune_front window now until (t ∷ ts) h = ground (arith, live-prune_front window now until ts)

reclaim_room :
    (rl : Limiter) (ip : String) (now : ℕ)
    → length rl.attempts < rl.max_keys
    → reclaim rl (attempts_of ip rl) now ≡ rl
unfolding reclaim
reclaim_room rl ip now h = ground arith

new-IsValid : {max window : ℕ} → IsValid (new max window) 0
unfolding lookup
new-IsValid = record { distinct = tt; keys = λ k ts e. cc }

-- A call accounts for what it adds to the attempts of `k` that are live at the end.
live-allow :
    (k : String) (rl : Limiter) (ip : String) (now until : ℕ)
    → now ≤ until
    → length rl.attempts < rl.max_keys
    → live rl.window until (attempts_of k (allow rl ip now).0)
      ≡ live rl.window until (attempts_of k rl)
        + live rl.window until (if str_eq ip k && (allow rl ip now).1 then now ∷ [] else [])
live-allow k rl ip now until le room = elim (Bool-cases (str_eq ip k)) [
  | inl same ↦
      let here = (eq_iff ip k).0 same in
      let recent = prune_front rl.window now (attempts_of ip rl) in
      ground (
        arith,
        here,
        lookup-allow_self rl ip now,
        live-prune_front rl.window now until (attempts_of ip rl),
        live-append rl.window until recent (now ∷ []),
      )
  | inr other ↦
      let seen = lookup-allow_other rl ip k now other in
      ground (arith, seen, other, reclaim_room rl ip now room)
]

-- While nothing is evicted, the table and the calls to come account for all that is live at the end.
live-admitted :
    (k : String) (rl : Limiter) (from until : ℕ) (calls : List (String × ℕ))
    → IsValid rl from
    → InOrder from until calls
    → NeverFull rl calls
    → live rl.window until (attempts_of k rl) + live rl.window until (admitted k rl calls) ≤ rl.max
unfolding admitted
live-admitted k rl from until [] v o n = omega (
  arith,
  (found-IsBounded k v).within,
  length-filter-le {0} (λ t. not (is_stale rl.window until t)) (attempts_of k rl),
)
live-admitted k rl from until ((ip, now) ∷ calls) v o n =
    let rl' = (allow rl ip now).0 in
    let rest = live-admitted k rl' now until calls (allow-IsValid ip now v o.0) o.1 n.1 in
    ground (
      arith,
      rest,
      allow-settings rl ip now,
      live-allow k rl ip now until (InOrder-le now until calls o.1) n.0,
    )

-- From a new limiter, with calls in order of time and the table never full, at most `max` of the
-- attempts that one address is granted lie within the window that ends at any later time.
pub admitted_bounded :
    (k : String) (max window until : ℕ) (calls : List (String × ℕ))
    → InOrder 0 until calls
    → NeverFull (new max window) calls
    → live window until (admitted k (new max window) calls) ≤ max
admitted_bounded k max window until calls o n =
    omega (arith, live-admitted k (new max window) 0 until calls new-IsValid o n)
