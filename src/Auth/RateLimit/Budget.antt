-- ===== src/Auth/RateLimit/Budget.antt =====
-- internal/auth/ratelimit.go, `Allow`: the budget of attempts of each key.
pub mod Run
use mathlib.Core.Path.{subst}
use machmqtt_dashboard.Prelude.{
  ℕ, zero, suc, ◌+◌, ◌≤◌, ◌<◌, ◌≡◌, refl, ap, ◌∙◌, sym, ◌⊎◌, inl, inr, List, [], ◌∷◌, ◌++◌, String,
  Map, lookup, insert, length, filter, All, arith, ltb, leb, Bool, true, false, not, ◌&&◌, ◌==◌,
  str_eq, eq_iff, if◌then◌else◌, Bool-cases, Option, Option-cases, some, none, Distinct,
  lookup-insert, insert-Distinct, length-append, length-filter-le, lookup-insert_self,
}
use machmqtt_dashboard.Auth.RateLimit.{
  Limiter, new, or_nil, is_stale, live, prune_front, evict_stale, allow, reclaim,
}
use machmqtt_dashboard.Auth.RateLimit.Window.{
  IsSorted, prune_front-filter, length-prune_front, prune_front-IsSorted, prune_front-All, All-mono,
  append-IsSorted, append-All_le,
}
use machmqtt_dashboard.Auth.RateLimit.Eviction.{
  evict_stale-Distinct, evict_stale-keeps, evict_stale-settings,
}

-- What holds of one key's attempts at time `now`.
pub record IsBounded (max now : ℕ) (ts : List ℕ) : Type 0 where
  pub sorted : IsSorted ts
  pub past : All (λ t. t ≤ now) ts
  pub within : length ts ≤ max

pub record IsValid (rl : Limiter) (now : ℕ) : Type 0 where
  pub distinct : Distinct rl.attempts
  pub keys : (k : String) (ts : List ℕ) → lookup k rl.attempts ≡ some ts → IsBounded rl.max now ts

pub found-IsBounded :
    {rl : Limiter} {now : ℕ} (k : String)
    → IsValid rl now
    → IsBounded rl.max now (or_nil (lookup k rl.attempts))
found-IsBounded {rl} k v = elim (Option-cases (lookup k rl.attempts)) [
  | inl e ↦ rw e (record { sorted = tt; past = tt; within = omega arith })
  | inr (ts, e) ↦ rw e (v.keys k ts e)
]

pub length-prune_front-le :
    (window now : ℕ) (ts : List ℕ) → IsSorted ts → length (prune_front window now ts) ≤ length ts
length-prune_front-le window now ts s = omega (
  arith,
  length-prune_front window now ts s,
  length-filter-le {0} (λ t. not (is_stale window now t)) ts,
)

abbrev pub attempts_of : String → Limiter → List ℕ
attempts_of k rl = or_nil (lookup k rl.attempts)

-- `Allow` admits exactly when fewer than `max` attempts of the address lie in the window.
pub allow-live :
    {rl : Limiter} {before : ℕ} (ip : String) (now : ℕ)
    → IsValid rl before
    → (allow rl ip now).1 ≡ ltb (live rl.window now (attempts_of ip rl)) rl.max
unfolding allow
allow-live {rl} ip now v =
    ground
      (arith, length-prune_front rl.window now (attempts_of ip rl) (found-IsBounded ip v).sorted)

-- The attempts that `Allow` leaves under the address.
abbrev pub recorded : Limiter → String → ℕ → List ℕ
recorded rl ip now =
    let recent = prune_front rl.window now (attempts_of ip rl) in
    if (allow rl ip now).1 then recent ++ now ∷ [] else recent

pub lookup-allow_self :
    (rl : Limiter) (ip : String) (now : ℕ)
    → lookup ip (allow rl ip now).0.attempts ≡ some (recorded rl ip now)
unfolding allow
lookup-allow_self rl ip now =
    elim (Bool-cases (leb rl.max (length (prune_front rl.window now (attempts_of ip rl))))) [
      | inl e ↦ rw e (lookup-insert_self ip _ _)
      | inr e ↦ rw e (lookup-insert_self ip _ _)
    ]

-- Another key sees of `Allow` only what making room does.
pub lookup-allow_other :
    (rl : Limiter) (ip k : String) (now : ℕ)
    → str_eq ip k ≡ false
    → lookup k (allow rl ip now).0.attempts ≡ lookup k (reclaim rl (attempts_of ip rl) now).attempts
unfolding allow
lookup-allow_other rl ip k now h =
    elim (Bool-cases (leb rl.max (length (prune_front rl.window now (attempts_of ip rl))))) [
      | inl e ↦ rw (e, lookup-insert, h)
      | inr e ↦ rw (e, lookup-insert, h)
    ]

-- The settings never change.
pub allow-settings :
    (rl : Limiter) (ip : String) (now : ℕ)
    → ((allow rl ip now).0.max ≡ rl.max)
      × ((allow rl ip now).0.window ≡ rl.window)
      × ((allow rl ip now).0.max_keys ≡ rl.max_keys)
unfolding allow reclaim
allow-settings rl ip now = ground (arith, evict_stale-settings rl now)

leb-false : (a b : ℕ) → leb a b ≡ false → b < a
leb-false a b h = ground arith

recorded-IsBounded :
    {rl : Limiter} {before : ℕ} (ip : String) (now : ℕ)
    → IsValid rl before
    → before ≤ now
    → IsBounded rl.max now (recorded rl ip now)
unfolding allow
recorded-IsBounded {rl} {before} ip now v le =
    let b = found-IsBounded ip v in
    let ts = attempts_of ip rl in
    let recent = prune_front rl.window now ts in
    let past = prune_front-All rl.window now now ts (All-mono before now ts le b.past) in
    let sorted = prune_front-IsSorted rl.window now ts b.sorted in
    elim (Bool-cases (leb rl.max (length recent))) [
      | inl e ↦ rw e (record {
        sorted = sorted;
        past = past;
        within = omega (arith, length-prune_front-le rl.window now ts b.sorted, b.within);
      })
      | inr e ↦ rw e (record {
        sorted = append-IsSorted recent now sorted past;
        past = append-All_le recent now past;
        within = omega (arith, length-append {0} recent (now ∷ []), leb-false _ _ e);
      })
    ]

reclaim-Distinct :
    (rl : Limiter) (found : List ℕ) (now : ℕ)
    → Distinct rl.attempts
    → Distinct (reclaim rl found now).attempts
unfolding reclaim
reclaim-Distinct rl found now d = ground (arith, evict_stale-Distinct rl now d)

reclaim-keeps :
    (rl : Limiter) (found : List ℕ) (now : ℕ) (k : String)
    → Distinct rl.attempts
    → (lookup k (reclaim rl found now).attempts ≡ none)
      ⊎ (lookup k (reclaim rl found now).attempts ≡ lookup k rl.attempts)
unfolding reclaim
reclaim-keeps rl found now k d = ground (arith, evict_stale-keeps rl now k d)

allow-Distinct :
    (rl : Limiter) (ip : String) (now : ℕ)
    → Distinct rl.attempts
    → Distinct (allow rl ip now).0.attempts
unfolding allow
allow-Distinct rl ip now d =
    let room = reclaim-Distinct rl (attempts_of ip rl) now d in
    let recent = prune_front rl.window now (attempts_of ip rl) in
    ground (
      arith,
      insert-Distinct ip recent (reclaim rl (attempts_of ip rl) now).attempts room,
      insert-Distinct ip (recent ++ now ∷ []) (reclaim rl (attempts_of ip rl) now).attempts room,
    )

later-IsBounded :
    {max before now : ℕ} {ts : List ℕ}
    → before ≤ now
    → IsBounded max before ts
    → IsBounded max now ts
later-IsBounded {max} {before} {now} {ts} le b = record {
  sorted = b.sorted;
  past = All-mono before now ts le b.past;
  within = b.within;
}

-- `Allow` keeps the table: one entry for each address, its attempts in order, none in the future and
-- never more than `max`.
pub allow-IsValid :
    {rl : Limiter} {before : ℕ} (ip : String) (now : ℕ)
    → IsValid rl before
    → before ≤ now
    → IsValid (allow rl ip now).0 now
allow-IsValid {rl} {before} ip now v le = record {
  distinct = allow-Distinct rl ip now v.distinct;
  keys = λ k ts e. rw ((allow-settings rl ip now).0) (elim (Bool-cases (str_eq ip k)) [
    | inl same ↦
        let here = (eq_iff ip k).0 same in
        let found : recorded rl ip now ≡ ts = ground (
          arith,
          here,
          lookup-allow_self rl ip now,
          ap (λ j. lookup j (allow rl ip now).0.attempts) here,
        ) in
        subst (IsBounded rl.max now) found (recorded-IsBounded ip now v le)
    | inr other ↦
        let seen = lookup-allow_other rl ip k now other in
        elim (reclaim-keeps rl (attempts_of ip rl) now k v.distinct) [
          | inl gone ↦ absurd (ground (arith, seen, gone))
          | inr kept ↦ later-IsBounded le (v.keys k ts (ground (arith, seen, kept)))
        ]
  ]);
}
