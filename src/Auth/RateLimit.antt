-- ===== src/Auth/RateLimit.antt =====
-- internal/auth/ratelimit.go, `LoginRateLimiter`: login attempts per client address.
-- Each method runs under the mutex and is one step; `time.Now()` is an argument. The cutoff is
-- `now - window`, so "before the cutoff" is written `t + window < now`.
pub mod Window
pub mod Eviction
pub mod Budget
pub mod Cleanup
pub mod ClientIp
mod Tests
use Prim.Native.Nat.{min}
use machmqtt_dashboard.Prelude.{
  ℕ, zero, suc, ◌+◌, ◌-◌, ◌/◌, ◌%◌, ◌^◌, List, [], ◌∷◌, ◌++◌, String, Map, lookup, insert, delete,
  length, filter, count, take, map, ltb, leb, add_u64, if◌then◌else◌, Bool, true, false, ◌&&◌, not,
  ◌==◌, Option, some, none,
}

pub record Limiter : Type 0 where
  pub attempts : Map (List ℕ)
  pub window : ℕ
  pub max : ℕ
  pub max_keys : ℕ
  pub rejected : ℕ
  pub evicted : ℕ

-- `NewLoginRateLimiter`.
abbrev pub new : ℕ → ℕ → Limiter
new max window = record {
  attempts = [];
  window = window;
  max = max;
  max_keys = 10000;
  rejected = 0;
  evicted = 0;
}

-- `rl.attempts[ip]`: nil for a missing key.
abbrev pub or_nil : Option (List ℕ) → List ℕ
or_nil none = []
or_nil (some ts) = ts

-- `at.Before(cutoff)`.
abbrev pub is_stale : ℕ → ℕ → ℕ → Bool
is_stale window now at = ltb (at + window) now

module _ (window now : ℕ) where
  -- The loop that advances `start` past the stale attempts at the front.
  unfoldable pub prune_front : List ℕ → List ℕ
  prune_front [] = []
  prune_front (t ∷ ts) = if is_stale window now t then prune_front ts else t ∷ ts

  -- `len(attempts) == 0 || attempts[len(attempts)-1].Before(cutoff)`.
  unfoldable pub is_expired : List ℕ → Bool
  is_expired [] = true
  is_expired (t ∷ []) = is_stale window now t
  is_expired (t ∷ u ∷ ts) = is_expired (u ∷ ts)

  abbrev pub live : List ℕ → ℕ
  live ts = count (λ t. not (is_stale window now t)) ts

-- `attempts[len(attempts)-1]`, read only where the list is not empty.
unfoldable pub last : List ℕ → ℕ
last [] = 0
last (t ∷ []) = t
last (t ∷ u ∷ ts) = last (u ∷ ts)

-- `aged`: a key with budget left, and when it was last active.
pub record Aged : Type 0 where
  pub key : String
  pub last_active : ℕ

unfoldable pub evictable : ℕ → ℕ → ℕ → Map (List ℕ) → List Aged
evictable max window now [] = []
evictable max window now ((k, ts) ∷ m) =
    if leb max (live window now ts)
    then evictable max window now m
    else record { key = k; last_active = last ts } ∷ evictable max window now m

-- `sort.Slice`, least recently active first.
unfoldable pub insert_aged : Aged → List Aged → List Aged
insert_aged a [] = a ∷ []
insert_aged a (b ∷ bs) =
    if leb a.last_active b.last_active then a ∷ b ∷ bs else b ∷ insert_aged a bs

unfoldable pub sort_aged : List Aged → List Aged
unfolding insert_aged
sort_aged [] = []
sort_aged (a ∷ bs) = insert_aged a (sort_aged bs)

unfoldable pub delete_aged : List Aged → Map (List ℕ) → Map (List ℕ)
delete_aged [] m = m
delete_aged (a ∷ bs) m = delete_aged bs (delete a.key m)

-- The first loop of `evictStaleLocked`.
abbrev pub unexpired : ℕ → ℕ → Map (List ℕ) → Map (List ℕ)
unexpired window now m = filter (λ e. not (is_expired window now e.1)) m

-- The keys that the second part gives up.
abbrev pub doomed : Limiter → ℕ → Map (List ℕ) → List Aged
doomed rl now m =
    take (length m - rl.max_keys + rl.max_keys / 10 + 1)
      (sort_aged (evictable rl.max rl.window now m))

unfoldable pub evict_stale : Limiter → ℕ → Limiter
unfolding is_expired last evictable sort_aged delete_aged
evict_stale rl now =
    let kept = unexpired rl.window now rl.attempts in
    let gone = length rl.attempts - length kept in
    if ltb (length kept) rl.max_keys
    then record rl { attempts = kept; evicted = add_u64 rl.evicted gone }
    else let dropped = doomed rl now kept in
      record rl {
        attempts = delete_aged dropped kept;
        evicted = add_u64 rl.evicted (gone + length dropped);
      }

-- A key with no attempts, at a full table, first makes room.
unfoldable pub reclaim : Limiter → List ℕ → ℕ → Limiter
reclaim rl found now =
    if length found == 0 && leb rl.max_keys (length rl.attempts) then evict_stale rl now else rl

unfoldable pub allow : Limiter → String → ℕ → Limiter × Bool
unfolding prune_front reclaim
allow rl ip now =
    let found = or_nil (lookup ip rl.attempts) in
    let rl' = reclaim rl found now in
    let recent = prune_front rl.window now found in
    if leb rl.max (length recent)
    then (
      record rl' { rejected = add_u64 rl'.rejected 1; attempts = insert ip recent rl'.attempts },
      false,
    )
    else (record rl' { attempts = insert ip (recent ++ now ∷ []) rl'.attempts }, true)

-- One round of the loop of `prune`: an empty rest drops the key.
unfoldable pub prune_entries : ℕ → ℕ → Map (List ℕ) → Map (List ℕ)
unfolding prune_front
prune_entries window now [] = []
prune_entries window now ((k, ts) ∷ m) = elim (prune_front window now ts) [
  | [] ↦ prune_entries window now m
  | t ∷ rest ↦ (k, t ∷ rest) ∷ prune_entries window now m
]

unfoldable pub prune : Limiter → ℕ → Limiter
unfolding prune_entries
prune rl now = record rl { attempts = prune_entries rl.window now rl.attempts }

pub record Stats : Type 0 where
  pub keys : ℕ
  pub rejected : ℕ
  pub evicted : ℕ

unfoldable pub size : Limiter → ℕ
size rl = length rl.attempts

unfoldable pub stats : Limiter → Stats
unfolding size
stats rl = record { keys = size rl; rejected = rl.rejected; evicted = rl.evicted }
