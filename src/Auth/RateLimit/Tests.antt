-- ===== src/Auth/RateLimit/Tests.antt =====
-- Runs and instances of internal/auth/ratelimit.go.
use machmqtt_dashboard.Prelude.{
  ℕ, ◌≤◌, ◌≡◌, refl, List, [], ◌∷◌, String, some, none, lookup, insert, delete, arith, str_eq,
  if◌then◌else◌,
}
use machmqtt_dashboard.Auth.RateLimit.{Limiter, new, allow, prune, evict_stale, live}
use machmqtt_dashboard.Auth.RateLimit.Budget.{IsValid}
use machmqtt_dashboard.Auth.RateLimit.Budget.Run.{admitted, admitted_bounded}
use machmqtt_dashboard.Auth.RateLimit.ClientIp.{Net}

program : Unit {0}
unfolding allow prune evict_stale admitted lookup insert delete
program = tt

-- Two attempts in a window of 10.
abbrev strict : Limiter
strict = new 2 10

abbrev calls : List (String × ℕ)
calls = ("a", 1) ∷ ("a", 2) ∷ ("a", 3) ∷ ("b", 4) ∷ ("a", 12) ∷ []

third_is_refused : admitted "a" strict calls ≡ 1 ∷ 2 ∷ 12 ∷ []
unfolding program
third_is_refused = refl

-- A full table of two keys: "x" is at its limit, "y" is not.
abbrev full : Limiter
full = record (new 2 10) { attempts = ("x", 8 ∷ 9 ∷ []) ∷ ("y", 9 ∷ []) ∷ []; max_keys = 2 }

newcomer : (allow full "z" 10).0.attempts ≡ ("x", 8 ∷ 9 ∷ []) ∷ ("z", 10 ∷ []) ∷ []
unfolding program
newcomer = refl

-- Every key is at its limit: the table stays full.
abbrev crowded : Limiter
crowded = record full { attempts = ("x", 8 ∷ 9 ∷ []) ∷ ("y", 9 ∷ 9 ∷ []) ∷ [] }

admitted_bounded_example : live 10 12 (admitted "a" strict calls) ≤ 2
unfolding program
admitted_bounded_example = admitted_bounded "a" 2 10 12 calls (omega arith) (omega arith)

empty-IsValid : IsValid strict 0
unfolding program
empty-IsValid = record { distinct = tt; keys = λ k ts e. cc }

-- Addresses are texts; every text but "" is one, and "proxy" is the trusted network.
abbrev texts : Net
texts = record {
  Ip = String;
  Network = String;
  parse_ip = λ s. if str_eq s "" then none else some s;
  contains = str_eq;
  split_host_port = λ s. none;
  split_comma = λ s. "fake" ∷ "client" ∷ "proxy" ∷ [];
  trim_space = λ s. s;
}
