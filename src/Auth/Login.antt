-- ===== src/Auth/Login.antt =====
-- internal/auth/providers.go and internal/auth/handlers.go: the chain of password providers, and the handler of
-- a login. A provider may write to the user table, as the LDAP provider does; what it does is a
-- parameter. `time.Now()` is an argument, and what a provider's call took is not kept.
pub mod Chain
pub mod Handler
mod Tests
use machmqtt_dashboard.Prelude.{
  ℕ, ◌+◌, List, [], ◌∷◌, String, concat, Bool, true, false, Option, some, none, Map, lookup, insert,
  if◌then◌else◌, add_u64,
}
use machmqtt_dashboard.Store.Users.{Db, User, Bcrypt, Result, ok, err, authenticate}
use machmqtt_dashboard.Auth.RateLimit.{Limiter, allow}
use machmqtt_dashboard.Auth.Session.{Auth, issue_token}

-- `ProviderResult`; `invalid_result` is any other value of that integer type.
pub data ProviderResult : Type 0 where
  no_match authenticated rejected invalid_result : ProviderResult

-- What `Authenticate` of a provider returns; a `nil` user is `none`.
pub data Answer : Type 0 where
  failed : Answer
  answers : ProviderResult → Option User → Answer

-- The interface `PasswordProvider`.
pub record Provider : Type 0 where
  pub name : String
  pub authenticate_at : Db → ℕ → String → String → Db × Answer

pub data AuthError : Type 0 where
  invalid_credentials provider_unavailable : AuthError

pub data Outcome : Type 0 where
  accepted : User → Outcome
  denied : AuthError → Outcome

-- The counters behind `metricsMu`, and the database.
pub record World : Type 0 where
  pub db : Db
  pub auth_events : Map ℕ

abbrev pub or_none : Option ℕ → ℕ
or_none none = 0
or_none (some n) = n

-- `separator` is the text of one zero byte.
unfoldable pub record_auth_event : String → String → String → World → World
record_auth_event separator provider result w =
    let key = concat provider (concat separator result) in
    record w {
      auth_events = insert key (add_u64 (or_none (lookup key w.auth_events)) 1) w.auth_events;
    }

abbrev pub of_local : Result User → Outcome
of_local (ok u) = accepted u
of_local (err e) = denied invalid_credentials

unfoldable pub authenticate_local : Bcrypt → World → ℕ → String → String → World × Outcome
authenticate_local b w now username password =
    let r = authenticate b w.db username password now in (record w { db = r.0 }, of_local r.1)

module _ (separator : String) (b : Bcrypt) where
  -- What the loop of `AuthenticatePassword` does with one answer; `none` goes on to the next provider.
  unfoldable pub judge : String → World → Answer → World × Option Outcome
  judge name w failed =
      (record_auth_event separator name "unavailable" w, some (denied provider_unavailable))
  judge name w (answers no_match user) = (record_auth_event separator name "no_match" w, none)
  judge name w (answers authenticated none) = (w, some (denied provider_unavailable))
  judge name w (answers authenticated (some user)) =
      (record_auth_event separator name "success" w, some (accepted user))
  judge name w (answers rejected user) =
      (record_auth_event separator name "rejected" w, some (denied invalid_credentials))
  judge name w (answers invalid_result user) = (w, some (denied provider_unavailable))

  unfoldable pub authenticate_password :
      List Provider → World → ℕ → String → String → World × Outcome
  unfolding authenticate_local
  authenticate_password [] w now username password = authenticate_local b w now username password
  authenticate_password (p ∷ ps) w now username password =
      let r = p.authenticate_at w.db now username password in
      let j = judge p.name (record w { db = r.0 }) r.1 in
      let rest = authenticate_password ps j.0 now username password in
      elim j.1 [ some outcome ↦ (j.0, outcome) | none ↦ rest ]
