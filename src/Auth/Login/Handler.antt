-- ===== src/Auth/Login/Handler.antt =====
-- internal/auth/handlers.go: `handlePasswordLogin`.
use machmqtt_dashboard.Prelude.{
  ℕ, ◌≡◌, refl, ap, List, String, Bool, true, false, not, Option, some, none, if◌then◌else◌, arith,
  Bool-cases, Option-cases, inl, inr,
}
use machmqtt_dashboard.Store.Users.{User, Bcrypt}
use machmqtt_dashboard.Auth.RateLimit.{Limiter, allow}
use machmqtt_dashboard.Auth.Session.{Auth, issue_token}
use machmqtt_dashboard.Auth.Login.{
  World, Provider, Outcome, accepted, denied, provider_unavailable, invalid_credentials,
  record_auth_event, authenticate_local, authenticate_password,
}

-- The state of the login handlers.
pub record Server : Type 0 where
  pub login_limiter : Limiter
  pub local_login_limiter : Limiter
  pub world : World

-- `ip` is what `clientIP` makes of the request; `body` the decoded user name and password.
pub record LoginRequest : Type 0 where
  pub ip : String
  pub body : Option (String × String)

-- `session` sets the session cookie and answers with the user.
pub data LoginReply : Type 0 where
  respond : (status : ℕ) (body : String) → LoginReply
  session : (token : String) (user : User) → LoginReply

abbrev pub kind_of : Bool → String
kind_of true = "local"
kind_of false = "ordered"

module _ (separator : String) (b : Bcrypt) (a : Auth) (providers : List Provider) where
  unfoldable pub finish_login : World → ℕ → Option String → User → World × LoginReply
  finish_login w now token_id user = elim (issue_token a now token_id user) [
    | none ↦ (w, respond 500 "{\"error\":\"internal error\"}")
    | some token ↦ (record_auth_event separator user.auth_provider "success" w, session token user)
  ]

  unfoldable pub answer_login : Bool → ℕ → Option String → World × Outcome → World × LoginReply
  unfolding finish_login
  answer_login local_only now token_id (w, accepted user) = finish_login w now token_id user
  answer_login local_only now token_id (w, denied provider_unavailable) = (
    record_auth_event separator "ordered" "unavailable" w,
    respond 503 "{\"error\":\"authentication provider unavailable\"}",
  )
  answer_login local_only now token_id (w, denied invalid_credentials) = (
    record_auth_event separator (kind_of local_only) "failure" w,
    respond 401 "{\"error\":\"invalid credentials\"}",
  )

  -- After the rate limiter: the body, the credentials and the session.
  unfoldable pub login_body :
      Bool → World → ℕ → Option String → Option (String × String) → World × LoginReply
  unfolding answer_login
  login_body local_only w now token_id none = (w, respond 400 "{\"error\":\"invalid request\"}")
  login_body true w now token_id (some (username, password)) =
      answer_login true now token_id (authenticate_local b w now username password)
  login_body false w now token_id (some (username, password)) =
      answer_login false now token_id
        (authenticate_password separator b providers w now username password)

  abbrev pub with_limiter : Bool → Server → Limiter → Server
  with_limiter true s l = record s { local_login_limiter = l }
  with_limiter false s l = record s { login_limiter = l }

  abbrev pub limiter_of : Bool → Server → Limiter
  limiter_of true s = s.local_login_limiter
  limiter_of false s = s.login_limiter

  -- `handlePasswordLogin`.
  unfoldable pub handle_password_login :
      Server → ℕ → Option String → LoginRequest → Bool → Server × LoginReply
  unfolding login_body
  handle_password_login s now token_id r local_only =
      let verdict = allow (limiter_of local_only s) r.ip now in
      let s' = with_limiter local_only s verdict.0 in
      let done = login_body local_only s'.world now token_id r.body in
      if verdict.1 then (record s' { world = done.0 }, done.1) else (
        record s' {
          world = record_auth_event separator (kind_of local_only) "rate_limited" s'.world;
        },
        respond 429 "{\"error\":\"too many login attempts, try again later\"}",
      )

  -- A refused address gets 429 whatever its password; the user table and the other limiter are as they were.
  pub handle_password_login-limited :
      (s : Server) (now : ℕ) (token_id : Option String) (r : LoginRequest) (local_only : Bool)
      → (allow (limiter_of local_only s) r.ip now).1 ≡ false
      → ((handle_password_login s now token_id r local_only).1
          ≡ respond 429 "{\"error\":\"too many login attempts, try again later\"}")
        × ((handle_password_login s now token_id r local_only).0.world.db ≡ s.world.db)
        × (limiter_of (not local_only) (handle_password_login s now token_id r local_only).0
            ≡ limiter_of (not local_only) s)
  unfolding handle_password_login record_auth_event
  handle_password_login-limited s now token_id r true h =
      (ground (arith, h), ground (arith, h), ground (arith, h))
  handle_password_login-limited s now token_id r false h =
      (ground (arith, h), ground (arith, h), ground (arith, h))

  -- The authentication that a login asks for.
  abbrev pub credentials_checked : Bool → World → ℕ → String → String → World × Outcome
  credentials_checked true w now username password = authenticate_local b w now username password
  credentials_checked false w now username password =
      authenticate_password separator b providers w now username password

  answer_login-session :
      (local_only : Bool) (now : ℕ) (token_id : Option String) (w : World) (o : Outcome)
      (token : String) (u : User)
      → (answer_login local_only now token_id (w, o)).1 ≡ session token u
      → (o ≡ accepted u) × (issue_token a now token_id u ≡ some token)
  unfolding answer_login finish_login
  answer_login-session local_only now token_id w (accepted user) token u h =
      elim (Option-cases (issue_token a now token_id user)) [
        | inl e ↦ absurd (ground (arith, e))
        | inr (t, e) ↦ (ground (arith, e), ground (arith, e))
      ]
  answer_login-session local_only now token_id w (denied provider_unavailable) token u h =
      absurd (ground arith)
  answer_login-session local_only now token_id w (denied invalid_credentials) token u h =
      absurd (ground arith)

  login_body-session :
      (local_only : Bool) (w : World) (now : ℕ) (token_id : Option String)
      (body : Option (String × String)) (token : String) (u : User)
      → (login_body local_only w now token_id body).1 ≡ session token u
      → (username : String) × (password : String) × (body ≡ some (username, password))
        × ((credentials_checked local_only w now username password).1 ≡ accepted u)
        × (issue_token a now token_id u ≡ some token)
  unfolding login_body
  login_body-session local_only w now token_id none token u h = absurd (ground arith)
  login_body-session true w now token_id (some (username, password)) token u h =
      let r = authenticate_local b w now username password in
      let k = answer_login-session true now token_id r.0 r.1 token u h in
      (username, password, refl, k.0, k.1)
  login_body-session false w now token_id (some (username, password)) token u h =
      let r = authenticate_password separator b providers w now username password in
      let k = answer_login-session false now token_id r.0 r.1 token u h in
      (username, password, refl, k.0, k.1)

  with_limiter-world :
      (local_only : Bool) (s : Server) (l : Limiter) → (with_limiter local_only s l).world ≡ s.world
  with_limiter-world true s l = refl
  with_limiter-world false s l = refl

  -- A session is given only to an address that the limiter admits, for credentials that the chain of
  -- providers (or, on the local route, the user table) accepts for that very user.
  pub handle_password_login-session :
      (s : Server) (now : ℕ) (token_id : Option String) (r : LoginRequest) (local_only : Bool)
      (token : String) (u : User)
      → (handle_password_login s now token_id r local_only).1 ≡ session token u
      → ((allow (limiter_of local_only s) r.ip now).1 ≡ true)
        × (username : String) × (password : String) × (r.body ≡ some (username, password))
        × ((credentials_checked local_only s.world now username password).1 ≡ accepted u)
        × (issue_token a now token_id u ≡ some token)
  unfolding handle_password_login
  handle_password_login-session s now token_id r local_only token u h =
      elim (Bool-cases (allow (limiter_of local_only s) r.ip now).1) [
        | inr barred ↦ absurd (ground (arith, barred))
        | inl admitted ↦
            let same =
              with_limiter-world local_only s (allow (limiter_of local_only s) r.ip now).0 in
            let k =
              login_body-session local_only s.world now token_id r.body token u
                (ground (arith, admitted, same)) in
            (admitted, k.0, k.1, k.2, k.3, k.4)
      ]

login_body-local :
    (separator : String) (b : Bcrypt) (a : Auth) (providers others : List Provider) (w : World)
    (now : ℕ) (token_id : Option String) (body : Option (String × String))
    → login_body separator b a providers true w now token_id body
      ≡ login_body separator b a others true w now token_id body
unfolding login_body answer_login finish_login
login_body-local separator b a providers others w now token_id none = refl
login_body-local separator b a providers others w now token_id (some (username, password)) =
    answer_login-local (authenticate_local b w now username password)
  where
    answer_login-local :
        (o : World × Outcome)
        → answer_login separator b a providers true now token_id o
          ≡ answer_login separator b a others true now token_id o
    answer_login-local (v, accepted user) = refl
    answer_login-local (v, denied provider_unavailable) = refl
    answer_login-local (v, denied invalid_credentials) = refl

-- The local route does not depend on the external providers: it answers the same whatever they are.
pub handle_password_login-local :
    (separator : String) (b : Bcrypt) (a : Auth) (providers others : List Provider) (s : Server)
    (now : ℕ) (token_id : Option String) (r : LoginRequest)
    → handle_password_login separator b a providers s now token_id r true
      ≡ handle_password_login separator b a others s now token_id r true
unfolding handle_password_login
handle_password_login-local separator b a providers others s now token_id r =
    ap
      (λ (done : World × LoginReply).
        if (allow s.local_login_limiter r.ip now).1
        then (
          record s {
            local_login_limiter = (allow s.local_login_limiter r.ip now).0;
            world = done.0;
          },
          done.1,
        )
        else (
          record s {
            local_login_limiter = (allow s.local_login_limiter r.ip now).0;
            world = record_auth_event separator "local" "rate_limited" s.world;
          },
          respond 429 "{\"error\":\"too many login attempts, try again later\"}",
        ))
      (login_body-local separator b a providers others s.world now token_id r.body)
