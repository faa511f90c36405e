-- ===== src/Auth/Session/Gate.antt =====
-- internal/auth/auth.go: who passes the middleware, and with what claims.
use machmqtt_dashboard.Prelude.{
  ℕ, ◌*◌, ◌/◌, ◌+◌, ◌≤◌, ◌<◌, ◌≡◌, refl, ap, ◌⊎◌, inl, inr, String, true, false, ◌&&◌, some, ==_iff,
  str_eq, eq_iff, arith, Bool-cases, Option-cases,
}
use machmqtt_dashboard.Store.Users.{
  Db, Row, User, find, has_id, to_user, role_admin, provider_local,
}
use machmqtt_dashboard.Store.Users.Admins.{get_user}
use machmqtt_dashboard.Auth.Session.{
  Auth, Claims, Request, Reply, respond, next, middleware, resolve, refreshed, validate_token,
  admin_only, password_rotation_allowed, issue_token, session_options, session_issuer, claims_for,
}

-- What stands behind a request that reaches its handler with the claims `c`.
pub record Passed (a : Auth) (db : Db) (now : ℕ) (r : Request) (c : Claims) : Type 0 where
  pub token : String
  pub sent : r.cookie ≡ some token
  pub issued : Claims
  pub authentic : validate_token a now token ≡ some issued
  pub row : Row
  pub exists_ : find (has_id issued.user_id) db.rows ≡ some row
  pub current : issued.session_version ≡ row.token_version
  pub fresh : c ≡ refreshed issued (to_user row)
  pub rotated :
      (str_eq row.auth_provider provider_local && row.must_change_password ≡ false)
      ⊎ (password_rotation_allowed a r row.id ≡ true)

resolve-Passed :
    (a : Auth) (db : Db) (now : ℕ) (r : Request) (token : String) (issued c : Claims)
    → r.cookie ≡ some token
    → validate_token a now token ≡ some issued
    → resolve a r issued (get_user db issued.user_id) ≡ next c
    → Passed a db now r c
unfolding resolve get_user to_user
resolve-Passed a db now r token issued c s v h = elim (Bool-cases db.available) [
  | inr down ↦ absurd (ground (arith, down))
  | inl up ↦ elim (Option-cases (find (has_id issued.user_id) db.rows)) [
    | inl e ↦ absurd (ground (arith, up, e))
    | inr (row, e) ↦ record {
      token = token;
      sent = s;
      issued = issued;
      authentic = v;
      row = row;
      exists_ = e;
      current = ground (arith, up, e, ==_iff issued.session_version row.token_version);
      fresh = ground (arith, up, e);
      rotated = ground (arith, up, e);
    }
  ]
]

pub middleware-Passed :
    (a : Auth) (db : Db) (now : ℕ) (r : Request) (c : Claims)
    → middleware a db now r ≡ next c
    → Passed a db now r c
unfolding middleware
middleware-Passed a db now r c h = elim (Option-cases r.cookie) [
  | inl e ↦ absurd (ground (arith, e))
  | inr (token, e) ↦ elim (Option-cases (validate_token a now token)) [
    | inl f ↦ absurd (ground (arith, e, f))
    | inr (issued, f) ↦ resolve-Passed a db now r token issued c e f (ground (arith, e, f))
  ]
]

-- A handler behind both middlewares runs only for a user whose row says administrator at that moment,
-- whatever the token says.
pub admin_only-role :
    (a : Auth) (db : Db) (now : ℕ) (r : Request) (c : Claims)
    → admin_only (middleware a db now r) ≡ next c
    → (row : Row) × (find (has_id c.user_id) db.rows ≡ some row)
      × (row.role ≡ role_admin)
      × (row.token_version ≡ c.session_version)
unfolding admin_only to_user
admin_only-role a db now r c h = go (middleware a db now r) refl h
  where
    go :
        (reply : Reply)
        → middleware a db now r ≡ reply
        → admin_only reply ≡ next c
        → (row : Row) × (find (has_id c.user_id) db.rows ≡ some row)
          × (row.role ≡ role_admin)
          × (row.token_version ≡ c.session_version)
    go (respond status body) e h = absurd (ground arith)
    go (next d) e h =
        let p = middleware-Passed a db now r d e in
        let same : d ≡ c = ground arith in
        let role : d.role ≡ p.row.role = ap (λ (x : Claims). x.role) p.fresh in
        let version : d.session_version ≡ p.row.token_version =
          ap (λ (x : Claims). x.session_version) p.fresh in
        let user : d.user_id ≡ p.issued.user_id = ap (λ (x : Claims). x.user_id) p.fresh in
        (
          p.row,
          rw (← same, user) p.exists_,
          ground (arith, role, eq_iff d.role role_admin),
          ground (arith, same, version),
        )

-- A token issued to a user opens the middleware until it expires, which is at the last whole second of its
-- time to live, as long as the user's row has the
-- session version that it was issued with and demands no new password. That the library reads back
-- what it signed, while that is valid, is the hypothesis on `jwt`.
pub middleware-issue_token :
    (a : Auth) (db : Db) (issued now : ℕ) (r : Request) (token_id token : String) (u : User)
    (row : Row)
    → ((c : Claims) (t : String)
        → a.jwt.sign a.secret c ≡ some t
        → c.issuer ≡ session_issuer
        → c.audience ≡ session_issuer
        → c.not_before * 1_000_000_000 ≤ now
        → now < c.expires_at * 1_000_000_000
        → a.jwt.parse session_options a.secret now t ≡ some c)
    → issue_token a issued (some token_id) u ≡ some token
    → r.cookie ≡ some token
    → issued ≤ now
    → now < (issued + a.cookie_ttl) / 1_000_000_000 * 1_000_000_000
    → db.available ≡ true
    → find (has_id u.id) db.rows ≡ some row
    → u.session_version ≡ row.token_version
    → (str_eq row.auth_provider provider_local && row.must_change_password) ≡ false
    → middleware a db now r ≡ next (refreshed (claims_for a issued token_id u) (to_user row))
unfolding middleware resolve get_user issue_token to_user
middleware-issue_token a db issued now r token_id token u row law signed sent le lt up e same free =
    let read : a.jwt.parse session_options a.secret now token
        ≡ some (claims_for a issued token_id u) =
      law (claims_for a issued token_id u) token signed refl refl (omega arith) lt in
    ground (arith, read, e, ==_iff u.session_version row.token_version)
