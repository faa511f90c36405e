-- ===== src/Auth/Accounts/Rotation.antt =====
-- internal/auth/handlers.go, `HandleChangePassword`: who changes a password, and what session follows.
use Prim.Native.String.{len}
use machmqtt_dashboard.Prelude.{
  ℕ, ◌≤◌, ◌≡◌, refl, inl, inr, String, true, Option, some, ltb, arith, Bool-cases, Option-cases,
}
use machmqtt_dashboard.Store.Users.{Db, User, Bcrypt, Result, ok, err, min_password_length}
use machmqtt_dashboard.Store.Users.Admins.{get_user}
use machmqtt_dashboard.Store.Users.Sessions.{change_password}
use machmqtt_dashboard.Auth.Session.{Auth, Claims, issue_token}
use machmqtt_dashboard.Auth.Accounts.{renews, handle_change_password, rotate, renew, is_user}

renew-renews :
    (a : Auth) (now : ℕ) (token_id : Option String) (r : Result User) (token : String)
    → renew a now token_id r ≡ renews token
    → (u : User) × (r ≡ ok u) × (issue_token a now token_id u ≡ some token)
unfolding renew
renew-renews a now token_id (err e) token h = absurd (ground arith)
renew-renews a now token_id (ok u) token h = elim (Option-cases (issue_token a now token_id u)) [
  | inl e ↦ absurd (ground (arith, e))
  | inr (t, e) ↦ (u, refl, ground (arith, e))
]

rotate-renews :
    (a : Auth) (now : ℕ) (token_id : Option String) (id : ℕ) (r : Db × Result (Unit {0}))
    (token : String)
    → (rotate a now token_id id r).1 ≡ renews token
    → (r.1 ≡ ok tt)
      × (u : User) × (get_user (rotate a now token_id id r).0 id ≡ ok u)
      × (issue_token a now token_id u ≡ some token)
unfolding rotate
rotate-renews a now token_id id (db, err e) token h = absurd (ground arith)
rotate-renews a now token_id id (db, ok done) token h =
    let k = renew-renews a now token_id (get_user db id) token h in (refl, k.0, k.1, k.2)

-- A session is renewed only for the user whose password it is, with a new password of 8 bytes or more,
-- after the store has changed it; and the new token is one for the user as the table then has it, so
-- that it carries the session version that the change has set.
pub handle_change_password-renews :
    (b : Bcrypt) (a : Auth) (db : Db) (salt now : ℕ) (token_id : Option String) (id : ℕ)
    (claims : Option Claims) (old_password password token : String)
    → (handle_change_password b a db salt now token_id
        (some id)
        claims
        (some (old_password, password))).1
      ≡ renews token
    → (is_user id claims ≡ true)
      × (min_password_length ≤ len password)
      × ((change_password b db salt id old_password password).1 ≡ ok tt)
      × (u : User) × (get_user
            (handle_change_password b a db salt now token_id
              (some id)
              claims
              (some (old_password, password))).0
            id
          ≡ ok u)
      × (issue_token a now token_id u ≡ some token)
unfolding handle_change_password
handle_change_password-renews b a db salt now token_id id claims old_password password token h =
    elim (Bool-cases (is_user id claims)) [
      | inr other ↦ absurd (ground (arith, other))
      | inl own ↦ elim (Bool-cases (ltb (len password) min_password_length)) [
        | inl short ↦ absurd (ground (arith, own, short))
        | inr long ↦
            let k =
              rotate-renews a now token_id id (change_password b db salt id old_password password)
                token (ground (arith, own, long)) in
            (own, ground (arith, long), k.0, k.1, rw (own, long) k.2, k.3)
      ]
    ]
