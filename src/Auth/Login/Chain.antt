-- ===== src/Auth/Login/Chain.antt =====
-- internal/auth/providers.go, `AuthenticatePassword`: which provider decides.
use machmqtt_dashboard.Prelude.{
  ℕ, ◌≡◌, ◌∙◌, List, [], ◌∷◌, ◌++◌, String, Option, some, none, arith, Option-cases, inl, inr,
}
use machmqtt_dashboard.Store.Users.{Bcrypt}
use machmqtt_dashboard.Auth.Login.{World, Provider, Outcome, judge, authenticate_password}

module _ (separator : String) (b : Bcrypt) where
  -- The world after providers that do not know the user, `none` if one of them does.
  unfoldable pub passes : List Provider → World → ℕ → String → String → Option World
  passes [] w now username password = some w
  passes (p ∷ ps) w now username password =
      let r = p.authenticate_at w.db now username password in
      let j = judge separator b p.name (record w { db = r.0 }) r.1 in
      let rest = passes ps j.0 now username password in
      elim j.1 [ some outcome ↦ none | none ↦ rest ]

  -- What one provider makes of the credentials.
  abbrev pub judged : Provider → World → ℕ → String → String → World × Option Outcome
  judged p w now username password =
      let r = p.authenticate_at w.db now username password in
      judge separator b p.name (record w { db = r.0 }) r.1

  pub authenticate_password-append :
      (ps qs : List Provider) (w w' : World) (now : ℕ) (username password : String)
      → passes ps w now username password ≡ some w'
      → authenticate_password separator b (ps ++ qs) w now username password
        ≡ authenticate_password separator b qs w' now username password
  unfolding passes authenticate_password
  authenticate_password-append [] qs w w' now username password h = ground (arith, h)
  authenticate_password-append (p ∷ ps) qs w w' now username password h =
      let j = judged p w now username password in
      elim (Option-cases j.1) [
        | inr (outcome, e) ↦ absurd (ground (arith, e))
        | inl e ↦ ground (
          arith,
          e,
          authenticate_password-append ps qs j.0 w' now username password (ground (arith, e)),
        )
      ]

  -- The first provider that knows the user decides, be it by a rejection or by an error: neither the
  -- providers after it nor the local table are asked.
  pub authenticate_password-first :
      (ps rest : List Provider) (q : Provider) (w w' : World) (now : ℕ) (username password : String)
      (outcome : Outcome)
      → passes ps w now username password ≡ some w'
      → (judged q w' now username password).1 ≡ some outcome
      → authenticate_password separator b (ps ++ q ∷ rest) w now username password
        ≡ ((judged q w' now username password).0, outcome)
  unfolding authenticate_password
  authenticate_password-first ps rest q w w' now username password outcome h e =
      authenticate_password-append ps (q ∷ rest) w w' now username password h ∙ ground (arith, e)
