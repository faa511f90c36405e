-- ===== src/Auth/Oidc/Callback.antt =====
-- internal/auth/oidc.go, `CompleteLogin`: what stands behind a login, and that a callback is good once.
use machmqtt_dashboard.Prelude.{
  ℕ, ◌+◌, ◌≤◌, ◌≡◌, inl, inr, List, [], ◌∷◌, String, false, some, none, lookup, str_eq, eq_iff,
  arith, Bool-cases, Option-cases, All,
}
use machmqtt_dashboard.Store.Users.{Db, User}
use machmqtt_dashboard.Auth.Oidc.{
  Flow, Flows, Names, Config, Exchange, IdToken, signed_in, refused, invalid_response, admit_token,
  redeem, complete_flow, complete_login, consume_flow, store_flow, is_expired_flow, oidc_flow_ttl,
}
use machmqtt_dashboard.Auth.Oidc.Table.{consume_flow-once, lookup-store_flow}

module _ (n : Names) (cfg : Config) (name : String) (ex : Exchange) where
  -- What a login at the provider rests on.
  pub record Proven (p : Flows) (now : ℕ) (state code binding : String) : Type 0 where
    pub flow : Flow
    pub stored : lookup state p.flows ≡ some flow
    pub fresh : now ≤ flow.created + oidc_flow_ttl
    pub bound : binding ≡ flow.binding
    pub raw : String
    pub redeemed : ex.exchange code flow.verifier ≡ some raw
    pub id_token : IdToken
    pub verified : ex.verify raw ≡ some id_token
    pub same_nonce : id_token.nonce ≡ flow.nonce

  redeem-signed_in :
      (db : Db) (now : ℕ) (flow : Flow) (code : String) (u : User)
      → (redeem n cfg name ex db now flow code).1 ≡ signed_in u
      → (raw : String) × (ex.exchange code flow.verifier ≡ some raw)
        × ((t : IdToken) × (ex.verify raw ≡ some t) × (t.nonce ≡ flow.nonce))
  unfolding redeem admit_token
  redeem-signed_in db now flow code u h = elim (Option-cases (ex.exchange code flow.verifier)) [
    | inl e ↦ absurd (ground (arith, e))
    | inr (raw, e) ↦ elim (Option-cases (ex.verify raw)) [
      | inl f ↦ absurd (ground (arith, e, f))
      | inr (t, f) ↦ (raw, e, (t, f, ground (arith, e, f, eq_iff t.nonce flow.nonce)))
    ]
  ]

  -- A callback signs a user in only for a state that was stored at most 10 minutes before, with the
  -- binding of that flow in its cookie, a code that the provider redeems against the flow's verifier,
  -- and an ID token that verifies and carries the flow's nonce.
  pub complete_login-Proven :
      (p : Flows) (db : Db) (now : ℕ) (state code binding : String) (u : User)
      → (complete_login n cfg name ex p db now state code binding).2 ≡ signed_in u
      → Proven p now state code binding
  unfolding complete_login complete_flow consume_flow
  complete_login-Proven p db now state code binding u h =
      elim (Option-cases (lookup state p.flows)) [
        | inl e ↦ absurd (ground (arith, e))
        | inr (flow, e) ↦ elim (Bool-cases (is_expired_flow now flow)) [
          | inl old ↦ absurd (ground (arith, e, old))
          | inr young ↦ elim (Bool-cases (str_eq binding flow.binding)) [
            | inr wrong ↦ absurd (ground (arith, e, young, wrong))
            | inl right ↦
                let r = redeem-signed_in db now flow code u (ground (arith, e, young, right)) in
                record {
                  flow = flow;
                  stored = e;
                  fresh = ground (arith, young);
                  bound = ground (arith, right, eq_iff binding flow.binding);
                  raw = r.0;
                  redeemed = r.1;
                  id_token = r.2.0;
                  verified = r.2.1;
                  same_nonce = r.2.2;
                }
          ]
        ]
      ]

  -- Other logins that begin after a callback: each has a state of its own.
  unfoldable pub begin_all : Flows → List (ℕ × String × Flow) → Flows
  begin_all p [] = p
  begin_all p ((now, state, flow) ∷ rest) = begin_all (store_flow p now state flow) rest

  abbrev pub Others : String → List (ℕ × String × Flow) → Type 0
  Others state = All (λ e. str_eq e.1 state ≡ false)

  lookup-begin_all :
      (p : Flows) (state : String) (begun : List (ℕ × String × Flow))
      → lookup state p.flows ≡ none
      → Others state begun
      → lookup state (begin_all p begun).flows ≡ none
  unfolding begin_all
  lookup-begin_all p state [] h o = h
  lookup-begin_all p state ((now, other_state, flow) ∷ rest) h o =
      lookup-begin_all (store_flow p now other_state flow) state rest
        (lookup-store_flow p now other_state state flow h o.0) o.1

  absent-refused :
      (p : Flows) (db : Db) (now : ℕ) (state code binding : String)
      → lookup state p.flows ≡ none
      → (complete_login n cfg name ex p db now state code binding).2 ≡ refused invalid_response
  unfolding complete_login complete_flow consume_flow
  absent-refused p db now state code binding h = ground (arith, h)

  -- A callback that is played again is refused, whatever came of the first one, and whatever other
  -- logins have begun in between.
  pub complete_login-replayed :
      (p : Flows) (db db' : Db) (now later : ℕ) (state code code' binding binding' : String)
      (begun : List (ℕ × String × Flow))
      → Others state begun
      → (complete_login n cfg name ex
          (begin_all (complete_login n cfg name ex p db now state code binding).0 begun)
          db'
          later
          state
          code'
          binding').2
        ≡ refused invalid_response
  unfolding complete_login
  complete_login-replayed p db db' now later state code code' binding binding' begun o =
      absent-refused (begin_all (consume_flow p now state).0 begun) db' later state code' binding' (
        lookup-begin_all (consume_flow p now state).0 state begun (consume_flow-once p now state) o)
