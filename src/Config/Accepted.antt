-- ===== src/Config/Accepted.antt =====
-- internal/config/config.go: what holds of the providers that the loop of `Load` accepts.
use machmqtt_dashboard.Prelude.{
  ◌≡◌, ◌⊎◌, inl, inr, refl, not, List, [], ◌∷◌, map, Bool, true, Option, none, some, Bytes,
  bytes_eq, bytes_eq_iff, codes, is_some, All, arith, Bool-cases,
}
use machmqtt_dashboard.Environments.{is_empty}
use machmqtt_dashboard.Config.{LdapAuthConfig, OidcAuthConfig, AuthProviderConfig, Platform}
use machmqtt_dashboard.Config.Checks.{is_provider_name, is_seen}
use machmqtt_dashboard.Config.Providers.{
  is_public, trim_slashes, normalize_domains, validate_ldap, validate_oidc, validate_kind,
  validate_providers,
}
use machmqtt_dashboard.Config.Post.{Post, returns, fails, ◌⟫◌, require-Post, self-Post}
use machmqtt_dashboard.Config.Valid.{IsFresh, IsFresh-cons_iff}
use machmqtt_dashboard.Config.Sources.{
  IsDirectory, IsClient, oidc_provider-IsClient, ldap_provider-IsDirectory,
}

-- The origin that OIDC providers send users back to: over https, without a path.
abbrev pub IsPublic : Platform → Bytes → Type 0
IsPublic h url = (raw : Bytes) × (is_public (h.parse raw) ≡ true) × (url ≡ trim_slashes raw)

-- A provider has the settings of its type and no others.
abbrev pub IsProvider : Platform → Bool → Bytes → AuthProviderConfig → Type 0
IsProvider h secure_cookies public_url p =
    ((p.kind ≡ codes "ldap")
      × (p.oidc ≡ none)
      × ((c : LdapAuthConfig) × (p.ldap ≡ some c) × IsDirectory h c))
    ⊎ ((p.kind ≡ codes "oidc")
        × (p.ldap ≡ none)
        × ((c : OidcAuthConfig) × (p.oidc ≡ some c) × IsClient h c)
        × (secure_cookies ≡ true)
        × IsPublic h public_url)

-- The public URL is as it was, or one that was checked.
abbrev IsChecked : Platform → Bytes → Bytes → Type 0
IsChecked h url final = (final ≡ url) ⊎ IsPublic h final

IsChecked-trans :
    (h : Platform) (url next final : Bytes)
    → IsChecked h url next
    → IsChecked h next final
    → IsChecked h url final
IsChecked-trans h url next final a (inr p) = inr p
IsChecked-trans h url next final a (inl e) = rw e a

IsProvider-moved :
    (h : Platform) (secure_cookies : Bool) (next final : Bytes) (p : AuthProviderConfig)
    → IsChecked h next final
    → IsProvider h secure_cookies next p
    → IsProvider h secure_cookies final p
IsProvider-moved h secure_cookies next final p a (inl d) = inl d
IsProvider-moved h secure_cookies next final p (inl e) b = rw e b
IsProvider-moved h secure_cookies next final p (inr c) (inr (k, n, o, s, _)) = inr (k, n, o, s, c)

no_other : {A : Type 0} (o : Option A) → not (is_some o) ≡ true → o ≡ none
no_other none h = refl
no_other (some a) h = ground arith

module _ (h : Platform) (secure_cookies : Bool) where
  -- Of one provider, with the public URL before it.
  abbrev Checked : Bytes → AuthProviderConfig → Bytes × AuthProviderConfig → Type 0
  Checked url p (next, q) =
      IsProvider h secure_cookies next q × (q.name ≡ p.name) × IsChecked h url next

  ldap-Checked :
      (url : Bytes) (p : AuthProviderConfig)
      → p.kind ≡ codes "ldap"
      → Post (Checked url p) (validate_ldap h url p)
  ldap-Checked url p k = require-Post (not (is_some p.oidc)) ⟫ λ _ o. self-Post p.ldap ⟫ λ c _.
      ldap_provider-IsDirectory h c ⟫ λ valid d.
      returns {a = (url, record p { ldap = some valid })}
        (inl (k, no_other p.oidc o, (valid, refl, d)), refl, inl refl)

  oidc-Checked :
      (url : Bytes) (p : AuthProviderConfig)
      → p.kind ≡ codes "oidc"
      → Post (Checked url p) (validate_oidc h secure_cookies url p)
  oidc-Checked url p k = require-Post (not (is_some p.ldap)) ⟫ λ _ l. self-Post p.oidc ⟫ λ c _.
      require-Post (not (is_empty url)) ⟫ λ _ _. require-Post secure_cookies ⟫ λ _ s.
      require-Post (is_public (h.parse url)) ⟫ λ _ u. oidc_provider-IsClient h c ⟫ λ valid d.
      let checked : IsPublic h (trim_slashes url) = (url, u, refl) in
      returns {a = (trim_slashes url, record p { oidc = some valid })}
        (inr (k, no_other p.ldap l, (valid, refl, d), s, checked), refl, inr checked)

  kind-Checked :
      (url : Bytes) (p : AuthProviderConfig)
      → Post (Checked url p) (validate_kind h secure_cookies url p)
  kind-Checked url p = elim (Bool-cases (bytes_eq p.kind (codes "ldap"))) [
    | inl e ↦ rw e (ldap-Checked url p ((bytes_eq_iff p.kind (codes "ldap")).0 e))
    | inr e ↦ elim (Bool-cases (bytes_eq p.kind (codes "oidc"))) [
      | inl f ↦ rw (e, f) (oidc-Checked url p ((bytes_eq_iff p.kind (codes "oidc")).0 f))
      | inr f ↦ rw (e, f) fails
    ]
  ]

  -- Providers under distinct names of letters, digits, dots, underscores and hyphens, with what each needs.
  abbrev pub AreProviders : Bytes → List AuthProviderConfig → Type 0
  AreProviders public_url = All (λ (p : AuthProviderConfig).
      (is_provider_name p.name ≡ true) × IsProvider h secure_cookies public_url p)

  pub providers-AreProviders :
      (names : List Bytes) (url : Bytes) (ps : List AuthProviderConfig)
      → Post
          (λ (final, qs).
            AreProviders final qs
            × (IsFresh names (map (λ (q : AuthProviderConfig). q.name) qs) × IsChecked h url final))
          (validate_providers h secure_cookies names url ps)
  unfolding validate_providers
  providers-AreProviders names url [] = returns (tt, ((tt, tt), inl refl))
  providers-AreProviders names url (p ∷ ps) = require-Post (not (is_empty p.name)) ⟫ λ _ _.
      require-Post (is_provider_name p.name) ⟫ λ _ n.
      require-Post (not (is_seen p.name names)) ⟫ λ _ f.
      self-Post (normalize_domains h p.domains) ⟫ λ ds _.
      kind-Checked url (record p { domains = ds }) ⟫ λ (next, q) (c, same, m).
      providers-AreProviders (p.name ∷ names) next ps ⟫ λ (final, qs) (all, (fresh, m')).
      returns {a = (final, q ∷ qs)} (
        ((rw same n, IsProvider-moved h secure_cookies next final q m' c), all),
        (
          rw same (
              (IsFresh-cons_iff p.name names (map (λ (q : AuthProviderConfig). q.name) qs)).0
                (f, fresh)),
          IsChecked-trans h url next final m m',
        ),
      )
