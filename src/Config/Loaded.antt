-- ===== src/Config/Loaded.antt =====
-- internal/config/config.go: what holds of the settings that `Load` returns.
use machmqtt_dashboard.Prelude.{
  ℕ, ◌*◌, ◌≤◌, ◌≡◌, refl, ◌⊎◌, ◌&&◌, not, leb, List, [], ◌∷◌, map, Bool, true, false, some, Bytes,
  length, All, arith,
}
use machmqtt_dashboard.Environments.{Environment, is_empty}
use machmqtt_dashboard.Config.{AuthProviderConfig, Config, Platform}
use machmqtt_dashboard.Config.Checks.{resolve_secret}
use machmqtt_dashboard.Config.Load.{
  second, hour, default_config, alone, overridden, has_port, are_cidrs, is_long, validate_config,
  load,
}
use machmqtt_dashboard.Config.Post.{
  fails, Post, returns, ◌⟫◌, weaken, of_eq, require-Post, self-Post,
}
use machmqtt_dashboard.Config.Valid.{AllDistinct, AreValid, is_empty_iff}
use machmqtt_dashboard.Config.Accepted.{AreProviders, providers-AreProviders}
use machmqtt_dashboard.Config.Decides.{AreRunnable, environments_sound}

-- A secret is not set, or has at least so many bytes.
abbrev pub IsLong : ℕ → Bytes → Type 0
IsLong n secret = (secret ≡ []) ⊎ (n ≤ length secret)

is_long-IsLong : (n : ℕ) (secret : Bytes) → is_long n secret ≡ true → IsLong n secret
is_long-IsLong n secret e = ground (arith, e, is_empty_iff secret)

are_cidrs-All :
    (h : Platform) (cs : List Bytes) → are_cidrs h cs ≡ true → All (λ c. h.is_cidr c ≡ true) cs
unfolding are_cidrs
are_cidrs-All h [] e = tt
are_cidrs-All h (c ∷ cs) e = (ground (arith, e), are_cidrs-All h cs (ground (arith, e)))

-- Settings that a server may be started with, where the file has these environments.
pub record IsSafe (h : Platform) (es : List Environment) (c : Config) : Type 0 where
  pub session_secret : 32 ≤ length c.session_secret
  pub poll_interval : (second ≤ c.poll_interval) × (c.poll_interval ≤ 600 * second)
  pub metrics_retention : (hour ≤ c.metrics_retention) × (c.metrics_retention ≤ 8760 * hour)
  pub metrics_token : IsLong 16 c.metrics_token
  pub bootstrap_password : IsLong 12 c.authentication.local.bootstrap_password
  pub recovery :
      (c.authentication.local.enabled ≡ true) × (c.authentication.local.break_glass_login ≡ true)
  pub proxies : All (λ n. h.is_cidr n ≡ true) c.authentication.trusted_proxy_cidrs
  pub providers :
      AreProviders h c.secure_cookies c.authentication.public_url c.authentication.providers
  pub distinct_providers :
      AllDistinct (map (λ (p : AuthProviderConfig). p.name) c.authentication.providers)
  pub environments : AreValid h es × AreRunnable h es c.environments

module _ (h : Platform) where
  config-IsSafe : (c : Config) → Post (IsSafe h c.environments) (validate_config h c)
  unfolding validate_config
  config-IsSafe c =
      let local = c.authentication.local in
      require-Post (not (is_empty c.session_secret)) ⟫ λ _ _.
      require-Post (leb 32 (length c.session_secret)) ⟫ λ _ s.
      require-Post (leb second c.poll_interval && leb c.poll_interval (600 * second)) ⟫ λ _ i.
      require-Post (leb hour c.metrics_retention && leb c.metrics_retention (8760 * hour)) ⟫ λ _ r.
      require-Post (has_port (h.split_port c.listen)) ⟫ λ _ _.
      self-Post (resolve_secret h c.metrics_token c.metrics_token_file) ⟫ λ token _.
      require-Post (is_long 16 token) ⟫ λ _ t. require-Post local.enabled ⟫ λ _ enabled.
      require-Post local.break_glass_login ⟫ λ _ glass.
      self-Post (resolve_secret h local.bootstrap_password local.bootstrap_password_file)
      ⟫ λ password _. require-Post (is_long 12 password) ⟫ λ _ b.
          require-Post (are_cidrs h c.authentication.trusted_proxy_cidrs) ⟫ λ _ cidrs.
          providers-AreProviders h c.secure_cookies [] c.authentication.public_url
            c.authentication.providers
          ⟫ λ (url, ps) (good, (fresh, _)). environments_sound h c.environments ⟫ λ es e.
              returns
                {a = record c {
                  metrics_token = token;
                  authentication = record c.authentication {
                    public_url = url;
                    local = record local { bootstrap_password = password };
                    providers = ps;
                  };
                  environments = es;
                }}
                (record {
                  session_secret = ground (arith, s);
                  poll_interval = ground (arith, i);
                  metrics_retention = ground (arith, r);
                  metrics_token = is_long-IsLong 16 token t;
                  bootstrap_password = is_long-IsLong 12 password b;
                  recovery = (enabled, glass);
                  proxies = are_cidrs-All h c.authentication.trusted_proxy_cidrs cidrs;
                  providers = good;
                  distinct_providers = fresh.1;
                  environments = (e.1, e.0);
                })

  -- The file at the path is read, decodes to those settings, and has no second document.
  abbrev pub IsRead : Bytes → Config → Type 0
  IsRead path raw =
      (text : Bytes) × (h.read_file path ≡ some text)
      × (h.decode default_config text ≡ some (raw, true))

  alone-Post : (d : Config × Bool) → Post (λ raw. d ≡ (raw, true)) (alone d)
  alone-Post (raw, true) = returns {a = raw} refl
  alone-Post (raw, false) = fails

  load-Post :
      (path : Bytes)
      → Post (λ c. (raw : Config) × IsRead path raw × IsSafe h raw.environments c) (load h path)
  unfolding load
  load-Post path = self-Post (h.read_file path) ⟫ λ text read.
      self-Post (h.decode default_config text) ⟫ λ d decoded. alone-Post d ⟫ λ raw same.
      weaken (λ c safe. (raw, (text, read, rw same at decoded), safe))
        (config-IsSafe (overridden h raw))

  pub load-IsSafe :
      (path : Bytes) (c : Config)
      → load h path ≡ some c
      → (raw : Config) × IsRead path raw × IsSafe h raw.environments c
  load-IsSafe path c e = of_eq (load-Post path) e
