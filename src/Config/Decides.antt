-- ===== src/Config/Decides.antt =====
-- internal/config/config.go, `validateEnvironments`: it accepts exactly the valid environments.
use machmqtt_dashboard.Prelude.{
  ◌≡◌, ◌↔◌, refl, not, List, [], ◌∷◌, map, true, some, Bytes, is_some, All,
}
use machmqtt_dashboard.Environments.{Environment, is_empty}
use machmqtt_dashboard.Config.{Platform}
use machmqtt_dashboard.Config.Checks.{require, is_seen}
use machmqtt_dashboard.Config.Clusters.{validate_each, validate_environments}
use machmqtt_dashboard.Config.Post.{Post, returns, ◌⟫◌, weaken, found, require-Post}
use machmqtt_dashboard.Config.Valid.{
  IsValid, AreValid, IsFresh, not-is_empty_iff, IsFresh-cons_iff, IsFresh-nil,
}
use machmqtt_dashboard.Config.Loops.{IsRunnable, environment_sound, environment_complete}

abbrev names_of : List Environment → List Bytes
names_of = map (λ (e : Environment). e.name)

-- The environments are the same, in their order, with their certificates loaded.
abbrev pub AreRunnable : Platform → List Environment → List Environment → Type 0
AreRunnable h [] [] = Unit
AreRunnable h (e ∷ es) (v ∷ vs) = IsRunnable h e v × AreRunnable h es vs
AreRunnable h _ _ = ⊥

module _ (h : Platform) where
  each_sound :
      (names : List Bytes) (es : List Environment)
      → Post
          (λ valid. AreRunnable h es valid × (All (IsValid h) es × IsFresh names (names_of es)))
          (validate_each h names es)
  unfolding validate_each
  each_sound names [] = returns (tt, (tt, (tt, tt)))
  each_sound names (e ∷ es) = require-Post (not (is_empty e.name)) ⟫ λ _ n.
      require-Post (not (is_seen e.name names)) ⟫ λ _ f.
      environment_sound h e ((not-is_empty_iff e.name).0 n) ⟫ λ _ v.
      each_sound (e.name ∷ names) es ⟫ λ _ r.
      returns
        ((v.0, r.0), ((v.1, r.1.0), (IsFresh-cons_iff e.name names (names_of es)).0 (f, r.1.1)))

  each_complete :
      (names : List Bytes) (es : List Environment)
      → All (IsValid h) es
      → IsFresh names (names_of es)
      → (valid : List Environment) × (validate_each h names es ≡ some valid)
  unfolding validate_each require
  each_complete names [] v f = ([], refl)
  each_complete names (e ∷ es) v f =
      let k = (IsFresh-cons_iff e.name names (names_of es)).1 f in
      let (valid, a) = environment_complete h e v.0 in
      let (rest, b) = each_complete (e.name ∷ names) es v.1 k.1 in
      (valid ∷ rest, rw ((not-is_empty_iff e.name).1 v.0.name, k.0, a, b) refl)

  pub environments_sound :
      (es : List Environment)
      → Post (λ valid. AreRunnable h es valid × AreValid h es) (validate_environments h es)
  environments_sound es = weaken (λ _ r. (r.0, (r.1.0, r.1.1.1))) (each_sound [] es)

  -- The clusters of a settings file are accepted exactly when they are in order: named, under distinct names,
  -- each with servers at distinct addresses and bridges under distinct names, where each address is an http
  -- or https URL without credentials, path, query or fragment; with ports in range, and certificates that load.
  pub validate_environments-accepts :
      (es : List Environment) → (is_some (validate_environments h es) ≡ true) ↔ AreValid h es
  validate_environments-accepts es = (
    λ a. (found (environments_sound es) a).1.1,
    λ v. let (valid, e) = each_complete [] es v.0 (IsFresh-nil _ v.1) in rw e refl,
  )
