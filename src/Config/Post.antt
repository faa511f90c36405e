-- ===== src/Config/Post.antt =====
-- What holds of a result, if there is one: a rule for each step of a `do` block.
use machmqtt_dashboard.Prelude.{
  ◌≡◌, refl, Bool, true, false, Option, none, some, is_some, arith, ◌>>=◌,
}
use machmqtt_dashboard.Config.Checks.{require}

pub data Post {ℓ} {A : Type 0} (P : A → Type ℓ) : Option A → Type ℓ where
  returns : {a : A} → P a → Post P (some a)
  fails : Post P none

module _ {ℓ κ} {A : Type 0} {P : A → Type ℓ} where
  infixl 1 ◌⟫◌
  pub ◌⟫◌ :
      {B : Type 0} {Q : B → Type κ} {r : Option A} {f : A → Option B}
      → Post P r
      → ((a : A) → P a → Post Q (f a))
      → Post Q (r >>= f)
  returns {a} p ⟫ k = k a p
  fails ⟫ k = fails

  pub weaken : {Q : A → Type κ} {r : Option A} → ((a : A) → P a → Q a) → Post P r → Post Q r
  weaken g (returns p) = returns (g _ p)
  weaken g fails = fails

module _ {ℓ} {A : Type 0} {P : A → Type ℓ} where
  pub found : {r : Option A} → Post P r → is_some r ≡ true → (a : A) × P a
  found (returns {a} p) h = (a, p)
  found fails h = absurd (ground (arith, h))

  pub of_some : {a : A} → Post P (some a) → P a
  of_some (returns p) = p

  pub of_eq : {r : Option A} {a : A} → Post P r → r ≡ some a → P a
  of_eq p e = of_some (rw e at p)

pub require-Post : (b : Bool) → Post (λ _. b ≡ true) (require b)
unfolding require
require-Post true = returns refl
require-Post false = fails

-- Of a step that is not looked into: only that it gave what it gave.
pub self-Post : {A : Type 0} (r : Option A) → Post (λ a. r ≡ some a) r
self-Post none = fails
self-Post (some a) = returns refl
