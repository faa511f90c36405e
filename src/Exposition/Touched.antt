-- ===== src/Exposition/Touched.antt =====
-- internal/collector/mqtt_metrics_parser.go: which one family touches a field.
use machmqtt_dashboard.Prelude.{
  ◌≡◌, refl, sym, ◌∙◌, inl, inr, String, List, [], ◌∷◌, Bool, true, false, ◌&&◌, ◌||◌, not, Option,
  none, some, Bytes, bytes_eq, bytes_eq_iff, codes, arith, Bool-cases,
}
use machmqtt_dashboard.Exposition.Actions.{
  Action, Rule, set_int, set_case, add_case, set_reason, set_slot, add_hmac_failure, set_float,
  set_instance,
}
use machmqtt_dashboard.Exposition.Rules.{rules}
use machmqtt_dashboard.Exposition.Names.{find_rule}
use machmqtt_dashboard.Exposition.Fields.{target_of, names}
use machmqtt_dashboard.Exposition.Totals.{may_set, may_set-target_of}

-- No case but that of the family touches the field.
abbrev pub is_only : (Option Action → Option String) → String → Bytes → List Rule → Bool
is_only touches field family [] = true
is_only touches field family ((n, a) ∷ rs) =
    (not (names (touches (some a)) field) || bytes_eq (codes n) family)
    && is_only touches field family rs

is_only-find_rule :
    (touches : Option Action → Option String) (field : String) (name family : Bytes)
    (rs : List Rule)
    → names (touches none) field ≡ false
    → is_only touches field family rs ≡ true
    → names (touches (find_rule name rs)) field ≡ true
    → bytes_eq name family ≡ true
unfolding find_rule
is_only-find_rule touches field name family [] z h k = ground (arith, z, k)
is_only-find_rule touches field name family ((n, a) ∷ rs) z h k =
    elim (Bool-cases (bytes_eq (codes n) name)) [
      | inl e ↦
          rw (sym ((bytes_eq_iff (codes n) name).0 e))
            (ground (arith, h, k, e, Bool-cases (names (touches (some a)) field)))
      | inr e ↦
          is_only-find_rule touches field name family rs z (ground (arith, h))
            (ground (arith, k, e))
    ]

-- A family whose case, and no other, touches the field.
abbrev pub IsTouched : (Option Action → Option String) → String → Bytes → Type 0
IsTouched touches field family =
    (names (touches none) field ≡ false)
    × (is_only touches field family rules ≡ true)
    × (names (touches (find_rule family rules)) field ≡ true)

pub names-family :
    (touches : Option Action → Option String) (field : String) (family name : Bytes)
    → IsTouched touches field family
    → names (touches (find_rule name rules)) field ≡ bytes_eq name family
names-family touches field family name (z, only, own) = elim (Bool-cases (bytes_eq name family)) [
  | inl e ↦ rw ((bytes_eq_iff name family).0 e) own ∙ sym e
  | inr e ↦ elim (Bool-cases (names (touches (find_rule name rules)) field)) [
    | inl k ↦ absurd (ground (arith, e, is_only-find_rule touches field name family rules z only k))
    | inr k ↦ k ∙ sym e
  ]
]

-- The field that each sample of a case sets.
abbrev pub int_of : Option Action → Option String
int_of (some (set_int field flags)) = some field
int_of _ = none

names-int_of :
    (o : Option Action) (line : Bytes) (field : String)
    → names (int_of o) field ≡ true
    → names (target_of o line) field ≡ true
names-int_of none line field h = h
names-int_of (some (set_int f flags)) line field h = h
names-int_of (some (set_case key cases flags)) line field h = ground (arith, h)
names-int_of (some (add_case total key cases)) line field h = ground (arith, h)
names-int_of (some (set_reason f)) line field h = h
names-int_of (some (set_slot f)) line field h = h
names-int_of (some add_hmac_failure) line field h = h
names-int_of (some (set_float f)) line field h = h
names-int_of (some set_instance) line field h = h

-- No case but that of the family may set the field.
abbrev pub is_alone : String → Bytes → List Rule → Bool
is_alone field family [] = true
is_alone field family ((n, a) ∷ rs) =
    (not (may_set a field) || bytes_eq (codes n) family) && is_alone field family rs

is_only-is_alone :
    (line : Bytes) (field : String) (family : Bytes) (rs : List Rule)
    → is_alone field family rs ≡ true
    → is_only (λ o. target_of o line) field family rs ≡ true
is_only-is_alone line field family [] h = refl
is_only-is_alone line field family ((n, a) ∷ rs) h = ground (
  arith,
  is_only-is_alone line field family rs,
  may_set-target_of a line field,
  Bool-cases (names (target_of (some a) line) field),
)

-- A family whose samples, and no others, set the field.
abbrev pub IsAssigned : String → Bytes → Type 0
IsAssigned field family =
    (is_alone field family rules ≡ true) × (names (int_of (find_rule family rules)) field ≡ true)

pub names-set :
    (line : Bytes) (field : String) (family name : Bytes)
    → IsAssigned field family
    → names (target_of (find_rule name rules) line) field ≡ bytes_eq name family
names-set line field family name (alone, own) =
    names-family (λ o. target_of o line) field family name
      (
        refl,
        is_only-is_alone line field family rules alone,
        names-int_of (find_rule family rules) line field own,
      )
