-- ===== src/Exposition/Owners.antt =====
-- internal/collector/mqtt_metrics_parser.go: from which family a field is read.
use machmqtt_dashboard.Prelude.{
  if◌then◌else◌, String, str_eq, List, [], ◌∷◌, Bool, true, false, ◌&&◌, ◌||◌, Option, none, some,
  Bytes, codes,
}
use machmqtt_dashboard.Exposition.{extract_label}
use machmqtt_dashboard.Exposition.Actions.{
  Action, Rule, set_int, set_case, add_case, set_reason, set_slot, add_hmac_failure, set_float,
  set_instance,
}
use machmqtt_dashboard.Exposition.Names.{find_case}

abbrev pub has_field : List String → String → Bool
has_field [] field = false
has_field (f ∷ fs) field = str_eq f field || has_field fs field

-- The fields that the samples of a case write, flags of presence apart.
abbrev fields_of_cases : List (String × String) → List String
fields_of_cases [] = []
fields_of_cases ((l, f) ∷ cases) = f ∷ fields_of_cases cases

abbrev fields_of : Action → List String
fields_of (set_int f flags) = f ∷ []
fields_of (set_case key cases flags) = fields_of_cases cases
fields_of (add_case total key cases) = total ∷ fields_of_cases cases
fields_of (set_reason f) = f ∷ []
fields_of (set_slot f) = f ∷ []
fields_of add_hmac_failure = "HMACFailuresBySource" ∷ []
fields_of (set_float f) = f ∷ []
fields_of set_instance = "InstanceID" ∷ []

abbrev field_of_case : Option String → List String
field_of_case none = []
field_of_case (some f) = f ∷ []

-- The fields that one sample writes: an integer, a total and the part of it that the label names, a map
-- of reasons or of sources, a number of a pool slot, a float or the instance.
abbrev pub written : Option Action → Bytes → List String
written none line = []
written (some (set_case key cases flags)) line =
    field_of_case (find_case (extract_label line (codes key)) cases)
written (some (add_case total key cases)) line =
    total ∷ field_of_case (find_case (extract_label line (codes key)) cases)
written (some (set_int f flags)) line = f ∷ []
written (some (set_reason f)) line = f ∷ []
written (some (set_slot f)) line = f ∷ []
written (some add_hmac_failure) line = "HMACFailuresBySource" ∷ []
written (some (set_float f)) line = f ∷ []
written (some set_instance) line = "InstanceID" ∷ []

-- The first family with a case that writes the field.
unfoldable owner : String → List Rule → String
owner field [] = ""
owner field ((n, a) ∷ rs) = if has_field (fields_of a) field then n else owner field rs

-- Every field that the cases write has its family as the owner.
abbrev all_owned : List Rule → String → List String → Bool
all_owned rs n [] = true
all_owned rs n (f ∷ fs) = str_eq (owner f rs) n && all_owned rs n fs

unfoldable owned_by : List Rule → List Rule → Bool
owned_by all [] = true
owned_by all ((n, a) ∷ rs) = all_owned all n (fields_of a) && owned_by all rs
