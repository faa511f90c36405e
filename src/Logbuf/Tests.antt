-- ===== src/Logbuf/Tests.antt =====
-- Runs and instances of internal/logbuf/logbuf.go.
use Prim.Native.Nat.{ℕ, zero, suc}
use machmqtt_dashboard.Prelude.{◌≡◌, refl, List, [], ◌∷◌, map, String, insert}
use machmqtt_dashboard.Logbuf.{
  Record, Handler, Inner, new_core, entries, make_entry, add, add_attrs, handle,
}
use machmqtt_dashboard.Logbuf.Refine.{log_all, logged, latest, entries-log_all}

abbrev level_name : ℕ → String
level_name zero = "INFO"
level_name (suc n) = "WARN"

abbrev plain : Handler (Unit {0}) ℕ
plain = record { inner = tt; attrs = ("cluster", 7) ∷ []; group = "" }

abbrev stderr : Inner (Unit {0}) ℕ ℕ (Unit {0})
stderr = record {
  enabled = λ _ _. mathlib.Core.Bool.true;
  handle = λ _ _. tt;
  with_attrs = λ i _. i;
  with_group = λ i _. i;
}

abbrev message : String → Record ℕ ℕ
message m = record { time = 1; level = 0; message = m; attrs = ("conn", 3) ∷ [] }

abbrev three_calls : List (Handler (Unit {0}) ℕ × Record ℕ ℕ)
three_calls = (plain, message "a") ∷ (plain, message "b") ∷ (plain, message "c") ∷ []

two_kept :
    map (λ e. e.message) (entries (log_all stderr level_name (new_core 2) three_calls))
    ≡ "b" ∷ "c" ∷ []
unfolding log_all handle new_core entries add make_entry add_attrs insert
two_kept = refl

entries-log_all_example :
    entries (log_all stderr level_name (new_core 2) three_calls)
    ≡ latest 2 (logged stderr level_name three_calls)
entries-log_all_example = entries-log_all stderr level_name 2 three_calls
