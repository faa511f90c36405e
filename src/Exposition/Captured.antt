-- ===== src/Exposition/Captured.antt =====
-- internal/collector/mqtt_metrics_parser.go: what becomes of the samples without a field.
use machmqtt_dashboard.Prelude.{
  ℕ, ◌≡◌, refl, ◌∙◌, ap, List, [], ◌∷◌, ◌++◌, true, false, some, get, Bytes, bytes_eq_refl, split,
  trim_space, starts_word, All,
}
use machmqtt_dashboard.Exposition.{parse_metric_line}
use machmqtt_dashboard.Exposition.Labels.{IsPlain, PlainNames, block, cut-name}
use machmqtt_dashboard.Exposition.Samples.{
  IsWord, sample, label_text, block_end-block, parse_metric_line-sample,
}
use machmqtt_dashboard.Exposition.Metrics.{Floats, Metrics, series_key, series_labels, series_block}
use machmqtt_dashboard.Exposition.Parse.{
  read_line, read_lines, finish, parse_prometheus_metrics, no_metrics,
}
use machmqtt_dashboard.Exposition.Kept.{is_sample, is_unknown, is_captured_as, get-read_line}

-- A series as it is written: the name, with the labels between braces.
abbrev pub series : Bytes → List (Bytes × Bytes) → Bytes
series name ls = name ++ (b'{' ∷ label_text ls ++ b'}' ∷ [])

series_key-sample :
    (name : Bytes) (ls : List (Bytes × Bytes)) (value tail : Bytes)
    → IsPlain name
    → PlainNames ls
    → series_key name (sample name ls value tail) ≡ series name ls
unfolding series_key
series_key-sample name ls value tail p q =
    let behind = b' ' ∷ value ++ tail in
    ap (λ o. name ++ series_labels o) (cut-name b'{' name (block ls behind) refl p)
    ∙ ap (λ o. name ++ series_block o) (block_end-block ls behind q)

module _ {F : Type 0} (fl : Floats F) where
  get-after :
      (key : Bytes) (after : List Bytes) (m : Metrics F)
      → All (λ l. is_captured_as key (trim_space l) ≡ false) after
      → get key (read_lines fl after m).uncurated ≡ get key m.uncurated
  unfolding read_lines
  get-after key [] m h = refl
  get-after key (l ∷ after) m h =
      get-after key after (read_line fl (trim_space l) m) h.1
      ∙ rw (get-read_line fl key (trim_space l) m, h.0) refl

  get-read_lines :
      (key value : Bytes) (before : List Bytes) (line : Bytes) (after : List Bytes) (m : Metrics F)
      → is_captured_as key (trim_space line) ≡ true
      → (parse_metric_line (trim_space line)).1 ≡ value
      → All (λ l. is_captured_as key (trim_space l) ≡ false) after
      → get key (read_lines fl (before ++ line ∷ after) m).uncurated ≡ some (fl.parse_float value).0
  unfolding read_lines
  get-read_lines key value [] line after m c v h =
      get-after key after (read_line fl (trim_space line) m) h
      ∙ rw (get-read_line fl key (trim_space line) m, c, v) refl
  get-read_lines key value (b ∷ before) line after m c v h =
      get-read_lines key value before line after (read_line fl (trim_space b) m) c v h

  is_captured_as-sample :
      (name : Bytes) (ls : List (Bytes × Bytes)) (c : ℕ) (word tail : Bytes)
      → IsPlain name
      → PlainNames ls
      → IsWord (c ∷ word)
      → starts_word tail ≡ false
      → is_sample (sample name ls (c ∷ word) tail) ≡ true
      → is_unknown (sample name ls (c ∷ word) tail) ≡ true
      → is_captured_as (series name ls) (sample name ls (c ∷ word) tail) ≡ true
  is_captured_as-sample name ls c word tail p q w t s u =
      rw
        (
          s,
          u,
          ap (λ r. r.0) (parse_metric_line-sample name ls [] c word tail p q w t).0,
          series_key-sample name ls (c ∷ word) tail p q,
        )
        (bytes_eq_refl (series name ls))

  -- No labelled sample of the bridge's is silently dropped: a sample, as it is written with a plain name,
  -- any labels with plain names and a value, whose family the dashboard does not know, bucket series
  -- aside, or whose label has a value that it does not know, is kept with its value among the uncurated
  -- series of the result, under its name with its labels as they are written, whatever else the body has,
  -- unless a later line is such a sample of the same series.
  pub captured-parse_prometheus_metrics :
      (body : Bytes) (before : List Bytes) (line : Bytes) (after : List Bytes) (name : Bytes)
      (ls : List (Bytes × Bytes)) (c : ℕ) (word tail : Bytes)
      → split b'\n' body ≡ before ++ line ∷ after
      → trim_space line ≡ sample name ls (c ∷ word) tail
      → IsPlain name
      → PlainNames ls
      → IsWord (c ∷ word)
      → starts_word tail ≡ false
      → is_sample (trim_space line) ≡ true
      → is_unknown (trim_space line) ≡ true
      → All (λ l. is_captured_as (series name ls) (trim_space l) ≡ false) after
      → get (series name ls) (parse_prometheus_metrics fl body).uncurated
        ≡ some (fl.parse_float (c ∷ word)).0
  unfolding parse_prometheus_metrics finish
  captured-parse_prometheus_metrics body before line after name ls c word tail e r p q w t s u h =
      let read = (parse_metric_line-sample name ls [] c word tail p q w t).0 in
      rw e (
        get-read_lines (series name ls) (c ∷ word) before line after (no_metrics fl)
          (rw r (is_captured_as-sample name ls c word tail p q w t (rw r at s) (rw r at u)))
          (rw r (ap (λ v. v.1) read)) h)
