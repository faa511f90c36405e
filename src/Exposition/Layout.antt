-- ===== src/Exposition/Layout.antt =====
-- internal/collector/mqtt_metrics_parser.go, `UnmarshalJSON` of a bucket array, and the layouts of
-- mqtt_types.go. The JSON array is given; a bound is the literal that it is written with.
use machmqtt_dashboard.Prelude.{
  ℕ, ◌+◌, ◌^◌, ◌<◌, ◌==◌, ◌≡◌, refl, inl, inr, if◌then◌else◌, String, str_eq, List, [], ◌∷◌, Option,
  none, some, length, set, replicate, Int64, arith,
}
use machmqtt_dashboard.Exposition.Names.{histogram_bounds, index_of}
use machmqtt_dashboard.Exposition.Metrics.{mqtt_histogram_bucket_count}
use machmqtt_dashboard.Exposition.Buckets.{
  sum, buckets_cumulative_to_raw, buckets_cumulative_to_raw-Scraped,
}

abbrev pub legacy_histogram_bounds : List String
legacy_histogram_bounds =
    "0.0005" ∷ "0.001" ∷ "0.005" ∷ "0.01" ∷ "0.05" ∷ "0.1" ∷ "0.5" ∷ "1" ∷ "5" ∷ []

abbrev pub set_at : Option ℕ → Int64 → List Int64 → List Int64
set_at none n h = h
set_at (some i) n h = set h i n

-- The counts of an older layout, each at the place of its bound in the current one.
unfoldable pub spread : List String → List Int64 → List Int64 → List Int64
unfolding index_of
spread (bound ∷ bounds) (n ∷ ns) h =
    spread bounds ns (set_at (index_of (λ b. str_eq b bound) histogram_bounds) n h)
spread _ _ h = h

-- `MQTTHistogramBuckets.UnmarshalJSON`
unfoldable pub read_buckets : List Int64 → List Int64
unfolding spread
read_buckets raw =
    let none_yet = replicate mqtt_histogram_bucket_count 0 in
    let older = spread legacy_histogram_bounds raw none_yet in
    if length raw == mqtt_histogram_bucket_count
    then raw
    else if length raw == length legacy_histogram_bounds
    then older
    else none_yet

-- What an older broker renders for a scrape: the running sums of its nine counts, and nothing under the
-- bound that it does not have, which reads as zero.
abbrev pub scrape_older : (a b c d e f g h i : ℕ) → List ℕ
scrape_older a b c d e f g h i =
    a
    ∷ (a + b)
    ∷ (a + b + c)
    ∷ (a + b + c + d)
    ∷ 0
    ∷ (a + b + c + d + e)
    ∷ (a + b + c + d + e + f)
    ∷ (a + b + c + d + e + f + g)
    ∷ (a + b + c + d + e + f + g + h)
    ∷ (a + b + c + d + e + f + g + h + i)
    ∷ []

-- The counts of an older broker are the same whether it pushes them or they are scraped, when they are at
-- most 2 ^ 63 - 1 in all: its pushed array of nine, put at the bounds of the current layout, is what is got
-- back from the sums that it renders, so that a change of the source does not move a history's buckets.
pub read_buckets-scrape_older :
    (a b c d e f g h i : ℕ)
    → a + b + c + d + e + f + g + h + i < 2 ^ 63
    → buckets_cumulative_to_raw (scrape_older a b c d e f g h i)
      ≡ read_buckets (a ∷ b ∷ c ∷ d ∷ e ∷ f ∷ g ∷ h ∷ i ∷ [])
unfolding read_buckets sum
read_buckets-scrape_older a b c d e f g h i k =
    buckets_cumulative_to_raw-Scraped (a ∷ b ∷ c ∷ d ∷ 0 ∷ e ∷ f ∷ g ∷ h ∷ i ∷ [])
      (scrape_older a b c d e f g h i) (omega arith)
      (
        inl (omega arith),
        (
          inl (omega arith),
          (
            inl (omega arith),
            (
              inl (omega arith),
              (
                inr (refl, omega arith),
                (
                  inl (omega arith),
                  (
                    inl (omega arith),
                    (inl (omega arith), (inl (omega arith), (inl (omega arith), tt))),
                  ),
                ),
              ),
            ),
          ),
        ),
      )
