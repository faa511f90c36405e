-- ===== src/Exposition/Buckets.antt =====
-- internal/collector/mqtt_metrics_parser.go: `bucketsCumulativeToRaw`.
use machmqtt_dashboard.Prelude.{
  ℕ, ◌+◌, ◌^◌, ◌≤◌, ◌<◌, ◌≡◌, refl, ◌⊎◌, inl, inr, List, [], ◌∷◌, arith, Int64, sub_i64, max_i64,
  max_i64-left, max_i64-right, sub_i64-add,
}

-- The first loop: a count below the one before it is carried forward.
unfoldable pub carry : Int64 → List Int64 → List Int64
carry before [] = []
carry before (c ∷ cs) = max_i64 c before ∷ carry (max_i64 c before) cs

-- The second loop, which goes down and so subtracts what the first has left.
unfoldable pub difference : Int64 → List Int64 → List Int64
difference before [] = []
difference before (c ∷ cs) = sub_i64 c before ∷ difference c cs

-- Both leave the first bucket as it is.
abbrev pub after_first : (Int64 → List Int64 → List Int64) → List Int64 → List Int64
after_first f [] = []
after_first f (c ∷ cs) = c ∷ f c cs

unfoldable pub buckets_cumulative_to_raw : List Int64 → List Int64
unfolding carry difference
buckets_cumulative_to_raw cum = after_first difference (after_first carry cum)

-- What a broker renders of its counts: under each bound the observations up to it. A bound that it does
-- not render counts nothing and reads as anything up to the total, such as zero.
abbrev pub Scraped : ℕ → List ℕ → List ℕ → Type 0
Scraped total [] [] = Unit
Scraped total (count ∷ counts) (c ∷ read) =
    ((c ≡ total + count) ⊎ ((count ≡ 0) × (c ≤ total))) × Scraped (total + count) counts read
Scraped total _ _ = ⊥

unfoldable pub sum : List ℕ → ℕ
sum [] = 0
sum (n ∷ ns) = n + sum ns

max_i64-carried :
    (total count c : ℕ)
    → (c ≡ total + count) ⊎ ((count ≡ 0) × (c ≤ total))
    → total + count < 2 ^ 63
    → max_i64 c total ≡ total + count
max_i64-carried total count c (inl e) h = rw e (max_i64-left (total + count) total (omega arith) h)
max_i64-carried total count c (inr (e, k)) h =
    ground (arith, max_i64-right c total k (omega arith), e)

difference-carry :
    (total : ℕ) (counts read : List ℕ)
    → total + sum counts < 2 ^ 63
    → Scraped total counts read
    → difference total (carry total read) ≡ counts
unfolding difference carry sum
difference-carry total [] [] h s = refl
difference-carry total (count ∷ counts) [] h s = absurd s
difference-carry total [] (c ∷ read) h s = absurd s
difference-carry total (count ∷ counts) (c ∷ read) h (b, s) = ground (
  arith,
  max_i64-carried total count c b (omega arith),
  sub_i64-add total count (omega arith),
  difference-carry (total + count) counts read (omega arith) s,
)

-- The counts of a histogram, at most 2 ^ 63 - 1 in all, are got back from what a broker renders of them:
-- exactly where it renders the bound, and zero, with the count of the next bound exact, where it does not.
pub buckets_cumulative_to_raw-Scraped :
    (counts read : List ℕ)
    → sum counts < 2 ^ 63
    → Scraped 0 counts read
    → buckets_cumulative_to_raw read ≡ counts
unfolding buckets_cumulative_to_raw sum carry difference
buckets_cumulative_to_raw-Scraped [] [] h s = refl
buckets_cumulative_to_raw-Scraped [] (c ∷ read) h s = absurd s
buckets_cumulative_to_raw-Scraped (count ∷ counts) [] h s = absurd s
buckets_cumulative_to_raw-Scraped (count ∷ counts) (c ∷ read) h (b, s) =
    let first : c ≡ count = ground arith in
    let zero_plus : 0 + count ≡ count = omega arith in
    ground (arith, first, difference-carry count counts read (omega arith) (rw zero_plus at s))
