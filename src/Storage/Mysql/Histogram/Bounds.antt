-- ===== src/Storage/Mysql/Histogram/Bounds.antt =====
-- How many buckets storage/mysql/query.go makes.
use consul_timeline.Common.{ℕ, ◌*◌, ◌≤◌, ◌⊎◌, Bool, List, length, inl, inr}
use consul_timeline.Common.Text.{Text, text_eq}
use consul_timeline.Common.Int.{ℤ}
use consul_timeline.Storage.Query.{Query}
use consul_timeline.Storage.Backend.{Bucket}
use consul_timeline.Storage.Mysql.Histogram.{sql_width, asked, QueryError}

-- A number of buckets is enough for a span, and within the bounds.
abbrev Fits : Bool → ℕ → ℤ → ℕ → Type 0
Fits use_rollup span buckets n =
    (n ≤ 2 * asked buckets) × ((n ≤ 1000) × (span ≤ sql_width use_rollup span (asked buckets) * n))

-- What a histogram may be: an error, or buckets within the bounds.
abbrev pub IsBounded : {E : Type 0} → ℤ → QueryError E ⊎ (List Bucket × Bool) → Type 0
IsBounded buckets (inl e) = Unit
IsBounded buckets (inr (out, sampled)) = (length out ≤ 2 * asked buckets) × (length out ≤ 1000)
