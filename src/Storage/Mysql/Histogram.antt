-- ===== src/Storage/Mysql/Histogram.antt =====
-- storage/mysql/query.go: `Histogram`, from the rollup or from a sample of the events.
pub mod Bounds
use consul_timeline.Common.{
  ℕ, zero, suc, ◌+◌, ◌-◌, ◌*◌, ◌/◌, ◌%◌, ◌≡◌, min, Bool, true, false, ◌&&◌, not, Option, none, some,
  List, [], ◌∷◌, ◌++◌, ◌⊎◌, inl, inr, if◌then◌else◌, ltb, leb, nat_beq, ◌==◌,
}
use consul_timeline.Common.Text.{Text, text_eq, bytes}
use consul_timeline.Common.Int.{ℤ, pos, negsuc}
use consul_timeline.Common.Decimal.{atoi}
use consul_timeline.Timeline.Status.{status_string}
use consul_timeline.Timeline.Event.{Time}
use consul_timeline.Storage.Query.{Filter, Query, FilterError, validate, field_datacenter}
use consul_timeline.Storage.Backend.{Split, split_status, split_datacenter, Bucket}
use consul_timeline.Storage.Memory.{or_default}
use consul_timeline.Storage.Histogram.{
  second, hour, span_of, truncated, at_least, width_of, bucket_count, empty_buckets, slot, add_at,
}
use consul_timeline.Storage.Mysql.Where.{
  Arg, text_arg, int_arg, time_arg, bounds, build_where, datacenter_sql, filters_sql, min_time,
  or_zero,
}

-- A minute, in nanoseconds.
abbrev pub minute : ℕ
minute = 60_000_000_000

abbrev pub rollup_min_range : ℕ
rollup_min_range = 6 * hour

-- What the database answers to a query: an error, or rows and the error after which no more came.
pub data Found (R E : Type 0) : Type 0 where
  refused : E → Found R E
  found : List R → Option E → Found R E

-- The errors of the reads: of the query, or of the database.
pub data QueryError (E : Type 0) : Type 0 where
  invalid : FilterError → QueryError E
  database : E → QueryError E

-- `rollupFilters`.
unfoldable pub rollup_filters : List Filter → Bool
rollup_filters [] = true
rollup_filters (f ∷ fs) = if f.field == field_datacenter then rollup_filters fs else false

-- The conversion of an `int` to the eight bits of a `Status`.
abbrev pub eight_bits : ℤ → ℤ
eight_bits (pos n) = if ltb (n % 256) 128 then pos (n % 256) else negsuc (255 - n % 256)
eight_bits (negsuc n) = if ltb (n % 256) 128 then negsuc (n % 256) else pos (255 - n % 256)

-- `splitKey`.
unfoldable pub split_key : Split → Text → Text
unfolding status_string
split_key split_datacenter raw = raw
split_key split_status raw = status_string (eight_bits (or_zero (atoi raw)))

-- `sample`, by `cfg.FacetSample`.
unfoldable pub sample : ℤ → ℕ
sample (negsuc n) = 100000
sample (pos zero) = 100000
sample (pos (suc n)) = suc n

abbrev pub key_column : Split → Text
key_column split_datacenter = bytes "dc"
key_column split_status = bytes "new_status"

-- The number of buckets asked for, at most 500.
abbrev pub asked : ℤ → ℕ
asked buckets = min (or_default buckets 60) 500

-- The width of a bucket, whole minutes where the rollup is used.
unfoldable pub sql_width : Bool → ℕ → ℕ → ℕ
unfolding width_of
sql_width use_rollup span buckets =
    let width = width_of span buckets in
    if use_rollup then at_least minute (truncated minute width) else width

abbrev pub and_all : List Text → Text
and_all [] = []
and_all (c ∷ cs) = bytes " AND " ++ (c ++ and_all cs)

-- The statement on the rollup.
unfoldable pub rollup_query : Query → Time → Time → Split → Text × List Arg
unfolding datacenter_sql filters_sql
rollup_query q from to split =
    let (dc_conds, dc_args) = datacenter_sql q.datacenter in
    let (filter_conds, filter_args) = filters_sql q.filters in
    (
      bytes "SELECT minute, "
          ++ (key_column split
              ++ (bytes ", SUM(n) FROM events_rollup WHERE minute BETWEEN ? AND ?"
                  ++ (and_all dc_conds
                      ++ (and_all filter_conds
                          ++ (bytes " GROUP BY minute, " ++ key_column split))))),
      time_arg (truncated minute from) ∷ time_arg to ∷ (dc_args ++ filter_args),
    )

-- The statement on the events, of which the newest are a sample. `unix` is `Time.Unix`.
unfoldable pub sample_query : (Time → ℤ) → Query → Time → Time → ℕ → Split → ℕ → Text × List Arg
unfolding build_where
sample_query unix q now from width split size =
    let (where_text, args) = build_where q now in
    (
      bytes "SELECT FLOOR((UNIX_TIMESTAMP(time) - ?) / ?) AS b, k, COUNT(*) FROM (SELECT time, "
          ++ (key_column split
              ++ (bytes " AS k FROM events_v2 WHERE "
                  ++ (where_text ++ bytes " ORDER BY time DESC LIMIT ?) t GROUP BY b, k"))),
      int_arg (unix from) ∷ int_arg (pos (width / second)) ∷ (args ++ (int_arg (pos size) ∷ [])),
    )

-- The loop over the rows of the rollup.
unfoldable pub add_minutes : Split → Time → ℕ → List (Time × (Text × ℕ)) → List Bucket → List Bucket
unfolding slot add_at split_key
add_minutes split from width [] out = out
add_minutes split from width ((at, (key, count)) ∷ rs) out =
    add_minutes split from width rs (add_at out (slot from width at) (split_key split key) count)

-- `from.Add(time.Duration(b)*width)`.
abbrev pub shifted : Time → ℕ → ℤ → Time
shifted from width (pos b) = from + b * width
shifted from width (negsuc b) = from - suc b * width

-- The loop over the rows of the sample, with the number of events that they count.
unfoldable pub add_sample : Split → Time → ℕ → List (ℤ × (Text × ℕ)) → List Bucket → List Bucket × ℕ
unfolding slot add_at split_key
add_sample split from width [] out = (out, 0)
add_sample split from width ((b, (key, count)) ∷ rs) out =
    let (filled, total) =
      add_sample split from width rs
        (add_at out (slot from width (shifted from width b)) (split_key split key) count) in
    (filled, count + total)

abbrev pub or_failed : {A E : Type 0} → Option E → A → QueryError E ⊎ A
or_failed none a = inr a
or_failed (some e) a = inl (database e)

-- `by_minute` and `by_bucket` are the database, on the statements of the rollup and of the sample.
module _ {E : Type 0} (unix : Time → ℤ) (facet_sample : ℤ)
    (by_minute : Text × List Arg → Found (Time × (Text × ℕ)) E)
    (by_bucket : Text × List Arg → Found (ℤ × (Text × ℕ)) E) where
  abbrev pub from_rollup :
      Query → Time → Time → ℕ → Split → List Bucket → QueryError E ⊎ (List Bucket × Bool)
  from_rollup q from to width split out = elim (by_minute (rollup_query q from to split)) [
    | refused e ↦ inl (database e)
    | found rs last ↦ or_failed last (add_minutes split from width rs out, false)
  ]

  abbrev pub from_sample :
      Query → Time → Time → ℕ → Split → List Bucket → QueryError E ⊎ (List Bucket × Bool)
  from_sample q now from width split out =
      elim (by_bucket (sample_query unix q now from width split (sample facet_sample))) [
        | refused e ↦ inl (database e)
        | found rs last ↦
            let (filled, total) = add_sample split from width rs out in
            or_failed last (filled, leb (sample facet_sample) total)
      ]

  -- `Histogram` at a time; `none` is a panic.
  unfoldable pub sql_histogram :
      Query → Time → ℤ → Split → Option (QueryError E ⊎ (List Bucket × Bool))
  unfolding validate bounds rollup_filters sql_width bucket_count empty_buckets rollup_query
      sample_query add_minutes add_sample sample
  sql_histogram q now buckets split = elim (validate q) [
    | some e ↦ some (inl (invalid e))
    | none ↦
        let (start, to) = bounds q now in
        let from = if nat_beq start min_time then to - hour else start in
        let span = span_of from to in
        let use_rollup =
          rollup_filters q.filters && (q.text == bytes "" && leb rollup_min_range span) in
        let width = sql_width use_rollup span (asked buckets) in
        if nat_beq span 0 then some (inr ([], false)) else elim (bucket_count span width) [
          | none ↦ none
          | some n ↦
              let out = empty_buckets from width n in
              some (
                if use_rollup
                then from_rollup q from to width split out
                else from_sample q now from width split out)
        ]
  ]
