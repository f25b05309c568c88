-- ===== src/Server/Request.antt =====
-- server/api.go: how a whole request is read, and the handlers for metadata, histograms, facets and
-- suggestions.
pub mod Valid
use consul_timeline.Common.{
  ℕ, suc, ◌+◌, ◌-◌, ◌*◌, Bool, Option, none, some, List, [], ◌∷◌, ◌++◌, ◌⊎◌, inl, inr,
  if◌then◌else◌, ltb, map, any, ◌==◌,
}
use consul_timeline.Common.Text.{Text, text_eq, text_ltb, bytes}
use consul_timeline.Common.Int.{ℤ, pos, negsuc, sub_ℕ}
use consul_timeline.Common.Decimal.{atoi, int_limit}
use consul_timeline.Common.Split.{split_on}
use consul_timeline.Common.Sort.{sort}
use consul_timeline.Common.Assoc.{lookup, insert}
use consul_timeline.Timeline.Status.{kind_string, status_string}
use consul_timeline.Timeline.Event.{Time, zero_time}
use consul_timeline.Storage.Query.{Query, FilterError, validate}
use consul_timeline.Storage.Cursor.{Base64, parse_cursor, of_unix_milli}
use consul_timeline.Storage.Fields.{facet_fields}
use consul_timeline.Storage.Backend.{Backend, Bucket, FacetValue, Facets, Split, parse_split}
use consul_timeline.Server.Api.{
  parse_filter, read_filters, is_digits, int_param, suggest_values, Answer, answered, bad_request,
  internal_error,
}

-- The parameters of a request; `Get` answers "" for a missing one.
pub record Params : Type 0 where
  pub dc : Text
  pub from : Text
  pub to : Text
  pub text : Text
  pub cursor : Text
  pub limit : Text
  pub filters : List Text

-- The errors of `parseQuery`.
pub data RequestError : Type 0 where
  bad_from bad_to bad_cursor bad_limit bad_filter : RequestError
  invalid : FilterError → RequestError

-- The seconds from Go's zero time to the epoch of Unix.
abbrev pub unix_seconds : ℕ
unix_seconds = 62_135_596_800

-- `strconv.ParseInt` on digits, which answers the largest number where the error is ignored.
abbrev or_largest : Option ℤ → ℤ
or_largest (some n) = n
or_largest none = pos (int_limit - 1)

abbrev of_number : ℤ → Time
of_number (pos n) =
    if ltb 1_000_000_000_000 n then of_unix_milli (pos n) else (unix_seconds + n) * 1_000_000_000
of_number (negsuc n) = (unix_seconds - suc n) * 1_000_000_000

abbrev pub expect :
    {A B : Type 0} → RequestError → Option A → (A → RequestError ⊎ B) → RequestError ⊎ B
expect e none rest = inl e
expect e (some a) rest = rest a

-- `strconv.Atoi` of the limit, 0 where there is none.
unfoldable pub parse_limit : Text → Option ℤ
parse_limit l = if l == [] then some (pos 0) else atoi l

-- The end of `parseQuery`.
abbrev pub validated : Query → RequestError ⊎ Query
validated q = elim (validate q) [ some e ↦ inl (invalid e) | none ↦ inr q ]

abbrev pub real_datacenter : Text → Text
real_datacenter dc = if dc == bytes "all" then [] else dc

-- `parse_rfc3339` is `time.Parse` with the layout `RFC3339Nano`; `trim_space` and `to_lower` are
-- functions of `strings`.
module _ (trim_space to_lower : Text → Text) (parse_rfc3339 : Text → Option Time)
    (b64 : Base64) where
  -- `parseTime` at a time; `none` is its error.
  unfoldable pub parse_time : Time → Text → Option Time
  unfolding is_digits of_unix_milli
  parse_time now raw =
      let s = trim_space raw in
      if s == []
      then some zero_time
      else if s == bytes "now"
      then some now
      else if is_digits s
      then some (of_number (or_largest (atoi s)))
      else parse_rfc3339 s

  -- `parseQuery` at a time.
  unfoldable pub parse_query : Time → Params → RequestError ⊎ Query
  unfolding parse_time parse_cursor parse_limit read_filters parse_filter validate
  parse_query now p = expect bad_from (parse_time now p.from) (λ from.
      expect bad_to (parse_time now p.to) (λ to.
        expect bad_cursor (parse_cursor b64 p.cursor) (λ cursor.
          expect bad_limit (parse_limit p.limit) (λ limit.
            expect bad_filter (read_filters (parse_filter trim_space to_lower) [] p.filters)
              (λ filters. validated (record {
                datacenter = real_datacenter p.dc;
                from = from;
                to = to;
                filters = filters;
                text = trim_space p.text;
                cursor = cursor;
                limit = limit;
              }))))))

-- `metaResponse`, without the constants of the server and of storage/storage.go.
pub record Meta : Type 0 where
  pub local_datacenter : Text
  pub datacenters : List Text
  pub faceted : List Text
  pub kinds : List Text
  pub statuses : List Text

abbrev with_local : Text → List Text → List Text
with_local local dcs =
    if local == [] then dcs else if any (λ dc. dc == local) dcs then dcs else dcs ++ (local ∷ [])

abbrev bucket_duration : List Bucket → ℤ
bucket_duration (a ∷ b ∷ bs) =
    if ltb b.start a.start then sub_ℕ b.start a.start else pos (b.start - a.start)
bucket_duration bs = pos 0

-- The loop of `handleFacets`: a field with no values has the empty list.
unfoldable pub fill_fields :
    List Text → List (Text × List FacetValue) → List (Text × List FacetValue)
unfolding lookup insert
fill_fields [] m = m
fill_fields (f ∷ fs) m = elim (lookup f m) [
  | none ↦ fill_fields fs (insert f [] m)
  | some vs ↦ fill_fields fs m
]

abbrev pub asked_fields : Text → List Text
asked_fields f = if f == [] then facet_fields else split_on b',' f

-- `histogramResponse`, with the duration of a bucket in nanoseconds.
pub record HistogramAnswer : Type 0 where
  pub duration : ℤ
  pub sampled : Bool
  pub split : Split
  pub buckets : List Bucket

abbrev pub answer_histogram :
    {E : Type 0} → Split → E ⊎ (List Bucket × Bool) → Answer HistogramAnswer
answer_histogram split (inl e) = internal_error
answer_histogram split (inr (buckets, sampled)) = answered (record {
  duration = bucket_duration buckets;
  sampled = sampled;
  split = split;
  buckets = buckets;
})

abbrev pub answer_facets : {E : Type 0} → List Text → E ⊎ Facets → Answer Facets
answer_facets fields (inl e) = bad_request
answer_facets fields (inr x) = answered (record x { values = fill_fields fields x.values })

abbrev answer_values : Option (List Text) → Option (Answer (List Text))
answer_values none = none
answer_values (some vs) = some (answered vs)

module _ {S E : Type 0} (b : Backend S E) (s : S) where
  -- `handleMeta`, by the local datacenter of the watcher.
  unfoldable pub handle_meta : Text → Answer Meta
  unfolding sort text_ltb kind_string status_string
  handle_meta local = elim (b.datacenters s) [
    | inl e ↦ internal_error
    | inr dcs ↦ answered (record {
      local_datacenter = local;
      datacenters = sort text_ltb (with_local local dcs);
      faceted = facet_fields;
      kinds = map kind_string (pos 1 ∷ pos 2 ∷ pos 3 ∷ []);
      statuses = map status_string (pos 1 ∷ pos 2 ∷ pos 3 ∷ pos 4 ∷ pos 5 ∷ []);
    })
  ]

  -- `handleHistogram`, given what `parseQuery` returns and the parameters `split` and `buckets`.
  unfoldable pub handle_histogram : RequestError ⊎ Query → Text → Text → Answer HistogramAnswer
  unfolding parse_split int_param
  handle_histogram (inl e) split buckets = bad_request
  handle_histogram (inr q) split buckets = elim (parse_split split) [
    | none ↦ bad_request
    | some by ↦ answer_histogram by (b.histogram q (int_param buckets (pos 60)) by s)
  ]

  -- `handleFacets`, given what `parseQuery` returns and the parameters `fields` and `limit`.
  unfoldable pub handle_facets : RequestError ⊎ Query → Text → Text → Answer Facets
  unfolding split_on int_param fill_fields
  handle_facets (inl e) fields limit = bad_request
  handle_facets (inr q) fields limit =
      answer_facets (asked_fields fields)
        (b.facets q (asked_fields fields) (int_param limit (pos 10)) s)

  -- `handleSuggest`, by the local datacenter and the names of the watcher; `none` is a panic.
  unfoldable pub handle_suggest :
      Text → Text → Text → Text → Text → List Text → List Text → Option (Answer (List Text))
  unfolding int_param suggest_values
  handle_suggest local dc field prefix limit services nodes =
      elim (b.suggest (real_datacenter dc) field prefix (int_param limit (pos 20)) s) [
        | inl e ↦ some bad_request
        | inr values ↦ answer_values (
            suggest_values local (real_datacenter dc) field prefix (int_param limit (pos 20)) values
              services nodes)
      ]
