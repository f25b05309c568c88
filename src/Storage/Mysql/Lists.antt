-- ===== src/Storage/Mysql/Lists.antt =====
-- storage/mysql/query.go: `Facets`, `Suggest` and `Datacenters`.
use consul_timeline.Common.{
  ℕ, zero, suc, ◌-◌, Bool, true, Option, none, some, List, [], ◌∷◌, ◌++◌, ◌⊎◌, inl, inr,
  if◌then◌else◌, ltb, leb, map, take, any, length, ◌==◌,
}
use consul_timeline.Common.Text.{Text, text_eq, text_ltb, bytes}
use consul_timeline.Common.Int.{ℤ, pos, negsuc}
use consul_timeline.Common.Assoc.{RangeOrder, lookup, insert}
use consul_timeline.Common.Counts.{count_values}
use consul_timeline.Common.Sort.{sort}
use consul_timeline.Timeline.Status.{Status, status_string}
use consul_timeline.Timeline.Event.{Event, Time}
use consul_timeline.Storage.Query.{
  Query, FilterError, validate, field_datacenter, field_service, field_node, field_team, field_app,
  field_check, field_tag, field_to, field_from, field_healthy,
}
use consul_timeline.Storage.Fields.{field_values}
use consul_timeline.Storage.Backend.{FacetValue, Facets}
use consul_timeline.Storage.Memory.{or_default}
use consul_timeline.Storage.Facets.{facet_precedes, to_value}
use consul_timeline.Storage.Mysql.Where.{
  Arg, text_arg, int_arg, time_arg, build_where, column, escape_like,
}
use consul_timeline.Storage.Mysql.Tags.{Json, parse_tags}
use consul_timeline.Storage.Mysql.Histogram.{Found, refused, found, sample}

-- A row of `Facets`: the columns in an event, the headline status, and the tags, "" where they are not
-- asked for.
pub record FacetRow : Type 0 where
  pub event : Event
  pub headline : Status
  pub tags : Text

pub data FacetError (E : Type 0) : Type 0 where
  wrong_query : FilterError → FacetError E
  no_facet : Text → FacetError E
  failed : E → FacetError E
  wrong_tags : FacetError E

-- A field without a facet: unknown, the old status or the healthy count.
abbrev pub has_no_facet : Text → Bool
has_no_facet f =
    if column f == bytes "" then true else if f == field_from then true else f == field_healthy

-- The check of the fields; `none` if there is a facet on each.
unfoldable pub first_without : List Text → Option Text
unfolding column
first_without [] = none
first_without (f ∷ fs) = if has_no_facet f then some f else first_without fs

abbrev pub tags_column : List Text → Text
tags_column fields = if any (λ f. f == field_tag) fields then bytes ", tags" else []

-- The statement of `Facets`.
unfoldable pub facets_query : Query → Time → List Text → ℕ → Text × List Arg
unfolding build_where
facets_query q now fields size =
    let (where_text, args) = build_where q now in
    (
      bytes
            "SELECT dc, kind, new_status, team, app, version, service_name, node_name, check_name, check_type"
          ++ (tags_column fields
              ++ (bytes " FROM events_v2 WHERE "
                  ++ (where_text ++ bytes " ORDER BY time DESC LIMIT ?"))),
      args ++ (int_arg (pos size) ∷ []),
    )

-- The loop over the rows, which scans each; `none` is tags that do not parse.
unfoldable pub facet_rows : Json → List FacetRow → Option (List FacetRow)
unfolding parse_tags
facet_rows json [] = some []
facet_rows json (r ∷ rs) =
    let rest = facet_rows json rs in
    elim (parse_tags json r.tags) [
      | none ↦ none
      | some ts ↦ elim rest [
        | none ↦ none
        | some more ↦ some (record r { event = record r.event { tags = ts } } ∷ more)
      ]
    ]

-- The values of a row for a field.
unfoldable pub row_values : Text → FacetRow → List Text
unfolding field_values status_string
row_values f r = if f == field_to then status_string r.headline ∷ [] else field_values r.event f

abbrev pub all_row_values : Text → List FacetRow → List Text
all_row_values f [] = []
all_row_values f (r ∷ rs) = row_values f r ++ all_row_values f rs

-- `topValues`.
unfoldable pub top_values : RangeOrder Text ℕ → List (Text × ℕ) → ℕ → List FacetValue
unfolding sort text_ltb
top_values order counts limit = take limit (sort facet_precedes (map to_value (order.range counts)))

unfoldable pub fill_values :
    RangeOrder Text ℕ
    → ℕ
    → List FacetRow
    → List Text
    → List (Text × List FacetValue)
    → List (Text × List FacetValue)
unfolding top_values count_values insert row_values
fill_values order limit rs [] m = m
fill_values order limit rs (f ∷ fs) m =
    fill_values order limit rs fs
      (insert f (top_values order (count_values [] (all_row_values f rs)) limit) m)

abbrev pub with_facets : {E : Type 0} → Option E → Option Facets → FacetError E ⊎ Facets
with_facets last none = inl wrong_tags
with_facets (some e) (some x) = inl (failed e)
with_facets none (some x) = inr x

module _ {E : Type 0} (json : Json) (order : RangeOrder Text ℕ)
    (query : Text × List Arg → Found FacetRow E) where
  abbrev pub facets_of : ℕ → ℕ → List Text → List FacetRow → Option Facets
  facets_of limit size fields rs = elim (facet_rows json rs) [
    | none ↦ none
    | some scanned ↦ some (record {
      values = fill_values order limit scanned fields [];
      sample_size = length scanned;
      sampled = leb size (length scanned);
    })
  ]

  -- `Facets` at a time, with `cfg.FacetSample`.
  unfoldable pub sql_facets : ℤ → Query → Time → List Text → ℤ → FacetError E ⊎ Facets
  unfolding validate first_without facets_query facet_rows fill_values sample
  sql_facets facet_sample q now fields limit = elim (validate q) [
    | some e ↦ inl (wrong_query e)
    | none ↦ elim (first_without fields) [
      | some f ↦ inl (no_facet f)
      | none ↦ elim (query (facets_query q now fields (sample facet_sample))) [
        | refused e ↦ inl (failed e)
        | found rs last ↦
            with_facets last (facets_of (or_default limit 10) (sample facet_sample) fields rs)
      ]
    ]
  ]

-- A day, in nanoseconds.
abbrev pub day : ℕ
day = 86_400_000_000_000

abbrev pub suggest_limit : ℤ → ℕ
suggest_limit (negsuc n) = 20
suggest_limit (pos zero) = 20
suggest_limit (pos (suc n)) = if ltb 100 (suc n) then 20 else suc n

-- `dcCond`: what the datacenter adds to the text, and to the arguments.
abbrev pub dc_cond : Text → Text → Text × List Arg
dc_cond [] col = ([], [])
dc_cond (c ∷ dc) col = (col ++ bytes " = ? AND ", text_arg (c ∷ dc) ∷ [])

-- A field that is a column of the table of instances.
abbrev pub is_instance_field : Text → Bool
is_instance_field f =
    if f == field_service
    then true
    else if f == field_node
    then true
    else if f == field_team
    then true
    else f == field_app

-- The statement of `Suggest`; `none` is a field without suggestions.
unfoldable pub suggest_query : Text → Text → Text → ℕ → Time → Option (Text × List Arg)
unfolding column escape_like
suggest_query dc field prefix limit now =
    let pattern = text_arg (escape_like prefix ++ bytes "%") in
    let (dc_text, dc_args) = dc_cond dc (bytes "dc") in
    let (tag_text, tag_args) = dc_cond dc (bytes "i.dc") in
    let col = column field in
    if is_instance_field field
    then some (
      bytes "SELECT DISTINCT "
          ++ (col
              ++ (bytes " FROM instances WHERE "
                  ++ (dc_text
                      ++ (col
                          ++ (bytes " LIKE ? AND "
                              ++ (col
                                  ++ (bytes " <> '' ORDER BY " ++ (col ++ bytes " LIMIT ?")))))))),
      dc_args ++ (pattern ∷ int_arg (pos limit) ∷ []),
    )
    else if field == field_check
    then some (
      bytes "SELECT DISTINCT check_name FROM events_v2 WHERE "
          ++ (dc_text ++ bytes "check_name LIKE ? AND time > ? ORDER BY check_name LIMIT ?"),
      dc_args ++ (pattern ∷ time_arg (now - day) ∷ int_arg (pos limit) ∷ []),
    )
    else if field == field_datacenter
    then some (
      bytes "SELECT DISTINCT dc FROM instances WHERE dc LIKE ? ORDER BY dc LIMIT ?",
      pattern ∷ int_arg (pos limit) ∷ [],
    )
    else if field == field_tag
    then some (
      bytes
            "SELECT DISTINCT jt.tag FROM instances i, JSON_TABLE(i.tags, '$[*]' COLUMNS (tag VARCHAR(255) PATH '$')) jt WHERE "
          ++ (tag_text ++ bytes "i.tags IS NOT NULL AND jt.tag LIKE ? ORDER BY jt.tag LIMIT ?"),
      tag_args ++ (pattern ∷ int_arg (pos limit) ∷ []),
    )
    else none

pub data SuggestError (E : Type 0) : Type 0 where
  no_suggestions : Text → SuggestError E
  suggest_failed : E → SuggestError E

abbrev or_stopped : {E : Type 0} → Found Text E → SuggestError E ⊎ List Text
or_stopped (refused e) = inl (suggest_failed e)
or_stopped (found vs none) = inr vs
or_stopped (found vs (some e)) = inl (suggest_failed e)

-- The loop of `Datacenters`: each name once, in the order of its first row.
unfoldable pub each_once : List (Text × Bool) → List Text → List Text
unfolding lookup insert
each_once seen [] = []
each_once seen (v ∷ vs) =
    let skip = each_once seen vs in
    let rest = each_once (insert v true seen) vs in
    elim (lookup v seen) [ some b ↦ skip | none ↦ v ∷ rest ]

module _ {E : Type 0} (query : Text × List Arg → Found Text E) where
  -- `Suggest` at a time.
  unfoldable pub sql_suggest : Text → Text → Text → ℤ → Time → SuggestError E ⊎ List Text
  unfolding suggest_query
  sql_suggest dc field prefix limit now =
      elim (suggest_query dc field prefix (suggest_limit limit) now) [
        | none ↦ inl (no_suggestions field)
        | some statement ↦ or_stopped (query statement)
      ]

  -- `Datacenters` at a time.
  unfoldable pub sql_datacenters : Time → E ⊎ List Text
  unfolding each_once sort text_ltb
  sql_datacenters now =
      elim (query (
        bytes
            "SELECT DISTINCT dc FROM instances UNION SELECT DISTINCT dc FROM events_rollup WHERE minute > ?",
        time_arg (now - day) ∷ [],
      )) [
        | refused e ↦ inl e
        | found vs last ↦ elim last [
          | none ↦ inr (sort text_ltb (each_once [] vs))
          | some e ↦ inl e
        ]
      ]
