-- ===== src/Storage/Mysql/Where.antt =====
-- storage/mysql/query.go: the WHERE clause of a query, as the text and the arguments of a statement.
pub mod Marks
pub mod Shape
pub mod Like
pub mod Meaning
pub mod Values
pub mod Rows
use consul_timeline.Common.{
  ℕ, ◌-◌, Bool, true, false, Option, none, some, List, [], ◌∷◌, ◌++◌, ◌==◌, if◌then◌else◌, ltb,
  nat_beq, length, take, map,
}
use consul_timeline.Common.Text.{Text, text_eq, text_beq, bytes, has_suffix}
use consul_timeline.Common.Int.{ℤ, pos, negsuc, ltb_ℤ}
use consul_timeline.Common.Decimal.{atoi}
use consul_timeline.Timeline.Status.{parse_kind, parse_status}
use consul_timeline.Timeline.Event.{Time}
use consul_timeline.Storage.Query.{
  Filter, Query, is_zero, field_datacenter, field_service, field_node, field_check, field_kind,
  field_tag, field_team, field_app, field_version, field_check_type, field_to, field_from,
  field_healthy,
}
use consul_timeline.Storage.Match.{star}

-- An argument of a statement, which the driver puts in the place of a `?`, quoted as its type asks.
pub data Arg : Type 0 where
  text_arg : Text → Arg
  int_arg : ℤ → Arg
  time_arg : Time → Arg
  null_arg : Arg

abbrev pub default_limit : ℕ
default_limit = 100

abbrev pub max_limit : ℕ
max_limit = 1000

-- The first of January 2000, in nanoseconds since Go's zero time: 730,119 days.
abbrev pub min_time : Time
min_time = 63_082_281_600_000_000_000

-- The map `columns`, in which a missing key reads as "".
unfoldable pub column : Text → Text
unfolding text_beq
column f =
    if f == field_datacenter
    then bytes "dc"
    else if f == field_service
    then bytes "service_name"
    else if f == field_node
    then bytes "node_name"
    else if f == field_check
    then bytes "check_name"
    else if f == field_team
    then bytes "team"
    else if f == field_app
    then bytes "app"
    else if f == field_version
    then bytes "version"
    else if f == field_check_type
    then bytes "check_type"
    else if f == field_kind
    then bytes "kind"
    else if f == field_tag
    then bytes "tags"
    else if f == field_to
    then bytes "new_status"
    else if f == field_from
    then bytes "old_status"
    else if f == field_healthy
    then bytes "new_healthy"
    else []

-- The three replacements of `escapeLike`: a backslash before a backslash, `%` or `_`.
abbrev pub is_wild : ℕ → Bool
is_wild c = if nat_beq c b'\\' then true else if nat_beq c b'%' then true else nat_beq c b'_'

unfoldable pub escape_like : Text → Text
escape_like [] = []
escape_like (c ∷ s) = (if is_wild c then b'\\' ∷ c ∷ [] else c ∷ []) ++ escape_like s

-- `clampLimit`.
unfoldable pub clamp_limit : ℤ → ℕ
clamp_limit (negsuc n) = default_limit
clamp_limit (pos n) =
    if nat_beq n 0 then default_limit else if ltb max_limit n then max_limit else n

-- `bounds`.
unfoldable pub bounds : Query → Time → Time × Time
bounds q now =
    (if ltb q.from min_time then min_time else q.from, if is_zero q.to then now else q.to)

-- `strings.Join`.
unfoldable pub join : Text → List Text → Text
join sep [] = []
join sep (a ∷ []) = a
join sep (a ∷ b ∷ s) = a ++ (sep ++ join sep (b ∷ s))

abbrev pub or_zero : Option ℤ → ℤ
or_zero none = pos 0
or_zero (some n) = n

-- `enumValue`.
unfoldable pub enum_value : Text → Text → ℤ
unfolding text_beq
enum_value field v =
    if field == field_kind
    then (parse_kind v).0
    else if field == field_to
    then (parse_status v).0
    else if field == field_from
    then (parse_status v).0
    else or_zero (atoi v)

-- The fields of the first case of the `switch`, whose columns hold numbers.
abbrev pub is_enum : Text → Bool
is_enum f =
    if f == field_kind
    then true
    else if f == field_to
    then true
    else if f == field_from
    then true
    else f == field_healthy

-- `escapeLike(v[:len(v)-1])+"%"`.
abbrev pub prefix_pattern : Text → Text
prefix_pattern v = escape_like (take (length v - 1) v) ++ bytes "%"

abbrev pub value_arg : Text → Arg
value_arg v = if has_suffix v star then text_arg (prefix_pattern v) else text_arg v

abbrev pub tag_part : Bool → Text
tag_part true = bytes "JSON_SEARCH(tags, 'one', ?) IS NOT NULL"
tag_part false = bytes "JSON_CONTAINS(tags, JSON_QUOTE(?))"

abbrev pub name_part : Text → Bool → Text
name_part col true = col ++ bytes " LIKE ?"
name_part col false = col ++ bytes " = ?"

abbrev pub negated : Bool → Text → Text
negated true s = bytes "NOT " ++ s
negated false s = s

-- `"(" + strings.Join(parts, " OR ") + ")"`.
abbrev pub any_part : List Text → Text
any_part parts = bytes "(" ++ (join (bytes " OR ") parts ++ bytes ")")

abbrev pub in_part : Text → List Text → Text
in_part col parts = col ++ (bytes " IN (" ++ (join (bytes ",") parts ++ bytes ")"))

abbrev pub is_pattern : Text → Bool
is_pattern v = has_suffix v star

-- `filterSQL`.
unfoldable pub filter_sql : Filter → Text × List Arg
unfolding column escape_like join enum_value has_suffix text_beq
filter_sql f =
    if is_enum f.field
    then (
      negated f.not (in_part (column f.field) (map (λ (v : Text). bytes "?") f.values)),
      map (λ v. int_arg (enum_value f.field v)) f.values,
    )
    else if f.field == field_tag
    then (
      negated f.not (any_part (map (λ v. tag_part (is_pattern v)) f.values)),
      map value_arg f.values,
    )
    else (
      negated f.not (any_part (map (λ v. name_part (column f.field) (is_pattern v)) f.values)),
      map value_arg f.values,
    )

-- The loop over the filters: `conds` and `args` grow together.
unfoldable pub filters_sql : List Filter → List Text × List Arg
unfolding filter_sql
filters_sql [] = ([], [])
filters_sql (f ∷ fs) =
    let (sql, args) = filter_sql f in
    let (rest, more) = filters_sql fs in (sql ∷ rest, args ++ more)

-- What the datacenter adds to `conds` and `args`.
unfoldable pub datacenter_sql : Text → List Text × List Arg
datacenter_sql [] = ([], [])
datacenter_sql (c ∷ dc) = (bytes "dc = ?" ∷ [], text_arg (c ∷ dc) ∷ [])

-- `"%" + escapeLike(q.Text) + "%"`.
abbrev pub text_pattern : Text → Text
text_pattern t = bytes "%" ++ (escape_like t ++ bytes "%")

abbrev pub text_condition : Text
text_condition =
    bytes "(check_output LIKE ? OR service_name LIKE ? OR node_name LIKE ? OR check_name LIKE ?)"

-- And what the text adds.
unfoldable pub text_sql : Text → List Text × List Arg
unfolding escape_like
text_sql [] = ([], [])
text_sql (c ∷ t) =
    let p = text_arg (text_pattern (c ∷ t)) in (text_condition ∷ [], p ∷ p ∷ p ∷ p ∷ [])

-- `buildWhere`.
unfoldable pub build_where : Query → Time → Text × List Arg
unfolding bounds datacenter_sql filters_sql text_sql join
build_where q now =
    let (from, to) = bounds q now in
    let (dc_conds, dc_args) = datacenter_sql q.datacenter in
    let (filter_conds, filter_args) = filters_sql q.filters in
    let (text_conds, text_args) = text_sql q.text in
    (
      join (bytes " AND ")
          (bytes "time BETWEEN ? AND ?" ∷ (dc_conds ++ (filter_conds ++ text_conds))),
      time_arg from ∷ time_arg to ∷ (dc_args ++ (filter_args ++ text_args)),
    )
