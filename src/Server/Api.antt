-- ===== src/Server/Api.antt =====
-- server/api.go: how the filters of a request are read, and what the handlers for events and
-- suggestions answer.
use consul_timeline.Common.{
  Bool, true, false, not, ◌&&◌, ◌||◌, Option, none, some, List, [], ◌∷◌, ◌++◌, ◌==◌, if◌then◌else◌,
  leb, nat_beq, drop, take, keep, inl, inr,
}
use consul_timeline.Common.Text.{Text, text_eq, text_beq, text_ltb, bytes, has_prefix}
use consul_timeline.Common.Int.{ℤ, pos, negsuc}
use consul_timeline.Common.Decimal.{atoi}
use consul_timeline.Common.Sort.{sort}
use consul_timeline.Timeline.Event.{Instance}
use consul_timeline.Storage.Query.{Query, Filter, Page, field_service, field_node}
use consul_timeline.Storage.Backend.{Backend}

-- `strings.Cut(raw, ":")`.
unfoldable pub cut : Text → Option (Text × Text)
cut [] = none
cut (c ∷ s) =
    let rest = cut s in
    if nat_beq c 58 then some ([], s) else elim rest [ none ↦ none | some (a, b) ↦ some (c ∷ a, b) ]

abbrev pub filter_of : (Text → Text) → Bool → Option (Text × Text) → Option Filter
filter_of to_lower negated none = none
filter_of to_lower negated (some (field, value)) =
    if field == []
    then none
    else if value == []
    then none
    else some (record { field = to_lower field; values = value ∷ []; not = negated })

-- `parseFilter`; `none` is its error.
unfoldable pub parse_filter : (Text → Text) → (Text → Text) → Text → Option Filter
unfolding cut has_prefix
parse_filter trim_space to_lower raw =
    if has_prefix (trim_space raw) (bytes "-")
    then filter_of to_lower true (cut (drop 1 (trim_space raw)))
    else filter_of to_lower false (cut (trim_space raw))

abbrev pub bool_beq : Bool → Bool → Bool
bool_beq true b = b
bool_beq false b = not b

abbrev pub is_same : Filter → Filter → Bool
is_same g f = g.field == f.field && bool_beq g.not f.not

-- The loop of `parseQuery` over its filters: the first one with the same field and sign takes the
-- new values; with none such, the new filter is appended.
unfoldable pub merge_filter : List Filter → Filter → List Filter
merge_filter [] f = f ∷ []
merge_filter (g ∷ gs) f =
    if is_same g f then record g { values = g.values ++ f.values } ∷ gs else g ∷ merge_filter gs f

-- The loop over the `f` parameters, which stops at the first malformed one.
unfoldable pub read_filters :
    (Text → Option Filter) → List Filter → List Text → Option (List Filter)
unfolding merge_filter
read_filters parse fs [] = some fs
read_filters parse fs (raw ∷ raws) = elim (parse raw) [
  | none ↦ none
  | some f ↦ read_filters parse (merge_filter fs f) raws
]

-- `isDigits`.
unfoldable pub all_digits : Text → Bool
all_digits [] = true
all_digits (c ∷ s) = leb 48 c && leb c 57 && all_digits s

unfoldable pub is_digits : Text → Bool
unfolding all_digits
is_digits s = if s == [] then false else all_digits s

-- `intParam`, by the value of the parameter, which is "" where it is missing.
unfoldable pub int_param : Text → ℤ → ℤ
int_param v def = if v == [] then def else elim (atoi v) [ none ↦ def | some n ↦ n ]

-- The loop that drops repetitions in a sorted list.
unfoldable pub unique : List Text → List Text
unfolding text_beq
unique [] = []
unique (a ∷ []) = a ∷ []
unique (a ∷ b ∷ s) = let rest = unique (b ∷ s) in if a == b then rest else a ∷ rest

-- What is registered for a field right now.
abbrev pub live_names : Text → List Text → List Text → List Text
live_names field services nodes =
    if field == field_service then services else if field == field_node then nodes else []

-- The values of `handleSuggest`, given what the storage suggests and what the watcher knows. `dc` is
-- the datacenter after "all" has become "". A negative limit, which the storage takes for its default,
-- makes the slice expression panic: `none`.
unfoldable pub suggest_values :
    Text → Text → Text → Text → ℤ → List Text → List Text → List Text → Option (List Text)
unfolding unique sort text_ltb has_prefix
suggest_values local dc field prefix limit stored services nodes =
    let live : List Text =
      if dc == [] || dc == local
      then keep (λ n. has_prefix n prefix) (live_names field services nodes)
      else [] in
    let out : List Text = unique (sort text_ltb (stored ++ live)) in
    elim limit [ pos n ↦ some (take n out) | negsuc n ↦ none ]

-- A request answered: the values, or the status of an error.
pub data Answer (A : Type 0) : Type 0 where
  answered : A → Answer A
  bad_request : Answer A
  internal_error : Answer A
  not_found : Answer A

-- `handleEvents`, given what `parseQuery` returns.
unfoldable pub handle_events : {S E : Type 0} → Backend S E → S → Option Query → Answer Page
handle_events b s none = bad_request
handle_events b s (some q) = elim (b.events q s) [ inl e ↦ internal_error | inr p ↦ answered p ]

-- `handleInstance`.
unfoldable pub handle_instance :
    {S E : Type 0} → Backend S E → S → Text → Text → Text → Answer Instance
handle_instance b s dc node id = elim (b.instance_of dc node id s) [
  | inl e ↦ internal_error
  | inr none ↦ not_found
  | inr (some i) ↦ answered i
]

-- Of filters: on the same field, and both negated or both not.
abbrev is_at : Filter → Filter → Bool
is_at k f =
    if k.not then f.not && text_beq f.field k.field else not f.not && text_beq f.field k.field

-- The values that the first filter with a field and sign accepts.
pub values_at : Filter → List Filter → List Text
values_at k [] = []
values_at k (g ∷ gs) = if is_at k g then g.values else values_at k gs

-- The values given for a field and sign, one parameter after the other.
pub given : Filter → List Filter → List Text
given k [] = []
given k (f ∷ fs) = if is_at k f then f.values ++ given k fs else given k fs

-- The filters that the parameters spell.
pub parsed : (Text → Option Filter) → List Text → List Filter
parsed parse [] = []
parsed parse (raw ∷ raws) = elim (parse raw) [
  | none ↦ parsed parse raws
  | some f ↦ f ∷ parsed parse raws
]
