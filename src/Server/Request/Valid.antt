-- ===== src/Server/Request/Valid.antt =====
-- What the handlers of server/api.go ask of the storage.
use consul_timeline.Common.{◌≡◌, refl, sym, ap, ◌∙◌, Option, none, some, List, [], ◌⊎◌, inl, inr}
use consul_timeline.Common.Text.{Text, text_eq}
use consul_timeline.Common.Int.{ℤ, pos}
use consul_timeline.Timeline.Event.{Time}
use consul_timeline.Storage.Query.{Query, FilterError, validate}
use consul_timeline.Storage.Backend.{Backend, Split, parse_split}
use consul_timeline.Storage.Cursor.{Base64, parse_cursor}
use consul_timeline.Server.Api.{
  Answer, answered, handle_events, int_param, parse_filter, read_filters,
}
use consul_timeline.Server.Request.{
  Params, RequestError, bad_from, bad_to, bad_cursor, bad_limit, bad_filter, invalid, expect,
  parse_limit, validated, parse_time, parse_query, handle_histogram, handle_facets,
  answer_histogram, answer_facets, asked_fields,
}

expect-inr :
    {A B : Type 0} (e : RequestError) (o : Option A) (rest : A → RequestError ⊎ B) (x : B)
    → expect e o rest ≡ inr x
    → (a : A) × ((o ≡ some a) × (rest a ≡ inr x))
expect-inr e none rest x h = absurd (cc)
expect-inr e (some a) rest x h = (a, (refl, h))

validated-inr : (r q : Query) → validated r ≡ inr q → validate q ≡ none
validated-inr r q h = step (validate r) refl h
  where
    step :
        (o : Option FilterError)
        → validate r ≡ o
        → (elim o [ some e ↦ inl (invalid e) | none ↦ inr r ]) ≡ inr q
        → validate q ≡ none
    step (some e) p k = absurd (cc)
    step none p k = let same : r ≡ q = cc k in ap validate (sym same) ∙ p

parse_query-valid :
    (trim_space to_lower : Text → Text) (parse_rfc3339 : Text → Option Time) (b64 : Base64)
    (now : Time) (p : Params) (q : Query)
    → parse_query trim_space to_lower parse_rfc3339 b64 now p ≡ inr q
    → validate q ≡ none
unfolding parse_query
parse_query-valid trim_space to_lower parse_rfc3339 b64 now p q h =
    let (from, (_, h1)) =
      expect-inr bad_from (parse_time trim_space to_lower parse_rfc3339 b64 now p.from) _ q h in
    let (to, (_, h2)) =
      expect-inr bad_to (parse_time trim_space to_lower parse_rfc3339 b64 now p.to) _ q h1 in
    let (cursor, (_, h3)) = expect-inr bad_cursor (parse_cursor b64 p.cursor) _ q h2 in
    let (limit, (_, h4)) = expect-inr bad_limit (parse_limit p.limit) _ q h3 in
    let (filters, (_, h5)) =
      expect-inr bad_filter (read_filters (parse_filter trim_space to_lower) [] p.filters) _ q h4 in
    validated-inr _ q h5

-- Two storages in a state that answer alike to every valid query.
pub record AgreeOnValid {S E : Type 0} (b c : Backend S E) (s : S) : Type 0 where
  pub events : (q : Query) → validate q ≡ none → b.events q s ≡ c.events q s
  pub histogram :
      (q : Query) (n : ℤ) (split : Split)
      → validate q ≡ none
      → b.histogram q n split s ≡ c.histogram q n split s
  pub facets :
      (q : Query) (fields : List Text) (n : ℤ)
      → validate q ≡ none
      → b.facets q fields n s ≡ c.facets q fields n s

abbrev pub to_option : RequestError ⊎ Query → Option Query
to_option (inl e) = none
to_option (inr q) = some q

-- No handler's answer depends on what a storage does with an invalid query: over two storages that
-- answer alike to every valid one, the handlers for events, histograms and facets answer alike to
-- every request, whatever its parameters.
pub handlers-AgreeOnValid :
    {S E : Type 0} (trim_space to_lower : Text → Text) (parse_rfc3339 : Text → Option Time)
    (b64 : Base64) (now : Time) (p : Params) (split buckets fields limit : Text) (b c : Backend S E)
    (s : S)
    → AgreeOnValid b c s
    → let r : RequestError ⊎ Query = parse_query trim_space to_lower parse_rfc3339 b64 now p in
      (handle_events b s (to_option r) ≡ handle_events c s (to_option r))
      × ((handle_histogram b s r split buckets ≡ handle_histogram c s r split buckets)
          × (handle_facets b s r fields limit ≡ handle_facets c s r fields limit))
handlers-AgreeOnValid {S = S} {E = E} trim_space to_lower parse_rfc3339 b64 now p split buckets
      fields limit b c s same =
    go (parse_query trim_space to_lower parse_rfc3339 b64 now p)
      (λ q h. parse_query-valid trim_space to_lower parse_rfc3339 b64 now p q h)
  where
    by_split :
        (q : Query) (o : Option Split)
        → validate q ≡ none
        → (elim o [
          | none ↦ Answer.bad_request
          | some by ↦ answer_histogram by (b.histogram q (int_param buckets (pos 60)) by s)
        ])
          ≡ (elim o [
            | none ↦ Answer.bad_request
            | some by ↦ answer_histogram by (c.histogram q (int_param buckets (pos 60)) by s)
          ])
    by_split q none v = refl
    by_split q (some by) v =
        ap (answer_histogram by) (same.histogram q (int_param buckets (pos 60)) by v)

    go :
        (r : RequestError ⊎ Query)
        → ((q : Query) → r ≡ inr q → validate q ≡ none)
        → (handle_events b s (to_option r) ≡ handle_events c s (to_option r))
          × ((handle_histogram b s r split buckets ≡ handle_histogram c s r split buckets)
              × (handle_facets b s r fields limit ≡ handle_facets c s r fields limit))
    go (inl e) v =
        unfold handle_events in
        unfold handle_histogram in unfold handle_facets in (refl, (refl, refl))
    go (inr q) v =
        unfold handle_events in
        unfold handle_histogram in
        unfold handle_facets in
        (
          ap (λ o. elim o [ inl e ↦ Answer.internal_error | inr page ↦ answered page ])
              (same.events q (v q refl)),
          (
            by_split q (parse_split split) (v q refl),
            ap (answer_facets (asked_fields fields))
                (same.facets q (asked_fields fields) (int_param limit (pos 10)) (v q refl)),
          ),
        )
