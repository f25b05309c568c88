-- ===== src/Tests/Server.antt =====
-- Examples on server/stream.go.
use consul_timeline.Common.{◌≡◌, refl, [], ◌∷◌, ◌++◌, List, some, false, keep}
use consul_timeline.Common.Text.{bytes, text_beq, has_suffix}
use consul_timeline.Storage.Match.{
  matches, match_filters, match_filter, match_one, match_name, match_text,
}
use consul_timeline.Server.Hub.{
  Hub, Client, Call, publishes, subscribes, serves, closes, new_hub, new_client, run,
}
use consul_timeline.Server.Hub.Safety.{IsSafe, run_never_panics, new_client-IsSafe}
use consul_timeline.Server.Hub.Delivery.{run-delivers, published}
use consul_timeline.Common.{true, Option}
use consul_timeline.Common.Text.{Text}
use consul_timeline.Storage.Query.{Filter}
use consul_timeline.Server.Api.{parse_filter}
use consul_timeline.Common.{none, Option, arith}
use consul_timeline.Common.Int.{pos}
use consul_timeline.Timeline.Event.{Time}
use consul_timeline.Storage.Query.{Cursor}
use consul_timeline.Storage.Cursor.{
  Base64, cursor_string, parse_cursor, in_milliseconds, parse_cursor-cursor_string,
}
use consul_timeline.Server.Request.{
  Params, RequestError, parse_query, handle_histogram, handle_facets,
}
use consul_timeline.Server.Request.Valid.{to_option, handlers-AgreeOnValid}
use consul_timeline.Server.Api.{handle_events}
use consul_timeline.Storage.Query.{Query, Page, FilterError, validate, zero_cursor}
use consul_timeline.Storage.Backend.{Backend, Facets}
use consul_timeline.Common.{◌⊎◌, inl, inr, ap, sym}
use consul_timeline.Tests.Data.{same_case, event_at, web_query}

-- A client subscribes, two events come, one is read, and the hub closes.
abbrev session : List Call
session =
    subscribes web_query
    ∷ publishes (event_at (bytes "web") 10)
    ∷ publishes (event_at (bytes "db") 11)
    ∷ serves 0
    ∷ serves 0
    ∷ closes
    ∷ serves 0
    ∷ []

run_never_panics_example : (g : Hub) × (run same_case new_hub session ≡ some g) × IsSafe g
run_never_panics_example = run_never_panics same_case session

abbrev watched : Hub
watched = record { clients = new_client web_query false ∷ []; closed = false }

abbrev deliveries : List Call
deliveries =
    publishes (event_at (bytes "web") 10)
    ∷ serves 0
    ∷ publishes (event_at (bytes "db") 11)
    ∷ serves 0
    ∷ []

abbrev reached : Client
reached = record (new_client web_query false) { written = event_at (bytes "web") 10 ∷ [] }

run-delivers_example :
    reached.written ++ reached.buffer
    ≡ [] ++ keep (λ e. matches same_case e web_query) (published deliveries)
unfolding run matches match_filters match_filter match_one match_name match_text text_beq has_suffix
run-delivers_example =
    run-delivers same_case watched (record { clients = reached ∷ []; closed = false }) deliveries 0
      (new_client web_query false) reached (new_client-IsSafe web_query false, tt) refl refl refl
      refl refl

-- `f=service:web`, `f=-kind:node` and `f=service:db`.
abbrev parameters : List Text
parameters = bytes "service:web" ∷ bytes "-kind:node" ∷ bytes "service:db" ∷ []

abbrev parse : Text → Option Filter
parse = parse_filter same_case same_case

abbrev services_asked : Filter
services_asked = record {
  field = bytes "service";
  values = bytes "web" ∷ bytes "db" ∷ [];
  not = false;
}

abbrev asked : List Filter
asked =
    services_asked ∷ record { field = bytes "kind"; values = bytes "node" ∷ []; not = true } ∷ []

-- An encoding that leaves its text alone.
abbrev plain : Base64
plain = record { encode = λ s. s; decode = λ s. some s }

-- A cursor of a time that is no whole number of milliseconds.
abbrev seen : Cursor
seen = record { time = 63_082_281_600_001_234_567; id = pos 7 }

parse_cursor-cursor_string_example :
    parse_cursor plain (cursor_string plain seen) ≡ some (in_milliseconds seen)
parse_cursor-cursor_string_example =
    parse_cursor-cursor_string plain seen (record { decode_encode = λ s. refl; encode_nil = refl })
      (omega arith) refl

abbrev no_time : Text → Option Time
no_time s = none

abbrev web_params : Params
web_params = record {
  dc = bytes "all";
  from = [];
  to = [];
  text = [];
  cursor = [];
  limit = bytes "1";
  filters = bytes "service:web" ∷ [];
}

-- A storage that answers every query with nothing, and one that refuses the invalid ones.
abbrev no_page : Page
no_page = record { events = []; next = zero_cursor; has_more = false }

abbrev no_facets : Facets
no_facets = record { values = []; sample_size = 0; sampled = false }

abbrev lenient : Backend Unit Text
lenient = record {
  store_events = λ es s. (none, s);
  upsert_instances = λ is s. (none, s);
  maintain = λ s. (none, s);
  events = λ q s. inr no_page;
  histogram = λ q n split s. inr ([], false);
  facets = λ q fs n s. inr no_facets;
  suggest = λ dc f p n s. inr [];
  instance_of = λ dc n i s. inr none;
  datacenters = λ s. inr [];
  since = λ dc t n s. inr [];
}

abbrev unless_invalid : {A : Type 0} → Option FilterError → A → Text ⊎ A
unless_invalid none a = inr a
unless_invalid (some e) a = inl (bytes "invalid")

abbrev strict : Backend Unit Text
strict = record lenient {
  events = λ q s. unless_invalid (validate q) no_page;
  histogram = λ q n split s. unless_invalid (validate q) ([], false);
  facets = λ q fs n s. unless_invalid (validate q) no_facets;
}

handlers-AgreeOnValid_example :
    let r : RequestError ⊎ Query = parse_query same_case same_case no_time plain 30 web_params in
    (handle_events lenient tt (to_option r) ≡ handle_events strict tt (to_option r))
    × ((handle_histogram lenient tt r (bytes "dc") (bytes "60")
          ≡ handle_histogram strict tt r (bytes "dc") (bytes "60"))
        × (handle_facets lenient tt r (bytes "service") (bytes "10")
            ≡ handle_facets strict tt r (bytes "service") (bytes "10")))
handlers-AgreeOnValid_example =
    handlers-AgreeOnValid same_case same_case no_time plain 30 web_params (bytes "dc") (bytes "60")
      (bytes "service") (bytes "10") lenient strict tt
      (record {
        events = λ q v. ap (λ o. unless_invalid o no_page) (sym v);
        histogram = λ q n split v. ap (λ o. unless_invalid o ([], false)) (sym v);
        facets = λ q fs n v. ap (λ o. unless_invalid o no_facets) (sym v);
      })
