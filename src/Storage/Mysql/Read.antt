-- ===== src/Storage/Mysql/Read.antt =====
-- storage/mysql/query.go: the statements that read events, and what becomes of their rows.
pub mod Filled
use consul_timeline.Common.{
  ℕ, zero, suc, ◌+◌, ◌≡◌, Bool, true, false, Option, none, some, List, [], ◌∷◌, ◌++◌, if◌then◌else◌,
  ◌⊎◌, inl, inr,
}
use consul_timeline.Common.Text.{Text, bytes}
use consul_timeline.Common.Int.{ℤ, pos}
use consul_timeline.Timeline.Event.{Event, Time}
use consul_timeline.Storage.Query.{Query, Cursor, Page, FilterError, validate, cursor_is_zero}
use consul_timeline.Storage.Memory.{page_of}
use consul_timeline.Storage.Mysql.Where.{
  Arg, text_arg, int_arg, time_arg, build_where, clamp_limit, bounds,
}
use consul_timeline.Storage.Mysql.Tags.{Json, parse_tags}

-- A row of `selectCols`, with what it holds in the tags column; the tags of the event are not set.
pub record Row : Type 0 where
  pub event : Event
  pub tags : Text

-- What the database answers to a query: an error, or rows and the error after which no more came.
pub data Answer (E : Type 0) : Type 0 where
  failed : E → Answer E
  rows : List Row → Option E → Answer E

-- The errors of the reads.
pub data ReadError (E : Type 0) : Type 0 where
  invalid : FilterError → ReadError E
  database : E → ReadError E
  malformed_tags : ReadError E

abbrev pub select_cols : Text
select_cols =
    bytes "id, time, dc, kind, consul_index, node_name, node_ip, old_node_status, new_node_status, "
    ++ (bytes
          "service_name, service_id, team, app, version, tags, old_service_status, new_service_status, old_healthy, new_healthy, total_instances, "
        ++ bytes
            "check_id, check_name, check_type, old_check_status, new_check_status, check_output")

-- `scanEvent`, whose `Scan` fills the event.
unfoldable pub scan_event : Json → Row → Option Event
unfolding parse_tags
scan_event json r = elim (parse_tags json r.tags) [
  | none ↦ none
  | some ts ↦ some (record r.event { tags = ts })
]

abbrev pub cons_event : {E : Type 0} → Event → ReadError E ⊎ List Event → ReadError E ⊎ List Event
cons_event e (inl err) = inl err
cons_event e (inr es) = inr (e ∷ es)

abbrev pub ended : {E : Type 0} → Option E → ReadError E ⊎ List Event
ended none = inr []
ended (some e) = inl (database e)

-- The loop over the rows, with the check of `rows.Err` after it.
unfoldable pub scan_rows : {E : Type 0} → Json → List Row → Option E → ReadError E ⊎ List Event
unfolding scan_event
scan_rows json [] last = ended last
scan_rows json (r ∷ rs) last = elim (scan_event json r) [
  | none ↦ inl malformed_tags
  | some e ↦ cons_event e (scan_rows json rs last)
]

abbrev pub scan_answer : {E : Type 0} → Json → Answer E → ReadError E ⊎ List Event
scan_answer json (failed e) = inl (database e)
scan_answer json (rows rs last) = scan_rows json rs last

-- What the cursor adds to the WHERE clause.
unfoldable pub cursor_sql : Cursor → Text × List Arg
cursor_sql c = if cursor_is_zero c then ([], []) else (
  bytes " AND (time < ? OR (time = ? AND id < ?))",
  time_arg c.time ∷ time_arg c.time ∷ int_arg c.id ∷ [],
)

-- The statement of `Events`, which asks for one row more than the page holds.
unfoldable pub events_sql : Query → Time → Text × List Arg
unfolding build_where cursor_sql clamp_limit
events_sql q now =
    let (where_text, where_args) = build_where q now in
    let (cursor_text, cursor_args) = cursor_sql q.cursor in
    (
      bytes "SELECT "
          ++ (select_cols
              ++ (bytes " FROM events_v2 WHERE "
                  ++ (where_text
                      ++ (cursor_text ++ bytes " ORDER BY time DESC, id DESC LIMIT ?")))),
      where_args ++ (cursor_args ++ (int_arg (pos (clamp_limit q.limit + 1)) ∷ [])),
    )

-- The statement of `Since`.
unfoldable pub since_sql : Text → Time → ℤ → Text × List Arg
unfolding clamp_limit
since_sql dc after limit = (
  bytes "SELECT "
      ++ (select_cols
          ++ bytes " FROM events_v2 WHERE dc = ? AND time > ? ORDER BY time ASC, id ASC LIMIT ?"),
  text_arg dc ∷ time_arg after ∷ int_arg (pos (clamp_limit limit)) ∷ [],
)

abbrev pub to_page : {E : Type 0} → ℕ → ReadError E ⊎ List Event → ReadError E ⊎ Page
to_page limit (inl e) = inl e
to_page limit (inr es) = inr (page_of es limit)

-- `query` is the database: the driver, the server and the tables.
module _ {E : Type 0} (json : Json) (query : Text × List Arg → Answer E) where
  -- `Events`; the end of the page is cut off as in storage/memory/storage.go.
  unfoldable pub read_events : Query → Time → ReadError E ⊎ Page
  unfolding validate events_sql clamp_limit scan_rows page_of
  read_events q now = elim (validate q) [
    | some e ↦ inl (invalid e)
    | none ↦ to_page (clamp_limit q.limit) (scan_answer json (query (events_sql q now)))
  ]

  -- `Since`.
  unfoldable pub read_since : Text → Time → ℤ → ReadError E ⊎ List Event
  unfolding since_sql scan_rows
  read_since dc after limit = scan_answer json (query (since_sql dc after limit))
