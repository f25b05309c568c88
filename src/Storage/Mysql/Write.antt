-- ===== src/Storage/Mysql/Write.antt =====
-- storage/mysql/storage.go: the statements that store events and instances, and the transaction
-- around a chunk of events.
pub mod Filled
pub mod Chunks
pub mod Rollup
use consul_timeline.Common.{
  ℕ, zero, suc, ◌-◌, ◌%◌, ◌≡◌, ◌↔◌, Bool, true, ◌&&◌, Option, none, some, List, [], ◌∷◌, ◌++◌, ◌⊎◌,
  inl, inr, if◌then◌else◌, ltb, length, take, drop, map, arith, Eq, nat_beq, replicate,
}
use consul_timeline.Common.Text.{Text, text_eq, text_beq, text_beq_iff, bytes}
use consul_timeline.Common.Int.{ℤ, pos}
use consul_timeline.Common.Assoc.{RangeOrder}
use consul_timeline.Common.Counts.{count_values}
use consul_timeline.Timeline.Status.{Status, Kind}
use consul_timeline.Timeline.Event.{
  Event, Instance, Time, old_status, new_status, int_beq, int_beq_iff,
}
use consul_timeline.Storage.Mysql.Where.{Arg, text_arg, int_arg, time_arg, null_arg, join}
use consul_timeline.Storage.Mysql.Tags.{Json, tags_json}

abbrev pub max_output : ℕ
max_output = 4096

abbrev pub insert_chunk : ℕ
insert_chunk = 500

abbrev pub upsert_chunk_size : ℕ
upsert_chunk_size = 200

-- `time.Minute`, in nanoseconds.
abbrev pub minute_length : ℕ
minute_length = 60_000_000_000

abbrev pub insert_cols : Text
insert_cols =
    bytes "time, dc, kind, consul_index, node_name, node_ip, old_node_status, new_node_status, "
    ++ (bytes
          "service_name, service_id, team, app, version, tags, old_service_status, new_service_status, old_healthy, new_healthy, total_instances, "
        ++ bytes
            "check_id, check_name, check_type, old_check_status, new_check_status, old_status, new_status, check_output")

-- `rollupKey`.
pub record RollupKey : Type 0 where
  pub dc : Text
  pub minute : Time
  pub kind : Kind
  pub status : Status

abbrev pub rollup_beq : RollupKey → RollupKey → Bool
rollup_beq a b =
    text_beq a.dc b.dc
    && (nat_beq a.minute b.minute && (int_beq a.kind b.kind && int_beq a.status b.status))

pub rollup_beq_iff : (a b : RollupKey) → (rollup_beq a b ≡ true) ↔ (a ≡ b)
rollup_beq_iff a b =
    ground (arith, text_beq_iff a.dc b.dc, int_beq_iff a.kind b.kind, int_beq_iff a.status b.status)

instance abbrev pub rollup_eq : Eq RollupKey
rollup_eq = record { beq = rollup_beq; beq_iff = rollup_beq_iff }

-- The key under which an event is counted.
abbrev pub rollup_key : Event → RollupKey
rollup_key e = record {
  dc = e.datacenter;
  minute = e.time - e.time % minute_length;
  kind = e.kind;
  status = new_status e;
}

-- The arguments of an event.
unfoldable pub event_args : Json → Event → List Arg
unfolding tags_json old_status new_status
event_args json e =
    time_arg e.time
    ∷ text_arg e.datacenter
    ∷ int_arg e.kind
    ∷ int_arg (pos e.consul_index)
    ∷ text_arg e.node_name
    ∷ text_arg e.node_ip
    ∷ int_arg e.old_node_status
    ∷ int_arg e.new_node_status
    ∷ text_arg e.service_name
    ∷ text_arg e.service_id
    ∷ text_arg e.team
    ∷ text_arg e.app
    ∷ text_arg e.version
    ∷ text_arg (tags_json json e.tags)
    ∷ int_arg e.old_service_status
    ∷ int_arg e.new_service_status
    ∷ int_arg (pos e.old_healthy)
    ∷ int_arg (pos e.new_healthy)
    ∷ int_arg (pos e.total_instances)
    ∷ text_arg e.check_id
    ∷ text_arg e.check_name
    ∷ text_arg e.check_type
    ∷ int_arg e.old_check_status
    ∷ int_arg e.new_check_status
    ∷ int_arg (old_status e)
    ∷ int_arg (new_status e)
    ∷ text_arg (take max_output e.check_output)
    ∷ []

abbrev pub event_marks : Text
event_marks = bytes "(?,?,?,?,?,?,?,?,?,?,?,?,?,?,?,?,?,?,?,?,?,?,?,?,?,?,?)"

abbrev pub concat : {A B : Type 0} → (A → List B) → List A → List B
concat f [] = []
concat f (x ∷ xs) = f x ++ concat f xs

-- A row of placeholders for each element, with commas between them.
unfoldable pub values_text : {A : Type 0} → Text → List A → Text
unfolding join
values_text {A = A} marks_row xs = join (bytes ",") (map (λ (x : A). marks_row) xs)

-- The first statement of `storeChunk`.
unfoldable pub insert_sql : Json → List Event → Text × List Arg
unfolding event_args values_text
insert_sql json es = (
  bytes "INSERT INTO events_v2 ("
      ++ (insert_cols ++ (bytes ") VALUES " ++ values_text event_marks es)),
  concat (event_args json) es,
)

abbrev pub rollup_marks : Text
rollup_marks = bytes "(?,?,?,?,?)"

abbrev pub rollup_args : RollupKey × ℕ → List Arg
rollup_args (k, n) =
    text_arg k.dc ∷ time_arg k.minute ∷ int_arg k.kind ∷ int_arg k.status ∷ int_arg (pos n) ∷ []

-- The map `rollup`.
unfoldable pub rollup_of : List Event → List (RollupKey × ℕ)
unfolding count_values new_status
rollup_of es = count_values [] (map rollup_key es)

-- The second statement of `storeChunk`.
unfoldable pub rollup_sql : RangeOrder RollupKey ℕ → List Event → Text × List Arg
unfolding rollup_of values_text
rollup_sql order es =
    let counts = order.range (rollup_of es) in
    (
      bytes "INSERT INTO events_rollup (dc, minute, kind, new_status, n) VALUES "
          ++ (values_text rollup_marks counts
              ++ bytes " ON DUPLICATE KEY UPDATE n = n + VALUES(n)"),
      concat rollup_args counts,
    )

abbrev or_null : Option Text → Arg
or_null none = null_arg
or_null (some s) = text_arg s

-- `jsonOrNull`, on a list or on a map, with the encoder of its type.
unfoldable pub json_or_null : {A : Type 0} → (List A → Option Text) → List A → Arg
json_or_null encode [] = null_arg
json_or_null encode (x ∷ xs) = or_null (encode (x ∷ xs))

-- The arguments of an instance.
unfoldable pub instance_args : Json → (List (Text × Text) → Option Text) → Instance → List Arg
unfolding json_or_null
instance_args json encode_map i =
    text_arg i.datacenter
    ∷ text_arg i.node_name
    ∷ text_arg i.service_id
    ∷ text_arg i.service_name
    ∷ text_arg i.node_ip
    ∷ text_arg i.address
    ∷ int_arg i.port
    ∷ text_arg i.team
    ∷ text_arg i.app
    ∷ text_arg i.version
    ∷ json_or_null json.encode i.tags
    ∷ json_or_null encode_map i.meta
    ∷ json_or_null encode_map i.node_meta
    ∷ time_arg i.first_seen
    ∷ time_arg i.last_seen
    ∷ []

abbrev pub instance_marks : Text
instance_marks = bytes "(?,?,?,?,?,?,?,?,?,?,?,?,?,?,?)"

abbrev pub on_duplicate : Text
on_duplicate =
    bytes
      " ON DUPLICATE KEY UPDATE service_name = VALUES(service_name), node_ip = VALUES(node_ip), address = VALUES(address), "
    ++ (bytes
          "port = VALUES(port), team = VALUES(team), app = VALUES(app), version = VALUES(version), "
        ++ bytes
            "tags = VALUES(tags), meta = VALUES(meta), node_meta = VALUES(node_meta), last_seen = VALUES(last_seen)")

-- The statement of `upsertChunk`.
unfoldable pub upsert_sql :
    Json → (List (Text × Text) → Option Text) → List Instance → Text × List Arg
unfolding instance_args values_text
upsert_sql json encode_map is = (
  bytes
        "INSERT INTO instances (dc, node_name, service_id, service_name, node_ip, address, port, team, app, version, tags, meta, node_meta, first_seen, last_seen) VALUES "
      ++ (values_text instance_marks is ++ on_duplicate),
  concat (instance_args json encode_map) is,
)

-- What `database/sql` does, on tables `D` and in an open transaction `T`.
pub record Driver (D T E : Type 0) : Type 0 where
  pub begin : D → E ⊎ T
  pub exec : Text × List Arg → T → Option E × T
  pub commit : T → Option E × D
  pub rollback : T → D
  pub exec_alone : Text × List Arg → D → Option E × D

module _ {D T E : Type 0} (json : Json) (order : RangeOrder RollupKey ℕ) (db : Driver D T E) where
  -- The end of `storeChunk`: the rollup is written, and the transaction committed.
  unfoldable pub finish : List Event → T → Option E × D
  unfolding rollup_sql
  finish es t =
      let (r, u) = db.exec (rollup_sql order es) t in
      elim r [ some e ↦ (some e, db.rollback u) | none ↦ db.commit u ]

  -- `storeChunk`.
  unfoldable pub store_chunk : List Event → D → Option E × D
  unfolding insert_sql finish
  store_chunk es d = elim (db.begin d) [
    | inl e ↦ (some e, d)
    | inr t ↦
        let (r, u) = db.exec (insert_sql json es) t in
        elim r [ some e ↦ (some e, db.rollback u) | none ↦ finish es u ]
  ]

abbrev pub then_rest : {D E : Type 0} → Option E × D → (D → Option E × D) → Option E × D
then_rest (some e, d) rest = (some e, d)
then_rest (none, d) rest = rest d

-- The loops over chunks, which `StoreEvents` and `UpsertInstances` share; the first number bounds the
-- rounds.
unfoldable pub in_chunks :
    {A D E : Type 0} → ℕ → ℕ → (List A → D → Option E × D) → List A → D → Option E × D
in_chunks zero size write xs d = (none, d)
in_chunks (suc fuel) size write [] d = (none, d)
in_chunks (suc fuel) size write (x ∷ xs) d =
    then_rest (write (take size (x ∷ xs)) d) (in_chunks fuel size write (drop size (x ∷ xs)))

module _ {D T E : Type 0} (json : Json) (order : RangeOrder RollupKey ℕ) (db : Driver D T E) where
  -- `StoreEvents`.
  unfoldable pub store_events : List Event → D → Option E × D
  unfolding in_chunks store_chunk
  store_events es = in_chunks (length es) insert_chunk (store_chunk json order db) es

module _ {D T E : Type 0} (json : Json) (encode_map : List (Text × Text) → Option Text)
    (db : Driver D T E) where
  -- `upsertChunk`.
  unfoldable pub upsert_chunk : List Instance → D → Option E × D
  unfolding upsert_sql
  upsert_chunk is d = db.exec_alone (upsert_sql json encode_map is) d

  -- `UpsertInstances`.
  unfoldable pub upsert_instances : List Instance → D → Option E × D
  unfolding in_chunks upsert_chunk
  upsert_instances is = in_chunks (length is) upsert_chunk_size upsert_chunk is
