-- ===== src/Storage/Mysql/Write/Filled.antt =====
-- The statements of storage/mysql/storage.go have a placeholder for each argument.
use consul_timeline.Common.{
  ℕ, ◌≡◌, refl, Option, List, [], ◌∷◌, ◌++◌, length, length-append, map, arith, ◌∙◌,
}
use consul_timeline.Common.Text.{Text, bytes}
use consul_timeline.Common.Assoc.{RangeOrder}
use consul_timeline.Timeline.Event.{Event, Instance}
use consul_timeline.Storage.Mysql.Where.{Arg}
use consul_timeline.Storage.Mysql.Where.Marks.{marks, marks-append, all_marks, marks-join, IsFilled}
use consul_timeline.Storage.Mysql.Tags.{Json}
use consul_timeline.Storage.Mysql.Write.{
  RollupKey, rollup_eq, insert_cols, event_args, event_marks, values_text, concat, insert_sql,
  rollup_marks, rollup_args, rollup_of, rollup_sql, instance_args, instance_marks, on_duplicate,
  upsert_sql,
}

all_marks-rows :
    {A : Type 0} (row : Text) (n : ℕ) (f : A → List Arg) (xs : List A)
    → marks row ≡ n
    → ((x : A) → length (f x) ≡ n)
    → all_marks (map (λ (x : A). row) xs) ≡ length (concat f xs)
all_marks-rows row n f [] h k = refl
all_marks-rows row n f (x ∷ xs) h k =
    omega (arith, h, k x, length-append (f x) (concat f xs), all_marks-rows row n f xs h k)

-- Where the row of placeholders fits the arguments of each element, the rows fit all arguments.
values_text-concat :
    {A : Type 0} (row : Text) (n : ℕ) (f : A → List Arg) (xs : List A)
    → marks row ≡ n
    → ((x : A) → length (f x) ≡ n)
    → marks (values_text row xs) ≡ length (concat f xs)
unfolding values_text
values_text-concat {A = A} row n f xs h k =
    marks-join (bytes ",") (map (λ (x : A). row) xs) (unfold marks in refl)
    ∙ all_marks-rows row n f xs h k

abbrev insert_start : Text
insert_start = bytes "INSERT INTO events_v2 ("

abbrev rollup_start : Text
rollup_start = bytes "INSERT INTO events_rollup (dc, minute, kind, new_status, n) VALUES "

abbrev rollup_end : Text
rollup_end = bytes " ON DUPLICATE KEY UPDATE n = n + VALUES(n)"

abbrev upsert_start : Text
upsert_start =
    bytes
      "INSERT INTO instances (dc, node_name, service_id, service_name, node_ip, address, port, team, app, version, tags, meta, node_meta, first_seen, last_seen) VALUES "

pub insert_sql-IsFilled : (json : Json) (es : List Event) → IsFilled (insert_sql json es)
unfolding insert_sql event_args
insert_sql-IsFilled json es = omega (
  arith,
  marks-append insert_start (insert_cols ++ (bytes ") VALUES " ++ values_text event_marks es)),
  marks-append insert_cols (bytes ") VALUES " ++ values_text event_marks es),
  marks-append (bytes ") VALUES ") (values_text event_marks es),
  values_text-concat event_marks 27 (event_args json) es (unfold marks in refl) (λ e. refl),
  start,
  cols,
  middle,
)
  where
    start : marks insert_start ≡ 0
    start = unfold marks in refl

    cols : marks insert_cols ≡ 0
    cols = unfold marks in refl

    middle : marks (bytes ") VALUES ") ≡ 0
    middle = unfold marks in refl

pub rollup_sql-IsFilled :
    (order : RangeOrder RollupKey ℕ) (es : List Event) → IsFilled (rollup_sql order es)
unfolding rollup_sql
rollup_sql-IsFilled order es =
    let counts : List (RollupKey × ℕ) = order.range (rollup_of es) in
    omega (
      arith,
      marks-append rollup_start (values_text rollup_marks counts ++ rollup_end),
      marks-append (values_text rollup_marks counts) rollup_end,
      values_text-concat rollup_marks 5 rollup_args counts (unfold marks in refl) (λ c. refl),
      start,
      end,
    )
  where
    start : marks rollup_start ≡ 0
    start = unfold marks in refl

    end : marks rollup_end ≡ 0
    end = unfold marks in refl

pub upsert_sql-IsFilled :
    (json : Json) (encode_map : List (Text × Text) → Option Text) (is : List Instance)
    → IsFilled (upsert_sql json encode_map is)
unfolding upsert_sql instance_args
upsert_sql-IsFilled json encode_map is = omega (
  arith,
  marks-append upsert_start (values_text instance_marks is ++ on_duplicate),
  marks-append (values_text instance_marks is) on_duplicate,
  values_text-concat instance_marks 15 (instance_args json encode_map) is (unfold marks in refl)
      (λ i. refl),
  start,
  end,
)
  where
    start : marks upsert_start ≡ 0
    start = unfold marks in refl

    end : marks on_duplicate ≡ 0
    end = unfold marks in refl

-- Each of the three statements that write has exactly one placeholder for each of its arguments,
-- whatever the events and instances are and in whatever order the runtime visits the counts.
pub writes-AreFilled :
    (json : Json) (encode_map : List (Text × Text) → Option Text) (order : RangeOrder RollupKey ℕ)
    (es : List Event) (is : List Instance)
    → IsFilled (insert_sql json es)
      × (IsFilled (rollup_sql order es) × IsFilled (upsert_sql json encode_map is))
writes-AreFilled json encode_map order es is = (
  insert_sql-IsFilled json es,
  (rollup_sql-IsFilled order es, upsert_sql-IsFilled json encode_map is),
)
