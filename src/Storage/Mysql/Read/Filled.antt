-- ===== src/Storage/Mysql/Read/Filled.antt =====
-- The statements of storage/mysql/query.go have a placeholder for each argument.
use consul_timeline.Common.{◌+◌, ◌≡◌, refl, [], ◌∷◌, ◌++◌, length-append, arith, if_ind}
use consul_timeline.Common.Text.{bytes}
use consul_timeline.Common.Int.{pos}
use consul_timeline.Timeline.Event.{Time}
use consul_timeline.Storage.Query.{Query, Cursor, cursor_is_zero}
use consul_timeline.Storage.Mysql.Where.{int_arg, build_where, clamp_limit}
use consul_timeline.Storage.Mysql.Where.Marks.{marks, marks-append, IsFilled, build_where-IsFilled}
use consul_timeline.Storage.Mysql.Read.{select_cols, cursor_sql, events_sql}

marks-select_cols : marks select_cols ≡ 0
unfolding marks
marks-select_cols = refl

cursor_sql-IsFilled : (c : Cursor) → IsFilled (cursor_sql c)
unfolding cursor_sql marks
cursor_sql-IsFilled c = if_ind IsFilled (cursor_is_zero c) _ _ (λ _. refl) (λ _. refl)

-- The statement of a page has exactly one placeholder for each of its arguments.
pub events_sql-IsFilled : (q : Query) (now : Time) → IsFilled (events_sql q now)
unfolding events_sql
events_sql-IsFilled q now =
    let w = (build_where q now).0 in
    let c = (cursor_sql q.cursor).0 in
    let tail = bytes " ORDER BY time DESC, id DESC LIMIT ?" in
    omega (
      arith,
      marks-append (bytes "SELECT ")
          (select_cols ++ (bytes " FROM events_v2 WHERE " ++ (w ++ (c ++ tail)))),
      marks-append select_cols (bytes " FROM events_v2 WHERE " ++ (w ++ (c ++ tail))),
      marks-append (bytes " FROM events_v2 WHERE ") (w ++ (c ++ tail)),
      marks-append w (c ++ tail),
      marks-append c tail,
      marks-select_cols,
      selects,
      tables,
      limits,
      build_where-IsFilled q now,
      cursor_sql-IsFilled q.cursor,
      length-append (build_where q now).1
          ((cursor_sql q.cursor).1 ++ (int_arg (pos (clamp_limit q.limit + 1)) ∷ [])),
      length-append (cursor_sql q.cursor).1 (int_arg (pos (clamp_limit q.limit + 1)) ∷ []),
    )
  where
    selects : marks (bytes "SELECT ") ≡ 0
    selects = unfold marks in refl

    tables : marks (bytes " FROM events_v2 WHERE ") ≡ 0
    tables = unfold marks in refl

    limits : marks (bytes " ORDER BY time DESC, id DESC LIMIT ?") ≡ 1
    limits = unfold marks in refl
