-- ===== src/Storage/Mysql/Where/Rows.antt =====
-- The rows that a filter of storage/mysql/query.go selects, next to the events that the filter of
-- storage/storage.go accepts.
use consul_timeline.Common.{
  ◌-◌, ◌≡◌, ◌≢◌, ap, ◌∙◌, Bool, true, false, not, [], ◌∷◌, ◌++◌, if◌then◌else◌, length,
  length-append, take, take-append, ◌==◌, arith,
}
use consul_timeline.Common.Text.{
  Text, text_eq, text_beq, text_beq_iff, bytes, has_prefix, has_suffix-append,
}
use consul_timeline.Timeline.Event.{Event, int_beq}
use consul_timeline.Storage.Query.{Filter, field_tag, field_check_type}
use consul_timeline.Storage.Match.{match_filter, match_one, star}
use consul_timeline.Storage.Mysql.Where.{column, is_enum, enum_value, filter_sql, escape_like}
use consul_timeline.Storage.Mysql.Where.Like.{Collation, CollationLaws, like-escape_like}
use consul_timeline.Storage.Mysql.Where.Meaning.{
  spell, text_cell, int_cell, test_holds, body_holds, holds, name_test, tag_test, condition_of,
  spell-condition_of,
}

module _ (columns tags : Collation) (columns_laws : CollationLaws columns)
    (tags_laws : CollationLaws tags) where
  -- Whether a value of a filter selects an event, as the condition says it.
  abbrev selects : Event → Text → Text → Bool
  selects e f v =
      if is_enum f
      then int_beq (int_cell e (column f)) (enum_value f v)
      else if f == field_tag
      then test_holds columns tags e (tag_test v)
      else test_holds columns tags e (name_test (column f) v)

  -- What the filter accepts is selected; on a column of numbers nothing else is.
  abbrev Selects : Bool → Bool → Bool → Type 0
  Selects enum accepted selected =
      (accepted ≡ true → selected ≡ true) × (enum ≡ true → accepted ≡ selected)

  -- On a check type the two differ: a pattern that the check type of an event begins with selects the
  -- event's row, while the filter compares the pattern whole and rejects the event.
  pub check_type_differs :
      (e : Event) (prefix : Text)
      → has_prefix e.check_type prefix ≡ true
      → e.check_type ≢ prefix ++ star
      → let f : Filter = record {
        field = field_check_type;
        values = (prefix ++ star) ∷ [];
        not = false;
      } in
        (match_filter f e ≡ false)
        × ((spell (condition_of f) ≡ filter_sql f) × (holds columns tags e (condition_of f) ≡ true))
  unfolding match_filter holds condition_of match_one text_beq column body_holds test_holds
      text_cell
  check_type_differs e prefix h n =
      let f : Filter = record {
        field = field_check_type;
        values = (prefix ++ star) ∷ [];
        not = false;
      } in
      let cut : take (length (prefix ++ star) - 1) (prefix ++ star) ≡ prefix =
        take-append prefix star (length (prefix ++ star) - 1)
          (omega (arith, length-append prefix star)) in
      let liked : columns.like e.check_type
            (escape_like (take (length (prefix ++ star) - 1) (prefix ++ star)) ++ bytes "%")
          ≡ true =
        ap (λ p. columns.like e.check_type (escape_like p ++ bytes "%")) cut
        ∙ like-escape_like columns columns_laws prefix e.check_type h in
      (
        ground (arith, text_beq_iff e.check_type (prefix ++ star)),
        (spell-condition_of f, rw (has_suffix-append prefix star) (ground (arith, liked))),
      )
