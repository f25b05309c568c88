-- ===== src/Storage/Mysql/Where/Marks.antt =====
-- The placeholders of the WHERE clause of storage/mysql/query.go: one for each argument.
use consul_timeline.Common.{
  ℕ, ◌+◌, ◌≡◌, refl, sym, ◌∙◌, Bool, true, false, List, [], ◌∷◌, ◌++◌, if◌then◌else◌, if_ind,
  nat_beq, length, length-append, map, arith, ◌==◌,
}
use consul_timeline.Common.Text.{Text, text_eq, text_beq, bytes}
use consul_timeline.Timeline.Event.{Time}
use consul_timeline.Storage.Query.{Filter, Query, field_tag}
use consul_timeline.Storage.FieldCases.{by_field}
use consul_timeline.Storage.Mysql.Where.{
  Arg, column, join, negated, any_part, in_part, tag_part, name_part, is_enum, is_pattern,
  filter_sql, filters_sql, datacenter_sql, text_sql, build_where, value_arg, enum_value, int_arg,
}

-- How often a text holds a question mark.
unfoldable pub marks : Text → ℕ
marks [] = 0
marks (c ∷ s) = (if nat_beq c b'?' then 1 else 0) + marks s

pub marks-append : (s t : Text) → marks (s ++ t) ≡ marks s + marks t
unfolding marks
marks-append [] t = omega arith
marks-append (c ∷ s) t = omega (arith, marks-append s t)

-- Over a list of texts.
abbrev pub all_marks : List Text → ℕ
all_marks [] = 0
all_marks (s ∷ ss) = marks s + all_marks ss

pub all_marks-append : (ss ts : List Text) → all_marks (ss ++ ts) ≡ all_marks ss + all_marks ts
all_marks-append [] ts = omega arith
all_marks-append (s ∷ ss) ts = omega (arith, all_marks-append ss ts)

pub marks-join : (sep : Text) (ss : List Text) → marks sep ≡ 0 → marks (join sep ss) ≡ all_marks ss
unfolding join marks
marks-join sep [] h = refl
marks-join sep (a ∷ []) h = omega arith
marks-join sep (a ∷ b ∷ ss) h = omega (
  arith,
  marks-append a (sep ++ join sep (b ∷ ss)),
  marks-append sep (join sep (b ∷ ss)),
  marks-join sep (b ∷ ss) h,
)

all_marks-map :
    (g : Text → Text) (vs : List Text)
    → ((v : Text) → marks (g v) ≡ 1)
    → all_marks (map g vs) ≡ length vs
all_marks-map g [] h = refl
all_marks-map g (v ∷ vs) h = omega (arith, h v, all_marks-map g vs h)

marks-column : (f : Text) → marks (column f) ≡ 0
unfolding marks column text_beq
marks-column =
    by_field (λ f. marks (column f) ≡ 0) refl refl refl refl refl refl refl refl refl refl refl refl
      refl (λ f u. ground arith)

marks-negated : (b : Bool) (s : Text) → marks (negated b s) ≡ marks s
unfolding marks
marks-negated true s = omega arith
marks-negated false s = refl

marks-any_part : (parts : List Text) → marks (any_part parts) ≡ all_marks parts
unfolding marks
marks-any_part parts = omega (
  arith,
  marks-append (join (bytes " OR ") parts) (bytes ")"),
  marks-join (bytes " OR ") parts refl,
)

marks-in_part :
    (col : Text) (parts : List Text) → marks col ≡ 0 → marks (in_part col parts) ≡ all_marks parts
unfolding marks
marks-in_part col parts h = omega (
  arith,
  marks-append col (bytes " IN (" ++ (join (bytes ",") parts ++ bytes ")")),
  marks-append (join (bytes ",") parts) (bytes ")"),
  marks-join (bytes ",") parts refl,
)

marks-tag_part : (b : Bool) → marks (tag_part b) ≡ 1
unfolding marks
marks-tag_part true = refl
marks-tag_part false = refl

marks-name_part : (col : Text) (b : Bool) → marks col ≡ 0 → marks (name_part col b) ≡ 1
unfolding marks
marks-name_part col true h = omega (arith, marks-append col (bytes " LIKE ?"))
marks-name_part col false h = omega (arith, marks-append col (bytes " = ?"))

length-map : {A B : Type 0} (g : A → B) (xs : List A) → length (map g xs) ≡ length xs
length-map g [] = refl
length-map g (x ∷ xs) = omega (arith, length-map g xs)

-- A statement has as many placeholders as arguments.
abbrev pub IsFilled : Text × List Arg → Type 0
IsFilled (sql, args) = marks sql ≡ length args

pub filter_sql-IsFilled : (f : Filter) → IsFilled (filter_sql f)
unfolding filter_sql
filter_sql-IsFilled f =
    if_ind IsFilled (is_enum f.field) _ _
      (λ _.
        marks-negated f.not _
        ∙ marks-in_part (column f.field) _ (marks-column f.field)
        ∙ all_marks-map (λ (v : Text). bytes "?") f.values (λ v. question)
        ∙ sym (length-map (λ v. int_arg (enum_value f.field v)) f.values))
      (λ _.
        if_ind IsFilled (f.field == field_tag) _ _
          (λ _.
            marks-negated f.not _
            ∙ marks-any_part _
            ∙ all_marks-map (λ v. tag_part (is_pattern v)) f.values
                (λ v. marks-tag_part (is_pattern v))
            ∙ sym (length-map value_arg f.values))
          (λ _.
            marks-negated f.not _
            ∙ marks-any_part _
            ∙ all_marks-map (λ v. name_part (column f.field) (is_pattern v)) f.values
                (λ v. marks-name_part (column f.field) (is_pattern v) (marks-column f.field))
            ∙ sym (length-map value_arg f.values)))
  where
    question : marks (bytes "?") ≡ 1
    question = unfold marks in refl

-- The same over a list of conditions.
abbrev AreFilled : List Text × List Arg → Type 0
AreFilled (conds, args) = all_marks conds ≡ length args

filters_sql-AreFilled : (fs : List Filter) → AreFilled (filters_sql fs)
unfolding filters_sql
filters_sql-AreFilled [] = refl
filters_sql-AreFilled (f ∷ fs) = omega (
  arith,
  filter_sql-IsFilled f,
  filters_sql-AreFilled fs,
  length-append (filter_sql f).1 (filters_sql fs).1,
)

datacenter_sql-AreFilled : (dc : Text) → AreFilled (datacenter_sql dc)
unfolding datacenter_sql marks
datacenter_sql-AreFilled [] = refl
datacenter_sql-AreFilled (c ∷ dc) = refl

text_sql-AreFilled : (t : Text) → AreFilled (text_sql t)
unfolding text_sql marks
text_sql-AreFilled [] = refl
text_sql-AreFilled (c ∷ t) = refl

-- The WHERE clause of every query has exactly one placeholder for each of its arguments.
pub build_where-IsFilled : (q : Query) (now : Time) → IsFilled (build_where q now)
unfolding build_where
build_where-IsFilled q now =
    marks-join (bytes " AND ")
      (bytes "time BETWEEN ? AND ?"
        ∷ ((datacenter_sql q.datacenter).0 ++ ((filters_sql q.filters).0 ++ (text_sql q.text).0)))
      (unfold marks in refl)
    ∙ omega (
      arith,
      all_marks-append (datacenter_sql q.datacenter).0
          ((filters_sql q.filters).0 ++ (text_sql q.text).0),
      all_marks-append (filters_sql q.filters).0 (text_sql q.text).0,
      datacenter_sql-AreFilled q.datacenter,
      filters_sql-AreFilled q.filters,
      text_sql-AreFilled q.text,
      between,
      length-append (datacenter_sql q.datacenter).1
          ((filters_sql q.filters).1 ++ (text_sql q.text).1),
      length-append (filters_sql q.filters).1 (text_sql q.text).1,
    )
  where
    between : marks (bytes "time BETWEEN ? AND ?") ≡ 2
    between = unfold marks in refl
