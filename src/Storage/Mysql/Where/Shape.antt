-- ===== src/Storage/Mysql/Where/Shape.antt =====
-- What the text of the WHERE clause of storage/mysql/query.go depends on.
use consul_timeline.Common.{
  ◌≡◌, refl, sym, ap, ap₂, ◌∙◌, Bool, true, false, List, [], ◌∷◌, ◌++◌, if◌then◌else◌, map, ◌==◌,
}
use consul_timeline.Common.Text.{Text, text_eq, bytes}
use consul_timeline.Timeline.Event.{Time}
use consul_timeline.Storage.Query.{Filter, Query, field_tag}
use consul_timeline.Storage.Mysql.Where.{
  column, join, negated, any_part, in_part, tag_part, name_part, is_enum, is_pattern, filter_sql,
  filters_sql, datacenter_sql, text_sql, build_where, value_arg, enum_value, Arg,
}

abbrev is_empty : Text → Bool
is_empty [] = true
is_empty (c ∷ s) = false

-- Two filters that differ at most in their values, of which a pattern takes the place of a pattern.
pub record IsLike (f g : Filter) : Type 0 where
  pub field : f.field ≡ g.field
  pub sign : f.not ≡ g.not
  pub patterns : map is_pattern f.values ≡ map is_pattern g.values

abbrev pub AreLike : List Filter → List Filter → Type 0
AreLike [] [] = Unit
AreLike [] (g ∷ gs) = ⊥
AreLike (f ∷ fs) [] = ⊥
AreLike (f ∷ fs) (g ∷ gs) = IsLike f g × AreLike fs gs

-- Two queries that differ at most in their times, cursor, limit and values.
pub record HaveSameShape (q r : Query) : Type 0 where
  pub datacenter : is_empty q.datacenter ≡ is_empty r.datacenter
  pub filters : AreLike q.filters r.filters
  pub text : is_empty q.text ≡ is_empty r.text

map-map :
    {A B C : Type 0} (g : A → B) (h : B → C) (xs : List A)
    → map (λ x. h (g x)) xs ≡ map h (map g xs)
map-map g h [] = refl
map-map g h (x ∷ xs) = ap (◌∷◌ (h (g x))) (map-map g h xs)

-- The text of a filter, from what it depends on.
template : Text → Bool → List Bool → Text
template field negate patterns =
    if is_enum field
    then negated negate (in_part (column field) (map (λ (b : Bool). bytes "?") patterns))
    else if field == field_tag
    then negated negate (any_part (map tag_part patterns))
    else negated negate (any_part (map (name_part (column field)) patterns))

abbrev sql_of : Text × List Arg → Text
sql_of statement = statement.0

filter_sql-template :
    (f : Filter) → (filter_sql f).0 ≡ template f.field f.not (map is_pattern f.values)
unfolding filter_sql template
filter_sql-template f = go (is_enum f.field) (f.field == field_tag)
  where
    go :
        (a b : Bool)
        → sql_of (
            if a
            then (
              negated f.not (in_part (column f.field) (map (λ (v : Text). bytes "?") f.values)),
              map (λ v. Arg.int_arg (enum_value f.field v)) f.values,
            )
            else if b
            then (
              negated f.not (any_part (map (λ v. tag_part (is_pattern v)) f.values)),
              map value_arg f.values,
            )
            else (
              negated f.not
                  (any_part (map (λ v. name_part (column f.field) (is_pattern v)) f.values)),
              map value_arg f.values,
            ))
          ≡ (if a
              then negated f.not (
                  in_part
                    (column f.field)
                    (map (λ (c : Bool). bytes "?") (map is_pattern f.values)))
              else if b
              then negated f.not (any_part (map tag_part (map is_pattern f.values)))
              else negated f.not
                  (any_part (map (name_part (column f.field)) (map is_pattern f.values))))
    go true b =
        ap (λ ps. negated f.not (in_part (column f.field) ps))
          (map-map is_pattern (λ (c : Bool). bytes "?") f.values)
    go false true = ap (λ ps. negated f.not (any_part ps)) (map-map is_pattern tag_part f.values)
    go false false =
        ap (λ ps. negated f.not (any_part ps))
          (map-map is_pattern (name_part (column f.field)) f.values)

filter_sql-IsLike : (f g : Filter) → IsLike f g → (filter_sql f).0 ≡ (filter_sql g).0
filter_sql-IsLike f g h =
    filter_sql-template f
    ∙ ap (λ d. template d f.not (map is_pattern f.values)) h.field
    ∙ ap₂ (template g.field) h.sign h.patterns
    ∙ sym (filter_sql-template g)

filters_sql-AreLike :
    (fs gs : List Filter) → AreLike fs gs → (filters_sql fs).0 ≡ (filters_sql gs).0
unfolding filters_sql
filters_sql-AreLike [] [] h = refl
filters_sql-AreLike [] (g ∷ gs) h = absurd h
filters_sql-AreLike (f ∷ fs) [] h = absurd h
filters_sql-AreLike (f ∷ fs) (g ∷ gs) h =
    ap₂ ◌∷◌ (filter_sql-IsLike f g h.0) (filters_sql-AreLike fs gs h.1)

datacenter_sql_shape :
    (s t : Text) → is_empty s ≡ is_empty t → (datacenter_sql s).0 ≡ (datacenter_sql t).0
unfolding datacenter_sql
datacenter_sql_shape [] [] h = refl
datacenter_sql_shape [] (d ∷ t) h = absurd (cc)
datacenter_sql_shape (c ∷ s) [] h = absurd (cc)
datacenter_sql_shape (c ∷ s) (d ∷ t) h = refl

text_sql_shape : (s t : Text) → is_empty s ≡ is_empty t → (text_sql s).0 ≡ (text_sql t).0
unfolding text_sql
text_sql_shape [] [] h = refl
text_sql_shape [] (d ∷ t) h = absurd (cc)
text_sql_shape (c ∷ s) [] h = absurd (cc)
text_sql_shape (c ∷ s) (d ∷ t) h = refl

-- No value of a query gets into the text of its WHERE clause: two queries with the same fields and
-- signs, a pattern for a pattern and a text for a text, have the same text, whatever their values.
pub build_where_shape :
    (q r : Query) (now later : Time)
    → HaveSameShape q r
    → (build_where q now).0 ≡ (build_where r later).0
unfolding build_where
build_where_shape q r now later h =
    ap (λ conds. join (bytes " AND ") (bytes "time BETWEEN ? AND ?" ∷ conds))
      (ap₂ ◌++◌ (datacenter_sql_shape q.datacenter r.datacenter h.datacenter) (
        ap₂ ◌++◌ (filters_sql-AreLike q.filters r.filters h.filters)
          (text_sql_shape q.text r.text h.text)))
