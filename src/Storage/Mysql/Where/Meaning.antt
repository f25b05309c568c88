-- ===== src/Storage/Mysql/Where/Meaning.antt =====
-- What the WHERE clause of storage/mysql/query.go selects, next to `Match` of storage/storage.go.
use consul_timeline.Common.{
  ◌≡◌, refl, ap₂, Bool, true, false, not, List, [], ◌∷◌, ◌++◌, if◌then◌else◌, map, any, ◌==◌,
}
use consul_timeline.Common.Text.{Text, text_eq, bytes}
use consul_timeline.Common.Int.{ℤ, pos}
use consul_timeline.Timeline.Event.{Event, old_status, new_status, int_beq}
use consul_timeline.Storage.Query.{Filter, field_tag}
use consul_timeline.Storage.Mysql.Where.{
  Arg, text_arg, int_arg, column, is_enum, is_pattern, negated, any_part, in_part, tag_part,
  name_part, value_arg, prefix_pattern, enum_value, filter_sql,
}
use consul_timeline.Storage.Mysql.Where.Like.{Collation}

-- A condition of a WHERE clause: the tests joined by OR, or a column among numbers.
pub data Test : Type 0 where
  equals : Text → Text → Test
  resembles : Text → Text → Test
  has_tag : Text → Test
  has_tag_like : Text → Test

pub data Body : Type 0 where
  some_of : List Test → Body
  among : Text → List ℤ → Body

pub record Condition : Type 0 where
  pub negate : Bool
  pub body : Body

-- How SQL spells a condition.
unfoldable pub test_text : Test → Text
test_text (equals col v) = col ++ bytes " = ?"
test_text (resembles col p) = col ++ bytes " LIKE ?"
test_text (has_tag v) = bytes "JSON_CONTAINS(tags, JSON_QUOTE(?))"
test_text (has_tag_like p) = bytes "JSON_SEARCH(tags, 'one', ?) IS NOT NULL"

unfoldable pub test_arg : Test → Arg
test_arg (equals col v) = text_arg v
test_arg (resembles col p) = text_arg p
test_arg (has_tag v) = text_arg v
test_arg (has_tag_like p) = text_arg p

unfoldable pub spell : Condition → Text × List Arg
unfolding test_text test_arg
spell c = elim c.body [
  | some_of ts ↦ (negated c.negate (any_part (map test_text ts)), map test_arg ts)
  | among col ns ↦ (negated c.negate (in_part col (map (λ (n : ℤ). bytes "?") ns)), map int_arg ns)
]

-- What the columns of a stored event hold.
unfoldable pub text_cell : Event → Text → Text
text_cell e col =
    if col == bytes "dc"
    then e.datacenter
    else if col == bytes "service_name"
    then e.service_name
    else if col == bytes "node_name"
    then e.node_name
    else if col == bytes "check_name"
    then e.check_name
    else if col == bytes "team"
    then e.team
    else if col == bytes "app"
    then e.app
    else if col == bytes "version"
    then e.version
    else if col == bytes "check_type"
    then e.check_type
    else []

unfoldable pub int_cell : Event → Text → ℤ
int_cell e col =
    if col == bytes "kind"
    then e.kind
    else if col == bytes "new_status"
    then new_status e
    else if col == bytes "old_status"
    then old_status e
    else pos e.new_healthy

-- What a condition says of a stored event, under the collation of the text columns and that of JSON
-- values, which the database compares by one of their own.
module _ (columns tags : Collation) where
  unfoldable pub test_holds : Event → Test → Bool
  unfolding text_cell
  test_holds e (equals col v) = columns.same (text_cell e col) v
  test_holds e (resembles col p) = columns.like (text_cell e col) p
  test_holds e (has_tag v) = any (λ t. tags.same t v) e.tags
  test_holds e (has_tag_like p) = any (λ t. tags.like t p) e.tags

  unfoldable pub body_holds : Event → Body → Bool
  unfolding test_holds int_cell
  body_holds e (some_of ts) = any (test_holds e) ts
  body_holds e (among col ns) = any (int_beq (int_cell e col)) ns

  unfoldable pub holds : Event → Condition → Bool
  unfolding body_holds
  holds e c = if c.negate then not (body_holds e c.body) else body_holds e c.body

abbrev pub name_test : Text → Text → Test
name_test col v = if is_pattern v then resembles col (prefix_pattern v) else equals col v

abbrev pub tag_test : Text → Test
tag_test v = if is_pattern v then has_tag_like (prefix_pattern v) else has_tag v

-- The condition that a filter stands for.
unfoldable pub condition_of : Filter → Condition
condition_of f = record {
  negate = f.not;
  body =
      if is_enum f.field
      then among (column f.field) (map (enum_value f.field) f.values)
      else if f.field == field_tag
      then some_of (map tag_test f.values)
      else some_of (map (name_test (column f.field)) f.values);
}

map-map :
    {A B C : Type 0} (g : A → B) (h : B → C) (k : A → C) (xs : List A)
    → ((x : A) → h (g x) ≡ k x)
    → map h (map g xs) ≡ map k xs
map-map g h k [] e = refl
map-map g h k (x ∷ xs) e = ap₂ ◌∷◌ (e x) (map-map g h k xs e)

spell_tests :
    (b : Bool) (t : Text → Test) (p : Text → Text) (vs : List Text)
    → ((v : Text) → test_text (t v) ≡ p v)
    → ((v : Text) → test_arg (t v) ≡ value_arg v)
    → spell (record { negate = b; body = some_of (map t vs) })
      ≡ (negated b (any_part (map p vs)), map value_arg vs)
unfolding spell
spell_tests b t p vs h k =
    ap₂ (λ (ps : List Text) (xs : List Arg). (negated b (any_part ps), xs))
      (map-map t test_text p vs h) (map-map t test_arg value_arg vs k)

spell_numbers :
    (b : Bool) (col : Text) (g : Text → ℤ) (vs : List Text)
    → spell (record { negate = b; body = among col (map g vs) })
      ≡ (negated b (in_part col (map (λ (v : Text). bytes "?") vs)), map (λ v. int_arg (g v)) vs)
unfolding spell
spell_numbers b col g vs =
    ap₂ (λ (ps : List Text) (xs : List Arg). (negated b (in_part col ps), xs))
      (map-map g (λ (n : ℤ). bytes "?") (λ (v : Text). bytes "?") vs (λ v. refl))
      (map-map g int_arg (λ v. int_arg (g v)) vs (λ v. refl))

test_text-name_test : (col v : Text) → test_text (name_test col v) ≡ name_part col (is_pattern v)
unfolding test_text
test_text-name_test col v =
    elim (is_pattern v)
      as (λ b.
        test_text (if b then resembles col (prefix_pattern v) else equals col v)
        ≡ name_part col b) [ true ↦ refl | false ↦ refl ]

test_arg-name_test : (col v : Text) → test_arg (name_test col v) ≡ value_arg v
unfolding test_arg
test_arg-name_test col v =
    elim (is_pattern v)
      as (λ b.
        test_arg (if b then resembles col (prefix_pattern v) else equals col v)
        ≡ (if b then text_arg (prefix_pattern v) else text_arg v)) [ true ↦ refl | false ↦ refl ]

test_text-tag_test : (v : Text) → test_text (tag_test v) ≡ tag_part (is_pattern v)
unfolding test_text
test_text-tag_test v =
    elim (is_pattern v)
      as (λ b. test_text (if b then has_tag_like (prefix_pattern v) else has_tag v) ≡ tag_part b) [
        | true ↦ refl
        | false ↦ refl
      ]

test_arg-tag_test : (v : Text) → test_arg (tag_test v) ≡ value_arg v
unfolding test_arg
test_arg-tag_test v =
    elim (is_pattern v)
      as (λ b.
        test_arg (if b then has_tag_like (prefix_pattern v) else has_tag v)
        ≡ (if b then text_arg (prefix_pattern v) else text_arg v)) [ true ↦ refl | false ↦ refl ]

-- `filterSQL` spells the condition that the filter stands for.
pub spell-condition_of : (f : Filter) → spell (condition_of f) ≡ filter_sql f
unfolding filter_sql condition_of
spell-condition_of f = go (is_enum f.field) (f.field == field_tag)
  where
    col : Text
    col = column f.field

    go :
        (a b : Bool)
        → spell (record {
          negate = f.not;
          body =
              if a
              then among col (map (enum_value f.field) f.values)
              else if b
              then some_of (map tag_test f.values)
              else some_of (map (name_test col) f.values);
        })
          ≡ (if a
              then (
                negated f.not (in_part col (map (λ (v : Text). bytes "?") f.values)),
                map (λ v. int_arg (enum_value f.field v)) f.values,
              )
              else if b
              then (
                negated f.not (any_part (map (λ v. tag_part (is_pattern v)) f.values)),
                map value_arg f.values,
              )
              else (
                negated f.not (any_part (map (λ v. name_part col (is_pattern v)) f.values)),
                map value_arg f.values,
              ))
    go true b = spell_numbers f.not col (enum_value f.field) f.values
    go false true =
        spell_tests f.not tag_test (λ v. tag_part (is_pattern v)) f.values test_text-tag_test
          test_arg-tag_test
    go false false =
        spell_tests f.not (name_test col) (λ v. name_part col (is_pattern v)) f.values
          (test_text-name_test col) (test_arg-name_test col)
