-- ===== src/Storage/Agreement.antt =====
-- The values of storage/fields.go, the filters and the validation of storage/storage.go agree.
use consul_timeline.Common.{
  ℕ, ◌<◌, ◌≡◌, refl, ◌∙◌, Bool, true, false, none, some, List, [], ◌∷◌, ◌==◌, if◌then◌else◌, arith,
  any, ◌≢◌, ap, sym, subst, ◌++◌, take, take-append, length, length-append, ◌-◌, ◌↔◌,
}
use consul_timeline.Common.Text.{
  Text, text_eq, text_beq, text_beq_iff, has_suffix, has_prefix_iff, has_suffix-append,
}
use consul_timeline.Common.Decimal.{atoi, itoa, int_limit, atoi-itoa}
use consul_timeline.Common.Int.{pos}
use consul_timeline.Timeline.Status.{
  Status, kind_string, status_string, parse_kind, parse_status, parse_kind-kind_string,
  parse_status-status_string,
}
use consul_timeline.Timeline.Event.{Event, old_status, new_status}
use consul_timeline.Storage.Query.{
  field_healthy, validate_values, each_value, kind_value, status_value, healthy_value,
}
use consul_timeline.Storage.FieldCases.{by_field, IsUnknown}
use consul_timeline.Storage.Fields.{field_values, field_value}
use consul_timeline.Storage.Match.{match_one, match_name, match_number, star}

match_one-unknown : (f : Text) (e : Event) (v : Text) → IsUnknown f → match_one f e v ≡ false
unfolding match_one
match_one-unknown f e v u = ground arith

field_values-unknown : (f : Text) (e : Event) → IsUnknown f → field_values e f ≡ []
unfolding field_values field_value
field_values-unknown f e u = ground (arith, text_beq_iff [] [])

-- A pattern with no star is compared whole.
match_name-eq : (x v : Text) → has_suffix v star ≡ false → match_name x v ≡ text_beq x v
unfolding match_name
match_name-eq x v h = rw h

-- At most one value: the text itself, unless it is empty.
abbrev single : Text → List Text
single x = if x == [] then [] else x ∷ []

any-single : (x v : Text) → v ≢ [] → text_beq x v ≡ any (λ t. t == v) (single x)
any-single x v h = ground (arith, text_beq_iff x [], text_beq_iff x v)

any_ext : (p q : Text → Bool) (xs : List Text) → ((t : Text) → p t ≡ q t) → any p xs ≡ any q xs
any_ext p q [] h = refl
any_ext p q (x ∷ xs) h = ground (arith, h x, any_ext p q xs h)

module _ (e : Event) (v : Text) (v-plain : has_suffix v star ≡ false) where
  name_case : v ≢ [] → (x : Text) → match_name x v ≡ any (λ t. t == v) (single x)
  name_case h x = match_name-eq x v v-plain ∙ any-single x v h

  -- Away from the healthy count, a value that is not empty and has no trailing star selects an
  -- event exactly when it is one of the values that the event has for the field.
  pub match_one-field_values :
      v ≢ []
      → (f : Text) → f ≢ field_healthy
      → match_one f e v ≡ any (λ t. t == v) (field_values e f)
  unfolding match_one field_values text_beq
  match_one-field_values h =
      by_field (λ f. f ≢ field_healthy → match_one f e v ≡ any (λ t. t == v) (field_values e f))
        (λ _. name_case h e.datacenter) (λ _. name_case h e.service_name)
        (λ _. name_case h e.node_name) (λ _. name_case h e.check_name) (λ _. name_case h e.team)
        (λ _. name_case h e.app) (λ _. name_case h e.version) (λ _. any-single e.check_type v h)
        (λ _. any-single (kind_string e.kind) v h)
        (λ _. any_ext _ _ e.tags (λ t. match_name-eq t v v-plain))
        (λ _. any-single (status_string (new_status e)) v h)
        (λ _. any-single (status_string (old_status e)) v h) (λ n. absurd (n refl))
        (λ f u _.
          match_one-unknown f e v u ∙ sym (ap (any (λ t. t == v)) (field_values-unknown f e u)))

  any_elim : (x : Text) → any (λ t. t == v) (single x) ≡ true → x ≡ v
  any_elim x h = ground (arith, text_beq_iff x v, text_beq_iff x [])

  name_select : (x : Text) → any (λ t. t == v) (single x) ≡ true → match_name x v ≡ true
  name_select x h = match_name-eq x v v-plain ∙ (text_beq_iff x v).1 (any_elim x h)

  text_select : (x : Text) → any (λ t. t == v) (single x) ≡ true → text_beq x v ≡ true
  text_select x h = (text_beq_iff x v).1 (any_elim x h)

  healthy_select :
      (n : ℕ)
      → n < int_limit
      → any (λ t. t == v) (single (itoa n)) ≡ true
      → match_number n (atoi v) ≡ true
  healthy_select n b h =
      let p : atoi v ≡ some (pos n) =
        subst (λ t. atoi t ≡ some (pos n)) (any_elim (itoa n) h) (atoi-itoa n b) in
      rw p (ground arith)

  -- A value that the facets show for an event, taken as a filter on the same field, selects that
  -- event. The value has no trailing star and the healthy count fits in 64 bits.
  pub match_one_of_field_values :
      e.new_healthy < int_limit
      → (f : Text) → any (λ t. t == v) (field_values e f) ≡ true
      → match_one f e v ≡ true
  unfolding match_one field_values text_beq
  match_one_of_field_values bound =
      by_field (λ f. any (λ t. t == v) (field_values e f) ≡ true → match_one f e v ≡ true)
        (name_select e.datacenter) (name_select e.service_name) (name_select e.node_name)
        (name_select e.check_name) (name_select e.team) (name_select e.app) (name_select e.version)
        (text_select e.check_type) (text_select (kind_string e.kind))
        (λ h. sym (any_ext _ _ e.tags (λ t. sym (match_name-eq t v v-plain))) ∙ h)
        (text_select (status_string (new_status e))) (text_select (status_string (old_status e)))
        (healthy_select e.new_healthy bound)
        (λ f u h.
          absurd (let k : any (λ t. t == v) [] ≡ true = rw (field_values-unknown f e u) at h in cc))

module _ (e : Event) (v : Text) where
  kind_is_valid : text_beq (kind_string e.kind) v ≡ true → each_value kind_value (v ∷ []) ≡ none
  unfolding parse_kind
  kind_is_valid h =
      rw (← (text_beq_iff (kind_string e.kind) v).0 h, parse_kind-kind_string e.kind) refl

  status_is_valid :
      (s : Status) → text_beq (status_string s) v ≡ true → each_value status_value (v ∷ []) ≡ none
  unfolding parse_status
  status_is_valid s h =
      rw (← (text_beq_iff (status_string s) v).0 h, parse_status-status_string s) refl

  number_is_valid :
      (n : ℕ) → match_number n (atoi v) ≡ true → each_value healthy_value (v ∷ []) ≡ none
  number_is_valid n h = ground arith

  -- Validation refuses no filter value that selects some event.
  pub validate_values_of_match_one :
      (f : Text) → match_one f e v ≡ true → validate_values f (v ∷ []) ≡ none
  unfolding match_one validate_values text_beq
  validate_values_of_match_one =
      by_field (λ f. match_one f e v ≡ true → validate_values f (v ∷ []) ≡ none) (λ _. refl)
        (λ _. refl) (λ _. refl) (λ _. refl) (λ _. refl) (λ _. refl) (λ _. refl) (λ _. refl)
        (λ h. kind_is_valid h) (λ _. refl) (λ h. status_is_valid (new_status e) h)
        (λ h. status_is_valid (old_status e) h) (λ h. number_is_valid e.new_healthy h)
        (λ f u h. absurd (let k : false ≡ true = sym (match_one-unknown f e v u) ∙ h in cc))

-- A pattern that ends in a star selects the names that start with what stands before the star.
pub match_name_prefix_iff :
    (name p : Text) → match_name name (p ++ star) ≡ true ↔ ((rest : Text) × (name ≡ p ++ rest))
unfolding match_name
match_name_prefix_iff name p =
    let e : take (length (p ++ star) - 1) (p ++ star) ≡ p =
      take-append p star (length (p ++ star) - 1) (omega (arith, length-append p star)) in
    rw (has_suffix-append p star, e) (has_prefix_iff name p)

-- A pattern that does not end in a star selects the one name that it spells.
pub match_name_iff :
    (name p : Text) → has_suffix p star ≡ false → match_name name p ≡ true ↔ (name ≡ p)
unfolding match_name
match_name_iff name p h = rw h (text_beq_iff name p)
