-- ===== src/Storage/Mysql/Where/Values.antt =====
-- The values of a filter, as storage/mysql/query.go and storage/storage.go read them.
use consul_timeline.Common.{
  ℕ, ◌≡◌, ◌≢◌, refl, sym, ap, ◌∙◌, Bool, true, Option, none, some, List, [], ◌∷◌, if◌then◌else◌,
  arith,
}
use consul_timeline.Common.Text.{Text, text_eq, text_beq, text_beq_iff}
use consul_timeline.Common.Int.{ℤ, pos, negsuc}
use consul_timeline.Timeline.Status.{
  Status, Kind, kind_string, status_string, parse_kind, parse_status, in_range,
  parse_kind-kind_string, parse_status-status_string, kind_string-parse_kind,
  status_string-parse_status, kind_unknown, status_unknown,
}
use consul_timeline.Timeline.Event.{Event, old_status, new_status, int_beq, int_beq_iff}
use consul_timeline.Storage.Query.{
  validate_values, each_value, kind_value, status_value, healthy_value, FilterError, unknown_field,
}
use consul_timeline.Storage.Match.{match_number}
use consul_timeline.Storage.FieldCases.{by_field, IsUnknown}
use consul_timeline.Storage.Mysql.Where.{or_zero}

-- An event whose kind and statuses have names, as the watcher emits them.
pub record IsNamed (e : Event) : Type 0 where
  pub named_kind : in_range 4 e.kind ≡ true
  pub named_old : in_range 6 (old_status e) ≡ true
  pub named_new : in_range 6 (new_status e) ≡ true

pub both_ways : (a b : Bool) → (a ≡ true → b ≡ true) → (b ≡ true → a ≡ true) → a ≡ b
both_ways a b h k = ground arith

-- What kinds and statuses share: numbers with names, and a parser that undoes the printer.
module _ (show : ℤ → Text) (parse : Text → ℤ × Bool)
    (back : (n : ℤ) (v : Text) → parse v ≡ (n, true) → show n ≡ v) where
  enum_case :
      (k : ℤ) (v : Text)
      → parse (show k) ≡ (k, true)
      → (parse v).1 ≡ true
      → text_beq (show k) v ≡ int_beq k (parse v).0
  enum_case k v own h =
      both_ways (text_beq (show k) v) (int_beq k (parse v).0)
        (λ t.
          let e : show k ≡ v = (text_beq_iff (show k) v).0 t in
          (int_beq_iff k (parse v).0).1 (ap (λ (p : ℤ × Bool). p.0) (sym own ∙ ap parse e)))
        (λ t.
          let e : k ≡ (parse v).0 = (int_beq_iff k (parse v).0).0 t in
          (text_beq_iff (show k) v).1 (ap show e ∙ back (parse v).0 v (λ i. ((parse v).0, h i))))

pub kind_case :
    (k : Kind) (v : Text)
    → in_range 4 k ≡ true
    → (parse_kind v).1 ≡ true
    → text_beq (kind_string k) v ≡ int_beq k (parse_kind v).0
kind_case k v r =
    enum_case kind_string parse_kind (λ n w. kind_string-parse_kind w n) k v
      (parse_kind-kind_string k ∙ ap (λ b. (if b then k else kind_unknown, true)) r)

pub status_case :
    (s : Status) (v : Text)
    → in_range 6 s ≡ true
    → (parse_status v).1 ≡ true
    → text_beq (status_string s) v ≡ int_beq s (parse_status v).0
status_case s v r =
    enum_case status_string parse_status (λ n w. status_string-parse_status w n) s v
      (parse_status-status_string s ∙ ap (λ b. (if b then s else status_unknown, true)) r)

pub healthy_case :
    (n : ℕ) (o : Option ℤ) → o ≢ none → match_number n o ≡ int_beq (pos n) (or_zero o)
healthy_case n none h = absurd (h refl)
healthy_case n (some (pos m)) h = refl
healthy_case n (some (negsuc m)) h = refl

pub validate_values-unknown :
    (f : Text) (vs : List Text) → IsUnknown f → validate_values f vs ≡ some (unknown_field f)
unfolding validate_values
validate_values-unknown f vs u = ground arith

pub each_value-cons :
    (check : Text → Option FilterError) (v : Text) (vs : List Text)
    → each_value check (v ∷ vs) ≡ none
    → (each_value check (v ∷ []) ≡ none) × (each_value check vs ≡ none)
each_value-cons check v vs h = ground arith

-- A list of values is valid only where each one is.
pub validate_values-cons :
    (v : Text) (vs : List Text) (f : Text)
    → validate_values f (v ∷ vs) ≡ none
    → (validate_values f (v ∷ []) ≡ none) × (validate_values f vs ≡ none)
unfolding validate_values text_beq
validate_values-cons v vs =
    by_field
      (λ f.
        validate_values f (v ∷ vs) ≡ none
        → (validate_values f (v ∷ []) ≡ none) × (validate_values f vs ≡ none))
      (λ _. (refl, refl)) (λ _. (refl, refl)) (λ _. (refl, refl)) (λ _. (refl, refl))
      (λ _. (refl, refl)) (λ _. (refl, refl)) (λ _. (refl, refl)) (λ _. (refl, refl))
      (each_value-cons kind_value v vs) (λ _. (refl, refl)) (each_value-cons status_value v vs)
      (each_value-cons status_value v vs) (each_value-cons healthy_value v vs)
      (λ f u h. absurd (
        let k : some (unknown_field f) ≡ none = sym (validate_values-unknown f (v ∷ vs) u) ∙ h in
        cc))
