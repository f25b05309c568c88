-- ===== src/Timeline/Status.antt =====
-- timeline/event.go: Status and Kind, with their names, and the status of a Consul check.
use consul_timeline.Common.{
  ℕ, zero, suc, ◌≡◌, refl, Bool, true, false, List, [], ◌∷◌, arith, ltb, if◌then◌else◌, ◌==◌,
  le→ltb_false,
}
use consul_timeline.Common.Text.{Text, text_eq, text_beq, bytes}
use consul_timeline.Common.Int.{ℤ, pos, negsuc}
use consul_timeline.Timeline.Enum.{name_of, index_of, parse_name, name_of-parse_name}

-- `type Status int8`: any stored number, six of which have a name.
abbrev pub Status : Type 0
Status = ℤ

abbrev pub status_unknown : Status
status_unknown = pos 0

abbrev pub status_missing : Status
status_missing = pos 1

abbrev pub status_critical : Status
status_critical = pos 2

abbrev pub status_warning : Status
status_warning = pos 3

abbrev pub status_passing : Status
status_passing = pos 4

abbrev pub status_maintenance : Status
status_maintenance = pos 5

abbrev pub status_names : List Text
status_names =
    bytes "unknown"
    ∷ bytes "missing"
    ∷ bytes "critical"
    ∷ bytes "warning"
    ∷ bytes "passing"
    ∷ bytes "maintenance"
    ∷ []

unfoldable pub status_string : Status → Text
unfolding name_of
status_string s = name_of status_names s

unfoldable pub parse_status : Text → Status × Bool
unfolding parse_name index_of text_beq
parse_status s = parse_name status_names s

-- The names that Consul's client library gives to check states and to the checks by which an
-- operator puts a node or a service under maintenance. The library is not part of the repository.
pub record ConsulApi : Type 0 where
  pub health_passing : Text
  pub health_warning : Text
  pub health_critical : Text
  pub health_maint : Text
  pub node_maint : Text
  pub service_maint_prefix : Text

unfoldable pub status_from_consul : ConsulApi → Text → Status
status_from_consul api s =
    if s == api.health_passing
    then status_passing
    else if s == api.health_warning
    then status_warning
    else if s == api.health_critical
    then status_critical
    else if s == api.health_maint
    then status_maintenance
    else status_unknown

-- `type Kind int8`.
abbrev pub Kind : Type 0
Kind = ℤ

abbrev pub kind_unknown : Kind
kind_unknown = pos 0

abbrev pub kind_check : Kind
kind_check = pos 1

abbrev pub kind_instance : Kind
kind_instance = pos 2

abbrev pub kind_node : Kind
kind_node = pos 3

abbrev pub kind_names : List Text
kind_names = bytes "unknown" ∷ bytes "check" ∷ bytes "instance" ∷ bytes "node" ∷ []

unfoldable pub kind_string : Kind → Text
unfolding name_of
kind_string k = name_of kind_names k

unfoldable pub parse_kind : Text → Kind × Bool
unfolding parse_name index_of text_beq
parse_kind s = parse_name kind_names s

-- Whether a number has a name in an enumeration of `n` names.
abbrev pub in_range : ℕ → ℤ → Bool
in_range n (pos v) = ltb v n
in_range n (negsuc v) = false

-- Printing a status and parsing the name gives the status back, and 0 (unknown) where the number
-- has no name; the parse always succeeds.
pub parse_status-status_string :
    (s : Status)
    → parse_status (status_string s) ≡ (if in_range 6 s then s else status_unknown, true)
unfolding parse_status status_string
parse_status-status_string (negsuc n) = refl
parse_status-status_string (pos zero) = refl
parse_status-status_string (pos (suc zero)) = refl
parse_status-status_string (pos (suc (suc zero))) = refl
parse_status-status_string (pos (suc (suc (suc zero)))) = refl
parse_status-status_string (pos (suc (suc (suc (suc zero))))) = refl
parse_status-status_string (pos (suc (suc (suc (suc (suc zero)))))) = refl
parse_status-status_string (pos (suc (suc (suc (suc (suc (suc n))))))) =
    rw (le→ltb_false (suc (suc (suc (suc (suc (suc n)))))) 6 (omega arith))

-- Printing a kind and parsing the name gives the kind back, and 0 (unknown) where the number has
-- no name; the parse always succeeds.
pub parse_kind-kind_string :
    (k : Kind) → parse_kind (kind_string k) ≡ (if in_range 4 k then k else kind_unknown, true)
unfolding parse_kind kind_string
parse_kind-kind_string (negsuc n) = refl
parse_kind-kind_string (pos zero) = refl
parse_kind-kind_string (pos (suc zero)) = refl
parse_kind-kind_string (pos (suc (suc zero))) = refl
parse_kind-kind_string (pos (suc (suc (suc zero)))) = refl
parse_kind-kind_string (pos (suc (suc (suc (suc n))))) =
    rw (le→ltb_false (suc (suc (suc (suc n)))) 4 (omega arith))

-- A text that parses as a status is the name of that status.
pub status_string-parse_status :
    (t : Text) (s : Status) → parse_status t ≡ (s, true) → status_string s ≡ t
status_string-parse_status t s h =
    unfold parse_status status_string in name_of-parse_name status_names t s h

-- A text that parses as a kind is the name of that kind.
pub kind_string-parse_kind : (t : Text) (k : Kind) → parse_kind t ≡ (k, true) → kind_string k ≡ t
kind_string-parse_kind t k h = unfold parse_kind kind_string in name_of-parse_name kind_names t k h
