-- ===== src/Watch/Lists.antt =====
-- watch/watch.go: `watchServices` and `watchNodes`, the loops that follow the two lists.
use consul_timeline.Common.{
  ℕ, ◌+◌, ◌≡◌, refl, ap, ◌∙◌, Bool, true, false, List, [], ◌∷◌, ◌++◌, if◌then◌else◌, if_ind,
  nat_beq, length, length-append, arith,
}
use consul_timeline.Common.Text.{Text}
use consul_timeline.Timeline.Event.{Time}
use consul_timeline.Consul.{Node}
use consul_timeline.Watch.Loop.{Turn, stops, ends, fails, replies, next_index, has_reply}
use consul_timeline.Watch.Sync.{Services, Nodes, sync_services, sync_nodes}

-- The variables of a list loop, the watches of the list in `W`, and the calls of `listArrived`, by
-- what they pass.
pub record ListWatch (W : Type 0) : Type 0 where
  pub index : ℕ
  pub first : Bool
  pub running : Bool
  pub watches : W
  pub arrived : List ℕ

module _ {W R : Type 0} (sync : Time → ℕ → Bool → R → W → W × ℕ) where
  -- The list is taken in on the first reply and whenever its index changes; only the first one
  -- counts for readiness.
  abbrev pub take_in : ListWatch W → Time → ℕ → R → ListWatch W
  take_in s at index reply =
      let (w, added) = sync at index s.first reply s.watches in
      record s {
        index = next_index s.index index;
        first = false;
        watches = w;
        arrived = if s.first then s.arrived ++ (added ∷ []) else s.arrived;
      }

  abbrev pub pass_over : ListWatch W → ℕ → ListWatch W
  pass_over s index = record s { index = next_index s.index index; first = false }

  -- One round. These loops have no stop of their own: theirs is the end of the context.
  unfoldable pub list_round : ListWatch W → Turn R → ListWatch W
  unfolding next_index
  list_round s (stops at) = record s { running = false }
  list_round s ends = record s { running = false }
  list_round s (fails goes_on) = record s { running = goes_on }
  list_round s (replies at index reply) =
      if s.first
      then take_in s at index reply
      else if nat_beq index s.index
      then pass_over s index
      else take_in s at index reply

  unfoldable pub watch_list : ListWatch W → List (Turn R) → ListWatch W
  unfolding list_round
  watch_list s [] = s
  watch_list s (t ∷ ts) = let rest = watch_list (list_round s t) ts in if s.running then rest else s

  -- After the first reply no arrival is added.
  list_round-steady :
      (s : ListWatch W) (t : Turn R)
      → s.first ≡ false
      → ((list_round s t).first ≡ false) × ((list_round s t).arrived ≡ s.arrived)
  unfolding list_round
  list_round-steady s (stops at) f = (f, refl)
  list_round-steady s ends f = (f, refl)
  list_round-steady s (fails goes_on) f = (f, refl)
  list_round-steady s (replies at index reply) f =
      if_ind (λ (u : ListWatch W). (u.first ≡ false) × (u.arrived ≡ s.arrived)) s.first
        (take_in s at index reply) _ (λ t. absurd (cc))
        (λ _.
          if_ind (λ (u : ListWatch W). (u.first ≡ false) × (u.arrived ≡ s.arrived))
            (nat_beq index s.index) (pass_over s index) (take_in s at index reply)
            (λ _. (refl, refl)) (λ _. (refl, rw f refl)))

  watch_list-steady :
      (s : ListWatch W) (ts : List (Turn R))
      → s.first ≡ false
      → (watch_list s ts).arrived ≡ s.arrived
  unfolding watch_list
  watch_list-steady s [] f = refl
  watch_list-steady s (t ∷ ts) f =
      let (a, b) = list_round-steady s t f in
      if_ind (λ (u : ListWatch W). u.arrived ≡ s.arrived) s.running (watch_list (list_round s t) ts)
        s (λ _. watch_list-steady (list_round s t) ts a ∙ b) (λ _. refl)

  watch_list-ended :
      (s : ListWatch W) (ts : List (Turn R)) → s.running ≡ false → watch_list s ts ≡ s
  unfolding watch_list
  watch_list-ended s [] r = refl
  watch_list-ended s (t ∷ ts) r = rw r refl

  watch_list-cons :
      (s : ListWatch W) (t : Turn R) (ts : List (Turn R))
      → s.running ≡ true
      → watch_list s (t ∷ ts) ≡ watch_list (list_round s t) ts
  unfolding watch_list
  watch_list-cons s t ts r = rw r refl

  -- Whatever the fetches of a list bring, its loop calls `listArrived` once if one of them succeeds
  -- before the loop ends.
  pub watch_list-arrived :
      (s : ListWatch W) (ts : List (Turn R))
      → s.first ≡ true
      → s.running ≡ true
      → length (watch_list s ts).arrived ≡ length s.arrived + (if has_reply ts then 1 else 0)
  unfolding list_round watch_list
  watch_list-arrived s [] f r = omega arith
  watch_list-arrived s (stops at ∷ ts) f r =
      ap (λ u. length u.arrived)
        (watch_list-cons s (stops at) ts r
          ∙ watch_list-ended (record s { running = false }) ts refl)
      ∙ omega arith
  watch_list-arrived s (ends ∷ ts) f r =
      ap (λ u. length u.arrived)
        (watch_list-cons s ends ts r ∙ watch_list-ended (record s { running = false }) ts refl)
      ∙ omega arith
  watch_list-arrived s (fails true ∷ ts) f r =
      ap (λ u. length u.arrived) (watch_list-cons s (fails true) ts r)
      ∙ watch_list-arrived (record s { running = true }) ts f refl
  watch_list-arrived s (fails false ∷ ts) f r =
      ap (λ u. length u.arrived)
        (watch_list-cons s (fails false) ts r
          ∙ watch_list-ended (record s { running = false }) ts refl)
      ∙ omega arith
  watch_list-arrived s (replies at index reply ∷ ts) f r =
      ap (λ u. length u.arrived) (watch_list-cons s (replies at index reply) ts r)
      ∙ ap (λ u. length (watch_list u ts).arrived) taken
      ∙ ap length (watch_list-steady (take_in s at index reply) ts refl)
      ∙ added s.first f
    where
      taken : list_round s (replies at index reply) ≡ take_in s at index reply
      taken = rw f refl

      added :
          (b : Bool)
          → b ≡ true
          → length (
              if b
              then s.arrived ++ ((sync at index s.first reply s.watches).1 ∷ [])
              else s.arrived)
            ≡ length s.arrived + 1
      added true e = length-append s.arrived (_ ∷ [])
      added false e = absurd (cc)

-- `watchServices`; a reply is the list of the service names.
unfoldable pub watch_services : ListWatch Services → List (Turn (List Text)) → ListWatch Services
unfolding watch_list sync_services
watch_services = watch_list (λ at index initial listed s. sync_services listed s)

-- `watchNodes`.
unfoldable pub watch_nodes : Text → ListWatch Nodes → List (Turn (List Node)) → ListWatch Nodes
unfolding watch_list sync_nodes
watch_nodes dc = watch_list (λ at index initial nodes s. sync_nodes dc at index initial nodes s)

-- Whatever the replies and errors, the loop over the service list and the one over the node list,
-- each from its start, call `listArrived` exactly once if a fetch succeeds before the loop ends, and not
-- at all otherwise: a failed fetch does not count.
pub watch_lists-arrived :
    (dc : Text) (s : ListWatch Services) (n : ListWatch Nodes) (services : List (Turn (List Text)))
    (nodes : List (Turn (List Node)))
    → (s.first ≡ true) × (s.running ≡ true)
    → (n.first ≡ true) × (n.running ≡ true)
    → (length (watch_services s services).arrived
        ≡ length s.arrived + (if has_reply services then 1 else 0))
      × (length (watch_nodes dc n nodes).arrived
          ≡ length n.arrived + (if has_reply nodes then 1 else 0))
unfolding watch_services watch_nodes
watch_lists-arrived dc s n services nodes h k =
    (watch_list-arrived _ s services h.0 h.1, watch_list-arrived _ n nodes k.0 k.1)
