-- ===== src/Storage/Mysql/Maintain/Names.antt =====
-- The names of the partitions, which storage/mysql/storage.go keeps as the keys of a map.
use consul_timeline.Common.{
  ◌≡◌, refl, ap, ◌∙◌, Bool, true, false, Option, none, some, List, [], ◌∷◌, if◌then◌else◌, map, any,
  ◌==◌, arith,
}
use consul_timeline.Common.Text.{Text, text_eq}
use consul_timeline.Common.Assoc.{RangeOrder, lookup, insert, lookup-insert}
use consul_timeline.Storage.Facets.{mark_seen}
use consul_timeline.Storage.Mysql.Maintain.{is_existing}

-- Whether a name is in a list.
abbrev pub is_in : Text → List Text → Bool
is_in n ns = any (λ m. m == n) ns

abbrev is_some : Option Bool → Bool
is_some none = false
is_some (some b) = true

lookup-mark_seen :
    (n : Text) (ns : List Text) (m : List (Text × Bool))
    → lookup n (mark_seen m ns) ≡ (if is_in n ns then some true else lookup n m)
unfolding mark_seen
lookup-mark_seen n [] m = refl
lookup-mark_seen n (k ∷ ns) m =
    ground (arith, lookup-mark_seen n ns (insert k true m), lookup-insert k n true m)

-- The map of the names holds exactly the names.
pub is_existing-mark_seen :
    (n : Text) (ns : List Text) → is_existing n (mark_seen [] ns) ≡ is_in n ns
unfolding lookup
is_existing-mark_seen n ns = ground (arith, lookup-mark_seen n ns [])

is_in-keys : (n : Text) (m : List (Text × Bool)) → is_in n (map (λ p. p.0) m) ≡ is_some (lookup n m)
unfolding lookup
is_in-keys n [] = refl
is_in-keys n ((k, b) ∷ m) = ground (arith, is_in-keys n m)

abbrev pub names_of : RangeOrder Text Bool → List Text → List Text
names_of order ns = map (λ p. p.0) (order.range (mark_seen [] ns))

-- A loop over the map visits exactly the names.
pub is_in-names_of :
    (order : RangeOrder Text Bool) (n : Text) (ns : List Text)
    → is_in n (names_of order ns) ≡ is_in n ns
unfolding lookup
is_in-names_of order n ns =
    is_in-keys n (order.range (mark_seen [] ns))
    ∙ ap is_some (order.lookup-range n (mark_seen [] ns))
    ∙ ground (arith, lookup-mark_seen n ns [])
