-- ===== src/Tests/Timeline.antt =====
-- Examples on timeline/derive.go.
use consul_timeline.Common.{◌≡◌, refl, [], ◌∷◌, List}
use consul_timeline.Common.Text.{Text, text_eq, text_beq, bytes}
use consul_timeline.Common.Split.{split_on}
use consul_timeline.Timeline.Derive.{split_list}

-- A flag with a blank between its values.
abbrev two_keys : List Text
two_keys = bytes "team" ∷ bytes "owner" ∷ []

two_keys_split : split_list (λ s. s) (bytes "team,,owner") ≡ two_keys
unfolding split_list split_on text_beq
two_keys_split = refl
