-- ===== src/Keys/Tests.antt =====
-- The theorems about capability lists at concrete inputs.
use gotifacts.Prelude.{◌≡◌, ◌≢◌, refl, List, [], ◌∷◌, All, ok}
use gotifacts.Text.{codes, contains_text, text_eq, trim_space, to_lower, split}
use gotifacts.Keys.{
  Capability, cap_publish, cap_read, is_capability, IsCapability, parse_capabilities,
  join_capabilities,
}
use gotifacts.Keys.Lists.{
  IsDistinct, parse_capabilities-join_capabilities, parse_capabilities-eq-ok,
}

abbrev two_caps : List Capability
two_caps = cap_read ∷ cap_publish ∷ []

round_trip_example : parse_capabilities (join_capabilities two_caps) ≡ ok two_caps
unfolding is_capability contains_text
round_trip_example =
    parse_capabilities-join_capabilities two_caps (cc) (refl, (refl, tt)) (refl, (refl, tt))

parsed_example : (two_caps ≢ []) × All IsCapability two_caps × IsDistinct two_caps
unfolding parse_capabilities split text_eq trim_space to_lower contains_text
parsed_example = parse_capabilities-eq-ok (codes " Read,,publish,READ ") two_caps refl
