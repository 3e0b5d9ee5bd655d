-- ===== src/Tests/ConditionTests.antt =====
-- The conditions of a profile, written and removed.
use wto.Common.{◌≡◌, some, [], ◌∷◌, ◌==◌, if◌then◌else◌}
use wto.Api.{Message, sprintf, condition_false, condition_valid}
use wto.Profile.Conditions.{set_condition}
use wto.Profile.Conditions.Laws.{find_condition, written, find-set_condition}
use wto.Tests.Fixtures.{valid}

abbrev invalid_text : Message
invalid_text = sprintf "Profile has missing dependencies" []

find-set_condition_example :
    find_condition condition_valid
      (set_condition 9 7 condition_valid condition_false "Invalid" invalid_text (valid ∷ []))
    ≡ (if condition_valid == condition_valid
        then some (
            written 9 7 condition_valid condition_false "Invalid" invalid_text
              (find_condition condition_valid (valid ∷ [])))
        else find_condition condition_valid (valid ∷ []))
find-set_condition_example =
    find-set_condition 9 7 condition_valid condition_false "Invalid" invalid_text condition_valid
      (valid ∷ [])
