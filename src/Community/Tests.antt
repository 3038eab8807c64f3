-- ===== src/Community/Tests.antt =====
-- A few joins and welcomes, and the theorems at them.
use uncs_bot.Community.RosterLaws.{IsRoster, observe_all, observe_all-IsRoster}
use uncs_bot.Common.{
  List, String, [], arith, get, none, put, refl, remove, some, true, ℕ, ◌<◌, ◌∷◌, ◌≡◌, ◌≢◌,
}
use uncs_bot.Ballots.Selection.{map_label, same_map}
use uncs_bot.Community.Rotation.{
  choose, forget_oldest, indexes_from, new_rotation, no_history, remembered, standard, welcome_from,
}
use uncs_bot.Community.RotationLaws.{
  Choice, IsSmall, given, given-no_repeat, no_repeat, welcome_all, welcome_all-IsSmall,
}
use uncs_bot.Community.Presence.{
  CommunitySnapshot, CommunityState, CommunityStatus, baseline_result, changed_round, distinct_ids,
  evict, initial_community_state, joined_ids, observe_community, observe_next, seen_all,
}
use uncs_bot.Community.Remembered.{pool_after, welcomed, welcomed-other_variant}

abbrev quiet_status : CommunityStatus
quiet_status = record {
  status_map = "Europe";
  clock = some 100;
  status_scores = record { name = "A"; score = 3 } ∷ [];
  current_count = 2;
}

abbrev with_players : List String → CommunitySnapshot
with_players ids = record { player_ids = ids; status = quiet_status }

abbrev one_there : CommunityState
one_there = (observe_community initial_community_state (with_players ("1" ∷ [])) 1000).next_state

second_joins :
    (observe_community one_there (with_players ("1" ∷ "2" ∷ "2" ∷ [])) 11000).joined ≡ "2" ∷ []
unfolding observe_community observe_next baseline_result seen_all put get evict distinct_ids
    joined_ids changed_round same_map map_label
second_joins = refl

abbrev reads : List (CommunitySnapshot × ℕ)
reads = (with_players ("1" ∷ []), 1000) ∷ (with_players ("1" ∷ "2" ∷ []), 11000) ∷ []

observe_all-IsRoster_example : IsRoster (observe_all initial_community_state reads)
unfolding IsRoster
observe_all-IsRoster_example = observe_all-IsRoster reads initial_community_state (tt, omega arith)

abbrev first_place : ℕ → ℕ
first_place count = 0

abbrev welcome_for : String → Choice
welcome_for id = record {
  choice_pool = standard;
  choice_id = id;
  choice_count = 3;
  choice_drawn = first_place;
}

abbrev three_welcomes : List Choice
three_welcomes = welcome_for "1" ∷ welcome_for "2" ∷ welcome_for "1" ∷ []

variants : given 2 no_history three_welcomes ≡ 0 ∷ 1 ∷ 2 ∷ []
unfolding given welcome_from remembered choose indexes_from forget_oldest remove get
variants = refl

-- The first player is welcomed again after the second one.
welcomed-other_variant_example :
    let first = welcomed 2 no_history (welcome_for "1") in
    let again = welcomed 2 (pool_after 2 first.0 (welcome_for "2" ∷ [])) (welcome_for "1") in
    (again.1 ≢ first.1) × (again.1 < 3)
welcomed-other_variant_example =
    welcomed-other_variant 2 no_history (welcome_for "1") (welcome_for "1") (welcome_for "2" ∷ [])
      refl (refl, tt) (omega arith) (omega arith)

given-no_repeat_example : no_repeat none (given 2 no_history three_welcomes) ≡ true
given-no_repeat_example =
    given-no_repeat 2 no_history three_welcomes (omega arith, (omega arith, (omega arith, tt)))

welcome_all-IsSmall_example : IsSmall 2 (welcome_all 2 new_rotation three_welcomes)
unfolding IsSmall
welcome_all-IsSmall_example =
    welcome_all-IsSmall 2 three_welcomes new_rotation (omega arith, omega arith)
