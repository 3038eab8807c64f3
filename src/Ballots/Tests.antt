-- ===== src/Ballots/Tests.antt =====
-- Ballots on a rotation of three rows, and the theorems at such inputs.
use uncs_bot.Common.{
  List, String, [], arith, false, filter, length, map, none, refl, some, true, ℕ, ◌<◌, ◌∷◌, ◌≡◌,
  ◌≢◌, ◌≤◌,
}
use uncs_bot.Ballots.Selection.{MapSelection, format_rotation, map_label, same_map}
use uncs_bot.Ballots.Placement.{move, plan_map_next}
use uncs_bot.Ballots.Policy.{
  ReminderSettings, VotingPolicy, VotingSettings, close_reached, first_option, keep_rotation,
  rotation, voting_issues,
}
use uncs_bot.Ballots.PolicyLaws.{close_reached-threshold}
use uncs_bot.Ballots.Builder.{BallotInput}
use uncs_bot.Ballots.BuilderLaws.{IsUnlike}
use uncs_bot.Ballots.Ballot.{build_ballot}
use uncs_bot.Ballots.BallotLaws.{build_ballot-IsUnlike, build_ballot-length, is_ordinary}
use uncs_bot.Ballots.Winner.{ballot_winner, is_index}
use uncs_bot.Ballots.WinnerLaws.{Holds, ballot_winner-leads}

abbrev row : String → String → MapSelection
row name mode = record {
  map_id = name;
  experiences = mode ∷ [];
  lighting = none;
  zone_alternator = none;
}

abbrev first_row : MapSelection
first_row = row "Kavkazi" "KOTH"

abbrev second_row : MapSelection
second_row = row "Europe" "KOTH"

abbrev third_row : MapSelection
third_row = row "NorthAmerica" "KOTH_Hardcore"

abbrev three_rows : List MapSelection
three_rows = first_row ∷ second_row ∷ third_row ∷ []

abbrev reminder : ℕ → ReminderSettings
reminder at = record { score = at; discord = true; in_game = true }

-- `defaultVotingPolicy`, switched on with both kinds of choice.
abbrev open_policy : VotingPolicy
open_policy = record {
  enabled = true;
  map_choices = true;
  mode_choices = true;
  midpoint_reminder = true;
  final_reminder = true;
}

-- `defaultVotingSettings` with the 50v50 option.
abbrev open_settings : VotingSettings
open_settings = record {
  option_count = 3;
  source = rotation;
  pool_entries = [];
  exclude_current_map = true;
  exclude_recent = 0;
  min_players = 40;
  open_delay_seconds = 180;
  open_score_ceiling = 70;
  close_at_score = 95;
  midpoint_settings = reminder 50;
  final_settings = reminder 85;
  open_in_game = true;
  result_in_game = true;
  tie_rule = keep_rotation;
  fifty_fifty = record {
    offered = true;
    min_players = 80;
    min_votes = 5;
    closed_faction = none;
    warning_seconds = 30;
    balance_window_seconds = 300;
    force_respawn = false;
    rounds = 1;
    auto_end = true;
    cooldown_rounds = 1;
    max_round_minutes = 60;
  };
}

abbrev three_options : BallotInput
three_options = record {
  policy = open_policy;
  settings = open_settings;
  rotation_entries = three_rows;
  current_index = 0;
  issues = [];
  status_next_index = none;
  history = [];
  unavailable_pool = [];
  fifty_input = some record { fifty_ready = true; fifty_reason = "" };
}

-- The third row moves up behind the running one.
moves_up : (plan_map_next three_rows 0 none third_row).placement ≡ move
unfolding plan_map_next format_rotation
moves_up = refl

-- The two other rows and the next row as 50v50.
three_offered :
    map (λ option. option.fifty_event) (build_ballot three_options).options
    ≡ false ∷ false ∷ true ∷ []
unfolding build_ballot same_map map_label format_rotation
three_offered = refl

build_ballot-IsUnlike_example : IsUnlike (filter is_ordinary (build_ballot three_options).options)
build_ballot-IsUnlike_example = build_ballot-IsUnlike three_options first_row refl refl

build_ballot-length_example :
    (length (build_ballot three_options).options ≤ 3)
    × (length (build_ballot three_options).options < 2
        → 0 < length (build_ballot three_options).notes)
build_ballot-length_example = build_ballot-length three_options (omega arith)

-- Two tied leaders: the lowest that is not 50v50.
tie_settled : ballot_winner (4 ∷ 2 ∷ 4 ∷ []) first_option (some 0) ≡ some 2
unfolding ballot_winner
tie_settled = refl

outright : ballot_winner (2 ∷ 1 ∷ 4 ∷ []) keep_rotation (some 2) ≡ some 2
unfolding ballot_winner
outright = refl

ballot_winner-leads_example :
    (votes : ℕ) × Holds (2 ∷ 1 ∷ 4 ∷ []) 2 votes
    × (0 < votes)
    × ((i count : ℕ) → Holds (2 ∷ 1 ∷ 4 ∷ []) i count → count ≤ votes)
    × ((i count : ℕ)
        → Holds (2 ∷ 1 ∷ 4 ∷ []) i count
        → is_index (some 2) 2 ≡ true
        → i ≢ 2
        → count < votes)
ballot_winner-leads_example = ballot_winner-leads (2 ∷ 1 ∷ 4 ∷ []) keep_rotation (some 2) 2 outright

no_issues : voting_issues open_policy open_settings false ≡ []
unfolding voting_issues
no_issues = refl

close_reached-threshold_example :
    (close_reached open_settings (some 7) 93 ≡ true
      → 93 ≤ 96
      → close_reached open_settings (some 7) 96 ≡ true)
    × (95 ≤ 93 → close_reached open_settings (some 7) 93 ≡ true)
    × (103 < 95 → close_reached open_settings (some 7) 93 ≡ false)
close_reached-threshold_example = close_reached-threshold open_settings (some 7) 93 96

closes_early : close_reached open_settings (some 7) 93 ≡ true
unfolding close_reached
closes_early = refl
