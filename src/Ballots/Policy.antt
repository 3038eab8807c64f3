-- ===== src/Ballots/Policy.antt =====
-- The five switches, the settings of a ballot and their cross-field rules, and the score a ballot
-- closes at: src/common/voting-policy.ts. Settings are whole numbers in the ranges the schema checks.
use uncs_bot.Common.{
  Bool, List, Option, String, [], any, false, if◌then◌else◌, leb, length, ltb, map, none, not, some,
  true, ℕ, ◌&&◌, ◌+◌, ◌-◌, ◌||◌, ◌∷◌,
}
use uncs_bot.Ballots.Selection.{MapSelection, same_key, vote_choice_key}

pub record VotingPolicy : Type 0 where
  pub enabled : Bool
  pub map_choices : Bool
  pub mode_choices : Bool
  pub midpoint_reminder : Bool
  pub final_reminder : Bool

pub data VoteReminder : Type 0 where
  midpoint final : VoteReminder

pub record ReminderSettings : Type 0 where
  pub score : ℕ
  pub discord : Bool
  pub in_game : Bool

pub record FiftyFiftySettings : Type 0 where
  pub offered : Bool
  pub min_players : ℕ
  pub min_votes : ℕ
  pub closed_faction : Option String
  pub warning_seconds : ℕ
  pub balance_window_seconds : ℕ
  pub force_respawn : Bool
  pub rounds : ℕ
  pub auto_end : Bool
  pub cooldown_rounds : ℕ
  pub max_round_minutes : ℕ

pub data VoteTieRule : Type 0 where
  keep_rotation first_option : VoteTieRule

pub data Source : Type 0 where
  rotation pool : Source

pub record VotingSettings : Type 0 where
  pub option_count : ℕ
  pub source : Source
  pub pool_entries : List MapSelection
  pub exclude_current_map : Bool
  pub exclude_recent : ℕ
  pub min_players : ℕ
  pub open_delay_seconds : ℕ
  pub open_score_ceiling : ℕ
  pub close_at_score : ℕ
  pub midpoint_settings : ReminderSettings
  pub final_settings : ReminderSettings
  pub open_in_game : Bool
  pub result_in_game : Bool
  pub tie_rule : VoteTieRule
  pub fifty_fifty : FiftyFiftySettings

-- `votingMilestones.target`
abbrev pub target : ℕ
target = 100

-- One constructor per `add` of `votingIssues`.
pub data VotingIssue : Type 0 where
  fifty_held : VotingIssue
  ceiling_too_high : VotingIssue
  reminder_after_close : VoteReminder → VotingIssue
  reminder_nowhere : VoteReminder → VotingIssue
  reminders_out_of_order : VotingIssue
  pool_repeats : VotingIssue
  pool_too_small : VotingIssue
  nothing_to_choose : Bool → VotingIssue

abbrev pub is_pool : Source → Bool
is_pool rotation = false
is_pool pool = true

-- `new Set(keys).size === keys.length`
unfoldable pub all_different : List (List String) → Bool
unfolding same_key
all_different [] = true
all_different (key ∷ keys) = not (any (same_key key) keys) && all_different keys

abbrev pub issue_if : Bool → VotingIssue → List VotingIssue → List VotingIssue
issue_if test issue rest = if test then issue ∷ rest else rest

-- One round of the loop over the two reminders.
unfoldable pub reminder_issues :
    Bool → VoteReminder → ReminderSettings → ℕ → List VotingIssue → List VotingIssue
reminder_issues on slot reminder close rest =
    issue_if (on && leb close reminder.score) (reminder_after_close slot)
      (issue_if (on && (not reminder.discord && not reminder.in_game)) (reminder_nowhere slot) rest)

-- `votingIssues`
unfoldable pub voting_issues : VotingPolicy → VotingSettings → Bool → List VotingIssue
unfolding reminder_issues all_different
voting_issues policy settings held =
    let close = settings.close_at_score in
    let offered = settings.fifty_fifty.offered in
    issue_if (held && offered) fifty_held (
      issue_if (ltb close (settings.open_score_ceiling + 5)) ceiling_too_high (
        reminder_issues policy.midpoint_reminder midpoint settings.midpoint_settings close (
          reminder_issues policy.final_reminder final settings.final_settings close (
            issue_if
              (policy.midpoint_reminder
                && (policy.final_reminder
                    && leb settings.final_settings.score settings.midpoint_settings.score))
              reminders_out_of_order
              (issue_if (not (all_different (map vote_choice_key settings.pool_entries)))
                pool_repeats
                (issue_if
                  (policy.enabled
                    && (is_pool settings.source && ltb (length settings.pool_entries) 2))
                  pool_too_small
                  (issue_if
                    (policy.enabled
                      && (not policy.map_choices
                          && (not policy.mode_choices && (held || not offered))))
                    (nothing_to_choose held) [])))))))

pub record CloseThreshold : Type 0 where
  pub threshold_score : ℕ
  pub early : ℕ
  pub max_step : ℕ

-- `closeThreshold`; the close score is at least 50.
unfoldable pub close_threshold : VotingSettings → Option ℕ → CloseThreshold
close_threshold settings step = record {
  threshold_score = settings.close_at_score;
  early = settings.close_at_score - 10;
  max_step = elim step [ none ↦ 0 | some n ↦ n ];
}

-- `closeReached`
unfoldable pub close_reached : VotingSettings → Option ℕ → ℕ → Bool
unfolding close_threshold
close_reached settings step progress =
    let threshold = close_threshold settings step in
    leb threshold.threshold_score progress
    || (leb threshold.early progress && leb target (progress + threshold.max_step))
