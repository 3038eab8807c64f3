-- ===== src/Rounds/Track.antt =====
-- Observations, rounds and what a read shows: the types of src/common/round-tracker.ts and the first
-- part of `trackRound`. Scores, clocks and times are whole numbers, and no match clock is longer than
-- the time since 1970.
use uncs_bot.Common.{
  Bool, List, Option, String, [], all, any, if◌then◌else◌, leb, length, ltb, map, none, not, some,
  sort_by, str_eq, true, truthy, ℕ, ◌&&◌, ◌*◌, ◌-◌, ◌/◌, ◌==◌, ◌∷◌,
}
use uncs_bot.Ballots.Selection.{str_before}

pub record FactionScore : Type 0 where
  pub name : String
  pub score : ℕ

pub record RoundObservation : Type 0 where
  pub at : ℕ
  pub map_name : String
  pub now_index : Option ℕ
  pub faction_scores : List FactionScore
  pub current_players : ℕ
  pub match_seconds : Option ℕ
  pub score_cap : Option ℕ
  pub threshold : ℕ

pub data RoundSource : Type 0 where
  by_clock observed baseline : RoundSource

-- The text `${source}:${startedAt}`.
pub record RoundId : Type 0 where
  pub id_source : RoundSource
  pub id_start : ℕ

pub record TrackedRound : Type 0 where
  pub id : RoundId
  pub round_map : String
  pub round_index : Option ℕ
  pub started_at : ℕ
  pub source : RoundSource
  pub exact : Bool

pub data RoundPhase : Type 0 where
  unknown waiting live : RoundPhase

pub record LastRead : Type 0 where
  pub last_at : ℕ
  pub last_map : String
  pub last_index : Option ℕ
  pub names : List String
  pub scores : List ℕ
  pub last_leading : ℕ
  pub last_seconds : Option ℕ

pub record RoundTrack : Type 0 where
  pub round : TrackedRound
  pub phase : RoundPhase
  pub first_seen_at : ℕ
  pub playing_since : Option ℕ
  pub highest : ℕ
  pub ended : Bool
  pub last_signal_at : Option ℕ
  pub waiting_since : Option ℕ
  pub last : LastRead
  pub unseeded : Bool
  pub stale : Option ℕ

pub record RoundSeed : Type 0 where
  pub seed_round : TrackedRound
  pub seed_highest : ℕ

pub data Reason : Type 0 where
  after_gap map_changed index_changed clock_restarted scores_reset missed_reset : Reason

pub record RoundUpdate : Type 0 where
  pub track : RoundTrack
  pub boundary : Bool
  pub reason : Option Reason

abbrev pub gap_ms : ℕ
gap_ms = 60000

abbrev pub merge_ms : ℕ
merge_ms = 180000

abbrev pub settle_ms : ℕ
settle_ms = 30000

abbrev pub clock_jitter_ms : ℕ
clock_jitter_ms = 30000

abbrev pub wait_before_play_ms : ℕ
wait_before_play_ms = 30000

abbrev pub score_drop : ℕ
score_drop = 10

abbrev pub default_cap : ℕ
default_cap = 100

abbrev pub new_round : String → Option ℕ → ℕ → RoundSource → Bool → TrackedRound
new_round name index started source exact = record {
  id = record { id_source = source; id_start = started };
  round_map = name;
  round_index = index;
  started_at = started;
  source = source;
  exact = exact;
}

-- `capOf`
unfoldable pub cap_of : Option ℕ → ℕ
cap_of none = default_cap
cap_of (some cap) = if ltb 0 cap then cap else default_cap

abbrev all_names_differ : List FactionScore → Bool
all_names_differ [] = true
all_names_differ (item ∷ items) =
    not (any (λ other. str_eq other.name item.name) items) && all_names_differ items

-- `validScores`
unfoldable pub valid_scores : List FactionScore → ℕ → Bool
valid_scores items cap =
    leb 2 (length items)
    && (all_names_differ items && all (λ item. truthy (some item.name) && leb item.score cap) items)

unfoldable pub highest_score : List FactionScore → ℕ
highest_score [] = 0
highest_score (item ∷ items) =
    let rest = highest_score items in if ltb rest item.score then item.score else rest

-- What one observation shows.
pub record Sample : Type 0 where
  pub valid : Bool
  pub clock_start : Option ℕ
  pub leading : ℕ
  pub all_zero : Bool
  pub sample_phase : RoundPhase
  pub sample_last : LastRead

abbrev start_of : ℕ → Option ℕ → Option ℕ
start_of at none = none
start_of at (some clock) = some (at - clock * 1000)

-- The part of `trackRound` before the gap is decided.
unfoldable pub sample_of : RoundObservation → Sample
unfolding cap_of valid_scores highest_score
sample_of observation =
    let cap = cap_of observation.score_cap in
    let valid = valid_scores observation.faction_scores cap in
    let sorted =
      if valid then sort_by (λ a b. str_before a.name b.name) observation.faction_scores else [] in
    let leading = if valid then (highest_score sorted * 100) / cap else 0 in
    let all_zero = valid && all (λ item. item.score == 0) sorted in
    record {
      valid = valid;
      clock_start = start_of observation.at observation.match_seconds;
      leading = leading;
      all_zero = all_zero;
      sample_phase =
          if not valid
          then unknown
          else if ltb observation.current_players observation.threshold && all_zero
          then waiting
          else live;
      sample_last = record {
        last_at = observation.at;
        last_map = observation.map_name;
        last_index = observation.now_index;
        names = map (λ item. item.name) sorted;
        scores = map (λ item. item.score) sorted;
        last_leading = leading;
        last_seconds = observation.match_seconds;
      };
    }
