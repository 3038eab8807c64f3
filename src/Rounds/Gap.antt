-- ===== src/Rounds/Gap.antt =====
-- The reads after a gap in `trackRound` of src/common/round-tracker.ts.
use uncs_bot.Common.{
  Bool, Option, [], false, if◌then◌else◌, is_some, leb, ltb, none, not, some, true, ℕ, ◌&&◌, ◌+◌,
  ◌==◌, ◌||◌,
}
use uncs_bot.Ballots.Selection.{same_map}
use uncs_bot.Rounds.Track.{
  LastRead, RoundId, RoundObservation, RoundPhase, RoundSeed, RoundSource, RoundTrack, RoundUpdate,
  Sample, TrackedRound, after_gap, baseline, by_clock, clock_jitter_ms, default_cap, new_round,
  observed, sample_of, score_drop, waiting,
}

-- What a read after a gap decides.
pub record GapResult : Type 0 where
  pub gap_round : TrackedRound
  pub gap_highest : ℕ
  pub gap_boundary : Bool
  pub gap_unseeded : Bool
  pub gap_stale : Option ℕ

abbrev pub or_index : Option ℕ → Option ℕ → Option ℕ
or_index (some i) known = some i
or_index none known = known

abbrev pub same_source : RoundSource → RoundSource → Bool
same_source by_clock by_clock = true
same_source observed observed = true
same_source baseline baseline = true
same_source _ _ = false

abbrev pub same_id : RoundId → RoundId → Bool
same_id a b = same_source a.id_source b.id_source && a.id_start == b.id_start

-- Both known and different.
abbrev pub indexes_differ : Option ℕ → Option ℕ → Bool
indexes_differ (some a) (some b) = not (a == b)
indexes_differ _ _ = false

abbrev same_clock : TrackedRound → Option ℕ → Bool
same_clock known none = true
same_clock known (some start) =
    leb start (known.started_at + clock_jitter_ms)
    && (not (same_source known.source by_clock) || leb known.started_at (start + clock_jitter_ms))

-- Whether a read after a gap may still be of the known round.
unfoldable pub fits : RoundSeed → RoundObservation → Sample → Bool
fits known observation sample =
    same_map known.seed_round.round_map observation.map_name
    && (not (indexes_differ known.seed_round.round_index observation.now_index)
        && (same_clock known.seed_round sample.clock_start
            && (not sample.valid || leb known.seed_highest (sample.leading + score_drop))))

-- The previous match's scores, still shown after the gap.
abbrev pub gap_stale_of : Option RoundTrack → RoundId → Sample → Option ℕ
gap_stale_of none id sample = none
gap_stale_of (some previous) id sample = elim previous.stale [
  | none ↦ none
  | some leading ↦
      if same_id previous.round.id id && (sample.valid && sample.leading == leading)
      then some leading
      else none
]

-- The known round, dated by the clock where there is one.
abbrev pub adopted : TrackedRound → Option ℕ → Option ℕ → TrackedRound
adopted known index none = record known {
  round_index = or_index index known.round_index;
  exact = false;
}
adopted known index (some start) = record known {
  round_index = or_index index known.round_index;
  started_at = start;
  source = by_clock;
  exact = true;
}

-- A round first seen already running.
abbrev pub first_seen : RoundObservation → Option ℕ → TrackedRound
first_seen observation none =
    new_round observation.map_name observation.now_index observation.at baseline false
first_seen observation (some start) =
    new_round observation.map_name observation.now_index start by_clock true

abbrev pub larger : ℕ → ℕ → ℕ
larger a b = if ltb a b then b else a

abbrev is_first : Option RoundTrack → Bool
is_first none = true
is_first (some previous) = false

unfoldable pub after_known : Option RoundTrack → RoundObservation → Sample → RoundSeed → GapResult
after_known previous observation sample known =
    let stale = gap_stale_of previous known.seed_round.id sample in
    if sample.valid || is_first previous
    then (if fits known observation sample
        then record {
          gap_round = adopted known.seed_round observation.now_index sample.clock_start;
          gap_highest =
              if is_some stale
              then known.seed_highest
              else larger known.seed_highest sample.leading;
          gap_boundary = false;
          gap_unseeded = false;
          gap_stale = stale;
        }
        else record {
          gap_round = first_seen observation sample.clock_start;
          gap_highest = sample.leading;
          gap_boundary = true;
          gap_unseeded = true;
          gap_stale = none;
        })
    else record {
      gap_round = record known.seed_round { exact = false };
      gap_highest = known.seed_highest;
      gap_boundary = false;
      gap_unseeded = false;
      gap_stale = none;
    }

unfoldable pub after_gap_result :
    Option RoundTrack → RoundObservation → Sample → Option RoundSeed → GapResult
after_gap_result previous observation sample (some known) =
    after_known previous observation sample known
after_gap_result (some previous) observation sample none =
    after_known (some previous) observation sample
      record { seed_round = previous.round; seed_highest = previous.highest }
after_gap_result none observation sample none = record {
  gap_round = first_seen observation sample.clock_start;
  gap_highest = sample.leading;
  gap_boundary = false;
  gap_unseeded = true;
  gap_stale = none;
}

abbrev pub is_waiting : RoundPhase → Bool
is_waiting waiting = true
is_waiting _ = false

-- The last valid read.
abbrev pub last_valid : Option RoundTrack → Sample → ℕ → LastRead
last_valid previous sample highest = if sample.valid then sample.sample_last else elim previous [
  | none ↦ record sample.sample_last { names = []; scores = []; last_leading = highest }
  | some track ↦ track.last
]

unfoldable pub track_gap : Option RoundTrack → RoundObservation → Option RoundSeed → RoundUpdate
track_gap previous observation seed =
    let sample = sample_of observation in
    let decided = after_gap_result previous observation sample seed in
    record {
      track = record {
        round = decided.gap_round;
        phase = sample.sample_phase;
        first_seen_at = observation.at;
        playing_since = none;
        highest = decided.gap_highest;
        ended = sample.valid && (not (is_some decided.gap_stale) && leb default_cap sample.leading);
        last_signal_at = if decided.gap_boundary then some observation.at else none;
        waiting_since = if is_waiting sample.sample_phase then some observation.at else none;
        last = last_valid previous sample decided.gap_highest;
        unseeded = decided.gap_unseeded;
        stale = decided.gap_stale;
      };
      boundary = decided.gap_boundary;
      reason = if decided.gap_boundary then some after_gap else none;
    }
