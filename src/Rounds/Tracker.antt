-- ===== src/Rounds/Tracker.antt =====
-- The rest of src/common/round-tracker.ts: two reads without a gap, `trackRound` as a whole and the
-- tests on a track.
use uncs_bot.Common.{
  Bool, List, Option, [], any, false, if◌then◌else◌, is_some, leb, ltb, none, not, null, or_else,
  some, str_eq, true, ℕ, ◌&&◌, ◌+◌, ◌==◌, ◌||◌, ◌∷◌,
}
use uncs_bot.Ballots.Selection.{join, same_map}
use uncs_bot.Rounds.Track.{
  LastRead, Reason, RoundObservation, RoundPhase, RoundSeed, RoundSource, RoundTrack, RoundUpdate,
  Sample, TrackedRound, baseline, by_clock, clock_restarted, default_cap, gap_ms, index_changed,
  live, map_changed, merge_ms, missed_reset, new_round, observed, sample_of, score_drop,
  scores_reset, settle_ms, unknown, wait_before_play_ms,
}
use uncs_bot.Rounds.Gap.{indexes_differ, is_waiting, larger, or_index, same_source, track_gap}

-- `scores.every((score, position) => test(score, before.scores[position]))`
abbrev every_pair : (ℕ → ℕ → Bool) → List ℕ → List ℕ → Bool
every_pair test [] _ = true
every_pair test (score ∷ scores) [] = false
every_pair test (score ∷ scores) (before ∷ befores) =
    test score before && every_pair test scores befores

abbrev comparable : LastRead → LastRead → Bool
comparable before now =
    not (null before.names) && str_eq (join "\n" before.names) (join "\n" now.names)

abbrev clock_back : Option ℕ → Option ℕ → Bool
clock_back (some before) (some after) = ltb (after + 30) before
clock_back _ _ = false

-- Why the round changed between two valid reads, if it did.
unfoldable pub reason_of : RoundTrack → RoundObservation → Sample → Option Reason
reason_of previous observation sample =
    let before = previous.last in
    let same_names = comparable before sample.sample_last in
    if not (same_map before.last_map observation.map_name)
    then some map_changed
    else if indexes_differ before.last_index observation.now_index
    then some index_changed
    else if clock_back before.last_seconds observation.match_seconds
    then some clock_restarted
    else if same_names && (any (λ score. ltb 0 score) before.scores && sample.all_zero)
    then some scores_reset
    else if same_names
        && (leb (sample.leading + score_drop) previous.highest
            && every_pair leb sample.sample_last.scores before.scores)
    then some missed_reset
    else none

-- The previous match's final scores, still on screen.
unfoldable pub stale_of : RoundTrack → Sample → Option Reason → Option ℕ
stale_of previous sample reason =
    let same_names = comparable previous.last sample.sample_last in
    let unchanged =
      same_names && every_pair (λ a b. a == b) sample.sample_last.scores previous.last.scores in
    let kept : Option ℕ = elim previous.stale [
      | none ↦ none
      | some leading ↦ if same_names && sample.leading == leading then some leading else none
    ] in
    if is_some reason && (unchanged && ltb 0 sample.leading) then some sample.leading else kept

abbrev is_baseline : RoundSource → Bool
is_baseline baseline = true
is_baseline _ = false

-- A further signal of a round in which nobody has scored.
abbrev pub merges : RoundTrack → ℕ → Bool
merges previous at =
    not (is_baseline previous.round.source)
    && (previous.highest == 0 && leb at (previous.round.started_at + merge_ms))

abbrev is_observed : RoundSource → Bool
is_observed observed = true
is_observed _ = false

abbrev pub merged : TrackedRound → RoundObservation → Option ℕ → TrackedRound
merged round observation none = record round {
  round_map = observation.map_name;
  round_index = or_index observation.now_index round.round_index;
  started_at = if is_observed round.source then observation.at else round.started_at;
}
merged round observation (some start) = record round {
  round_map = observation.map_name;
  round_index = or_index observation.now_index round.round_index;
  started_at = start;
  source = by_clock;
  exact = true;
}

abbrev pub begun : RoundObservation → Option ℕ → TrackedRound
begun observation none =
    new_round observation.map_name observation.now_index observation.at observed true
begun observation (some start) =
    new_round observation.map_name observation.now_index start by_clock true

-- The round of a read without a signal.
abbrev pub kept_round : TrackedRound → Option ℕ → Option ℕ → TrackedRound
kept_round round index none = record round { round_index = or_index round.round_index index }
kept_round round index (some start) =
    if same_source round.source by_clock
    then record round { round_index = or_index round.round_index index }
    else record round {
      round_index = or_index round.round_index index;
      started_at = start;
      source = by_clock;
      exact = true;
    }

unfoldable pub next_round : RoundTrack → RoundObservation → Sample → Bool → Bool → TrackedRound
next_round previous observation sample signal boundary =
    if boundary
    then begun observation sample.clock_start
    else if signal
    then merged previous.round observation sample.clock_start
    else kept_round previous.round observation.now_index sample.clock_start

abbrev waited : RoundTrack → ℕ → Bool
waited previous at = is_waiting previous.phase && elim previous.waiting_since [
  | none ↦ false
  | some since ↦ leb (since + wait_before_play_ms) at
]

abbrev waiting_from : RoundTrack → ℕ → Option ℕ
waiting_from previous at =
    if is_waiting previous.phase && is_some previous.waiting_since
    then previous.waiting_since
    else some at

unfoldable pub track_valid : RoundTrack → RoundObservation → RoundUpdate
track_valid previous observation =
    let sample = sample_of observation in
    let at = observation.at in
    let reason = reason_of previous observation sample in
    let signal = is_some reason in
    let stale = stale_of previous sample reason in
    let counted = if is_some stale then 0 else sample.leading in
    let full = not (is_some stale) && leb default_cap sample.leading in
    let boundary = signal && not (merges previous at) in
    let playing = if boundary then none else previous.playing_since in
    let waits = is_waiting sample.sample_phase in
    record {
      track = record {
        round = next_round previous observation sample signal boundary;
        phase = sample.sample_phase;
        first_seen_at = if boundary then at else previous.first_seen_at;
        playing_since =
            if not waits && (waited previous at && not boundary) then some at else playing;
        highest = if signal then counted else larger previous.highest counted;
        ended = if signal then full else (previous.ended || full);
        last_signal_at = if signal then some at else previous.last_signal_at;
        waiting_since = if waits then waiting_from previous at else none;
        last = sample.sample_last;
        unseeded = not boundary && previous.unseeded;
        stale = stale;
      };
      boundary = boundary;
      reason = if boundary then reason else none;
    }

abbrev pub is_gap : Option RoundTrack → ℕ → Bool
is_gap none at = true
is_gap (some previous) at = ltb at previous.last.last_at || ltb (previous.last.last_at + gap_ms) at

-- Without a gap: an unreadable sample decides nothing.
unfoldable pub track_next : RoundTrack → RoundObservation → RoundUpdate
track_next previous observation =
    if (sample_of observation).valid
    then track_valid previous observation
    else record { track = record previous { phase = unknown }; boundary = false; reason = none }

-- `trackRound`
unfoldable pub track_round : Option RoundTrack → RoundObservation → Option RoundSeed → RoundUpdate
track_round none observation seed = track_gap none observation seed
track_round (some previous) observation seed =
    if is_gap (some previous) observation.at
    then track_gap (some previous) observation seed
    else track_next previous observation

abbrev pub is_live : RoundPhase → Bool
is_live live = true
is_live _ = false

-- `roundUnderway`
unfoldable pub round_underway : RoundTrack → Bool
round_underway track = is_live track.phase && ltb 0 track.highest

-- `roundSettled`
unfoldable pub round_settled : RoundTrack → ℕ → Bool
round_settled track at =
    is_live track.phase
    && leb (larger track.round.started_at (or_else track.last_signal_at 0) + settle_ms) at

-- The tracks of successive reads, each with the seed it was given.
unfoldable pub track_all :
    Option RoundTrack → List (RoundObservation × Option RoundSeed) → Option RoundTrack
track_all previous [] = previous
track_all previous ((observation, seed) ∷ reads) =
    track_all (some (track_round previous observation seed).track) reads
