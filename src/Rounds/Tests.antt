-- ===== src/Rounds/Tests.antt =====
-- A map change seen on the final scoreboard of the match before it, and the theorems at it.
use uncs_bot.Rounds.Gap.{after_gap_result, after_known, fits, track_gap}
use uncs_bot.Common.{String, [], false, insert_by, none, refl, some, sort_by, ℕ, ◌∷◌, ◌≡◌}
use uncs_bot.Ballots.Selection.{join, map_label, same_map}
use uncs_bot.Rounds.Track.{
  RoundObservation, RoundTrack, RoundUpdate, cap_of, highest_score, sample_of, valid_scores,
}
use uncs_bot.Rounds.Tracker.{
  next_round, reason_of, stale_of, track_all, track_next, track_round, track_valid,
}
use uncs_bot.Rounds.TrackerLaws.{Continues, IsCounted, track_all-IsCounted, track_round-Continues}

abbrev read : ℕ → String → ℕ → RoundObservation
read time place points = record {
  at = time;
  map_name = place;
  now_index = none;
  faction_scores = record { name = "A"; score = points } ∷ record { name = "B"; score = 20 } ∷ [];
  current_players = 60;
  match_seconds = none;
  score_cap = none;
  threshold = 20;
}

abbrev first_read : RoundObservation
first_read = read 1000000 "Kavkazi" 90

abbrev at_end : RoundObservation
at_end = read 1010000 "Kavkazi" 100

abbrev next_map : RoundObservation
next_map = read 1020000 "Europe" 100

abbrev started : RoundTrack
started = (track_round none first_read none).track

abbrev finished : RoundTrack
finished = (track_round (some started) at_end none).track

abbrev travelled : RoundUpdate
travelled = track_round (some finished) next_map none

no_boundary : (track_round (some started) at_end none).boundary ≡ false
unfolding track_round track_gap track_next track_valid sample_of cap_of valid_scores highest_score
    after_gap_result after_known fits reason_of stale_of next_round join same_map map_label sort_by
    insert_by
no_boundary = refl

track_round-Continues_example : Continues started (track_round (some started) at_end none)
track_round-Continues_example = track_round-Continues started at_end no_boundary

track_all-IsCounted_example :
    IsCounted (track_all none ((first_read, none) ∷ (at_end, none) ∷ (next_map, none) ∷ []))
track_all-IsCounted_example =
    track_all-IsCounted ((first_read, none) ∷ (at_end, none) ∷ (next_map, none) ∷ [])
