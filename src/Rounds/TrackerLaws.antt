-- ===== src/Rounds/TrackerLaws.antt =====
-- What a round keeps from read to read.
use uncs_bot.Rounds.Gap.{adopted, after_gap_result, after_known, fits, track_gap}
use uncs_bot.Common.{
  Bool-cases, List, Option, [], arith, false, inl, inr, is_some, none, refl, some, true, ℕ, ◌∷◌,
  ◌≡◌, ◌≤◌,
}
use uncs_bot.Rounds.Track.{
  RoundObservation, RoundSeed, RoundTrack, RoundUpdate, Sample, TrackedRound, sample_of,
}
use uncs_bot.Rounds.Tracker.{
  is_gap, kept_round, merged, merges, next_round, reason_of, track_all, track_next, track_round,
  track_valid,
}

-- The same round, with no fewer points counted.
abbrev pub Continues : RoundTrack → RoundUpdate → Type 0
Continues previous update =
    (update.track.round.id ≡ previous.round.id) × (previous.highest ≤ update.track.highest)

adopted-id :
    (known : TrackedRound) (index start : Option ℕ) → (adopted known index start).id ≡ known.id
adopted-id known index none = refl
adopted-id known index (some start) = refl

merged-id :
    (round : TrackedRound) (observation : RoundObservation) (start : Option ℕ)
    → (merged round observation start).id ≡ round.id
merged-id round observation none = refl
merged-id round observation (some start) = refl

kept_round-id :
    (round : TrackedRound) (index start : Option ℕ) → (kept_round round index start).id ≡ round.id
kept_round-id round index none = refl
kept_round-id round index (some start) = ground (arith)

after_known-Continues :
    (previous : RoundTrack) (observation : RoundObservation) (sample : Sample) (known : RoundSeed)
    → (after_known (some previous) observation sample known).gap_boundary ≡ false
    → ((after_known (some previous) observation sample known).gap_round.id ≡ known.seed_round.id)
      × (known.seed_highest ≤ (after_known (some previous) observation sample known).gap_highest)
unfolding after_known
after_known-Continues previous observation sample known h = elim (Bool-cases sample.valid) [
  | inl e ↦ elim (Bool-cases (fits known observation sample)) [
    | inl f ↦
        rw (f, e, after_known)
          (adopted-id known.seed_round observation.now_index sample.clock_start, ground arith)
    | inr f ↦ absurd (ground arith)
  ]
  | inr e ↦ rw (e, after_known) (refl, omega arith)
]

track_gap-Continues :
    (previous : RoundTrack) (observation : RoundObservation)
    → (track_gap (some previous) observation none).boundary ≡ false
    → Continues previous (track_gap (some previous) observation none)
unfolding track_gap after_gap_result
track_gap-Continues previous observation h =
    after_known-Continues previous observation (sample_of observation)
      record { seed_round = previous.round; seed_highest = previous.highest } h

track_valid-Continues :
    (previous : RoundTrack) (observation : RoundObservation)
    → (track_valid previous observation).boundary ≡ false
    → Continues previous (track_valid previous observation)
unfolding track_valid next_round
track_valid-Continues previous observation h =
    let sample = sample_of observation in
    let reason = reason_of previous observation sample in
    elim (Bool-cases (is_some reason)) [
      | inl signal ↦ elim (Bool-cases (merges previous observation.at)) [
        | inl merging ↦
            rw (signal, merging, next_round)
              (merged-id previous.round observation sample.clock_start, ground arith)
        | inr apart ↦ absurd (ground arith)
      ]
      | inr quiet ↦
          rw (quiet, next_round)
            (kept_round-id previous.round observation.now_index sample.clock_start, ground arith)
    ]

-- Without a seed, a read that reports no boundary keeps the round's identity, whatever the gap, and
-- never lowers the points counted in it.
pub track_round-Continues :
    (previous : RoundTrack) (observation : RoundObservation)
    → (track_round (some previous) observation none).boundary ≡ false
    → Continues previous (track_round (some previous) observation none)
unfolding track_round track_next
track_round-Continues previous observation h =
    elim (Bool-cases (is_gap (some previous) observation.at)) [
      | inl gap ↦
          let within_gap : (track_gap (some previous) observation none).boundary ≡ false =
            ground arith in
          rw (gap, track_round) (track_gap-Continues previous observation within_gap)
      | inr near ↦ elim (Bool-cases (sample_of observation).valid) [
        | inl valid ↦
            let v : (track_valid previous observation).boundary ≡ false = ground arith in
            rw (near, track_round, valid, track_next) (track_valid-Continues previous observation v)
        | inr invalid ↦ rw (near, track_round, invalid, track_next) (refl, omega arith)
      ]
    ]

-- A round that has ended has 100 points counted.
abbrev pub IsCounted : Option RoundTrack → Type 0
IsCounted none = Unit
IsCounted (some track) = track.ended ≡ true → 100 ≤ track.highest

after_known-counts :
    (previous : Option RoundTrack) (observation : RoundObservation) (sample : Sample)
    (known : RoundSeed)
    → sample.valid ≡ true
    → is_some (after_known previous observation sample known).gap_stale ≡ false
    → sample.leading ≤ (after_known previous observation sample known).gap_highest
unfolding after_known
after_known-counts previous observation sample known valid fresh =
    elim (Bool-cases (fits known observation sample)) [
      | inl f ↦ ground arith
      | inr f ↦ ground arith
    ]

after_gap_result-counts :
    (previous : Option RoundTrack) (observation : RoundObservation) (sample : Sample)
    (seed : Option RoundSeed)
    → sample.valid ≡ true
    → is_some (after_gap_result previous observation sample seed).gap_stale ≡ false
    → sample.leading ≤ (after_gap_result previous observation sample seed).gap_highest
unfolding after_gap_result
after_gap_result-counts previous observation sample (some known) valid fresh =
    after_known-counts previous observation sample known valid fresh
after_gap_result-counts (some previous) observation sample none valid fresh =
    after_known-counts (some previous) observation sample _ valid fresh
after_gap_result-counts none observation sample none valid fresh = omega arith

track_gap-IsCounted :
    (previous : Option RoundTrack) (observation : RoundObservation) (seed : Option RoundSeed)
    → IsCounted (some (track_gap previous observation seed).track)
unfolding track_gap
track_gap-IsCounted previous observation seed ended =
    let counts = after_gap_result-counts previous observation (sample_of observation) seed in
    ground (arith)

track_valid-IsCounted :
    (previous : RoundTrack) (observation : RoundObservation)
    → IsCounted (some previous)
    → IsCounted (some (track_valid previous observation).track)
unfolding track_valid
track_valid-IsCounted previous observation counted ended = ground (arith)

track_round-IsCounted :
    (previous : Option RoundTrack) (observation : RoundObservation) (seed : Option RoundSeed)
    → IsCounted previous
    → IsCounted (some (track_round previous observation seed).track)
unfolding track_round track_next
track_round-IsCounted none observation seed counted = track_gap-IsCounted none observation seed
track_round-IsCounted (some previous) observation seed counted =
    elim (Bool-cases (is_gap (some previous) observation.at)) [
      | inl gap ↦
          rw (gap, track_round, IsCounted) (track_gap-IsCounted (some previous) observation seed)
      | inr near ↦ elim (Bool-cases (sample_of observation).valid) [
        | inl valid ↦
            rw (near, track_round, valid, track_next, IsCounted)
              (track_valid-IsCounted previous observation counted)
        | inr invalid ↦ rw (near, track_round, invalid, track_next, IsCounted) counted
      ]
    ]

track_all-IsCounted_from :
    (reads : List (RoundObservation × Option RoundSeed)) (previous : Option RoundTrack)
    → IsCounted previous
    → IsCounted (track_all previous reads)
unfolding track_all
track_all-IsCounted_from [] previous counted = counted
track_all-IsCounted_from ((observation, seed) ∷ reads) previous counted =
    track_all-IsCounted_from reads (some (track_round previous observation seed).track)
      (track_round-IsCounted previous observation seed counted)

-- Over any sequence of reads and seeds from the start, a round is marked as ended only with 100 points
-- out of 100 counted in it.
pub track_all-IsCounted :
    (reads : List (RoundObservation × Option RoundSeed)) → IsCounted (track_all none reads)
track_all-IsCounted reads = track_all-IsCounted_from reads none tt

-- A boundary on scores still shown counts nothing.
abbrev IsFresh : RoundUpdate → Type 0
IsFresh update =
    update.boundary ≡ true → is_some update.track.stale ≡ true → update.track.highest ≡ 0
