-- ===== src/Events/PlanLaws.antt =====
-- `planEvent` of src/server-events/event-planner.ts as a whole: when it plans a move.
use uncs_bot.Common.{
  Bool, Option, String, arith, if_keeps, length, none, not, or_else, refl, some, subst, true, ℕ,
  ◌&&◌, ◌==◌, ◌||◌, ◌≡◌,
}
use uncs_bot.Rounds.Track.{RoundId, RoundTrack}
use uncs_bot.Rounds.Tracker.{is_live, round_settled, round_underway}
use uncs_bot.Events.Record.{
  EventOptions, EventPlan, EventProgress, EventRecord, EventSnapshot, is_vote_event,
}
use uncs_bot.Events.Roster.{Roster, RosterResult, event_roster, roster_issue, usable_roster}
use uncs_bot.Events.Rules.{
  is_finished, is_fresh_at, is_round, long_since, plan_issue, plan_waiting, roster_grace_ms,
}
use uncs_bot.Events.Plan.{
  is_phase_waiting, plan_event, plan_new_round, plan_playing, plan_read, plan_tracked, plan_usable,
}
use uncs_bot.Events.MoveLaws.{
  MovesAllowed, may_move, move_allowed, moved_by, plan_current-MovesAllowed, progress_of,
}

-- Every move of a plan is allowed, and planned only under a condition.
unfoldable MovesOnly : Bool → EventOptions → ℕ → Option EventPlan → Type 0
MovesOnly c options now plan =
    (id : String)
    → moved_by plan ≡ some id
    → (c ≡ true) × (move_allowed options now id (progress_of plan) ≡ true)

no_move-MovesOnly :
    (c : Bool) (options : EventOptions) (now : ℕ) (plan : Option EventPlan)
    → moved_by plan ≡ none
    → MovesOnly c options now plan
unfolding MovesOnly
no_move-MovesOnly c options now plan h id e = absurd (cc)

allowed-MovesOnly :
    (c : Bool) (options : EventOptions) (now : ℕ) (plan : Option EventPlan)
    → c ≡ true
    → MovesAllowed options now plan
    → MovesOnly c options now plan
unfolding MovesOnly MovesAllowed
allowed-MovesOnly c options now plan h allowed id e = (h, allowed id e)

more-MovesOnly :
    (c d : Bool) (options : EventOptions) (now : ℕ) (plan : Option EventPlan)
    → (c ≡ true → d ≡ true)
    → MovesOnly c options now plan
    → MovesOnly d options now plan
unfolding MovesOnly
more-MovesOnly c d options now plan f allowed id e = (f ((allowed id e).0), (allowed id e).1)

plan_new_round-no_move :
    (drawn : String) (event : EventRecord) (progress : EventProgress) (roster : Roster)
    (track : RoundTrack) (now : ℕ)
    → moved_by (plan_new_round drawn event progress roster track now) ≡ none
unfolding plan_new_round moved_by
plan_new_round-no_move drawn event progress roster track now =
    if_keeps (λ plan. moved_by plan ≡ none)
      (not (round_settled track now) || not (round_underway track) || track.ended) _ _ (λ e. refl)
      (λ e. refl)

plan_usable-MovesOnly :
    (drawn : String) (event : EventRecord) (before : EventProgress) (track : RoundTrack)
    (snapshot : EventSnapshot) (now : ℕ) (current : Bool) (roster : Roster)
    → MovesOnly current event.event_options now
        (plan_usable drawn event before track snapshot now current roster)
unfolding plan_usable moved_by
plan_usable-MovesOnly drawn event before track snapshot now current roster =
    let options = event.event_options in
    let Q : Option EventPlan → Type 0 = MovesOnly current options now in
    if_keeps Q (not (snapshot.population == length snapshot.snapshot_players)) _ _
      (λ e. no_move-MovesOnly current options now _ refl)
      (λ e.
        if_keeps Q (not current) _ _
          (λ f.
            no_move-MovesOnly current options now _
              (plan_new_round-no_move drawn event _ roster track now))
          (λ f.
            allowed-MovesOnly current options now _ (ground arith)
              (plan_current-MovesAllowed drawn event _ roster track snapshot now)))

plan_read-MovesOnly :
    (drawn : String) (event : EventRecord) (progress : EventProgress) (track : RoundTrack)
    (snapshot : EventSnapshot) (now : ℕ) (current : Bool) (result : RosterResult)
    → MovesOnly current event.event_options now
        (plan_read drawn event progress track snapshot now current result)
unfolding plan_read plan_issue moved_by
plan_read-MovesOnly drawn event progress track snapshot now current (usable_roster roster) =
    plan_usable-MovesOnly drawn event progress track snapshot now current roster
plan_read-MovesOnly drawn event before track snapshot now current (roster_issue issue) =
    let options = event.event_options in
    let Q : Option EventPlan → Type 0 = MovesOnly current options now in
    if_keeps Q (not (is_vote_event options)) _ _ (λ e. no_move-MovesOnly current options now _ refl)
      (λ e.
        if_keeps Q (long_since (some (or_else before.roster_issue_since now)) roster_grace_ms now) _
          _ (λ f. no_move-MovesOnly current options now _ refl)
          (λ f. no_move-MovesOnly current options now _ refl))

plan_waiting-no_move :
    (event : EventRecord) (before : EventProgress) (now : ℕ) (current : Bool)
    → moved_by (plan_waiting event before now current) ≡ none
unfolding plan_waiting moved_by
plan_waiting-no_move event before now current = ground arith

plan_playing-MovesOnly :
    (drawn : String) (event : EventRecord) (before : EventProgress) (track : RoundTrack)
    (snapshot : EventSnapshot) (now : ℕ) (current : Bool)
    → MovesOnly
        (is_live track.phase && current)
        event.event_options
        now
        (plan_playing drawn event before track snapshot now current)
unfolding plan_playing moved_by
plan_playing-MovesOnly drawn event before track snapshot now current =
    let options = event.event_options in
    let live = is_live track.phase in
    let progress : EventProgress = record before { event_waiting_since = none } in
    let Q : Option EventPlan → Type 0 = MovesOnly (live && current) options now in
    if_keeps Q (not live) _ _ (λ e. no_move-MovesOnly (live && current) options now _ refl)
      (λ e.
        if_keeps Q (is_finished event progress && (not current || track.ended)) _ _
          (λ f. no_move-MovesOnly (live && current) options now _ refl)
          (λ f.
            more-MovesOnly current (live && current) options now _ (λ c. ground arith)
              (plan_read-MovesOnly drawn event progress track snapshot now current
                (event_roster options progress.teams snapshot))))

-- The tracked round is the event's, and is being played.
abbrev pub in_round : EventRecord → RoundTrack → Bool
in_round event track =
    is_live track.phase
    && is_round track (some (or_else event.event_progress.round_id track.round.id))

plan_tracked-MovesOnly :
    (drawn : String) (event : EventRecord) (track : RoundTrack) (snapshot : EventSnapshot) (now : ℕ)
    → MovesOnly
        (in_round event track)
        event.event_options
        now
        (plan_tracked drawn event track snapshot now)
unfolding plan_tracked moved_by
plan_tracked-MovesOnly drawn event track snapshot now =
    let options = event.event_options in
    let c = in_round event track in
    let id : Option RoundId = some (or_else event.event_progress.round_id track.round.id) in
    if_keeps (MovesOnly c options now) (is_phase_waiting track.phase) _ _
      (λ e.
        no_move-MovesOnly c options now _ (plan_waiting-no_move event _ now (is_round track id)))
      (λ e. plan_playing-MovesOnly drawn event _ track snapshot now (is_round track id))

plan_event-MovesOnly :
    (drawn : String) (event : EventRecord) (snapshot : EventSnapshot) (now : ℕ) (track : RoundTrack)
    → MovesOnly
        (is_fresh_at snapshot.observed_at now && in_round event track)
        event.event_options
        now
        (plan_event drawn event snapshot now (some track))
unfolding plan_event moved_by
plan_event-MovesOnly drawn event snapshot now track =
    let options = event.event_options in
    let fresh = is_fresh_at snapshot.observed_at now in
    let c = fresh && in_round event track in
    if_keeps (MovesOnly c options now) fresh _ _
      (λ e.
        more-MovesOnly (in_round event track) c options now _ (λ i. ground arith)
          (plan_tracked-MovesOnly drawn event track snapshot now))
      (λ e. no_move-MovesOnly c options now _ refl)

-- A player is moved only in the event's own round while it is played, on an observation at most 15
-- seconds old, a whole warning time after the warning that the plan's progress records for the player,
-- and only if the progress does not list the player as moved in this round.
pub plan_event-may_move :
    (drawn : String) (event : EventRecord) (snapshot : EventSnapshot) (now : ℕ) (track : RoundTrack)
    (plan : EventPlan) (id : String)
    → plan_event drawn event snapshot now (some track) ≡ some plan
    → moved_by (some plan) ≡ some id
    → (is_fresh_at snapshot.observed_at now && in_round event track ≡ true)
      × (may_move event.event_options now id plan.plan_progress ≡ true)
unfolding MovesOnly
plan_event-may_move drawn event snapshot now track plan id p m =
    subst
      (MovesOnly (is_fresh_at snapshot.observed_at now && in_round event track) event.event_options
        now)
      p (plan_event-MovesOnly drawn event snapshot now track) id m
