-- ===== src/Events/PlanSafe.antt =====
-- `planEvent` of src/server-events/event-planner.ts always plans, and who may stop the event by itself.
use uncs_bot.Common.{
  Bool, Option, Option-cases, String, any, arith, if_keeps, inl, inr, is_some, length, map, none,
  not, or_else, refl, some, subst, sym, true, ℕ, ◌&&◌, ◌==◌, ◌||◌, ◌∙◌, ◌≡◌,
}
use uncs_bot.Rounds.Track.{RoundTrack}
use uncs_bot.Events.Record.{
  EventOptions, EventPlan, EventProgress, EventRecord, EventSnapshot, is_vote_event, stop_roster,
  stop_rounds,
}
use uncs_bot.Events.Roster.{
  Roster, RosterResult, event_roster, event_teams, roster_issue, roster_of, teams_playing,
  usable_roster, vote_teams,
}
use uncs_bot.Events.Rules.{
  is_finished, is_fresh_at, is_waiting_round, long_since, plan_issue, plan_waiting, roster_grace_ms,
}
use uncs_bot.Events.Plan.{
  is_phase_waiting, plan_current, plan_event, plan_new_round, plan_playing, plan_read, plan_roster,
  plan_tracked, plan_usable, too_soon, warn_unheard,
}
use uncs_bot.Rounds.Tracker.{is_live, round_settled, round_underway}
use uncs_bot.Events.RosterLaws.{
  RosterFits, event_roster-RosterFits, event_roster-resolved, vote_teams-teams_playing,
}
use uncs_bot.Events.MoveSafe.{
  PlanOk, halt-PlanOk, keep-PlanOk, plan_ok, plan_resolved-PlanOk, review-PlanOk, stop-PlanOk,
  warming-PlanOk,
}

-- Teams are missing only in a vote-started event, and then those found are usable.
missing_teams :
    (options : EventOptions) (teams : Option (String × String))
    → event_teams options teams ≡ none
    → (teams ≡ none) × (is_vote_event options ≡ true)
unfolding event_teams
missing_teams options none h = ground arith
missing_teams options (some teams) h = absurd (cc)

plan_found-PlanOk :
    (drawn : String) (event : EventRecord) (progress : EventProgress) (roster : Roster)
    (track : RoundTrack) (snapshot : EventSnapshot) (now : ℕ)
    → event_roster event.event_options progress.teams snapshot ≡ usable_roster roster
    → event_teams event.event_options progress.teams ≡ none
    → roster.faction_names ≡ map (λ f. f.faction_name) snapshot.factions
    → PlanOk event (plan_roster drawn event progress roster track snapshot now none)
unfolding plan_roster roster_of
plan_found-PlanOk drawn event progress roster track snapshot now h missing names =
    let options = event.event_options in
    let (absent, vote) = missing_teams options progress.teams missing in
    let unset : event_roster options none snapshot ≡ usable_roster roster =
      subst (λ t. event_roster options t snapshot ≡ usable_roster roster) absent h in
    elim (Option-cases (vote_teams options.closed_faction roster.faction_names roster.players)) [
      | inl n ↦ rw (n, plan_roster) (stop-PlanOk event progress stop_roster vote)
      | inr (teams, s) ↦
          let found : vote_teams options.closed_faction
                (map (λ f. f.faction_name) snapshot.factions) roster.players
              ≡ some teams =
            subst (λ x. vote_teams options.closed_faction x roster.players ≡ some teams) names s in
          let playing : teams_playing snapshot.factions (some teams) ≡ true =
            vote_teams-teams_playing options.closed_faction snapshot.factions roster.players teams
              found in
          rw (s, plan_roster, event_roster-resolved options snapshot roster teams unset playing)
            (plan_resolved-PlanOk drawn event _ track snapshot now _ teams refl refl)
    ]

plan_roster-PlanOk :
    (drawn : String) (event : EventRecord) (progress : EventProgress) (roster : Roster)
    (track : RoundTrack) (snapshot : EventSnapshot) (now : ℕ)
    → event_roster event.event_options progress.teams snapshot ≡ usable_roster roster
    → PlanOk event (plan_roster drawn event progress roster track snapshot now roster.roster_teams)
unfolding RosterFits plan_roster
plan_roster-PlanOk drawn event progress roster track snapshot now h =
    let options = event.event_options in
    let (t, c, n) =
      subst (RosterFits options progress.teams snapshot) h
        (event_roster-RosterFits options progress.teams snapshot) in
    elim (Option-cases roster.roster_teams) [
      | inr (teams, s) ↦
          rw (s, plan_roster)
            (plan_resolved-PlanOk drawn event progress track snapshot now roster teams s c)
      | inl missing ↦
          rw (missing, plan_roster)
            (plan_found-PlanOk drawn event progress roster track snapshot now h (sym t ∙ missing) n)
    ]

plan_current-PlanOk :
    (drawn : String) (event : EventRecord) (before : EventProgress) (roster : Roster)
    (track : RoundTrack) (snapshot : EventSnapshot) (now : ℕ)
    → event_roster event.event_options before.teams snapshot ≡ usable_roster roster
    → PlanOk event (plan_current drawn event before roster track snapshot now)
unfolding plan_current
plan_current-PlanOk drawn event before roster track snapshot now h =
    let options = event.event_options in
    let Q : Option EventPlan → Type 0 = PlanOk event in
    let progress = warn_unheard options roster now before in
    let kept : progress.teams ≡ before.teams = ground arith in
    let usable : event_roster options progress.teams snapshot ≡ usable_roster roster =
      subst (λ t. event_roster options t snapshot ≡ usable_roster roster) (sym kept) h in
    if_keeps Q (is_waiting_round event.event_state) _ _ (λ e. keep-PlanOk event before none)
      (λ e.
        if_keeps Q (too_soon progress.round_warning_at options.warning_seconds now) _ _
          (λ f. warming-PlanOk event progress none)
          (λ f.
            if_keeps Q (any (λ p. not (is_some p.team)) roster.players) _ _
              (λ g. keep-PlanOk event progress none)
              (λ g. plan_roster-PlanOk drawn event progress roster track snapshot now usable)))

plan_usable-PlanOk :
    (drawn : String) (event : EventRecord) (before : EventProgress) (track : RoundTrack)
    (snapshot : EventSnapshot) (now : ℕ) (current : Bool) (roster : Roster)
    → event_roster event.event_options before.teams snapshot ≡ usable_roster roster
    → PlanOk event (plan_usable drawn event before track snapshot now current roster)
unfolding plan_usable plan_new_round
plan_usable-PlanOk drawn event before track snapshot now current roster h =
    let Q : Option EventPlan → Type 0 = PlanOk event in
    if_keeps Q (not (snapshot.population == length snapshot.snapshot_players)) _ _
      (λ e. keep-PlanOk event _ none)
      (λ e.
        if_keeps Q (not current) _ _
          (λ f.
            if_keeps Q (not (round_settled track now) || not (round_underway track) || track.ended)
              _ _ (λ g. keep-PlanOk event _ none) (λ g. warming-PlanOk event _ _))
          (λ f. plan_current-PlanOk drawn event _ roster track snapshot now h))

plan_issue-PlanOk :
    (event : EventRecord) (before : EventProgress) (now : ℕ)
    → PlanOk event (plan_issue event before now)
unfolding plan_issue
plan_issue-PlanOk event before now =
    let Q : Option EventPlan → Type 0 = PlanOk event in
    if_keeps Q (not (is_vote_event event.event_options)) _ _
      (λ e. review-PlanOk event before (ground arith))
      (λ e.
        if_keeps Q (long_since (some (or_else before.roster_issue_since now)) roster_grace_ms now) _
          _ (λ f. halt-PlanOk event _ (ground arith)) (λ f. keep-PlanOk event _ none))

plan_read-PlanOk :
    (drawn : String) (event : EventRecord) (progress : EventProgress) (track : RoundTrack)
    (snapshot : EventSnapshot) (now : ℕ) (current : Bool) (result : RosterResult)
    → event_roster event.event_options progress.teams snapshot ≡ result
    → PlanOk event (plan_read drawn event progress track snapshot now current result)
unfolding plan_read
plan_read-PlanOk drawn event progress track snapshot now current (usable_roster roster) h =
    plan_usable-PlanOk drawn event progress track snapshot now current roster h
plan_read-PlanOk drawn event progress track snapshot now current (roster_issue issue) h =
    plan_issue-PlanOk event progress now

plan_waiting-PlanOk :
    (event : EventRecord) (before : EventProgress) (now : ℕ) (current : Bool)
    → PlanOk event (plan_waiting event before now current)
unfolding plan_waiting plan_ok
plan_waiting-PlanOk event before now current = ground arith

plan_playing-PlanOk :
    (drawn : String) (event : EventRecord) (before : EventProgress) (track : RoundTrack)
    (snapshot : EventSnapshot) (now : ℕ) (current : Bool)
    → PlanOk event (plan_playing drawn event before track snapshot now current)
unfolding plan_playing
plan_playing-PlanOk drawn event before track snapshot now current =
    let progress : EventProgress = record before { event_waiting_since = none } in
    let Q : Option EventPlan → Type 0 = PlanOk event in
    if_keeps Q (not (is_live track.phase)) _ _ (λ e. keep-PlanOk event progress none)
      (λ e.
        if_keeps Q (is_finished event progress && (not current || track.ended)) _ _
          (λ f. stop-PlanOk event progress stop_rounds (ground arith))
          (λ f. plan_read-PlanOk drawn event progress track snapshot now current _ refl))

-- Planning never throws. A vote-started event that is not already left to staff is not left to them, and
-- an event that staff started neither stops nor halts by itself.
pub plan_event-PlanOk :
    (drawn : String) (event : EventRecord) (snapshot : EventSnapshot) (now : ℕ)
    (track : Option RoundTrack)
    → plan_ok event (plan_event drawn event snapshot now track) ≡ true
unfolding plan_event plan_tracked
plan_event-PlanOk drawn event snapshot now none = keep-PlanOk event _ none
plan_event-PlanOk drawn event snapshot now (some track) =
    let Q : Option EventPlan → Type 0 = PlanOk event in
    if_keeps Q (is_fresh_at snapshot.observed_at now) _ _
      (λ e.
        if_keeps Q (is_phase_waiting track.phase) _ _ (λ f. plan_waiting-PlanOk event _ now _)
          (λ f. plan_playing-PlanOk drawn event _ track snapshot now _))
      (λ e. keep-PlanOk event _ none)
