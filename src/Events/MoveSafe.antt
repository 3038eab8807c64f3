-- ===== src/Events/MoveSafe.antt =====
-- The balancing of src/server-events/event-planner.ts plans something whenever it has two teams, and
-- who may stop the event by itself.
use uncs_bot.Common.{
  Bool, List, Option, Option-cases, String, arith, false, find, get, get_elem?, if_keeps,
  if◌then◌else◌, inl, inr, is_some, length, ltb, none, not, null, opt_str_eq, some, str_eq, subst,
  true, ℕ, ◌%◌, ◌&&◌, ◌*◌, ◌+◌, ◌/◌, ◌||◌, ◌≡◌,
}
use uncs_bot.Rounds.Track.{RoundTrack}
use uncs_bot.Events.Record.{
  EventOperation, EventPlan, EventProgress, EventRecord, EventSnapshot, EventStopReason,
  PendingRespawn, active, is_vote_event, needs_review, warming,
}
use uncs_bot.Events.Roster.{Roster, RosterPlayer, counts_of, usable_roster}
use uncs_bot.Events.Rules.{halt_for, stay, stop_for}
use uncs_bot.Events.Moves.{
  Sides, is_ready, plan_eligible, plan_player, plan_respawn, plan_settled, plan_teams,
  somebody_stuck, team_full, team_of,
}
use uncs_bot.Events.Plan.{plan_resolved, plan_sorted}
use uncs_bot.Events.Steps.{is_review}

-- There is a plan; only a vote-started event stops or halts in it, and only another is newly left to
-- staff.
unfoldable pub plan_ok : EventRecord → Option EventPlan → Bool
plan_ok event none = false
plan_ok event (some plan) =
    if is_vote_event event.event_options
    then not (is_review plan.plan_state) || is_review event.event_state
    else not (is_some plan.plan_stop) && not plan.plan_halt

abbrev pub PlanOk : EventRecord → Option EventPlan → Type 0
PlanOk event plan = plan_ok event plan ≡ true

pub keep-PlanOk :
    (event : EventRecord) (progress : EventProgress) (op : Option EventOperation)
    → PlanOk event (stay event.event_state progress op)
unfolding plan_ok
keep-PlanOk event progress op = ground arith

active-PlanOk :
    (event : EventRecord) (progress : EventProgress) (op : Option EventOperation)
    → PlanOk event (stay active progress op)
unfolding plan_ok
active-PlanOk event progress op = ground arith

pub warming-PlanOk :
    (event : EventRecord) (progress : EventProgress) (op : Option EventOperation)
    → PlanOk event (stay warming progress op)
unfolding plan_ok
warming-PlanOk event progress op = ground arith

pub halt-PlanOk :
    (event : EventRecord) (progress : EventProgress)
    → is_vote_event event.event_options ≡ true
    → PlanOk event (halt_for event.event_state progress)
unfolding plan_ok
halt-PlanOk event progress v = ground arith

pub stop-PlanOk :
    (event : EventRecord) (progress : EventProgress) (reason : EventStopReason)
    → is_vote_event event.event_options ≡ true
    → PlanOk event (stop_for event.event_state progress reason)
unfolding plan_ok
stop-PlanOk event progress reason v = ground arith

pub review-PlanOk :
    (event : EventRecord) (progress : EventProgress)
    → is_vote_event event.event_options ≡ false
    → PlanOk event (stay needs_review progress none)
unfolding plan_ok
review-PlanOk event progress v = ground arith

plan_player-PlanOk :
    (drawn : String) (event : EventRecord) (progress : EventProgress) (track : RoundTrack)
    (snapshot : EventSnapshot) (now : ℕ) (sides : Sides) (player : RosterPlayer)
    → PlanOk event (plan_player drawn event progress track snapshot now sides player)
unfolding plan_player
plan_player-PlanOk drawn event progress track snapshot now sides player =
    elim (Option-cases (get player.steam_id progress.warned)) [
      | inl n ↦ rw (n, plan_player) (active-PlanOk event progress _)
      | inr (at, s) ↦
          rw (s, plan_player)
            (if_keeps (PlanOk event) (ltb now (at + event.event_options.warning_seconds * 1000)) _ _
              (λ e. active-PlanOk event progress _) (λ e. active-PlanOk event progress _))
    ]

plan_settled-PlanOk :
    (drawn : String) (event : EventRecord) (progress : EventProgress) (roster : Roster)
    (sides : Sides) (excluded : List RosterPlayer)
    → PlanOk event (plan_settled drawn progress roster sides excluded)
unfolding plan_settled
plan_settled-PlanOk drawn event progress roster sides excluded =
    if_keeps (PlanOk event) (is_ready progress roster sides excluded) _ _
      (λ e. active-PlanOk event progress _) (λ e. active-PlanOk event progress _)

plan_eligible-PlanOk :
    (drawn : String) (event : EventRecord) (progress : EventProgress) (roster : Roster)
    (track : RoundTrack) (snapshot : EventSnapshot) (now : ℕ) (sides : Sides)
    (excluded eligible : List RosterPlayer)
    → PlanOk event
        (plan_eligible drawn event progress roster track snapshot now sides excluded eligible)
unfolding plan_eligible
plan_eligible-PlanOk drawn event progress roster track snapshot now sides excluded eligible =
    let index = (progress.round.stamp_started_at / 1000) % length eligible in
    if_keeps (PlanOk event) (not (null excluded) && null eligible) _ _
      (λ e.
        if_keeps (PlanOk event) (is_vote_event event.event_options) _ _
          (λ v. active-PlanOk event progress none) (λ v. review-PlanOk event progress v))
      (λ e. elim (Option-cases (get_elem? eligible index)) [
        | inl n ↦
            rw (n, plan_eligible) (plan_settled-PlanOk drawn event progress roster sides excluded)
        | inr (player, s) ↦
            rw (s, plan_eligible)
              (plan_player-PlanOk drawn event progress track snapshot now sides player)
      ])

plan_teams-PlanOk :
    (drawn : String) (event : EventRecord) (progress : EventProgress) (roster : Roster)
    (track : RoundTrack) (snapshot : EventSnapshot) (now : ℕ) (sides : Sides)
    → PlanOk event (plan_teams drawn event progress roster track snapshot now sides)
unfolding plan_teams
plan_teams-PlanOk drawn event progress roster track snapshot now sides =
    let options = event.event_options in
    if_keeps (PlanOk event) (somebody_stuck options progress roster now) _ _
      (λ e. halt-PlanOk event progress (ground arith))
      (λ e.
        if_keeps (PlanOk event) (team_full options roster track now sides) _ _
          (λ f.
            if_keeps (PlanOk event) (is_vote_event options) _ _ (λ v. halt-PlanOk event progress v)
              (λ v. review-PlanOk event progress v))
          (λ f. plan_eligible-PlanOk drawn event progress roster track snapshot now sides _ _))

plan_respawn-PlanOk :
    (drawn : String) (event : EventRecord) (progress : EventProgress) (roster : Roster)
    (track : RoundTrack) (snapshot : EventSnapshot) (pending : PendingRespawn)
    → PlanOk event (plan_respawn drawn event progress roster track snapshot pending)
unfolding plan_respawn
plan_respawn-PlanOk drawn event progress roster track snapshot pending =
    let player = find (λ p. str_eq p.steam_id pending.respawn_id) roster.players in
    if_keeps (PlanOk event)
      (event.event_options.force_respawn
        && opt_str_eq (team_of player) (some pending.respawn_faction))
      _ _ (λ e. active-PlanOk event progress _) (λ e. active-PlanOk event _ none)

pub plan_resolved-PlanOk :
    (drawn : String) (event : EventRecord) (progress : EventProgress) (track : RoundTrack)
    (snapshot : EventSnapshot) (now : ℕ) (roster : Roster) (teams : String × String)
    → roster.roster_teams ≡ some teams
    → roster.counts ≡ counts_of roster.players roster.roster_teams
    → PlanOk event (plan_resolved drawn event progress track snapshot now (usable_roster roster))
unfolding plan_resolved plan_sorted
plan_resolved-PlanOk drawn event progress track snapshot now roster teams t c =
    let counted : roster.counts ≡ counts_of roster.players (some teams) =
      subst (λ x. roster.counts ≡ counts_of roster.players x) t c in
    elim (Option-cases progress.pending_respawn) [
      | inl n ↦
          rw (n, t, counted, plan_resolved, plan_sorted)
            (plan_teams-PlanOk drawn event progress roster track snapshot now _)
      | inr (pending, s) ↦
          rw (s, plan_resolved, plan_sorted)
            (plan_respawn-PlanOk drawn event progress roster track snapshot pending)
    ]
