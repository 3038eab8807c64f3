-- ===== src/Events/MoveLaws.antt =====
-- The balancing of src/server-events/event-planner.ts: what holds of every move it plans.
use uncs_bot.Common.{
  All, Bool, List, Option, Option-cases, String, any, arith, false, filter-All, find, get,
  get_elem-All, get_elem?, if_keeps, inl, inr, is_some, length, none, not, null, opt_str_eq, refl,
  some, sort_by-All, str_eq, true, ℕ, ◌%◌, ◌&&◌, ◌*◌, ◌/◌, ◌≡◌,
}
use uncs_bot.Rounds.Track.{RoundTrack}
use uncs_bot.Events.Record.{
  EventOperation, EventOptions, EventPlan, EventProgress, EventRecord, EventSnapshot,
  PendingRespawn, is_vote_event, move_player,
}
use uncs_bot.Events.Roster.{
  Roster, RosterPlayer, RosterResult, event_roster, roster_issue, usable_roster, vote_teams,
}
use uncs_bot.Events.Rules.{is_waiting_round, long_since}
use uncs_bot.Events.Moves.{
  Sides, candidates_of, eligible_of, is_ready, plan_eligible, plan_player, plan_respawn,
  plan_settled, plan_teams, sides_of, somebody_stuck, team_full, team_of, was_moved,
}
use uncs_bot.Events.Plan.{
  plan_current, plan_resolved, plan_roster, plan_sorted, too_soon, warn_unheard,
}

abbrev move_id : Option EventOperation → Option String
move_id none = none
move_id (some op) = elim op.op_kind [ move_player ↦ op.op_steam_id | _ ↦ none ]

-- The player that a plan moves.
unfoldable pub moved_by : Option EventPlan → Option String
moved_by none = none
moved_by (some plan) = move_id plan.plan_operation

abbrev pub progress_of : Option EventPlan → Option EventProgress
progress_of none = none
progress_of (some plan) = some plan.plan_progress

-- The player may be moved: not yet moved in this round, and warned for the whole time of a warning.
unfoldable pub may_move : EventOptions → ℕ → String → EventProgress → Bool
may_move options now id progress =
    not (was_moved progress id)
    && long_since (get id progress.warned) (options.warning_seconds * 1000) now

abbrev pub move_allowed : EventOptions → ℕ → String → Option EventProgress → Bool
move_allowed options now id none = false
move_allowed options now id (some progress) = may_move options now id progress

-- Every move of a plan is allowed.
unfoldable pub MovesAllowed : EventOptions → ℕ → Option EventPlan → Type 0
MovesAllowed options now plan =
    (id : String) → moved_by plan ≡ some id → move_allowed options now id (progress_of plan) ≡ true

pub no_move-MovesAllowed :
    (options : EventOptions) (now : ℕ) (plan : Option EventPlan)
    → moved_by plan ≡ none
    → MovesAllowed options now plan
unfolding MovesAllowed
no_move-MovesAllowed options now plan h id e = absurd (cc)

plan_player-MovesAllowed :
    (drawn : String) (event : EventRecord) (progress : EventProgress) (track : RoundTrack)
    (snapshot : EventSnapshot) (now : ℕ) (sides : Sides) (player : RosterPlayer)
    → was_moved progress player.steam_id ≡ false
    → MovesAllowed event.event_options now
        (plan_player drawn event progress track snapshot now sides player)
unfolding plan_player moved_by may_move MovesAllowed
plan_player-MovesAllowed drawn event progress track snapshot now sides player fresh id h =
    ground arith

plan_settled-MovesAllowed :
    (drawn : String) (options : EventOptions) (now : ℕ) (progress : EventProgress) (roster : Roster)
    (sides : Sides) (excluded : List RosterPlayer)
    → MovesAllowed options now (plan_settled drawn progress roster sides excluded)
unfolding plan_settled moved_by
plan_settled-MovesAllowed drawn options now progress roster sides excluded =
    if_keeps (MovesAllowed options now) (is_ready progress roster sides excluded) _ _
      (λ e. no_move-MovesAllowed options now _ refl) (λ e. no_move-MovesAllowed options now _ refl)

eligible_of-All :
    (progress : EventProgress) (candidates : List RosterPlayer)
    → All (λ p. not (was_moved progress p.steam_id) ≡ true) (eligible_of progress candidates)
unfolding eligible_of
eligible_of-All progress candidates =
    sort_by-All (λ p. not (was_moved progress p.steam_id) ≡ true) _ _
      (filter-All (λ p. not (was_moved progress p.steam_id)) candidates)

plan_eligible-MovesAllowed :
    (drawn : String) (event : EventRecord) (progress : EventProgress) (roster : Roster)
    (track : RoundTrack) (snapshot : EventSnapshot) (now : ℕ) (sides : Sides)
    (excluded eligible : List RosterPlayer)
    → All (λ p. not (was_moved progress p.steam_id) ≡ true) eligible
    → MovesAllowed event.event_options now
        (plan_eligible drawn event progress roster track snapshot now sides excluded eligible)
unfolding plan_eligible moved_by
plan_eligible-MovesAllowed drawn event progress roster track snapshot now sides excluded eligible
      h =
    let options = event.event_options in
    let index = (progress.round.stamp_started_at / 1000) % length eligible in
    let Q : Option EventPlan → Type 0 = MovesAllowed options now in
    if_keeps Q (not (null excluded) && null eligible) _ _
      (λ e.
        if_keeps Q (is_vote_event options) _ _ (λ v. no_move-MovesAllowed options now _ refl)
          (λ v. no_move-MovesAllowed options now _ refl))
      (λ e. elim (Option-cases (get_elem? eligible index)) [
        | inl n ↦
            rw (n, plan_eligible)
              (plan_settled-MovesAllowed drawn options now progress roster sides excluded)
        | inr (player, s) ↦
            let fresh : not (was_moved progress player.steam_id) ≡ true =
              get_elem-All (λ p. not (was_moved progress p.steam_id) ≡ true) eligible index player h
                s in
            let free : was_moved progress player.steam_id ≡ false = ground arith in
            rw (s, plan_eligible)
              (plan_player-MovesAllowed drawn event progress track snapshot now sides player free)
      ])

plan_teams-MovesAllowed :
    (drawn : String) (event : EventRecord) (progress : EventProgress) (roster : Roster)
    (track : RoundTrack) (snapshot : EventSnapshot) (now : ℕ) (sides : Sides)
    → MovesAllowed event.event_options now
        (plan_teams drawn event progress roster track snapshot now sides)
unfolding plan_teams moved_by
plan_teams-MovesAllowed drawn event progress roster track snapshot now sides =
    let options = event.event_options in
    let Q : Option EventPlan → Type 0 = MovesAllowed options now in
    if_keeps Q (somebody_stuck options progress roster now) _ _
      (λ e. no_move-MovesAllowed options now _ refl)
      (λ e.
        if_keeps Q (team_full options roster track now sides) _ _
          (λ f.
            if_keeps Q (is_vote_event options) _ _ (λ v. no_move-MovesAllowed options now _ refl)
              (λ v. no_move-MovesAllowed options now _ refl))
          (λ f.
            plan_eligible-MovesAllowed drawn event progress roster track snapshot now sides _ _
              (eligible_of-All progress (candidates_of options roster track now sides))))

plan_respawn-MovesAllowed :
    (drawn : String) (event : EventRecord) (progress : EventProgress) (roster : Roster)
    (track : RoundTrack) (snapshot : EventSnapshot) (now : ℕ) (pending : PendingRespawn)
    → MovesAllowed event.event_options now
        (plan_respawn drawn event progress roster track snapshot pending)
unfolding plan_respawn moved_by
plan_respawn-MovesAllowed drawn event progress roster track snapshot now pending =
    let player = find (λ p. str_eq p.steam_id pending.respawn_id) roster.players in
    if_keeps (MovesAllowed event.event_options now)
      (event.event_options.force_respawn
        && opt_str_eq (team_of player) (some pending.respawn_faction))
      _ _ (λ e. no_move-MovesAllowed event.event_options now _ refl)
      (λ e. no_move-MovesAllowed event.event_options now _ refl)

plan_sorted-MovesAllowed :
    (drawn : String) (event : EventRecord) (progress : EventProgress) (roster : Roster)
    (track : RoundTrack) (snapshot : EventSnapshot) (now : ℕ) (teams : Option (String × String))
    (counts : Option (ℕ × ℕ)) (pending : Option PendingRespawn)
    → MovesAllowed event.event_options now
        (plan_sorted drawn event progress roster track snapshot now teams counts pending)
unfolding plan_sorted moved_by
plan_sorted-MovesAllowed drawn event progress roster track snapshot now teams counts
      (some pending) =
    plan_respawn-MovesAllowed drawn event progress roster track snapshot now pending
plan_sorted-MovesAllowed drawn event progress roster track snapshot now (some teams) (some counts)
      none =
    plan_teams-MovesAllowed drawn event progress roster track snapshot now (sides_of teams counts)
plan_sorted-MovesAllowed drawn event progress roster track snapshot now (some teams) none none =
    no_move-MovesAllowed event.event_options now none refl
plan_sorted-MovesAllowed drawn event progress roster track snapshot now none counts none =
    no_move-MovesAllowed event.event_options now none refl

plan_resolved-MovesAllowed :
    (drawn : String) (event : EventRecord) (progress : EventProgress) (track : RoundTrack)
    (snapshot : EventSnapshot) (now : ℕ) (result : RosterResult)
    → MovesAllowed event.event_options now
        (plan_resolved drawn event progress track snapshot now result)
unfolding plan_resolved moved_by
plan_resolved-MovesAllowed drawn event progress track snapshot now (roster_issue issue) =
    no_move-MovesAllowed event.event_options now none refl
plan_resolved-MovesAllowed drawn event progress track snapshot now (usable_roster roster) =
    plan_sorted-MovesAllowed drawn event progress roster track snapshot now roster.roster_teams
      roster.counts progress.pending_respawn

plan_roster-MovesAllowed :
    (drawn : String) (event : EventRecord) (progress : EventProgress) (roster : Roster)
    (track : RoundTrack) (snapshot : EventSnapshot) (now : ℕ) (teams : Option (String × String))
    → MovesAllowed event.event_options now
        (plan_roster drawn event progress roster track snapshot now teams)
unfolding plan_roster moved_by
plan_roster-MovesAllowed drawn event progress roster track snapshot now (some teams) =
    plan_resolved-MovesAllowed drawn event progress track snapshot now (usable_roster roster)
plan_roster-MovesAllowed drawn event progress roster track snapshot now none =
    elim (Option-cases
      (vote_teams event.event_options.closed_faction roster.faction_names roster.players)) [
        | inl n ↦ rw (n, plan_roster) (no_move-MovesAllowed event.event_options now _ refl)
        | inr (teams, s) ↦
            rw (s, plan_roster)
              (plan_resolved-MovesAllowed drawn event (record progress { teams = some teams }) track
                snapshot now (event_roster event.event_options (some teams) snapshot))
      ]

pub plan_current-MovesAllowed :
    (drawn : String) (event : EventRecord) (before : EventProgress) (roster : Roster)
    (track : RoundTrack) (snapshot : EventSnapshot) (now : ℕ)
    → MovesAllowed event.event_options now
        (plan_current drawn event before roster track snapshot now)
unfolding plan_current moved_by
plan_current-MovesAllowed drawn event before roster track snapshot now =
    let options = event.event_options in
    let Q : Option EventPlan → Type 0 = MovesAllowed options now in
    let progress = warn_unheard options roster now before in
    if_keeps Q (is_waiting_round event.event_state) _ _
      (λ e. no_move-MovesAllowed options now _ refl)
      (λ e.
        if_keeps Q (too_soon progress.round_warning_at options.warning_seconds now) _ _
          (λ f. no_move-MovesAllowed options now _ refl)
          (λ f.
            if_keeps Q (any (λ p. not (is_some p.team)) roster.players) _ _
              (λ g. no_move-MovesAllowed options now _ refl)
              (λ g.
                plan_roster-MovesAllowed drawn event progress roster track snapshot now
                  roster.roster_teams)))
