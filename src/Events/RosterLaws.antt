-- ===== src/Events/RosterLaws.antt =====
-- The roster of src/server-events/event-planner.ts: what it carries, and that the teams found for a
-- vote-started round make it usable.
use uncs_bot.Common.{
  Bool, List, Option, Option-cases, String, [], any, arith, eq_iff, filter, if_keeps, inl, inr,
  length, ltb, map, none, not, refl, some, str_eq, true, truthy, ◌&&◌, ◌==◌, ◌||◌, ◌∷◌, ◌≡◌,
}
use uncs_bot.Events.Record.{EventOptions, EventSnapshot, Faction}
use uncs_bot.Events.Roster.{
  Roster, RosterPlayer, RosterResult, all_strings_differ, closed_team, counts_of, event_roster,
  event_teams, names_faction, place, roster_issue, roster_of, teams_playing, two_of, usable_roster,
  vote_teams,
}

-- A usable roster has the teams of the event and their counts.
unfoldable pub RosterFits :
    EventOptions → Option (String × String) → EventSnapshot → RosterResult → Type 0
RosterFits options teams snapshot (roster_issue issue) = Unit
RosterFits options teams snapshot (usable_roster roster) =
    (roster.roster_teams ≡ event_teams options teams)
    × (roster.counts ≡ counts_of roster.players roster.roster_teams)
    × (roster.faction_names ≡ map (λ f. f.faction_name) snapshot.factions)

abbrev all_placed : EventSnapshot → List RosterPlayer
all_placed snapshot = map (place snapshot.factions) snapshot.snapshot_players

pub event_roster-RosterFits :
    (options : EventOptions) (teams : Option (String × String)) (snapshot : EventSnapshot)
    → RosterFits options teams snapshot (event_roster options teams snapshot)
unfolding event_roster RosterFits roster_of
event_roster-RosterFits options teams snapshot =
    let Q : RosterResult → Type 0 = RosterFits options teams snapshot in
    if_keeps Q
      (not (length snapshot.factions == 3)
        || not (all_strings_differ (map (λ f. f.faction_name) snapshot.factions))
        || not (teams_playing snapshot.factions (event_teams options teams)))
      _ _ (λ e. tt)
      (λ e.
        if_keeps Q
          (ltb 0 snapshot.unlinked_player_count
            || not (all_strings_differ (map (λ p. p.player_id) snapshot.snapshot_players)))
          _ _ (λ f. tt)
          (λ f.
            if_keeps Q (ltb 100 snapshot.capacity || ltb 100 (length snapshot.snapshot_players)) _ _
              (λ g. tt)
              (λ g.
                if_keeps Q
                  (any (λ p. truthy p.reported && not (truthy p.team)) (all_placed snapshot)) _ _
                  (λ h. tt) (λ h. (refl, refl, refl)))))

-- The teams found are among the factions of the snapshot.
any-map_name :
    (name : String) (factions : List Faction)
    → any (str_eq name) (map (λ f. f.faction_name) factions) ≡ true
    → names_faction factions name ≡ true
any-map_name name [] h = h
any-map_name name (f ∷ factions) h =
    ground
      (arith, eq_iff name f.faction_name, eq_iff f.faction_name name, any-map_name name factions)

any-filter_self :
    (name : String) (p : String → Bool) (names : List String)
    → any (str_eq name) (filter p names) ≡ true
    → any (str_eq name) names ≡ true
any-filter_self name p [] h = h
any-filter_self name p (x ∷ names) h = ground (arith, any-filter_self name p names)

two_of-any :
    (names : List String) (a b : String)
    → two_of names ≡ some (a, b)
    → (any (str_eq a) names ≡ true) × (any (str_eq b) names ≡ true)
two_of-any [] a b h = absurd (cc)
two_of-any (x ∷ []) a b h = absurd (cc)
two_of-any (x ∷ y ∷ rest) a b h =
    let first : x ≡ a = ground arith in
    let second : y ≡ b = ground arith in (ground (arith, eq_iff a x), ground (arith, eq_iff b y))

vote_teams-any :
    (closed : Option String) (names : List String) (players : List RosterPlayer) (a b : String)
    → vote_teams closed names players ≡ some (a, b)
    → (any (str_eq a) names ≡ true) × (any (str_eq b) names ≡ true)
unfolding vote_teams
vote_teams-any closed names players a b h = elim (Option-cases (closed_team closed names players)) [
  | inl n ↦ absurd (ground arith)
  | inr (out, s) ↦
      let kept = filter (λ name. not (str_eq name out)) names in
      let found : two_of kept ≡ some (a, b) = ground arith in
      let (p, q) = two_of-any kept a b found in
      (any-filter_self a _ names p, any-filter_self b _ names q)
]

pub vote_teams-teams_playing :
    (closed : Option String) (factions : List Faction) (players : List RosterPlayer)
    (teams : String × String)
    → vote_teams closed (map (λ f. f.faction_name) factions) players ≡ some teams
    → teams_playing factions (some teams) ≡ true
vote_teams-teams_playing closed factions players (a, b) h =
    let (p, q) = vote_teams-any closed (map (λ f. f.faction_name) factions) players a b h in
    let first : names_faction factions a ≡ true = any-map_name a factions p in
    let second : names_faction factions b ≡ true = any-map_name b factions q in ground arith

-- With those teams the same snapshot is usable again.
pub event_roster-resolved :
    (options : EventOptions) (snapshot : EventSnapshot) (roster : Roster) (teams : String × String)
    → event_roster options none snapshot ≡ usable_roster roster
    → teams_playing snapshot.factions (some teams) ≡ true
    → event_roster options (some teams) snapshot
      ≡ usable_roster (roster_of snapshot (all_placed snapshot) (some teams))
unfolding event_roster event_teams
event_roster-resolved options snapshot roster teams h p = ground arith
