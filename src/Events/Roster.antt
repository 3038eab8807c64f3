-- ===== src/Events/Roster.antt =====
-- `assignedFaction` of src/common/faction-colors.ts, and `eventTeams`, `eventRoster` and `voteTeams` of
-- src/server-events/event-planner.ts. A colour is trimmed and in lower case.
use uncs_bot.Common.{
  Bool, List, Option, String, [], any, filter, find, if◌then◌else◌, length, ltb, map, none, not,
  opt_str_eq, some, sort_by, str_eq, true, truthy, ℕ, ◌&&◌, ◌==◌, ◌||◌, ◌∷◌,
}
use uncs_bot.Ballots.Selection.{str_before}
use uncs_bot.Events.Record.{EventOptions, EventSnapshot, Faction, SnapshotPlayer, is_vote_event}

-- `factionColors[hex]?.code`
unfoldable pub faction_code : Option String → Option String
faction_code none = none
faction_code (some hex) =
    if str_eq hex "#d86060"
    then some "RED"
    else if str_eq hex "#5b95d8"
    then some "BLU"
    else if str_eq hex "#7bc462"
    then some "GRN"
    else none

abbrev pub is_code : String → Bool
is_code value = str_eq value "RED" || str_eq value "BLU" || str_eq value "GRN"

abbrev pub only_one : List Faction → Option String
only_one (faction ∷ []) = some faction.faction_name
only_one _ = none

-- `assignedFaction`
unfoldable pub assigned_faction : Option String → List Faction → Option String
assigned_faction none factions = none
assigned_faction (some value) factions =
    if not (truthy (some value))
    then none
    else if is_code value
    then only_one (filter (λ f. opt_str_eq (faction_code f.color_hex) (some value)) factions)
    else only_one (filter (λ f. str_eq f.faction_name value) factions)

pub record RosterPlayer : Type 0 where
  pub steam_id : String
  pub reported : Option String
  pub team : Option String

pub record Roster : Type 0 where
  pub players : List RosterPlayer
  pub faction_names : List String
  pub roster_teams : Option (String × String)
  pub counts : Option (ℕ × ℕ)
  pub excluded_team : Option String

pub data RosterIssue : Type 0 where
  teams_changed unsafe_identities over_capacity unknown_team : RosterIssue

-- A roster, or the error that `eventRoster` throws.
pub data RosterResult : Type 0 where
  usable_roster : Roster → RosterResult
  roster_issue : RosterIssue → RosterResult

-- `eventTeams`
unfoldable pub event_teams : EventOptions → Option (String × String) → Option (String × String)
event_teams options (some teams) = some teams
event_teams options none = if is_vote_event options then none else some options.option_teams

abbrev pub all_strings_differ : List String → Bool
all_strings_differ [] = true
all_strings_differ (x ∷ xs) = not (any (str_eq x) xs) && all_strings_differ xs

abbrev pub names_faction : List Faction → String → Bool
names_faction factions name = any (λ f. str_eq f.faction_name name) factions

abbrev pub teams_playing : List Faction → Option (String × String) → Bool
teams_playing factions none = true
teams_playing factions (some (a, b)) = names_faction factions a && names_faction factions b

abbrev pub on_team : String → RosterPlayer → Bool
on_team name player = opt_str_eq player.team (some name)

abbrev pub is_kept : String × String → String → Bool
is_kept (a, b) name = str_eq a name || str_eq b name

-- The faction that is neither team.
unfoldable pub excluded_of : List Faction → String × String → Option String
excluded_of factions teams = elim (find (λ f. not (is_kept teams f.faction_name)) factions) [
  | none ↦ none
  | some faction ↦ some faction.faction_name
]

unfoldable pub place : List Faction → SnapshotPlayer → RosterPlayer
place factions player = record {
  steam_id = player.player_id;
  reported = player.player_faction;
  team = assigned_faction player.player_faction factions;
}

abbrev pub count_on : List RosterPlayer → String → ℕ
count_on players name = length (filter (on_team name) players)

abbrev pub counts_of : List RosterPlayer → Option (String × String) → Option (ℕ × ℕ)
counts_of players none = none
counts_of players (some (a, b)) = some (count_on players a, count_on players b)

abbrev pub excluded_for : List Faction → Option (String × String) → Option String
excluded_for factions none = none
excluded_for factions (some teams) = excluded_of factions teams

unfoldable pub roster_of : EventSnapshot → List RosterPlayer → Option (String × String) → Roster
roster_of snapshot players teams = record {
  players = players;
  faction_names = map (λ f. f.faction_name) snapshot.factions;
  roster_teams = teams;
  counts = counts_of players teams;
  excluded_team = excluded_for snapshot.factions teams;
}

-- `eventRoster`
unfoldable pub event_roster : EventOptions → Option (String × String) → EventSnapshot → RosterResult
event_roster options progress_teams snapshot =
    let names = map (λ f. f.faction_name) snapshot.factions in
    let teams = event_teams options progress_teams in
    let players = map (place snapshot.factions) snapshot.snapshot_players in
    if not (length snapshot.factions == 3)
      || not (all_strings_differ names)
      || not (teams_playing snapshot.factions teams)
    then roster_issue teams_changed
    else if ltb 0 snapshot.unlinked_player_count
        || not (all_strings_differ (map (λ p. p.player_id) snapshot.snapshot_players))
    then roster_issue unsafe_identities
    else if ltb 100 snapshot.capacity || ltb 100 (length snapshot.snapshot_players)
    then roster_issue over_capacity
    else if any (λ p. truthy p.reported && not (truthy p.team)) players
    then roster_issue unknown_team
    else usable_roster (roster_of snapshot players teams)

-- Fewer players first, ties by name.
abbrev pub fewer_first : List RosterPlayer → String → String → Bool
fewer_first players a b =
    ltb (count_on players a) (count_on players b)
    || (count_on players a == count_on players b && str_before a b)

abbrev pub head_of : List String → Option String
head_of [] = none
head_of (x ∷ xs) = some x

unfoldable pub closed_team : Option String → List String → List RosterPlayer → Option String
closed_team closed names players =
    if truthy closed
    then find (λ name. opt_str_eq closed (some name)) names
    else head_of (sort_by (fewer_first players) names)

abbrev pub two_of : List String → Option (String × String)
two_of (a ∷ b ∷ rest) = some (a, b)
two_of _ = none

-- `voteTeams`; of three factions two are kept.
unfoldable pub vote_teams :
    Option String → List String → List RosterPlayer → Option (String × String)
vote_teams closed names players = elim (closed_team closed names players) [
  | none ↦ none
  | some out ↦
      if truthy (some out) then two_of (filter (λ name. not (str_eq name out)) names) else none
]
