-- ===== src/Events/MoveTargets.antt =====
-- The balancing of src/server-events/event-planner.ts: whom it moves, and where.
use uncs_bot.Common.{
  Bool, List, Option, String, any, none, opt_str_eq, some, str_eq, true, ℕ, ◌&&◌, ◌<◌, ◌||◌, ◌≡◌,
  ◌≤◌, ◌⊎◌,
}
use uncs_bot.Events.Record.{EventPlan}
use uncs_bot.Events.Roster.{Roster, RosterPlayer, count_on, on_team}
use uncs_bot.Events.Moves.{Sides}
use uncs_bot.Events.MoveLaws.{moved_by}

abbrev pub target_of : Option EventPlan → Option String
target_of none = none
target_of (some plan) = elim plan.plan_operation [ none ↦ none | some op ↦ op.op_faction ]

-- A move takes one of these players to the team.
unfoldable MovesOneOf : List RosterPlayer → String → Option EventPlan → Type 0
MovesOneOf players team plan =
    (id : String)
    → moved_by plan ≡ some id
    → (any (λ p. str_eq p.steam_id id) players ≡ true) × (target_of plan ≡ some team)

-- The player is on the closed team or on the larger one.
abbrev pub may_leave : Roster → Sides → RosterPlayer → Bool
may_leave roster sides player =
    opt_str_eq player.team roster.excluded_team || on_team sides.larger_team player

-- Of a plan that moves a player: the player may leave, and the team has room.
unfoldable MovesWithin : Roster → Sides → Option EventPlan → Type 0
MovesWithin roster sides plan =
    (id : String)
    → moved_by plan ≡ some id
    → (any (λ p. may_leave roster sides p && str_eq p.steam_id id) roster.players ≡ true)
      × (target_of plan ≡ some sides.target_team)
      × (sides.target_count < 50)

-- The team that players are moved to is one of the two, with its own count, and the other one is larger
-- or equal.
abbrev IsSmaller : String × String → ℕ × ℕ → Sides → Type 0
IsSmaller (x, y) (a, b) sides =
    ((sides.target_team ≡ x) × (sides.larger_team ≡ y) × (sides.target_count ≡ a) × (a ≤ b))
    ⊎ ((sides.target_team ≡ y) × (sides.larger_team ≡ x) × (sides.target_count ≡ b) × (b ≤ a))

-- A player who is on the closed team or on `source`.
abbrev pub leaves : Roster → String → String → Bool
leaves roster source id =
    any (λ p. (opt_str_eq p.team roster.excluded_team || on_team source p) && str_eq p.steam_id id)
      roster.players

-- A move from one team, or from the closed one, to the other of the two, which has fewer than 50 players
-- and no more than the first.
abbrev pub MovesTo : Roster → String → Option EventPlan → String → String → Type 0
MovesTo roster id plan source target =
    (leaves roster source id ≡ true)
    × (target_of plan ≡ some target)
    × (count_on roster.players target < 50)
    × (count_on roster.players target ≤ count_on roster.players source)
