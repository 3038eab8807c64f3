-- ===== src/Events/Tests.antt =====
-- A stopped event's passes and lost results: the theorems at them.
use uncs_bot.Common.{List, Option, [], false, map, none, refl, some, true, ℕ, ◌+◌, ◌∷◌, ◌≡◌}
use uncs_bot.Events.Record.{
  EventOperation, EventPlan, move_player, preparing, set_team, stopping, tracked_event_progress,
}
use uncs_bot.Events.Roster.{Roster, count_on, place, roster_of}
use uncs_bot.Events.Moves.{Sides, plan_teams, sides_of}
use uncs_bot.Events.Lock.{
  LockField, LockedEvent, bare_operation, by_rounds, prepare_step, restore_step,
}
use uncs_bot.Events.StepLaws.{
  prepare_fits, prepare_step-prepare_fits, restore_fits, restore_step-restore_fits,
}
use uncs_bot.Events.Outcome.{ActionResult, failed, unknown_result}
use uncs_bot.Events.Refusals.{Answer, halts, halts_from, refusals_halt}
use uncs_bot.Events.Running.{RunPass}
use uncs_bot.Events.Restore.{Pass}
use uncs_bot.Events.PlanTests.{current_round, now_playing, voted, warned_progress}

abbrev lock_on : LockField
lock_on = record { lock_value = some true; editable = true }

abbrev lock_off : LockField
lock_off = record { lock_value = some false; editable = true }

abbrev stopped : LockedEvent
stopped = record {
  event = record voted { event_state = stopping };
  original_lock = true;
  restore_revision = some "r1";
  stop_reason = some by_rounds;
}

abbrev arming : LockedEvent
arming = record {
  event = record voted { event_state = preparing };
  original_lock = true;
  restore_revision = none;
  stop_reason = none;
}

restore_step-restore_fits_example :
    restore_fits stopped
      (some lock_off)
      (restore_step "drawn" "r2" stopped (some lock_off) (some current_round) 1060000)
    ≡ true
restore_step-restore_fits_example =
    restore_step-restore_fits "drawn" "r2" stopped (some lock_off) (some current_round) 1060000

prepare_step-prepare_fits_example :
    prepare_fits arming
      (some lock_on)
      (prepare_step "drawn" "r2" arming (some lock_on) (some current_round) 1060000)
    ≡ true
prepare_step-prepare_fits_example =
    prepare_step-prepare_fits "drawn" "r2" arming (some lock_on) (some current_round) 1060000

abbrev move_one : EventOperation
move_one = record (bare_operation "drawn" move_player (set_team "1" "A" (some "C") none 50)) {
  op_steam_id = some "1";
  op_faction = some "A";
}

abbrev lost_result : ActionResult
lost_result = record { result_state = unknown_result; changed = none; revision = none }

abbrev lost_pass : RunPass
lost_pass = record {
  run_drawn = "drawn";
  run_lock = some lock_off;
  run_snapshot = now_playing;
  run_track = some current_round;
  run_at = 1060000;
  run_result = lost_result;
  run_result_at = 1061000;
}

abbrev voted_running : LockedEvent
voted_running = record arming { event = voted }

abbrev refused_move : Answer
refused_move = record {
  answered = move_one;
  answer_result = record { result_state = failed; changed = some false; revision = none };
  answered_at = 1061000;
}

abbrev three_refusals : List Answer
three_refusals = refused_move ∷ refused_move ∷ refused_move ∷ []

third_halts : halts_from 0 three_refusals ≡ false ∷ false ∷ true ∷ []
unfolding halts_from
third_halts = refl

refusals_halt_example : halts voted three_refusals ≡ halts_from 0 three_refusals
unfolding tracked_event_progress
refusals_halt_example = refusals_halt three_refusals voted refl (refl, (refl, (refl, tt)))

-- A pass whose write is refused.
abbrev refused_pass : ℕ → Pass
refused_pass at = record {
  pass_drawn = "drawn";
  pass_revision = "r2";
  pass_lock = lock_off;
  pass_track = some current_round;
  pass_at = at;
  pass_result = lost_result;
  result_at = at + 1000;
}

abbrev refused_passes : List Pass
refused_passes =
    refused_pass 1060000
    ∷ refused_pass 1130000
    ∷ refused_pass 1200000
    ∷ refused_pass 1270000
    ∷ refused_pass 1340000
    ∷ refused_pass 1410000
    ∷ refused_pass 1480000
    ∷ []

abbrev two_teams : Roster
two_teams =
    roster_of now_playing (map (place now_playing.factions) now_playing.snapshot_players)
      (some ("A", "B"))

abbrev two_sides : Sides
two_sides = sides_of ("A", "B") (count_on two_teams.players "A", count_on two_teams.players "B")

abbrev two_plan : Option EventPlan
two_plan =
    plan_teams "drawn" voted warned_progress two_teams current_round now_playing 1060000 two_sides
