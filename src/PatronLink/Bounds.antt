-- ===== src/PatronLink/Bounds.antt =====
-- The memory of the sign-in state is bounded: every map and list stays within its limit.
use text.Mathlib.TextPositions.{eq_refl}
use uncs_bot.Common.{
  List, Map, Option, String, [], arith, false, filter, get, length, length-append, length-filter,
  length-put, length-put-has, length-remove, min, none, refl, remove, some, true, ℕ, ◌++◌, ◌+◌, ◌∷◌,
  ◌≡◌, ◌≤◌,
}
use uncs_bot.PatronLink.Counter.{Counter, expire, is_recent, max_entries, take, take_found}
use uncs_bot.PatronLink.State.{
  Flow, State, burns_per_minute, discord, flow_ms, initial, issue_counted, issue_ticket, live_flow,
  live_ticket, max_refused_codes, patreon, prune, refused_code_ms, stage_ms, take_ticket, ticket_ms,
}
use uncs_bot.PatronLink.Flow.{
  advance, advance_found, claim, claim_found, end_flow, retry_found, retry_without_prompt,
  start_flow,
}
use uncs_bot.PatronLink.Code.{
  burn_allowed, code_check, drop_oldest, forget, make_room, refuse_code, start_leg,
}
use uncs_bot.PatronLink.Run.{
  Op, op_advance, op_burn, op_check, op_claim, op_end, op_issue, op_leg, op_refuse, op_retry,
  op_start, op_take, run, step,
}

-- The limits that the source states for its maps.
pub record IsBounded (s : State) : Type 0 where
  pub tickets : length s.tickets ≤ max_entries
  pub flows : length s.flows ≤ max_entries
  pub tickets_issued : length s.tickets_issued.times ≤ max_entries
  pub legs_started : length s.legs_started.times ≤ max_entries
  pub burned : length s.burned ≤ burns_per_minute
  pub refused_codes : length s.refused_codes ≤ max_refused_codes

length-expire : (w now : ℕ) (m : Map (List ℕ)) → length (expire w now m) ≤ length m
unfolding expire
length-expire w now [] = omega arith
length-expire w now ((k, ts) ∷ m) = ground (arith, length-expire w now m)

length-take_found :
    (c : Counter) (key : String) (now : ℕ) (m : Map (List ℕ)) (found : Option (List ℕ))
    → get key m ≡ found
    → length m ≤ max_entries
    → length (take_found c key now m found).0.times ≤ max_entries
unfolding take_found
length-take_found c key now m (some recent) e h =
    ground (arith, length-put-has key (recent ++ now ∷ []) m)
length-take_found c key now m none e h = ground (arith, length-put key (now ∷ []) m)

length-take :
    (c : Counter) (key : String) (now : ℕ)
    → length c.times ≤ max_entries
    → length (take c key now).0.times ≤ max_entries
unfolding take
length-take c key now h =
    length-take_found c key now _ (get key (expire c.window_ms now c.times)) refl
      (omega (arith, length-expire c.window_ms now c.times))

length-forget : (now : ℕ) (m : Map ℕ) → length (forget now m) ≤ length m
unfolding forget
length-forget now [] = omega arith
length-forget now ((k, x) ∷ m) = ground (arith, length-forget now m)

-- Dropping the oldest frees at least one place.
length-make_room :
    (codes : Map ℕ) (full : ℕ)
    → length codes ≤ max_refused_codes
    → length (make_room codes full).0 + 1 ≤ max_refused_codes
unfolding make_room drop_oldest remove
length-make_room [] full h = ground arith
length-make_room ((k, x) ∷ rest) full h = ground (arith, eq_refl k, length-remove k rest)

issue_ticket-IsBounded :
    (drawn d : String) (now : ℕ) (s : State)
    → IsBounded s
    → IsBounded (issue_ticket drawn d now s).0
unfolding issue_ticket issue_counted prune
issue_ticket-IsBounded drawn d now s b = ground (
  arith,
  length-filter (live_ticket now) s.tickets,
  length-filter (live_flow now) s.flows,
  length-take s.tickets_issued d now,
  length-put drawn (record { discord_id = d; expires_at = now + ticket_ms })
      (filter (live_ticket now) s.tickets),
)

start_flow-IsBounded :
    (drawn v d : String) (now : ℕ) (s : State)
    → IsBounded s
    → IsBounded (start_flow drawn v d now s).0
unfolding start_flow prune
start_flow-IsBounded drawn v d now s b = ground (
  arith,
  length-filter (live_ticket now) s.tickets,
  length-filter (live_flow now) s.flows,
  length-put drawn
      (record {
        discord_id = d;
        stage = discord;
        state = v;
        stage_expires_at = now + stage_ms;
        flow_expires_at = now + flow_ms;
        prompt_none = true;
      })
      (filter (live_flow now) s.flows),
)

retry_found-IsBounded :
    (drawn given : String) (s : State) (found : Option Flow)
    → get given s.flows ≡ found
    → IsBounded s
    → IsBounded (retry_found drawn given s found).0
retry_found-IsBounded drawn given s none e b = b
retry_found-IsBounded drawn given s (some flow) e b =
    ground
      (arith, length-put-has given (record flow { prompt_none = false; state = drawn }) s.flows)

advance_found-IsBounded :
    (drawn given : String) (now : ℕ) (s : State) (found : Option Flow)
    → get given s.flows ≡ found
    → IsBounded s
    → IsBounded (advance_found drawn given now s found).0
advance_found-IsBounded drawn given now s none e b = b
advance_found-IsBounded drawn given now s (some flow) e b = ground (
  arith,
  length-put-has given
      (record flow {
        stage = patreon;
        state = drawn;
        stage_expires_at = min (now + stage_ms) flow.flow_expires_at;
      })
      s.flows,
)

module _ (code_key : String → String) where
  step-IsBounded : (op : Op) (s : State) → IsBounded s → IsBounded (step code_key op s)
  unfolding step prune take_ticket start_flow claim claim_found retry_without_prompt advance
      end_flow start_leg burn_allowed refuse_code code_check
  step-IsBounded (op_issue drawn d now) s b = issue_ticket-IsBounded drawn d now s b
  step-IsBounded (op_take (some ticket) now) s b = ground (arith, length-remove ticket s.tickets)
  step-IsBounded (op_take none now) s b = b
  step-IsBounded (op_start drawn v d now) s b = start_flow-IsBounded drawn v d now s b
  step-IsBounded (op_claim (some given) st v now) s b = ground (arith, length-remove given s.flows)
  step-IsBounded (op_claim none st v now) s b = b
  step-IsBounded (op_retry drawn given now) s b =
      retry_found-IsBounded drawn given s (get given s.flows) refl b
  step-IsBounded (op_advance drawn given now) s b =
      advance_found-IsBounded drawn given now s (get given s.flows) refl b
  step-IsBounded (op_end (some given) now) s b = ground (arith, length-remove given s.flows)
  step-IsBounded (op_end none now) s b = b
  step-IsBounded (op_leg d now) s b = ground (arith, length-take s.legs_started d now)
  step-IsBounded (op_burn now) s b = ground (
    arith,
    length-filter (is_recent 60000 now) s.burned,
    length-append (filter (is_recent 60000 now) s.burned) (now ∷ []),
  )
  step-IsBounded (op_refuse given now) s b = ground (
    arith,
    length-forget now s.refused_codes,
    length-remove (code_key given) (forget now s.refused_codes),
    length-make_room (remove (code_key given) (forget now s.refused_codes))
        s.refused_codes_full_until,
    length-put (code_key given) (now + refused_code_ms)
        (make_room (remove (code_key given) (forget now s.refused_codes))
          s.refused_codes_full_until).0,
  )
  step-IsBounded (op_check given now) s b = ground (arith, length-forget now s.refused_codes)

  run-IsBounded_from : (ops : List Op) (s : State) → IsBounded s → IsBounded (run code_key ops s)
  unfolding run
  run-IsBounded_from [] s b = b
  run-IsBounded_from (op ∷ ops) s b =
      run-IsBounded_from ops (step code_key op s) (step-IsBounded op s b)

  -- Whatever is called, in whatever order: at most 5000 tickets, 5000 flows, 5000 keys in each counter,
  -- 30 spent codes and 50000 refused codes are remembered.
  pub run-IsBounded : (ops : List Op) → IsBounded (run code_key ops initial)
  unfolding initial
  run-IsBounded ops = run-IsBounded_from ops initial (omega arith)
