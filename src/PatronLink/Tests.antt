-- ===== src/PatronLink/Tests.antt =====
-- Runs of the sign-in state, and the theorems at them.
use uncs_bot.PatronLink.CounterCalls.{accepted}
use uncs_bot.PatronLink.FlowOrigins.{IsGenuine}
use uncs_bot.Common.{
  List, String, [], arith, false, filter, get, length, none, put, refl, some, true, ℕ, ◌<◌, ◌∷◌,
  ◌≡◌, ◌≢◌, ◌≤◌,
}
use uncs_bot.PatronLink.Counter.{expire, is_recent, take}
use uncs_bot.PatronLink.State.{
  Flow, Ticket, initial, is_link_id, issue_ticket, patreon, prune, take_ticket,
}
use uncs_bot.PatronLink.Flow.{advance, claim, matches, start_flow}
use uncs_bot.PatronLink.Code.{code_check, refuse_code, usable}
use uncs_bot.PatronLink.Run.{
  Op, op_advance, op_burn, op_check, op_issue, op_refuse, op_start, run, step,
}
use uncs_bot.PatronLink.Bounds.{IsBounded, run-IsBounded}
use uncs_bot.PatronLink.RateLimit.{new_counter, take_limited}
use uncs_bot.PatronLink.Tickets.{Any, Issues, take_ticket-Issues, take_ticket_once}
use uncs_bot.PatronLink.Flows.{claim-IsGenuine}
use uncs_bot.PatronLink.Codes.{refuse_code-run}

abbrev digest : String → String
digest code = code

abbrev ticket_text : String
ticket_text = "AAAAAAAAAAAAAAAAAAAAAAAAAAAAAAAAAAAAAAAAAAA"

abbrev flow_text : String
flow_text = "BBBBBBBBBBBBBBBBBBBBBBBBBBBBBBBBBBBBBBBBBB1"

abbrev first_state : String
first_state = "CCCCCCCCCCCCCCCCCCCCCCCCCCCCCCCCCCCCCCCCC-_"

abbrev second_state : String
second_state = "DDDDDDDDDDDDDDDDDDDDDDDDDDDDDDDDDDDDDDDDDDD"

text_tests : (is_link_id ticket_text ≡ true) × (is_link_id "AAA+" ≡ false)
unfolding is_link_id
text_tests = (refl, refl)

abbrev issued_ops : List Op
issued_ops = op_issue ticket_text "42" 1000 ∷ []

issued_take : (take_ticket (some ticket_text) 2000 (run digest issued_ops initial)).1 ≡ some "42"
unfolding take_ticket run step issue_ticket prune initial take expire get put is_link_id
issued_take = refl

take_ticket-Issues_example :
    (entry : Ticket) × Any (Issues ticket_text entry) issued_ops
    × (entry.discord_id ≡ "42")
    × (2000 < entry.expires_at)
take_ticket-Issues_example = take_ticket-Issues digest issued_ops ticket_text "42" 2000 issued_take

take_ticket_once_example :
    (take_ticket (some ticket_text) 4000 (
      run digest
        (op_burn 3000 ∷ [])
        (take_ticket (some ticket_text) 2000 (run digest issued_ops initial)).0)).1
    ≡ none
unfolding run step issue_ticket prune initial take expire get put
take_ticket_once_example =
    take_ticket_once digest (op_burn 3000 ∷ []) ticket_text 2000 4000
      (run digest issued_ops initial) (refl, tt) (refl, tt)

abbrev leg_ops : List Op
leg_ops = op_start flow_text first_state "42" 1000 ∷ op_advance second_state flow_text 2000 ∷ []

abbrev leg_flow : Flow
leg_flow = record {
  discord_id = "42";
  stage = patreon;
  state = second_state;
  stage_expires_at = 602000;
  flow_expires_at = 1201000;
  prompt_none = true;
}

leg_claim :
    (claim (some flow_text) patreon (some second_state) 3000 (run digest leg_ops initial)).1
    ≡ some leg_flow
unfolding claim matches run step start_flow advance prune initial get put is_link_id
leg_claim = refl

claim-IsGenuine_example : IsGenuine leg_ops flow_text patreon (some second_state) 3000 leg_flow
claim-IsGenuine_example =
    claim-IsGenuine digest leg_ops flow_text patreon (some second_state) 3000 leg_flow leg_claim

abbrev code_ops : List Op
code_ops = op_refuse "other" 2000 ∷ op_check "third" 3000 ∷ op_burn 4000 ∷ []

refuse_code-run_example :
    (code_check digest "code" 3600999
      (run digest code_ops (refuse_code digest "code" 1000 initial))).1
    ≢ usable
refuse_code-run_example =
    refuse_code-run digest "code" 1000 3600999 initial code_ops (omega arith) (omega arith)

run-IsBounded_example : IsBounded (run digest code_ops initial)
run-IsBounded_example = run-IsBounded digest code_ops

abbrev calls : List (String × ℕ)
calls = ("42", 10) ∷ ("42", 20) ∷ ("7", 20) ∷ ("42", 30) ∷ []

accepted_test : accepted "42" (new_counter 2 600) calls ≡ 10 ∷ 20 ∷ []
unfolding accepted take expire get put
accepted_test = refl

take_limited_example :
    length (filter (is_recent 600 30) (accepted "42" (new_counter 2 600) calls)) ≤ 2
take_limited_example = take_limited 2 600 30 "42" calls (omega arith) (omega arith) (omega arith)
