-- ===== src/PatronLink/Flows.antt =====
-- Sign-ins of src/patron-link/patron-link.state.ts over whole traces.
use uncs_bot.Common.{
  Bool-cases, Distinct, List, Option, Option-cases, String, [], arith, filter, filter-Distinct, get,
  get-remove, inl, inr, leb, length, none, put-Distinct, refl, remove-Distinct, some, ℕ, ◌∷◌, ◌≡◌,
  ◌⊎◌,
}
use uncs_bot.PatronLink.State.{
  Flow, Stage, State, burns_per_minute, discord, initial, is_link_id, live_flow, prune, take_ticket,
}
use uncs_bot.PatronLink.Flow.{
  advance, claim, claim_found, end_flow, matches, retry_without_prompt, start_flow,
}
use uncs_bot.PatronLink.Run.{
  Op, op_advance, op_burn, op_check, op_claim, op_end, op_issue, op_leg, op_refuse, op_retry,
  op_start, op_take, run, step,
}
use uncs_bot.PatronLink.Counter.{is_recent, max_entries}
use uncs_bot.PatronLink.Code.{burn_allowed, code_check, refuse_code, start_leg}
use uncs_bot.PatronLink.Tickets.{Any}
use uncs_bot.PatronLink.FlowOrigins.{
  Advances, Comes, IsGenuine, Origin, Origin-cons, Starts, advance_found-Comes, claim-Comes,
  claim_checks, issue_ticket-flows, issue_ticket_flows, retry_found-Comes, start_flow-Comes,
}

module _ (code_key : String → String) where
  step-Comes :
      (op : Op) (f : String) (s : State) (flow : Flow)
      → Distinct s.flows
      → get f (step code_key op s).flows ≡ some flow
      → Comes f flow s op
  unfolding step take_ticket retry_without_prompt advance end_flow start_leg burn_allowed
      refuse_code code_check
  step-Comes (op_issue drawn d now) f s flow k h =
      inl (flow, issue_ticket-flows drawn d f now s flow k h, (refl, refl), inl refl)
  step-Comes (op_take (some ticket) now) f s flow k h =
      inl (flow, ground arith, (refl, refl), inl refl)
  step-Comes (op_take none now) f s flow k h = inl (flow, h, (refl, refl), inl refl)
  step-Comes (op_start drawn v d now) f s flow k h =
      elim (start_flow-Comes drawn v d f now s flow k h) [
        | inl held ↦ inl (flow, held, (refl, refl), inl refl)
        | inr begun ↦ inr begun
      ]
  step-Comes (op_claim given st v now) f s flow k h =
      inl (flow, claim-Comes given st v f now s flow h, (refl, refl), inl refl)
  step-Comes (op_retry drawn given now) f s flow k h =
      retry_found-Comes drawn given f now s (get given s.flows) flow refl h
  step-Comes (op_advance drawn given now) f s flow k h =
      advance_found-Comes drawn given f now s (get given s.flows) flow refl h
  step-Comes (op_end (some given) now) f s flow k h =
      inl (flow, ground (arith, get-remove given f s.flows), (refl, refl), inl refl)
  step-Comes (op_end none now) f s flow k h = inl (flow, h, (refl, refl), inl refl)
  step-Comes (op_leg d now) f s flow k h = inl (flow, h, (refl, refl), inl refl)
  step-Comes (op_burn now) f s flow k h = inl (flow, ground arith, (refl, refl), inl refl)
  step-Comes (op_refuse given now) f s flow k h = inl (flow, h, (refl, refl), inl refl)
  step-Comes (op_check given now) f s flow k h = inl (flow, h, (refl, refl), inl refl)

  step-Distinct_flows :
      (op : Op) (s : State) → Distinct s.flows → Distinct (step code_key op s).flows
  unfolding step prune take_ticket start_flow claim claim_found retry_without_prompt advance
      end_flow start_leg burn_allowed refuse_code code_check
  step-Distinct_flows (op_issue drawn d now) s k =
      rw (issue_ticket_flows drawn d now s, Distinct) (filter-Distinct (live_flow now) s.flows k)
  step-Distinct_flows (op_take (some ticket) now) s k = elim (Bool-cases (is_link_id ticket)) [
    | inl valid ↦ rw (valid, Distinct) k
    | inr invalid ↦ rw (invalid, Distinct) k
  ]
  step-Distinct_flows (op_take none now) s k = k
  step-Distinct_flows (op_start drawn v d now) s k =
      let kept = filter-Distinct (live_flow now) s.flows k in
      elim (Bool-cases (leb max_entries (length (filter (live_flow now) s.flows)))) [
        | inl full ↦ rw (full, Distinct) kept
        | inr room ↦ rw (room, Distinct) (put-Distinct drawn _ _ kept)
      ]
  step-Distinct_flows (op_claim (some given) st v now) s k = elim (Bool-cases (is_link_id given)) [
    | inl valid ↦ elim (Option-cases (get given s.flows)) [
      | inl missing ↦ rw (valid, Distinct) (rw (missing, Distinct) k)
      | inr (flow, found) ↦ elim (Bool-cases (matches flow st v now)) [
        | inl good ↦ rw (valid, Distinct) (rw (found, Distinct) (rw (good, Distinct) k))
        | inr bad ↦
            rw (valid, Distinct)
              (rw (found, Distinct) (rw (bad, Distinct) (remove-Distinct given s.flows k)))
      ]
    ]
    | inr invalid ↦ rw (invalid, Distinct) k
  ]
  step-Distinct_flows (op_claim none st v now) s k = k
  step-Distinct_flows (op_retry drawn given now) s k = elim (Option-cases (get given s.flows)) [
    | inl missing ↦ rw (missing, Distinct) k
    | inr (flow, found) ↦ rw (found, Distinct) (put-Distinct given _ s.flows k)
  ]
  step-Distinct_flows (op_advance drawn given now) s k = elim (Option-cases (get given s.flows)) [
    | inl missing ↦ rw (missing, Distinct) k
    | inr (flow, found) ↦ rw (found, Distinct) (put-Distinct given _ s.flows k)
  ]
  step-Distinct_flows (op_end (some given) now) s k = remove-Distinct given s.flows k
  step-Distinct_flows (op_end none now) s k = k
  step-Distinct_flows (op_leg d now) s k = k
  step-Distinct_flows (op_burn now) s k =
      elim (Bool-cases (leb burns_per_minute (length (filter (is_recent 60000 now) s.burned)))) [
        | inl full ↦ rw (full, Distinct) k
        | inr room ↦ rw (room, Distinct) k
      ]
  step-Distinct_flows (op_refuse given now) s k = k
  step-Distinct_flows (op_check given now) s k = k

  run-Origin :
      (ops : List Op) (f : String) (s : State) (flow : Flow)
      → Distinct s.flows
      → get f (run code_key ops s).flows ≡ some flow
      → Origin f flow s ops
  unfolding run
  run-Origin [] f s flow k h = inl (flow, h, (refl, refl), inl refl)
  run-Origin (op ∷ ops) f s flow k h =
      elim (run-Origin ops f (step code_key op s) flow (step-Distinct_flows op s k) h) [
        | inl (middle, held, same, stage) ↦
            Origin-cons f op ops s middle flow (step-Comes op f s middle k held) same stage
        | inr (begun, inl first) ↦ inr (inr begun, inl first)
        | inr (begun, inr later) ↦ inr (inr begun, inr (inr later))
      ]

  origin_from_start :
      (ops : List Op) (f : String) (flow : Flow)
      → get f (run code_key ops initial).flows ≡ some flow
      → Any (Starts f flow) ops × ((flow.stage ≡ discord) ⊎ Any (Advances f) ops)
  unfolding initial get
  origin_from_start ops f flow h = elim (run-Origin ops f initial flow tt h) [
    | inl (before, held, same, stage) ↦ absurd (cc)
    | inr begun ↦ begun
  ]

  -- A claim that succeeds after a trace from the start is for a flow at the asked stage, with the
  -- state of that leg, before both deadlines. The trace began the flow for the same Discord account
  -- with that overall deadline, and a claim at the Patreon stage comes after an advance.
  pub claim-IsGenuine :
      (ops : List Op) (f : String) (stage : Stage) (state : Option String) (now : ℕ) (flow : Flow)
      → (claim (some f) stage state now (run code_key ops initial)).1 ≡ some flow
      → IsGenuine ops f stage state now flow
  claim-IsGenuine ops f stage state now flow h =
      let (held, at_stage, same, in_stage, in_flow) =
        claim_checks f stage state now (run code_key ops initial) flow h in
      let (begun, leg) = origin_from_start ops f flow held in
      record {
        at_stage = at_stage;
        same_state = same;
        in_stage = in_stage;
        in_flow = in_flow;
        started = begun;
        advanced = λ p. elim leg [ inl first ↦ absurd (cc) | inr later ↦ later ];
      }
