-- ===== src/PatronLink/Flow.antt =====
-- The sign-in flows of `PatronLinkState` in src/patron-link/patron-link.state.ts.
use uncs_bot.Common.{
  ℕ, ◌+◌, min, String, Bool, true, false, ◌&&◌, Option, none, some, ltb, leb, str_eq, if◌then◌else◌,
  length, get, put, remove,
}
use uncs_bot.PatronLink.Counter.{max_entries}
use uncs_bot.PatronLink.State.{
  stage_ms, flow_ms, is_link_id, Stage, discord, patreon, stage_eq, Flow, State, prune,
}

-- `drawn` is the flow's ID and `drawn_state` its first state.
unfoldable pub start_flow : String → String → String → ℕ → State → State × Option (String × String)
start_flow drawn drawn_state discord_id now s =
    let pruned = prune now s in
    if leb max_entries (length pruned.flows) then (pruned, none) else (
      record pruned {
        flows =
            put drawn
              (record {
                discord_id = discord_id;
                stage = discord;
                state = drawn_state;
                stage_expires_at = now + stage_ms;
                flow_expires_at = now + flow_ms;
                prompt_none = true;
              })
              pruned.flows;
      },
      some (drawn, drawn_state),
    )

-- `typeof state === "string" && PATRON_LINK_ID.test(state) && same(state, flow.state)`; a constant-
-- time comparison of the bytes is equality of the strings.
abbrev state_ok : Option String → Flow → Bool
state_ok none flow = false
state_ok (some state) flow = is_link_id state && str_eq state flow.state

unfoldable pub matches : Flow → Stage → Option String → ℕ → Bool
matches flow stage state now =
    stage_eq flow.stage stage
    && ltb now flow.stage_expires_at
    && ltb now flow.flow_expires_at
    && state_ok state flow

-- What `claim` does with the flow it looked up.
unfoldable pub claim_found :
    String → Stage → Option String → ℕ → State → Option Flow → State × Option Flow
claim_found flow_id stage state now s none = (s, none)
claim_found flow_id stage state now s (some flow) =
    if matches flow stage state now
    then (s, some flow)
    else (record s { flows = remove flow_id s.flows }, none)

unfoldable pub claim : Option String → Stage → Option String → ℕ → State → State × Option Flow
unfolding claim_found
claim none stage state now s = (s, none)
claim (some flow_id) stage state now s =
    if is_link_id flow_id
    then claim_found flow_id stage state now s (get flow_id s.flows)
    else (s, none)

abbrev holds_found : Stage → Option String → ℕ → Option Flow → Bool
holds_found stage state now none = false
holds_found stage state now (some flow) = matches flow stage state now

unfoldable pub holds : Option String → Stage → Option String → ℕ → State → Bool
holds none stage state now s = false
holds (some flow_id) stage state now s =
    is_link_id flow_id && holds_found stage state now (get flow_id s.flows)

abbrev pub retry_found : String → String → State → Option Flow → State × Option String
retry_found drawn flow_id s none = (s, none)
retry_found drawn flow_id s (some flow) = (
  record s { flows = put flow_id (record flow { prompt_none = false; state = drawn }) s.flows },
  some drawn,
)

unfoldable pub retry_without_prompt : String → String → State → State × Option String
retry_without_prompt drawn flow_id s = retry_found drawn flow_id s (get flow_id s.flows)

abbrev pub advance_found : String → String → ℕ → State → Option Flow → State × Option String
advance_found drawn flow_id now s none = (s, none)
advance_found drawn flow_id now s (some flow) = (
  record s {
    flows =
        put flow_id
          (record flow {
            stage = patreon;
            state = drawn;
            stage_expires_at = min (now + stage_ms) flow.flow_expires_at;
          })
          s.flows;
  },
  some drawn,
)

unfoldable pub advance : String → String → ℕ → State → State × Option String
advance drawn flow_id now s = advance_found drawn flow_id now s (get flow_id s.flows)

-- `end` of the source; the flow's entry is deleted if the cookie is a string at all.
unfoldable pub end_flow : Option String → State → State
end_flow none s = s
end_flow (some flow_id) s = record s { flows = remove flow_id s.flows }
