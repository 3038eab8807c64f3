-- ===== src/PatronLink/FlowOrigins.antt =====
-- Where a flow of src/patron-link/patron-link.state.ts comes from, one operation at a time.
use uncs_bot.Common.{
  Bool-cases, Distinct, List, Option, String, arith, eq_iff, false, filter, get, get-filter-some,
  get-put, get-remove, inl, inr, min, none, refl, some, str_eq, true, ℕ, ◌+◌, ◌<◌, ◌∙◌, ◌∷◌, ◌≡◌,
  ◌⊎◌,
}
use uncs_bot.PatronLink.State.{
  Flow, Stage, State, discord, flow_ms, issue_counted, issue_ticket, live_flow, patreon, prune,
  stage_ms,
}
use uncs_bot.PatronLink.Flow.{advance_found, claim, claim_found, matches, retry_found, start_flow}
use uncs_bot.PatronLink.Run.{Op, op_advance, op_retry, op_start}
use uncs_bot.PatronLink.Tickets.{Any}

-- The operation begins this flow: same ID, same Discord account, and the flow's overall deadline.
abbrev pub Starts : String → Flow → Op → Type 0
Starts f flow (op_start drawn v d now) =
    (str_eq drawn f ≡ true) × (flow.discord_id ≡ d) × (flow.flow_expires_at ≡ now + flow_ms)
Starts f flow _ = ⊥

-- The operation moves this flow on to the Patreon leg.
abbrev pub Advances : String → Op → Type 0
Advances f (op_advance drawn flow_id now) = str_eq flow_id f ≡ true
Advances f _ = ⊥

-- The same sign-in: the account and the deadline are those of `before`.
abbrev SameSignIn : Flow → Flow → Type 0
SameSignIn before flow =
    (flow.discord_id ≡ before.discord_id) × (flow.flow_expires_at ≡ before.flow_expires_at)

-- Where a flow that is there after an operation comes from.
abbrev pub Comes : String → Flow → State → Op → Type 0
Comes f flow s op =
    ((before : Flow) × (get f s.flows ≡ some before)
      × SameSignIn before flow
      × ((flow.stage ≡ before.stage) ⊎ Advances f op))
    ⊎ (Starts f flow op × (flow.stage ≡ discord))

pub start_flow-Comes :
    (drawn v d f : String) (now : ℕ) (s : State) (flow : Flow)
    → Distinct s.flows
    → get f (start_flow drawn v d now s).0.flows ≡ some flow
    → (get f s.flows ≡ some flow)
      ⊎ (Starts f flow (op_start drawn v d now) × (flow.stage ≡ discord))
unfolding start_flow prune
start_flow-Comes drawn v d f now s flow k h = ground (
  arith,
  get-filter-some (live_flow now) f flow s.flows k,
  get-put drawn f
      (record {
        discord_id = d;
        stage = discord;
        state = v;
        stage_expires_at = now + stage_ms;
        flow_expires_at = now + flow_ms;
        prompt_none = true;
      })
      (filter (live_flow now) s.flows),
)

pub claim-Comes :
    (given : Option String) (st : Stage) (v : Option String) (f : String) (now : ℕ) (s : State)
    (flow : Flow)
    → get f (claim given st v now s).0.flows ≡ some flow
    → get f s.flows ≡ some flow
unfolding claim claim_found
claim-Comes none st v f now s flow h = h
claim-Comes (some given) st v f now s flow h = ground (arith, get-remove given f s.flows)

pub issue_ticket_flows :
    (drawn d : String) (now : ℕ) (s : State)
    → (issue_ticket drawn d now s).0.flows ≡ filter (live_flow now) s.flows
unfolding issue_ticket issue_counted prune
issue_ticket_flows drawn d now s = ground arith

pub issue_ticket-flows :
    (drawn d f : String) (now : ℕ) (s : State) (flow : Flow)
    → Distinct s.flows
    → get f (issue_ticket drawn d now s).0.flows ≡ some flow
    → get f s.flows ≡ some flow
unfolding issue_ticket issue_counted prune
issue_ticket-flows drawn d f now s flow k h =
    ground (arith, get-filter-some (live_flow now) f flow s.flows k)

pub retry_found-Comes :
    (drawn given f : String) (now : ℕ) (s : State) (found : Option Flow) (flow : Flow)
    → get given s.flows ≡ found
    → get f (retry_found drawn given s found).0.flows ≡ some flow
    → Comes f flow s (op_retry drawn given now)
retry_found-Comes drawn given f now s none flow e h = inl (flow, h, (refl, refl), inl refl)
retry_found-Comes drawn given f now s (some old) flow e h =
    let law = get-put given f (record old { prompt_none = false; state = drawn }) s.flows in
    elim (Bool-cases (str_eq given f)) [
      | inl same ↦ inl (
        old,
        ground (arith, eq_iff given f),
        (ground (arith, law), ground (arith, law)),
        inl (ground (arith, law)),
      )
      | inr other ↦ inl (flow, ground (arith, law), (refl, refl), inl refl)
    ]

pub advance_found-Comes :
    (drawn given f : String) (now : ℕ) (s : State) (found : Option Flow) (flow : Flow)
    → get given s.flows ≡ found
    → get f (advance_found drawn given now s found).0.flows ≡ some flow
    → Comes f flow s (op_advance drawn given now)
advance_found-Comes drawn given f now s none flow e h = inl (flow, h, (refl, refl), inl refl)
advance_found-Comes drawn given f now s (some old) flow e h =
    let law =
      get-put given f
        (record old {
          stage = patreon;
          state = drawn;
          stage_expires_at = min (now + stage_ms) old.flow_expires_at;
        })
        s.flows in
    elim (Bool-cases (str_eq given f)) [
      | inl same ↦ inl (
        old,
        ground (arith, eq_iff given f),
        (ground (arith, law), ground (arith, law)),
        inr same,
      )
      | inr other ↦ inl (flow, ground (arith, law), (refl, refl), inl refl)
    ]

Starts-of_SameSignIn :
    (f : String) (before flow : Flow) (op : Op)
    → SameSignIn before flow
    → Starts f before op
    → Starts f flow op
Starts-of_SameSignIn f before flow (op_start drawn v d now) same h = ground arith
Starts-of_SameSignIn f before flow _ same h = h

-- Where a flow that is there after a trace comes from.
abbrev pub Origin : String → Flow → State → List Op → Type 0
Origin f flow s ops =
    ((before : Flow) × (get f s.flows ≡ some before)
      × SameSignIn before flow
      × ((flow.stage ≡ before.stage) ⊎ Any (Advances f) ops))
    ⊎ (Any (Starts f flow) ops × ((flow.stage ≡ discord) ⊎ Any (Advances f) ops))

pub Origin-cons :
    (f : String) (op : Op) (ops : List Op) (s : State) (middle flow : Flow)
    → Comes f middle s op
    → SameSignIn middle flow
    → ((flow.stage ≡ middle.stage) ⊎ Any (Advances f) ops)
    → Origin f flow s (op ∷ ops)
Origin-cons f op ops s middle flow (inl (before, held, same, inl kept)) same' (inl kept') =
    inl (before, held, (same'.0 ∙ same.0, same'.1 ∙ same.1), inl (kept' ∙ kept))
Origin-cons f op ops s middle flow (inl (before, held, same, inr here)) same' later =
    inl (before, held, (same'.0 ∙ same.0, same'.1 ∙ same.1), inr (inl here))
Origin-cons f op ops s middle flow (inl (before, held, same, inl kept)) same' (inr later) =
    inl (before, held, (same'.0 ∙ same.0, same'.1 ∙ same.1), inr (inr later))
Origin-cons f op ops s middle flow (inr (begun, first)) same' (inl kept') =
    inr (inl (Starts-of_SameSignIn f middle flow op same' begun), inl (kept' ∙ first))
Origin-cons f op ops s middle flow (inr (begun, first)) same' (inr later) =
    inr (inl (Starts-of_SameSignIn f middle flow op same' begun), inr (inr later))

-- What a successful claim has checked, and where its flow comes from.
pub record IsGenuine (ops : List Op) (f : String) (stage : Stage) (state : Option String) (now : ℕ)
    (flow : Flow) : Type 0 where
  pub at_stage : flow.stage ≡ stage
  pub same_state : state ≡ some flow.state
  pub in_stage : now < flow.stage_expires_at
  pub in_flow : now < flow.flow_expires_at
  pub started : Any (Starts f flow) ops
  pub advanced : stage ≡ patreon → Any (Advances f) ops

pub claim_checks :
    (f : String) (stage : Stage) (state : Option String) (now : ℕ) (s : State) (flow : Flow)
    → (claim (some f) stage state now s).1 ≡ some flow
    → (get f s.flows ≡ some flow)
      × (flow.stage ≡ stage)
      × (state ≡ some flow.state)
      × (now < flow.stage_expires_at)
      × (now < flow.flow_expires_at)
unfolding claim claim_found matches
claim_checks f stage none now s flow h = ground arith
claim_checks f stage (some state) now s flow h = (
  ground arith,
  ground arith,
  ground (arith, eq_iff state flow.state),
  ground arith,
  ground arith,
)
