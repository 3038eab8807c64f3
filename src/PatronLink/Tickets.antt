-- ===== src/PatronLink/Tickets.antt =====
-- A ticket works once, only for the account it was issued to, and only for ten minutes.
use uncs_bot.Common.{
  All, Bool, Bool-cases, Distinct, List, Option, Option-cases, String, [], arith, false, filter,
  filter-Distinct, get, get-filter-some, get-put, get-remove, get-remove_self, inl, inr, leb,
  length, none, put-Distinct, refl, remove, remove-Distinct, some, str_eq, true, ℕ, ◌+◌, ◌<◌, ◌∷◌,
  ◌≡◌, ◌⊎◌,
}
use uncs_bot.PatronLink.Counter.{Counter, Take, is_recent, max_entries, ok, take}
use uncs_bot.PatronLink.State.{
  Stage, State, Ticket, burns_per_minute, initial, is_link_id, issue_counted, issue_ticket,
  live_flow, live_ticket, prune, take_ticket, ticket_ms,
}
use uncs_bot.PatronLink.Flow.{
  advance, claim, claim_found, end_flow, retry_without_prompt, start_flow,
}
use uncs_bot.PatronLink.Code.{burn_allowed, code_check, refuse_code, start_leg}
use uncs_bot.PatronLink.Run.{
  Op, op_advance, op_burn, op_check, op_claim, op_end, op_issue, op_leg, op_refuse, op_retry,
  op_start, op_take, run, step,
}

-- One of the operations satisfies the predicate.
abbrev pub Any : (Op → Type 0) → List Op → Type 0
Any P [] = ⊥
Any P (op ∷ ops) = P op ⊎ Any P ops

-- The operation issues this ticket.
abbrev pub Issues : String → Ticket → Op → Type 0
Issues ticket entry (op_issue drawn discord_id now) =
    (str_eq drawn ticket ≡ true)
    × (entry.discord_id ≡ discord_id)
    × (entry.expires_at ≡ now + ticket_ms)
Issues ticket entry _ = ⊥

-- The operation draws this ticket's text for a new ticket.
abbrev pub draws : String → Op → Bool
draws ticket (op_issue drawn discord_id now) = str_eq drawn ticket
draws ticket _ = false

get-issue_counted :
    (drawn discord_id ticket : String) (now : ℕ) (s : State) (r : Counter × Take) (entry : Ticket)
    → get ticket (issue_counted drawn discord_id now s r).0.tickets ≡ some entry
    → (get ticket s.tickets ≡ some entry) ⊎ Issues ticket entry (op_issue drawn discord_id now)
unfolding issue_counted
get-issue_counted drawn discord_id ticket now s (c, ok) entry h = ground (
  arith,
  get-put drawn ticket (record { discord_id = discord_id; expires_at = now + ticket_ms }) s.tickets,
)
get-issue_counted drawn discord_id ticket now s (c, _) entry h = inl h

get-issue :
    (drawn discord_id ticket : String) (now : ℕ) (s : State) (entry : Ticket)
    → Distinct s.tickets
    → get ticket (issue_ticket drawn discord_id now s).0.tickets ≡ some entry
    → (get ticket s.tickets ≡ some entry) ⊎ Issues ticket entry (op_issue drawn discord_id now)
unfolding issue_ticket prune
get-issue drawn discord_id ticket now s entry d h = ground (
  arith,
  get-filter-some (live_ticket now) ticket entry s.tickets d,
  get-issue_counted drawn discord_id ticket now (prune now s) (take s.tickets_issued discord_id now)
      entry,
)

get-take_ticket :
    (given : Option String) (ticket : String) (now : ℕ) (s : State) (entry : Ticket)
    → get ticket (take_ticket given now s).0.tickets ≡ some entry
    → get ticket s.tickets ≡ some entry
unfolding take_ticket
get-take_ticket none ticket now s entry h = h
get-take_ticket (some given) ticket now s entry h =
    ground (arith, get-remove given ticket s.tickets)

get-start :
    (drawn v d ticket : String) (now : ℕ) (s : State) (entry : Ticket)
    → Distinct s.tickets
    → get ticket (start_flow drawn v d now s).0.tickets ≡ some entry
    → get ticket s.tickets ≡ some entry
unfolding start_flow prune
get-start drawn v d ticket now s entry k h =
    ground (arith, get-filter-some (live_ticket now) ticket entry s.tickets k)

claim-tickets :
    (f : Option String) (st : Stage) (v : Option String) (now : ℕ) (s : State)
    → (claim f st v now s).0.tickets ≡ s.tickets
unfolding claim claim_found
claim-tickets none st v now s = refl
claim-tickets (some f) st v now s = ground arith

issue_counted-Distinct :
    (drawn d : String) (now : ℕ) (s : State) (r : Counter × Take)
    → Distinct s.tickets
    → Distinct (issue_counted drawn d now s r).0.tickets
unfolding issue_counted
issue_counted-Distinct drawn d now s (c, ok) k = put-Distinct drawn _ s.tickets k
issue_counted-Distinct drawn d now s (c, _) k = k

not_issued :
    (op : Op) (ticket : String) (entry : Ticket)
    → draws ticket op ≡ false
    → Issues ticket entry op
    → ⊥
not_issued (op_issue drawn d now) ticket entry fresh h = cc
not_issued _ ticket entry fresh h = h

module _ (code_key : String → String) where
  step-Distinct : (op : Op) (s : State) → Distinct s.tickets → Distinct (step code_key op s).tickets
  unfolding step issue_ticket prune take_ticket start_flow retry_without_prompt advance end_flow
      start_leg burn_allowed refuse_code code_check
  step-Distinct (op_issue drawn d now) s k =
      let kept = filter-Distinct (live_ticket now) s.tickets k in
      elim (Bool-cases (leb max_entries (length (filter (live_ticket now) s.tickets)))) [
        | inl full ↦ rw (full, Distinct) kept
        | inr room ↦
            rw (room, Distinct)
              (issue_counted-Distinct drawn d now (prune now s) (take s.tickets_issued d now) kept)
      ]
  step-Distinct (op_take (some ticket) now) s k = elim (Bool-cases (is_link_id ticket)) [
    | inl valid ↦ rw (valid, Distinct) (remove-Distinct ticket s.tickets k)
    | inr invalid ↦ rw (invalid, Distinct) k
  ]
  step-Distinct (op_take none now) s k = k
  step-Distinct (op_start drawn v d now) s k =
      let kept = filter-Distinct (live_ticket now) s.tickets k in
      elim (Bool-cases (leb max_entries (length (filter (live_flow now) s.flows)))) [
        | inl full ↦ rw (full, Distinct) kept
        | inr room ↦ rw (room, Distinct) kept
      ]
  step-Distinct (op_claim f st v now) s k = rw (claim-tickets f st v now s) k
  step-Distinct (op_retry drawn f now) s k = elim (Option-cases (get f s.flows)) [
    | inl missing ↦ rw (missing, Distinct) k
    | inr (flow, found) ↦ rw (found, Distinct) k
  ]
  step-Distinct (op_advance drawn f now) s k = elim (Option-cases (get f s.flows)) [
    | inl missing ↦ rw (missing, Distinct) k
    | inr (flow, found) ↦ rw (found, Distinct) k
  ]
  step-Distinct (op_end (some f) now) s k = k
  step-Distinct (op_end none now) s k = k
  step-Distinct (op_leg d now) s k = k
  step-Distinct (op_burn now) s k =
      elim (Bool-cases (leb burns_per_minute (length (filter (is_recent 60000 now) s.burned)))) [
        | inl full ↦ rw (full, Distinct) k
        | inr room ↦ rw (room, Distinct) k
      ]
  step-Distinct (op_refuse given now) s k = k
  step-Distinct (op_check given now) s k = k

  -- A ticket held after a step was held before it, or the step issued it.
  get-step :
      (op : Op) (ticket : String) (s : State) (entry : Ticket)
      → Distinct s.tickets
      → get ticket (step code_key op s).tickets ≡ some entry
      → (get ticket s.tickets ≡ some entry) ⊎ Issues ticket entry op
  unfolding step retry_without_prompt advance end_flow start_leg burn_allowed refuse_code code_check
  get-step (op_issue drawn d now) ticket s entry k h = get-issue drawn d ticket now s entry k h
  get-step (op_take given now) ticket s entry k h = inl (get-take_ticket given ticket now s entry h)
  get-step (op_start drawn v d now) ticket s entry k h =
      inl (get-start drawn v d ticket now s entry k h)
  get-step (op_claim f st v now) ticket s entry k h = inl (rw (← claim-tickets f st v now s) h)
  get-step (op_retry drawn f now) ticket s entry k h = inl (ground arith)
  get-step (op_advance drawn f now) ticket s entry k h = inl (ground arith)
  get-step (op_end (some f) now) ticket s entry k h = inl h
  get-step (op_end none now) ticket s entry k h = inl h
  get-step (op_leg d now) ticket s entry k h = inl h
  get-step (op_burn now) ticket s entry k h = inl (ground arith)
  get-step (op_refuse given now) ticket s entry k h = inl h
  get-step (op_check given now) ticket s entry k h = inl h

  get-run :
      (ops : List Op) (ticket : String) (s : State) (entry : Ticket)
      → Distinct s.tickets
      → get ticket (run code_key ops s).tickets ≡ some entry
      → (get ticket s.tickets ≡ some entry) ⊎ Any (Issues ticket entry) ops
  unfolding run
  get-run [] ticket s entry k h = inl h
  get-run (op ∷ ops) ticket s entry k h =
      elim (get-run ops ticket (step code_key op s) entry (step-Distinct op s k) h) [
        | inl held ↦ elim (get-step op ticket s entry k held) [
          | inl before ↦ inl before
          | inr here ↦ inr (inl here)
        ]
        | inr later ↦ inr (inr later)
      ]

  issued_from_start :
      (ops : List Op) (ticket : String) (entry : Ticket)
      → get ticket (run code_key ops initial).tickets ≡ some entry
      → Any (Issues ticket entry) ops
  unfolding initial get
  issued_from_start ops ticket entry h = elim (get-run ops ticket initial entry tt h) [
    | inl before ↦ absurd (cc)
    | inr later ↦ later
  ]

  -- A ticket that a trace from the start lets through at `now` is one that the trace issued to the
  -- Discord account that it answers with, less than ten minutes before `now`.
  pub take_ticket-Issues :
      (ops : List Op) (ticket account : String) (now : ℕ)
      → (take_ticket (some ticket) now (run code_key ops initial)).1 ≡ some account
      → (entry : Ticket) × Any (Issues ticket entry) ops
        × (entry.discord_id ≡ account)
        × (now < entry.expires_at)
  unfolding take_ticket
  take_ticket-Issues ops ticket account now h =
      elim (Option-cases (get ticket (run code_key ops initial).tickets)) [
        | inl missing ↦ absurd (ground arith)
        | inr (entry, found) ↦
            (entry, issued_from_start ops ticket entry found, ground arith, ground arith)
      ]

  draws-step :
      (op : Op) (ticket : String) (s : State)
      → Distinct s.tickets
      → draws ticket op ≡ false
      → get ticket s.tickets ≡ none
      → get ticket (step code_key op s).tickets ≡ none
  draws-step op ticket s k fresh h = elim (Option-cases (get ticket (step code_key op s).tickets)) [
    | inl missing ↦ missing
    | inr (entry, found) ↦ elim (get-step op ticket s entry k found) [
      | inl held ↦ absurd (ground arith)
      | inr here ↦ absurd (not_issued op ticket entry fresh here)
    ]
  ]

  draws-run :
      (ops : List Op) (ticket : String) (s : State)
      → Distinct s.tickets
      → All (λ op. draws ticket op ≡ false) ops
      → get ticket s.tickets ≡ none
      → get ticket (run code_key ops s).tickets ≡ none
  unfolding run
  draws-run [] ticket s k fresh h = h
  draws-run (op ∷ ops) ticket s k (here, fresh) h =
      draws-run ops ticket (step code_key op s) (step-Distinct op s k) fresh
        (draws-step op ticket s k here h)

  -- From any state with distinct keys: a ticket that was presented once, whatever the answer, gets
  -- nothing when it is presented again, unless the bot drew the same text for a new ticket between.
  pub take_ticket_once :
      (ops : List Op) (ticket : String) (first later : ℕ) (s : State)
      → Distinct s.tickets
      → All (λ op. draws ticket op ≡ false) ops
      → (take_ticket (some ticket) later (run code_key ops (take_ticket (some ticket) first s).0)).1
        ≡ none
  unfolding take_ticket
  take_ticket_once ops ticket first later s k fresh = elim (Bool-cases (is_link_id ticket)) [
    | inl valid ↦ rw valid (
        rw (
          draws-run ops ticket (record s { tickets = remove ticket s.tickets })
            (remove-Distinct ticket s.tickets k) fresh (get-remove_self ticket s.tickets)))
    | inr invalid ↦ rw invalid
  ]
