-- ===== src/Events/Refusals.antt =====
-- Refused actions of a vote-started event in src/server-events/server-events.service.ts: how they are
-- counted, and when they stop the event.
use uncs_bot.Common.{
  All, Bool, List, Option, Option-cases, [], ap, arith, false, if_keeps, inl, inr, leb, none, not,
  or_else, refl, some, subst, true, ℕ, ◌&&◌, ◌+◌, ◌==◌, ◌||◌, ◌∙◌, ◌∷◌, ◌≡◌,
}
use uncs_bot.Events.Record.{
  EventOperation, EventProgress, EventRecord, EventState, OperationKind, active, is_vote_event,
  move_player, respawn, round_warning,
}
use uncs_bot.Events.Outcome.{
  ActionResult, Outcome, ResultState, failed, is_accepted, is_accepted_result, is_applied,
  is_failed, is_no, is_restore, moves_players, outcome, retry_outcome, unchanged_outcome,
  unconfirmed, unconfirmed_move, unconfirmed_respawn, without_respawn,
}
use uncs_bot.Events.Lock.{same_bool}

-- What the game made of one operation, and when.
pub record Answer : Type 0 where
  pub answered : EventOperation
  pub answer_result : ActionResult
  pub answered_at : ℕ

-- Whether the game surely refused: a failed move or respawn, or a warning of the round that was not sent.
abbrev pub refused_kind : OperationKind → ResultState → Bool
refused_kind move_player state = is_failed state
refused_kind respawn state = is_failed state
refused_kind round_warning state = not (is_applied state || is_accepted state)
refused_kind _ state = false

abbrev pub is_refusal : Answer → Bool
is_refusal answer = refused_kind answer.answered.op_kind answer.answer_result.result_state

-- An outcome that counts one more failure than `before`, and halts from the third on.
unfoldable counts_one : ℕ → Option Outcome → Bool
counts_one before none = false
counts_one before (some o) =
    (or_else o.outcome_progress.event_failures 0 == before + 1)
    && same_bool o.outcome_halt (leb 3 (before + 1))

retry-counts_one :
    (progress : EventProgress) (state : EventState) (base : EventProgress)
    → counts_one (or_else progress.event_failures 0) (retry_outcome progress state base) ≡ true
unfolding counts_one retry_outcome
retry-counts_one progress state base = ground arith

move-counts_one :
    (state : ResultState) (event : EventRecord) (op : EventOperation) (now : ℕ)
    → is_failed state ≡ true
    → counts_one
        (or_else event.event_progress.event_failures 0)
        (unconfirmed_move state event op now)
      ≡ true
unfolding unconfirmed_move
move-counts_one failed event op now h =
    retry-counts_one event.event_progress active event.event_progress
move-counts_one state event op now h = absurd (ground arith)

respawn-counts_one :
    (state : ResultState) (progress : EventProgress)
    → is_failed state ≡ true
    → counts_one (or_else progress.event_failures 0) (unconfirmed_respawn state progress) ≡ true
unfolding unconfirmed_respawn
respawn-counts_one failed progress h = retry-counts_one progress active (without_respawn progress)
respawn-counts_one state progress h = absurd (ground arith)

unconfirmed-counts_one :
    (kind : OperationKind) (event : EventRecord) (op : EventOperation) (result : ActionResult)
    (now : ℕ)
    → refused_kind kind result.result_state ≡ true
    → counts_one
        (or_else event.event_progress.event_failures 0)
        (unconfirmed kind result event op now)
      ≡ true
unfolding unconfirmed
unconfirmed-counts_one move_player event op result now r =
    move-counts_one result.result_state event op now r
unconfirmed-counts_one respawn event op result now r =
    respawn-counts_one result.result_state event.event_progress r
unconfirmed-counts_one round_warning event op result now r =
    retry-counts_one event.event_progress event.event_state event.event_progress
unconfirmed-counts_one kind event op result now r = absurd (ground arith)

refused-not_accepted :
    (kind : OperationKind) (result : ActionResult)
    → refused_kind kind result.result_state ≡ true
    → is_accepted_result kind result ≡ false
unfolding is_accepted_result
refused-not_accepted kind result r = ground arith

refused-not_restore :
    (kind : OperationKind) (state : ResultState)
    → refused_kind kind state ≡ true
    → is_restore kind ≡ false
refused-not_restore kind state r = ground arith

refused-moves :
    (kind : OperationKind) (state : ResultState)
    → refused_kind kind state ≡ true
    → moves_players kind ≡ true
    → is_failed state ≡ true
refused-moves kind state r m = ground arith

outcome-counts_one :
    (event : EventRecord) (op : EventOperation) (result : ActionResult) (now : ℕ)
    → is_vote_event event.event_options ≡ true
    → refused_kind op.op_kind result.result_state ≡ true
    → counts_one (or_else event.event_progress.event_failures 0) (outcome event op result now)
      ≡ true
unfolding outcome unchanged_outcome
outcome-counts_one event op result now v r =
    let Q : Option Outcome → Type 0 =
      λ o. counts_one (or_else event.event_progress.event_failures 0) o ≡ true in
    if_keeps Q (moves_players op.op_kind && is_no result.changed) _ _
      (λ e.
        let failing : is_failed result.result_state ≡ true =
          refused-moves op.op_kind result.result_state r (ground arith) in
        if_keeps Q (is_vote_event event.event_options && is_failed result.result_state) _ _
          (λ f. retry-counts_one event.event_progress active _) (λ f. absurd (ground arith)))
      (λ e.
        if_keeps Q (is_accepted_result op.op_kind result) _ _
          (λ f. absurd (ground (arith, refused-not_accepted op.op_kind result r)))
          (λ f.
            if_keeps Q (is_restore op.op_kind) _ _
              (λ g. absurd (ground (arith, refused-not_restore op.op_kind result.result_state r)))
              (λ g.
                if_keeps Q (not (is_vote_event event.event_options)) _ _
                  (λ h. absurd (ground arith))
                  (λ h. unconfirmed-counts_one op.op_kind event op result now r))))

-- The event that an outcome leaves.
abbrev pub carried : EventRecord → Outcome → EventRecord
carried event o = record event {
  event_state = o.outcome_state;
  event_progress = o.outcome_progress;
}

-- Whether each of successive answers halts the event. The list ends where there is no outcome.
unfoldable pub halts : EventRecord → List Answer → List Bool
halts event [] = []
halts event (a ∷ answers) = elim (outcome event a.answered a.answer_result a.answered_at) [
  | none ↦ []
  | some o ↦ o.outcome_halt ∷ halts (carried event o) answers
]

-- Only the third failure in a row, and those after it, halt: `before` of them came earlier.
unfoldable pub halts_from : ℕ → List Answer → List Bool
halts_from before [] = []
halts_from before (a ∷ answers) = leb 3 (before + 1) ∷ halts_from (before + 1) answers

-- Each of successive refusals in a vote-started event, that is failed moves and respawns and warnings of
-- the round that were not sent, has an outcome, and it halts the event exactly from the third failure in a
-- row on, the ones counted before included.
pub refusals_halt :
    (answers : List Answer) (event : EventRecord)
    → is_vote_event event.event_options ≡ true
    → All (λ a. is_refusal a ≡ true) answers
    → halts event answers ≡ halts_from (or_else event.event_progress.event_failures 0) answers
unfolding halts halts_from counts_one
refusals_halt [] event v h = refl
refusals_halt (a ∷ answers) event v (r, h) =
    let counted = outcome-counts_one event a.answered a.answer_result a.answered_at v r in
    elim (Option-cases (outcome event a.answered a.answer_result a.answered_at)) [
      | inl n ↦ absurd (ground arith)
      | inr (o, s) ↦
          let one : counts_one (or_else event.event_progress.event_failures 0) (some o) ≡ true =
            subst (λ x. counts_one (or_else event.event_progress.event_failures 0) x ≡ true) s
              counted in
          let count : or_else o.outcome_progress.event_failures 0
              ≡ or_else event.event_progress.event_failures 0 + 1 =
            ground arith in
          let halt : o.outcome_halt ≡ leb 3 (or_else event.event_progress.event_failures 0 + 1) =
            ground arith in
          let rest = refusals_halt answers (carried event o) v h in
          rw (s, halts, halt)
            (ap (λ xs. leb 3 (or_else event.event_progress.event_failures 0 + 1) ∷ xs)
              (rest ∙ ap (λ n. halts_from n answers) count))
    ]
