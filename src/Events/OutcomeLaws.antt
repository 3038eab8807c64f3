-- ===== src/Events/OutcomeLaws.antt =====
-- The outcomes of src/server-events/server-events.service.ts: who is left to staff.
use uncs_bot.Common.{
  Bool, Option, Option-cases, arith, false, if_keeps, inl, inr, none, not, refl, some, true, ℕ,
  ◌&&◌, ◌≡◌,
}
use uncs_bot.Events.Record.{
  EventOperation, EventRecord, EventState, OperationKind, active, is_vote_event, move_player,
  needs_review,
}
use uncs_bot.Events.Complete.{complete_operation}
use uncs_bot.Events.Steps.{is_review}
use uncs_bot.Events.Outcome.{
  ActionResult, Outcome, ResultState, accepted_state, completed, is_accepted_result, is_no,
  is_restore, moves_players, outcome, pending, plain, retry_outcome, unchanged_outcome, unconfirmed,
  unconfirmed_move, unconfirmed_respawn,
}

abbrev pub left_to_staff : Option Outcome → Bool
left_to_staff none = false
left_to_staff (some outcome) = is_review outcome.outcome_state

complete_operation-stays :
    (event : EventRecord) (op : EventOperation) (now : ℕ) (confirmed : Bool) (state : EventState)
    → is_review state ≡ false
    → left_to_staff (completed state (complete_operation event op now confirmed)) ≡ false
complete_operation-stays event op now confirmed state h =
    elim (Option-cases (complete_operation event op now confirmed)) [
      | inl n ↦ rw n refl
      | inr (progress, s) ↦ rw s h
    ]

accepted_state-stays : (kind : OperationKind) → is_review (accepted_state kind) ≡ false
unfolding accepted_state
accepted_state-stays kind = ground arith

unconfirmed_move-stays :
    (state : ResultState) (event : EventRecord) (op : EventOperation) (now : ℕ)
    → left_to_staff (unconfirmed_move state event op now) ≡ false
unfolding unconfirmed_move retry_outcome
unconfirmed_move-stays pending event op now =
    complete_operation-stays event op now false active refl
unconfirmed_move-stays state event op now = refl

unconfirmed-stays :
    (kind : OperationKind) (event : EventRecord) (op : EventOperation) (result : ActionResult)
    (now : ℕ)
    → is_review event.event_state ≡ false
    → is_restore kind ≡ false
    → left_to_staff (unconfirmed kind result event op now) ≡ false
unfolding unconfirmed unconfirmed_move unconfirmed_respawn retry_outcome
unconfirmed-stays move_player event op result now r k =
    unconfirmed_move-stays result.result_state event op now
unconfirmed-stays kind event op result now r k = ground arith

-- No result of an action leaves a vote-started event to staff.
pub outcome-vote :
    (event : EventRecord) (op : EventOperation) (result : ActionResult) (now : ℕ)
    → is_vote_event event.event_options ≡ true
    → is_review event.event_state ≡ false
    → left_to_staff (outcome event op result now) ≡ false
unfolding outcome unchanged_outcome retry_outcome
outcome-vote event op result now v r =
    let Q : Option Outcome → Type 0 = λ o. left_to_staff o ≡ false in
    if_keeps Q (moves_players op.op_kind && is_no result.changed) _ _ (λ e. ground arith)
      (λ e.
        if_keeps Q (is_accepted_result op.op_kind result) _ _
          (λ f.
            complete_operation-stays event op now true (accepted_state op.op_kind)
              (accepted_state-stays op.op_kind))
          (λ f.
            if_keeps Q (is_restore op.op_kind) _ _ (λ g. refl)
              (λ g.
                if_keeps Q (not (is_vote_event event.event_options)) _ _
                  (λ h. absurd (ground arith))
                  (λ h. unconfirmed-stays op.op_kind event op result now r g))))

-- An event that staff started is left to them by every result that is not accepted, but for a restore
-- and for a move or respawn that changed nothing.
pub outcome-staff :
    (event : EventRecord) (op : EventOperation) (result : ActionResult) (now : ℕ)
    → is_vote_event event.event_options ≡ false
    → moves_players op.op_kind && is_no result.changed ≡ false
    → is_accepted_result op.op_kind result ≡ false
    → is_restore op.op_kind ≡ false
    → outcome event op result now ≡ plain needs_review event.event_progress
unfolding outcome
outcome-staff event op result now v c a r = ground arith
