-- ===== src/PatronLink/Run.antt =====
-- Every operation of the sign-in state as one command, and a trace of commands.
use uncs_bot.Common.{ℕ, String, Option, List, [], ◌∷◌}
use uncs_bot.PatronLink.State.{Stage, State, issue_ticket, take_ticket}
use uncs_bot.PatronLink.Flow.{start_flow, claim, retry_without_prompt, advance, end_flow}
use uncs_bot.PatronLink.Code.{start_leg, burn_allowed, refuse_code, code_check}

-- The drawn random values come first, then the method's arguments, then the time.
pub data Op : Type 0 where
  op_issue : (drawn discord_id : String) → ℕ → Op
  op_take : Option String → ℕ → Op
  op_start : (drawn drawn_state discord_id : String) → ℕ → Op
  op_claim : Option String → Stage → Option String → ℕ → Op
  op_retry : (drawn flow_id : String) → ℕ → Op
  op_advance : (drawn flow_id : String) → ℕ → Op
  op_end : Option String → ℕ → Op
  op_leg : String → ℕ → Op
  op_burn : ℕ → Op
  op_refuse : String → ℕ → Op
  op_check : String → ℕ → Op

-- When the operation is called.
abbrev pub at : Op → ℕ
at (op_issue _ _ now) = now
at (op_take _ now) = now
at (op_start _ _ _ now) = now
at (op_claim _ _ _ now) = now
at (op_retry _ _ now) = now
at (op_advance _ _ now) = now
at (op_end _ now) = now
at (op_leg _ now) = now
at (op_burn now) = now
at (op_refuse _ now) = now
at (op_check _ now) = now

module _ (code_key : String → String) where
  unfoldable pub step : Op → State → State
  step (op_issue drawn discord_id now) s = (issue_ticket drawn discord_id now s).0
  step (op_take ticket now) s = (take_ticket ticket now s).0
  step (op_start drawn drawn_state discord_id now) s =
      (start_flow drawn drawn_state discord_id now s).0
  step (op_claim flow_id stage state now) s = (claim flow_id stage state now s).0
  step (op_retry drawn flow_id now) s = (retry_without_prompt drawn flow_id s).0
  step (op_advance drawn flow_id now) s = (advance drawn flow_id now s).0
  step (op_end flow_id now) s = end_flow flow_id s
  step (op_leg discord_id now) s = (start_leg discord_id now s).0
  step (op_burn now) s = (burn_allowed now s).0
  step (op_refuse given now) s = refuse_code code_key given now s
  step (op_check given now) s = (code_check code_key given now s).0

  unfoldable pub run : List Op → State → State
  run [] s = s
  run (op ∷ ops) s = run ops (step op s)
