-- ===== src/Ballots/PolicyLaws.antt =====
-- When a ballot of src/common/voting-policy.ts closes.
use uncs_bot.Common.{Option, arith, false, none, some, true, ℕ, ◌+◌, ◌<◌, ◌≡◌, ◌≤◌}
use uncs_bot.Ballots.Policy.{VotingSettings, close_reached}

-- `close_reached` stays true as the score rises, holds from the close score on, and fails more than
-- 10 points below it.
pub close_reached-threshold :
    (settings : VotingSettings) (step : Option ℕ) (progress later : ℕ)
    → (close_reached settings step progress ≡ true
        → progress ≤ later
        → close_reached settings step later ≡ true)
      × (settings.close_at_score ≤ progress → close_reached settings step progress ≡ true)
      × (progress + 10 < settings.close_at_score → close_reached settings step progress ≡ false)
unfolding close_reached
close_reached-threshold settings none progress later = ground (arith)
close_reached-threshold settings (some n) progress later = ground (arith)
