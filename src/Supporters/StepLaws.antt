-- ===== src/Supporters/StepLaws.antt =====
-- No record without a founder promise is left without a step by supporterNextSteps,
-- src/supporters/supporter-match.rules.ts.
use uncs_bot.Common.{
  List, Option, [], any, arith, false, inl, inr, not, opt_str_eq, refl, some, sym, true, truthy, ℕ,
  ◌&&◌, ◌++◌, ◌∙◌, ◌∷◌, ◌≡◌, ◌≢◌, ◌⊎◌,
}
use uncs_bot.Supporters.NextSteps.{
  NextStep, NextStepContext, NextStepRecord, discord_area, discord_steps, founder_steps,
  is_another_record, patron_link_conflict, steam_steps, step, supporter_next_steps, when_step,
}
use uncs_bot.Supporters.Automatic.{
  AutomaticPayment, MatchFacts, MatchMember, automatic_founder_blocker, discord_differs,
  discord_reported_for_other_patron, is_patreon, payment_blocker,
}
use uncs_bot.Supporters.StepOrder.{steps_before}

-- A non-founder's record whose automatic verdict is the one automatic matching gives.
pub record IsJudged (r : NextStepRecord) (m : MatchMember) (f : MatchFacts) (now hold_hours : ℕ)
    : Type 0 where
  pub waiting : r.is_founder ≡ false
  pub provider : r.provider ≡ m.provider
  pub discord : r.discord_id ≡ m.discord_id
  pub patreon_discord : r.patreon_discord_id ≡ m.patreon_discord_id
  pub reported : r.matched.reported_for_other ≡ f.discord_reported_for_other_patron
  pub blocked_by : r.automatic_blocked ≡ automatic_founder_blocker m f now hold_hours

-- When the last part is empty, an earlier one tells staff why.
founder_steps_nil :
    (r : NextStepRecord) (c : NextStepContext) (before : List NextStep)
    → r.is_founder ≡ false
    → (founder_steps r c before ≢ [])
      ⊎ ((r.automatic_blocked ≡ some discord_differs)
          ⊎ (r.automatic_blocked ≡ some discord_reported_for_other_patron))
      ⊎ (any (λ s. is_another_record s.code) before ≡ true)
unfolding founder_steps
founder_steps_nil r c before h = ground arith

append-ne-nil : (xs ys : List NextStep) → ys ≢ [] → xs ++ ys ≢ []
append-ne-nil [] ys ne = ne
append-ne-nil (x ∷ xs) ys ne = cc

append_left-ne-nil : (xs ys : List NextStep) → xs ≢ [] → xs ++ ys ≢ []
append_left-ne-nil [] ys ne = absurd (ne refl)
append_left-ne-nil (x ∷ xs) ys ne = cc

ne-nil_of_any :
    (steps : List NextStep) → any (λ s. is_another_record s.code) steps ≡ true → steps ≢ []
ne-nil_of_any [] h = cc
ne-nil_of_any (s ∷ steps) h = cc

discord_steps_two :
    (r : NextStepRecord) (c : NextStepContext)
    → ((truthy r.patreon_discord_id && not (opt_str_eq r.patreon_discord_id r.discord_id)) ≡ true)
      ⊎ (r.matched.reported_for_other ≡ true)
    → is_patreon r.provider ≡ true
    → truthy r.discord_id ≡ true
    → discord_steps r c ≢ []
unfolding discord_steps
discord_steps_two r c told patron linked = ground arith

payment_blocker_kinds :
    (m : MatchMember) (a : Option AutomaticPayment) (now hold_hours : ℕ)
    → (payment_blocker m a now hold_hours ≢ some discord_differs)
      × (payment_blocker m a now hold_hours ≢ some discord_reported_for_other_patron)
unfolding payment_blocker
payment_blocker_kinds m a now hold_hours = (ground arith, ground arith)

differs_facts :
    (m : MatchMember) (f : MatchFacts) (now hold_hours : ℕ)
    → automatic_founder_blocker m f now hold_hours ≡ some discord_differs
    → (is_patreon m.provider ≡ true)
      × (truthy m.discord_id ≡ true)
      × ((truthy m.patreon_discord_id && not (opt_str_eq m.patreon_discord_id m.discord_id)) ≡ true)
unfolding automatic_founder_blocker
differs_facts m f now hold_hours h =
    ground (arith, (payment_blocker_kinds m f.automatic now hold_hours).0)

reported_facts :
    (m : MatchMember) (f : MatchFacts) (now hold_hours : ℕ)
    → automatic_founder_blocker m f now hold_hours ≡ some discord_reported_for_other_patron
    → (is_patreon m.provider ≡ true)
      × (truthy m.discord_id ≡ true)
      × (f.discord_reported_for_other_patron ≡ true)
unfolding automatic_founder_blocker
reported_facts m f now hold_hours h =
    ground (arith, (payment_blocker_kinds m f.automatic now hold_hours).1)

-- Patreon's other account, or its report for another patron, is in a Discord step.
discord_steps_told :
    (r : NextStepRecord) (c : NextStepContext) (m : MatchMember) (f : MatchFacts)
    (now hold_hours : ℕ)
    → IsJudged r m f now hold_hours
    → (r.automatic_blocked ≡ some discord_differs)
      ⊎ (r.automatic_blocked ≡ some discord_reported_for_other_patron)
    → discord_steps r c ≢ []
discord_steps_told r c m f now hold_hours j (inl differs) =
    discord_steps_two r c (inl (rw (j.patreon_discord, j.discord) (facts.2)))
      (rw j.provider facts.0) (rw j.discord facts.1)
  where
    facts :
        (is_patreon m.provider ≡ true)
        × (truthy m.discord_id ≡ true)
        × ((truthy m.patreon_discord_id && not (opt_str_eq m.patreon_discord_id m.discord_id))
            ≡ true)
    facts = differs_facts m f now hold_hours (sym j.blocked_by ∙ differs)
discord_steps_told r c m f now hold_hours j (inr reported) =
    discord_steps_two r c (inr (rw j.reported (facts.2))) (rw j.provider facts.0)
      (rw j.discord facts.1)
  where
    facts :
        (is_patreon m.provider ≡ true)
        × (truthy m.discord_id ≡ true)
        × (f.discord_reported_for_other_patron ≡ true)
    facts = reported_facts m f now hold_hours (sym j.blocked_by ∙ reported)

-- A record that is not a founder's is never left without a step, when its automatic verdict is the
-- one that automatic matching gives on its facts.
pub supporter_next_steps-ne-nil :
    (r : NextStepRecord) (c : NextStepContext) (m : MatchMember) (f : MatchFacts)
    (now hold_hours : ℕ)
    → IsJudged r m f now hold_hours
    → supporter_next_steps r c ≢ []
unfolding supporter_next_steps
supporter_next_steps-ne-nil r c m f now hold_hours j =
    elim (founder_steps_nil r c (steps_before r c) j.waiting) [
      | inl some_step ↦ append-ne-nil (steps_before r c) _ some_step
      | inr (inl told) ↦ append_left-ne-nil (steps_before r c) _ (
          append-ne-nil (when_step r.conflict (step patron_link_conflict discord_area)) _ (
            append_left-ne-nil (discord_steps r c) (steam_steps r c)
              (discord_steps_told r c m f now hold_hours j told)))
      | inr (inr another) ↦
          append_left-ne-nil (steps_before r c) _ (ne-nil_of_any (steps_before r c) another)
    ]
