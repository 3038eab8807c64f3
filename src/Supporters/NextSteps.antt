-- ===== src/Supporters/NextSteps.antt =====
-- `supporterNextSteps` of src/supporters/supporter-match.rules.ts: which steps a record still needs,
-- by code and area. The steps' sentences for staff are left out.
use uncs_bot.Common.{
  Bool, List, Option, String, [], any, false, if◌then◌else◌, none, not, opt_str_eq, some, str_eq,
  true, truthy, ◌&&◌, ◌++◌, ◌||◌, ◌∷◌,
}
use uncs_bot.Supporters.Steam.{
  SteamMatch, SteamMatchBlock, steam_differs_from_application, steam_on_another_record,
}
use uncs_bot.Supporters.Founder.{
  FounderBlockedReason, Provider, already_founder, below_minimum, earlier_payment, no_identity,
  not_first_payment, not_verified, outside_window, source_not_qualifying,
}
use uncs_bot.Supporters.Automatic.{
  AutomaticBlocked, by_steam, charge_was_reversed, discord_differs, discord_not_from_patreon,
  discord_reported_for_other_patron, earlier_payment_other_record, is_patreon, no_discord,
  payment_too_recent,
}

pub data Area : Type 0 where
  discord_area steam_area payment_area founder_area info_area : Area

-- `FounderBlockedReason | "no_payment"`
pub data Verdict : Type 0 where
  no_payment : Verdict
  because : FounderBlockedReason → Verdict

-- The codes; `founder_verdict r` is `founder_${r}`, and `steam_step b` the code of `steamStepCodes`.
pub data StepCode : Type 0 where
  patron_link_conflict link_discord_paypal discord_on_another_record : StepCode
  connect_discord_in_patreon link_discord_no_import : StepCode
  step_discord_differs step_discord_reported : StepCode
  source_application_revoked_step steam_differs_step linked_steam_shared_step : StepCode
  steam_step : SteamMatchBlock → StepCode
  steam_ready_automatic steam_available : StepCode
  founder_needs_discord : StepCode
  founder_verdict : Verdict → StepCode
  founder_ready_staff founder_ready_automatic_off founder_ready_automatic : StepCode
  founder_automatic_waiting founder_waiting_patreon founder_waiting_discord : StepCode
  founder_steam_on_another_record founder_earlier_payment_other_record : StepCode

pub record NextStep : Type 0 where
  pub code : StepCode
  pub area : Area

pub record StepMatch : Type 0 where
  pub steam : Option SteamMatch
  pub source_revoked : Bool
  pub discord_elsewhere : Bool
  pub reported_for_other : Bool
  pub steam_shared_by_other : Bool

pub record NextStepRecord : Type 0 where
  pub provider : Provider
  pub discord_id : Option String
  pub patreon_discord_id : Option String
  pub steam_id : Option String
  pub steam_from_application : Bool
  pub conflict : Bool
  pub is_founder : Bool
  pub verdict : Option Verdict
  pub first_payment_waiting : Bool
  pub tier_below_minimum : Bool
  pub payment_currency : Option String
  pub needs_discord_link : Bool
  pub matched : StepMatch
  pub automatic_blocked : Option AutomaticBlocked

pub record NextStepContext : Type 0 where
  pub steam_fill : Bool
  pub founder_auto : Bool
  pub import_configured : Bool

abbrev pub step : StepCode → Area → List NextStep
step code area = (record { code = code; area = area }) ∷ []

abbrev pub when_step : Bool → List NextStep → List NextStep
when_step true steps = steps
when_step false steps = []

-- The steps of the `if (!record.discordId) … else if …` chain.
unfoldable pub discord_steps : NextStepRecord → NextStepContext → List NextStep
discord_steps r context =
    if not (truthy r.discord_id)
    then (if not (is_patreon r.provider)
        then step link_discord_paypal discord_area
        else if r.matched.discord_elsewhere
        then step discord_on_another_record discord_area
        else if context.import_configured
        then step connect_discord_in_patreon discord_area
        else step link_discord_no_import discord_area)
    else if is_patreon r.provider
    then when_step
        (truthy r.patreon_discord_id && not (opt_str_eq r.patreon_discord_id r.discord_id))
        (step step_discord_differs discord_area)
      ++ when_step r.matched.reported_for_other (step step_discord_reported discord_area)
    else []

-- `FOUNDER_IMPOSSIBLE.has`
abbrev pub is_impossible : Option Verdict → Bool
is_impossible (some (because outside_window)) = true
is_impossible (some (because below_minimum)) = true
is_impossible (some (because already_founder)) = true
is_impossible _ = false

-- `PAYMENT_REASONS.has`
abbrev pub is_payment_reason : Verdict → Bool
is_payment_reason no_payment = true
is_payment_reason (because not_first_payment) = true
is_payment_reason (because earlier_payment) = true
is_payment_reason (because not_verified) = true
is_payment_reason _ = false

-- `steamStep`
abbrev pub steam_step_of : Option SteamMatchBlock → Bool → List NextStep
steam_step_of (some reason) fill = step (steam_step reason) steam_area
steam_step_of none fill =
    if fill then step steam_ready_automatic steam_area else step steam_available steam_area

abbrev pub unlinked_steps : Option SteamMatch → Bool → Bool → List NextStep
unlinked_steps none wanted fill = []
unlinked_steps (some steam) wanted fill = if wanted then steam_step_of steam.reason fill else []

unfoldable pub steam_steps : NextStepRecord → NextStepContext → List NextStep
steam_steps r context =
    if truthy r.steam_id
    then (if r.matched.source_revoked
        then step source_application_revoked_step steam_area
        else when_step
            (steam_differs_from_application r.steam_id r.steam_from_application r.matched.steam)
            (step steam_differs_step steam_area))
      ++ when_step r.matched.steam_shared_by_other (step linked_steam_shared_step steam_area)
    else unlinked_steps r.matched.steam (r.is_founder || not (is_impossible r.verdict))
        (is_patreon r.provider && context.steam_fill)

-- A payment with a currency that is not US dollars.
abbrev other_currency : Option String → Bool
other_currency none = false
other_currency (some c) = truthy (some c) && not (str_eq c "USD")

abbrev is_below_minimum : Verdict → Bool
is_below_minimum (because below_minimum) = true
is_below_minimum _ = false

-- The area of a founder verdict's step. The branches of the source that name `founder` come first.
unfoldable pub verdict_area : NextStepRecord → Verdict → Area
verdict_area r (because source_not_qualifying) = founder_area
verdict_area r (because no_identity) = founder_area
verdict_area r (because not_first_payment) =
    if r.first_payment_waiting then founder_area else payment_area
verdict_area r verdict =
    if is_below_minimum verdict
      && other_currency r.payment_currency
      && is_patreon r.provider
      && not r.tier_below_minimum
    then founder_area
    else if is_impossible (some verdict)
    then info_area
    else if is_payment_reason verdict
    then payment_area
    else founder_area

abbrev pub is_another_record : StepCode → Bool
is_another_record (steam_step steam_on_another_record) = true
is_another_record _ = false

-- The ladder on `automaticBlockedReason`, for a Patreon record with no verdict against it.
unfoldable pub automatic_steps :
    Option AutomaticBlocked → NextStepContext → List NextStep → List NextStep
automatic_steps none context before =
    if not context.founder_auto
    then step founder_ready_automatic_off founder_area
    else step founder_ready_automatic founder_area
automatic_steps (some payment_too_recent) context before =
    if not context.founder_auto
    then step founder_ready_automatic_off founder_area
    else step founder_automatic_waiting founder_area
automatic_steps (some charge_was_reversed) context before =
    step founder_waiting_patreon founder_area
automatic_steps (some no_discord) context before = step founder_waiting_discord founder_area
automatic_steps (some discord_not_from_patreon) context before =
    step founder_waiting_discord founder_area
automatic_steps (some discord_differs) context before = []
automatic_steps (some discord_reported_for_other_patron) context before = []
automatic_steps (some (by_steam steam_on_another_record)) context before =
    when_step (not (any (λ s. is_another_record s.code) before))
      (step founder_steam_on_another_record founder_area)
automatic_steps (some earlier_payment_other_record) context before =
    step founder_earlier_payment_other_record info_area
automatic_steps (some _) context before = step founder_ready_staff founder_area

-- From `if (record.founder)` on; `before` are the steps so far.
abbrev pub judged_steps :
    NextStepRecord → Option Verdict → NextStepContext → List NextStep → List NextStep
judged_steps r (some verdict) context before =
    step (founder_verdict verdict) (verdict_area r verdict)
judged_steps r none context before =
    if not (is_patreon r.provider)
    then step founder_ready_staff founder_area
    else automatic_steps r.automatic_blocked context before

unfoldable pub founder_steps : NextStepRecord → NextStepContext → List NextStep → List NextStep
unfolding automatic_steps verdict_area
founder_steps r context before =
    if r.is_founder
    then when_step r.needs_discord_link (step founder_needs_discord founder_area)
    else judged_steps r r.verdict context before

unfoldable pub supporter_next_steps : NextStepRecord → NextStepContext → List NextStep
supporter_next_steps r context =
    let before =
      when_step r.conflict (step patron_link_conflict discord_area)
      ++ (discord_steps r context ++ steam_steps r context) in
    before ++ founder_steps r context before
