-- ===== src/Supporters/Automatic.antt =====
-- `automaticFounderBlocker` of src/supporters/supporter-match.rules.ts.
use uncs_bot.Common.{
  Bool, List, Option, String, false, if◌then◌else◌, leb, none, not, opt_str_eq, some, true, truthy,
  ℕ, ◌&&◌, ◌*◌, ◌+◌,
}
use uncs_bot.Supporters.SteamId.{is_public_individual_steam_id}
use uncs_bot.Supporters.Steam.{
  ApplicationFact, SteamMatchBlock, held_on_another_record, steam_on_another_record,
}
use uncs_bot.Supporters.Founder.{
  FounderBlockedReason, Provider, charge_reversed, no_identity, patreon, paypal,
}

pub data DiscordSource : Type 0 where
  staff from_patreon patron_signin : DiscordSource

pub data SteamSource : Type 0 where
  by_staff from_application : SteamSource

pub record AutomaticPayment : Type 0 where
  pub paid_at : Option ℕ
  pub earlier : Bool
  pub earlier_other_record : Bool

pub record MatchFacts : Type 0 where
  pub applications : List ApplicationFact
  pub automatic : Option AutomaticPayment
  pub discord_reported_for_other_patron : Bool
  pub patreon_discord_elsewhere : Bool
  pub linked_steam_shared : Bool

pub record MatchMember : Type 0 where
  pub provider : Provider
  pub discord_id : Option String
  pub discord_source : Option DiscordSource
  pub patreon_discord_id : Option String
  pub steam_id : Option String
  pub steam_source : Option SteamSource
  pub last_charge_status : Option String

pub data AutomaticBlocked : Type 0 where
  not_patreon no_discord discord_not_from_patreon discord_differs : AutomaticBlocked
  discord_reported_for_other_patron : AutomaticBlocked
  by_steam : SteamMatchBlock → AutomaticBlocked
  no_patreon_payment charge_was_reversed payment_too_recent : AutomaticBlocked
  earlier_payment_other_record : AutomaticBlocked
  by_founder : FounderBlockedReason → AutomaticBlocked

abbrev pub is_patreon : Provider → Bool
is_patreon patreon = true
is_patreon paypal = false

-- The patron proved the account: from Patreon, or by signing in to both.
abbrev pub is_proved : Option DiscordSource → Bool
is_proved (some from_patreon) = true
is_proved (some patron_signin) = true
is_proved _ = false

abbrev pub hours : ℕ → ℕ
hours n = n * 3600000

-- `paidAt <= now - holdHours * 3_600_000`, false on NaN.
abbrev pub old_enough : Option ℕ → ℕ → ℕ → Bool
old_enough none now hold_hours = false
old_enough (some paid) now hold_hours = leb (paid + hours hold_hours) now

-- From the automatic payment on.
unfoldable pub payment_blocker :
    MatchMember → Option AutomaticPayment → ℕ → ℕ → Option AutomaticBlocked
payment_blocker member none now hold_hours = some no_patreon_payment
payment_blocker member (some automatic) now hold_hours =
    if charge_reversed member.last_charge_status
    then some charge_was_reversed
    else if not (old_enough automatic.paid_at now hold_hours)
    then some payment_too_recent
    else if automatic.earlier_other_record
    then some earlier_payment_other_record
    else none

unfoldable pub automatic_founder_blocker :
    MatchMember → MatchFacts → ℕ → ℕ → Option AutomaticBlocked
unfolding payment_blocker
automatic_founder_blocker member facts now hold_hours =
    if not (is_patreon member.provider)
    then some not_patreon
    else if not (truthy member.discord_id)
    then some no_discord
    else if not (is_proved member.discord_source)
    then some discord_not_from_patreon
    else if truthy member.patreon_discord_id
        && not (opt_str_eq member.patreon_discord_id member.discord_id)
    then some discord_differs
    else if facts.discord_reported_for_other_patron
    then some discord_reported_for_other_patron
    else if truthy member.steam_id && not (is_public_individual_steam_id member.steam_id)
    then some (by_founder no_identity)
    else if held_on_another_record facts.applications member.steam_id
    then some (by_steam steam_on_another_record)
    else payment_blocker member facts.automatic now hold_hours
