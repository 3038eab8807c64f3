-- ===== src/Supporters/Tests.antt =====
-- Runs of the supporter rules, and the theorems at them.
use uncs_bot.Supporters.StepOrder.{IsOrdered, judged, supporter_next_steps-IsOrdered}
use uncs_bot.Common.{
  List, Option, String, [], arith, false, if◌then◌else◌, insert_by, none, refl, some, sort_by,
  str_eq, true, ℕ, ◌+◌, ◌<◌, ◌↔◌, ◌∷◌, ◌≡◌, ◌≢◌, ◌≤◌,
}
use uncs_bot.Supporters.SteamId.{is_public_individual_steam_id}
use uncs_bot.Supporters.Steam.{
  ApplicationFact, application_steam_match, approved, declined, grant, granted,
  held_on_another_record,
}
use uncs_bot.Supporters.SteamLaws.{IsCopyable, application_steam_match_iff}
use uncs_bot.Supporters.Founder.{
  FounderContext, FounderPaymentFacts, FounderPolicy, SupportFacts, charge_reversed,
  founder_blocker, meets_founder_minimum, patreon, paypal, paypal_current, policy_ms,
  support_active, supporter_founder,
}
use uncs_bot.Supporters.Policy.{founder_policy}
use uncs_bot.Supporters.Automatic.{
  MatchFacts, MatchMember, automatic_founder_blocker, from_patreon, payment_too_recent,
}
use uncs_bot.Supporters.FounderLaws.{founder_policy_window, support_active_mono}
use uncs_bot.Supporters.NextSteps.{
  NextStepContext, NextStepRecord, discord_steps, founder_area, founder_ready_automatic,
  founder_steps, steam_area, steam_ready_automatic, steam_steps, supporter_next_steps,
}
use uncs_bot.Supporters.StepLaws.{supporter_next_steps-ne-nil}

abbrev player : String
player = "76561197960265730"

steam_id_tests :
    (is_public_individual_steam_id (some player) ≡ true)
    × (is_public_individual_steam_id (some "76561197960265728") ≡ false)
    × (is_public_individual_steam_id (some "7656119796026573x") ≡ false)
    × (is_public_individual_steam_id none ≡ false)
unfolding is_public_individual_steam_id
steam_id_tests = (refl, refl, refl, refl)

abbrev granted_application : ApplicationFact
granted_application = record {
  id = "a1";
  server_id = "s1";
  steam_id = player;
  status = approved;
  access_intent = grant;
  whitelist_grant = some granted;
  revoked_at = none;
  reviewed_at = some 10;
  other_discord_claim = false;
  rejected_before = false;
  other_supporter = false;
}

abbrev old_application : ApplicationFact
old_application = record granted_application { id = "a0"; status = declined; reviewed_at = some 5 }

abbrev two_applications : List ApplicationFact
two_applications = old_application ∷ granted_application ∷ []

match_test :
    ((application_steam_match two_applications).reason ≡ none)
    × ((application_steam_match two_applications).steam_id ≡ some player)
unfolding application_steam_match sort_by insert_by is_public_individual_steam_id
match_test = (refl, refl)

application_steam_match_iff_example :
    (((application_steam_match two_applications).reason ≡ none)
      × ((application_steam_match two_applications).steam_id ≡ some player))
    ↔ IsCopyable two_applications player
application_steam_match_iff_example = application_steam_match_iff two_applications player

abbrev iso : String → Option ℕ
iso text =
    if str_eq text "start" then some 1000 else if str_eq text "end" then some 1296001000 else none

abbrev configured_policy : FounderPolicy
configured_policy = record {
  amount_cents = 500;
  currency = "USD";
  starts_at = some 1000;
  ends_at = some 1296001000;
  configured = true;
  source = some supporter_founder;
  hold_hours = 72;
}

policy_test : founder_policy iso none (some "start") (some "end") none none ≡ configured_policy
unfolding founder_policy
policy_test = refl

abbrev first_payment : FounderPaymentFacts
first_payment = record {
  source = "patreon_api";
  verification_state = "verified";
  first_successful_payment_verified = true;
  paid_at = some 2000;
  amount_cents = some 500;
  currency = some "USD";
  minimum_confirmed = false;
}

abbrev clear_context : FounderContext
clear_context = record {
  earlier_payment = false;
  imported_copy_unverified = false;
  has_identity = true;
  other_founder = false;
  founder_applied_with_steam = false;
}

qualifies_test : founder_blocker first_payment configured_policy clear_context ≡ none
unfolding founder_blocker meets_founder_minimum
qualifies_test = refl

founder_policy_window_example :
    let p = founder_policy iso none (some "start") (some "end") none none in
    (starts paid : ℕ) × (some 2000 ≡ some paid)
    × (starts ≤ paid)
    × (paid < starts + policy_ms)
    × (p.starts_at ≡ some starts)
    × (p.hold_hours ≤ 720)
founder_policy_window_example =
    founder_policy_window iso none (some "start") (some "end") none none first_payment clear_context
      (rw policy_test qualifies_test)

abbrev patron : MatchMember
patron = record {
  provider = patreon;
  discord_id = some "42";
  discord_source = some from_patreon;
  patreon_discord_id = some "42";
  steam_id = none;
  steam_source = none;
  last_charge_status = some "Paid";
}

abbrev patron_facts : MatchFacts
patron_facts = record {
  applications = two_applications;
  automatic = some (record { paid_at = some 2000; earlier = false; earlier_other_record = false });
  discord_reported_for_other_patron = false;
  patreon_discord_elsewhere = false;
  linked_steam_shared = false;
}

automatic_test :
    (automatic_founder_blocker patron patron_facts 259202000 72 ≡ none)
    × (automatic_founder_blocker patron patron_facts 259201999 72 ≡ some payment_too_recent)
unfolding automatic_founder_blocker charge_reversed held_on_another_record
automatic_test = (refl, refl)

abbrev gift : SupportFacts
gift = record {
  provider = paypal;
  patron_status = none;
  last_charge_status = none;
  last_charge_at = none;
  payments = (record first_payment { source = "paypal" }) ∷ [];
}

support_active_mono_example : support_active gift 3000 ≡ true
unfolding support_active meets_founder_minimum paypal_current
support_active_mono_example = support_active_mono gift 3000 2678401999 (omega arith) refl

abbrev waiting_record : NextStepRecord
waiting_record = record {
  provider = patreon;
  discord_id = some "42";
  patreon_discord_id = some "42";
  steam_id = none;
  steam_from_application = false;
  conflict = false;
  is_founder = false;
  verdict = none;
  first_payment_waiting = false;
  tier_below_minimum = false;
  payment_currency = some "USD";
  needs_discord_link = false;
  matched = record {
    steam = some (application_steam_match two_applications);
    source_revoked = false;
    discord_elsewhere = false;
    reported_for_other = false;
    steam_shared_by_other = false;
  };
  automatic_blocked = automatic_founder_blocker patron patron_facts 259202000 72;
}

abbrev all_on : NextStepContext
all_on = record { steam_fill = true; founder_auto = true; import_configured = true }

steps_test :
    supporter_next_steps waiting_record all_on
    ≡ (record { code = steam_ready_automatic; area = steam_area })
      ∷ (record { code = founder_ready_automatic; area = founder_area })
      ∷ []
unfolding supporter_next_steps discord_steps steam_steps founder_steps application_steam_match
    sort_by insert_by is_public_individual_steam_id automatic_founder_blocker charge_reversed
    held_on_another_record
steps_test = refl

supporter_next_steps-IsOrdered_example :
    IsOrdered 0 (supporter_next_steps waiting_record all_on)
    × (judged (supporter_next_steps waiting_record all_on) ≤ 1)
supporter_next_steps-IsOrdered_example = supporter_next_steps-IsOrdered waiting_record all_on

supporter_next_steps-ne-nil_example : supporter_next_steps waiting_record all_on ≢ []
supporter_next_steps-ne-nil_example =
    supporter_next_steps-ne-nil waiting_record all_on patron patron_facts 259202000 72 (record {
      waiting = refl;
      provider = refl;
      discord = refl;
      patreon_discord = refl;
      reported = refl;
      blocked_by = refl;
    })
