-- ===== src/Supporters/Founder.antt =====
-- The founder rule: src/supporters/supporters.types.ts and founder-policy.ts. Dates are given as the
-- milliseconds that `Date.parse` or `getTime` gives, `none` for null and for NaN: both refuse.
use uncs_bot.Common.{
  Bool, List, Option, String, any, false, if◌then◌else◌, is_some, leb, ltb, none, not, null,
  opt_str_eq, some, str_eq, true, truthy, ℕ, ◌&&◌, ◌+◌, ◌||◌,
}
use uncs_bot.Supporters.SteamId.{is_public_individual_steam_id}

-- FOUNDER_MINIMUM, policyDays, SUPPORTER_DECLINE_GRACE_MS and PAYPAL_SUPPORT_MS
abbrev pub minimum_cents : ℕ
minimum_cents = 500

abbrev pub minimum_currency : String
minimum_currency = "USD"

abbrev pub policy_ms : ℕ
policy_ms = 1296000000

abbrev pub decline_grace_ms : ℕ
decline_grace_ms = 604800000

abbrev pub paypal_support_ms : ℕ
paypal_support_ms = 2678400000

pub data PolicySource : Type 0 where
  supporter_founder patreon_founder : PolicySource

pub record FounderPolicy : Type 0 where
  pub amount_cents : ℕ
  pub currency : String
  pub starts_at : Option ℕ
  pub ends_at : Option ℕ
  pub configured : Bool
  pub source : Option PolicySource
  pub hold_hours : ℕ

pub record FounderPaymentFacts : Type 0 where
  pub source : String
  pub verification_state : String
  pub first_successful_payment_verified : Bool
  pub paid_at : Option ℕ
  pub amount_cents : Option ℕ
  pub currency : Option String
  pub minimum_confirmed : Bool

pub record FounderContext : Type 0 where
  pub earlier_payment : Bool
  pub imported_copy_unverified : Bool
  pub has_identity : Bool
  pub other_founder : Bool
  pub founder_applied_with_steam : Bool

pub data FounderBlockedReason : Type 0 where
  window_not_configured source_not_qualifying not_verified not_first_payment : FounderBlockedReason
  earlier_payment outside_window below_minimum no_identity : FounderBlockedReason
  already_founder steam_applied_by_founder : FounderBlockedReason

-- `founderIdentity`
unfoldable pub founder_identity : Option String → Option String → Bool
founder_identity discord_id steam_id =
    (truthy discord_id || is_public_individual_steam_id steam_id)
    && (not (truthy steam_id) || is_public_individual_steam_id steam_id)

abbrev enough : Option ℕ → ℕ → Bool
enough none minimum = false
enough (some cents) minimum = leb minimum cents

-- `meetsFounderMinimum`
unfoldable pub meets_founder_minimum : FounderPaymentFacts → ℕ → String → Bool
meets_founder_minimum p cents currency =
    is_some p.amount_cents
    && (if opt_str_eq p.currency (some currency)
        then enough p.amount_cents cents
        else is_some p.currency && p.minimum_confirmed)

-- FOUNDER_PAYMENT_SOURCES.includes
abbrev pub is_founder_source : String → Bool
is_founder_source s = str_eq s "manual_receipt" || str_eq s "patreon_api" || str_eq s "paypal"

abbrev within : Option ℕ → Option ℕ → Option ℕ → Bool
within (some starts) (some ends) (some paid) = leb starts paid && ltb paid ends
within _ _ _ = false

-- `founderBlocker`
unfoldable pub founder_blocker :
    FounderPaymentFacts → FounderPolicy → FounderContext → Option FounderBlockedReason
founder_blocker payment policy context =
    if not policy.configured || not (is_some policy.starts_at) || not (is_some policy.ends_at)
    then some window_not_configured
    else if not (is_founder_source payment.source)
    then some source_not_qualifying
    else if not (str_eq payment.verification_state "verified") || context.imported_copy_unverified
    then some not_verified
    else if not payment.first_successful_payment_verified
    then some not_first_payment
    else if context.earlier_payment
    then some earlier_payment
    else if not (within policy.starts_at policy.ends_at payment.paid_at)
    then some outside_window
    else if not (meets_founder_minimum payment policy.amount_cents policy.currency)
    then some below_minimum
    else if not context.has_identity
    then some no_identity
    else if context.other_founder
    then some already_founder
    else if context.founder_applied_with_steam
    then some steam_applied_by_founder
    else none

pub data Provider : Type 0 where
  patreon paypal : Provider

pub record SupportFacts : Type 0 where
  pub provider : Provider
  pub patron_status : Option String
  pub last_charge_status : Option String
  pub last_charge_at : Option ℕ
  pub payments : List FounderPaymentFacts

-- PATREON_REVERSED_CHARGE_STATUSES.has
abbrev is_reversed_status : String → Bool
is_reversed_status s =
    str_eq s "Refunded"
    || str_eq s "Partially Refunded"
    || str_eq s "Refunded by Patreon"
    || str_eq s "Refund Pending"
    || str_eq s "Fraud"
    || str_eq s "Other"

-- A charge status that is there and reversed.
unfoldable pub charge_reversed : Option String → Bool
charge_reversed none = false
charge_reversed (some s) = not (str_eq s "") && is_reversed_status s

-- `at < time(…) + span`, false on NaN.
abbrev before_end : ℕ → Option ℕ → ℕ → Bool
before_end at none span = false
before_end at (some time) span = ltb at (time + span)

unfoldable pub paypal_current : ℕ → FounderPaymentFacts → Bool
paypal_current at p =
    str_eq p.source "paypal"
    && meets_founder_minimum p minimum_cents minimum_currency
    && before_end at p.paid_at paypal_support_ms

abbrev patreon_active : SupportFacts → ℕ → Bool
patreon_active record_ at =
    if null record_.payments
    then false
    else if charge_reversed record_.last_charge_status
    then false
    else if opt_str_eq record_.patron_status (some "active_patron")
    then true
    else opt_str_eq record_.patron_status (some "declined_patron")
      && before_end at record_.last_charge_at decline_grace_ms

abbrev active_by : Provider → SupportFacts → ℕ → Bool
active_by paypal record_ at = any (paypal_current at) record_.payments
active_by patreon record_ at = patreon_active record_ at

-- `supportActive`
unfoldable pub support_active : SupportFacts → ℕ → Bool
support_active record_ at = active_by record_.provider record_ at
