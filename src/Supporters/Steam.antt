-- ===== src/Supporters/Steam.antt =====
-- The SteamID rule of automatic matching: src/supporters/supporter-match.rules.ts.
-- Timestamps that the source parses are given parsed: milliseconds, `none` for null. The rows' IDs
-- are compared as the source's `<` does for ASCII.
use Prim.Native.Nat.{Ordering}
use Prim.Native.String.{compare}
use uncs_bot.Common.{
  Bool, List, Option, String, [], any, false, filter, find, if◌then◌else◌, is_some, ltb, none, not,
  opt_str_eq, some, sort_by, str_eq, true, truthy, ℕ, ◌&&◌, ◌==◌, ◌||◌, ◌∷◌,
}
use uncs_bot.Supporters.SteamId.{is_public_individual_steam_id}

pub data ApplicationStatus : Type 0 where
  pending processing approved declined needs_review revoking revoked : ApplicationStatus

pub data AccessIntent : Type 0 where
  grant revoke : AccessIntent

pub data WhitelistGrant : Type 0 where
  granted existing : WhitelistGrant

pub record ApplicationFact : Type 0 where
  pub id : String
  pub server_id : String
  pub steam_id : String
  pub status : ApplicationStatus
  pub access_intent : AccessIntent
  pub whitelist_grant : Option WhitelistGrant
  pub revoked_at : Option String
  pub reviewed_at : Option ℕ
  pub other_discord_claim : Bool
  pub rejected_before : Bool
  pub other_supporter : Bool

pub data SteamMatchBlock : Type 0 where
  no_application application_in_progress application_pending : SteamMatchBlock
  no_approved_application several_steam_ids invalid_steam_id : SteamMatchBlock
  application_not_confirmed steam_shared steam_rejected_before : SteamMatchBlock
  steam_on_another_record : SteamMatchBlock

pub record SteamMatch : Type 0 where
  pub reason : Option SteamMatchBlock
  pub steam_id : Option String
  pub application_id : Option String
  pub server_id : Option String

abbrev pub in_progress : ApplicationStatus → Bool
in_progress processing = true
in_progress needs_review = true
in_progress revoking = true
in_progress _ = false

abbrev is_approved_status : ApplicationStatus → Bool
is_approved_status approved = true
is_approved_status _ = false

abbrev is_grant : AccessIntent → Bool
is_grant grant = true
is_grant revoke = false

abbrev is_pending : ApplicationStatus → Bool
is_pending pending = true
is_pending _ = false

-- `approved` of the source.
unfoldable pub is_approved : ApplicationFact → Bool
is_approved a = is_approved_status a.status && is_grant a.access_intent && not (truthy a.revoked_at)

abbrev id_before : String → String → Bool
id_before a b = elim (compare a b) [ Ordering.lt ↦ true | _ ↦ false ]

-- `reviewOrder(a, b) < 0`. The difference of two missing times is NaN, which falls through to the ID.
abbrev time_before : Option ℕ → Option ℕ → Bool → Bool
time_before none none by_id = by_id
time_before none (some u) by_id = false
time_before (some t) none by_id = true
time_before (some t) (some u) by_id = ltb t u || (t == u && by_id)

unfoldable pub review_before : ApplicationFact → ApplicationFact → Bool
review_before a b = time_before a.reviewed_at b.reviewed_at (id_before a.id b.id)

unfoldable pub blocked : SteamMatchBlock → Option ApplicationFact → SteamMatch
blocked reason none = record {
  reason = some reason;
  steam_id = none;
  application_id = none;
  server_id = none;
}
blocked reason (some a) = record {
  reason = some reason;
  steam_id = some a.steam_id;
  application_id = some a.id;
  server_id = some a.server_id;
}

abbrev pub is_confirmed : ApplicationFact → Bool
is_confirmed a = is_some a.whitelist_grant

-- `new Set(live.map(…steamId)).size > 1` for a list that begins with `first`.
unfoldable pub several_ids : ApplicationFact → List ApplicationFact → Bool
several_ids first rest = any (λ a. not (str_eq a.steam_id first.steam_id)) rest

-- From the confirmed applications of `live`, whose first one is `first`.
unfoldable pub match_confirmed :
    List ApplicationFact → ApplicationFact → List ApplicationFact → SteamMatch
unfolding blocked
match_confirmed live first [] = blocked application_not_confirmed (some first)
match_confirmed live first (candidate ∷ others) =
    if any (λ a. a.other_discord_claim) live
    then blocked steam_shared (some candidate)
    else if any (λ a. a.rejected_before) live
    then blocked steam_rejected_before (some candidate)
    else if any (λ a. a.other_supporter) live
    then blocked steam_on_another_record (some candidate)
    else record {
      reason = none;
      steam_id = some candidate.steam_id;
      application_id = some candidate.id;
      server_id = some candidate.server_id;
    }

abbrev match_pending : Option ApplicationFact → SteamMatch
match_pending none = blocked no_approved_application none
match_pending (some a) = blocked application_pending (some a)

-- From the approved applications in review order.
unfoldable pub match_live : List ApplicationFact → List ApplicationFact → SteamMatch
unfolding match_confirmed several_ids
match_live applications [] = match_pending (find (λ a. is_pending a.status) applications)
match_live applications (first ∷ rest) =
    if several_ids first rest
    then blocked several_steam_ids none
    else if not (is_public_individual_steam_id (some first.steam_id))
    then blocked invalid_steam_id (some first)
    else match_confirmed (first ∷ rest) first (filter is_confirmed (first ∷ rest))

abbrev match_busy : List ApplicationFact → Option ApplicationFact → SteamMatch
match_busy applications (some busy) = blocked application_in_progress (some busy)
match_busy applications none =
    match_live applications (sort_by review_before (filter is_approved applications))

-- `applicationSteamMatch`
unfoldable pub application_steam_match : List ApplicationFact → SteamMatch
unfolding match_live review_before is_approved
application_steam_match [] = blocked no_application none
application_steam_match (a ∷ applications) =
    match_busy (a ∷ applications) (find (λ x. in_progress x.status) (a ∷ applications))

-- `standing`
abbrev pub is_standing : ApplicationFact → Bool
is_standing a = elim a.status [ declined ↦ false | revoked ↦ false | _ ↦ true ]

-- `sourceApplicationRevoked`, where the member's SteamID came from an application if the flag says so.
unfoldable pub source_application_revoked : Option String → Bool → List ApplicationFact → Bool
unfolding is_approved
source_application_revoked steam_id from_application applications =
    from_application
    && not (any (λ a. is_approved a && opt_str_eq (some a.steam_id) steam_id) applications)

-- `heldOnAnotherRecord`
unfoldable pub held_on_another_record : List ApplicationFact → Option String → Bool
held_on_another_record applications linked =
    any (λ a. a.other_supporter && is_standing a && not (opt_str_eq (some a.steam_id) linked))
      applications

abbrev is_unapproved : Option SteamMatchBlock → Bool
is_unapproved (some application_pending) = true
is_unapproved (some application_in_progress) = true
is_unapproved _ = false

-- `steamDiffersFromApplication`
unfoldable pub steam_differs_from_application : Option String → Bool → Option SteamMatch → Bool
steam_differs_from_application steam_id from_application none = false
steam_differs_from_application steam_id from_application (some steam) =
    truthy steam_id
    && not from_application
    && truthy steam.steam_id
    && not (is_unapproved steam.reason)
    && not (opt_str_eq steam.steam_id steam_id)
