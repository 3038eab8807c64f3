-- ===== src/Supporters/SteamLaws.antt =====
-- When automatic matching copies a SteamID, whatever the order of the applications.
use uncs_bot.Common.{
  Bool, Bool-cases, List, Option-cases, String, [], any, any-filter, any-sort_by, any_of_find-none,
  ap, arith, eq_iff, false, filter, find, find-none_of_any, inl, inr, none, not, null, refl, some,
  sort_by, str_eq, subst, sym, true, ◌&&◌, ◌↔◌, ◌∙◌, ◌∷◌, ◌≡◌,
}
use uncs_bot.Supporters.SteamId.{is_public_individual_steam_id}
use uncs_bot.Supporters.Steam.{
  ApplicationFact, SteamMatch, application_steam_match, blocked, in_progress, is_approved,
  is_confirmed, match_confirmed, match_live, review_before, several_ids,
}

-- What the rule asks of the whole set of applications, stated with no order among them.
pub record IsCopyable (applications : List ApplicationFact) (id : String) : Type 0 where
  pub idle : any (λ a. in_progress a.status) applications ≡ false
  pub only : any (λ a. is_approved a && not (str_eq a.steam_id id)) applications ≡ false
  pub valid : is_public_individual_steam_id (some id) ≡ true
  pub confirmed : any (λ a. is_approved a && is_confirmed a) applications ≡ true
  pub unclaimed : any (λ a. is_approved a && a.other_discord_claim) applications ≡ false
  pub unrejected : any (λ a. is_approved a && a.rejected_before) applications ≡ false
  pub unheld : any (λ a. is_approved a && a.other_supporter) applications ≡ false

abbrev live_of : List ApplicationFact → List ApplicationFact
live_of applications = sort_by review_before (filter is_approved applications)

any-live_of :
    (p : ApplicationFact → Bool) (applications : List ApplicationFact)
    → any p (live_of applications) ≡ any (λ a. is_approved a && p a) applications
any-live_of p applications =
    any-sort_by review_before p (filter is_approved applications)
    ∙ any-filter p is_approved applications

-- The same conditions on the approved applications in review order.
record IsReady (live : List ApplicationFact) (id : String) : Type 0 where
  only : any (λ a. not (str_eq a.steam_id id)) live ≡ false
  valid : is_public_individual_steam_id (some id) ≡ true
  confirmed : any is_confirmed live ≡ true
  unclaimed : any (λ a. a.other_discord_claim) live ≡ false
  unrejected : any (λ a. a.rejected_before) live ≡ false
  unheld : any (λ a. a.other_supporter) live ≡ false

IsReady-of_IsCopyable :
    (applications : List ApplicationFact) (id : String)
    → IsCopyable applications id
    → IsReady (live_of applications) id
IsReady-of_IsCopyable applications id c = record {
  only = any-live_of (λ a. not (str_eq a.steam_id id)) applications ∙ c.only;
  valid = c.valid;
  confirmed = any-live_of is_confirmed applications ∙ c.confirmed;
  unclaimed = any-live_of (λ a. a.other_discord_claim) applications ∙ c.unclaimed;
  unrejected = any-live_of (λ a. a.rejected_before) applications ∙ c.unrejected;
  unheld = any-live_of (λ a. a.other_supporter) applications ∙ c.unheld;
}

IsCopyable-of_IsReady :
    (applications : List ApplicationFact) (id : String)
    → any (λ a. in_progress a.status) applications ≡ false
    → IsReady (live_of applications) id
    → IsCopyable applications id
IsCopyable-of_IsReady applications id idle r = record {
  idle = idle;
  only = sym (any-live_of (λ a. not (str_eq a.steam_id id)) applications) ∙ r.only;
  valid = r.valid;
  confirmed = sym (any-live_of is_confirmed applications) ∙ r.confirmed;
  unclaimed = sym (any-live_of (λ a. a.other_discord_claim) applications) ∙ r.unclaimed;
  unrejected = sym (any-live_of (λ a. a.rejected_before) applications) ∙ r.unrejected;
  unheld = sym (any-live_of (λ a. a.other_supporter) applications) ∙ r.unheld;
}

abbrev Offers : SteamMatch → String → Type 0
Offers m id = (m.reason ≡ none) × (m.steam_id ≡ some id)

filter-cons_of_any :
    (p : ApplicationFact → Bool) (xs : List ApplicationFact)
    → any p xs ≡ true
    → (a : ApplicationFact) × (rest : List ApplicationFact) × (filter p xs ≡ a ∷ rest)
filter-cons_of_any p [] h = absurd (cc)
filter-cons_of_any p (x ∷ xs) h = elim (Bool-cases (p x)) [
  | inl here ↦ (x, filter p xs, rw here)
  | inr later ↦ let (a, rest, e) = filter-cons_of_any p xs (rw later at h) in (a, rest, rw later e)
]

filter-head_id :
    (p : ApplicationFact → Bool) (id : String) (xs : List ApplicationFact) (a : ApplicationFact)
    (rest : List ApplicationFact)
    → any (λ x. not (str_eq x.steam_id id)) xs ≡ false
    → filter p xs ≡ a ∷ rest
    → a.steam_id ≡ id
filter-head_id p id [] a rest h e = absurd (cc)
filter-head_id p id (x ∷ xs) a rest h e =
    ground (arith, eq_iff x.steam_id id, filter-head_id p id xs a rest)

several_ids-eq :
    (first : ApplicationFact) (rest : List ApplicationFact) (id : String)
    → first.steam_id ≡ id
    → several_ids first rest ≡ any (λ a. not (str_eq a.steam_id id)) rest
unfolding several_ids
several_ids-eq first rest id e = ap (λ i. any (λ a. not (str_eq a.steam_id i)) rest) e

match_confirmed-Offers :
    (live : List ApplicationFact) (first : ApplicationFact) (found : List ApplicationFact)
    (a : ApplicationFact) (others : List ApplicationFact) (id : String)
    → found ≡ a ∷ others
    → a.steam_id ≡ id
    → IsReady live id
    → Offers (match_confirmed live first found) id
unfolding match_confirmed
match_confirmed-Offers live first [] a others id e same r = absurd (cc)
match_confirmed-Offers live first (b ∷ found) a others id e same r = ground arith

match_live-Offers :
    (applications live : List ApplicationFact) (id : String)
    → IsReady live id
    → Offers (match_live applications live) id
unfolding match_live
match_live-Offers applications [] id r = absurd (cc (r.confirmed))
match_live-Offers applications (first ∷ rest) id r =
    let (a, others, e) = filter-cons_of_any is_confirmed (first ∷ rest) r.confirmed in
    let first_id : first.steam_id ≡ id = ground (arith, eq_iff first.steam_id id) in
    ground (
      arith,
      several_ids-eq first rest id first_id,
      match_confirmed-Offers (first ∷ rest) first (filter is_confirmed (first ∷ rest)) a others id e
          (filter-head_id is_confirmed id (first ∷ rest) a others r.only e) r,
    )

-- What a match found on the confirmed applications says of all.
match_confirmed_flags :
    (live : List ApplicationFact) (first : ApplicationFact) (found : List ApplicationFact)
    (id : String)
    → Offers (match_confirmed live first found) id
    → (null found ≡ false)
      × (any (λ a. a.other_discord_claim) live ≡ false)
      × (any (λ a. a.rejected_before) live ≡ false)
      × (any (λ a. a.other_supporter) live ≡ false)
unfolding match_confirmed blocked
match_confirmed_flags live first [] id o = absurd (ground arith)
match_confirmed_flags live first (b ∷ found) id o = ground arith

match_confirmed_id :
    (live : List ApplicationFact) (first : ApplicationFact) (found : List ApplicationFact)
    (id id' : String)
    → any (λ a. not (str_eq a.steam_id id')) found ≡ false
    → Offers (match_confirmed live first found) id
    → id ≡ id'
unfolding match_confirmed blocked
match_confirmed_id live first [] id id' h o = absurd (ground arith)
match_confirmed_id live first (b ∷ found) id id' h o = ground (arith, eq_iff b.steam_id id')

any_of_filter :
    (p : ApplicationFact → Bool) (xs : List ApplicationFact)
    → null (filter p xs) ≡ false
    → any p xs ≡ true
any_of_filter p [] h = cc
any_of_filter p (x ∷ xs) h = ground (arith, any_of_filter p xs)

any-filter_none :
    (p q : ApplicationFact → Bool) (xs : List ApplicationFact)
    → any q xs ≡ false
    → any q (filter p xs) ≡ false
any-filter_none p q [] h = refl
any-filter_none p q (x ∷ xs) h = ground (arith, any-filter_none p q xs)

match_live_first :
    (applications rest : List ApplicationFact) (first : ApplicationFact) (id : String)
    → Offers (match_live applications (first ∷ rest)) id
    → (several_ids first rest ≡ false)
      × (is_public_individual_steam_id (some first.steam_id) ≡ true)
      × Offers (match_confirmed (first ∷ rest) first (filter is_confirmed (first ∷ rest))) id
unfolding match_live blocked
match_live_first applications rest first id o = ground arith

match_live_empty :
    (applications : List ApplicationFact) (id : String) → Offers (match_live applications []) id → ⊥
unfolding match_live blocked
match_live_empty applications id o = ground arith

match_live-IsReady :
    (applications live : List ApplicationFact) (id : String)
    → Offers (match_live applications live) id
    → IsReady live id
match_live-IsReady applications [] id o = absurd (match_live_empty applications id o)
match_live-IsReady applications (first ∷ rest) id o =
    let (one, valid, offers) = match_live_first applications rest first id o in
    let (some_found, unclaimed, unrejected, unheld) =
      match_confirmed_flags (first ∷ rest) first (filter is_confirmed (first ∷ rest)) id offers in
    let only : any (λ a. not (str_eq a.steam_id first.steam_id)) (first ∷ rest) ≡ false = ground (
      arith,
      eq_iff first.steam_id first.steam_id,
      several_ids-eq first rest first.steam_id refl,
    ) in
    let same : id ≡ first.steam_id =
      match_confirmed_id (first ∷ rest) first (filter is_confirmed (first ∷ rest)) id first.steam_id
        (any-filter_none is_confirmed (λ a. not (str_eq a.steam_id first.steam_id)) (first ∷ rest)
          only)
        offers in
    record {
      only =
          subst (λ i. any (λ a. not (str_eq a.steam_id i)) (first ∷ rest) ≡ false) (sym same) only;
      valid = subst (λ i. is_public_individual_steam_id (some i) ≡ true) (sym same) valid;
      confirmed = any_of_filter is_confirmed (first ∷ rest) some_found;
      unclaimed = unclaimed;
      unrejected = unrejected;
      unheld = unheld;
    }

match_busy_idle :
    (a : ApplicationFact) (rest : List ApplicationFact)
    → any (λ x. in_progress x.status) (a ∷ rest) ≡ false
    → application_steam_match (a ∷ rest) ≡ match_live (a ∷ rest) (live_of (a ∷ rest))
unfolding application_steam_match
match_busy_idle a rest idle = rw (find-none_of_any (λ x. in_progress x.status) (a ∷ rest) idle) refl

none_not_offered : (id : String) → Offers (application_steam_match []) id → ⊥
unfolding application_steam_match blocked
none_not_offered id o = ground arith

busy_not_offered :
    (applications : List ApplicationFact) (id : String)
    → Offers (application_steam_match applications) id
    → any (λ a. in_progress a.status) applications ≡ false
unfolding application_steam_match blocked
busy_not_offered [] id o = refl
busy_not_offered (a ∷ rest) id o =
    elim (Option-cases (find (λ x. in_progress x.status) (a ∷ rest))) [
      | inl idle ↦ any_of_find-none (λ x. in_progress x.status) (a ∷ rest) idle
      | inr (busy, found) ↦ absurd (ground arith)
    ]

-- Automatic matching offers a SteamID exactly when no application of the Discord account is under
-- review, some approved application recorded a grant or an existing entry, every approved one names
-- this SteamID, it is a valid player ID, and no approved application is claimed by another Discord
-- account, was rejected before or is on another supporter record. The order of the applications has
-- no part in it.
pub application_steam_match_iff :
    (applications : List ApplicationFact) (id : String)
    → (((application_steam_match applications).reason ≡ none)
        × ((application_steam_match applications).steam_id ≡ some id))
      ↔ IsCopyable applications id
application_steam_match_iff [] id =
    (λ o. absurd (none_not_offered id o), λ c. absurd (cc (c.confirmed)))
application_steam_match_iff (a ∷ rest) id = (
  λ o.
      let idle = busy_not_offered (a ∷ rest) id o in
      IsCopyable-of_IsReady (a ∷ rest) id idle (
        match_live-IsReady (a ∷ rest) (live_of (a ∷ rest)) id
          (rw (match_busy_idle a rest idle) at o)),
  λ c. rw (match_busy_idle a rest c.idle) (
      match_live-Offers (a ∷ rest) (live_of (a ∷ rest)) id (IsReady-of_IsCopyable (a ∷ rest) id c)),
)
