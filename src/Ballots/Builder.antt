-- ===== src/Ballots/Builder.antt =====
-- `buildBallot` of src/map-votes/ballot-builder.ts. Notes and reasons are data in place of their texts.
-- The rotation's `currentIndex` is not negative, as the only caller checks.
use uncs_bot.Common.{
  Bool, List, Option, String, [], any, drop, false, filter, if◌then◌else◌, is_some, ltb, none, not,
  some, sort_by, str_eq, take, true, ℕ, ◌&&◌, ◌++◌, ◌+◌, ◌==◌, ◌||◌, ◌∷◌,
}
use uncs_bot.Ballots.Selection.{MapSelection, same_key, same_map, vote_choice_key, vote_mode_key}
use uncs_bot.Ballots.Placement.{Placement, append, find_index_from, plan_map_next}
use uncs_bot.Ballots.Policy.{VotingPolicy, VotingSettings, is_pool}

pub data OptionKind : Type 0 where
  map_kind variant_kind fifty_kind : OptionKind

-- `choice.event` is present on the 50v50 option alone.
pub record BallotOption : Type 0 where
  pub choice : MapSelection
  pub fifty_event : Bool
  pub kind : OptionKind
  pub option_placement : Placement

pub record PastBallot : Type 0 where
  pub current_map : String
  pub automatic : Bool

pub record FiftyReadiness : Type 0 where
  pub fifty_ready : Bool
  pub fifty_reason : String

pub record BallotInput : Type 0 where
  pub policy : VotingPolicy
  pub settings : VotingSettings
  pub rotation_entries : List MapSelection
  pub current_index : ℕ
  pub issues : List ℕ
  pub status_next_index : Option ℕ
  pub history : List PastBallot
  pub unavailable_pool : List (List String)
  pub fifty_input : Option FiftyReadiness

pub data FiftyOffer : Type 0 where
  fifty_off : FiftyOffer
  fifty_not_ready : Option String → FiftyOffer
  fifty_next_unavailable : FiftyOffer
  fifty_last : FiftyOffer

pub data Note : Type 0 where
  unreadable_entry : Note
  recent_allowed : Note
  only_fifty : FiftyOffer → Note
  wrap_unconfirmed : Note
  few_pool_entries few_rotation_entries : Note

pub record BallotPlan : Type 0 where
  pub options : List BallotOption
  pub notes : List Note
  pub plan_next_slot : ℕ
  pub plan_next : Option MapSelection
  pub plan_fifty : FiftyOffer

abbrev pub has_index : ℕ → List ℕ → Bool
has_index i = any (λ j. j == i)

abbrev reason_of : Option FiftyReadiness → Option String
reason_of none = none
reason_of (some check) = some check.fifty_reason

abbrev ready_of : Option FiftyReadiness → Bool
ready_of none = false
ready_of (some check) = check.fifty_ready

unfoldable pub fifty_offer :
    Bool → Option FiftyReadiness → Option MapSelection → List ℕ → ℕ → FiftyOffer
fifty_offer offered check next issues next_slot =
    if not offered
    then fifty_off
    else if not (ready_of check)
    then fifty_not_ready (reason_of check)
    else if not (is_some next) || has_index next_slot issues
    then fifty_next_unavailable
    else fifty_last

abbrev pub is_offered : FiftyOffer → Bool
is_offered fifty_last = true
is_offered _ = false

-- Same map and same rules.
abbrev pub same_option : MapSelection → MapSelection → Bool
same_option a b = same_map a.map_id b.map_id && str_eq (vote_mode_key a) (vote_mode_key b)

-- `kindOf`
unfoldable pub kind_of :
    VotingPolicy → VotingSettings → MapSelection → MapSelection → Option OptionKind
kind_of policy settings current entry =
    let same_rules = str_eq (vote_mode_key entry) (vote_mode_key current) in
    if same_map entry.map_id current.map_id
    then (if same_rules || not policy.mode_choices
        then none
        else if policy.map_choices && settings.exclude_current_map
        then none
        else some variant_kind)
    else if not policy.map_choices || (not policy.mode_choices && not same_rules)
    then none
    else some map_kind

-- What the search keeps: the candidates, first found last, and how many placements it skipped.
pub record Search : Type 0 where
  pub found : List BallotOption
  pub skipped_append : ℕ

abbrev pub is_append : Placement → Bool
is_append append = true
is_append _ = false

abbrev pub empty_search : Search
empty_search = record { found = []; skipped_append = 0 }

-- `consider` of an entry that passed `kindOf`.
unfoldable pub consider_kind : BallotInput → MapSelection → OptionKind → Search → Search
unfolding plan_map_next
consider_kind input entry kind search =
    let placement =
      (plan_map_next input.rotation_entries input.current_index input.status_next_index
        entry).placement in
    if any (λ option. same_option option.choice entry) search.found
    then search
    else if is_append placement
    then record { found = search.found; skipped_append = search.skipped_append + 1 }
    else record {
      found =
          search.found
          ++ (record {
            choice = entry;
            fifty_event = false;
            kind = kind;
            option_placement = placement;
          }
              ∷ []);
      skipped_append = search.skipped_append;
    }

-- `consider`
unfoldable pub consider : BallotInput → MapSelection → MapSelection → Search → Search
unfolding kind_of consider_kind
consider input current entry search = elim (kind_of input.policy input.settings current entry) [
  | none ↦ search
  | some kind ↦ consider_kind input entry kind search
]

unfoldable pub consider_all : BallotInput → MapSelection → List MapSelection → Search → Search
unfolding consider
consider_all input current [] search = search
consider_all input current (entry ∷ entries) search =
    consider_all input current entries (consider input current entry search)

-- `[entries[currentIndex + 1], …]` around to the entry before the running one: `(currentIndex + offset)
-- % length` for the offsets from 1 to length - 1, less the rows with an issue. `index` is the first
-- item's index.
unfoldable pub without_issues : ℕ → List ℕ → List MapSelection → List MapSelection
without_issues index issues [] = []
without_issues index issues (entry ∷ entries) =
    let rest = without_issues (index + 1) issues entries in
    if has_index index issues then rest else entry ∷ rest

unfoldable pub rotation_order : BallotInput → List MapSelection
unfolding without_issues
rotation_order input =
    let from = input.current_index + 1 in
    without_issues from input.issues (drop from input.rotation_entries)
    ++ without_issues 0 input.issues (take input.current_index input.rotation_entries)

-- `lastPlayed`: the history's first row with the entry's map, none where it was never played.
unfoldable pub last_played : List PastBallot → MapSelection → Option ℕ
last_played history entry =
    find_index_from 0 (λ row index. same_map row.current_map entry.map_id) history

-- A negative `b.played - a.played`; both never played is not a number, so the order decides.
abbrev pub played_before : Option ℕ → Option ℕ → Bool
played_before none (some b) = true
played_before (some a) (some b) = ltb b a
played_before _ none = false

unfoldable pub pool_order : BallotInput → List MapSelection
unfolding last_played
pool_order input =
    filter (λ entry. not (any (same_key (vote_choice_key entry)) input.unavailable_pool))
      (sort_by (λ a b. played_before (last_played input.history a) (last_played input.history b))
        input.settings.pool_entries)

unfoldable pub candidate_order : BallotInput → List MapSelection
unfolding rotation_order pool_order
candidate_order input =
    if is_pool input.settings.source then pool_order input else rotation_order input
