-- ===== src/Ballots/Ballot.antt =====
-- The end of `buildBallot` of src/map-votes/ballot-builder.ts: the options kept, the 50v50 option and
-- the notes of a ballot that cannot be held.
use uncs_bot.Common.{
  Bool, List, Option, String, [], any, false, filter, get_elem?, if◌then◌else◌, leb, length, ltb,
  map, none, not, some, take, true, ◌&&◌, ◌++◌, ◌-◌, ◌∷◌,
}
use uncs_bot.Ballots.Selection.{MapSelection, same_map}
use uncs_bot.Ballots.Placement.{already_next, next_slot_of}
use uncs_bot.Ballots.Policy.{VotingPolicy, is_pool}
use uncs_bot.Ballots.Builder.{
  BallotInput, BallotOption, BallotPlan, FiftyOffer, Note, Search, candidate_order, consider_all,
  empty_search, few_pool_entries, few_rotation_entries, fifty_kind, fifty_offer, is_offered,
  map_kind, only_fifty, recent_allowed, unreadable_entry, wrap_unconfirmed,
}

-- The maps of the latest automatic ballots.
unfoldable pub recent_maps : BallotInput → List String
recent_maps input =
    map (λ row. row.current_map)
      (take input.settings.exclude_recent (filter (λ row. row.automatic) input.history))

unfoldable pub is_fresh : BallotInput → BallotOption → Bool
unfolding recent_maps
is_fresh input option = not (any (λ name. same_map name option.choice.map_id) (recent_maps input))

unfoldable pub keep_fresh : BallotInput → List BallotOption → List BallotOption
unfolding is_fresh
keep_fresh input candidates =
    let fresh = filter (is_fresh input) candidates in
    if ltb 0 input.settings.exclude_recent && leb 2 (length fresh) then fresh else candidates

unfoldable pub fresh_notes : BallotInput → List BallotOption → List Note
unfolding is_fresh
fresh_notes input candidates =
    let fresh = filter (is_fresh input) candidates in
    if ltb 0 input.settings.exclude_recent
      && (ltb (length fresh) 2 && ltb (length fresh) (length candidates))
    then recent_allowed ∷ []
    else []

-- `fiftyOption`
unfoldable pub fifty_option : FiftyOffer → Option MapSelection → Option BallotOption
fifty_option offer none = none
fifty_option offer (some next) =
    if is_offered offer
    then some record {
      choice = next;
      fifty_event = true;
      kind = fifty_kind;
      option_placement = already_next;
    }
    else none

-- Normal teams on the entry that a 50v50 option would play.
abbrev pub normal_teams : BallotOption → BallotOption
normal_teams option = record {
  choice = option.choice;
  fifty_event = false;
  kind = map_kind;
  option_placement = already_next;
}

unfoldable pub with_fifty : List BallotOption → BallotOption → List BallotOption
with_fifty [] fifty = []
with_fifty (option ∷ options) fifty = (option ∷ options) ++ (fifty ∷ [])

abbrev pub only_fifty_on : VotingPolicy → Bool
only_fifty_on policy = not policy.map_choices && not policy.mode_choices

unfoldable pub final_options :
    BallotInput → List BallotOption → Option BallotOption → List BallotOption
unfolding with_fifty
final_options input options none =
    if only_fifty_on input.policy then [] else take input.settings.option_count options
final_options input options (some fifty) =
    if only_fifty_on input.policy
    then normal_teams fifty ∷ fifty ∷ []
    else with_fifty (take (input.settings.option_count - 1) options) fifty

-- Why a ballot has fewer than two options.
unfoldable pub short_note : BallotInput → FiftyOffer → Search → Note
short_note input offer search =
    if only_fifty_on input.policy
    then only_fifty offer
    else if ltb 0 search.skipped_append && ltb (length search.found) 2
    then wrap_unconfirmed
    else if is_pool input.settings.source
    then few_pool_entries
    else few_rotation_entries

unfoldable pub ballot_options :
    BallotInput → Search → FiftyOffer → Option MapSelection → List BallotOption
unfolding keep_fresh fifty_option final_options
ballot_options input search offer next =
    final_options input (keep_fresh input search.found) (fifty_option offer next)

unfoldable pub ballot_notes : BallotInput → Search → FiftyOffer → List BallotOption → List Note
unfolding fresh_notes short_note
ballot_notes input search offer options =
    let notes = fresh_notes input search.found in
    if ltb (length options) 2 then short_note input offer search ∷ notes else notes

unfoldable pub build_ballot : BallotInput → BallotPlan
unfolding next_slot_of fifty_offer consider_all candidate_order ballot_options ballot_notes
build_ballot input =
    let next_slot =
      next_slot_of (length input.rotation_entries) input.current_index input.status_next_index in
    let next = get_elem? input.rotation_entries next_slot in
    let offer =
      fifty_offer input.settings.fifty_fifty.offered input.fifty_input next input.issues
        next_slot in
    elim (get_elem? input.rotation_entries input.current_index) [
      | none ↦ record {
        options = [];
        notes = unreadable_entry ∷ [];
        plan_next_slot = next_slot;
        plan_next = next;
        plan_fifty = offer;
      }
      | some current ↦
          let search = consider_all input current (candidate_order input) empty_search in
          let options = ballot_options input search offer next in
          record {
            options = options;
            notes = ballot_notes input search offer options;
            plan_next_slot = next_slot;
            plan_next = next;
            plan_fifty = offer;
          }
    ]
