-- ===== src/Ballots/BallotLaws.antt =====
-- What a ballot offers.
use uncs_bot.Common.{
  All, Bool, Bool-cases, List, Option, Option-cases, [], ap, arith, false, filter, filter-keeps,
  get_elem?, inl, inr, leb, length, length-append, length-take, ltb, none, not, or_else, refl, some,
  subst, sym, take, true, ◌&&◌, ◌++◌, ◌+◌, ◌-◌, ◌<◌, ◌∷◌, ◌≡◌, ◌≤◌, ◌⊎◌,
}
use uncs_bot.Ballots.Selection.{MapSelection}
use uncs_bot.Ballots.Placement.{already_next}
use uncs_bot.Ballots.Builder.{
  BallotInput, BallotOption, FiftyOffer, Search, candidate_order, consider_all, empty_search,
  fifty_kind, fifty_last, fifty_next_unavailable, fifty_not_ready, fifty_off, is_offered,
}
use uncs_bot.Ballots.Ballot.{
  ballot_notes, ballot_options, build_ballot, fifty_option, final_options, is_fresh, keep_fresh,
  only_fifty_on, with_fifty,
}
use uncs_bot.Ballots.BuilderLaws.{
  IsPlayable, IsSound, IsUnlike, consider_all-IsSound, filter-IsUnlike, take-IsUnlike,
}

-- The next rotation entry, played as 50v50 without a change of the queue.
abbrev pub IsFifty : Option MapSelection → BallotOption → Type 0
IsFifty next option =
    (option.fifty_event ≡ true)
    × (option.kind ≡ fifty_kind)
    × (option.option_placement ≡ already_next)
    × (next ≡ some option.choice)

-- A playable option or the 50v50 option.
abbrev pub Offers : BallotInput → MapSelection → Option MapSelection → BallotOption → Type 0
Offers input current next option = IsPlayable input current option ⊎ IsFifty next option

fifty_option-IsFifty :
    (offer : FiftyOffer) (next : Option MapSelection) (option : BallotOption)
    → fifty_option offer next ≡ some option
    → IsFifty next option × (is_offered offer ≡ true)
unfolding fifty_option
fifty_option-IsFifty offer none option e = absurd (cc)
fifty_option-IsFifty fifty_last (some next) option e =
    subst (λ o. IsFifty (some next) o × (true ≡ true)) (ap (λ o. or_else o option) e)
      ((refl, refl, refl, refl), refl)
fifty_option-IsFifty fifty_off (some next) option e = absurd (cc)
fifty_option-IsFifty (fifty_not_ready reason) (some next) option e = absurd (cc)
fifty_option-IsFifty fifty_next_unavailable (some next) option e = absurd (cc)

keep_fresh-IsSound :
    (input : BallotInput) (current : MapSelection) (found : List BallotOption)
    → All (IsPlayable input current) found
    → IsUnlike found
    → All (IsPlayable input current) (keep_fresh input found) × IsUnlike (keep_fresh input found)
unfolding keep_fresh
keep_fresh-IsSound input current found playable unlike =
    elim (Bool-cases
      (ltb 0 input.settings.exclude_recent && leb 2 (length (filter (is_fresh input) found)))) [
        | inl e ↦
            rw (e, keep_fresh)
              (
                filter-keeps (IsPlayable input current) (is_fresh input) found playable,
                filter-IsUnlike (is_fresh input) found unlike,
              )
        | inr e ↦ rw (e, keep_fresh) (playable, unlike)
      ]

length-with_fifty :
    (options : List BallotOption) (fifty : BallotOption)
    → length (with_fifty options fifty) ≤ length options + 1
unfolding with_fifty
length-with_fifty [] fifty = omega arith
length-with_fifty (option ∷ options) fifty =
    omega (arith, length-append (option ∷ options) (fifty ∷ []))

length-final_options :
    (input : BallotInput) (options : List BallotOption) (fifty : Option BallotOption)
    → 2 ≤ input.settings.option_count
    → length (final_options input options fifty) ≤ input.settings.option_count
unfolding final_options
length-final_options input options none h =
    ground (arith, length-take input.settings.option_count options)
length-final_options input options (some fifty) h =
    let n = input.settings.option_count - 1 in
    ground (arith, length-take n options, length-with_fifty (take n options) fifty)

ballot_notes-say :
    (input : BallotInput) (found : Search) (offer : FiftyOffer) (options : List BallotOption)
    → length options < 2
    → 0 < length (ballot_notes input found offer options)
unfolding ballot_notes
ballot_notes-say input found offer options h = ground arith

-- A ballot has at most the configured number of options, the 50v50 one included, and one with fewer
-- than two says why, where that number is at least two.
pub build_ballot-length :
    (input : BallotInput)
    → 2 ≤ input.settings.option_count
    → (length (build_ballot input).options ≤ input.settings.option_count)
      × (length (build_ballot input).options < 2 → 0 < length (build_ballot input).notes)
unfolding build_ballot ballot_options
build_ballot-length input h =
    elim (Option-cases (get_elem? input.rotation_entries input.current_index)) [
      | inl e ↦ rw (e, build_ballot) (omega arith, λ _. omega arith)
      | inr (current, e) ↦
          let found = consider_all input current (candidate_order input) empty_search in
          rw (e, build_ballot)
            (
              length-final_options input (keep_fresh input found.found) _ h,
              λ few. ballot_notes-say input found _ _ few,
            )
    ]

filter-append_dropped :
    (p : BallotOption → Bool) (options : List BallotOption) (last : BallotOption)
    → p last ≡ false
    → filter p (options ++ (last ∷ [])) ≡ filter p options
filter-append_dropped p [] last h = ground arith
filter-append_dropped p (option ∷ options) last h =
    ground (arith, filter-append_dropped p options last h)

with_fifty-IsUnlike :
    (p : BallotOption → Bool) (options : List BallotOption) (fifty : BallotOption)
    → p fifty ≡ false
    → IsUnlike options
    → IsUnlike (filter p (with_fifty options fifty))
unfolding with_fifty
with_fifty-IsUnlike p [] fifty h u = tt
with_fifty-IsUnlike p (option ∷ options) fifty h u =
    subst IsUnlike (sym (filter-append_dropped p (option ∷ options) fifty h))
      (filter-IsUnlike p (option ∷ options) u)

abbrev pub is_ordinary : BallotOption → Bool
is_ordinary option = not option.fifty_event

ballot_options-IsUnlike :
    (input : BallotInput) (current : MapSelection) (found : Search) (offer : FiftyOffer)
    (next : Option MapSelection)
    → only_fifty_on input.policy ≡ false
    → IsSound input current found
    → IsUnlike (filter is_ordinary (ballot_options input found offer next))
unfolding ballot_options
ballot_options-IsUnlike input current found offer next on (playable, unlike) =
    let kept = (keep_fresh-IsSound input current found.found playable unlike).1 in
    elim (Option-cases (fifty_option offer next)) [
      | inl e ↦
          rw (e, ballot_options, final_options, on)
            (filter-IsUnlike is_ordinary _ (take-IsUnlike input.settings.option_count _ kept))
      | inr (fifty, e) ↦
          let (is_event, _, _, _) = (fifty_option-IsFifty offer next fifty e).0 in
          let dropped : is_ordinary fifty ≡ false = ground arith in
          rw (e, ballot_options, final_options, on)
            (with_fifty-IsUnlike is_ordinary _ fifty dropped
              (take-IsUnlike (input.settings.option_count - 1) _ kept))
    ]

-- No two ordinary options of a ballot have the same map and rule set, where the running row is known
-- and maps or modes are switched on.
pub build_ballot-IsUnlike :
    (input : BallotInput) (current : MapSelection)
    → get_elem? input.rotation_entries input.current_index ≡ some current
    → only_fifty_on input.policy ≡ false
    → IsUnlike (filter is_ordinary (build_ballot input).options)
unfolding build_ballot
build_ballot-IsUnlike input current e on =
    rw (e, build_ballot)
      (ballot_options-IsUnlike input current
        (consider_all input current (candidate_order input) empty_search) _ _ on
        (consider_all-IsSound input current (candidate_order input) empty_search (tt, tt)))
