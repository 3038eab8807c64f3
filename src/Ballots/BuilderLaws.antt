-- ===== src/Ballots/BuilderLaws.antt =====
-- What the search for ballot options keeps.
use uncs_bot.Common.{
  All, Bool, Bool-cases, List, Option-cases, [], any, append-All, arith, false, filter,
  filter-keeps, inl, inr, refl, some, suc, take, take-All, zero, ℕ, ◌++◌, ◌∷◌, ◌≡◌,
}
use uncs_bot.Ballots.Selection.{MapSelection}
use uncs_bot.Ballots.Placement.{plan_map_next}
use uncs_bot.Ballots.Policy.{VotingPolicy, VotingSettings}
use uncs_bot.Ballots.Builder.{
  BallotInput, BallotOption, OptionKind, Search, consider, consider_all, consider_kind, is_append,
  kind_of, same_option,
}

-- Not the running map with the running rules, and placed without growing the rotation at its end.
abbrev pub IsPlayable : BallotInput → MapSelection → BallotOption → Type 0
IsPlayable input current option =
    (option.fifty_event ≡ false)
    × (kind_of input.policy input.settings current option.choice ≡ some option.kind)
    × (same_option option.choice current ≡ false)
    × (is_append option.option_placement ≡ false)

-- No two options with one map and one rule set.
abbrev pub IsUnlike : List BallotOption → Type 0
IsUnlike [] = Unit
IsUnlike (option ∷ options) =
    All (λ other. same_option option.choice other.choice ≡ false) options × IsUnlike options

IsUnlike-append :
    (options : List BallotOption) (new : BallotOption)
    → any (λ option. same_option option.choice new.choice) options ≡ false
    → IsUnlike options
    → IsUnlike (options ++ (new ∷ []))
IsUnlike-append [] new h u = (tt, tt)
IsUnlike-append (option ∷ options) new h (apart, u) = (
  append-All (λ other. same_option option.choice other.choice ≡ false) options (new ∷ []) apart
      (ground arith, tt),
  IsUnlike-append options new (ground arith) u,
)

pub take-IsUnlike :
    (n : ℕ) (options : List BallotOption) → IsUnlike options → IsUnlike (take n options)
take-IsUnlike zero options u = tt
take-IsUnlike (suc n) [] u = tt
take-IsUnlike (suc n) (option ∷ options) (apart, u) =
    (take-All _ n options apart, take-IsUnlike n options u)

pub filter-IsUnlike :
    (p : BallotOption → Bool) (options : List BallotOption)
    → IsUnlike options
    → IsUnlike (filter p options)
filter-IsUnlike p [] u = tt
filter-IsUnlike p (option ∷ options) (apart, u) =
    elim (Bool-cases (p option)) as (λ _. IsUnlike (filter p (option ∷ options))) [
      | inl e ↦ rw e (filter-keeps _ p options apart, filter-IsUnlike p options u)
      | inr e ↦ rw e (filter-IsUnlike p options u)
    ]

pub kind_of-differs :
    (policy : VotingPolicy) (settings : VotingSettings) (current entry : MapSelection)
    (kind : OptionKind)
    → kind_of policy settings current entry ≡ some kind
    → same_option entry current ≡ false
unfolding kind_of
kind_of-differs policy settings current entry kind h = ground (arith)

-- A search whose options are playable and pairwise different.
abbrev pub IsSound : BallotInput → MapSelection → Search → Type 0
IsSound input current search = All (IsPlayable input current) search.found × IsUnlike search.found

consider_kind-IsSound :
    (input : BallotInput) (current entry : MapSelection) (kind : OptionKind) (search : Search)
    → kind_of input.policy input.settings current entry ≡ some kind
    → IsSound input current search
    → IsSound input current (consider_kind input entry kind search)
unfolding consider_kind
consider_kind-IsSound input current entry kind search e (playable, unlike) =
    let placement =
      (plan_map_next input.rotation_entries input.current_index input.status_next_index
        entry).placement in
    elim (Bool-cases (any (λ option. same_option option.choice entry) search.found)) [
      | inl seen ↦ rw seen (playable, unlike)
      | inr new ↦ elim (Bool-cases (is_append placement)) [
        | inl grows ↦ rw (new, grows) (playable, unlike)
        | inr fits ↦
            rw (new, fits)
              (
                append-All (IsPlayable input current) search.found _ playable (
                  (refl, e, kind_of-differs input.policy input.settings current entry kind e, fits),
                  tt,
                ),
                IsUnlike-append search.found _ new unlike,
              )
      ]
    ]

consider-IsSound :
    (input : BallotInput) (current entry : MapSelection) (search : Search)
    → IsSound input current search
    → IsSound input current (consider input current entry search)
unfolding consider
consider-IsSound input current entry search h =
    elim (Option-cases (kind_of input.policy input.settings current entry)) [
      | inl e ↦ rw (e, consider) h
      | inr (kind, e) ↦ rw (e, consider) (consider_kind-IsSound input current entry kind search e h)
    ]

pub consider_all-IsSound :
    (input : BallotInput) (current : MapSelection) (entries : List MapSelection) (search : Search)
    → IsSound input current search
    → IsSound input current (consider_all input current entries search)
unfolding consider_all
consider_all-IsSound input current [] search h = h
consider_all-IsSound input current (entry ∷ entries) search h =
    consider_all-IsSound input current entries (consider input current entry search)
      (consider-IsSound input current entry search h)
