-- ===== src/Ballots/Winner.antt =====
-- `ballotWinner` of src/map-votes/voting-settings.ts: the winning option's index, or none.
use uncs_bot.Common.{
  Bool, List, Option, [], false, find, if◌then◌else◌, leb, ltb, none, not, some, ℕ, ◌+◌, ◌==◌, ◌∷◌,
}
use uncs_bot.Ballots.Policy.{VoteTieRule, first_option, keep_rotation}

-- `Math.max(0, ...counts)`
unfoldable pub maximum : List ℕ → ℕ
maximum [] = 0
maximum (count ∷ counts) = let rest = maximum counts in if ltb rest count then count else rest

-- The indices with the maximum, `index` being the first count's.
unfoldable pub leaders_from : ℕ → ℕ → List ℕ → List ℕ
leaders_from index m [] = []
leaders_from index m (count ∷ counts) =
    let rest = leaders_from (index + 1) m counts in if count == m then index ∷ rest else rest

abbrev pub is_index : Option ℕ → ℕ → Bool
is_index none i = false
is_index (some f) i = f == i

unfoldable pub settle : List ℕ → VoteTieRule → Option ℕ → Option ℕ
settle (leader ∷ []) tie_rule fifty = some leader
settle leaders keep_rotation fifty = none
settle leaders first_option fifty = find (λ i. not (is_index fifty i)) leaders

unfoldable pub ballot_winner : List ℕ → VoteTieRule → Option ℕ → Option ℕ
unfolding maximum leaders_from settle
ballot_winner counts tie_rule fifty =
    if leb (maximum counts) 0
    then none
    else settle (leaders_from 0 (maximum counts) counts) tie_rule fifty
