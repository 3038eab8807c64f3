-- ===== src/Community/Rotation.antt =====
-- `CommunityRotation` of src/server-community/community-rotation.ts. The place that `random` draws in a
-- list of a given length, `Math.floor(value * length)` or 0, is an argument. The loop that forgets the
-- oldest players goes through the entries once.
use uncs_bot.Common.{
  Bool, List, Map, Option, String, [], any, filter, get, get_elem?, if◌then◌else◌, leb, length, ltb,
  min, none, not, null, or_else, remove, some, suc, zero, ℕ, ◌++◌, ◌+◌, ◌-◌, ◌==◌, ◌∷◌,
}

pub data WelcomePool : Type 0 where
  standard whitelisted : WelcomePool

pub record WelcomeHistory : Type 0 where
  pub by_player : Map ℕ
  pub last : Option ℕ

pub record CommunityRotation : Type 0 where
  pub standard_welcomes : WelcomeHistory
  pub whitelisted_welcomes : WelcomeHistory
  pub last_round : Option ℕ

abbrev pub max_remembered_players : ℕ
max_remembered_players = 2048

abbrev pub no_history : WelcomeHistory
no_history = record { by_player = []; last = none }

abbrev pub new_rotation : CommunityRotation
new_rotation = record {
  standard_welcomes = no_history;
  whitelisted_welcomes = no_history;
  last_round = none;
}

-- The indexes from `start` on, `count` of them.
unfoldable pub indexes_from : ℕ → ℕ → List ℕ
indexes_from start zero = []
indexes_from start (suc count) = start ∷ indexes_from (start + 1) count

-- At least one index, as `Math.max(1, count)`.
abbrev pub all_indexes : ℕ → List ℕ
all_indexes zero = indexes_from 0 1
all_indexes (suc count) = indexes_from 0 (suc count)

abbrev pub is_in : List ℕ → ℕ → Bool
is_in avoid index = any (λ x. x == index) avoid

abbrev pub candidates_for : List ℕ → List ℕ → List ℕ
candidates_for allowed every = if null allowed then every else allowed

-- The candidate at the drawn place, or the last one.
abbrev pub draw_from : List ℕ → (ℕ → ℕ) → ℕ
draw_from candidates drawn =
    or_else (get_elem? candidates (min (length candidates - 1) (drawn (length candidates)))) 0

-- `choose`
unfoldable pub choose : ℕ → List ℕ → (ℕ → ℕ) → ℕ
choose count avoid drawn =
    let allowed = filter (λ index. not (is_in avoid index)) (all_indexes count) in
    draw_from (candidates_for allowed (all_indexes count)) drawn

abbrev pub when_set : Bool → Option ℕ → List ℕ
when_set applies none = []
when_set applies (some index) = if applies then index ∷ [] else []

-- The variants that a welcome avoids.
abbrev pub avoided : WelcomeHistory → String → ℕ → List ℕ
avoided history id count =
    when_set (leb 2 count) (get id history.by_player) ++ when_set (leb 3 count) history.last

-- The loop over the oldest players.
unfoldable pub forget_oldest : ℕ → Map ℕ → Map ℕ
forget_oldest limit [] = []
forget_oldest limit ((id, index) ∷ players) =
    let rest = forget_oldest limit players in
    if ltb limit (length players + 1) then rest else (id, index) ∷ players

unfoldable pub remembered : ℕ → WelcomeHistory → String → ℕ → WelcomeHistory
remembered limit history id index = record {
  by_player = forget_oldest limit (remove id history.by_player ++ ((id, index) ∷ []));
  last = some index;
}

unfoldable pub welcome_from : ℕ → WelcomeHistory → String → ℕ → (ℕ → ℕ) → WelcomeHistory × ℕ
welcome_from limit history id count drawn =
    let index = choose count (avoided history id count) drawn in
    (remembered limit history id index, index)

-- `welcome`
unfoldable pub welcome :
    ℕ → CommunityRotation → String → ℕ → WelcomePool → (ℕ → ℕ) → CommunityRotation × ℕ
welcome limit rotation id count standard drawn =
    let (history, index) = welcome_from limit rotation.standard_welcomes id count drawn in
    (record rotation { standard_welcomes = history }, index)
welcome limit rotation id count whitelisted drawn =
    let (history, index) = welcome_from limit rotation.whitelisted_welcomes id count drawn in
    (record rotation { whitelisted_welcomes = history }, index)

-- `round`
unfoldable pub choose_round : CommunityRotation → ℕ → (ℕ → ℕ) → CommunityRotation × ℕ
choose_round rotation count drawn =
    let index = choose count (when_set (leb 2 count) rotation.last_round) drawn in
    (record rotation { last_round = some index }, index)
