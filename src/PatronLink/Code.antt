-- ===== src/PatronLink/Code.antt =====
-- The limits and the refused Patreon codes of `PatronLinkState` in
-- src/patron-link/patron-link.state.ts. `codeKey`, a truncated SHA-256 of node:crypto, is the
-- parameter `code_key`.
use uncs_bot.Common.{
  ℕ, ◌+◌, max, String, Bool, true, false, Option, none, some, [], ◌∷◌, ◌++◌, ltb, leb,
  if◌then◌else◌, filter, length, Map, get, put, remove,
}
use uncs_bot.PatronLink.Counter.{Take, ok, take, is_recent}
use uncs_bot.PatronLink.State.{refused_code_ms, max_refused_codes, burns_per_minute, State}

abbrev is_ok : Take → Bool
is_ok ok = true
is_ok _ = false

unfoldable pub start_leg : String → ℕ → State → State × Bool
start_leg discord_id now s =
    let (c, counted) = take s.legs_started discord_id now in
    (record s { legs_started = c }, is_ok counted)

unfoldable pub burn_allowed : ℕ → State → State × Bool
burn_allowed now s =
    let burned = filter (is_recent 60000 now) s.burned in
    if leb burns_per_minute (length burned)
    then (record s { burned = burned }, false)
    else (record s { burned = burned ++ now ∷ [] }, true)

-- The loop of `forgetRefusedCodes`, which stops at the first code still refused.
unfoldable pub forget : ℕ → Map ℕ → Map ℕ
forget now [] = []
forget now ((key, expires_at) ∷ rest) =
    let forgotten = forget now rest in
    if ltb now expires_at then (key, expires_at) ∷ rest else forgotten

unfoldable pub forget_refused_codes : ℕ → State → State
unfolding forget
forget_refused_codes now s = record s { refused_codes = forget now s.refused_codes }

-- The oldest code goes when the list is full, and its expiry is kept in `refusedCodesFullUntil`.
unfoldable pub drop_oldest : Map ℕ → ℕ → Map ℕ × ℕ
drop_oldest [] full_until = ([], full_until)
drop_oldest ((oldest, expires_at) ∷ rest) full_until =
    (remove oldest ((oldest, expires_at) ∷ rest), max full_until expires_at)

-- The guard on the size of the list.
unfoldable pub make_room : Map ℕ → ℕ → Map ℕ × ℕ
unfolding drop_oldest
make_room codes full_until =
    if leb max_refused_codes (length codes)
    then drop_oldest codes full_until
    else (codes, full_until)

pub data CodeCheck : Type 0 where
  usable refused_code wait : CodeCheck

module _ (code_key : String → String) where
  unfoldable pub refuse_code : String → ℕ → State → State
  unfolding forget_refused_codes make_room
  refuse_code given now s =
      let forgotten = forget_refused_codes now s in
      let key = code_key given in
      let (room, full_until) =
        make_room (remove key forgotten.refused_codes) s.refused_codes_full_until in
      record forgotten {
        refused_codes = put key (now + refused_code_ms) room;
        refused_codes_full_until = full_until;
      }

  abbrev check_found : ℕ → State → Option ℕ → CodeCheck
  check_found now s (some expires_at) = refused_code
  check_found now s none = if ltb now s.refused_codes_full_until then wait else usable

  unfoldable pub code_check : String → ℕ → State → State × CodeCheck
  unfolding forget_refused_codes
  code_check given now s =
      let forgotten = forget_refused_codes now s in
      (forgotten, check_found now forgotten (get (code_key given) forgotten.refused_codes))
