-- ===== src/Supporters/SteamId.antt =====
-- `isPublicIndividualSteamId` of src/common/steam-id.ts. An `unknown` is `some text` for a string.
use Prim.Native.Char.{code}
use uncs_bot.Common.{
  Bool, Option, String, false, if◌then◌else◌, leb, ltb, none, some, ℕ, ◌&&◌, ◌*◌, ◌+◌, ◌-◌, ◌==◌,
}

-- `/^[0-9]{n}$/`, and the number that the digits write, most significant first.
unfoldable pub digits_value : ℕ → ℕ → String → Option ℕ
digits_value n acc String.[] = if n == 0 then some acc else none
digits_value n acc (String.◌∷◌ c s) =
    let rest = digits_value (n - 1) (acc * 10 + (code c - b'0')) s in
    if ltb 0 n && leb b'0' (code c) && leb (code c) b'9' then rest else none

abbrev pub steam_id_min : ℕ
steam_id_min = 76561197960265729

abbrev pub steam_id_max : ℕ
steam_id_max = 76561202255233023

abbrev in_range : Option ℕ → Bool
in_range none = false
in_range (some id) = leb steam_id_min id && leb id steam_id_max

unfoldable pub is_public_individual_steam_id : Option String → Bool
unfolding digits_value
is_public_individual_steam_id none = false
is_public_individual_steam_id (some value) = in_range (digits_value 17 0 value)
