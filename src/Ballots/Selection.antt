-- ===== src/Ballots/Selection.antt =====
-- A map selection, its labels and its keys: src/common/map-labels.ts, src/common/voting-policy.ts and
-- `formatRotation` of src/admin/server-configuration.ts. `JSON.stringify` of an array of strings is
-- equal for equal arrays alone, so `voteChoiceKey` is the array itself.
use Prim.Native.Nat.{Ordering}
use Prim.Native.String.{compare}
use Prim.Native.String
use uncs_bot.Common.{
  Bool, List, Option, String, [], false, if◌then◌else◌, map, none, opt_str_eq, some, sort_by,
  str_eq, true, truthy, ◌&&◌, ◌++◌, ◌||◌, ◌∷◌,
}

pub record MapSelection : Type 0 where
  pub map_id : String
  pub experiences : List String
  pub lighting : Option String
  pub zone_alternator : Option String

-- `mapLabel` without a display name: the table `maps`.
unfoldable pub map_label : String → String
map_label id =
    if str_eq id "Kavkazi"
    then "Bakurani"
    else if str_eq id "Europe"
    then "Ozeti"
    else if str_eq id "NorthAmerica"
    then "Zestafona"
    else id

-- `modeLabel` without a display name: the table `modes`.
unfoldable pub mode_label : String → String
mode_label id =
    if str_eq id "Bakurani_KOTH_01"
      || str_eq id "Madrid_KOTH_01"
      || str_eq id "Detroit_KOTH_01"
      || str_eq id "KOTH"
    then "King of the Hill"
    else if str_eq id "KOTH_InfantryOnly"
    then "Infantry only"
    else if str_eq id "KOTH_Hardcore"
    then "Hardcore"
    else id

-- `sameMap` for two strings.
unfoldable pub same_map : String → String → Bool
same_map a b = truthy (some a) && truthy (some b) && str_eq (map_label a) (map_label b)

-- `<` on strings, by code points; JavaScript's order agrees except beyond the basic plane.
abbrev pub str_before : String → String → Bool
str_before a b = elim (compare a b) [ Ordering.lt ↦ true | _ ↦ false ]

-- `list.join(separator)`
unfoldable pub join : String → List String → String
join separator [] = ""
join separator (x ∷ []) = x
join separator (x ∷ y ∷ xs) = String.◌++◌ x (String.◌++◌ separator (join separator (y ∷ xs)))

-- `voteModeKey`
unfoldable pub vote_mode_key : MapSelection → String
unfolding join mode_label
vote_mode_key entry = join "|" (sort_by str_before (map mode_label entry.experiences))

abbrev or_empty : Option String → String
or_empty none = ""
or_empty (some s) = s

abbrev none_zone : String → String
none_zone zone = if str_eq zone "None" then "" else zone

-- `voteChoiceKey` of an entry without an event.
unfoldable pub vote_choice_key : MapSelection → List String
unfolding map_label
vote_choice_key entry =
    map_label entry.map_id
    ∷ (sort_by str_before entry.experiences
        ++ (or_empty entry.lighting ∷ none_zone (or_empty entry.zone_alternator) ∷ []))

-- Equality of two keys.
unfoldable pub same_key : List String → List String → Bool
same_key [] [] = true
same_key (a ∷ as_) (b ∷ bs) = str_eq a b && same_key as_ bs
same_key _ _ = false

abbrev optional : String → Option String → List String
optional name none = []
optional name (some value) =
    if truthy (some value)
    then String.◌++◌ name (String.◌++◌ "=\"" (String.◌++◌ value "\"")) ∷ []
    else []

-- `formatRotation`
unfoldable pub format_rotation : MapSelection → String
unfolding join
format_rotation entry =
    let zone =
      if opt_str_eq entry.zone_alternator (some "None") then none else entry.zone_alternator in
    String.◌++◌ "(" (
      String.◌++◌
        (join "," (
          String.◌++◌ "Map=\"" (String.◌++◌ entry.map_id "\"")
          ∷ String.◌++◌ "Experiences=\"" (String.◌++◌ (join "+" entry.experiences) "\"")
          ∷ (optional "Lighting" entry.lighting ++ optional "ZoneAlternator" zone)))
        ")")
