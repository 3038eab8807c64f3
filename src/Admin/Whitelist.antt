-- ===== src/Admin/Whitelist.antt =====
-- src/admin/whitelist-document.ts on the lines of a document. What the regular expressions make of one
-- line is the parameter `reads`, and stands in Reading; the lines of the section are taken as lists where
-- the source keeps indexes, and a result is none where the source throws.
use uncs_bot.Common.{
  Bool, List, Option, String, [], false, filter, if◌then◌else◌, length, map, none, not, some,
  str_eq, true, ◌++◌, ◌==◌, ◌||◌, ◌∷◌,
}
use uncs_bot.Supporters.SteamId.{is_public_individual_steam_id}
use uncs_bot.Community.Presence.{distinct_ids, is_id}

pub data Operator : Type 0 where
  plus dot clear minus assign : Operator

-- A line: the header of the whitelist's section, another header, an entry of the array (with the value
-- ClearArray or a numeric one), an entry in a format that is not supported, or anything else.
pub data LineKind : Type 0 where
  section_line header_line bad_entry other_line : LineKind
  clear_entry : Operator → LineKind
  id_entry : Operator → String → LineKind

-- The document around its one section: the lines before, the section's own and those after.
pub record Located : Type 0 where
  pub lines_before : List String
  pub lines_inside : List String
  pub lines_after : List String
  pub located_ids : List String

pub record KeyOverride : Type 0 where
  pub override_writable : Option Bool
  pub is_locked : Bool

-- The permissions of the whitelist's section: whether the key is among the allowed ones, if those are listed.
pub record SectionRules : Type 0 where
  pub section_writable : Option Bool
  pub key_override : Option KeyOverride
  pub key_allowed : Option Bool

-- A document is redacted where the game says so or its text shows it.
pub record ConfigDocument : Type 0 where
  pub writable : Bool
  pub redacted : Bool
  pub section_rules : Option SectionRules
  pub document_lines : List String

abbrev is_false : Option Bool → Bool
is_false none = false
is_false (some b) = not b

abbrev override_locks : Option KeyOverride → Bool
override_locks none = false
override_locks (some override) = is_false override.override_writable || override.is_locked

abbrev pub host_locks : Option SectionRules → Bool
host_locks none = false
host_locks (some rules) =
    is_false rules.section_writable
    || override_locks rules.key_override
    || is_false rules.key_allowed

-- One entry of the array.
unfoldable pub apply_entry : LineKind → List String → Option (List String)
apply_entry bad_entry ids = none
apply_entry (clear_entry clear) ids = some []
apply_entry (clear_entry _) ids = none
apply_entry (id_entry clear value) ids = none
apply_entry (id_entry minus value) ids = some (filter (λ id. not (str_eq id value)) ids)
apply_entry (id_entry assign value) ids = some (value ∷ [])
apply_entry (id_entry dot value) ids = some (ids ++ (value ∷ []))
apply_entry (id_entry plus value) ids = some (if is_id ids value then ids else ids ++ (value ∷ []))
apply_entry _ ids = some ids

abbrev pub is_section : LineKind → Bool
is_section section_line = true
is_section _ = false

abbrev pub is_header : LineKind → Bool
is_header section_line = true
is_header header_line = true
is_header _ = false

abbrev pub is_entry : LineKind → Bool
is_entry bad_entry = true
is_entry (clear_entry operator) = true
is_entry (id_entry operator value) = true
is_entry _ = false

abbrev pub same_truth : Bool → Bool → Bool
same_truth true b = b
same_truth false b = not b

abbrev pub clear_text : String
clear_text = "!DefaultReservedPlayerIds=ClearArray"

-- One text after another.
abbrev then_text : String → String → String
then_text String.[] after = after
then_text (String.◌∷◌ c text) after = String.◌∷◌ c (then_text text after)

abbrev pub add_text : String → String
add_text id = then_text ".DefaultReservedPlayerIds=" id

abbrev pub written_lines : List String → List String
written_lines ids = clear_text ∷ map add_text ids

abbrev pub next_ids : List String → String → Bool → List String
next_ids ids id true = ids ++ (id ∷ [])
next_ids ids id false = filter (λ x. not (str_eq x id)) ids

module _ (reads : String → LineKind) where
  -- The entries of the section, in their order.
  unfoldable pub read_ids : List String → List String → Option (List String)
  read_ids [] ids = some ids
  read_ids (line ∷ lines) ids = elim (apply_entry (reads line) ids) [
    | none ↦ none
    | some next ↦ read_ids lines next
  ]

  -- The lines up to the next header, and from it on.
  unfoldable pub section_of : List String → List String
  section_of [] = []
  section_of (line ∷ lines) =
      let rest = section_of lines in if is_header (reads line) then [] else line ∷ rest

  unfoldable pub after_section : List String → List String
  after_section [] = []
  after_section (line ∷ lines) =
      let rest = after_section lines in if is_header (reads line) then line ∷ lines else rest

  unfoldable pub up_to_section : List String → List String
  up_to_section [] = []
  up_to_section (line ∷ lines) =
      let rest = up_to_section lines in if is_section (reads line) then line ∷ [] else line ∷ rest

  unfoldable pub from_section : List String → List String
  from_section [] = []
  from_section (line ∷ lines) =
      let rest = from_section lines in if is_section (reads line) then lines else rest

  -- `locate`, with IDs that need not be valid.
  unfoldable pub locate : List String → Option Located
  locate lines =
      let found = from_section lines in
      if not (length (filter (λ line. is_section (reads line)) lines) == 1)
      then none
      else elim (read_ids (section_of found) []) [
        | none ↦ none
        | some ids ↦ some record {
          lines_before = up_to_section lines;
          lines_inside = section_of found;
          lines_after = after_section found;
          located_ids = distinct_ids ids;
        }
      ]

  -- The section with its entries replaced by those written, at the place of the first entry.
  unfoldable pub replace_entries : List String → List String → List String
  replace_entries written [] = written
  replace_entries written (line ∷ lines) =
      let rest = replace_entries written lines in
      let others = filter (λ l. not (is_entry (reads l))) lines in
      if is_entry (reads line) then written ++ others else line ∷ rest

  unfoldable pub edit_located : Located → List String → String → Bool → List String
  edit_located found lines id add =
      if same_truth (is_id found.located_ids id) add
      then lines
      else (found.lines_before
          ++ (replace_entries (written_lines (next_ids found.located_ids id add)) found.lines_inside
              ++ found.lines_after))

  -- `editWhitelist`
  unfoldable pub edit_whitelist : ConfigDocument → String → Bool → Option (List String)
  edit_whitelist document id add =
      if not (is_public_individual_steam_id (some id))
      then none
      else if not document.writable
      then none
      else if document.redacted
      then none
      else if host_locks document.section_rules
      then none
      else elim (locate document.document_lines) [
        | none ↦ none
        | some found ↦ some (edit_located found document.document_lines id add)
      ]

  -- `configuredWhitelist` of a document that it reads, without the check of each ID.
  abbrev pub configured_ids : List String → Option (List String)
  configured_ids lines = elim (locate lines) [ none ↦ none | some found ↦ some found.located_ids ]
