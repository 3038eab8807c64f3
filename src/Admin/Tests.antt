-- ===== src/Admin/Tests.antt =====
-- Lines as they are read, and a player added to a small document, with the theorems at it.
use uncs_bot.Common.{List, String, [], false, none, refl, some, true, ◌∷◌, ◌≡◌}
use uncs_bot.Community.Presence.{distinct_ids}
use uncs_bot.Supporters.SteamId.{digits_value, is_public_individual_steam_id}
use uncs_bot.Admin.Whitelist.{
  ConfigDocument, add_text, after_section, apply_entry, bad_entry, clear_text, configured_ids,
  edit_located, edit_whitelist, from_section, id_entry, locate, minus, other_line, read_ids,
  replace_entries, section_line, section_of, up_to_section,
}
use uncs_bot.Admin.Reading.{
  opens_section, after_digits, after_key, after_text, all_spaces, digits_of, ends_line, is_space,
  names_section, one_line, operator_of, quoted_value, read_entry, read_line, read_value,
  skip_spaces, value_of,
}
use uncs_bot.Admin.WhitelistLaws.{EditsSet}
use uncs_bot.Admin.Saved.{edit_whitelist-saves}
use uncs_bot.Admin.OtherLines.{edit_whitelist-other_lines, other_lines}

abbrev first_id : String
first_id = "76561197960265730"

abbrev second_id : String
second_id = "76561197960265731"

abbrev small : ConfigDocument
small = record {
  writable = true;
  redacted = false;
  section_rules = none;
  document_lines =
      "MaxPlayers=100"
      ∷ "[/Script/WDGame.WDGameSession]"
      ∷ clear_text
      ∷ add_text first_id
      ∷ "; keep"
      ∷ "[Other]"
      ∷ "A=1"
      ∷ [];
}

abbrev small_added : List String
small_added =
    "MaxPlayers=100"
    ∷ "[/Script/WDGame.WDGameSession]"
    ∷ clear_text
    ∷ add_text first_id
    ∷ add_text second_id
    ∷ "; keep"
    ∷ "[Other]"
    ∷ "A=1"
    ∷ []

edit_small : edit_whitelist read_line small second_id true ≡ some small_added
unfolding read_line names_section opens_section read_entry operator_of after_key read_value
    quoted_value value_of ends_line skip_spaces after_text digits_of after_digits all_spaces
    is_space one_line edit_whitelist edit_located locate replace_entries read_ids apply_entry
    section_of after_section from_section up_to_section distinct_ids is_public_individual_steam_id
    digits_value
edit_small = refl

edit_whitelist-saves_example :
    (before : List String) × ((configured_ids read_line small.document_lines ≡ some before)
      × ((after : List String) × ((configured_ids read_line small_added ≡ some after)
            × EditsSet read_line before second_id true after)))
edit_whitelist-saves_example = edit_whitelist-saves small second_id true small_added edit_small

edit_whitelist-other_lines_example :
    other_lines read_line small_added ≡ other_lines read_line small.document_lines
unfolding read_line names_section opens_section read_entry operator_of after_key read_value
    quoted_value value_of ends_line skip_spaces after_text digits_of after_digits all_spaces
    is_space one_line edit_whitelist edit_located locate replace_entries read_ids apply_entry
    section_of after_section from_section up_to_section distinct_ids is_public_individual_steam_id
    digits_value
edit_whitelist-other_lines_example =
    edit_whitelist-other_lines read_line small second_id true (first_id ∷ []) small_added refl refl
      (refl, (refl, (refl, tt)))

-- Lines of other forms.
other_forms :
    (read_line " [/script/WDGame.wdgamesession] " ≡ section_line)
    × (read_line "-defaultreservedplayerids = \"76\" // gone" ≡ id_entry minus "76")
    × (read_line "DefaultReservedPlayerIds=76 x" ≡ bad_entry)
    × (read_line ";DefaultReservedPlayerIds=76" ≡ other_line)
unfolding read_line names_section opens_section read_entry operator_of after_key read_value
    quoted_value value_of ends_line skip_spaces after_text digits_of after_digits all_spaces
    is_space one_line
other_forms = (refl, refl, refl, refl)
