-- ===== src/Admin/Saved.antt =====
-- An edit of src/admin/whitelist-document.ts, its lines read by the expressions of that file.
use uncs_bot.Common.{
  All, All-map, Bool, Bool-cases, List, Option-cases, String, [], append-All, arith, false,
  filter-keeps, inl, inr, not, some, str_eq, subst, true, ◌∷◌, ◌≡◌,
}
use uncs_bot.Community.Presence.{distinct_ids, is_id}
use uncs_bot.Supporters.SteamId.{is_public_individual_steam_id}
use uncs_bot.Admin.Whitelist.{
  ConfigDocument, LineKind, Located, add_text, apply_entry, assign, bad_entry, clear, clear_entry,
  configured_ids, dot, edit_whitelist, from_section, id_entry, locate, minus, next_ids, plus,
  read_ids, section_of,
}
use uncs_bot.Admin.Reading.{read_line}
use uncs_bot.Admin.ReadingLaws.{
  add_text-reads, clear_text-reads, is_number, number_entry, read_line-number_entry,
  steam_id-is_number,
}
use uncs_bot.Admin.WhitelistLaws.{
  EditsSet, configured_ids-some, edit_whitelist-EditsSet, edit_whitelist-located,
}

abbrev IsNumber : String → Type 0
IsNumber id = is_number id ≡ true

apply_entry-IsNumber :
    (kind : LineKind) (ids next : List String)
    → number_entry kind ≡ true
    → All IsNumber ids
    → apply_entry kind ids ≡ some next
    → All IsNumber next
unfolding apply_entry
apply_entry-IsNumber (id_entry plus value) ids next n h e = elim (Bool-cases (is_id ids value)) [
  | inl there ↦ subst (All IsNumber) (ground arith) h
  | inr new ↦ subst (All IsNumber) (ground arith) (append-All IsNumber ids (value ∷ []) h (n, tt))
]
apply_entry-IsNumber (id_entry dot value) ids next n h e =
    subst (All IsNumber) (ground arith) (append-All IsNumber ids (value ∷ []) h (n, tt))
apply_entry-IsNumber (id_entry clear value) ids next n h e = absurd (cc)
apply_entry-IsNumber (id_entry minus value) ids next n h e =
    subst (All IsNumber) (ground arith) (filter-keeps IsNumber (λ id. not (str_eq id value)) ids h)
apply_entry-IsNumber (id_entry assign value) ids next n h e =
    let same : value ∷ [] ≡ next = ground arith in subst (All IsNumber) same (n, tt)
apply_entry-IsNumber bad_entry ids next n h e = absurd (cc)
apply_entry-IsNumber (clear_entry clear) ids next n h e =
    let same : [] ≡ next = ground arith in subst (All IsNumber) same tt
apply_entry-IsNumber (clear_entry plus) ids next n h e = absurd (cc)
apply_entry-IsNumber (clear_entry dot) ids next n h e = absurd (cc)
apply_entry-IsNumber (clear_entry minus) ids next n h e = absurd (cc)
apply_entry-IsNumber (clear_entry assign) ids next n h e = absurd (cc)
apply_entry-IsNumber kind ids next n h e = subst (All IsNumber) (ground arith) h

-- The IDs of a document are numbers.
read_ids-IsNumber :
    (lines ids all_ids : List String)
    → All IsNumber ids
    → read_ids read_line lines ids ≡ some all_ids
    → All IsNumber all_ids
unfolding read_ids
read_ids-IsNumber [] ids all_ids h e = subst (All IsNumber) (ground arith) h
read_ids-IsNumber (x ∷ lines) ids all_ids h e =
    elim (Option-cases (apply_entry (read_line x) ids)) [
      | inl n ↦ absurd (ground arith)
      | inr (next, s) ↦
          let rest : read_ids read_line lines next ≡ some all_ids = ground arith in
          read_ids-IsNumber lines next all_ids
            (apply_entry-IsNumber (read_line x) ids next (read_line-number_entry x) h s) rest
    ]

distinct_ids-IsNumber : (ids : List String) → All IsNumber ids → All IsNumber (distinct_ids ids)
unfolding distinct_ids
distinct_ids-IsNumber [] h = tt
distinct_ids-IsNumber (id ∷ ids) (n, h) =
    (n, filter-keeps IsNumber (λ x. not (str_eq id x)) _ (distinct_ids-IsNumber ids h))

next_ids-IsNumber :
    (ids : List String) (id : String) (add : Bool)
    → All IsNumber ids
    → IsNumber id
    → All IsNumber (next_ids ids id add)
next_ids-IsNumber ids id true h n = append-All IsNumber ids (id ∷ []) h (n, tt)
next_ids-IsNumber ids id false h n = filter-keeps IsNumber (λ x. not (str_eq x id)) ids h

locate-IsNumber :
    (lines : List String) (found : Located)
    → locate read_line lines ≡ some found
    → All IsNumber found.located_ids
unfolding locate
locate-IsNumber lines found h =
    let section = section_of read_line (from_section read_line lines) in
    elim (Option-cases (read_ids read_line section [])) [
      | inl n ↦ absurd (ground arith)
      | inr (ids, s) ↦
          let same : distinct_ids ids ≡ found.located_ids = ground arith in
          subst (All IsNumber) same
            (distinct_ids-IsNumber ids (read_ids-IsNumber section [] ids tt s))
    ]

edit_whitelist-public :
    (document : ConfigDocument) (id : String) (add : Bool) (result : List String)
    → edit_whitelist read_line document id add ≡ some result
    → is_public_individual_steam_id (some id) ≡ true
unfolding edit_whitelist
edit_whitelist-public document id add result h = ground arith

-- An edit that does not fail is of a document whose whitelist can be read, and gives one whose whitelist
-- reads as the same set of IDs but for the edited one, which is in it exactly if it was added.
pub edit_whitelist-saves :
    (document : ConfigDocument) (id : String) (add : Bool) (result : List String)
    → edit_whitelist read_line document id add ≡ some result
    → (before : List String) × ((configured_ids read_line document.document_lines ≡ some before)
        × ((after : List String) × ((configured_ids read_line result ≡ some after)
              × EditsSet read_line before id add after)))
edit_whitelist-saves document id add result h =
    let (found, parts) = edit_whitelist-located read_line document id add result h in
    let known = configured_ids-some read_line document.document_lines found parts.0 in
    let numbers =
      next_ids-IsNumber found.located_ids id add
        (locate-IsNumber document.document_lines found parts.0)
        (steam_id-is_number id (edit_whitelist-public document id add result h)) in
    (
      found.located_ids,
      (
        known,
        edit_whitelist-EditsSet read_line document id add found.located_ids result h known (
          clear_text-reads,
          All-map IsNumber (λ x. read_line (add_text x) ≡ id_entry dot x) add_text-reads _ numbers,
        ),
      ),
    )
