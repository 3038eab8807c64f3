-- ===== src/Admin/OtherLines.antt =====
-- The lines that an edit of src/admin/whitelist-document.ts keeps.
use uncs_bot.Common.{
  All, Bool, Bool-cases, List, String, [], ap, arith, filter, inl, inr, map, not, refl, some, subst,
  sym, ◌++◌, ◌∙◌, ◌∷◌, ◌≡◌,
}
use uncs_bot.Community.Presence.{is_id}
use uncs_bot.Admin.Whitelist.{
  ConfigDocument, LineKind, add_text, after_section, configured_ids, dot, edit_whitelist,
  from_section, id_entry, is_entry, next_ids, replace_entries, same_truth, section_of,
  up_to_section, written_lines,
}
use uncs_bot.Admin.Lines.{document-split, filter-append, section-split, section_count}
use uncs_bot.Admin.Entries.{ReadsBack}
use uncs_bot.Admin.Edited.{edited}
use uncs_bot.Admin.WhitelistLaws.{
  configured_ids-some, edit_located-changed, edit_located-same, edit_whitelist-located, locate-some,
}

module _ (reads : String → LineKind) where
  -- The lines that are no entries, in their order.
  abbrev pub other_lines : List String → List String
  other_lines lines = filter (λ line. not (is_entry (reads line))) lines

  other_lines-adds :
      (ids : List String)
      → All (λ id. reads (add_text id) ≡ id_entry dot id) ids
      → other_lines (map add_text ids) ≡ []
  other_lines-adds [] h = refl
  other_lines-adds (id ∷ ids) (e, h) = rw e (other_lines-adds ids h)

  other_lines-written :
      (ids rest : List String)
      → ReadsBack reads ids
      → other_lines (written_lines ids ++ rest) ≡ other_lines rest
  other_lines-written ids rest (c, h) = rw c (
      filter-append (λ line. not (is_entry (reads line))) (map add_text ids) rest
      ∙ ap (λ xs. xs ++ other_lines rest) (other_lines-adds ids h))

  other_lines-twice : (lines : List String) → other_lines (other_lines lines) ≡ other_lines lines
  other_lines-twice [] = refl
  other_lines-twice (x ∷ lines) = elim (Bool-cases (is_entry (reads x))) [
    | inl e ↦ rw e (other_lines-twice lines)
    | inr e ↦ rw e (rw e (ap (λ ys. x ∷ ys) (other_lines-twice lines)))
  ]

  other_lines-replaced :
      (lines ids : List String)
      → ReadsBack reads ids
      → other_lines (replace_entries reads (written_lines ids) lines) ≡ other_lines lines
  unfolding replace_entries
  other_lines-replaced [] ids (c, h) = rw c (other_lines-adds ids h)
  other_lines-replaced (x ∷ lines) ids h = elim (Bool-cases (is_entry (reads x))) [
    | inl e ↦
        rw (e, replace_entries)
          (other_lines-written ids (other_lines lines) h ∙ other_lines-twice lines)
    | inr e ↦ rw (e, replace_entries) (rw e (ap (λ ys. x ∷ ys) (other_lines-replaced lines ids h)))
  ]

  other_lines-append :
      (xs ys : List String) → other_lines (xs ++ ys) ≡ other_lines xs ++ other_lines ys
  other_lines-append = filter-append (λ line. not (is_entry (reads line)))

  other_lines-edited :
      (lines ids : List String)
      → section_count reads lines ≡ 1
      → ReadsBack reads ids
      → other_lines (edited reads lines ids) ≡ other_lines lines
  other_lines-edited lines ids one h =
      let found = from_section reads lines in
      let before = up_to_section reads lines in
      let inside = section_of reads found in
      let after = after_section reads found in
      let replaced = replace_entries reads (written_lines ids) inside in
      let same : other_lines (replaced ++ after) ≡ other_lines found =
        other_lines-append replaced after
        ∙ (ap (λ xs. xs ++ other_lines after) (other_lines-replaced inside ids h)
            ∙ (sym (other_lines-append inside after)
                ∙ ap other_lines (section-split reads found))) in
      other_lines-append before (replaced ++ after)
      ∙ (ap (λ xs. other_lines before ++ xs) same
          ∙ (sym (other_lines-append before found)
              ∙ ap other_lines (document-split reads lines one)))

  -- An edit that does not fail keeps every line that is no entry of the array, in its order, if the lines
  -- written for the next IDs read as the entries that they are.
  pub edit_whitelist-other_lines :
      (document : ConfigDocument) (id : String) (add : Bool) (ids result : List String)
      → edit_whitelist reads document id add ≡ some result
      → configured_ids reads document.document_lines ≡ some ids
      → ReadsBack reads (next_ids ids id add)
      → other_lines result ≡ other_lines document.document_lines
  edit_whitelist-other_lines document id add ids result h c back =
      let (found, parts) = edit_whitelist-located reads document id add result h in
      let lines = document.document_lines in
      let known : some found.located_ids ≡ some ids =
        sym (configured_ids-some reads lines found parts.0) ∙ c in
      let these : found.located_ids ≡ ids = ground arith in
      elim (Bool-cases (same_truth (is_id found.located_ids id) add)) [
        | inl e ↦ ap other_lines (parts.1 ∙ edit_located-same reads lines found id add e)
        | inr e ↦
            let next = next_ids ids id add in
            let changed : result ≡ edited reads lines next =
              subst (λ x. result ≡ edited reads lines (next_ids x id add)) these
                (parts.1 ∙ edit_located-changed reads lines found id add parts.0 e) in
            ap other_lines changed
            ∙ other_lines-edited lines next ((locate-some reads lines found parts.0).0) back
      ]
