-- ===== src/Admin/Edited.antt =====
-- An edited document of src/admin/whitelist-document.ts has one section, and the written IDs.
use uncs_bot.Common.{
  Bool-cases, List, String, [], ap, arith, inl, inr, refl, some, true, ◌++◌, ◌==◌, ◌∙◌, ◌∷◌, ◌≡◌,
}
use uncs_bot.Community.Presence.{distinct_ids}
use uncs_bot.Admin.Whitelist.{
  LineKind, after_section, configured_ids, from_section, is_header, is_section, locate, read_ids,
  replace_entries, section_of, up_to_section, written_lines,
}
use uncs_bot.Admin.Lines.{
  from_section-append, section_count, section_count-NoHeader, section_count-append,
  section_of-NoHeader, section_of-append,
}
use uncs_bot.Admin.Entries.{ReadsBack, read_ids-replaced, replaced-NoHeader}

module _ (reads : String → LineKind) where
  from_section-count :
      (lines : List String)
      → section_count reads lines ≡ 1
      → section_count reads (from_section reads lines) ≡ 0
  unfolding from_section
  from_section-count [] h = absurd (ground arith)
  from_section-count (x ∷ lines) h = elim (Bool-cases (is_section (reads x))) [
    | inl e ↦ rw (e, from_section) (ground arith)
    | inr e ↦
        let rest : section_count reads lines ≡ 1 = ground arith in
        rw (e, from_section) (from_section-count lines rest)
  ]

  up_to_section-count :
      (lines : List String)
      → section_count reads lines ≡ 1
      → section_count reads (up_to_section reads lines) ≡ 1
  unfolding up_to_section
  up_to_section-count [] h = absurd (ground arith)
  up_to_section-count (x ∷ lines) h = elim (Bool-cases (is_section (reads x))) [
    | inl e ↦ rw (e, up_to_section) (ground arith)
    | inr e ↦
        let rest : section_count reads lines ≡ 1 = ground arith in
        let more = up_to_section-count lines rest in rw (e, up_to_section) (ground arith)
  ]

  after_section-count :
      (lines : List String)
      → section_count reads lines ≡ 0
      → section_count reads (after_section reads lines) ≡ 0
  unfolding after_section
  after_section-count [] h = refl
  after_section-count (x ∷ lines) h = elim (Bool-cases (is_header (reads x))) [
    | inl e ↦ rw (e, after_section) h
    | inr e ↦
        let rest : section_count reads lines ≡ 0 = ground arith in
        rw (e, after_section) (after_section-count lines rest)
  ]

  -- The lines of an edited document.
  abbrev pub edited : List String → List String → List String
  edited lines ids =
      let found = from_section reads lines in
      up_to_section reads lines
      ++ (replace_entries reads (written_lines ids) (section_of reads found)
          ++ after_section reads found)

  edited-count :
      (lines ids : List String)
      → section_count reads lines ≡ 1
      → ReadsBack reads ids
      → section_count reads (edited lines ids) ≡ 1
  edited-count lines ids one h =
      let found = from_section reads lines in
      let inside = replace_entries reads (written_lines ids) (section_of reads found) in
      let first = up_to_section-count lines one in
      let last = after_section-count found (from_section-count lines one) in
      let middle = section_count-NoHeader reads inside (
        replaced-NoHeader reads (section_of reads found) ids h (section_of-NoHeader reads found)) in
      let whole =
        section_count-append reads (up_to_section reads lines)
          (inside ++ after_section reads found) in
      let part = section_count-append reads inside (after_section reads found) in omega arith

  configured_of :
      (lines ids : List String)
      → section_count reads lines ≡ 1
      → read_ids reads (section_of reads (from_section reads lines)) [] ≡ some ids
      → configured_ids reads lines ≡ some (distinct_ids ids)
  unfolding locate
  configured_of lines ids one h =
      let count : section_count reads lines == 1 ≡ true = ground arith in
      rw (count, h, configured_ids, locate) refl

  -- The edited document has the written IDs.
  pub edited-configured_ids :
      (lines ids : List String)
      → section_count reads lines ≡ 1
      → ReadsBack reads ids
      → configured_ids reads (edited lines ids) ≡ some (distinct_ids ids)
  edited-configured_ids lines ids one h =
      let found = from_section reads lines in
      let inside = replace_entries reads (written_lines ids) (section_of reads found) in
      let body : section_of reads (from_section reads (edited lines ids)) ≡ inside =
        ap (section_of reads)
          (from_section-append reads lines (inside ++ after_section reads found) one)
        ∙ section_of-append reads inside found (
            replaced-NoHeader reads (section_of reads found) ids h
              (section_of-NoHeader reads found)) in
      let values : read_ids reads (section_of reads (from_section reads (edited lines ids))) []
          ≡ some ids =
        ap (λ b. read_ids reads b []) body
        ∙ read_ids-replaced reads (section_of reads found) ids [] h in
      configured_of (edited lines ids) ids (edited-count lines ids one h) values
