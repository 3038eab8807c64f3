-- ===== src/Admin/WhitelistLaws.antt =====
-- An edit of src/admin/whitelist-document.ts, read back as a set of IDs.
use uncs_bot.Common.{
  Bool, Bool-cases, List, Option-cases, String, [], ap, arith, eq_iff, false, filter, if◌then◌else◌,
  inl, inr, not, refl, some, str_eq, subst, sym, true, ◌++◌, ◌==◌, ◌∙◌, ◌∷◌, ◌≡◌,
}
use uncs_bot.Community.Presence.{distinct_ids, is_id}
use uncs_bot.Admin.Whitelist.{
  ConfigDocument, LineKind, Located, after_section, configured_ids, edit_located, edit_whitelist,
  from_section, locate, next_ids, read_ids, same_truth, section_of, up_to_section,
}
use uncs_bot.Admin.Lines.{append-is_id, distinct_ids-is_id, filter-is_id, section_count}
use uncs_bot.Admin.Entries.{ReadsBack}
use uncs_bot.Admin.Edited.{edited, edited-configured_ids}

module _ (reads : String → LineKind) where
  -- What a located document is.
  abbrev located : List String → List String → Located
  located lines ids = record {
    lines_before = up_to_section reads lines;
    lines_inside = section_of reads (from_section reads lines);
    lines_after = after_section reads (from_section reads lines);
    located_ids = distinct_ids ids;
  }

  pub locate-some :
      (lines : List String) (found : Located)
      → locate reads lines ≡ some found
      → (section_count reads lines ≡ 1) × ((ids : List String) × (found ≡ located lines ids))
  unfolding locate
  locate-some lines found h = elim (Bool-cases (section_count reads lines == 1)) [
    | inr e ↦ absurd (ground arith)
    | inl e ↦
        elim (Option-cases (read_ids reads (section_of reads (from_section reads lines)) [])) [
          | inl n ↦ absurd (ground arith)
          | inr (ids, s) ↦ (ground arith, (ids, ground arith))
        ]
  ]

  -- An edit that changes something writes the next IDs.
  pub edit_located-changed :
      (lines : List String) (found : Located) (id : String) (add : Bool)
      → locate reads lines ≡ some found
      → same_truth (is_id found.located_ids id) add ≡ false
      → edit_located reads found lines id add
        ≡ edited reads lines (next_ids found.located_ids id add)
  unfolding edit_located
  edit_located-changed lines found id add h s =
      let (one, rest) = locate-some lines found h in
      let P : Located → Type 0 = λ f.
        same_truth (is_id f.located_ids id) add ≡ false
        → edit_located reads f lines id add ≡ edited reads lines (next_ids f.located_ids id add) in
      subst P (sym rest.1) (λ t. rw (t, edit_located) refl) s

  pub edit_whitelist-located :
      (document : ConfigDocument) (id : String) (add : Bool) (result : List String)
      → edit_whitelist reads document id add ≡ some result
      → (found : Located) × ((locate reads document.document_lines ≡ some found)
          × (result ≡ edit_located reads found document.document_lines id add))
  unfolding edit_whitelist
  edit_whitelist-located document id add result h =
      elim (Option-cases (locate reads document.document_lines)) [
        | inl n ↦ absurd (ground arith)
        | inr (found, s) ↦ (found, (s, ground arith))
      ]

  -- The IDs after an edit, as a set.
  abbrev pub EditsSet : List String → String → Bool → List String → Type 0
  EditsSet ids id add after =
      (x : String) → is_id after x ≡ (if str_eq x id then add else is_id ids x)

  next_ids-EditsSet :
      (ids : List String) (id : String) (add : Bool)
      → EditsSet ids id add (distinct_ids (next_ids ids id add))
  next_ids-EditsSet ids id true x =
      let a = distinct_ids-is_id x (ids ++ (id ∷ [])) in
      let b = append-is_id x id ids in ground arith
  next_ids-EditsSet ids id false x =
      let a = distinct_ids-is_id x (filter (λ z. not (str_eq z id)) ids) in
      let b = filter-is_id (λ z. not (str_eq z id)) x ids in ground arith

  unchanged-EditsSet :
      (ids : List String) (id : String) (add : Bool)
      → same_truth (is_id ids id) add ≡ true
      → EditsSet ids id add ids
  unchanged-EditsSet ids id add h x = elim (Bool-cases (str_eq x id)) [
    | inl e ↦
        let same : x ≡ id = ground (arith, eq_iff x id) in
        let agree : is_id ids x ≡ is_id ids id = ap (is_id ids) same in ground arith
    | inr e ↦ ground arith
  ]

  pub configured_ids-some :
      (lines : List String) (found : Located)
      → locate reads lines ≡ some found
      → configured_ids reads lines ≡ some found.located_ids
  configured_ids-some lines found h = rw (h, configured_ids) refl

  pub edit_located-same :
      (lines : List String) (found : Located) (id : String) (add : Bool)
      → same_truth (is_id found.located_ids id) add ≡ true
      → edit_located reads found lines id add ≡ lines
  unfolding edit_located
  edit_located-same lines found id add s = rw (s, edit_located) refl

  -- An edit that does not fail reads back as the document's set of IDs with the one ID added or removed, if the
  -- lines written for the next IDs read as the entries that they are.
  pub edit_whitelist-EditsSet :
      (document : ConfigDocument) (id : String) (add : Bool) (ids result : List String)
      → edit_whitelist reads document id add ≡ some result
      → configured_ids reads document.document_lines ≡ some ids
      → ReadsBack reads (next_ids ids id add)
      → (after : List String) × ((configured_ids reads result ≡ some after)
          × EditsSet ids id add after)
  edit_whitelist-EditsSet document id add ids result h c back =
      let (found, parts) = edit_whitelist-located document id add result h in
      let lines = document.document_lines in
      let known : some found.located_ids ≡ some ids =
        sym (configured_ids-some lines found parts.0) ∙ c in
      let these : found.located_ids ≡ ids = ground arith in
      elim (Bool-cases (same_truth (is_id found.located_ids id) add)) [
        | inl e ↦
            let kept : result ≡ lines = parts.1 ∙ edit_located-same lines found id add e in
            (
              ids,
              (
                subst (λ r. configured_ids reads r ≡ some ids) (sym kept) c,
                unchanged-EditsSet ids id add
                    (subst (λ x. same_truth (is_id x id) add ≡ true) these e),
              ),
            )
        | inr e ↦
            let next = next_ids ids id add in
            let changed : result ≡ edited reads lines next =
              subst (λ x. result ≡ edited reads lines (next_ids x id add)) these
                (parts.1 ∙ edit_located-changed lines found id add parts.0 e) in
            let one = (locate-some lines found parts.0).0 in
            (
              distinct_ids next,
              (
                subst (λ r. configured_ids reads r ≡ some (distinct_ids next)) (sym changed)
                    (edited-configured_ids reads lines next one back),
                next_ids-EditsSet ids id add,
              ),
            )
      ]
