-- ===== src/Admin/Entries.antt =====
-- The entries of the whitelist in src/admin/whitelist-document.ts: what the written ones read as.
use mathlib.Core.List.{append_assoc, append-nil}
use uncs_bot.Common.{
  All, All-map, Bool-cases, List, Option-cases, String, [], ap, append-All, arith, false, filter,
  filter-All, filter-keeps, inl, inr, map, not, or_else, refl, some, sym, true, ◌++◌, ◌∙◌, ◌∷◌, ◌≡◌,
}
use uncs_bot.Admin.Whitelist.{
  LineKind, add_text, apply_entry, clear, clear_entry, clear_text, dot, id_entry, is_entry,
  is_header, read_ids, replace_entries, written_lines,
}
use uncs_bot.Admin.Lines.{NoEntry, NoHeader}

module _ (reads : String → LineKind) where
  -- Lines that are no entries change nothing in a read.
  apply_entry-other :
      (kind : LineKind) (ids : List String)
      → is_entry kind ≡ false
      → apply_entry kind ids ≡ some ids
  unfolding apply_entry
  apply_entry-other kind ids h = ground arith

  read_ids-NoEntry :
      (lines ids : List String) → NoEntry reads lines → read_ids reads lines ids ≡ some ids
  unfolding read_ids
  read_ids-NoEntry [] ids h = refl
  read_ids-NoEntry (x ∷ lines) ids (f, h) =
      rw (apply_entry-other (reads x) ids f, read_ids) (read_ids-NoEntry lines ids h)

  read_ids-append :
      (xs ys ids mid : List String)
      → read_ids reads xs ids ≡ some mid
      → read_ids reads (xs ++ ys) ids ≡ read_ids reads ys mid
  unfolding read_ids
  read_ids-append [] ys ids mid h = ap (λ o. read_ids reads ys (or_else o [])) h
  read_ids-append (x ∷ xs) ys ids mid h = elim (Option-cases (apply_entry (reads x) ids)) [
    | inl n ↦ absurd (ground arith)
    | inr (next, s) ↦
        let rest : read_ids reads xs next ≡ some mid = ground arith in
        rw (s, read_ids) (read_ids-append xs ys next mid rest)
  ]

  -- The written lines read as the entries that they are.
  abbrev pub ReadsBack : List String → Type 0
  ReadsBack ids =
      (reads clear_text ≡ clear_entry clear) × All (λ id. reads (add_text id) ≡ id_entry dot id) ids

  read_ids-adds :
      (ids before : List String)
      → All (λ id. reads (add_text id) ≡ id_entry dot id) ids
      → read_ids reads (map add_text ids) before ≡ some (before ++ ids)
  unfolding read_ids apply_entry
  read_ids-adds [] before h = ap some (sym (append-nil before))
  read_ids-adds (id ∷ ids) before (e, h) =
      rw (e, read_ids, apply_entry)
        (read_ids-adds ids (before ++ (id ∷ [])) h ∙ ap some (append_assoc before (id ∷ []) ids))

  read_ids-written :
      (ids before : List String)
      → ReadsBack ids
      → read_ids reads (written_lines ids) before ≡ some ids
  unfolding read_ids apply_entry
  read_ids-written ids before (c, h) = rw (c, read_ids, apply_entry) (read_ids-adds ids [] h)

  not_entries : (lines : List String) → NoEntry reads (filter (λ l. not (is_entry (reads l))) lines)
  not_entries lines =
      All-map (λ l. not (is_entry (reads l)) ≡ true) (λ l. is_entry (reads l) ≡ false)
        (λ l h. ground arith) _ (filter-All (λ l. not (is_entry (reads l))) lines)

  pub read_ids-replaced :
      (lines ids before : List String)
      → ReadsBack ids
      → read_ids reads (replace_entries reads (written_lines ids) lines) before ≡ some ids
  unfolding replace_entries
  read_ids-replaced [] ids before h = read_ids-written ids before h
  read_ids-replaced (x ∷ lines) ids before h = elim (Bool-cases (is_entry (reads x))) [
    | inl e ↦
        rw (e, replace_entries)
          (read_ids-append (written_lines ids) _ before ids (read_ids-written ids before h)
            ∙ read_ids-NoEntry _ ids (not_entries lines))
    | inr e ↦
        rw (e, replace_entries)
          (read_ids-append (x ∷ []) _ before before (read_ids-NoEntry (x ∷ []) before (e, tt))
            ∙ read_ids-replaced lines ids before h)
  ]

  adds-NoHeader :
      (ids : List String)
      → All (λ id. reads (add_text id) ≡ id_entry dot id) ids
      → NoHeader reads (map add_text ids)
  adds-NoHeader [] h = tt
  adds-NoHeader (id ∷ ids) (e, h) = (ap is_header e, adds-NoHeader ids h)

  pub replaced-NoHeader :
      (lines ids : List String)
      → ReadsBack ids
      → NoHeader reads lines
      → NoHeader reads (replace_entries reads (written_lines ids) lines)
  unfolding replace_entries
  replaced-NoHeader [] ids (c, h) n = (ap is_header c, adds-NoHeader ids h)
  replaced-NoHeader (x ∷ lines) ids (c, h) (f, n) = elim (Bool-cases (is_entry (reads x))) [
    | inl e ↦
        rw (e, replace_entries)
          (
            ap is_header c,
            append-All (λ line. is_header (reads line) ≡ false) (map add_text ids) _
                (adds-NoHeader ids h)
                (filter-keeps (λ line. is_header (reads line) ≡ false) _ lines n),
          )
    | inr e ↦ rw (e, replace_entries) (f, replaced-NoHeader lines ids (c, h) n)
  ]
