-- ===== src/Admin/Lines.antt =====
-- The lines of a document of src/admin/whitelist-document.ts: how they split at the headers.
use uncs_bot.Common.{
  All, Bool, Bool-cases, List, String, [], ap, arith, eq_iff, false, filter, inl, inr, length, not,
  refl, str_eq, ℕ, ◌&&◌, ◌++◌, ◌+◌, ◌||◌, ◌∷◌, ◌≡◌,
}
use uncs_bot.Community.Presence.{distinct_ids, is_id}
use uncs_bot.Admin.Whitelist.{
  LineKind, after_section, from_section, is_entry, is_header, is_section, section_of, up_to_section,
}

module _ {A : Type 0} where
  pub filter-append :
      (p : A → Bool) (xs ys : List A) → filter p (xs ++ ys) ≡ filter p xs ++ filter p ys
  filter-append p [] ys = refl
  filter-append p (x ∷ xs) ys = ground (arith, filter-append p xs ys)

  pub filter-none : (p : A → Bool) (xs : List A) → All (λ x. p x ≡ false) xs → filter p xs ≡ []
  filter-none p [] h = refl
  filter-none p (x ∷ xs) (f, h) = ground (arith, filter-none p xs h)

pub filter-is_id :
    (q : String → Bool) (x : String) (xs : List String) → is_id (filter q xs) x ≡ q x && is_id xs x
filter-is_id q x [] = ground arith
filter-is_id q x (y ∷ xs) = elim (Bool-cases (str_eq x y)) [
  | inl e ↦
      let same : x ≡ y = ground (arith, eq_iff x y) in
      let agree : q x ≡ q y = ap q same in ground (arith, filter-is_id q x xs)
  | inr e ↦ ground (arith, filter-is_id q x xs)
]

pub distinct_ids-is_id : (x : String) (xs : List String) → is_id (distinct_ids xs) x ≡ is_id xs x
unfolding distinct_ids
distinct_ids-is_id x [] = refl
distinct_ids-is_id x (y ∷ xs) =
    let rest = filter-is_id (λ z. not (str_eq y z)) x (distinct_ids xs) in
    ground (arith, eq_iff x y, eq_iff y x, distinct_ids-is_id x xs)

pub append-is_id :
    (x y : String) (xs : List String) → is_id (xs ++ (y ∷ [])) x ≡ is_id xs x || str_eq x y
append-is_id x y [] = ground arith
append-is_id x y (z ∷ xs) = ground (arith, append-is_id x y xs)

module _ (reads : String → LineKind) where
  abbrev pub section_count : List String → ℕ
  section_count lines = length (filter (λ line. is_section (reads line)) lines)

  abbrev pub NoHeader : List String → Type 0
  NoHeader = All (λ line. is_header (reads line) ≡ false)

  abbrev pub NoEntry : List String → Type 0
  NoEntry = All (λ line. is_entry (reads line) ≡ false)

  pub section_count-append :
      (xs ys : List String) → section_count (xs ++ ys) ≡ section_count xs + section_count ys
  section_count-append [] ys = ground arith
  section_count-append (x ∷ xs) ys = ground (arith, section_count-append xs ys)

  no_section : (kind : LineKind) → is_header kind ≡ false → is_section kind ≡ false
  no_section kind h = ground arith

  pub section_count-NoHeader : (xs : List String) → NoHeader xs → section_count xs ≡ 0
  section_count-NoHeader [] h = refl
  section_count-NoHeader (x ∷ xs) (f, h) =
      let g = no_section (reads x) f in ground (arith, section_count-NoHeader xs h)

  pub section_of-NoHeader : (lines : List String) → NoHeader (section_of reads lines)
  unfolding section_of
  section_of-NoHeader [] = tt
  section_of-NoHeader (x ∷ lines) = elim (Bool-cases (is_header (reads x))) [
    | inl e ↦ rw (e, section_of) tt
    | inr e ↦ rw (e, section_of) (e, section_of-NoHeader lines)
  ]

  section_of-after : (lines : List String) → section_of reads (after_section reads lines) ≡ []
  unfolding section_of after_section
  section_of-after [] = refl
  section_of-after (x ∷ lines) = elim (Bool-cases (is_header (reads x))) [
    | inl e ↦ rw (e, after_section) (rw (e, section_of) refl)
    | inr e ↦ rw (e, after_section) (section_of-after lines)
  ]

  pub section_of-append :
      (xs lines : List String)
      → NoHeader xs
      → section_of reads (xs ++ after_section reads lines) ≡ xs
  unfolding section_of
  section_of-append [] lines h = section_of-after lines
  section_of-append (x ∷ xs) lines (f, h) =
      rw (f, section_of) (ap (λ ys. x ∷ ys) (section_of-append xs lines h))

  -- With one section, what follows its header is found again behind the same lines.
  pub from_section-append :
      (lines ys : List String)
      → section_count lines ≡ 1
      → from_section reads (up_to_section reads lines ++ ys) ≡ ys
  unfolding from_section up_to_section
  from_section-append [] ys h = absurd (ground arith)
  from_section-append (x ∷ lines) ys h = elim (Bool-cases (is_section (reads x))) [
    | inl e ↦ rw (e, up_to_section) (rw (e, from_section) refl)
    | inr e ↦
        let rest : section_count lines ≡ 1 = ground arith in
        rw (e, up_to_section) (rw (e, from_section) (from_section-append lines ys rest))
  ]

  pub document-split :
      (lines : List String)
      → section_count lines ≡ 1
      → up_to_section reads lines ++ from_section reads lines ≡ lines
  unfolding from_section up_to_section
  document-split [] h = refl
  document-split (x ∷ lines) h = elim (Bool-cases (is_section (reads x))) [
    | inl e ↦ rw (e, up_to_section, from_section) refl
    | inr e ↦
        let rest : section_count lines ≡ 1 = ground arith in
        rw (e, up_to_section, from_section) (ap (λ ys. x ∷ ys) (document-split lines rest))
  ]

  pub section-split :
      (lines : List String) → section_of reads lines ++ after_section reads lines ≡ lines
  unfolding section_of after_section
  section-split [] = refl
  section-split (x ∷ lines) = elim (Bool-cases (is_header (reads x))) [
    | inl e ↦ rw (e, section_of, after_section) refl
    | inr e ↦ rw (e, section_of, after_section) (ap (λ ys. x ∷ ys) (section-split lines))
  ]
