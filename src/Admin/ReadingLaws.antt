-- ===== src/Admin/ReadingLaws.antt =====
-- The lines that src/admin/whitelist-document.ts writes, as its expressions read them.
use Prim.Native.Char.{code}
use uncs_bot.Common.{
  Bool, Bool-cases, Option, Option-cases, String, ap, arith, false, if_keeps, inl, inr, is_some,
  none, not, refl, some, subst, true, ℕ, ◌&&◌, ◌*◌, ◌+◌, ◌-◌, ◌∙◌, ◌≡◌,
}
use uncs_bot.Admin.Whitelist.{
  LineKind, Operator, add_text, clear, clear_entry, clear_text, dot, id_entry,
}
use uncs_bot.Admin.Reading.{
  opens_section, after_digits, after_key, after_text, all_spaces, digits_of, ends_line, entry_kind,
  is_digit, is_empty, is_space, names_section, operator_of, quoted_value, read_entry, read_line,
  read_value, skip_spaces, value_of,
}
use uncs_bot.Supporters.SteamId.{digits_value, is_public_individual_steam_id}

and_parts : (a b : Bool) → a && b ≡ true → (a ≡ true) × (b ≡ true)
and_parts a b h = (ground arith, ground arith)

pub clear_text-reads : read_line clear_text ≡ clear_entry clear
unfolding read_line names_section read_entry operator_of after_key read_value quoted_value value_of
    ends_line skip_spaces after_text digits_of after_digits all_spaces is_space
clear_text-reads = refl

-- Only digits.
unfoldable pub all_digits : String → Bool
all_digits String.[] = true
all_digits (String.◌∷◌ c s) = is_digit (code c) && all_digits s

abbrev pub is_number : String → Bool
is_number s = not (is_empty s) && all_digits s

add_text-reads_value : (id : String) → read_line (add_text id) ≡ read_value dot id
unfolding read_line names_section read_entry operator_of after_key skip_spaces after_text all_spaces
    is_space
add_text-reads_value id = refl

all_digits-digits_of : (s : String) → all_digits s ≡ true → digits_of s ≡ s
unfolding digits_of all_digits
all_digits-digits_of String.[] h = refl
all_digits-digits_of (String.◌∷◌ c s) h =
    let (d, rest) = and_parts (is_digit (code c)) (all_digits s) h in
    rw d (ap (λ t. String.◌∷◌ c t) (all_digits-digits_of s rest))

all_digits-after_digits : (s : String) → all_digits s ≡ true → after_digits s ≡ String.[]
unfolding after_digits all_digits
all_digits-after_digits String.[] h = refl
all_digits-after_digits (String.◌∷◌ c s) h =
    let (d, rest) = and_parts (is_digit (code c)) (all_digits s) h in
    rw d (all_digits-after_digits s rest)

digits_of-all_digits : (s : String) → all_digits (digits_of s) ≡ true
unfolding digits_of all_digits
digits_of-all_digits String.[] = refl
digits_of-all_digits (String.◌∷◌ c s) = elim (Bool-cases (is_digit (code c))) [
  | inl d ↦ let rest = digits_of-all_digits s in rw d (ground arith)
  | inr d ↦ rw (d, all_digits) refl
]

-- A digit is no space, and no quotation mark.
digit-not_space : (c : ℕ) → is_digit c ≡ true → is_space c ≡ false
unfolding is_space
digit-not_space c d = ground arith

skip_spaces-number : (id : String) → is_number id ≡ true → skip_spaces id ≡ id
unfolding skip_spaces all_digits
skip_spaces-number String.[] h = refl
skip_spaces-number (String.◌∷◌ c s) h =
    let (d, rest) = and_parts (is_digit (code c)) (all_digits s) h in
    rw (digit-not_space (code c) d) refl

after_quote-number : (id : String) → is_number id ≡ true → after_text "\"" id ≡ none
unfolding after_text all_digits
after_quote-number String.[] h = refl
after_quote-number (String.◌∷◌ c s) h =
    let (d, rest) = and_parts (is_digit (code c)) (all_digits s) h in ground arith

value_of-digits : (id : String) → is_number id ≡ true → value_of id ≡ some (some id, String.[])
unfolding value_of
value_of-digits id h =
    let (full, digits) = and_parts (not (is_empty id)) (all_digits id) h in
    let filled : is_empty id ≡ false = ground arith in
    rw (all_digits-digits_of id digits, all_digits-after_digits id digits, filled) refl

quoted_value-digits :
    (id : String) → is_number id ≡ true → quoted_value id ≡ some (some id, String.[])
unfolding quoted_value
quoted_value-digits id h = rw (quoted_value, after_quote-number id h, value_of-digits id h) refl

read_value-digits : (id : String) → is_number id ≡ true → read_value dot id ≡ id_entry dot id
unfolding read_value ends_line skip_spaces
read_value-digits id h = rw (read_value, skip_spaces-number id h, quoted_value-digits id h) refl

-- What is written for an ID reads as the entry that adds it.
pub add_text-reads : (id : String) → is_number id ≡ true → read_line (add_text id) ≡ id_entry dot id
add_text-reads id h = add_text-reads_value id ∙ read_value-digits id h

-- A valid SteamID is a number.
digits_value-digits :
    (n acc : ℕ) (s : String) → is_some (digits_value n acc s) ≡ true → all_digits s ≡ true
unfolding digits_value all_digits
digits_value-digits n acc String.[] h = refl
digits_value-digits n acc (String.◌∷◌ c s) h =
    ground (arith, digits_value-digits (n - 1) (acc * 10 + (code c - b'0')) s)

pub steam_id-is_number :
    (id : String) → is_public_individual_steam_id (some id) ≡ true → is_number id ≡ true
unfolding is_public_individual_steam_id all_digits
steam_id-is_number String.[] h = absurd (cc)
steam_id-is_number (String.◌∷◌ c s) h = elim (Option-cases (digits_value 17 0 (String.◌∷◌ c s))) [
  | inl n ↦ absurd (ground arith)
  | inr (value, e) ↦ digits_value-digits 17 0 (String.◌∷◌ c s) (rw e refl)
]

-- What the entries of a document carry are numbers.
abbrev number_value : Option String → Bool
number_value none = true
number_value (some value) = is_number value

abbrev number_found : Option (Option String × String) → Bool
number_found none = true
number_found (some found) = number_value found.0

abbrev pub number_entry : LineKind → Bool
number_entry (id_entry operator value) = is_number value
number_entry _ = true

value_of-number : (s : String) → number_found (value_of s) ≡ true
unfolding value_of
value_of-number s =
    let digits = digits_of-all_digits s in
    elim (Bool-cases (is_empty (digits_of s))) [
      | inr e ↦ rw e (ground arith)
      | inl e ↦ elim (Option-cases (after_text "cleararray" s)) [
        | inl n ↦ rw (e, n) refl
        | inr (rest, n) ↦ rw (e, n) refl
      ]
    ]

quoted_value-number : (s : String) → number_found (quoted_value s) ≡ true
unfolding quoted_value
quoted_value-number s = elim (Option-cases (after_text "\"" s)) [
  | inl n ↦ rw (n, number_found) (value_of-number s)
  | inr (inner, n) ↦
      let number = value_of-number inner in
      elim (Option-cases (value_of inner)) [
        | inl m ↦ rw (n, m, number_found) refl
        | inr (found, m) ↦
            let kept : number_found (some found) ≡ true =
              subst (λ o. number_found o ≡ true) m number in
            elim (Option-cases (after_text "\"" found.1)) [
              | inl l ↦ rw (n, m, l, number_found) refl
              | inr (rest, l) ↦ rw (n, m, l, number_found) kept
            ]
      ]
]

entry_kind-number :
    (operator : Operator) (value : Option String)
    → number_value value ≡ true
    → number_entry (entry_kind operator value) ≡ true
entry_kind-number operator none h = refl
entry_kind-number operator (some value) h = h

read_value-number_entry :
    (operator : Operator) (s : String) → number_entry (read_value operator s) ≡ true
unfolding read_value
read_value-number_entry operator s =
    let number = quoted_value-number (skip_spaces s) in
    elim (Option-cases (quoted_value (skip_spaces s))) [
      | inl n ↦ rw (n, number_entry) refl
      | inr (found, n) ↦
          let kept : number_value found.0 ≡ true = subst (λ o. number_found o ≡ true) n number in
          elim (Bool-cases (ends_line found.1)) [
            | inl e ↦ rw (n, e, number_entry) (entry_kind-number operator found.0 kept)
            | inr e ↦ rw (n, e, number_entry) refl
          ]
    ]

pub read_line-number_entry : (line : String) → number_entry (read_line line) ≡ true
unfolding read_line read_entry
read_line-number_entry line =
    let Q : LineKind → Type 0 = λ kind. number_entry kind ≡ true in
    if_keeps Q (names_section line) _ _ (λ e. refl)
      (λ e.
        if_keeps Q (opens_section line) _ _ (λ f. refl)
          (λ f. elim (Option-cases (after_key (operator_of (skip_spaces line)).1)) [
            | inl n ↦ rw (n, number_entry) refl
            | inr (rest, n) ↦
                rw (n, number_entry)
                  (read_value-number_entry (operator_of (skip_spaces line)).0 rest)
          ]))
