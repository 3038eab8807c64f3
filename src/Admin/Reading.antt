-- ===== src/Admin/Reading.antt =====
-- What the regular expressions of src/admin/whitelist-document.ts make of one line. A line is a sequence
-- of code points; letter case is folded in ASCII alone, which for these expressions and texts is what the
-- source's rules come to.
use Prim.Native.Char.{code}
use uncs_bot.Common.{
  Bool, Option, String, false, if◌then◌else◌, is_some, leb, none, not, some, true, ℕ, ◌&&◌, ◌+◌,
  ◌==◌, ◌||◌,
}
use uncs_bot.Admin.Whitelist.{
  LineKind, Operator, assign, bad_entry, clear, clear_entry, dot, header_line, id_entry, minus,
  other_line, plus, section_line,
}

-- `\s`, which `trim` drops too.
unfoldable pub is_space : ℕ → Bool
is_space c =
    (leb 9 c && leb c 13)
    || (c == 32
        || (c == 160
            || (c == 5760
                || ((leb 8192 c && leb c 8202)
                    || (c == 8232
                        || (c == 8233
                            || (c == 8239 || (c == 8287 || (c == 12288 || c == 65279)))))))))

-- What `.` does not match.
abbrev is_terminator : ℕ → Bool
is_terminator c = c == 10 || (c == 13 || (c == 8232 || c == 8233))

abbrev pub is_digit : ℕ → Bool
is_digit c = leb b'0' c && leb c b'9'

abbrev lower : ℕ → ℕ
lower c = if leb b'A' c && leb c b'Z' then c + 32 else c

unfoldable pub skip_spaces : String → String
skip_spaces String.[] = String.[]
skip_spaces (String.◌∷◌ c s) =
    let rest = skip_spaces s in if is_space (code c) then rest else String.◌∷◌ c s

unfoldable pub all_spaces : String → Bool
all_spaces String.[] = true
all_spaces (String.◌∷◌ c s) = is_space (code c) && all_spaces s

-- What follows a text, given in lower case.
unfoldable pub after_text : String → String → Option String
after_text String.[] s = some s
after_text (String.◌∷◌ t text) String.[] = none
after_text (String.◌∷◌ t text) (String.◌∷◌ c s) =
    let rest = after_text text s in if lower (code c) == code t then rest else none

-- `line.trim().toLowerCase() === "[/script/wdgame.wdgamesession]"`
unfoldable pub names_section : String → Bool
names_section line = elim (after_text "[/script/wdgame.wdgamesession]" (skip_spaces line)) [
  | none ↦ false
  | some rest ↦ all_spaces rest
]

-- `/^\s*\[/`
unfoldable pub opens_section : String → Bool
opens_section line = is_some (after_text "[" (skip_spaces line))

-- `[0-9]+` from the start, and what follows.
unfoldable pub digits_of : String → String
digits_of String.[] = String.[]
digits_of (String.◌∷◌ c s) =
    let rest = digits_of s in if is_digit (code c) then String.◌∷◌ c rest else String.[]

unfoldable pub after_digits : String → String
after_digits String.[] = String.[]
after_digits (String.◌∷◌ c s) =
    let rest = after_digits s in if is_digit (code c) then rest else String.◌∷◌ c s

abbrev pub is_empty : String → Bool
is_empty String.[] = true
is_empty (String.◌∷◌ c s) = false

-- `[0-9]+|ClearArray`: the digits, none for ClearArray, and what follows.
unfoldable pub value_of : String → Option (Option String × String)
value_of s =
    if is_empty (digits_of s)
    then elim (after_text "cleararray" s) [ none ↦ none | some rest ↦ some (none, rest) ]
    else some (some (digits_of s), after_digits s)

-- The same between quotation marks, or as it is.
unfoldable pub quoted_value : String → Option (Option String × String)
quoted_value s = elim (after_text "\"" s) [
  | none ↦ value_of s
  | some inner ↦ elim (value_of inner) [
    | none ↦ none
    | some found ↦ elim (after_text "\"" found.1) [ none ↦ none | some rest ↦ some (found.0, rest) ]
  ]
]

-- `.*$`
unfoldable pub one_line : String → Bool
one_line String.[] = true
one_line (String.◌∷◌ c s) = not (is_terminator (code c)) && one_line s

abbrev comment_after : Option String → Bool
comment_after none = false
comment_after (some rest) = one_line rest

-- `\s*(?:(?:[;#]|\/\/).*)?$`
unfoldable pub ends_line : String → Bool
ends_line s =
    let rest = skip_spaces s in
    is_empty rest
    || (comment_after (after_text ";" rest)
        || (comment_after (after_text "#" rest) || comment_after (after_text "//" rest)))

-- `([+.!-]?)`
abbrev operator_at : ℕ → Option Operator
operator_at c =
    if c == b'+'
    then some plus
    else if c == b'.'
    then some dot
    else if c == b'!'
    then some clear
    else if c == b'-'
    then some minus
    else none

unfoldable pub operator_of : String → Operator × String
operator_of String.[] = (assign, String.[])
operator_of (String.◌∷◌ c s) = elim (operator_at (code c)) [
  | none ↦ (assign, String.◌∷◌ c s)
  | some operator ↦ (operator, s)
]

-- `\s*DefaultReservedPlayerIds\s*=`, and what follows.
unfoldable pub after_key : String → Option String
after_key s = elim (after_text "defaultreservedplayerids" (skip_spaces s)) [
  | none ↦ none
  | some rest ↦ after_text "=" (skip_spaces rest)
]

abbrev pub entry_kind : Operator → Option String → LineKind
entry_kind operator none = clear_entry operator
entry_kind operator (some value) = id_entry operator value

-- The value of an entry and the end of its line.
unfoldable pub read_value : Operator → String → LineKind
read_value operator s = elim (quoted_value (skip_spaces s)) [
  | none ↦ bad_entry
  | some found ↦ if ends_line found.1 then entry_kind operator found.0 else bad_entry
]

unfoldable pub read_entry : Operator × String → LineKind
read_entry start = elim (after_key start.1) [
  | none ↦ other_line
  | some rest ↦ read_value start.0 rest
]

unfoldable pub read_line : String → LineKind
unfolding names_section opens_section read_entry
read_line line =
    if names_section line
    then section_line
    else if opens_section line
    then header_line
    else read_entry (operator_of (skip_spaces line))
