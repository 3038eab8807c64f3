-- ===== src/PatronLink/Codes.antt =====
-- A Patreon code that arrived without its sign-in stays refused for an hour, whatever else happens,
-- also when the list of refused codes overflows.
use uncs_bot.PatronLink.Counter.{Counter, Take, ok, take}
use uncs_bot.PatronLink.State.{
  Stage, State, issue_counted, issue_ticket, max_refused_codes, prune, refused_code_ms, take_ticket,
}
use uncs_bot.PatronLink.Flow.{
  advance, claim, claim_found, end_flow, retry_without_prompt, start_flow,
}
use uncs_bot.PatronLink.Run.{
  Op, at, op_advance, op_burn, op_check, op_claim, op_end, op_issue, op_leg, op_refuse, op_retry,
  op_start, op_take, run, step,
}
use uncs_bot.Common.{
  All, Bool-cases, List, Map, Option, String, [], arith, false, get, get-put, get-put_self,
  get-remove, inl, inr, leb, length, none, put, refl, remove, some, str_eq, ℕ, ◌+◌, ◌<◌, ◌∷◌, ◌≡◌,
  ◌≢◌, ◌≤◌, ◌⊎◌,
}
use uncs_bot.PatronLink.Code.{
  burn_allowed, code_check, drop_oldest, forget, make_room, refuse_code, start_leg, usable,
}

-- The digest is on the list until `until` or later, or no code at all is used before `until`.
abbrev IsHeld : String → ℕ → Map ℕ → ℕ → Type 0
IsHeld key until codes full_until =
    ((e : ℕ) × (get key codes ≡ some e) × (until ≤ e)) ⊎ (until ≤ full_until)

get-forget :
    (key : String) (now e : ℕ) (codes : Map ℕ)
    → now < e
    → get key codes ≡ some e
    → get key (forget now codes) ≡ some e
unfolding forget get
get-forget key now e [] lt h = cc
get-forget key now e ((k, x) ∷ rest) lt h = ground (arith, get-forget key now e rest lt)

forget-IsHeld :
    (key : String) (until now full : ℕ) (codes : Map ℕ)
    → now < until
    → IsHeld key until codes full
    → IsHeld key until (forget now codes) full
forget-IsHeld key until now full codes lt (inr h) = inr h
forget-IsHeld key until now full codes lt (inl (e, found, late)) =
    inl (e, get-forget key now e codes (omega arith) found, late)

get-drop_oldest :
    (key : String) (until full : ℕ) (codes : Map ℕ)
    → IsHeld key until codes full
    → IsHeld key until (drop_oldest codes full).0 (drop_oldest codes full).1
unfolding drop_oldest get
get-drop_oldest key until full [] h = h
get-drop_oldest key until full ((k, x) ∷ rest) (inr h) = inr (omega arith)
get-drop_oldest key until full ((k, x) ∷ rest) (inl (e, found, late)) =
    elim (Bool-cases (str_eq k key)) [
      | inl same ↦ inr (ground arith)
      | inr other ↦ inl (e, rw (get-remove k key ((k, x) ∷ rest)) (ground arith), late)
    ]

get-make_room :
    (key : String) (until full : ℕ) (codes : Map ℕ)
    → IsHeld key until codes full
    → IsHeld key until (make_room codes full).0 (make_room codes full).1
unfolding make_room
get-make_room key until full codes h = elim (Bool-cases (leb max_refused_codes (length codes))) [
  | inl full_list ↦ rw full_list (get-drop_oldest key until full codes h)
  | inr room ↦ rw room h
]

get-put_codes :
    (key given : String) (until e full : ℕ) (codes : Map ℕ)
    → until ≤ e
    → IsHeld key until codes full
    → IsHeld key until (put given e codes) full
get-put_codes key given until e full codes late (inr h) = inr h
get-put_codes key given until e full codes late (inl (x, found, h)) =
    elim (Bool-cases (str_eq given key)) [
      | inl same ↦ inl (e, rw (get-put given key e codes, same) refl, late)
      | inr other ↦ inl (x, rw (get-put given key e codes, other) found, h)
    ]

get-remove_codes :
    (key given : String) (until full : ℕ) (codes : Map ℕ)
    → str_eq given key ≡ false
    → IsHeld key until codes full
    → IsHeld key until (remove given codes) full
get-remove_codes key given until full codes other (inr h) = inr h
get-remove_codes key given until full codes other (inl (x, found, h)) =
    inl (x, rw (get-remove given key codes, other) found, h)

abbrev Held : String → ℕ → State → Type 0
Held key until s = IsHeld key until s.refused_codes s.refused_codes_full_until

-- The operations that leave the refused codes alone.
abbrev SameCodes : State → State → Type 0
SameCodes s t =
    (t.refused_codes ≡ s.refused_codes) × (t.refused_codes_full_until ≡ s.refused_codes_full_until)

issue_counted-SameCodes :
    (drawn d : String) (now : ℕ) (s : State) (r : Counter × Take)
    → SameCodes s (issue_counted drawn d now s r).0
unfolding issue_counted
issue_counted-SameCodes drawn d now s (c, ok) = (refl, refl)
issue_counted-SameCodes drawn d now s (c, _) = (refl, refl)

issue_ticket-SameCodes :
    (drawn d : String) (now : ℕ) (s : State) → SameCodes s (issue_ticket drawn d now s).0
unfolding issue_ticket prune
issue_ticket-SameCodes drawn d now s =
    ground (arith, issue_counted-SameCodes drawn d now (prune now s) (take s.tickets_issued d now))

start_flow-SameCodes :
    (drawn v d : String) (now : ℕ) (s : State) → SameCodes s (start_flow drawn v d now s).0
unfolding start_flow prune
start_flow-SameCodes drawn v d now s = ground arith

claim-SameCodes :
    (f : Option String) (st : Stage) (v : Option String) (now : ℕ) (s : State)
    → SameCodes s (claim f st v now s).0
unfolding claim claim_found
claim-SameCodes none st v now s = (refl, refl)
claim-SameCodes (some f) st v now s = ground arith

advance-SameCodes : (drawn f : String) (now : ℕ) (s : State) → SameCodes s (advance drawn f now s).0
unfolding advance
advance-SameCodes drawn f now s = ground arith

retry-SameCodes : (drawn f : String) (s : State) → SameCodes s (retry_without_prompt drawn f s).0
unfolding retry_without_prompt
retry-SameCodes drawn f s = ground arith

take_ticket-SameCodes :
    (ticket : Option String) (now : ℕ) (s : State) → SameCodes s (take_ticket ticket now s).0
unfolding take_ticket
take_ticket-SameCodes none now s = (refl, refl)
take_ticket-SameCodes (some ticket) now s = ground arith

burn_allowed-SameCodes : (now : ℕ) (s : State) → SameCodes s (burn_allowed now s).0
unfolding burn_allowed
burn_allowed-SameCodes now s = ground arith

-- Called in the hour that begins at `from`.
abbrev pub InHour : ℕ → Op → Type 0
InHour from op = (from ≤ at op) × (at op < from + refused_code_ms)

module _ (code_key : String → String) where
  -- `refuseCode` puts the code on the list for an hour.
  refuse_code-Held_self :
      (given : String) (now : ℕ) (s : State)
      → Held (code_key given) (now + refused_code_ms) (refuse_code code_key given now s)
  unfolding refuse_code
  refuse_code-Held_self given now s = inl (now + refused_code_ms, get-put_self _ _ _, omega arith)

  refuse_code-Held :
      (given key : String) (until now : ℕ) (s : State)
      → now < until
      → until ≤ now + refused_code_ms
      → Held key until s
      → Held key until (refuse_code code_key given now s)
  unfolding refuse_code
  refuse_code-Held given key until now s lt le h = elim (Bool-cases (str_eq (code_key given) key)) [
    | inl same ↦ inl (now + refused_code_ms, rw (get-put (code_key given) key _ _, same) refl, le)
    | inr other ↦ get-put_codes key (code_key given) until _ _ _ le (
        get-make_room key until _ _ (
          get-remove_codes key (code_key given) until _ _ other
            (forget-IsHeld key until now _ s.refused_codes lt h)))
  ]

  -- Every operation before `until` and at most an hour before it keeps a digest refused.
  step-Held :
      (op : Op) (key : String) (until : ℕ) (s : State)
      → at op < until
      → until ≤ at op + refused_code_ms
      → Held key until s
      → Held key until (step code_key op s)
  unfolding step start_leg end_flow code_check
  step-Held (op_issue drawn d now) key until s lt le h =
      let e = issue_ticket-SameCodes drawn d now s in rw (e.0, e.1) h
  step-Held (op_take ticket now) key until s lt le h =
      let e = take_ticket-SameCodes ticket now s in rw (e.0, e.1) h
  step-Held (op_start drawn t d now) key until s lt le h =
      let e = start_flow-SameCodes drawn t d now s in rw (e.0, e.1) h
  step-Held (op_claim f st v now) key until s lt le h =
      let e = claim-SameCodes f st v now s in rw (e.0, e.1) h
  step-Held (op_retry drawn f now) key until s lt le h =
      let e = retry-SameCodes drawn f s in rw (e.0, e.1) h
  step-Held (op_advance drawn f now) key until s lt le h =
      let e = advance-SameCodes drawn f now s in rw (e.0, e.1) h
  step-Held (op_end (some f) now) key until s lt le h = h
  step-Held (op_end none now) key until s lt le h = h
  step-Held (op_leg d now) key until s lt le h = h
  step-Held (op_burn now) key until s lt le h =
      let e = burn_allowed-SameCodes now s in rw (e.0, e.1) h
  step-Held (op_refuse given now) key until s lt le h =
      refuse_code-Held given key until now s lt le h
  step-Held (op_check given now) key until s lt le h =
      forget-IsHeld key until now _ s.refused_codes lt h

  run-Held :
      (ops : List Op) (key : String) (from : ℕ) (s : State)
      → All (InHour from) ops
      → Held key (from + refused_code_ms) s
      → Held key (from + refused_code_ms) (run code_key ops s)
  unfolding run
  run-Held [] key from s hours h = h
  run-Held (op ∷ ops) key from s (hour, hours) h =
      run-Held ops key from (step code_key op s) hours
        (step-Held op key (from + refused_code_ms) s hour.1 (omega arith) h)

  code_check-ne-usable :
      (given : String) (until now : ℕ) (s : State)
      → now < until
      → Held (code_key given) until s
      → (code_check code_key given now s).1 ≢ usable
  unfolding code_check
  code_check-ne-usable given until now s lt h =
      elim (forget-IsHeld (code_key given) until now _ s.refused_codes lt h) [
        | inl (e, found, late) ↦ ground arith
        | inr full ↦ ground arith
      ]

  -- A code that was refused at `from` is not exchanged in the following hour, whatever the bot does
  -- in between: no trace of operations within that hour, other refusals included, makes it usable.
  pub refuse_code-run :
      (given : String) (from now : ℕ) (s : State) (ops : List Op)
      → All (InHour from) ops
      → now < from + refused_code_ms
      → (code_check code_key given now (run code_key ops (refuse_code code_key given from s))).1
        ≢ usable
  refuse_code-run given from now s ops hours lt =
      code_check-ne-usable given (from + refused_code_ms) now _ lt
        (run-Held ops (code_key given) from _ hours (refuse_code-Held_self given from s))
