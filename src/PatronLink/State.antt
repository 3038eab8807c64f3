-- ===== src/PatronLink/State.antt =====
-- The class `PatronLinkState` of src/patron-link/patron-link.state.ts, a method to a function: its
-- state and its tickets. The flows are in Flow, the limits and the refused codes in Code.
-- `randomId()` is the argument that names the drawn value. A value of type `unknown` is
-- `some text` for a string and `none` for anything else.
use Prim.Native.Char.{code}
use uncs_bot.Common.{
  ℕ, ◌+◌, ◌-◌, String, Bool, true, false, ◌&&◌, ◌||◌, Option, none, some, List, [], ltb, leb, ◌==◌,
  not, if◌then◌else◌, filter, length, Map, get, put, remove,
}
use uncs_bot.PatronLink.Counter.{Counter, Take, ok, busy, max_entries, take}

abbrev pub ticket_ms : ℕ
ticket_ms = 600000

abbrev pub stage_ms : ℕ
stage_ms = 600000

abbrev pub flow_ms : ℕ
flow_ms = 1200000

abbrev pub limit_window_ms : ℕ
limit_window_ms = 600000

abbrev pub refused_code_ms : ℕ
refused_code_ms = 3600000

abbrev pub max_refused_codes : ℕ
max_refused_codes = 50000

abbrev pub burns_per_minute : ℕ
burns_per_minute = 30

-- The class [A-Za-z0-9_-] of `PATRON_LINK_ID`.
abbrev is_id_code : ℕ → Bool
is_id_code c =
    (leb b'A' c && leb c b'Z')
    || (leb b'a' c && leb c b'z')
    || (leb b'0' c && leb c b'9')
    || c == b'_'
    || c == b'-'

-- Exactly `left` characters of the class.
is_id_of : ℕ → String → Bool
is_id_of left String.[] = left == 0
is_id_of left (String.◌∷◌ c s) = is_id_code (code c) && ltb 0 left && is_id_of (left - 1) s

-- `PATRON_LINK_ID.test`
unfoldable pub is_link_id : String → Bool
unfolding is_id_of
is_link_id s = is_id_of 43 s

pub data Stage : Type 0 where
  discord patreon : Stage

abbrev pub stage_eq : Stage → Stage → Bool
stage_eq discord discord = true
stage_eq patreon patreon = true
stage_eq _ _ = false

pub record Flow : Type 0 where
  pub discord_id : String
  pub stage : Stage
  pub state : String
  pub stage_expires_at : ℕ
  pub flow_expires_at : ℕ
  pub prompt_none : Bool

pub record Ticket : Type 0 where
  pub discord_id : String
  pub expires_at : ℕ

pub record State : Type 0 where
  pub tickets : Map Ticket
  pub flows : Map Flow
  pub tickets_issued : Counter
  pub legs_started : Counter
  pub burned : List ℕ
  pub refused_codes : Map ℕ
  pub refused_codes_full_until : ℕ

-- A new `PatronLinkState`: PATRON_LINK_TICKETS_PER_USER and PATRON_LINK_LEGS_PER_ACCOUNT are 5.
unfoldable pub initial : State
initial = record {
  tickets = [];
  flows = [];
  tickets_issued = record { limit = 5; window_ms = limit_window_ms; times = [] };
  legs_started = record { limit = 5; window_ms = limit_window_ms; times = [] };
  burned = [];
  refused_codes = [];
  refused_codes_full_until = 0;
}

pub live_ticket : ℕ → String × Ticket → Bool
live_ticket now e = not (leb e.1.expires_at now)

pub live_flow : ℕ → String × Flow → Bool
live_flow now e = not (leb e.1.stage_expires_at now || leb e.1.flow_expires_at now)

unfoldable pub prune : ℕ → State → State
prune now s = record s {
  tickets = filter (live_ticket now) s.tickets;
  flows = filter (live_flow now) s.flows;
}

pub data Issue : Type 0 where
  issued : String → Issue
  refused : Take → Issue

-- What follows `this.ticketsIssued.take`.
unfoldable pub issue_counted : String → String → ℕ → State → Counter × Take → State × Issue
issue_counted drawn discord_id now s (c, ok) = (
  record s {
    tickets =
        put drawn (record { discord_id = discord_id; expires_at = now + ticket_ms }) s.tickets;
    tickets_issued = c;
  },
  issued drawn,
)
issue_counted drawn discord_id now s (c, counted) =
    (record s { tickets_issued = c }, refused counted)

unfoldable pub issue_ticket : String → String → ℕ → State → State × Issue
unfolding issue_counted
issue_ticket drawn discord_id now s =
    let pruned = prune now s in
    if leb max_entries (length pruned.tickets)
    then (pruned, refused busy)
    else issue_counted drawn discord_id now pruned (take pruned.tickets_issued discord_id now)

abbrev ticket_owner : ℕ → Option Ticket → Option String
ticket_owner now none = none
ticket_owner now (some entry) = if ltb now entry.expires_at then some entry.discord_id else none

unfoldable pub take_ticket : Option String → ℕ → State → State × Option String
take_ticket none now s = (s, none)
take_ticket (some ticket) now s =
    if is_link_id ticket
    then (record s { tickets = remove ticket s.tickets }, ticket_owner now (get ticket s.tickets))
    else (s, none)
