-- ===== src/PatronLink/Counter.antt =====
-- The class `Counter` of src/patron-link/patron-link.state.ts: sliding-window counts per key.
-- A time difference stops at 0 here and is negative in the source when a clock runs backwards; it is
-- only compared with a positive window, where both give the same answer.
use uncs_bot.Common.{
  ℕ, ◌-◌, String, Bool, Option, none, some, List, [], ◌∷◌, ◌++◌, ltb, leb, null, if◌then◌else◌,
  filter, length, Map, get, put,
}

-- PATRON_LINK_MAX_ENTRIES
abbrev pub max_entries : ℕ
max_entries = 5000

pub data Take : Type 0 where
  ok limited busy : Take

pub record Counter : Type 0 where
  pub limit : ℕ
  pub window_ms : ℕ
  pub times : Map (List ℕ)

-- `now - time < this.windowMs`
abbrev pub is_recent : ℕ → ℕ → ℕ → Bool
is_recent window now time = ltb (now - time) window

-- The loop over `this.times`: expired times go, and keys with none left.
unfoldable pub expire : ℕ → ℕ → Map (List ℕ) → Map (List ℕ)
expire window now [] = []
expire window now ((other, times) ∷ rest) =
    let kept = expire window now rest in
    let recent = filter (is_recent window now) times in
    if null recent then kept else (other, recent) ∷ kept

-- What follows the lookup of `key` in the expired map.
unfoldable pub take_found : Counter → String → ℕ → Map (List ℕ) → Option (List ℕ) → Counter × Take
take_found c key now times (some recent) =
    if leb c.limit (length recent)
    then (record c { times = times }, limited)
    else (record c { times = put key (recent ++ now ∷ []) times }, ok)
take_found c key now times none =
    if leb max_entries (length times)
    then (record c { times = times }, busy)
    else (record c { times = put key (now ∷ []) times }, ok)

unfoldable pub take : Counter → String → ℕ → Counter × Take
unfolding take_found
take c key now =
    let times = expire c.window_ms now c.times in take_found c key now times (get key times)
