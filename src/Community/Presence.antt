-- ===== src/Community/Presence.antt =====
-- `changedRound` of src/common/round-tracker.ts and `observeCommunity` of
-- src/server-community/community-state.ts. Scores are natural numbers, a clock is none where it is not a
-- finite number from 0 on, and the last time and status of a state are both there or both missing.
use uncs_bot.Common.{
  Bool, List, Map, Option, String, [], all, any, false, filter, has, if◌then◌else◌, is_some, leb,
  length, ltb, map, none, not, null, or_else, put, some, sort_by, str_eq, suc, take, true, zero, ℕ,
  ◌&&◌, ◌+◌, ◌-◌, ◌==◌, ◌||◌, ◌∷◌,
}
use uncs_bot.Ballots.Selection.{join, same_map, str_before}
use uncs_bot.Rounds.Track.{FactionScore}

-- `RoundStatus`, with the count of current players.
pub record CommunityStatus : Type 0 where
  pub status_map : String
  pub clock : Option ℕ
  pub status_scores : List FactionScore
  pub current_count : ℕ

abbrev names_of : List FactionScore → String
names_of scores = join "\n" (sort_by str_before (map (λ s. s.name) scores))

abbrev was_reset : List FactionScore → List FactionScore → Bool
was_reset before after =
    not (null before)
    && not (null after)
    && str_eq (names_of before) (names_of after)
    && any (λ s. ltb 0 s.score) before
    && all (λ s. s.score == 0) after

abbrev by_clocks : Option ℕ → Option ℕ → Bool → Bool
by_clocks (some before) (some after) reset = ltb (after + 30) before
by_clocks _ _ reset = reset

-- `changedRound`
unfoldable pub changed_round : CommunityStatus → CommunityStatus → Bool
changed_round before after =
    if not (same_map before.status_map after.status_map)
    then true
    else by_clocks before.clock after.clock (was_reset before.status_scores after.status_scores)

pub record CommunitySnapshot : Type 0 where
  pub player_ids : List String
  pub status : CommunityStatus

pub record LastSeen : Type 0 where
  pub last_at : ℕ
  pub last_status : CommunityStatus

pub record CommunityState : Type 0 where
  pub last_seen : Option LastSeen
  pub present : Map ℕ
  pub round_at : Option ℕ
  pub pending_round_at : Option ℕ

pub record CommunityResult : Type 0 where
  pub next_state : CommunityState
  pub joined : List String
  pub round_began : Bool
  pub is_baseline : Bool

abbrev pub leave_grace_ms : ℕ
leave_grace_ms = 60000

abbrev pub baseline_gap_ms : ℕ
baseline_gap_ms = 30000

abbrev pub round_hold_ms : ℕ
round_hold_ms = 180000

abbrev pub max_roster : ℕ
max_roster = 512

abbrev pub initial_community_state : CommunityState
initial_community_state = record {
  last_seen = none;
  present = [];
  round_at = none;
  pending_round_at = none;
}

-- `[...new Set(ids)]`
unfoldable pub distinct_ids : List String → List String
distinct_ids [] = []
distinct_ids (id ∷ ids) = id ∷ filter (λ x. not (str_eq id x)) (distinct_ids ids)

abbrev pub roster_ids : CommunitySnapshot → List String
roster_ids snapshot = take max_roster (distinct_ids snapshot.player_ids)

-- `present.set(id, now)` for each.
unfoldable pub seen_all : List String → ℕ → Map ℕ → Map ℕ
seen_all [] now present = present
seen_all (id ∷ ids) now present = seen_all ids now (put id now present)

abbrev pub is_id : List String → String → Bool
is_id ids id = any (str_eq id) ids

-- The loop that drops players who are not current while there are too many; `excess` is how many.
unfoldable pub evict : List String → ℕ → Map ℕ → Map ℕ
evict ids excess [] = []
evict ids zero ((id, at) ∷ present) = (id, at) ∷ present
evict ids (suc excess) ((id, at) ∷ present) =
    let fewer = evict ids excess present in
    let same = evict ids (suc excess) present in if is_id ids id then (id, at) ∷ same else fewer

abbrev pub within : Option ℕ → ℕ → ℕ → Bool
within none span now = false
within (some at) span now = leb now (at + span)

abbrev pub kept_present : Bool → ℕ → Map ℕ → Map ℕ
kept_present in_transition now present =
    filter (λ (id, seen). in_transition || ltb now (seen + leave_grace_ms)) present

-- The players that count as joined.
unfoldable pub joined_ids : Bool → CommunityStatus → List String → Map ℕ → List String
joined_ids quiet status ids present =
    if quiet || not (ltb 0 status.current_count)
    then []
    else filter (λ id. not (has id present)) ids

-- A read with another before it.
unfoldable pub observe_next : CommunityState → LastSeen → CommunitySnapshot → ℕ → CommunityResult
observe_next previous last snapshot now =
    let ids = roster_ids snapshot in
    let in_transition = within previous.round_at round_hold_ms now in
    let changed = changed_round last.last_status snapshot.status in
    let kept = kept_present in_transition now previous.present in
    let returning =
      in_transition && (is_some previous.pending_round_at || last.last_status.current_count == 0) in
    let everyone = seen_all ids now kept in
    let present = evict ids (length everyone - max_roster) everyone in
    let held =
      if within previous.pending_round_at round_hold_ms now
      then previous.pending_round_at
      else none in
    let recent = ltb 0 last.last_status.current_count || not (null present) in
    let apart =
      not (is_some previous.round_at) || leb (or_else previous.round_at 0 + leave_grace_ms) now in
    let begins = recent && changed && apart in
    let pending = if begins then some now else held in
    let round = is_some pending && ltb 0 snapshot.status.current_count && not (null ids) in
    record {
      next_state = record {
        last_seen = some record { last_at = now; last_status = snapshot.status };
        present = present;
        round_at = if begins then some now else previous.round_at;
        pending_round_at = if round then none else pending;
      };
      joined = joined_ids (returning || changed) snapshot.status ids kept;
      round_began = round;
      is_baseline = false;
    }

abbrev pub is_baseline_at : Option LastSeen → ℕ → Bool
is_baseline_at none now = true
is_baseline_at (some last) now = leb now last.last_at || ltb (last.last_at + baseline_gap_ms) now

unfoldable pub baseline_result : CommunitySnapshot → ℕ → CommunityResult
baseline_result snapshot now = record {
  next_state = record initial_community_state {
    last_seen = some record { last_at = now; last_status = snapshot.status };
    present = seen_all (roster_ids snapshot) now [];
  };
  joined = [];
  round_began = false;
  is_baseline = true;
}

-- `observeCommunity`
unfoldable pub observe_community : CommunityState → CommunitySnapshot → ℕ → CommunityResult
observe_community previous snapshot now = elim previous.last_seen [
  | none ↦ baseline_result snapshot now
  | some last ↦
      if is_baseline_at (some last) now
      then baseline_result snapshot now
      else observe_next previous last snapshot now
]
