-- ===== src/Community/RosterLaws.antt =====
-- The players that src/server-community/community-state.ts remembers: each once, and a bounded number.
use uncs_bot.Common.{
  Bool-cases, Distinct, List, Map, Option-cases, String, [], arith, eq_iff, filter, filter-Distinct,
  get, if_keeps, inl, inr, leb, length, length-put, length-take, none, put, put-Distinct, refl,
  some, str_eq, subst, suc, true, zero, ℕ, ◌+◌, ◌-◌, ◌||◌, ◌∷◌, ◌≡◌, ◌≤◌,
}
use uncs_bot.Community.Presence.{
  CommunityResult, CommunitySnapshot, CommunityState, LastSeen, baseline_result, distinct_ids,
  evict, is_baseline_at, is_id, kept_present, max_roster, observe_community, observe_next,
  roster_ids, round_hold_ms, seen_all, within,
}

count_key : String → Map ℕ → ℕ
count_key id m = length (filter (λ (k, at). str_eq id k) m)

count_ids : List String → Map ℕ → ℕ
count_ids ids m = length (filter (λ (k, at). is_id ids k) m)

count_key-none : (id : String) (m : Map ℕ) → get id m ≡ none → count_key id m ≡ 0
unfolding get count_key
count_key-none id [] h = refl
count_key-none id ((k, at) ∷ m) h = ground (arith, eq_iff id k, eq_iff k id, count_key-none id m)

count_key-Distinct : (id : String) (m : Map ℕ) → Distinct m → count_key id m ≤ 1
unfolding count_key
count_key-Distinct id [] h = omega arith
count_key-Distinct id ((k, at) ∷ m) (fresh, h) = elim (Bool-cases (str_eq id k)) [
  | inl e ↦
      let same : k ≡ id = ground (arith, eq_iff id k) in
      let gone : count_key id m ≡ 0 =
        count_key-none id m (subst (λ x. get x m ≡ none) same fresh) in
      rw (e, count_key) (ground (arith, gone))
  | inr e ↦ rw (e, count_key) (count_key-Distinct id m h)
]

count_ids-cons :
    (id : String) (ids : List String) (m : Map ℕ)
    → count_ids (id ∷ ids) m ≤ count_key id m + count_ids ids m
unfolding count_key count_ids
count_ids-cons id ids [] = omega arith
count_ids-cons id ids ((k, at) ∷ m) =
    ground (arith, eq_iff id k, eq_iff k id, count_ids-cons id ids m)

count_ids-nil : (m : Map ℕ) → count_ids [] m ≤ 0
unfolding count_ids
count_ids-nil [] = omega arith
count_ids-nil (entry ∷ m) = count_ids-nil m

count_ids-Distinct : (ids : List String) (m : Map ℕ) → Distinct m → count_ids ids m ≤ length ids
count_ids-Distinct [] m h = count_ids-nil m
count_ids-Distinct (id ∷ ids) m h =
    let a = count_ids-cons id ids m in
    let b = count_key-Distinct id m h in let c = count_ids-Distinct ids m h in omega arith

-- Dropping ends with the wanted number, or with current players only.
evict-length :
    (ids : List String) (excess : ℕ) (m : Map ℕ)
    → leb (length (evict ids excess m) + excess) (length m)
        || leb (length (evict ids excess m)) (count_ids ids m)
      ≡ true
unfolding evict count_ids
evict-length ids excess [] = ground arith
evict-length ids zero ((k, at) ∷ m) = ground arith
evict-length ids (suc excess) ((k, at) ∷ m) =
    let a = evict-length ids excess m in let b = evict-length ids (suc excess) m in ground arith

get-evict :
    (ids : List String) (excess : ℕ) (id : String) (m : Map ℕ)
    → get id m ≡ none
    → get id (evict ids excess m) ≡ none
unfolding evict get
get-evict ids excess id [] h = refl
get-evict ids zero id ((k, at) ∷ m) h = h
get-evict ids (suc excess) id ((k, at) ∷ m) h =
    ground (arith, get-evict ids excess id m, get-evict ids (suc excess) id m)

evict-Distinct :
    (ids : List String) (excess : ℕ) (m : Map ℕ) → Distinct m → Distinct (evict ids excess m)
unfolding evict
evict-Distinct ids excess [] h = tt
evict-Distinct ids zero ((k, at) ∷ m) h = h
evict-Distinct ids (suc excess) ((k, at) ∷ m) (fresh, h) = elim (Bool-cases (is_id ids k)) [
  | inl e ↦
      rw (e, evict) (get-evict ids (suc excess) k m fresh, evict-Distinct ids (suc excess) m h)
  | inr e ↦ rw (e, evict) (evict-Distinct ids excess m h)
]

seen_all-Distinct :
    (ids : List String) (now : ℕ) (m : Map ℕ) → Distinct m → Distinct (seen_all ids now m)
unfolding seen_all
seen_all-Distinct [] now m h = h
seen_all-Distinct (id ∷ ids) now m h =
    seen_all-Distinct ids now (put id now m) (put-Distinct id now m h)

seen_all-length :
    (ids : List String) (now : ℕ) (m : Map ℕ) → length (seen_all ids now m) ≤ length ids + length m
unfolding seen_all
seen_all-length [] now m = omega arith
seen_all-length (id ∷ ids) now m =
    let a = seen_all-length ids now (put id now m) in let b = length-put id now m in omega arith

roster_ids-length : (snapshot : CommunitySnapshot) → length (roster_ids snapshot) ≤ max_roster
roster_ids-length snapshot =
    let a = length-take max_roster (distinct_ids snapshot.player_ids) in omega arith

-- At most 512 players are remembered, each once.
unfoldable pub IsRoster : CommunityState → Type 0
IsRoster state = Distinct state.present × (length state.present ≤ max_roster)

evicted-length :
    (ids : List String) (m : Map ℕ)
    → length ids ≤ max_roster
    → Distinct m
    → length (evict ids (length m - max_roster) m) ≤ max_roster
evicted-length ids m small h =
    let a = evict-length ids (length m - max_roster) m in
    let b = count_ids-Distinct ids m h in ground arith

baseline-IsRoster :
    (snapshot : CommunitySnapshot) (now : ℕ) → IsRoster (baseline_result snapshot now).next_state
unfolding IsRoster baseline_result
baseline-IsRoster snapshot now =
    let a = seen_all-length (roster_ids snapshot) now [] in
    let b = roster_ids-length snapshot in
    (seen_all-Distinct (roster_ids snapshot) now [] tt, omega arith)

observe_next-IsRoster :
    (state : CommunityState) (last : LastSeen) (snapshot : CommunitySnapshot) (now : ℕ)
    → IsRoster state
    → IsRoster (observe_next state last snapshot now).next_state
unfolding IsRoster observe_next
observe_next-IsRoster state last snapshot now (h, small) =
    let ids = roster_ids snapshot in
    let kept = kept_present (within state.round_at round_hold_ms now) now state.present in
    let everyone = seen_all-Distinct ids now kept (filter-Distinct _ state.present h) in
    (
      evict-Distinct ids _ _ everyone,
      evicted-length ids (seen_all ids now kept) (roster_ids-length snapshot) everyone,
    )

observe_community-IsRoster :
    (state : CommunityState) (snapshot : CommunitySnapshot) (now : ℕ)
    → IsRoster state
    → IsRoster (observe_community state snapshot now).next_state
unfolding observe_community
observe_community-IsRoster state snapshot now h = elim (Option-cases state.last_seen) [
  | inl n ↦ rw (n, observe_community) (baseline-IsRoster snapshot now)
  | inr (last, s) ↦
      rw (s, observe_community)
        (if_keeps (λ (r : CommunityResult). IsRoster r.next_state) (is_baseline_at (some last) now)
          _ _ (λ e. baseline-IsRoster snapshot now)
          (λ e. observe_next-IsRoster state last snapshot now h))
]

-- The state after successive reads.
unfoldable pub observe_all : CommunityState → List (CommunitySnapshot × ℕ) → CommunityState
observe_all state [] = state
observe_all state ((snapshot, now) ∷ reads) =
    observe_all (observe_community state snapshot now).next_state reads

-- Over any reads at any times, at most 512 players are remembered, each once.
pub observe_all-IsRoster :
    (reads : List (CommunitySnapshot × ℕ)) (state : CommunityState)
    → IsRoster state
    → IsRoster (observe_all state reads)
unfolding observe_all
observe_all-IsRoster [] state h = h
observe_all-IsRoster ((snapshot, now) ∷ reads) state h =
    observe_all-IsRoster reads (observe_community state snapshot now).next_state
      (observe_community-IsRoster state snapshot now h)
