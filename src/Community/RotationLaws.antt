-- ===== src/Community/RotationLaws.antt =====
-- The choices of src/server-community/community-rotation.ts: in range, not the one given before
-- where there are enough to choose from, and a bounded memory.
use uncs_bot.Common.{
  All, All-map, Bool, Bool-cases, List, Map, Option, Option-cases, String, [], any, arith, false,
  filter, filter-All, filter-keeps, get, get_elem-All, get_elem?, inl, inr, is_some, leb, length,
  min, none, not, null, or_else, refl, some, subst, suc, sym, true, zero, ℕ, ◌&&◌, ◌++◌, ◌+◌, ◌-◌,
  ◌<◌, ◌==◌, ◌∷◌, ◌≡◌, ◌≤◌,
}
use uncs_bot.Community.Rotation.{
  CommunityRotation, WelcomeHistory, WelcomePool, all_indexes, avoided, choose, draw_from,
  forget_oldest, indexes_from, is_in, remembered, standard, welcome, welcome_from, when_set,
  whitelisted,
}

indexes_from-All : (start count : ℕ) → All (λ i. i < start + count) (indexes_from start count)
unfolding indexes_from
indexes_from-All start zero = tt
indexes_from-All start (suc count) = (
  omega arith,
  All-map (λ i. i < (start + 1) + count) (λ i. i < start + suc count) (λ i h. omega arith) _
      (indexes_from-All (start + 1) count),
)

-- Something that a test holds of is kept.
any-filter-null : (p : ℕ → Bool) (xs : List ℕ) → any p xs ≡ true → null (filter p xs) ≡ false
any-filter-null p [] h = absurd (cc)
any-filter-null p (x ∷ xs) h = ground (arith, any-filter-null p xs)

get_elem?-in_range : (xs : List ℕ) (i : ℕ) → i < length xs → is_some (get_elem? xs i) ≡ true
get_elem?-in_range [] i h = absurd (omega arith)
get_elem?-in_range (x ∷ xs) zero h = refl
get_elem?-in_range (x ∷ xs) (suc i) h = get_elem?-in_range xs i (omega arith)

draw_from-All {κ} :
    (P : ℕ → Type κ) (candidates : List ℕ) (drawn : ℕ → ℕ)
    → null candidates ≡ false
    → All P candidates
    → P (draw_from candidates drawn)
draw_from-All P [] drawn n h = absurd (cc)
draw_from-All P (x ∷ xs) drawn n h =
    let place = min (length (x ∷ xs) - 1) (drawn (length (x ∷ xs))) in
    let found = get_elem?-in_range (x ∷ xs) place (omega arith) in
    elim (Option-cases (get_elem? (x ∷ xs) place)) [
      | inl e ↦ absurd (cc)
      | inr (index, e) ↦
          subst (λ o. P (or_else o 0)) (sym e) (get_elem-All P (x ∷ xs) place index h e)
    ]

all_indexes-null : (count : ℕ) → null (all_indexes count) ≡ false
unfolding indexes_from
all_indexes-null zero = refl
all_indexes-null (suc count) = refl

all_indexes-All : (count : ℕ) → 1 ≤ count → All (λ i. i < count) (all_indexes count)
all_indexes-All zero h = absurd (omega arith)
all_indexes-All (suc count) h =
    All-map (λ i. i < 0 + suc count) (λ i. i < suc count) (λ i l. omega arith) _
      (indexes_from-All 0 (suc count))

-- Whatever is avoided, a choice is an index of the list.
choose-in_range :
    (count : ℕ) (avoid : List ℕ) (drawn : ℕ → ℕ) → 1 ≤ count → choose count avoid drawn < count
unfolding choose
choose-in_range count avoid drawn h =
    let every = all_indexes-All count h in
    let allowed = filter (λ index. not (is_in avoid index)) (all_indexes count) in
    let InRange : ℕ → Type 0 = λ i. i < count in
    let kept : All InRange allowed = filter-keeps InRange _ (all_indexes count) every in
    elim (Bool-cases (null allowed)) [
      | inl e ↦
          rw (e, choose)
            (draw_from-All InRange (all_indexes count) drawn (all_indexes-null count) every)
      | inr e ↦ rw (e, choose) (draw_from-All InRange allowed drawn e kept)
    ]

-- A choice avoids what it should, where something else is left.
choose-avoids :
    (count : ℕ) (avoid : List ℕ) (drawn : ℕ → ℕ)
    → any (λ index. not (is_in avoid index)) (all_indexes count) ≡ true
    → not (is_in avoid (choose count avoid drawn)) ≡ true
unfolding choose
choose-avoids count avoid drawn h =
    let free : ℕ → Bool = λ index. not (is_in avoid index) in
    let allowed = filter free (all_indexes count) in
    let nonempty : null allowed ≡ false = any-filter-null free (all_indexes count) h in
    rw (nonempty, choose)
      (draw_from-All (λ i. free i ≡ true) allowed drawn nonempty
        (filter-All free (all_indexes count)))

-- The avoided indexes never fill the list.
some_free :
    (count : ℕ) (a b : Option ℕ)
    → 1 ≤ count
    → any
        (λ i. not (is_in (when_set (leb 2 count) a ++ when_set (leb 3 count) b) i))
        (all_indexes count)
      ≡ true
unfolding indexes_from
some_free zero a b h = absurd (omega arith)
some_free (suc zero) none none h = refl
some_free (suc zero) none (some b) h = refl
some_free (suc zero) (some a) none h = refl
some_free (suc zero) (some a) (some b) h = refl
some_free (suc (suc zero)) none none h = refl
some_free (suc (suc zero)) none (some b) h = refl
some_free (suc (suc zero)) (some a) none h = ground arith
some_free (suc (suc zero)) (some a) (some b) h = ground arith
some_free (suc (suc (suc n))) none none h = ground arith
some_free (suc (suc (suc n))) none (some b) h = ground arith
some_free (suc (suc (suc n))) (some a) none h = ground arith
some_free (suc (suc (suc n))) (some a) (some b) h = ground arith

-- What is avoided is not given; and the variant given is among the count.
pub welcome_from-differs :
    (limit : ℕ) (history : WelcomeHistory) (id : String) (count : ℕ) (drawn : ℕ → ℕ)
    → 1 ≤ count
    → ((welcome_from limit history id count drawn).1 < count)
      × (not (is_in (avoided history id count) (welcome_from limit history id count drawn).1)
          ≡ true)
unfolding welcome_from
welcome_from-differs limit history id count drawn h = (
  choose-in_range count _ drawn h,
  choose-avoids count (avoided history id count) drawn
      (some_free count (get id history.by_player) history.last h),
)

-- The memory holds at most its limit of players.
forget_oldest-length : (limit : ℕ) (players : Map ℕ) → length (forget_oldest limit players) ≤ limit
unfolding forget_oldest
forget_oldest-length limit [] = omega arith
forget_oldest-length limit ((id, index) ∷ players) =
    ground (arith, forget_oldest-length limit players)

-- One welcome or round message: its pool and player, or none for a round; the count and the draw.
pub record Choice : Type 0 where
  pub choice_pool : WelcomePool
  pub choice_id : String
  pub choice_count : ℕ
  pub choice_drawn : ℕ → ℕ

module _ (limit : ℕ) where
  abbrev pub welcome_one : CommunityRotation → Choice → CommunityRotation × ℕ
  welcome_one rotation c =
      welcome limit rotation c.choice_id c.choice_count c.choice_pool c.choice_drawn

  -- The rotation after some welcomes.
  unfoldable pub welcome_all : CommunityRotation → List Choice → CommunityRotation
  welcome_all rotation [] = rotation
  welcome_all rotation (c ∷ choices) = welcome_all (welcome_one rotation c).0 choices

  unfoldable pub IsSmall : CommunityRotation → Type 0
  IsSmall rotation =
      (length rotation.standard_welcomes.by_player ≤ limit)
      × (length rotation.whitelisted_welcomes.by_player ≤ limit)

  welcome-IsSmall :
      (rotation : CommunityRotation) (c : Choice)
      → IsSmall rotation
      → IsSmall (welcome_one rotation c).0
  unfolding welcome welcome_from remembered IsSmall
  welcome-IsSmall rotation c (a, b) =
      elim c.choice_pool
        as (λ pool.
          IsSmall (welcome limit rotation c.choice_id c.choice_count pool c.choice_drawn).0) [
            | standard ↦ (forget_oldest-length limit _, b)
            | whitelisted ↦ (a, forget_oldest-length limit _)
          ]

  -- Over any welcomes, each pool remembers at most its limit of players.
  pub welcome_all-IsSmall :
      (choices : List Choice) (rotation : CommunityRotation)
      → IsSmall rotation
      → IsSmall (welcome_all rotation choices)
  unfolding welcome_all
  welcome_all-IsSmall [] rotation h = h
  welcome_all-IsSmall (c ∷ choices) rotation h =
      welcome_all-IsSmall choices (welcome_one rotation c).0 (welcome-IsSmall rotation c h)

-- The variants that a pool gives, one after the other.
unfoldable pub given : ℕ → WelcomeHistory → List Choice → List ℕ
given limit history [] = []
given limit history (c ∷ choices) =
    (welcome_from limit history c.choice_id c.choice_count c.choice_drawn).1
    ∷ given limit (welcome_from limit history c.choice_id c.choice_count c.choice_drawn).0 choices

abbrev is_last : Option ℕ → ℕ → Bool
is_last none index = false
is_last (some a) index = a == index

-- No index is the one before it.
abbrev pub no_repeat : Option ℕ → List ℕ → Bool
no_repeat before [] = true
no_repeat before (index ∷ indexes) = not (is_last before index) && no_repeat (some index) indexes

not_last :
    (a last : Option ℕ) (count index : ℕ)
    → 3 ≤ count
    → not (is_in (when_set (leb 2 count) a ++ when_set (leb 3 count) last) index) ≡ true
    → is_last last index ≡ false
not_last a none count index h n = refl
not_last none (some b) count index h n = ground arith
not_last (some a) (some b) count index h n = ground arith

-- With three variants or more at each welcome, no pool gives the same variant twice in a row, whatever is
-- drawn.
pub given-no_repeat :
    (limit : ℕ) (history : WelcomeHistory) (choices : List Choice)
    → All (λ c. 3 ≤ c.choice_count) choices
    → no_repeat history.last (given limit history choices) ≡ true
unfolding given welcome_from remembered
given-no_repeat limit history [] h = refl
given-no_repeat limit history (c ∷ choices) (three, h) =
    let index = (welcome_from limit history c.choice_id c.choice_count c.choice_drawn).1 in
    let (below, other) =
      welcome_from-differs limit history c.choice_id c.choice_count c.choice_drawn (omega arith) in
    let first : is_last history.last index ≡ false =
      not_last (get c.choice_id history.by_player) history.last c.choice_count index three other in
    let rest =
      given-no_repeat limit (welcome_from limit history c.choice_id c.choice_count c.choice_drawn).0
        choices h in
    rw first rest
