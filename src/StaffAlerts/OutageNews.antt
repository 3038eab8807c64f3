-- ===== src/StaffAlerts/OutageNews.antt =====
-- What src/staff-alerts/health-state.ts tells staff of outages, from the reads alone.
use uncs_bot.Common.{
  Bool, Bool-cases, List, Option, String, [], ap, arith, false, filter, if◌then◌else◌, inl, inr,
  leb, map, none, not, or_else, refl, some, str_eq, subst, true, ℕ, ◌&&◌, ◌*◌, ◌++◌, ◌+◌, ◌∙◌, ◌∷◌,
  ◌≡◌,
}
use uncs_bot.StaffAlerts.Health.{
  GoodRead, HealthAlert, HealthOptions, HealthOutage, HealthReading, HealthState, Progress,
  RconErrorKind, failed, game_back, game_build, game_down, game_restart, good, initial_health_state,
  other_error, paused, rejected, unreachable, unreadable,
}
use uncs_bot.StaffAlerts.Observe.{
  judge_read, note_build, observe_failure, observe_good, observe_health, recover, settle_pending,
}
use uncs_bot.StaffAlerts.Monitor.{accept, accept_all, final_state, history}
use uncs_bot.StaffAlerts.Outages.{
  history-take_turns, is_told, judge_read-IsQuiet, settle_pending-IsQuiet, take_turns,
}

-- A spell of failed reads: when it began, how many reads failed in it, how many good reads came since the
-- last of them and when the first of these came, and whether staff were told.
pub record Spell : Type 0 where
  pub began : ℕ
  pub failed_reads : ℕ
  pub good_reads : ℕ
  pub good_since : Option ℕ
  pub told : Bool

-- A failed read, other than one while reads are paused, begins a spell or is counted in it. A good read is
-- counted in a spell.
abbrev one_more : Option Spell → ℕ → Spell
one_more none now = record {
  began = now;
  failed_reads = 1;
  good_reads = 0;
  good_since = none;
  told = false;
}
one_more (some spell) now = record spell {
  failed_reads = spell.failed_reads + 1;
  good_reads = 0;
  good_since = none;
}

abbrev one_good : Spell → ℕ → Spell
one_good spell now = record spell {
  good_reads = spell.good_reads + 1;
  good_since = some (or_else spell.good_since now);
}

-- The alerts about outages.
abbrev pub is_news : HealthAlert → Bool
is_news (game_down since failures kind) = true
is_news (game_back since back) = true
is_news _ = false

filter_news-append :
    (xs ys : List HealthAlert) → filter is_news (xs ++ ys) ≡ filter is_news xs ++ filter is_news ys
filter_news-append [] ys = refl
filter_news-append (x ∷ xs) ys = elim (Bool-cases (is_news x)) [
  | inl e ↦ rw e (ap (λ zs. x ∷ zs) (filter_news-append xs ys))
  | inr e ↦ rw e (filter_news-append xs ys)
]

append_nil : (xs : List HealthAlert) → xs ++ [] ≡ xs
append_nil [] = refl
append_nil (x ∷ xs) = ap (λ zs. x ∷ zs) (append_nil xs)

-- The spell that an outage stands for.
abbrev spell_of : Option HealthOutage → Option Spell
spell_of none = none
spell_of (some outage) = some record {
  began = outage.since;
  failed_reads = outage.failures;
  good_reads = outage.successes;
  good_since = outage.first_success_at;
  told = outage.down_sent;
}

module _ (options : HealthOptions) where
  -- Staff are told once two reads of a spell failed and it has lasted the configured minutes.
  abbrev is_down : Spell → ℕ → Bool
  is_down spell now =
      not spell.told
      && (leb 2 spell.failed_reads && leb (spell.began + options.down_minutes * 60000) now)

  -- The spell after a read, and what staff are told: that the game is down at one failed read of a spell,
  -- and that it is back at the second good read in a row, which ends the spell, if they were.
  abbrev after_failure : RconErrorKind → Spell → ℕ → Option Spell × List HealthAlert
  after_failure kind spell now =
      if is_down spell now
      then (some (record spell { told = true }), game_down spell.began spell.failed_reads kind ∷ [])
      else (some spell, [])

  abbrev after_good : Spell → ℕ → Option Spell × List HealthAlert
  after_good spell now =
      if leb 2 spell.good_reads
      then (
        none,
        if spell.told then game_back spell.began (or_else spell.good_since now) ∷ [] else [],
      )
      else (some spell, [])

  abbrev pub after_read : Option Spell → HealthReading → ℕ → Option Spell × List HealthAlert
  after_read spell (failed paused) now = (spell, [])
  after_read spell (failed kind) now = after_failure kind (one_more spell now) now
  after_read none (good name players seconds build changed) now = (none, [])
  after_read (some spell) (good name players seconds build changed) now =
      after_good (one_good spell now) now

  -- What staff are told of outages over successive reads.
  unfoldable pub outage_news : Option Spell → List (ℕ × HealthReading) → List (List HealthAlert)
  outage_news spell [] = []
  outage_news spell ((now, reading) ∷ reads) =
      (after_read spell reading now).1 ∷ outage_news (after_read spell reading now).0 reads

  -- A read carries the spell on and tells staff that.
  abbrev Tells : Progress → Option Spell × List HealthAlert → Type 0
  Tells p expected = (spell_of p.state.outage ≡ expected.0) × (filter is_news p.alerts ≡ expected.1)

  quiet-no_news :
      (alerts : List HealthAlert)
      → ((told : Bool) (t : ℕ) → accept (take_turns options) told t alerts ≡ some told)
      → filter is_news alerts ≡ []
  quiet-no_news [] h = refl
  quiet-no_news (game_down since failures kind ∷ alerts) h =
      let no : none ≡ some true = h true 0 in absurd (cc)
  quiet-no_news (game_back since back ∷ alerts) h =
      let no : none ≡ some false = h false 0 in absurd (cc)
  quiet-no_news (game_restart a b c d e ∷ alerts) h = quiet-no_news alerts h
  quiet-no_news (game_build a b c ∷ alerts) h = quiet-no_news alerts h

  observe_failure-Tells :
      (s : HealthState) (kind : RconErrorKind) (now : ℕ)
      → Tells
          (observe_failure options s kind now)
          (after_read (spell_of s.outage) (failed kind) now)
  unfolding observe_failure
  observe_failure-Tells s paused now = (refl, refl)
  observe_failure-Tells s unreachable now = ground arith
  observe_failure-Tells s rejected now = ground arith
  observe_failure-Tells s unreadable now = ground arith
  observe_failure-Tells s other_error now = ground arith

  recover-Tells :
      (p : Progress) (outage : HealthOutage) (now : ℕ)
      → p.state.outage ≡ some outage
      → filter is_news p.alerts ≡ []
      → Tells (recover p (some outage) now) (
          after_good
            (one_good
              (record {
                began = outage.since;
                failed_reads = outage.failures;
                good_reads = outage.successes;
                good_since = outage.first_success_at;
                told = outage.down_sent;
              })
              now)
            now)
  unfolding recover
  recover-Tells p outage now same quiet = elim (Bool-cases (leb 2 (outage.successes + 1))) [
    | inl e ↦ elim (Bool-cases outage.down_sent) [
      | inl down ↦ rw (e, down, recover) (refl, filter_news-append p.alerts _ ∙ rw quiet refl)
      | inr up ↦ rw (e, up, recover) (refl, quiet)
    ]
    | inr e ↦ rw (e, recover) (refl, quiet)
  ]

  good-Tells :
      (p : Progress) (outage : Option HealthOutage) (name : String) (players : ℕ)
      (seconds : Option ℕ) (build : Option String) (changed : Bool) (now : ℕ)
      → p.state.outage ≡ outage
      → filter is_news p.alerts ≡ []
      → Tells
          (recover p outage now)
          (after_read (spell_of outage) (good name players seconds build changed) now)
  unfolding recover
  good-Tells p none name players seconds build changed now same quiet = rw same (refl, quiet)
  good-Tells p (some outage) name players seconds build changed now same quiet =
      recover-Tells p outage now same quiet

  note_build-Tells :
      (expected : Option Spell × List HealthAlert) (p : Progress) (before build : Option String)
      (now : ℕ)
      → Tells p expected
      → Tells (note_build p before build now) expected
  unfolding note_build
  note_build-Tells expected p before none now h = h
  note_build-Tells expected p none (some build) now h = h
  note_build-Tells expected p (some known) (some build) now (a, b) =
      elim (Bool-cases (str_eq known build)) [
        | inl same ↦ rw (same, note_build) (a, b)
        | inr new ↦ rw (new, note_build) (a, filter_news-append p.alerts _ ∙ (append_nil _ ∙ b))
      ]

  observe_health-Tells :
      (scheduled : ℕ → Bool) (s : HealthState) (reading : HealthReading) (now : ℕ)
      → Tells
          (observe_health scheduled options s reading now)
          (after_read (spell_of s.outage) reading now)
  unfolding observe_health observe_good
  observe_health-Tells scheduled s (failed kind) now = observe_failure-Tells s kind now
  observe_health-Tells scheduled s (good name players seconds build changed) now =
      let current : GoodRead = record {
        read_at = now;
        map_name = name;
        players = players;
        match_seconds = seconds;
        read_build = build;
      } in
      let judged = judge_read scheduled options s s.last_good current changed now in
      let settled = settle_pending scheduled options judged judged.state.pending players now in
      let (same, quiet) =
        settle_pending-IsQuiet options scheduled s judged judged.state.pending players now
          (judge_read-IsQuiet options scheduled s s.last_good current changed now) in
      let recovered = recover settled settled.state.outage now in
      let told =
        subst
          (λ o.
            Tells recovered (after_read (spell_of o) (good name players seconds build changed) now))
          same
          (good-Tells settled settled.state.outage name players seconds build changed now refl
            (quiet-no_news settled.alerts quiet)) in
      note_build-Tells _ recovered recovered.state.build build now told

  history-news :
      (scheduled : ℕ → Bool) (reads : List (ℕ × HealthReading)) (s : HealthState)
      → map (λ (now, alerts). filter is_news alerts) (history scheduled options s reads)
        ≡ outage_news (spell_of s.outage) reads
  unfolding history outage_news
  history-news scheduled [] s = refl
  history-news scheduled ((now, reading) ∷ reads) s =
      let (carries, tells) = observe_health-Tells scheduled s reading now in
      let rest =
        history-news scheduled reads (observe_health scheduled options s reading now).state in
      rw⁻¹ (carries, tells)
        (ap (λ news. filter is_news (observe_health scheduled options s reading now).alerts ∷ news)
          rest)

  -- Over any sequence of reads from the start, paused ones aside: game-down comes exactly at a failed read
  -- by which a spell of at least two failed reads has lasted the configured minutes, and once a spell;
  -- game-back comes exactly at the second good read in a row after it, which ends the spell. Both carry the
  -- spell's own numbers, and the two take turns.
  pub history-outage_news :
      (scheduled : ℕ → Bool) (reads : List (ℕ × HealthReading))
      → (map
            (λ (now, alerts). filter is_news alerts)
            (history scheduled options initial_health_state reads)
          ≡ outage_news none reads)
        × (accept_all
              (take_turns options)
              false
              (history scheduled options initial_health_state reads)
            ≡ some (is_told (final_state scheduled options initial_health_state reads)))
  unfolding initial_health_state
  history-outage_news scheduled reads = (
    history-news scheduled reads initial_health_state,
    history-take_turns options scheduled reads,
  )
