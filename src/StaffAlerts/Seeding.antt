-- ===== src/StaffAlerts/Seeding.antt =====
-- `observeSeeding` of src/staff-alerts/seeding-state.ts. `windowAt`, which asks the time zone database, is
-- a parameter; the texts and facts of the alerts are left out, and an alert is its kind and key.
use uncs_bot.Common.{
  Bool, List, Option, String, [], any, false, if◌then◌else◌, last_items, leb, ltb, none, not, null,
  or_else, some, str_eq, true, ℕ, ◌&&◌, ◌*◌, ◌++◌, ◌+◌, ◌-◌, ◌||◌, ◌∷◌,
}

pub data RestartKind : Type 0 where
  restarted came_back : RestartKind

pub record RestartMark : Type 0 where
  pub restart_at : ℕ
  pub restart_kind : RestartKind

pub record SeedingReading : Type 0 where
  pub reachable : Bool
  pub players_on : Option ℕ
  pub restart : Option RestartMark

pub record SeedingEpisode : Type 0 where
  pub episode_id : ℕ
  pub started_at : ℕ
  pub pauses : List (ℕ × ℕ)
  pub paused_since : Option ℕ
  pub not_low_since : Option ℕ
  pub after_restart_sent : Bool
  pub prime_dates : List String

-- `SeedingState`
abbrev pub SeedingState : Type 0
SeedingState = Option SeedingEpisode

-- The keys `seed-restart:`, `seed-prime:` and `seed-ok:`.
pub data SeedingAlert : Type 0 where
  seed_restart : ℕ → SeedingAlert
  seed_prime : ℕ → String → SeedingAlert
  seed_ok : ℕ → SeedingAlert

pub record SeedingOptions : Type 0 where
  pub below : ℕ
  pub minutes : ℕ
  pub after_restart_hours : ℕ

-- What `windowAt` answers: the window's date and start.
pub record PrimeWindow : Type 0 where
  pub window_date : String
  pub window_start : ℕ

abbrev pub seeding_end_ms : ℕ
seeding_end_ms = 300000

abbrev max_pauses : ℕ
max_pauses = 50

abbrev larger_of : ℕ → ℕ → ℕ
larger_of a b = if leb a b then b else a

abbrev smaller_of : ℕ → ℕ → ℕ
smaller_of a b = if leb a b then a else b

-- The time of the spans inside the times from `from` to `now`.
unfoldable pub paused_time : List (ℕ × ℕ) → ℕ → ℕ → ℕ
paused_time [] from now = 0
paused_time ((start, finish) ∷ spans) from now =
    (smaller_of finish now - larger_of start from) + paused_time spans from now

abbrev open_span : Option ℕ → ℕ → List (ℕ × ℕ)
open_span none now = []
open_span (some since) now = (since, now) ∷ []

-- `lowElapsed`
unfoldable pub low_elapsed : SeedingEpisode → ℕ → ℕ → ℕ
low_elapsed episode from now =
    (now - from) - paused_time (episode.pauses ++ open_span episode.paused_since now) from now

-- An unreachable read.
unfoldable pub pause : SeedingState → ℕ → SeedingState
pause none now = none
pause (some episode) now =
    some record episode { paused_since = some (or_else episode.paused_since now) }

-- A reachable read ends the pause.
unfoldable pub resume : SeedingState → ℕ → SeedingState
resume none now = none
resume (some episode) now = elim episode.paused_since [
  | none ↦ some episode
  | some since ↦ some record episode {
    pauses = last_items max_pauses (episode.pauses ++ ((since, now) ∷ []));
    paused_since = none;
  }
]

abbrev pub was_alerted : SeedingEpisode → Bool
was_alerted episode = episode.after_restart_sent || not (null episode.prime_dates)

-- A read that is not low: after five minutes of them the episode is over.
unfoldable pub observe_not_low : SeedingState → ℕ → SeedingState × List SeedingAlert
observe_not_low none now = (none, [])
observe_not_low (some episode) now =
    let since = or_else episode.not_low_since now in
    if leb (since + seeding_end_ms) now
    then (none, (if was_alerted episode then seed_ok episode.episode_id ∷ [] else []))
    else (some record episode { not_low_since = some since }, [])

abbrev pub begin_low : SeedingState → ℕ → SeedingEpisode
begin_low (some episode) now = record episode { not_low_since = none }
begin_low none now = record {
  episode_id = now;
  started_at = now;
  pauses = [];
  paused_since = none;
  not_low_since = none;
  after_restart_sent = false;
  prime_dates = [];
}

abbrev is_recent : SeedingOptions → RestartMark → ℕ → Bool
is_recent options mark now =
    ltb 0 options.after_restart_hours
    && leb mark.restart_at now
    && leb now (mark.restart_at + options.after_restart_hours * 3600000)

unfoldable pub alert_after_restart :
    SeedingOptions → Option RestartMark → SeedingEpisode → ℕ → SeedingEpisode × List SeedingAlert
alert_after_restart options none episode now = (episode, [])
alert_after_restart options (some mark) episode now =
    let elapsed = low_elapsed episode (larger_of episode.started_at mark.restart_at) now in
    if is_recent options mark now
      && not episode.after_restart_sent
      && leb (options.minutes * 60000) elapsed
    then (record episode { after_restart_sent = true }, seed_restart episode.episode_id ∷ [])
    else (episode, [])

unfoldable pub in_prime :
    SeedingOptions → Option PrimeWindow → SeedingEpisode → ℕ → SeedingEpisode × List SeedingAlert
in_prime options none episode now = (episode, [])
in_prime options (some window) episode now =
    let elapsed = low_elapsed episode (larger_of episode.started_at window.window_start) now in
    if not (any (str_eq window.window_date) episode.prime_dates)
      && leb (options.minutes * 60000) elapsed
    then (
      record episode {
        prime_dates = last_items 14 (episode.prime_dates ++ (window.window_date ∷ []));
      },
      seed_prime episode.episode_id window.window_date ∷ [],
    )
    else (episode, [])

module _ (window_at : ℕ → Option PrimeWindow) where
  -- A low read.
  unfoldable pub observe_low :
      SeedingOptions → SeedingReading → SeedingState → ℕ → SeedingState × List SeedingAlert
  observe_low options reading state now =
      let (first, alerts) = alert_after_restart options reading.restart (begin_low state now) now in
      let (last, more) = in_prime options (window_at now) first now in (some last, alerts ++ more)

  -- `observeSeeding`
  unfoldable pub observe_seeding :
      SeedingState → SeedingReading → ℕ → SeedingOptions → SeedingState × List SeedingAlert
  observe_seeding previous reading now options = elim reading.players_on [
    | none ↦ (pause previous now, [])
    | some players ↦
        if not reading.reachable
        then (pause previous now, [])
        else if ltb players options.below
        then observe_low options reading (resume previous now) now
        else observe_not_low (resume previous now) now
  ]
