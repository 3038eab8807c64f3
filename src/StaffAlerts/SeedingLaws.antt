-- ===== src/StaffAlerts/SeedingLaws.antt =====
-- Traces of reads through `observeSeeding` of src/staff-alerts/seeding-state.ts.
use uncs_bot.Common.{
  Bool, List, Option, Option-cases, String, [], any, ap, arith, false, if_keeps, if◌then◌else◌, inl,
  inr, is_some, last_items, ltb, none, not, null, refl, some, str_eq, subst, sym, true, ℕ, ◌++◌,
  ◌||◌, ◌∙◌, ◌∷◌, ◌≡◌,
}
use uncs_bot.StaffAlerts.Seeding.{
  PrimeWindow, RestartMark, SeedingAlert, SeedingEpisode, SeedingOptions, SeedingReading,
  SeedingState, alert_after_restart, begin_low, in_prime, observe_low, observe_not_low,
  observe_seeding, pause, resume, seed_ok, seed_prime, seed_restart,
}

-- What staff were told of the current episode.
pub record Told : Type 0 where
  pub told_restart : Bool
  pub told_dates : List String

abbrev pub nothing_told : Told
nothing_told = record { told_restart = false; told_dates = [] }

-- One alert after those told: no trigger twice in an episode, and a recovery only after another alert.
abbrev pub tell : Told → SeedingAlert → Option Told
tell told (seed_restart id) =
    if told.told_restart then none else some record told { told_restart = true }
tell told (seed_prime id date) =
    if any (str_eq date) told.told_dates
    then none
    else some record told { told_dates = last_items 14 (told.told_dates ++ (date ∷ [])) }
tell told (seed_ok id) =
    if told.told_restart || not (null told.told_dates) then some nothing_told else none

unfoldable pub tell_all : Told → List SeedingAlert → Option Told
tell_all told [] = some told
tell_all told (alert ∷ alerts) = elim (tell told alert) [
  | none ↦ none
  | some next ↦ tell_all next alerts
]

abbrev pub told_of : SeedingState → Told
told_of none = nothing_told
told_of (some episode) = record {
  told_restart = episode.after_restart_sent;
  told_dates = episode.prime_dates;
}

tell_all-append :
    (told mid : Told) (xs ys : List SeedingAlert)
    → tell_all told xs ≡ some mid
    → tell_all told (xs ++ ys) ≡ tell_all mid ys
unfolding tell_all
tell_all-append told mid [] ys h = ground arith
tell_all-append told mid (x ∷ xs) ys h = elim (Option-cases (tell told x)) [
  | inl n ↦ absurd (ground arith)
  | inr (next, s) ↦
      let rest : tell_all next xs ≡ some mid = ground arith in
      rw (s, tell_all) (tell_all-append next mid xs ys rest)
]

pause-told : (state : SeedingState) (now : ℕ) → told_of (pause state now) ≡ told_of state
unfolding pause
pause-told none now = refl
pause-told (some episode) now = refl

resume-told : (state : SeedingState) (now : ℕ) → told_of (resume state now) ≡ told_of state
unfolding resume
resume-told none now = refl
resume-told (some episode) now = elim (Option-cases episode.paused_since) [
  | inl n ↦ rw (n, resume) refl
  | inr (since, s) ↦ rw (s, resume) refl
]

-- The alerts of a step are told in turn, and leave what the new state says.
abbrev TellsTo : Told → SeedingState × List SeedingAlert → Type 0
TellsTo told (state, alerts) = tell_all told alerts ≡ some (told_of state)

observe_not_low-tells :
    (state : SeedingState) (now : ℕ) → TellsTo (told_of state) (observe_not_low state now)
unfolding observe_not_low tell_all
observe_not_low-tells none now = refl
observe_not_low-tells (some episode) now = ground arith

alert_after_restart-tells :
    (options : SeedingOptions) (mark : Option RestartMark) (episode : SeedingEpisode) (now : ℕ)
    → tell_all (told_of (some episode)) (alert_after_restart options mark episode now).1
      ≡ some (told_of (some (alert_after_restart options mark episode now).0))
unfolding alert_after_restart tell_all
alert_after_restart-tells options none episode now = refl
alert_after_restart-tells options (some mark) episode now = ground arith

in_prime-tells :
    (options : SeedingOptions) (window : Option PrimeWindow) (episode : SeedingEpisode) (now : ℕ)
    → tell_all (told_of (some episode)) (in_prime options window episode now).1
      ≡ some (told_of (some (in_prime options window episode now).0))
unfolding in_prime tell_all
in_prime-tells options none episode now = refl
in_prime-tells options (some window) episode now = ground arith

begin_low-told :
    (state : SeedingState) (now : ℕ) → told_of (some (begin_low state now)) ≡ told_of state
begin_low-told none now = refl
begin_low-told (some episode) now = refl

module _ (window_at : ℕ → Option PrimeWindow) (options : SeedingOptions) where
  observe_low-tells :
      (reading : SeedingReading) (state : SeedingState) (now : ℕ)
      → TellsTo (told_of state) (observe_low window_at options reading state now)
  unfolding observe_low
  observe_low-tells reading state now =
      let first = alert_after_restart options reading.restart (begin_low state now) now in
      let start : tell_all (told_of state) first.1 ≡ some (told_of (some first.0)) =
        subst (λ t. tell_all t first.1 ≡ some (told_of (some first.0))) (begin_low-told state now)
          (alert_after_restart-tells options reading.restart (begin_low state now) now) in
      tell_all-append (told_of state) (told_of (some first.0)) first.1 _ start
      ∙ in_prime-tells options (window_at now) first.0 now

  observe_seeding-tells :
      (state : SeedingState) (reading : SeedingReading) (now : ℕ)
      → TellsTo (told_of state) (observe_seeding window_at state reading now options)
  unfolding observe_seeding tell_all
  observe_seeding-tells state reading now =
      let Q : SeedingState × List SeedingAlert → Type 0 = TellsTo (told_of state) in
      let paused : Q (pause state now, []) = ap some (sym (pause-told state now)) in
      elim (Option-cases reading.players_on) [
        | inl n ↦ rw (n, observe_seeding) paused
        | inr (players, s) ↦
            rw (s, observe_seeding)
              (if_keeps Q (not reading.reachable) _ _ (λ e. paused)
                (λ e.
                  if_keeps Q (ltb players options.below) _ _
                    (λ f.
                      subst
                        (λ t.
                          TellsTo t (observe_low window_at options reading (resume state now) now))
                        (resume-told state now) (observe_low-tells reading (resume state now) now))
                    (λ f.
                      subst (λ t. TellsTo t (observe_not_low (resume state now) now))
                        (resume-told state now) (observe_not_low-tells (resume state now) now))))
      ]

  -- The alerts of successive reads, each with its time.
  unfoldable pub seeding_alerts : SeedingState → List (SeedingReading × ℕ) → List SeedingAlert
  seeding_alerts state [] = []
  seeding_alerts state ((reading, now) ∷ reads) =
      (observe_seeding window_at state reading now options).1
      ++ seeding_alerts (observe_seeding window_at state reading now options).0 reads

  told_in_turn :
      (reads : List (SeedingReading × ℕ)) (state : SeedingState)
      → is_some (tell_all (told_of state) (seeding_alerts state reads)) ≡ true
  unfolding seeding_alerts tell_all
  told_in_turn [] state = refl
  told_in_turn ((reading, now) ∷ reads) state =
      let next = observe_seeding window_at state reading now options in
      subst (λ t. is_some t ≡ true)
        (sym (
          tell_all-append (told_of state) (told_of next.0) next.1 (seeding_alerts next.0 reads)
            (observe_seeding-tells state reading now)))
        (told_in_turn reads next.0)

  -- Over any reads at any times, an episode's alert after a restart comes at most once, no prime-time
  -- date among its last fourteen comes again, and a recovery comes only after another alert.
  pub seeding_alerts-tell_all :
      (reads : List (SeedingReading × ℕ))
      → is_some (tell_all nothing_told (seeding_alerts none reads)) ≡ true
  seeding_alerts-tell_all reads = told_in_turn reads none
