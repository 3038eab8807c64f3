-- ===== src/StaffAlerts/SeedingTests.antt =====
-- A server that stays low into prime time, and the theorem at its reads.
use uncs_bot.Common.{List, Option, [], is_some, last_items, none, refl, some, true, ℕ, ◌∷◌, ◌≡◌}
use uncs_bot.StaffAlerts.Seeding.{
  PrimeWindow, SeedingOptions, SeedingReading, alert_after_restart, in_prime, low_elapsed,
  observe_low, observe_not_low, observe_seeding, pause, paused_time, resume, seed_ok, seed_prime,
}
use uncs_bot.StaffAlerts.SeedingLaws.{
  nothing_told, seeding_alerts, seeding_alerts-tell_all, tell_all,
}

abbrev evening : ℕ → Option PrimeWindow
evening now = some record { window_date = "2026-03-01"; window_start = 1000 }

abbrev usual_options : SeedingOptions
usual_options = record { below = 10; minutes = 1; after_restart_hours = 0 }

abbrev players_read : ℕ → ℕ → SeedingReading × ℕ
players_read players at =
    (record { reachable = true; players_on = some players; restart = none }, at)

abbrev evening_reads : List (SeedingReading × ℕ)
evening_reads =
    players_read 3 2000
    ∷ players_read 3 63000
    ∷ players_read 3 90000
    ∷ players_read 40 100000
    ∷ players_read 40 400000
    ∷ []

evening_alerts :
    seeding_alerts evening usual_options none evening_reads
    ≡ seed_prime 2000 "2026-03-01" ∷ seed_ok 2000 ∷ []
unfolding seeding_alerts observe_seeding observe_low observe_not_low resume pause
    alert_after_restart in_prime low_elapsed paused_time last_items
evening_alerts = refl

seeding_alerts-tell_all_example :
    is_some (tell_all nothing_told (seeding_alerts evening usual_options none evening_reads)) ≡ true
seeding_alerts-tell_all_example = seeding_alerts-tell_all evening usual_options evening_reads
