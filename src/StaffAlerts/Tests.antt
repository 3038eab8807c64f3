-- ===== src/StaffAlerts/Tests.antt =====
-- An outage of a full server and its alerts, and the theorems at it.
use uncs_bot.Common.{Bool, List, String, [], false, filter, map, none, refl, some, ℕ, ◌∷◌, ◌≡◌}
use uncs_bot.Ballots.Selection.{map_label, same_map}
use uncs_bot.StaffAlerts.Health.{
  HealthAlert, HealthOptions, HealthReading, failed, game_back, game_build, game_down, game_restart,
  good, initial_health_state, paused, unreachable,
}
use uncs_bot.StaffAlerts.Monitor.{accept_all, final_state, history}
use uncs_bot.StaffAlerts.Outages.{is_told, take_turns}
use uncs_bot.StaffAlerts.OutageNews.{history-outage_news, is_news, outage_news}
use uncs_bot.StaffAlerts.Restarts.{history-keep_distance, keep_distance}

abbrev never : ℕ → Bool
never at = false

abbrev three_minutes : HealthOptions
three_minutes = record { down_minutes = 3; restart_players = 10 }

abbrev up : String → ℕ → HealthReading
up name players = good name players none none false

-- Down for four minutes, then an empty server on another map.
abbrev crash : List (ℕ × HealthReading)
crash =
    (0, up "Kavkazi" 60)
    ∷ (60000, failed unreachable)
    ∷ (120000, failed paused)
    ∷ (240000, failed unreachable)
    ∷ (300000, up "Europe" 0)
    ∷ (330000, up "Europe" 1)
    ∷ []

-- The kinds of the alerts of a trace.
abbrev kind_number : HealthAlert → ℕ
kind_number (game_down since failures kind) = 1
kind_number (game_back since back) = 2
kind_number (game_restart at before signals planned posted) = 3
kind_number (game_build known build after) = 4

crash_alerts :
    map
      (λ (now, alerts). map kind_number alerts)
      (history never three_minutes initial_health_state crash)
    ≡ [] ∷ [] ∷ [] ∷ (1 ∷ []) ∷ (3 ∷ []) ∷ (2 ∷ []) ∷ []
unfolding history initial_health_state same_map map_label
crash_alerts = refl

crash_news :
    map (map kind_number) (outage_news three_minutes none crash)
    ≡ [] ∷ [] ∷ [] ∷ (1 ∷ []) ∷ [] ∷ (2 ∷ []) ∷ []
unfolding outage_news
crash_news = refl

history-outage_news_example :
    (map
        (λ (now, alerts). filter is_news alerts)
        (history never three_minutes initial_health_state crash)
      ≡ outage_news three_minutes none crash)
    × (accept_all
          (take_turns three_minutes)
          false
          (history never three_minutes initial_health_state crash)
        ≡ some (is_told (final_state never three_minutes initial_health_state crash)))
history-outage_news_example = history-outage_news three_minutes never crash

history-keep_distance_example :
    accept_all keep_distance none (history never three_minutes initial_health_state crash)
    ≡ some (final_state never three_minutes initial_health_state crash).last_restart_alert_at
history-keep_distance_example = history-keep_distance never three_minutes crash
