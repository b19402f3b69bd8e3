-- ===== src/Timeout/Examples.antt =====
-- A player that stays idle for a second time.
use game_programmer_portfoli.Base.{◌-◌, ◌≤◌, ◌<◌, ◌≡◌, refl, ◌⊎◌, true, false, List, [], ◌∷◌, arith}
use game_programmer_portfoli.Timeout.{Clock, on_connect, on_login, update_heartbeat, check_time_out}
use game_programmer_portfoli.Timeout.Once.{
  Event, logs_in, beats, checks, reports, reports_once, check_time_out_lem,
}

abbrev clock : Clock
clock = record {
  is_logged_in = false;
  will_delete = false;
  connect_time = 0;
  last_active_time = 0;
  timeout_logged = false;
}

abbrev idle_twice : List Event
idle_twice = checks 70000 ∷ logs_in 80000 ∷ checks 300000 ∷ beats 300001 ∷ checks 900000 ∷ []

idle_twice-reports : reports (on_connect clock 1) idle_twice ≡ 1
unfolding reports on_connect on_login update_heartbeat check_time_out
idle_twice-reports = refl

reports_once_example : reports (on_connect clock 1) idle_twice ≤ 1
reports_once_example = reports_once clock 1 idle_twice

check_time_out_example :
    ((60000 < 70000 - 0)
      × ((check_time_out clock 70000).0 ≡ true)
      × ((check_time_out clock 70000).1.timeout_logged ≡ true))
    ⊎ ((70000 - 0 ≤ 60000) × (check_time_out clock 70000 ≡ (false, clock)))
check_time_out_example = check_time_out_lem clock 70000 refl refl (omega arith) (omega arith)
