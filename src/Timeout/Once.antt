-- ===== src/Timeout/Once.antt =====
-- A session's timeout is counted at most once.
use game_programmer_portfoli.Base.{
  ℕ, suc, ◌-◌, ◌^◌, ◌≤◌, ◌<◌, ◌≡◌, true, false, List, [], ◌∷◌, if◌then◌else◌, arith, ◌⊎◌,
}
use game_programmer_portfoli.Timeout.{Clock, on_connect, on_login, update_heartbeat, check_time_out}

-- What happens to a player between `OnConnect` and the end of the session.
pub data Event : Type 0 where
  logs_in beats checks : ℕ → Event
  set_will_delete : Event

-- The number of times that the events count the player as timed out.
unfoldable pub reports : Clock → List Event → ℕ
reports c [] = 0
reports c (logs_in now ∷ es) = reports (on_login c now) es
reports c (beats now ∷ es) = reports (update_heartbeat c now) es
reports c (set_will_delete ∷ es) = reports (record c { will_delete = true }) es
reports c (checks now ∷ es) =
    let (counted, c') = check_time_out c now in
    let rest = reports c' es in if counted then suc rest else rest

reports_bound : (es : List Event) (c : Clock) → reports c es ≤ (if c.timeout_logged then 0 else 1)
unfolding reports on_login update_heartbeat check_time_out
reports_bound [] c = ground arith
reports_bound (logs_in now ∷ es) c = reports_bound es (on_login c now)
reports_bound (beats now ∷ es) c = reports_bound es (update_heartbeat c now)
reports_bound (set_will_delete ∷ es) c = reports_bound es (record c { will_delete = true })
reports_bound (checks now ∷ es) c =
    ground (arith, reports_bound es (record c { timeout_logged = true }), reports_bound es c)

-- After `OnConnect`, logins, heartbeats, `SetWillDelete` and checks, in any order and at any times,
-- count a player as timed out at most once.
pub reports_once : (c : Clock) (now : ℕ) (es : List Event) → reports (on_connect c now) es ≤ 1
unfolding on_connect
reports_once c now es = reports_bound es (on_connect c now)

-- A check of a player that is not to be deleted and was not counted before, whose base time (the
-- last activity after a login, else the connection) is not past the present one, counts and marks
-- it if it has been idle for more than 120000 ms with a login or 60000 ms without, and otherwise
-- neither counts it nor changes it.
pub check_time_out_lem :
    (c : Clock) (now : ℕ)
    → c.will_delete ≡ false
    → c.timeout_logged ≡ false
    → let base : ℕ = if c.is_logged_in then c.last_active_time else c.connect_time in
      let limit : ℕ = if c.is_logged_in then 120000 else 60000 in
      base ≤ now
      → now < 2 ^ 64
      → ((limit < now - base)
          × ((check_time_out c now).0 ≡ true)
          × ((check_time_out c now).1.timeout_logged ≡ true))
        ⊎ ((now - base ≤ limit) × (check_time_out c now ≡ (false, c)))
unfolding check_time_out
check_time_out_lem c now w l h k = ground arith
