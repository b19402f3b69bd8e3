-- ===== src/Timeout.antt =====
-- The idle clock of Player.h and `CheckTimeOut` of ChatServer.cpp
-- (projects/multithread-chat-server/Server/ChatingServer). `now` is what `GetTickCount64` returns; the
-- times are 64 bits wide, and so is their difference.
pub mod Once
mod Examples
use game_programmer_portfoli.Base.{
  ℕ, ◌+◌, ◌-◌, ◌%◌, ◌^◌, Bool, true, false, not, ◌&&◌, List, [], ◌∷◌, ltb, if◌then◌else◌,
}

-- The fields that the clock reads and sets.
pub record Clock : Type 0 where
  pub is_logged_in : Bool
  pub will_delete : Bool
  pub connect_time : ℕ
  pub last_active_time : ℕ
  pub timeout_logged : Bool

unfoldable pub on_connect : Clock → ℕ → Clock
on_connect c now = record c { connect_time = now; timeout_logged = false }

unfoldable pub on_login : Clock → ℕ → Clock
on_login c now = record c { last_active_time = now; is_logged_in = true }

unfoldable pub update_heartbeat : Clock → ℕ → Clock
update_heartbeat c now = record c { last_active_time = now }

pub record TimeoutInfo : Type 0 where
  pub expired : Bool
  pub first_report : Bool
  pub logged_in : Bool
  pub idle_ms : ℕ

unfoldable pub check_time_out_snapshot : Clock → ℕ → TimeoutInfo × Clock
check_time_out_snapshot c now =
    let base = if c.is_logged_in then c.last_active_time else c.connect_time in
    let idle = (now + 2 ^ 64 - base) % 2 ^ 64 in
    let limit = if c.is_logged_in then 120000 else 60000 in
    let expired = ltb limit idle in
    (
      record {
        expired = expired;
        first_report = expired && not c.timeout_logged;
        logged_in = c.is_logged_in;
        idle_ms = idle;
      },
      if expired then record c { timeout_logged = true } else c,
    )

-- One player's turn in the loop of `CheckTimeOut`: whether it is counted and logged.
unfoldable pub check_time_out : Clock → ℕ → Bool × Clock
unfolding check_time_out_snapshot
check_time_out c now =
    let (snap, c') = check_time_out_snapshot c now in
    if c.will_delete then (false, c) else (snap.expired && snap.first_report, c')
