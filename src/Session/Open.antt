-- ===== src/Session/Open.antt =====
-- The control word of a session whose end is not requested.
use game_programmer_portfoli.Base.{
  ◌+◌, ◌^◌, ◌≤◌, ◌<◌, ◌≡◌, refl, true, ◌==◌, inl, inr, Bool-cases, arith, mod-below,
}
use game_programmer_portfoli.Session.{
  SessionControl, increase_io_count, decrease_session_io_count, fetch_sub_1,
}

-- No end is requested, and an operation is in flight.
pub record IsOpen (c : SessionControl) : Type 0 where
  pub flag : c.release_flag ≡ 0
  pub counted : 1 ≤ c.io_count
  pub room : c.io_count + 1 < 2 ^ 32

-- An operation may start, and when it ends at once the session is open as before.
pub increase-IsOpen :
    (c : SessionControl)
    → IsOpen c
    → ((increase_io_count c).0 ≡ true)
      × IsOpen (decrease_session_io_count (increase_io_count c).1).1
unfolding increase_io_count decrease_session_io_count fetch_sub_1
increase-IsOpen c o =
    let m = mod-below (c.io_count + 1) (2 ^ 32) o.room in
    elim (Bool-cases (c.io_count + 1 == 0)) [
      | inl e ↦ absurd (ground (arith, e))
      | inr e ↦
          rw (o.flag, m, e)
            (
              refl,
              record {
                flag = refl;
                counted = omega (arith, o.counted);
                room = omega (arith, o.room);
              },
            )
    ]
