-- ===== src/Session/Control.antt =====
-- The calls on the control word of a session whose end is requested once, by their counts.
use game_programmer_portfoli.Base.{
  ℕ, ◌+◌, ◌-◌, ◌^◌, ◌≤◌, ◌<◌, ◌≡◌, refl, true, false, ◌==◌, inl, inr, Bool-cases, arith, mod-below,
}
use game_programmer_portfoli.Session.{
  SessionControl, increase_io_count, decrease_session_io_count, request_release,
  try_set_release_flag, fetch_sub_1,
}

-- Open, or with the end requested, and `n` operations in flight.
abbrev pub open_with : ℕ → SessionControl
open_with n = record { io_count = n; release_flag = 0 }

abbrev pub ending_with : ℕ → SessionControl
ending_with n = record { io_count = n; release_flag = 1 }

pub increase_counted :
    (n : ℕ) → n + 1 < 2 ^ 32 → increase_io_count (open_with n) ≡ (true, open_with (n + 1))
unfolding increase_io_count
increase_counted n h = rw (mod-below (n + 1) (2 ^ 32) h) refl

pub increase_ending : (n : ℕ) → increase_io_count (ending_with n) ≡ (false, ending_with n)
unfolding increase_io_count
increase_ending n = refl

pub request_first : (n : ℕ) → 1 ≤ n → request_release (open_with n) ≡ (false, ending_with n)
unfolding request_release try_set_release_flag
request_first n h = elim (Bool-cases (n == 0)) [
  | inl e ↦ absurd (ground (arith, e, h))
  | inr e ↦ rw e refl
]

pub request_again : (n : ℕ) → request_release (ending_with n) ≡ (false, ending_with n)
unfolding request_release try_set_release_flag
request_again n = refl

pub decrease_open :
    (n : ℕ) → 1 ≤ n → decrease_session_io_count (open_with n) ≡ (false, open_with (n - 1))
unfolding decrease_session_io_count fetch_sub_1
decrease_open n h = ground (arith, h)

pub decrease_ending :
    (n : ℕ) → 1 ≤ n → decrease_session_io_count (ending_with n) ≡ (n == 1, ending_with (n - 1))
unfolding decrease_session_io_count fetch_sub_1
decrease_ending n h = ground (arith, h)
