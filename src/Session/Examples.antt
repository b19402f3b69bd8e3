-- ===== src/Session/Examples.antt =====
-- A session with one operation in flight whose end is requested, and a pool of two sessions.
use game_programmer_portfoli.Base.{
  ℕ, zero, suc, ◌≡◌, refl, ap, ◌∙◌, ◌⊎◌, [], ◌∷◌, Option, none, some, get_elem?, arith, true, Bool,
  false,
}
use game_programmer_portfoli.Session.Life.{
  Life, Reaches, starts, goes, increases, requests, opened, apply, apply-life, life, phase_step,
  born,
}
use game_programmer_portfoli.Session.Release.{IsSafe, Reaches-IsSafe, shut_down, shut_down-cleans}
use game_programmer_portfoli.Session.{increase_io_count, request_release}
use game_programmer_portfoli.Session.Pool.{
  Slot, SessionPool, free, is_connected, pack_id, create_session, find_session, return_session,
}
use game_programmer_portfoli.Session.Pool.Handles.{InUse, IsValid, AllFree, NotIn}
use game_programmer_portfoli.Session.Pool.Stale.{
  stays, creates, create_session-lem, return_session-stale,
}
use game_programmer_portfoli.Session.Pool.Steps.{created, created-IsValid}

abbrev closing_life : Life
closing_life = apply requests (apply increases born)

one-in_flight : closing_life.in_flight ≡ 1
unfolding apply increase_io_count request_release
one-in_flight = refl

first-in_flight : (apply increases born).in_flight ≡ 1
unfolding apply increase_io_count
first-in_flight = refl

closing-Reaches : Reaches closing_life
closing-Reaches =
    goes requests (omega (arith, first-in_flight)) (goes increases (omega arith) starts)

Reaches-IsSafe_example : IsSafe closing_life
Reaches-IsSafe_example = Reaches-IsSafe closing-Reaches

shut_down-cleans_example :
    ((shut_down closing_life).cleanups ≡ 1)
    × ((shut_down closing_life).in_flight ≡ 0)
    × ((shut_down closing_life).posted ≡ 0)
shut_down-cleans_example = shut_down-cleans closing-Reaches (omega (arith, one-in_flight))

apply-life_example : apply requests (life (opened 2)) ≡ life (phase_step requests (opened 2))
apply-life_example = apply-life requests (opened 2) (omega arith)

abbrev idle : Slot
idle = record { id = 0; state = free }

abbrev pool : SessionPool
pool = record { sessions = idle ∷ idle ∷ []; empty_stack = 1 ∷ 0 ∷ []; session_id = 0 }

abbrev in_use : Option Slot → Bool
in_use none = false
in_use (some s) = is_connected s.state

idle-unused : (j id : ℕ) → InUse (idle ∷ idle ∷ []) j id → ⊥
idle-unused j id u = clash (all_idle j) (ap in_use u.there ∙ u.open_slot)
  where
    all_idle : (j : ℕ) → in_use (get_elem? (idle ∷ idle ∷ []) j) ≡ false
    all_idle zero = refl
    all_idle (suc zero) = refl
    all_idle (suc (suc j)) = refl

    clash : {b : Bool} → b ≡ false → b ≡ true → ⊥
    clash e f = cc

pool-IsValid : IsValid pool
unfolding AllFree NotIn
pool-IsValid = record {
  few = omega arith;
  numbered = λ j id u. absurd (idle-unused j id u);
  stack = ((idle, refl, refl), (λ e. omega arith, tt), ((idle, refl, refl), tt, tt));
}

-- After one `createSession`.
abbrev used_pool : SessionPool
used_pool = created pool 1 (0 ∷ [])

used_pool-IsValid : IsValid used_pool
used_pool-IsValid = created-IsValid pool 1 (0 ∷ []) pool-IsValid refl (omega arith)

create_session_example :
    ((pool.empty_stack ≡ []) × (create_session pool ≡ (none, pool)))
    ⊎ ((i : ℕ) × (q : SessionPool) × (create_session pool ≡ (some i, q))
        × IsValid q
        × ((id : ℕ) → find_session pool id ≡ some i → ⊥)
        × (find_session q (pack_id i 0) ≡ some i)
        × ((j id : ℕ) → find_session pool id ≡ some j → find_session q id ≡ some j))
create_session_example = create_session-lem pool pool-IsValid (omega arith)

found : find_session used_pool (pack_id 1 0) ≡ some 1
unfolding find_session
found = refl

-- Its session is released, and the index is given out again under another id.
abbrev reused : SessionPool
reused = (create_session (return_session used_pool 1)).1

next_id : (return_session used_pool 1).session_id ≡ 1
unfolding return_session
next_id = refl

found_again : find_session reused (pack_id 1 1) ≡ some 1
unfolding find_session create_session return_session
found_again = refl

return_session-stale_example : find_session reused (pack_id 1 0) ≡ none
return_session-stale_example =
    return_session-stale used_pool reused 1 (pack_id 1 0) used_pool-IsValid found
      (creates stays (omega (arith, next_id)))
