-- ===== src/Session/Life.antt =====
-- The life of a session between `Init` and its return to the stack, as interleaved steps.
use game_programmer_portfoli.Base.{
  ℕ, zero, suc, ◌+◌, ◌-◌, ◌<◌, ◌^◌, ◌≡◌, refl, ap, subst, ◌∙◌, Bool, if◌then◌else◌, ◌==◌, arith,
}
use game_programmer_portfoli.Session.{
  SessionControl, zero_control, increase_io_count, decrease_session_io_count, request_release,
  claim_cleanup,
}

-- The control word, the operations in flight that hold a count, the RELEASE completions waiting in
-- the completion port, and the number of times the body of `releaseSession` was entered.
pub record Life : Type 0 where
  pub control : SessionControl
  pub in_flight : ℕ
  pub posted : ℕ
  pub cleanups : ℕ

abbrev pub born : Life
born = record { control = zero_control; in_flight = 0; posted = 0; cleanups = 0 }

abbrev pub post : Bool → ℕ → ℕ
post b n = if b then n + 1 else n

-- What any thread may do next.
pub data Step : Type 0 where
  -- `IncreaseIoCount` before a WSARecv, a WSASend or the first receive
  increases : Step
  -- `decreaseSessionIoCount` of an operation in flight
  decreases : Step
  -- `requestRelease`, by whoever holds the session
  requests : Step
  -- a worker takes a RELEASE completion and calls `releaseSession`
  completes : Step

unfoldable pub apply : Step → Life → Life
apply increases l =
    let (counted, c) = increase_io_count l.control in
    record l { control = c; in_flight = post counted l.in_flight }
apply decreases l =
    let (posts, c) = decrease_session_io_count l.control in
    if l.in_flight == 0
    then l
    else record l { control = c; in_flight = l.in_flight - 1; posted = post posts l.posted }
apply requests l =
    let (posts, c) = request_release l.control in
    record l { control = c; posted = post posts l.posted }
apply completes l =
    let (cleans, c) = claim_cleanup l.control in
    if l.posted == 0
    then l
    else record l { control = c; posted = l.posted - 1; cleanups = post cleans l.cleanups }

-- What these steps amount to: a session that is open with so many operations, one that is closing
-- with so many and one more, one whose end is posted, and one that is cleaned up.
pub data Phase : Type 0 where
  opened closing : ℕ → Phase
  ending cleaned : Phase

unfoldable pub phase_step : Step → Phase → Phase
phase_step increases (opened n) = opened (n + 1)
phase_step decreases (opened n) = opened (n - 1)
phase_step requests (opened zero) = ending
phase_step requests (opened (suc n)) = closing n
phase_step completes (opened n) = opened n
phase_step decreases (closing zero) = ending
phase_step decreases (closing (suc n)) = closing n
phase_step increases (closing n) = closing n
phase_step requests (closing n) = closing n
phase_step completes (closing n) = closing n
phase_step completes ending = cleaned
phase_step increases ending = ending
phase_step decreases ending = ending
phase_step requests ending = ending
phase_step s cleaned = cleaned

abbrev pub life : Phase → Life
life (opened n) = record {
  control = record { io_count = n; release_flag = 0 };
  in_flight = n;
  posted = 0;
  cleanups = 0;
}
life (closing n) = record {
  control = record { io_count = suc n; release_flag = 1 };
  in_flight = suc n;
  posted = 0;
  cleanups = 0;
}
life ending = record {
  control = record { io_count = 0; release_flag = 1 };
  in_flight = 0;
  posted = 1;
  cleanups = 0;
}
life cleaned = record {
  control = record { io_count = 0; release_flag = 3 };
  in_flight = 0;
  posted = 0;
  cleanups = 1;
}

-- With fewer operations in flight than 32 bits count less one, each step of the control word takes
-- a session in one of four phases (open or closing with a number of operations, end posted, cleaned
-- up) to the phase that the automaton of the phases gives.
pub apply-life :
    (s : Step) (ph : Phase)
    → (life ph).in_flight + 1 < 2 ^ 32
    → apply s (life ph) ≡ life (phase_step s ph)
unfolding apply phase_step increase_io_count decrease_session_io_count request_release claim_cleanup
apply-life increases (opened n) h = ground arith
apply-life decreases (opened zero) h = ground arith
apply-life decreases (opened (suc n)) h = ground arith
apply-life requests (opened zero) h = ground arith
apply-life requests (opened (suc n)) h = ground arith
apply-life completes (opened n) h = ground arith
apply-life increases (closing n) h = ground arith
apply-life decreases (closing zero) h = ground arith
apply-life decreases (closing (suc n)) h = ground arith
apply-life requests (closing n) h = ground arith
apply-life completes (closing n) h = ground arith
apply-life increases ending h = ground arith
apply-life decreases ending h = ground arith
apply-life requests ending h = ground arith
apply-life completes ending h = ground arith
apply-life increases cleaned h = ground arith
apply-life decreases cleaned h = ground arith
apply-life requests cleaned h = ground arith
apply-life completes cleaned h = ground arith

-- What interleaved steps lead to, from `Init` on; fewer operations than the count can hold are in
-- flight.
pub data Reaches : Life → Type 0 where
  starts : Reaches born
  goes : {l : Life} (s : Step) → l.in_flight + 1 < 2 ^ 32 → Reaches l → Reaches (apply s l)

-- Every life that steps lead to is in one of the four phases.
pub Reaches-phase : {l : Life} → Reaches l → (ph : Phase) × (l ≡ life ph)
Reaches-phase starts = (opened 0, refl)
Reaches-phase (goes {l} s h path) =
    let (ph, e) = Reaches-phase path in
    (phase_step s ph, ap (apply s) e ∙ apply-life s ph (subst (λ x. x.in_flight + 1 < 2 ^ 32) e h))
