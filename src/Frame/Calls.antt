-- ===== src/Frame/Calls.antt =====
-- What the calls of `OnRecv` do to the count and the end of their session (`DisConnect` and `SendPacket`
-- in BaseServer.cpp).
use game_programmer_portfoli.Base.{
  ℕ, ◌+◌, ◌-◌, ◌^◌, ◌≤◌, ◌<◌, ◌≡◌, refl, ◌∙◌, Bool, true, false, ◌||◌, List, [], ◌∷◌, length,
  if◌then◌else◌, one_if, subst, arith, Bool-cases, inl, inr,
}
use game_programmer_portfoli.Session.{SessionControl, increase_io_count}
use game_programmer_portfoli.Session.Control.{
  open_with, ending_with, increase_counted, increase_ending, decrease_open, decrease_ending,
  request_first,
}
use game_programmer_portfoli.Frame.Complete.{
  RecvSession, decrease_count, request_end, SessionCall, disconnects, sends, waits, starts, full,
  fails, begin_operation, within, on_call, on_calls,
}

-- Whether a call requests the end of an open session.
pub cuts : SessionCall → Bool
cuts disconnects = true
cuts (sends waits) = false
cuts (sends starts) = false
cuts (sends full) = true
cuts (sends fails) = true

-- Whether it leaves a send in flight.
pub starts_send : SessionCall → Bool
starts_send disconnects = false
starts_send (sends waits) = false
starts_send (sends starts) = true
starts_send (sends full) = false
starts_send (sends fails) = false

pub any_cuts : List SessionCall → Bool
any_cuts [] = false
any_cuts (c ∷ cs) = cuts c || any_cuts cs

-- The sends that are started before the end is requested.
pub started : List SessionCall → ℕ
started [] = 0
started (c ∷ cs) = if cuts c then 0 else one_if (starts_send c) + started cs

-- The control word is `control`, and nothing else has changed.
pub record Called (control : SessionControl) (s t : RecvSession) : Type 0 where
  pub now : t.control ≡ control
  pub ring : t.ring ≡ s.ring
  pub received : t.received ≡ s.received
  pub posted : t.posted ≡ s.posted
  pub releases : t.releases ≡ s.releases

-- The control word of a session with `n` operations in flight, its end requested or not.
abbrev pub word : Bool → ℕ → SessionControl
word ending n = if ending then ending_with n else open_with n

Called-trans :
    {c d : SessionControl} {s t u : RecvSession} → Called c s t → Called d t u → Called d s u
Called-trans a b = record {
  now = b.now;
  ring = b.ring ∙ a.ring;
  received = b.received ∙ a.received;
  posted = b.posted ∙ a.posted;
  releases = b.releases ∙ a.releases;
}

counts_down :
    (ending : Bool) (n : ℕ) (s : RecvSession)
    → 2 ≤ n
    → s.control ≡ word ending n
    → Called (word ending (n - 1)) s (decrease_count s)
unfolding decrease_count
counts_down true n s h e =
    let d = decrease_ending n (omega arith) in
    record {
      now = rw (e, d) refl;
      ring = refl;
      received = refl;
      posted = refl;
      releases = rw (e, d) (ground (arith, h));
    }
counts_down false n s h e =
    let d = decrease_open n (omega arith) in
    record {
      now = rw (e, d) refl;
      ring = refl;
      received = refl;
      posted = refl;
      releases = rw (e, d) (omega arith);
    }

ends_open :
    (n : ℕ) (s : RecvSession)
    → 1 ≤ n
    → s.control ≡ open_with n
    → Called (ending_with n) s (request_end s)
unfolding request_end
ends_open n s h e = record {
  now = rw (e, request_first n h) refl;
  ring = refl;
  received = refl;
  posted = refl;
  releases = rw (e, request_first n h) (omega arith);
}

begins :
    (n : ℕ) (s : RecvSession)
    → n + 1 < 2 ^ 32
    → s.control ≡ open_with n
    → Called (open_with (n + 1)) s (begin_operation s)
unfolding begin_operation
begins n s h e = record {
  now = rw (e, increase_counted n h) refl;
  ring = refl;
  received = refl;
  posted = refl;
  releases = refl;
}

-- The count of a word, written in another way.
recount :
    (ending : Bool) {m n : ℕ} {s t : RecvSession}
    → m ≡ n
    → Called (word ending m) s t
    → Called (word ending n) s t
recount ending {m} {n} {s} {t} e = subst (λ k. Called (word ending k) s t) e

Called-refl : (s : RecvSession) → Called s.control s s
Called-refl s = record { now = refl; ring = refl; received = refl; posted = refl; releases = refl }

within_lem :
    (c : SessionCall) (n : ℕ) (s : RecvSession)
    → 2 ≤ n
    → n + 1 < 2 ^ 32
    → s.control ≡ open_with n
    → Called (word (cuts c) (n + one_if (starts_send c))) s (within c s)
unfolding within cuts starts_send
within_lem disconnects n s h l e = recount true (omega arith) (ends_open n s (omega arith) e)
within_lem (sends waits) n s h l e =
    recount false {m = n} (omega arith) (subst (λ c. Called c s s) e (Called-refl s))
within_lem (sends starts) n s h l e = begins n s l e
within_lem (sends full) n s h l e = recount true (omega arith) (ends_open n s (omega arith) e)
within_lem (sends fails) n s h l e =
    let a = begins n s l e in
    let b = ends_open (n + 1) (begin_operation s) (omega arith) a.now in
    let c = counts_down true (n + 1) (request_end (begin_operation s)) (omega arith) b.now in
    recount true (omega arith) (Called-trans a (Called-trans b c))

on_call-open :
    (c : SessionCall) (n : ℕ) (s : RecvSession)
    → 1 ≤ n
    → n + 2 < 2 ^ 32
    → s.control ≡ open_with n
    → Called (word (cuts c) (n + one_if (starts_send c))) s (on_call c s)
unfolding on_call
on_call-open c n s h l e =
    let counted : increase_io_count s.control ≡ (true, open_with (n + 1)) =
      rw e (increase_counted n (omega arith)) in
    let s' : RecvSession = record s { control = open_with (n + 1) } in
    let a : Called (open_with (n + 1)) s s' = record {
      now = refl;
      ring = refl;
      received = refl;
      posted = refl;
      releases = refl;
    } in
    let b = within_lem c (n + 1) s' (omega arith) (omega arith) refl in
    let d =
      counts_down (cuts c) (n + 1 + one_if (starts_send c)) (within c s') (omega arith) b.now in
    rw counted (recount (cuts c) (omega arith) (Called-trans a (Called-trans b d)))

on_call-ending :
    (c : SessionCall) (n : ℕ) (s : RecvSession) → s.control ≡ ending_with n → on_call c s ≡ s
unfolding on_call
on_call-ending c n s e =
    let refused : increase_io_count s.control ≡ (false, ending_with n) = rw e (increase_ending n) in
    rw refused refl

on_calls-ending :
    (cs : List SessionCall) (n : ℕ) (s : RecvSession)
    → s.control ≡ ending_with n
    → on_calls cs s ≡ s
unfolding on_calls
on_calls-ending [] n s e = refl
on_calls-ending (c ∷ cs) n s e = rw (on_call-ending c n s e) (on_calls-ending cs n s e)

cut-starts_send : (c : SessionCall) → cuts c ≡ true → starts_send c ≡ false
unfolding cuts starts_send
cut-starts_send disconnects e = refl
cut-starts_send (sends waits) e = refl
cut-starts_send (sends starts) e = ground (arith, e)
cut-starts_send (sends full) e = refl
cut-starts_send (sends fails) e = refl

-- The calls on an open session request its end if one of them cuts it off, and leave the sends
-- that were started before in flight.
pub on_calls-open :
    (cs : List SessionCall) (n : ℕ) (s : RecvSession)
    → 1 ≤ n
    → n + length cs + 1 < 2 ^ 32
    → s.control ≡ open_with n
    → Called (word (any_cuts cs) (n + started cs)) s (on_calls cs s)
unfolding on_calls any_cuts started
on_calls-open [] n s h l e =
    recount false {m = n} (omega arith) (subst (λ c. Called c s s) e (Called-refl s))
on_calls-open (c ∷ cs) n s h l e =
    let a = on_call-open c n s h (omega arith) e in
    elim (Bool-cases (cuts c)) [
      | inl cut ↦
          let a' : Called (ending_with (n + one_if (starts_send c))) s (on_call c s) =
            subst (λ b. Called (word b (n + one_if (starts_send c))) s (on_call c s)) cut a in
          let none_started : one_if (starts_send c) ≡ 0 = rw (cut-starts_send c cut) refl in
          rw (cut, on_calls-ending cs (n + one_if (starts_send c)) (on_call c s) a'.now)
            (recount true (omega arith) a')
      | inr kept ↦
          let a' : Called (open_with (n + one_if (starts_send c))) s (on_call c s) =
            subst (λ b. Called (word b (n + one_if (starts_send c))) s (on_call c s)) kept a in
          let rest =
            on_calls-open cs (n + one_if (starts_send c)) (on_call c s) (omega arith)
              (ground (arith, l)) a'.now in
          rw kept (recount (any_cuts cs) (omega arith) (Called-trans a' rest))
    ]

pub started-le : (cs : List SessionCall) → started cs ≤ length cs
unfolding started
started-le [] = omega arith
started-le (c ∷ cs) = ground (arith, started-le cs)
