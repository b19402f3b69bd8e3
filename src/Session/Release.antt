-- ===== src/Session/Release.antt =====
-- A session is cleaned up once, and only when nothing uses it.
use game_programmer_portfoli.Base.{
  ℕ, zero, suc, ◌+◌, ◌≤◌, ◌<◌, ◌^◌, ◌≡◌, sym, ap, subst, ◌∙◌, true, false, arith,
}
use game_programmer_portfoli.Session.{increase_io_count, claim_cleanup}
use game_programmer_portfoli.Session.Life.{
  Life, decreases, requests, completes, apply, Reaches, Reaches-phase, Phase, opened, closing,
  ending, cleaned, phase_step, life, apply-life,
}

-- What holds in each phase.
pub record IsSafe (l : Life) : Type 0 where
  pub counted : l.control.io_count ≡ l.in_flight
  pub once : l.posted + l.cleanups ≤ 1
  pub claims_last : (claim_cleanup l.control).0 ≡ true → l.in_flight ≡ 0
  pub no_entry :
      (increase_io_count l.control).0 ≡ false → l.in_flight ≡ 0 → l.posted + l.cleanups ≡ 1
  pub after_end : 1 ≤ l.posted + l.cleanups → (increase_io_count l.control).0 ≡ false

life-IsSafe : (ph : Phase) → IsSafe (life ph)
unfolding increase_io_count claim_cleanup
life-IsSafe (opened n) = ground arith
life-IsSafe (closing n) = ground arith
life-IsSafe ending = ground arith
life-IsSafe cleaned = ground arith

-- On every interleaving of `IncreaseIoCount`, `decreaseSessionIoCount` of an operation in flight,
-- `requestRelease` and RELEASE completions that are waiting, from `Init` on and with fewer
-- operations in flight than 32 bits count: `ioCount` is the number of operations in flight; RELEASE
-- completions waiting and entries into the clean-up of `releaseSession` are at most one together; a
-- caller that the control word lets clean up finds none in flight; once the clean-up is posted or
-- entered no operation can start; and when the session refuses new operations and has none left,
-- its clean-up is posted or was entered.
pub Reaches-IsSafe : {l : Life} → Reaches l → IsSafe l
Reaches-IsSafe path =
    let (ph, e) = Reaches-phase path in subst (λ l. IsSafe l) (sym e) (life-IsSafe ph)

-- The operations in flight all end.
pub drain : ℕ → Life → Life
drain zero l = l
drain (suc n) l = drain n (apply decreases l)

drain-closing : (n : ℕ) → n + 2 < 2 ^ 32 → drain (suc n) (life (closing n)) ≡ life ending
unfolding drain phase_step
drain-closing zero h = apply-life decreases (closing 0) (omega arith)
drain-closing (suc n) h =
    ap (drain (suc n)) (apply-life decreases (closing (suc n)) (omega arith))
    ∙ drain-closing n (omega arith)

-- `requestRelease`, then the end of every operation in flight, then a worker that takes the RELEASE
-- completion.
pub shut_down : Life → Life
unfolding drain
shut_down l = apply completes (drain l.in_flight (apply requests l))

shut_down-life :
    (ph : Phase) → (life ph).in_flight + 1 < 2 ^ 32 → shut_down (life ph) ≡ life cleaned
unfolding shut_down phase_step drain
shut_down-life (opened zero) h =
    ap (apply completes) (apply-life requests (opened 0) h) ∙ apply-life completes ending h
shut_down-life (opened (suc n)) h =
    ap (λ l. apply completes (drain (suc n) l)) (apply-life requests (opened (suc n)) h)
    ∙ ap (apply completes) (drain-closing n (omega arith))
    ∙ apply-life completes ending (omega arith)
shut_down-life (closing n) h =
    ap (λ l. apply completes (drain (suc n) l)) (apply-life requests (closing n) h)
    ∙ ap (apply completes) (drain-closing n (omega arith))
    ∙ apply-life completes ending (omega arith)
shut_down-life ending h =
    ap (apply completes) (apply-life requests ending h) ∙ apply-life completes ending h
shut_down-life cleaned h =
    ap (apply completes) (apply-life requests cleaned h) ∙ apply-life completes cleaned h

-- From every state that the steps of a session lead to from `Init`, with fewer operations in flight
-- than 32 bits count, a `requestRelease`, the end of each operation in flight and one RELEASE
-- completion lead to a session that was cleaned up exactly once, with nothing in flight and no
-- completion waiting.
pub shut_down-cleans :
    {l : Life}
    → Reaches l
    → l.in_flight + 1 < 2 ^ 32
    → ((shut_down l).cleanups ≡ 1) × ((shut_down l).in_flight ≡ 0) × ((shut_down l).posted ≡ 0)
shut_down-cleans {l} path h =
    let (ph, e) = Reaches-phase path in
    let whole : shut_down l ≡ life cleaned =
      ap shut_down e ∙ shut_down-life ph (subst (λ x. x.in_flight + 1 < 2 ^ 32) e h) in
    (ap (λ x. x.cleanups) whole, ap (λ x. x.in_flight) whole, ap (λ x. x.posted) whole)
