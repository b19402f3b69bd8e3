-- ===== src/Frame/Receiving.antt =====
-- What a completed receive leaves: another receive in flight, or a session whose end is requested.
use game_programmer_portfoli.Base.{
  ℕ, ◌+◌, ◌-◌, ◌*◌, ◌^◌, ◌≤◌, ◌<◌, ◌≡◌, ◌⊎◌, inl, inr, refl, ap, subst, length, ◌∙◌, Bool, true,
  not, Option, none, some, List, ◌++◌, ◌==◌, if◌then◌else◌, one_if, arith, Bool-cases,
}
use game_programmer_portfoli.RingBuffer.{move_rear, get_use_size}
use game_programmer_portfoli.RingBuffer.Bounds.{IsValid}
use game_programmer_portfoli.RingBuffer.Segments.{move_rear-IsValid}
use game_programmer_portfoli.Packet.{Packet}
use game_programmer_portfoli.Session.{SessionControl}
use game_programmer_portfoli.Session.Control.{open_with, ending_with}
use game_programmer_portfoli.Frame.Receive.{Parsed, parse}
use game_programmer_portfoli.Frame.Total.{parse-ends}
use game_programmer_portfoli.Frame.Complete.{
  RecvSession, RecvResult, under_way, failed, decrease_count, request_end, wsa_recv, post_recv,
  finish_recv, on_recv_completion, SessionCall, on_calls, all_calls,
}
use game_programmer_portfoli.Frame.Calls.{
  any_cuts, started, started-le, Called, word, on_calls-open,
}
use game_programmer_portfoli.Frame.Posting.{
  Posts, Closes, Posted, Unposted, request_end-open, request_end-ending, decrease_count-ending,
  decrease_count-open, post_recv-Posted, post_recv-ending,
}

-- What a completion leaves: a session that reads on, or, for a reason, one that ends.
pub Left : Type 0 → ℕ → RecvSession → RecvSession → Type 0
Left why n s t = Posts n s t ⊎ (why × Closes (n - 1) (one_if (n == 1)) s t)

decrease-Left :
    (why : Type 0) (n : ℕ) (s : RecvSession) (x : Bool × RecvSession)
    → 1 ≤ n
    → Posted why n s x
    → Left why n s (decrease_count (if not x.0 then request_end x.1 else x.1))
unfolding Left Posted
decrease-Left why n s (b, t) h (inl (e, p)) = rw e (inl (decrease_count-open n s t p))
decrease-Left why n s (b, t) h (inr (e, w, c)) =
    rw e (inr (w, decrease_count-ending n s (request_end t) h (request_end-ending n s t c)))

Left-map :
    {why why' : Type 0} (n : ℕ) (s t : RecvSession)
    → (why → why')
    → Left why n s t
    → Left why' n s t
unfolding Left
Left-map n s t f (inl a) = inl a
Left-map n s t f (inr (w, a)) = inr (f w, a)

-- What a session was before the calls of `OnRecv` is what it was before the loop, but for the ring and
-- the packets.
Left-Called :
    {c : SessionControl} (why : Type 0) (n : ℕ) (s s' s₁ t : RecvSession)
    → Called c s' s₁
    → s'.posted ≡ s.posted
    → s'.releases ≡ s.releases
    → Left why n s₁ t
    → Left why n s t
unfolding Left
Left-Called why n s s' s₁ t c p q (inl a) =
    let (k, w0, w1, e, covers) = a.posted in
    inl (record {
      control = a.control;
      posted = (k, w0, w1, rw (e, c.posted, p) refl, covers);
      releases = a.releases ∙ c.releases ∙ q;
    })
Left-Called why n s s' s₁ t c p q (inr (w, a)) = inr (
  w,
  record {
    control = a.control;
    posted = a.posted ∙ c.posted ∙ p;
    releases = rw (a.releases, c.releases, q) refl;
  },
)

-- Why a session ends after its loop: a bad frame, a call of `OnRecv`, no free cell, or an error of
-- `WSARecv`.
pub Stops : RecvResult → List SessionCall → Parsed → Type 0
Stops r cs p = (p.parse_error ≡ true) ⊎ ((any_cuts cs ≡ true) ⊎ Unposted p.ring r)

-- The end of the RECV case, for a session whose calls have been made.
ends-Left :
    (r : RecvResult) (p : Parsed) (n : ℕ) (s : RecvSession)
    → 1 ≤ n
    → s.control ≡ ending_with n
    → Closes (n - 1) (one_if (n == 1)) s (
        decrease_count (
          if p.parse_error
          then request_end s
          else if not (post_recv r s).0
          then request_end (post_recv r s).1
          else (post_recv r s).1))
ends-Left r p n s h e =
    let same : Closes n 0 s s = record { control = e; posted = refl; releases = omega arith } in
    let closes = decrease_count-ending n s (request_end s) h (request_end-ending n s s same) in
    rw (post_recv-ending r n s e)
      (elim (Bool-cases p.parse_error) [ inl bad ↦ rw bad closes | inr good ↦ rw good closes ])

reads-Left :
    (r : RecvResult) (p : Parsed) (n : ℕ) (s : RecvSession)
    → 1 ≤ n
    → n + 1 < 2 ^ 32
    → s.control ≡ open_with n
    → IsValid s.ring
    → Left ((p.parse_error ≡ true) ⊎ Unposted s.ring r) n s (
        decrease_count (
          if p.parse_error
          then request_end s
          else if not (post_recv r s).0
          then request_end (post_recv r s).1
          else (post_recv r s).1))
unfolding Left
reads-Left r p n s h l e v = elim (Bool-cases p.parse_error) [
  | inl bad ↦
      rw bad
        (inr (inl refl, decrease_count-ending n s (request_end s) h (request_end-open n s h e)))
  | inr good ↦
      rw good (
        Left-map n s _ inr (decrease-Left _ n s (post_recv r s) h (post_recv-Posted r n s h l e v)))
]

finish_recv-Left :
    (r : RecvResult) (cs : List SessionCall) (p : Parsed) (n : ℕ) (s : RecvSession)
    → 1 ≤ n
    → n + length cs + 1 < 2 ^ 32
    → s.control ≡ open_with n
    → IsValid p.ring
    → Left (Stops r cs p) (n + started cs) s (finish_recv r cs p s)
unfolding finish_recv Left Stops
finish_recv-Left r cs p n s h l e v =
    let s' : RecvSession = record s { ring = p.ring; received = s.received ++ p.delivered } in
    let c = on_calls-open cs n s' h l e in
    let m : ℕ = n + started cs in
    elim (Bool-cases (any_cuts cs)) [
      | inl cut ↦
          let now : (on_calls cs s').control ≡ ending_with m = c.now ∙ ap (λ b. word b m) cut in
          Left-Called _ m s s' (on_calls cs s') _ c refl refl
            (inr (inr (inl cut), ends-Left r p m (on_calls cs s') (omega arith) now))
      | inr none_cut ↦
          let now : (on_calls cs s').control ≡ open_with m = c.now ∙ ap (λ b. word b m) none_cut in
          let valid : IsValid (on_calls cs s').ring = rw (c.ring) v in
          let why : (p.parse_error ≡ true) ⊎ Unposted (on_calls cs s').ring r → Stops r cs p = λ w.
            elim w [ inl bad ↦ inl bad | inr u ↦ inr (inr (subst (λ x. Unposted x r) c.ring u)) ] in
          Left-Called _ m s s' (on_calls cs s') _ c refl refl (
            Left-map m (on_calls cs s') _ why (
              reads-Left r p m (on_calls cs s') (omega arith) (omega (arith, started-le cs)) now
                valid))
    ]

-- The ring and the packets are the session's.
record SameInput (s t : RecvSession) : Type 0 where
  ring : t.ring ≡ s.ring
  received : t.received ≡ s.received

post_recv-SameInput : (r : RecvResult) (s : RecvSession) → SameInput s (post_recv r s).1
unfolding post_recv wsa_recv decrease_count request_end
post_recv-SameInput under_way s = record { ring = ground arith; received = ground arith }
post_recv-SameInput failed s = record { ring = ground arith; received = ground arith }

finish_recv-handed :
    (r : RecvResult) (cs : List SessionCall) (p : Parsed) (n : ℕ) (s : RecvSession)
    → 1 ≤ n
    → n + length cs + 1 < 2 ^ 32
    → s.control ≡ open_with n
    → ((finish_recv r cs p s).ring ≡ p.ring)
      × ((finish_recv r cs p s).received ≡ s.received ++ p.delivered)
unfolding finish_recv decrease_count request_end
finish_recv-handed r cs p n s h l e =
    let s' : RecvSession = record s { ring = p.ring; received = s.received ++ p.delivered } in
    let c = on_calls-open cs n s' h l e in
    let k = post_recv-SameInput r (on_calls cs s') in
    (ground (arith, k.ring, c.ring), ground (arith, k.received, c.received))

-- The end of a session that has had nothing to read.
pub CutOff : ℕ → RecvSession → RecvSession → Type 0
CutOff n s t = (t.ring ≡ s.ring) × (t.received ≡ s.received) × Closes (n - 1) (one_if (n == 1)) s t

-- What a completion of `done` bytes makes of the session `s`, where the loop over the ring gives `parsed`.
pub Completes :
    RecvResult
    → (ℕ → Packet → List SessionCall)
    → (ℕ → Option Parsed)
    → ℕ
    → Option ℕ
    → RecvSession
    → RecvSession
    → Type 0
Completes r on_recv parsed n none s t = CutOff n s t
Completes r on_recv parsed n (some size) s t =
    ((size ≡ 0) × CutOff n s t)
    ⊎ ((p : Parsed) × (parsed size ≡ some p)
        × (t.ring ≡ p.ring)
        × (t.received ≡ s.received ++ p.delivered)
        × (let cs = all_calls on_recv 0 p.delivered in Left (Stops r cs p) (n + started cs) s t))

-- If the ring is well formed, no end is requested and `n` operations are in flight, 1 or more, with
-- enough room for the count to stay below 2 ^ 32, then a receive that completes, with fuel for the
-- loop of which three times as much is more than the ring then holds, ends in one of two ways,
-- whatever the bytes, the packet pool and the calls of `DisConnect` and `SendPacket` are that
-- `OnRecv` makes on the session, and with no call of another thread on it meanwhile. Where the
-- receive failed or the peer closed the connection, the ring and the packets received are as they
-- were, the end is requested, nothing is posted, one operation less is in flight, and the session's
-- RELEASE is posted exactly if there is none. Otherwise the ring is the one that the loop leaves,
-- and the loop's packets are received. Then, with the sends counted as in flight that `OnRecv`
-- started before it requested the end, if it did, either one more receive is posted, into the free
-- cells of the ring, and the count of the receive that has completed is given back for it; or,
-- because the loop met a bad frame, `OnRecv` requested the end, the ring has no free cell, or
-- `WSARecv` failed, the end is requested, nothing is posted, one operation less is in flight, and
-- RELEASE is posted exactly if there is none.
pub on_recv_completion_lem :
    (fuel : ℕ) (alloc : ℕ → Option Packet) (on_recv : ℕ → Packet → List SessionCall)
    (r : RecvResult) (done : Option ℕ) (n : ℕ) (s : RecvSession)
    → 1 ≤ n
    → s.control ≡ open_with n
    → IsValid s.ring
    → let parsed : ℕ → Option Parsed = λ size. parse fuel s.id alloc 0 (move_rear s.ring size).1 in
      ((size : ℕ) (p : Parsed)
        → done ≡ some size
        → parsed size ≡ some p
        → n + length (all_calls on_recv 0 p.delivered) + 1 < 2 ^ 32)
      → ((size : ℕ) → done ≡ some size → get_use_size (move_rear s.ring size).1 < 3 * fuel)
      → (t : RecvSession) × (on_recv_completion fuel alloc on_recv r done s ≡ some t)
        × Completes r on_recv parsed n done s t
unfolding on_recv_completion Completes CutOff decrease_count request_end
on_recv_completion_lem fuel alloc on_recv r none n s h e v l f = (
  decrease_count (request_end s),
  refl,
  (refl, refl, decrease_count-ending n s (request_end s) h (request_end-open n s h e)),
)
on_recv_completion_lem fuel alloc on_recv r (some size) n s h e v l f =
    elim (Bool-cases (size == 0)) [
      | inl fin ↦ (
        decrease_count (request_end s),
        rw fin refl,
        inl (
          ground (arith, fin),
          (refl, refl, decrease_count-ending n s (request_end s) h (request_end-open n s h e)),
        ),
      )
      | inr more ↦
          let (p, (run, valid)) =
            parse-ends fuel (move_rear s.ring size).1 s.id 0 alloc (move_rear-IsValid size v)
              (f size refl) in
          let cs = all_calls on_recv 0 p.delivered in
          let room = l size p refl run in
          let (ring, received) = finish_recv-handed r cs p n s h room e in
          (
            finish_recv r cs p s,
            rw (more, run) refl,
            inr (p, run, ring, received, finish_recv-Left r cs p n s h room e valid),
          )
    ]
