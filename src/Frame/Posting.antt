-- ===== src/Frame/Posting.antt =====
-- What `postRecv` leaves, and the calls on the session's count around it (BaseServer.cpp).
use game_programmer_portfoli.Base.{
  ℕ, ◌+◌, ◌-◌, ◌^◌, ◌≤◌, ◌<◌, ◌≡◌, ◌⊎◌, inl, inr, refl, ◌∙◌, Bool, true, false, ◌∷◌, ◌==◌, one_if,
  arith, Bool-cases,
}
use game_programmer_portfoli.RingBuffer.{RingBuffer, WsaBuf, get_free_size}
use game_programmer_portfoli.RingBuffer.Bounds.{IsValid}
use game_programmer_portfoli.RingBuffer.Segments.{
  Covers, get_enqueue_segments-Covers, segments_full, segments_free,
}
use game_programmer_portfoli.Session.{increase_io_count}
use game_programmer_portfoli.Session.Control.{
  open_with, ending_with, increase_counted, increase_ending, decrease_open, decrease_ending,
  request_first, request_again,
}
use game_programmer_portfoli.Frame.Complete.{
  RecvSession, RecvResult, under_way, failed, decrease_count, request_end, wsa_recv, post_recv,
}

-- One more receive is in flight, into the free cells of the ring, and `n` operations are.
pub record Posts (n : ℕ) (s t : RecvSession) : Type 0 where
  pub control : t.control ≡ open_with n
  pub posted :
      (k : ℕ) × (w0 w1 : WsaBuf) × (t.posted ≡ (k, w0, w1) ∷ s.posted)
      × Covers t.ring.buffer_size t.ring.rear (get_free_size t.ring) k w0 w1
  pub releases : t.releases ≡ s.releases

-- The end is requested, nothing was posted, and `n` operations are in flight.
pub record Closes (n : ℕ) (more : ℕ) (s t : RecvSession) : Type 0 where
  pub control : t.control ≡ ending_with n
  pub posted : t.posted ≡ s.posted
  pub releases : t.releases ≡ s.releases + more

pub request_end-open :
    (n : ℕ) (s : RecvSession) → 1 ≤ n → s.control ≡ open_with n → Closes n 0 s (request_end s)
unfolding request_end
request_end-open n s h e = record {
  control = rw (e, request_first n h) refl;
  posted = refl;
  releases = rw (e, request_first n h) refl;
}

pub request_end-ending :
    (n : ℕ) {a : ℕ} (s t : RecvSession) → Closes n a s t → Closes n a s (request_end t)
unfolding request_end
request_end-ending n s t c = record {
  control = rw (c.control, request_again n) refl;
  posted = c.posted;
  releases = rw (c.control, request_again n, c.releases) (omega arith);
}

pub decrease_count-ending :
    (n : ℕ) (s t : RecvSession)
    → 1 ≤ n
    → Closes n 0 s t
    → Closes (n - 1) (one_if (n == 1)) s (decrease_count t)
unfolding decrease_count
decrease_count-ending n s t h c = record {
  control = rw (c.control, decrease_ending n h) refl;
  posted = c.posted;
  releases = rw (c.control, decrease_ending n h, c.releases) (omega arith);
}

pub decrease_count-open :
    (n : ℕ) (s t : RecvSession) → Posts (n + 1) s t → Posts n s (decrease_count t)
unfolding decrease_count
decrease_count-open n s t c =
    let h : 1 ≤ n + 1 = omega arith in
    let one : n + 1 - 1 ≡ n = omega arith in
    record {
      control = rw (c.control, decrease_open (n + 1) h, one) refl;
      posted = c.posted;
      releases = rw (c.control, decrease_open (n + 1) h, c.releases) (omega arith);
    }

gives_up :
    (n : ℕ) (s t : RecvSession)
    → 1 ≤ n
    → t.control ≡ open_with (n + 1)
    → t.posted ≡ s.posted
    → t.releases ≡ s.releases
    → Closes n 0 s (decrease_count (request_end t))
gives_up n s t h e p q =
    let a = request_end-open (n + 1) t (omega arith) e in
    let b : Closes (n + 1) 0 s (request_end t) = record {
      control = a.control;
      posted = a.posted ∙ p;
      releases = rw (a.releases, q) refl;
    } in
    let one : one_if (n + 1 == 1) ≡ 0 = ground (arith, h) in
    let c = decrease_count-ending (n + 1) s (request_end t) (omega arith) b in
    record {
      control = rw c.control (ground arith);
      posted = c.posted;
      releases = rw (c.releases, one) refl;
    }

-- What `post_recv` leaves of a session with `n` operations in flight, without the one it counts.
unfoldable pub Posted : Type 0 → ℕ → RecvSession → Bool × RecvSession → Type 0
Posted why n s (b, t) = ((b ≡ true) × Posts (n + 1) s t) ⊎ ((b ≡ false) × why × Closes n 0 s t)

-- Why `post_recv` posts nothing.
pub Unposted : RingBuffer ℕ → RecvResult → Type 0
Unposted ring r = (get_free_size ring ≡ 0) ⊎ (r ≡ failed)

wsa_recv-Posted :
    (r : RecvResult) (n k : ℕ) (s t : RecvSession)
    → 1 ≤ n
    → t.control ≡ open_with (n + 1)
    → t.posted ≡ s.posted
    → t.releases ≡ s.releases
    → Covers t.ring.buffer_size t.ring.rear (get_free_size t.ring) k t.first_buf t.second_buf
    → Posted (Unposted s.ring r) n s (wsa_recv r k t)
unfolding Posted Unposted wsa_recv
wsa_recv-Posted under_way n k s t h e p q c = inl (
  refl,
  record { control = e; posted = (k, t.first_buf, t.second_buf, rw p refl, c); releases = q },
)
wsa_recv-Posted failed n k s t h e p q c = inr (refl, inr refl, gives_up n s t h e p q)

pub post_recv-Posted :
    (r : RecvResult) (n : ℕ) (s : RecvSession)
    → 1 ≤ n
    → n + 1 < 2 ^ 32
    → s.control ≡ open_with n
    → IsValid s.ring
    → Posted (Unposted s.ring r) n s (post_recv r s)
unfolding post_recv Posted Unposted
post_recv-Posted r n s h l e v =
    let counted : increase_io_count s.control ≡ (true, open_with (n + 1)) =
      rw e (increase_counted n l) in
    elim (Bool-cases (get_free_size s.ring == 0)) [
      | inl full ↦
          let none_free : get_free_size s.ring ≡ 0 = ground (arith, full) in
          let z = segments_full s.ring s.first_buf s.second_buf none_free in
          rw (counted, z) (inr (refl, inl none_free, gives_up n s _ h refl refl refl))
      | inr free ↦
          let some' : 0 < get_free_size s.ring = ground (arith, free) in
          let z = segments_free s.ring s.first_buf s.second_buf some' in
          rw (counted, z)
            (wsa_recv-Posted r n _ s _ h refl refl refl
              (get_enqueue_segments-Covers s.first_buf s.second_buf v some'))
    ]

-- Once the end is requested, it posts nothing.
pub post_recv-ending :
    (r : RecvResult) (n : ℕ) (s : RecvSession)
    → s.control ≡ ending_with n
    → post_recv r s ≡ (false, s)
unfolding post_recv
post_recv-ending r n s e =
    let refused : increase_io_count s.control ≡ (false, ending_with n) = rw e (increase_ending n) in
    rw refused refl
