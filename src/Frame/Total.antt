-- ===== src/Frame/Total.antt =====
-- The loop ends, whatever the bytes in the ring are.
use game_programmer_portfoli.Base.{
  ℕ, zero, suc, ◌+◌, ◌*◌, ◌≤◌, ◌<◌, ◌≡◌, refl, sym, subst, ◌∙◌, ◌⊎◌, inl, inr, Bool, true, Option,
  some, none, [], ◌∷◌, arith, length-take,
}
use game_programmer_portfoli.RingBuffer.{
  RingBuffer, get_use_size, get_buffer_size, dequeue, move_front,
}
use game_programmer_portfoli.RingBuffer.Bounds.{IsValid}
use game_programmer_portfoli.RingBuffer.Put.{contents, length-contents}
use game_programmer_portfoli.RingBuffer.Get.{dequeue-Got, move_front-Got}
use game_programmer_portfoli.Packet.{Packet}
use game_programmer_portfoli.Frame.Receive.{
  Round, delivers, breaks, parse_round, read_packet, fill_packet, Parsed, parse,
}
use game_programmer_portfoli.Frame.Parse.{
  parse_round-verdict, Verdict, verdict, outcome, waits, bad, whole, verdict_whole,
}

pub ring_of : Round → RingBuffer ℕ
ring_of (breaks b r) = r
ring_of (delivers p r) = r

pub Round-cases :
    (x : Round)
    → ((b : Bool) × (r : RingBuffer ℕ) × (x ≡ breaks b r))
      ⊎ ((p : Packet) × (r : RingBuffer ℕ) × (x ≡ delivers p r))
Round-cases (breaks b r) = inl (b, r, refl)
Round-cases (delivers p r) = inr (p, r, refl)

-- The ring a round leaves: still well formed, of the same capacity, with no more bytes.
record Shrinks (r s : RingBuffer ℕ) (n : ℕ) : Type 0 where
  valid : IsValid s
  buffer_size : s.buffer_size ≡ r.buffer_size
  used : get_use_size s + n ≤ get_use_size r

ring_of-fill_packet :
    (id key len : ℕ) (fresh : Packet) (r : RingBuffer ℕ)
    → ring_of (fill_packet id key len fresh r) ≡ (dequeue r true (1 + len)).2
unfolding ring_of fill_packet
ring_of-fill_packet id key len fresh r = ground arith

dequeue-Shrinks : {r : RingBuffer ℕ} (n : ℕ) → IsValid r → Shrinks r (dequeue r true n).2 0
dequeue-Shrinks {r} n v =
    let (_, _, g) = dequeue-Got n v in
    record { valid = g.valid; buffer_size = g.buffer_size; used = omega (arith, g.used) }

move_front-Shrinks :
    {r : RingBuffer ℕ} (n : ℕ) → IsValid r → n ≤ get_use_size r → Shrinks r (move_front r n).1 n
move_front-Shrinks {r} n v h =
    let (_, g) = move_front-Got n v h in
    record {
      valid = g.valid;
      buffer_size = g.buffer_size;
      used = omega (arith, g.used, length-take n (contents r), length-contents v);
    }

Shrinks-trans : {r s t : RingBuffer ℕ} {n : ℕ} → Shrinks r s n → Shrinks s t 0 → Shrinks r t n
Shrinks-trans a b = record {
  valid = b.valid;
  buffer_size = b.buffer_size ∙ a.buffer_size;
  used = omega (arith, a.used, b.used);
}

ring_of-read_packet :
    (id len : ℕ) (alloc : Option Packet) {r : RingBuffer ℕ}
    → IsValid r
    → 3 ≤ get_use_size r
    → Shrinks r (ring_of (read_packet id len alloc r)) 3
unfolding read_packet ring_of
ring_of-read_packet id len none {r} v h =
    let a = move_front-Shrinks 3 v h in Shrinks-trans a (dequeue-Shrinks 1 a.valid)
ring_of-read_packet id len (some fresh) {r} v h =
    let a = move_front-Shrinks 3 v h in
    let b = dequeue-Shrinks 1 a.valid in
    rw (ring_of-fill_packet id _ len fresh (dequeue (move_front r 3).1 true 1).2)
      (Shrinks-trans (Shrinks-trans a b) (dequeue-Shrinks (1 + len) b.valid))

-- A round that hands over a packet takes bytes out of the ring.
outcome-Shrinks :
    {r s : RingBuffer ℕ} {p : Packet} (id : ℕ) (alloc : Option Packet) (w : Verdict)
    → IsValid r
    → ((len : ℕ) → w ≡ whole len → 3 ≤ get_use_size r)
    → outcome id alloc r w ≡ delivers p s
    → Shrinks r s 3
unfolding ring_of
outcome-Shrinks id alloc waits v h e = cc
outcome-Shrinks id alloc bad v h e = cc
outcome-Shrinks {r} id alloc (whole len) v h e =
    subst (λ x. Shrinks r (ring_of x) 3) e (ring_of-read_packet id len alloc v (h len refl))

delivers-Shrinks :
    {r s : RingBuffer ℕ} {p : Packet} (id : ℕ) (alloc : Option Packet)
    → IsValid r
    → parse_round id alloc r ≡ delivers p s
    → Shrinks r s 3
delivers-Shrinks {r} id alloc v e =
    outcome-Shrinks id alloc (verdict (get_buffer_size r) (contents r)) v
      (λ len f.
        omega (arith, verdict_whole (get_buffer_size r) len (contents r) f, length-contents v))
      (sym (parse_round-verdict id alloc v) ∙ e)

-- A round leaves the ring well formed, whether it goes on or not.
outcome-IsValid :
    {r : RingBuffer ℕ} (id : ℕ) (alloc : Option Packet) (w : Verdict)
    → IsValid r
    → ((len : ℕ) → w ≡ whole len → 3 ≤ get_use_size r)
    → IsValid (ring_of (outcome id alloc r w))
unfolding ring_of
outcome-IsValid id alloc waits v h = v
outcome-IsValid id alloc bad v h = v
outcome-IsValid id alloc (whole len) v h = (ring_of-read_packet id len alloc v (h len refl)).valid

parse_round-IsValid :
    {r : RingBuffer ℕ} (id : ℕ) (alloc : Option Packet)
    → IsValid r
    → IsValid (ring_of (parse_round id alloc r))
parse_round-IsValid {r} id alloc v = rw (parse_round-verdict id alloc v) (
    outcome-IsValid id alloc (verdict (get_buffer_size r) (contents r)) v (λ len f.
      omega (arith, verdict_whole (get_buffer_size r) len (contents r) f, length-contents v)))

-- The loop ends, with a well-formed ring.
pub parse-ends :
    (fuel : ℕ) (r : RingBuffer ℕ) (id k : ℕ) (alloc : ℕ → Option Packet)
    → IsValid r
    → get_use_size r < 3 * fuel
    → (s : Parsed) × ((parse fuel id alloc k r ≡ some s) × IsValid s.ring)
unfolding parse ring_of
parse-ends zero r id k alloc v h = absurd (omega arith)
parse-ends (suc fuel) r id k alloc v h = elim (Round-cases (parse_round id (alloc k) r)) [
  | inl (b, s, e) ↦
      let valid = subst (λ x. IsValid (ring_of x)) e (parse_round-IsValid id (alloc k) v) in
      (record { delivered = []; parse_error = b; ring = s }, (rw (parse, e), valid))
  | inr (p, s, e) ↦
      let shrinks = delivers-Shrinks id (alloc k) v e in
      let (t, (run, valid)) =
        parse-ends fuel s id (k + 1) alloc shrinks.valid (omega (arith, shrinks.used)) in
      (record t { delivered = p ∷ t.delivered }, (rw (parse, e, run), valid))
]

-- On every content of a well-formed receive ring and every run of the packet pool, failures
-- included, the receive loop ends within any number of rounds of which three times as many bytes
-- are more than the ring holds.
pub parse-total :
    (fuel : ℕ) (r : RingBuffer ℕ) (id k : ℕ) (alloc : ℕ → Option Packet)
    → IsValid r
    → get_use_size r < 3 * fuel
    → (s : Parsed) × (parse fuel id alloc k r ≡ some s)
parse-total fuel r id k alloc v h =
    let (s, (run, valid)) = parse-ends fuel r id k alloc v h in (s, run)
