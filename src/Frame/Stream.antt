-- ===== src/Frame/Stream.antt =====
-- The loop over whatever the transport has brought so far.
use game_programmer_portfoli.Base.{
  ℕ, zero, suc, ◌+◌, ◌-◌, ◌≤◌, ◌<◌, ◌≡◌, refl, sym, ap, ap₂, subst, ◌∙◌, ◌⊎◌, Bool, true, false,
  Option, some, List, [], ◌∷◌, ◌++◌, length, take, map, append_assoc, arith, IsBytes,
}
use game_programmer_portfoli.RingBuffer.{RingBuffer, get_buffer_size}
use game_programmer_portfoli.RingBuffer.Bounds
use game_programmer_portfoli.RingBuffer.Put.{contents}
use game_programmer_portfoli.RingBuffer.Queue.{get_buffer_size-eq}
use game_programmer_portfoli.Packet.{Packet, buffer_default}
use game_programmer_portfoli.Packet.Bytes.{from_bytes}
use game_programmer_portfoli.Packet.Unread.{unread}
use game_programmer_portfoli.Frame.{packet_code, frame}
use game_programmer_portfoli.Frame.Receive.{
  delivers, breaks, parse_round, read_packet, Parsed, parse,
}
use game_programmer_portfoli.Frame.Parse.{
  parse_round-verdict, verdict, verdict-frame, verdict-partial, outcome, Verdict, waits, bad, whole,
  verdict-refused,
}
use game_programmer_portfoli.Frame.Deliver.{Delivered, read_packet-Delivered}

-- A message as a peer sends it: the key it drew and the payload.
pub record Message : Type 0 where
  pub key : ℕ
  pub body : List ℕ

-- What the sender's own checks give: a payload that is not empty and fits the packet and the ring.
pub record IsSendable (cap : ℕ) (m : Message) : Type 0 where
  pub some_body : 0 < length m.body
  pub fits : length m.body ≤ buffer_default - 5
  pub room : 5 + length m.body ≤ cap
  pub bytes : IsBytes m.body

unfoldable pub AllSendable : ℕ → List Message → Type 0
AllSendable cap [] = Unit
AllSendable cap (m ∷ ms) = IsSendable cap m × AllSendable cap ms

unfoldable pub stream : List Message → List ℕ
stream [] = []
stream (m ∷ ms) = frame m.key m.body ++ stream ms

-- What the loop leaves when it stops behind the messages `ms` and before the bytes `left`.
pub record Read (id : ℕ) (ms : List Message) (left : List ℕ) (error : Bool) (s : Parsed)
    : Type 0 where
  pub payloads : map unread s.delivered ≡ map (λ m. m.body) ms
  pub sessions : map (λ p. p.session_id) s.delivered ≡ map (λ m. id) ms
  pub error_flag : s.parse_error ≡ error
  pub rest : contents s.ring ≡ left
  pub ring : Bounds.IsValid s.ring

-- The pool gives a packet with a whole storage each time.
unfoldable pub Allocates : (ℕ → Option Packet) → Type 0
Allocates alloc = (k : ℕ) → (p : Packet) × (alloc k ≡ some p) × (length p.storage ≡ buffer_default)

-- Why the loop stops: it wants more bytes, or the header is refused (`parseError`).
abbrev pub stopped : Bool → Verdict
stopped false = waits
stopped true = bad

stop :
    {r : RingBuffer ℕ} (fuel id k : ℕ) (alloc : ℕ → Option Packet) (error : Bool)
    → Bounds.IsValid r
    → verdict (get_buffer_size r) (contents r) ≡ stopped error
    → (s : Parsed) × (parse (suc fuel) id alloc k r ≡ some s) × Read id [] (contents r) error s
unfolding parse
stop {r} fuel id k alloc error v e =
    let breaking : parse_round id (alloc k) r ≡ breaks error r =
      parse_round-verdict id (alloc k) v
      ∙ ap (outcome id (alloc k) r) e
      ∙ outcome-stopped id (alloc k) r error in
    (
      record { delivered = []; parse_error = error; ring = r },
      rw (parse, breaking),
      record { payloads = refl; sessions = refl; error_flag = refl; rest = refl; ring = v },
    )
  where
    outcome-stopped :
        (id : ℕ) (alloc : Option Packet) (r : RingBuffer ℕ) (error : Bool)
        → outcome id alloc r (stopped error) ≡ breaks error r
    outcome-stopped id alloc r false = refl
    outcome-stopped id alloc r true = refl

-- A whole frame at the front: one round hands its payload over.
one_frame :
    {r : RingBuffer ℕ} (id k : ℕ) (alloc : ℕ → Option Packet) (m : Message) (tail : List ℕ)
    → Bounds.IsValid r
    → Allocates alloc
    → IsSendable (get_buffer_size r) m
    → contents r ≡ frame m.key m.body ++ tail
    → (p : Packet) × (s : RingBuffer ℕ) × (parse_round id (alloc k) r ≡ delivers p s)
      × Delivered id m.body tail r p s
unfolding Allocates
one_frame {r} id k alloc m tail v a ok e =
    let (fresh, given, full) = a k in
    let (p, s, read, d) =
      read_packet-Delivered id m.key m.body tail fresh ok.fits ok.bytes full v e in
    let whole_frame : verdict (get_buffer_size r) (contents r) ≡ whole (length m.body) =
      ap (verdict (get_buffer_size r)) e
      ∙ verdict-frame (get_buffer_size r) m.key m.body tail ok.some_body ok.fits ok.room in
    (
      p,
      s,
      parse_round-verdict id (alloc k) v
          ∙ ap (outcome id (alloc k) r) whole_frame
          ∙ ap (λ q. read_packet id (length m.body) q r) given
          ∙ read,
      d,
    )

-- One frame after another, then bytes at which the loop stops: every payload is handed over, whole,
-- once and in order, and those bytes stay in the ring.
parse-stream :
    (ms : List Message) (r : RingBuffer ℕ) (fuel id k : ℕ) (alloc : ℕ → Option Packet)
    (tail : List ℕ) (error : Bool)
    → Bounds.IsValid r
    → Allocates alloc
    → AllSendable (get_buffer_size r) ms
    → verdict (get_buffer_size r) tail ≡ stopped error
    → contents r ≡ stream ms ++ tail
    → length ms < fuel
    → (s : Parsed) × (parse fuel id alloc k r ≡ some s) × Read id ms tail error s
unfolding parse stream AllSendable
parse-stream ms r zero id k alloc tail error v a oks halts e h = absurd (omega arith)
parse-stream [] r (suc fuel) id k alloc tail error v a oks halts e h =
    let (s, run, d) = stop fuel id k alloc error v (ap (verdict (get_buffer_size r)) e ∙ halts) in
    (
      s,
      run,
      record {
        payloads = d.payloads;
        sessions = d.sessions;
        error_flag = d.error_flag;
        rest = d.rest ∙ e;
        ring = d.ring;
      },
    )
parse-stream (m ∷ ms) r (suc fuel) id k alloc tail error v a oks halts e h =
    let front : contents r ≡ frame m.key m.body ++ (stream ms ++ tail) =
      e ∙ append_assoc (frame m.key m.body) (stream ms) tail in
    let (p, s, round, d) = one_frame id k alloc m (stream ms ++ tail) v a oks.0 front in
    let cap : get_buffer_size s ≡ get_buffer_size r = get_buffer_size-eq r s d.buffer_size in
    let (t, run, g) =
      parse-stream ms s fuel id (k + 1) alloc tail error d.ring a
        (subst (λ c. AllSendable c ms) (sym cap) oks.1) (ap (λ c. verdict c tail) cap ∙ halts)
        d.left (omega arith) in
    (
      record t { delivered = p ∷ t.delivered },
      rw (parse, round, run),
      record {
        payloads = ap₂ ◌∷◌ d.to_read g.payloads;
        sessions = ap₂ ◌∷◌ d.session g.sessions;
        error_flag = g.error_flag;
        rest = g.rest;
        ring = g.ring;
      },
    )

-- If a well-formed receive ring holds the frames of sendable messages and then a proper part of the
-- frame of one more, and the pool gives a packet with a whole storage each time, the receive loop,
-- on any number of rounds above that of the frames, ends without `parseError`: it has handed over
-- one packet per frame, in order, each with exactly that message's payload to read and under the
-- session's id, and leaves exactly the part of the last frame in a well-formed ring. Sendable:
-- bytes, at least one, no more than a packet holds behind its header or than the ring holds of a
-- frame.
pub parse-frames :
    (ms : List Message) (last : Message) (n : ℕ) (r : RingBuffer ℕ) (fuel id k : ℕ)
    (alloc : ℕ → Option Packet)
    → Bounds.IsValid r
    → Allocates alloc
    → AllSendable (get_buffer_size r) ms
    → IsSendable (get_buffer_size r) last
    → n < 5 + length last.body
    → contents r ≡ stream ms ++ take n (frame last.key last.body)
    → length ms < fuel
    → (s : Parsed) × (parse fuel id alloc k r ≡ some s)
      × Read id ms (take n (frame last.key last.body)) false s
parse-frames ms last n r fuel id k alloc v a oks ok short e h =
    parse-stream ms r fuel id k alloc (take n (frame last.key last.body)) false v a oks
      (verdict-partial (get_buffer_size r) last.key last.body [] ok.some_body ok.fits ok.room n
        short)
      e h

-- If a well-formed receive ring holds the frames of sendable messages and then a header of three
-- bytes whose code is not `PACKET_CODE`, or whose size is 0, over what a packet holds, or over what
-- the ring holds, and the pool gives a packet with a whole storage each time, the receive loop, on
-- any number of rounds above that of the frames, ends with `parseError`: the messages before the
-- header are handed over as they were sent, and the header and what follows it stay in the ring.
pub parse-refuses :
    (ms : List Message) (code lo hi : ℕ) (more : List ℕ) (r : RingBuffer ℕ) (fuel id k : ℕ)
    (alloc : ℕ → Option Packet)
    → Bounds.IsValid r
    → Allocates alloc
    → AllSendable (get_buffer_size r) ms
    → ((code ≡ packet_code → ⊥) ⊎ (from_bytes (lo ∷ hi ∷ []) ≡ 0))
      ⊎ ((buffer_default - 5 < from_bytes (lo ∷ hi ∷ []))
          ⊎ (get_buffer_size r < 5 + from_bytes (lo ∷ hi ∷ [])))
    → contents r ≡ stream ms ++ (code ∷ lo ∷ hi ∷ more)
    → length ms < fuel
    → (s : Parsed) × (parse fuel id alloc k r ≡ some s) × Read id ms (code ∷ lo ∷ hi ∷ more) true s
parse-refuses ms code lo hi more r fuel id k alloc v a oks why e h =
    parse-stream ms r fuel id k alloc (code ∷ lo ∷ hi ∷ more) true v a oks
      (verdict-refused (get_buffer_size r) code lo hi more why) e h
