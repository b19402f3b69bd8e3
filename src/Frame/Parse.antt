-- ===== src/Frame/Parse.antt =====
-- What the receive loop makes of the bytes in the ring.
use game_programmer_portfoli.Base.{
  ℕ, zero, suc, ◌+◌, ◌-◌, ◌/◌, ◌%◌, ◌≤◌, ◌<◌, ◌≡◌, refl, sym, ap, ◌∙◌, ◌⊎◌, true, false, not,
  Option, List, [], ◌∷◌, ◌++◌, length, take, slice, get_or, ltb, ◌==◌, if◌then◌else◌, arith, ==_iff,
  le→ltb_false, lt→ltb, length-append, append_cancel, length-take,
}
use game_programmer_portfoli.RingBuffer.{
  RingBuffer, get_use_size, get_buffer_size, move_front, dequeue,
}
use game_programmer_portfoli.RingBuffer.Bounds.{IsValid}
use game_programmer_portfoli.RingBuffer.Put.{contents, length-contents}
use game_programmer_portfoli.RingBuffer.Get.{dequeue-Got, peek_lem, move_front-Got}
use game_programmer_portfoli.Packet.{Packet, buffer_default}
use game_programmer_portfoli.Packet.Bytes.{to_bytes, from_bytes}
use game_programmer_portfoli.Encryption.{calculate_check_sum, encode}
use game_programmer_portfoli.Encryption.RoundTrip.{length-encode}
use game_programmer_portfoli.Frame.{packet_code, frame}
use game_programmer_portfoli.Frame.Receive.{Round, breaks, read_packet, parse_round}

-- A `Dequeue` of `k` bytes that are there.
pub dequeue_front :
    {r : RingBuffer ℕ} (xs ys : List ℕ) (k : ℕ)
    → IsValid r
    → contents r ≡ xs ++ ys
    → length xs ≡ k
    → let (n, zs, s) = dequeue r true k in
      (zs ≡ xs) × (contents s ≡ ys) × IsValid s × (s.buffer_size ≡ r.buffer_size)
dequeue_front {r} xs ys k v e l =
    let (n, m, g) = dequeue-Got k v in
    let whole : get_use_size r ≡ length xs + length ys =
      sym (length-contents v) ∙ ap length e ∙ length-append xs ys in
    let s : RingBuffer ℕ = (dequeue r true k).2 in
    let (f, h) =
      append_cancel (dequeue r true k).1 (contents s) xs ys (omega arith) (sym g.items ∙ e) in
    (f, h, g.valid, g.buffer_size)

pub move_front_front :
    {r : RingBuffer ℕ} (xs ys : List ℕ) (k : ℕ)
    → IsValid r
    → contents r ≡ xs ++ ys
    → length xs ≡ k
    → let s = (move_front r k).1 in (contents s ≡ ys) × IsValid s × (s.buffer_size ≡ r.buffer_size)
move_front_front {r} xs ys k v e l =
    let whole : get_use_size r ≡ length xs + length ys =
      sym (length-contents v) ∙ ap length e ∙ length-append xs ys in
    let (n, g) = move_front-Got k v (omega arith) in
    let short : length (take k (contents r)) ≡ k =
      omega (arith, length-take k (contents r), length-contents v) in
    let (f, h) =
      append_cancel (take k (contents r)) (contents (move_front r k).1) xs ys (omega arith)
        (sym g.items ∙ e) in
    (h, g.valid, g.buffer_size)

-- What the bytes at hand amount to, by their first three.
pub data Verdict : Type 0 where
  waits bad : Verdict
  whole : ℕ → Verdict

pub verdict : ℕ → List ℕ → Verdict
verdict cap bytes =
    let header = take 3 bytes in
    let len = from_bytes (slice header 1 2) in
    let total = 3 + 1 + 1 + len in
    if ltb (length bytes) 3
    then waits
    else if not (get_or header 0 0 == packet_code)
    then bad
    else if len == 0
    then bad
    else if ltb (buffer_default - 5) len
    then bad
    else if ltb cap total
    then bad
    else if ltb (length bytes) total
    then waits
    else whole len

abbrev pub outcome : ℕ → Option Packet → RingBuffer ℕ → Verdict → Round
outcome id alloc r waits = breaks false r
outcome id alloc r bad = breaks true r
outcome id alloc r (whole len) = read_packet id len alloc r

-- Only a header that is there whole is read on.
pub verdict_whole :
    (cap len : ℕ) (bytes : List ℕ) → verdict cap bytes ≡ whole len → 3 ≤ length bytes
unfolding verdict
verdict_whole cap len bytes e = ground arith

-- A round depends on the ring only through its capacity and its contents.
pub parse_round-verdict :
    {r : RingBuffer ℕ} (id : ℕ) (alloc : Option Packet)
    → IsValid r
    → parse_round id alloc r ≡ outcome id alloc r (verdict (get_buffer_size r) (contents r))
unfolding parse_round verdict
parse_round-verdict {r} id alloc v = rw (peek_lem 3 v, length-contents v) (ground arith)

-- A header that passes the checks: only the number of bytes decides.
verdict-header :
    (cap len lo hi : ℕ) (tail : List ℕ)
    → from_bytes (lo ∷ hi ∷ []) ≡ len
    → 0 < len
    → len ≤ buffer_default - 5
    → 5 + len ≤ cap
    → verdict cap (packet_code ∷ lo ∷ hi ∷ tail)
      ≡ (if ltb (length tail) (2 + len) then waits else whole len)
unfolding verdict
verdict-header cap len lo hi tail e h k room = rw e (ground arith)

-- A header that is refused, whatever follows it.
pub verdict-refused :
    (cap code lo hi : ℕ) (tail : List ℕ)
    → ((code ≡ packet_code → ⊥) ⊎ (from_bytes (lo ∷ hi ∷ []) ≡ 0))
      ⊎ ((buffer_default - 5 < from_bytes (lo ∷ hi ∷ [])) ⊎ (cap < 5 + from_bytes (lo ∷ hi ∷ [])))
    → verdict cap (code ∷ lo ∷ hi ∷ tail) ≡ bad
unfolding verdict
verdict-refused cap code lo hi tail why = ground (arith, ==_iff code packet_code)

-- The bytes of a frame that is not all there yet, and of one that is.
module _ (cap key : ℕ) (payload rest : List ℕ) (some_payload : 0 < length payload)
    (fits : length payload ≤ buffer_default - 5) (room : 5 + length payload ≤ cap) where
  abbrev lo : ℕ
  lo = length payload % 256

  abbrev hi : ℕ
  hi = length payload / 256 % 256

  size_lem : from_bytes (lo ∷ hi ∷ []) ≡ length payload
  unfolding from_bytes
  size_lem = omega arith

  abbrev secret : List ℕ
  secret = encode key (calculate_check_sum payload ∷ payload)

  frame_lem : frame key payload ≡ packet_code ∷ lo ∷ hi ∷ key ∷ secret
  unfolding to_bytes
  frame_lem = refl

  length-secret : length secret ≡ 1 + length payload
  length-secret = omega (arith, length-encode key (calculate_check_sum payload ∷ payload))

  pub verdict-frame : verdict cap (frame key payload ++ rest) ≡ whole (length payload)
  verdict-frame =
      let long : ltb (length (key ∷ secret ++ rest)) (2 + length payload) ≡ false =
        le→ltb_false _ _ (omega (arith, length-append (key ∷ secret) rest, length-secret)) in
      ap (λ f. verdict cap (f ++ rest)) frame_lem
      ∙ verdict-header cap (length payload) lo hi (key ∷ secret ++ rest) size_lem some_payload fits
          room
      ∙ rw long

  pub verdict-partial :
      (n : ℕ) → n < 5 + length payload → verdict cap (take n (frame key payload)) ≡ waits
  unfolding verdict to_bytes
  verdict-partial zero h = refl
  verdict-partial (suc zero) h = refl
  verdict-partial (suc (suc zero)) h = refl
  verdict-partial (suc (suc (suc n))) h =
      let short : ltb (length (take n (key ∷ secret))) (2 + length payload) ≡ true =
        lt→ltb _ _ (omega (arith, length-take n (key ∷ secret))) in
      verdict-header cap (length payload) lo hi (take n (key ∷ secret)) size_lem some_payload fits
        room
      ∙ rw short
