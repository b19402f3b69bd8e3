-- ===== src/Frame/Examples.antt =====
-- A ring of sixty-four bytes with one whole frame and a part of the next.
use game_programmer_portfoli.Base.{
  ℕ, suc, ap, sym, map, ◌+◌, ◌^◌, ◌*◌, ◌<◌, ◌≤◌, ◌≡◌, refl, subst, none, some-injective, ◌∙◌, inl,
  true, false, List, [], ◌∷◌, ◌++◌, Option, some, length, take, blit, replicate, length-blit,
  length-replicate, arith,
}
use game_programmer_portfoli.RingBuffer.{
  RingBuffer, get_use_size, get_buffer_size, get_free_size, move_rear,
}
use game_programmer_portfoli.RingBuffer.Bounds
use game_programmer_portfoli.RingBuffer.Put.{contents}
use game_programmer_portfoli.Packet.{Packet}
use game_programmer_portfoli.Packet.Bounds.{IsValid}
use game_programmer_portfoli.Packet.Bytes.{to_bytes}
use game_programmer_portfoli.Encryption.{encode, calculate_check_sum}
use game_programmer_portfoli.Frame.{frame}
use game_programmer_portfoli.Frame.Send.{encode_packet, wire, payload, encode_packet-frame}
use game_programmer_portfoli.Frame.Receive.{Parsed, parse}
use game_programmer_portfoli.Frame.Stream.{
  Message, IsSendable, AllSendable, Allocates, Read, stream, parse-frames, parse-refuses,
}
use game_programmer_portfoli.Frame.Total.{parse-total}
use game_programmer_portfoli.Session.Control.{open_with}
use game_programmer_portfoli.Frame.Complete.{
  RecvSession, under_way, on_recv_completion, SessionCall, sends, starts, disconnects, all_calls,
}
use game_programmer_portfoli.Frame.Receiving.{Completes, on_recv_completion_lem}

abbrev first : Message
first = record { key = 7; body = 10 ∷ 20 ∷ [] }

abbrev last : Message
last = record { key = 200; body = 5 ∷ [] }

frame_first : frame 7 (10 ∷ 20 ∷ []) ≡ 119 ∷ 2 ∷ 0 ∷ 7 ∷ 37 ∷ 76 ∷ 138 ∷ []
unfolding to_bytes encode calculate_check_sum
frame_first = refl

abbrev ring_of_bytes : List ℕ → RingBuffer ℕ
ring_of_bytes bs = record {
  buffer = blit (replicate 64 0) 0 bs;
  buffer_size = 64;
  front = 0;
  rear = length bs;
}

-- The first frame and the first three bytes of the last.
abbrev ring : RingBuffer ℕ
ring = ring_of_bytes (119 ∷ 2 ∷ 0 ∷ 7 ∷ 37 ∷ 76 ∷ 138 ∷ 119 ∷ 1 ∷ 0 ∷ [])

ring-IsValid : Bounds.IsValid ring
ring-IsValid = record { storage = refl; front_in = omega arith; rear_in = omega arith }

ring-contents : contents ring ≡ stream (first ∷ []) ++ take 3 (frame 200 (5 ∷ []))
unfolding stream get_use_size to_bytes encode calculate_check_sum
ring-contents = refl

-- The first frame and a header with another code.
abbrev bad_ring : RingBuffer ℕ
bad_ring = ring_of_bytes (119 ∷ 2 ∷ 0 ∷ 7 ∷ 37 ∷ 76 ∷ 138 ∷ 120 ∷ 1 ∷ 0 ∷ [])

bad_ring-IsValid : Bounds.IsValid bad_ring
bad_ring-IsValid = record { storage = refl; front_in = omega arith; rear_in = omega arith }

bad_ring-contents : contents bad_ring ≡ stream (first ∷ []) ++ (120 ∷ 1 ∷ 0 ∷ [])
unfolding stream get_use_size to_bytes encode calculate_check_sum
bad_ring-contents = refl

capacity : (get_buffer_size ring ≡ 63) × (get_buffer_size bad_ring ≡ 63)
unfolding get_buffer_size
capacity = (refl, refl)

abbrev fresh : Packet
fresh = record {
  session_id = 0;
  storage = replicate 2048 0;
  data_size = 0;
  read_pos = 0;
  ref_cnt = 0;
  is_encoding = false;
}

abbrev pool : ℕ → Option Packet
pool k = some fresh

pool-Allocates : Allocates pool
unfolding Allocates
pool-Allocates k = (fresh, refl, length-replicate {A = ℕ} 2048 0)

first-IsSendable : (cap : ℕ) → 7 ≤ cap → IsSendable cap first
first-IsSendable cap h = record {
  some_body = omega arith;
  fits = omega arith;
  room = h;
  bytes = (omega arith, (omega arith, tt));
}

last-IsSendable : IsSendable (get_buffer_size ring) last
last-IsSendable = record {
  some_body = omega arith;
  fits = omega arith;
  room = omega (arith, capacity);
  bytes = (omega arith, tt);
}

all-AllSendable : (cap : ℕ) → 7 ≤ cap → AllSendable cap (first ∷ [])
unfolding AllSendable
all-AllSendable cap h = (first-IsSendable cap h, tt)

parse-frames_example :
    (s : Parsed) × (parse 2 9 pool 0 ring ≡ some s)
    × Read 9 (first ∷ []) (take 3 (frame 200 (5 ∷ []))) false s
parse-frames_example =
    parse-frames (first ∷ []) last 3 ring 2 9 0 pool ring-IsValid pool-Allocates
      (all-AllSendable (get_buffer_size ring) (omega (arith, capacity))) last-IsSendable
      (omega arith) ring-contents (omega arith)

parse-refuses_example :
    (s : Parsed) × (parse 2 9 pool 0 bad_ring ≡ some s)
    × Read 9 (first ∷ []) (120 ∷ 1 ∷ 0 ∷ []) true s
parse-refuses_example =
    parse-refuses (first ∷ []) 120 1 0 [] bad_ring 2 9 0 pool bad_ring-IsValid pool-Allocates
      (all-AllSendable (get_buffer_size bad_ring) (omega (arith, capacity)))
      (inl (inl (λ e. omega arith))) bad_ring-contents (omega arith)

used : get_use_size bad_ring ≡ 10
unfolding get_use_size
used = refl

parse-total_example : (s : Parsed) × (parse 4 9 pool 0 bad_ring ≡ some s)
parse-total_example = parse-total 4 bad_ring 9 0 pool bad_ring-IsValid (omega (arith, used))

-- The session of the bad ring before `MoveRear`, with the receive in flight.
abbrev reading : RecvSession
reading = record {
  id = 9;
  control = open_with 1;
  ring = record bad_ring { rear = 0 };
  first_buf = record { buf = some 0; len = 63 };
  second_buf = record { buf = none; len = 0 };
  posted = [];
  received = [];
  releases = 0;
}

reading_used : get_use_size (move_rear reading.ring 10).1 ≡ 10
unfolding get_use_size move_rear get_free_size get_buffer_size
reading_used = refl

-- `OnRecv` answers each packet, then cuts the session off.
abbrev answers : ℕ → Packet → List SessionCall
answers k p = sends starts ∷ disconnects ∷ []

length-answers : (k : ℕ) (ps : List Packet) → length (all_calls answers k ps) ≡ 2 * length ps
unfolding all_calls
length-answers k [] = refl
length-answers k (p ∷ ps) = omega (arith, length-answers (k + 1) ps)

length-mapped : {A : Type 0} (f : Packet → A) (xs : List Packet) → length (map f xs) ≡ length xs
length-mapped f [] = refl
length-mapped f (x ∷ xs) = ap suc (length-mapped f xs)

length-as :
    {A : Type 0} (f : Packet → A) (xs : List Packet) (ys : List A)
    → map f xs ≡ ys
    → length xs ≡ length ys
length-as f xs ys e = sym (length-mapped f xs) ∙ ap length e

moved_bad_ring : (move_rear reading.ring 10).1 ≡ bad_ring
unfolding move_rear get_free_size get_buffer_size get_use_size
moved_bad_ring = refl

room :
    (size : ℕ) (p : Parsed)
    → some 10 ≡ some size
    → parse 4 9 pool 0 (move_rear reading.ring size).1 ≡ some p
    → 1 + length (all_calls answers 0 p.delivered) + 1 < 2 ^ 32
room size p e run =
    let (q, found, read) =
      parse-refuses (first ∷ []) 120 1 0 [] bad_ring 4 9 0 pool bad_ring-IsValid pool-Allocates
        (all-AllSendable (get_buffer_size bad_ring) (omega (arith, capacity)))
        (inl (inl (λ e. omega arith))) bad_ring-contents (omega arith) in
    let here : parse 4 9 pool 0 bad_ring ≡ some p =
      subst (λ x. parse 4 9 pool 0 x ≡ some p) moved_bad_ring
        (subst (λ k. parse 4 9 pool 0 (move_rear reading.ring k).1 ≡ some p)
          (sym (some-injective e)) run) in
    let same : q ≡ p = some-injective (sym found ∙ here) in
    let l = length-as (λ m. m.session_id) q.delivered (9 ∷ []) read.sessions in
    let l' : length p.delivered ≡ 1 = subst (λ x. length (x.delivered) ≡ 1) same l in
    omega (arith, length-answers 0 p.delivered, l')

on_recv_completion_example :
    (t : RecvSession) × (on_recv_completion 4 pool answers under_way (some 10) reading ≡ some t)
    × Completes under_way answers
        (λ size. parse 4 9 pool 0 (move_rear reading.ring size).1)
        1
        (some 10)
        reading
        t
on_recv_completion_example =
    on_recv_completion_lem 4 pool answers under_way (some 10) 1 reading (omega arith) refl
      (record { storage = refl; front_in = omega arith; rear_in = omega arith }) room
      (λ size e.
        subst (λ k. get_use_size (move_rear reading.ring k).1 < 3 * 4) (some-injective e)
          (omega (arith, reading_used)))

-- A packet with a payload of two bytes behind the header's five.
abbrev unsent : Packet
unsent = record fresh {
  storage = blit (replicate 2048 0) 5 (10 ∷ 20 ∷ []);
  data_size = 7;
  ref_cnt = 1;
}

unsent-IsValid : IsValid unsent
unsent-IsValid = record {
  storage =
      length-blit {A = ℕ} (replicate 2048 0) 5 (10 ∷ 20 ∷ []) ∙ length-replicate {A = ℕ} 2048 0;
  written = omega arith;
  unread = omega arith;
}

encode_packet_example :
    (wire (encode_packet 7 unsent) ≡ frame 7 (payload unsent))
    × ((encode_packet 7 unsent).is_encoding ≡ true)
encode_packet_example = encode_packet-frame 7 unsent unsent-IsValid (omega arith) refl
