-- ===== src/Sending/Examples.antt =====
-- A session with a send in flight, and the steps of two threads on it.
use game_programmer_portfoli.Base.{◌≡◌, refl, [], ◌∷◌, replicate, arith}
use game_programmer_portfoli.Session.{increase_io_count}
use game_programmer_portfoli.Session.Pool.{connected}
use game_programmer_portfoli.Sending.{
  SendSession, ok, try_send_flag, fill_send, sub_ref_sent, finish_send, enqueue_packet, begin_send,
  complete_send,
}
use game_programmer_portfoli.Sending.Refs.{idle, in_flight, World}
use game_programmer_portfoli.Session.Open.{IsOpen}
use game_programmer_portfoli.Sending.Flow.{serve, Sent, serve-Sent}

-- The packet 1 is with `WSASend`.
abbrev sending : SendSession
sending = record {
  id = 5;
  state = connected;
  control = record { io_count = 2; release_flag = 0 };
  ring = [];
  send_flag = 1;
  sent_packets = 1 ∷ [];
  add_refs = 1 ∷ [];
  sub_refs = [];
  queued = 1 ∷ [];
  posted = 1 ∷ [];
  releases = 0;
}

abbrev begun : World
begun = record { session = sending; phase = in_flight }

-- The send completes and its thread finds no packet; before it gives the flag up, another puts the
-- packet 2 into the ring and does not get the flag.
abbrev looked : SendSession
looked = fill_send (try_send_flag (complete_send sending)).1

abbrev joined : SendSession
joined = (try_send_flag (begin_send looked 5 2).1).1

abbrev gave_up : World
gave_up = record { session = (finish_send ok joined).1; phase = idle }

-- The packet 2 stays in the ring, with no send under way.
left_behind : (gave_up.session.ring ≡ 2 ∷ []) × (gave_up.session.send_flag ≡ 0)
unfolding complete_send sub_ref_sent try_send_flag fill_send begin_send enqueue_packet finish_send
    increase_io_count
left_behind = (refl, refl)

-- 70 packets wait behind the one in flight.
abbrev busy : SendSession
busy = record sending { ring = replicate 70 3 }

busy-IsOpen : IsOpen busy.control
busy-IsOpen = record { flag = refl; counted = omega arith; room = omega arith }

serve-Sent_example : Sent busy (serve 3 busy)
serve-Sent_example = serve-Sent 2 busy (omega arith) refl busy-IsOpen
