-- ===== src/DbServer/Writer/Order.antt =====
-- Every message is handled once, in the order of its thread, and no wake-up is lost.
use game_programmer_portfoli.Base.{
  zero-or, ℕ, ◌+◌, ◌≤◌, ◌≡◌, inl, inr, refl, ap, List, [], ◌∷◌, ◌++◌, length, arith, one_if,
  Bool-cases,
}
use game_programmer_portfoli.DbServer.{Message, Database, DbServer, write}
use game_programmer_portfoli.DbServer.Writer.{
  Updater, making, signalling, awaiting, terminating, last_signal, ended, Writer, waits, pops,
  handles, tests, stopped, Shared,
}

-- A list made of two, each in its order.
pub data Merges : List Message → List Message → List Message → Type 0 where
  none_yet : Merges [] [] []
  from_first :
      {a b c : List Message} (m : Message) → Merges a b c → Merges (a ++ (m ∷ [])) b (c ++ (m ∷ []))
  from_second :
      {a b c : List Message} (m : Message) → Merges a b c → Merges a (b ++ (m ∷ [])) (c ++ (m ∷ []))

Merges-swap : {a b c : List Message} → Merges a b c → Merges b a c
Merges-swap none_yet = none_yet
Merges-swap (from_first m k) = from_second m (Merges-swap k)
Merges-swap (from_second m k) = from_first m (Merges-swap k)

-- The messages that a thread has still to make.
abbrev pub left : Updater → List Message
left (making ms) = ms
left (signalling ms) = ms
left awaiting = []
left terminating = []
left last_signal = []
left ended = []

abbrev pub past : Updater → ℕ
past (making ms) = 0
past (signalling ms) = 0
past awaiting = 1
past terminating = 1
past last_signal = 1
past ended = 1

-- 1 where a thread is to set the event, where it waits for the end, where it has seen the queue empty,
-- and where it is to set the event for the last time.
abbrev pub signals : Updater → ℕ
signals (making ms) = 0
signals (signalling ms) = 1
signals awaiting = 0
signals terminating = 0
signals last_signal = 0
signals ended = 0

abbrev pub closes : Updater → ℕ
closes (making ms) = 0
closes (signalling ms) = 0
closes awaiting = 0
closes terminating = 1
closes last_signal = 1
closes ended = 0

abbrev pub will_close : Updater → ℕ
will_close (making ms) = 0
will_close (signalling ms) = 0
will_close awaiting = 1
will_close terminating = 1
will_close last_signal = 1
will_close ended = 0

abbrev pub lasts : Updater → ℕ
lasts (making ms) = 0
lasts (signalling ms) = 0
lasts awaiting = 0
lasts terminating = 0
lasts last_signal = 1
lasts ended = 0

abbrev pub in_hand : Writer → List Message
in_hand waits = []
in_hand pops = []
in_hand (handles m) = m ∷ []
in_hand tests = []
in_hand stopped = []

abbrev pub is_waiting : Writer → ℕ
is_waiting waits = 1
is_waiting pops = 0
is_waiting (handles m) = 0
is_waiting tests = 0
is_waiting stopped = 0

abbrev pub is_testing : Writer → ℕ
is_testing waits = 0
is_testing pops = 0
is_testing (handles m) = 0
is_testing tests = 1
is_testing stopped = 0

abbrev pub is_stopped : Writer → ℕ
is_stopped waits = 0
is_stopped pops = 0
is_stopped (handles m) = 0
is_stopped tests = 0
is_stopped stopped = 1

pub past-le : (u : Updater) → past u ≤ 1
past-le u = ground arith

pub closes-le : (u : Updater) → closes u ≤ will_close u
closes-le u = ground arith

pub will_close-le : (u : Updater) → will_close u ≤ past u
will_close-le u = ground arith

module _ {D Tables : Type 0} (db : Database D Tables) (server : DbServer D) where
  abbrev pub write_all : DbServer D → List Message → DbServer D
  write_all s [] = s
  write_all s (m ∷ ms) = write_all (write db s m) ms

  pub write_all-append :
      (s : DbServer D) (ms : List Message) (m : Message)
      → write_all s (ms ++ (m ∷ [])) ≡ write db (write_all s ms) m
  write_all-append s [] m = refl
  write_all-append s (n ∷ ms) m = write_all-append (write db s n) ms m

  -- What two threads, with the messages `xs` and `ys` to make, keep.
  pub record Keeps (xs ys : List Message) (s : Shared D) (u o : Updater) : Type 0 where
    pub order : s.pushed ≡ s.handled ++ (in_hand s.writer ++ s.queue)
    pub written : s.server ≡ write_all server s.handled
    pub merged :
        (a : List Message) × ((b : List Message) × ((xs ≡ a ++ left u)
            × ((ys ≡ b ++ left o) × Merges a b s.pushed)))
    pub finished : s.finished ≡ past u + past o
    pub closed : 1 ≤ closes u + closes o + one_if s.terminate → length s.queue ≡ 0
    pub both : 1 ≤ will_close u + will_close o + one_if s.terminate → s.finished ≡ 2
    pub ends : s.finished ≡ 2 → 1 ≤ will_close u + will_close o + one_if s.terminate
    pub lasted : 1 ≤ lasts u + lasts o → 1 ≤ one_if s.terminate
    pub stops : is_stopped s.writer ≤ one_if s.terminate
    pub wakes :
        1 ≤ is_waiting s.writer + is_testing s.writer
        → 1 ≤ length s.queue
        → 1 ≤ one_if s.event + signals u + signals o
    pub wakes_last :
        1 ≤ is_waiting s.writer → 1 ≤ one_if s.terminate → 1 ≤ one_if s.event + lasts u + lasts o

  pub Keeps-swap :
      (xs ys : List Message) (s : Shared D) (u o : Updater) → Keeps xs ys s u o → Keeps ys xs s o u
  Keeps-swap xs ys s u o k =
      let (a, (b, (e, (f, m)))) = k.merged in
      record {
        order = k.order;
        written = k.written;
        merged = (b, (a, (f, (e, Merges-swap m))));
        finished = omega (arith, k.finished);
        closed = λ h. k.closed (omega (arith, h));
        both = λ h. k.both (omega (arith, h));
        ends = λ h. omega (arith, k.ends h);
        lasted = λ h. k.lasted (omega (arith, h));
        stops = k.stops;
        wakes = λ h l. omega (arith, k.wakes h l);
        wakes_last = λ h l. omega (arith, k.wakes_last h l);
      }

  -- A thread that is still making messages is not past, so that nobody closes.
  module _ (xs ys : List Message) (s : Shared D) (u o : Updater) (k : Keeps xs ys s u o) where
    pub early : past u ≡ 0 → will_close u + will_close o + one_if s.terminate ≡ 0
    early e = elim (Bool-cases s.terminate) [
      | inl t ↦
          let two = k.both (omega (arith, ap one_if t)) in
          absurd (omega (arith, two, k.finished, e, past-le o))
      | inr t ↦ elim (zero-or (will_close o)) [
        | inl z ↦ omega (arith, z, ap one_if t, e, will_close-le u)
        | inr z ↦
            let two = k.both (omega (arith, z)) in
            absurd (omega (arith, two, k.finished, e, past-le o))
      ]
    ]
