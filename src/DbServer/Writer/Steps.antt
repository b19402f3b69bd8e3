-- ===== src/DbServer/Writer/Steps.antt =====
-- What a step of a thread keeps.
use game_programmer_portfoli.Base.{
  ◌+◌, ◌≤◌, ◌≡◌, refl, sym, ap, ◌∙◌, Bool, true, false, List, [], ◌∷◌, ◌++◌, append_assoc, ◌==◌,
  if◌then◌else◌, is_null, length, arith, one_if,
}
use game_programmer_portfoli.DbServer.{Message, Database, DbServer, write}
use game_programmer_portfoli.DbServer.Writer.{
  Updater, making, signalling, awaiting, terminating, last_signal, ended, Writer, waits, pops,
  handles, tests, stopped, Shared, update, pop, go_on,
}
use game_programmer_portfoli.DbServer.Writer.Order.{
  from_first, in_hand, is_waiting, is_testing, is_stopped, write_all-append, Keeps, closes-le,
  early,
}

module _ {D Tables : Type 0} (db : Database D Tables) (server : DbServer D)
    (xs ys : List Message) where
  making-Keeps :
      (s : Shared D) (m : Message) (ms : List Message) (o : Updater)
      → Keeps db server xs ys s (making (m ∷ ms)) o
      → Keeps db server xs ys (update s (making (m ∷ ms))).0 (signalling ms) o
  making-Keeps s m ms o k =
      let (a, (b, (e, (f, g)))) = k.merged in
      let none_closes = early db server xs ys s (making (m ∷ ms)) o k refl in
      record {
        order =
            ap (λ l. l ++ (m ∷ [])) k.order
            ∙ append_assoc s.handled (in_hand s.writer ++ s.queue) (m ∷ [])
            ∙ ap (λ l. s.handled ++ l) (append_assoc (in_hand s.writer) s.queue (m ∷ []));
        written = k.written;
        merged = (a ++ (m ∷ []), (b, (e ∙ sym (append_assoc a (m ∷ []) ms), (f, from_first m g))));
        finished = k.finished;
        closed = λ h. absurd (omega (arith, h, none_closes, closes-le o));
        both = λ h. absurd (omega (arith, h, none_closes));
        ends = k.ends;
        lasted = k.lasted;
        stops = k.stops;
        wakes = λ h l. omega arith;
        wakes_last = λ h t. absurd (omega (arith, t, none_closes));
      }

  finishes-Keeps :
      (s : Shared D) (o : Updater) (b : Bool)
      → (s.finished + 1 == 2) ≡ b
      → Keeps db server xs ys s (making []) o
      → Keeps db server xs ys
          (record s { finished = s.finished + 1 })
          (if b then awaiting else ended)
          o
  finishes-Keeps s o true d k =
      let none_closes = early db server xs ys s (making []) o k refl in
      record {
        order = k.order;
        written = k.written;
        merged = k.merged;
        finished = omega (arith, k.finished);
        closed = λ h. absurd (omega (arith, h, none_closes, closes-le o));
        both = λ h. ground (arith, d);
        ends = λ h. omega arith;
        lasted = k.lasted;
        stops = k.stops;
        wakes = k.wakes;
        wakes_last = k.wakes_last;
      }
  finishes-Keeps s o false d k =
      let none_closes = early db server xs ys s (making []) o k refl in
      record {
        order = k.order;
        written = k.written;
        merged = k.merged;
        finished = omega (arith, k.finished);
        closed = λ h. absurd (omega (arith, h, none_closes, closes-le o));
        both = λ h. absurd (omega (arith, h, none_closes));
        ends = λ h. absurd (ground (arith, d, h));
        lasted = k.lasted;
        stops = k.stops;
        wakes = k.wakes;
        wakes_last = k.wakes_last;
      }

  checks-Keeps :
      (s : Shared D) (o : Updater) (queue : List Message)
      → s.queue ≡ queue
      → Keeps db server xs ys s awaiting o
      → Keeps db server xs ys s (if is_null queue then terminating else awaiting) o
  checks-Keeps s o (m ∷ queue) e k = k
  checks-Keeps s o [] e k = record {
    order = k.order;
    written = k.written;
    merged = k.merged;
    finished = k.finished;
    closed = λ h. omega (arith, ap (λ l. length l) e);
    both = k.both;
    ends = k.ends;
    lasted = k.lasted;
    stops = k.stops;
    wakes = k.wakes;
    wakes_last = k.wakes_last;
  }

  pub update-Keeps :
      (s : Shared D) (u o : Updater)
      → Keeps db server xs ys s u o
      → Keeps db server xs ys (update s u).0 (update s u).1 o
  update-Keeps s (making []) o k = finishes-Keeps s o (s.finished + 1 == 2) refl k
  update-Keeps s (making (m ∷ ms)) o k = making-Keeps s m ms o k
  update-Keeps s (signalling ms) o k = record {
    order = k.order;
    written = k.written;
    merged = k.merged;
    finished = k.finished;
    closed = k.closed;
    both = k.both;
    ends = k.ends;
    lasted = k.lasted;
    stops = k.stops;
    wakes = λ h l. omega arith;
    wakes_last = λ h l. omega arith;
  }
  update-Keeps s awaiting o k = checks-Keeps s o s.queue refl k
  update-Keeps s terminating o k = record {
    order = k.order;
    written = k.written;
    merged = k.merged;
    finished = k.finished;
    closed = λ h. k.closed (omega arith);
    both = λ h. k.both (omega arith);
    ends = λ h. omega arith;
    lasted = λ h. omega arith;
    stops = is_stopped-le s.writer;
    wakes = k.wakes;
    wakes_last = λ h l. omega arith;
  }
    where
      is_stopped-le : (r : Writer) → is_stopped r ≤ 1
      is_stopped-le r = ground arith
  update-Keeps s last_signal o k = record {
    order = k.order;
    written = k.written;
    merged = k.merged;
    finished = k.finished;
    closed = λ h. k.closed (omega arith);
    both = λ h. k.both (omega arith);
    ends = λ h. omega (arith, k.lasted (omega arith));
    lasted = λ h. k.lasted (omega arith);
    stops = k.stops;
    wakes = λ h l. omega arith;
    wakes_last = λ h l. omega arith;
  }
  update-Keeps s ended o k = k

  pops-Keeps :
      (s : Shared D) (u o : Updater) (queue : List Message)
      → s.queue ≡ queue
      → s.writer ≡ pops
      → Keeps db server xs ys s u o
      → Keeps db server xs ys (pop s queue) u o
  pops-Keeps s u o [] e w k = record {
    order = k.order ∙ ap (λ r. s.handled ++ (in_hand r ++ s.queue)) w;
    written = k.written;
    merged = k.merged;
    finished = k.finished;
    closed = k.closed;
    both = k.both;
    ends = k.ends;
    lasted = k.lasted;
    stops = omega arith;
    wakes = λ h l. absurd (omega (arith, l, ap (λ x. length x) e));
    wakes_last = λ h l. absurd (omega (arith, h));
  }
  pops-Keeps s u o (m ∷ ms) e w k = record {
    order = k.order ∙ ap (λ r. s.handled ++ (in_hand r ++ s.queue)) w ∙ ap (λ l. s.handled ++ l) e;
    written = k.written;
    merged = k.merged;
    finished = k.finished;
    closed = λ h. absurd (omega (arith, k.closed h, ap (λ x. length x) e));
    both = k.both;
    ends = k.ends;
    lasted = k.lasted;
    stops = omega arith;
    wakes = λ h l. absurd (omega (arith, h));
    wakes_last = λ h l. absurd (omega (arith, h));
  }

  waits-Keeps :
      (s : Shared D) (u o : Updater) (b : Bool)
      → s.writer ≡ waits
      → Keeps db server xs ys s u o
      → Keeps db server xs ys (if b then record s { event = false; writer = pops } else s) u o
  waits-Keeps s u o false w k = k
  waits-Keeps s u o true w k = record {
    order = k.order ∙ ap (λ r. s.handled ++ (in_hand r ++ s.queue)) w;
    written = k.written;
    merged = k.merged;
    finished = k.finished;
    closed = k.closed;
    both = k.both;
    ends = k.ends;
    lasted = k.lasted;
    stops = omega arith;
    wakes = λ h l. absurd (omega (arith, h));
    wakes_last = λ h l. absurd (omega (arith, h));
  }

  tests-Keeps :
      (s : Shared D) (u o : Updater) (b : Bool)
      → s.terminate ≡ b
      → s.writer ≡ tests
      → Keeps db server xs ys s u o
      → Keeps db server xs ys (record s { writer = if b then stopped else waits }) u o
  tests-Keeps s u o true t w k = record {
    order = k.order ∙ ap (λ r. s.handled ++ (in_hand r ++ s.queue)) w;
    written = k.written;
    merged = k.merged;
    finished = k.finished;
    closed = k.closed;
    both = k.both;
    ends = k.ends;
    lasted = k.lasted;
    stops = omega (arith, ap one_if t);
    wakes = λ h l. absurd (omega (arith, h));
    wakes_last = λ h l. absurd (omega (arith, h));
  }
  tests-Keeps s u o false t w k = record {
    order = k.order ∙ ap (λ r. s.handled ++ (in_hand r ++ s.queue)) w;
    written = k.written;
    merged = k.merged;
    finished = k.finished;
    closed = k.closed;
    both = k.both;
    ends = k.ends;
    lasted = k.lasted;
    stops = omega arith;
    wakes = λ h l. k.wakes (omega (arith, ap is_testing w, ap is_waiting w)) l;
    wakes_last = λ h l. absurd (omega (arith, l, ap one_if t));
  }

  pub go_on-Keeps :
      (s : Shared D) (u o : Updater) (r : Writer)
      → s.writer ≡ r
      → Keeps db server xs ys s u o
      → Keeps db server xs ys (go_on db s r) u o
  go_on-Keeps s u o waits w k = waits-Keeps s u o s.event w k
  go_on-Keeps s u o pops w k = pops-Keeps s u o s.queue refl w k
  go_on-Keeps s u o (handles m) w k = record {
    order =
        k.order
        ∙ ap (λ r. s.handled ++ (in_hand r ++ s.queue)) w
        ∙ sym (append_assoc s.handled (m ∷ []) s.queue);
    written =
        ap (λ x. write db x m) k.written ∙ sym (write_all-append db server server s.handled m);
    merged = k.merged;
    finished = k.finished;
    closed = k.closed;
    both = k.both;
    ends = k.ends;
    lasted = k.lasted;
    stops = omega arith;
    wakes = λ h l. absurd (omega (arith, h));
    wakes_last = λ h l. absurd (omega (arith, h));
  }
  go_on-Keeps s u o tests w k = tests-Keeps s u o s.terminate refl w k
  go_on-Keeps s u o stopped w k = k
