-- ===== src/DbServer/Writer/Stopped.antt =====
-- What the threads have done when the writer has stopped, and who wakes it up.
use game_programmer_portfoli.Base.{
  zero-or, ◌+◌, ◌≤◌, ◌≡◌, ◌⊎◌, inl, inr, refl, sym, ap, ap₂, subst, ◌∙◌, true, false, List, [], ◌∷◌,
  ◌++◌, append-nil, length, arith, one_if, Bool-cases,
}
use game_programmer_portfoli.DbServer.{Message, Database, DbServer}
use game_programmer_portfoli.DbServer.Writer.{
  Updater, making, signalling, awaiting, terminating, last_signal, ended, waits, stopped, Shared,
  World, update, Step, first_goes, second_goes, writer_goes, Reaches, here, later, begun,
}
use game_programmer_portfoli.DbServer.Writer.Order.{
  Merges, none_yet, left, past, signals, will_close, lasts, in_hand, is_waiting, is_stopped,
  write_all, Keeps, Keeps-swap, past-le,
}
use game_programmer_portfoli.DbServer.Writer.Steps.{update-Keeps, go_on-Keeps}

past-left : (u : Updater) → 1 ≤ past u → left u ≡ []
past-left (making ms) h = absurd (omega (arith, h))
past-left (signalling ms) h = absurd (omega (arith, h))
past-left awaiting h = refl
past-left terminating h = refl
past-left last_signal h = refl
past-left ended h = refl

length-zero : (xs : List Message) → length xs ≡ 0 → xs ≡ []
length-zero [] e = refl
length-zero (x ∷ xs) e = absurd (omega (arith, e))

module _ {D Tables : Type 0} (db : Database D Tables) (server : DbServer D)
    (xs ys : List Message) where
  abbrev Holds : World D → Type 0
  Holds w = Keeps db server xs ys w.shared w.first w.second

  Step-Keeps : (w v : World D) → Step db w v → Holds w → Holds v
  Step-Keeps w v first_goes k = update-Keeps db server xs ys w.shared w.first w.second k
  Step-Keeps w v second_goes k =
      let swapped = Keeps-swap db server xs ys w.shared w.first w.second k in
      Keeps-swap db server ys xs _ _ _
        (update-Keeps db server ys xs w.shared w.second w.first swapped)
  Step-Keeps w v writer_goes k =
      go_on-Keeps db server xs ys w.shared w.first w.second w.shared.writer refl k

  begun-Keeps : Holds (begun server xs ys)
  begun-Keeps = record {
    order = refl;
    written = refl;
    merged = ([], ([], (refl, (refl, none_yet))));
    finished = refl;
    closed = λ h. refl;
    both = λ h. absurd (omega (arith, h));
    ends = λ h. absurd (omega (arith, h));
    lasted = λ h. absurd (omega (arith, h));
    stops = omega arith;
    wakes = λ h l. absurd (omega (arith, l));
    wakes_last = λ h l. absurd (omega (arith, l));
  }

  Reaches-Keeps : (w v : World D) → Reaches db w v → Holds w → Holds v
  Reaches-Keeps w v here k = k
  Reaches-Keeps w v (later r s) k = Step-Keeps _ v s (Reaches-Keeps w _ r k)

  -- Over any interleaving of the two threads that put messages into the queue and of the thread
  -- that takes them out: when the writer has stopped, it has handled every message of both threads
  -- once, those of each thread in their order, the server is as their handlers leave it, one after
  -- the other, and the queue is empty.
  pub stopped_lem :
      (w : World D)
      → Reaches db (begun server xs ys) w
      → w.shared.writer ≡ stopped
      → (Merges xs ys w.shared.handled)
        × (w.shared.server ≡ write_all db server server w.shared.handled)
        × (w.shared.queue ≡ [])
  stopped_lem w r e =
      let k = Reaches-Keeps _ w r begun-Keeps in
      let (a, (b, (f, (g, merged)))) = k.merged in
      let over : 1 ≤ will_close w.first + will_close w.second + one_if w.shared.terminate =
        omega (arith, k.stops, ap is_stopped e) in
      let two = k.both over in
      let first_left =
        past-left w.first (omega (arith, k.finished, two, past-le w.first, past-le w.second)) in
      let second_left =
        past-left w.second (omega (arith, k.finished, two, past-le w.first, past-le w.second)) in
      let no_queue =
        length-zero w.shared.queue (k.closed (omega (arith, k.stops, ap is_stopped e))) in
      let all : w.shared.pushed ≡ w.shared.handled =
        k.order
        ∙ ap₂ (λ r q. w.shared.handled ++ (in_hand r ++ q)) e no_queue
        ∙ append-nil w.shared.handled in
      let xs_all : xs ≡ a = f ∙ ap (λ l. a ++ l) first_left ∙ append-nil a in
      let ys_all : ys ≡ b = g ∙ ap (λ l. b ++ l) second_left ∙ append-nil b in
      (
        subst (Merges xs ys) all (
            subst (λ l. Merges l ys w.shared.pushed) (sym xs_all)
              (subst (λ l. Merges a l w.shared.pushed) (sym ys_all) merged)),
        k.written,
        no_queue,
      )

  -- A thread whose next step sets the event.
  sets : (s : Shared D) (u : Updater) → 1 ≤ signals u + lasts u → (update s u).0.event ≡ true
  sets s (making ms) h = absurd (omega (arith, h))
  sets s (signalling ms) h = refl
  sets s awaiting h = absurd (omega (arith, h))
  sets s terminating h = absurd (omega (arith, h))
  sets s last_signal h = refl
  sets s ended h = absurd (omega (arith, h))

  one_sets :
      (s : Shared D) (u o : Updater)
      → 1 ≤ signals u + lasts u + (signals o + lasts o)
      → ((update s u).0.event ≡ true) ⊎ ((update s o).0.event ≡ true)
  one_sets s u o h = elim (zero-or (signals u + lasts u)) [
    | inl z ↦ inr (sets s o (omega (arith, h, z)))
    | inr z ↦ inl (sets s u z)
  ]

  -- Over any interleaving of the two threads that put messages into the queue and of the thread
  -- that takes them out: when the writer waits, the event is not set, and a message is in the queue
  -- or `bTerminate` is set, then the next step of one of the other two threads sets the event.
  pub waits_lem :
      (w : World D)
      → Reaches db (begun server xs ys) w
      → w.shared.writer ≡ waits
      → w.shared.event ≡ false
      → 1 ≤ length w.shared.queue + one_if w.shared.terminate
      → ((update w.shared w.first).0.event ≡ true) ⊎ ((update w.shared w.second).0.event ≡ true)
  waits_lem w r e f h =
      let k = Reaches-Keeps _ w r begun-Keeps in
      one_sets w.shared w.first w.second (elim (Bool-cases w.shared.terminate) [
        | inl t ↦
            let last = k.wakes_last (omega (arith, ap is_waiting e)) (omega (arith, ap one_if t)) in
            omega (arith, last, ap one_if f)
        | inr t ↦
            let some_ = k.wakes (omega (arith, ap is_waiting e)) (omega (arith, h, ap one_if t)) in
            omega (arith, some_, ap one_if f)
      ])
