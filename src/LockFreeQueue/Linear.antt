-- ===== src/LockFreeQueue/Linear.antt =====
-- The queue that the threads share is a queue, and no thread meets a node that was deleted.
use game_programmer_portfoli.Base.{
  some, ℕ, ◌≡◌, ◌≢◌, inl, inr, refl, sym, if◌then◌else◌, subst, Bool, true, false, List, [], ◌==◌,
  arith, count, same, differs, Bool-cases,
}
use game_programmer_portfoli.LockFreeQueue.{
  Shared, Pc, Outcome, put, act, idle, enq_register, deq_register, fault, moves,
}
use game_programmer_portfoli.LockFreeQueue.Threads.{
  World, Step, Reaches, create, new_node, here, later, enqueue, try_dequeue, goes_on,
}
use game_programmer_portfoli.LockFreeQueue.Spec.{
  Runs, start, then_, empty, Event, Queue, meets, Does, begins_enqueue, begins_dequeue, offers,
}
use game_programmer_portfoli.LockFreeQueue.Invariant.{
  Links, Values, Ghost, Owns, is_left, free, made, linked,
}
use game_programmer_portfoli.LockFreeQueue.Fits.{IsSafe}
use game_programmer_portfoli.LockFreeQueue.Moves.{IsSafe-Moved, Heeds-nil, Moved}
use game_programmer_portfoli.LockFreeQueue.Quiet.{Good, quiet}
use game_programmer_portfoli.LockFreeQueue.Acts.{act-Good}
use game_programmer_portfoli.LockFreeQueue.Call.{makes-Moved}

module _ {T : Type 0} where
  Good-moves :
      (s : Shared T) (g : Ghost T) (t : ℕ) (pc : Pc T) (e : Event T) (s' : Shared T) (pc' : Pc T)
      (o : Outcome T)
      → o ≡ moves e s' pc'
      → Good s g t pc o
      → (g' : Ghost T) × (Does g.queue e g'.queue × Moved s g t pc s' g' pc')
  Good-moves s g t pc e s' pc' o d k = subst (Good s g t pc) d k

  Step-IsSafe :
      (w u : World T) (e : Event T) (g : Ghost T)
      → Step w e u
      → IsSafe w g
      → (g' : Ghost T) × (Does g.queue e g'.queue × IsSafe u g')
  Step-IsSafe w u e g (enqueue t item node i absent) k =
      let own = subst (Owns w.shared g t) i (k.owns t) in
      let g' : Ghost T = record {
        queue = offers g.queue t (some item);
        rest = g.rest;
        place = put g.place node (made t);
      } in
      (
        g',
        (
          begins_enqueue t item,
          IsSafe-Moved w g t (new_node w.shared node item) g' (enq_register item node) k (
              subst
                (λ x.
                  Moved w.shared g t x (new_node w.shared node item) g' (enq_register item node))
                (sym i) (makes-Moved w.shared g t k.memory own item node absent)),
        ),
      )
  Step-IsSafe w u e g (try_dequeue t i) k =
      let own = subst (Owns w.shared g t) i (k.owns t) in
      let g' : Ghost T = record g { queue = meets g.queue t false } in
      let s = w.shared in
      let m =
        quiet s g t idle k.memory own
          (record { first = s.first; second = s.second; records = s.records }) s.size s.retire_count
          (λ v. if v == t then false else g.queue.met_empty v) deq_register (λ v x. refl)
          (λ v x. refl) (λ v. omega arith) (λ v x. rw (differs v t x) refl) refl refl refl tt tt
          tt in
      (
        g',
        (
          begins_dequeue t,
          IsSafe-Moved w g t s g' deq_register k
              (subst (λ x. Moved s g t x s g' deq_register) (sym i) m),
        ),
      )
  Step-IsSafe w u e g (goes_on t b e' s' pc' d) k =
      let good = act-Good w.shared g t k.memory b (w.threads t) (k.owns t) (k.fits t) in
      let next =
        Good-moves w.shared g t (w.threads t) e' s' pc' (act w.shared t b (w.threads t)) d good in
      (next.0, (next.1.0, IsSafe-Moved w g t s' next.0 pc' k next.1.1))

  abbrev pub begun : ℕ → Ghost T
  begun sentinel = record {
    queue = empty;
    rest = [];
    place = λ n. if sentinel == n then linked else free;
  }

  pub create-IsSafe : (sentinel : ℕ) → IsSafe (create sentinel) (begun sentinel)
  unfolding count
  create-IsSafe sentinel = record {
    memory = record {
      links = rw (same sentinel) refl;
      values = tt;
      linked = λ n. elim (Bool-cases (sentinel == n)) [ inl e ↦ rw e refl | inr e ↦ rw e refl ];
      tail = rw (same sentinel) refl;
      retired = λ n. elim (Bool-cases (sentinel == n)) [ inl e ↦ rw e refl | inr e ↦ rw e refl ];
      there = λ n. elim (Bool-cases (sentinel == n)) [ inl e ↦ rw e refl | inr e ↦ rw e refl ];
      left = λ n e. absurd (not_left n e);
    };
    owns = λ t. record {
      made = λ n. elim (Bool-cases (sentinel == n)) [ inl e ↦ rw e refl | inr e ↦ rw e refl ];
      held = λ n. elim (Bool-cases (sentinel == n)) [ inl e ↦ rw e refl | inr e ↦ rw e refl ];
      fresh = λ item node e. absurd (ground (arith, e));
      offers = λ item node e. absurd (ground (arith, e));
    };
    fits = λ t. tt;
    heeds = λ t u. Heeds-nil idle idle u refl;
  }
    where
      not_left : (n : ℕ) → is_left (if sentinel == n then linked else free) ≡ true → ⊥
      not_left n e = ground (arith, e)

  pub Reaches-simulates :
      (w u : World T) (g : Ghost T) (es : List (Event T))
      → IsSafe w g
      → Reaches w es u
      → (g' : Ghost T) × (Runs g.queue es g'.queue × IsSafe u g')
  Reaches-simulates w u g es k here = (g, (start, k))
  Reaches-simulates w u g es k (later r s) =
      let before = Reaches-simulates w _ g _ k r in
      let after = Step-IsSafe _ u _ before.0 s before.1.1 in
      (after.0, (then_ before.1.0 after.1.0, after.1.1))

  -- The items of a queue stand in its nodes, in their order.
  abbrev pub Contains : World T → List T → Type 0
  Contains w items =
      (rest : List ℕ) × (Links w.shared.nodes w.shared.head rest × Values w.shared.nodes rest items)

  -- Over any interleaving of any number of threads that call `Enqueue` and `TryDequeue`, one load,
  -- store or exchange at a time, where a weak exchange may fail at any time and `new` returns any
  -- address that is not allocated, deleted ones included: the calls begun, the items linked, the
  -- items taken out and the calls that return false, in the order in which they happen, are a run
  -- of a queue, in which an item is added at the back, by a thread that has called `Enqueue` with
  -- it and has not added it yet, and taken at the front, and a call fails only if the queue was
  -- empty at some moment since the thread's last call of `TryDequeue` began; and the nodes behind
  -- `mHead` hold the items that are then in that queue, in its order.
  pub Reaches-linearizes :
      (sentinel : ℕ) (es : List (Event T)) (w : World T)
      → Reaches (create sentinel) es w
      → (q : Queue T) × (Runs empty es q × Contains w q.items)
  Reaches-linearizes sentinel es w r =
      let k =
        Reaches-simulates (create sentinel) w (begun sentinel) es (create-IsSafe sentinel) r in
      (k.0.queue, (k.1.0, (k.0.rest, (k.1.1.memory.links, k.1.1.memory.values))))

  Good-fault :
      (s : Shared T) (g : Ghost T) (t : ℕ) (pc : Pc T) (o : Outcome T) → Good s g t pc o → o ≢ fault
  Good-fault s g t pc o k e = subst (Good s g t pc) e k

  -- In any state that is reached by an interleaving of any number of threads that call `Enqueue`
  -- and `TryDequeue`, one load, store or exchange at a time, where `new` returns any address that
  -- is not allocated, no thread's next step reads through a pointer to a node that was deleted,
  -- deletes a node that was deleted, or reads a value from a node that has none.
  pub act_sound :
      (sentinel : ℕ) (es : List (Event T)) (w : World T) (t : ℕ) (spurious : Bool)
      → Reaches (create sentinel) es w
      → act w.shared t spurious (w.threads t) ≢ fault
  act_sound sentinel es w t b r =
      let k =
        Reaches-simulates (create sentinel) w (begun sentinel) es (create-IsSafe sentinel) r in
      let i = k.1.1 in
      Good-fault w.shared k.0 t (w.threads t) (act w.shared t b (w.threads t))
        (act-Good w.shared k.0 t i.memory b (w.threads t) (i.owns t) (i.fits t))
